-- ===== src/Operations/Closing/Snapshots.antt =====
-- backup.go, check.go, restore.go and sync.go: operations on snapshots.
use plaklet.Base.{String, Option, List, [], ◌∷◌}
use plaklet.Protocol.Messages.{ExecPayload}
use plaklet.Protocol.Configurations.{Configuration}
use plaklet.Protocol.Reports.{Mac, ChecksReport, SyncsReport}
use plaklet.Job.Monad.{M}
use plaklet.Job.Balance.{IsBalanced, balance}
use plaklet.Operations.Env.{jobs, Env}
use plaklet.Operations.Summaries.{Verdict}
use plaklet.Operations.Closing.Connectors.{opening}
use plaklet.Operations.Closing.Sources.{IsBalanced-with_source, IsBalanced-with_both}
use plaklet.Operations.Backup.{backup_with, backup_parent, backup_source, backup_both, backup}
use plaklet.Operations.Check.{check_opened, check_one, check_loop, check_all, check_store, check}
use plaklet.Operations.Restore.{single, restore_opened, restore_store, restore_both, restore}
use plaklet.Operations.Synchronize.{
  sync_with, sync_parent, sync_into, sync_from, sync_snap, sync_loop, sync_repos, sync_target,
  sync_source, sync_both, synchronize,
}

module _ (E : Env) where
  IsBalanced-backup_with :
      (input : ExecPayload) (source : Configuration) (repo : E.Repo) (snap : E.Snapshot)
      (src : E.Source) (parent : Option E.Vfs)
      → IsBalanced (backup_with E input source repo snap src parent)
  unfolding backup_with
  IsBalanced-backup_with input source repo snap src parent = search balance depth 8

  IsBalanced-backup_parent :
      (input : ExecPayload) (source : Configuration) (repo : E.Repo) (snap : E.Snapshot)
      (src : E.Source) (ids : List Mac)
      → IsBalanced (backup_parent E input source repo snap src ids)
  unfolding backup_parent
  IsBalanced-backup_parent input source repo snap src [] = IsBalanced-backup_with _ _ _ _ _ _
  IsBalanced-backup_parent input source repo snap src (id ∷ ids) =
      search (balance, IsBalanced-backup_with) depth 8

  IsBalanced-backup_source :
      (input : ExecPayload) (source : Configuration) (imp : E.Importer) (repo : E.Repo)
      (snap : E.Snapshot)
      → IsBalanced (backup_source E input source imp repo snap)
  unfolding backup_source
  IsBalanced-backup_source input source imp repo snap = search (balance, IsBalanced-backup_parent)

  IsBalanced-backup_both :
      (input : ExecPayload) (source target : Configuration)
      → IsBalanced (backup_both E input source target)
  unfolding backup_both
  IsBalanced-backup_both input source target = search (opening, IsBalanced-backup_source) depth 8

  pub IsBalanced-backup : (input : ExecPayload) → IsBalanced (backup E input)
  unfolding backup
  IsBalanced-backup input = IsBalanced-with_both _ _ _ _ (IsBalanced-backup_both input)

  IsBalanced-check_opened :
      (repo : E.Repo) (cache : E.Cache) (s : E.Snapshot × String)
      → IsBalanced (check_opened E repo cache s)
  unfolding check_opened
  IsBalanced-check_opened repo cache (snap, pathname) = search balance depth 8

  IsBalanced-check_one :
      (repo : E.Repo) (cache : E.Cache) (id : Mac) → IsBalanced (check_one E repo cache id)
  unfolding check_one
  IsBalanced-check_one repo cache id = search (balance, IsBalanced-check_opened)

  IsBalanced-check_loop :
      (op : String) (repo : E.Repo) (cache : E.Cache) (ids : List Mac) (ccr : ChecksReport)
      (end : ChecksReport → M (jobs E) Verdict)
      → ((c : ChecksReport) → IsBalanced (end c))
      → IsBalanced (check_loop E op repo cache ids ccr end)
  unfolding check_loop
  IsBalanced-check_loop op repo cache [] ccr end h = h ccr
  IsBalanced-check_loop op repo cache (id ∷ ids) ccr end h = search (
    balance,
    IsBalanced-check_one,
    λ (ccr' : ChecksReport). IsBalanced-check_loop op repo cache ids ccr' end h,
  )

  IsBalanced-check_all :
      (op : String) (repo : E.Repo) (ids : List Mac) (cache : E.Cache)
      → IsBalanced (check_all E op repo ids cache)
  unfolding check_all
  IsBalanced-check_all op repo ids cache = search (balance, IsBalanced-check_loop)

  IsBalanced-check_store :
      (input : ExecPayload) (source : Configuration) (st : E.Store)
      → IsBalanced (check_store E input source st)
  unfolding check_store
  IsBalanced-check_store input source st = search (opening, IsBalanced-check_all) depth 8

  pub IsBalanced-check : (input : ExecPayload) → IsBalanced (check E input)
  unfolding check
  IsBalanced-check input = search (IsBalanced-with_source, opening, IsBalanced-check_store)

  IsBalanced-single : (ids : List Mac) → IsBalanced (single E ids)
  unfolding single
  IsBalanced-single [] = search balance
  IsBalanced-single (id ∷ []) = search balance
  IsBalanced-single (id ∷ id' ∷ ids) = search balance

  IsBalanced-restore_opened :
      (input : ExecPayload) (exp : E.Exporter) (repo : E.Repo) (s : E.Snapshot × String × String)
      → IsBalanced (restore_opened E input exp repo s)
  unfolding restore_opened
  IsBalanced-restore_opened input exp repo (snap, pathname, relative) = search balance

  IsBalanced-restore_store :
      (input : ExecPayload) (source : Configuration) (exp : E.Exporter) (st : E.Store)
      → IsBalanced (restore_store E input source exp st)
  unfolding restore_store
  IsBalanced-restore_store input source exp st =
      search (opening, IsBalanced-restore_opened, IsBalanced-single) depth 9

  IsBalanced-restore_both :
      (input : ExecPayload) (source target : Configuration)
      → IsBalanced (restore_both E input source target)
  unfolding restore_both
  IsBalanced-restore_both input source target = search (opening, IsBalanced-restore_store) depth 8

  pub IsBalanced-restore : (input : ExecPayload) → IsBalanced (restore E input)
  unfolding restore
  IsBalanced-restore input = IsBalanced-with_both _ _ _ _ (IsBalanced-restore_both input)

  IsBalanced-sync_with :
      (src_repo dst_repo : E.Repo) (src dst : E.Snapshot) (parent : Option E.Vfs)
      → IsBalanced (sync_with E src_repo dst_repo src dst parent)
  unfolding sync_with
  IsBalanced-sync_with src_repo dst_repo src dst parent = search balance depth 8

  IsBalanced-sync_parent :
      (src_repo dst_repo : E.Repo) (src dst : E.Snapshot) (ids : List Mac)
      → IsBalanced (sync_parent E src_repo dst_repo src dst ids)
  unfolding sync_parent
  IsBalanced-sync_parent src_repo dst_repo src dst [] = IsBalanced-sync_with _ _ _ _ _
  IsBalanced-sync_parent src_repo dst_repo src dst (id ∷ ids) =
      search (balance, IsBalanced-sync_with)

  IsBalanced-sync_into :
      (src_repo dst_repo : E.Repo) (src dst : E.Snapshot)
      → IsBalanced (sync_into E src_repo dst_repo src dst)
  unfolding sync_into
  IsBalanced-sync_into src_repo dst_repo src dst = search (balance, IsBalanced-sync_parent) depth 8

  IsBalanced-sync_from :
      (src_repo dst_repo : E.Repo) (src : E.Snapshot)
      → IsBalanced (sync_from E src_repo dst_repo src)
  unfolding sync_from
  IsBalanced-sync_from src_repo dst_repo src = search (balance, IsBalanced-sync_into)

  IsBalanced-sync_snap :
      (src_repo dst_repo : E.Repo) (id : Mac) → IsBalanced (sync_snap E src_repo dst_repo id)
  unfolding sync_snap
  IsBalanced-sync_snap src_repo dst_repo id = search (balance, IsBalanced-sync_from)

  IsBalanced-sync_loop :
      (src_repo dst_repo : E.Repo) (present ids : List Mac) (ssr : SyncsReport)
      → IsBalanced (sync_loop E src_repo dst_repo present ids ssr)
  unfolding sync_loop
  IsBalanced-sync_loop src_repo dst_repo present [] ssr = search balance
  IsBalanced-sync_loop src_repo dst_repo present (id ∷ ids) ssr = search (
    balance,
    IsBalanced-sync_snap,
    λ (ssr' : SyncsReport). IsBalanced-sync_loop src_repo dst_repo present ids ssr',
  )

  IsBalanced-sync_repos :
      (input : ExecPayload) (src_repo dst_repo : E.Repo)
      → IsBalanced (sync_repos E input src_repo dst_repo)
  unfolding sync_repos
  IsBalanced-sync_repos input src_repo dst_repo = search (balance, IsBalanced-sync_loop) depth 9

  IsBalanced-sync_target :
      (input : ExecPayload) (target : Configuration) (src_repo : E.Repo) (st : E.Store)
      → IsBalanced (sync_target E input target src_repo st)
  unfolding sync_target
  IsBalanced-sync_target input target src_repo st = search (opening, IsBalanced-sync_repos)

  IsBalanced-sync_source :
      (input : ExecPayload) (source target : Configuration) (st : E.Store)
      → IsBalanced (sync_source E input source target st)
  unfolding sync_source
  IsBalanced-sync_source input source target st = search (opening, IsBalanced-sync_target) depth 8

  IsBalanced-sync_both :
      (input : ExecPayload) (source target : Configuration)
      → IsBalanced (sync_both E input source target)
  unfolding sync_both
  IsBalanced-sync_both input source target = search (opening, IsBalanced-sync_source)

  pub IsBalanced-synchronize : (input : ExecPayload) → IsBalanced (synchronize E input)
  unfolding synchronize
  IsBalanced-synchronize input = IsBalanced-with_both _ _ _ _ (IsBalanced-sync_both input)
