-- ===== src/Operations/Verdicts/Snapshots.antt =====
-- backup.go, check.go, restore.go and sync.go.
use plaklet.Base.{◌≡◌, refl, ◌≤◌, String, Option, List, [], ◌∷◌, length, nat_eq, arith}
use plaklet.Protocol.Messages.{ExecPayload}
use plaklet.Protocol.Configurations.{Configuration}
use plaklet.Protocol.Reports.{Mac, ChecksReport, SyncsReport}
use plaklet.Job.Monad.{M}
use plaklet.Job.Outcomes.{
  Yields, yields, Yields-pure, Yields-bind, Yields-bind_with, Yields-attempt, Yields-on_result,
  Yields-read, Yields-if,
}
use plaklet.Operations.Env.{jobs, Env}
use plaklet.Operations.Summaries.{Verdict}
use plaklet.Operations.Verdicts.Kinds.{
  IsVerdict, backed_up, checked, restored, synchronized, Yields-with_source, Yields-with_both,
}
use plaklet.Operations.Verdicts.Counts.{
  add_check-errors_le, IsSummed, add_sync-IsSummed, check_end-IsVerdict,
}
use plaklet.Operations.Backup.{backup_with, backup_parent, backup_source, backup_both, backup}
use plaklet.Operations.Check.{add_check, check_loop, check_all, check_store, check, no_checks}
use plaklet.Operations.Restore.{restore_opened, restore_store, restore_both, restore}
use plaklet.Operations.Synchronize.{
  sync_loop, sync_repos, sync_target, sync_source, sync_both, synchronize, add_sync, no_syncs,
  exists_in,
}

module _ (E : Env) where
  backup_with-IsVerdict :
      (input : ExecPayload) (source : Configuration) (repo : E.Repo) (snap : E.Snapshot)
      (src : E.Source) (parent : Option E.Vfs)
      → input.op ≡ "backup"
      → Yields (IsVerdict input.op) (backup_with E input source repo snap src parent)
  unfolding backup_with
  backup_with-IsVerdict input source repo snap src parent o = search (yields, backed_up) depth 8

  backup_parent-IsVerdict :
      (input : ExecPayload) (source : Configuration) (repo : E.Repo) (snap : E.Snapshot)
      (src : E.Source) (ids : List Mac)
      → input.op ≡ "backup"
      → Yields (IsVerdict input.op) (backup_parent E input source repo snap src ids)
  unfolding backup_parent
  backup_parent-IsVerdict input source repo snap src [] o = backup_with-IsVerdict _ _ _ _ _ _ o
  backup_parent-IsVerdict input source repo snap src (id ∷ ids) o =
      search (yields, backup_with-IsVerdict) depth 8

  backup_both-IsVerdict :
      (input : ExecPayload) (source target : Configuration)
      → input.op ≡ "backup"
      → Yields (IsVerdict input.op) (backup_both E input source target)
  unfolding backup_both backup_source
  backup_both-IsVerdict input source target o = search (yields, backup_parent-IsVerdict) depth 14

  pub backup-IsVerdict :
      (input : ExecPayload) → input.op ≡ "backup" → Yields (IsVerdict input.op) (backup E input)
  unfolding backup
  backup-IsVerdict input o = Yields-with_both _ _ _ _ _ (λ c d. backup_both-IsVerdict input c d o)

  check_loop-IsVerdict :
      (op : String) (repo : E.Repo) (cache : E.Cache) (ids : List Mac) (ccr : ChecksReport)
      (end : ChecksReport → M (jobs E) Verdict)
      → op ≡ "check"
      → ((c : ChecksReport) → c.errors ≤ length c.checks → Yields (IsVerdict op) (end c))
      → ccr.errors ≤ length ccr.checks
      → Yields (IsVerdict op) (check_loop E op repo cache ids ccr end)
  unfolding check_loop
  check_loop-IsVerdict op repo cache [] ccr end o h le = h ccr le
  check_loop-IsVerdict op repo cache (id ∷ ids) ccr end o h le = Yields-attempt _ _ _ (λ r.
      Yields-on_result _ _ _ r
        (λ c.
          check_loop-IsVerdict op repo cache ids (add_check c ccr) end o h
            (add_check-errors_le c.0 c.1 ccr le))
        (λ e. Yields-pure _ _ (checked o (le, λ n. cc))))

  check_all-IsVerdict :
      (op : String) (repo : E.Repo) (ids : List Mac) (cache : E.Cache)
      → op ≡ "check"
      → Yields (IsVerdict op) (check_all E op repo ids cache)
  unfolding check_all
  check_all-IsVerdict op repo ids cache o = Yields-bind _ _ _ (λ start.
      check_loop-IsVerdict op repo cache ids no_checks _ o
        (λ c le. Yields-read _ _ (λ w. check_end-IsVerdict op _ _ o le)) (omega arith))

  pub check-IsVerdict :
      (input : ExecPayload) → input.op ≡ "check" → Yields (IsVerdict input.op) (check E input)
  unfolding check check_store
  check-IsVerdict input o = search (Yields-with_source, yields, check_all-IsVerdict) depth 14

  restore_both-IsVerdict :
      (input : ExecPayload) (source target : Configuration)
      → input.op ≡ "restore"
      → Yields (IsVerdict input.op) (restore_both E input source target)
  unfolding restore_both restore_store restore_opened
  restore_both-IsVerdict input source target o = search (yields, restored) depth 20

  pub restore-IsVerdict :
      (input : ExecPayload) → input.op ≡ "restore" → Yields (IsVerdict input.op) (restore E input)
  unfolding restore
  restore-IsVerdict input o = Yields-with_both _ _ _ _ _ (λ c d. restore_both-IsVerdict input c d o)

  sync_loop-IsSummed :
      (src_repo dst_repo : E.Repo) (present ids : List Mac) (ssr : SyncsReport)
      → IsSummed ssr
      → Yields IsSummed (sync_loop E src_repo dst_repo present ids ssr)
  unfolding sync_loop
  sync_loop-IsSummed src_repo dst_repo present [] ssr h = Yields-pure _ _ h
  sync_loop-IsSummed src_repo dst_repo present (id ∷ ids) ssr h =
      Yields-if _ (exists_in id present) _ _
        (sync_loop-IsSummed src_repo dst_repo present ids ssr h)
        (Yields-attempt _ _ _ (λ r.
          sync_loop-IsSummed src_repo dst_repo present ids (add_sync r ssr)
            (add_sync-IsSummed r ssr h)))

  sync_repos-IsVerdict :
      (input : ExecPayload) (src_repo dst_repo : E.Repo)
      → input.op ≡ "sync"
      → Yields (IsVerdict input.op) (sync_repos E input src_repo dst_repo)
  unfolding sync_repos
  sync_repos-IsVerdict input src_repo dst_repo o = Yields-bind _ _ _ (λ present.
      Yields-bind _ _ _ (λ lo. Yields-bind _ _ _ (λ ids. Yields-bind _ _ _ (λ start.
        Yields-bind_with _ IsSummed _ _
          (sync_loop-IsSummed src_repo dst_repo present ids no_syncs refl)
          (λ ssr h. Yields-read _ _ (λ w. synchronized o h))))))

  sync_both-IsVerdict :
      (input : ExecPayload) (source target : Configuration)
      → input.op ≡ "sync"
      → Yields (IsVerdict input.op) (sync_both E input source target)
  unfolding sync_both sync_source sync_target
  sync_both-IsVerdict input source target o = search (yields, sync_repos-IsVerdict) depth 14

  pub synchronize-IsVerdict :
      (input : ExecPayload) → input.op ≡ "sync" → Yields (IsVerdict input.op) (synchronize E input)
  unfolding synchronize
  synchronize-IsVerdict input o =
      Yields-with_both _ _ _ _ _ (λ c d. sync_both-IsVerdict input c d o)
