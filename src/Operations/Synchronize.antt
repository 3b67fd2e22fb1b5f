-- ===== src/Operations/Synchronize.antt =====
-- sync.go
use plaklet.Base.{
  suc, ◌+◌, pos, ◌<>◌, Bool, true, false, ◌&&◌, ◌||◌, Option, none, some, List, [], ◌∷◌, ◌++◌, u64,
  i64_of_u64, ◌==◌, string_eq, nat_eq, if◌then◌else◌,
}
use plaklet.Errors.{Result, ok, err}
use plaklet.Protocol.Messages.{ExecPayload}
use plaklet.Protocol.Reports.{Mac, StoreIo, SyncReport, SyncsReport, bare_report}
use plaklet.Protocol.Configurations.{Configuration}
use plaklet.State.{Duration}
use plaklet.Locate.Options.{locate_options}
use plaklet.Job.Monad.{M, pure, act, acquire, ◌>>=◌, attempt, ensuring, closing, read, wrapping}
use plaklet.Operations.Env.{store_of, snapshot_of, jobs, Env, Header, SourceHeader, ParentQuery}
use plaklet.Operations.Connectors.{passphrase_of, mk_storage, open_repo}
use plaklet.Operations.Summaries.{Verdict, reported, with_both, logical_size, content}

abbrev pub bytes_beq : Mac → Mac → Bool
bytes_beq [] [] = true
bytes_beq (a ∷ as') (b ∷ bs) = (a == b) && bytes_beq as' bs
bytes_beq _ _ = false

-- `_, exists := present[id]`
unfoldable pub exists_in : Mac → List Mac → Bool
exists_in id [] = false
exists_in id (p ∷ ps) = bytes_beq id p || exists_in id ps

abbrev pub no_syncs : SyncsReport
no_syncs = record { took = pos 0; logical_size = 0; errors = 0; syncs = [] }

-- What the loop does with the result of one copy.
abbrev pub add_sync : Result SyncReport → SyncsReport → SyncsReport
add_sync (ok sr) ssr = record ssr {
  logical_size = u64 (ssr.logical_size + sr.logical_size);
  syncs = ssr.syncs ++ sr ∷ [];
}
add_sync (err e) ssr = record ssr { errors = u64 (suc ssr.errors) }

module _ (E : Env) where
  unfoldable pub sync_report : Header → Duration → StoreIo → StoreIo → SyncReport
  sync_report h took origin target =
      let src : SourceHeader = h.source in
      record {
        snapshot_id = h.identifier;
        snapshot_creation_time = h.timestamp;
        took = took;
        name = src.type <> (" sync of " <> src.origin);
        source_origin = src.origin;
        root = src.directory;
        size = i64_of_u64 (logical_size src);
        items = i64_of_u64 (u64 (src.top.files + src.below.files));
        tags = h.tags;
        environment = h.environment;
        category = h.category;
        dataset = h.dataset;
        data_classes = h.data_classes;
        logical_size = logical_size src;
        content = content src;
        origin = origin;
        target = target;
      }

  -- From the VFS cache to the report.
  unfoldable pub sync_with :
      E.Repo → E.Repo → E.Snapshot → E.Snapshot → Option E.Vfs → M (jobs E) SyncReport
  sync_with src_repo dst_repo src dst parent = do
    _ ← act (E.with_vfs_cache dst parent)
    start ← read E.now
    _ ← act (E.synchronize_snapshot src dst)
    read (λ w.
        sync_report (E.header dst w) (E.since w start)
          (record {
            bytes_read = E.repo_rbytes src_repo w;
            bytes_written = E.repo_wbytes src_repo w;
          })
          (record {
            bytes_read = E.repo_rbytes dst_repo w;
            bytes_written = E.repo_wbytes dst_repo w;
          }))

  unfoldable pub sync_parent :
      E.Repo → E.Repo → E.Snapshot → E.Snapshot → List Mac → M (jobs E) SyncReport
  sync_parent src_repo dst_repo src dst [] = sync_with src_repo dst_repo src dst none
  sync_parent src_repo dst_repo src dst (id ∷ ids) =
      acquire snapshot_of (E.load_snapshot dst_repo id) >>= λ parent. closing (snapshot_of parent) (
        act (E.filesystem_with_cache parent) >>= λ vfs.
        sync_with src_repo dst_repo src dst (some vfs))

  abbrev pub query_of : SourceHeader → ParentQuery
  query_of src = record { root = src.directory; type = src.type; origin = src.origin }

  unfoldable pub sync_into : E.Repo → E.Repo → E.Snapshot → E.Snapshot → M (jobs E) SyncReport
  sync_into src_repo dst_repo src dst = do
    h ← read (E.header src)
    _ ← act (E.set_header dst h)
    parents ← act (E.match_parent dst_repo (query_of h.source))
    sync_parent src_repo dst_repo src dst parents

  unfoldable pub sync_from : E.Repo → E.Repo → E.Snapshot → M (jobs E) SyncReport
  sync_from src_repo dst_repo src = do
    h ← read (E.header src)
    acquire snapshot_of (
          E.create_snapshot dst_repo (some h.identifier)
            (record { tags = []; environment = ""; dataset = ""; data_classes = [] }))
        >>= λ dst. closing (snapshot_of dst) (sync_into src_repo dst_repo src dst)

  unfoldable pub sync_snap : E.Repo → E.Repo → Mac → M (jobs E) SyncReport
  sync_snap src_repo dst_repo id = acquire snapshot_of (E.load_snapshot src_repo id) >>= λ src.
      closing (snapshot_of src) (sync_from src_repo dst_repo src)

  unfoldable pub sync_loop :
      E.Repo → E.Repo → List Mac → List Mac → SyncsReport → M (jobs E) SyncsReport
  sync_loop src_repo dst_repo present [] ssr = pure ssr
  sync_loop src_repo dst_repo present (id ∷ ids) ssr =
      if exists_in id present
      then sync_loop src_repo dst_repo present ids ssr
      else attempt (sync_snap src_repo dst_repo id)
          (λ r. sync_loop src_repo dst_repo present ids (add_sync r ssr))

  unfoldable pub sync_repos : ExecPayload → E.Repo → E.Repo → M (jobs E) Verdict
  sync_repos input src_repo dst_repo = do
    present ← wrapping "could not list peer snapshots" (act (E.list_snapshots dst_repo))
    lo ← read (λ w. locate_options E.locate_defaults E.parse_time (E.now w) input.task_config)
    ids ← wrapping "could not locate source snapshots" (act (E.locate_snapshot_ids src_repo lo))
    start ← read E.now
    ssr ← sync_loop src_repo dst_repo present ids no_syncs
    read (λ w.
        reported
          (record (bare_report input.op) { sync = some (record ssr { took = E.since w start }) }))

  unfoldable pub sync_target : ExecPayload → Configuration → E.Repo → E.Store → M (jobs E) Verdict
  sync_target input target src_repo st =
      open_repo E st (passphrase_of target) >>= sync_repos input src_repo

  unfoldable pub sync_source :
      ExecPayload → Configuration → Configuration → E.Store → M (jobs E) Verdict
  sync_source input source target st = do
    src_repo ← open_repo E st (passphrase_of source)
    mk_storage E target >>= λ dst. ensuring (store_of dst) (sync_target input target src_repo dst)

  unfoldable pub sync_both : ExecPayload → Configuration → Configuration → M (jobs E) Verdict
  sync_both input source target =
      mk_storage E source >>= λ st. ensuring (store_of st) (sync_source input source target st)

  unfoldable pub synchronize : ExecPayload → M (jobs E) Verdict
  synchronize input = with_both input.source input.target "sync" (sync_both input)
