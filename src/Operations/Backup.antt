-- ===== src/Operations/Backup.antt =====
-- backup.go
use plaklet.Base.{
  ◌+◌, ℤ, ◌<>◌, Option, none, some, List, [], ◌∷◌, u64, i64_of_u64, string_eq, if◌then◌else◌,
}
use plaklet.Errors.{ok}
use plaklet.Protocol.Messages.{ExecPayload}
use plaklet.Protocol.Reports.{Mac, BackupReport, bare_report}
use plaklet.Protocol.Configurations.{Configuration}
use plaklet.Protocol.IndexedLists.{indexed_list}
use plaklet.Job.Monad.{M, pure, act, acquire, ◌>>=◌, attempt, on_result, ensuring, closing}
use plaklet.Operations.Env.{importer_of, store_of, snapshot_of, jobs, Env, Header, SourceHeader}
use plaklet.Operations.Connectors.{passphrase_of, mk_importer, mk_storage, open_repo}
use plaklet.Operations.Summaries.{Verdict, reported, with_both, logical_size, content}

module _ (E : Env) where
  unfoldable pub backup_report : Configuration → Header → ℤ → ℤ → BackupReport
  backup_report source h rbytes wbytes =
      let src : SourceHeader = h.source in
      record {
        snapshot_id = h.identifier;
        snapshot_creation_time = h.timestamp;
        took = h.duration;
        name = src.type <> (" backup of " <> src.origin);
        origin = src.origin;
        root = src.directory;
        size = i64_of_u64 (logical_size src);
        items = i64_of_u64 (u64 (src.top.files + src.below.files));
        tags = h.tags;
        environment = h.environment;
        category = h.category;
        dataset = h.dataset;
        data_classes = h.data_classes;
        logical_size = logical_size src;
        content = content src;
        errors = i64_of_u64 (u64 (src.top.errors + src.below.errors));
        store = record { bytes_read = rbytes; bytes_written = wbytes };
        urn = source.urn;
        urnid = source.urnid;
      }

  -- From the VFS cache to the report.
  unfoldable pub backup_with :
      ExecPayload
      → Configuration
      → E.Repo
      → E.Snapshot
      → E.Source
      → Option E.Vfs
      → M (jobs E) Verdict
  backup_with input source repo snap src parent = do
    _ ← act (E.with_vfs_cache snap parent)
    _ ← act (E.backup_snapshot snap src)
    _ ← act (E.commit_snapshot snap)
    act (λ w. (
      ok (
          reported (record (bare_report input.op) {
            backup = some (
                backup_report source (E.header snap w) (E.repo_rbytes repo w)
                  (E.repo_wbytes repo w));
          })),
      w,
    ))

  -- A parent that does not load, or whose VFS does not, is printed and passed over.
  unfoldable pub backup_parent :
      ExecPayload → Configuration → E.Repo → E.Snapshot → E.Source → List Mac → M (jobs E) Verdict
  backup_parent input source repo snap src [] = backup_with input source repo snap src none
  backup_parent input source repo snap src (id ∷ ids) =
      attempt (acquire snapshot_of (E.load_snapshot repo id)) (
        on_result
          (λ parent. closing (snapshot_of parent) (
            attempt (act (E.filesystem_with_cache parent)) (
              on_result (λ vfs. backup_with input source repo snap src (some vfs))
                (λ e. backup_with input source repo snap src none))))
          (λ e. backup_with input source repo snap src none))

  unfoldable pub backup_source :
      ExecPayload → Configuration → E.Importer → E.Repo → E.Snapshot → M (jobs E) Verdict
  backup_source input source imp repo snap = do
    src ← act (E.new_source repo imp)
    parents ←
        (if E.importer_nocache imp then pure [] else act (E.match_parent repo (E.source_query src)))
    backup_parent input source repo snap src parents

  unfoldable pub backup_both : ExecPayload → Configuration → Configuration → M (jobs E) Verdict
  backup_both input source target = do
    imp ← mk_importer E source (indexed_list input.task_config "ignores")
    ensuring (importer_of imp) (do
      st ← mk_storage E target
      ensuring (store_of st) (do
        repo ← open_repo E st (passphrase_of target)
        snap ← acquire snapshot_of (
            E.create_snapshot repo none (record {
              tags = indexed_list input.task_config "labels";
              environment = source.environment;
              dataset = source.id;
              data_classes = source.data_classes;
            }))
        closing (snapshot_of snap) (backup_source input source imp repo snap)))

  unfoldable pub backup : ExecPayload → M (jobs E) Verdict
  backup input = with_both input.source input.target "backup" (backup_both input)
