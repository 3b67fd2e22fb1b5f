-- ===== src/Operations/Restore.antt =====
-- restore.go
use Prim.Native.Char.{code}
use plaklet.Base.{
  ℤ, String, Bool, true, false, not, some, List, [], ◌∷◌, length, ◌==◌, string_eq, nat_eq,
  if◌then◌else◌,
}
use plaklet.Errors.{text}
use plaklet.Protocol.Messages.{ExecPayload}
use plaklet.Protocol.Reports.{Mac, RestoreReport, bare_report}
use plaklet.Protocol.Configurations.{Configuration}
use plaklet.Locate.Options.{LocateOptions, locate_options}
use plaklet.Job.Monad.{M, pure, fail, act, acquire, ◌>>=◌, ensuring, closing, read, wrapping}
use plaklet.Operations.Env.{exporter_of, store_of, snapshot_of, jobs, Env, Header}
use plaklet.Operations.Connectors.{passphrase_of, mk_exporter, mk_storage, open_repo}
use plaklet.Operations.Summaries.{Verdict, reported, with_both, logical_size, content}

-- `strings.HasSuffix(s, "/")`
unfoldable pub ends_in_slash : String → Bool
ends_in_slash String.[] = false
ends_in_slash (String.◌∷◌ c String.[]) = code c == 47
ends_in_slash (String.◌∷◌ c (String.◌∷◌ d s)) = ends_in_slash (String.◌∷◌ d s)

-- One id selects a snapshot; else the latest match is taken.
unfoldable pub restore_options : LocateOptions → LocateOptions
restore_options lo =
    if not (length lo.filters.ids == 1)
    then record lo { filters = record lo.filters { latest = true } }
    else lo

module _ (E : Env) where
  unfoldable pub single : List Mac → M (jobs E) Mac
  single [] = fail (text "no snapshots found")
  single (id ∷ []) = pure id
  single (id ∷ id' ∷ ids) = fail (text "multiple snapshots found, please specify one")

  -- `opts.Strip`
  unfoldable pub strip : String → String → String
  strip pathname relative =
      if relative == ""
      then ""
      else if not (ends_in_slash relative)
      then E.path_dir pathname
      else pathname

  unfoldable pub restore_report : Header → ℤ → ℤ → RestoreReport
  restore_report h rbytes wbytes = record {
    snapshot_id = h.identifier;
    took = h.duration;
    logical_size = logical_size h.source;
    content = content h.source;
    errors = 0;
    store = record { bytes_read = rbytes; bytes_written = wbytes };
  }

  unfoldable pub restore_opened :
      ExecPayload → E.Exporter → E.Repo → E.Snapshot × String × String → M (jobs E) Verdict
  restore_opened input exp repo (snap, pathname, relative) = do
    _ ← act (E.export_snapshot snap exp pathname (strip pathname relative))
    read (λ w. reported (record (bare_report input.op) {
      restore =
          some (restore_report (E.header snap w) (E.repo_rbytes repo w) (E.repo_wbytes repo w));
    }))

  unfoldable pub restore_store :
      ExecPayload → Configuration → E.Exporter → E.Store → M (jobs E) Verdict
  restore_store input source exp st = do
    repo ← open_repo E st (passphrase_of source)
    lo ← read (λ w. locate_options E.locate_defaults E.parse_time (E.now w) input.task_config)
    ids ←
        wrapping "could not fetch snapshots list"
          (act (E.locate_snapshot_ids repo (restore_options lo)))
    id ← single ids
    acquire (λ s. snapshot_of s.0) (E.open_by_path_relative repo id) >>= λ s.
        closing (snapshot_of s.0) (restore_opened input exp repo s)

  unfoldable pub restore_both : ExecPayload → Configuration → Configuration → M (jobs E) Verdict
  restore_both input source target = mk_exporter E target >>= λ exp.
      ensuring (exporter_of exp)
        (mk_storage E source >>= λ st. ensuring (store_of st) (restore_store input source exp st))

  unfoldable pub restore : ExecPayload → M (jobs E) Verdict
  restore input = with_both input.source input.target "restore" (restore_both input)
