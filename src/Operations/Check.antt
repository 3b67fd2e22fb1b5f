-- ===== src/Operations/Check.antt =====
-- check.go
use plaklet.Base.{
  ℕ, suc, pos, String, ◌<>◌, Bool, true, false, not, Option, none, some, List, [], ◌∷◌, ◌++◌,
  length, u64, sub_i64, decimal, ◌==◌, string_eq, nat_eq, if◌then◌else◌,
}
use plaklet.Errors.{Error, text}
use plaklet.Protocol.Messages.{ExecPayload}
use plaklet.Protocol.Reports.{Mac, CheckReport, ChecksReport, bare_report}
use plaklet.Protocol.Configurations.{Configuration}
use plaklet.Locate.Options.{locate_options}
use plaklet.Job.Monad.{M, pure, act, acquire, ◌>>=◌, attempt, on_result, ensuring, closing, read}
use plaklet.Operations.Env.{store_of, snapshot_of, cache_of, jobs, Env}
use plaklet.Operations.Connectors.{passphrase_of, mk_storage, open_repo}
use plaklet.Operations.Summaries.{Verdict, with_source}

-- The report of a check so far: its checks in order, and how many had errors.
abbrev pub add_check : CheckReport × Bool → ChecksReport → ChecksReport
add_check (c, failed) ccr = record ccr {
  errors = if failed then u64 (suc ccr.errors) else ccr.errors;
  checks = ccr.checks ++ c ∷ [];
}

abbrev pub no_checks : ChecksReport
no_checks = record { took = pos 0; logical_size = 0; errors = 0; checks = [] }

abbrev pub check_verdict : String → ChecksReport → Option Error → Verdict
check_verdict op ccr e = record {
  report = some (record (bare_report op) { check = some ccr });
  error = e;
}

-- The end of `check`.
unfoldable pub check_end : String → ℕ → ChecksReport → Verdict
check_end op n ccr =
    if not (ccr.errors == 0)
    then check_verdict op ccr (
        some (
          text (
            "check failed: "
            <> (decimal ccr.errors <> (" of " <> (decimal n <> " snapshot(s) had errors"))))))
    else check_verdict op ccr none

module _ (E : Env) where
  unfoldable pub check_opened :
      E.Repo → E.Cache → E.Snapshot × String → M (jobs E) (CheckReport × Bool)
  check_opened repo cache (snap, pathname) = do
    start ← read E.now
    rbefore ← read (E.repo_rbytes repo)
    wbefore ← read (E.repo_wbytes repo)
    failed ←
        attempt (act (E.check_snapshot snap cache pathname))
          (on_result (λ _. pure false) (λ e. pure true))
    read (λ w. (
      record {
        snapshot_id = (E.header snap w).identifier;
        took = E.since w start;
        store = record {
          bytes_read = sub_i64 (E.repo_rbytes repo w) rbefore;
          bytes_written = sub_i64 (E.repo_wbytes repo w) wbefore;
        };
      },
      failed,
    ))

  -- The body of the loop: the snapshot is closed before the next is opened.
  unfoldable pub check_one : E.Repo → E.Cache → Mac → M (jobs E) (CheckReport × Bool)
  check_one repo cache id = acquire (λ s. snapshot_of s.0) (E.open_by_path repo id) >>= λ s.
      closing (snapshot_of s.0) (check_opened repo cache s)

  -- A snapshot that does not open ends the loop with its error.
  unfoldable pub check_loop :
      String
      → E.Repo
      → E.Cache
      → List Mac
      → ChecksReport
      → (ChecksReport → M (jobs E) Verdict)
      → M (jobs E) Verdict
  check_loop op repo cache [] ccr end = end ccr
  check_loop op repo cache (id ∷ ids) ccr end = attempt (check_one repo cache id) (
      on_result (λ c. check_loop op repo cache ids (add_check c ccr) end)
        (λ e. pure (check_verdict op ccr (some e))))

  unfoldable pub check_all : String → E.Repo → List Mac → E.Cache → M (jobs E) Verdict
  check_all op repo ids cache = do
    start ← read E.now
    check_loop op repo cache ids no_checks
        (λ ccr. read (λ w. check_end op (length ids) (record ccr { took = E.since w start })))

  unfoldable pub check_store : ExecPayload → Configuration → E.Store → M (jobs E) Verdict
  check_store input source st = do
    repo ← open_repo E st (passphrase_of source)
    lo ← read (λ w. locate_options E.locate_defaults E.parse_time (E.now w) input.task_config)
    ids ← act (E.locate_snapshot_ids repo lo)
    acquire cache_of E.open_check_cache >>= λ cache.
        closing (cache_of cache) (check_all input.op repo ids cache)

  unfoldable pub check : ExecPayload → M (jobs E) Verdict
  check input =
      with_source input.source "source must be set for check" (λ source.
        mk_storage E source >>= λ st. ensuring (store_of st) (check_store input source st))
