-- ===== src/Operations/Probe.antt =====
-- test.go
use plaklet.Base.{◌<>◌, [], ◌==◌, string_eq, nat_eq, if◌then◌else◌}
use plaklet.Errors.{text}
use plaklet.Protocol.Messages.{ExecPayload}
use plaklet.Protocol.Configurations.{Configuration}
use plaklet.Job.Monad.{M, pure, fail, act, ◌>>=◌, attempt, ensuring}
use plaklet.Operations.Env.{importer_of, exporter_of, store_of, jobs, Env}
use plaklet.Operations.Connectors.{passphrase_of, mk_importer, mk_exporter, mk_storage, open_repo}
use plaklet.Operations.Summaries.{Verdict, silent, with_source}

module _ (E : Env) where
  unfoldable pub test_store : Configuration → M (jobs E) Verdict
  test_store target = mk_storage E target >>= λ st. ensuring (store_of st) (
      open_repo E st (passphrase_of target) >>= λ repo.
      attempt (act (E.close_repo repo)) (λ r. pure silent))

  unfoldable pub test_source : Configuration → M (jobs E) Verdict
  test_source target = mk_importer E target [] >>= λ imp.
      ensuring (importer_of imp) (act (E.ping_importer imp) >>= λ _. pure silent)

  unfoldable pub test_destination : Configuration → M (jobs E) Verdict
  test_destination target = mk_exporter E target >>= λ exp.
      ensuring (exporter_of exp) (act (E.ping_exporter exp) >>= λ _. pure silent)

  unfoldable pub test_type : Configuration → M (jobs E) Verdict
  test_type source =
      if source.type == "store"
      then test_store source
      else if source.type == "source"
      then test_source source
      else if source.type == "destination"
      then test_destination source
      else fail (text ("test: " <> (source.type <> ": invalid source type")))

  unfoldable pub test : ExecPayload → M (jobs E) Verdict
  test input = with_source input.source "source must be set for test" test_type
