-- ===== src/Operations/Create.antt =====
-- create.go
use plaklet.Base.{
  String, ◌<>◌, not, ◌||◌, Option, none, some, Map, ◌==◌, string_eq, nat_eq, if◌then◌else◌,
}
use plaklet.Protocol.Messages.{ExecPayload}
use plaklet.Protocol.Configurations.{Configuration}
use plaklet.Locate.Options.{text_at}
use plaklet.Job.Monad.{M, pure, lift, act, ◌>>=◌, ensuring, wrapping}
use plaklet.Operations.Env.{store_of, jobs, Env}
use plaklet.Operations.Connectors.{passphrase_of, mk_storage}
use plaklet.Operations.Summaries.{Verdict, silent, with_source}

module _ (E : Env) where
  unfoldable pub create_compression : Map String → M (jobs E) (Option E.Compression)
  create_compression cfg =
      if text_at cfg "no_compression" == "true"
      then pure none
      else if not (text_at cfg "compression" == "")
      then wrapping ("compression algorithm \"" <> (text_at cfg "compression" <> "\"")) (
          lift (E.lookup_compression (E.to_upper (text_at cfg "compression"))) >>= λ c.
          pure (some c))
      else pure (some E.default_compression)

  unfoldable pub create_key : Map String → String → M (jobs E) (Option E.Key)
  create_key cfg passphrase =
      if text_at cfg "no_encryption" == "true" || passphrase == ""
      then pure none
      else lift (E.derive_key E.default_encryption passphrase) >>= λ key.
          lift (E.derive_canary E.default_encryption key) >>= λ _. pure (some key)

  unfoldable pub create_in : ExecPayload → Configuration → E.Store → M (jobs E) Verdict
  create_in input source st = do
    compression ← create_compression input.task_config
    key ← create_key input.task_config (passphrase_of source)
    wrapped ← act (E.serialize (record { compression = compression; key = key }))
    _ ← act (E.create_store st wrapped)
    pure silent

  unfoldable pub create : ExecPayload → M (jobs E) Verdict
  create input =
      with_source input.source "source must be set for create"
        (λ source. mk_storage E source >>= λ st. ensuring (store_of st) (create_in input source st))
