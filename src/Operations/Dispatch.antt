-- ===== src/Operations/Dispatch.antt =====
-- plaklet.go: `dispatch`; prune.go: `prune`; maintenance.go: `maintenance`
use plaklet.Base.{String, ◌<>◌, ◌==◌, string_eq, nat_eq, if◌then◌else◌}
use plaklet.Errors.{text, unsupported}
use plaklet.Protocol.Messages.{ExecPayload}
use plaklet.Job.Monad.{M, fail}
use plaklet.Operations.Env.{jobs, Env}
use plaklet.Operations.Summaries.{Verdict, with_source}
use plaklet.Operations.Backup.{backup}
use plaklet.Operations.Check.{check}
use plaklet.Operations.Create.{create}
use plaklet.Operations.Restore.{restore}
use plaklet.Operations.Remove.{rm}
use plaklet.Operations.Synchronize.{synchronize}
use plaklet.Operations.Probe.{test}
use plaklet.Operations.Inventories.{list_inventory}

module _ (E : Env) where
  unfoldable pub prune : ExecPayload → M (jobs E) Verdict
  prune input = with_source input.source "target need to be set for prune" (λ _. fail unsupported)

  unfoldable pub maintenance : ExecPayload → M (jobs E) Verdict
  maintenance input =
      with_source input.source "target need to be set for maintenance" (λ _. fail unsupported)

  unfoldable pub dispatch : ExecPayload → M (jobs E) Verdict
  dispatch input =
      let op : String = input.op in
      if op == "backup"
      then backup E input
      else if op == "check"
      then check E input
      else if op == "create"
      then create E input
      else if op == "maintenance"
      then maintenance input
      else if op == "prune"
      then prune input
      else if op == "restore"
      then restore E input
      else if op == "rm"
      then rm E input
      else if op == "sync"
      then synchronize E input
      else if op == "test"
      then test E input
      else if op == "inventory"
      then list_inventory E input
      else fail (text ("unsupported operation \"" <> (op <> "\"")))
