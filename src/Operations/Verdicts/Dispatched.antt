-- ===== src/Operations/Verdicts/Dispatched.antt =====
-- plaklet.go: `dispatch`.
use plaklet.Base.{nat_eq}
use plaklet.Protocol.Messages.{ExecPayload}
use plaklet.Job.Outcomes.{Yields, Yields-fail, Yields-test}
use plaklet.Operations.Env.{Env}
use plaklet.Operations.Verdicts.Kinds.{IsVerdict}
use plaklet.Operations.Verdicts.Sources.{
  create-IsVerdict, rm-IsVerdict, test-IsVerdict, list_inventory-IsVerdict, prune-IsVerdict,
  maintenance-IsVerdict,
}
use plaklet.Operations.Verdicts.Snapshots.{
  backup-IsVerdict, check-IsVerdict, restore-IsVerdict, synchronize-IsVerdict,
}
use plaklet.Operations.Dispatch.{dispatch}

module _ (E : Env) where
  ruleset verdicts = (
    create-IsVerdict, rm-IsVerdict, test-IsVerdict, list_inventory-IsVerdict, prune-IsVerdict,
    maintenance-IsVerdict, backup-IsVerdict, check-IsVerdict, restore-IsVerdict,
    synchronize-IsVerdict,
  )

  -- Whatever the libraries do, a job whose dispatch returns without failing outright has a verdict of
  -- its own operation: no report, or a report typed by the operation and with its part only. A
  -- check has at most one error for each check it lists, and none if it returns no error; the size
  -- of a sync is that of its copies, as a uint64.
  pub dispatch-IsVerdict : (input : ExecPayload) → Yields (IsVerdict input.op) (dispatch E input)
  unfolding dispatch
  dispatch-IsVerdict input = search (Yields-test, Yields-fail, verdicts) depth 14
