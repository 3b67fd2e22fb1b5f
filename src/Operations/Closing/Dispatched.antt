-- ===== src/Operations/Closing/Dispatched.antt =====
-- plaklet.go: `dispatch`.
use plaklet.Protocol.Messages.{ExecPayload}
use plaklet.Job.Balance.{IsBalanced, balance}
use plaklet.Operations.Env.{Env}
use plaklet.Operations.Closing.Sources.{
  IsBalanced-with_source, IsBalanced-create, IsBalanced-rm, IsBalanced-test,
  IsBalanced-list_inventory,
}
use plaklet.Operations.Closing.Snapshots.{
  IsBalanced-backup, IsBalanced-check, IsBalanced-restore, IsBalanced-synchronize,
}
use plaklet.Operations.Dispatch.{prune, maintenance, dispatch}

module _ (E : Env) where
  IsBalanced-prune : (input : ExecPayload) → IsBalanced (prune E input)
  unfolding prune
  IsBalanced-prune input = search (balance, IsBalanced-with_source)

  IsBalanced-maintenance : (input : ExecPayload) → IsBalanced (maintenance E input)
  unfolding maintenance
  IsBalanced-maintenance input = search (balance, IsBalanced-with_source)

  ruleset operations = (
    IsBalanced-create, IsBalanced-rm, IsBalanced-test, IsBalanced-list_inventory, IsBalanced-backup,
    IsBalanced-check, IsBalanced-restore, IsBalanced-synchronize, IsBalanced-prune,
    IsBalanced-maintenance,
  )

  pub dispatch-IsBalanced : (input : ExecPayload) → IsBalanced (dispatch E input)
  unfolding dispatch
  dispatch-IsBalanced input = search (balance, operations) depth 14
