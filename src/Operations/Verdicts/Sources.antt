-- ===== src/Operations/Verdicts/Sources.antt =====
-- create.go, rm.go, test.go, inventory.go and prune.go.
use plaklet.Base.{◌≡◌, String, List, [], ◌∷◌, nat_eq}
use plaklet.Protocol.Messages.{ExecPayload}
use plaklet.Protocol.Configurations.{Configuration}
use plaklet.Protocol.Reports.{Mac}
use plaklet.Job.Outcomes.{Yields, yields}
use plaklet.Operations.Env.{Env}
use plaklet.Operations.Verdicts.Kinds.{IsVerdict, no_report, removed, Yields-with_source}
use plaklet.Operations.Create.{create_in, create}
use plaklet.Operations.Remove.{rm_store, rm_parsed, rm}
use plaklet.Operations.Probe.{test_store, test_source, test_destination, test_type, test}
use plaklet.Operations.Inventories.{list_source, list_inventory}
use plaklet.Operations.Dispatch.{prune, maintenance}

module _ (E : Env) where
  pub create-IsVerdict : (input : ExecPayload) → Yields (IsVerdict input.op) (create E input)
  unfolding create create_in
  create-IsVerdict input = search (Yields-with_source, yields, no_report) depth 12

  rm_parsed-IsVerdict :
      (op : String) (source : Configuration) (ids : List Mac)
      → op ≡ "rm"
      → Yields (IsVerdict op) (rm_parsed E source ids)
  unfolding rm_parsed rm_store
  rm_parsed-IsVerdict op source [] o = search (yields, removed)
  rm_parsed-IsVerdict op source (id ∷ ids) o = search (yields, removed) depth 8

  pub rm-IsVerdict :
      (input : ExecPayload) → input.op ≡ "rm" → Yields (IsVerdict input.op) (rm E input)
  unfolding rm
  rm-IsVerdict input o = search (Yields-with_source, yields, rm_parsed-IsVerdict)

  test_type-IsVerdict : (op : String) (c : Configuration) → Yields (IsVerdict op) (test_type E c)
  unfolding test_type test_store test_source test_destination
  test_type-IsVerdict op c = search (yields, no_report) depth 12

  pub test-IsVerdict : (input : ExecPayload) → Yields (IsVerdict input.op) (test E input)
  unfolding test
  test-IsVerdict input = Yields-with_source _ _ _ _ (test_type-IsVerdict input.op)

  list_source-IsVerdict :
      (op : String) (c : Configuration) → Yields (IsVerdict op) (list_source E c)
  unfolding list_source
  list_source-IsVerdict op c = search (yields, no_report) depth 8

  pub list_inventory-IsVerdict :
      (input : ExecPayload) → Yields (IsVerdict input.op) (list_inventory E input)
  unfolding list_inventory
  list_inventory-IsVerdict input = Yields-with_source _ _ _ _ (list_source-IsVerdict input.op)

  pub prune-IsVerdict : (input : ExecPayload) → Yields (IsVerdict input.op) (prune E input)
  unfolding prune
  prune-IsVerdict input = search (Yields-with_source, yields)

  pub maintenance-IsVerdict :
      (input : ExecPayload) → Yields (IsVerdict input.op) (maintenance E input)
  unfolding maintenance
  maintenance-IsVerdict input = search (Yields-with_source, yields)
