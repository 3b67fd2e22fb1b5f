-- ===== src/Operations/Closing/Sources.antt =====
-- create.go, rm.go, test.go, inventory.go and prune.go: operations on one connector.
use plaklet.Base.{inr, refl, false, String, Option, none, some, List, [], ◌∷◌, Map}
use plaklet.Errors.{Error}
use plaklet.Protocol.Messages.{ExecPayload}
use plaklet.Protocol.Configurations.{Configuration}
use plaklet.Protocol.Reports.{Mac, RmReport}
use plaklet.Job.Monad.{Machine, M}
use plaklet.Job.Balance.{
  IsBalanced, balance, IsBalanced-attempt, IsBalanced-lift, IsBalanced-on_result, IsBalanced-bind,
  IsBalanced-send,
}
use plaklet.Operations.Env.{Env, Listing, ended, listed}
use plaklet.Operations.Summaries.{with_source, with_both}
use plaklet.Operations.Closing.Connectors.{opening}
use plaklet.Operations.Create.{create_compression, create_key, create_in, create}
use plaklet.Operations.Remove.{remove_loop, rm_store, rm_parsed, rm}
use plaklet.Operations.Probe.{test_store, test_source, test_destination, test_type, test}
use plaklet.Operations.Inventories.{
  send_entries, list_end, stream_entries, list_source, list_inventory,
}

pub IsBalanced-with_source :
    {K : Machine} {A : Type 0} (source : Option Configuration) (message : String)
    (f : Configuration → M K A)
    → ((c : Configuration) → IsBalanced (f c))
    → IsBalanced (with_source source message f)
IsBalanced-with_source none message f h = search balance
IsBalanced-with_source (some c) message f h = h c

pub IsBalanced-with_both :
    {K : Machine} {A : Type 0} (source target : Option Configuration) (op : String)
    (f : Configuration → Configuration → M K A)
    → ((c d : Configuration) → IsBalanced (f c d))
    → IsBalanced (with_both source target op f)
IsBalanced-with_both none none op f h = search balance
IsBalanced-with_both none (some d) op f h = search balance
IsBalanced-with_both (some c) none op f h = search balance
IsBalanced-with_both (some c) (some d) op f h = h c d

module _ (E : Env) where
  IsBalanced-create_compression : (cfg : Map String) → IsBalanced (create_compression E cfg)
  unfolding create_compression
  IsBalanced-create_compression cfg = search balance

  IsBalanced-create_key : (cfg : Map String) (p : String) → IsBalanced (create_key E cfg p)
  unfolding create_key
  IsBalanced-create_key cfg p = search balance

  IsBalanced-create_in :
      (input : ExecPayload) (source : Configuration) (st : E.Store)
      → IsBalanced (create_in E input source st)
  unfolding create_in
  IsBalanced-create_in input source st =
      search (balance, IsBalanced-create_compression, IsBalanced-create_key) depth 8

  pub IsBalanced-create : (input : ExecPayload) → IsBalanced (create E input)
  unfolding create
  IsBalanced-create input = search (IsBalanced-with_source, opening, IsBalanced-create_in)

  IsBalanced-remove_loop :
      (repo : E.Repo) (ids : List Mac) (rp : RmReport) → IsBalanced (remove_loop E repo ids rp)
  unfolding remove_loop
  IsBalanced-remove_loop repo [] rp = search balance
  IsBalanced-remove_loop repo (id ∷ ids) rp =
      search (balance, λ (rp' : RmReport). IsBalanced-remove_loop repo ids rp')

  IsBalanced-rm_store :
      (source : Configuration) (ids : List Mac) (st : E.Store)
      → IsBalanced (rm_store E source ids st)
  unfolding rm_store
  IsBalanced-rm_store source ids st = search (opening, IsBalanced-remove_loop)

  IsBalanced-rm_parsed :
      (source : Configuration) (ids : List Mac) → IsBalanced (rm_parsed E source ids)
  unfolding rm_parsed
  IsBalanced-rm_parsed source [] = search balance
  IsBalanced-rm_parsed source (id ∷ ids) = search (opening, IsBalanced-rm_store)

  pub IsBalanced-rm : (input : ExecPayload) → IsBalanced (rm E input)
  unfolding rm
  IsBalanced-rm input = search (IsBalanced-with_source, opening, IsBalanced-rm_parsed)

  IsBalanced-test_store : (c : Configuration) → IsBalanced (test_store E c)
  unfolding test_store
  IsBalanced-test_store c = search opening

  IsBalanced-test_source : (c : Configuration) → IsBalanced (test_source E c)
  unfolding test_source
  IsBalanced-test_source c = search opening

  IsBalanced-test_destination : (c : Configuration) → IsBalanced (test_destination E c)
  unfolding test_destination
  IsBalanced-test_destination c = search opening

  IsBalanced-test_type : (c : Configuration) → IsBalanced (test_type E c)
  unfolding test_type
  IsBalanced-test_type c =
      search (balance, IsBalanced-test_store, IsBalanced-test_source, IsBalanced-test_destination)

  pub IsBalanced-test : (input : ExecPayload) → IsBalanced (test E input)
  unfolding test
  IsBalanced-test input = IsBalanced-with_source _ _ _ IsBalanced-test_type

  IsBalanced-list_end : (o : Option Error) → IsBalanced (list_end E o)
  IsBalanced-list_end none = search balance
  IsBalanced-list_end (some e) = search balance

  IsBalanced-send_entries : (l : Listing E.World) → IsBalanced (send_entries E l)
  unfolding send_entries
  IsBalanced-send_entries (ended e w) = search (balance, IsBalanced-list_end)
  IsBalanced-send_entries (listed entry next) = IsBalanced-attempt _ _ (IsBalanced-lift _) (λ r.
      IsBalanced-on_result _ _ r
        (λ raw.
          IsBalanced-bind _ _ (IsBalanced-send _ (inr refl))
            (λ _. IsBalanced-send_entries (next false)))
        (λ error. search balance))

  IsBalanced-stream_entries : (inv : E.Inventory) → IsBalanced (stream_entries E inv)
  unfolding stream_entries
  IsBalanced-stream_entries inv = record {
    at = λ j. (IsBalanced-send_entries (E.list_entries inv j.world)).at j;
  }

  IsBalanced-list_source : (c : Configuration) → IsBalanced (list_source E c)
  unfolding list_source
  IsBalanced-list_source c = search (opening, IsBalanced-stream_entries) depth 8

  pub IsBalanced-list_inventory : (input : ExecPayload) → IsBalanced (list_inventory E input)
  unfolding list_inventory
  IsBalanced-list_inventory input = IsBalanced-with_source _ _ _ IsBalanced-list_source
