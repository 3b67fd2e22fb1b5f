-- ===== src/Operations/Inventories.antt =====
-- inventory.go
use plaklet.Base.{
  ◌<>◌, true, false, not, Option, none, some, ◌==◌, string_eq, nat_eq, if◌then◌else◌,
}
use plaklet.Errors.{Error, ok, text, wrap}
use plaklet.Protocol.Messages.{ExecPayload, ExecReply, Body, inventory, InventoryEntry}
use plaklet.Protocol.Configurations.{Configuration}
use plaklet.Job.Monad.{
  M, pure, fail, lift, act, send, ◌>>=◌, attempt, on_result, ensuring, wrapping,
}
use plaklet.Operations.Env.{inventory_of, jobs, Env, Listing, ended, listed}
use plaklet.Operations.Connectors.{mk_inventory}
use plaklet.Operations.Summaries.{Verdict, silent, with_source}

abbrev pub inventory_reply : Body → ExecReply
inventory_reply raw = record { type = inventory; message = ""; report = some raw; state = none }

module _ (E : Env) where
  abbrev pub encode_error : InventoryEntry → Error → Error
  encode_error e error = wrap ("encode inventory entry " <> e.urn) error

  abbrev pub list_end : Option Error → M (jobs E) (Unit {0})
  list_end none = pure tt
  list_end (some e) = fail e

  abbrev pub set_world : E.World → M (jobs E) (Unit {0})
  set_world w = act (λ _. (ok tt, w))

  -- The world after the rest of a listing that is cancelled, and whose entries are drained.
  unfoldable pub drain : Listing E.World → E.World
  drain (ended e w) = w
  drain (listed entry next) = drain (next true)

  -- The goroutine and the listing that it reads from: each entry is sent as it comes. When one does
  -- not encode, the listing is cancelled and drained, and that error comes before the provider's.
  unfoldable pub send_entries : Listing E.World → M (jobs E) (Unit {0})
  send_entries (ended e w) = set_world w >>= λ _. list_end e
  send_entries (listed entry next) = attempt (lift (E.encode_entry entry)) (
      on_result (λ raw. send (inventory_reply raw) >>= λ _. send_entries (next false))
        (λ error. set_world (drain (next true)) >>= λ _. fail (encode_error entry error)))

  unfoldable pub stream_entries : E.Inventory → M (jobs E) (Unit {0})
  stream_entries inv j = send_entries (E.list_entries inv j.world) j

  unfoldable pub list_source : Configuration → M (jobs E) Verdict
  list_source source =
      if not (source.type == "inventory")
      then fail (text ("inventory: " <> (source.type <> ": invalid source type")))
      else wrapping ("start inventory plugin " <> source.integration.name) (mk_inventory E source)
        >>= λ inv. ensuring (inventory_of inv) (stream_entries inv >>= λ _. pure silent)

  unfoldable pub list_inventory : ExecPayload → M (jobs E) Verdict
  list_inventory input = with_source input.source "source must be set for inventory" list_source
