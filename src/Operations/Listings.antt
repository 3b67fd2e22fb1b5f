-- ===== src/Operations/Listings.antt =====
-- inventory.go: what is streamed.
use plaklet.Base.{◌≡◌, refl, sym, ◌∙◌, true, false, Option, none, some, List, [], ◌∷◌, ◌++◌, ◌<>◌}
use mathlib.Core.List.{append-nil, append_assoc}
use plaklet.Errors.{Error, Result, ok, err, wrap}
use plaklet.Protocol.Messages.{inventory, InventoryEntry, Body}
use plaklet.Job.Monad.{
  Job, Effect, Machine, sent, pure, fail, lift, act, send, attempt, on_result, ◌>>=◌,
}
use plaklet.Operations.Env.{jobs, Env, Listing, ended, listed}
use plaklet.Operations.Inventories.{
  inventory_reply, encode_error, send_entries, stream_entries, drain, set_world,
}

-- What a provider does that is not cancelled: its entries, and the error that it ends on.
abbrev pub entries_of : {W : Type 0} → Listing W → List InventoryEntry
entries_of (ended e w) = []
entries_of (listed entry next) = let rest = entries_of (next false) in entry ∷ rest

abbrev pub error_of : {W : Type 0} → Listing W → Option Error
error_of (ended e w) = e
error_of (listed entry next) = error_of (next false)

abbrev cons_encoded : Result Body → List Body → List Body
cons_encoded (ok raw) raws = raw ∷ raws
cons_encoded (err error) raws = []

abbrev first_error : InventoryEntry → Result Body → Option Error → Option Error
first_error entry (ok raw) rest = rest
first_error entry (err error) rest = some (wrap ("encode inventory entry " <> entry.urn) error)

-- A reply for each text.
abbrev pub sent_entries : {K : Machine} → List Body → List (Effect K)
sent_entries [] = []
sent_entries (raw ∷ raws) =
    sent (record { type = inventory; message = ""; report = some raw; state = none })
    ∷ sent_entries raws

module _ (E : Env) where
  -- The texts of the entries before the first that does not encode.
  abbrev pub encoded : List InventoryEntry → List Body
  encoded [] = []
  encoded (e ∷ es) = cons_encoded (E.encode_entry e) (encoded es)

  -- The error of the first entry that does not encode, or else the one given.
  abbrev pub failure_or : List InventoryEntry → Option Error → Option Error
  failure_or [] last = last
  failure_or (e ∷ es) last = first_error e (E.encode_entry e) (failure_or es last)

  -- Fails on the error, if there is one.
  abbrev pub ending_on : Option Error → Result (Unit {0})
  ending_on none = ok tt
  ending_on (some e) = err e

  -- The result of a listing, and the effects that it leaves behind those before.
  abbrev Streams : Job (jobs E) → Listing E.World → Result (Unit {0}) × Job (jobs E) → Type 0
  Streams j l (r, j') =
      (r ≡ ending_on (failure_or (entries_of l) (error_of l)))
      × (j'.effects ≡ j.effects ++ sent_entries (encoded (entries_of l)))

  send_entries-Streams : (l : Listing E.World) (j : Job (jobs E)) → Streams j l (send_entries E l j)
  unfolding send_entries pure fail lift act attempt send ◌>>=◌
  send_entries-Streams (ended none w) j = (refl, sym (append-nil j.effects))
  send_entries-Streams (ended (some e) w) j = (refl, sym (append-nil j.effects))
  send_entries-Streams (listed entry next) j =
      encoding (E.encode_entry entry) (λ j'. send_entries-Streams (next false) j')
    where
      encoding :
          (r : Result Body)
          → ((j' : Job (jobs E)) → Streams j' (next false) (send_entries E (next false) j'))
          → let out =
              on_result
                (λ raw. send (inventory_reply raw) >>= λ _. send_entries E (next false))
                (λ error.
                  set_world E (drain E (next true)) >>= λ _. fail (encode_error E entry error))
                r
                j in
            (out.0
              ≡ ending_on (
                  first_error entry r
                    (failure_or (entries_of (next false)) (error_of (next false)))))
            × (out.1.effects
                ≡ j.effects ++ sent_entries (cons_encoded r (encoded (entries_of (next false)))))
      encoding (ok raw) rest =
          let sent_one : List (Effect (jobs E)) = sent (inventory_reply raw) ∷ [] in
          let (result, effects) = rest (record j { effects = j.effects ++ sent_one }) in
          (result, effects ∙ append_assoc j.effects sent_one _)
      encoding (err error) rest = (refl, sym (append-nil j.effects))

  -- A listing sends the texts of the provider's entries in order, each in an inventory reply of its own,
  -- up to the first entry that does not encode, and none after it. It fails on that entry's error; if
  -- all encode it fails on the error that the provider ends on, and succeeds if there is none.
  pub stream_entries_lem :
      (inv : E.Inventory) (j : Job (jobs E))
      → let l : Listing E.World = E.list_entries inv j.world in
        ((stream_entries E inv j).0 ≡ ending_on (failure_or (entries_of l) (error_of l)))
        × ((stream_entries E inv j).1.effects ≡ j.effects ++ sent_entries (encoded (entries_of l)))
  unfolding stream_entries
  stream_entries_lem inv j = send_entries-Streams (E.list_entries inv j.world) j
