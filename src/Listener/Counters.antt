-- ===== src/Listener/Counters.antt =====
-- The counters of the state count the events of the bus.
use plaklet.Base.{
  ℕ, ◌+◌, ◌<◌, ◌≡◌, ap, ◌∙◌, String, Bool, Option, List, [], ◌∷◌, ◌&&◌, ◌==◌, string_eq, u64,
  u64_mod, count_if, if◌then◌else◌, arith, Bool-cases, inl, inr,
}
use plaklet.State.{StateCounter, State, zero_state}
use plaklet.Listener.Events.{Event}
use plaklet.Listener.Kinds.{
  Entity, Outcome, Kind, path, directory, file, xattr, symlink, object, chunk, started, ok, error,
  cached, counted, iostats, event_kind,
}
use plaklet.Listener.Names.{same_entity, same_outcome, counts, event_name, counts-event_kind}
use plaklet.Listener.Update.{
  bump, counter_of, on_counter, beside, summarize, FloatOps, MacOps, store_scope, finish,
  update_kind, update_state, update_states,
}

-- The number that a counter has for an outcome.
abbrev pub tally : Outcome → StateCounter → ℕ
tally started c = c.total
tally ok c = c.ok
tally error c = c.error
tally cached c = c.cached

-- Whether an event is one of an entity and an outcome, by its type: `file.ok` and so on.
abbrev pub event_counts : Entity → Outcome → Event → Bool
event_counts n o e = e.type == event_name n o

module _ (n : Entity) (o : Outcome) where
  tally-beside :
      (m : Entity) (p : Outcome) (e : Event) (s : State)
      → tally o (counter_of n (beside m p e s)) ≡ tally o (counter_of n s)
  unfolding beside
  tally-beside path p e s = ground arith
  tally-beside directory p e s = ground arith
  tally-beside file p e s = ground arith
  tally-beside xattr p e s = ground arith
  tally-beside symlink p e s = ground arith
  tally-beside object p e s = ground arith
  tally-beside chunk p e s = ground arith

  tally-bump :
      (p : Outcome) (c : StateCounter)
      → tally o (bump p c) ≡ (if same_outcome p o then u64 (tally o c + 1) else tally o c)
  unfolding bump
  tally-bump p c = ground arith

  counter_of-on_counter :
      (m : Entity) (f : StateCounter → StateCounter) (s : State)
      → counter_of n (on_counter m f s)
        ≡ (if same_entity m n then f (counter_of n s) else counter_of n s)
  unfolding on_counter
  counter_of-on_counter path f s = ground arith
  counter_of-on_counter directory f s = ground arith
  counter_of-on_counter file f s = ground arith
  counter_of-on_counter xattr f s = ground arith
  counter_of-on_counter symlink f s = ground arith
  counter_of-on_counter object f s = ground arith
  counter_of-on_counter chunk f s = ground arith

  tally-bumped :
      (m : Entity) (p : Outcome) (c : StateCounter)
      → tally o (if same_entity m n then bump p c else c)
        ≡ (if same_entity m n && same_outcome p o then u64 (tally o c + 1) else tally o c)
  tally-bumped m p c = elim (Bool-cases (same_entity m n)) [
    | inl e ↦ rw e (tally-bump p c)
    | inr e ↦ rw e
  ]

  module _ (floats : FloatOps) (macs : MacOps) where
    counter_of-store_scope :
        (scope : Option String) (e : Event) (s : State)
        → counter_of n (store_scope floats macs scope e s) ≡ counter_of n s
    unfolding store_scope
    counter_of-store_scope scope e s = ground arith

    tally-update_kind :
        (k : Kind) (e : Event) (s : State)
        → tally o (counter_of n (update_kind floats macs k e s))
          ≡ (if counts n o k then u64 (tally o (counter_of n s) + 1) else tally o (counter_of n s))
    unfolding update_kind summarize finish
    tally-update_kind (counted m p) e s =
        tally-beside m p e (on_counter m (bump p) s)
        ∙ ap (tally o) (counter_of-on_counter m (bump p) s)
        ∙ tally-bumped m p (counter_of n s)
    tally-update_kind iostats e s = ap (tally o) (counter_of-store_scope _ e s)
    tally-update_kind k e s = ground arith

    tally-update_states :
        (es : List Event) (s : State)
        → tally o (counter_of n s) < u64_mod
        → tally o (counter_of n (update_states floats macs s es))
          ≡ u64 (tally o (counter_of n s) + count_if (event_counts n o) es)
    unfolding update_states update_state
    tally-update_states [] s h = omega arith
    tally-update_states (e ∷ es) s h =
        let step = tally-update_kind (event_kind e.type) e s in
        let s' : State = update_state floats macs s e in
        elim (Bool-cases (event_counts n o e)) [
          | inl yes' ↦
              let moved : tally o (counter_of n s') ≡ u64 (tally o (counter_of n s) + 1) =
                rw (counts-event_kind n o e.type ∙ yes') at step in
              rw yes' (tally-update_states es s' (omega (arith, moved)) ∙ omega (arith, moved))
          | inr no' ↦
              let kept : tally o (counter_of n s') ≡ tally o (counter_of n s) =
                rw (counts-event_kind n o e.type ∙ no') at step in
              rw no' (tally-update_states es s' (omega (arith, kept)) ∙ omega (arith, kept))
        ]

zero-tally_eq : (n : Entity) (o : Outcome) → tally o (counter_of n zero_state) ≡ 0
zero-tally_eq n o = ground arith

zero-tally : (n : Entity) (o : Outcome) → tally o (counter_of n zero_state) < u64_mod
zero-tally n o = omega (arith, zero-tally_eq n o)

-- After any events from the zero state, each of the 28 counters (the total, ok, error and cached
-- counts of paths, directories, files, xattrs, symlinks, objects and chunks) is the number, modulo
-- 2^64, of the events whose type is the entity's name for the total, and that name with `.ok`, `.error`
-- or `.cached` behind it for the others.
pub tally-events :
    (floats : FloatOps) (macs : MacOps) (n : Entity) (o : Outcome) (es : List Event)
    → tally o (counter_of n (update_states floats macs zero_state es))
      ≡ u64 (count_if (event_counts n o) es)
tally-events floats macs n o es =
    tally-update_states n o floats macs es zero_state (zero-tally n o)
    ∙ ap (λ t. u64 (t + count_if (event_counts n o) es)) (zero-tally_eq n o)
    ∙ omega arith
