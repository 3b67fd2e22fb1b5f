-- ===== src/Listener/Scopes.antt =====
-- The I/O scopes and the phase: the latest event of each wins.
use plaklet.Base.{
  ◌≡◌, refl, sym, ap, ◌∙◌, String, Option, none, some, List, [], ◌∷◌, lookup, lookup-insert,
  if◌then◌else◌, ◌==◌, string_eq, arith, Bool-cases, inl, inr,
}
use plaklet.State.{IoScope, State, zero_state}
use plaklet.Listener.Events.{Event, Value, string, get_field, as_string, event_field}
use plaklet.Listener.Kinds.{Entity, Outcome, Kind, counted, workflow_start, iostats, event_kind}
use plaklet.Listener.Names.{
  named_phase, phase_set, phase_set-event_kind, is_iostats, iostats-event_kind,
}
use plaklet.Listener.Readings.{direction, io_dir_from_event-direction}
use plaklet.Listener.Update.{
  bump, on_counter, beside, summarize, FloatOps, MacOps, io_dir_from_event, store_scope, finish,
  update_kind, update_state, update_states,
}

module _ (floats : FloatOps) (macs : MacOps) where
  -- The reading that an iostats event gives of a scope, by the scope that it names.
  abbrev pub named_reading : String → Option Value → Event → Option IoScope
  named_reading scope (some (string name)) e =
      if name == ""
      then none
      else if name == scope
      then some (record {
        read = direction floats (get_field "r" e.payload);
        write = direction floats (get_field "w" e.payload);
      })
      else none
  named_reading scope _ e = none

  abbrev pub scope_reading : String → Event → Option IoScope
  scope_reading scope e =
      if e.type == "iostats" then named_reading scope (get_field "scope" e.payload) e else none

  -- What a case of the switch stores for a scope.
  abbrev stored : String → Option String → Event → Option IoScope
  stored scope none e = none
  stored scope (some name) e =
      if name == ""
      then none
      else if name == scope
      then some (record {
        read = io_dir_from_event floats macs e "r";
        write = io_dir_from_event floats macs e "w";
      })
      else none

  abbrev kind_reading : String → Event → Kind → Option IoScope
  kind_reading scope e iostats = stored scope (event_field as_string e "scope") e
  kind_reading scope e _ = none

  abbrev pub or_before : Option IoScope → Option IoScope → Option IoScope
  or_before none before = before
  or_before (some new) before = some new

  -- The last reading of a scope among the events, or the one before them.
  abbrev pub last_reading : String → List Event → Option IoScope → Option IoScope
  last_reading scope [] before = before
  last_reading scope (e ∷ es) before =
      last_reading scope es (or_before (scope_reading scope e) before)

  abbrev pub last_phase : List Event → String → String
  last_phase [] before = before
  last_phase (e ∷ es) before =
      last_phase es (elim (named_phase e.type) [ none ↦ before | some p ↦ p ])

  stored-named_reading :
      (scope : String) (e : Event)
      → stored scope (event_field as_string e "scope") e
        ≡ named_reading scope (get_field "scope" e.payload) e
  unfolding event_field
  stored-named_reading scope e = found (get_field "scope" e.payload)
    where
      found :
          (v : Option Value)
          → stored scope (elim v as (λ _. Option String) [ none ↦ none | some v ↦ as_string v ]) e
            ≡ named_reading scope v e
      found none = refl
      found (some (string name)) = rw (
        io_dir_from_event-direction floats macs e "r",
        io_dir_from_event-direction floats macs e "w",
      )
      found (some v) = refl

  kind_reading-event_kind :
      (scope : String) (e : Event)
      → kind_reading scope e (event_kind e.type) ≡ scope_reading scope e
  kind_reading-event_kind scope e = cases (event_kind e.type) (iostats-event_kind e.type)
    where
      cases :
          (k : Kind)
          → is_iostats k ≡ (e.type == "iostats")
          → kind_reading scope e k ≡ scope_reading scope e
      cases iostats h = rw (sym h) (stored-named_reading scope e)
      cases k h = rw (sym h) refl

  frame-beside :
      (m : Entity) (p : Outcome) (e : Event) (s : State)
      → ((beside m p e s).io ≡ s.io) × ((beside m p e s).phase ≡ s.phase)
  unfolding beside
  frame-beside m p e s = ground arith

  frame-on_counter :
      (m : Entity) (p : Outcome) (s : State)
      → ((on_counter m (bump p) s).io ≡ s.io) × ((on_counter m (bump p) s).phase ≡ s.phase)
  unfolding on_counter
  frame-on_counter m p s = ground arith

  lookup-store_scope :
      (scope : String) (named : Option String) (e : Event) (s : State)
      → lookup scope (store_scope floats macs named e s).io
        ≡ or_before (stored scope named e) (lookup scope s.io)
  unfolding store_scope
  lookup-store_scope scope none e s = refl
  lookup-store_scope scope (some name) e s = elim (Bool-cases (name == "")) [
    | inl empty ↦ rw empty
    | inr filled ↦ rw filled (rw lookup-insert (ground arith))
  ]

  lookup-update_kind :
      (scope : String) (k : Kind) (e : Event) (s : State)
      → lookup scope (update_kind floats macs k e s).io
        ≡ or_before (kind_reading scope e k) (lookup scope s.io)
  unfolding update_kind summarize finish
  lookup-update_kind scope (counted m p) e s =
      ap (lookup scope)
        ((frame-beside m p e (on_counter m (bump p) s)).0 ∙ (frame-on_counter m p s).0)
  lookup-update_kind scope iostats e s =
      lookup-store_scope scope (event_field as_string e "scope") e s
  lookup-update_kind scope workflow_start e s = ground arith
  lookup-update_kind scope k e s = refl

  lookup-update_states :
      (scope : String) (es : List Event) (s : State)
      → lookup scope (update_states floats macs s es).io ≡ last_reading scope es (lookup scope s.io)
  unfolding update_states update_state
  lookup-update_states scope [] s = refl
  lookup-update_states scope (e ∷ es) s =
      lookup-update_states scope es (update_kind floats macs (event_kind e.type) e s)
      ∙ ap (last_reading scope es) (
          lookup-update_kind scope (event_kind e.type) e s
          ∙ ap (λ r. or_before r (lookup scope s.io)) (kind_reading-event_kind scope e))

  phase-store_scope :
      (scope : Option String) (e : Event) (s : State)
      → (store_scope floats macs scope e s).phase ≡ s.phase
  unfolding store_scope
  phase-store_scope scope e s = ground arith

  phase-update_kind :
      (k : Kind) (e : Event) (s : State)
      → (update_kind floats macs k e s).phase ≡ elim (phase_set k) [ none ↦ s.phase | some p ↦ p ]
  unfolding update_kind summarize finish
  phase-update_kind (counted m p) e s =
      (frame-beside m p e (on_counter m (bump p) s)).1 ∙ (frame-on_counter m p s).1
  phase-update_kind iostats e s = phase-store_scope (event_field as_string e "scope") e s
  phase-update_kind workflow_start e s = ground arith
  phase-update_kind k e s = refl

  phase-update_states :
      (es : List Event) (s : State) → (update_states floats macs s es).phase ≡ last_phase es s.phase
  unfolding update_states update_state
  phase-update_states [] s = refl
  phase-update_states (e ∷ es) s =
      phase-update_states es (update_kind floats macs (event_kind e.type) e s)
      ∙ ap (last_phase es) (
          phase-update_kind (event_kind e.type) e s
          ∙ ap (λ p. elim p [ none ↦ s.phase | some p ↦ p ]) (phase_set-event_kind e.type))

  -- After any events from the zero state, the state has for each I/O scope what the last event of type
  -- `iostats` that names it says: for the reads its data under `r` and for the writes under `w`, with
  -- `total` as an int64, `overall`, `overall_wall` and the count and the four durations of `latency`;
  -- and it has nothing for a scope that no such event names, nor for the empty name. Its phase is the
  -- one that the last event with a phase sets: processing, building VFS, indexing and committing at
  -- the starts of import, VFS, index and commit, none at the ends of VFS and index, and completed at the
  -- result.
  pub io_phase-events :
      (scope : String) (es : List Event)
      → (lookup scope (update_states floats macs zero_state es).io ≡ last_reading scope es none)
        × ((update_states floats macs zero_state es).phase ≡ last_phase es "")
  unfolding lookup
  io_phase-events scope es =
      (lookup-update_states scope es zero_state, phase-update_states es zero_state)
