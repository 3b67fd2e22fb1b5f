-- ===== src/Listener/Handler.antt =====
-- listener.go: `EventListener`, `handleEvent` and `State()`. A line of the log is kept by its
-- parts; the goroutine of `Run` handles the events of the bus in order, and `Wait` is the end of
-- that list.
use plaklet.Base.{
  ℕ, pos, ◌≡◌, refl, sym, ap, ◌∙◌, String, ◌<>◌, Bool, true, false, Option, none, some, List, [],
  ◌∷◌, ◌++◌, take, u64_of_i64, decimal, ltb, if◌then◌else◌, ◌==◌, ◌&&◌, ◌||◌, string_eq, nat_eq,
  Bool-cases, inl, inr,
}
use plaklet.State.{State, zero_state, processed_of}
use plaklet.Protocol.Reports.{Mac}
use plaklet.Listener.Events.{
  Value, Event, get_field, as_string, as_int64, as_uint64, as_error, as_mac, event_field, field_or,
}
use plaklet.Listener.Update.{FloatOps, MacOps, update_state, update_states}

pub record EventListener : Type 0 where
  pub quiet : Bool
  pub state : State

unfoldable pub new_event_listener : Bool → EventListener
new_event_listener quiet = record { quiet = quiet; state = zero_state }

-- The lines that are printed, each with the first four bytes of the snapshot.
pub data LogLine : Type 0 where
  path_ko : List ℕ → String → String → LogLine
  path_ok : List ℕ → String → LogLine
  -- Without a MAC that is the zero one.
  object_ko : List ℕ → Option Mac → String → LogLine
  -- The workflow, the text on errors, the duration, and the bytes read and written.
  completed : List ℕ → String → String → Option Value → ℕ → ℕ → LogLine

abbrev prefix : Event → List ℕ
prefix e = take 4 e.snapshot

unfoldable pub error_text : ℕ → String
error_text errors =
    if ltb 0 errors
    then "with " <> (decimal errors <> (" " <> (if errors == 1 then "error" else "errors")))
    else "without errors"

-- The `switch` of `handleEvent`.
unfoldable pub log_line : Event → Option LogLine
log_line e =
    if e.type == "path.error"
    then some (
        path_ko (prefix e) (field_or as_string e "path" "")
          (field_or as_error e "error" "%!s(<nil>)"))
    else if e.type == "path.ok"
    then some (path_ok (prefix e) (field_or as_string e "path" ""))
    else if e.type == "object.error" || e.type == "chunk.error"
    then some (
        object_ko (prefix e) (event_field as_mac e "mac")
          (field_or as_error e "error" "%!s(<nil>)"))
    else if e.type == "result"
    then some (
        completed (prefix e) e.workflow (error_text (field_or as_uint64 e "errors" 0))
          (get_field "duration" e.payload) (u64_of_i64 (field_or as_int64 e "rbytes" (pos 0)))
          (u64_of_i64 (field_or as_int64 e "wbytes" (pos 0))))
    else none

abbrev one_or_none : Option LogLine → List LogLine
one_or_none none = []
one_or_none (some line) = line ∷ []

module _ (floats : FloatOps) (macs : MacOps) where
  unfoldable pub handle_event : EventListener → Event → EventListener × List LogLine
  handle_event l e =
      let l' : EventListener = record l { state = update_state floats macs l.state e } in
      if l.quiet && e.level == "info" then (l', []) else (l', one_or_none (log_line e))

  -- The goroutine of `Run`, over the events of the bus.
  unfoldable pub run : EventListener → List Event → EventListener × List LogLine
  run l [] = (l, [])
  run l (e ∷ es) =
      let (l', lines) = handle_event l e in let (l'', more) = run l' es in (l'', lines ++ more)

  -- `State()`
  unfoldable pub current_state : EventListener → State
  current_state l = record l.state { processed = processed_of l.state }

  -- The lines of the events that are not of level info.
  abbrev pub lines_above_info : List Event → List LogLine
  lines_above_info [] = []
  lines_above_info (e ∷ es) =
      (if e.level == "info" then [] else one_or_none (log_line e)) ++ lines_above_info es

  state-run :
      (l : EventListener) (es : List Event)
      → (run l es).0 ≡ record l { state = update_states floats macs l.state es }
  unfolding run handle_event update_states
  state-run l [] = refl
  state-run l (e ∷ es) = elim (Bool-cases (l.quiet && e.level == "info")) [
    | inl q ↦ rw q (state-run (record l { state = update_state floats macs l.state e }) es)
    | inr q ↦ rw q (state-run (record l { state = update_state floats macs l.state e }) es)
  ]

  lines-run :
      (s : State) (es : List Event)
      → (run (record { quiet = true; state = s }) es).1 ≡ lines_above_info es
  unfolding run handle_event
  lines-run s [] = refl
  lines-run s (e ∷ es) = elim (Bool-cases (e.level == "info")) [
    | inl q ↦ rw q (lines-run (update_state floats macs s e) es)
    | inr q ↦ rw q (
        ap (λ more. one_or_none (log_line e) ++ more) (lines-run (update_state floats macs s e) es))
  ]

  -- `quiet` changes what is printed and not the state: from the zero state, a listener that is quiet
  -- and one that is not end in the same state after the same events, and the quiet one prints the
  -- lines of exactly the events that are not of level info.
  pub run-quiet :
      (es : List Event)
      → ((run (new_event_listener true) es).0.state ≡ (run (new_event_listener false) es).0.state)
        × ((run (new_event_listener true) es).1 ≡ lines_above_info es)
  unfolding new_event_listener
  run-quiet es = (
    ap (λ l. l.state) (state-run (new_event_listener true) es)
        ∙ sym (ap (λ l. l.state) (state-run (new_event_listener false) es)),
    lines-run zero_state es,
  )
