-- ===== src/Tests/Events.antt =====
-- Runs of the listener (listener.go).
use plaklet.Base.{
  pos, ◌≡◌, String, true, false, none, List, [], ◌∷◌, length, ◌++◌, take, All, count_if, lookup,
  u64, ◌==◌, nat_eq,
}
use plaklet.State.{RecentPath, zero_state}
use plaklet.Listener.Events.{Event, string, file_info, Fields, end, field}
use plaklet.Listener.Kinds.{file, ok}
use plaklet.Listener.RecentPaths.{settle_recent_path}
use plaklet.Listener.Update.{FloatOps, MacOps, counter_of, update_states}
use plaklet.Listener.Counters.{tally, event_counts, tally-events}
use plaklet.Listener.Volumes.{volume, total_weight, volume-events}
use plaklet.Listener.Windows.{
  IsWindow, recent_paths-IsWindow, others_running, others_settled, HasStatus,
  settle_recent_path_lem,
}
use plaklet.Listener.Scopes.{last_reading, last_phase, io_phase-events}
use plaklet.Listener.Handler.{new_event_listener, run, lines_above_info, run-quiet}

abbrev pub floats : FloatOps
floats = record { of_int64 = λ n. 0; to_int64 = λ f. pos f; seconds = λ d. 0 }

abbrev pub macs : MacOps
macs = record { is_nil = λ m. length m == 0; format_hex = λ m. "" }

abbrev event_of : String → String → Fields → Event
event_of type level payload = record {
  type = type;
  level = level;
  workflow = "backup";
  snapshot = 1 ∷ 2 ∷ 3 ∷ 4 ∷ 5 ∷ [];
  payload = payload;
}

abbrev of_path : String → Fields → Fields
of_path path rest = field "path" (string path) rest

abbrev pub bus : List Event
bus =
    event_of "workflow.start" "info" end
    ∷ event_of "path" "info" (of_path "/a" end)
    ∷ event_of "file.ok" "info" (of_path "/a" (field "fileinfo" (file_info (pos 40)) end))
    ∷ event_of "path.ok" "info" (of_path "/a" end)
    ∷ event_of "file.cached" "info" (of_path "/b" (field "fileinfo" (file_info (pos 2)) end))
    ∷ event_of "path.error" "error" (of_path "/c" end)
    ∷ event_of "iostats" "info" (field "scope" (string "storage") end)
    ∷ []

tally-events_example :
    tally ok (counter_of file (update_states floats macs zero_state bus))
    ≡ u64 (count_if (event_counts file ok) bus)
tally-events_example = tally-events floats macs file ok bus

volume-events_example :
    volume ok (counter_of file (update_states floats macs zero_state bus))
    ≡ u64 (total_weight file ok bus)
volume-events_example = volume-events floats macs file ok bus

recent_paths-IsWindow_example : IsWindow (update_states floats macs zero_state bus).recent_paths
recent_paths-IsWindow_example = recent_paths-IsWindow floats macs bus

abbrev two_paths : List RecentPath
two_paths =
    record { path = "/a"; status = "in-progress" }
    ∷ record { path = "/b"; status = "in-progress" }
    ∷ []

settle_recent_path_example :
    (settle_recent_path two_paths "/b" "ok"
      ≡ take 5 (
          others_running "/b" two_paths
          ++ record { path = "/b"; status = "ok" } ∷ others_settled "/b" two_paths))
    × All (HasStatus "/b" "ok") (settle_recent_path two_paths "/b" "ok")
settle_recent_path_example = settle_recent_path_lem two_paths "/b" "ok"

io_phase-events_example :
    (lookup "storage" (update_states floats macs zero_state bus).io
      ≡ last_reading floats macs "storage" bus none)
    × ((update_states floats macs zero_state bus).phase ≡ last_phase floats macs bus "")
io_phase-events_example = io_phase-events floats macs "storage" bus

run-quiet_example :
    ((run floats macs (new_event_listener true) bus).0.state
      ≡ (run floats macs (new_event_listener false) bus).0.state)
    × ((run floats macs (new_event_listener true) bus).1 ≡ lines_above_info floats macs bus)
run-quiet_example = run-quiet floats macs bus
