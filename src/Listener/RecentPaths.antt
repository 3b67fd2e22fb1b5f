-- ===== src/Listener/RecentPaths.antt =====
-- listener.go: `startRecentPath`, `settleRecentPath` and `capRecentPaths`, on the list of recent
-- paths of the state.
use plaklet.Base.{
  String, Bool, List, [], ◌∷◌, ◌++◌, take, length, ltb, ◌==◌, string_eq, if◌then◌else◌, ℕ,
}
use plaklet.State.{RecentPath}

-- state.go: maxRecentPaths
abbrev pub max_recent_paths : ℕ
max_recent_paths = 5

unfoldable pub cap_recent_paths : List RecentPath → List RecentPath
cap_recent_paths paths =
    if ltb max_recent_paths (length paths) then take max_recent_paths paths else paths

abbrev pub is_in_progress : RecentPath → Bool
is_in_progress rp = rp.status == "in-progress"

-- The loop that both functions run, with the paths that `skip` names left out: what is appended to
-- `inProgress`, and what is appended to `settled`.
unfoldable pub split_paths :
    (RecentPath → Bool) → List RecentPath → List RecentPath × List RecentPath
split_paths skip [] = ([], [])
split_paths skip (rp ∷ rps) =
    let (in_progress, settled) = split_paths skip rps in
    if skip rp
    then (in_progress, settled)
    else if is_in_progress rp
    then (rp ∷ in_progress, settled)
    else (in_progress, rp ∷ settled)

unfoldable pub start_recent_path : List RecentPath → String → List RecentPath
start_recent_path rps path =
    let (in_progress, settled) = split_paths (λ rp. Bool.false) rps in
    cap_recent_paths ((record { path = path; status = "in-progress" } ∷ in_progress) ++ settled)

unfoldable pub settle_recent_path : List RecentPath → String → String → List RecentPath
settle_recent_path rps path status =
    let (in_progress, settled) = split_paths (λ rp. rp.path == path) rps in
    cap_recent_paths (in_progress ++ record { path = path; status = status } ∷ settled)
