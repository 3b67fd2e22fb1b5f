-- ===== src/Listener/Windows.antt =====
-- The window of recent paths: its bound and order, and what becomes of a path that is settled.
use plaklet.Base.{
  ℕ, zero, suc, ◌≤◌, ◌≡◌, refl, ap, not, ◌&&◌, if◌then◌else◌, sym, ◌∙◌, subst, String, Bool, true,
  false, Option, List, [], ◌∷◌, ◌++◌, All, All-append, All-take, take, length, length-take, ltb,
  ltb→le, ◌==◌, string_eq, arith, Bool-cases, inl, inr,
}
use plaklet.State.{RecentPath, State, zero_state}
use plaklet.Listener.Events.{Event}
use plaklet.Listener.Kinds.{
  Entity, Outcome, Kind, path, file, xattr, started, ok, error, cached, counted, workflow_start,
  iostats, event_kind,
}
use plaklet.Listener.RecentPaths.{
  max_recent_paths, cap_recent_paths, is_in_progress, split_paths, start_recent_path,
  settle_recent_path,
}
use plaklet.Listener.Update.{
  bump, on_counter, path_name, beside, summarize, FloatOps, MacOps, store_scope, finish,
  update_kind, update_state, update_states,
}

abbrev pub Running : RecentPath → Type 0
Running rp = is_in_progress rp ≡ true

abbrev pub Settled : RecentPath → Type 0
Settled rp = is_in_progress rp ≡ false

-- Behind a settled path all paths are settled.
abbrev pub IsOrdered : List RecentPath → Type 0
IsOrdered [] = Unit {0}
IsOrdered (rp ∷ rps) = (Settled rp → All Settled rps) × IsOrdered rps

pub record IsWindow (rps : List RecentPath) : Type 0 where
  pub bounded : length rps ≤ max_recent_paths
  pub ordered : IsOrdered rps

IsOrdered-Settled : (rps : List RecentPath) → All Settled rps → IsOrdered rps
IsOrdered-Settled [] h = tt
IsOrdered-Settled (rp ∷ rps) h = (λ _. h.1, IsOrdered-Settled rps h.1)

IsOrdered-append :
    (xs ys : List RecentPath) → All Running xs → All Settled ys → IsOrdered (xs ++ ys)
IsOrdered-append [] ys hx hy = IsOrdered-Settled ys hy
IsOrdered-append (x ∷ xs) ys hx hy = (λ e. cc (hx.0, e), IsOrdered-append xs ys hx.1 hy)

IsOrdered-take : (n : ℕ) (rps : List RecentPath) → IsOrdered rps → IsOrdered (take n rps)
IsOrdered-take zero rps h = tt
IsOrdered-take (suc n) [] h = tt
IsOrdered-take (suc n) (rp ∷ rps) h =
    (λ e. All-take Settled n rps (h.0 e), IsOrdered-take n rps h.1)

cap-IsWindow : (rps : List RecentPath) → IsOrdered rps → IsWindow (cap_recent_paths rps)
unfolding cap_recent_paths
cap-IsWindow rps h = elim (Bool-cases (ltb max_recent_paths (length rps))) [
  | inl e ↦ rw e (record {
    bounded = omega (arith, length-take max_recent_paths rps);
    ordered = IsOrdered-take max_recent_paths rps h;
  })
  | inr e ↦ rw e (record { bounded = ltb→le _ _ e; ordered = h })
]

split-Running :
    (skip : RecentPath → Bool) (rps : List RecentPath) → All Running (split_paths skip rps).0
unfolding split_paths
split-Running skip [] = tt
split-Running skip (rp ∷ rps) = ground (arith, split-Running skip rps)

split-Settled :
    (skip : RecentPath → Bool) (rps : List RecentPath) → All Settled (split_paths skip rps).1
unfolding split_paths
split-Settled skip [] = tt
split-Settled skip (rp ∷ rps) = ground (arith, split-Settled skip rps)

start-IsWindow : (rps : List RecentPath) (p : String) → IsWindow (start_recent_path rps p)
unfolding start_recent_path
start-IsWindow rps p = cap-IsWindow _ (
    IsOrdered-append (record { path = p; status = "in-progress" } ∷ _) _
      (refl, split-Running (λ rp. false) rps) (split-Settled (λ rp. false) rps))

settle-IsWindow :
    (rps : List RecentPath) (p status : String)
    → (status == "in-progress") ≡ false
    → IsWindow (settle_recent_path rps p status)
unfolding settle_recent_path
settle-IsWindow rps p status h = cap-IsWindow _ (
    IsOrdered-append (split_paths (λ rp. rp.path == p) rps).0
      (record { path = p; status = status } ∷ (split_paths (λ rp. rp.path == p) rps).1)
      (split-Running (λ rp. rp.path == p) rps) (h, split-Settled (λ rp. rp.path == p) rps))

recents-on_counter :
    (m : Entity) (p : Outcome) (s : State) → (on_counter m (bump p) s).recent_paths ≡ s.recent_paths
unfolding on_counter
recents-on_counter m p s = ground arith

recents-store_scope :
    (floats : FloatOps) (macs : MacOps) (scope : Option String) (e : Event) (s : State)
    → (store_scope floats macs scope e s).recent_paths ≡ s.recent_paths
unfolding store_scope
recents-store_scope floats macs scope e s = ground arith

-- What one event does to the window: nothing, or a start, or a settling with a final status.
module _ (P : List RecentPath → Type 0)
    (starts : (rps : List RecentPath) (p : String) → P rps → P (start_recent_path rps p))
    (settles : (rps : List RecentPath) (p status : String)
      → (status == "in-progress") ≡ false
      → P rps
      → P (settle_recent_path rps p status)) where
  recents-beside :
      (m : Entity) (p : Outcome) (e : Event) (s : State)
      → P s.recent_paths
      → P (beside m p e s).recent_paths
  unfolding beside
  recents-beside path started e s h = starts s.recent_paths (path_name e) h
  recents-beside path ok e s h = settles s.recent_paths (path_name e) "ok" refl h
  recents-beside path error e s h = settles s.recent_paths (path_name e) "error" refl h
  recents-beside path cached e s h = settles s.recent_paths (path_name e) "ok" refl h
  recents-beside file started e s h = h
  recents-beside file ok e s h = h
  recents-beside file error e s h = h
  recents-beside file cached e s h = h
  recents-beside xattr started e s h = h
  recents-beside xattr ok e s h = h
  recents-beside xattr error e s h = h
  recents-beside xattr cached e s h = h
  recents-beside m p e s h = h

  module _ (floats : FloatOps) (macs : MacOps) where
    recents-update_kind :
        (k : Kind) (e : Event) (s : State)
        → P s.recent_paths
        → P (update_kind floats macs k e s).recent_paths
    unfolding update_kind summarize finish
    recents-update_kind (counted m p) e s h =
        recents-beside m p e (on_counter m (bump p) s) (subst P (sym (recents-on_counter m p s)) h)
    recents-update_kind workflow_start e s h = elim (Bool-cases (macs.is_nil e.snapshot)) [
      | inl nil ↦ rw nil h
      | inr set ↦ rw set h
    ]
    recents-update_kind iostats e s h = subst P (sym (recents-store_scope floats macs _ e s)) h
    recents-update_kind k e s h = h

    recents-update_states :
        (es : List Event) (s : State)
        → P s.recent_paths
        → P (update_states floats macs s es).recent_paths
    unfolding update_states update_state
    recents-update_states [] s h = h
    recents-update_states (e ∷ es) s h =
        recents-update_states es _ (recents-update_kind (event_kind e.type) e s h)

-- After any events from the zero state, the window of recent paths has at most five entries, and
-- no path that is in progress stands behind a settled one.
pub recent_paths-IsWindow :
    (floats : FloatOps) (macs : MacOps) (es : List Event)
    → IsWindow (update_states floats macs zero_state es).recent_paths
recent_paths-IsWindow floats macs es =
    recents-update_states IsWindow (λ rps p _. start-IsWindow rps p)
      (λ rps p status h _. settle-IsWindow rps p status h) floats macs es zero_state
      (record { bounded = omega arith; ordered = tt })

-- Every entry of the path has the status.
abbrev pub HasStatus : String → String → RecentPath → Type 0
HasStatus p status rp = (rp.path == p) ≡ true → rp.status ≡ status

split-others :
    (p status : String) (rps : List RecentPath)
    → All (HasStatus p status) (split_paths (λ rp. rp.path == p) rps).0
      × All (HasStatus p status) (split_paths (λ rp. rp.path == p) rps).1
unfolding split_paths
split-others p status [] = (tt, tt)
split-others p status (rp ∷ rps) = elim (Bool-cases (rp.path == p)) [
  | inl e ↦ rw e (split-others p status rps)
  | inr e ↦ rw e (ground (arith, split-others p status rps))
]

take_all : (n : ℕ) (rps : List RecentPath) → length rps ≤ n → take n rps ≡ rps
take_all zero [] h = refl
take_all zero (rp ∷ rps) h = absurd (omega arith)
take_all (suc n) [] h = refl
take_all (suc n) (rp ∷ rps) h = ap (λ l. rp ∷ l) (take_all n rps (omega arith))

cap-take : (rps : List RecentPath) → cap_recent_paths rps ≡ take 5 rps
unfolding cap_recent_paths
cap-take rps = elim (Bool-cases (ltb max_recent_paths (length rps))) [
  | inl e ↦ rw e refl
  | inr e ↦ rw e (sym (take_all 5 rps (ltb→le _ _ e)))
]

-- The entries that pass a test, in order.
abbrev those : (RecentPath → Bool) → List RecentPath → List RecentPath
those q [] = []
those q (rp ∷ rps) = let rest = those q rps in if q rp then rp ∷ rest else rest

-- The entries of other paths that are in progress, and those that are settled.
abbrev pub others_running : String → List RecentPath → List RecentPath
others_running p = those (λ rp. not (rp.path == p) && (rp.status == "in-progress"))

abbrev pub others_settled : String → List RecentPath → List RecentPath
others_settled p = those (λ rp. not (rp.path == p) && not (rp.status == "in-progress"))

split-those :
    (p : String) (rps : List RecentPath)
    → split_paths (λ rp. rp.path == p) rps ≡ (others_running p rps, others_settled p rps)
unfolding split_paths
split-those p [] = refl
split-those p (rp ∷ rps) = rw (split-those p rps) (ground arith)

-- Settling a path drops every entry of it, and puts one with the new status behind the entries of
-- other paths that are in progress and before those that are settled, both in the order they had;
-- of that, the first five entries are kept. So no entry of the path has another status.
pub settle_recent_path_lem :
    (rps : List RecentPath) (p status : String)
    → (settle_recent_path rps p status
        ≡ take 5
            (others_running p rps ++ record { path = p; status = status } ∷ others_settled p rps))
      × All (HasStatus p status) (settle_recent_path rps p status)
unfolding settle_recent_path
settle_recent_path_lem rps p status =
    let (running, settled) = split-others p status rps in
    let all : List RecentPath =
      (split_paths (λ rp. rp.path == p) rps).0
      ++ record { path = p; status = status } ∷ (split_paths (λ rp. rp.path == p) rps).1 in
    (
      cap-take all
          ∙ ap (λ parts. take 5 (parts.0 ++ record { path = p; status = status } ∷ parts.1))
              (split-those p rps),
      subst (All (HasStatus p status)) (sym (cap-take all)) (
          All-take (HasStatus p status) 5 all (
            All-append (HasStatus p status) (split_paths (λ rp. rp.path == p) rps).0 _ running
              ((λ _. refl), settled))),
    )
