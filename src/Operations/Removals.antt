-- ===== src/Operations/Removals.antt =====
-- rm.go: what becomes of the identifiers.
use plaklet.Base.{ℕ, suc, ◌+◌, ◌<◌, ◌≡◌, ap, ◌∙◌, u64, u64_mod, List, [], ◌∷◌, ◌++◌, length, arith}
use mathlib.Core.List.{append-nil, append_assoc}
use plaklet.Errors.{Result, ok, err}
use plaklet.Protocol.Reports.{Mac, RmReport}
use plaklet.Job.Monad.{Job, pure, act, attempt}
use plaklet.Operations.Env.{jobs, Env}
use plaklet.Operations.Remove.{add_removal, no_removals, remove_loop}

-- What each deletion answers, in the order of the pool.
abbrev pub answers :
    {W : Type 0} → (Mac → W → Result (Unit {0}) × W) → List Mac → W → List (Mac × Result (Unit {0}))
answers delete [] w = []
answers delete (id ∷ ids) w = let (r, w') = delete id w in (id, r) ∷ answers delete ids w'

abbrev pub deleted : List (Mac × Result (Unit {0})) → List Mac
deleted [] = []
deleted ((id, ok _) ∷ rs) = id ∷ deleted rs
deleted ((id, err e) ∷ rs) = deleted rs

abbrev pub failures : List (Mac × Result (Unit {0})) → ℕ
failures [] = 0
failures ((id, ok _) ∷ rs) = failures rs
failures ((id, err e) ∷ rs) = suc (failures rs)

-- The report after all the answers.
abbrev pub rm_report : List (Mac × Result (Unit {0})) → RmReport → RmReport
rm_report rs rp = record {
  errors = u64 (rp.errors + failures rs);
  snapshot_ids = rp.snapshot_ids ++ deleted rs;
}

abbrev accounted : List (Mac × Result (Unit {0})) → ℕ
accounted rs = failures rs + length (deleted rs)

accounted-cons :
    (id : Mac) (r : Result (Unit {0})) (rs : List (Mac × Result (Unit {0})))
    → accounted ((id, r) ∷ rs) ≡ suc (accounted rs)
accounted-cons id (ok _) rs = omega arith
accounted-cons id (err e) rs = omega arith

answers-length :
    {W : Type 0} (delete : Mac → W → Result (Unit {0}) × W) (ids : List Mac) (w : W)
    → accounted (answers delete ids w) ≡ length ids
answers-length delete [] w = omega arith
answers-length delete (id ∷ ids) w =
    let (r, w') = delete id w in
    accounted-cons id r (answers delete ids w') ∙ ap suc (answers-length delete ids w')

rm_report-cons :
    (id : Mac) (r : Result (Unit {0})) (rs : List (Mac × Result (Unit {0}))) (rp : RmReport)
    → rm_report rs (add_removal id r rp) ≡ rm_report ((id, r) ∷ rs) rp
rm_report-cons id (ok _) rs rp = rw (append_assoc rp.snapshot_ids (id ∷ []) (deleted rs))
rm_report-cons id (err e) rs rp =
    ap (λ n. record { errors = n; snapshot_ids = rp.snapshot_ids ++ deleted rs }) (omega arith)

add_removal-lt :
    (id : Mac) (r : Result (Unit {0})) (rp : RmReport)
    → rp.errors < u64_mod
    → (add_removal id r rp).errors < u64_mod
add_removal-lt id (ok _) rp h = h
add_removal-lt id (err e) rp h = omega arith

module _ (E : Env) where
  remove_loop-answers :
      (repo : E.Repo) (ids : List Mac) (rp : RmReport) (j : Job (jobs E))
      → rp.errors < u64_mod
      → (remove_loop E repo ids rp j).0
        ≡ ok (rm_report (answers (E.delete_snapshot repo) ids j.world) rp)
  unfolding remove_loop pure attempt act
  remove_loop-answers repo [] rp j h =
      ap ok
        (rw (append-nil rp.snapshot_ids) (ap (λ n. record rp { errors = n }) (omega (arith, h))))
  remove_loop-answers repo (id ∷ ids) rp j h =
      let (r, w) = E.delete_snapshot repo id j.world in
      remove_loop-answers repo ids (add_removal id r rp) (record j { world = w })
        (add_removal-lt id r rp h)
      ∙ ap ok (rm_report-cons id r (answers (E.delete_snapshot repo) ids w) rp)

  -- The loop of an rm deletes each identifier once, in the order of the pool, goes on past the
  -- failures, and always returns a report: it lists exactly those whose deletion succeeded, its
  -- errors are the number of the others (as a uint64), and together they are as many as the identifiers.
  pub remove_loop_lem :
      (repo : E.Repo) (ids : List Mac) (j : Job (jobs E))
      → let rs = answers (E.delete_snapshot repo) ids j.world in
        ((remove_loop E repo ids no_removals j).0
          ≡ ok (record { errors = u64 (failures rs); snapshot_ids = deleted rs }))
        × (failures rs + length (deleted rs) ≡ length ids)
  remove_loop_lem repo ids j =
      let rs = answers (E.delete_snapshot repo) ids j.world in
      (
        remove_loop-answers repo ids no_removals j (omega arith)
            ∙ ap (λ n. ok (record { errors = u64 n; snapshot_ids = deleted rs })) (omega arith),
        answers-length (E.delete_snapshot repo) ids j.world,
      )
