-- ===== src/Operations/Copies.antt =====
-- sync.go: which snapshots are copied.
use mathlib.Core.Path.{fun_ext}
use plaklet.Base.{
  ℕ, suc, pos, nat_eq, ◌%◌, ◌^◌, ◌++◌, ◌∙◌, ◌+◌, ◌<◌, ◌≡◌, refl, ap, u64, u64_mod, List, [], ◌∷◌,
  length, length-append, if◌then◌else◌, arith, Bool-cases, inl, inr, subst,
}
use mathlib.Core.List.{append-nil, append_assoc}
use plaklet.Errors.{Result, ok, err}
use plaklet.Protocol.Reports.{Mac, SyncReport, SyncsReport}
use plaklet.Job.Monad.{Machine, Job, M, pure, attempt}
use plaklet.Job.Outcomes.{Yields, Yields-pure, Yields-attempt}
use plaklet.Operations.Env.{jobs, Env}
use plaklet.Operations.Held.{IsHeld, exists_in_sound, exists_in_complete}
use plaklet.Operations.Synchronize.{exists_in, add_sync, no_syncs, sync_snap, sync_loop}

-- The snapshots of the source that the target lacks, in order.
abbrev pub missing : List Mac → List Mac → List Mac
missing present [] = []
missing present (id ∷ ids) =
    if exists_in id present then missing present ids else id ∷ missing present ids

-- A copy of each, whatever the target holds.
abbrev pub copy_all :
    {K : Machine} → (Mac → M K SyncReport) → List Mac → SyncsReport → M K SyncsReport
copy_all copy [] ssr = pure ssr
copy_all copy (id ∷ ids) ssr = attempt (copy id) (λ r. copy_all copy ids (add_sync r ssr))

abbrev tally : SyncsReport → ℕ
tally ssr = ssr.errors + length ssr.syncs

tally-add_sync :
    (r : Result SyncReport) (ssr : SyncsReport)
    → suc ssr.errors < u64_mod
    → tally (add_sync r ssr) ≡ suc (tally ssr)
tally-add_sync (ok s) ssr h = omega (arith, length-append ssr.syncs (s ∷ []))
tally-add_sync (err e) ssr h = omega (arith, h)

module _ (E : Env) where
  -- The loop makes the copies of the missing ones.
  sync_loop-missing :
      (src_repo dst_repo : E.Repo) (present ids : List Mac) (ssr : SyncsReport)
      → sync_loop E src_repo dst_repo present ids ssr
        ≡ copy_all (sync_snap E src_repo dst_repo) (missing present ids) ssr
  unfolding sync_loop
  sync_loop-missing src_repo dst_repo present [] ssr = refl
  sync_loop-missing src_repo dst_repo present (id ∷ ids) ssr =
      elim (Bool-cases (exists_in id present)) [
        | inl e ↦ rw e (sync_loop-missing src_repo dst_repo present ids ssr)
        | inr e ↦ rw e (
            ap (attempt (sync_snap E src_repo dst_repo id))
              (fun_ext (λ r. sync_loop-missing src_repo dst_repo present ids (add_sync r ssr))))
      ]

  copy_all-tally :
      (copy : Mac → M (jobs E) SyncReport) (ids : List Mac) (ssr : SyncsReport)
      → tally ssr + length ids < u64_mod
      → Yields (λ ssr'. tally ssr' ≡ tally ssr + length ids) (copy_all copy ids ssr)
  copy_all-tally copy [] ssr h = Yields-pure _ _ (omega arith)
  copy_all-tally copy (id ∷ ids) ssr h = Yields-attempt _ _ _ (λ r.
      let step = tally-add_sync r ssr (omega (arith, h)) in
      subst (λ n. Yields (λ ssr'. tally ssr' ≡ n) (copy_all copy ids (add_sync r ssr)))
        (omega (arith, step)) (copy_all-tally copy ids (add_sync r ssr) (omega (arith, step, h))))

  -- If fewer than 2^64 snapshots are missing, the errors and the copies that a sync reports make up
  -- their number: none is lost and none counted twice.
  pub sync_loop-tally :
      (src_repo dst_repo : E.Repo) (present ids : List Mac)
      → length (missing present ids) < u64_mod
      → Yields
          (λ ssr. ssr.errors + length ssr.syncs ≡ length (missing present ids))
          (sync_loop E src_repo dst_repo present ids no_syncs)
  sync_loop-tally src_repo dst_repo present ids h =
      rw (sync_loop-missing src_repo dst_repo present ids no_syncs) (
        subst
          (λ n.
            Yields (λ ssr. tally ssr ≡ n)
              (copy_all (sync_snap E src_repo dst_repo) (missing present ids) no_syncs))
          (omega arith)
          (copy_all-tally (sync_snap E src_repo dst_repo) (missing present ids) no_syncs
            (omega (arith, h))))

-- `lacked` are the identifiers of a list, in order, that are none of those present.
pub data Lacks (present : List Mac) : List Mac → List Mac → Type 0 where
  all_seen : Lacks present [] []
  held :
      {id : Mac} {ids lacked : List Mac}
      → IsHeld id present
      → Lacks present ids lacked
      → Lacks present (id ∷ ids) lacked
  lacking :
      {id : Mac} {ids lacked : List Mac}
      → ¬ IsHeld id present
      → Lacks present ids lacked
      → Lacks present (id ∷ ids) (id ∷ lacked)

missing-Lacks :
    (present ids lacked : List Mac) → Lacks present ids lacked → missing present ids ≡ lacked
missing-Lacks present _ _ all_seen = refl
missing-Lacks present _ _ (held {id} {ids} {lacked} h l) =
    rw (exists_in_complete id present h) (missing-Lacks present ids lacked l)
missing-Lacks present _ _ (lacking {id} {ids} {lacked} h l) =
    elim (Bool-cases (exists_in id present)) [
      | inl e ↦ absurd (h (exists_in_sound id present e))
      | inr e ↦ rw e (ap (λ m. id ∷ m) (missing-Lacks present ids lacked l))
    ]

-- The results of copies that are made one after the other, and the job behind the last.
abbrev pub results :
    {K : Machine} {A : Type 0} → (Mac → M K A) → List Mac → Job K → List (Result A) × Job K
results copy [] j = ([], j)
results copy (id ∷ ids) j =
    let (r, j') = copy id j in let (rs, j'') = results copy ids j' in (r ∷ rs, j'')

abbrev pub copied : List (Result SyncReport) → List SyncReport
copied [] = []
copied (ok s ∷ rs) = s ∷ copied rs
copied (err e ∷ rs) = copied rs

abbrev pub failures : List (Result SyncReport) → ℕ
failures [] = 0
failures (ok s ∷ rs) = failures rs
failures (err e ∷ rs) = suc (failures rs)

abbrev pub sizes : List SyncReport → ℕ
sizes [] = 0
sizes (s ∷ ss) = s.logical_size + sizes ss

-- A report, after the results of more copies.
abbrev with_results : SyncsReport → List (Result SyncReport) → SyncsReport
with_results ssr rs = record {
  took = ssr.took;
  logical_size = (ssr.logical_size + sizes (copied rs)) % u64_mod;
  errors = (ssr.errors + failures rs) % u64_mod;
  syncs = ssr.syncs ++ copied rs;
}

with_results-cons :
    (ssr : SyncsReport) (r : Result SyncReport) (rs : List (Result SyncReport))
    → with_results (add_sync r ssr) rs ≡ with_results ssr (r ∷ rs)
with_results-cons ssr (ok s) rs =
    let size : (u64 (ssr.logical_size + s.logical_size) + sizes (copied rs)) % u64_mod
        ≡ (ssr.logical_size + (s.logical_size + sizes (copied rs))) % u64_mod =
      omega arith in
    cc (size, append_assoc ssr.syncs (s ∷ []) (copied rs))
with_results-cons ssr (err e) rs =
    let count : (u64 (suc ssr.errors) + failures rs) % u64_mod
        ≡ (ssr.errors + suc (failures rs)) % u64_mod =
      omega arith in
    cc count

add_sync-size_lt :
    (r : Result SyncReport) (ssr : SyncsReport)
    → ssr.logical_size < u64_mod
    → (add_sync r ssr).logical_size < u64_mod
add_sync-size_lt (ok s) ssr h = omega arith
add_sync-size_lt (err e) ssr h = h

add_sync-errors_lt :
    (r : Result SyncReport) (ssr : SyncsReport)
    → ssr.errors < u64_mod
    → (add_sync r ssr).errors < u64_mod
add_sync-errors_lt (ok s) ssr h = h
add_sync-errors_lt (err e) ssr h = omega arith

with_results-no_syncs :
    (rs : List (Result SyncReport))
    → with_results no_syncs rs ≡ record {
      took = pos 0;
      logical_size = sizes (copied rs) % 2 ^ 64;
      errors = failures rs % 2 ^ 64;
      syncs = copied rs;
    }
with_results-no_syncs rs =
    let size : (0 + sizes (copied rs)) % u64_mod ≡ sizes (copied rs) % u64_mod = omega arith in
    let count : (0 + failures rs) % u64_mod ≡ failures rs % u64_mod = omega arith in
    cc (size, count)

copy_all-results :
    {K : Machine} (copy : Mac → M K SyncReport) (ids : List Mac) (ssr : SyncsReport) (j : Job K)
    → ssr.logical_size < u64_mod
    → ssr.errors < u64_mod
    → copy_all copy ids ssr j
      ≡ (ok (with_results ssr (results copy ids j).0), (results copy ids j).1)
unfolding pure attempt
copy_all-results copy [] ssr j h h' =
    let size : ssr.logical_size ≡ (ssr.logical_size + 0) % u64_mod = omega (arith, h) in
    let count : ssr.errors ≡ (ssr.errors + 0) % u64_mod = omega (arith, h') in
    cc (size, count, append-nil ssr.syncs)
copy_all-results copy (id ∷ ids) ssr j h h' =
    let (r, j') = copy id j in
    copy_all-results copy ids (add_sync r ssr) j' (add_sync-size_lt r ssr h)
      (add_sync-errors_lt r ssr h')
    ∙ ap (λ report. (ok report, (results copy ids j').1)) (with_results-cons ssr r _)

module _ (E : Env) where
  -- The loop of a sync copies each snapshot that the target lacked when the loop began, in the order
  -- in which they were located, and does nothing else; it goes on past the copies that fail. Its
  -- report lists the copies that succeeded, in order, with the sum of their sizes, and its errors
  -- are the number of those that failed, both modulo 2^64.
  pub sync_loop_lem :
      (src_repo dst_repo : E.Repo) (present ids lacked : List Mac) (j : Job (jobs E))
      → Lacks present ids lacked
      → let (rs, j') = results (sync_snap E src_repo dst_repo) lacked j in
        sync_loop E src_repo dst_repo present ids no_syncs j ≡ (
          ok (record {
            took = pos 0;
            logical_size = sizes (copied rs) % 2 ^ 64;
            errors = failures rs % 2 ^ 64;
            syncs = copied rs;
          }),
          j',
        )
  sync_loop_lem src_repo dst_repo present ids lacked j l =
      let (rs, j') = results (sync_snap E src_repo dst_repo) lacked j in
      ap (λ m. m j) (sync_loop-missing E src_repo dst_repo present ids no_syncs)
      ∙ ap (λ m. copy_all (sync_snap E src_repo dst_repo) m no_syncs j)
          (missing-Lacks present ids lacked l)
      ∙ copy_all-results (sync_snap E src_repo dst_repo) lacked no_syncs j (omega arith)
          (omega arith)
      ∙ ap (λ report. (ok report, j')) (with_results-no_syncs rs)
