-- ===== src/Operations/Verdicts/Counts.antt =====
-- check.go, sync.go: the counts that the loops keep.
use plaklet.Base.{
  ◌≡◌, ◌+◌, ◌≤◌, ℕ, u64, Bool, true, false, String, List, [], ◌∷◌, ◌++◌, length, length-append,
  ◌==◌, nat_eq, arith, Bool-cases, inl, inr,
}
use plaklet.Errors.{Result, ok, err}
use plaklet.Protocol.Reports.{ChecksReport, CheckReport, SyncReport, SyncsReport}
use plaklet.Operations.Verdicts.Kinds.{IsVerdict, checked, total_size}
use plaklet.Operations.Check.{add_check, check_end}
use plaklet.Operations.Synchronize.{add_sync}

pub add_check-errors_le :
    (c : CheckReport) (failed : Bool) (ccr : ChecksReport)
    → ccr.errors ≤ length ccr.checks
    → (add_check (c, failed) ccr).errors ≤ length (add_check (c, failed) ccr).checks
add_check-errors_le c true ccr h = grind (arith, length-append)
add_check-errors_le c false ccr h = grind (arith, length-append)

total_size-append :
    (ss : List SyncReport) (s : SyncReport)
    → total_size (ss ++ s ∷ []) ≡ total_size ss + s.logical_size
total_size-append [] s = omega arith
total_size-append (s' ∷ ss) s = omega (arith, total_size-append ss s)

abbrev pub IsSummed : SyncsReport → Type 0
IsSummed s = s.logical_size ≡ u64 (total_size s.syncs)

pub add_sync-IsSummed :
    (r : Result SyncReport) (ssr : SyncsReport) → IsSummed ssr → IsSummed (add_sync r ssr)
add_sync-IsSummed (ok s) ssr h = omega (arith, total_size-append ssr.syncs s, h)
add_sync-IsSummed (err e) ssr h = h

pub check_end-IsVerdict :
    (op : String) (n : ℕ) (ccr : ChecksReport)
    → op ≡ "check"
    → ccr.errors ≤ length ccr.checks
    → IsVerdict op (check_end op n ccr)
unfolding check_end
check_end-IsVerdict op n ccr o h = elim (Bool-cases (ccr.errors == 0)) [
  | inl e ↦ rw e (checked o (h, λ _. ground (arith, e)))
  | inr e ↦ rw e (checked o (h, λ n. cc))
]
