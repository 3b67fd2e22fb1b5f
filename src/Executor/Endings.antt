-- ===== src/Executor/Endings.antt =====
-- plaklet.go: how a run of `Main` ends.
use plaklet.Base.{
  ℕ, ◌≤◌, ◌≡◌, ◌≢◌, ◌+◌, ◌%◌, ◌^◌, refl, inl, inr, ℤ, pos, negsuc, String, Bool, true, false, not,
  Option, none, some, List, [], ◌∷◌, All, All-append, ltb, ◌==◌, string_eq, nat_eq, Comparable,
  if◌then◌else◌, Bool-cases, arith,
}
use plaklet.Errors.{Error}
use plaklet.State.{State}
use plaklet.Protocol.Messages.{
  info, warning, error, failure, success, state, report, inventory, ExecReply,
}
use plaklet.Protocol.Reports.{Report, BackupReport, RestoreReport, SyncsReport}
use plaklet.Job.Monad.{Machine, Effect, opened, closed, sent}
use plaklet.Job.Effects.{IsProgress, IsQuiet}
use plaklet.Operations.Summaries.{Verdict}
use plaklet.Operations.Verdicts.Kinds.{
  IsVerdict, no_report, backed_up, checked, restored, removed, synchronized,
}
use plaklet.Executor.Terminal.{
  Judgement, panics, passes, fails, backup_error, restore_error, sync_error, entry_errors,
  terminal_error, is_positive,
}
use plaklet.Executor.Sampling.{
  Samplers, Tick, emit, sample_all, sampled_state, sample_loop, sample_ticks,
}
use plaklet.Executor.Main.{replies_of, cancel_on_signal}

-- The files that a backup says it could not read: none if it has no part, or a count below 0.
abbrev unread : Option BackupReport → ℕ
unread none = 0
unread (some b) = elim b.errors [ pos n ↦ n | negsuc n ↦ 0 ]

-- The entries of a restore that failed: five counters, modulo 2^64.
abbrev unrestored : State → ℕ
unrestored s =
    (s.paths.error + s.files.error + s.dirs.error + s.symlinks.error + s.xattrs.error) % 2 ^ 64

abbrev uncopied : Option SyncsReport → ℕ
uncopied none = 0
uncopied (some y) = y.errors

-- What a report and a state say against an operation.
abbrev pub complaints : String → Report → State → ℕ
complaints op r s =
    if op == "backup"
    then unread r.backup
    else if op == "restore"
    then unrestored s
    else if op == "sync"
    then uncopied r.sync
    else 0

-- What `terminal_error` gives for a verdict.
abbrev pub Judges : ℕ → Judgement → Type 0
Judges n panics = ⊥
Judges n passes = n ≡ 0
Judges n (fails e) = 1 ≤ n

false_ne_true : false ≢ true
false_ne_true h = cc

Judges-if :
    (n : ℕ) (t : Bool) (e : Error)
    → (t ≡ true → 1 ≤ n)
    → (t ≡ false → n ≡ 0)
    → Judges n (if t then fails e else passes)
Judges-if n true e h h' = h refl
Judges-if n false e h h' = h' refl

is_positive-true :
    (z : ℤ) → is_positive z ≡ true → 1 ≤ elim z as (λ _. ℕ) [ pos n ↦ n | negsuc n ↦ 0 ]
is_positive-true (pos n) h = ground (arith, h)
is_positive-true (negsuc n) h = absurd (false_ne_true h)

is_positive-false :
    (z : ℤ) → is_positive z ≡ false → elim z as (λ _. ℕ) [ pos n ↦ n | negsuc n ↦ 0 ] ≡ 0
is_positive-false (pos n) h = ground (arith, h)
is_positive-false (negsuc n) h = refl

backup_error-Judges : (b : Option BackupReport) → Judges (unread b) (backup_error b)
unfolding backup_error
backup_error-Judges none = refl
backup_error-Judges (some b) =
    Judges-if _ _ _ (is_positive-true b.errors) (is_positive-false b.errors)

sync_error-Judges : (y : Option SyncsReport) → Judges (uncopied y) (sync_error y)
unfolding sync_error
sync_error-Judges none = refl
sync_error-Judges (some y) =
    Judges-if _ (ltb 0 y.errors) _ (λ h. ground (arith, h)) (λ h. ground (arith, h))

restore_error-Judges :
    (o : Option RestoreReport) (rr : RestoreReport) (n : ℕ)
    → o ≡ some rr
    → Judges n (restore_error o n)
unfolding restore_error
restore_error-Judges o rr n e =
    rw e (Judges-if n (not (n == 0)) _ (λ h. ground (arith, h)) (λ h. ground (arith, h)))

restored_errors :
    (o : Option RestoreReport) (rr : RestoreReport) (s : State)
    → o ≡ some rr
    → Judges (unrestored s) (restore_error o (entry_errors s))
unfolding entry_errors
restored_errors o rr s e = restore_error-Judges o rr (unrestored s) e

-- A restore that returned a report has the part that is written to.
restored_part :
    (op : String) (v : Verdict) (r : Report)
    → IsVerdict op v
    → op ≡ "restore"
    → v.report ≡ some r
    → (rr : RestoreReport) × (r.restore ≡ some rr)
restored_part op _ r no_report o e = cc
restored_part op _ r (backed_up o') o e = cc
restored_part op _ r (checked o' c) o e = cc
restored_part op _ r (restored {r = rr} o') o e = (rr, cc)
restored_part op _ r (removed o') o e = cc
restored_part op _ r (synchronized o' c) o e = cc

-- The judgement on an operation that returned a report of its own. It is no crash. A backup passes
-- if its report counts no unread file or a number of them below 0; a restore passes if the errors of
-- paths, files, directories, symlinks and xattrs sum to 0 modulo 2^64, a sync if its report counts
-- no failed copy, and any other operation passes. What does not pass fails.
pub terminal_error-Judges :
    (op : String) (v : Verdict) (r : Report) (s : State)
    → IsVerdict op v
    → v.report ≡ some r
    → Judges (complaints op r s) (terminal_error op (some r) s)
unfolding terminal_error
terminal_error-Judges op v r s h e = elim (Bool-cases (op == "backup")) [
  | inl b ↦ rw b (backup_error-Judges r.backup)
  | inr b ↦ elim (Bool-cases (op == "restore")) [
    | inl b' ↦
        let (rr, part) =
          restored_part op v r h ((Comparable.decides string_eq op "restore").0 b') e in
        rw (b, b') (restored_errors r.restore rr s part)
    | inr b' ↦ elim (Bool-cases (op == "sync")) [
      | inl b'' ↦ rw (b, b', b'') (sync_error-Judges r.sync)
      | inr b'' ↦ rw (b, b', b'') refl
    ]
  ]
]

-- A reply that ends a job.
abbrev pub is_terminal : ExecReply → Bool
is_terminal m = elim m.type [
  | info ↦ false
  | warning ↦ false
  | error ↦ false
  | report ↦ false
  | state ↦ false
  | failure ↦ true
  | success ↦ true
  | inventory ↦ false
]

abbrev pub IsOngoing : ExecReply → Type 0
IsOngoing m = is_terminal m ≡ false

IsProgress-IsOngoing : (m : ExecReply) → IsProgress m → IsOngoing m
IsProgress-IsOngoing m (inl e) = rw e refl
IsProgress-IsOngoing m (inr e) = rw e refl

pub replies_of-IsOngoing :
    {K : Machine} (es : List (Effect K)) → All IsQuiet es → All IsOngoing (replies_of es)
replies_of-IsOngoing [] q = tt
replies_of-IsOngoing (opened r ∷ es) (p, q) = replies_of-IsOngoing es q
replies_of-IsOngoing (closed r w w' ∷ es) (p, q) = replies_of-IsOngoing es q
replies_of-IsOngoing (sent m ∷ es) (p, q) = (IsProgress-IsOngoing m p, replies_of-IsOngoing es q)

emit-IsOngoing :
    (marshals : State → Bool) (s : Samplers) (t : Tick) → All IsOngoing (emit marshals s t).1
unfolding emit
emit-IsOngoing marshals s t = elim (Bool-cases (marshals (sampled_state (sample_all s t) t))) [
  | inl e ↦ rw e (refl, tt)
  | inr e ↦ rw e tt
]

pub sample_loop-IsOngoing :
    (marshals : State → Bool) (s : Samplers) (ts : List Tick) (last : Tick)
    → All IsOngoing (sample_loop marshals s ts last)
unfolding sample_loop
sample_loop-IsOngoing marshals s [] last = emit-IsOngoing marshals s last
sample_loop-IsOngoing marshals s (t ∷ ts) last =
    All-append IsOngoing (emit marshals s t).1 _ (emit-IsOngoing marshals s t)
      (sample_loop-IsOngoing marshals (emit marshals s t).0 ts last)

pub sample_ticks-IsOngoing :
    (marshals : State → Bool) (s : Samplers) (ts : List Tick)
    → All IsOngoing (sample_ticks marshals s ts)
unfolding sample_ticks
sample_ticks-IsOngoing marshals s [] = tt
sample_ticks-IsOngoing marshals s (t ∷ ts) =
    All-append IsOngoing (emit marshals s t).1 _ (emit-IsOngoing marshals s t)
      (sample_ticks-IsOngoing marshals (emit marshals s t).0 ts)

pub cancel_on_signal-IsOngoing : (sig : Option String) → All IsOngoing (cancel_on_signal sig)
unfolding cancel_on_signal
cancel_on_signal-IsOngoing none = tt
cancel_on_signal-IsOngoing (some sig) = (refl, tt)
