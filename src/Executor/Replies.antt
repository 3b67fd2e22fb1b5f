-- ===== src/Executor/Replies.antt =====
-- plaklet.go: the stream of replies on stdout. `send` holds a mutex, so a reply is written whole; the
-- replies of the operation and those of what runs beside it come in any order that keeps each
-- side's own.
use plaklet.Base.{
  ◌≡◌, ◌⊎◌, refl, inl, inr, ap, ◌∙◌, sym, subst, Bool, true, String, Option, none, some, List, [],
  ◌∷◌, ◌++◌, All, All-append, Bool-cases,
}
use mathlib.Core.List.{append-nil, append_assoc}
use plaklet.Protocol.Messages.{ExecReply, success, plain}
use plaklet.Protocol.Reports.{Report}
use plaklet.Operations.Env.{Env, Unencrypted}
use plaklet.Executor.Endings.{is_terminal, IsOngoing}
use plaklet.Executor.Main.{Host, Outcome, reports, main}
use plaklet.Executor.Runs.{IsRun, stopped, crashed, failed, succeeded, main-IsRun}

pub data Interleaving {A : Type 0} : List A → List A → List A → Type 0 where
  done : Interleaving [] [] []
  left : {x : A} {xs ys zs : List A} → Interleaving xs ys zs → Interleaving (x ∷ xs) ys (x ∷ zs)
  right : {y : A} {xs ys zs : List A} → Interleaving xs ys zs → Interleaving xs (y ∷ ys) (y ∷ zs)

All-Interleaving :
    {A : Type 0} {xs ys zs : List A} (P : A → Type 0)
    → Interleaving xs ys zs
    → All P xs
    → All P ys
    → All P zs
All-Interleaving P done p q = tt
All-Interleaving P (left i) (p, ps) q = (p, All-Interleaving P i ps q)
All-Interleaving P (right i) p (q, qs) = (q, All-Interleaving P i p qs)

Interleaving-nil : {A : Type 0} {zs : List A} → Interleaving [] [] zs → zs ≡ []
Interleaving-nil done = refl

-- What a run may print.
abbrev pub Prints : Outcome → List ExecReply → Type 0
Prints o printed =
    (mixed : List ExecReply) × Interleaving o.running o.background mixed
    × (printed ≡ mixed ++ o.ending)

-- The last reply ends the job, and no other does.
abbrev pub EndsOnce : List ExecReply → Type 0
EndsOnce printed =
    (before : List ExecReply) × (last : ExecReply) × (printed ≡ before ++ last ∷ [])
    × All IsOngoing before
    × (is_terminal last ≡ true)

reports-IsOngoing :
    (marshals : Report → Bool) (r : Option Report) → All IsOngoing (reports marshals r)
unfolding reports
reports-IsOngoing marshals none = tt
reports-IsOngoing marshals (some r) = elim (Bool-cases (marshals r)) [
  | inl e ↦ rw e (refl, tt)
  | inr e ↦ rw e tt
]

EndsOnce-append :
    (before : List ExecReply) (last : ExecReply) (printed : List ExecReply)
    → printed ≡ before ++ last ∷ []
    → All IsOngoing before
    → is_terminal last ≡ true
    → EndsOnce printed
EndsOnce-append before last printed e p t = (before, last, e, p, t)

-- How a run comes to print no reply that ends the job, but for one that stops before it prints any.
abbrev pub Panicked : Type 0 → Outcome → List ExecReply → Type 0
Panicked Crash o printed = (o.exit ≡ 2) × Crash × All IsOngoing printed

printed-EndsOnce :
    (Crash : Type 0) (marshals : Report → Bool) (o : Outcome) (printed : List ExecReply)
    → IsRun Crash marshals o
    → Prints o printed
    → (printed ≡ []) ⊎ EndsOnce printed ⊎ Panicked Crash o printed
printed-EndsOnce Crash marshals _ printed (stopped code le) (mixed, i, e) =
    inl (e ∙ ap (λ l. l ++ []) (Interleaving-nil i))
printed-EndsOnce Crash marshals _ printed (crashed reason q q') (mixed, i, e) = inr (
    inr (
      refl,
      reason,
      subst (All IsOngoing) (sym (e ∙ append-nil mixed)) (All-Interleaving IsOngoing i q q'),
    ))
printed-EndsOnce Crash marshals _ printed (failed q q' h) (mixed, i, e) =
    inr (inl (EndsOnce-append mixed _ printed e (All-Interleaving IsOngoing i q q') refl))
printed-EndsOnce Crash marshals _ printed (succeeded {f = f} q q' h) (mixed, i, e) = inr (
    inl (
      EndsOnce-append (mixed ++ reports marshals f.verdict.report) (plain success "") printed
        (e ∙ sym (append_assoc mixed (reports marshals f.verdict.report) (plain success "" ∷ [])))
        (All-append IsOngoing mixed _ (All-Interleaving IsOngoing i q q')
          (reports-IsOngoing marshals f.verdict.report))
        refl))

module _ (E : Env) (H : Host E.World) where
  -- However the operation's replies mix with the states and the log of what runs beside it, a run
  -- prints no reply at all; or exactly one that ends the job, a failure or a success, and it is the
  -- last; or it exits with 2 and prints none that ends the job, and then a store's configuration has a
  -- nil encryption.
  pub main-EndsOnce :
      (args : List String) (w : E.World) (printed : List ExecReply)
      → Prints (main E H args w) printed
      → (printed ≡ []) ⊎ EndsOnce printed ⊎ Panicked (Unencrypted E) (main E H args w) printed
  main-EndsOnce args w printed p =
      printed-EndsOnce (Unencrypted E) H.marshals_report (main E H args w) printed
        (main-IsRun E H args w) p
