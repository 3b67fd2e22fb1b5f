-- ===== src/Executor/Runs.antt =====
-- plaklet.go: what a run of `Main` comes to.
use plaklet.Base.{
  ◌⊎◌, inl, inr, ℕ, ◌≤◌, ◌≡◌, refl, sym, inl, inr, subst, String, Bool, Option, none, some, List,
  [], ◌∷◌, ◌++◌, All, All-append, ◌==◌, string_eq, nat_eq, Bool-cases, arith,
}
use plaklet.Errors.{Error, Result, ok, err}
use plaklet.State.{State}
use plaklet.Protocol.Messages.{ExecPayload, failure, success, ExecReply, plain}
use plaklet.Protocol.Reports.{Report}
use plaklet.Plugin.Registry.{Registry}
use plaklet.Job.Monad.{Job}
use plaklet.Job.Effects.{IsQuiet}
use plaklet.Operations.Env.{Env, jobs, Unencrypted}
use plaklet.Operations.Summaries.{Verdict}
use plaklet.Operations.Verdicts.Kinds.{IsVerdict}
use plaklet.Operations.Verdicts.Dispatched.{dispatch-IsVerdict}
use plaklet.Operations.Closing.Dispatched.{dispatch-IsBalanced}
use plaklet.Executor.Terminal.{Judgement, panics, passes, fails, terminal_error}
use plaklet.Executor.Sampling.{sample_loop, sample_ticks}
use plaklet.Executor.Main.{
  Flags, Finished, Stdin, at_eof, malformed, payload, Host, Outcome, stops, verdict_of, judge,
  exit_code, reports, ending_of, configured, background, cut_background, conclude, die, finish,
  on_payload, on_registry, on_dirs, on_flags, main, final_state,
}
use plaklet.Executor.Endings.{
  Judges, complaints, terminal_error-Judges, IsOngoing, replies_of-IsOngoing, sample_loop-IsOngoing,
  sample_ticks-IsOngoing, cancel_on_signal-IsOngoing,
}

-- The operation returned an error, or its report or the final state names a failure.
abbrev pub HasFailed : Finished → Type 0
HasFailed f =
    ((e : Error) × (f.verdict.error ≡ some e))
    ⊎ ((r : Report) × (f.verdict.report ≡ some r) × (1 ≤ complaints f.op r f.state))

abbrev pub HasPassed : Finished → Type 0
HasPassed f =
    IsVerdict f.op f.verdict
    × (f.verdict.error ≡ none)
    × ((r : Report) → f.verdict.report ≡ some r → complaints f.op r f.state ≡ 0)

-- How a run of `Main` can end, by which reports encode.
pub data IsRun (Crash : Type 0) (marshals : Report → Bool) : Outcome → Type 0 where
  -- Before the operation, and without a reply.
  stopped : (code : ℕ) → code ≤ 2 → IsRun Crash marshals (stops code)
  -- With a panic of the operation, for a reason.
  crashed :
      {running background : List ExecReply}
      → Crash
      → All IsOngoing running
      → All IsOngoing background
      → IsRun Crash marshals (record {
        exit = 2;
        running = running;
        background = background;
        ending = [];
        finished = none;
      })
  -- With a failure, and no report.
  failed :
      {running background : List ExecReply} {message : String} {f : Finished}
      → All IsOngoing running
      → All IsOngoing background
      → HasFailed f
      → IsRun Crash marshals (record {
        exit = 0;
        running = running;
        background = background;
        ending = plain failure message ∷ [];
        finished = some f;
      })
  -- With a success, right behind the report of the operation if there is one.
  succeeded :
      {running background : List ExecReply} {f : Finished}
      → All IsOngoing running
      → All IsOngoing background
      → HasPassed f
      → IsRun Crash marshals (record {
        exit = 0;
        running = running;
        background = background;
        ending = reports marshals f.verdict.report ++ plain success "" ∷ [];
        finished = some f;
      })

some_inj : {A : Type 0} {a b : A} → some a ≡ some b → a ≡ b
some_inj e = cc

terminal_error-none : (op : String) (s : State) → terminal_error op none s ≡ passes
unfolding terminal_error
terminal_error-none op s = refl

-- What a judgement says of what it judges.
abbrev Agrees : Finished → Judgement → Type 0
Agrees f panics = ⊥
Agrees f (fails e) = HasFailed f
Agrees f passes =
    (f.verdict.error ≡ none)
    × ((r : Report) → f.verdict.report ≡ some r → complaints f.op r f.state ≡ 0)

Agrees-Judges :
    (op : String) (r : Report) (s : State) (g : Judgement)
    → Judges (complaints op r s) g
    → Agrees (record { op = op; verdict = record { report = some r; error = none }; state = s }) g
Agrees-Judges op r s panics h = h
Agrees-Judges op r s (fails e) h = inr (r, refl, h)
Agrees-Judges op r s passes h = (refl, λ r' e. subst (λ x. complaints op x s ≡ 0) (some_inj e) h)

judge-split :
    (op : String) (s : State) (e : Option Error) (o : Option Report)
    → ((r : Report) → o ≡ some r → Judges (complaints op r s) (terminal_error op (some r) s))
    → Agrees
        (record { op = op; verdict = record { report = o; error = e }; state = s })
        (judge op (record { report = o; error = e }) s)
unfolding judge
judge-split op s (some e) o h = inl (e, refl)
judge-split op s none none h = rw (terminal_error-none op s) (refl, λ r q. cc)
judge-split op s none (some r) h = Agrees-Judges op r s _ (h r refl)

IsRun-Agrees :
    (Crash : Type 0) (marshals : Report → Bool) (f : Finished) (running bg : List ExecReply)
    (g : Judgement)
    → All IsOngoing running
    → All IsOngoing bg
    → (g ≡ passes → IsVerdict f.op f.verdict)
    → Agrees f g
    → IsRun Crash marshals (record {
      exit = exit_code g;
      running = running;
      background = bg;
      ending = ending_of marshals f.op f.verdict.report g;
      finished = some f;
    })
unfolding exit_code ending_of
IsRun-Agrees Crash marshals f running bg panics q q' v h = absurd h
IsRun-Agrees Crash marshals f running bg (fails e) q q' v h = failed q q' h
IsRun-Agrees Crash marshals f running bg passes q q' v (he, hc) = succeeded q q' (v refl, he, hc)

module _ (E : Env) (H : Host E.World) where
  background-IsOngoing :
      (input : ExecPayload) (w : E.World) → All IsOngoing (background E H input w)
  unfolding background
  background-IsOngoing input w =
      All-append IsOngoing (sample_loop H.marshals _ (H.ticks w) (H.last_tick w)) _
        (sample_loop-IsOngoing H.marshals _ (H.ticks w) (H.last_tick w))
        (cancel_on_signal-IsOngoing (H.signal w))

  cut_background-IsOngoing :
      (input : ExecPayload) (w : E.World) → All IsOngoing (cut_background E H input w)
  unfolding cut_background
  cut_background-IsOngoing input w =
      All-append IsOngoing (sample_ticks H.marshals _ (H.ticks w)) _
        (sample_ticks-IsOngoing H.marshals _ (H.ticks w)) (cancel_on_signal-IsOngoing (H.signal w))

  conclude-IsRun :
      (flags : Flags) (input : ExecPayload) (r : Result Verdict) (j : Job (jobs E))
      → All IsQuiet j.effects
      → ((v : Verdict) → r ≡ ok v → IsVerdict input.op v)
      → IsRun (Unencrypted E) H.marshals_report (conclude E H flags input r j)
  unfolding conclude judge
  conclude-IsRun flags input (err e) j q h =
      IsRun-Agrees (Unencrypted E) H.marshals_report
        (record {
          op = input.op;
          verdict = verdict_of (err e);
          state = final_state E H flags j.world;
        })
        _ _ (fails e) (replies_of-IsOngoing j.effects q) (background-IsOngoing input j.world)
        (λ e'. cc) (inl (e, refl))
  conclude-IsRun flags input (ok v) j q h =
      let s = final_state E H flags j.world in
      IsRun-Agrees (Unencrypted E) H.marshals_report
        (record { op = input.op; verdict = v; state = s }) _ _ _ (replies_of-IsOngoing j.effects q)
        (background-IsOngoing input j.world) (λ e. h v refl)
        (judge-split input.op s v.error v.report
          (λ r e. terminal_error-Judges input.op v r s (h v refl) e))

  finish-IsRun :
      (flags : Flags) (input : ExecPayload) (r : Result Verdict) (j : Job (jobs E))
      → All IsQuiet j.effects
      → ((v : Verdict) → r ≡ ok v → IsVerdict input.op v)
      → IsRun (Unencrypted E) H.marshals_report (finish E H flags input (r, j))
  unfolding finish die
  finish-IsRun flags input r j q h = unwound j.crash
    where
      unwound :
          (crash : Option (Unencrypted E))
          → IsRun
              (Unencrypted E)
              H.marshals_report
              (elim crash [ none ↦ conclude E H flags input r j | some reason ↦ die E H input j ])
      unwound none = conclude-IsRun flags input r j q h
      unwound (some reason) =
          crashed reason (replies_of-IsOngoing j.effects q) (cut_background-IsOngoing input j.world)

  on_payload-IsRun :
      (flags : Flags) (registry : Registry) (input : Stdin × E.World)
      → IsRun (Unencrypted E) H.marshals_report (on_payload E H flags registry input)
  unfolding on_payload
  on_payload-IsRun flags registry (at_eof, w) = stopped 0 (omega arith)
  on_payload-IsRun flags registry (malformed, w) = stopped 1 (omega arith)
  on_payload-IsRun flags registry (payload input, w) =
      let E' = configured E H flags registry in
      let j : Job (jobs E) = record { world = w; effects = []; crash = none } in
      let (gs, e, b, q) = (dispatch-IsBalanced E' input).at j in
      finish-IsRun flags input _ _ (subst (All IsQuiet) (sym e) q)
        (λ v e'. (dispatch-IsVerdict E' input).at j v e')

  on_registry-IsRun :
      (flags : Flags) (r : Result Registry × E.World)
      → IsRun (Unencrypted E) H.marshals_report (on_registry E H flags r)
  unfolding on_registry
  on_registry-IsRun flags (err e, w) = stopped 1 (omega arith)
  on_registry-IsRun flags (ok registry, w) = on_payload-IsRun flags registry _

  on_dirs-IsRun :
      (flags : Flags) (r : Result (Unit {0}) × E.World)
      → IsRun (Unencrypted E) H.marshals_report (on_dirs E H flags r)
  unfolding on_dirs
  on_dirs-IsRun flags (err e, w) = stopped 1 (omega arith)
  on_dirs-IsRun flags (ok _, w) = elim (Bool-cases (flags.pkg_dir == "")) [
    | inl e ↦ rw e (on_registry-IsRun flags _)
    | inr e ↦ rw e (on_registry-IsRun flags _)
  ]

  pub main-IsRun :
      (args : List String) (w : E.World) → IsRun (Unencrypted E) H.marshals_report (main E H args w)
  unfolding main
  main-IsRun args w = parsed (H.parse_flags args)
    where
      parsed : (o : Option Flags) → IsRun (Unencrypted E) H.marshals_report (on_flags E H o w)
      parsed none = stopped 2 (omega arith)
      parsed (some flags) = elim (Bool-cases (flags.cache_dir == "")) [
        | inl e ↦ rw e (stopped 2 (omega arith))
        | inr e ↦ rw e (on_dirs-IsRun flags _)
      ]
