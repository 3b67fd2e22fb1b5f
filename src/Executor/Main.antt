-- ===== src/Executor/Main.antt =====
-- plaklet.go: `Main` and `CancelOnSignal`. The flags, the file system, the packages, stdin, the bus, the
-- ticker and the signals are parameters (`Host`). The replies of the operation and of what runs
-- beside it mix freely; those that end the job come when both are done.
use plaklet.Base.{
  ℕ, suc, zero, ℤ, pos, negsuc, String, ◌<>◌, Bool, Option, none, some, List, [], ◌∷◌, ◌++◌, ltb,
  ◌==◌, string_eq, if◌then◌else◌,
}
use plaklet.Errors.{Result, ok, err, message}
use plaklet.State.{State}
use plaklet.Protocol.Messages.{ExecPayload, info, failure, success, report, job, ExecReply, plain}
use plaklet.Protocol.Reports.{Report}
use plaklet.Plugin.Registry.{Registry}
use plaklet.Listener.Events.{Event}
use plaklet.Listener.Update.{FloatOps, MacOps}
use plaklet.Listener.Handler.{new_event_listener, run, current_state}
use plaklet.Job.Monad.{Machine, Effect, opened, closed, sent, Job, Act}
use plaklet.Operations.Env.{Env, jobs}
use plaklet.Operations.Summaries.{Verdict}
use plaklet.Operations.Dispatch.{dispatch}
use plaklet.Executor.Terminal.{Judgement, panics, passes, fails, terminal_error}
use plaklet.Executor.Sampling.{Tick, new_samplers, sample_loop, sample_ticks}

pub record Flags : Type 0 where
  pub pkg_dir : String
  pub cache_dir : String
  pub quiet : Bool
  pub concurrency : ℤ

pub data Stdin : Type 0 where
  at_eof malformed : Stdin
  payload : ExecPayload → Stdin

pub record Host (World : Type 0) : Type 0 where
  pub parse_flags : List String → Option Flags
  pub make_dirs : String → Act World (Unit {0})
  pub num_cpu : ℕ
  -- `pkg.NewFlatBackend` and `LoadAll`: the registry that the load hooks leave.
  pub load_packages : String → Act World Registry
  pub read_payload : World → Stdin × World
  -- What happened while the operation ran.
  pub events : World → List Event
  pub ticks : World → List Tick
  pub last_tick : World → Tick
  pub signal : World → Option String
  pub floats : FloatOps
  pub macs : MacOps
  pub found_process : Bool
  pub marshals : State → Bool
  pub marshals_report : Report → Bool

-- What is judged when an operation has ended: `(report, err)` of dispatch and the final state.
pub record Finished : Type 0 where
  pub op : String
  pub verdict : Verdict
  pub state : State

pub record Outcome : Type 0 where
  pub exit : ℕ
  -- The replies of the operation, and of what runs beside it, each in order.
  pub running : List ExecReply
  pub background : List ExecReply
  -- The replies that end the job.
  pub ending : List ExecReply
  -- `none` for a return before the operation, and for a panic of it.
  pub finished : Option Finished

-- A return before the operation.
abbrev pub stops : ℕ → Outcome
stops code = record { exit = code; running = []; background = []; ending = []; finished = none }

unfoldable pub concurrency_of : ℤ → ℕ → ℕ
concurrency_of (pos zero) cpus = if ltb cpus 1 then 1 else cpus
concurrency_of (pos (suc n)) cpus = suc n
concurrency_of (negsuc n) cpus = if ltb cpus 1 then 1 else cpus

abbrev pub replies_of : {K : Machine} → List (Effect K) → List ExecReply
replies_of [] = []
replies_of (opened r ∷ es) = replies_of es
replies_of (closed r w w' ∷ es) = replies_of es
replies_of (sent m ∷ es) = m ∷ replies_of es

abbrev pub report_reply : Report → ExecReply
report_reply r = record { type = report; message = ""; report = some (job r); state = none }

-- `CancelOnSignal`, whose cancellation the libraries see.
unfoldable pub cancel_on_signal : Option String → List ExecReply
cancel_on_signal none = []
cancel_on_signal (some sig) =
    plain info ("plaklet: got signal \"" <> (sig <> "\", shutting down...")) ∷ []

-- `(report, err)` of dispatch.
abbrev pub verdict_of : Result Verdict → Verdict
verdict_of (ok v) = v
verdict_of (err e) = record { report = none; error = some e }

unfoldable pub judge : String → Verdict → State → Judgement
judge op v s = elim v.error [ none ↦ terminal_error op v.report s | some e ↦ fails e ]

-- A Go program that panics exits with 2.
unfoldable pub exit_code : Judgement → ℕ
exit_code panics = 2
exit_code passes = 0
exit_code (fails e) = 0

unfoldable pub reports : (Report → Bool) → Option Report → List ExecReply
reports marshals none = []
reports marshals (some r) = if marshals r then report_reply r ∷ [] else []

unfoldable pub ending_of : (Report → Bool) → String → Option Report → Judgement → List ExecReply
ending_of marshals op r panics = []
ending_of marshals op r passes = reports marshals r ++ plain success "" ∷ []
ending_of marshals op r (fails e) = plain failure (op <> (" failed: " <> message e)) ∷ []

module _ (E : Env) (H : Host E.World) where
  -- The context of the operation.
  abbrev pub configured : Flags → Registry → Env
  configured flags registry = record E {
    max_concurrency = concurrency_of flags.concurrency H.num_cpu;
    registry = registry;
  }

  unfoldable pub final_state : Flags → E.World → State
  final_state flags w =
      current_state H.floats H.macs
        (run H.floats H.macs (new_event_listener flags.quiet) (H.events w)).0

  unfoldable pub background : ExecPayload → E.World → List ExecReply
  background input w =
      sample_loop H.marshals (new_samplers H.found_process input.op) (H.ticks w) (H.last_tick w)
      ++ cancel_on_signal (H.signal w)

  -- What ran beside an operation that panicked.
  unfoldable pub cut_background : ExecPayload → E.World → List ExecReply
  cut_background input w =
      sample_ticks H.marshals (new_samplers H.found_process input.op) (H.ticks w)
      ++ cancel_on_signal (H.signal w)

  -- From the return of the dispatch.
  unfoldable pub conclude : Flags → ExecPayload → Result Verdict → Job (jobs E) → Outcome
  conclude flags input r j =
      let v : Verdict = verdict_of r in
      let s : State = final_state flags j.world in
      let judged : Judgement = judge input.op v s in
      record {
        exit = exit_code judged;
        running = replies_of j.effects;
        background = background input j.world;
        ending = ending_of H.marshals_report input.op v.report judged;
        finished = some (record { op = input.op; verdict = v; state = s });
      }

  -- A panic of the dispatch, behind its deferred closes: Go exits with 2.
  unfoldable pub die : ExecPayload → Job (jobs E) → Outcome
  die input j = record {
    exit = 2;
    running = replies_of j.effects;
    background = cut_background input j.world;
    ending = [];
    finished = none;
  }

  unfoldable pub finish : Flags → ExecPayload → Result Verdict × Job (jobs E) → Outcome
  finish flags input (r, j) = elim j.crash [
    | none ↦ conclude flags input r j
    | some reason ↦ die input j
  ]

  unfoldable pub on_payload : Flags → Registry → Stdin × E.World → Outcome
  on_payload flags registry (at_eof, w) = stops 0
  on_payload flags registry (malformed, w) = stops 1
  on_payload flags registry (payload input, w) = finish flags input (
      dispatch (configured flags registry) input (record { world = w; effects = []; crash = none }))

  unfoldable pub on_registry : Flags → Result Registry × E.World → Outcome
  on_registry flags (err e, w) = stops 1
  on_registry flags (ok registry, w) = on_payload flags registry (H.read_payload w)

  unfoldable pub on_dirs : Flags → Result (Unit {0}) × E.World → Outcome
  on_dirs flags (err e, w) = stops 1
  on_dirs flags (ok _, w) =
      if flags.pkg_dir == ""
      then on_registry flags (ok E.registry, w)
      else on_registry flags (H.load_packages flags.pkg_dir w)

  abbrev pub on_flags : Option Flags → E.World → Outcome
  on_flags none w = stops 2
  on_flags (some flags) w =
      if flags.cache_dir == "" then stops 2 else on_dirs flags (H.make_dirs flags.cache_dir w)

  unfoldable pub main : List String → E.World → Outcome
  main args w = on_flags (H.parse_flags args) w
