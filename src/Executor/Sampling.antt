-- ===== src/Executor/Sampling.antt =====
-- plaklet.go: `StateSampler`.
use plaklet.Base.{ℤ, String, Bool, none, some, List, [], ◌∷◌, ◌++◌, if◌then◌else◌}
use plaklet.Protocol.Messages.{state, ExecReply}
use plaklet.State.{State}
use plaklet.Sampler.Resources as Resources
use plaklet.Sampler.Network as Network
use plaklet.Sampler.Latencies as Latencies

pub record Samplers : Type 0 where
  pub resources : Resources.ResourceSampler
  pub network : Network.NetworkSampler
  pub latency : Latencies.LatencySampler

-- What one `emit` reads: the process, `listener.State()` and the clock of both calls.
pub record Tick : Type 0 where
  pub probe : Resources.Probe
  pub state : State
  pub network_now : ℤ
  pub latency_now : ℤ
  pub num_cpu : ℤ

unfoldable pub new_samplers : Bool → String → Samplers
new_samplers found op = record {
  resources = Resources.new_resource_sampler found;
  network = Network.new_network_sampler op;
  latency = Latencies.new_latency_sampler op;
}

unfoldable pub sample_all : Samplers → Tick → Samplers
sample_all s t = record {
  resources = Resources.sample s.resources t.probe;
  network = Network.sample s.network t.state.io t.network_now;
  latency = Latencies.sample s.latency t.state.io t.latency_now;
}

-- The state, with the series so far.
unfoldable pub sampled_state : Samplers → Tick → State
sampled_state s t = record t.state {
  resources = Resources.snapshot s.resources;
  num_cpu = t.num_cpu;
  network = Network.snapshot s.network;
  latency = Latencies.snapshot s.latency;
}

abbrev pub state_reply : State → ExecReply
state_reply st = record { type = state; message = ""; report = none; state = some st }

-- A state whose JSON has an error is not sent; `marshals` tells.
unfoldable pub emit : (State → Bool) → Samplers → Tick → Samplers × List ExecReply
emit marshals s t =
    let s' : Samplers = sample_all s t in
    let st : State = sampled_state s' t in (s', if marshals st then state_reply st ∷ [] else [])

-- The loop, over its ticks and then the final sample.
unfoldable pub sample_loop : (State → Bool) → Samplers → List Tick → Tick → List ExecReply
sample_loop marshals s [] last = (emit marshals s last).1
sample_loop marshals s (t ∷ ts) last =
    let (s', replies) = emit marshals s t in replies ++ sample_loop marshals s' ts last

-- The same loop in a program that dies before it is stopped: there is no last sample.
unfoldable pub sample_ticks : (State → Bool) → Samplers → List Tick → List ExecReply
sample_ticks marshals s [] = []
sample_ticks marshals s (t ∷ ts) =
    let (s', sent) = emit marshals s t in sent ++ sample_ticks marshals s' ts
