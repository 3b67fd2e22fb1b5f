-- ===== src/Sampler/Latencies.antt =====
-- latency.go: the sampler of the write latency.
use plaklet.Base.{
  ℤ, pos, zero, String, Bool, true, false, List, [], ◌∷◌, ◌||◌, ◌+◌, Map, ◌==◌, string_eq,
  if◌then◌else◌,
}
use plaklet.State.{IoScope, Latency, LatencySample}
use plaklet.Sampler.Buffer.{Buffer, new_buffer, append_sample, passes}
use plaklet.Sampler.Network.{scope_or_zero}

pub record LatencySampler : Type 0 where
  pub scope : String
  pub buffer : Buffer LatencySample
  pub open buffer use *

unfoldable pub new_latency_sampler : String → LatencySampler
new_latency_sampler op = record {
  scope = if op == "backup" || op == "sync" then "storage" else "";
  buffer = new_buffer;
}

abbrev pub is_zero : ℤ → Bool
is_zero (pos zero) = true
is_zero _ = false

unfoldable pub latency_reading : Latency → ℤ → LatencySample
latency_reading lat now = record {
  at = now;
  count = lat.count;
  avg = lat.avg;
  p50 = lat.p50;
  p95 = lat.p95;
  max = lat.max;
}

unfoldable pub record_sample : LatencySampler → LatencySample → LatencySampler
record_sample l s = record l { buffer = append_sample l.buffer s }

unfoldable pub sample : LatencySampler → Map IoScope → ℤ → LatencySampler
sample l io now =
    let lat : Latency = (scope_or_zero l.scope io).write.latency in
    if l.scope == "" || is_zero lat.count
    then l
    else if passes l.buffer
    then record_sample (record l { buffer = record l.buffer { tick = 0 } })
        (latency_reading lat now)
    else record l { buffer = record l.buffer { tick = l.tick + 1 } }

unfoldable pub snapshot : LatencySampler → List LatencySample
snapshot l = l.samples

unfoldable pub run : LatencySampler → List (Map IoScope × ℤ) → LatencySampler
run l [] = l
run l ((io, now) ∷ calls) = run (sample l io now) calls

-- The readings with an observation behind them.
unfoldable pub readings : String → List (Map IoScope × ℤ) → List LatencySample
readings scope [] = []
readings scope ((io, now) ∷ calls) =
    let lat : Latency = (scope_or_zero scope io).write.latency in
    let rest : List LatencySample = readings scope calls in
    if is_zero lat.count then rest else latency_reading lat now ∷ rest
