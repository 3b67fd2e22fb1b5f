-- ===== src/Sampler/Network.antt =====
-- network.go: the sampler of the read and write throughput.
use plaklet.Base.{
  ℤ, String, none, some, List, [], ◌∷◌, ◌&&◌, not, ◌+◌, Map, lookup, ◌==◌, string_eq, if◌then◌else◌,
}
use plaklet.State.{IoScope, NetworkSample, zero_scope}
use plaklet.Sampler.Buffer.{Buffer, new_buffer, append_sample, passes}

pub record NetworkSampler : Type 0 where
  pub read_scope : String
  pub write_scope : String
  pub buffer : Buffer NetworkSample
  pub open buffer use *

-- The two scopes of an operation: the `switch` of `newNetworkSampler`.
unfoldable pub network_scopes : String → String × String
network_scopes op =
    if op == "backup"
    then ("source", "storage")
    else if op == "restore"
    then ("storage", "destination")
    else if op == "check"
    then ("storage", "")
    else if op == "sync"
    then ("source-storage", "storage")
    else ("", "")

unfoldable pub new_network_sampler : String → NetworkSampler
unfolding network_scopes
new_network_sampler op =
    let (r, w) = network_scopes op in
    record { read_scope = r; write_scope = w; buffer = new_buffer }

-- `io[scope]`, the zero scope for a missing key.
unfoldable pub scope_or_zero : String → Map IoScope → IoScope
scope_or_zero scope io = elim (lookup scope io) [ none ↦ zero_scope | some s ↦ s ]

-- The sample that a call takes, if the gate lets it through.
unfoldable pub network_reading : String → String → Map IoScope → ℤ → NetworkSample
network_reading r w io now = record {
  at = now;
  read_bytes_per_sec = if not (r == "") then (scope_or_zero r io).read.overall_wall else 0;
  write_bytes_per_sec = if not (w == "") then (scope_or_zero w io).write.overall else 0;
}

-- `record` of network.go, reached with the tick at 0.
unfoldable pub record_sample : NetworkSampler → NetworkSample → NetworkSampler
record_sample n s = record n { buffer = append_sample n.buffer s }

unfoldable pub sample : NetworkSampler → Map IoScope → ℤ → NetworkSampler
sample n io now =
    if n.read_scope == "" && n.write_scope == ""
    then n
    else if passes n.buffer
    then record_sample (record n { buffer = record n.buffer { tick = 0 } })
        (network_reading n.read_scope n.write_scope io now)
    else record n { buffer = record n.buffer { tick = n.tick + 1 } }

unfoldable pub snapshot : NetworkSampler → List NetworkSample
snapshot n = n.samples

-- A sequence of calls of `sample`, each with the latest scopes and the clock.
unfoldable pub run : NetworkSampler → List (Map IoScope × ℤ) → NetworkSampler
run n [] = n
run n ((io, now) ∷ calls) = run (sample n io now) calls

unfoldable pub readings : String → String → List (Map IoScope × ℤ) → List NetworkSample
readings r w [] = []
readings r w ((io, now) ∷ calls) = network_reading r w io now ∷ readings r w calls
