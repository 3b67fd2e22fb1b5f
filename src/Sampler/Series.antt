-- ===== src/Sampler/Series.antt =====
-- The series that each sampler streams: the readings of its calls, evenly thinned.
use plaklet.Base.{
  ◌≡◌, refl, sym, ap, ◌∙◌, inl, inr, ℤ, String, true, false, List, [], ◌∷◌, Map, arith,
  Option-cases, ◌==◌, string_eq,
}
use plaklet.State.{IoScope}
use plaklet.Sampler.Buffer.{gated, feed}
use plaklet.Sampler.Spacing.{Holds, feed-Holds}
use plaklet.Sampler.Resources
use plaklet.Sampler.Network
use plaklet.Sampler.Latencies
use plaklet.Sampler.Resources.{Probe, ResourceSampler, new_resource_sampler}
use plaklet.Sampler.Network.{NetworkSampler, new_network_sampler, network_scopes}
use plaklet.Sampler.Latencies.{LatencySampler, new_latency_sampler}

-- One call on a live process is one reading through the gate, or nothing.
resources_step :
    (r : ResourceSampler) (p : Probe)
    → r.has_proc ≡ true
    → (ps : List Probe)
    → feed r.buffer (Resources.readings (p ∷ ps))
      ≡ feed (Resources.sample r p).buffer (Resources.readings ps)
unfolding Resources.sample Resources.record_sample Resources.readings feed
resources_step r p h ps = elim (Option-cases p.percent) [
  | inl e ↦ rw (h, e, Resources.readings)
  | inr (cpu, e) ↦ rw (h, e, Resources.readings)
]

has_proc-sample : (r : ResourceSampler) (p : Probe) → (Resources.sample r p).has_proc ≡ r.has_proc
unfolding Resources.sample Resources.record_sample
has_proc-sample r p = ground arith

resources-feed :
    (r : ResourceSampler) (ps : List Probe)
    → r.has_proc ≡ true
    → (Resources.run r ps).buffer ≡ feed r.buffer (Resources.readings ps)
unfolding Resources.run
resources-feed r [] h = unfold feed Resources.readings in refl
resources-feed r (p ∷ ps) h =
    resources-feed (Resources.sample r p) ps (has_proc-sample r p ∙ h)
    ∙ sym (resources_step r p h ps)

network_step :
    (n : NetworkSampler) (io : Map IoScope) (now : ℤ)
    → (n.read_scope == "") ≡ false
    → Network.sample n io now ≡ record n {
      buffer = gated n.buffer (Network.network_reading n.read_scope n.write_scope io now);
    }
unfolding Network.sample Network.record_sample gated
network_step n io now h = ground arith

network-feed :
    (n : NetworkSampler) (calls : List (Map IoScope × ℤ))
    → (n.read_scope == "") ≡ false
    → (Network.run n calls).buffer
      ≡ feed n.buffer (Network.readings n.read_scope n.write_scope calls)
unfolding Network.run Network.readings feed
network-feed n [] h = refl
network-feed n ((io, now) ∷ calls) h =
    rw (Network.run, network_step n io now h)
      (network-feed
        (record n {
          buffer = gated n.buffer (Network.network_reading n.read_scope n.write_scope io now);
        })
        calls h)

latency_step :
    (l : LatencySampler) (io : Map IoScope) (now : ℤ)
    → (l.scope == "") ≡ false
    → (calls : List (Map IoScope × ℤ))
    → feed l.buffer (Latencies.readings l.scope ((io, now) ∷ calls))
      ≡ feed (Latencies.sample l io now).buffer (Latencies.readings l.scope calls)
unfolding Latencies.sample Latencies.record_sample Latencies.readings gated feed
latency_step l io now h calls = ground arith

scope-sample :
    (l : LatencySampler) (io : Map IoScope) (now : ℤ) → (Latencies.sample l io now).scope ≡ l.scope
unfolding Latencies.sample Latencies.record_sample
scope-sample l io now = ground arith

latency-feed :
    (l : LatencySampler) (calls : List (Map IoScope × ℤ))
    → (l.scope == "") ≡ false
    → (Latencies.run l calls).buffer ≡ feed l.buffer (Latencies.readings l.scope calls)
unfolding Latencies.run
latency-feed l [] h = unfold feed Latencies.readings in refl
latency-feed l ((io, now) ∷ calls) h =
    let next : LatencySampler = Latencies.sample l io now in
    let same : next.scope ≡ l.scope = scope-sample l io now in
    latency-feed next calls (rw same h)
    ∙ ap (λ scope. feed next.buffer (Latencies.readings scope calls)) same
    ∙ sym (latency_step l io now h calls)

-- After any calls of the resource sampler on a live process, for n the number of readings that the
-- process gave: the i-th sample is the reading number i * stride for each such reading and there is
-- no other sample, so the samples start with the first reading and are evenly spaced over the
-- whole run; the stride is a power of two; at most 120 samples are kept, and more than 60 once the
-- stride has grown.
pub resource_series :
    (probes : List Probe)
    → Holds (Resources.readings probes) (Resources.run (new_resource_sampler true) probes).buffer
unfolding new_resource_sampler
resource_series probes =
    rw (resources-feed (new_resource_sampler true) probes refl)
      (feed-Holds (Resources.readings probes))

-- After any calls of the network sampler of an operation that has a read scope, where every call is a
-- reading: the i-th sample is the reading number i * stride for each such reading and there is no
-- other; the stride is a power of two; at most 120 samples are kept, and more than 60 once the
-- stride has grown.
pub network_series :
    (op : String) (calls : List (Map IoScope × ℤ))
    → ((network_scopes op).0 == "") ≡ false
    → Holds
        (Network.readings (network_scopes op).0 (network_scopes op).1 calls)
        (Network.run (new_network_sampler op) calls).buffer
unfolding new_network_sampler
network_series op calls h =
    rw (network-feed (new_network_sampler op) calls h)
      (feed-Holds (Network.readings (network_scopes op).0 (network_scopes op).1 calls))

-- After any calls of the latency sampler of a backup or a sync, where a call is a reading if the
-- storage scope has counted a write: the i-th sample is the reading number i * stride for each such
-- reading and there is no other; the stride is a power of two; at most 120 samples are kept, and
-- more than 60 once the stride has grown.
pub latency_series :
    (op : String) (calls : List (Map IoScope × ℤ))
    → ((new_latency_sampler op).scope == "") ≡ false
    → Holds
        (Latencies.readings (new_latency_sampler op).scope calls)
        (Latencies.run (new_latency_sampler op) calls).buffer
unfolding new_latency_sampler
latency_series op calls h =
    rw (latency-feed (new_latency_sampler op) calls h)
      (feed-Holds (Latencies.readings (new_latency_sampler op).scope calls))
