-- ===== src/Tests/Samplers.antt =====
-- Runs of the samplers (resources.go, network.go, latency.go).
use plaklet.Base.{ℕ, zero, suc, ℤ, pos, ◌≡◌, refl, true, some, List, [], ◌∷◌, Map, length, lookup}
use plaklet.State.{IoScope, zero_dir, zero_latency}
use plaklet.Sampler.Buffer.{every_other, decimate, append_sample, gated}
use plaklet.Sampler.Spacing.{Holds}
use plaklet.Sampler.Resources
use plaklet.Sampler.Resources.{Probe, new_resource_sampler, record_sample}
use plaklet.Sampler.Network
use plaklet.Sampler.Network.{network_scopes, new_network_sampler}
use plaklet.Sampler.Latencies
use plaklet.Sampler.Latencies.{new_latency_sampler}
use plaklet.Sampler.Series.{resource_series, network_series, latency_series}

abbrev probes : ℕ → List Probe
probes zero = []
probes (suc n) = record { percent = some n; rss = some 7; now = pos n } ∷ probes n

-- The 121st reading halves the buffer.
halved :
    (length (Resources.run (new_resource_sampler true) (probes 121)).samples ≡ 61)
    × ((Resources.run (new_resource_sampler true) (probes 121)).stride ≡ 2)
unfolding Resources.run Resources.sample record_sample new_resource_sampler gated append_sample
    decimate every_other
halved = (refl, refl)

resource_series_example :
    Holds
      (Resources.readings (probes 121))
      (Resources.run (new_resource_sampler true) (probes 121)).buffer
resource_series_example = resource_series (probes 121)

abbrev busy : Map IoScope
busy =
    ("source", record { read = record zero_dir { overall_wall = 9 }; write = zero_dir })
    ∷ (
      "storage",
      record {
        read = zero_dir;
        write = record zero_dir { overall = 4; latency = record zero_latency { count = pos 3 } };
      },
    )
    ∷ []

abbrev calls : List (Map IoScope × ℤ)
calls = (busy, pos 1000) ∷ ([], pos 2000) ∷ (busy, pos 3000) ∷ []

network_run :
    Network.snapshot (Network.run (new_network_sampler "backup") calls)
    ≡ record { at = pos 1000; read_bytes_per_sec = 9; write_bytes_per_sec = 4 }
      ∷ record { at = pos 2000; read_bytes_per_sec = 0; write_bytes_per_sec = 0 }
      ∷ record { at = pos 3000; read_bytes_per_sec = 9; write_bytes_per_sec = 4 }
      ∷ []
unfolding Network.snapshot Network.run Network.sample Network.record_sample new_network_sampler
    append_sample Network.network_reading Network.scope_or_zero lookup
network_run = refl

network_series_example :
    Holds
      (Network.readings (network_scopes "backup").0 (network_scopes "backup").1 calls)
      (Network.run (new_network_sampler "backup") calls).buffer
unfolding network_scopes
network_series_example = network_series "backup" calls refl

latency_series_example :
    Holds
      (Latencies.readings (new_latency_sampler "sync").scope calls)
      (Latencies.run (new_latency_sampler "sync") calls).buffer
unfolding new_latency_sampler
latency_series_example = latency_series "sync" calls refl
