-- ===== src/Sampler/Resources.antt =====
-- resources.go: the sampler of the process's CPU and memory.
use plaklet.Base.{ℕ, ℤ, Bool, Option, none, some, List, [], ◌∷◌, if◌then◌else◌}
use plaklet.State.{Float64, ResourceSample}
use plaklet.Sampler.Buffer.{Buffer, new_buffer, gated}

-- What one call of `sample` reads of the process: `Percent(0)` and `MemoryInfo`, `none` for an
-- error (or a nil result), and the clock in milliseconds.
pub record Probe : Type 0 where
  pub percent : Option Float64
  pub rss : Option ℕ
  pub now : ℤ

pub record ResourceSampler : Type 0 where
  pub has_proc : Bool
  pub buffer : Buffer ResourceSample
  pub open buffer use *

-- `newResourceSampler`, by whether `process.NewProcess` found the process.
unfoldable pub new_resource_sampler : Bool → ResourceSampler
new_resource_sampler found = record { has_proc = found; buffer = new_buffer }

unfoldable pub record_sample : ResourceSampler → ResourceSample → ResourceSampler
record_sample r s = record r { buffer = gated r.buffer s }

abbrev rss_or_zero : Option ℕ → ℕ
rss_or_zero none = 0
rss_or_zero (some rss) = rss

unfoldable pub sample : ResourceSampler → Probe → ResourceSampler
sample r p =
    if r.has_proc
    then elim p.percent [
      | none ↦ r
      | some cpu ↦
          record_sample r
            (record { at = p.now; cpu_percent = cpu; memory_bytes = rss_or_zero p.rss })
    ]
    else r

-- `snapshot`: a copy of the samples.
unfoldable pub snapshot : ResourceSampler → List ResourceSample
snapshot r = r.samples

-- A sequence of calls of `sample`.
unfoldable pub run : ResourceSampler → List Probe → ResourceSampler
run r [] = r
run r (p ∷ ps) = run (sample r p) ps

-- The readings that the process gave, in order.
unfoldable pub readings : List Probe → List ResourceSample
readings [] = []
readings (p ∷ ps) = elim p.percent [
  | none ↦ readings ps
  | some cpu ↦
      record { at = p.now; cpu_percent = cpu; memory_bytes = rss_or_zero p.rss } ∷ readings ps
]
