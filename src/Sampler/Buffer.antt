-- ===== src/Sampler/Buffer.antt =====
-- resources.go: `record` and `decimate`; the same code stands in `record` of network.go and of
-- latency.go. An `int` stride stays exact: it doubles once in `stride * 60` calls at most.
use plaklet.Base.{ℕ, ◌+◌, ◌*◌, Bool, List, [], ◌∷◌, ◌++◌, length, ltb, if◌then◌else◌}

-- state.go: MaxResourceSamples, MaxNetworkSamples, MaxLatencySamples
abbrev pub max_samples : ℕ
max_samples = 120

pub record Buffer {ℓ} (A : Type ℓ) : Type ℓ where
  pub samples : List A
  pub stride : ℕ
  pub tick : ℕ

module _ {ℓ} {A : Type ℓ} where
  abbrev pub new_buffer : Buffer A
  new_buffer = record { samples = []; stride = 1; tick = 0 }

  -- `for i := 0; i < len(samples); i += 2 { kept = append(kept, samples[i]) }`
  unfoldable pub every_other : List A → List A
  every_other [] = []
  every_other (x ∷ []) = x ∷ []
  every_other (x ∷ y ∷ xs) = x ∷ every_other xs

  unfoldable pub decimate : Buffer A → Buffer A
  decimate b = record b { samples = every_other b.samples; stride = b.stride * 2 }

  unfoldable pub append_sample : Buffer A → A → Buffer A
  append_sample b s =
      let grown : Buffer A = record b { samples = b.samples ++ s ∷ [] } in
      if ltb max_samples (length grown.samples) then decimate grown else grown

  -- The counter of the calls since the last one that was let through.
  abbrev pub passes : Buffer A → Bool
  passes b = if ltb (b.tick + 1) b.stride then Bool.false else Bool.true

  unfoldable pub gated : Buffer A → A → Buffer A
  gated b s =
      if passes b then append_sample (record b { tick = 0 }) s else record b { tick = b.tick + 1 }

  -- A sequence of calls.
  unfoldable pub feed : Buffer A → List A → Buffer A
  feed b [] = b
  feed b (x ∷ xs) = feed (gated b x) xs
