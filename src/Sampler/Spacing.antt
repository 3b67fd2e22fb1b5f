-- ===== src/Sampler/Spacing.antt =====
-- What a buffer holds after any number of calls: the readings at the multiples of its stride.
use mathlib.Core.List.{append-nil, append_assoc}
use native.Mathlib.Nat.{pow-suc}
use plaklet.Base.{
  ℕ, zero, suc, ◌+◌, ◌*◌, ◌^◌, ◌≤◌, ◌<◌, ◌≡◌, refl, sym, ap, ◌∙◌, ◌⊎◌, inl, inr, none, some, List,
  [], ◌∷◌, ◌++◌, arith, length, length-append, get_elem?, get_elem?-none, ltb, ltb→lt, ltb→le,
  Bool-cases,
}
use plaklet.Sampler.Buffer.{
  Buffer, max_samples, new_buffer, every_other, decimate, append_sample, gated, feed,
}

mul-gap : (i l s : ℕ) → i < l → i * s + s ≤ l * s
mul-gap i l s h = grind arith

mul-le : (l i s : ℕ) → l ≤ i → l * s ≤ i * s
mul-le l i s h = grind arith

module _ {ℓ} {A : Type ℓ} where
  get_elem?-every_other :
      (xs : List A) (i : ℕ) → get_elem? (every_other xs) i ≡ get_elem? xs (i + i)
  unfolding every_other
  get_elem?-every_other [] i = refl
  get_elem?-every_other (x ∷ []) zero = refl
  get_elem?-every_other (x ∷ []) (suc i) =
      sym (get_elem?-none (x ∷ []) (suc i + suc i) (omega arith))
  get_elem?-every_other (x ∷ y ∷ xs) zero = refl
  get_elem?-every_other (x ∷ y ∷ xs) (suc i) =
      let e : suc i + suc i ≡ suc (suc (i + i)) = omega arith in rw e (get_elem?-every_other xs i)

  length-every_other :
      (xs : List A) → length (every_other xs) + length (every_other xs) ≤ length xs + 1
  unfolding every_other
  length-every_other [] = omega arith
  length-every_other (x ∷ []) = omega arith
  length-every_other (x ∷ y ∷ xs) = omega (arith, length-every_other xs)

  length-every_other_ge :
      (xs : List A) → length xs ≤ length (every_other xs) + length (every_other xs)
  unfolding every_other
  length-every_other_ge [] = omega arith
  length-every_other_ge (x ∷ []) = omega arith
  length-every_other_ge (x ∷ y ∷ xs) = omega (arith, length-every_other_ge xs)

  get_elem?-snoc_lt :
      (xs : List A) (y : A) (i : ℕ) → i < length xs → get_elem? (xs ++ y ∷ []) i ≡ get_elem? xs i
  get_elem?-snoc_lt [] y i h = absurd (omega arith)
  get_elem?-snoc_lt (x ∷ xs) y zero h = refl
  get_elem?-snoc_lt (x ∷ xs) y (suc i) h = get_elem?-snoc_lt xs y i (omega arith)

  get_elem?-snoc_last : (xs : List A) (y : A) → get_elem? (xs ++ y ∷ []) (length xs) ≡ some y
  get_elem?-snoc_last [] y = refl
  get_elem?-snoc_last (x ∷ xs) y = get_elem?-snoc_last xs y

  get_elem?-snoc_gt :
      (xs : List A) (y : A) (i : ℕ) → length xs < i → get_elem? (xs ++ y ∷ []) i ≡ none
  get_elem?-snoc_gt xs y i h =
      get_elem?-none (xs ++ y ∷ []) i (omega (arith, length-append xs (y ∷ [])))

  -- `b` is the state after the readings `xs`: it holds the readings 0, stride, 2 * stride, ….
  pub record Holds (xs : List A) (b : Buffer A) : Type ℓ where
    pub spaced : (i : ℕ) → get_elem? b.samples i ≡ get_elem? xs (i * b.stride)
    pub counted : length xs + b.stride ≡ length b.samples * b.stride + b.tick + 1
    pub waiting : b.tick < b.stride
    pub bounded : length b.samples ≤ max_samples
    pub doubled : (k : ℕ) × (b.stride ≡ 2 ^ k)
    pub filled : (b.stride ≡ 1) ⊎ (60 < length b.samples)

  -- The stride is positive, so the waiting calls fit between two multiples of it.
  spaced-skip :
      (xs : List A) (x : A) (b : Buffer A)
      → Holds xs b
      → b.tick + 1 < b.stride
      → (i : ℕ) → get_elem? b.samples i ≡ get_elem? (xs ++ x ∷ []) (i * b.stride)
  spaced-skip xs x b h lt i = elim (Bool-cases (ltb i (length b.samples))) [
    | inl e ↦
        let below = mul-gap i (length b.samples) b.stride (ltb→lt _ _ e) in
        h.spaced i ∙ sym (get_elem?-snoc_lt xs x (i * b.stride) (omega (arith, below, h.counted)))
    | inr e ↦
        let above = mul-le (length b.samples) i b.stride (ltb→le _ _ e) in
        get_elem?-none b.samples i (ltb→le _ _ e)
        ∙ sym (get_elem?-snoc_gt xs x (i * b.stride) (omega (arith, above, h.counted, lt)))
  ]

  Holds-skip :
      (xs : List A) (x : A) (b : Buffer A)
      → Holds xs b
      → b.tick + 1 < b.stride
      → Holds (xs ++ x ∷ []) (record b { tick = b.tick + 1 })
  Holds-skip xs x b h lt = record {
    spaced = spaced-skip xs x b h lt;
    counted = omega (arith, h.counted, length-append xs (x ∷ []));
    waiting = lt;
    bounded = h.bounded;
    doubled = h.doubled;
    filled = h.filled;
  }

  spaced-grown :
      (xs : List A) (x : A) (samples : List A) (stride : ℕ)
      → ((i : ℕ) → get_elem? samples i ≡ get_elem? xs (i * stride))
      → length xs ≡ length samples * stride
      → 0 < stride
      → (i : ℕ) → get_elem? (samples ++ x ∷ []) i ≡ get_elem? (xs ++ x ∷ []) (i * stride)
  spaced-grown xs x samples stride spaced full pos i = elim (Bool-cases (ltb i (length samples))) [
    | inl e ↦
        let below = mul-gap i (length samples) stride (ltb→lt _ _ e) in
        get_elem?-snoc_lt samples x i (ltb→lt _ _ e)
        ∙ spaced i
        ∙ sym (get_elem?-snoc_lt xs x (i * stride) (omega (arith, below)))
    | inr e ↦ beyond (ltb→le _ _ e)
  ]
    where
      last :
          i ≡ length samples
          → get_elem? (samples ++ x ∷ []) i ≡ get_elem? (xs ++ x ∷ []) (i * stride)
      last e = rw (e, ← full) (get_elem?-snoc_last samples x ∙ sym (get_elem?-snoc_last xs x))

      beyond :
          length samples ≤ i
          → get_elem? (samples ++ x ∷ []) i ≡ get_elem? (xs ++ x ∷ []) (i * stride)
      beyond le = elim (Bool-cases (ltb (length samples) i)) [
        | inl g ↦
            let gap = mul-gap (length samples) i stride (ltb→lt _ _ g) in
            get_elem?-snoc_gt samples x i (ltb→lt _ _ g)
            ∙ sym (get_elem?-snoc_gt xs x (i * stride) (omega (arith, gap)))
        | inr g ↦ last (omega (arith, ltb→le _ _ g))
      ]

  -- All the kept readings but the last are followed by a whole stride.
  full_strides :
      (xs : List A) (b : Buffer A)
      → Holds xs b
      → b.stride ≤ b.tick + 1
      → length xs ≡ length b.samples * b.stride
  full_strides xs b h le = omega (arith, h.counted, h.waiting)

  Holds-room :
      (xs : List A) (x : A) (b : Buffer A)
      → Holds xs b
      → b.stride ≤ b.tick + 1
      → length b.samples < max_samples
      → Holds (xs ++ x ∷ []) (record b { samples = b.samples ++ x ∷ []; tick = 0 })
  Holds-room xs x b h le room =
      let full : length xs ≡ length b.samples * b.stride = full_strides xs b h le in
      record {
        spaced = spaced-grown xs x b.samples b.stride h.spaced full (omega (arith, h.waiting));
        counted =
            rw (length-append b.samples (x ∷ [])) (omega (arith, full, length-append xs (x ∷ [])));
        waiting = omega (arith, h.waiting);
        bounded = omega (arith, length-append b.samples (x ∷ []));
        doubled = h.doubled;
        filled = omega (arith, h.filled, length-append b.samples (x ∷ []));
      }

  spaced-halved :
      (xs : List A) (samples : List A) (stride : ℕ)
      → ((i : ℕ) → get_elem? samples i ≡ get_elem? xs (i * stride))
      → (i : ℕ) → get_elem? (every_other samples) i ≡ get_elem? xs (i * (stride * 2))
  spaced-halved xs samples stride spaced i =
      let e : i * (stride * 2) ≡ (i + i) * stride = omega arith in
      rw e (get_elem?-every_other samples i ∙ spaced (i + i))

  Holds-full :
      (xs : List A) (x : A) (b : Buffer A)
      → Holds xs b
      → b.stride ≤ b.tick + 1
      → length b.samples ≡ max_samples
      → Holds
          (xs ++ x ∷ [])
          (record { samples = every_other (b.samples ++ x ∷ []); stride = b.stride * 2; tick = 0 })
  Holds-full xs x b h le e =
      let full : length xs ≡ length b.samples * b.stride = full_strides xs b h le in
      let grown : List A = b.samples ++ x ∷ [] in
      let size : length grown ≡ 121 = omega (arith, length-append b.samples (x ∷ [])) in
      let half : length (every_other grown) ≡ 61 =
        omega (arith, length-every_other grown, length-every_other_ge grown) in
      record {
        spaced =
            spaced-halved (xs ++ x ∷ []) grown b.stride
              (spaced-grown xs x b.samples b.stride h.spaced full (omega (arith, h.waiting)));
        counted =
            rw half (omega (arith, length-append xs (x ∷ []), full, ap (λ n. n * b.stride) e));
        waiting = omega (arith, h.waiting);
        bounded = omega (arith, half);
        doubled = (suc h.doubled.0, rw h.doubled.1 (omega (arith, pow-suc 2 h.doubled.0)));
        filled = inr (omega (arith, half));
      }

  Holds-append :
      (xs : List A) (x : A) (b : Buffer A)
      → Holds xs b
      → b.stride ≤ b.tick + 1
      → Holds (xs ++ x ∷ []) (append_sample (record b { tick = 0 }) x)
  unfolding append_sample decimate
  Holds-append xs x b h le = elim (Bool-cases (ltb max_samples (length (b.samples ++ x ∷ [])))) [
    | inl e ↦ rw e (
        Holds-full xs x b h le
          (omega (arith, h.bounded, ltb→lt _ _ e, length-append b.samples (x ∷ []))))
    | inr e ↦
        rw e
          (Holds-room xs x b h le (omega (arith, ltb→le _ _ e, length-append b.samples (x ∷ []))))
  ]

  gated-Holds : (xs : List A) (x : A) (b : Buffer A) → Holds xs b → Holds (xs ++ x ∷ []) (gated b x)
  unfolding gated
  gated-Holds xs x b h = elim (Bool-cases (ltb (b.tick + 1) b.stride)) [
    | inl e ↦ rw e (Holds-skip xs x b h (ltb→lt _ _ e))
    | inr e ↦ rw e (Holds-append xs x b h (ltb→le _ _ e))
  ]

  feed-Holds-from : (xs ys : List A) (b : Buffer A) → Holds xs b → Holds (xs ++ ys) (feed b ys)
  unfolding feed
  feed-Holds-from xs [] b h = rw append-nil h
  feed-Holds-from xs (y ∷ ys) b h =
      rw (← append_assoc xs (y ∷ []) ys)
        (feed-Holds-from (xs ++ y ∷ []) ys (gated b y) (gated-Holds xs y b h))

  new-Holds : Holds [] (new_buffer {A = A})
  new-Holds = record {
    spaced = λ i. refl;
    counted = omega arith;
    waiting = omega arith;
    bounded = omega arith;
    doubled = (0, refl);
    filled = inl refl;
  }

  pub feed-Holds : (xs : List A) → Holds xs (feed new_buffer xs)
  feed-Holds xs = feed-Holds-from [] xs new_buffer new-Holds
