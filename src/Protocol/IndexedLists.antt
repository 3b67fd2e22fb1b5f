-- ===== src/Protocol/IndexedLists.antt =====
-- plaklet.go: `indexedList`, with the loop on fuel. The loop stops at the first missing index, and
-- one round more than the map has entries is enough.
use mathlib.Core.Option
use plaklet.Base.{
  ℕ, zero, suc, ◌+◌, ◌≤◌, ◌<◌, String, ◌<>◌, ◌≡◌, refl, sym, ap, ◌∙◌, ◌⊎◌, inl, inr, Option, none,
  some, List, [], ◌∷◌, Map, lookup, delete, lookup-delete, length-delete_lt, length, get_elem?,
  decimal, decimal_inj, append_cancel_left, Option-cases, string_eq, arith, eq_iff,
}

-- `fmt.Sprintf("%s.%d", key, i)`
unfoldable pub index_key : String → ℕ → String
index_key key i = key <> ("." <> decimal i)

index_key_inj : (key : String) (i j : ℕ) → index_key key i ≡ index_key key j → i ≡ j
unfolding index_key
index_key_inj key i j e = decimal_inj i j (
    append_cancel_left "." (decimal i) (decimal j)
      (append_cancel_left key ("." <> decimal i) ("." <> decimal j) e))

-- The loop from index `i`; `none` if the fuel runs out.
unfoldable pub indexed_from : Map String → String → ℕ → ℕ → Option (List String)
indexed_from cfg key zero i = none
indexed_from cfg key (suc fuel) i = elim (lookup (index_key key i) cfg) [
  | none ↦ some []
  | some v ↦ Option.map (λ vs. v ∷ vs) (indexed_from cfg key fuel (suc i))
]

abbrev or_nil : Option (List String) → List String
or_nil none = []
or_nil (some vs) = vs

unfoldable pub indexed_list : Map String → String → List String
indexed_list cfg key = or_nil (indexed_from cfg key (suc (length cfg)) 0)

-- `m` is what is left of the map when the keys below `i` are gone.
indexed_from-total :
    (cfg : Map String) (key : String) (fuel i : ℕ) (m : Map String)
    → ((j : ℕ) → i ≤ j → lookup (index_key key j) m ≡ lookup (index_key key j) cfg)
    → length m < fuel
    → (vs : List String) × (indexed_from cfg key fuel i ≡ some vs)
unfolding indexed_from
indexed_from-total cfg key zero i m same h = absurd (omega arith)
indexed_from-total cfg key (suc fuel) i m same h =
    elim (Option-cases (lookup (index_key key i) cfg)) [
      | inl e ↦ ([], rw (e, indexed_from))
      | inr (v, e) ↦
          let k : String = index_key key i in
          let (vs, found) =
            indexed_from-total cfg key fuel (suc i) (delete k m)
              (λ j le.
                lookup-delete k (index_key key j) m
                ∙ ground (
                  arith,
                  eq_iff k (index_key key j),
                  index_key_inj key i j,
                  same j (omega arith),
                ))
              (omega (arith, length-delete_lt k m v (same i (omega arith) ∙ e))) in
          (v ∷ vs, rw (e, indexed_from) (rw found))
    ]

-- With one round more than the map has entries, the loop of an indexed list never runs out of fuel.
pub indexed_from-indexed_list :
    (cfg : Map String) (key : String)
    → indexed_from cfg key (suc (length cfg)) 0 ≡ some (indexed_list cfg key)
unfolding indexed_list
indexed_from-indexed_list cfg key =
    let (vs, e) = indexed_from-total cfg key (suc (length cfg)) 0 cfg (λ j _. refl) (omega arith) in
    rw e

-- What a successful round says of its result.
indexed_from-some :
    (cfg : Map String) (key : String) (fuel i : ℕ) (vs : List String)
    → indexed_from cfg key (suc fuel) i ≡ some vs
    → ((lookup (index_key key i) cfg ≡ none) × (vs ≡ []))
      ⊎ ((v : String) × (ws : List String) × (lookup (index_key key i) cfg ≡ some v)
          × (indexed_from cfg key fuel (suc i) ≡ some ws)
          × (vs ≡ v ∷ ws))
unfolding indexed_from
indexed_from-some cfg key fuel i vs h = elim (Option-cases (lookup (index_key key i) cfg)) [
  | inl e ↦ inl (e, ground arith)
  | inr (v, e) ↦ elim (Option-cases (indexed_from cfg key fuel (suc i))) [
    | inl f ↦ absurd (ground arith)
    | inr (ws, f) ↦ inr (v, ws, e, f, ground arith)
  ]
]

indexed_from-lookup :
    (cfg : Map String) (key : String) (fuel i : ℕ) (vs : List String)
    → indexed_from cfg key fuel i ≡ some vs
    → (j : ℕ) → j ≤ length vs
    → get_elem? vs j ≡ lookup (index_key key (i + j)) cfg
indexed_from-lookup cfg key zero i vs h j le = unfold indexed_from in cc
indexed_from-lookup cfg key (suc fuel) i vs h zero le =
    let e : i + 0 ≡ i = omega arith in
    rw e (elim (indexed_from-some cfg key fuel i vs h) [
      | inl (missing, empty) ↦ rw empty (sym missing)
      | inr (v, ws, found, more, cons) ↦ rw cons (sym found)
    ])
indexed_from-lookup cfg key (suc fuel) i vs h (suc j) le =
    elim (indexed_from-some cfg key fuel i vs h) [
      | inl (missing, empty) ↦ absurd (omega (arith, ap length empty))
      | inr (v, ws, found, more, cons) ↦
          let e : i + suc j ≡ suc i + j = omega arith in
          rw (cons, e)
            (indexed_from-lookup cfg key fuel (suc i) ws more j (omega (arith, ap length cons)))
    ]

-- An indexed list holds the value of `key.i` at each index i, and ends where `key.i` is missing.
pub indexed_list-lookup :
    (cfg : Map String) (key : String) (i : ℕ)
    → i ≤ length (indexed_list cfg key)
    → get_elem? (indexed_list cfg key) i ≡ lookup (index_key key i) cfg
indexed_list-lookup cfg key i le =
    let e : 0 + i ≡ i = omega arith in
    indexed_from-lookup cfg key (suc (length cfg)) 0 (indexed_list cfg key)
      (indexed_from-indexed_list cfg key) i le
    ∙ ap (λ j. lookup (index_key key j) cfg) e

-- Lists that agree with a map up to their ends, where it has no entry, are equal.
agree :
    (f : ℕ → Option String) (xs ys : List String)
    → ((i : ℕ) → i ≤ length xs → get_elem? xs i ≡ f i)
    → ((i : ℕ) → i ≤ length ys → get_elem? ys i ≡ f i)
    → xs ≡ ys
agree f [] [] h k = refl
agree f [] (y ∷ ys) h k = cc (h 0 (omega arith), k 0 (omega arith))
agree f (x ∷ xs) [] h k = cc (h 0 (omega arith), k 0 (omega arith))
agree f (x ∷ xs) (y ∷ ys) h k =
    let tails : xs ≡ ys =
      agree (λ i. f (suc i)) xs ys (λ i le. h (suc i) (omega arith))
        (λ i le. k (suc i) (omega arith)) in
    cc (tails, h 0 (omega arith), k 0 (omega arith))

-- A list written as `key.0`, `key.1`, … with no entry behind its end.
abbrev pub Flattened : Map String → String → List String → Type 0
Flattened cfg key xs = (i : ℕ) → i ≤ length xs → lookup (index_key key i) cfg ≡ get_elem? xs i

-- A list written as `key.0`, `key.1`, … with no entry behind its end is read back, whatever else
-- the map holds.
pub indexed_list-Flattened :
    (cfg : Map String) (key : String) (xs : List String)
    → Flattened cfg key xs
    → indexed_list cfg key ≡ xs
indexed_list-Flattened cfg key xs written =
    agree (λ i. lookup (index_key key i) cfg) (indexed_list cfg key) xs
      (indexed_list-lookup cfg key) (λ i le. sym (written i le))
