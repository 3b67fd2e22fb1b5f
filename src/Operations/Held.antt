-- ===== src/Operations/Held.antt =====
-- sync.go: the map of the snapshots that the target holds.
use plaklet.Base.{
  ◌≡◌, ◌≢◌, ◌⊎◌, refl, subst, true, false, List, [], ◌∷◌, ◌==◌, nat_eq, Comparable, arith,
  Bool-cases, inl, inr,
}
use plaklet.Protocol.Reports.{Mac}
use plaklet.Operations.Synchronize.{bytes_beq, exists_in}

false_ne_true : false ≢ true
false_ne_true h = cc

bytes_beq_sound : (a b : Mac) → bytes_beq a b ≡ true → a ≡ b
bytes_beq_sound [] [] h = refl
bytes_beq_sound [] (y ∷ ys) h = cc h
bytes_beq_sound (x ∷ xs) [] h = cc h
bytes_beq_sound (x ∷ xs) (y ∷ ys) h = elim (Bool-cases (x == y)) [
  | inl e ↦
      let heads : x ≡ y = (Comparable.decides nat_eq x y).0 e in
      let tails : xs ≡ ys = bytes_beq_sound xs ys (rw e at h) in cc (heads, tails)
  | inr e ↦ absurd (false_ne_true (rw e at h))
]

bytes_beq_refl : (a : Mac) → bytes_beq a a ≡ true
bytes_beq_refl [] = refl
bytes_beq_refl (x ∷ xs) = rw ((Comparable.decides nat_eq x x).1 refl, bytes_beq_refl xs)

-- The identifier is one of the list.
abbrev pub IsHeld : Mac → List Mac → Type 0
IsHeld id [] = ⊥
IsHeld id (held ∷ present) = (id ≡ held) ⊎ IsHeld id present

pub exists_in_sound :
    (id : Mac) (present : List Mac) → exists_in id present ≡ true → IsHeld id present
unfolding exists_in
exists_in_sound id [] h = absurd (false_ne_true h)
exists_in_sound id (held ∷ present) h = elim (Bool-cases (bytes_beq id held)) [
  | inl e ↦ inl (bytes_beq_sound id held e)
  | inr e ↦ inr (exists_in_sound id present (rw e at h))
]

pub exists_in_complete :
    (id : Mac) (present : List Mac) → IsHeld id present → exists_in id present ≡ true
unfolding exists_in
exists_in_complete id [] h = absurd h
exists_in_complete id (held ∷ present) (inl e) =
    rw (subst (λ b. bytes_beq id b ≡ true) e (bytes_beq_refl id))
exists_in_complete id (held ∷ present) (inr h) = ground (arith, exists_in_complete id present h)
