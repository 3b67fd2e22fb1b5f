-- ===== src/Base/Decimals.antt =====
-- `%d` of a number that is not negative.
use Prim.Native.Char.{Char, code}
use Prim.Native.Nat.{ℕ, zero, suc, ◌+◌, ◌-◌, ◌*◌, ◌/◌, ◌%◌, ◌≤◌, ◌<◌}
use Prim.Native.String.{String}
use mathlib.Core.Path.{◌≡◌, refl, ap, sym, ◌∙◌}
use mathlib.Core.Logic.{inl, inr}
use native.Mathlib.Omega.{arith}
use mathlib.Core.Bool.{false, ◌&&◌}
use mathlib.Core.Option.{Option, none, some}
use text.Mathlib.TextEquality.{eq_iff}
use plaklet.Base.Tests.{
  leb, leb-true, ◌==◌, string_eq, nat_eq, if◌then◌else◌, Bool-cases, nat_beq_iff,
}

abbrev digit : ℕ → Char
digit zero = "0"
digit (suc zero) = "1"
digit (suc (suc zero)) = "2"
digit (suc (suc (suc zero))) = "3"
digit (suc (suc (suc (suc zero)))) = "4"
digit (suc (suc (suc (suc (suc zero))))) = "5"
digit (suc (suc (suc (suc (suc (suc zero)))))) = "6"
digit (suc (suc (suc (suc (suc (suc (suc zero))))))) = "7"
digit (suc (suc (suc (suc (suc (suc (suc (suc zero)))))))) = "8"
digit _ = "9"

code-digit : (d : ℕ) → d < 10 → code (digit d) ≡ 48 + d
code-digit zero h = refl
code-digit (suc zero) h = refl
code-digit (suc (suc zero)) h = refl
code-digit (suc (suc (suc zero))) h = refl
code-digit (suc (suc (suc (suc zero)))) h = refl
code-digit (suc (suc (suc (suc (suc zero))))) h = refl
code-digit (suc (suc (suc (suc (suc (suc zero)))))) h = refl
code-digit (suc (suc (suc (suc (suc (suc (suc zero))))))) h = refl
code-digit (suc (suc (suc (suc (suc (suc (suc (suc zero)))))))) h = refl
code-digit (suc (suc (suc (suc (suc (suc (suc (suc (suc zero))))))))) h = refl
code-digit (suc (suc (suc (suc (suc (suc (suc (suc (suc (suc d)))))))))) h = absurd (omega arith)

-- Digits only, added to what was read; of any size.
unfoldable pub parse_digits : String → ℕ → Option ℕ
parse_digits String.[] n = some n
parse_digits (String.◌∷◌ c s) n =
    let rest = parse_digits s (n * 10 + (code c - 48)) in
    if leb 48 (code c) && leb (code c) 57 then rest else none

-- `n` rounds are enough for `n`.
emit : ℕ → ℕ → String → String
emit zero n out = out
emit (suc fuel) n out =
    let rest = emit fuel (n / 10) (String.◌∷◌ (digit (n % 10)) out) in if n == 0 then out else rest

unfoldable pub decimal : ℕ → String
unfolding emit
decimal n = if n == 0 then "0" else emit n n ""

value : String → ℕ → ℕ
value String.[] n = n
value (String.◌∷◌ c s) n = value s (n * 10 + (code c - 48))

value-digit : (n : ℕ) → (n / 10) * 10 + (code (digit (n % 10)) - 48) ≡ n
value-digit n = omega (arith, code-digit (n % 10) (omega arith))

value-emit : (fuel n : ℕ) (out : String) → n ≤ fuel → value (emit fuel n out) 0 ≡ value out n
unfolding emit value
value-emit zero n out h = ap (value out) (omega arith)
value-emit (suc fuel) n out h = elim (Bool-cases (n == 0)) [
  | inl e ↦ rw e (ap (value out) (sym ((nat_beq_iff n 0).0 e)))
  | inr e ↦ rw e (
      value-emit fuel (n / 10) (String.◌∷◌ (digit (n % 10)) out) (ground arith)
      ∙ ap (value out) (value-digit n))
]

value-decimal : (n : ℕ) → value (decimal n) 0 ≡ n
unfolding decimal value
value-decimal n = elim (Bool-cases (n == 0)) [
  | inl e ↦ rw e (sym ((nat_beq_iff n 0).0 e))
  | inr e ↦ rw e (value-emit n n "" (omega arith))
]

-- Numbers with equal texts are equal.
pub decimal_inj : (m n : ℕ) → decimal m ≡ decimal n → m ≡ n
decimal_inj m n e = sym (value-decimal m) ∙ ap (λ s. value s 0) e ∙ value-decimal n

digit_in_range : (n : ℕ) → (48 ≤ code (digit (n % 10))) × (code (digit (n % 10)) ≤ 57)
digit_in_range n = omega (arith, code-digit (n % 10) (omega arith))

parse_digits-digit :
    (n : ℕ) (out : String)
    → parse_digits (String.◌∷◌ (digit (n % 10)) out) (n / 10) ≡ parse_digits out n
unfolding parse_digits
parse_digits-digit n out =
    let (low, high) = digit_in_range n in
    rw (leb-true 48 (code (digit (n % 10))) low, leb-true (code (digit (n % 10))) 57 high)
      (ap (parse_digits out) (value-digit n))

parse_digits-emit :
    (fuel n : ℕ) (out : String) → n ≤ fuel → parse_digits (emit fuel n out) 0 ≡ parse_digits out n
unfolding emit
parse_digits-emit zero n out h = ap (parse_digits out) (omega arith)
parse_digits-emit (suc fuel) n out h = elim (Bool-cases (n == 0)) [
  | inl e ↦ rw e (ap (parse_digits out) (sym ((nat_beq_iff n 0).0 e)))
  | inr e ↦ rw e (
      parse_digits-emit fuel (n / 10) (String.◌∷◌ (digit (n % 10)) out) (ground arith)
      ∙ parse_digits-digit n out)
]

-- A number that is printed is read back.
pub parse_digits-decimal : (n : ℕ) → parse_digits (decimal n) 0 ≡ some n
unfolding decimal parse_digits
parse_digits-decimal n = elim (Bool-cases (n == 0)) [
  | inl e ↦ rw e (ap some (sym ((nat_beq_iff n 0).0 e)))
  | inr e ↦ rw e (parse_digits-emit n n "" (omega arith))
]

-- The text of a number is not empty.
pub decimal_ne : (n : ℕ) → (decimal n == "") ≡ false
unfolding decimal value
decimal_ne n = elim (Bool-cases (decimal n == "")) [
  | inl e ↦
      let zero' : n ≡ 0 =
        sym (value-decimal n) ∙ ap (λ s. value s 0) ((eq_iff (decimal n) "").0 e) in
      rw zero'
  | inr e ↦ e
]
