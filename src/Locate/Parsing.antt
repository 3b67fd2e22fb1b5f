-- ===== src/Locate/Parsing.antt =====
-- strconv's `ParseBool`, `Atoi` and `ParseUint(s, 10, 64)`, with `none` for an error.
use Prim.Native.Char.{code}
use plaklet.Base.{
  ℕ, suc, ℤ, pos, neg, u64_mod, i64_half, String, Bool, true, false, Option, none, some, ltb, ◌||◌,
  ◌==◌, nat_eq, parse_digits, string_eq, if◌then◌else◌, ◌<◌, ◌≡◌, decimal, decimal_ne,
  parse_digits-decimal, lt→ltb, arith,
}

unfoldable pub parse_bool : String → Option Bool
parse_bool s =
    if s == "1" || s == "t" || s == "T" || s == "true" || s == "TRUE" || s == "True"
    then some true
    else if s == "0" || s == "f" || s == "F" || s == "false" || s == "FALSE" || s == "False"
    then some false
    else none

abbrev at_most : ℕ → Option ℕ → Option ℕ
at_most limit none = none
at_most limit (some n) = if ltb n limit then some n else none

unfoldable pub parse_uint : String → Option ℕ
parse_uint s = if s == "" then none else at_most u64_mod (parse_digits s 0)

-- The digits behind a sign.
unfoldable pub parse_unsigned : String → ℕ → Option ℕ
parse_unsigned s limit = if s == "" then none else at_most limit (parse_digits s 0)

abbrev as_pos : Option ℕ → Option ℤ
as_pos none = none
as_pos (some n) = some (pos n)

abbrev as_neg : Option ℕ → Option ℤ
as_neg none = none
as_neg (some n) = some (neg n)

-- An int has 64 bits.
unfoldable pub atoi : String → Option ℤ
atoi String.[] = none
atoi (String.◌∷◌ c s) =
    if code c == 45
    then as_neg (parse_unsigned s (suc i64_half))
    else if code c == 43
    then as_pos (parse_unsigned s i64_half)
    else as_pos (parse_unsigned (String.◌∷◌ c s) i64_half)

-- A uint64 that is printed is read back.
pub parse_uint-decimal : (n : ℕ) → n < u64_mod → parse_uint (decimal n) ≡ some n
unfolding parse_uint
parse_uint-decimal n h = ground (arith, parse_digits-decimal n, decimal_ne n, lt→ltb n u64_mod)
