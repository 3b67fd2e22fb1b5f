-- ===== src/Base/Texts.antt =====
-- Text: `strings.Cut`, and separators.
use Prim.Native.Char.{code}
use Prim.Native.Nat.{ℕ}
use Prim.Native.String.{String, ◌++◌}
use mathlib.Core.Path.{◌≡◌, refl, ap, sym, ◌∙◌}
use mathlib.Core.Bool.{Bool, true, false}
use native.Mathlib.Omega.{arith}
use text.Mathlib.TextLemmas.{nil-append, cons-append, append_cancel_left}
use plaklet.Base.Tests.{◌==◌, nat_eq, if◌then◌else◌}

-- Whether a character stands in a text.
unfoldable pub has_code : ℕ → String → Bool
has_code n String.[] = false
has_code n (String.◌∷◌ c s) = let rest = has_code n s in if code c == n then true else rest

-- `strings.HasPrefix(s, p)`, the prefix first.
unfoldable pub has_prefix : String → String → Bool
has_prefix String.[] s = true
has_prefix (String.◌∷◌ p ps) String.[] = false
has_prefix (String.◌∷◌ p ps) (String.◌∷◌ c s) =
    let rest = has_prefix ps s in if code p == code c then rest else false

-- `before, _, _ := strings.Cut(s, sep)`: all of `s` where `sep` does not occur.
unfoldable pub cut_before : String → String → String
cut_before sep String.[] = String.[]
cut_before sep (String.◌∷◌ c s) =
    let rest = String.◌∷◌ c (cut_before sep s) in
    if has_prefix sep (String.◌∷◌ c s) then String.[] else rest

colon-append : (t : String) → ":" ++ t ≡ String.◌∷◌ ":" t
colon-append t = cons-append ":" String.[] t ∙ ap (String.◌∷◌ ":") (nil-append t)

scheme-append : (t : String) → "://" ++ t ≡ String.◌∷◌ ":" ("//" ++ t)
scheme-append t = cons-append ":" "//" t

prefix-append : (p t : String) → has_prefix p (p ++ t) ≡ true
unfolding has_prefix
prefix-append String.[] t = refl
prefix-append (String.◌∷◌ c p) t = rw cons-append (ground (arith, prefix-append p t))

-- The scheme of a location is what stands before the separator.
pub cut_before-scheme :
    (s t : String) → has_code b':' s ≡ false → cut_before "://" (s ++ ("://" ++ t)) ≡ s
unfolding cut_before has_code has_prefix
cut_before-scheme String.[] t h =
    rw nil-append (rw scheme-append (ground (arith, prefix-append "://" t, scheme-append t)))
cut_before-scheme (String.◌∷◌ c s) t h =
    rw (cons-append c s) (ground (arith, cut_before-scheme s t))

-- The text before the first colon.
before_colon : String → String
before_colon String.[] = String.[]
before_colon (String.◌∷◌ c s) =
    let rest = String.◌∷◌ c (before_colon s) in if code c == b':' then String.[] else rest

before_colon_lem : (s t : String) → has_code b':' s ≡ false → before_colon (s ++ (":" ++ t)) ≡ s
unfolding has_code before_colon
before_colon_lem String.[] t h = rw nil-append (rw colon-append)
before_colon_lem (String.◌∷◌ c s) t h = rw (cons-append c s) (ground (arith, before_colon_lem s t))

-- A text before a separator, and the text behind it, are determined if the first holds no colon.
pub colon_inj :
    (s s' t t' : String)
    → has_code b':' s ≡ false
    → has_code b':' s' ≡ false
    → s ++ (":" ++ t) ≡ s' ++ (":" ++ t')
    → (s ≡ s') × (t ≡ t')
colon_inj s s' t t' h h' e =
    let same : s ≡ s' =
      sym (before_colon_lem s t h) ∙ ap before_colon e ∙ before_colon_lem s' t' h' in
    let tails : s ++ (":" ++ t) ≡ s ++ (":" ++ t') = e ∙ ap (λ x. x ++ (":" ++ t')) (sym same) in
    (same, append_cancel_left ":" t t' (append_cancel_left s (":" ++ t) (":" ++ t') tails))
