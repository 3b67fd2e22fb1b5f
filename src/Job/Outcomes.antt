-- ===== src/Job/Outcomes.antt =====
-- What an operation returns, if it returns no error, by rules for the ways to build an operation.
use plaklet.Base.{
  ◌≡◌, refl, ap, subst, Bool, true, false, String, ◌==◌, Comparable, string_eq, Bool-cases, inl,
  inr, if◌then◌else◌, ◌≢◌,
}
use plaklet.Errors.{Error, Result, ok, err}
use plaklet.Job.Monad.{
  Machine, WorldOf, HandleOf, Job, M, pure, fail, act, continue, ◌>>=◌, attempt, ensuring, closing,
  on_result, read,
}

-- Every result of the action that is no error has the property.
pub record Yields {ℓ} {K : Machine} {A : Type 0} (P : A → Type ℓ) (m : M K A) : Type ℓ where
  pub at : (j : Job K) (a : A) → (m j).0 ≡ ok a → P a

abbrev value_or {ℓ} : {A : Type ℓ} → A → Result A → A
value_or a (ok b) = b
value_or a (err e) = a

ok_inj : {A : Type 0} {a b : A} → ok a ≡ ok b → a ≡ b
ok_inj {a = a} e = ap (value_or a) e

ok_ne : {A : Type 0} {a : A} {e : Error} → err e ≢ ok a
ok_ne e = cc

module _ {ℓ} {K : Machine} {A : Type 0} (P : A → Type ℓ) where
  pub Yields-pure : (a : A) → P a → Yields {K = K} P (pure a)
  unfolding pure
  Yields-pure a p = record { at = λ j b e. subst P (ok_inj e) p }

  pub Yields-fail : (e : Error) → Yields {K = K} P (fail e)
  unfolding fail
  Yields-fail e = record { at = λ j b e'. absurd (ok_ne e') }

  pub Yields-read : (f : WorldOf K → A) → ((w : WorldOf K) → P (f w)) → Yields P (read {K = K} f)
  unfolding act
  Yields-read f p = record { at = λ j b e. subst P (ok_inj e) (p j.world) }

  pub Yields-if : (b : Bool) (m n : M K A) → Yields P m → Yields P n → Yields P (if b then m else n)
  Yields-if true m n hm hn = hm
  Yields-if false m n hm hn = hn

  -- A test of a text, which a branch knows.
  pub Yields-test :
      (s t : String) (m n : M K A)
      → (s ≡ t → Yields P m)
      → Yields P n
      → Yields P (if s == t then m else n)
  Yields-test s t m n hm hn = elim (Bool-cases (s == t)) [
    | inl e ↦ rw e (hm ((Comparable.decides string_eq s t).0 e))
    | inr e ↦ rw e hn
  ]

  pub Yields-ensuring :
      (handle : HandleOf K) (m : M K A) → Yields P m → Yields P (ensuring handle m)
  unfolding ensuring
  Yields-ensuring handle m h = record { at = λ j a e. h.at j a e }

  pub Yields-closing : (handle : HandleOf K) (m : M K A) → Yields P m → Yields P (closing handle m)
  unfolding closing
  Yields-closing handle m h = record { at = λ j a e. h.at j a e }

module _ {ℓ} {K : Machine} {A B : Type 0} (P : B → Type ℓ) where
  Yields-continue :
      (r : Result A) (f : A → M K B) (j : Job K) (b : B)
      → ((a : A) → Yields P (f a))
      → (continue r f j).0 ≡ ok b
      → P b
  Yields-continue (ok a) f j b h e = (h a).at j b e
  Yields-continue (err e') f j b h e = absurd (ok_ne e)

  pub Yields-bind : (m : M K A) (f : A → M K B) → ((a : A) → Yields P (f a)) → Yields P (m >>= f)
  unfolding ◌>>=◌
  Yields-bind m f h = record { at = λ j b e. Yields-continue (m j).0 f (m j).1 b h e }

  -- With what the first action yields.
  Yields-continue_with {κ} :
      (Q : A → Type κ) (r : Result A) (f : A → M K B) (j : Job K) (b : B)
      → ((a : A) → r ≡ ok a → Q a)
      → ((a : A) → Q a → Yields P (f a))
      → (continue r f j).0 ≡ ok b
      → P b
  Yields-continue_with Q (ok a) f j b q h e = (h a (q a refl)).at j b e
  Yields-continue_with Q (err e') f j b q h e = absurd (ok_ne e)

  pub Yields-bind_with {κ} :
      (Q : A → Type κ) (m : M K A) (f : A → M K B)
      → Yields Q m
      → ((a : A) → Q a → Yields P (f a))
      → Yields P (m >>= f)
  unfolding ◌>>=◌
  Yields-bind_with Q m f q h = record {
    at = λ j b e. Yields-continue_with Q (m j).0 f (m j).1 b (λ a e'. q.at j a e') h e;
  }

  pub Yields-attempt :
      (m : M K A) (f : Result A → M K B)
      → ((r : Result A) → Yields P (f r))
      → Yields P (attempt m f)
  unfolding attempt
  Yields-attempt m f h = record { at = λ j b e. (h (m j).0).at (m j).1 b e }

  pub Yields-on_result :
      (f : A → M K B) (g : Error → M K B) (r : Result A)
      → ((a : A) → Yields P (f a))
      → ((e : Error) → Yields P (g e))
      → Yields P (on_result f g r)
  Yields-on_result f g (ok a) hf hg = hf a
  Yields-on_result f g (err e) hf hg = hg e

pub ruleset yields = (
  Yields-pure, Yields-fail, Yields-read, Yields-if, Yields-ensuring, Yields-closing, Yields-bind,
  Yields-attempt, Yields-on_result,
)
