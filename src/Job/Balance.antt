-- ===== src/Job/Balance.antt =====
-- An operation closes what it opens and sends nothing but progress, by rules for the ways to build an
-- operation.
use plaklet.Base.{
  ◌⊎◌, inl, inr, String, ◌≡◌, refl, subst, Bool, true, false, List, [], ◌∷◌, ◌++◌, if◌then◌else◌,
}
use plaklet.Errors.{Error, Result, ok, err}
use plaklet.Protocol.Messages.{ExecReply}
use plaklet.Job.Monad.{
  Machine, WorldOf, HandleOf, CrashOf, close_of, Effect, opened, closed, Job, Act, M, pure, fail,
  panic, lift, act, note_opened, acquire, send, continue, ◌>>=◌, attempt, after_close, ensuring,
  closing, on_result, wrapping,
}
use plaklet.Job.Effects.{
  IsProgress, Balanced, Balanced-refl, Balanced-trans, Balanced-bracket, Balanced-sent,
}

-- From any job, the action is balanced.
pub record IsBalanced {K : Machine} {A : Type 0} (m : M K A) : Type 0 where
  pub at : (j : Job K) → Balanced j.effects (m j).1.effects

-- The action opens the value `handle` of its result, or fails and opens none.
pub record IsOpening {K : Machine} {A : Type 0} (handle : A → HandleOf K) (m : M K A) : Type 0 where
  pub at :
      (j : Job K)
      → ((a : A) × ((m j).0 ≡ ok a) × ((m j).1.effects ≡ j.effects ++ opened (handle a) ∷ []))
        ⊎ ((e : Error) × ((m j).0 ≡ err e) × ((m j).1.effects ≡ j.effects))

module _ {K : Machine} {A : Type 0} where
  pub IsBalanced-pure : (a : A) → IsBalanced {K = K} (pure a)
  unfolding pure
  IsBalanced-pure a = record { at = λ j. Balanced-refl j.effects }

  pub IsBalanced-fail : (e : Error) → IsBalanced {K = K} {A = A} (fail e)
  unfolding fail
  IsBalanced-fail e = record { at = λ j. Balanced-refl j.effects }

  pub IsBalanced-panic : (reason : CrashOf K) → IsBalanced {A = A} (panic {K = K} reason)
  unfolding panic
  IsBalanced-panic reason = record { at = λ j. Balanced-refl j.effects }

  pub IsBalanced-lift : (r : Result A) → IsBalanced {K = K} (lift r)
  unfolding lift
  IsBalanced-lift r = record { at = λ j. Balanced-refl j.effects }

  pub IsBalanced-act : (f : Act (WorldOf K) A) → IsBalanced (act {K = K} f)
  unfolding act
  IsBalanced-act f = record { at = λ j. Balanced-refl j.effects }

  pub IsBalanced-if :
      (b : Bool) (m n : M K A) → IsBalanced m → IsBalanced n → IsBalanced (if b then m else n)
  IsBalanced-if true m n hm hn = hm
  IsBalanced-if false m n hm hn = hn

  pub IsOpening-acquire :
      (handle : A → HandleOf K) (f : Act (WorldOf K) A)
      → IsOpening {K = K} handle (acquire handle f)
  unfolding acquire
  IsOpening-acquire handle f = record { at = λ j. opening j (f j.world) }
    where
      opening :
          (j : Job K) (rw' : Result A × WorldOf K)
          → ((a : A) × (rw'.0 ≡ ok a)
              × ((note_opened handle rw'.0 (record j { world = rw'.1 })).effects
                  ≡ j.effects ++ opened (handle a) ∷ []))
            ⊎ ((e : Error) × (rw'.0 ≡ err e)
                × ((note_opened handle rw'.0 (record j { world = rw'.1 })).effects ≡ j.effects))
      opening j (ok a, w) = inl (a, refl, refl)
      opening j (err e, w) = inr (e, refl, refl)

  pub IsOpening-fail :
      (handle : A → HandleOf K) (e : Error) → IsOpening {K = K} {A = A} handle (fail e)
  unfolding fail
  IsOpening-fail handle e = record { at = λ j. inr (e, refl, refl) }

  pub IsOpening-if :
      (handle : A → HandleOf K) (b : Bool) (m n : M K A)
      → IsOpening handle m
      → IsOpening handle n
      → IsOpening handle (if b then m else n)
  IsOpening-if handle true m n hm hn = hm
  IsOpening-if handle false m n hm hn = hn

pub IsBalanced-send : {K : Machine} (m : ExecReply) → IsProgress m → IsBalanced {K = K} (send m)
unfolding send
IsBalanced-send m p = record {
  at = λ j. Balanced-sent m j.effects j.effects p (Balanced-refl j.effects);
}

Balanced-after_close :
    {K : Machine} (handle : HandleOf K) (w : WorldOf K) (es : List (Effect K))
    (c : Result (Unit {0})) (j : Job K)
    → Balanced (es ++ opened handle ∷ []) j.effects
    → j.world ≡ (close_of K handle w).1
    → Balanced es (after_close handle w c j).effects
Balanced-after_close {K} handle w es (ok _) j h e = rw e (Balanced-bracket handle w es j.effects h)
Balanced-after_close {K} handle w es (err e') j h e = rw e (
    Balanced-sent _ es (j.effects ++ closed handle w (close_of K handle w).1 ∷ []) (inl refl)
      (Balanced-bracket handle w es j.effects h))

module _ {K : Machine} {A B : Type 0} where
  IsBalanced-continue :
      (r : Result A) (f : A → M K B) (j : Job K)
      → ((a : A) → IsBalanced (f a))
      → Balanced j.effects (continue r f j).1.effects
  IsBalanced-continue (ok a) f j h = (h a).at j
  IsBalanced-continue (err e) f j h = Balanced-refl j.effects

  pub IsBalanced-bind :
      (m : M K A) (f : A → M K B)
      → IsBalanced m
      → ((a : A) → IsBalanced (f a))
      → IsBalanced (m >>= f)
  unfolding ◌>>=◌
  IsBalanced-bind m f hm hf = record {
    at = λ j.
        Balanced-trans j.effects (m j).1.effects _ (hm.at j)
          (IsBalanced-continue (m j).0 f (m j).1 hf);
  }

  pub IsBalanced-attempt :
      (m : M K A) (f : Result A → M K B)
      → IsBalanced m
      → ((r : Result A) → IsBalanced (f r))
      → IsBalanced (attempt m f)
  unfolding attempt
  IsBalanced-attempt m f hm hf = record {
    at = λ j. Balanced-trans j.effects (m j).1.effects _ (hm.at j) ((hf (m j).0).at (m j).1);
  }

  -- Opening a value and deferring its close at once.
  pub IsBalanced-ensuring :
      (handle : A → HandleOf K) (m : M K A) (body : A → M K B)
      → IsOpening handle m
      → ((a : A) → IsBalanced (body a))
      → IsBalanced (m >>= λ a. ensuring (handle a) (body a))
  unfolding ◌>>=◌ ensuring
  IsBalanced-ensuring handle m body hm hb = record {
    at = λ j. elim (hm.at j) [
      | inl (a, e, f) ↦ rw e (
          Balanced-after_close {K = K} (handle a) (body a (m j).1).1.world j.effects _ _
            (subst (λ es. Balanced es (body a (m j).1).1.effects) f ((hb a).at (m j).1)) refl)
      | inr (e', e, f) ↦ rw (e, f) (Balanced-refl j.effects)
    ];
  }

  IsBalanced-opened :
      (handle : A → HandleOf K) (m : M K A) (body : A → M K B) (handler : Error → M K B)
      → IsOpening handle m
      → ((a : A) → IsBalanced (body a))
      → ((e : Error) → IsBalanced (handler e))
      → (j : Job K)
      → Balanced j.effects
          (on_result (λ a. closing (handle a) (body a)) handler (m j).0 (m j).1).1.effects
  unfolding closing
  IsBalanced-opened handle m body handler hm hb hh j = elim (hm.at j) [
    | inl (a, e, f) ↦ rw e (
        Balanced-bracket (handle a) _ j.effects _
          (subst (λ es. Balanced es (body a (m j).1).1.effects) f ((hb a).at (m j).1)))
    | inr (e', e, f) ↦
        rw e (subst (λ es. Balanced es (handler e' (m j).1).1.effects) f ((hh e').at (m j).1))
  ]

  pub IsBalanced-attempt-closing :
      (handle : A → HandleOf K) (m : M K A) (body : A → M K B) (handler : Error → M K B)
      → IsOpening handle m
      → ((a : A) → IsBalanced (body a))
      → ((e : Error) → IsBalanced (handler e))
      → IsBalanced (attempt m (on_result (λ a. closing (handle a) (body a)) handler))
  unfolding attempt
  IsBalanced-attempt-closing handle m body handler hm hb hh = record {
    at = IsBalanced-opened handle m body handler hm hb hh;
  }

  pub IsBalanced-closing :
      (handle : A → HandleOf K) (m : M K A) (body : A → M K B)
      → IsOpening handle m
      → ((a : A) → IsBalanced (body a))
      → IsBalanced (m >>= λ a. closing (handle a) (body a))
  unfolding ◌>>=◌ fail
  IsBalanced-closing handle m body hm hb = record {
    at = λ j. elim (hm.at j) [
      | inl (a, e, f) ↦
          let opened_one = IsBalanced-opened handle m body fail hm hb IsBalanced-fail j in
          rw e (rw e at opened_one)
      | inr (e', e, f) ↦ rw (e, f) (Balanced-refl j.effects)
    ];
  }

-- A handler of both results.
pub IsBalanced-on_result :
    {K : Machine} {A B : Type 0} (f : A → M K B) (g : Error → M K B) (r : Result A)
    → ((a : A) → IsBalanced (f a))
    → ((e : Error) → IsBalanced (g e))
    → IsBalanced (on_result f g r)
IsBalanced-on_result f g (ok a) hf hg = hf a
IsBalanced-on_result f g (err e) hf hg = hg e

pub IsBalanced-wrapping :
    {K : Machine} {A : Type 0} (what : String) (m : M K A)
    → IsBalanced m
    → IsBalanced (wrapping what m)
unfolding wrapping
IsBalanced-wrapping what m h =
    IsBalanced-attempt m _ h
      (λ r. IsBalanced-on_result pure _ r IsBalanced-pure (λ e. IsBalanced-fail _))

pub IsOpening-wrapping :
    {K : Machine} {A : Type 0} (what : String) (handle : A → HandleOf K) (m : M K A)
    → IsOpening handle m
    → IsOpening handle (wrapping what m)
unfolding wrapping attempt pure fail
IsOpening-wrapping what handle m h = record {
  at = λ j. elim (h.at j) [
    | inl (a, e, f) ↦ rw e (inl (a, refl, f))
    | inr (e', e, f) ↦ rw e (inr (_, refl, f))
  ];
}

pub ruleset balance = (
  IsBalanced-pure, IsBalanced-fail, IsBalanced-panic, IsBalanced-lift, IsBalanced-act,
  IsBalanced-if, IsBalanced-ensuring, IsBalanced-closing, IsBalanced-attempt-closing,
  IsBalanced-bind, IsBalanced-attempt, IsBalanced-on_result, IsBalanced-wrapping, IsOpening-acquire,
  IsOpening-fail, IsOpening-if, IsOpening-wrapping,
)
