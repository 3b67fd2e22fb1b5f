-- ===== src/Job/Effects.antt =====
-- The effects of a job: values are closed in the reverse order of their opening, and the replies sent on
-- the way end no job.
use plaklet.Base.{◌⊎◌, All, All-append, ◌≡◌, refl, sym, ap, ◌∙◌, List, [], ◌∷◌, ◌++◌, subst}
use mathlib.Core.List.{append-nil, append_assoc}
use plaklet.Protocol.Messages.{ExecReply, warning, inventory as inventory_entry}
use plaklet.Job.Monad.{Machine, HandleOf, WorldOf, close_of, Effect, opened, closed, sent}

-- A reply that comes while an operation runs: a warning, or an entry of an inventory.
abbrev pub IsProgress : ExecReply → Type 0
IsProgress m = (m.type ≡ warning) ⊎ (m.type ≡ inventory_entry)

abbrev pub IsQuiet : {K : Machine} → Effect K → Type 0
IsQuiet (opened h) = Unit {0}
IsQuiet (closed h w w') = Unit {0}
IsQuiet (sent m) = IsProgress m

-- Every value that is opened is closed once, by its own `Close`, behind what is opened later.
pub data Nested {K : Machine} : List (Effect K) → Type 0 where
  nothing : Nested []
  reply : {es : List (Effect K)} → (m : ExecReply) → Nested es → Nested (sent m ∷ es)
  bracket :
      {es fs : List (Effect K)}
      → (h : HandleOf K) (w : WorldOf K) → Nested es
      → Nested fs
      → Nested (opened h ∷ es ++ closed h w (close_of K h w).1 ∷ fs)

module _ {K : Machine} where
  Nested-append : (es fs : List (Effect K)) → Nested es → Nested fs → Nested (es ++ fs)
  Nested-append _ fs nothing n = n
  Nested-append _ fs (reply {es} m n') n = reply m (Nested-append es fs n' n)
  Nested-append _ fs (bracket {es} {fs = gs} h w n' n'') n =
      subst Nested
        (ap (λ l. opened h ∷ l) (sym (append_assoc es (closed h w (close_of K h w).1 ∷ gs) fs)))
        (bracket h w n' (Nested-append gs fs n'' n))

  -- The effects `es` are followed by some that close, last first, exactly what they open, and send no
  -- reply but progress.
  abbrev pub Balanced : List (Effect K) → List (Effect K) → Type 0
  Balanced es fs = (gs : List (Effect K)) × (fs ≡ es ++ gs) × Nested gs × All IsQuiet gs

  pub Balanced-refl : (es : List (Effect K)) → Balanced es es
  Balanced-refl es = ([], sym (append-nil es), nothing, tt)

  pub Balanced-trans :
      (es fs hs : List (Effect K)) → Balanced es fs → Balanced fs hs → Balanced es hs
  Balanced-trans es fs hs (gs, e, n, q) (gs', e', n', q') = (
    gs ++ gs',
    e' ∙ ap (λ l. l ++ gs') e ∙ append_assoc es gs gs',
    Nested-append gs gs' n n',
    All-append IsQuiet gs gs' q q',
  )

  -- A bracket: opened, something balanced, closed.
  pub Balanced-bracket :
      (h : HandleOf K) (w : WorldOf K) (es fs : List (Effect K))
      → Balanced (es ++ opened h ∷ []) fs
      → Balanced es (fs ++ closed h w (close_of K h w).1 ∷ [])
  Balanced-bracket h w es fs (gs, e, n, q) = (
    opened h ∷ gs ++ closed h w (close_of K h w).1 ∷ [],
    ap (λ l. l ++ closed h w (close_of K h w).1 ∷ []) e
        ∙ rw (append_assoc es (opened h ∷ []) gs)
            (append_assoc es (opened h ∷ gs) (closed h w (close_of K h w).1 ∷ [])),
    bracket h w n nothing,
    (tt, All-append IsQuiet gs (closed h w (close_of K h w).1 ∷ []) q (tt, tt)),
  )

  pub Balanced-sent :
      (m : ExecReply) (es fs : List (Effect K))
      → IsProgress m
      → Balanced es fs
      → Balanced es (fs ++ sent m ∷ [])
  Balanced-sent m es fs p b = Balanced-trans es fs _ b (sent m ∷ [], refl, reply m nothing, (p, tt))
