-- ===== src/Job/Monad.antt =====
-- An operation runs on a job: the world of the libraries, of any type, and the effects so far. It
-- may fail, and what it did before it failed stays done.
use plaklet.Base.{String, ◌<>◌, Option, some, List, [], ◌∷◌, ◌++◌}
use plaklet.Errors.{Error, Result, ok, err, text, wrap, message}
use plaklet.Protocol.Messages.{ExecReply, warning, plain}

-- An action of a library.
abbrev pub Act : Type 0 → Type 0 → Type 0
Act World A = World → Result A × World

-- What an operation runs on: the world of the libraries; the values that must be closed, and their
-- `Close`; and the reasons for which the program can crash.
pub data Machine : Type 1 where
  machine : (World Handle Crash : Type 0) → (Handle → World → Result (Unit {0}) × World) → Machine

abbrev pub WorldOf : Machine → Type 0
WorldOf (machine World Handle Crash close) = World

abbrev pub HandleOf : Machine → Type 0
HandleOf (machine World Handle Crash close) = Handle

abbrev pub CrashOf : Machine → Type 0
CrashOf (machine World Handle Crash close) = Crash

abbrev pub close_of : (K : Machine) → HandleOf K → Act (WorldOf K) (Unit {0})
close_of (machine World Handle Crash close) = close

-- A value is opened, or closed, from one world to another; or a reply is sent.
pub data Effect (K : Machine) : Type 0 where
  opened : HandleOf K → Effect K
  closed : HandleOf K → WorldOf K → WorldOf K → Effect K
  sent : ExecReply → Effect K

pub record Job (K : Machine) : Type 0 where
  pub world : WorldOf K
  pub effects : List (Effect K)
  -- The panic that is under way: the deferred closes still run, and nothing recovers.
  pub crash : Option (CrashOf K)

abbrev pub M : Machine → Type 0 → Type 0
M K A = Job K → Result A × Job K

module _ {K : Machine} where
  abbrev pub note : Effect K → Job K → Job K
  note e j = record j { effects = j.effects ++ e ∷ [] }

  module _ {A : Type 0} where
    unfoldable pub pure : A → M K A
    pure a j = (ok a, j)

    unfoldable pub fail : Error → M K A
    fail e j = (err e, j)

    -- A panic. It is passed on as an error, which none of the handlers around the places that panic
    -- catches.
    unfoldable pub panic : CrashOf K → M K A
    panic reason j = (err (text "panic"), record j { crash = some reason })

    unfoldable pub lift : Result A → M K A
    lift r j = (r, j)

    unfoldable pub act : Act (WorldOf K) A → M K A
    act f j = let (r, w) = f j.world in (r, record j { world = w })

    -- An action that opens the value `handle` of its result, if it succeeds.
    abbrev pub note_opened : (A → HandleOf K) → Result A → Job K → Job K
    note_opened handle (ok a) j = note (opened (handle a)) j
    note_opened handle (err e) j = j

    unfoldable pub acquire : (A → HandleOf K) → Act (WorldOf K) A → M K A
    acquire handle f j =
        let (r, w) = f j.world in (r, note_opened handle r (record j { world = w }))

  -- `send`
  unfoldable pub send : ExecReply → M K (Unit {0})
  send reply j = (ok tt, note (sent reply) j)

module _ {K : Machine} {A B : Type 0} where
  abbrev pub continue : Result A → (A → M K B) → Job K → Result B × Job K
  continue (ok a) f j = f a j
  continue (err e) f j = (err e, j)

  infixl 5 ◌>>=◌
  unfoldable pub ◌>>=◌ : M K A → (A → M K B) → M K B
  ◌>>=◌ m f j = let (r, j') = m j in continue r f j'

  abbrev pub on_result : (A → M K B) → (Error → M K B) → Result A → M K B
  on_result f g (ok a) = f a
  on_result f g (err e) = g e

  -- A call whose error the program handles by hand.
  unfoldable pub attempt : M K A → (Result A → M K B) → M K B
  attempt m f j = let (r, j') = m j in f r j'

-- What the world shows now.
abbrev pub read : {K : Machine} {A : Type 0} → (WorldOf K → A) → M K A
read f = act (λ w. (ok (f w), w))

-- `fmt.Errorf("…: %w", err)` around an error that is returned.
unfoldable pub wrapping : {K : Machine} {A : Type 0} → String → M K A → M K A
wrapping what m = attempt m (on_result pure (λ e. fail (wrap what e)))

module _ {K : Machine} where
  -- What a close leaves, from the world before it: the value counts as closed, and an error is a
  -- warning on stdout, whose text here leaves out what `%v` prints of the closer.
  abbrev pub after_close : HandleOf K → WorldOf K → Result (Unit {0}) → Job K → Job K
  after_close handle before (ok _) j = note (closed handle before j.world) j
  after_close handle before (err e) j =
      note (sent (plain warning ("plaklet: close failed: " <> message e)))
        (note (closed handle before j.world) j)

module _ {K : Machine} {A : Type 0} where
  -- `defer ensureClose(ctx, r)` in front of the rest of a function.
  unfoldable pub ensuring : HandleOf K → M K A → M K A
  ensuring handle body j =
      let (r, j') = body j in
      let (c, w) = close_of K handle j'.world in
      (r, after_close handle j'.world c (record j' { world = w }))

  -- `defer r.Close()`, whose error is dropped.
  unfoldable pub closing : HandleOf K → M K A → M K A
  closing handle body j =
      let (r, j') = body j in
      let (c, w) = close_of K handle j'.world in
      (r, note (closed handle j'.world w) (record j' { world = w }))
