-- ===== src/Errors.antt =====
-- Go's `error` values as data, with the texts that `Error()` gives, and fallible results.
-- `external` is an error of a library that the program calls; `wrap` is `fmt.Errorf("…: %w", err)`.
use plaklet.Base.{String, ◌<>◌, Bool, true, false, ◌≡◌, refl, ◌⊎◌, inl, inr}

pub data Error : Type 0 where
  plugin_exist plugin_not_exist plugin_type_mismatch unsupported : Error
  text : String → Error
  external : String → Error
  wrap : String → Error → Error
  -- plugin.go: `PluginConnCloseError`, by which of its two errors are set.
  close_failed : String → Error → Error
  conn_close_failed : String → Error → Error
  both_closes_failed : String → Error → Error → Error

-- `fmt.Sprintf("%s: [close:%s] [conn:%s]", …)`
abbrev close_text : String → String → String → String
close_text name close conn = name <> (": [close:" <> (close <> ("] [conn:" <> (conn <> "]"))))

unfoldable pub message : Error → String
message plugin_exist = "plugin already registered"
message plugin_not_exist = "plugin not registered"
message plugin_type_mismatch = "plugin type mismatch"
message unsupported = "unsupported operation"
message (text s) = s
message (external s) = s
message (wrap s e) = s <> (": " <> message e)
message (close_failed name e) = close_text name (message e) "ok"
message (conn_close_failed name e) = close_text name "ok" (message e)
message (both_closes_failed name e e') = close_text name (message e) (message e')

-- `err == plugin.ErrPluginNotExist`
abbrev pub is_not_exist : Error → Bool
is_not_exist plugin_not_exist = true
is_not_exist _ = false

pub data Result {ℓ} (A : Type ℓ) : Type ℓ where
  ok : A → Result A
  err : Error → Result A

infixl 5 ◌>>=◌
abbrev pub ◌>>=◌ {ℓ κ} : {A : Type ℓ} {B : Type κ} → Result A → (A → Result B) → Result B
ok a >>= f = f a
err e >>= f = err e

pub Result-cases :
    {A : Type 0} (r : Result A) → ((a : A) × (r ≡ ok a)) ⊎ ((e : Error) × (r ≡ err e))
Result-cases (ok a) = inl (a, refl)
Result-cases (err e) = inr (e, refl)
