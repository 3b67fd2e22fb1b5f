-- ===== src/Protocol/Configurations.antt =====
-- protocol.go: `Configuration`, `Integration`, `ConfigurationField` and `params`. kloset.go:
-- `protocolOf`. A UUID is its text; of a field's `Provider` only its presence is kept.
use plaklet.Base.{
  ℤ, String, ◌<>◌, Bool, false, Option, none, some, ◌≡◌, refl, List, [], ◌∷◌, ◌++◌, Map, lookup,
  insert, lookup-insert, cut_before, cut_before-scheme, has_code, ◌==◌, string_eq, if◌then◌else◌,
}

pub record Integration : Type 0 where
  pub id : String
  pub name : String
  pub version : String

pub record ConfigurationField : Type 0 where
  pub key : String
  pub has_provider : Bool
  pub val : String

pub record Configuration : Type 0 where
  pub id : String
  pub revision : ℤ
  pub type : String
  pub integration : Integration
  pub name : String
  pub fields : List ConfigurationField
  pub environment : String
  pub data_classes : List String
  pub urn : String
  pub urnid : String

-- The loop of `params`.
unfoldable pub params_loop : List ConfigurationField → Map String → Map String
params_loop [] m = m
params_loop (f ∷ fs) m = params_loop fs (insert f.key f.val m)

unfoldable pub params : Configuration → Map String
params c = params_loop c.fields []

-- The loop of `protocolOf`.
unfoldable pub protocol_of_fields : List ConfigurationField → String
protocol_of_fields [] = ""
protocol_of_fields (f ∷ fs) =
    let rest = protocol_of_fields fs in if f.key == "location" then cut_before "://" f.val else rest

unfoldable pub protocol_of : Configuration → String
protocol_of conf = protocol_of_fields conf.fields

-- The last value that a list of fields gives a key.
abbrev pub last_value : String → List ConfigurationField → Option String → Option String
last_value k [] found = found
last_value k (f ∷ fs) found = last_value k fs (if f.key == k then some f.val else found)

lookup-params_loop :
    (fs : List ConfigurationField) (m : Map String) (k : String)
    → lookup k (params_loop fs m) ≡ last_value k fs (lookup k m)
unfolding params_loop
lookup-params_loop [] m k = refl
lookup-params_loop (f ∷ fs) m k = simp (lookup-params_loop fs, lookup-insert)

-- `params` maps each key to the value of the last field that has it, and no other key.
pub lookup-params :
    (c : Configuration) (k : String) → lookup k (params c) ≡ last_value k c.fields none
unfolding params lookup
lookup-params c k = lookup-params_loop c.fields [] k

abbrev NoLocation : List ConfigurationField → Type 0
NoLocation [] = Unit
NoLocation (f ∷ fs) = ((f.key == "location") ≡ false) × NoLocation fs

protocol_of_fields-first :
    (before after : List ConfigurationField) (f : ConfigurationField) (scheme path : String)
    → NoLocation before
    → f.key ≡ "location"
    → f.val ≡ scheme <> ("://" <> path)
    → has_code b':' scheme ≡ false
    → protocol_of_fields (before ++ f ∷ after) ≡ scheme
unfolding protocol_of_fields
protocol_of_fields-first [] after f scheme path h k v n =
    rw (k, v) (cut_before-scheme scheme path n)
protocol_of_fields-first (g ∷ before) after f scheme path h k v n =
    rw h.0 (protocol_of_fields-first before after f scheme path h.1 k v n)

-- The protocol of a configuration is the scheme of its first location field, where that reads
-- `scheme://path` with no colon in the scheme.
pub protocol_of-first_location :
    (c : Configuration) (before after : List ConfigurationField) (f : ConfigurationField)
    (scheme path : String)
    → c.fields ≡ before ++ f ∷ after
    → NoLocation before
    → f.key ≡ "location"
    → f.val ≡ scheme <> ("://" <> path)
    → has_code b':' scheme ≡ false
    → protocol_of c ≡ scheme
unfolding protocol_of
protocol_of-first_location c before after f scheme path e h k v n =
    rw e (protocol_of_fields-first before after f scheme path h k v n)
