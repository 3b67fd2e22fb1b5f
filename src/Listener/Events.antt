-- ===== src/Listener/Events.antt =====
-- The events of the bus and the values that their data holds; `eventField`.
use plaklet.Base.{ℕ, ℤ, String, Option, none, some, ◌==◌, string_eq, if◌then◌else◌}
use plaklet.State.{Float64, Duration}
use plaklet.Protocol.Reports.{Mac}

-- The dynamic types of a value that the listener asks for, or `other`. A FileInfo is kept by its
-- size; the zero FileInfo has size 0.
mutual
  pub data Value : Type 0 where
    string : String → Value
    int64 : ℤ → Value
    uint64 : ℕ → Value
    float64 : Float64 → Value
    duration : Duration → Value
    error : String → Value
    file_info : ℤ → Value
    mac : Mac → Value
    object : Fields → Value
    other : Value

  pub data Fields : Type 0 where
    end : Fields
    field : String → Value → Fields → Fields

pub record Event : Type 0 where
  pub type : String
  pub level : String
  pub workflow : String
  pub snapshot : Mac
  pub payload : Fields

-- `m[key]` of a `map[string]any`
unfoldable pub get_field : String → Fields → Option Value
get_field key end = none
get_field key (field k v fs) = let rest = get_field key fs in if k == key then some v else rest

-- The type assertions `v.(T)`, comma ok.
abbrev pub as_string : Value → Option String
as_string (string s) = some s
as_string _ = none

abbrev pub as_int64 : Value → Option ℤ
as_int64 (int64 n) = some n
as_int64 _ = none

abbrev pub as_uint64 : Value → Option ℕ
as_uint64 (uint64 n) = some n
as_uint64 _ = none

abbrev pub as_duration : Value → Option Duration
as_duration (duration d) = some d
as_duration _ = none

abbrev pub as_error : Value → Option String
as_error (error e) = some e
as_error _ = none

abbrev pub as_file_info : Value → Option ℤ
as_file_info (file_info n) = some n
as_file_info _ = none

abbrev pub as_mac : Value → Option Mac
as_mac (mac m) = some m
as_mac _ = none

abbrev pub as_object : Value → Option Fields
as_object (object fs) = some fs
as_object _ = none

-- `eventField[T]`, with `none` for the zero value and false.
unfoldable pub event_field {ℓ} : {T : Type ℓ} → (Value → Option T) → Event → String → Option T
event_field cast e key = elim (get_field key e.payload) [ none ↦ none | some v ↦ cast v ]

-- `v, _ := eventField[T](e, key)`, with T's zero value.
abbrev pub field_or {ℓ} : {T : Type ℓ} → (Value → Option T) → Event → String → T → T
field_or cast e key zero_value = elim (event_field cast e key) [ none ↦ zero_value | some v ↦ v ]
