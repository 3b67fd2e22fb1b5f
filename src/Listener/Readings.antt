-- ===== src/Listener/Readings.antt =====
-- listener.go: what `ioDirFromEvent` reads, field by field.
use mathlib.Core.Path.{fun_ext}
use plaklet.Base.{◌≡◌, refl, ap, ◌∙◌, ℤ, pos, String, Option, none, some, arith}
use plaklet.State.{Float64, Duration, Latency, IoDir, zero_latency}
use plaklet.Listener.Events.{
  Value, int64, float64, duration, object, Fields, end, Event, get_field, as_int64, as_duration,
  as_object, event_field,
}
use plaklet.Listener.Update.{
  FloatOps, MacOps, object_in, duration_in, number, number_in, latency_from_dir, io_dir_from_event,
}

-- The fields of an object; nothing else has any.
abbrev inside : Option Value → String → Option Value
inside (some (object fields)) key = get_field key fields
inside _ key = none

-- A value of a type, or 0.
abbrev a_count : Option Value → ℤ
a_count (some (int64 n)) = n
a_count _ = pos 0

abbrev a_duration : Option Value → Duration
a_duration (some (duration d)) = d
a_duration _ = pos 0

abbrev latencies : (String → Option Value) → Latency
latencies at = record {
  count = a_count (at "count");
  avg = a_duration (at "avg");
  p50 = a_duration (at "p50");
  p95 = a_duration (at "p95");
  max = a_duration (at "max");
}

module _ (floats : FloatOps) where
  abbrev a_rate : Option Value → Float64
  a_rate (some (float64 f)) = f
  a_rate (some (int64 n)) = floats.of_int64 n
  a_rate _ = 0

  abbrev directed : (String → Option Value) → IoDir
  directed at = record {
    total_bytes = floats.to_int64 (a_rate (at "total"));
    overall = a_rate (at "overall");
    overall_wall = a_rate (at "overall_wall");
    latency = latencies (inside (at "latency"));
  }

  -- One direction of an iostats event.
  abbrev pub direction : Option Value → IoDir
  direction v = directed (inside v)

-- `v` as a map, nil if it is none.
abbrev fields_of : Option Value → Fields
fields_of v = elim (elim v as (λ _. Option Fields) [ none ↦ none | some v ↦ as_object v ]) [
  | none ↦ end
  | some fields ↦ fields
]

get_field-fields_of : (v : Option Value) (key : String) → get_field key (fields_of v) ≡ inside v key
unfolding get_field
get_field-fields_of none key = refl
get_field-fields_of (some v) key = ground arith

duration_in-a_duration :
    (fields : Fields) (key : String) → duration_in fields key ≡ a_duration (get_field key fields)
duration_in-a_duration fields key = durations (get_field key fields)
  where
    durations :
        (v : Option Value)
        → elim v as (λ _. Duration) [
          | none ↦ pos 0
          | some v ↦ elim (as_duration v) [ none ↦ pos 0 | some d ↦ d ]
        ]
          ≡ a_duration v
    durations none = refl
    durations (some v) = ground arith

counts-a_count :
    (v : Option Value)
    → elim v as (λ _. ℤ) [ none ↦ pos 0 | some v ↦ elim (as_int64 v) [ none ↦ pos 0 | some n ↦ n ] ]
      ≡ a_count v
counts-a_count none = refl
counts-a_count (some v) = ground arith

abbrev read_latency : Fields → Latency
read_latency fields = record {
  count = elim (get_field "count" fields) [
    | none ↦ pos 0
    | some v ↦ elim (as_int64 v) [ none ↦ pos 0 | some n ↦ n ]
  ];
  avg = duration_in fields "avg";
  p50 = duration_in fields "p50";
  p95 = duration_in fields "p95";
  max = duration_in fields "max";
}

read_latency-latencies :
    (fields : Fields) → read_latency fields ≡ latencies (λ key. get_field key fields)
read_latency-latencies fields = rw (
  counts-a_count (get_field "count" fields),
  duration_in-a_duration fields "avg",
  duration_in-a_duration fields "p50",
  duration_in-a_duration fields "p95",
  duration_in-a_duration fields "max",
)

latency_from_dir-latencies :
    (fields : Fields) → latency_from_dir fields ≡ latencies (inside (get_field "latency" fields))
unfolding latency_from_dir
latency_from_dir-latencies fields = found (get_field "latency" fields)
  where
    found :
        (v : Option Value)
        → elim (object_in v) as (λ _. Latency) [ none ↦ zero_latency | some lat ↦ read_latency lat ]
          ≡ latencies (inside v)
    found none = refl
    found (some (object lat)) = read_latency-latencies lat
    found (some v) = refl

module _ (floats : FloatOps) (macs : MacOps) where
  number_in-a_rate :
      (fields : Fields) (key : String)
      → number_in floats macs fields key ≡ a_rate floats (get_field key fields)
  number_in-a_rate fields key = rates (get_field key fields)
    where
      rates :
          (v : Option Value)
          → elim v as (λ _. Float64) [ none ↦ 0 | some v ↦ number floats macs v ] ≡ a_rate floats v
      rates none = refl
      rates (some v) = ground arith

  read_direction-directed :
      (fields : Fields)
      → record {
        total_bytes = floats.to_int64 (number_in floats macs fields "total");
        overall = number_in floats macs fields "overall";
        overall_wall = number_in floats macs fields "overall_wall";
        latency = latency_from_dir fields;
      }
        ≡ directed floats (λ key. get_field key fields)
  read_direction-directed fields = rw (
    number_in-a_rate fields "total",
    number_in-a_rate fields "overall",
    number_in-a_rate fields "overall_wall",
    latency_from_dir-latencies fields,
  )

  pub io_dir_from_event-direction :
      (e : Event) (key : String)
      → io_dir_from_event floats macs e key ≡ direction floats (get_field key e.payload)
  unfolding io_dir_from_event event_field
  io_dir_from_event-direction e key =
      let v : Option Value = get_field key e.payload in
      read_direction-directed (fields_of v) ∙ ap (directed floats) (fun_ext (get_field-fields_of v))
