-- ===== src/Locate/Options.antt =====
-- locate.go: `locateOptions`. The options are kloset's `locate.LocateOptions`, by the fields that
-- the program sets; its defaults, the clock and `time.Parse(time.RFC3339, …)` are parameters. A time
-- is a number of nanoseconds.
use plaklet.Base.{
  ℕ, ℤ, pos, ◌+ℤ◌, neg_i64, mul_i64, i64_of_u64, String, ◌<>◌, Bool, Option, none, some, List, [],
  ◌∷◌, Map, lookup, not, ◌==◌, string_eq, if◌then◌else◌,
}
use plaklet.Protocol.IndexedLists.{indexed_list}
use plaklet.Locate.Parsing.{parse_bool, parse_uint, atoi}

pub record LocateFilters : Type 0 where
  pub before : ℤ
  pub since : ℤ
  pub name : String
  pub category : String
  pub environment : String
  pub perimeter : String
  pub job : String
  pub dataset : String
  pub tags : List String
  pub ignore_tags : List String
  pub latest : Bool
  pub ids : List String
  pub types : List String
  pub origins : List String
  pub roots : List String
  pub data_classes : List String

pub record LocatePeriod : Type 0 where
  pub keep : ℤ
  pub cap : ℤ

pub record LocatePeriods : Type 0 where
  pub minute : LocatePeriod
  pub hour : LocatePeriod
  pub day : LocatePeriod
  pub week : LocatePeriod
  pub month : LocatePeriod
  pub year : LocatePeriod
  pub monday : LocatePeriod
  pub tuesday : LocatePeriod
  pub wednesday : LocatePeriod
  pub thursday : LocatePeriod
  pub friday : LocatePeriod
  pub saturday : LocatePeriod
  pub sunday : LocatePeriod

pub record LocateOptions : Type 0 where
  pub filters : LocateFilters
  pub group_by : String
  pub periods : LocatePeriods

-- The closures `str`, `boolean` and `when`: the new value, or the old one where the key is missing
-- or its text does not parse.
unfoldable pub str : Map String → String → String → String
str cfg key old = elim (lookup key cfg) [ none ↦ old | some v ↦ v ]

abbrev or_old {ℓ} : {A : Type ℓ} → Option A → A → A
or_old none old = old
or_old (some new) old = new

unfoldable pub boolean : Map String → String → Bool → Bool
boolean cfg key old = elim (lookup key cfg) [ none ↦ old | some v ↦ or_old (parse_bool v) old ]

unfoldable pub number : Map String → String → ℤ → ℤ
number cfg key old = elim (lookup key cfg) [ none ↦ old | some v ↦ or_old (atoi v) old ]

unfoldable pub when : (String → Option ℤ) → Map String → String → ℤ → ℤ
when parse_time cfg key old = elim (lookup key cfg) [
  | none ↦ old
  | some v ↦ or_old (parse_time v) old
]

unfoldable pub period : Map String → String → LocatePeriod → LocatePeriod
period cfg name p = record {
  keep = number cfg ("locate.period." <> (name <> ".keep")) p.keep;
  cap = number cfg ("locate.period." <> (name <> ".cap")) p.cap;
}

unfoldable pub all_periods : Map String → LocatePeriods → LocatePeriods
all_periods cfg p = record {
  minute = period cfg "minute" p.minute;
  hour = period cfg "hour" p.hour;
  day = period cfg "day" p.day;
  week = period cfg "week" p.week;
  month = period cfg "month" p.month;
  year = period cfg "year" p.year;
  monday = period cfg "monday" p.monday;
  tuesday = period cfg "tuesday" p.tuesday;
  wednesday = period cfg "wednesday" p.wednesday;
  thursday = period cfg "thursday" p.thursday;
  friday = period cfg "friday" p.friday;
  saturday = period cfg "saturday" p.saturday;
  sunday = period cfg "sunday" p.sunday;
}

-- The `locate.filter` namespace.
unfoldable pub filter_options : (String → Option ℤ) → Map String → LocateFilters → LocateFilters
filter_options parse_time cfg f = record {
  before = when parse_time cfg "locate.filter.before" f.before;
  since = when parse_time cfg "locate.filter.since" f.since;
  name = str cfg "locate.filter.name" f.name;
  category = str cfg "locate.filter.category" f.category;
  environment = str cfg "locate.filter.environment" f.environment;
  perimeter = str cfg "locate.filter.perimeter" f.perimeter;
  job = str cfg "locate.filter.job" f.job;
  dataset = str cfg "locate.filter.dataset" f.dataset;
  tags = indexed_list cfg "locate.filter.tags";
  ignore_tags = indexed_list cfg "locate.filter.ignore_tags";
  latest = boolean cfg "locate.filter.latest" f.latest;
  ids = indexed_list cfg "locate.filter.ids";
  types = indexed_list cfg "locate.filter.types";
  origins = indexed_list cfg "locate.filter.origins";
  roots = indexed_list cfg "locate.filter.roots";
  data_classes = indexed_list cfg "locate.filter.data_classes";
}

-- `-time.Duration(secs) * time.Second`, an int64 that wraps.
unfoldable pub window : ℕ → ℤ
window secs = mul_i64 (neg_i64 (i64_of_u64 secs)) (pos 1000000000)

-- `now.Add(-time.Duration(secs) * time.Second)`, if the key holds a number of seconds.
unfoldable pub relative : Map String → String → ℤ → ℤ → ℤ
relative cfg key now old = elim (lookup key cfg) [
  | none ↦ old
  | some v ↦ elim (parse_uint v) [ none ↦ old | some secs ↦ now +ℤ window secs ]
]

abbrev pub labels_or : List String → List String → List String
labels_or [] tags = tags
labels_or (l ∷ ls) tags = l ∷ ls

unfoldable pub text_at : Map String → String → String
text_at cfg key = elim (lookup key cfg) [ none ↦ "" | some v ↦ v ]

-- The top-level keys, which win over the namespace.
unfoldable pub fold_options : Map String → ℤ → LocateFilters → LocateFilters
fold_options cfg now f =
    let id : String = text_at cfg "snapshot_id" in
    record f {
      tags = labels_or (indexed_list cfg "labels") f.tags;
      latest = boolean cfg "latest" f.latest;
      ids = if not (id == "") then id ∷ [] else f.ids;
      before = relative cfg "before" now f.before;
      since = relative cfg "after" now f.since;
    }

unfoldable pub locate_options : LocateOptions → (String → Option ℤ) → ℤ → Map String → LocateOptions
locate_options defaults parse_time now cfg = record {
  filters = fold_options cfg now (filter_options parse_time cfg defaults.filters);
  group_by = str cfg "locate.group_by" defaults.group_by;
  periods = all_periods cfg defaults.periods;
}
