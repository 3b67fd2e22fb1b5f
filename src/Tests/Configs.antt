-- ===== src/Tests/Configs.antt =====
-- Runs of what reads a configuration (protocol.go, kloset.go, plaklet.go, locate.go, prune.go).
use plaklet.Base.{
  zero, suc, ◌-◌, ◌*◌, pos, negsuc, neg, ◌+ℤ◌, ◌≡◌, ◌≢◌, ◌⊎◌, refl, String, Bool, true, false, none,
  some, List, [], ◌∷◌, Map, lookup, get_elem?, decimal, u64_mod, string_eq, has_code, arith,
}
use plaklet.Protocol.Configurations.{
  Configuration, ConfigurationField, params, protocol_of, last_value, lookup-params,
  protocol_of-first_location,
}
use plaklet.Protocol.IndexedLists.{
  index_key, indexed_from, indexed_list, Flattened, indexed_from-indexed_list, indexed_list-lookup,
  indexed_list-Flattened,
}
use plaklet.Locate.Parsing.{parse_uint, parse_uint-decimal}
use plaklet.Locate.Options.{LocateOptions, LocatePeriod, window, locate_options}
use plaklet.Locate.Windows.{window_exact, window_overflow}
use plaklet.Locate.Precedence.{
  labels_first, id_first, locate_options-tags_ids, locate_options-before, locate_options-since,
}
use plaklet.Locate.Grouping.{default_prune_group_by_dataset, default_prune_group_by_dataset_lem}

abbrev field_of : String → String → ConfigurationField
field_of k v = record { key = k; has_provider = false; val = v }

abbrev location : ConfigurationField
location = field_of "location" "s3://bucket"

abbrev bucket : Configuration
bucket = record {
  id = "";
  revision = pos 0;
  type = "store";
  integration = record { id = ""; name = "s3"; version = "1.0.0" };
  name = "";
  fields = field_of "region" "eu" ∷ location ∷ field_of "region" "us" ∷ [];
  environment = "";
  data_classes = [];
  urn = "";
  urnid = "";
}

lookup-params_example : lookup "region" (params bucket) ≡ last_value "region" bucket.fields none
lookup-params_example = lookup-params bucket "region"

protocol_of-first_location_example : protocol_of bucket ≡ "s3"
unfolding has_code
protocol_of-first_location_example =
    protocol_of-first_location bucket (field_of "region" "eu" ∷ []) (field_of "region" "us" ∷ [])
      location "s3" "bucket" refl (refl, tt) refl refl refl

abbrev config : Map String
config =
    ("labels.0", "nightly")
    ∷ ("labels.1", "eu")
    ∷ ("locate.filter.ids.0", "ab")
    ∷ ("before", "60")
    ∷ ("after", "3600")
    ∷ []

abbrev labels : List String
labels = "nightly" ∷ "eu" ∷ []

Flattened-labels : Flattened config "labels" labels
unfolding lookup index_key decimal
Flattened-labels zero le = refl
Flattened-labels (suc zero) le = refl
Flattened-labels (suc (suc zero)) le = refl
Flattened-labels (suc (suc (suc i))) le = absurd (omega (arith, le))

Flattened-tags : Flattened config "locate.filter.tags" []
unfolding lookup index_key decimal
Flattened-tags zero le = refl
Flattened-tags (suc i) le = absurd (omega (arith, le))

Flattened-ids : Flattened config "locate.filter.ids" ("ab" ∷ [])
unfolding lookup index_key decimal
Flattened-ids zero le = refl
Flattened-ids (suc zero) le = refl
Flattened-ids (suc (suc i)) le = absurd (omega (arith, le))

indexed_from-indexed_list_example :
    indexed_from config "labels" 6 0 ≡ some (indexed_list config "labels")
indexed_from-indexed_list_example = indexed_from-indexed_list config "labels"

indexed_list-lookup_example :
    get_elem? (indexed_list config "labels") 0 ≡ lookup (index_key "labels" 0) config
indexed_list-lookup_example = indexed_list-lookup config "labels" 0 (omega arith)

indexed_list-Flattened_example : indexed_list config "labels" ≡ labels
indexed_list-Flattened_example = indexed_list-Flattened config "labels" labels Flattened-labels

parse_uint-decimal_example : parse_uint (decimal 3600) ≡ some 3600
parse_uint-decimal_example = parse_uint-decimal 3600 (omega arith)

window_exact_example : window 3600 ≡ neg (3600 * 1000000000)
window_exact_example = window_exact 3600 (omega arith)

window_overflow_example : window 10000000000 ≡ pos (u64_mod - 10000000000 * 1000000000)
window_overflow_example = window_overflow 10000000000 (omega arith) (omega arith)

abbrev no_period : LocatePeriod
no_period = record { keep = pos 0; cap = pos 0 }

abbrev pub defaults : LocateOptions
defaults = record {
  filters = record {
    before = pos 0;
    since = pos 0;
    name = "";
    category = "";
    environment = "";
    perimeter = "";
    job = "";
    dataset = "";
    tags = [];
    ignore_tags = [];
    latest = false;
    ids = [];
    types = [];
    origins = [];
    roots = [];
    data_classes = [];
  };
  group_by = "";
  periods = record {
    minute = no_period;
    hour = no_period;
    day = no_period;
    week = no_period;
    month = no_period;
    year = no_period;
    monday = no_period;
    tuesday = no_period;
    wednesday = no_period;
    thursday = no_period;
    friday = no_period;
    saturday = no_period;
    sunday = no_period;
  };
}

abbrev options : LocateOptions
options = locate_options defaults (λ s. none) (pos 1700000000000000000) config

locate_options-tags_ids_example :
    (options.filters.tags ≡ labels_first labels [])
    × (options.filters.ids ≡ id_first (lookup "snapshot_id" config) ("ab" ∷ []))
locate_options-tags_ids_example =
    locate_options-tags_ids defaults (λ s. none) (pos 1700000000000000000) config labels []
      ("ab" ∷ []) Flattened-labels Flattened-tags Flattened-ids

before_found : lookup "before" config ≡ some (decimal 60)
unfolding lookup decimal
before_found = refl

after_found : lookup "after" config ≡ some (decimal 3600)
unfolding lookup decimal
after_found = refl

locate_options-before_example :
    options.filters.before ≡ pos 1700000000000000000 +ℤ neg (60 * 1000000000)
locate_options-before_example =
    locate_options-before defaults (λ s. none) (pos 1700000000000000000) config 60 (omega arith)
      before_found

locate_options-since_example :
    options.filters.since ≡ pos 1700000000000000000 +ℤ neg (3600 * 1000000000)
locate_options-since_example =
    locate_options-since defaults (λ s. none) (pos 1700000000000000000) config 3600 (omega arith)
      after_found

-- A period of days.
abbrev has_days : LocateOptions → Bool
has_days lo = elim lo.periods.day.keep [
  | pos n ↦ elim n [ zero ↦ false | suc m ↦ true ]
  | negsuc n ↦ false
]

abbrev no_group : String
no_group = ""

abbrev by_dataset : String
by_dataset = "dataset"

names_differ : no_group ≢ by_dataset
names_differ e = cc

-- Options that keep two days.
abbrev daily : LocateOptions
daily = record defaults {
  periods = record defaults.periods { day = record { keep = pos 2; cap = pos 0 } };
}

default_prune_group_by_dataset_example :
    ((daily.group_by ≢ no_group)
      ⊎ (has_days daily ≡ false)
      ⊎ (default_prune_group_by_dataset no_group by_dataset has_days daily
          ≡ record daily { group_by = by_dataset }))
    × ((daily.group_by ≡ no_group)
        ⊎ (default_prune_group_by_dataset no_group by_dataset has_days daily ≡ daily))
    × ((has_days daily ≡ true)
        ⊎ (default_prune_group_by_dataset no_group by_dataset has_days daily ≡ daily))
    × (default_prune_group_by_dataset no_group by_dataset has_days
          (default_prune_group_by_dataset no_group by_dataset has_days daily)
        ≡ default_prune_group_by_dataset no_group by_dataset has_days daily)
default_prune_group_by_dataset_example =
    default_prune_group_by_dataset_lem no_group by_dataset has_days daily names_differ
