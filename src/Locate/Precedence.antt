-- ===== src/Locate/Precedence.antt =====
-- Which of the forms of a filter wins, for a config as the control plane writes it.
use plaklet.Base.{
  ℕ, ◌*◌, ◌≤◌, ◌≡◌, refl, ap, ℤ, neg, ◌+ℤ◌, String, Option, none, some, List, [], ◌∷◌, Map, lookup,
  decimal, ◌==◌, string_eq, if◌then◌else◌, not, arith,
}
use plaklet.Protocol.IndexedLists.{Flattened, indexed_list-Flattened}
use plaklet.Locate.Parsing.{parse_uint-decimal}
use plaklet.Locate.Options.{
  LocateOptions, labels_or, text_at, filter_options, relative, fold_options, locate_options,
}
use plaklet.Locate.Windows.{window_exact}

relative-decimal :
    (cfg : Map String) (key : String) (now old : ℤ) (secs : ℕ)
    → secs ≤ 9223372036
    → lookup key cfg ≡ some (decimal secs)
    → relative cfg key now old ≡ now +ℤ neg (secs * 1000000000)
unfolding relative
relative-decimal cfg key now old secs h e =
    rw (e, relative)
      (rw (parse_uint-decimal secs (omega arith), relative)
        (ap (λ offset. now +ℤ offset) (window_exact secs h)))

-- The tags that labels and tags select by.
abbrev pub labels_first : List String → List String → List String
labels_first [] tags = tags
labels_first (label ∷ labels) tags = label ∷ labels

-- The ids that a snapshot_id and ids select by.
abbrev pub id_first : Option String → List String → List String
id_first none ids = ids
id_first (some id) ids = if id == "" then ids else id ∷ []

labels_first_eq : (labels tags : List String) → labels_or labels tags ≡ labels_first labels tags
labels_first_eq [] tags = refl
labels_first_eq (label ∷ labels) tags = refl

id_first_eq :
    (cfg : Map String) (ids : List String)
    → (if not (text_at cfg "snapshot_id" == "") then text_at cfg "snapshot_id" ∷ [] else ids)
      ≡ id_first (lookup "snapshot_id" cfg) ids
unfolding text_at
id_first_eq cfg ids = found (lookup "snapshot_id" cfg)
  where
    found :
        (id : Option String)
        → let text : String = elim id [ none ↦ "" | some v ↦ v ] in
          (if not (text == "") then text ∷ [] else ids) ≡ id_first id ids
    found none = refl
    found (some id) = ground arith

module _ (defaults : LocateOptions) (parse_time : String → Option ℤ) (now : ℤ)
    (cfg : Map String) where
  -- For a config that names the labels `labels`, the tags `tags` and the ids `ids` as indexed lists,
  -- the tag filter is the labels if there is one and the tags if there is none; and the id filter is
  -- the text under snapshot_id alone, or the ids if that key is missing or empty.
  pub locate_options-tags_ids :
      (labels tags ids : List String)
      → Flattened cfg "labels" labels
      → Flattened cfg "locate.filter.tags" tags
      → Flattened cfg "locate.filter.ids" ids
      → ((locate_options defaults parse_time now cfg).filters.tags ≡ labels_first labels tags)
        × ((locate_options defaults parse_time now cfg).filters.ids
            ≡ id_first (lookup "snapshot_id" cfg) ids)
  unfolding locate_options fold_options filter_options
  locate_options-tags_ids labels tags ids hl ht hi = (
    rw
        (
          indexed_list-Flattened cfg "labels" labels hl,
          indexed_list-Flattened cfg "locate.filter.tags" tags ht,
        )
        (labels_first_eq labels tags),
    rw (indexed_list-Flattened cfg "locate.filter.ids" ids hi) (id_first_eq cfg ids),
  )

  -- A window of up to 9223372036 seconds, written in decimal under the key `before`, sets the upper
  -- cut-off to exactly that long before now, whatever else the config says.
  pub locate_options-before :
      (secs : ℕ)
      → secs ≤ 9223372036
      → lookup "before" cfg ≡ some (decimal secs)
      → (locate_options defaults parse_time now cfg).filters.before ≡ now +ℤ neg (secs * 1000000000)
  unfolding locate_options fold_options
  locate_options-before secs h e = relative-decimal cfg "before" now _ secs h e

  -- A window of up to 9223372036 seconds, written in decimal under the key `after`, sets the lower
  -- cut-off to exactly that long before now, whatever else the config says.
  pub locate_options-since :
      (secs : ℕ)
      → secs ≤ 9223372036
      → lookup "after" cfg ≡ some (decimal secs)
      → (locate_options defaults parse_time now cfg).filters.since ≡ now +ℤ neg (secs * 1000000000)
  unfolding locate_options fold_options
  locate_options-since secs h e = relative-decimal cfg "after" now _ secs h e
