-- ===== src/Locate/Grouping.antt =====
-- prune.go: `defaultPruneGroupByDataset`, with kloset's two grouping keys and `HasPeriods` as
-- parameters.
use plaklet.Base.{
  String, ◌≡◌, ◌≢◌, ◌⊎◌, Bool, true, false, ◌&&◌, ◌==◌, string_eq, if◌then◌else◌, arith, eq_iff,
}
use plaklet.Locate.Options.{LocateOptions}

module _ (group_by_none group_by_dataset : String) (has_periods : LocateOptions → Bool) where
  unfoldable pub default_prune_group_by_dataset : LocateOptions → LocateOptions
  default_prune_group_by_dataset lo =
      if lo.group_by == group_by_none && has_periods lo
      then record lo { group_by = group_by_dataset }
      else lo

  -- The default grouping of a prune, if the two grouping keys differ: options that name no grouping
  -- and have a period are grouped by dataset, and nothing else of them changes; options that name a
  -- grouping, or have no period, are left as they are; and a second call changes nothing.
  pub default_prune_group_by_dataset_lem :
      (lo : LocateOptions)
      → group_by_none ≢ group_by_dataset
      → ((lo.group_by ≢ group_by_none)
          ⊎ (has_periods lo ≡ false)
          ⊎ (default_prune_group_by_dataset lo ≡ record lo { group_by = group_by_dataset }))
        × ((lo.group_by ≡ group_by_none) ⊎ (default_prune_group_by_dataset lo ≡ lo))
        × ((has_periods lo ≡ true) ⊎ (default_prune_group_by_dataset lo ≡ lo))
        × (default_prune_group_by_dataset (default_prune_group_by_dataset lo)
            ≡ default_prune_group_by_dataset lo)
  unfolding default_prune_group_by_dataset
  default_prune_group_by_dataset_lem lo h =
      ground (arith, eq_iff lo.group_by group_by_none, eq_iff group_by_dataset group_by_none)
