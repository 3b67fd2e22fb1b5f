-- ===== src/State/Equality.antt =====
-- state.go: `Equal`. Go's `==` on a struct compares its fields; on float64 no NaN equals anything, and
-- the two zeros are equal.
use plaklet.Base.{
  ℕ, ◌%◌, ℤ, pos, negsuc, Bool, true, false, not, ◌&&◌, ◌||◌, Option, none, some, List, [], ◌∷◌,
  Map, lookup, length, ltb, ◌==◌, nat_eq, string_eq,
}
use plaklet.State.Types.{
  Float64, StateCounter, Latency, IoDir, IoScope, ResourceSample, NetworkSample, LatencySample,
  RecentPath, Summary, JobResult, Processed, State,
}

-- Without the sign bit, the patterns above that of infinity.
abbrev magnitude : Float64 → ℕ
magnitude f = f % 9223372036854775808

abbrev pub is_nan : Float64 → Bool
is_nan f = ltb 9218868437227405312 (magnitude f)

unfoldable pub float_eq : Float64 → Float64 → Bool
float_eq a b =
    not (is_nan a) && (not (is_nan b) && (a == b || magnitude a == 0 && magnitude b == 0))

abbrev pub int_eq : ℤ → ℤ → Bool
int_eq (pos a) (pos b) = a == b
int_eq (negsuc a) (negsuc b) = a == b
int_eq _ _ = false

abbrev pub bool_eq : Bool → Bool → Bool
bool_eq true b = b
bool_eq false b = not b

unfoldable pub counter_eq : StateCounter → StateCounter → Bool
counter_eq a b =
    a.total == b.total
    && (a.ok == b.ok
        && (a.error == b.error
            && (a.size == b.size && (a.cached == b.cached && a.cached_size == b.cached_size))))

unfoldable pub latency_eq : Latency → Latency → Bool
latency_eq a b =
    int_eq a.count b.count
    && (int_eq a.avg b.avg && (int_eq a.p50 b.p50 && (int_eq a.p95 b.p95 && int_eq a.max b.max)))

unfoldable pub dir_eq : IoDir → IoDir → Bool
dir_eq a b =
    int_eq a.total_bytes b.total_bytes
    && (float_eq a.overall b.overall
        && (float_eq a.overall_wall b.overall_wall && latency_eq a.latency b.latency))

unfoldable pub scope_eq : IoScope → IoScope → Bool
scope_eq a b = dir_eq a.read b.read && dir_eq a.write b.write

unfoldable pub resource_eq : ResourceSample → ResourceSample → Bool
resource_eq a b =
    int_eq a.at b.at && (float_eq a.cpu_percent b.cpu_percent && a.memory_bytes == b.memory_bytes)

unfoldable pub network_eq : NetworkSample → NetworkSample → Bool
network_eq a b =
    int_eq a.at b.at
    && (float_eq a.read_bytes_per_sec b.read_bytes_per_sec
        && float_eq a.write_bytes_per_sec b.write_bytes_per_sec)

unfoldable pub latency_sample_eq : LatencySample → LatencySample → Bool
latency_sample_eq a b =
    int_eq a.at b.at
    && (int_eq a.count b.count
        && (int_eq a.avg b.avg
            && (int_eq a.p50 b.p50 && (int_eq a.p95 b.p95 && int_eq a.max b.max))))

unfoldable pub path_eq : RecentPath → RecentPath → Bool
path_eq a b = a.path == b.path && a.status == b.status

unfoldable pub summary_eq : Summary → Summary → Bool
summary_eq a b =
    bool_eq a.exists b.exists
    && (a.paths == b.paths
        && (a.files == b.files
            && (a.directories == b.directories
                && (a.symlinks == b.symlinks && (a.xattrs == b.xattrs && a.size == b.size)))))

unfoldable pub result_eq : JobResult → JobResult → Bool
result_eq a b = a.size == b.size && (a.errors == b.errors && float_eq a.duration b.duration)

unfoldable pub processed_eq : Processed → Processed → Bool
processed_eq a b = a.items == b.items && a.bytes == b.bytes

-- `slices.Equal`
unfoldable pub slices_equal : {A : Type 0} → (A → A → Bool) → List A → List A → Bool
slices_equal eq [] [] = true
slices_equal eq (a ∷ as') (b ∷ bs) = eq a b && slices_equal eq as' bs
slices_equal eq _ _ = false

abbrev pub found_equal : {V : Type 0} → (V → V → Bool) → V → Option V → Bool
found_equal eq v none = false
found_equal eq v (some w) = eq v w

-- The loop of `maps.Equal` over the entries of the first map.
unfoldable pub entries_equal : {V : Type 0} → (V → V → Bool) → Map V → Map V → Bool
entries_equal eq [] m = true
entries_equal eq ((k, v) ∷ es) m = found_equal eq v (lookup k m) && entries_equal eq es m

-- `maps.Equal`
unfoldable pub maps_equal : {V : Type 0} → (V → V → Bool) → Map V → Map V → Bool
maps_equal eq m m' = length m == length m' && entries_equal eq m m'

unfoldable pub equal : State → State → Bool
equal s t =
    s.version == t.version
    && (s.snapshot_id == t.snapshot_id
        && (s.phase == t.phase
            && (summary_eq s.summary t.summary
                && (counter_eq s.paths t.paths
                    && (counter_eq s.dirs t.dirs
                        && (counter_eq s.files t.files
                            && (counter_eq s.xattrs t.xattrs
                                && (counter_eq s.symlinks t.symlinks
                                    && (counter_eq s.chunks t.chunks
                                        && (counter_eq s.objects t.objects
                                            && (result_eq s.result t.result
                                                && (slices_equal resource_eq s.resources t.resources
                                                    && (int_eq s.num_cpu t.num_cpu
                                                        && (slices_equal network_eq s.network
                                                            t.network
                                                            && (slices_equal latency_sample_eq
                                                            s.latency t.latency
                                                            && (processed_eq s.processed t.processed
                                                            && (maps_equal scope_eq s.io t.io
                                                            && slices_equal path_eq s.recent_paths
                                                            t.recent_paths)))))))))))))))))
