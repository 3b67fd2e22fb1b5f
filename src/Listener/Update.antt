-- ===== src/Listener/Update.antt =====
-- listener.go: `updateState`, `ioDirFromEvent` and `latencyFromDir`.
use plaklet.Base.{
  ℕ, ◌+◌, ℤ, pos, String, Bool, true, Option, none, some, List, [], ◌∷◌, insert, u64, u64_of_i64,
  ◌==◌, string_eq, if◌then◌else◌,
}
use plaklet.State.{Float64, Duration, StateCounter, Latency, IoDir, State, zero_latency}
use plaklet.Protocol.Reports.{Mac}
use plaklet.Listener.Events.{
  Value, Fields, end, int64, float64, Event, get_field, as_string, as_int64, as_uint64, as_duration,
  as_file_info, as_object, event_field, field_or,
}
use plaklet.Listener.Kinds.{
  Entity, Outcome, Kind, path, directory, file, xattr, symlink, object, chunk, started, ok, error,
  cached, counted, workflow_start, workflow_end, fs_summary, import_start, import_done, vfs_start,
  vfs_end, index_start, index_end, commit_start, iostats, result, ignored, event_kind,
}
use plaklet.Listener.RecentPaths.{start_recent_path, settle_recent_path}

-- `counter.Total++` and so on; a uint64 wraps.
unfoldable pub bump : Outcome → StateCounter → StateCounter
bump started c = record c { total = u64 (c.total + 1) }
bump ok c = record c { ok = u64 (c.ok + 1) }
bump error c = record c { error = u64 (c.error + 1) }
bump cached c = record c { cached = u64 (c.cached + 1) }

-- `s.Paths`, `s.Dirs`, …, and an update of one of them.
abbrev pub counter_of : Entity → State → StateCounter
counter_of path s = s.paths
counter_of directory s = s.dirs
counter_of file s = s.files
counter_of xattr s = s.xattrs
counter_of symlink s = s.symlinks
counter_of object s = s.objects
counter_of chunk s = s.chunks

unfoldable pub on_counter : Entity → (StateCounter → StateCounter) → State → State
on_counter path f s = record s { paths = f s.paths }
on_counter directory f s = record s { dirs = f s.dirs }
on_counter file f s = record s { files = f s.files }
on_counter xattr f s = record s { xattrs = f s.xattrs }
on_counter symlink f s = record s { symlinks = f s.symlinks }
on_counter object f s = record s { objects = f s.objects }
on_counter chunk f s = record s { chunks = f s.chunks }

abbrev pub path_name : Event → String
path_name e = field_or as_string e "path" ""

-- `uint64(fi.Size())` and `uint64(size)`
abbrev pub file_size : Event → ℕ
file_size e = u64_of_i64 (field_or as_file_info e "fileinfo" (pos 0))

abbrev pub xattr_size : Event → ℕ
xattr_size e = u64_of_i64 (field_or as_int64 e "size" (pos 0))

abbrev pub add_size : ℕ → StateCounter → StateCounter
add_size n c = record c { size = u64 (c.size + n) }

abbrev pub add_cached_size : ℕ → StateCounter → StateCounter
add_cached_size n c = record c { cached_size = u64 (c.cached_size + n) }

abbrev pub settle : Event → String → State → State
settle e status s = record s {
  recent_paths = settle_recent_path s.recent_paths (path_name e) status;
}

-- What a counted event changes beside its counter.
unfoldable pub beside : Entity → Outcome → Event → State → State
beside path started e s = record s { recent_paths = start_recent_path s.recent_paths (path_name e) }
beside path ok e s = settle e "ok" s
beside path error e s = settle e "error" s
beside path cached e s = settle e "ok" s
beside file ok e s = record s { files = add_size (file_size e) s.files }
beside file cached e s = record s { files = add_cached_size (file_size e) s.files }
beside xattr ok e s = record s { xattrs = add_size (xattr_size e) s.xattrs }
beside xattr cached e s = record s { xattrs = add_cached_size (xattr_size e) s.xattrs }
beside _ _ e s = s

unfoldable pub summarize : Event → State → State
summarize e s =
    let files : ℕ = field_or as_uint64 e "files" 0 in
    let directories : ℕ = field_or as_uint64 e "directories" 0 in
    let symlinks : ℕ = field_or as_uint64 e "symlinks" 0 in
    let xattrs : ℕ = field_or as_uint64 e "xattrs" 0 in
    record s {
      summary = record {
        exists = true;
        paths = u64 (files + directories + symlinks + xattrs);
        files = files;
        directories = directories;
        symlinks = symlinks;
        xattrs = xattrs;
        size = field_or as_uint64 e "size" 0;
      };
    }

abbrev pub text_or_empty : Option String → String
text_or_empty none = ""
text_or_empty (some s) = s

-- `lat[k].(time.Duration)`, and a `map[string]any` or nil.
abbrev pub duration_in : Fields → String → Duration
duration_in fs k = elim (get_field k fs) [
  | none ↦ pos 0
  | some v ↦ elim (as_duration v) [ none ↦ pos 0 | some d ↦ d ]
]

abbrev pub object_in : Option Value → Option Fields
object_in none = none
object_in (some v) = as_object v

unfoldable pub latency_from_dir : Fields → Latency
latency_from_dir dir = elim (object_in (get_field "latency" dir)) [
  | none ↦ zero_latency
  | some lat ↦ record {
    count = elim (get_field "count" lat) [
      | none ↦ pos 0
      | some v ↦ elim (as_int64 v) [ none ↦ pos 0 | some n ↦ n ]
    ];
    avg = duration_in lat "avg";
    p50 = duration_in lat "p50";
    p95 = duration_in lat "p95";
    max = duration_in lat "max";
  }
]

-- The conversions of the hardware: `float64(n)`, `int64(f)` and `d.Seconds()`.
pub record FloatOps : Type 0 where
  pub of_int64 : ℤ → Float64
  pub to_int64 : Float64 → ℤ
  pub seconds : Duration → Float64

-- `FormatHex` and `NilMac` of kloset's identifiers.
pub record MacOps : Type 0 where
  pub is_nil : Mac → Bool
  pub format_hex : Mac → String

module _ (floats : FloatOps) (macs : MacOps) where
  abbrev pub number : Value → Float64
  number (float64 f) = f
  number (int64 n) = floats.of_int64 n
  number _ = 0

  abbrev pub number_in : Fields → String → Float64
  number_in fs k = elim (get_field k fs) [ none ↦ 0 | some v ↦ number v ]

  -- A field that is missing or no map reads as the nil map, which has no entries.
  unfoldable pub io_dir_from_event : Event → String → IoDir
  io_dir_from_event e key =
      let dir : Fields = field_or as_object e key end in
      record {
        total_bytes = floats.to_int64 (number_in dir "total");
        overall = number_in dir "overall";
        overall_wall = number_in dir "overall_wall";
        latency = latency_from_dir dir;
      }

  unfoldable pub store_scope : Option String → Event → State → State
  store_scope none e s = s
  store_scope (some scope) e s = if scope == "" then s else record s {
    io =
        insert scope (record { read = io_dir_from_event e "r"; write = io_dir_from_event e "w" })
          s.io;
  }

  unfoldable pub finish : Event → State → State
  finish e s = record s {
    phase = "completed";
    result = record {
      size = field_or as_uint64 e "size" 0;
      errors = field_or as_uint64 e "errors" 0;
      duration = elim (event_field as_duration e "duration") [
        | none ↦ s.result.duration
        | some d ↦ floats.seconds d
      ];
    };
  }

  -- The body of each case.
  unfoldable pub update_kind : Kind → Event → State → State
  update_kind (counted entity outcome) e s =
      beside entity outcome e (on_counter entity (bump outcome) s)
  update_kind workflow_start e s =
      if macs.is_nil e.snapshot then s else record s { snapshot_id = macs.format_hex e.snapshot }
  update_kind workflow_end e s = s
  update_kind fs_summary e s = summarize e s
  update_kind import_start e s = record s { phase = "processing" }
  update_kind import_done e s = s
  update_kind vfs_start e s = record s { phase = "building VFS" }
  update_kind vfs_end e s = record s { phase = "" }
  update_kind index_start e s = record s { phase = "indexing" }
  update_kind index_end e s = record s { phase = "" }
  update_kind commit_start e s = record s { phase = "committing" }
  update_kind iostats e s = store_scope (event_field as_string e "scope") e s
  update_kind result e s = finish e s
  update_kind ignored e s = s

  unfoldable pub update_state : State → Event → State
  update_state s e = update_kind (event_kind e.type) e s

  -- The events of a bus, in order.
  unfoldable pub update_states : State → List Event → State
  update_states s [] = s
  update_states s (e ∷ es) = update_states (update_state s e) es
