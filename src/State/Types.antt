-- ===== src/State/Types.antt =====
-- state.go: the types, and `processed`.
use plaklet.Base.{
  ℕ, ◌+◌, String, Bool, false, List, [], Map, ℤ, pos, u64, ◌==◌, nat_eq, if◌then◌else◌,
}

-- A `time.Duration` is an int64 of nanoseconds; an `At` is an int64 of milliseconds.
abbrev pub Duration : Type 0
Duration = ℤ

-- The bit pattern of a float64.
abbrev pub Float64 : Type 0
Float64 = ℕ

pub record StateCounter : Type 0 where
  pub total : ℕ
  pub ok : ℕ
  pub error : ℕ
  pub size : ℕ
  pub cached : ℕ
  pub cached_size : ℕ

pub record Latency : Type 0 where
  pub count : ℤ
  pub avg : Duration
  pub p50 : Duration
  pub p95 : Duration
  pub max : Duration

pub record IoDir : Type 0 where
  pub total_bytes : ℤ
  pub overall : Float64
  pub overall_wall : Float64
  pub latency : Latency

pub record IoScope : Type 0 where
  pub read : IoDir
  pub write : IoDir

pub record ResourceSample : Type 0 where
  pub at : ℤ
  pub cpu_percent : Float64
  pub memory_bytes : ℕ

pub record NetworkSample : Type 0 where
  pub at : ℤ
  pub read_bytes_per_sec : Float64
  pub write_bytes_per_sec : Float64

pub record LatencySample : Type 0 where
  pub at : ℤ
  pub count : ℤ
  pub avg : Duration
  pub p50 : Duration
  pub p95 : Duration
  pub max : Duration

pub record RecentPath : Type 0 where
  pub path : String
  pub status : String

pub record Summary : Type 0 where
  pub exists : Bool
  pub paths : ℕ
  pub files : ℕ
  pub directories : ℕ
  pub symlinks : ℕ
  pub xattrs : ℕ
  pub size : ℕ

pub record JobResult : Type 0 where
  pub size : ℕ
  pub errors : ℕ
  pub duration : Float64

pub record Processed : Type 0 where
  pub items : ℕ
  pub bytes : ℕ

pub record State : Type 0 where
  pub version : String
  pub snapshot_id : String
  pub phase : String
  pub summary : Summary
  pub paths : StateCounter
  pub dirs : StateCounter
  pub files : StateCounter
  pub xattrs : StateCounter
  pub symlinks : StateCounter
  pub chunks : StateCounter
  pub objects : StateCounter
  pub result : JobResult
  pub resources : List ResourceSample
  pub num_cpu : ℤ
  pub network : List NetworkSample
  pub latency : List LatencySample
  pub processed : Processed
  pub io : Map IoScope
  pub recent_paths : List RecentPath

-- The zero values.
abbrev pub zero_counter : StateCounter
zero_counter = record { total = 0; ok = 0; error = 0; size = 0; cached = 0; cached_size = 0 }

abbrev pub zero_latency : Latency
zero_latency = record { count = pos 0; avg = pos 0; p50 = pos 0; p95 = pos 0; max = pos 0 }

abbrev pub zero_dir : IoDir
zero_dir = record { total_bytes = pos 0; overall = 0; overall_wall = 0; latency = zero_latency }

abbrev pub zero_scope : IoScope
zero_scope = record { read = zero_dir; write = zero_dir }

abbrev pub zero_state : State
zero_state = record {
  version = "";
  snapshot_id = "";
  phase = "";
  summary = record {
    exists = false;
    paths = 0;
    files = 0;
    directories = 0;
    symlinks = 0;
    xattrs = 0;
    size = 0;
  };
  paths = zero_counter;
  dirs = zero_counter;
  files = zero_counter;
  xattrs = zero_counter;
  symlinks = zero_counter;
  chunks = zero_counter;
  objects = zero_counter;
  result = record { size = 0; errors = 0; duration = 0 };
  resources = [];
  num_cpu = pos 0;
  network = [];
  latency = [];
  processed = record { items = 0; bytes = 0 };
  io = [];
  recent_paths = [];
}

-- `processed`: the file counters, or the scan summary where they are 0.
unfoldable pub processed_of : State → Processed
processed_of s =
    let items : ℕ = u64 (s.files.ok + s.files.cached) in
    let bytes : ℕ = u64 (s.files.size + s.files.cached_size) in
    record {
      items = if items == 0 then s.summary.files else items;
      bytes = if bytes == 0 then s.summary.size else bytes;
    }
