-- ===== src/Tests/Environment.antt =====
-- A small environment to run the operations in: the world is a clock, and holds two snapshots.
use plaklet.Base.{
  ℕ, suc, pos, true, false, none, some, [], ◌∷◌, ◌==◌, nat_eq, string_eq, if◌then◌else◌,
}
use plaklet.Errors.{ok, err, external}
use plaklet.State.{zero_state}
use plaklet.Protocol.Messages.{ExecPayload, entry}
use plaklet.Protocol.Reports.{Mac}
use plaklet.Protocol.Configurations.{Configuration}
use plaklet.Job.Monad.{Act}
use plaklet.Operations.Env.{
  Env, ended, importer_of, exporter_of, store_of, snapshot_of, cache_of, inventory_of, Header, Part,
}
use plaklet.Executor.Sampling.{Tick}
use plaklet.Executor.Main.{Host, payload}
use plaklet.Tests.Plugins.{types}
use plaklet.Tests.Configs.{defaults}
use plaklet.Tests.Events.{floats, macs, bus}

abbrev U : Type 0
U = Unit {0}

-- An action that takes a tick of the clock.
abbrev tick : {A : Type 0} → A → Act ℕ A
tick a w = (ok a, suc w)

abbrev no_files : Part
no_files = record {
  size = 1;
  files = 1;
  directories = 0;
  symlinks = 0;
  devices = 0;
  pipes = 0;
  sockets = 0;
  errors = 0;
}

abbrev pub first : Mac
first = 1 ∷ []

abbrev pub second : Mac
second = 2 ∷ []

abbrev a_header : Header
a_header = record {
  identifier = first;
  timestamp = pos 5;
  duration = pos 1;
  tags = [];
  environment = "";
  category = "";
  dataset = "";
  data_classes = [];
  source = record {
    type = "fs";
    origin = "host";
    directory = "/";
    top = no_files;
    below = no_files;
  };
}

-- The second snapshot does not load, does not check and is not deleted.
abbrev unless_second : {A : Type 0} → Mac → A → Act ℕ A
unless_second [] a w = (ok a, suc w)
unless_second (b ∷ bs) a w = (if b == 2 then err (external "broken") else ok a, suc w)

abbrev pub toy : Env
toy = record {
  World = ℕ;
  Importer = U;
  Exporter = U;
  Store = U;
  Repo = U;
  Snapshot = Mac;
  Source = U;
  Vfs = U;
  Cache = U;
  Inventory = U;
  StoreConfig = U;
  Encryption = U;
  Key = U;
  Compression = U;
  types = types;
  registry = [];
  max_concurrency = 1;
  now = λ w. pos w;
  since = λ w start. pos 1;
  mac_length = 32;
  locate_defaults = defaults;
  parse_time = λ s. none;
  fs_importer = λ m l. tick tt;
  plugin_importer = λ p s m l. tick tt;
  builtin_importer = λ m l. tick tt;
  fs_exporter = λ m. tick tt;
  plugin_exporter = λ p s m. tick tt;
  builtin_exporter = λ m. tick tt;
  fs_store = λ m. tick tt;
  plugin_store = λ p s m. tick tt;
  plugin_inventory = λ p s m. tick tt;
  close = λ h. elim h [
    | importer_of i ↦ tick tt
    | exporter_of e ↦ (λ w. (err (external "busy"), w))
    | store_of s ↦ tick tt
    | snapshot_of s ↦ tick tt
    | cache_of c ↦ tick tt
    | inventory_of i ↦ tick tt
  ];
  ping_importer = λ i. tick tt;
  ping_exporter = λ i. tick tt;
  importer_nocache = λ i. false;
  open_store = λ s. tick [];
  parse_config = λ b. ok tt;
  encryption = λ c. some tt;
  derive_key = λ c p. ok tt;
  verify_canary = λ c k. true;
  new_repo = λ k s b. tick tt;
  close_repo = λ r. tick tt;
  repo_rbytes = λ r w. pos w;
  repo_wbytes = λ r w. pos 0;
  default_encryption = tt;
  lookup_compression = λ s. ok tt;
  default_compression = tt;
  derive_canary = λ c k. ok tt;
  serialize = λ s. tick [];
  create_store = λ s b. tick tt;
  to_upper = λ s. s;
  list_snapshots = λ r. tick (first ∷ []);
  locate_snapshot_ids = λ r o. tick (first ∷ second ∷ []);
  match_parent = λ r q. tick [];
  create_snapshot = λ r id o. tick first;
  load_snapshot = λ r id. unless_second id id;
  open_by_path = λ r id. tick (id, "/");
  open_by_path_relative = λ r id. tick (id, "/", "");
  header = λ s w. a_header;
  set_header = λ s h. tick tt;
  filesystem_with_cache = λ s. tick tt;
  with_vfs_cache = λ s v. tick tt;
  new_source = λ r i. tick tt;
  source_query = λ s. record { root = "/"; type = "fs"; origin = "host" };
  backup_snapshot = λ s i. tick tt;
  commit_snapshot = λ s. tick tt;
  open_check_cache = tick tt;
  check_snapshot = λ s c p. unless_second s tt;
  export_snapshot = λ s e p o. tick tt;
  path_dir = λ s. s;
  synchronize_snapshot = λ s d. tick tt;
  delete_snapshot = λ r id. unless_second id tt;
  schedule = λ ids. ids;
  list_entries = λ i w. ended none w;
  encode_entry = λ e. if e.name == "bad" then err (external "encode") else ok (entry e);
}

abbrev local : Configuration
local = record {
  id = "";
  revision = pos 0;
  type = "store";
  integration = record { id = ""; name = "fs"; version = "1.0.0" };
  name = "";
  fields = [];
  environment = "";
  data_classes = [];
  urn = "";
  urnid = "";
}

abbrev pub checking : ExecPayload
checking = record { op = "check"; task_config = []; source = some local; target = none }

abbrev a_tick : Tick
a_tick = record {
  probe = record { percent = none; rss = none; now = pos 0 };
  state = zero_state;
  network_now = pos 0;
  latency_now = pos 0;
  num_cpu = pos 4;
}

-- A host whose stdin holds a check, and that gets a signal.
abbrev pub host : Host ℕ
host = record {
  parse_flags = λ args.
      some (record { pkg_dir = ""; cache_dir = "/cache"; quiet = true; concurrency = pos 0 });
  make_dirs = λ d. tick tt;
  num_cpu = 4;
  load_packages = λ d. tick [];
  read_payload = λ w. (payload checking, w);
  events = λ w. bus;
  ticks = λ w. a_tick ∷ [];
  last_tick = λ w. a_tick;
  signal = λ w. some "interrupt";
  floats = floats;
  macs = macs;
  found_process = true;
  marshals = λ s. true;
  marshals_report = λ r. true;
}
