-- ===== src/Operations/Env.antt =====
-- What the operations call and do not implement: kloset, the SDK, the fs connectors, the clock and
-- the JSON encoder, as one record of actions on a world of any type. Only the parts of their
-- values that the program reads are fields.
use plaklet.Base.{ℕ, ℤ, String, Bool, Option, none, List, Map, ◌≡◌}
use plaklet.Errors.{Result, Error}
use plaklet.State.{Duration}
use plaklet.Protocol.Messages.{Body, InventoryEntry}
use plaklet.Protocol.Reports.{Mac}
use plaklet.Plugin.Registry.{Plugin, Registry, ConnectorTypes}
use plaklet.Locate.Options.{LocateOptions}
use plaklet.Job.Monad.{Act, Machine, machine}

-- One half of a snapshot's source summary (`Directory` or `Below`).
pub record Part : Type 0 where
  pub size : ℕ
  pub files : ℕ
  pub directories : ℕ
  pub symlinks : ℕ
  pub devices : ℕ
  pub pipes : ℕ
  pub sockets : ℕ
  pub errors : ℕ

-- `snap.Header.GetSource(0)`
pub record SourceHeader : Type 0 where
  pub type : String
  pub origin : String
  pub directory : String
  pub top : Part
  pub below : Part

pub record Header : Type 0 where
  pub identifier : Mac
  pub timestamp : ℤ
  pub duration : Duration
  pub tags : List String
  pub environment : String
  pub category : String
  pub dataset : String
  pub data_classes : List String
  pub source : SourceHeader

-- `snapshot.BuilderOptions`, as backup sets them.
pub record BuilderOptions : Type 0 where
  pub tags : List String
  pub environment : String
  pub dataset : String
  pub data_classes : List String

-- What a new store is configured with: the compression, and the key of its encryption.
pub record StoreSetup (Compression Key : Type 0) : Type 0 where
  pub compression : Option Compression
  pub key : Option Key

-- The latest snapshot of a root, a type and an origin.
pub record ParentQuery : Type 0 where
  pub root : String
  pub type : String
  pub origin : String

-- What an inventory plugin does while it lists. It sends an entry and goes on, knowing whether it has been
-- cancelled meanwhile; or it ends, on an error or none, and leaves a world.
pub data Listing (World : Type 0) : Type 0 where
  ended : Option Error → World → Listing World
  listed : InventoryEntry → (Bool → Listing World) → Listing World

-- What an operation opens and must close, with the `Close` of its type.
pub data Handle (Importer Exporter Store Snapshot Cache Inventory : Type 0) : Type 0 where
  importer_of : Importer → Handle Importer Exporter Store Snapshot Cache Inventory
  exporter_of : Exporter → Handle Importer Exporter Store Snapshot Cache Inventory
  store_of : Store → Handle Importer Exporter Store Snapshot Cache Inventory
  snapshot_of : Snapshot → Handle Importer Exporter Store Snapshot Cache Inventory
  cache_of : Cache → Handle Importer Exporter Store Snapshot Cache Inventory
  inventory_of : Inventory → Handle Importer Exporter Store Snapshot Cache Inventory

pub record Env : Type 1 where
  pub World : Type 0
  pub Importer : Type 0
  pub Exporter : Type 0
  pub Store : Type 0
  pub Repo : Type 0
  pub Snapshot : Type 0
  pub Source : Type 0
  pub Vfs : Type 0
  pub Cache : Type 0
  pub Inventory : Type 0
  pub StoreConfig : Type 0
  pub Encryption : Type 0
  pub Key : Type 0
  pub Compression : Type 0
  -- The context: the plugins loaded, the concurrency, the clock, and the length of a MAC.
  pub types : ConnectorTypes
  pub registry : Registry
  pub max_concurrency : ℕ
  pub now : World → ℤ
  pub since : World → ℤ → Duration
  pub mac_length : ℕ
  pub locate_defaults : LocateOptions
  pub parse_time : String → Option ℤ
  -- Connectors: the linked fs ones, those of a plugin, and kloset's registries.
  pub fs_importer : Map String → List String → Act World Importer
  pub plugin_importer : Plugin → String → Map String → List String → Act World Importer
  pub builtin_importer : Map String → List String → Act World Importer
  pub fs_exporter : Map String → Act World Exporter
  pub plugin_exporter : Plugin → String → Map String → Act World Exporter
  pub builtin_exporter : Map String → Act World Exporter
  pub fs_store : Map String → Act World Store
  pub plugin_store : Plugin → String → Map String → Act World Store
  pub plugin_inventory : Plugin → String → Map String → Act World Inventory
  pub close : Handle Importer Exporter Store Snapshot Cache Inventory → Act World (Unit {0})
  pub ping_importer : Importer → Act World (Unit {0})
  pub ping_exporter : Exporter → Act World (Unit {0})
  pub importer_nocache : Importer → Bool
  -- Stores and repositories.
  pub open_store : Store → Act World (List ℕ)
  pub parse_config : List ℕ → Result StoreConfig
  -- `Configuration.Encryption`, nil for a store that is not encrypted.
  pub encryption : StoreConfig → Option Encryption
  pub derive_key : Encryption → String → Result Key
  pub verify_canary : Encryption → Key → Bool
  pub new_repo : Option Key → Store → List ℕ → Act World Repo
  pub close_repo : Repo → Act World (Unit {0})
  pub repo_rbytes : Repo → World → ℤ
  pub repo_wbytes : Repo → World → ℤ
  -- That of `storage.NewConfiguration()`, which is not nil.
  pub default_encryption : Encryption
  pub lookup_compression : String → Result Compression
  pub default_compression : Compression
  pub derive_canary : Encryption → Key → Result (Unit {0})
  pub serialize : StoreSetup Compression Key → Act World (List ℕ)
  pub create_store : Store → List ℕ → Act World (Unit {0})
  pub to_upper : String → String
  -- Snapshots. A path is that of the whole snapshot of an identifier, `fmt.Sprintf("%x:", id)`.
  pub list_snapshots : Repo → Act World (List Mac)
  pub locate_snapshot_ids : Repo → LocateOptions → Act World (List Mac)
  pub match_parent : Repo → ParentQuery → Act World (List Mac)
  pub create_snapshot : Repo → Option Mac → BuilderOptions → Act World Snapshot
  pub load_snapshot : Repo → Mac → Act World Snapshot
  pub open_by_path : Repo → Mac → Act World (Snapshot × String)
  pub open_by_path_relative : Repo → Mac → Act World (Snapshot × String × String)
  pub header : Snapshot → World → Header
  pub set_header : Snapshot → Header → Act World (Unit {0})
  pub filesystem_with_cache : Snapshot → Act World Vfs
  pub with_vfs_cache : Snapshot → Option Vfs → Act World (Unit {0})
  pub new_source : Repo → Importer → Act World Source
  pub source_query : Source → ParentQuery
  pub backup_snapshot : Snapshot → Source → Act World (Unit {0})
  pub commit_snapshot : Snapshot → Act World (Unit {0})
  pub open_check_cache : Act World Cache
  pub check_snapshot : Snapshot → Cache → String → Act World (Unit {0})
  pub export_snapshot : Snapshot → Exporter → String → String → Act World (Unit {0})
  pub path_dir : String → String
  pub synchronize_snapshot : Snapshot → Snapshot → Act World (Unit {0})
  pub delete_snapshot : Repo → Mac → Act World (Unit {0})
  -- The order in which the pool of rm takes its identifiers.
  pub schedule : List Mac → List Mac
  -- What an inventory plugin lists, and the JSON of an entry.
  pub list_entries : Inventory → World → Listing World
  pub encode_entry : InventoryEntry → Result Body

-- The store's configuration whose nil encryption is dereferenced.
abbrev pub Unencrypted : Env → Type 0
Unencrypted E = (config : E.StoreConfig) × (E.encryption config ≡ none)

-- What operations run on: that is the one way in which they can crash.
abbrev pub jobs : Env → Machine
jobs E =
    machine E.World (Handle E.Importer E.Exporter E.Store E.Snapshot E.Cache E.Inventory)
      (Unencrypted E) E.close
