-- ===== src/Protocol/Reports.antt =====
-- report.go: the reports. Byte strings are lists of bytes, and a `time.Time` is an integer.
use plaklet.Base.{ℕ, ℤ, String, Option, none, List}
use plaklet.State.{Duration}

-- objects.MAC, an array of bytes.
abbrev pub Mac : Type 0
Mac = List ℕ

pub record StoreIo : Type 0 where
  pub bytes_read : ℤ
  pub bytes_written : ℤ

pub record BackupContent : Type 0 where
  pub files : ℕ
  pub directories : ℕ
  pub symlinks : ℕ
  pub devices : ℕ
  pub pipes : ℕ
  pub sockets : ℕ

pub record BackupReport : Type 0 where
  pub snapshot_id : Mac
  pub snapshot_creation_time : ℤ
  pub took : Duration
  pub name : String
  pub origin : String
  pub root : String
  pub size : ℤ
  pub items : ℤ
  pub tags : List String
  pub environment : String
  pub category : String
  pub dataset : String
  pub data_classes : List String
  pub logical_size : ℕ
  pub content : BackupContent
  pub errors : ℤ
  pub store : StoreIo
  pub urn : String
  pub urnid : String

pub record CheckReport : Type 0 where
  pub snapshot_id : Mac
  pub took : Duration
  pub store : StoreIo

pub record ChecksReport : Type 0 where
  pub took : Duration
  pub logical_size : ℕ
  pub errors : ℕ
  pub checks : List CheckReport

pub record RestoreReport : Type 0 where
  pub snapshot_id : Mac
  pub took : Duration
  pub logical_size : ℕ
  pub content : BackupContent
  pub errors : ℕ
  pub store : StoreIo

pub record SyncReport : Type 0 where
  pub snapshot_id : Mac
  pub snapshot_creation_time : ℤ
  pub took : Duration
  pub name : String
  pub source_origin : String
  pub root : String
  pub size : ℤ
  pub items : ℤ
  pub tags : List String
  pub environment : String
  pub category : String
  pub dataset : String
  pub data_classes : List String
  pub logical_size : ℕ
  pub content : BackupContent
  pub origin : StoreIo
  pub target : StoreIo

pub record SyncsReport : Type 0 where
  pub took : Duration
  pub logical_size : ℕ
  pub errors : ℕ
  pub syncs : List SyncReport

pub record RmReport : Type 0 where
  pub errors : ℕ
  pub snapshot_ids : List Mac

pub record PruneReport : Type 0 where
  pub errors : ℕ
  pub snapshot_ids : List Mac

pub record Report : Type 0 where
  pub type : String
  pub backup : Option BackupReport
  pub check : Option ChecksReport
  pub restore : Option RestoreReport
  pub sync : Option SyncsReport
  pub rm : Option RmReport
  pub prune : Option PruneReport

-- A report of an operation with no part set.
abbrev pub bare_report : String → Report
bare_report op = record {
  type = op;
  backup = none;
  check = none;
  restore = none;
  sync = none;
  rm = none;
  prune = none;
}
