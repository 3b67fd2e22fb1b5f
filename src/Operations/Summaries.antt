-- ===== src/Operations/Summaries.antt =====
-- The parts of a report that backup.go, restore.go and sync.go fill from a snapshot's source, and
-- what an operation returns.
use plaklet.Base.{ℕ, ◌+◌, String, ◌<>◌, u64, Option, none, some}
use plaklet.Errors.{Error, text}
use plaklet.Protocol.Reports.{BackupContent, Report}
use plaklet.Protocol.Configurations.{Configuration}
use plaklet.Job.Monad.{Machine, M, fail}
use plaklet.Operations.Env.{SourceHeader}

-- `(*Report, error)`
pub record Verdict : Type 0 where
  pub report : Option Report
  pub error : Option Error

abbrev pub reported : Report → Verdict
reported r = record { report = some r; error = none }

-- An operation that succeeds without a report.
abbrev pub silent : Verdict
silent = record { report = none; error = none }

unfoldable pub logical_size : SourceHeader → ℕ
logical_size src = u64 (src.top.size + src.below.size)

unfoldable pub content : SourceHeader → BackupContent
content src = record {
  files = u64 (src.top.files + src.below.files);
  directories = u64 (src.top.directories + src.below.directories);
  symlinks = u64 (src.top.symlinks + src.below.symlinks);
  devices = u64 (src.top.devices + src.below.devices);
  pipes = u64 (src.top.pipes + src.below.pipes);
  sockets = u64 (src.top.sockets + src.below.sockets);
}

-- `if input.Source == nil || input.Target == nil`
abbrev pub with_both :
    {K : Machine} {A : Type 0}
    → Option Configuration
    → Option Configuration
    → String
    → (Configuration → Configuration → M K A)
    → M K A
with_both (some source) (some target) op f = f source target
with_both _ _ op f = fail (text ("source and target must be set for " <> op))

-- `if input.Source == nil`
abbrev pub with_source :
    {K : Machine} {A : Type 0} → Option Configuration → String → (Configuration → M K A) → M K A
with_source none message f = fail (text message)
with_source (some source) message f = f source
