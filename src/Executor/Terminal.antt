-- ===== src/Executor/Terminal.antt =====
-- plaklet.go: `terminalError`.
use plaklet.Base.{
  ℕ, suc, ◌+◌, ℤ, pos, negsuc, String, ◌<>◌, Bool, false, not, Option, none, some, u64, decimal,
  ltb, ◌==◌, string_eq, nat_eq, if◌then◌else◌,
}
use plaklet.Errors.{Error, text}
use plaklet.State.{State}
use plaklet.Protocol.Reports.{BackupReport, RestoreReport, SyncsReport, Report}

-- A nil pointer is dereferenced, or the job fails or passes.
pub data Judgement : Type 0 where
  panics passes : Judgement
  fails : Error → Judgement

abbrev pub is_positive : ℤ → Bool
is_positive (pos n) = not (n == 0)
is_positive (negsuc n) = false

-- `%d`
abbrev pub decimal_int : ℤ → String
decimal_int (pos n) = decimal n
decimal_int (negsuc n) = "-" <> decimal (suc n)

unfoldable pub backup_error : Option BackupReport → Judgement
backup_error none = passes
backup_error (some b) =
    if is_positive b.errors
    then fails (text (decimal_int b.errors <> " file(s) could not be read"))
    else passes

unfoldable pub entry_errors : State → ℕ
entry_errors s =
    u64 (s.paths.error + s.files.error + s.dirs.error + s.symlinks.error + s.xattrs.error)

unfoldable pub restore_error : Option RestoreReport → ℕ → Judgement
restore_error r errors =
    if not (errors == 0)
    then elim r [
      | none ↦ panics
      | some _ ↦ fails (text (decimal errors <> " entries could not be restored"))
    ]
    else passes

unfoldable pub sync_error : Option SyncsReport → Judgement
sync_error none = passes
sync_error (some s) =
    if ltb 0 s.errors
    then fails (text (decimal s.errors <> " snapshot(s) could not be synchronized"))
    else passes

unfoldable pub terminal_error : String → Option Report → State → Judgement
terminal_error op none s = passes
terminal_error op (some r) s =
    if op == "backup"
    then backup_error r.backup
    else if op == "restore"
    then restore_error r.restore (entry_errors s)
    else if op == "sync"
    then sync_error r.sync
    else passes
