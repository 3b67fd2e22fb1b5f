-- ===== src/Operations/Verdicts/Kinds.antt =====
-- report.go and plaklet.go: the report that belongs to an operation.
use plaklet.Base.{◌≡◌, ◌+◌, ◌≤◌, ℕ, u64, String, Option, none, some, List, [], ◌∷◌, length, nat_eq}
use plaklet.Errors.{Error}
use plaklet.Protocol.Configurations.{Configuration}
use plaklet.Protocol.Reports.{
  ChecksReport, BackupReport, RestoreReport, SyncReport, SyncsReport, RmReport,
}
use plaklet.Job.Monad.{Machine, M}
use plaklet.Job.Outcomes.{Yields, Yields-fail}
use plaklet.Operations.Summaries.{Verdict, with_source, with_both}

-- An error with a check's report is one of its errors, or the error that ended its loop; without one
-- there were none.
abbrev pub EndsChecks : ChecksReport → Option Error → Type 0
EndsChecks c e = (c.errors ≤ length c.checks) × (e ≡ none → c.errors ≡ 0)

abbrev pub total_size : List SyncReport → ℕ
total_size [] = 0
total_size (s ∷ ss) = s.logical_size + total_size ss

-- The verdicts of an operation, with every part of the report written out. Those with no report fit
-- any operation.
pub data IsVerdict (op : String) : Verdict → Type 0 where
  no_report : IsVerdict op (record { report = none; error = none })
  backed_up :
      {b : BackupReport}
      → op ≡ "backup"
      → IsVerdict op (record {
        report = some (record {
          type = op;
          backup = some b;
          check = none;
          restore = none;
          sync = none;
          rm = none;
          prune = none;
        });
        error = none;
      })
  checked :
      {c : ChecksReport} {e : Option Error}
      → op ≡ "check"
      → EndsChecks c e
      → IsVerdict op (record {
        report = some (record {
          type = op;
          backup = none;
          check = some c;
          restore = none;
          sync = none;
          rm = none;
          prune = none;
        });
        error = e;
      })
  restored :
      {r : RestoreReport}
      → op ≡ "restore"
      → IsVerdict op (record {
        report = some (record {
          type = op;
          backup = none;
          check = none;
          restore = some r;
          sync = none;
          rm = none;
          prune = none;
        });
        error = none;
      })
  removed :
      {r : RmReport}
      → op ≡ "rm"
      → IsVerdict op (record {
        report = some (record {
          type = "rm";
          backup = none;
          check = none;
          restore = none;
          sync = none;
          rm = some r;
          prune = none;
        });
        error = none;
      })
  synchronized :
      {s : SyncsReport}
      → op ≡ "sync"
      → s.logical_size ≡ u64 (total_size s.syncs)
      → IsVerdict op (record {
        report = some (record {
          type = op;
          backup = none;
          check = none;
          restore = none;
          sync = some s;
          rm = none;
          prune = none;
        });
        error = none;
      })

module _ {K : Machine} {A : Type 0} (P : A → Type 0) where
  pub Yields-with_source :
      (source : Option Configuration) (message : String) (f : Configuration → M K A)
      → ((c : Configuration) → Yields P (f c))
      → Yields P (with_source source message f)
  Yields-with_source none message f h = Yields-fail P _
  Yields-with_source (some c) message f h = h c

  pub Yields-with_both :
      (source target : Option Configuration) (op : String)
      (f : Configuration → Configuration → M K A)
      → ((c d : Configuration) → Yields P (f c d))
      → Yields P (with_both source target op f)
  Yields-with_both none none op f h = Yields-fail P _
  Yields-with_both none (some d) op f h = Yields-fail P _
  Yields-with_both (some c) none op f h = Yields-fail P _
  Yields-with_both (some c) (some d) op f h = h c d
