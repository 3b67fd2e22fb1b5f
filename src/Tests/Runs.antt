-- ===== src/Tests/Runs.antt =====
-- Runs of the operations and of `Main` in the small environment.
use plaklet.Base.{
  ℕ, ◌+◌, pos, ◌≡◌, ◌⊎◌, ◌%◌, ◌^◌, inl, inr, refl, String, none, some, List, [], ◌∷◌, ◌++◌, length,
  arith,
}
use plaklet.Errors.{ok, external}
use plaklet.Operations.Env.{Env, jobs, Unencrypted, Listing, ended, listed}
use plaklet.State.{State, zero_state, zero_counter}
use plaklet.Protocol.Messages.{ExecReply, InventoryEntry}
use plaklet.Protocol.Reports.{Mac, SyncReport, RestoreReport, Report, bare_report}
use plaklet.Job.Monad.{Job, M}
use plaklet.Job.Outcomes.{Yields}
use plaklet.Operations.Summaries.{reported}
use plaklet.Operations.Dispatch.{dispatch}
use plaklet.Operations.Synchronize.{exists_in, no_syncs, sync_snap, sync_loop}
use plaklet.Operations.Remove.{no_removals, remove_loop}
use plaklet.Operations.Inventories.{stream_entries}
use plaklet.Operations.Copies.{
  missing, held, lacking, all_seen, results, copied, failures, sizes, sync_loop_lem,
  sync_loop-tally,
}
use plaklet.Operations.Held.{IsHeld}
use plaklet.Operations.Removals.{remove_loop_lem}
use plaklet.Operations.Listings.{encoded, failure_or, ending_on, sent_entries, stream_entries_lem}
use plaklet.Operations.Verdicts.Kinds.{IsVerdict, restored}
use plaklet.Operations.Verdicts.Dispatched.{dispatch-IsVerdict}
use plaklet.Executor.Terminal.{terminal_error}
use plaklet.Executor.Endings.{Judges, complaints, terminal_error-Judges}
use plaklet.Executor.Main.{Outcome, main}
use plaklet.Executor.Replies.{Interleaving, done, left, right, EndsOnce, Panicked, main-EndsOnce}
use plaklet.Tests.Environment.{first, second, toy, checking, host}

dispatch-IsVerdict_example : Yields (IsVerdict "check") (dispatch toy checking)
dispatch-IsVerdict_example = dispatch-IsVerdict toy checking

abbrev a_restore : RestoreReport
a_restore = record {
  snapshot_id = first;
  took = pos 1;
  logical_size = 2;
  content = record {
    files = 2;
    directories = 0;
    symlinks = 0;
    devices = 0;
    pipes = 0;
    sockets = 0;
  };
  errors = 0;
  store = record { bytes_read = pos 0; bytes_written = pos 0 };
}

abbrev restore_report : Report
restore_report = record (bare_report "restore") { restore = some a_restore }

-- One file did not restore.
abbrev one_failed : State
one_failed = record zero_state { files = record zero_counter { error = 1 } }

terminal_error-Judges_example :
    Judges
      (complaints "restore" restore_report one_failed)
      (terminal_error "restore" (some restore_report) one_failed)
terminal_error-Judges_example =
    terminal_error-Judges "restore" (reported restore_report) restore_report one_failed
      (restored refl) refl

abbrev idle : Job (jobs toy)
idle = record { world = 0; effects = []; crash = none }

unseen : ¬ IsHeld second (first ∷ [])
unseen (inl e) = cc
unseen (inr h) = h

-- An environment whose stores are not encrypted.
abbrev unencrypted : Env
unencrypted = record toy { encryption = λ c. none }

abbrev secret : String
secret = "secret"

abbrev silent_job : Job (jobs unencrypted)
silent_job = record { world = 0; effects = []; crash = none }

abbrev sync_of : Mac → M (jobs toy) SyncReport
sync_of = sync_snap toy tt tt

sync_loop_example :
    let (rs, j') = results sync_of (second ∷ []) idle in
    sync_loop toy tt tt (first ∷ []) (first ∷ second ∷ []) no_syncs idle ≡ (
      ok (record {
        took = pos 0;
        logical_size = sizes (copied rs) % 2 ^ 64;
        errors = failures rs % 2 ^ 64;
        syncs = copied rs;
      }),
      j',
    )
sync_loop_example =
    sync_loop_lem toy tt tt (first ∷ []) (first ∷ second ∷ []) (second ∷ []) idle
      (held (inl refl) (lacking unseen all_seen))

sync_loop-tally_example :
    Yields
      (λ ssr. ssr.errors + length ssr.syncs ≡ length (missing (first ∷ []) (first ∷ second ∷ [])))
      (sync_loop toy tt tt (first ∷ []) (first ∷ second ∷ []) no_syncs)
unfolding exists_in
sync_loop-tally_example = sync_loop-tally toy tt tt (first ∷ []) (first ∷ second ∷ []) (omega arith)

remove_loop_example :
    ((remove_loop toy tt (first ∷ second ∷ []) no_removals idle).0
      ≡ ok (record { errors = 1; snapshot_ids = first ∷ [] }))
    × (1 + 1 ≡ 2)
remove_loop_example = remove_loop_lem toy tt (first ∷ second ∷ []) idle

abbrev named : String → InventoryEntry
named name = record {
  class = "";
  subclass = "";
  tags = [];
  urn = "";
  name = name;
  region = "";
  service = "";
  resource = "";
  details = [];
  endpoints = [];
  country = "";
}

abbrev listing : List InventoryEntry
listing = named "good" ∷ named "bad" ∷ named "late" ∷ []

abbrev lists : List InventoryEntry → Listing ℕ
lists [] = ended (some (external "gone")) 9
lists (e ∷ es) = let rest = lists es in listed e (λ cancelled. rest)

-- An environment whose inventory lists three entries, of which the second does not encode.
abbrev listing_toy : Env
listing_toy = record toy { list_entries = λ i w. lists listing }

stream_entries_example :
    ((stream_entries listing_toy tt idle).0
      ≡ ending_on listing_toy (failure_or listing_toy listing (some (external "gone"))))
    × ((stream_entries listing_toy tt idle).1.effects ≡ sent_entries (encoded listing_toy listing))
stream_entries_example = stream_entries_lem listing_toy tt idle

abbrev arguments : List String
arguments = "-cache" ∷ "/cache" ∷ []

in_turn : {A : Type 0} (xs ys : List A) → Interleaving xs ys (xs ++ ys)
in_turn [] [] = done
in_turn [] (y ∷ ys) = right (in_turn [] ys)
in_turn (x ∷ xs) ys = left (in_turn xs ys)

abbrev outcome : Outcome
outcome = main toy host arguments 0

abbrev output : List ExecReply
output = (outcome.running ++ outcome.background) ++ outcome.ending

main-EndsOnce_example : (output ≡ []) ⊎ EndsOnce output ⊎ Panicked (Unencrypted toy) outcome output
main-EndsOnce_example =
    main-EndsOnce toy host arguments 0 output
      (outcome.running ++ outcome.background, in_turn outcome.running outcome.background, refl)
