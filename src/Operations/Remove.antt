-- ===== src/Operations/Remove.antt =====
-- rm.go. The pool of deletions is its sequence: `schedule` gives the order in which the identifiers are
-- deleted.
use Prim.Native.Char.{code}
use plaklet.Base.{
  ◌-◌, ◌*◌, ℕ, suc, ◌+◌, String, ◌<>◌, not, ◌&&◌, Option, none, some, List, [], ◌∷◌, ◌++◌, length,
  u64, decimal, leb, ◌==◌, string_eq, nat_eq, if◌then◌else◌,
}
use plaklet.Errors.{Result, ok, err, text, external, wrap}
use plaklet.Protocol.Messages.{ExecPayload}
use plaklet.Protocol.Reports.{Mac, RmReport, bare_report}
use plaklet.Protocol.Configurations.{Configuration}
use plaklet.Protocol.IndexedLists.{indexed_list}
use plaklet.Job.Monad.{M, pure, lift, act, ◌>>=◌, attempt, ensuring}
use plaklet.Operations.Env.{store_of, jobs, Env}
use plaklet.Operations.Connectors.{passphrase_of, mk_storage, open_repo}
use plaklet.Operations.Summaries.{Verdict, reported, with_source}

-- The value of a hexadecimal digit.
abbrev hex_digit : ℕ → Option ℕ
hex_digit c =
    if leb 48 c && leb c 57
    then some (c - 48)
    else if leb 97 c && leb c 102
    then some (c - 87)
    else if leb 65 c && leb c 70
    then some (c - 55)
    else none

abbrev hex_pair : Option ℕ → Option ℕ → Option ℕ
hex_pair (some a) (some b) = some (a * 16 + b)
hex_pair _ _ = none

abbrev cons_byte : Option ℕ → Option (List ℕ) → Option (List ℕ)
cons_byte (some b) (some bs) = some (b ∷ bs)
cons_byte _ _ = none

-- `hex.DecodeString`, with `none` for an error, whose text `parse_snapshot_id` leaves out.
unfoldable pub decode_hex : String → Option (List ℕ)
decode_hex String.[] = some []
decode_hex (String.◌∷◌ c String.[]) = none
decode_hex (String.◌∷◌ c (String.◌∷◌ d s)) =
    cons_byte (hex_pair (hex_digit (code c)) (hex_digit (code d))) (decode_hex s)

abbrev invalid_id : String → String
invalid_id id = "invalid snapshot id \"" <> (id <> "\"")

unfoldable pub parse_snapshot_id : ℕ → String → Result Mac
parse_snapshot_id mac_length id = elim (decode_hex id) [
  | none ↦ err (wrap (invalid_id id) (external "encoding/hex"))
  | some raw ↦
      if not (length raw == mac_length)
      then err (text (invalid_id id <> (": expected " <> (decimal mac_length <> " bytes"))))
      else ok raw
]

abbrev cons_ok : Result Mac → Result (List Mac) → Result (List Mac)
cons_ok (ok m) (ok ms) = ok (m ∷ ms)
cons_ok (ok m) (err e) = err e
cons_ok (err e) _ = err e

-- The first id that does not parse is the error.
unfoldable pub parse_snapshot_ids : ℕ → List String → Result (List Mac)
parse_snapshot_ids mac_length [] = ok []
parse_snapshot_ids mac_length (id ∷ ids) =
    cons_ok (parse_snapshot_id mac_length id) (parse_snapshot_ids mac_length ids)

abbrev pub add_removal : Mac → Result (Unit {0}) → RmReport → RmReport
add_removal id (ok _) rp = record rp { snapshot_ids = rp.snapshot_ids ++ id ∷ [] }
add_removal id (err e) rp = record rp { errors = u64 (suc rp.errors) }

abbrev pub rm_verdict : RmReport → Verdict
rm_verdict rp = reported (record (bare_report "rm") { rm = some rp })

abbrev pub no_removals : RmReport
no_removals = record { errors = 0; snapshot_ids = [] }

module _ (E : Env) where
  unfoldable pub remove_loop : E.Repo → List Mac → RmReport → M (jobs E) RmReport
  remove_loop repo [] rp = pure rp
  remove_loop repo (id ∷ ids) rp =
      attempt (act (E.delete_snapshot repo id)) (λ r. remove_loop repo ids (add_removal id r rp))

  unfoldable pub rm_store : Configuration → List Mac → E.Store → M (jobs E) Verdict
  rm_store source ids st = do
    repo ← open_repo E st (passphrase_of source)
    rp ← remove_loop repo (E.schedule ids) no_removals
    pure (rm_verdict rp)

  -- An empty list is answered before the store is opened.
  unfoldable pub rm_parsed : Configuration → List Mac → M (jobs E) Verdict
  rm_parsed source [] = pure (rm_verdict no_removals)
  rm_parsed source (id ∷ ids) =
      mk_storage E source >>= λ st. ensuring (store_of st) (rm_store source (id ∷ ids) st)

  unfoldable pub rm : ExecPayload → M (jobs E) Verdict
  rm input = with_source input.source "source must be set for rm" (λ source.
      lift (parse_snapshot_ids E.mac_length (indexed_list input.task_config "snapshot_ids"))
      >>= rm_parsed source)
