-- ===== src/Operations/Closing/Connectors.antt =====
-- kloset.go, inventory.go: a connector is opened or an error returned.
use plaklet.Base.{String, List, Option, none, some, ◌≡◌}
use plaklet.Errors.{Result, ok, err}
use plaklet.Protocol.Configurations.{Configuration}
use plaklet.Plugin.Registry.{Plugin}
use plaklet.Job.Balance.{
  IsBalanced, IsOpening, IsOpening-acquire, IsOpening-fail, IsOpening-if, IsBalanced-panic, balance,
}
use plaklet.Operations.Env.{importer_of, exporter_of, inventory_of, store_of, jobs, Env}
use plaklet.Operations.Connectors.{
  importer_from, mk_importer, exporter_from, mk_exporter, storage_from, mk_storage, key_from,
  open_key, open_repo, inventory_from, mk_inventory,
}

module _ (E : Env) where
  IsOpening-importer_from :
      (conf : Configuration) (ignores : List String) (p : Result Plugin)
      → IsOpening {K = jobs E} importer_of (importer_from E conf ignores p)
  IsOpening-importer_from conf ignores (ok p) = search balance
  IsOpening-importer_from conf ignores (err e) = search balance

  pub IsOpening-mk_importer :
      (conf : Configuration) (ignores : List String)
      → IsOpening {K = jobs E} importer_of (mk_importer E conf ignores)
  unfolding mk_importer
  IsOpening-mk_importer conf ignores = search (balance, IsOpening-importer_from)

  IsOpening-exporter_from :
      (conf : Configuration) (p : Result Plugin)
      → IsOpening {K = jobs E} exporter_of (exporter_from E conf p)
  IsOpening-exporter_from conf (ok p) = search balance
  IsOpening-exporter_from conf (err e) = search balance

  pub IsOpening-mk_exporter :
      (conf : Configuration) → IsOpening {K = jobs E} exporter_of (mk_exporter E conf)
  unfolding mk_exporter
  IsOpening-mk_exporter conf = search (balance, IsOpening-exporter_from)

  IsOpening-storage_from :
      (conf : Configuration) (p : Result Plugin)
      → IsOpening {K = jobs E} store_of (storage_from E conf p)
  IsOpening-storage_from conf (ok p) = search balance
  IsOpening-storage_from conf (err e) = search balance

  pub IsOpening-mk_storage :
      (conf : Configuration) → IsOpening {K = jobs E} store_of (mk_storage E conf)
  unfolding mk_storage
  IsOpening-mk_storage conf = search (balance, IsOpening-storage_from)

  IsOpening-inventory_from :
      (conf : Configuration) (p : Result Plugin)
      → IsOpening {K = jobs E} inventory_of (inventory_from E conf p)
  IsOpening-inventory_from conf (ok p) = search balance
  IsOpening-inventory_from conf (err e) = search balance

  pub IsOpening-mk_inventory :
      (conf : Configuration) → IsOpening {K = jobs E} inventory_of (mk_inventory E conf)
  unfolding mk_inventory
  IsOpening-mk_inventory conf = IsOpening-inventory_from conf _

  IsBalanced-key_from :
      (config : E.StoreConfig) (passphrase : String) (encryption : Option E.Encryption)
      (e : E.encryption config ≡ encryption)
      → IsBalanced (key_from E config passphrase encryption e)
  IsBalanced-key_from config passphrase none e = IsBalanced-panic (config, e)
  IsBalanced-key_from config passphrase (some encryption) e = search balance

  IsBalanced-open_key :
      (config : E.StoreConfig) (passphrase : String) → IsBalanced (open_key E config passphrase)
  unfolding open_key
  IsBalanced-open_key config passphrase = search (balance, IsBalanced-key_from)

  pub IsBalanced-open_repo :
      (store : E.Store) (passphrase : String) → IsBalanced (open_repo E store passphrase)
  unfolding open_repo
  IsBalanced-open_repo store passphrase = search (balance, IsBalanced-open_key)

-- What every operation is made of.
pub ruleset opening = (
  balance, IsOpening-mk_importer, IsOpening-mk_exporter, IsOpening-mk_storage,
  IsOpening-mk_inventory, IsBalanced-open_repo,
)
