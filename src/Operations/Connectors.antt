-- ===== src/Operations/Connectors.antt =====
-- kloset.go: `mkimporter`, `mkexporter`, `mkstorage` and `openrepo`; inventory.go: `mkinventory`.
use plaklet.Base.{
  String, ◌≡◌, refl, Option, none, some, List, Map, lookup, delete, ◌==◌, string_eq, if◌then◌else◌,
}
use plaklet.Errors.{Result, ok, err, text, is_not_exist}
use plaklet.Protocol.Configurations.{Configuration, params, protocol_of}
use plaklet.Plugin.Registry.{Plugin}
use plaklet.Plugin.Hooks.{plugin_for}
use plaklet.Job.Monad.{M, pure, fail, panic, lift, act, acquire, ◌>>=◌}
use plaklet.Operations.Env.{store_of, importer_of, exporter_of, inventory_of, jobs, Env}

-- The passphrase of a store, and its other params.
abbrev pub passphrase_of : Configuration → String
passphrase_of conf = elim (lookup "passphrase" (params conf)) [ none ↦ "" | some p ↦ p ]

abbrev pub store_params : Configuration → Map String
store_params conf = delete "passphrase" (params conf)

module _ (E : Env) where
  abbrev pub importer_from : Configuration → List String → Result Plugin → M (jobs E) E.Importer
  importer_from conf ignores (ok p) =
      acquire importer_of (E.plugin_importer p (protocol_of conf) (params conf) ignores)
  importer_from conf ignores (err e) =
      if is_not_exist e
      then acquire importer_of (E.builtin_importer (params conf) ignores)
      else fail e

  unfoldable pub mk_importer : Configuration → List String → M (jobs E) E.Importer
  mk_importer conf ignores =
      if conf.integration.name == "fs"
      then acquire importer_of (E.fs_importer (params conf) ignores)
      else importer_from conf ignores (plugin_for E.types E.registry conf E.types.importer)

  abbrev pub exporter_from : Configuration → Result Plugin → M (jobs E) E.Exporter
  exporter_from conf (ok p) =
      acquire exporter_of (E.plugin_exporter p (protocol_of conf) (params conf))
  exporter_from conf (err e) =
      if is_not_exist e then acquire exporter_of (E.builtin_exporter (params conf)) else fail e

  unfoldable pub mk_exporter : Configuration → M (jobs E) E.Exporter
  mk_exporter conf =
      if conf.integration.name == "fs"
      then acquire exporter_of (E.fs_exporter (params conf))
      else exporter_from conf (plugin_for E.types E.registry conf E.types.exporter)

  -- A store has no other fallback than fs.
  abbrev pub storage_from : Configuration → Result Plugin → M (jobs E) E.Store
  storage_from conf (ok p) =
      acquire store_of (E.plugin_store p (protocol_of conf) (store_params conf))
  storage_from conf (err e) = fail e

  -- `mkstorage`, whose passphrase is `passphrase_of`.
  unfoldable pub mk_storage : Configuration → M (jobs E) E.Store
  mk_storage conf =
      if conf.integration.name == "fs"
      then acquire store_of (E.fs_store (store_params conf))
      else storage_from conf (plugin_for E.types E.registry conf E.types.storage)

  abbrev pub verified_key : E.Encryption → E.Key → M (jobs E) (Option E.Key)
  verified_key encryption key =
      if E.verify_canary encryption key
      then pure (some key)
      else fail (text "failed to verify canary; wrong passphrase?")

  -- `repoConfig.Encryption.KDFParams` panics where the encryption is nil.
  abbrev pub key_from :
      (config : E.StoreConfig)
      → String
      → (encryption : Option E.Encryption) → E.encryption config ≡ encryption
      → M (jobs E) (Option E.Key)
  key_from config passphrase none e = panic (config, e)
  key_from config passphrase (some encryption) e =
      lift (E.derive_key encryption passphrase) >>= verified_key encryption

  unfoldable pub open_key : E.StoreConfig → String → M (jobs E) (Option E.Key)
  open_key config passphrase =
      if passphrase == "" then pure none else key_from config passphrase (E.encryption config) refl

  unfoldable pub open_repo : E.Store → String → M (jobs E) E.Repo
  open_repo store passphrase = do
    bytes ← act (E.open_store store)
    config ← lift (E.parse_config bytes)
    key ← open_key config passphrase
    act (E.new_repo key store bytes)

  abbrev pub inventory_from : Configuration → Result Plugin → M (jobs E) E.Inventory
  inventory_from conf (ok p) =
      acquire inventory_of (E.plugin_inventory p (protocol_of conf) (params conf))
  inventory_from conf (err e) = fail e

  unfoldable pub mk_inventory : Configuration → M (jobs E) E.Inventory
  mk_inventory conf = inventory_from conf (plugin_for E.types E.registry conf E.types.inventory)
