-- ===== src/Tests/Plugins.antt =====
-- Runs of the plugin registry (plugin/registry.go, pkgplugin.go).
use plaklet.Base.{
  ◌↔◌, ℕ, pos, ◌≡◌, refl, String, ◌<>◌, true, false, Option, none, some, [], ◌∷◌, ◌++◌, map, lookup,
  string_eq, insert, delete, contains, has_code, cut_before, has_prefix,
}
use plaklet.Errors.{Error, Result, ok, err, external, plugin_exist}
use plaklet.Protocol.Configurations.{Configuration, protocol_of, protocol_of_fields}
use plaklet.Plugin.Registry.{
  ConnectorTypes, ConnectorType, Plugin, Manifest, make_plugin_key, get_plugin, register_plugin,
  register_protocols, register_connectors, register_plugins, unregister_plugin,
  unregister_protocols, unregister_connectors, unregister_plugins,
}
use plaklet.Plugin.Registered.{first_at, connector_plugins, connector_keys}
use plaklet.Plugin.Lifecycle.{or_registered, get_plugin-register_plugins, get_plugin-unload_load}
use plaklet.Plugin.Hooks.{
  load, unload, pkg_load_hook, pkg_unload_hook, run_packages, plugin_for, plugin_for-matches,
  Loaded, register, unregister, storages, storage_calls-load_unload,
}
use plaklet.Plugin.Connection.{
  spawned, kept, new_connector, new_connector-no_leak, close_plugin_conn, close_plugin_conn-none,
}

abbrev pub types : ConnectorTypes
types = record {
  importer = "importer";
  exporter = "exporter";
  storage = "storage";
  inventory = "inventory";
  secret_provider = "secret_provider";
}

abbrev join : String → String → String
join dir name = dir <> ("/" <> name)

abbrev s3 : Manifest
s3 = record {
  name = "s3";
  connectors =
      record {
        type = "storage";
        protocols = "s3" ∷ "s3+http" ∷ [];
        flags = 0;
        executable = "s3-storage";
        args = [];
      }
      ∷ record {
        type = "importer";
        protocols = "s3" ∷ [];
        flags = 0;
        executable = "s3-importer";
        args = "-v" ∷ [];
      }
      ∷ [];
}

get_plugin-register_plugins_example :
    get_plugin types
      (register_plugins types join s3 "1.0.0" "/pkgs" [])
      "s3"
      "1.0.0"
      "importer"
      "s3"
    ≡ or_registered (get_plugin types [] "s3" "1.0.0" "importer" "s3") (
        first_at types
          (make_plugin_key types "s3" "1.0.0" "importer" "s3")
          (connector_plugins types join s3 "1.0.0" "/pkgs" s3.connectors))
get_plugin-register_plugins_example =
    get_plugin-register_plugins types join s3 "1.0.0" "/pkgs" [] "s3" "1.0.0" "importer" "s3"

nothing_taken :
    (k : String)
    → contains k (connector_keys types s3 "1.0.0" s3.connectors) ≡ true
    → lookup {V = Plugin} k [] ≡ none
unfolding lookup
nothing_taken k h = refl

get_plugin-unload_load_example :
    get_plugin types
      (unregister_plugins types s3 "1.0.0" (register_plugins types join s3 "1.0.0" "/pkgs" [])).0
      "s3"
      "1.0.0"
      "storage"
      "s3"
    ≡ get_plugin types [] "s3" "1.0.0" "storage" "s3"
get_plugin-unload_load_example =
    get_plugin-unload_load types join s3 "1.0.0" "/pkgs" [] nothing_taken "s3" "1.0.0" "storage"
      "s3"

abbrev bucket : Configuration
bucket = record {
  id = "";
  revision = pos 0;
  type = "store";
  integration = record { id = ""; name = "s3"; version = "1.0.0" };
  name = "bucket";
  fields = record { key = "location"; has_provider = false; val = "s3://host/bucket" } ∷ [];
  environment = "";
  data_classes = [];
  urn = "";
  urnid = "";
}

abbrev bucket_plugin : Plugin
bucket_plugin = record {
  name = "s3";
  version = "1.0.0";
  type = "storage";
  protocol = "s3";
  flags = 0;
  exec = "/pkgs/s3-storage";
  args = [];
}

found :
    plugin_for types
      (run_packages types join
        (record { registry = []; calls = [] })
        (load s3 "1.0.0" "/pkgs" ∷ unload s3 "2.0.0" ∷ [])).registry
      bucket
      "storage"
    ≡ ok bucket_plugin
unfolding plugin_for get_plugin run_packages pkg_load_hook pkg_unload_hook register_plugins
    register_connectors register_protocols register_plugin unregister_plugins unregister_connectors
    unregister_protocols unregister_plugin make_plugin_key lookup insert delete protocol_of
    protocol_of_fields cut_before has_prefix
found = refl

plugin_for-matches_example :
    (bucket_plugin.name ≡ bucket.integration.name)
    × (bucket_plugin.version ≡ bucket.integration.version)
    × (bucket_plugin.type ≡ "storage")
unfolding has_code
plugin_for-matches_example =
    plugin_for-matches types join (load s3 "1.0.0" "/pkgs" ∷ unload s3 "2.0.0" ∷ []) bucket
      "storage" bucket_plugin (((refl, refl, (refl, (refl, tt))), (tt, tt))) refl refl refl found

abbrev nothing_loaded : Loaded
nothing_loaded = record { registry = []; calls = [] }

storage_calls-load_unload_example :
    ((pkg_load_hook types join s3 "1.0.0" "/pkgs" nothing_loaded).calls
      ≡ map (λ c. register c.1 c.0.flags "s3" "1.0.0") (storages "storage" s3.connectors))
    × ((pkg_unload_hook types join s3 "1.0.0" nothing_loaded).calls
        ≡ map (λ c. unregister c.1) (storages "storage" s3.connectors))
storage_calls-load_unload_example =
    storage_calls-load_unload types join s3 "1.0.0" "/pkgs" nothing_loaded

-- A plugin whose process starts and whose connector does not.
abbrev refuses : ConnectorType → ℕ → Result ℕ
refuses conntype client = err (external "refused")

new_connector-no_leak_example :
    spawned types (λ p. ok 7) ok refuses "storage" bucket_plugin
    ≡ kept types
        (λ p. ok 7)
        ok
        refuses
        (new_connector types (λ p. ok 7) ok refuses "storage" bucket_plugin).0
      ++ (new_connector types (λ p. ok 7) ok refuses "storage" bucket_plugin).1
new_connector-no_leak_example =
    new_connector-no_leak types (λ p. ok 7) ok refuses "storage" bucket_plugin

abbrev no_error : Option Error
no_error = none

close_plugin_conn-none_example :
    (close_plugin_conn "store" none (some plugin_exist) ≡ none)
    ↔ ((no_error ≡ none) × (some plugin_exist ≡ none))
close_plugin_conn-none_example = close_plugin_conn-none "store" none (some plugin_exist)
