-- ===== src/Plugin/Registry.antt =====
-- plugin/plugin.go: `Plugin` and its key. plugin/registry.go: `Registry`; each method runs under the
-- registry's mutex, so it is one step on the map.
use plaklet.Base.{
  ℕ, Bool, ◌||◌, if◌then◌else◌, ◌==◌, string_eq, String, ◌<>◌, Option, none, some, List, [], ◌∷◌,
  ◌++◌, Map, lookup, insert, delete,
}
use plaklet.Errors.{Error, Result, ok, err, plugin_exist, plugin_not_exist}

-- integration.ConnectorType, a string type of the SDK, and the constants that the program names.
abbrev pub ConnectorType : Type 0
ConnectorType = String

pub record ConnectorTypes : Type 0 where
  pub importer : ConnectorType
  pub exporter : ConnectorType
  pub storage : ConnectorType
  pub inventory : ConnectorType
  pub secret_provider : ConnectorType

pub record Plugin : Type 0 where
  pub name : String
  pub version : String
  pub type : ConnectorType
  pub protocol : String
  pub flags : ℕ
  pub exec : String
  pub args : List String

-- pkg.Manifest and its connectors, as far as the program reads them. `Flags()` is a field.
pub record ManifestConnector : Type 0 where
  pub type : ConnectorType
  pub protocols : List String
  pub flags : ℕ
  pub executable : String
  pub args : List String

pub record Manifest : Type 0 where
  pub name : String
  pub connectors : List ManifestConnector

abbrev pub Registry : Type 0
Registry = Map Plugin

-- `ListPlugins`: the plugins that are yielded, up to the first that the consumer stops at.
unfoldable pub list_plugins : (Plugin → Bool) → Registry → List Plugin
list_plugins go_on [] = []
list_plugins go_on ((k, p) ∷ r) =
    let rest = list_plugins go_on r in if go_on p then p ∷ rest else p ∷ []

-- `path_join` is `filepath.Join`.
module _ (types : ConnectorTypes) where
  -- The protocol of an inventory or secret provider plugin is not part of its key.
  abbrev pub keyed_protocol : ConnectorType → String → String
  keyed_protocol conntype protocol =
      if conntype == types.secret_provider || conntype == types.inventory then "" else protocol

  unfoldable pub make_plugin_key : String → String → ConnectorType → String → String
  make_plugin_key name version conntype protocol =
      name <> (":" <> (version <> (":" <> (conntype <> (":" <> keyed_protocol conntype protocol)))))

  abbrev pub key : Plugin → String
  key p = make_plugin_key p.name p.version p.type p.protocol

  unfoldable pub get_plugin : Registry → String → String → ConnectorType → String → Result Plugin
  get_plugin registry name version conntype protocol =
      elim (lookup (make_plugin_key name version conntype protocol) registry) [
        | none ↦ err plugin_not_exist
        | some p ↦ ok p
      ]

  unfoldable pub register_plugin : Registry → Plugin → Registry × Option Error
  register_plugin registry p = elim (lookup (key p) registry) [
    | some _ ↦ (registry, some plugin_exist)
    | none ↦ (insert (key p) p registry, none)
  ]

  unfoldable pub unregister_plugin : Registry → String → Registry × Option Error
  unregister_plugin registry k = elim (lookup k registry) [
    | none ↦ (registry, some plugin_not_exist)
    | some _ ↦ (delete k registry, none)
  ]

  module _ (path_join : String → String → String) where
    -- The plugin of one connector and one of its protocols.
    abbrev pub plugin_of : Manifest → String → String → ManifestConnector → String → Plugin
    plugin_of m version pkgdir conn proto = record {
      name = m.name;
      version = version;
      type = conn.type;
      protocol = proto;
      flags = conn.flags;
      exec = path_join pkgdir conn.executable;
      args = conn.args;
    }

    -- The inner loop of `RegisterPlugins`, over the protocols; the error is ignored.
    unfoldable pub register_protocols :
        Manifest → String → String → ManifestConnector → List String → Registry → Registry
    register_protocols m version pkgdir conn [] registry = registry
    register_protocols m version pkgdir conn (proto ∷ protos) registry =
        register_protocols m version pkgdir conn protos
          (register_plugin registry (plugin_of m version pkgdir conn proto)).0

    unfoldable pub register_connectors :
        Manifest → String → String → List ManifestConnector → Registry → Registry
    register_connectors m version pkgdir [] registry = registry
    register_connectors m version pkgdir (conn ∷ conns) registry =
        register_connectors m version pkgdir conns
          (register_protocols m version pkgdir conn conn.protocols registry)

    -- `RegisterPlugins(m, p, pkgdir)`, with the package's version.
    unfoldable pub register_plugins : Manifest → String → String → Registry → Registry
    register_plugins m version pkgdir registry =
        register_connectors m version pkgdir m.connectors registry

  -- The inner loop of `UnregisterPlugins`. An error is a warning in the log.
  unfoldable pub unregister_protocols :
      Manifest → String → ConnectorType → List String → Registry → Registry × List Error
  unregister_protocols m version conntype [] registry = (registry, [])
  unregister_protocols m version conntype (proto ∷ protos) registry =
      let (registry', failed) =
        unregister_plugin registry (make_plugin_key m.name version conntype proto) in
      let (final, warnings) = unregister_protocols m version conntype protos registry' in
      (final, elim failed [ none ↦ warnings | some e ↦ e ∷ warnings ])

  unfoldable pub unregister_connectors :
      Manifest → String → List ManifestConnector → Registry → Registry × List Error
  unregister_connectors m version [] registry = (registry, [])
  unregister_connectors m version (conn ∷ conns) registry =
      let (registry', warnings) =
        unregister_protocols m version conn.type conn.protocols registry in
      let (final, more) = unregister_connectors m version conns registry' in
      (final, warnings ++ more)

  -- `UnregisterPlugins(m, p)`: the registry, and the warnings logged.
  unfoldable pub unregister_plugins : Manifest → String → Registry → Registry × List Error
  unregister_plugins m version registry = unregister_connectors m version m.connectors registry
