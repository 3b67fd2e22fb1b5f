-- ===== src/Plugin/Hooks.antt =====
-- pkgplugin.go: the hooks that the package backend calls for each package that it loads or unloads,
-- and `pluginFor`. `storage.Register` and `storage.Unregister` of kloset are kept as the list of
-- their calls.
use mathlib.Core.List.{map-append}
use plaklet.Base.{
  ℕ, String, ◌≡◌, refl, ap, arith, List, [], ◌∷◌, ◌++◌, map, All, ◌==◌, string_eq, inl, inr,
  Bool-cases, if◌then◌else◌,
}
use plaklet.Errors.{Result, ok, err, wrap}
use plaklet.Protocol.Configurations.{Configuration, protocol_of}
use plaklet.Plugin.Registry.{
  ConnectorTypes, ConnectorType, Plugin, ManifestConnector, Manifest, Registry, get_plugin,
  register_plugins, unregister_plugins,
}
use plaklet.Plugin.Keys.{
  NoColon, IsKeyed, new-IsKeyed, register_plugins-IsKeyed, unregister_plugins-IsKeyed,
  get_plugin-matches,
}

pub data StorageCall : Type 0 where
  -- The protocol, the flags, and the name and version that the constructor looks up.
  register : String → ℕ → String → String → StorageCall
  unregister : String → StorageCall

-- The plugin registry and the calls made to the storage registry so far.
pub record Loaded : Type 0 where
  pub registry : Registry
  pub calls : List StorageCall

module _ (types : ConnectorTypes) where
  -- The loops of the load hook, over the protocols of a connector and over the connectors.
  unfoldable pub register_protocols :
      ManifestConnector → String → String → List String → List StorageCall
  register_protocols conn name version [] = []
  register_protocols conn name version (proto ∷ protos) =
      (if conn.type == types.storage then register proto conn.flags name version ∷ [] else [])
      ++ register_protocols conn name version protos

  unfoldable pub register_storages : String → String → List ManifestConnector → List StorageCall
  register_storages name version [] = []
  register_storages name version (conn ∷ conns) =
      register_protocols conn name version conn.protocols ++ register_storages name version conns

  -- The loops of the unload hook.
  unfoldable pub unregister_protocols : ManifestConnector → List String → List StorageCall
  unregister_protocols conn [] = []
  unregister_protocols conn (proto ∷ protos) =
      (if conn.type == types.storage then unregister proto ∷ [] else [])
      ++ unregister_protocols conn protos

  unfoldable pub unregister_storages : List ManifestConnector → List StorageCall
  unregister_storages [] = []
  unregister_storages (conn ∷ conns) =
      unregister_protocols conn conn.protocols ++ unregister_storages conns

-- What the package backend does over time, with each package's manifest and version.
pub data PackageEvent : Type 0 where
  load : Manifest → String → String → PackageEvent
  unload : Manifest → String → PackageEvent

-- A package that is loaded has no colon in its name, its version and its connector types.
abbrev pub IsClean : PackageEvent → Type 0
IsClean (load m version pkgdir) =
    NoColon m.name × NoColon version × All (λ c. NoColon c.type) m.connectors
IsClean (unload m version) = Unit

module _ (types : ConnectorTypes) where
  -- `registerStorage`'s constructor: what `storage.New(proto, …)` runs. `open_plugin` is
  -- `NewStorage` of the plugin.
  unfoldable pub storage_constructor {ℓ} :
      {A : Type ℓ} → (Plugin → String → Result A) → Registry → String → String → String → Result A
  storage_constructor open_plugin registry name version proto =
      elim (get_plugin types registry name version types.storage proto) [
        | err e ↦ err (wrap "failed to get plugin" e)
        | ok p ↦ open_plugin p proto
      ]

  unfoldable pub plugin_for : Registry → Configuration → ConnectorType → Result Plugin
  plugin_for registry conf conntype =
      get_plugin types registry conf.integration.name conf.integration.version conntype
        (protocol_of conf)

  module _ (path_join : String → String → String) where
    unfoldable pub pkg_load_hook : Manifest → String → String → Loaded → Loaded
    pkg_load_hook m version pkgdir l = record {
      registry = register_plugins types path_join m version pkgdir l.registry;
      calls = l.calls ++ register_storages types m.name version m.connectors;
    }

    unfoldable pub pkg_unload_hook : Manifest → String → Loaded → Loaded
    pkg_unload_hook m version l = record {
      registry = (unregister_plugins types m version l.registry).0;
      calls = l.calls ++ unregister_storages types m.connectors;
    }

    unfoldable pub run_packages : Loaded → List PackageEvent → Loaded
    run_packages l [] = l
    run_packages l (load m version pkgdir ∷ es) =
        let l' : Loaded = pkg_load_hook m version pkgdir l in run_packages l' es
    run_packages l (unload m version ∷ es) =
        let l' : Loaded = pkg_unload_hook m version l in run_packages l' es

    run_packages-IsKeyed :
        (es : List PackageEvent) (l : Loaded)
        → All IsClean es
        → IsKeyed types l.registry
        → IsKeyed types (run_packages l es).registry
    unfolding run_packages pkg_load_hook pkg_unload_hook
    run_packages-IsKeyed [] l h v = v
    run_packages-IsKeyed (load m version pkgdir ∷ es) l h v =
        run_packages-IsKeyed es (pkg_load_hook m version pkgdir l) h.1
          (register_plugins-IsKeyed types path_join m version pkgdir l.registry h.0.0 h.0.1 h.0.2 v)
    run_packages-IsKeyed (unload m version ∷ es) l h v =
        run_packages-IsKeyed es (pkg_unload_hook m version l) h.1
          (unregister_plugins-IsKeyed types m version l.registry v)

    -- After any loads and unloads of packages whose names, versions and connector types hold no
    -- colon, from the empty registry, the plugin that a configuration resolves to has the name and version of the
    -- configuration's integration and the connector type asked for, so that the constructor of that
    -- type does not answer it with a type mismatch.
    pub plugin_for-matches :
        (es : List PackageEvent) (conf : Configuration) (conntype : ConnectorType) (p : Plugin)
        → All IsClean es
        → NoColon conf.integration.name
        → NoColon conf.integration.version
        → NoColon conntype
        → plugin_for (run_packages (record { registry = []; calls = [] }) es).registry conf conntype
          ≡ ok p
        → (p.name ≡ conf.integration.name)
          × (p.version ≡ conf.integration.version)
          × (p.type ≡ conntype)
    unfolding plugin_for
    plugin_for-matches es conf conntype p clean hn hv ht h =
        let (names, versions, types, _) =
          get_plugin-matches types _ conf.integration.name conf.integration.version conntype
            (protocol_of conf) p (run_packages-IsKeyed es _ clean (new-IsKeyed types)) hn hv ht h in
        (names, versions, types)

-- The storage connectors of a manifest, one for each of their protocols.
abbrev each_protocol : ManifestConnector → List String → List (ManifestConnector × String)
each_protocol conn [] = []
each_protocol conn (proto ∷ protos) = (conn, proto) ∷ each_protocol conn protos

abbrev pub storages : String → List ManifestConnector → List (ManifestConnector × String)
storages type [] = []
storages type (conn ∷ conns) =
    if conn.type == type
    then each_protocol conn conn.protocols ++ storages type conns
    else storages type conns

module _ (types : ConnectorTypes) where
  registered_protocols :
      (name version : String) (conn : ManifestConnector) (protos : List String)
      → register_protocols types conn name version protos ≡ (
          if conn.type == types.storage
          then map (λ c. register c.1 c.0.flags name version) (each_protocol conn protos)
          else [])
  unfolding register_protocols
  registered_protocols name version conn [] = ground arith
  registered_protocols name version conn (proto ∷ protos) =
      elim (Bool-cases (conn.type == types.storage)) [
        | inl e ↦ rw (registered_protocols name version conn protos, e)
        | inr e ↦ rw (registered_protocols name version conn protos, e)
      ]

  registered :
      (name version : String) (conns : List ManifestConnector)
      → register_storages types name version conns
        ≡ map (λ c. register c.1 c.0.flags name version) (storages types.storage conns)
  unfolding register_storages
  registered name version [] = refl
  registered name version (conn ∷ conns) =
      rw (registered_protocols name version conn conn.protocols, registered name version conns)
        (elim (Bool-cases (conn.type == types.storage)) [
          | inl e ↦ rw (e, map-append)
          | inr e ↦ rw e
        ])

  unregistered_protocols :
      (conn : ManifestConnector) (protos : List String)
      → unregister_protocols types conn protos ≡ (
          if conn.type == types.storage
          then map (λ c. unregister c.1) (each_protocol conn protos)
          else [])
  unfolding unregister_protocols
  unregistered_protocols conn [] = ground arith
  unregistered_protocols conn (proto ∷ protos) = elim (Bool-cases (conn.type == types.storage)) [
    | inl e ↦ rw (unregistered_protocols conn protos, e)
    | inr e ↦ rw (unregistered_protocols conn protos, e)
  ]

  unregistered :
      (conns : List ManifestConnector)
      → unregister_storages types conns ≡ map (λ c. unregister c.1) (storages types.storage conns)
  unfolding unregister_storages
  unregistered [] = refl
  unregistered (conn ∷ conns) =
      rw (unregistered_protocols conn conn.protocols, unregistered conns)
        (elim (Bool-cases (conn.type == types.storage)) [
          | inl e ↦ rw (e, map-append)
          | inr e ↦ rw e
        ])

  -- For a package and its version, the load hook registers each protocol of each connector of the
  -- storage type, in order, with the connector's flags and the package's name and version; the
  -- unload hook unregisters exactly those protocols in the same order; and neither calls the storage
  -- registry for a connector of another type.
  pub storage_calls-load_unload :
      (path_join : String → String → String) (m : Manifest) (version pkgdir : String) (l : Loaded)
      → ((pkg_load_hook types path_join m version pkgdir l).calls
          ≡ l.calls
            ++ map
                (λ c. register c.1 c.0.flags m.name version)
                (storages types.storage m.connectors))
        × ((pkg_unload_hook types path_join m version l).calls
            ≡ l.calls ++ map (λ c. unregister c.1) (storages types.storage m.connectors))
  unfolding pkg_load_hook pkg_unload_hook
  storage_calls-load_unload path_join m version pkgdir l = (
    ap (λ calls. l.calls ++ calls) (registered m.name version m.connectors),
    ap (λ calls. l.calls ++ calls) (unregistered m.connectors),
  )
