-- ===== src/Plugin/Lifecycle.antt =====
-- Loading and unloading packages, as `GetPlugin` sees it.
use plaklet.Base.{
  String, ◌≡◌, refl, ◌∙◌, true, false, Option, none, List, [], ◌∷◌, ◌++◌, lookup, contains,
  string_eq, arith,
}
use plaklet.Errors.{Result, ok, err}
use plaklet.Plugin.Registry.{
  ConnectorTypes, ConnectorType, Plugin, ManifestConnector, Manifest, Registry, make_plugin_key,
  get_plugin, register_plugins, unregister_plugins,
}
use plaklet.Plugin.Registered.{
  or_missing, first_at, protocol_plugins, connector_plugins, lookup-register_plugins, protocol_keys,
  connector_keys, lookup-unregister_plugins,
}

abbrev pub or_registered : Result Plugin → Option Plugin → Result Plugin
or_registered (ok p) found = ok p
or_registered (err e) found = or_missing found

module _ (types : ConnectorTypes) (path_join : String → String → String) (m : Manifest)
    (version pkgdir : String) (r : Registry) where
  -- After a package is registered, `GetPlugin` gives what it gave before where it found a plugin,
  -- and otherwise the first plugin of the manifest with the key asked for, if there is one.
  pub get_plugin-register_plugins :
      (name wanted : String) (conntype : ConnectorType) (proto : String)
      → get_plugin types
          (register_plugins types path_join m version pkgdir r)
          name
          wanted
          conntype
          proto
        ≡ or_registered (get_plugin types r name wanted conntype proto) (
            first_at types
              (make_plugin_key types name wanted conntype proto)
              (connector_plugins types path_join m version pkgdir m.connectors))
  unfolding get_plugin
  get_plugin-register_plugins name wanted conntype proto = ground (
    arith,
    lookup-register_plugins types path_join m version pkgdir r
        (make_plugin_key types name wanted conntype proto),
  )

  first_at-protocol_plugins :
      (k : String) (conn : ManifestConnector) (protos : List String) (rest : List Plugin)
      → contains k (protocol_keys types m version conn.type protos) ≡ false
      → first_at types k (protocol_plugins types path_join m version pkgdir conn protos ++ rest)
        ≡ first_at types k rest
  first_at-protocol_plugins k conn [] rest h = refl
  first_at-protocol_plugins k conn (proto ∷ protos) rest h =
      ground (arith, first_at-protocol_plugins k conn protos rest)

  contains-append_false :
      (k : String) (xs ys : List String)
      → contains k (xs ++ ys) ≡ false
      → (contains k xs ≡ false) × (contains k ys ≡ false)
  contains-append_false k [] ys h = (refl, h)
  contains-append_false k (x ∷ xs) ys h = ground (arith, contains-append_false k xs ys)

  first_at-connector_plugins :
      (k : String) (conns : List ManifestConnector)
      → contains k (connector_keys types m version conns) ≡ false
      → first_at types k (connector_plugins types path_join m version pkgdir conns) ≡ none
  first_at-connector_plugins k [] h = refl
  first_at-connector_plugins k (conn ∷ conns) h =
      let (here, there) =
        contains-append_false k (protocol_keys types m version conn.type conn.protocols)
          (connector_keys types m version conns) h in
      first_at-protocol_plugins k conn conn.protocols
        (connector_plugins types path_join m version pkgdir conns) here
      ∙ first_at-connector_plugins k conns there

  -- Unloading a package right after loading it leaves a registry in which `GetPlugin` answers every
  -- request as before the load, provided that no key of the package was taken before.
  pub get_plugin-unload_load :
      ((k : String)
        → contains k (connector_keys types m version m.connectors) ≡ true
        → lookup k r ≡ none)
      → (name wanted : String) (conntype : ConnectorType) (proto : String)
      → get_plugin types
          (unregister_plugins types m version
            (register_plugins types path_join m version pkgdir r)).0
          name
          wanted
          conntype
          proto
        ≡ get_plugin types r name wanted conntype proto
  unfolding get_plugin
  get_plugin-unload_load fresh name wanted conntype proto =
      let k : String = make_plugin_key types name wanted conntype proto in
      ground (
        arith,
        fresh k,
        lookup-unregister_plugins types m version
            (register_plugins types path_join m version pkgdir r) k,
        lookup-register_plugins types path_join m version pkgdir r k,
        first_at-connector_plugins k m.connectors,
      )
