-- ===== src/Plugin/Registered.antt =====
-- What the registry holds after a package is loaded or unloaded, as a function of the key.
use plaklet.Base.{
  String, ◌≡◌, refl, true, Option, none, some, List, [], ◌∷◌, ◌++◌, lookup, lookup-insert,
  lookup-delete, contains, ◌==◌, string_eq, if◌then◌else◌, arith, eq_iff,
}
use plaklet.Errors.{Result, ok, err, plugin_not_exist}
use plaklet.Plugin.Registry.{
  ConnectorTypes, ConnectorType, Plugin, ManifestConnector, Manifest, Registry, make_plugin_key,
  key, register_plugin, unregister_plugin, plugin_of, register_protocols, register_connectors,
  register_plugins, unregister_protocols, unregister_connectors, unregister_plugins,
}

abbrev pub or_else {ℓ} : {A : Type ℓ} → Option A → Option A → Option A
or_else none o = o
or_else (some a) o = some a

abbrev pub or_missing : Option Plugin → Result Plugin
or_missing none = err plugin_not_exist
or_missing (some p) = ok p

module _ (types : ConnectorTypes) where
  -- The first plugin of a list at a key.
  abbrev pub first_at : String → List Plugin → Option Plugin
  first_at k [] = none
  first_at k (p ∷ ps) = let rest = first_at k ps in if key types p == k then some p else rest

  lookup-register_plugin :
      (r : Registry) (p : Plugin) (k : String)
      → lookup k (register_plugin types r p).0
        ≡ or_else (lookup k r) (if key types p == k then some p else none)
  unfolding register_plugin
  lookup-register_plugin r p k =
      ground (arith, lookup-insert (key types p) k p r, eq_iff (key types p) k)

  lookup-unregister_plugin :
      (r : Registry) (j k : String)
      → lookup k (unregister_plugin types r j).0 ≡ (if j == k then none else lookup k r)
  unfolding unregister_plugin
  lookup-unregister_plugin r j k = ground (arith, lookup-delete j k r, eq_iff j k)

  module _ (path_join : String → String → String) (m : Manifest) (version pkgdir : String) where
    -- The plugins of a connector, and of all the connectors, in the order of registration.
    abbrev pub protocol_plugins : ManifestConnector → List String → List Plugin
    protocol_plugins conn [] = []
    protocol_plugins conn (proto ∷ protos) =
        plugin_of types path_join m version pkgdir conn proto ∷ protocol_plugins conn protos

    abbrev pub connector_plugins : List ManifestConnector → List Plugin
    connector_plugins [] = []
    connector_plugins (conn ∷ conns) =
        protocol_plugins conn conn.protocols ++ connector_plugins conns

    first_at-append :
        (k : String) (ps qs : List Plugin)
        → first_at k (ps ++ qs) ≡ or_else (first_at k ps) (first_at k qs)
    first_at-append k [] qs = refl
    first_at-append k (p ∷ ps) qs = ground (arith, first_at-append k ps qs)

    lookup-register_protocols :
        (conn : ManifestConnector) (protos : List String) (r : Registry) (k : String)
        → lookup k (register_protocols types path_join m version pkgdir conn protos r)
          ≡ or_else (lookup k r) (first_at k (protocol_plugins conn protos))
    unfolding register_protocols
    lookup-register_protocols conn [] r k = ground arith
    lookup-register_protocols conn (proto ∷ protos) r k =
        let p : Plugin = plugin_of types path_join m version pkgdir conn proto in
        ground (
          arith,
          lookup-register_protocols conn protos (register_plugin types r p).0 k,
          lookup-register_plugin r p k,
        )

    lookup-register_connectors :
        (conns : List ManifestConnector) (r : Registry) (k : String)
        → lookup k (register_connectors types path_join m version pkgdir conns r)
          ≡ or_else (lookup k r) (first_at k (connector_plugins conns))
    unfolding register_connectors
    lookup-register_connectors [] r k = ground arith
    lookup-register_connectors (conn ∷ conns) r k =
        let r' : Registry =
          register_protocols types path_join m version pkgdir conn conn.protocols r in
        ground (
          arith,
          lookup-register_connectors conns r' k,
          lookup-register_protocols conn conn.protocols r k,
          first_at-append k (protocol_plugins conn conn.protocols) (connector_plugins conns),
        )

    pub lookup-register_plugins :
        (r : Registry) (k : String)
        → lookup k (register_plugins types path_join m version pkgdir r)
          ≡ or_else (lookup k r) (first_at k (connector_plugins m.connectors))
    unfolding register_plugins
    lookup-register_plugins r k = lookup-register_connectors m.connectors r k

  module _ (m : Manifest) (version : String) where
    abbrev pub protocol_keys : ConnectorType → List String → List String
    protocol_keys conntype [] = []
    protocol_keys conntype (proto ∷ protos) =
        make_plugin_key types m.name version conntype proto ∷ protocol_keys conntype protos

    abbrev pub connector_keys : List ManifestConnector → List String
    connector_keys [] = []
    connector_keys (conn ∷ conns) = protocol_keys conn.type conn.protocols ++ connector_keys conns

    contains-append :
        (k : String) (xs ys : List String)
        → contains k (xs ++ ys) ≡ (if contains k xs then true else contains k ys)
    contains-append k [] ys = refl
    contains-append k (x ∷ xs) ys = ground (arith, contains-append k xs ys)

    lookup-unregister_protocols :
        (conntype : ConnectorType) (protos : List String) (r : Registry) (k : String)
        → lookup k (unregister_protocols types m version conntype protos r).0
          ≡ (if contains k (protocol_keys conntype protos) then none else lookup k r)
    unfolding unregister_protocols
    lookup-unregister_protocols conntype [] r k = refl
    lookup-unregister_protocols conntype (proto ∷ protos) r k =
        let j : String = make_plugin_key types m.name version conntype proto in
        ground (
          arith,
          lookup-unregister_protocols conntype protos (unregister_plugin types r j).0 k,
          lookup-unregister_plugin r j k,
        )

    lookup-unregister_connectors :
        (conns : List ManifestConnector) (r : Registry) (k : String)
        → lookup k (unregister_connectors types m version conns r).0
          ≡ (if contains k (connector_keys conns) then none else lookup k r)
    unfolding unregister_connectors
    lookup-unregister_connectors [] r k = refl
    lookup-unregister_connectors (conn ∷ conns) r k =
        let r' : Registry = (unregister_protocols types m version conn.type conn.protocols r).0 in
        ground (
          arith,
          lookup-unregister_connectors conns r' k,
          lookup-unregister_protocols conn.type conn.protocols r k,
          contains-append k (protocol_keys conn.type conn.protocols) (connector_keys conns),
        )

    pub lookup-unregister_plugins :
        (r : Registry) (k : String)
        → lookup k (unregister_plugins types m version r).0
          ≡ (if contains k (connector_keys m.connectors) then none else lookup k r)
    unfolding unregister_plugins
    lookup-unregister_plugins r k = lookup-unregister_connectors m.connectors r k
