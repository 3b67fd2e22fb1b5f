-- ===== src/Plugin/Keys.antt =====
-- What a key says: the plugin that `GetPlugin` finds is of the name, version and type asked for.
use plaklet.Base.{
  String, ◌≡◌, false, some, List, [], ◌∷◌, All, lookup, lookup-insert, lookup-delete, string_eq,
  arith, eq_iff, has_code, colon_inj,
}
use plaklet.Errors.{ok}
use plaklet.Plugin.Registry.{
  ConnectorTypes, ConnectorType, Plugin, ManifestConnector, Manifest, Registry, make_plugin_key,
  keyed_protocol, key, get_plugin, register_plugin, unregister_plugin, register_protocols,
  register_connectors, register_plugins, unregister_protocols, unregister_connectors,
  unregister_plugins,
}

abbrev pub NoColon : String → Type 0
NoColon s = has_code b':' s ≡ false

module _ (types : ConnectorTypes) where
  -- Every entry stands at its plugin's key, and neither its name, its version nor its type holds a colon.
  pub record IsKeyed (r : Registry) : Type 0 where
    pub at_key : (k : String) (p : Plugin) → lookup k r ≡ some p → key types p ≡ k
    pub named : (k : String) (p : Plugin) → lookup k r ≡ some p → NoColon p.name
    pub versioned : (k : String) (p : Plugin) → lookup k r ≡ some p → NoColon p.version
    pub typed : (k : String) (p : Plugin) → lookup k r ≡ some p → NoColon p.type

  pub new-IsKeyed : IsKeyed []
  unfolding lookup
  new-IsKeyed = record {
    at_key = λ k p h. cc;
    named = λ k p h. cc;
    versioned = λ k p h. cc;
    typed = λ k p h. cc;
  }

  register_plugin-IsKeyed :
      (r : Registry) (q : Plugin)
      → NoColon q.name
      → NoColon q.version
      → NoColon q.type
      → IsKeyed r
      → IsKeyed (register_plugin types r q).0
  unfolding register_plugin
  register_plugin-IsKeyed r q named versioned typed v = record {
    at_key = λ k p h.
        ground (arith, v.at_key k p, lookup-insert (key types q) k q r, eq_iff (key types q) k);
    named = λ k p h. ground (arith, v.named k p, lookup-insert (key types q) k q r);
    versioned = λ k p h. ground (arith, v.versioned k p, lookup-insert (key types q) k q r);
    typed = λ k p h. ground (arith, v.typed k p, lookup-insert (key types q) k q r);
  }

  unregister_plugin-IsKeyed :
      (r : Registry) (j : String) → IsKeyed r → IsKeyed (unregister_plugin types r j).0
  unfolding unregister_plugin
  unregister_plugin-IsKeyed r j v = record {
    at_key = λ k p h. ground (arith, v.at_key k p, lookup-delete j k r);
    named = λ k p h. ground (arith, v.named k p, lookup-delete j k r);
    versioned = λ k p h. ground (arith, v.versioned k p, lookup-delete j k r);
    typed = λ k p h. ground (arith, v.typed k p, lookup-delete j k r);
  }

  module _ (path_join : String → String → String) (m : Manifest) (version pkgdir : String) where
    register_protocols-IsKeyed :
        NoColon m.name
        → NoColon version
        → (conn : ManifestConnector) (protos : List String) (r : Registry) → NoColon conn.type
        → IsKeyed r
        → IsKeyed (register_protocols types path_join m version pkgdir conn protos r)
    unfolding register_protocols
    register_protocols-IsKeyed n w conn [] r t v = v
    register_protocols-IsKeyed n w conn (proto ∷ protos) r t v =
        register_protocols-IsKeyed n w conn protos _ t (register_plugin-IsKeyed r _ n w t v)

    register_connectors-IsKeyed :
        NoColon m.name
        → NoColon version
        → (conns : List ManifestConnector) (r : Registry) → All (λ c. NoColon c.type) conns
        → IsKeyed r
        → IsKeyed (register_connectors types path_join m version pkgdir conns r)
    unfolding register_connectors
    register_connectors-IsKeyed n w [] r t v = v
    register_connectors-IsKeyed n w (conn ∷ conns) r t v =
        register_connectors-IsKeyed n w conns _ t.1
          (register_protocols-IsKeyed n w conn conn.protocols r t.0 v)

    -- Registering a package whose name, version and connector types hold no colon keeps every entry at its own key.
    pub register_plugins-IsKeyed :
        (r : Registry)
        → NoColon m.name
        → NoColon version
        → All (λ c. NoColon c.type) m.connectors
        → IsKeyed r
        → IsKeyed (register_plugins types path_join m version pkgdir r)
    unfolding register_plugins
    register_plugins-IsKeyed r n w t v = register_connectors-IsKeyed n w m.connectors r t v

  unregister_protocols-IsKeyed :
      (m : Manifest) (version : String) (t : ConnectorType) (protos : List String) (r : Registry)
      → IsKeyed r
      → IsKeyed (unregister_protocols types m version t protos r).0
  unfolding unregister_protocols
  unregister_protocols-IsKeyed m version t [] r v = v
  unregister_protocols-IsKeyed m version t (proto ∷ protos) r v =
      unregister_protocols-IsKeyed m version t protos _ (unregister_plugin-IsKeyed r _ v)

  unregister_connectors-IsKeyed :
      (m : Manifest) (version : String) (conns : List ManifestConnector) (r : Registry)
      → IsKeyed r
      → IsKeyed (unregister_connectors types m version conns r).0
  unfolding unregister_connectors
  unregister_connectors-IsKeyed m version [] r v = v
  unregister_connectors-IsKeyed m version (conn ∷ conns) r v =
      unregister_connectors-IsKeyed m version conns _
        (unregister_protocols-IsKeyed m version conn.type conn.protocols r v)

  pub unregister_plugins-IsKeyed :
      (m : Manifest) (version : String) (r : Registry)
      → IsKeyed r
      → IsKeyed (unregister_plugins types m version r).0
  unfolding unregister_plugins
  unregister_plugins-IsKeyed m version r v =
      unregister_connectors-IsKeyed m version m.connectors r v

  -- Equal keys have equal names, versions, types and keyed protocols.
  make_plugin_key_inj :
      (n n' v v' : String) (t t' : ConnectorType) (p p' : String)
      → NoColon n
      → NoColon n'
      → NoColon v
      → NoColon v'
      → NoColon t
      → NoColon t'
      → make_plugin_key types n v t p ≡ make_plugin_key types n' v' t' p'
      → (n ≡ n') × (v ≡ v') × (t ≡ t') × (keyed_protocol types t p ≡ keyed_protocol types t' p')
  unfolding make_plugin_key
  make_plugin_key_inj n n' v v' t t' p p' hn hn' hv hv' ht ht' e =
      let (names, rest) = colon_inj n n' _ _ hn hn' e in
      let (versions, rest') = colon_inj v v' _ _ hv hv' rest in
      let (kinds, protos) = colon_inj t t' _ _ ht ht' rest' in (names, versions, kinds, protos)

  -- In a registry whose entries stand at their keys, the plugin that `GetPlugin` finds has the
  -- name, the version and the type asked for, and the protocol too where the type's key has one; so
  -- none of the constructors answers it with a type mismatch.
  pub get_plugin-matches :
      (r : Registry) (name version : String) (conntype : ConnectorType) (proto : String)
      (p : Plugin)
      → IsKeyed r
      → NoColon name
      → NoColon version
      → NoColon conntype
      → get_plugin types r name version conntype proto ≡ ok p
      → (p.name ≡ name)
        × (p.version ≡ version)
        × (p.type ≡ conntype)
        × (keyed_protocol types p.type p.protocol ≡ keyed_protocol types conntype proto)
  unfolding get_plugin
  get_plugin-matches r name version conntype proto p v hn hv ht h =
      let k : String = make_plugin_key types name version conntype proto in
      let found : lookup k r ≡ some p = ground arith in
      make_plugin_key_inj p.name name p.version version p.type conntype p.protocol proto
        (v.named k p found) hn (v.versioned k p found) hv (v.typed k p found) ht
        (v.at_key k p found)
