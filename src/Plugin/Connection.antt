-- ===== src/Plugin/Connection.antt =====
-- plugin/plugin.go: `Connect` and `closePluginConn`. plugin/importer.go, exporter.go, storage.go and
-- inventory.go: a constructor and a `Close` each. Spawning a process, the gRPC client and the
-- SDK's constructors are parameters; the connections closed on the way are listed.
use plaklet.Base.{
  ◌↔◌, ℕ, String, ◌≡◌, Option, none, some, List, [], ◌∷◌, ◌++◌, ◌==◌, string_eq, if◌then◌else◌,
  arith,
}
use plaklet.Errors.{
  Error, Result, ok, err, wrap, plugin_type_mismatch, close_failed, conn_close_failed,
  both_closes_failed,
}
use plaklet.Plugin.Registry.{ConnectorTypes, ConnectorType, Plugin}

-- What `closePluginConn` returns, from the errors of the two closes; both closes are made.
unfoldable pub close_plugin_conn : String → Option Error → Option Error → Option Error
close_plugin_conn name none none = none
close_plugin_conn name (some e) none = some (close_failed name e)
close_plugin_conn name none (some e) = some (conn_close_failed name e)
close_plugin_conn name (some e) (some e') = some (both_closes_failed name e e')

-- `Close` of the four wrappers, with the name that each reports.
unfoldable pub close_importer : Option Error → Option Error → Option Error
close_importer = close_plugin_conn "importer"

unfoldable pub close_exporter : Option Error → Option Error → Option Error
close_exporter = close_plugin_conn "importer"

unfoldable pub close_storage : Option Error → Option Error → Option Error
close_storage = close_plugin_conn "store"

unfoldable pub close_inventory : Option Error → Option Error → Option Error
close_inventory = close_plugin_conn "inventory"

-- A close succeeds exactly if both the connector and the connection close.
pub close_plugin_conn-none :
    (name : String) (e e' : Option Error)
    → (close_plugin_conn name e e' ≡ none) ↔ ((e ≡ none) × (e' ≡ none))
unfolding close_plugin_conn
close_plugin_conn-none name e e' = ground arith

-- A result, and the connections that were closed before it was returned.
abbrev pub Closing {ℓ} : Type ℓ → Type ℓ
Closing A = Result A × List ℕ

module _ {Client Connector : Type 0} (types : ConnectorTypes) (spawn : Plugin → Result ℕ)
    (new_client : ℕ → Result Client) (construct : ConnectorType → Client → Result Connector) where
  unfoldable pub connect : Plugin → Closing (Client × ℕ)
  connect p = elim (spawn p) [
    | err e ↦ (err e, [])
    | ok conn ↦ elim (new_client conn) [
      | err e ↦ (err (wrap "grpc client creation failed" e), conn ∷ [])
      | ok client ↦ (ok (client, conn), [])
    ]
  ]

  -- The common body of the four constructors, after `Connect`.
  unfoldable pub construct_on : ConnectorType → Closing (Client × ℕ) → Closing (Connector × ℕ)
  construct_on conntype (err e, closed) = (err e, closed)
  construct_on conntype (ok (client, conn), closed) = elim (construct conntype client) [
    | err e ↦ (err e, closed ++ conn ∷ [])
    | ok c ↦ (ok (c, conn), closed)
  ]

  unfoldable pub new_connector : ConnectorType → Plugin → Closing (Connector × ℕ)
  new_connector conntype p =
      if p.type == conntype
      then construct_on conntype (connect p)
      else (err plugin_type_mismatch, [])

  unfoldable pub new_importer : Plugin → Closing (Connector × ℕ)
  new_importer = new_connector types.importer

  unfoldable pub new_exporter : Plugin → Closing (Connector × ℕ)
  new_exporter = new_connector types.exporter

  unfoldable pub new_storage : Plugin → Closing (Connector × ℕ)
  new_storage = new_connector types.storage

  unfoldable pub new_inventory : Plugin → Closing (Connector × ℕ)
  new_inventory = new_connector types.inventory

  -- The connections spawned by a call: one if the type matches and the process starts.
  abbrev pub spawned : ConnectorType → Plugin → List ℕ
  spawned conntype p =
      if p.type == conntype then elim (spawn p) [ err e ↦ [] | ok conn ↦ conn ∷ [] ] else []

  abbrev pub kept : Result (Connector × ℕ) → List ℕ
  kept (err e) = []
  kept (ok (c, conn)) = conn ∷ []

  -- Every connection that a constructor spawns is either handed to the caller inside the connector,
  -- on success, or closed once, on each error path.
  pub new_connector-no_leak :
      (conntype : ConnectorType) (p : Plugin)
      → spawned conntype p ≡ kept (new_connector conntype p).0 ++ (new_connector conntype p).1
  unfolding new_connector construct_on connect
  new_connector-no_leak conntype p = ground arith
