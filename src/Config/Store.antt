-- ===== src/Config/Store.antt =====
-- What the configuration is stored in: the tables `endpoints` and `app_config`, by way of
-- ConfigStorageAdapter (internal/storage/adapter.go) and SQLiteStorage (internal/storage/sqlite.go).
-- The statements that fail are given by `Faults`.
use osante_ai_proxy.Base.{
  ℕ, Bool, true, false, Option, none, some, List, [], ◌∷◌, ◌++◌, map, Text, same, is_some, not,
  ◌||◌, keep_if, find_first, Table, lookup, insert, text_eq, if◌then◌else◌,
}
use osante_ai_proxy.Storage.Order.{Term, asc, sort}
use osante_ai_proxy.Proxy.Endpoint.{Endpoint}
use osante_ai_proxy.Config.Rules.{settle}

-- `StorageEndpoint`
pub record StoredEndpoint : Type 0 where
  pub endpoint : Endpoint
  pub sort_order : ℕ

pub record Store : Type 0 where
  pub rows : List StoredEndpoint
  pub settings : Table Text Text

-- The calls of the database that fail: reading the endpoints, writing an endpoint of a name, reading
-- or writing a setting.
pub record Faults : Type 0 where
  pub no_endpoints : Bool
  pub endpoint_fails : Text → Bool
  pub get_fails : Text → Bool
  pub set_fails : Text → Bool

unfoldable pub has_name : Text → StoredEndpoint → Bool
unfolding same
has_name name r = same r.endpoint.name name

abbrev pub by_sort_order : List (Term StoredEndpoint)
by_sort_order = asc (λ r. r.sort_order) ∷ []

module _ (faults : Faults) where
  -- `GetConfig`: the empty text for a key that is not stored, and when the call fails.
  unfoldable pub get_config : Text → Store → Text
  unfolding lookup
  get_config key s =
      if faults.get_fails key then [] else elim (lookup key s.settings) [ none ↦ [] | some v ↦ v ]

  -- `SetConfig`; false for an error.
  unfoldable pub set_config : Text → Text → Store → Bool × Store
  unfolding insert
  set_config key value s =
      if faults.set_fails key
      then (false, s)
      else (true, record s { settings = insert key value s.settings })

  -- A sequence of calls of `SetConfig` that returns at the first error.
  unfoldable pub set_all : List (Text × Text) → Store → Bool × Store
  unfolding set_config
  set_all [] s = (true, s)
  set_all ((key, value) ∷ sets) s =
      let r = set_config key value s in elim r.0 [ true ↦ set_all sets r.1 | false ↦ r ]

module _ (parse_url : Text → Option (Text × Text)) (clean_path : Text → Text)
    (faults : Faults) where
  -- `normalizeEndpointAuthMode`
  unfoldable pub settled_row : StoredEndpoint → StoredEndpoint
  unfolding settle
  settled_row r = record r { endpoint = settle parse_url clean_path r.endpoint }

  -- `GetEndpoints`
  unfoldable pub get_endpoints : Store → Option (List StoredEndpoint)
  unfolding settled_row sort
  get_endpoints s =
      if faults.no_endpoints then none else some (map settled_row (sort by_sort_order s.rows))

  -- `SaveEndpoint`; a name that is stored breaks the constraint UNIQUE.
  unfoldable pub save_endpoint : StoredEndpoint → Store → Bool × Store
  unfolding settled_row has_name
  save_endpoint r s =
      if faults.endpoint_fails r.endpoint.name
        || is_some (find_first (has_name r.endpoint.name) s.rows)
      then (false, s)
      else (true, record s { rows = s.rows ++ settled_row r ∷ [] })

  -- `UpdateEndpoint` by name; a name that is not stored is an error.
  unfoldable pub update_endpoint : StoredEndpoint → Store → Bool × Store
  unfolding settled_row has_name
  update_endpoint r s =
      if faults.endpoint_fails r.endpoint.name
        || not (is_some (find_first (has_name r.endpoint.name) s.rows))
      then (false, s)
      else (
        true,
        record s {
          rows = map (λ old. if has_name r.endpoint.name old then settled_row r else old) s.rows;
        },
      )

  -- `DeleteEndpoint`
  unfoldable pub delete_endpoint : Text → Store → Bool × Store
  unfolding has_name
  delete_endpoint name s =
      if faults.endpoint_fails name
      then (false, s)
      else (true, record s { rows = keep_if (λ r. not (has_name name r)) s.rows })
