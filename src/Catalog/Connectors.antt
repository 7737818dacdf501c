-- ===== src/Catalog/Connectors.antt =====
-- `getConnectorState` and `setConnectorState` of src/store.ts.
use recruiting_os.Common.{
  ◌||◌, ◌&&◌, upsert_where, truthy, true, str_eq, some, or_else, ok, not, none, if◌then◌else◌,
  find_where, err, any, [], String, Result, Option, List, Clock, Bool, ℕ,
}
use recruiting_os.Domain.{Record}
use recruiting_os.Auth.Roles.{includes}
use recruiting_os.Sources.Stage.{is_pair}
use recruiting_os.Catalog.Rows.{Catalog, ConnectorRow, ConnectorState}

-- `where tenant_id=? and connector=? and scope=?`
abbrev pub is_connector : String → String → String → ConnectorRow → Bool
is_connector tenant connector scope r =
    str_eq r.tenant_id tenant && (str_eq r.connector connector && str_eq r.scope scope)

abbrev pub set_connector : Option String → Record → Option String → ℕ → ConnectorRow → ConnectorRow
set_connector cursor metadata owner now r = record r {
  cursor = cursor;
  metadata = metadata;
  owner_user_id = owner;
  updated_at = now;
}

-- The row as its columns are in the statement.
abbrev pub new_connector :
    String → String → String → Option String → Record → Option String → ℕ → ConnectorRow
new_connector tenant connector scope cursor metadata owner now = record {
  tenant_id = tenant;
  connector = connector;
  scope = scope;
  cursor = cursor;
  metadata = metadata;
  owner_user_id = owner;
  updated_at = now;
}

-- `foreign key (tenant_id,owner_user_id)`, which a null owner does not break.
abbrev pub is_known_owner : List (String × String) → String → Option String → Bool
is_known_owner memberships tenant none = true
is_known_owner memberships tenant (some user) = any (is_pair tenant user) memberships

unfoldable pub write_connector :
    List String
    → List (String × String)
    → ConnectorRow
    → List ConnectorRow
    → Result String (List ConnectorRow)
write_connector tenants memberships r rows =
    let mine = is_connector r.tenant_id r.connector r.scope in
    if not (is_known_owner memberships r.tenant_id r.owner_user_id)
    then err "FOREIGN KEY constraint failed"
    else if any mine rows || includes r.tenant_id tenants
    then ok
        (upsert_where mine (set_connector r.cursor r.metadata r.owner_user_id r.updated_at) r rows)
    else err "FOREIGN KEY constraint failed"

unfoldable pub read_connector : String → String → String → List ConnectorRow → ConnectorState
read_connector tenant connector scope rows =
    elim (find_where (is_connector tenant connector scope) rows) [
      | none ↦ record { cursor = none; metadata = [] }
      | some r ↦ record { cursor = truthy r.cursor; metadata = r.metadata }
    ]

module _ {R : Type 0} (default_tenant : String) where
  abbrev pub get_connector_state : String → String → Option String → Catalog R → ConnectorState
  get_connector_state connector scope tenant q =
      read_connector (or_else tenant default_tenant) connector scope q.connectors

  unfoldable pub set_connector_state :
      String
      → String
      → Option String
      → Option Record
      → Option String
      → Option String
      → Clock
      → Catalog R
      → Result String (Catalog R)
  set_connector_state connector scope cursor metadata tenant owner clock q =
      elim (write_connector q.tenants q.memberships
        (new_connector (or_else tenant default_tenant) connector scope cursor (or_else metadata [])
          owner (clock 0))
        q.connectors) [ err e ↦ err e | ok rows ↦ ok (record q { connectors = rows }) ]
