-- ===== src/Catalog/Cursors.antt =====
-- What a connector reads back of its state in src/store.ts.
use recruiting_os.Common.{
  ◌≡◌, ◌&&◌, ◌∙◌, sym, ap, arith, false, str_eq, same_triple, triple_refl, find-upsert,
  find-upsert_other, find_where, some, none, refl, upserted, upsert_where, ok, Result-cases, truthy,
  inl, inr, String, Option, List, Clock, or_else, [],
}
use recruiting_os.Domain.{Record}
use recruiting_os.Catalog.Rows.{Catalog, ConnectorRow, ConnectorState}
use recruiting_os.Catalog.Connectors.{
  is_connector, set_connector, new_connector, write_connector, read_connector, get_connector_state,
  set_connector_state,
}

abbrev state_of : Option ConnectorRow → ConnectorState
state_of none = record { cursor = none; metadata = [] }
state_of (some r) = record { cursor = truthy r.cursor; metadata = r.metadata }

read_connector_lem :
    (tenant connector scope : String) (rows : List ConnectorRow)
    → read_connector tenant connector scope rows
      ≡ state_of (find_where (is_connector tenant connector scope) rows)
unfolding read_connector
read_connector_lem tenant connector scope rows = refl

abbrev upsert_connector : ConnectorRow → List ConnectorRow → List ConnectorRow
upsert_connector r rows =
    upsert_where (is_connector r.tenant_id r.connector r.scope)
      (set_connector r.cursor r.metadata r.owner_user_id r.updated_at) r rows

write_connector-ok :
    (tenants : List String) (memberships : List (String × String)) (r : ConnectorRow)
    (rows rows' : List ConnectorRow)
    → write_connector tenants memberships r rows ≡ ok rows'
    → upsert_connector r rows ≡ rows'
unfolding write_connector
write_connector-ok tenants memberships r rows rows' e = ground arith

state_of-upserted :
    (r : ConnectorRow) (o : Option ConnectorRow)
    → state_of
        (some (upserted (set_connector r.cursor r.metadata r.owner_user_id r.updated_at) r o))
      ≡ record { cursor = truthy r.cursor; metadata = r.metadata }
state_of-upserted r none = refl
state_of-upserted r (some s) = refl

upsert_connector-read :
    (r : ConnectorRow) (rows : List ConnectorRow)
    → read_connector r.tenant_id r.connector r.scope (upsert_connector r rows)
      ≡ record { cursor = truthy r.cursor; metadata = r.metadata }
upsert_connector-read r rows =
    read_connector_lem r.tenant_id r.connector r.scope (upsert_connector r rows)
    ∙ ap state_of (
        find-upsert (is_connector r.tenant_id r.connector r.scope)
          (set_connector r.cursor r.metadata r.owner_user_id r.updated_at) r rows (λ x t. t)
          (triple_refl r.tenant_id r.connector r.scope))
    ∙ state_of-upserted r (find_where (is_connector r.tenant_id r.connector r.scope) rows)

upsert_connector-other :
    (r : ConnectorRow) (rows : List ConnectorRow) (t c s : String)
    → (str_eq r.tenant_id t && (str_eq r.connector c && str_eq r.scope s)) ≡ false
    → read_connector t c s (upsert_connector r rows) ≡ read_connector t c s rows
upsert_connector-other r rows t c s n =
    read_connector_lem t c s (upsert_connector r rows)
    ∙ ap state_of (
        find-upsert_other (is_connector t c s) (is_connector r.tenant_id r.connector r.scope)
          (set_connector r.cursor r.metadata r.owner_user_id r.updated_at) r rows
          (λ x m.
            let k =
              same_triple x.tenant_id x.connector x.scope r.tenant_id r.connector r.scope m t c s
              ∙ n in
            (k, k))
          n)
    ∙ sym (read_connector_lem t c s rows)

set_connector_state-rows :
    {R : Type 0} (default_tenant connector scope : String) (cursor : Option String)
    (metadata : Option Record) (tenant owner : Option String) (clock : Clock) (q q' : Catalog R)
    → set_connector_state default_tenant connector scope cursor metadata tenant owner clock q
      ≡ ok q'
    → upsert_connector
        (new_connector
          (or_else tenant default_tenant)
          connector
          scope
          cursor
          (or_else metadata [])
          owner
          (clock 0))
        q.connectors
      ≡ q'.connectors
unfolding set_connector_state
set_connector_state-rows default_tenant connector scope cursor metadata tenant owner clock q q' e =
    let r =
      new_connector (or_else tenant default_tenant) connector scope cursor (or_else metadata [])
        owner (clock 0) in
    elim (Result-cases (write_connector q.tenants q.memberships r q.connectors)) [
      | inl (m, u) ↦ absurd (cc (rw (u, set_connector_state) at e))
      | inr (rows, u) ↦
          write_connector-ok q.tenants q.memberships r q.connectors rows u
          ∙ cc (rw (u, set_connector_state) at e)
    ]

-- When `setConnectorState` goes through, `getConnectorState` gives the cursor that was set (an
-- empty one as none) and the metadata (missing ones as no entries), and for every other tenant,
-- connector or scope what it gave before.
pub set_connector_state-get :
    {R : Type 0} (default_tenant connector scope : String) (cursor : Option String)
    (metadata : Option Record) (tenant owner : Option String) (clock : Clock) (q q' : Catalog R)
    → set_connector_state default_tenant connector scope cursor metadata tenant owner clock q
      ≡ ok q'
    → (get_connector_state default_tenant connector scope tenant q'
        ≡ record { cursor = truthy cursor; metadata = or_else metadata [] })
      × ((t c s : String)
          → (str_eq (or_else tenant default_tenant) t && (str_eq connector c && str_eq scope s))
            ≡ false
          → get_connector_state default_tenant c s (some t) q'
            ≡ get_connector_state default_tenant c s (some t) q)
set_connector_state-get default_tenant connector scope cursor metadata tenant owner clock q q' e =
    let k = or_else tenant default_tenant in
    let r = new_connector k connector scope cursor (or_else metadata []) owner (clock 0) in
    let rows =
      set_connector_state-rows default_tenant connector scope cursor metadata tenant owner clock q
        q' e in
    (
      sym (ap (read_connector k connector scope) rows) ∙ upsert_connector-read r q.connectors,
      λ t c s n.
          sym (ap (read_connector t c s) rows) ∙ upsert_connector-other r q.connectors t c s n,
    )
