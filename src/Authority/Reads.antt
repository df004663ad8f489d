-- ===== src/Authority/Reads.antt =====
-- The reads of internal/authority/postgres/store.go. A read-only transaction sees one committed
-- state; the errors of the database itself are left out.
use Prim.Native.Nat.{max}
use snagline.Prelude.{
  ℕ, String, Bool, true, false, ◌&&◌, Option, none, some, List, [], ◌∷◌, ◌==◌, eqb, leb, ltb,
  if◌then◌else◌, length, take, find, select, valid_text, valid_commitment,
}
use snagline.Tx.{Result, ok, err}
use snagline.Authority.Request.{Error}
use snagline.Authority.Tables.{CaseRow, DeliveryRow, HeadRow, HighWaterRow, RegistryRow, Db}
use snagline.Authority.Sql.{registry_head}
use snagline.Authority.Cases.{is_case}
use snagline.Authority.Registries.{is_registry, find_high_water}
use snagline.Authority.Logs.{route_log}

pub record EdgeDeliveryQuery : Type 0 where
  pub tenant_id : String
  pub edge_id : String
  pub principal_id : String
  pub edge_generation : ℕ
  pub after_sequence : ℕ
  pub limit : ℕ

unfoldable pub validate_query : EdgeDeliveryQuery → Bool
validate_query q =
    valid_text q.tenant_id
    && (valid_text q.edge_id
        && (valid_text q.principal_id
            && (ltb 0 q.edge_generation && (ltb 0 q.limit && leb q.limit 1000))))

pub record EdgeDeliveryPage : Type 0 where
  pub deliveries : List DeliveryRow
  pub high_watermark : ℕ
  pub complete_through : ℕ

-- ORDER BY delivery_sequence ASC
unfoldable pub insert_by_sequence : DeliveryRow → List DeliveryRow → List DeliveryRow
insert_by_sequence row [] = row ∷ []
insert_by_sequence row (other ∷ rows) =
    if leb row.delivery_sequence other.delivery_sequence
    then row ∷ other ∷ rows
    else other ∷ insert_by_sequence row rows

unfoldable pub order_by_sequence : List DeliveryRow → List DeliveryRow
order_by_sequence [] = []
order_by_sequence (row ∷ rows) = insert_by_sequence row (order_by_sequence rows)

-- COALESCE(MAX(delivery_sequence), 0)
unfoldable pub max_sequence : List DeliveryRow → ℕ
max_sequence [] = 0
max_sequence (row ∷ rows) = max row.delivery_sequence (max_sequence rows)

unfoldable pub last_sequence : ℕ → List DeliveryRow → ℕ
last_sequence after [] = after
last_sequence after (row ∷ rows) = last_sequence row.delivery_sequence rows

unfoldable pub after_cursor : ℕ → List DeliveryRow → List DeliveryRow
after_cursor after rows = select (λ (row : DeliveryRow). ltb after row.delivery_sequence) rows

unfoldable pub delivery_page : EdgeDeliveryQuery → Db → EdgeDeliveryPage
delivery_page q db =
    let log = route_log q.tenant_id q.edge_id q.edge_generation db.deliveries in
    let deliveries = take q.limit (order_by_sequence (after_cursor q.after_sequence log)) in
    let high = max_sequence log in
    let through = last_sequence q.after_sequence deliveries in
    record {
      deliveries = deliveries;
      high_watermark = high;
      complete_through =
          if ltb (length deliveries) q.limit && ltb through high then high else through;
    }

-- The edge is the one that the tenant's live head lists now.
unfoldable pub active_edge :
    EdgeDeliveryQuery → Option HeadRow → Option HighWaterRow → Result Error (Unit {0})
active_edge q none row = err Error.edge_not_active
active_edge q (some head) none = err Error.edge_not_active
active_edge q (some head) (some row) =
    if head.halted
    then err Error.registry_halted
    else if row.principal_id == q.principal_id
        && (eqb row.highest_generation q.edge_generation
            && eqb row.last_seen_registry_revision head.latest_revision)
    then ok tt
    else err Error.edge_not_active

unfoldable pub list_edge_deliveries : EdgeDeliveryQuery → Db → Result Error EdgeDeliveryPage
list_edge_deliveries q db = elim (validate_query q) [
  | false ↦ err Error.invalid_request
  | true ↦
      (elim (active_edge q (registry_head q.tenant_id db)
        (find_high_water q.tenant_id q.edge_id db.high_water)) [
          | err e ↦ err e
          | ok _ ↦ ok (delivery_page q db)
        ])
]

unfoldable pub resolve_case : String → String → String → Db → Result Error CaseRow
resolve_case tenant case_id commitment db =
    elim (valid_text tenant && (valid_text case_id && valid_commitment commitment)) [
      | false ↦ err Error.invalid_request
      | true ↦
          (elim (find
            (λ (row : CaseRow). is_case tenant case_id row && row.commitment == commitment)
            db.cases) [ none ↦ err Error.case_not_found | some row ↦ ok row ])
    ]

unfoldable pub resolve_registry : String → ℕ → String → Db → Result Error RegistryRow
resolve_registry tenant revision commitment db =
    elim (valid_text tenant && (ltb 0 revision && valid_commitment commitment)) [
      | false ↦ err Error.invalid_request
      | true ↦
          (elim (find
            (λ (row : RegistryRow). is_registry tenant revision row && row.commitment == commitment)
            db.registries) [ none ↦ err Error.registry_not_found | some row ↦ ok row ])
    ]

unfoldable pub current_registry_head : String → Db → Result Error HeadRow
current_registry_head tenant db =
    if valid_text tenant
    then (elim (registry_head tenant db) [
      | none ↦ err Error.registry_head_not_found
      | some head ↦ ok head
    ])
    else err Error.invalid_request
