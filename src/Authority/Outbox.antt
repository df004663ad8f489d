-- ===== src/Authority/Outbox.antt =====
-- internal/authority/postgres/outbox.go: claiming and closing the rows of the outbox. The clock of
-- a statement is a count of nanoseconds; `text_le` is the order of the database's collation.
-- An error of the driver leaves the table as it was and is left out.
use snagline.Prelude.{
  ℕ, suc, ◌+◌, ◌*◌, ◌/◌, String, Bool, true, false, not, ◌&&◌, ◌||◌, Option, none, some, List, [],
  ◌∷◌, ◌==◌, eqb, leb, ltb, if◌then◌else◌, take, Bytes, valid_text, find, any, select, update_where,
}
use snagline.Tx.{Result, ok, err}
use snagline.Authority.Tables.{
  CaseRow, DeliveryRow, OutboxRow, OutboxLease, Db, FactKind, DestinationKind, domain_dispatch,
  edge_delivery,
}

pub data OutboxError : Type 0 where
  invalid_claim invalid_publish_closure invalid_release stale_outbox_lease : OutboxError

pub data ReleaseReason : Type 0 where
  publish_failed malformed_item other_reason : ReleaseReason

abbrev pub reason_text : ReleaseReason → String
reason_text publish_failed = "publish_failed"
reason_text malformed_item = "malformed_item"
reason_text other_reason = ""

abbrev pub max_outbox_attempts : ℕ
max_outbox_attempts = 20

abbrev pub max_batch_size : ℕ
max_batch_size = 1000

-- an hour
abbrev pub max_lease : ℕ
max_lease = 3600000000000

pub record Item : Type 0 where
  pub id : String
  pub lease_token : String
  pub tenant_id : String
  pub event_kind : FactKind
  pub entity_id : String
  pub destination_kind : DestinationKind
  pub destination_key : Bytes
  pub raw : Bytes
  pub authority_revision : ℕ
  pub domain_id : String
  pub edge_id : String
  pub edge_generation : ℕ
  pub delivery_sequence : ℕ

unfoldable pub is_none {ℓ} : {A : Type ℓ} → Option A → Bool
is_none none = true
is_none (some _) = false

-- No lease, or one that has run out.
unfoldable pub lease_over : ℕ → Option OutboxLease → Bool
lease_over now none = true
lease_over now (some lease) = leb lease.lease_until now

unfoldable pub is_open : OutboxRow → Bool
unfolding is_none
is_open row = is_none row.published_at && is_none row.poisoned_at

-- The WHERE clause of the claim; `locked` are the rows that SKIP LOCKED passes over.
unfoldable pub claimable : (String → Bool) → ℕ → OutboxRow → Bool
unfolding lease_over is_open
claimable locked now row =
    is_open row
    && (leb row.next_attempt_at now && (lease_over now row.lease && not (locked row.outbox_id)))

module _ (text_le : String → String → Bool) where
  -- ORDER BY next_attempt_at, created_at, outbox_id
  unfoldable pub due_le : OutboxRow → OutboxRow → Bool
  due_le a b =
      ltb a.next_attempt_at b.next_attempt_at
      || eqb a.next_attempt_at b.next_attempt_at
        && (ltb a.created_at b.created_at
            || eqb a.created_at b.created_at && text_le a.outbox_id b.outbox_id)

  unfoldable pub insert_due : OutboxRow → List OutboxRow → List OutboxRow
  insert_due row [] = row ∷ []
  insert_due row (other ∷ rows) =
      if due_le row other then row ∷ other ∷ rows else other ∷ insert_due row rows

  unfoldable pub order_due : List OutboxRow → List OutboxRow
  order_due [] = []
  order_due (row ∷ rows) = insert_due row (order_due rows)

abbrev pub ids_of : List OutboxRow → List String
ids_of [] = []
ids_of (row ∷ rows) = row.outbox_id ∷ ids_of rows

-- The token that the claim makes for a row, and the clock of the row's UPDATE.
pub record Grant : Type 0 where
  pub token : String
  pub at : ℕ

abbrev pub has_id : String → OutboxRow → Bool
has_id id row = row.outbox_id == id

abbrev pub is_open_id : String → OutboxRow → Bool
is_open_id id row = has_id id row && is_open row

-- A duration is written in whole microseconds.
unfoldable pub leased : String → ℕ → Grant → OutboxRow → OutboxRow
leased worker lease g row = record row {
  lease =
      some (record { owner = worker; token = g.token; lease_until = g.at + lease / 1000 * 1000 });
}

unfoldable pub has_token : String → Option OutboxLease → Bool
has_token token none = false
has_token token (some lease) = lease.token == token

abbrev pub is_made : String → ℕ → CaseRow → Bool
is_made tenant revision c = c.tenant_id == tenant && eqb c.commit_revision revision

abbrev pub is_sent : String → ℕ → DeliveryRow → Bool
is_sent tenant revision d = d.tenant_id == tenant && eqb d.authority_revision revision

-- LEFT JOIN authority_cases
unfoldable pub joined_case : OutboxRow → Db → Option CaseRow
joined_case row db = elim row.destination_kind [
  | domain_dispatch ↦ find (is_made row.tenant_id row.authority_revision) db.cases
  | edge_delivery ↦ none
]

-- LEFT JOIN authority_edge_deliveries
unfoldable pub joined_delivery : OutboxRow → Db → Option DeliveryRow
joined_delivery row db = elim row.destination_kind [
  | domain_dispatch ↦ none
  | edge_delivery ↦ find (is_sent row.tenant_id row.authority_revision) db.deliveries
]

abbrev pub domain_of : Option CaseRow → String
domain_of none = ""
domain_of (some c) = c.domain

abbrev pub edge_of : Option DeliveryRow → String × ℕ × ℕ
edge_of none = ("", 0, 0)
edge_of (some d) = (d.edge_id, d.edge_generation, d.delivery_sequence)

unfoldable pub item_of : String → OutboxRow → Db → Item
unfolding joined_case joined_delivery
item_of token row db = record {
  id = row.outbox_id;
  lease_token = token;
  tenant_id = row.tenant_id;
  event_kind = row.event_kind;
  entity_id = row.entity_id;
  destination_kind = row.destination_kind;
  destination_key = row.destination_key;
  raw = row.raw;
  authority_revision = row.authority_revision;
  domain_id = domain_of (joined_case row db);
  edge_id = (edge_of (joined_delivery row db)).0;
  edge_generation = (edge_of (joined_delivery row db)).1;
  delivery_sequence = (edge_of (joined_delivery row db)).2;
}

unfoldable pub read_claimed_outbox_item : String → String → Db → Result OutboxError Item
unfolding has_token
read_claimed_outbox_item id token db =
    elim (find (λ (row : OutboxRow). has_id id row && has_token token row.lease) db.outbox) [
      | none ↦ err stale_outbox_lease
      | some row ↦ ok (item_of token row db)
    ]

-- The loop over the selected identifiers; its round `n` makes the grant `grants n`.
unfoldable pub lease_rows :
    String → ℕ → (ℕ → Grant) → ℕ → List String → Db → Result OutboxError (List Item × Db)
lease_rows worker lease grants n [] db = ok ([], db)
lease_rows worker lease grants n (id ∷ ids) db =
    let db' = record db {
      outbox = update_where (is_open_id id) (leased worker lease (grants n)) db.outbox;
    } in
    let rest = lease_rows worker lease grants (suc n) ids db' in
    elim (any (is_open_id id) db.outbox) [
      | false ↦ err stale_outbox_lease
      | true ↦ (elim (read_claimed_outbox_item id (grants n).token db') [
        | err e ↦ err e
        | ok item ↦ (elim rest [ err e ↦ err e | ok (items, db'') ↦ ok (item ∷ items, db'') ])
      ])
    ]

unfoldable pub valid_claim : String → ℕ → ℕ → Bool
valid_claim worker limit lease =
    valid_text worker
    && (ltb 0 limit && (leb limit max_batch_size && (ltb 0 lease && leb lease max_lease)))

unfoldable pub selected :
    (String → String → Bool) → (String → Bool) → ℕ → ℕ → List OutboxRow → List String
selected text_le locked now limit rows =
    ids_of (take limit (order_due text_le (select (claimable locked now) rows)))

-- An error rolls the transaction back.
unfoldable pub claim :
    (String → String → Bool)
    → (String → Bool)
    → ℕ
    → (ℕ → Grant)
    → String
    → ℕ
    → ℕ
    → Db
    → Result OutboxError (List Item × Db)
claim text_le locked now grants worker limit lease db = elim (valid_claim worker limit lease) [
  | false ↦ err invalid_claim
  | true ↦ lease_rows worker lease grants 0 (selected text_le locked now limit db.outbox) db
]
