-- ===== src/Authority/Claims.antt =====
-- What a claim promises: Claim and readClaimedOutboxItem of internal/authority/postgres/outbox.go.
use snagline.Prelude.{
  ℕ, suc, true, subst, ◌⊎◌, ◌+◌, ◌*◌, ◌/◌, ◌≤◌, String, ◌≡◌, refl, inl, inr, Bool, false, Option,
  none, some, List, [], ◌∷◌, arith, any, find, All, length, Bytes, Option-cases,
}
use snagline.Tx.{ok}
use snagline.Authority.Tables.{
  CaseRow, DeliveryRow, OutboxRow, OutboxLease, Db, DestinationKind, domain_dispatch, edge_delivery,
}
use snagline.Authority.Outbox.{
  Item, Grant, has_id, is_made, is_sent, claimable, is_open, lease_over, leased, item_of, claim,
}
use snagline.Authority.OutboxRows.{row_of, IsRow}
use snagline.Authority.Leases.{LeasedBy, done, more}
use snagline.Authority.Exclusive.{claim-Claimed}
use snagline.Authority.History.{History}

abbrev pub IsFree : ℕ → Option OutboxLease → Type 0
IsFree now none = Unit {0}
IsFree now (some lease) = lease.lease_until ≤ now

-- The row may be claimed at a time: it is open and due, no lease of it runs on, and nobody has it
-- locked.
pub record IsDue (locked : String → Bool) (now : ℕ) (db : Db) (row : OutboxRow) : Type 0 where
  pub found : row_of row.outbox_id db.outbox ≡ some row
  pub unpublished : row.published_at ≡ none
  pub unpoisoned : row.poisoned_at ≡ none
  pub due : row.next_attempt_at ≤ now
  pub free : IsFree now row.lease
  pub unlocked : locked row.outbox_id ≡ false

-- A domain dispatch has the domain of its case.
abbrev pub HasDomain : Option CaseRow → Item → Type 0
HasDomain none item = item.domain_id ≡ ""
HasDomain (some c) item = item.domain_id ≡ c.domain

-- An edge delivery has the edge, the generation and the sequence of its delivery.
abbrev pub HasEdge : Option DeliveryRow → Item → Type 0
HasEdge none item = (item.edge_id ≡ "") × (item.edge_generation ≡ 0) × (item.delivery_sequence ≡ 0)
HasEdge (some d) item =
    (item.edge_id ≡ d.edge_id)
    × (item.edge_generation ≡ d.edge_generation)
    × (item.delivery_sequence ≡ d.delivery_sequence)

abbrev pub HasRoute : Db → OutboxRow → Item → DestinationKind → Type 0
HasRoute db row item domain_dispatch =
    HasDomain (find (is_made row.tenant_id row.authority_revision) db.cases) item
    × HasEdge none item
HasRoute db row item edge_delivery =
    HasEdge (find (is_sent row.tenant_id row.authority_revision) db.deliveries) item
    × HasDomain none item

-- The row is left with the worker's lease and nothing else changed, and the item has its contents.
pub record IsLeasedAs (worker : String) (lease : ℕ) (g : Grant) (db db' : Db) (row : OutboxRow)
    (item : Item) : Type 0 where
  pub after :
      row_of row.outbox_id db'.outbox
      ≡ some (record row {
        lease =
            some (record {
              owner = worker;
              token = g.token;
              lease_until = g.at + lease / 1000 * 1000;
            });
      })
  pub id : item.id ≡ row.outbox_id
  pub token : item.lease_token ≡ g.token
  pub tenant : item.tenant_id ≡ row.tenant_id
  pub event : item.event_kind ≡ row.event_kind
  pub entity : item.entity_id ≡ row.entity_id
  pub destination : item.destination_kind ≡ row.destination_kind
  pub key : item.destination_key ≡ row.destination_key
  pub raw : item.raw ≡ row.raw
  pub revision : item.authority_revision ≡ row.authority_revision
  pub route : HasRoute db row item row.destination_kind

-- The rows and the items one by one, from a round of the claim on.
abbrev pub AreLeasedAs :
    String → ℕ → (ℕ → Grant) → Db → Db → ℕ → List OutboxRow → List Item → Type 0
AreLeasedAs worker lease grants db db' n [] [] = Unit {0}
AreLeasedAs worker lease grants db db' n [] (item ∷ items) = ⊥
AreLeasedAs worker lease grants db db' n (row ∷ rows) [] = ⊥
AreLeasedAs worker lease grants db db' n (row ∷ rows) (item ∷ items) =
    IsLeasedAs worker lease (grants n) db db' row item
    × AreLeasedAs worker lease grants db db' (suc n) rows items

pub record IsClaim (locked : String → Bool) (now : ℕ) (grants : ℕ → Grant) (worker : String)
    (limit lease : ℕ) (items : List Item) (db db' : Db) : Type 0 where
  pub rows : List OutboxRow
  pub were : All (IsDue locked now db) rows
  pub leases : AreLeasedAs worker lease grants db db' 0 rows items
  pub bounded : length items ≤ limit
  pub complete :
      (row : OutboxRow)
      → IsDue locked now db row
      → (any (has_id row.outbox_id) rows ≡ true) ⊎ (length items ≡ limit)
  pub others : (j : String) → any (has_id j) rows ≡ false → row_of j db'.outbox ≡ row_of j db.outbox

claimable-IsDue :
    (locked : String → Bool) (now : ℕ) (db : Db) (row : OutboxRow)
    → IsRow (claimable locked now) db.outbox row
    → IsDue locked now db row
unfolding claimable is_open lease_over
claimable-IsDue locked now db row (found, h) = record {
  found = found;
  unpublished = ground arith;
  unpoisoned = ground arith;
  due = ground arith;
  free = elim (Option-cases row.lease) [
    | inl e ↦ rw (e, IsFree) tt
    | inr (l, e) ↦ rw (e, IsFree) (ground arith)
  ];
  unlocked = ground arith;
}

IsDue-claimable :
    (locked : String → Bool) (now : ℕ) (db : Db) (row : OutboxRow)
    → IsDue locked now db row
    → IsRow (claimable locked now) db.outbox row
unfolding claimable is_open lease_over
IsDue-claimable locked now db row d = (
  d.found,
  elim (Option-cases row.lease) [
    | inl e ↦ ground (arith, d.unpublished, d.unpoisoned, d.due, d.unlocked, e)
    | inr (l, e) ↦
        (let over : l.lease_until ≤ now = subst (IsFree now) e d.free in
          ground (arith, d.unpublished, d.unpoisoned, d.due, d.unlocked, e, over))
  ],
)

All-IsDue :
    (locked : String → Bool) (now : ℕ) (db : Db) (rows : List OutboxRow)
    → All (IsRow (claimable locked now) db.outbox) rows
    → All (IsDue locked now db) rows
All-IsDue locked now db [] a = tt
All-IsDue locked now db (row ∷ rows) a =
    (claimable-IsDue locked now db row a.0, All-IsDue locked now db rows a.1)

module _ (worker : String) (lease : ℕ) (grants : ℕ → Grant) (db db' : Db) where
  item_of-HasRoute :
      (token : String) (g : Grant) (row : OutboxRow) (kind : DestinationKind)
      → row.destination_kind ≡ kind
      → HasRoute db row (item_of token (leased worker lease g row) db) kind
  unfolding item_of leased
  item_of-HasRoute token g row domain_dispatch k =
      elim (Option-cases (find (is_made row.tenant_id row.authority_revision) db.cases)) [
        | inl e ↦ ground (arith, k, e)
        | inr (c, e) ↦ ground (arith, k, e)
      ]
  item_of-HasRoute token g row edge_delivery k =
      elim (Option-cases (find (is_sent row.tenant_id row.authority_revision) db.deliveries)) [
        | inl e ↦ ground (arith, k, e)
        | inr (d, e) ↦ ground (arith, k, e)
      ]

  item_of-IsLeasedAs :
      (g : Grant) (row : OutboxRow)
      → row_of row.outbox_id db'.outbox ≡ some (leased worker lease g row)
      → IsLeasedAs worker lease g db db' row (item_of g.token (leased worker lease g row) db)
  item_of-IsLeasedAs g row found =
      let route = item_of-HasRoute g.token g row row.destination_kind refl in
      unfold item_of leased in
      record {
        after = found;
        id = refl;
        token = refl;
        tenant = refl;
        event = refl;
        entity = refl;
        destination = refl;
        key = refl;
        raw = refl;
        revision = refl;
        route = route;
      }

  LeasedBy-AreLeasedAs :
      (n : ℕ) (rows : List OutboxRow) (items : List Item)
      → LeasedBy worker lease grants db db'.outbox n rows items
      → AreLeasedAs worker lease grants db db' n rows items
  LeasedBy-AreLeasedAs n _ _ done = tt
  LeasedBy-AreLeasedAs n _ _ (more {row = row} {rows = rows} {items = items} item found rest) = (
    rw item (item_of-IsLeasedAs (grants n) row found),
    LeasedBy-AreLeasedAs (suc n) rows items rest,
  )

-- In a reachable state, the items that a claim returns are at most `limit`, and are one by one those
-- of rows that were neither published nor poisoned, were due by `now`, were under no lease that ran
-- beyond `now` and not locked. Each of these rows is left with the worker's lease, under the token
-- of its grant and until the time of the grant plus the time asked in whole microseconds; its item
-- has the row's contents, that token, and the domain of the row's case or the edge, generation and
-- sequence of the row's delivery. A row of that kind is left out only when `limit` items are
-- returned. Every other row is left as it was.
pub claim-IsClaim :
    (sha : Bytes → String) (authority_id : String) (db db' : Db) (text_le : String → String → Bool)
    (locked : String → Bool) (now : ℕ) (grants : ℕ → Grant) (worker : String) (limit lease : ℕ)
    (items : List Item)
    → History sha authority_id db
    → claim text_le locked now grants worker limit lease db ≡ ok (items, db')
    → IsClaim locked now grants worker limit lease items db db'
claim-IsClaim sha authority_id db db' text_le locked now grants worker limit lease items hist h =
    let c =
      claim-Claimed sha authority_id db db' text_le locked now grants worker limit lease items hist
        h in
    record {
      rows = c.rows;
      were = All-IsDue locked now db c.rows c.were;
      leases = LeasedBy-AreLeasedAs worker lease grants db db' 0 c.rows items c.leases;
      bounded = c.bounded;
      complete = λ row due. c.complete row (IsDue-claimable locked now db row due);
      others = c.others;
    }
