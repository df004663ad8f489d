-- ===== src/Authority/Moves.antt =====
-- The operations of internal/authority/postgres/outbox.go as steps of the committed state.
use snagline.Prelude.{
  ℕ, suc, String, ◌≡◌, refl, inl, inr, Bool, true, List, [], ◌∷◌, arith, any, update_where,
}
use snagline.Tx.{ok, Result-cases}
use snagline.Authority.Tables.{Db}
use snagline.Authority.Outbox.{
  ReleaseReason, Item, Grant, is_open_id, leased, read_claimed_outbox_item, lease_rows, selected,
  claim,
}
use snagline.Authority.Closures.{mark_published, release}

-- One committed operation on the outbox, by any worker at any time.
pub data OutboxMoves (db : Db) : Db → Type 0 where
  claims :
      {db' : Db} (text_le : String → String → Bool) (locked : String → Bool) (now : ℕ)
      (grants : ℕ → Grant) (worker : String) (limit lease : ℕ) (items : List Item)
      → claim text_le locked now grants worker limit lease db ≡ ok (items, db')
      → OutboxMoves db db'
  publishes :
      {db' : Db} (id token : String) (now : ℕ)
      → mark_published id token now db ≡ ok db'
      → OutboxMoves db db'
  releases :
      {db' : Db} (id token : String) (retry_at : ℕ) (reason : ReleaseReason) (now : ℕ)
      → release id token retry_at reason now db ≡ ok db'
      → OutboxMoves db db'

-- Only the outbox differs.
abbrev pub OnlyOutbox : Db → Db → Type 0
OnlyOutbox db db' = db' ≡ record db { outbox = db'.outbox }

pub OnlyOutbox-trans : (a b c : Db) → OnlyOutbox a b → OnlyOutbox b c → OnlyOutbox a c
OnlyOutbox-trans a b c p q = ground arith

-- The state after one round of the claim's loop.
abbrev pub leased_state : String → ℕ → Grant → String → Db → Db
leased_state worker lease g id db = record db {
  outbox = update_where (is_open_id id) (leased worker lease g) db.outbox;
}

-- A round of the claim's loop that goes on to succeed.
pub record LeaseRound (worker : String) (lease : ℕ) (grants : ℕ → Grant) (n : ℕ) (id : String)
    (ids : List String) (db db' : Db) (items : List Item) : Type 0 where
  pub item : Item
  pub rest : List Item
  pub was_open : any (is_open_id id) db.outbox ≡ true
  pub read :
      read_claimed_outbox_item id (grants n).token (leased_state worker lease (grants n) id db)
      ≡ ok item
  pub more :
      lease_rows worker lease grants (suc n) ids (leased_state worker lease (grants n) id db)
      ≡ ok (rest, db')
  pub items_eq : items ≡ item ∷ rest

pub lease_rows-LeaseRound :
    (worker : String) (lease : ℕ) (grants : ℕ → Grant) (n : ℕ) (id : String) (ids : List String)
    (db db' : Db) (items : List Item)
    → lease_rows worker lease grants n (id ∷ ids) db ≡ ok (items, db')
    → LeaseRound worker lease grants n id ids db db' items
unfolding lease_rows
lease_rows-LeaseRound worker lease grants n id ids db db' items h =
    elim (Result-cases
      (read_claimed_outbox_item id (grants n).token (leased_state worker lease (grants n) id db))) [
        | inl (item, r) ↦
            (elim (Result-cases (
              lease_rows worker lease grants (suc n) ids
                (leased_state worker lease (grants n) id db))) [
                  | inl ((rest, d), m) ↦ record {
                    item = item;
                    rest = rest;
                    was_open = ground arith;
                    read = r;
                    more = ground arith;
                    items_eq = ground arith;
                  }
                  | inr (e, m) ↦ absurd (ground arith)
                ])
        | inr (e, r) ↦ absurd (ground arith)
      ]

pub lease_rows-OnlyOutbox :
    (worker : String) (lease : ℕ) (grants : ℕ → Grant) (n : ℕ) (ids : List String) (db db' : Db)
    (items : List Item)
    → lease_rows worker lease grants n ids db ≡ ok (items, db')
    → OnlyOutbox db db'
lease_rows-OnlyOutbox worker lease grants n [] db db' items h = unfold lease_rows in ground arith
lease_rows-OnlyOutbox worker lease grants n (id ∷ ids) db db' items h =
    let r = lease_rows-LeaseRound worker lease grants n id ids db db' items h in
    OnlyOutbox-trans db (leased_state worker lease (grants n) id db) db' refl (
      lease_rows-OnlyOutbox worker lease grants (suc n) ids
        (leased_state worker lease (grants n) id db) db' r.rest r.more)

-- An operation on the outbox changes no other table.
pub OutboxMoves-OnlyOutbox : (db db' : Db) → OutboxMoves db db' → OnlyOutbox db db'
unfolding claim mark_published release
OutboxMoves-OnlyOutbox db db' (claims text_le locked now grants worker limit lease items h) =
    lease_rows-OnlyOutbox worker lease grants 0 (selected text_le locked now limit db.outbox) db db'
      items (ground arith)
OutboxMoves-OnlyOutbox db db' (publishes id token now h) = ground arith
OutboxMoves-OnlyOutbox db db' (releases id token retry_at reason now h) = ground arith
