-- ===== src/Delivery/Deliverable.antt =====
-- publishRequest of internal/delivery/outbox/worker.go on the items of a claim.
use snagline.Prelude.{ℕ, suc, ◌≤◌, String, ◌≡◌, Bool, false, List, ◌==◌, All, Bytes, length}
use snagline.Tx.{ok}
use snagline.Authority.Tables.{OutboxRow, Db}
use snagline.Authority.Outbox.{Grant, Item, claim, claimable, has_id, leased}
use snagline.Authority.OutboxRows.{IsRow}
use snagline.Authority.Leases.{LeasedBy, done, more}
use snagline.Authority.Exclusive.{claim-Claimed}
use snagline.Authority.History.{History}
use snagline.Delivery.Routes.{IsRouted, IsRoutedDb}
use snagline.Delivery.Routed.{find-All}
use snagline.Delivery.Restated.{leased-IsRouted}
use snagline.Delivery.RoutedStates.{History-IsRoutedDb}
use snagline.Delivery.Publishable.{Carries, row-Carries}

abbrev pub IsSmall : OutboxRow → Type 0
IsSmall row = length row.raw ≤ 65536

module _ (sha : Bytes → String) (worker : String) (lease : ℕ) (grants : ℕ → Grant)
    (tokens : (n : ℕ) → ((grants n).token == "") ≡ false) (db : Db) (routed : IsRoutedDb db)
    (small : All IsSmall db.outbox) (p : OutboxRow → Bool) where
  items-Carries :
      (out : List OutboxRow) (n : ℕ) (rows : List OutboxRow) (items : List Item)
      → LeasedBy worker lease grants db out n rows items
      → All (IsRow p db.outbox) rows
      → All (Carries sha db) items
  items-Carries out n _ _ done a = tt
  items-Carries out n _ _ (more {row = row} {rows = rows} {items = items} item found rest) a =
      let r =
        find-All (IsRouted db.next_revision db.cases db.deliveries) (has_id row.outbox_id) db.outbox
          row routed.rows a.0.0 in
      let s = find-All IsSmall (has_id row.outbox_id) db.outbox row small a.0.0 in
      (
        rw item (
            row-Carries sha db.next_revision (leased worker lease (grants n) row) db
              (grants n).token (tokens n) (unfold leased in s)
              (leased-IsRouted db.next_revision db.cases db.deliveries worker lease (grants n) row
                r)),
        items-Carries out (suc n) rows items rest a.1,
      )

-- In a reachable state, when lease tokens are not empty and no outbox row holds more than 65536
-- bytes, every item that a claim returns makes a valid publish request with the item's identifier,
-- tenant, bytes and revision. The request of a domain dispatch goes to the domain of the case that
-- was admitted at that revision, and to no edge; the request of an edge delivery goes to the edge,
-- generation and sequence of the delivery that was logged at that revision, and to no domain.
pub claimed_items-Carries :
    (sha : Bytes → String) (authority_id : String) (db db' : Db) (text_le : String → String → Bool)
    (locked : String → Bool) (now : ℕ) (grants : ℕ → Grant) (worker : String) (limit lease : ℕ)
    (items : List Item)
    → History sha authority_id db
    → claim text_le locked now grants worker limit lease db ≡ ok (items, db')
    → ((n : ℕ) → ((grants n).token == "") ≡ false)
    → All IsSmall db.outbox
    → All (Carries sha db) items
claimed_items-Carries sha authority_id db db' text_le locked now grants worker limit lease items
      hist h tokens small =
    let c =
      claim-Claimed sha authority_id db db' text_le locked now grants worker limit lease items hist
        h in
    items-Carries sha worker lease grants tokens db (History-IsRoutedDb sha authority_id db hist)
      small (claimable locked now) db'.outbox 0 c.rows items c.leases c.were
