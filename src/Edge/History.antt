-- ===== src/Edge/History.antt =====
-- The committed states of the store of internal/sspedge: the operations one after the other, which
-- the write lock orders. An operation that returns an error commits nothing.
use snagline.Prelude.{ℕ, String, ◌≡◌, Bool, Option, List, [], Bytes}
use snagline.Tx.{ok}
use snagline.Edge.Vault.{Aead}
use snagline.Edge.Tables.{
  Verdict, ApplyOutcome, EdgeIdentity, JournalDelivery, VerifiedProjection, EdgeDb,
}
use snagline.Edge.Cursor.{require_reconciliation, complete_reconciliation}
use snagline.Edge.Apply.{apply_verified}
use snagline.Edge.Front.{
  FrontDelivery, FrontReceipt, DeliveryOutcome, claim_front_deliveries, mark_front_delivered,
}

abbrev pub empty_edge : EdgeDb
empty_edge = record {
  states = [];
  deliveries = [];
  identities = [];
  cases = [];
  advice = [];
  front_outbox = [];
}

module _ (sha : Bytes → String) (aead : Aead) (tenant : String)
    (payload : String → String → Bytes) where
  pub data StoreStep (db db' : EdgeDb) : Type 0 where
    applied :
        (nonce : Bytes) (reconciling : Bool) (d : JournalDelivery) (v : Verdict) (reason : String)
        (p : Option VerifiedProjection) (now : ℕ) (o : ApplyOutcome)
        → apply_verified sha aead tenant payload nonce reconciling d v reason p now db ≡ ok (o, db')
        → StoreStep db db'
    required :
        (id : EdgeIdentity) (observed : ℕ) (reason : String) (now : ℕ)
        → require_reconciliation id observed reason now db ≡ ok (tt, db')
        → StoreStep db db'
    completed :
        (id : EdgeIdentity) (through high now : ℕ)
        → complete_reconciliation id through high now db ≡ ok (tt, db')
        → StoreStep db db'
    claimed :
        (tokens : ℕ → String) (front owner : String) (ttl limit now : ℕ)
        (items : List FrontDelivery)
        → claim_front_deliveries aead tenant tokens front owner ttl limit now db ≡ ok (items, db')
        → StoreStep db db'
    marked :
        (r : FrontReceipt) (now : ℕ) (o : DeliveryOutcome)
        → mark_front_delivered r now db ≡ ok (o, db')
        → StoreStep db db'

  pub data StoreHistory : EdgeDb → Type 0 where
    opened : StoreHistory empty_edge
    then_step : {db db' : EdgeDb} → StoreHistory db → StoreStep db db' → StoreHistory db'

  -- Any number of later operations.
  pub data StoreLater (db : EdgeDb) : EdgeDb → Type 0 where
    now_here : StoreLater db db
    later_step : {mid db' : EdgeDb} → StoreLater db mid → StoreStep mid db' → StoreLater db db'
