-- ===== src/Edge/FrontEffects.antt =====
-- What the operations on the front outbox of internal/sspedge/store.go leave alone.
use snagline.Prelude.{
  ℕ, suc, ◌+◌, String, ◌≡◌, refl, inl, inr, List, [], ◌∷◌, arith, any, find, Bool-cases,
  Option-cases, update_where,
}
use snagline.Tx.{ok, Result-cases}
use snagline.Edge.Vault.{Aead, open_sealed}
use snagline.Edge.Tables.{FrontRow, EdgeDb}
use snagline.Edge.Front.{
  FrontDelivery, FrontReceipt, DeliveryOutcome, Candidate, candidates, claims, leased_front,
  claim_candidates, claim_front_deliveries, has_message, mark_row, mark_front_delivered,
}

-- Only the rows of the front outbox have changed.
pub record OnlyFront (db db' : EdgeDb) : Type 0 where
  pub only : db' ≡ record db { front_outbox = db'.front_outbox }

pub trans-OnlyFront : (a b c : EdgeDb) → OnlyFront a b → OnlyFront b c → OnlyFront a c
trans-OnlyFront a b c s t = record { only = ground (arith, s.only, t.only) }

module _ (aead : Aead) (tenant : String) (tokens : ℕ → String) (front owner : String)
    (expires now : ℕ) where
  claim_candidates-OnlyFront :
      (n : ℕ) (cs : List Candidate) (db db' : EdgeDb) (items : List FrontDelivery)
      → claim_candidates aead tenant tokens front owner expires now n cs db ≡ ok (items, db')
      → OnlyFront db db'
  unfolding claim_candidates
  claim_candidates-OnlyFront n [] db db' items h = record { only = ground arith }
  claim_candidates-OnlyFront n (c ∷ cs) db db' items h =
      let claimed : EdgeDb = record db {
        front_outbox =
            update_where (claims front c.advice_id now) (leased_front owner expires (tokens n))
              db.front_outbox;
      } in
      elim (Bool-cases (any (claims front c.advice_id now) db.front_outbox)) [
        | inr e ↦ claim_candidates-OnlyFront (suc n) cs db db' items (ground arith)
        | inl e ↦
            (elim (Option-cases
              (open_sealed aead tenant "ssp_edge_advice" c.advice_id c.text_ciphertext)) [
                | inl f ↦ absurd (ground arith)
                | inr (text, f) ↦
                    (elim (Result-cases (
                      claim_candidates aead tenant tokens front owner expires now (suc n) cs
                        claimed)) [
                          | inr (x, k) ↦ absurd (ground arith)
                          | inl ((rest, db₁), k) ↦
                              trans-OnlyFront db claimed db' (record { only = refl })
                                (claim_candidates-OnlyFront (suc n) cs claimed db' rest
                                  (ground arith))
                        ])
              ])
      ]

pub claim-OnlyFront :
    (aead : Aead) (tenant : String) (tokens : ℕ → String) (front owner : String) (ttl limit now : ℕ)
    (db db' : EdgeDb) (items : List FrontDelivery)
    → claim_front_deliveries aead tenant tokens front owner ttl limit now db ≡ ok (items, db')
    → OnlyFront db db'
unfolding claim_front_deliveries
claim-OnlyFront aead tenant tokens front owner ttl limit now db db' items h =
    claim_candidates-OnlyFront aead tenant tokens front owner (now + ttl) now 0
      (candidates front limit now db) db db' items (ground arith)

mark_row-OnlyFront :
    (r : FrontReceipt) (now : ℕ) (row : FrontRow) (db db' : EdgeDb) (o : DeliveryOutcome)
    → mark_row r now row db ≡ ok (o, db')
    → OnlyFront db db'
unfolding mark_row
mark_row-OnlyFront r now row db db' o h = record { only = ground arith }

pub mark-OnlyFront :
    (r : FrontReceipt) (now : ℕ) (db db' : EdgeDb) (o : DeliveryOutcome)
    → mark_front_delivered r now db ≡ ok (o, db')
    → OnlyFront db db'
unfolding mark_front_delivered
mark-OnlyFront r now db db' o h =
    elim (Option-cases (find (has_message r.front r.message_id) db.front_outbox)) [
      | inl e ↦ absurd (ground arith)
      | inr (row, e) ↦ mark_row-OnlyFront r now row db db' o (ground arith)
    ]
