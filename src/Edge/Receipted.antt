-- ===== src/Edge/Receipted.antt =====
-- The receipts of front deliveries under the operations of internal/sspedge/store.go.
use snagline.Prelude.{
  ℕ, ◌+◌, String, ◌≡◌, inl, inr, Option, none, some, arith, ◌==◌, Bytes, Bool-cases, Option-cases,
}
use snagline.Tx.{ok, Result-cases}
use snagline.Edge.Vault.{Aead}
use snagline.Edge.Tables.{
  Verdict, verdict_accepted, verdict_rejected, verdict_quarantined, ApplyOutcome, apply_quarantined,
  apply_duplicate, JournalDelivery, Advice, VerifiedProjection, EdgeDb,
}
use snagline.Edge.Cursor.{
  require_reconciliation, require_reconciliation_tx, complete_reconciliation,
}
use snagline.Edge.Projection.{
  claim_identity, insert_front, persist_case, insert_advice, persist_advice, persist_projection,
  persist_case_part, persist_advice_part,
}
use snagline.Edge.Apply.{Judged, judge, judge_claimed}
use snagline.Edge.Applied.{
  Applied, replayed, caught_up, halted, recorded, Judges, judges, apply_verified-Applied,
}
use snagline.Edge.Front.{candidates, claim_front_deliveries}
use snagline.Edge.History.{
  StoreStep, applied, required, completed, claimed, marked, StoreLater, now_here, later_step,
}
use snagline.Edge.Delivered.{
  HasReceipt, same-HasReceipt, insert_front-HasReceipt, claim_identity-HasReceipt,
  claim_candidates-HasReceipt, mark-HasReceipt,
}

module _ (front message receipt : String) (sha : Bytes → String) (aead : Aead) (tenant : String)
    (payload : String → String → Bytes) where
  abbrev Kept : EdgeDb → EdgeDb → Type 0
  Kept db db' =
      HasReceipt front message receipt db.front_outbox
      → HasReceipt front message receipt db'.front_outbox

  same_rows : (db db' : EdgeDb) → db'.front_outbox ≡ db.front_outbox → Kept db db'
  same_rows db db' e = same-HasReceipt front message receipt db.front_outbox db'.front_outbox e

  module _ (nonce : Bytes) where
    insert_advice-same :
        (p : VerifiedProjection) (a : Advice) (now : ℕ) (db db' : EdgeDb) (u : Unit {0})
        → insert_advice aead tenant payload nonce p a now db ≡ ok (u, db')
        → db'.front_outbox ≡ db.front_outbox
    unfolding insert_advice
    insert_advice-same p a now db db' u i = ground arith

    persist_advice-Kept :
        (p : VerifiedProjection) (a : Advice) (now : ℕ) (db db' : EdgeDb) (u : Unit {0})
        → persist_advice aead tenant payload nonce p a now db ≡ ok (u, db')
        → Kept db db'
    unfolding persist_advice
    persist_advice-Kept p a now db db' u i h =
        elim (Result-cases (insert_advice aead tenant payload nonce p a now db)) [
          | inr (e, j) ↦ absurd (ground arith)
          | inl ((v, db₁), j) ↦ (elim (Result-cases (insert_front "cli" a.advice_id now db₁)) [
            | inr (e, k) ↦ absurd (ground arith)
            | inl ((w, db₂), k) ↦
                insert_front-HasReceipt front message receipt "amq" a.advice_id now db₂ db' u
                  (ground arith)
                  (insert_front-HasReceipt front message receipt "cli" a.advice_id now db₁ db₂ w k
                    (same_rows db db₁ (insert_advice-same p a now db db₁ v j) h))
          ])
        ]

    persist_projection-Kept :
        (p : VerifiedProjection) (now : ℕ) (db db' : EdgeDb) (u : Unit {0})
        → persist_projection aead tenant payload nonce p now db ≡ ok (u, db')
        → Kept db db'
    unfolding persist_projection persist_case_part persist_advice_part persist_case
    persist_projection-Kept p now db db' u i h = elim (Bool-cases (p.family == "case")) [
      | inl e ↦ (elim (Option-cases p.case_part) [
        | inl k ↦ absurd (ground arith)
        | inr (c, k) ↦ same_rows db db' (ground arith) h
      ])
      | inr e ↦ (elim (Bool-cases (p.family == "advice")) [
        | inr f ↦ absurd (ground arith)
        | inl f ↦ (elim (Option-cases p.advice_part) [
          | inl k ↦ absurd (ground arith)
          | inr (a, k) ↦ persist_advice-Kept p a now db db' u (ground arith) h
        ])
      ])
    ]

    judge_claimed-Kept :
        (p : VerifiedProjection) (reason : String) (now : ℕ) (o : ApplyOutcome) (db db' : EdgeDb)
        (j : Judged)
        → judge_claimed sha aead tenant payload nonce p reason now o db ≡ ok (j, db')
        → Kept db db'
    unfolding judge_claimed
    judge_claimed-Kept p reason now apply_quarantined db db' j i h =
        same_rows db db' (ground arith) h
    judge_claimed-Kept p reason now apply_duplicate db db' j i h = same_rows db db' (ground arith) h
    judge_claimed-Kept p reason now _ db db' j i h =
        elim (Result-cases (persist_projection aead tenant payload nonce p now db)) [
          | inr (e, k) ↦ absurd (ground arith)
          | inl ((v, db₁), k) ↦ persist_projection-Kept p now db db' v (ground arith) h
        ]

    judge-Kept :
        (d : JournalDelivery) (v : Verdict) (reason : String) (p : Option VerifiedProjection)
        (now : ℕ) (db db' : EdgeDb) (j : Judged)
        → judge sha aead tenant payload nonce d v reason p now db ≡ ok (j, db')
        → Kept db db'
    unfolding judge
    judge-Kept d verdict_accepted reason none now db db' j i h = absurd (ground arith)
    judge-Kept d verdict_accepted reason (some p) now db db' j i h =
        elim (Result-cases (claim_identity p.envelope_id p.commitment d.delivery_seq now db)) [
          | inr (e, k) ↦ absurd (ground arith)
          | inl ((o, db₁), k) ↦ judge_claimed-Kept p reason now o db₁ db' j (ground arith) (
              claim_identity-HasReceipt front message receipt p.envelope_id p.commitment
                d.delivery_seq now db db₁ o k h)
        ]
    judge-Kept d verdict_rejected reason p now db db' j i h = same_rows db db' (ground arith) h
    judge-Kept d verdict_quarantined reason p now db db' j i h = same_rows db db' (ground arith) h

module _ (front message receipt : String) where
  Judges-Kept :
      (d : JournalDelivery) (now : ℕ) (db mid : EdgeDb) (j : Judged)
      → Judges d now db mid j
      → HasReceipt front message receipt db.front_outbox
      → HasReceipt front message receipt mid.front_outbox
  Judges-Kept d now db mid j (judges sha aead tenant payload nonce v reason p i) h =
      judge-Kept front message receipt sha aead tenant payload nonce d v reason p now db mid j i h

  Applied-HasReceipt :
      (sha : Bytes → String) (d : JournalDelivery) (now : ℕ) (db db' : EdgeDb) (o : ApplyOutcome)
      → Applied sha d now db db' o
      → HasReceipt front message receipt db.front_outbox
      → HasReceipt front message receipt db'.front_outbox
  Applied-HasReceipt sha d now db db' o (replayed r f g e x) h =
      same-HasReceipt front message receipt db.front_outbox db'.front_outbox (ground (arith, e)) h
  Applied-HasReceipt sha d now db db' o (caught_up r f next e x) h =
      same-HasReceipt front message receipt db.front_outbox db'.front_outbox (ground (arith, e)) h
  Applied-HasReceipt sha d now db db' o (halted reason is_halt k) h =
      same-HasReceipt front message receipt db.front_outbox db'.front_outbox
        (unfold require_reconciliation_tx in ground arith) h
  Applied-HasReceipt sha d now db db' o (recorded j p mid g k same next fresh e s x) h =
      same-HasReceipt front message receipt mid.front_outbox db'.front_outbox same
        (Judges-Kept d now db mid j g h)

  module _ (sha : Bytes → String) (aead : Aead) (tenant : String)
      (payload : String → String → Bytes) where
    step-HasReceipt :
        (db db' : EdgeDb)
        → StoreStep sha aead tenant payload db db'
        → HasReceipt front message receipt db.front_outbox
        → HasReceipt front message receipt db'.front_outbox
    unfolding claim_front_deliveries
    step-HasReceipt db db' (applied nonce rec d v reason p now o k) h =
        Applied-HasReceipt sha d now db db' o
          (apply_verified-Applied sha d now db db' o aead tenant payload nonce rec v reason p k) h
    step-HasReceipt db db' (required a observed reason now k) h =
        same-HasReceipt front message receipt db.front_outbox db'.front_outbox
          (unfold require_reconciliation require_reconciliation_tx in ground arith) h
    step-HasReceipt db db' (completed a through high now k) h =
        same-HasReceipt front message receipt db.front_outbox db'.front_outbox
          (unfold complete_reconciliation in ground arith) h
    step-HasReceipt db db' (claimed tokens f owner ttl limit now items k) h =
        claim_candidates-HasReceipt front message receipt aead tenant tokens f owner (now + ttl) now
          0 (candidates f limit now db) db db' items (ground arith) h
    step-HasReceipt db db' (marked r now o k) h =
        mark-HasReceipt front message receipt r now db db' o k h

    -- A message with a receipt keeps it through every later operation of the store.
    pub later-HasReceipt :
        (db db' : EdgeDb)
        → StoreLater sha aead tenant payload db db'
        → HasReceipt front message receipt db.front_outbox
        → HasReceipt front message receipt db'.front_outbox
    later-HasReceipt db _ now_here h = h
    later-HasReceipt db _ (later_step {mid} {db'} l step) h =
        step-HasReceipt mid db' step (later-HasReceipt db mid l h)
