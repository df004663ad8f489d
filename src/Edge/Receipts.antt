-- ===== src/Edge/Receipts.antt =====
-- The receipts of front deliveries: MarkFrontDelivered of internal/sspedge/store.go.
use snagline.Prelude.{
  ℕ, String, ◌≡◌, refl, ◌⊎◌, Bytes, inl, inr, true, false, ◌&&◌, Option, none, some, arith, ◌==◌,
  eq_iff, eq_refl, if◌then◌else◌, find, find-holds, find-update_where, Option-cases,
}
use snagline.Tx.{ok, err}
use snagline.Edge.Tables.{
  FrontRow, front_delivered, front_quarantined, EdgeDb, receipt_mismatch, lost_claim,
}
use snagline.Edge.Vault.{Aead}
use snagline.Edge.History.{StoreLater}
use snagline.Edge.Receipted.{later-HasReceipt}
use snagline.Edge.Front.{
  FrontReceipt, delivery_recorded, delivery_duplicate, has_message, holds_text, has_claim,
  is_delivering, delivered_front, valid_front_receipt, mark_row, mark_front_delivered,
}

has_message-delivered :
    (front message_id receipt_id : String) (now : ℕ) (row : FrontRow)
    → has_message front message_id (delivered_front receipt_id now row)
      ≡ has_message front message_id row
unfolding delivered_front
has_message-delivered front message_id receipt_id now row = refl

held-claim :
    (token : Option String) (claim : String)
    → (claim == "") ≡ false
    → holds_text token claim ≡ true
    → has_claim claim token ≡ true
unfolding holds_text has_claim
held-claim none claim n h = absurd (ground (arith, eq_iff "" claim, eq_refl claim))
held-claim (some token) claim n h = h

-- The row that a recorded receipt leaves.
recorded-row :
    (r : FrontReceipt) (now : ℕ) (db db' : EdgeDb)
    → mark_front_delivered r now db ≡ ok (delivery_recorded, db')
    → (row : FrontRow) × (find (has_message r.front r.message_id) db'.front_outbox
        ≡ some (delivered_front r.receipt_id now row))
unfolding mark_front_delivered mark_row valid_front_receipt is_delivering
recorded-row r now db db' h =
    elim (Option-cases (find (has_message r.front r.message_id) db.front_outbox)) [
      | inl e ↦ absurd (ground arith)
      | inr (row, e) ↦ (
        row,
        ground (
          arith,
          held-claim row.claim_token r.claim_token,
          find-holds (has_message r.front r.message_id) db.front_outbox row e,
          find-update_where (has_message r.front r.message_id)
              (λ (x : FrontRow).
                has_message r.front r.message_id x
                && (is_delivering x.state && has_claim r.claim_token x.claim_token))
              (delivered_front r.receipt_id now)
              (has_message-delivered r.front r.message_id r.receipt_id now) db.front_outbox,
        ),
      )
    ]

-- Once a receipt of a message is recorded, in every state that later operations of the store reach
-- the message's row still has that receipt and is delivered, or quarantined. There a valid receipt of
-- the message, under any claim token, writes nothing: on the delivered row it is answered
-- "duplicate" when it has the same identifier and refused as a mismatch when it has another, and on
-- the quarantined row it is refused as a lost claim.
pub mark-then-mark :
    (sha : Bytes → String) (aead : Aead) (tenant : String) (payload : String → String → Bytes)
    (r again : FrontReceipt) (now later : ℕ) (db db' end : EdgeDb)
    → mark_front_delivered r now db ≡ ok (delivery_recorded, db')
    → StoreLater sha aead tenant payload db' end
    → again.front ≡ r.front
    → again.message_id ≡ r.message_id
    → valid_front_receipt again later ≡ true
    → (row : FrontRow) × (find (has_message r.front r.message_id) end.front_outbox ≡ some row)
      × (row.delivery_receipt ≡ some r.receipt_id)
      × (((row.state ≡ front_delivered)
            × (mark_front_delivered again later end ≡ (
                if r.receipt_id == again.receipt_id
                then ok (delivery_duplicate, end)
                else err receipt_mismatch)))
          ⊎ ((row.state ≡ front_quarantined)
              × (mark_front_delivered again later end ≡ err lost_claim)))
unfolding mark_front_delivered mark_row delivered_front holds_text
mark-then-mark sha aead tenant payload r again now later db db' end h l f m v =
    let (first, found) = recorded-row r now db db' h in
    let kept =
      later-HasReceipt r.front r.message_id r.receipt_id sha aead tenant payload db' end l (record {
        row = delivered_front r.receipt_id now first;
        found = found;
        receipted = (refl, inl refl);
      }) in
    let same : find (has_message again.front again.message_id) end.front_outbox
        ≡ find (has_message r.front r.message_id) end.front_outbox =
      rw (f, m) refl in
    (
      kept.row,
      kept.found,
      kept.receipted.0,
      elim kept.receipted.1 [
        | inl e ↦ inl (e, ground (arith, kept.found, kept.receipted.0, same))
        | inr e ↦ inr (e, ground (arith, kept.found, kept.receipted.0, same))
      ],
    )
