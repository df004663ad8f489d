-- ===== src/Edge/ReceiptExamples.antt =====
-- The theorem on the receipts of front deliveries, applied to a concrete outbox.
use snagline.Prelude.{find, ◌⊎◌, ◌≡◌, refl, true, some, [], ◌∷◌}
use snagline.Tx.{ok, err}
use snagline.Edge.Tables.{
  front_delivering, front_delivered, front_quarantined, FrontRow, EdgeDb, receipt_mismatch,
  lost_claim,
}
use snagline.Edge.Front.{
  holds_text, mark_row, valid_front, FrontReceipt, delivery_recorded, valid_front_receipt,
  mark_front_delivered, has_message,
}
use snagline.Edge.Projection.{front_row, message_id}
use snagline.Edge.History.{empty_edge, now_here, later_step, required}
use snagline.Edge.Cursor.{require_reconciliation, require_reconciliation_tx}
use snagline.Edge.Validate.{valid_identity}
use snagline.Edge.Receipts.{mark-then-mark}
use snagline.Edge.Scenario.{left, wide, clear, payload, own}

abbrev leased_row : FrontRow
leased_row = record (front_row "cli" "a" 3) {
  state = front_delivering;
  lease_owner = some "w";
  lease_expires_at = some 9;
  claim_token = some "k";
}

abbrev leased_db : EdgeDb
leased_db = record empty_edge { front_outbox = leased_row ∷ [] }

abbrev receipt : FrontReceipt
receipt = record {
  front = "cli";
  message_id = message_id "cli" "a";
  claim_token = "k";
  receipt_id = "r";
}

abbrev other_receipt : FrontReceipt
other_receipt = record receipt { claim_token = "z"; receipt_id = "q" }

unfoldable delivered_db : EdgeDb
delivered_db = left leased_db (mark_front_delivered receipt 5 leased_db)

delivered_ok : mark_front_delivered receipt 5 leased_db ≡ ok (delivery_recorded, delivered_db)
unfolding delivered_db mark_front_delivered valid_front_receipt valid_front find mark_row holds_text
delivered_ok = refl

other_valid : valid_front_receipt other_receipt 7 ≡ true
unfolding valid_front_receipt valid_front
other_valid = refl

-- A gap in the deliveries of the edge comes between the two receipts.
unfoldable halted_db : EdgeDb
unfolding delivered_db
halted_db = left delivered_db (require_reconciliation own 2 "gap" 6 delivered_db)

halted_ok : require_reconciliation own 2 "gap" 6 delivered_db ≡ ok (tt, halted_db)
unfolding halted_db delivered_db require_reconciliation valid_identity require_reconciliation_tx
halted_ok = refl

mark-then-mark_example :
    (row : FrontRow) × (find (has_message "cli" (message_id "cli" "a")) halted_db.front_outbox
      ≡ some row)
    × (row.delivery_receipt ≡ some "r")
    × (((row.state ≡ front_delivered)
          × (mark_front_delivered other_receipt 7 halted_db ≡ err receipt_mismatch))
        ⊎ ((row.state ≡ front_quarantined)
            × (mark_front_delivered other_receipt 7 halted_db ≡ err lost_claim)))
mark-then-mark_example =
    mark-then-mark wide clear "t" payload receipt other_receipt 5 7 leased_db delivered_db halted_db
      delivered_ok (later_step now_here (required own 2 "gap" 6 halted_ok)) refl refl other_valid
