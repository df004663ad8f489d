-- ===== src/Edge/Delivered.antt =====
-- The rows of front deliveries that have a receipt, in internal/sspedge/store.go.
use snagline.Prelude.{
  ℕ, suc, String, ◌≡◌, refl, subst, sym, ◌⊎◌, inl, inr, Bool, false, ◌&&◌, some, List, [], ◌∷◌,
  arith, ◌==◌, eq_iff, if◌then◌else◌, find, find-holds, find-update_where, any, update_where,
  Bool-cases, Option-cases,
}
use snagline.Tx.{ok, Result-cases}
use snagline.Edge.Vault.{Aead, open_sealed}
use snagline.Edge.Tables.{
  ApplyOutcome, AdviceRow, FrontRow, front_delivered, front_quarantined, EdgeDb,
}
use snagline.Edge.Projection.{
  find_identity, quarantined_advice, quarantine, quarantined_front, of_envelope, claim_identity,
  message_id, front_row, is_front, insert_front,
}
use snagline.Edge.Front.{
  FrontDelivery, FrontReceipt, DeliveryOutcome, delivery_recorded, delivery_duplicate, Candidate,
  claims, claimable, leased_front, claim_candidates, has_message, has_claim, is_delivering,
  delivered_front, mark_row, mark_front_delivered,
}

module _ (front message receipt : String) where
  -- The receipt is on the row, which is delivered, or quarantined since.
  abbrev pub IsReceipted : FrontRow → Type 0
  IsReceipted row =
      (row.delivery_receipt ≡ some receipt)
      × ((row.state ≡ front_delivered) ⊎ (row.state ≡ front_quarantined))

  pub record HasReceipt (rows : List FrontRow) : Type 0 where
    pub row : FrontRow
    pub found : find (has_message front message) rows ≡ some row
    pub receipted : IsReceipted row

  pub same-HasReceipt :
      (rows rows' : List FrontRow) → rows' ≡ rows → HasReceipt rows → HasReceipt rows'
  same-HasReceipt rows rows' e h = rw e h

  -- An update that keeps the key and the receipt.
  update-HasReceipt :
      (q : FrontRow → Bool) (change : FrontRow → FrontRow)
      → ((x : FrontRow) → has_message front message (change x) ≡ has_message front message x)
      → ((x : FrontRow) → IsReceipted x → IsReceipted (if q x then change x else x))
      → (rows : List FrontRow) → HasReceipt rows
      → HasReceipt (update_where q change rows)
  update-HasReceipt q change keeps stays rows h = record {
    row = if q h.row then change h.row else h.row;
    found =
        ground (arith, find-update_where (has_message front message) q change keeps rows, h.found);
    receipted = stays h.row h.receipted;
  }

  -- No row of another test is found.
  other_row :
      (p q : FrontRow → Bool) (rows : List FrontRow) (row : FrontRow)
      → any p rows ≡ false
      → find q rows ≡ some row
      → p row ≡ false
  unfolding any find
  other_row p q [] row a h = absurd (ground arith)
  other_row p q (x ∷ rows) row a h = ground (arith, other_row p q rows row)

  pub insert_front-HasReceipt :
      (f advice_id : String) (now : ℕ) (db db' : EdgeDb) (u : Unit {0})
      → insert_front f advice_id now db ≡ ok (u, db')
      → HasReceipt db.front_outbox
      → HasReceipt db'.front_outbox
  unfolding insert_front find
  insert_front-HasReceipt f advice_id now db db' u i h =
      let has_id = λ (row : FrontRow). row.message_id == message_id f advice_id in
      elim (Bool-cases (any (is_front f advice_id) db.front_outbox)) [
        | inl e ↦ same-HasReceipt db.front_outbox db'.front_outbox (ground arith) h
        | inr e ↦ (elim (Bool-cases (any has_id db.front_outbox)) [
          | inl k ↦ absurd (ground arith)
          | inr k ↦
              let rows : db'.front_outbox ≡ front_row f advice_id now ∷ db.front_outbox =
                ground arith in
              let other =
                other_row has_id (has_message front message) db.front_outbox h.row k h.found in
              let holds = find-holds (has_message front message) db.front_outbox h.row h.found in
              subst HasReceipt (sym rows) (record {
                row = h.row;
                found = ground (
                  arith,
                  h.found,
                  other,
                  holds,
                  eq_iff h.row.message_id (message_id f advice_id),
                  eq_iff h.row.message_id message,
                  eq_iff (message_id f advice_id) message,
                );
                receipted = h.receipted;
              })
        ])
      ]

  quarantine-HasReceipt :
      (id commitment : String) (seq now : ℕ) (db : EdgeDb)
      → HasReceipt db.front_outbox
      → HasReceipt (quarantine id commitment seq now db).front_outbox
  unfolding quarantine
  quarantine-HasReceipt id commitment seq now db h =
      let q =
        of_envelope id (
          update_where (λ (row : AdviceRow). row.envelope_id == id) quarantined_advice db.advice) in
      update-HasReceipt q quarantined_front (λ x. refl)
        (λ x r. elim (Bool-cases (q x)) [ inl e ↦ rw e (r.0, inr refl) | inr e ↦ rw e r ])
        db.front_outbox h

  pub claim_identity-HasReceipt :
      (id commitment : String) (seq now : ℕ) (db db' : EdgeDb) (o : ApplyOutcome)
      → claim_identity id commitment seq now db ≡ ok (o, db')
      → HasReceipt db.front_outbox
      → HasReceipt db'.front_outbox
  unfolding claim_identity
  claim_identity-HasReceipt id commitment seq now db db' o i h =
      elim (Option-cases (find_identity id db)) [
        | inl e ↦ same-HasReceipt db.front_outbox db'.front_outbox (ground arith) h
        | inr (row, e) ↦ (elim (Bool-cases (row.commitment == commitment)) [
          | inl c ↦ same-HasReceipt db.front_outbox db'.front_outbox (ground arith) h
          | inr c ↦
              let left = quarantine id commitment seq now db in
              let e : left ≡ db' = ground arith in
              subst (λ (x : EdgeDb). HasReceipt x.front_outbox) e
                (quarantine-HasReceipt id commitment seq now db h)
        ])
      ]

  pub claim_candidates-HasReceipt :
      (aead : Aead) (tenant : String) (tokens : ℕ → String) (f owner : String) (expires now n : ℕ)
      (cs : List Candidate) (db db' : EdgeDb) (items : List FrontDelivery)
      → claim_candidates aead tenant tokens f owner expires now n cs db ≡ ok (items, db')
      → HasReceipt db.front_outbox
      → HasReceipt db'.front_outbox
  unfolding claim_candidates claims claimable leased_front
  claim_candidates-HasReceipt aead tenant tokens f owner expires now n [] db db' items i h =
      same-HasReceipt db.front_outbox db'.front_outbox (ground arith) h
  claim_candidates-HasReceipt aead tenant tokens f owner expires now n (c ∷ cs) db db' items i h =
      let q = claims f c.advice_id now in
      let change = leased_front owner expires (tokens n) in
      let claimed : EdgeDb = record db { front_outbox = update_where q change db.front_outbox } in
      let h' : HasReceipt claimed.front_outbox =
        update-HasReceipt q change (λ x. refl) (λ x r. ground (arith, r)) db.front_outbox h in
      let rest = claim_candidates aead tenant tokens f owner expires now (suc n) cs claimed in
      elim (Bool-cases (any q db.front_outbox)) [
        | inr e ↦
            claim_candidates-HasReceipt aead tenant tokens f owner expires now (suc n) cs db db'
              items (ground arith) h
        | inl e ↦
            (elim (Option-cases
              (open_sealed aead tenant "ssp_edge_advice" c.advice_id c.text_ciphertext)) [
                | inl k ↦ absurd (ground arith)
                | inr (text, k) ↦ (elim (Result-cases rest) [
                  | inr (x, l) ↦ absurd (ground arith)
                  | inl ((more, db₁), l) ↦
                      claim_candidates-HasReceipt aead tenant tokens f owner expires now (suc n) cs
                        claimed db' more (ground arith) h'
                ])
              ])
      ]

  pub mark-HasReceipt :
      (r : FrontReceipt) (now : ℕ) (db db' : EdgeDb) (o : DeliveryOutcome)
      → mark_front_delivered r now db ≡ ok (o, db')
      → HasReceipt db.front_outbox
      → HasReceipt db'.front_outbox
  unfolding mark_front_delivered mark_row delivered_front is_delivering
  mark-HasReceipt r now db db' delivery_duplicate i h =
      same-HasReceipt db.front_outbox db'.front_outbox (ground arith) h
  mark-HasReceipt r now db db' delivery_recorded i h =
      let q = λ (x : FrontRow).
        has_message r.front r.message_id x
        && (is_delivering x.state && has_claim r.claim_token x.claim_token) in
      let change = delivered_front r.receipt_id now in
      same-HasReceipt (update_where q change db.front_outbox) db'.front_outbox (ground arith)
        (update-HasReceipt q change (λ x. refl) (λ x c. ground (arith, c)) db.front_outbox h)
