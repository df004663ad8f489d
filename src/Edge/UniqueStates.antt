-- ===== src/Edge/UniqueStates.antt =====
-- The primary key of ssp_edge_delivery_state under the operations of internal/sspedge/store.go.
use snagline.Prelude.{
  ℕ, suc, String, ◌≡◌, ◌≤◌, refl, inl, inr, Bool, true, false, ◌&&◌, none, some, List, [], ◌∷◌,
  arith, eqb, if◌then◌else◌, find, any, update_where, Option-cases, Bytes,
}
use snagline.Tx.{ok}
use snagline.Edge.Vault.{Aead}
use snagline.Edge.Tables.{
  ApplyOutcome, EdgeIdentity, JournalDelivery, StateRow, EdgeDb, identity_of, is_state,
  reconciliation_required,
}
use snagline.Edge.Cursor.{
  max, current_state, upsert_state, halted_row, advanced_row, resumed_row, first_row, completes,
  require_reconciliation, require_reconciliation_tx, complete_reconciliation,
}
use snagline.Edge.Applied.{
  Applied, replayed, caught_up, halted, recorded, advanced_states, apply_verified-Applied,
}
use snagline.Edge.States.{
  KeepsKey, same_id, is_state-same, same_id-is_state, same_id-eq, current-is_state, halted-KeepsKey,
  resumed-KeepsKey, advanced-KeepsKey, first-is_state,
}
use snagline.Edge.FrontEffects.{claim-OnlyFront, mark-OnlyFront}
use snagline.Edge.History.{
  StoreStep, applied, required, completed, claimed, marked, StoreHistory, opened, then_step,
}

unfoldable pub count : {A : Type 0} → (A → Bool) → List A → ℕ
count p [] = 0
count p (x ∷ xs) = let rest = count p xs in if p x then suc rest else rest

count-update_where :
    {A : Type 0} (p q : A → Bool) (change : A → A)
    → ((x : A) → p (change x) ≡ p x)
    → (xs : List A) → count p (update_where q change xs) ≡ count p xs
unfolding count update_where
count-update_where p q change keeps [] = refl
count-update_where p q change keeps (x ∷ xs) =
    ground (arith, count-update_where p q change keeps xs, keeps x)

pub find-count : {A : Type 0} (p : A → Bool) (xs : List A) → find p xs ≡ none → count p xs ≡ 0
unfolding count find
find-count p [] h = refl
find-count p (x ∷ xs) h = ground (arith, find-count p xs)

pub zero-any :
    {A : Type 0} (p q : A → Bool) (xs : List A) → count p xs ≡ 0 → any (λ y. p y && q y) xs ≡ false
unfolding count any
zero-any p q [] c = refl
zero-any p q (y ∷ xs) c = ground (arith, zero-any p q xs)

-- The only row with a key decides a test on the rows with that key.
pub only-any :
    {A : Type 0} (p q : A → Bool) (xs : List A) (x : A)
    → count p xs ≤ 1
    → find p xs ≡ some x
    → any (λ y. p y && q y) xs ≡ true
    → q x ≡ true
unfolding count find any
only-any p q [] x c f h = absurd (ground arith)
only-any p q (y ∷ xs) x c f h = ground (arith, only-any p q xs x, zero-any p q xs)

-- Each generation has at most one row.
pub record HasUniqueStates (db : EdgeDb) : Type 0 where
  pub at : (id : EdgeIdentity) → count (is_state id) db.states ≤ 1

module _ (a : EdgeIdentity) (change : StateRow → StateRow) (new : StateRow)
    (keeps : KeepsKey change) (own : is_state a new ≡ true) (b : EdgeIdentity) where
  count-upsert_state :
      (rows : List StateRow)
      → count (is_state b) (upsert_state a new change rows)
        ≡ (if same_id a b && eqb (count (is_state b) rows) 0 then 1 else count (is_state b) rows)
  unfolding count upsert_state
  count-upsert_state [] = ground (arith, is_state-same a b new own)
  count-upsert_state (row ∷ rows) =
      ground (
        arith,
        count-upsert_state rows,
        keeps b row,
        is_state-same a b row,
        same_id-is_state a b row,
      )

same-HasUniqueStates :
    (db db' : EdgeDb) → db'.states ≡ db.states → HasUniqueStates db → HasUniqueStates db'
same-HasUniqueStates db db' e u = record { at = λ id. rw e (u.at id) }

halt-HasUniqueStates :
    (a : EdgeIdentity) (observed : ℕ) (reason : String) (now : ℕ) (db db' : EdgeDb)
    → require_reconciliation_tx a observed reason now db ≡ ok (tt, db')
    → HasUniqueStates db
    → HasUniqueStates db'
unfolding require_reconciliation_tx
halt-HasUniqueStates a observed reason now db db' h u =
    let high = max (current_state a db).high_watermark observed in
    let new : StateRow = record (current_state a db) {
      high_watermark = high;
      mode = reconciliation_required;
      reason = reason;
      updated_at = now;
    } in
    record {
      at = λ id. ground (
        arith,
        count-upsert_state a (halted_row high reason now) new (halted-KeepsKey high reason now)
            (current-is_state a db) id db.states,
        u.at id,
      );
    }

advanced-HasUniqueStates :
    (a : EdgeIdentity) (seq now : ℕ) (db db' : EdgeDb)
    → db'.states ≡ advanced_states a seq now db.states
    → HasUniqueStates db
    → HasUniqueStates db'
unfolding advanced_states count
advanced-HasUniqueStates a seq now db db' e u = record {
  at = λ id. elim (Option-cases (find (is_state a) db.states)) [
    | inl f ↦ ground (
      arith,
      u.at id,
      find-count (is_state a) db.states f,
      first-is_state a seq now,
      is_state-same a id (first_row a seq now),
      same_id-eq a id,
    )
    | inr (row, f) ↦ ground (
      arith,
      u.at id,
      count-update_where (is_state id) (is_state a) (advanced_row seq now)
          (advanced-KeepsKey seq now id) db.states,
    )
  ];
}

completed-HasUniqueStates :
    (a : EdgeIdentity) (through high now : ℕ) (db db' : EdgeDb)
    → complete_reconciliation a through high now db ≡ ok (tt, db')
    → HasUniqueStates db
    → HasUniqueStates db'
unfolding complete_reconciliation
completed-HasUniqueStates a through high now db db' h u = record {
  at = λ id. ground (
    arith,
    u.at id,
    count-update_where (is_state id) (completes a through high) (resumed_row now)
        (resumed-KeepsKey now id) db.states,
  );
}

Applied-HasUniqueStates :
    (sha : Bytes → String) (d : JournalDelivery) (now : ℕ) (db db' : EdgeDb) (o : ApplyOutcome)
    → Applied sha d now db db' o
    → HasUniqueStates db
    → HasUniqueStates db'
Applied-HasUniqueStates sha d now db db' o (replayed row f g e x) u =
    same-HasUniqueStates db db' (ground (arith, e)) u
Applied-HasUniqueStates sha d now db db' o (caught_up row f next e x) u =
    advanced-HasUniqueStates (identity_of d) d.delivery_seq now db db' (ground (arith, e)) u
Applied-HasUniqueStates sha d now db db' o (halted reason is_halt h) u =
    halt-HasUniqueStates (identity_of d) d.delivery_seq reason now db db' h u
Applied-HasUniqueStates sha d now db db' o (recorded j p mid g k front next fresh e s x) u =
    advanced-HasUniqueStates (identity_of d) d.delivery_seq now db db' s u

module _ (sha : Bytes → String) (aead : Aead) (tenant : String)
    (payload : String → String → Bytes) where
  step-HasUniqueStates :
      (db db' : EdgeDb)
      → StoreStep sha aead tenant payload db db'
      → HasUniqueStates db
      → HasUniqueStates db'
  step-HasUniqueStates db db' (applied nonce rec d v reason p now o h) u =
      Applied-HasUniqueStates sha d now db db' o
        (apply_verified-Applied sha d now db db' o aead tenant payload nonce rec v reason p h) u
  step-HasUniqueStates db db' (required id observed reason now h) u =
      halt-HasUniqueStates id observed reason now db db'
        (unfold require_reconciliation in ground arith) u
  step-HasUniqueStates db db' (completed id through high now h) u =
      completed-HasUniqueStates id through high now db db' h u
  step-HasUniqueStates db db' (claimed tokens front owner ttl limit now items h) u =
      same-HasUniqueStates db db'
        (ground
          (arith, claim-OnlyFront aead tenant tokens front owner ttl limit now db db' items h))
        u
  step-HasUniqueStates db db' (marked r now o h) u =
      same-HasUniqueStates db db' (ground (arith, mark-OnlyFront r now db db' o h)) u

  pub StoreHistory-HasUniqueStates :
      (db : EdgeDb) → StoreHistory sha aead tenant payload db → HasUniqueStates db
  unfolding count
  StoreHistory-HasUniqueStates _ opened = record { at = λ id. omega arith }
  StoreHistory-HasUniqueStates _ (then_step {db} {db'} h step) =
      step-HasUniqueStates db db' step (StoreHistory-HasUniqueStates db h)
