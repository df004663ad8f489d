-- ===== src/Edge/Resumed.antt =====
-- The ends of a reconciliation: Reconcile of internal/sspedge/consumer.go.
use snagline.Prelude.{
  ℕ, suc, ◌+◌, String, ◌≡◌, ◌≤◌, refl, sym, subst, inl, inr, Bool, true, false, some, List, [], ◌∷◌,
  arith, eq_iff, eqb, length, Bytes, any-find, Bool-cases, Option-cases, any, find, update_where,
}
use snagline.Tx.{Result, ok, Result-cases}
use snagline.Edge.Vault.{Aead}
use snagline.Edge.Tables.{
  ApplyOutcome, active, reconciliation_required, EdgeIdentity, JournalDelivery, EdgeDb, identity_of,
  is_delivery, is_state,
}
use snagline.Edge.Cursor.{
  max, current_state, complete_reconciliation, completes, is_required, delivery_state_row,
  new_state, resumed_row,
}
use snagline.Edge.Validate.{valid_identity}
use snagline.Edge.States.{current-completed, current-is_state}
use snagline.Edge.Apply.{find_delivery, apply_verified}
use snagline.Edge.Applied.{last_seq}
use snagline.Edge.Consumer.{
  Verification, ConsumerError, Run, matches_identity, is_halting, apply, verdict_on, stored,
}
use snagline.Edge.Recorded.{IsContiguous, next-fresh, StoreHistory-IsContiguous}
use snagline.Edge.CursorMoves.{
  CursorMove, replays, conflicts, gaps, advances, apply_verified-CursorMove,
}
use snagline.Edge.History.{StoreHistory, then_step, applied}
use snagline.Edge.Reconcile.{
  ReconcileBatch, ReconcileResult, is_contiguous_batch, apply_batch, ended, finish_batch,
  reconcile_batch, reconcile,
}

pub matches_identity-eq :
    (id : EdgeIdentity) (d : JournalDelivery) → matches_identity id d ≡ true → identity_of d ≡ id
unfolding matches_identity
matches_identity-eq id d h =
    ground (arith, eq_iff d.tenant_id id.tenant_id, eq_iff d.edge_id id.edge_id)

pub any-found :
    {A : Type 0} (p q : A → Bool) (xs : List A) (x : A)
    → find p xs ≡ some x
    → q x ≡ true
    → any q xs ≡ true
unfolding find any
any-found p q [] x h k = absurd (ground arith)
any-found p q (y ∷ xs) x h k = ground (arith, any-found p q xs x)

complete-current :
    (id : EdgeIdentity) (high : ℕ) (db : EdgeDb)
    → (current_state id db).mode ≡ reconciliation_required
    → last_seq id db ≡ high
    → (current_state id db).high_watermark ≡ high
    → completes id high high (current_state id db) ≡ true
unfolding last_seq completes is_required
complete-current id high db mode last at_high = ground (arith, current-is_state id db)

complete-any :
    (id : EdgeIdentity) (high : ℕ) (db : EdgeDb)
    → (current_state id db).mode ≡ reconciliation_required
    → last_seq id db ≡ high
    → (current_state id db).high_watermark ≡ high
    → any (completes id high high) db.states ≡ true
unfolding current_state delivery_state_row
complete-any id high db mode last at_high =
    let c = complete-current id high db mode last at_high in
    elim (Option-cases (find (is_state id) db.states)) [
      | inl e ↦ absurd (unfold new_state in ground arith)
      | inr (row, e) ↦
          any-found (is_state id) (completes id high high) db.states row e (ground (arith, c))
    ]

-- A reconciliation is complete when the row is at its watermark; the generation is then active.
complete-active :
    (id : EdgeIdentity) (high now : ℕ) (db : EdgeDb)
    → valid_identity id ≡ true
    → eqb now 0 ≡ false
    → (current_state id db).mode ≡ reconciliation_required
    → last_seq id db ≡ high
    → (current_state id db).high_watermark ≡ high
    → (db' : EdgeDb) × (complete_reconciliation id high high now db ≡ ok (tt, db'))
      × (last_seq id db' ≡ high)
      × ((current_state id db').high_watermark ≡ high)
      × ((current_state id db').mode ≡ active)
unfolding last_seq
complete-active id high now db valid time mode last at_high =
    let any_row : any (completes id high high) db.states ≡ true =
      complete-any id high db mode last at_high in
    let db' : EdgeDb = record db {
      states = update_where (completes id high high) (resumed_row now) db.states;
    } in
    let call : complete_reconciliation id high high now db ≡ ok (tt, db') =
      unfold complete_reconciliation in ground arith in
    let e = current-completed id high high now db db' id call in
    let c = complete-current id high db mode last at_high in
    (
      db',
      call,
      unfold resumed_row in ground (arith, e, c),
      unfold resumed_row in ground (arith, e, c),
      unfold resumed_row in ground (arith, e, c),
    )

-- The call returns a resumed result, and its store's cursor is active at the batch's watermark.
pub record HasResumed (id : EdgeIdentity) (batch : ReconcileBatch) (run : Run ReconcileResult)
    : Type 0 where
  pub halted : run.halted ≡ false
  pub mode : (current_state id run.db).mode ≡ active
  pub last : last_seq id run.db ≡ batch.high_watermark
  pub high : (current_state id run.db).high_watermark ≡ batch.high_watermark

module _ (sha : Bytes → String) (aead : Aead) (tenant : String)
    (payload : String → String → Bytes) where
  -- The cursor has moved from `db` to `db'` through `n` deliveries, in its mode.
  pub record Advanced (id : EdgeIdentity) (n : ℕ) (db db' : EdgeDb) : Type 0 where
    pub past : StoreHistory sha aead tenant payload db'
    pub last : last_seq id db' ≡ last_seq id db + n
    pub mode : (current_state id db').mode ≡ (current_state id db).mode
    pub high :
        (current_state id db').high_watermark
        ≡ max (current_state id db).high_watermark (last_seq id db')

  move-Advanced :
      (now : ℕ) (d : JournalDelivery) (db db' : EdgeDb) (o : ApplyOutcome)
      → IsContiguous db
      → StoreHistory sha aead tenant payload db'
      → d.delivery_seq ≡ suc (last_seq (identity_of d) db)
      → is_halting o ≡ false
      → CursorMove sha d now db db' o
      → Advanced (identity_of d) 1 db db'
  move-Advanced now d db db' o c past next quiet (replays row f g k e x) = absurd (
      ground (
        arith,
        next-fresh d db c next,
        any-find (is_delivery (identity_of d) d.delivery_seq) db.deliveries row
            (unfold find_delivery in f),
      ))
  move-Advanced now d db db' o c past next quiet (conflicts row f k b x h) = absurd (ground arith)
  move-Advanced now d db db' o c past next quiet (gaps b e x h) = absurd (ground arith)
  move-Advanced now d db db' o c past next quiet (advances v reason p n l m g e) = record {
    past = past;
    last = ground arith;
    mode = m;
    high = ground arith;
  }

  no-Advanced :
      (id : EdgeIdentity) (db : EdgeDb)
      → StoreHistory sha aead tenant payload db
      → Advanced id 0 db db
  unfolding max
  no-Advanced id db past = record {
    past = past;
    last = ground arith;
    mode = refl;
    high =
        ground (arith, ((StoreHistory-IsContiguous sha aead tenant payload db past).at id).bounded);
  }

  then-Advanced :
      (id : EdgeIdentity) (n : ℕ) (a b c : EdgeDb)
      → Advanced id 1 a b
      → Advanced id n b c
      → Advanced id (suc n) a c
  unfolding max
  then-Advanced id n a b c first rest = record {
    past = rest.past;
    last = ground (arith, first, rest);
    mode = ground (arith, first, rest);
    high = ground (arith, first, rest);
  }

  module _ (verify : JournalDelivery → Verification) (identity : EdgeIdentity) where
    -- An outcome of `apply` is one of the store's: the state is reached, by a move of the cursor.
    pub record Called (now : ℕ) (d : JournalDelivery) (db db' : EdgeDb) (o : ApplyOutcome)
        : Type 0 where
      pub past : StoreHistory sha aead tenant payload db'
      pub move : CursorMove sha d now db db' o

    pub apply-Called :
        (reconciling : Bool) (nonce : Bytes) (now : ℕ) (d : JournalDelivery) (db db' : EdgeDb)
        (o : ApplyOutcome)
        → StoreHistory sha aead tenant payload db
        → apply sha aead tenant payload verify identity reconciling nonce d now db ≡ ok (o, db')
        → Called now d db db' o
    unfolding apply stored
    apply-Called reconciling nonce now d db db' o past h =
        elim (Result-cases (verdict_on sha aead tenant payload verify identity d)) [
          | inr (x, k) ↦ absurd (ground arith)
          | inl ((v, reason, p), k) ↦
              let call : apply_verified sha aead tenant payload nonce reconciling d v reason p now
                    db
                  ≡ ok (o, db') =
                ground arith in
              record {
                past = then_step past (applied nonce reconciling d v reason p now o call);
                move =
                    apply_verified-CursorMove sha aead tenant payload db db' nonce reconciling d v
                      reason p now o past call;
              }
        ]

    apply-Advanced :
        (nonce : Bytes) (now : ℕ) (d : JournalDelivery) (db db' : EdgeDb) (o : ApplyOutcome)
        → StoreHistory sha aead tenant payload db
        → matches_identity identity d ≡ true
        → d.delivery_seq ≡ suc (last_seq identity db)
        → apply sha aead tenant payload verify identity true nonce d now db ≡ ok (o, db')
        → is_halting o ≡ false
        → Advanced identity 1 db db'
    apply-Advanced nonce now d db db' o past m next h quiet =
        let e = matches_identity-eq identity d m in
        let called = apply-Called true nonce now d db db' o past h in
        subst (λ i. Advanced i 1 db db') e
          (move-Advanced now d db db' o (StoreHistory-IsContiguous sha aead tenant payload db past)
            called.past (ground (arith, e)) quiet called.move)

    pub apply_batch-Advanced :
        (nonces : ℕ → Bytes) (ds : List JournalDelivery) (n now : ℕ) (db db' : EdgeDb) (m : ℕ)
        → StoreHistory sha aead tenant payload db
        → is_contiguous_batch identity (suc (last_seq identity db)) ds ≡ true
        → apply_batch sha aead tenant payload verify identity nonces ds n now db ≡ (ok m, db')
        → Advanced identity (length ds) db db'
    unfolding apply_batch is_contiguous_batch
    apply_batch-Advanced nonces [] n now db db' m past c h =
        let e : db ≡ db' = ground arith in
        subst (λ x. Advanced identity 0 db x) e (no-Advanced identity db past)
    apply_batch-Advanced nonces (d ∷ ds) n now db db' m past c h =
        elim (Result-cases
          (apply sha aead tenant payload verify identity true (nonces n) d now db)) [
            | inr (x, k) ↦ absurd (ground arith)
            | inl ((o, db₁), k) ↦ (elim (Bool-cases (is_halting o)) [
              | inl q ↦ absurd (ground arith)
              | inr q ↦
                  let first =
                    apply-Advanced (nonces n) now d db db₁ o past (ground arith) (ground arith) k
                      q in
                  let rest =
                    apply_batch-Advanced nonces ds (suc n) now db₁ db' m first.past
                      (ground (arith, first)) (ground arith) in
                  then-Advanced identity (length ds) db db₁ db' first rest
            ])
          ]

    -- From any reachable state in reconciliation, a Reconcile of a valid identity resumes the
    -- consumer when the batch it fetches is contiguous from the cursor through the authority's high
    -- watermark, that watermark is not below the cursor's own, the clock is not zero and every
    -- delivery is applied without an error or a halt: the cursor is then active, at the
    -- authority's high watermark.
    pub reconcile-resumes :
        (fetch : EdgeIdentity → ℕ → Result ConsumerError ReconcileBatch) (nonces : ℕ → Bytes)
        (batch : ReconcileBatch) (now : ℕ) (db db₁ : EdgeDb) (n : ℕ)
        → StoreHistory sha aead tenant payload db
        → valid_identity identity ≡ true
        → eqb now 0 ≡ false
        → (current_state identity db).mode ≡ reconciliation_required
        → fetch identity (last_seq identity db) ≡ ok batch
        → is_contiguous_batch identity (suc (last_seq identity db)) batch.deliveries ≡ true
        → last_seq identity db + length batch.deliveries ≡ batch.complete_through
        → batch.complete_through ≡ batch.high_watermark
        → (current_state identity db).high_watermark ≤ batch.high_watermark
        → apply_batch sha aead tenant payload verify identity nonces batch.deliveries 0 now db
          ≡ (ok n, db₁)
        → HasResumed identity batch
            (reconcile sha aead tenant payload verify identity fetch nonces true now db)
    unfolding reconcile reconcile_batch finish_batch ended last_seq
    reconcile-resumes fetch nonces batch now db db₁ n past valid time mode fetched contiguous range
          complete high h =
        let advanced =
          apply_batch-Advanced nonces batch.deliveries 0 now db db₁ n past contiguous h in
        let at_high : (current_state identity db₁).high_watermark ≡ batch.high_watermark =
          unfold max in ground (arith, advanced) in
        let (db', call, last', high', mode') =
          complete-active identity batch.high_watermark now db₁ valid time
            (ground (arith, advanced)) (ground (arith, advanced)) at_high in
        let run : Run ReconcileResult = record {
          db = db';
          halted = false;
          returned = ok (record {
            applied = n;
            high_watermark = batch.high_watermark;
            complete_through = batch.complete_through;
            resumed = true;
          });
        } in
        let e : reconcile sha aead tenant payload verify identity fetch nonces true now db ≡ run =
          ground (arith, advanced, call) in
        subst (HasResumed identity batch) (sym e)
          (record { halted = refl; mode = mode'; last = last'; high = high' })
