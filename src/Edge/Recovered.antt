-- ===== src/Edge/Recovered.antt =====
-- The recovery of an edge from the authority: FetchAfter of internal/sspedge/authority_reconciler.go on the
-- pages of ListEdgeDeliveries of internal/authority/postgres/store.go.
use Prim.Native.Nat.{min}
use snagline.Prelude.{
  ℕ, zero, suc, ◌+◌, ◌-◌, ◌≤◌, ◌<◌, String, ◌≡◌, refl, subst, inl, inr, Bool, true, List, [], ◌∷◌,
  arith, eq_refl, leb, length, take, select, Bytes, All, Bool-cases,
}
use snagline.Tx.{Result, ok}
use snagline.Authority.Request.{Error}
use snagline.Authority.Tables.{DeliveryRow, Db}
use snagline.Authority.History.{History}
use snagline.Authority.Logs.{route_log, sequences_of}
use snagline.Authority.Reads.{
  EdgeDeliveryQuery, EdgeDeliveryPage, insert_by_sequence, order_by_sequence, after_cursor,
  delivery_page, list_edge_deliveries,
}
use snagline.Authority.Pages.{count_up, list_edge_deliveries-IsNextStretch}
use snagline.Delivery.Stream.{max_envelope_bytes}
use snagline.Edge.Tables.{EdgeIdentity, JournalDelivery, EdgeDb}
use snagline.Edge.Validate.{valid_identity, edge_delivery_subject}
use snagline.Edge.Vault.{Aead}
use snagline.Edge.Cursor.{current_state}
use snagline.Edge.Applied.{last_seq}
use snagline.Edge.History.{StoreHistory}
use snagline.Edge.Recorded.{StoreHistory-IsContiguous}
use snagline.Edge.Consumer.{Verification, matches_identity}
use snagline.Edge.Reconcile.{
  ReconcileBatch, is_contiguous_batch, apply_batch, finish_batch, reconcile, reconcile_batch,
}
use snagline.Edge.Fetch.{
  valid_record, valid_bounds, query_of, journal_delivery, convert, batch_of, fetch_after,
}
use snagline.Edge.Records.{IsRecord, History-IsRecord}

module _ {A : Type 0} (P : A → Type 0) where
  All-select : (p : A → Bool) (xs : List A) → All P xs → All P (select p xs)
  unfolding select
  All-select p [] a = tt
  All-select p (x ∷ xs) (h, a) = elim (Bool-cases (p x)) [
    | inl e ↦ rw e (h, All-select p xs a)
    | inr e ↦ rw e (All-select p xs a)
  ]

  All-take : (n : ℕ) (xs : List A) → All P xs → All P (take n xs)
  All-take zero xs a = tt
  All-take (suc n) [] a = tt
  All-take (suc n) (x ∷ xs) (h, a) = (h, All-take n xs a)

module _ (P : DeliveryRow → Type 0) where
  All-insert :
      (row : DeliveryRow) (rows : List DeliveryRow)
      → P row
      → All P rows
      → All P (insert_by_sequence row rows)
  unfolding insert_by_sequence
  All-insert row [] h a = (h, tt)
  All-insert row (other ∷ rows) h (k, a) =
      elim (Bool-cases (leb row.delivery_sequence other.delivery_sequence)) [
        | inl e ↦ rw e (h, (k, a))
        | inr e ↦ rw e (k, All-insert row rows h a)
      ]

  All-order : (rows : List DeliveryRow) → All P rows → All P (order_by_sequence rows)
  unfolding order_by_sequence
  All-order [] a = tt
  All-order (row ∷ rows) (h, a) = All-insert row (order_by_sequence rows) h (All-order rows a)

  -- What holds of every row of the log holds of every row of a page.
  page-All :
      (q : EdgeDeliveryQuery) (db : Db) (page : EdgeDeliveryPage)
      → list_edge_deliveries q db ≡ ok page
      → All P db.deliveries
      → All P page.deliveries
  unfolding route_log after_cursor
  page-All q db page h a =
      let log = route_log q.tenant_id q.edge_id q.edge_generation db.deliveries in
      let rows = take q.limit (order_by_sequence (after_cursor q.after_sequence log)) in
      let e : rows ≡ page.deliveries = unfold list_edge_deliveries delivery_page in ground arith in
      subst (All P) e (
        All-take P q.limit (order_by_sequence (after_cursor q.after_sequence log)) (
          All-order (after_cursor q.after_sequence log)
            (All-select P _ log (All-select P _ db.deliveries a))))

-- An envelope of the size that a carrier takes.
abbrev pub IsSmall : DeliveryRow → Type 0
IsSmall row = leb (length row.raw) max_envelope_bytes ≡ true

record-valid :
    (row : DeliveryRow) (expected : ℕ)
    → row.delivery_sequence ≡ expected
    → IsRecord row
    → IsSmall row
    → valid_record expected row ≡ true
unfolding valid_record
record-valid row expected s r small = ground (arith, r)

length-count_up :
    (n after : ℕ) (rows : List DeliveryRow) → sequences_of rows ≡ count_up after n → length rows ≡ n
unfolding sequences_of count_up
length-count_up zero after [] s = refl
length-count_up zero after (row ∷ rows) s = absurd (ground arith)
length-count_up (suc n) after [] s = absurd (ground arith)
length-count_up (suc n) after (row ∷ rows) s =
    ground (arith, length-count_up n (suc after) rows (ground arith))

-- The delivery is the log's row for the edge: its number and its bytes, on the edge's subject.
pub record Restores (sha : Bytes → String) (id : EdgeIdentity) (row : DeliveryRow)
    (d : JournalDelivery) : Type 0 where
  pub sequence : d.delivery_seq ≡ row.delivery_sequence
  pub tenant : d.tenant_id ≡ id.tenant_id
  pub edge : d.edge_id ≡ id.edge_id
  pub generation : d.edge_generation ≡ id.generation
  pub subject : d.subject ≡ edge_delivery_subject sha id
  pub raw : d.raw ≡ row.raw
  pub has_raw : 0 < length d.raw

-- The deliveries are those of the rows, one by one.
abbrev pub AreRestored :
    (Bytes → String) → EdgeIdentity → List DeliveryRow → List JournalDelivery → Type 0
AreRestored sha id [] [] = Unit {0}
AreRestored sha id [] (d ∷ ds) = ⊥
AreRestored sha id (row ∷ rows) [] = ⊥
AreRestored sha id (row ∷ rows) (d ∷ ds) = Restores sha id row d × AreRestored sha id rows ds

-- What a page makes of a stretch of the log.
record Converted (sha : Bytes → String) (id : EdgeIdentity) (after n : ℕ) (rows : List DeliveryRow)
    (ds : List JournalDelivery) : Type 0 where
  pub contiguous : is_contiguous_batch id (suc after) ds ≡ true
  pub size : length ds ≡ n
  pub restored : AreRestored sha id rows ds

module _ (sha : Bytes → String) (id : EdgeIdentity) where
  own_identity : (row : DeliveryRow) → matches_identity id (journal_delivery sha id row) ≡ true
  unfolding matches_identity
  own_identity row = ground (arith, eq_refl id.tenant_id, eq_refl id.edge_id)

  own_row : (row : DeliveryRow) → IsRecord row → Restores sha id row (journal_delivery sha id row)
  own_row row r = record {
    sequence = refl;
    tenant = refl;
    edge = refl;
    generation = refl;
    subject = refl;
    raw = refl;
    has_raw = ground (arith, r.has_raw);
  }

  convert-Converted :
      (n after : ℕ) (rows : List DeliveryRow)
      → sequences_of rows ≡ count_up after n
      → All IsRecord rows
      → All IsSmall rows
      → (ds : List JournalDelivery) × (convert sha id (suc after) rows ≡ ok ds)
        × Converted sha id after n rows ds
  unfolding convert sequences_of count_up is_contiguous_batch
  convert-Converted zero after [] s r m =
      ([], refl, record { contiguous = refl; size = refl; restored = tt })
  convert-Converted zero after (row ∷ rows) s r m = absurd (ground arith)
  convert-Converted (suc n) after [] s r m = absurd (ground arith)
  convert-Converted (suc n) after (row ∷ rows) s (r, rs) (m, ms) =
      let (ds, e, c) = convert-Converted n (suc after) rows (ground arith) rs ms in
      let v = record-valid row (suc after) (ground arith) r m in
      (
        journal_delivery sha id row ∷ ds,
        ground (arith, e, v),
        record {
          contiguous = ground (arith, own_identity row, c, s);
          size = ground (arith, c);
          restored = (own_row row r, c.restored);
        },
      )

module _ (sha : Bytes → String) (authority_id principal : String) (adb : Db) where
  -- The control client: it asks for the principal that it has authenticated as.
  abbrev pub authority_source : EdgeDeliveryQuery → Result Error EdgeDeliveryPage
  authority_source q = list_edge_deliveries (record q { principal_id = principal }) adb

  module _ (aead : Aead) (tenant : String) (payload : String → String → Bytes)
      (verify : JournalDelivery → Verification) (nonces : ℕ → Bytes) (id : EdgeIdentity)
      (limit now : ℕ) (page : EdgeDeliveryPage) (edb : EdgeDb) where
    -- The page has come to the edge: its rows are the deliveries of the batch, which passes every
    -- check of FetchAfter and of Reconcile, so that Reconcile goes on to apply it.
    pub record Recovers : Type 0 where
      pub batch : ReconcileBatch
      pub fetched : fetch_after sha limit authority_source id (last_seq id edb) ≡ ok batch
      pub restored : AreRestored sha id page.deliveries batch.deliveries
      pub watermark : batch.high_watermark ≡ page.high_watermark
      pub through : batch.complete_through ≡ last_seq id edb + length batch.deliveries
      pub reconciled :
          reconcile sha aead tenant payload verify id
            (fetch_after sha limit authority_source)
            nonces
            true
            now
            edb
          ≡ finish_batch sha aead tenant payload verify id batch now
              (apply_batch sha aead tenant payload verify id nonces batch.deliveries 0 now edb)

    -- In reachable states of the authority, whose delivered envelopes are at most 65536 bytes, and of
    -- the edge's store, for a valid edge identity: when ListEdgeDeliveries answers the edge's cursor
    -- with a page whose watermark is not below the one that the store has recorded, FetchAfter takes
    -- the page and each delivery of its batch has the number and the bytes of the page's row, on the
    -- edge's subject and identity; and Reconcile of a halted consumer with this FetchAfter passes all
    -- of its checks on the bounds, the range and the order of the batch: its result is that of
    -- applying the batch's deliveries and finishing.
    pub fetch_after-Recovers :
        History sha authority_id adb
        → All IsSmall adb.deliveries
        → StoreHistory sha aead tenant payload edb
        → valid_identity id ≡ true
        → authority_source (query_of id (last_seq id edb) limit) ≡ ok page
        → (current_state id edb).high_watermark ≤ page.high_watermark
        → Recovers
    unfolding fetch_after valid_bounds batch_of reconcile reconcile_batch last_seq
    fetch_after-Recovers past small stored valid asked above =
        let after = last_seq id edb in
        let here = (StoreHistory-IsContiguous sha aead tenant payload edb stored).at id in
        let q : EdgeDeliveryQuery = record (query_of id after limit) { principal_id = principal } in
        let n = min limit (page.high_watermark - after) in
        let (next, sequences, through) =
          list_edge_deliveries-IsNextStretch sha authority_id adb q page past asked in
        let (ds, e, c) =
          convert-Converted sha id n after page.deliveries sequences
            (page-All IsRecord q adb page asked (History-IsRecord sha authority_id adb past))
            (page-All IsSmall q adb page asked small) in
        let size = length-count_up n after page.deliveries sequences in
        let batch : ReconcileBatch = record {
          deliveries = ds;
          high_watermark = page.high_watermark;
          complete_through = page.complete_through;
        } in
        let fetched : fetch_after sha limit authority_source id after ≡ ok batch =
          ground (arith, e, size, through, here.bounded) in
        record {
          batch = batch;
          fetched = fetched;
          restored = c.restored;
          watermark = refl;
          through = ground (arith, c.size, through, here.bounded);
          reconciled = ground (arith, fetched, c.contiguous, c.size, through, here.bounded);
        }
