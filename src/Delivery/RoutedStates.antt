-- ===== src/Delivery/RoutedStates.antt =====
-- The routes of the outbox rows over a history of commits.
use snagline.Prelude.{
  ℕ, suc, ◌+◌, ◌<◌, String, ◌≡◌, sym, subst, true, List, [], ◌∷◌, arith, Bytes, valid_text-nonempty,
  update_where,
}
use snagline.Tx.{ok}
use snagline.Authority.Request.{
  CommitCaseRequest, CommitAdviceRequest, validate_case, validate_advice,
}
use snagline.Authority.Tables.{CaseRow, DeliveryRow, Db}
use snagline.Authority.Sql.{next_sequence}
use snagline.Authority.Cases.{case_row, case_delivery, find_case, is_case}
use snagline.Authority.Advice.{advice_delivery}
use snagline.Authority.Outbox.{Grant, Item, lease_rows, selected, claim, is_open_id}
use snagline.Authority.Closures.{mark_published, release, holds, published, released}
use snagline.Authority.Effects.{CaseAdmitted, AdviceAdmitted}
use snagline.Authority.Moves.{
  OutboxMoves, claims, publishes, releases, leased_state, lease_rows-LeaseRound,
  OutboxMoves-OnlyOutbox,
}
use snagline.Authority.Logs.{IsGapless}
use snagline.Authority.Gapless.{History-IsGapless}
use snagline.Authority.Replay.{History-positive}
use snagline.Authority.History.{
  History, start, step, Effect, unchanged, skipped, moved, case_admitted, advice_admitted,
  head_halted, registry_admitted, classified,
}
use snagline.Delivery.Routes.{IsIssued, IsRoutedDb, older_route, older_delivery, later-All}
use snagline.Delivery.Routed.{case-IsRouted, advice-IsRouted, find-All}
use snagline.Delivery.Restated.{AllRouted, lease-AllRouted, publish-AllRouted, release-AllRouted}

module _ (next : ℕ) (cases : List CaseRow) (deliveries : List DeliveryRow) where
  lease_rows-AllRouted :
      (worker : String) (lease : ℕ) (grants : ℕ → Grant) (n : ℕ) (ids : List String) (db db' : Db)
      (items : List Item)
      → lease_rows worker lease grants n ids db ≡ ok (items, db')
      → AllRouted next cases deliveries db.outbox
      → AllRouted next cases deliveries db'.outbox
  lease_rows-AllRouted worker lease grants n [] db db' items h a =
      let same : db' ≡ db = unfold lease_rows in ground arith in rw same a
  lease_rows-AllRouted worker lease grants n (id ∷ ids) db db' items h a =
      let r = lease_rows-LeaseRound worker lease grants n id ids db db' items h in
      lease_rows-AllRouted worker lease grants (suc n) ids
        (leased_state worker lease (grants n) id db) db' r.rest r.more
        (lease-AllRouted next cases deliveries (is_open_id id) worker lease (grants n) db.outbox a)

  moves-AllRouted :
      (db db' : Db)
      → OutboxMoves db db'
      → AllRouted next cases deliveries db.outbox
      → AllRouted next cases deliveries db'.outbox
  unfolding claim mark_published release
  moves-AllRouted db db' (claims text_le locked now grants worker limit lease items h) a =
      lease_rows-AllRouted worker lease grants 0 (selected text_le locked now limit db.outbox) db
        db' items (ground arith) a
  moves-AllRouted db db' (publishes id token now h) a =
      let e : db'.outbox ≡ update_where (holds id token now) (published now) db.outbox =
        ground arith in
      rw e (publish-AllRouted next cases deliveries (holds id token now) now db.outbox a)
  moves-AllRouted db db' (releases id token retry_at reason now h) a =
      let e : db'.outbox
          ≡ update_where (holds id token now) (released now retry_at reason) db.outbox =
        ground arith in
      rw e (
        release-AllRouted next cases deliveries (holds id token now) now retry_at reason db.outbox
          a)

IsGapless-positive :
    (t e : String) (n : ℕ) (db : Db) → IsGapless db → 0 < next_sequence t e n db.sequences
IsGapless-positive t e n db g = let (k, q, log) = g.at t e n in omega (arith, q)

module _ (db db' : Db) (p : 0 < db.next_revision) (g : IsGapless db) (b : IsRoutedDb db) where
  case-IsRoutedDb :
      (r : CommitCaseRequest) → validate_case r ≡ true → CaseAdmitted r db db' → IsRoutedDb db'
  unfolding validate_case case_row
  case-IsRoutedDb r v a =
      let (sha, at, e) = a.emitted in
      let q = next_sequence r.tenant_id r.issuer_edge_id r.issuer_edge_generation db.sequences in
      let d = case_delivery r q db.next_revision in
      let c = case_row r db.next_revision in
      rw (a.written.next_revision, a.written.cases, a.written.deliveries, e.outbox)
        (record {
          rows =
              case-IsRouted sha at r db v p
                (IsGapless-positive r.tenant_id r.issuer_edge_id r.issuer_edge_generation db g)
                db.outbox
                (later-All db.next_revision (suc db.next_revision) db.cases (c ∷ db.cases)
                  db.deliveries (d ∷ db.deliveries) (omega arith)
                  (λ row kind old x.
                    older_route db.next_revision db.cases db.deliveries c d row (omega arith)
                      (omega arith) old kind x)
                  db.outbox b.rows);
          issued = (
            record {
              edge = valid_text-nonempty r.issuer_edge_id (ground arith);
              generation = ground arith;
            },
            b.issued,
          );
        })

  advice-IsRoutedDb :
      (r : CommitAdviceRequest) (target : CaseRow)
      → validate_advice r ≡ true
      → AdviceAdmitted r target db db'
      → IsRoutedDb db'
  unfolding find_case
  advice-IsRoutedDb r target v a =
      let (sha, at, e) = a.emitted in
      let q =
        next_sequence r.tenant_id target.issuer_edge_id target.issuer_edge_generation
          db.sequences in
      let d = advice_delivery r target q db.next_revision in
      rw (a.written.next_revision, a.written.cases, a.written.deliveries, e.outbox)
        (record {
          rows =
              advice-IsRouted sha at r target db v p
                (find-All IsIssued (is_case r.tenant_id r.case_id) db.cases target b.issued a.found)
                (IsGapless-positive r.tenant_id target.issuer_edge_id target.issuer_edge_generation
                  db g)
                db.outbox
                (later-All db.next_revision (suc db.next_revision) db.cases db.cases db.deliveries
                  (d ∷ db.deliveries) (omega arith)
                  (λ row kind old x.
                    older_delivery db.next_revision db.cases db.deliveries d row (omega arith) old
                      kind x)
                  db.outbox b.rows);
          issued = b.issued;
        })

  skipped-IsRoutedDb :
      (n : ℕ)
      → db'.next_revision ≡ n + db.next_revision
      → db'.cases ≡ db.cases
      → db'.deliveries ≡ db.deliveries
      → db'.outbox ≡ db.outbox
      → IsRoutedDb db'
  skipped-IsRoutedDb n m c d o =
      rw (m, c, d, o)
        (record {
          rows =
              later-All db.next_revision (n + db.next_revision) db.cases db.cases db.deliveries
                db.deliveries (omega arith) (λ row kind old r. r) db.outbox b.rows;
          issued = b.issued;
        })

  Effect-IsRoutedDb : Effect db db' → IsRoutedDb db'
  Effect-IsRoutedDb (unchanged e) = rw e b
  Effect-IsRoutedDb (skipped n e) =
      skipped-IsRoutedDb n (ground (arith, e)) (ground (arith, e)) (ground (arith, e))
        (ground (arith, e))
  Effect-IsRoutedDb (moved m) = subst IsRoutedDb (sym (OutboxMoves-OnlyOutbox db db' m)) (record {
    rows = moves-AllRouted db.next_revision db.cases db.deliveries db db' m b.rows;
    issued = b.issued;
  })
  Effect-IsRoutedDb (case_admitted now r v a) = case-IsRoutedDb r v a
  Effect-IsRoutedDb (advice_admitted now r target v a) = advice-IsRoutedDb r target v a
  Effect-IsRoutedDb (head_halted r reason e a) =
      skipped-IsRoutedDb 0 (ground (arith, a.written)) (ground (arith, a.written))
        (ground (arith, a.written)) (ground (arith, a.written))
  Effect-IsRoutedDb (registry_admitted r rows a) =
      skipped-IsRoutedDb 1 (ground (arith, a.written)) (ground (arith, a.written))
        (ground (arith, a.written)) (ground (arith, a.written))

-- In every reachable state each outbox row has an identifier, a tenant, an entity and bytes that are
-- not empty, and its route is there: a domain row has the case of its revision, whose domain is its
-- key, and an edge row has the delivery of its revision, whose edge and generation are its key.
pub History-IsRoutedDb :
    (sha : Bytes → String) (authority_id : String) (db : Db)
    → History sha authority_id db
    → IsRoutedDb db
History-IsRoutedDb sha authority_id _ start = record { rows = tt; issued = tt }
History-IsRoutedDb sha authority_id _ (step {db} {db'} h c) =
    Effect-IsRoutedDb db db' (History-positive sha authority_id db h)
      (History-IsGapless sha authority_id db h) (History-IsRoutedDb sha authority_id db h)
      (classified sha authority_id db db' c)
