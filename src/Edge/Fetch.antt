-- ===== src/Edge/Fetch.antt =====
-- AuthorityReconciler of internal/sspedge/authority_reconciler.go; `source` stands for the control
-- client, which asks the authority.
use snagline.Prelude.{
  ℕ, suc, ◌-◌, String, Bool, true, false, not, ◌&&◌, List, [], ◌∷◌, ◌==◌, eqb, leb, ltb,
  if◌then◌else◌, length, Bytes,
}
use snagline.Tx.{Result, ok, err}
use snagline.Authority.Request.{Error}
use snagline.Authority.Tables.{DeliveryRow, FactKind, case_fact, advice_fact, registry_fact}
use snagline.Authority.Reads.{EdgeDeliveryQuery, EdgeDeliveryPage}
use snagline.Delivery.Stream.{max_envelope_bytes}
use snagline.Edge.Tables.{EdgeIdentity, JournalDelivery, invalid_edge_identity}
use snagline.Edge.Validate.{valid_identity, edge_delivery_subject}
use snagline.Edge.Consumer.{ConsumerError, store_error, fetch_failed}
use snagline.Edge.Reconcile.{ReconcileBatch}

-- FamilyCase or FamilyAdvice
unfoldable pub is_fact_kind : FactKind → Bool
is_fact_kind case_fact = true
is_fact_kind advice_fact = true
is_fact_kind registry_fact = false

unfoldable pub valid_record : ℕ → DeliveryRow → Bool
valid_record expected row =
    eqb row.delivery_sequence expected
    && (is_fact_kind row.delivery_kind
        && (not (row.case_id == "")
            && (not (row.envelope_id == "")
                && (not (row.commitment == "")
                    && (not (eqb row.authority_revision 0)
                        && (not (eqb (length row.raw) 0)
                            && leb (length row.raw) max_envelope_bytes))))))

unfoldable pub valid_bounds : ℕ → ℕ → EdgeDeliveryPage → Bool
valid_bounds limit after page =
    not (ltb page.high_watermark after)
    && (not (ltb page.complete_through after)
        && (leb page.complete_through page.high_watermark
            && (leb (length page.deliveries) limit
                && eqb (length page.deliveries) (page.complete_through - after))))

abbrev pub query_of : EdgeIdentity → ℕ → ℕ → EdgeDeliveryQuery
query_of id after limit = record {
  tenant_id = id.tenant_id;
  edge_id = id.edge_id;
  principal_id = "";
  edge_generation = id.generation;
  after_sequence = after;
  limit = limit;
}

module _ (sha : Bytes → String) where
  -- No broker coordinates are made up.
  abbrev pub journal_delivery : EdgeIdentity → DeliveryRow → JournalDelivery
  journal_delivery id row = record {
    stream = "";
    sequence = 0;
    delivery_seq = row.delivery_sequence;
    tenant_id = id.tenant_id;
    edge_id = id.edge_id;
    edge_generation = id.generation;
    subject = edge_delivery_subject sha id;
    raw = row.raw;
  }

  unfoldable pub convert :
      EdgeIdentity → ℕ → List DeliveryRow → Result ConsumerError (List JournalDelivery)
  convert id expected [] = ok []
  convert id expected (row ∷ rows) = elim (convert id (suc expected) rows) [
    | err e ↦ err e
    | ok rest ↦
        if valid_record expected row then ok (journal_delivery id row ∷ rest) else err fetch_failed
  ]

  unfoldable pub batch_of :
      EdgeDeliveryPage
      → Result ConsumerError (List JournalDelivery)
      → Result ConsumerError ReconcileBatch
  batch_of page (err e) = err e
  batch_of page (ok deliveries) = ok (record {
    deliveries = deliveries;
    high_watermark = page.high_watermark;
    complete_through = page.complete_through;
  })

  unfoldable pub fetch_after :
      ℕ
      → (EdgeDeliveryQuery → Result Error EdgeDeliveryPage)
      → EdgeIdentity
      → ℕ
      → Result ConsumerError ReconcileBatch
  fetch_after limit source id after =
      if valid_identity id
      then elim (source (query_of id after limit)) [
        | err e ↦ err fetch_failed
        | ok page ↦
            if valid_bounds limit after page
            then batch_of page (convert id (suc after) page.deliveries)
            else err fetch_failed
      ]
      else err (store_error invalid_edge_identity)
