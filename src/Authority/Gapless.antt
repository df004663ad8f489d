-- ===== src/Authority/Gapless.antt =====
-- allocateDeliverySequence and insertEdgeDelivery of internal/authority/postgres/store.go over a
-- history of commits.
use snagline.Prelude.{String, ◌≡◌, refl, ◌∷◌, arith, Bytes, find, select}
use snagline.Authority.Tables.{DeliveryRow, Db}
use snagline.Authority.Sql.{next_sequence, bump_sequence}
use snagline.Authority.Cases.{case_delivery}
use snagline.Authority.Advice.{advice_delivery}
use snagline.Authority.Logs.{IsGapless, append-RouteIsGapless, route_log, sequences_of, count_down}
use snagline.Authority.Moves.{OutboxMoves-OnlyOutbox}
use snagline.Authority.History.{
  empty_db, History, start, step, Effect, unchanged, skipped, moved, case_admitted, advice_admitted,
  head_halted, registry_admitted, classified,
}

same-IsGapless :
    (db db' : Db)
    → db'.sequences ≡ db.sequences
    → db'.deliveries ≡ db.deliveries
    → IsGapless db
    → IsGapless db'
same-IsGapless db db' s d g = record { at = λ t e n. rw (s, d) (g.at t e n) }

append-IsGapless :
    (row : DeliveryRow) (db db' : Db)
    → row.delivery_sequence
      ≡ next_sequence row.tenant_id row.edge_id row.edge_generation db.sequences
    → db'.sequences ≡ bump_sequence row.tenant_id row.edge_id row.edge_generation db.sequences
    → db'.deliveries ≡ row ∷ db.deliveries
    → IsGapless db
    → IsGapless db'
append-IsGapless row db db' q s d g = record {
  at = λ t e n.
      rw (s, d) (append-RouteIsGapless row db.sequences db.deliveries t e n (g.at t e n) q);
}

Effect-IsGapless : (db db' : Db) → Effect db db' → IsGapless db → IsGapless db'
Effect-IsGapless db db' (unchanged e) = same-IsGapless db db' (cc) (cc)
Effect-IsGapless db db' (skipped n e) =
    same-IsGapless db db' (ground (arith, e)) (ground (arith, e))
Effect-IsGapless db db' (moved m) =
    same-IsGapless db db' (ground (arith, OutboxMoves-OnlyOutbox db db' m))
      (ground (arith, OutboxMoves-OnlyOutbox db db' m))
Effect-IsGapless db db' (case_admitted _ r v a) =
    append-IsGapless
      (case_delivery r
        (next_sequence r.tenant_id r.issuer_edge_id r.issuer_edge_generation db.sequences)
        db.next_revision)
      db db' refl a.written.sequences a.written.deliveries
Effect-IsGapless db db' (advice_admitted _ r target v a) =
    append-IsGapless
      (advice_delivery r target
        (next_sequence r.tenant_id target.issuer_edge_id target.issuer_edge_generation db.sequences)
        db.next_revision)
      db db' refl a.written.sequences a.written.deliveries
Effect-IsGapless db db' (head_halted r reason e a) =
    same-IsGapless db db' (ground (arith, a.written)) (ground (arith, a.written))
Effect-IsGapless db db' (registry_admitted r rows a) =
    same-IsGapless db db' (ground (arith, a.written)) (ground (arith, a.written))

empty-IsGapless : IsGapless empty_db
unfolding next_sequence route_log sequences_of count_down find select
empty-IsGapless = record { at = λ t e n. (0, refl, refl) }

-- In every reachable state, each edge route's delivery log holds exactly the
-- sequences 1, 2, …, n, each once and in the order of commitment, where n + 1 is the next sequence.
pub History-IsGapless :
    (sha : Bytes → String) (authority_id : String) (db : Db)
    → History sha authority_id db
    → IsGapless db
History-IsGapless sha authority_id _ start = empty-IsGapless
History-IsGapless sha authority_id _ (step {db} {db'} h c) =
    Effect-IsGapless db db' (classified sha authority_id db db' c)
      (History-IsGapless sha authority_id db h)
