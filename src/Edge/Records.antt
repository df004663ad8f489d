-- ===== src/Edge/Records.antt =====
-- The rows of the delivery log of internal/authority/postgres/store.go, as the edge's recovery
-- of internal/sspedge/authority_reconciler.go reads them.
use snagline.Prelude.{
  ℕ, ◌<◌, String, ◌≡◌, refl, subst, inl, inr, true, false, arith, ◌==◌, eq_iff, eqb, length, Bytes,
  All, Bool-cases, valid_text-nonempty, valid_commitment,
}
use snagline.Authority.Request.{
  CommitCaseRequest, CommitAdviceRequest, validate_case, validate_advice,
}
use snagline.Authority.Tables.{DeliveryRow, Db, CaseRow}
use snagline.Authority.Cases.{case_delivery}
use snagline.Authority.Advice.{advice_delivery}
use snagline.Authority.Replay.{History-positive}
use snagline.Authority.Moves.{OutboxMoves-OnlyOutbox}
use snagline.Authority.History.{
  History, start, step, Effect, unchanged, skipped, moved, case_admitted, advice_admitted,
  head_halted, registry_admitted, classified,
}
use snagline.Edge.Fetch.{is_fact_kind}

blank_commitment : valid_commitment "" ≡ false
unfolding valid_commitment
blank_commitment = refl

valid_commitment-nonempty : (value : String) → valid_commitment value ≡ true → (value == "") ≡ false
valid_commitment-nonempty value h = elim (Bool-cases (value == "")) [
  | inr e ↦ e
  | inl e ↦
      absurd
        (cc (subst (λ s. valid_commitment s ≡ true) ((eq_iff value "").0 e) h, blank_commitment))
]

-- A row that the recovery takes, its sequence and its size aside.
pub record IsRecord (row : DeliveryRow) : Type 0 where
  pub kind : is_fact_kind row.delivery_kind ≡ true
  pub has_case : (row.case_id == "") ≡ false
  pub has_envelope : (row.envelope_id == "") ≡ false
  pub has_commitment : (row.commitment == "") ≡ false
  pub has_revision : eqb row.authority_revision 0 ≡ false
  pub has_raw : eqb (length row.raw) 0 ≡ false

case-IsRecord :
    (r : CommitCaseRequest) (sequence revision : ℕ)
    → validate_case r ≡ true
    → 0 < revision
    → IsRecord (case_delivery r sequence revision)
unfolding validate_case is_fact_kind
case-IsRecord r sequence revision v p = record {
  kind = refl;
  has_case = valid_text-nonempty r.case_id (ground arith);
  has_envelope = valid_text-nonempty r.envelope_id (ground arith);
  has_commitment = valid_commitment-nonempty r.commitment (ground arith);
  has_revision = ground arith;
  has_raw = ground arith;
}

advice-IsRecord :
    (r : CommitAdviceRequest) (target : CaseRow) (sequence revision : ℕ)
    → validate_advice r ≡ true
    → 0 < revision
    → IsRecord (advice_delivery r target sequence revision)
unfolding validate_advice is_fact_kind
advice-IsRecord r target sequence revision v p = record {
  kind = refl;
  has_case = valid_text-nonempty r.case_id (ground arith);
  has_envelope = valid_text-nonempty r.envelope_id (ground arith);
  has_commitment = valid_commitment-nonempty r.commitment (ground arith);
  has_revision = ground arith;
  has_raw = ground arith;
}

same-All :
    (db db' : Db)
    → db'.deliveries ≡ db.deliveries
    → All IsRecord db.deliveries
    → All IsRecord db'.deliveries
same-All db db' e a = rw e a

Effect-IsRecord :
    (db db' : Db)
    → 0 < db.next_revision
    → Effect db db'
    → All IsRecord db.deliveries
    → All IsRecord db'.deliveries
Effect-IsRecord db db' p (unchanged e) a = same-All db db' (cc) a
Effect-IsRecord db db' p (skipped n e) a = same-All db db' (ground (arith, e)) a
Effect-IsRecord db db' p (moved m) a =
    same-All db db' (ground (arith, OutboxMoves-OnlyOutbox db db' m)) a
Effect-IsRecord db db' p (case_admitted now r v c) a =
    rw c.written.deliveries (case-IsRecord r _ db.next_revision v p, a)
Effect-IsRecord db db' p (advice_admitted now r target v c) a =
    rw c.written.deliveries (advice-IsRecord r target _ db.next_revision v p, a)
Effect-IsRecord db db' p (head_halted r reason e c) a =
    same-All db db' (ground (arith, c.written)) a
Effect-IsRecord db db' p (registry_admitted r rows c) a =
    same-All db db' (ground (arith, c.written)) a

pub History-IsRecord :
    (sha : Bytes → String) (authority_id : String) (db : Db)
    → History sha authority_id db
    → All IsRecord db.deliveries
History-IsRecord sha authority_id _ start = tt
History-IsRecord sha authority_id _ (step {db} {db'} h c) =
    Effect-IsRecord db db' (History-positive sha authority_id db h)
      (classified sha authority_id db db' c) (History-IsRecord sha authority_id db h)
