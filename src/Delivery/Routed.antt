-- ===== src/Delivery/Routed.antt =====
-- The routes of the outbox rows that the commits of cases and advice insert.
use Prim.Native.String.append
use snagline.Prelude.{
  ℕ, suc, ◌<◌, String, ◌≡◌, refl, inl, inr, Bool, true, false, some, List, [], ◌∷◌, arith, ◌==◌,
  eq_iff, eq_refl, find, All, Bool-cases, Bytes, valid_text-nonempty, subst, ap,
}
use snagline.Authority.Request.{
  CommitCaseRequest, CommitAdviceRequest, validate_case, validate_advice,
}
use snagline.Authority.Tables.{CaseRow, OutboxRow, Db, case_fact, advice_fact}
use snagline.Authority.Sql.{outbox_row, deterministic_outbox_id, next_sequence, outbox_id_bytes}
use snagline.Authority.Cases.{case_row, case_delivery}
use snagline.Authority.Advice.{advice_delivery}
use snagline.Authority.Emitted.{outbox_after, case_destinations, advice_destinations}
use snagline.Delivery.Routes.{IsRouted, IsIssued}

abbrev is_cons : String → Bool
is_cons String.[] = false
is_cons (String.◌∷◌ c s) = true

named_id :
    (sha : Bytes → String) (parts : List Bytes) → (deterministic_outbox_id sha parts == "") ≡ false
unfolding deterministic_outbox_id
named_id sha parts = elim (Bool-cases (deterministic_outbox_id sha parts == "")) [
  | inr e ↦ e
  | inl e ↦ absurd (
      cc (
        ap is_cons (append.cons "s" "ha256:" (sha (outbox_id_bytes parts))),
        ap is_cons ((eq_iff (deterministic_outbox_id sha parts) "").0 e),
      ))
]

-- The new rows of a case.
pub case-IsRouted :
    (sha : Bytes → String) (now : ℕ) (r : CommitCaseRequest) (db : Db)
    → validate_case r ≡ true
    → 0 < db.next_revision
    → 0 < next_sequence r.tenant_id r.issuer_edge_id r.issuer_edge_generation db.sequences
    → (rows : List OutboxRow)
    → let cases = case_row r db.next_revision ∷ db.cases in
      let deliveries =
        case_delivery r
          (next_sequence r.tenant_id r.issuer_edge_id r.issuer_edge_generation db.sequences)
          db.next_revision
        ∷ db.deliveries in
      All (IsRouted (suc db.next_revision) cases deliveries) rows
      → All (IsRouted (suc db.next_revision) cases deliveries) (
          outbox_after sha now r.tenant_id case_fact r.case_id r.raw db.next_revision
            (case_destinations r)
            rows)
unfolding validate_case find case_row outbox_row
case-IsRouted sha now r db v p q rows a = (
  record {
    id = named_id sha _;
    tenant = valid_text-nonempty r.tenant_id (ground arith);
    entity = valid_text-nonempty r.case_id (ground arith);
    raw = ground arith;
    positive = p;
    older = omega arith;
    route = record {
      sent =
          case_delivery r
            (next_sequence r.tenant_id r.issuer_edge_id r.issuer_edge_generation db.sequences)
            db.next_revision;
      is_fact = inl refl;
      found = ground (arith, eq_refl r.tenant_id);
      has_edge = valid_text-nonempty r.issuer_edge_id (ground arith);
      has_generation = ground arith;
      has_sequence = q;
      key = refl;
    };
  },
  (
    record {
      id = named_id sha _;
      tenant = valid_text-nonempty r.tenant_id (ground arith);
      entity = valid_text-nonempty r.case_id (ground arith);
      raw = ground arith;
      positive = p;
      older = omega arith;
      route = record {
        made = case_row r db.next_revision;
        is_case = refl;
        found = ground (arith, eq_refl r.tenant_id);
        has_domain = valid_text-nonempty r.domain (ground arith);
        key = refl;
      };
    },
    a,
  ),
)

-- The new row of an advice.
pub advice-IsRouted :
    (sha : Bytes → String) (now : ℕ) (r : CommitAdviceRequest) (target : CaseRow) (db : Db)
    → validate_advice r ≡ true
    → 0 < db.next_revision
    → IsIssued target
    → 0 < next_sequence r.tenant_id target.issuer_edge_id target.issuer_edge_generation db.sequences
    → (rows : List OutboxRow)
    → let deliveries =
        advice_delivery r target
          (next_sequence r.tenant_id target.issuer_edge_id target.issuer_edge_generation
            db.sequences)
          db.next_revision
        ∷ db.deliveries in
      All (IsRouted (suc db.next_revision) db.cases deliveries) rows
      → All (IsRouted (suc db.next_revision) db.cases deliveries) (
          outbox_after sha now r.tenant_id advice_fact r.case_id r.raw db.next_revision
            (advice_destinations target)
            rows)
unfolding validate_advice find outbox_row
advice-IsRouted sha now r target db v p issued q rows a = (
  record {
    id = named_id sha _;
    tenant = valid_text-nonempty r.tenant_id (ground arith);
    entity = valid_text-nonempty r.case_id (ground arith);
    raw = ground arith;
    positive = p;
    older = omega arith;
    route = record {
      sent =
          advice_delivery r target
            (next_sequence r.tenant_id target.issuer_edge_id target.issuer_edge_generation
              db.sequences)
            db.next_revision;
      is_fact = inr refl;
      found = ground (arith, eq_refl r.tenant_id);
      has_edge = issued.edge;
      has_generation = issued.generation;
      has_sequence = q;
      key = refl;
    };
  },
  a,
)

pub find-All :
    {A : Type 0} (P : A → Type 0) (p : A → Bool) (rows : List A) (row : A)
    → All P rows
    → find p rows ≡ some row
    → P row
unfolding find
find-All P p [] row a h = absurd (ground arith)
find-All P p (r ∷ rows) row a h = elim (Bool-cases (p r)) [
  | inl e ↦ let same : r ≡ row = ground arith in subst P same a.0
  | inr e ↦ find-All P p rows row a.1 (ground arith)
]
