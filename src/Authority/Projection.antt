-- ===== src/Authority/Projection.antt =====
-- ListProjectionFacts of internal/authority/postgres/store.go: the facts of a tenant after a cursor,
-- from cases and advice, for rebuilding a projection.
use Prim.Native.Nat.{max}
use snagline.Prelude.{
  ℕ, String, Bool, true, false, ◌&&◌, List, [], ◌∷◌, ◌++◌, ◌==◌, leb, ltb, if◌then◌else◌, take,
  select, map, Bytes, valid_text,
}
use snagline.Tx.{Result, ok, err}
use snagline.Authority.Request.{Error}
use snagline.Authority.Tables.{CaseRow, AdviceRow, FactKind, case_fact, advice_fact, Db}

pub record ProjectionFactQuery : Type 0 where
  pub tenant_id : String
  pub after_authority_sequence : ℕ
  pub limit : ℕ

unfoldable pub validate_projection : ProjectionFactQuery → Bool
validate_projection q = valid_text q.tenant_id && (ltb 0 q.limit && leb q.limit 1000)

pub record ProjectionFact : Type 0 where
  pub authority_revision : ℕ
  pub kind : FactKind
  pub case_id : String
  pub envelope_id : String
  pub commitment : String
  pub raw : Bytes

pub record ProjectionFactPage : Type 0 where
  pub facts : List ProjectionFact
  pub high_watermark : ℕ

unfoldable pub fact_of_case : CaseRow → ProjectionFact
fact_of_case row = record {
  authority_revision = row.commit_revision;
  kind = case_fact;
  case_id = row.case_id;
  envelope_id = row.envelope_id;
  commitment = row.commitment;
  raw = row.raw;
}

unfoldable pub fact_of_advice : AdviceRow → ProjectionFact
fact_of_advice row = record {
  authority_revision = row.commit_revision;
  kind = advice_fact;
  case_id = row.case_id;
  envelope_id = row.envelope_id;
  commitment = row.commitment;
  raw = row.raw;
}

-- UNION ALL of the tenant's cases and advice
unfoldable pub tenant_facts : String → Db → List ProjectionFact
tenant_facts tenant db =
    map fact_of_case (select (λ (row : CaseRow). row.tenant_id == tenant) db.cases)
    ++ map fact_of_advice (select (λ (row : AdviceRow). row.tenant_id == tenant) db.advice)

-- ORDER BY commit_revision ASC
unfoldable pub insert_fact : ProjectionFact → List ProjectionFact → List ProjectionFact
insert_fact fact [] = fact ∷ []
insert_fact fact (other ∷ facts) =
    if leb fact.authority_revision other.authority_revision
    then fact ∷ other ∷ facts
    else other ∷ insert_fact fact facts

unfoldable pub order_facts : List ProjectionFact → List ProjectionFact
order_facts [] = []
order_facts (fact ∷ facts) = insert_fact fact (order_facts facts)

-- COALESCE(MAX(commit_revision), 0)
unfoldable pub max_revision : List ProjectionFact → ℕ
max_revision [] = 0
max_revision (fact ∷ facts) = max fact.authority_revision (max_revision facts)

unfoldable pub is_after : ℕ → ProjectionFact → Bool
is_after cursor fact = ltb cursor fact.authority_revision

unfoldable pub list_projection_facts : ProjectionFactQuery → Db → Result Error ProjectionFactPage
list_projection_facts q db = elim (validate_projection q) [
  | false ↦ err Error.invalid_request
  | true ↦ ok (record {
    facts =
        take q.limit (
          order_facts (select (is_after q.after_authority_sequence) (tenant_facts q.tenant_id db)));
    high_watermark = max_revision (tenant_facts q.tenant_id db);
  })
]
