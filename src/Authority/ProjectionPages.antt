-- ===== src/Authority/ProjectionPages.antt =====
-- The pages of ListProjectionFacts of internal/authority/postgres/store.go.
use mathlib.Core.List.{Memᴰ}
use mathlib.Core.List.Memᴰ
use snagline.Prelude.{
  ◌≤◌, ◌<◌, String, ◌≡◌, refl, sym, ◌⊎◌, inl, inr, arith, ◌==◌, eq_iff, length, take, select, subst,
  List, [], ◌∷◌, map, Bytes, leb, Bool-cases,
}
use snagline.Tx.{ok}
use snagline.Authority.Tables.{CaseRow, AdviceRow, Db, case_fact, advice_fact}
use snagline.Authority.History.{History}
use snagline.Authority.Projection.{
  ProjectionFactQuery, ProjectionFact, ProjectionFactPage, fact_of_case, fact_of_advice,
  tenant_facts, order_facts, max_revision, is_after, list_projection_facts,
}
use snagline.Authority.Projected.{
  select-mem, mem-select, order-Ascending, order-mem, mem-order, max-bound, take-mem,
}
use snagline.Authority.Revisions.{HasUniqueRevisions, History-HasOwnRevisions}
use snagline.Authority.Chosen.{length-take-le}
use snagline.Authority.Climbing.{
  fact_revision, Climbs, Ascending-Climbs, take-Climbs, LeftOut, mem-take, order-Unique,
  select-Unique, tenant_facts-Unique,
}

-- The fact is a committed case of the tenant, or a committed advice of the tenant.
abbrev pub IsTenantFact : String → Db → ProjectionFact → Type 0
IsTenantFact tenant db x =
    ((row : CaseRow) × Memᴰ row db.cases
      × (row.tenant_id ≡ tenant)
      × (x ≡ record {
        authority_revision = row.commit_revision;
        kind = case_fact;
        case_id = row.case_id;
        envelope_id = row.envelope_id;
        commitment = row.commitment;
        raw = row.raw;
      }))
    ⊎ ((row : AdviceRow) × Memᴰ row db.advice
        × (row.tenant_id ≡ tenant)
        × (x ≡ record {
          authority_revision = row.commit_revision;
          kind = advice_fact;
          case_id = row.case_id;
          envelope_id = row.envelope_id;
          commitment = row.commitment;
          raw = row.raw;
        }))

pub record IsProjection (q : ProjectionFactQuery) (db : Db) (page : ProjectionFactPage)
    : Type 0 where
  pub inside :
      (x : ProjectionFact)
      → Memᴰ x page.facts
      → IsTenantFact q.tenant_id db x × (q.after_authority_sequence < x.authority_revision)
  pub climbs : Climbs page.facts
  pub bounded : length page.facts ≤ q.limit
  pub complete :
      (x : ProjectionFact)
      → IsTenantFact q.tenant_id db x
      → q.after_authority_sequence < x.authority_revision
      → Memᴰ x page.facts ⊎ LeftOut q.limit page.facts x
  pub watermark :
      (x : ProjectionFact)
      → IsTenantFact q.tenant_id db x
      → x.authority_revision ≤ page.high_watermark
  pub attained :
      (page.high_watermark ≡ 0)
      ⊎ ((x : ProjectionFact) × IsTenantFact q.tenant_id db x
          × (x.authority_revision ≡ page.high_watermark))

module _ (tenant : String) (db : Db) (x : ProjectionFact) where
  mem-IsTenantFact : Memᴰ x (tenant_facts tenant db) → IsTenantFact tenant db x
  unfolding tenant_facts fact_of_case fact_of_advice
  mem-IsTenantFact m =
      let p = λ (row : CaseRow). row.tenant_id == tenant in
      let q = λ (row : AdviceRow). row.tenant_id == tenant in
      elim (Memᴰ.append_cases (map fact_of_case (select p db.cases)) m) [
        | inl k ↦
            (let (row, at, e) = Memᴰ.of_map fact_of_case (select p db.cases) k in
              let (there, own) = select-mem p row db.cases at in
              inl (row, there, (eq_iff row.tenant_id tenant).0 own, sym e))
        | inr k ↦
            (let (row, at, e) = Memᴰ.of_map fact_of_advice (select q db.advice) k in
              let (there, own) = select-mem q row db.advice at in
              inr (row, there, (eq_iff row.tenant_id tenant).0 own, sym e))
      ]

  IsTenantFact-mem : IsTenantFact tenant db x → Memᴰ x (tenant_facts tenant db)
  unfolding tenant_facts fact_of_case fact_of_advice
  IsTenantFact-mem (inl (row, there, own, e)) =
      let p = λ (row : CaseRow). row.tenant_id == tenant in
      let q = λ (row : AdviceRow). row.tenant_id == tenant in
      Memᴰ.append_left (map fact_of_advice (select q db.advice)) (
        Memᴰ.cast e (
          Memᴰ.map fact_of_case
            (mem-select p row db.cases there ((eq_iff row.tenant_id tenant).1 own))))
  IsTenantFact-mem (inr (row, there, own, e)) =
      let p = λ (row : CaseRow). row.tenant_id == tenant in
      let q = λ (row : AdviceRow). row.tenant_id == tenant in
      Memᴰ.append_right (map fact_of_case (select p db.cases)) (
        Memᴰ.cast e (
          Memᴰ.map fact_of_advice
            (mem-select q row db.advice there ((eq_iff row.tenant_id tenant).1 own))))

max-attained :
    (facts : List ProjectionFact)
    → (max_revision facts ≡ 0)
      ⊎ ((x : ProjectionFact) × Memᴰ x facts × (x.authority_revision ≡ max_revision facts))
unfolding max_revision
max-attained [] = inl refl
max-attained (fact ∷ facts) = elim (Bool-cases (leb (max_revision facts) fact.authority_revision)) [
  | inl e ↦ inr (fact, Memᴰ.head refl, ground arith)
  | inr e ↦ (elim (max-attained facts) [
    | inl z ↦ absurd (ground arith)
    | inr (x, m, k) ↦ inr (x, Memᴰ.tail m, ground arith)
  ])
]

abbrev pub projection_page : ProjectionFactQuery → Db → ProjectionFactPage
projection_page q db = record {
  facts =
      take q.limit
        (order_facts (select (is_after q.after_authority_sequence) (tenant_facts q.tenant_id db)));
  high_watermark = max_revision (tenant_facts q.tenant_id db);
}

projection_page-IsProjection :
    (q : ProjectionFactQuery) (db : Db)
    → HasUniqueRevisions fact_revision (tenant_facts q.tenant_id db)
    → IsProjection q db (projection_page q db)
unfolding is_after
projection_page-IsProjection q db u =
    let p = is_after q.after_authority_sequence in
    let all = tenant_facts q.tenant_id db in
    let facts = order_facts (select p all) in
    let climbs : Climbs facts =
      Ascending-Climbs facts (order-Ascending (select p all))
        (order-Unique (select p all) (select-Unique fact_revision p all u)) in
    record {
      inside = λ x m.
          let (k, e) =
            select-mem p x all (order-mem x (select p all) (take-mem q.limit x facts m)) in
          (mem-IsTenantFact q.tenant_id db x k, ground arith);
      climbs = take-Climbs q.limit facts climbs;
      bounded = length-take-le q.limit facts;
      complete = λ x fact after. mem-take q.limit x facts climbs (
          mem-order x (select p all)
            (mem-select p x all (IsTenantFact-mem q.tenant_id db x fact) (ground arith)));
      watermark = λ x fact. max-bound x all (IsTenantFact-mem q.tenant_id db x fact);
      attained = elim (max-attained all) [
        | inl z ↦ inl z
        | inr (x, m, e) ↦ inr (x, mem-IsTenantFact q.tenant_id db x m, e)
      ];
    }

returned :
    (q : ProjectionFactQuery) (db : Db) (page : ProjectionFactPage)
    → list_projection_facts q db ≡ ok page
    → projection_page q db ≡ page
unfolding list_projection_facts
returned q db page h = ground arith

-- In a reachable state a page that ListProjectionFacts returns holds at most `limit` facts, each of
-- them a committed case or advice of the tenant after the cursor, in strictly ascending order of
-- revision; every committed case and advice of the tenant after the cursor is in the page, unless the
-- page is full and all its facts are below that one; and the watermark is the highest revision of a
-- case or advice of the tenant, or 0.
pub list_projection_facts-IsProjection :
    (sha : Bytes → String) (authority_id : String) (q : ProjectionFactQuery) (db : Db)
    (page : ProjectionFactPage)
    → History sha authority_id db
    → list_projection_facts q db ≡ ok page
    → IsProjection q db page
list_projection_facts-IsProjection sha authority_id q db page hist h =
    subst (IsProjection q db) (returned q db page h) (
      projection_page-IsProjection q db
        (tenant_facts-Unique q.tenant_id db (History-HasOwnRevisions sha authority_id db hist)))
