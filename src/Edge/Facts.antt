-- ===== src/Edge/Facts.antt =====
-- The identities, cases and advice of internal/sspedge/store.go under claimIdentity and
-- persistProjection.
use snagline.Prelude.{
  ℕ, String, ◌≡◌, refl, inl, inr, Bool, true, ◌&&◌, none, some, List, [], ◌∷◌, arith, ◌==◌, eq_iff,
  eqb, if◌then◌else◌, find, find-holds, any, update_where, All, Bytes, Bool-cases, subst,
  find-update_where,
}
use snagline.Tx.{ok}
use snagline.Edge.Vault.{Aead}
use snagline.Edge.Tables.{
  FactState, fact_accepted, fact_quarantined, Case, Advice, VerifiedProjection, IdentityRow,
  CaseRow, AdviceRow, EdgeDb,
}
use snagline.Edge.Projection.{
  find_identity, identity_row, quarantined_identity, quarantined_case, quarantined_advice,
  quarantine, is_accepted, has_case_id, accepted_case, binds_case, case_row, advice_row,
  persist_case, insert_advice,
}

abbrev pub is_identity : String → IdentityRow → Bool
is_identity id row = row.envelope_id == id

-- A fact stands under the identity of its envelope, with its commitment and in its state.
pub record StandsUnder (ids : List IdentityRow) (envelope commitment : String) (state : FactState)
    : Type 0 where
  pub row : IdentityRow
  pub found : find (is_identity envelope) ids ≡ some row
  pub same_commitment : row.commitment ≡ commitment
  pub same_state : row.state ≡ state

abbrev pub CaseStands : List IdentityRow → CaseRow → Type 0
CaseStands ids c = StandsUnder ids c.envelope_id c.commitment c.state

abbrev pub AdviceStands : List IdentityRow → AdviceRow → Type 0
AdviceStands ids a = StandsUnder ids a.envelope_id a.commitment a.state

-- The case repeats what the advice binds.
unfoldable pub backs : AdviceRow → CaseRow → Bool
backs a c =
    c.case_id == a.case_id
    && (c.commitment == a.case_commitment
        && (c.issuer_edge_id == a.issuer_edge_id
            && (eqb c.issuer_edge_generation a.issuer_edge_generation
                && (c.source_token == a.route_token
                    && (eqb c.routing_epoch a.routing_epoch
                        && (eqb c.registry_revision a.registry_revision
                            && c.registry_hash == a.registry_hash))))))

abbrev pub IsBacked : List CaseRow → AdviceRow → Type 0
IsBacked cases a = any (backs a) cases ≡ true

-- Each case and each advice stands under its identity, and each advice has a case that it binds.
pub record FactsAreClaimed (db : EdgeDb) : Type 0 where
  pub cases : All (CaseStands db.identities) db.cases
  pub advice : All (AdviceStands db.identities) db.advice
  pub backed : All (IsBacked db.cases) db.advice

module _ {A : Type 0} (P Q : A → Type 0) where
  pub All-weaker : ((x : A) → P x → Q x) → (xs : List A) → All P xs → All Q xs
  All-weaker f [] a = tt
  All-weaker f (x ∷ xs) (h, a) = (f x h, All-weaker f xs a)

  pub All-update_where :
      (q : A → Bool) (change : A → A)
      → ((x : A) → P x → Q (if q x then change x else x))
      → (xs : List A) → All P xs
      → All Q (update_where q change xs)
  unfolding update_where
  All-update_where q change f [] a = tt
  All-update_where q change f (x ∷ xs) (h, a) = (f x h, All-update_where q change f xs a)

fresh-StandsUnder :
    (ids : List IdentityRow) (new : IdentityRow) (id e c : String) (s : FactState)
    → new.envelope_id ≡ id
    → find (is_identity id) ids ≡ none
    → StandsUnder ids e c s
    → StandsUnder (new ∷ ids) e c s
unfolding find
fresh-StandsUnder ids new id e c s own fresh u = record {
  row = u.row;
  found = ground (arith, u, eq_iff new.envelope_id e);
  same_commitment = u.same_commitment;
  same_state = u.same_state;
}

-- An envelope that was not seen is claimed.
pub claimed-FactsAreClaimed :
    (id commitment : String) (seq now : ℕ) (db : EdgeDb)
    → find_identity id db ≡ none
    → FactsAreClaimed db
    → FactsAreClaimed
        (record db { identities = identity_row id commitment seq now ∷ db.identities })
unfolding find_identity
claimed-FactsAreClaimed id commitment seq now db fresh f =
    let new = identity_row id commitment seq now in
    record {
      cases =
          All-weaker (CaseStands db.identities) (CaseStands (new ∷ db.identities))
            (λ x u.
              fresh-StandsUnder db.identities new id x.envelope_id x.commitment x.state refl fresh
                u)
            db.cases f.cases;
      advice =
          All-weaker (AdviceStands db.identities) (AdviceStands (new ∷ db.identities))
            (λ x u.
              fresh-StandsUnder db.identities new id x.envelope_id x.commitment x.state refl fresh
                u)
            db.advice f.advice;
      backed = f.backed;
    }

module _ (id commitment : String) (seq now : ℕ) (ids : List IdentityRow) where
  after : List IdentityRow
  after = update_where (is_identity id) (quarantined_identity commitment seq now) ids

  quarantined-StandsUnder :
      (e c : String) (s : FactState)
      → StandsUnder ids e c s
      → StandsUnder after e c (if e == id then fact_quarantined else s)
  unfolding after
  quarantined-StandsUnder e c s u =
      let found =
        find-update_where (is_identity e) (is_identity id) (quarantined_identity commitment seq now)
          (λ x. unfold quarantined_identity in refl) ids in
      let same = find-holds (is_identity e) ids u.row u.found in
      elim (Bool-cases (e == id)) [
        | inl k ↦ rw k (record {
          row = quarantined_identity commitment seq now u.row;
          found = ground (
            arith,
            found,
            u,
            same,
            eq_iff u.row.envelope_id e,
            eq_iff u.row.envelope_id id,
            eq_iff e id,
          );
          same_commitment = unfold quarantined_identity in u.same_commitment;
          same_state = unfold quarantined_identity in refl;
        })
        | inr k ↦ rw k (record {
          row = u.row;
          found = ground (
            arith,
            found,
            u,
            same,
            eq_iff u.row.envelope_id e,
            eq_iff u.row.envelope_id id,
            eq_iff e id,
          );
          same_commitment = u.same_commitment;
          same_state = u.same_state;
        })
      ]

  quarantined-CaseStands :
      (x : CaseRow)
      → CaseStands ids x
      → CaseStands after (if x.envelope_id == id then quarantined_case x else x)
  quarantined-CaseStands x u =
      let k = quarantined-StandsUnder x.envelope_id x.commitment x.state u in
      elim (Bool-cases (x.envelope_id == id)) [
        | inl e ↦ rw e (
            subst
              (λ b.
                StandsUnder after x.envelope_id x.commitment
                  (if b then fact_quarantined else x.state))
              e k)
        | inr e ↦ rw e (
            subst
              (λ b.
                StandsUnder after x.envelope_id x.commitment
                  (if b then fact_quarantined else x.state))
              e k)
      ]

  quarantined-AdviceStands :
      (x : AdviceRow)
      → AdviceStands ids x
      → AdviceStands after (if x.envelope_id == id then quarantined_advice x else x)
  quarantined-AdviceStands x u =
      let k = quarantined-StandsUnder x.envelope_id x.commitment x.state u in
      elim (Bool-cases (x.envelope_id == id)) [
        | inl e ↦ rw e (
            subst
              (λ b.
                StandsUnder after x.envelope_id x.commitment
                  (if b then fact_quarantined else x.state))
              e k)
        | inr e ↦ rw e (
            subst
              (λ b.
                StandsUnder after x.envelope_id x.commitment
                  (if b then fact_quarantined else x.state))
              e k)
      ]

quarantined-backs :
    (id : String) (a : AdviceRow) (cases : List CaseRow)
    → any (backs a) cases ≡ true
    → any (backs a) (update_where (λ (row : CaseRow). row.envelope_id == id) quarantined_case cases)
      ≡ true
unfolding any backs update_where
quarantined-backs id a [] h = h
quarantined-backs id a (c ∷ cases) h = ground (arith, quarantined-backs id a cases)

quarantined-IsBacked :
    (id : String) (cases : List CaseRow) (x : AdviceRow)
    → IsBacked cases x
    → IsBacked
        (update_where (λ (row : CaseRow). row.envelope_id == id) quarantined_case cases)
        (if x.envelope_id == id then quarantined_advice x else x)
unfolding backs
quarantined-IsBacked id cases x h = elim (Bool-cases (x.envelope_id == id)) [
  | inl e ↦ rw e (quarantined-backs id x cases h)
  | inr e ↦ rw e (quarantined-backs id x cases h)
]

-- A second commitment quarantines the identity with all that stands under it.
pub quarantine-FactsAreClaimed :
    (id commitment : String) (seq now : ℕ) (db : EdgeDb)
    → FactsAreClaimed db
    → FactsAreClaimed (quarantine id commitment seq now db)
unfolding quarantine after
quarantine-FactsAreClaimed id commitment seq now db f =
    let ids = after id commitment seq now db.identities in
    let cases = update_where (λ (row : CaseRow). row.envelope_id == id) quarantined_case db.cases in
    record {
      cases =
          All-update_where (CaseStands db.identities) (CaseStands ids)
            (λ (row : CaseRow). row.envelope_id == id) quarantined_case
            (quarantined-CaseStands id commitment seq now db.identities) db.cases f.cases;
      advice =
          All-update_where (AdviceStands db.identities) (AdviceStands ids)
            (λ (row : AdviceRow). row.envelope_id == id) quarantined_advice
            (quarantined-AdviceStands id commitment seq now db.identities) db.advice f.advice;
      backed =
          All-update_where (IsBacked db.cases) (IsBacked cases)
            (λ (row : AdviceRow). row.envelope_id == id) quarantined_advice
            (quarantined-IsBacked id db.cases) db.advice f.backed;
    }

-- A found case that an advice binds backs its row.
found-backs :
    (a : Advice) (row : AdviceRow) (cases : List CaseRow) (c : CaseRow)
    → find (λ (r : CaseRow). has_case_id a.case_id r && is_accepted r.state) cases ≡ some c
    → binds_case a c ≡ true
    → ((x : CaseRow) → backs row x ≡ (has_case_id a.case_id x && binds_case a x))
    → any (backs row) cases ≡ true
unfolding find any
found-backs a row [] c h b same = absurd (ground arith)
found-backs a row (x ∷ cases) c h b same = ground (arith, found-backs a row cases c, same x)

more-backs :
    (new : CaseRow) (a : AdviceRow) (cases : List CaseRow)
    → IsBacked cases a
    → IsBacked (new ∷ cases) a
unfolding any
more-backs new a cases h = ground arith

module _ (aead : Aead) (tenant : String) (payload : String → String → Bytes) (nonce : Bytes)
    (p : VerifiedProjection) where
  -- The envelope of the projection has been claimed with its commitment.
  abbrev pub IsOwn : EdgeDb → Type 0
  IsOwn db = StandsUnder db.identities p.envelope_id p.commitment fact_accepted

  pub persist_case-FactsAreClaimed :
      (c : Case) (db db' : EdgeDb) (u : Unit {0})
      → IsOwn db
      → persist_case aead tenant payload nonce p c db ≡ ok (u, db')
      → FactsAreClaimed db
      → FactsAreClaimed db'
  unfolding persist_case
  persist_case-FactsAreClaimed c db db' u own h f =
      let new = case_row aead tenant payload nonce p c in
      let added : EdgeDb = record db { cases = new ∷ db.cases } in
      elim (Bool-cases (any (has_case_id c.case_id) db.cases)) [
        | inl e ↦ let same : db ≡ db' = ground arith in subst FactsAreClaimed same f
        | inr e ↦
            let same : added ≡ db' = ground arith in
            subst FactsAreClaimed same (record {
              cases = (own, f.cases);
              advice = f.advice;
              backed =
                  All-weaker (IsBacked db.cases) (IsBacked (new ∷ db.cases))
                    (λ a k. more-backs new a db.cases k) db.advice f.backed;
            })
      ]

  pub insert_advice-FactsAreClaimed :
      (a : Advice) (c : CaseRow) (now : ℕ) (db db' : EdgeDb) (u : Unit {0})
      → IsOwn db
      → accepted_case a.case_id db ≡ some c
      → binds_case a c ≡ true
      → insert_advice aead tenant payload nonce p a now db ≡ ok (u, db')
      → FactsAreClaimed db
      → FactsAreClaimed db'
  unfolding insert_advice accepted_case
  insert_advice-FactsAreClaimed a c now db db' u own found binds h f =
      let new = advice_row aead tenant payload nonce p a now in
      let added : EdgeDb = record db { advice = new ∷ db.advice } in
      elim (Bool-cases (any (λ (row : AdviceRow). row.advice_id == a.advice_id) db.advice)) [
        | inl e ↦ let same : db ≡ db' = ground arith in subst FactsAreClaimed same f
        | inr e ↦
            let same : added ≡ db' = ground arith in
            subst FactsAreClaimed same (record {
              cases = f.cases;
              advice = (own, f.advice);
              backed = (
                found-backs a new db.cases c found binds (λ x. unfold backs binds_case in refl),
                f.backed,
              );
            })
      ]
