-- ===== src/Edge/Claimed.antt =====
-- The identities of envelopes and the facts projected under them: internal/sspedge/store.go.
use snagline.Prelude.{
  ℕ, String, ◌≡◌, refl, inl, inr, Option, none, some, ◌∷◌, arith, ◌==◌, eq_refl, find, Bytes,
  Bool-cases, Option-cases, subst,
}
use snagline.Tx.{ok, Result-cases}
use snagline.Edge.Vault.{Aead}
use snagline.Edge.Tables.{
  Verdict, verdict_accepted, verdict_rejected, verdict_quarantined, ApplyOutcome, Advice,
  VerifiedProjection, EdgeDb, JournalDelivery,
}
use snagline.Edge.Cursor.{
  require_reconciliation, require_reconciliation_tx, complete_reconciliation,
}
use snagline.Edge.Projection.{
  find_identity, identity_row, quarantine, claim_identity, accepted_case, bind_case, insert_advice,
  insert_front, persist_advice, persist_case_part, persist_advice_part, persist_projection,
}
use snagline.Edge.Apply.{Judged, judge, judge_claimed}
use snagline.Edge.Applied.{
  Applied, replayed, caught_up, halted, recorded, Judges, judges, SameFacts, apply_verified-Applied,
}
use snagline.Edge.FrontEffects.{claim-OnlyFront, mark-OnlyFront}
use snagline.Edge.Facts.{
  FactsAreClaimed, IsOwn, claimed-FactsAreClaimed, quarantine-FactsAreClaimed,
  persist_case-FactsAreClaimed, insert_advice-FactsAreClaimed,
}
use snagline.Edge.History.{
  StoreStep, applied, required, completed, claimed, marked, StoreHistory, opened, then_step,
}

same-FactsAreClaimed :
    (db db' : EdgeDb) → SameFacts db db' → FactsAreClaimed db → FactsAreClaimed db'
same-FactsAreClaimed db db' s f = record {
  cases = rw (s.identities, s.cases) f.cases;
  advice = rw (s.identities, s.advice) f.advice;
  backed = rw (s.cases, s.advice) f.backed;
}

insert_front-SameFacts :
    (front advice_id : String) (now : ℕ) (db db' : EdgeDb) (u : Unit {0})
    → insert_front front advice_id now db ≡ ok (u, db')
    → SameFacts db db'
unfolding insert_front
insert_front-SameFacts front advice_id now db db' u h = record {
  identities = ground arith;
  cases = ground arith;
  advice = ground arith;
}

module _ (sha : Bytes → String) (aead : Aead) (tenant : String) (payload : String → String → Bytes)
    (nonce : Bytes) where
  persist_advice-FactsAreClaimed :
      (p : VerifiedProjection) (a : Advice) (now : ℕ) (db db' : EdgeDb) (u : Unit {0})
      → IsOwn aead tenant payload nonce p db
      → persist_advice aead tenant payload nonce p a now db ≡ ok (u, db')
      → FactsAreClaimed db
      → FactsAreClaimed db'
  unfolding persist_advice bind_case
  persist_advice-FactsAreClaimed p a now db db' u own h f =
      elim (Option-cases (accepted_case a.case_id db)) [
        | inl e ↦ absurd (ground arith)
        | inr (c, e) ↦ (elim (Result-cases (insert_advice aead tenant payload nonce p a now db)) [
          | inr (x, i) ↦ absurd (ground arith)
          | inl ((v, db₁), i) ↦ (elim (Result-cases (insert_front "cli" a.advice_id now db₁)) [
            | inr (x, j) ↦ absurd (ground arith)
            | inl ((w, db₂), j) ↦
                same-FactsAreClaimed db₂ db'
                  (insert_front-SameFacts "amq" a.advice_id now db₂ db' u (ground arith))
                  (same-FactsAreClaimed db₁ db₂
                    (insert_front-SameFacts "cli" a.advice_id now db₁ db₂ w j)
                    (insert_advice-FactsAreClaimed aead tenant payload nonce p a c now db db₁ v own
                      e (ground arith) i f))
          ])
        ])
      ]

  persist_projection-FactsAreClaimed :
      (p : VerifiedProjection) (now : ℕ) (db db' : EdgeDb) (u : Unit {0})
      → IsOwn aead tenant payload nonce p db
      → persist_projection aead tenant payload nonce p now db ≡ ok (u, db')
      → FactsAreClaimed db
      → FactsAreClaimed db'
  unfolding persist_projection persist_case_part persist_advice_part
  persist_projection-FactsAreClaimed p now db db' u own h f =
      elim (Bool-cases (p.family == "case")) [
        | inl e ↦ (elim (Option-cases p.case_part) [
          | inl k ↦ absurd (ground arith)
          | inr (c, k) ↦
              persist_case-FactsAreClaimed aead tenant payload nonce p c db db' u own (ground arith)
                f
        ])
        | inr e ↦ (elim (Bool-cases (p.family == "advice")) [
          | inr g ↦ absurd (ground arith)
          | inl g ↦ (elim (Option-cases p.advice_part) [
            | inl k ↦ absurd (ground arith)
            | inr (a, k) ↦ persist_advice-FactsAreClaimed p a now db db' u own (ground arith) f
          ])
        ])
      ]

  accepted-FactsAreClaimed :
      (d : JournalDelivery) (reason : String) (p : VerifiedProjection) (now : ℕ) (db db' : EdgeDb)
      (j : Judged)
      → judge sha aead tenant payload nonce d verdict_accepted reason (some p) now db ≡ ok (j, db')
      → FactsAreClaimed db
      → FactsAreClaimed db'
  unfolding judge judge_claimed claim_identity
  accepted-FactsAreClaimed d reason p now db db' j h f =
      elim (Option-cases (find_identity p.envelope_id db)) [
        | inr (row, e) ↦ (elim (Bool-cases (row.commitment == p.commitment)) [
          | inl c ↦ let same : db ≡ db' = ground arith in subst FactsAreClaimed same f
          | inr c ↦
              let left = quarantine p.envelope_id p.commitment d.delivery_seq now db in
              let same : left ≡ db' = ground arith in
              subst FactsAreClaimed same
                (quarantine-FactsAreClaimed p.envelope_id p.commitment d.delivery_seq now db f)
        ])
        | inl e ↦
            let new = identity_row p.envelope_id p.commitment d.delivery_seq now in
            let db₁ : EdgeDb = record db { identities = new ∷ db.identities } in
            let own : IsOwn aead tenant payload nonce p db₁ = record {
              row = new;
              found = unfold find in ground (arith, eq_refl p.envelope_id);
              same_commitment = refl;
              same_state = refl;
            } in
            elim (Result-cases (persist_projection aead tenant payload nonce p now db₁)) [
              | inr (x, i) ↦ absurd (ground arith)
              | inl ((v, db₂), i) ↦
                  let same : db₂ ≡ db' = ground arith in
                  subst FactsAreClaimed same (
                    persist_projection-FactsAreClaimed p now db₁ db₂ v own i (
                      claimed-FactsAreClaimed p.envelope_id p.commitment d.delivery_seq now db e f))
            ]
      ]

  judge-FactsAreClaimed :
      (d : JournalDelivery) (v : Verdict) (reason : String) (p : Option VerifiedProjection)
      (now : ℕ) (db db' : EdgeDb) (j : Judged)
      → judge sha aead tenant payload nonce d v reason p now db ≡ ok (j, db')
      → FactsAreClaimed db
      → FactsAreClaimed db'
  unfolding judge
  judge-FactsAreClaimed d verdict_accepted reason none now db db' j h f = absurd (ground arith)
  judge-FactsAreClaimed d verdict_accepted reason (some p) now db db' j h f =
      accepted-FactsAreClaimed d reason p now db db' j h f
  judge-FactsAreClaimed d verdict_rejected reason p now db db' j h f =
      let same : db ≡ db' = ground arith in subst FactsAreClaimed same f
  judge-FactsAreClaimed d verdict_quarantined reason p now db db' j h f =
      let same : db ≡ db' = ground arith in subst FactsAreClaimed same f

Judges-FactsAreClaimed :
    (d : JournalDelivery) (now : ℕ) (db mid : EdgeDb) (j : Judged)
    → Judges d now db mid j
    → FactsAreClaimed db
    → FactsAreClaimed mid
Judges-FactsAreClaimed d now db mid j (judges sha aead tenant payload nonce v reason p h) f =
    judge-FactsAreClaimed sha aead tenant payload nonce d v reason p now db mid j h f

kept :
    (db db' : EdgeDb)
    → db'.identities ≡ db.identities
    → db'.cases ≡ db.cases
    → db'.advice ≡ db.advice
    → FactsAreClaimed db
    → FactsAreClaimed db'
kept db db' i c a f =
    same-FactsAreClaimed db db' (record { identities = i; cases = c; advice = a }) f

Applied-FactsAreClaimed :
    (sha : Bytes → String) (d : JournalDelivery) (now : ℕ) (db db' : EdgeDb) (o : ApplyOutcome)
    → Applied sha d now db db' o
    → FactsAreClaimed db
    → FactsAreClaimed db'
Applied-FactsAreClaimed sha d now db db' o (replayed row f g e x) w =
    kept db db' (ground (arith, e)) (ground (arith, e)) (ground (arith, e)) w
Applied-FactsAreClaimed sha d now db db' o (caught_up row f next e x) w =
    kept db db' (ground (arith, e)) (ground (arith, e)) (ground (arith, e)) w
Applied-FactsAreClaimed sha d now db db' o (halted reason is_halt h) w =
    kept db db' (unfold require_reconciliation_tx in ground arith)
      (unfold require_reconciliation_tx in ground arith)
      (unfold require_reconciliation_tx in ground arith) w
Applied-FactsAreClaimed sha d now db db' o (recorded j p mid g k front next fresh e s x) w =
    same-FactsAreClaimed mid db' k (Judges-FactsAreClaimed d now db mid j g w)

module _ (sha : Bytes → String) (aead : Aead) (tenant : String)
    (payload : String → String → Bytes) where
  step-FactsAreClaimed :
      (db db' : EdgeDb)
      → StoreStep sha aead tenant payload db db'
      → FactsAreClaimed db
      → FactsAreClaimed db'
  step-FactsAreClaimed db db' (applied nonce rec d v reason p now o h) f =
      Applied-FactsAreClaimed sha d now db db' o
        (apply_verified-Applied sha d now db db' o aead tenant payload nonce rec v reason p h) f
  step-FactsAreClaimed db db' (required id observed reason now h) f =
      kept db db' (unfold require_reconciliation require_reconciliation_tx in ground arith)
        (unfold require_reconciliation require_reconciliation_tx in ground arith)
        (unfold require_reconciliation require_reconciliation_tx in ground arith) f
  step-FactsAreClaimed db db' (completed id through high now h) f =
      kept db db' (unfold complete_reconciliation in ground arith)
        (unfold complete_reconciliation in ground arith)
        (unfold complete_reconciliation in ground arith) f
  step-FactsAreClaimed db db' (claimed tokens front owner ttl limit now items h) f =
      let only = claim-OnlyFront aead tenant tokens front owner ttl limit now db db' items h in
      kept db db' (ground (arith, only)) (ground (arith, only)) (ground (arith, only)) f
  step-FactsAreClaimed db db' (marked r now o h) f =
      let only = mark-OnlyFront r now db db' o h in
      kept db db' (ground (arith, only)) (ground (arith, only)) (ground (arith, only)) f

  -- In every state that the store reaches, each stored case and each stored advice stands under
  -- the identity of its envelope, with that identity's commitment and in its state; and each stored
  -- advice repeats the commitment, issuer, route, epoch and registry of a stored case with its case
  -- identifier.
  pub StoreHistory-FactsAreClaimed :
      (db : EdgeDb) → StoreHistory sha aead tenant payload db → FactsAreClaimed db
  StoreHistory-FactsAreClaimed _ opened = record { cases = tt; advice = tt; backed = tt }
  StoreHistory-FactsAreClaimed _ (then_step {db} {db'} h step) =
      step-FactsAreClaimed db db' step (StoreHistory-FactsAreClaimed db h)
