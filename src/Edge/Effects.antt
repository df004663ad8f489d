-- ===== src/Edge/Effects.antt =====
-- What applyVerified of internal/sspedge/store.go leaves of the cursor and of the recorded deliveries.
use snagline.Prelude.{ℕ, String, ◌≡◌, inl, inr, Option, none, some, arith, ◌==◌, Bytes, Bool-cases}
use snagline.Tx.{ok, ◌>>◌, Result-cases}
use snagline.Edge.Vault.{Aead}
use snagline.Edge.Tables.{
  Verdict, verdict_accepted, verdict_rejected, verdict_quarantined, ApplyOutcome, apply_duplicate,
  apply_quarantined, JournalDelivery, Case, Advice, VerifiedProjection, EdgeDb,
}
use snagline.Edge.Projection.{
  claim_identity, quarantine, persist_case, insert_advice, insert_front, persist_advice,
  persist_projection, persist_case_part, persist_advice_part,
}
use snagline.Edge.Apply.{Judged, judge, judge_claimed}

-- The cursor and the recorded deliveries are what they were.
pub record SameLog (db db' : EdgeDb) : Type 0 where
  pub states : db'.states ≡ db.states
  pub deliveries : db'.deliveries ≡ db.deliveries

claim_identity-SameLog :
    (id commitment : String) (seq now : ℕ) (db db' : EdgeDb) (o : ApplyOutcome)
    → claim_identity id commitment seq now db ≡ ok (o, db')
    → SameLog db db'
unfolding claim_identity quarantine
claim_identity-SameLog id commitment seq now db db' o h = record {
  states = ground arith;
  deliveries = ground arith;
}

insert_front-SameLog :
    (front advice_id : String) (now : ℕ) (db db' : EdgeDb) (u : Unit {0})
    → insert_front front advice_id now db ≡ ok (u, db')
    → SameLog db db'
unfolding insert_front
insert_front-SameLog front advice_id now db db' u h = record {
  states = ground arith;
  deliveries = ground arith;
}

module _ (sha : Bytes → String) (aead : Aead) (tenant : String) (payload : String → String → Bytes)
    (nonce : Bytes) where
  persist_case-SameLog :
      (p : VerifiedProjection) (c : Case) (db db' : EdgeDb) (u : Unit {0})
      → persist_case aead tenant payload nonce p c db ≡ ok (u, db')
      → SameLog db db'
  unfolding persist_case
  persist_case-SameLog p c db db' u h = record { states = ground arith; deliveries = ground arith }

  insert_advice-SameLog :
      (p : VerifiedProjection) (a : Advice) (now : ℕ) (db db' : EdgeDb) (u : Unit {0})
      → insert_advice aead tenant payload nonce p a now db ≡ ok (u, db')
      → SameLog db db'
  unfolding insert_advice
  insert_advice-SameLog p a now db db' u h = record {
    states = ground arith;
    deliveries = ground arith;
  }

  trans-SameLog : (a b c : EdgeDb) → SameLog a b → SameLog b c → SameLog a c
  trans-SameLog a b c s t = record {
    states = cc (s.states, t.states);
    deliveries = cc (s.deliveries, t.deliveries);
  }

  insert_fronts-SameLog :
      (p : VerifiedProjection) (a : Advice) (now : ℕ) (db db' : EdgeDb) (u : Unit {0})
      → (insert_advice aead tenant payload nonce p a now
            >> insert_front "cli" a.advice_id now
            >> insert_front "amq" a.advice_id now)
          db
        ≡ ok (u, db')
      → SameLog db db'
  insert_fronts-SameLog p a now db db' u h =
      elim (Result-cases (insert_advice aead tenant payload nonce p a now db)) [
        | inr (e, i) ↦ absurd (ground arith)
        | inl ((v, db₁), i) ↦ (elim (Result-cases (insert_front "cli" a.advice_id now db₁)) [
          | inr (e, j) ↦ absurd (ground arith)
          | inl ((w, db₂), j) ↦
              trans-SameLog db db₁ db' (insert_advice-SameLog p a now db db₁ v i) (
                trans-SameLog db₁ db₂ db' (insert_front-SameLog "cli" a.advice_id now db₁ db₂ w j)
                  (insert_front-SameLog "amq" a.advice_id now db₂ db' u (ground arith)))
        ])
      ]

  persist_advice-SameLog :
      (p : VerifiedProjection) (a : Advice) (now : ℕ) (db db' : EdgeDb) (u : Unit {0})
      → persist_advice aead tenant payload nonce p a now db ≡ ok (u, db')
      → SameLog db db'
  unfolding persist_advice
  persist_advice-SameLog p a now db db' u h = insert_fronts-SameLog p a now db db' u (ground arith)

  persist_case_part-SameLog :
      (p : VerifiedProjection) (c : Option Case) (db db' : EdgeDb) (u : Unit {0})
      → persist_case_part aead tenant payload nonce p c db ≡ ok (u, db')
      → SameLog db db'
  unfolding persist_case_part
  persist_case_part-SameLog p none db db' u h = absurd (ground arith)
  persist_case_part-SameLog p (some c) db db' u h = persist_case-SameLog p c db db' u h

  persist_advice_part-SameLog :
      (p : VerifiedProjection) (a : Option Advice) (now : ℕ) (db db' : EdgeDb) (u : Unit {0})
      → persist_advice_part aead tenant payload nonce p a now db ≡ ok (u, db')
      → SameLog db db'
  unfolding persist_advice_part
  persist_advice_part-SameLog p none now db db' u h = absurd (ground arith)
  persist_advice_part-SameLog p (some a) now db db' u h = persist_advice-SameLog p a now db db' u h

  persist_projection-SameLog :
      (p : VerifiedProjection) (now : ℕ) (db db' : EdgeDb) (u : Unit {0})
      → persist_projection aead tenant payload nonce p now db ≡ ok (u, db')
      → SameLog db db'
  unfolding persist_projection
  persist_projection-SameLog p now db db' u h = elim (Bool-cases (p.family == "case")) [
    | inl e ↦ persist_case_part-SameLog p p.case_part db db' u (ground arith)
    | inr e ↦ elim (Bool-cases (p.family == "advice")) [
      | inl f ↦ persist_advice_part-SameLog p p.advice_part now db db' u (ground arith)
      | inr f ↦ absurd (ground arith)
    ]
  ]

  judge_claimed-SameLog :
      (p : VerifiedProjection) (reason : String) (now : ℕ) (o : ApplyOutcome) (db db' : EdgeDb)
      (j : Judged)
      → judge_claimed sha aead tenant payload nonce p reason now o db ≡ ok (j, db')
      → SameLog db db'
  unfolding judge_claimed
  judge_claimed-SameLog p reason now apply_quarantined db db' j h = record {
    states = ground arith;
    deliveries = ground arith;
  }
  judge_claimed-SameLog p reason now apply_duplicate db db' j h = record {
    states = ground arith;
    deliveries = ground arith;
  }
  judge_claimed-SameLog p reason now _ db db' j h =
      elim (Result-cases (persist_projection aead tenant payload nonce p now db)) [
        | inr (e, i) ↦ absurd (ground arith)
        | inl ((v, db₁), i) ↦ persist_projection-SameLog p now db db' v (ground arith)
      ]

  pub judge-SameLog :
      (d : JournalDelivery) (v : Verdict) (reason : String) (p : Option VerifiedProjection)
      (now : ℕ) (db db' : EdgeDb) (j : Judged)
      → judge sha aead tenant payload nonce d v reason p now db ≡ ok (j, db')
      → SameLog db db'
  unfolding judge
  judge-SameLog d verdict_accepted reason none now db db' j h = absurd (ground arith)
  judge-SameLog d verdict_accepted reason (some p) now db db' j h =
      elim (Result-cases (claim_identity p.envelope_id p.commitment d.delivery_seq now db)) [
        | inr (e, i) ↦ absurd (ground arith)
        | inl ((o, db₁), i) ↦
            trans-SameLog db db₁ db'
              (claim_identity-SameLog p.envelope_id p.commitment d.delivery_seq now db db₁ o i)
              (judge_claimed-SameLog p reason now o db₁ db' j (ground arith))
      ]
  judge-SameLog d verdict_rejected reason p now db db' j h = record {
    states = ground arith;
    deliveries = ground arith;
  }
  judge-SameLog d verdict_quarantined reason p now db db' j h = record {
    states = ground arith;
    deliveries = ground arith;
  }
