-- ===== src/Authority/Revisions.antt =====
-- The commit revisions of the facts of internal/authority/postgres/store.go, which
-- allocateRevision gives out.
use snagline.Prelude.{
  ℕ, suc, ◌≤◌, ◌<◌, String, ◌≡◌, refl, false, List, [], ◌∷◌, arith, All, Bytes, eqb,
}
use snagline.Authority.Tables.{CaseRow, AdviceRow, Db}
use snagline.Authority.Cases.{case_row}
use snagline.Authority.Advice.{advice_row}
use snagline.Authority.Moves.{OutboxMoves-OnlyOutbox}
use snagline.Authority.History.{
  History, start, step, Effect, unchanged, skipped, moved, case_admitted, advice_admitted,
  head_halted, registry_admitted, classified,
}

module _ {A : Type 0} (revision : A → ℕ) where
  -- No row has the revision.
  abbrev pub IsFresh : ℕ → List A → Type 0
  IsFresh n xs = All (λ (y : A). eqb n (revision y) ≡ false) xs

  -- No two rows have the same revision.
  abbrev pub HasUniqueRevisions : List A → Type 0
  HasUniqueRevisions [] = Unit {0}
  HasUniqueRevisions (x ∷ xs) = IsFresh (revision x) xs × HasUniqueRevisions xs

  abbrev pub IsBelow : ℕ → List A → Type 0
  IsBelow n xs = All (λ (y : A). revision y < n) xs

  below-IsFresh : (n : ℕ) (xs : List A) → IsBelow n xs → IsFresh n xs
  below-IsFresh n [] b = tt
  below-IsFresh n (x ∷ xs) b = (ground arith, below-IsFresh n xs b.1)

  later-IsBelow : (n m : ℕ) (xs : List A) → n ≤ m → IsBelow n xs → IsBelow m xs
  later-IsBelow n m [] le b = tt
  later-IsBelow n m (x ∷ xs) le b = (omega (arith, b.0), later-IsBelow n m xs le b.1)

abbrev pub case_revision : CaseRow → ℕ
case_revision row = row.commit_revision

abbrev pub advice_revision : AdviceRow → ℕ
advice_revision row = row.commit_revision

-- Every fact has a revision of its own, below the next one.
pub record HasOwnRevisions (next : ℕ) (cases : List CaseRow) (advice : List AdviceRow)
    : Type 0 where
  pub cases_below : IsBelow case_revision next cases
  pub advice_below : IsBelow advice_revision next advice
  pub cases_unique : HasUniqueRevisions case_revision cases
  pub advice_unique : HasUniqueRevisions advice_revision advice
  pub apart : All (λ (row : CaseRow). IsFresh advice_revision row.commit_revision advice) cases

add_apart :
    (n : ℕ) (new : AdviceRow) (advice : List AdviceRow) (cases : List CaseRow)
    → new.commit_revision ≡ n
    → IsBelow case_revision n cases
    → All (λ (row : CaseRow). IsFresh advice_revision row.commit_revision advice) cases
    → All (λ (row : CaseRow). IsFresh advice_revision row.commit_revision (new ∷ advice)) cases
add_apart n new advice [] e b a = tt
add_apart n new advice (row ∷ cases) e b a =
    ((ground (arith, b.0), a.0), add_apart n new advice cases e b.1 a.1)

case-HasOwnRevisions :
    (n : ℕ) (new : CaseRow) (cases : List CaseRow) (advice : List AdviceRow)
    → new.commit_revision ≡ n
    → HasOwnRevisions n cases advice
    → HasOwnRevisions (suc n) (new ∷ cases) advice
case-HasOwnRevisions n new cases advice e o = record {
  cases_below =
      (omega (arith, e), later-IsBelow case_revision n (suc n) cases (omega arith) o.cases_below);
  advice_below = later-IsBelow advice_revision n (suc n) advice (omega arith) o.advice_below;
  cases_unique = (rw e (below-IsFresh case_revision n cases o.cases_below), o.cases_unique);
  advice_unique = o.advice_unique;
  apart = (rw e (below-IsFresh advice_revision n advice o.advice_below), o.apart);
}

advice-HasOwnRevisions :
    (n : ℕ) (new : AdviceRow) (cases : List CaseRow) (advice : List AdviceRow)
    → new.commit_revision ≡ n
    → HasOwnRevisions n cases advice
    → HasOwnRevisions (suc n) cases (new ∷ advice)
advice-HasOwnRevisions n new cases advice e o = record {
  cases_below = later-IsBelow case_revision n (suc n) cases (omega arith) o.cases_below;
  advice_below = (
    omega (arith, e),
    later-IsBelow advice_revision n (suc n) advice (omega arith) o.advice_below,
  );
  cases_unique = o.cases_unique;
  advice_unique = (rw e (below-IsFresh advice_revision n advice o.advice_below), o.advice_unique);
  apart = add_apart n new advice cases e o.cases_below o.apart;
}

module _ (db db' : Db) (o : HasOwnRevisions db.next_revision db.cases db.advice) where
  same-HasOwnRevisions :
      db.next_revision ≤ db'.next_revision
      → db'.cases ≡ db.cases
      → db'.advice ≡ db.advice
      → HasOwnRevisions db'.next_revision db'.cases db'.advice
  same-HasOwnRevisions le c a =
      let n = db.next_revision in
      let m = db'.next_revision in
      rw (c, a)
        (record {
          cases_below = later-IsBelow case_revision n m db.cases le o.cases_below;
          advice_below = later-IsBelow advice_revision n m db.advice le o.advice_below;
          cases_unique = o.cases_unique;
          advice_unique = o.advice_unique;
          apart = o.apart;
        })

  Effect-HasOwnRevisions : Effect db db' → HasOwnRevisions db'.next_revision db'.cases db'.advice
  unfolding case_row advice_row
  Effect-HasOwnRevisions (unchanged e) =
      same-HasOwnRevisions (ground (arith, e)) (ground (arith, e)) (ground (arith, e))
  Effect-HasOwnRevisions (skipped n e) =
      same-HasOwnRevisions (ground (arith, e)) (ground (arith, e)) (ground (arith, e))
  Effect-HasOwnRevisions (moved m) =
      let e = OutboxMoves-OnlyOutbox db db' m in
      same-HasOwnRevisions (ground (arith, e)) (ground (arith, e)) (ground (arith, e))
  Effect-HasOwnRevisions (case_admitted now r v a) =
      rw (a.written.next_revision, a.written.cases, a.written.advice)
        (case-HasOwnRevisions db.next_revision (case_row r db.next_revision) db.cases db.advice refl
          o)
  Effect-HasOwnRevisions (advice_admitted now r target v a) =
      rw (a.written.next_revision, a.written.cases, a.written.advice)
        (advice-HasOwnRevisions db.next_revision (advice_row r target _ db.next_revision) db.cases
          db.advice refl o)
  Effect-HasOwnRevisions (head_halted r reason e a) =
      same-HasOwnRevisions (ground (arith, a.written)) (ground (arith, a.written))
        (ground (arith, a.written))
  Effect-HasOwnRevisions (registry_admitted r rows a) =
      same-HasOwnRevisions (ground (arith, a.written)) (ground (arith, a.written))
        (ground (arith, a.written))

-- In every reachable state each case and each advice has a revision of its own.
pub History-HasOwnRevisions :
    (sha : Bytes → String) (authority_id : String) (db : Db)
    → History sha authority_id db
    → HasOwnRevisions db.next_revision db.cases db.advice
History-HasOwnRevisions sha authority_id _ start = record {
  cases_below = tt;
  advice_below = tt;
  cases_unique = tt;
  advice_unique = tt;
  apart = tt;
}
History-HasOwnRevisions sha authority_id _ (step {db} {db'} h c) =
    Effect-HasOwnRevisions db db' (History-HasOwnRevisions sha authority_id db h)
      (classified sha authority_id db db' c)
