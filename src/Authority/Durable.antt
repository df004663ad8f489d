-- ===== src/Authority/Durable.antt =====
-- What a call of `transaction` promises.
use snagline.Prelude.{◌≡◌, refl, ◌⊎◌, inl, inr, true, false, none, some, List, [], ◌∷◌, arith}
use snagline.Tx.{Result, ok, err, Tx}
use snagline.Authority.Request.{Error, CommitReceipt}
use snagline.Authority.Tables.{Db}
use snagline.Authority.Sql.{Work}
use snagline.Authority.Transactions.{
  Attempt, done, Outcome, Round, return, continue, rolled_back, commit_answered, finish_work, round,
  run_body, attempts, transaction, returned_of,
}

-- The call committed in the round `a`: its body ended there with `w` and `db`, asking to commit or
-- without an error, and the database has answered BEGIN, its statements and COMMIT well.
pub record CommittedBy (work : Tx Db Error Work) (a : Attempt) (outcome : Outcome) (db : Db)
    (w : Work) : Type 0 where
  pub body : work a.db ≡ ok (w, db)
  pub begun : a.begin_answer ≡ done
  pub ran : a.body_answer ≡ done
  pub answered : a.commit_answer ≡ done
  pub asked : (w.1 ≡ true) ⊎ (w.2 ≡ none)
  pub returned : outcome.returned ≡ returned_of w.0 w.2

finish_work-committed :
    (work : Tx Db Error Work) (a : Attempt) (result : Result Error (Work × Db)) (outcome : Outcome)
    (db : Db)
    → run_body work a ≡ result
    → a.begin_answer ≡ done
    → finish_work a result ≡ return outcome
    → outcome.committed ≡ some db
    → (w : Work) × CommittedBy work a outcome db w
unfolding finish_work rolled_back commit_answered run_body
finish_work-committed work a (err e) outcome db b begun f c = absurd (ground arith)
finish_work-committed work a (ok ((receipt, false, some e), db'')) outcome db b begun f c =
    absurd (ground arith)
finish_work-committed work a (ok ((receipt, false, none), db'')) outcome db b begun f c =
    ((receipt, false, none), ground arith)
finish_work-committed work a (ok ((receipt, true, none), db'')) outcome db b begun f c =
    ((receipt, true, none), ground arith)
finish_work-committed work a (ok ((receipt, true, some e), db'')) outcome db b begun f c =
    ((receipt, true, some e), ground arith)

round-committed :
    (work : Tx Db Error Work) (a : Attempt) (outcome : Outcome) (db : Db)
    → round work a ≡ return outcome
    → outcome.committed ≡ some db
    → (w : Work) × CommittedBy work a outcome db w
unfolding round
round-committed work a outcome db r c =
    finish_work-committed work a (run_body work a) outcome db refl (ground arith) (ground arith) c

Round-cases : (r : Round) → ((o : Outcome) × (r ≡ return o)) ⊎ (r ≡ continue)
Round-cases (return o) = inl (o, refl)
Round-cases continue = inr refl

-- An attempt that stands in a list.
pub data In (a : Attempt) : List Attempt → Type 0 where
  first : {rest : List Attempt} → In a (a ∷ rest)
  later : {b : Attempt} {rest : List Attempt} → In a rest → In a (b ∷ rest)

attempts-committed :
    (work : Tx Db Error Work) (tries : List Attempt) (db : Db)
    → (attempts work tries).committed ≡ some db
    → (a : Attempt) × In a tries × (w : Work) × CommittedBy work a (attempts work tries) db w
unfolding attempts
attempts-committed work [] db c = absurd (ground arith)
attempts-committed work (a ∷ rest) db c = elim (Round-cases (round work a)) [
  | inl (o, e) ↦
      (let (w, by) = round-committed work a o db e (ground arith) in (a, first, w, ground arith))
  | inr e ↦
      (let (b, at, w, by) = attempts-committed work rest db (ground arith) in
        (b, later at, w, ground arith))
]

-- A call that leaves a committed state has committed one of its three attempts: that attempt's
-- body ended, on the state that it began with, in the committed state and with the receipt or the
-- error that the call returns, and BEGIN, the body's statements and COMMIT of that attempt succeeded.
pub transaction-committed :
    (work : Tx Db Error Work) (a b c : Attempt) (db : Db)
    → (transaction work a b c).committed ≡ some db
    → (x : Attempt) × In x (a ∷ b ∷ c ∷ [])
      × (w : Work) × CommittedBy work x (transaction work a b c) db w
unfolding transaction
transaction-committed work a b c db h = attempts-committed work (a ∷ b ∷ c ∷ []) db h

-- A body's receipt comes with no error, or is not returned.
finish_work-durable :
    (a : Attempt) (result : Result Error (Work × Db)) (outcome : Outcome) (receipt : CommitReceipt)
    → finish_work a result ≡ return outcome
    → outcome.returned ≡ ok receipt
    → (db : Db) × (outcome.committed ≡ some db)
unfolding finish_work rolled_back commit_answered
finish_work-durable a (err e) outcome receipt f r = absurd (ground arith)
finish_work-durable a (ok ((_, false, some e), db)) outcome receipt f r = absurd (ground arith)
finish_work-durable a (ok ((_, false, none), db)) outcome receipt f r = (db, ground arith)
finish_work-durable a (ok ((_, true, e), db)) outcome receipt f r = (db, ground arith)

attempts-durable :
    (work : Tx Db Error Work) (tries : List Attempt) (receipt : CommitReceipt)
    → (attempts work tries).returned ≡ ok receipt
    → (db : Db) × ((attempts work tries).committed ≡ some db)
unfolding attempts round
attempts-durable work [] receipt r = absurd (ground arith)
attempts-durable work (a ∷ rest) receipt r = elim (Round-cases (round work a)) [
  | inl (o, e) ↦
      (let (db, c) =
          finish_work-durable a (run_body work a) o receipt (ground arith) (ground arith) in
        (db, ground arith))
  | inr e ↦ (let (db, c) = attempts-durable work rest receipt (ground arith) in (db, ground arith))
]

-- A call returns a receipt only if it has committed a state.
pub transaction-durable :
    (work : Tx Db Error Work) (a b c : Attempt) (receipt : CommitReceipt)
    → (transaction work a b c).returned ≡ ok receipt
    → (db : Db) × ((transaction work a b c).committed ≡ some db)
unfolding transaction
transaction-durable work a b c receipt r = attempts-durable work (a ∷ b ∷ c ∷ []) receipt r
