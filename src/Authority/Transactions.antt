-- ===== src/Authority/Transactions.antt =====
-- `transaction` of internal/authority/postgres/store.go, and the three commits through it.
use snagline.Prelude.{
  ℕ, String, Bool, true, false, ◌||◌, Option, none, some, List, [], ◌∷◌, if◌then◌else◌, Bytes,
}
use snagline.Tx.{Result, ok, err, Tx}
use snagline.Authority.Request.{
  Error, CommitReceipt, CommitCaseRequest, CommitAdviceRequest, CommitRegistryRequest,
  validate_case, validate_advice, validate_registry, retry_transaction, serialization,
  exhausted_retries, invalid_request,
}
use snagline.Authority.Tables.{Db}
use snagline.Authority.Sql.{Work}
use snagline.Authority.Cases.{case_work}
use snagline.Authority.Advice.{advice_work}
use snagline.Authority.Registries.{registry_work}

-- How the database answers BEGIN, the statements of a body, ROLLBACK and COMMIT: well, with a
-- serialization failure (SQLSTATE 40001), or with another error.
pub data Answer : Type 0 where
  done serialization_failure other_error : Answer

-- One round of the loop: the committed state that it reads, and the database's answers;
-- `body_answer` is that of the first statement of the body that is not answered well.
pub record Attempt : Type 0 where
  pub db : Db
  pub begin_answer : Answer
  pub body_answer : Answer
  pub rollback_answer : Answer
  pub commit_answer : Answer

abbrev pub retryable_error : Error → Bool
retryable_error retry_transaction = true
retryable_error serialization = true
retryable_error _ = false

abbrev pub retryable_answer : Answer → Bool
retryable_answer serialization_failure = true
retryable_answer _ = false

-- What a call returns, and the state that the database has told it is committed. A connection that
-- is lost during COMMIT leaves the call with an error and without that knowledge.
pub record Outcome : Type 0 where
  pub returned : Result Error CommitReceipt
  pub committed : Option Db

abbrev pub failed : Error → Outcome
failed e = record { returned = err e; committed = none }

-- The end of a round: the call returns, or the loop goes on.
pub data Round : Type 0 where
  return : Outcome → Round
  continue : Round

unfoldable pub commit_answered : Answer → Result Error CommitReceipt → Db → Round
commit_answered done returned db = return (record { returned = returned; committed = some db })
commit_answered serialization_failure returned db = continue
commit_answered other_error returned db = return (failed Error.database)

abbrev pub returned_of : CommitReceipt → Option Error → Result Error CommitReceipt
returned_of r none = ok r
returned_of r (some e) = err e

unfoldable pub rolled_back : Error → Answer → Round
rolled_back e answer =
    if retryable_error e || retryable_answer answer then continue else return (failed e)

unfoldable pub finish_work : Attempt → Result Error (Work × Db) → Round
finish_work a (err e) = rolled_back e a.rollback_answer
finish_work a (ok ((receipt, false, some e), db)) = rolled_back e a.rollback_answer
finish_work a (ok ((receipt, commit, error), db)) =
    commit_answered a.commit_answer (returned_of receipt error) db

-- A statement that fails ends the body with its error and nothing to commit.
unfoldable pub run_body : Tx Db Error Work → Attempt → Result Error (Work × Db)
run_body work a = elim a.body_answer [
  | done ↦ work a.db
  | serialization_failure ↦ err serialization
  | other_error ↦ err Error.database
]

unfoldable pub round : Tx Db Error Work → Attempt → Round
round work a = elim a.begin_answer [
  | done ↦ finish_work a (run_body work a)
  | _ ↦ return (failed Error.database)
]

-- The loop over the attempts left.
unfoldable pub attempts : Tx Db Error Work → List Attempt → Outcome
attempts work [] = failed exhausted_retries
attempts work (a ∷ rest) = elim (round work a) [
  | return outcome ↦ outcome
  | continue ↦ attempts work rest
]

-- transactionAttempts = 3
unfoldable pub transaction : Tx Db Error Work → Attempt → Attempt → Attempt → Outcome
transaction work a b c = attempts work (a ∷ b ∷ c ∷ [])

module _ (sha : Bytes → String) (authority_id : String) (now : ℕ) where
  unfoldable pub commit_case : CommitCaseRequest → Attempt → Attempt → Attempt → Outcome
  commit_case r a b c =
      if validate_case r
      then transaction (case_work sha authority_id now r) a b c
      else failed invalid_request

  unfoldable pub commit_advice : CommitAdviceRequest → Attempt → Attempt → Attempt → Outcome
  commit_advice r a b c =
      if validate_advice r
      then transaction (advice_work sha authority_id now r) a b c
      else failed invalid_request

  unfoldable pub commit_registry : CommitRegistryRequest → Attempt → Attempt → Attempt → Outcome
  commit_registry r a b c =
      if validate_registry r
      then transaction (registry_work authority_id r) a b c
      else failed invalid_request
