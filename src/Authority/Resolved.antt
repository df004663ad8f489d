-- ===== src/Authority/Resolved.antt =====
-- ResolveCase of internal/authority/postgres/store.go after CommitCase.
use snagline.Prelude.{
  ℕ, String, ◌≡◌, Bool, true, ◌&&◌, some, List, [], ◌∷◌, arith, ◌==◌, find, Bytes, Bool-cases, inl,
  inr,
}
use snagline.Tx.{ok}
use snagline.Authority.Request.{CommitCaseRequest, validate_case}
use snagline.Authority.Tables.{CaseRow, Db}
use snagline.Authority.Sql.{Work, receipt, with_authority}
use snagline.Authority.Cases.{find_case, is_case, same_case, case_work}
use snagline.Authority.Reads.{resolve_case}
use snagline.Authority.History.{History}
use snagline.Authority.Replay.{Later, Later-case, History-positive, work-AnsweredBy}

find-narrow :
    (p q : CaseRow → Bool) (rows : List CaseRow) (row : CaseRow)
    → find p rows ≡ some row
    → q row ≡ true
    → find (λ x. p x && q x) rows ≡ some row
unfolding find
find-narrow p q [] row h k = absurd (ground arith)
find-narrow p q (r ∷ rows) row h k = elim (Bool-cases (p r)) [
  | inl e ↦ let same : r ≡ row = ground arith in ground (arith, e, same, k)
  | inr e ↦ let rest = find-narrow p q rows row (ground arith) k in ground (arith, e, rest)
]

found_again :
    (r : CommitCaseRequest) (row : CaseRow) (db : Db)
    → validate_case r ≡ true
    → find_case r.tenant_id r.case_id db ≡ some row
    → same_case row r ≡ true
    → resolve_case r.tenant_id r.case_id r.commitment db ≡ ok row
unfolding resolve_case validate_case find_case same_case
found_again r row db v found same =
    let narrow =
      find-narrow (is_case r.tenant_id r.case_id) (λ (x : CaseRow). x.commitment == r.commitment)
        db.cases row found (ground arith) in
    ground (arith, narrow)

-- Once a body of CommitCase for a valid request has ended with a receipt, ResolveCase finds the case
-- by the request's tenant, case and commitment in every state that later commits reach, with the
-- request's contents and the receipt's revision.
pub resolved_case :
    (sha : Bytes → String) (authority_id : String) (at : ℕ) (r : CommitCaseRequest)
    (db db' end : Db) (w : Work)
    → History sha authority_id db
    → validate_case r ≡ true
    → case_work sha authority_id at r db ≡ ok (w, db')
    → Later sha authority_id db' end
    → (row : CaseRow) × (resolve_case r.tenant_id r.case_id r.commitment end ≡ ok row)
      × (same_case row r ≡ true)
      × (row.commit_revision ≡ w.0.revision)
unfolding with_authority receipt
resolved_case sha authority_id at r db db' end w history v h l =
    let (row, found, same, e) =
      work-AnsweredBy sha authority_id at r db db' w (History-positive sha authority_id db history)
        h in
    (
      row,
      found_again r row end v
          (Later-case sha authority_id r.tenant_id r.case_id row db' end found l) same,
      same,
      ground (arith, e),
    )
