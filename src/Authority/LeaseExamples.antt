-- ===== src/Authority/LeaseExamples.antt =====
-- The theorems on the outbox, applied to its scenario.
use snagline.Prelude.{◌≡◌, refl, inl, true, some, List, [], All, arith, valid_text}
use snagline.Tx.{ok}
use snagline.Authority.Tables.{Db}
use snagline.Authority.Outbox.{publish_failed, Item, valid_claim, claim}
use snagline.Authority.Closures.{mark_published, release}
use snagline.Authority.OutboxRows.{row_of}
use snagline.Authority.Exclusive.{live_lease-kept}
use snagline.Authority.Claims.{IsClaim, claim-IsClaim}
use snagline.Authority.Answers.{claim_succeeds}
use snagline.Authority.Fenced.{
  Fences, IsClosedAt, IsReturned, mark_published-Fences, release-Fences,
}
use snagline.Authority.Final.{closed_row-final}
use snagline.Authority.Budget.{IsWithinBudget, History-IsWithinBudget}
use snagline.Authority.Scenario.{sha, advised, advised-History}
use snagline.Authority.LeaseScenario.{
  text_le, locked, grants, lease, items, claimed, newest, newest_leased, sent, newest_sent,
  claimed_again, claimed_ok, claimed-History, newest_leased_ok, newest_lease_ok, nothing_ok,
  sent-History, newest_sent_ok, newest_is_closed, again-Commits,
}

claim-IsClaim_example : IsClaim locked 10 grants "w" 10 lease items advised claimed
claim-IsClaim_example =
    claim-IsClaim sha "a" advised claimed text_le locked 10 grants "w" 10 lease items
      advised-History claimed_ok

live_lease-kept_example : row_of newest claimed.outbox ≡ some newest_leased
live_lease-kept_example =
    live_lease-kept sha "a" claimed claimed text_le locked 11 grants "v" 10 lease [] newest
      newest_leased (record { owner = "w"; token = "token"; lease_until = 1000010 }) claimed-History
      nothing_ok newest_leased_ok newest_lease_ok (omega arith)

claim_is_valid : valid_claim "w" 10 lease ≡ true
unfolding claimed_again
claim_is_valid = refl

claim_succeeds_example :
    (found : List Item) × (db : Db) × (claim text_le locked 10 grants "w" 10 lease advised
      ≡ ok (found, db))
claim_succeeds_example =
    claim_succeeds sha "a" advised text_le locked 10 grants "w" 10 lease advised-History
      claim_is_valid

newest_is_named : valid_text newest ≡ true
unfolding claimed_again
newest_is_named = refl

token_is_text : valid_text "token" ≡ true
unfolding valid_text
token_is_text = refl

mark_published-Fences_example :
    Fences (IsClosedAt 12) newest "token" 12 claimed (mark_published newest "token" 12 claimed)
mark_published-Fences_example =
    mark_published-Fences sha "a" claimed newest "token" 12 claimed-History newest_is_named
      token_is_text

release-Fences_example :
    Fences
      (IsReturned 12 20 publish_failed)
      newest
      "token"
      12
      claimed
      (release newest "token" 20 publish_failed 12 claimed)
release-Fences_example =
    release-Fences sha "a" claimed newest "token" 20 12 publish_failed claimed-History
      newest_is_named token_is_text (omega arith) (inl refl)

closed_row-final_example : row_of newest claimed_again.outbox ≡ some newest_sent
closed_row-final_example =
    closed_row-final sha "a" sent claimed_again newest newest_sent sent-History again-Commits
      newest_sent_ok newest_is_closed

History-IsWithinBudget_example : All IsWithinBudget sent.outbox
History-IsWithinBudget_example = History-IsWithinBudget sha "a" sent sent-History
