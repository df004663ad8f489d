-- ===== src/Authority/Closures.antt =====
-- MarkPublished and Release of internal/authority/postgres/outbox.go.
use snagline.Prelude.{
  ℕ, suc, String, Bool, true, false, not, ◌&&◌, none, some, leb, ltb, if◌then◌else◌, valid_text,
  any, update_where,
}
use snagline.Tx.{Result, ok, err}
use snagline.Authority.Tables.{OutboxRow, Db}
use snagline.Authority.Outbox.{
  OutboxError, invalid_publish_closure, invalid_release, stale_outbox_lease, ReleaseReason,
  other_reason, reason_text, max_outbox_attempts, has_id, is_open, lease_over, has_token,
}

-- The row is open, and the token holds a live lease of it.
unfoldable pub holds : String → String → ℕ → OutboxRow → Bool
unfolding lease_over has_token is_open
holds id token now row =
    has_id id row && (has_token token row.lease && (not (lease_over now row.lease) && is_open row))

unfoldable pub published : ℕ → OutboxRow → OutboxRow
published now row = record row { published_at = some now; lease = none; last_error = "" }

unfoldable pub mark_published : String → String → ℕ → Db → Result OutboxError Db
mark_published id token now db = elim (valid_text id && valid_text token) [
  | false ↦ err invalid_publish_closure
  | true ↦ (elim (any (holds id token now) db.outbox) [
    | false ↦ err stale_outbox_lease
    | true ↦ ok (record db { outbox = update_where (holds id token now) (published now) db.outbox })
  ])
]

unfoldable pub released : ℕ → ℕ → ReleaseReason → OutboxRow → OutboxRow
released now retry_at reason row = record row {
  attempts = suc row.attempts;
  next_attempt_at = retry_at;
  last_error = reason_text reason;
  poisoned_at = if leb max_outbox_attempts (suc row.attempts) then some now else none;
  lease = none;
}

abbrev pub known_reason : ReleaseReason → Bool
known_reason other_reason = false
known_reason _ = true

unfoldable pub release : String → String → ℕ → ReleaseReason → ℕ → Db → Result OutboxError Db
release id token retry_at reason now db =
    elim (valid_text id && (valid_text token && (ltb 0 retry_at && known_reason reason))) [
      | false ↦ err invalid_release
      | true ↦ (elim (any (holds id token now) db.outbox) [
        | false ↦ err stale_outbox_lease
        | true ↦ ok (record db {
          outbox = update_where (holds id token now) (released now retry_at reason) db.outbox;
        })
      ])
    ]
