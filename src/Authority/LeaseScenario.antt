-- ===== src/Authority/LeaseScenario.antt =====
-- The concrete run of the outbox that the examples use: a worker claims the three rows of the
-- scenario, publishes one and releases another.
use snagline.Prelude.{
  ℕ, String, ◌≡◌, refl, Bool, true, false, Option, none, some, List, [], ◌∷◌, find, any, select,
  update_where, valid_text,
}
use snagline.Tx.{Result, ok, err}
use snagline.Authority.Tables.{OutboxRow, Db, case_fact, edge_delivery}
use snagline.Authority.Outbox.{
  OutboxError, Item, Grant, due_le, insert_due, order_due, leased, has_token, joined_case,
  joined_delivery, item_of, read_claimed_outbox_item, lease_rows, valid_claim, selected, claim,
  is_open, is_none, lease_over, claimable,
}
use snagline.Authority.Closures.{holds, published, mark_published, released, release}
use snagline.Authority.Moves.{claims, publishes}
use snagline.Authority.OutboxRows.{row_of}
use snagline.Authority.History.{empty_db, Commits, History, outbox_moves, step}
use snagline.Authority.Scenario.{sha, advised, advised-History}

abbrev pub text_le : String → String → Bool
text_le a b = true

abbrev pub locked : String → Bool
locked id = false

abbrev pub grants : ℕ → Grant
grants n = record { at = 10; token = "token" }

abbrev pub lease : ℕ
lease = 1000000

abbrev pub items_of : Result OutboxError (List Item × Db) → List Item
items_of (ok (items, db)) = items
items_of (err e) = []

abbrev claimed_of : Result OutboxError (List Item × Db) → Db
claimed_of (ok (items, db)) = db
claimed_of (err e) = empty_db

abbrev closed_of : Result OutboxError Db → Db
closed_of (ok db) = db
closed_of (err e) = empty_db

unfoldable pub items : List Item
unfolding advised find any select update_where valid_text due_le insert_due order_due leased
    has_token joined_case joined_delivery item_of read_claimed_outbox_item lease_rows valid_claim
    selected claim is_open is_none lease_over claimable holds published mark_published released
    release
items = items_of (claim text_le locked 10 grants "w" 10 lease advised)

unfoldable pub claimed : Db
unfolding advised find any select update_where valid_text due_le insert_due order_due leased
    has_token joined_case joined_delivery item_of read_claimed_outbox_item lease_rows valid_claim
    selected claim is_open is_none lease_over claimable holds published mark_published released
    release
claimed = claimed_of (claim text_le locked 10 grants "w" 10 lease advised)

pub claimed_ok : claim text_le locked 10 grants "w" 10 lease advised ≡ ok (items, claimed)
unfolding items claimed
claimed_ok = refl

pub claimed-History : History sha "a" claimed
claimed-History =
    step advised-History
      (outbox_moves (claims text_le locked 10 grants "w" 10 lease items claimed_ok))

-- The newest row of the outbox.
abbrev id_in : List OutboxRow → String
id_in [] = ""
id_in (row ∷ rows) = row.outbox_id

unfoldable pub newest : String
unfolding claimed
newest = id_in claimed.outbox

abbrev blank : OutboxRow
blank = record {
  outbox_id = "";
  tenant_id = "";
  event_kind = case_fact;
  entity_id = "";
  destination_kind = edge_delivery;
  destination_key = [];
  raw = [];
  authority_revision = 0;
  created_at = 0;
  attempts = 0;
  next_attempt_at = 0;
  lease = none;
  last_error = "";
  poisoned_at = none;
  published_at = none;
}

abbrev row_or_blank : Option OutboxRow → OutboxRow
row_or_blank none = blank
row_or_blank (some row) = row

unfoldable pub newest_leased : OutboxRow
unfolding claimed newest find
newest_leased = row_or_blank (row_of newest claimed.outbox)

pub newest_leased_ok : row_of newest claimed.outbox ≡ some newest_leased
unfolding newest_leased
newest_leased_ok = refl

pub newest_lease_ok :
    newest_leased.lease ≡ some (record { owner = "w"; token = "token"; lease_until = 1000010 })
unfolding newest_leased
newest_lease_ok = refl

-- A claim while the three leases run finds nothing.
pub nothing_ok : claim text_le locked 11 grants "v" 10 lease claimed ≡ ok ([], claimed)
unfolding claimed
nothing_ok = refl

unfoldable pub sent : Db
unfolding claimed newest any update_where valid_text mark_published holds published
sent = closed_of (mark_published newest "token" 12 claimed)

sent_ok : mark_published newest "token" 12 claimed ≡ ok sent
unfolding sent
sent_ok = refl

pub sent-History : History sha "a" sent
sent-History = step claimed-History (outbox_moves (publishes newest "token" 12 sent_ok))

unfoldable pub newest_sent : OutboxRow
unfolding sent find
newest_sent = row_or_blank (row_of newest sent.outbox)

pub newest_sent_ok : row_of newest sent.outbox ≡ some newest_sent
unfolding newest_sent sent
newest_sent_ok = refl

pub newest_is_closed : is_open newest_sent ≡ false
unfolding newest_sent
newest_is_closed = refl

-- Another worker claims what is left, once the leases are over.
unfoldable pub claimed_again : Db
unfolding sent
claimed_again = claimed_of (claim text_le locked 2000000 grants "v" 10 lease sent)

again_ok :
    claim text_le locked 2000000 grants "v" 10 lease sent
    ≡ ok (items_of (claim text_le locked 2000000 grants "v" 10 lease sent), claimed_again)
unfolding claimed_again
again_ok = refl

pub again-Commits : Commits sha "a" sent claimed_again
again-Commits = outbox_moves (claims text_le locked 2000000 grants "v" 10 lease _ again_ok)
