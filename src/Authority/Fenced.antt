-- ===== src/Authority/Fenced.antt =====
-- MarkPublished and Release of internal/authority/postgres/outbox.go, and the lease that they need.
use snagline.Prelude.{
  ℕ, suc, ◌≤◌, leb, ◌<◌, String, ◌≡◌, refl, inl, inr, ◌⊎◌, true, false, none, some, List, [], ◌∷◌,
  arith, ◌==◌, eq_iff, eq_refl, find, find-holds, any, any-find, Bytes, ◌&&◌, valid_text, ltb,
  Option-cases, Bool-cases, update_where, subst, sym,
}
use snagline.Tx.{Result, ok, err}
use snagline.Authority.Tables.{OutboxRow, OutboxLease, Db}
use snagline.Authority.Outbox.{
  OutboxError, stale_outbox_lease, ReleaseReason, publish_failed, malformed_item, has_id,
  reason_text,
}
use snagline.Authority.Closures.{holds, published, released, mark_published, release, known_reason}
use snagline.Authority.OutboxRows.{row_of, row_of-update_where}
use snagline.Authority.Emitted.{HasUniqueIds}
use snagline.Authority.UniqueIds.{History-HasUniqueIds}
use snagline.Authority.History.{History}

-- The token is that of the row's lease, which runs beyond `now`, and the row is open.
pub record HoldsLease (token : String) (now : ℕ) (row : OutboxRow) : Type 0 where
  pub lease : OutboxLease
  pub leased : row.lease ≡ some lease
  pub same_token : lease.token ≡ token
  pub live : now < lease.lease_until
  pub unpublished : row.published_at ≡ none
  pub unpoisoned : row.poisoned_at ≡ none

holds-HoldsLease :
    (id token : String) (now : ℕ) (row : OutboxRow)
    → holds id token now row ≡ true
    → HoldsLease token now row
unfolding holds
holds-HoldsLease id token now row h = elim (Option-cases row.lease) [
  | inl e ↦ absurd (ground arith)
  | inr (l, e) ↦ record {
    lease = l;
    leased = e;
    same_token = ground (arith, eq_iff l.token token);
    live = ground arith;
    unpublished = ground arith;
    unpoisoned = ground arith;
  }
]

HoldsLease-holds :
    (token : String) (now : ℕ) (row : OutboxRow)
    → HoldsLease token now row
    → holds row.outbox_id token now row ≡ true
unfolding holds
HoldsLease-holds token now row h =
    ground (arith, h, eq_refl row.outbox_id, eq_refl token, h.leased, h.live)

held_row :
    (id token : String) (now : ℕ) (rows : List OutboxRow)
    → HasUniqueIds rows
    → any (holds id token now) rows ≡ true
    → (row : OutboxRow) × (row_of id rows ≡ some row) × (holds id token now row ≡ true)
unfolding any find
held_row id token now [] u h = absurd (ground arith)
held_row id token now (row ∷ rows) u h = elim (Bool-cases (holds id token now row)) [
  | inl held ↦ (row, unfold holds in ground arith, held)
  | inr other ↦
      (let (r, found, held) = held_row id token now rows u.1 (ground arith) in
        (r, ground (arith, any-find (has_id id) rows r, eq_iff row.outbox_id id), held))
]

unheld_row :
    (id token : String) (now : ℕ) (rows : List OutboxRow) (row : OutboxRow)
    → any (holds id token now) rows ≡ false
    → row_of id rows ≡ some row
    → holds id token now row ≡ false
unfolding any find
unheld_row id token now [] row h found = absurd (ground arith)
unheld_row id token now (r ∷ rows) row h found = ground (arith, unheld_row id token now rows row)

-- What a closure answers: with the lease held its row becomes one that `Post` relates to it, and no
-- other row changes; without it, the closure is stale and changes nothing.
abbrev pub Fences :
    (OutboxRow → OutboxRow → Type 0) → String → String → ℕ → Db → Result OutboxError Db → Type 0
Fences Post id token now db result =
    ((row : OutboxRow) × (row_of id db.outbox ≡ some row)
      × HoldsLease token now row
      × ((db' : Db) × (result ≡ ok db')
          × ((row' : OutboxRow) × (row_of id db'.outbox ≡ some row') × Post row row')
          × ((j : String) → (j == id) ≡ false → row_of j db'.outbox ≡ row_of j db.outbox)))
    ⊎ (((row : OutboxRow) → row_of id db.outbox ≡ some row → ¬ HoldsLease token now row)
        × (result ≡ err stale_outbox_lease))

-- The row is closed at a time: published, under no lease and without an error.
abbrev pub IsClosedAt : ℕ → OutboxRow → OutboxRow → Type 0
IsClosedAt now row row' =
    row' ≡ record row { published_at = some now; lease = none; last_error = "" }

-- The row has one attempt more, is due at `retry_at`, says why and is under no lease; it is poisoned
-- at its twentieth attempt, and not before.
abbrev pub IsReturned : ℕ → ℕ → ReleaseReason → OutboxRow → OutboxRow → Type 0
IsReturned now retry_at reason row row' =
    ((20 ≤ suc row.attempts)
      × (row' ≡ record row {
        attempts = suc row.attempts;
        next_attempt_at = retry_at;
        last_error = reason_text reason;
        poisoned_at = some now;
        lease = none;
      }))
    ⊎ ((suc row.attempts < 20)
        × (row' ≡ record row {
          attempts = suc row.attempts;
          next_attempt_at = retry_at;
          last_error = reason_text reason;
          poisoned_at = none;
          lease = none;
        }))

module _ (f : OutboxRow → OutboxRow) (keeps : (row : OutboxRow) → (f row).outbox_id ≡ row.outbox_id)
    (id token : String) (now : ℕ) (db : Db) (u : HasUniqueIds db.outbox)
    (Post : OutboxRow → OutboxRow → Type 0) (post : (row : OutboxRow) → Post row (f row)) where
  abbrev closed_state : Db
  closed_state = record db { outbox = update_where (holds id token now) f db.outbox }

  abbrev closing : Result OutboxError Db
  closing = elim (any (holds id token now) db.outbox) [
    | false ↦ err stale_outbox_lease
    | true ↦ ok closed_state
  ]

  other_row : (j : String) → (j == id) ≡ false → row_of j closed_state.outbox ≡ row_of j db.outbox
  other_row j other = elim (Option-cases (row_of j db.outbox)) [
    | inl e ↦ ground (arith, row_of-update_where (holds id token now) f keeps j db.outbox)
    | inr (row, e) ↦
        unfold holds in
        ground (
          arith,
          row_of-update_where (holds id token now) f keeps j db.outbox,
          find-holds (has_id j) db.outbox row,
          eq_iff row.outbox_id j,
          eq_iff row.outbox_id id,
          eq_iff j id,
        )
  ]

  closing-Fences : Fences Post id token now db closing
  closing-Fences = elim (Bool-cases (any (holds id token now) db.outbox)) [
    | inl h ↦
        (let (row, found, held) = held_row id token now db.outbox u h in
          inl (
            row,
            found,
            holds-HoldsLease id token now row held,
            (
              closed_state,
              ground arith,
              (
                f row,
                ground (arith, row_of-update_where (holds id token now) f keeps id db.outbox),
                post row,
              ),
              other_row,
            ),
          ))
    | inr h ↦ inr (
      λ row found lease. ground (
        arith,
        unheld_row id token now db.outbox row h found,
        HoldsLease-holds token now row lease,
        find-holds (has_id id) db.outbox row,
        eq_iff row.outbox_id id,
      ),
      ground arith,
    )
  ]

-- In a reachable state MarkPublished with an identifier and a token that are not blank marks the
-- row as published at `now`, without an error and under no lease, if the token is that of a live lease of the open row, and
-- changes no other row; in every other case it is refused as stale.
pub mark_published-Fences :
    (sha : Bytes → String) (authority_id : String) (db : Db) (id token : String) (now : ℕ)
    → History sha authority_id db
    → valid_text id ≡ true
    → valid_text token ≡ true
    → Fences (IsClosedAt now) id token now db (mark_published id token now db)
unfolding mark_published
mark_published-Fences sha authority_id db id token now hist v w =
    let u = History-HasUniqueIds sha authority_id db hist in
    let keeps : (row : OutboxRow) → (published now row).outbox_id ≡ row.outbox_id =
      λ row. unfold published in refl in
    let closes : (row : OutboxRow) → IsClosedAt now row (published now row) =
      λ row. unfold published in refl in
    let same : mark_published id token now db
        ≡ closing (published now) keeps id token now db u (IsClosedAt now) closes =
      rw (v, mark_published) (rw (w, mark_published) refl) in
    subst (Fences (IsClosedAt now) id token now db) (sym same)
      (closing-Fences (published now) keeps id token now db u (IsClosedAt now) closes)

released-IsReturned :
    (now retry_at : ℕ) (reason : ReleaseReason) (row : OutboxRow)
    → IsReturned now retry_at reason row (released now retry_at reason row)
unfolding released
released-IsReturned now retry_at reason row = elim (Bool-cases (leb 20 (suc row.attempts))) [
  | inl full ↦ inl (ground arith, rw full refl)
  | inr few ↦ inr (ground arith, rw few refl)
]

-- In a reachable state Release with valid arguments counts an attempt of the row, sets when it is
-- next due and why, ends its lease, and poisons it at the twentieth attempt, if the token is that
-- of a live lease of the open row, and changes no other row; in every other case it is refused as
-- stale.
pub release-Fences :
    (sha : Bytes → String) (authority_id : String) (db : Db) (id token : String) (retry_at now : ℕ)
    (reason : ReleaseReason)
    → History sha authority_id db
    → valid_text id ≡ true
    → valid_text token ≡ true
    → 0 < retry_at
    → (reason ≡ publish_failed) ⊎ (reason ≡ malformed_item)
    → Fences
        (IsReturned now retry_at reason)
        id
        token
        now
        db
        (release id token retry_at reason now db)
unfolding release
release-Fences sha authority_id db id token retry_at now reason hist v w later known =
    let valid : (valid_text id && (valid_text token && (ltb 0 retry_at && known_reason reason)))
        ≡ true =
      ground arith in
    let u = History-HasUniqueIds sha authority_id db hist in
    let f = released now retry_at reason in
    let keeps : (row : OutboxRow) → (f row).outbox_id ≡ row.outbox_id =
      λ row. unfold released in refl in
    let same : release id token retry_at reason now db
        ≡ closing f keeps id token now db u (IsReturned now retry_at reason)
            (released-IsReturned now retry_at reason) =
      rw (valid, release) refl in
    subst (Fences (IsReturned now retry_at reason) id token now db) (sym same) (
      closing-Fences f keeps id token now db u (IsReturned now retry_at reason)
        (released-IsReturned now retry_at reason))
