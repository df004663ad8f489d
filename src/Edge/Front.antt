-- ===== src/Edge/Front.antt =====
-- ClaimFrontDeliveries and MarkFrontDelivered of internal/sspedge/store.go.
-- The claim tokens that crypto/rand writes are an argument, numbered in the order of their use.
use snagline.Prelude.{
  ℕ, suc, ◌+◌, String, Bool, true, false, not, ◌&&◌, ◌||◌, Option, none, some, List, [], ◌∷◌, ◌==◌,
  eqb, if◌then◌else◌, find, any, select, update_where, take, Bytes, utf8,
}
use snagline.Tx.{Tx, pure, fail, ◌>>=◌}
use snagline.Edge.Vault.{Aead, open_sealed}
use snagline.Edge.Tables.{
  FrontState, front_pending, front_delivering, front_delivered, AdviceRow, FrontRow, EdgeDb,
  StoreError, invalid_front_claim, invalid_front_receipt, unreadable_advice, message_not_found,
  receipt_mismatch, lost_claim,
}
use snagline.Edge.Projection.{is_accepted, is_front}
use snagline.Edge.Clock.{text_before, bytes_before}

pub record FrontDelivery : Type 0 where
  pub front : String
  pub case_id : String
  pub advice_id : String
  pub message_id : String
  pub text : Bytes
  pub claim_token : String

pub record FrontReceipt : Type 0 where
  pub front : String
  pub message_id : String
  pub claim_token : String
  pub receipt_id : String

pub data DeliveryOutcome : Type 0 where
  delivery_recorded delivery_duplicate : DeliveryOutcome

unfoldable pub valid_front : String → Bool
valid_front front = front == "cli" || front == "amq"

-- lease_expires_at < now; NULL is not below
unfoldable pub lease_lapsed : ℕ → Option ℕ → Bool
lease_lapsed now none = false
lease_lapsed now (some expires) = text_before expires now

-- state = 'pending' OR (state = 'delivering' AND lease_expires_at < ?)
unfoldable pub claimable : ℕ → FrontRow → Bool
claimable now row = elim row.state [
  | front_pending ↦ true
  | front_delivering ↦ lease_lapsed now row.lease_expires_at
  | _ ↦ false
]

-- ORDER BY created_at, advice_id
front_before : FrontRow → FrontRow → Bool
front_before a b =
    text_before a.created_at b.created_at
    || (eqb a.created_at b.created_at && bytes_before (utf8 a.advice_id) (utf8 b.advice_id))

insert_ordered : FrontRow → List FrontRow → List FrontRow
unfolding front_before
insert_ordered row [] = row ∷ []
insert_ordered row (x ∷ xs) = if front_before row x then row ∷ x ∷ xs else x ∷ insert_ordered row xs

ordered : List FrontRow → List FrontRow
unfolding insert_ordered
ordered [] = []
ordered (row ∷ rows) = insert_ordered row (ordered rows)

-- A row of the SELECT's join.
pub record Candidate : Type 0 where
  pub case_id : String
  pub advice_id : String
  pub message_id : String
  pub text_ciphertext : Bytes

candidate : FrontRow → AdviceRow → Candidate
candidate row a = record {
  case_id = a.case_id;
  advice_id = row.advice_id;
  message_id = row.message_id;
  text_ciphertext = a.text_ciphertext;
}

joined : List AdviceRow → List FrontRow → List Candidate
unfolding candidate
joined advice [] = []
joined advice (row ∷ rows) =
    elim (find (λ (a : AdviceRow). a.advice_id == row.advice_id && is_accepted a.state) advice) [
      | none ↦ joined advice rows
      | some a ↦ candidate row a ∷ joined advice rows
    ]

unfoldable pub candidates : String → ℕ → ℕ → EdgeDb → List Candidate
unfolding joined ordered
candidates front limit now db = take limit (
    joined db.advice (
      ordered
        (select (λ (row : FrontRow). row.front == front && claimable now row) db.front_outbox)))

unfoldable pub leased_front : String → ℕ → String → FrontRow → FrontRow
leased_front owner expires token row = record row {
  state = front_delivering;
  lease_owner = some owner;
  lease_expires_at = some expires;
  claim_token = some token;
}

-- the WHERE clause of the update
unfoldable pub claims : String → String → ℕ → FrontRow → Bool
claims front advice_id now row = is_front front advice_id row && claimable now row

module _ (aead : Aead) (tenant : String) (tokens : ℕ → String) (front owner : String)
    (expires now : ℕ) where
  -- The items with their leases; a row that is no longer claimable is passed over.
  unfoldable pub claim_candidates : ℕ → List Candidate → Tx EdgeDb StoreError (List FrontDelivery)
  claim_candidates n [] db = pure [] db
  claim_candidates n (c ∷ cs) db =
      let claimed = record db {
        front_outbox =
            update_where (claims front c.advice_id now) (leased_front owner expires (tokens n))
              db.front_outbox;
      } in
      if any (claims front c.advice_id now) db.front_outbox
      then elim (open_sealed aead tenant "ssp_edge_advice" c.advice_id c.text_ciphertext) [
        | none ↦ fail unreadable_advice db
        | some text ↦
            (do
              rest ← claim_candidates (suc n) cs
              pure (
                  record {
                    front = front;
                    case_id = c.case_id;
                    advice_id = c.advice_id;
                    message_id = c.message_id;
                    text = text;
                    claim_token = tokens n;
                  }
                  ∷ rest))
              claimed
      ]
      else claim_candidates (suc n) cs db

unfoldable pub claim_front_deliveries :
    Aead
    → String
    → (ℕ → String)
    → String
    → String
    → ℕ
    → ℕ
    → ℕ
    → Tx EdgeDb StoreError (List FrontDelivery)
claim_front_deliveries aead tenant tokens front owner ttl limit now db =
    if not (valid_front front) || (owner == "" || (eqb ttl 0 || (eqb limit 0 || eqb now 0)))
    then fail invalid_front_claim db
    else claim_candidates aead tenant tokens front owner (now + ttl) now 0
        (candidates front limit now db) db

abbrev pub has_message : String → String → FrontRow → Bool
has_message front message_id row = row.front == front && row.message_id == message_id

-- COALESCE(value, '') = text
unfoldable pub holds_text : Option String → String → Bool
holds_text none text = "" == text
holds_text (some value) text = value == text

-- claim_token = ?, which NULL is not
unfoldable pub has_claim : String → Option String → Bool
has_claim token none = false
has_claim token (some value) = value == token

unfoldable pub is_delivering : FrontState → Bool
is_delivering front_delivering = true
is_delivering _ = false

unfoldable pub delivered_front : String → ℕ → FrontRow → FrontRow
delivered_front receipt_id now row = record row {
  state = front_delivered;
  delivery_receipt = some receipt_id;
  delivered_at = some now;
  lease_owner = none;
  lease_expires_at = none;
}

unfoldable pub valid_front_receipt : FrontReceipt → ℕ → Bool
valid_front_receipt r now =
    valid_front r.front
    && (not (r.message_id == "")
        && (not (r.claim_token == "") && (not (r.receipt_id == "") && not (eqb now 0))))

-- the row that the SELECT reads
unfoldable pub mark_row : FrontReceipt → ℕ → FrontRow → Tx EdgeDb StoreError DeliveryOutcome
mark_row r now row db = elim row.state [
  | front_delivered ↦
      if holds_text row.delivery_receipt r.receipt_id
      then pure delivery_duplicate db
      else fail receipt_mismatch db
  | front_delivering ↦
      if holds_text row.claim_token r.claim_token
      then pure delivery_recorded (record db {
        front_outbox =
            update_where
              (λ (x : FrontRow).
                has_message r.front r.message_id x
                && (is_delivering x.state && has_claim r.claim_token x.claim_token))
              (delivered_front r.receipt_id now) db.front_outbox;
      })
      else fail lost_claim db
  | _ ↦ fail lost_claim db
]

unfoldable pub mark_front_delivered : FrontReceipt → ℕ → Tx EdgeDb StoreError DeliveryOutcome
mark_front_delivered r now db =
    if valid_front_receipt r now
    then elim (find (has_message r.front r.message_id) db.front_outbox) [
      | none ↦ fail message_not_found db
      | some row ↦ mark_row r now row db
    ]
    else fail invalid_front_receipt db
