-- ===== src/Edge/Turns.antt =====
-- internal/sspedge/dispatcher_turn_store.go: the durable outcome of each dispatcher turn.
use snagline.Prelude.{
  ℕ, ◌+◌, ◌*◌, String, Bool, true, false, not, ◌&&◌, ◌||◌, Option, none, some, List, [], ◌∷◌, ◌==◌,
  eqb, leb, ltb, if◌then◌else◌, length, find, any, select, update_where, Bytes, bytes_equal,
}
use snagline.Tx.{Result, ok, err, Tx, pure, fail}
use snagline.Edge.Vault.{Aead, seal, open_sealed}
use snagline.Edge.Validate.{valid_routing_token}

pub data TurnState : Type 0 where
  pending completed : TurnState

pub data TurnError : Type 0 where
  invalid_turn corrupt_turn turn_mismatch turn_capacity lost_turn : TurnError
  turn_not_found result_conflict invalid_turn_state : TurnError

-- NULL columns are `none`; a result that is NULL has no bytes.
pub record TurnRow : Type 0 where
  pub event_id : String
  pub request_ciphertext : Bytes
  pub result_ciphertext : Bytes
  pub state : TurnState
  pub created : ℕ
  pub expires : ℕ
  pub completed_at : Option ℕ
  pub claim_token : Option String
  pub claim_expires : Option ℕ

pub record TurnBinding : Type 0 where
  pub completed : Bool
  pub in_flight : Bool
  pub claim_token : String
  pub result : Bytes

abbrev pub Turns : Type 0
Turns = List TurnRow

abbrev pub max_request_bytes : ℕ
max_request_bytes = 65536

abbrev pub max_result_bytes : ℕ
max_result_bytes = 16384

-- 30 * 24 hours
abbrev pub max_retention : ℕ
max_retention = 2592000 * 1000000000

abbrev pub max_capacity : ℕ
max_capacity = 1048576

-- 10 minutes
abbrev pub max_claim_ttl : ℕ
max_claim_ttl = 600 * 1000000000

-- dispatcherTurnIDPattern is the pattern of routing tokens.
abbrev pub valid_turn_id : String → Bool
valid_turn_id = valid_routing_token

unfoldable pub within : ℕ → ℕ → Bool
within value limit = not (eqb value 0) && leb value limit

abbrev pub is_turn : String → TurnRow → Bool
is_turn event_id row = row.event_id == event_id

unfoldable pub find_turn : String → Turns → Option TurnRow
find_turn event_id rows = find (is_turn event_id) rows

-- DELETE … WHERE expires_unix_nano <= now
unfoldable pub prune : ℕ → Turns → Turns
prune now rows = select (λ (row : TurnRow). ltb now row.expires) rows

abbrev pub text_or_empty : Option String → String
text_or_empty none = ""
text_or_empty (some value) = value

abbrev pub time_or_zero : Option ℕ → ℕ
time_or_zero none = 0
time_or_zero (some value) = value

abbrev pub is_pending : TurnState → Bool
is_pending pending = true
is_pending completed = false

-- claim_token = ?, which NULL is not
unfoldable pub claimed_by : String → Option String → Bool
claimed_by claim none = false
claimed_by claim (some token) = token == claim

abbrev pub in_flight_binding : TurnBinding
in_flight_binding = record { completed = false; in_flight = true; claim_token = ""; result = [] }

abbrev pub granted_binding : String → TurnBinding
granted_binding token = record {
  completed = false;
  in_flight = false;
  claim_token = token;
  result = [];
}

abbrev pub completed_binding : Bytes → TurnBinding
completed_binding result = record {
  completed = true;
  in_flight = false;
  claim_token = "";
  result = result;
}

unfoldable pub claimed_turn : String → ℕ → TurnRow → TurnRow
claimed_turn token expires row = record row {
  claim_token = some token;
  claim_expires = some expires;
}

abbrev pub request_aad : String
request_aad = "ssp_edge_dispatcher_turn_request"

abbrev pub result_aad : String
result_aad = "ssp_edge_dispatcher_turn_result"

module _ (aead : Aead) (tenant : String) where
  -- The stored request is opened and compared.
  unfoldable pub same_request : String → Bytes → TurnRow → Result TurnError (Unit {0})
  same_request event_id request row =
      elim (open_sealed aead tenant request_aad event_id row.request_ciphertext) [
        | none ↦ err corrupt_turn
        | some stored ↦ if bytes_equal stored request then ok tt else err turn_mismatch
      ]

  -- a pending row of the same request
  unfoldable pub bind_pending : String → ℕ → ℕ → String → TurnRow → Tx Turns TurnError TurnBinding
  bind_pending event_id now claim_ttl token row rows =
      let claim = text_or_empty row.claim_token in
      let expires = time_or_zero row.claim_expires in
      if not (eqb (length row.result_ciphertext) 0)
      then fail invalid_turn_state rows
      else if not (claim == "") && eqb expires 0 || (claim == "" && not (eqb expires 0))
      then fail invalid_turn_state rows
      else if not (claim == "") && ltb now expires
      then pure in_flight_binding rows
      else if any (λ (r : TurnRow). is_turn event_id r && is_pending r.state) rows
      then pure (granted_binding token) (
          update_where (λ (r : TurnRow). is_turn event_id r && is_pending r.state)
            (claimed_turn token (now + claim_ttl)) rows)
      else fail lost_turn rows

  unfoldable pub bind_completed : String → TurnRow → Tx Turns TurnError TurnBinding
  bind_completed event_id row rows =
      if eqb (length row.result_ciphertext) 0
        || (not (text_or_empty row.claim_token == "")
            || not (eqb (time_or_zero row.claim_expires) 0))
      then fail invalid_turn_state rows
      else elim (open_sealed aead tenant result_aad event_id row.result_ciphertext) [
        | none ↦ fail corrupt_turn rows
        | some result ↦
            if within (length result) max_result_bytes
            then pure (completed_binding result) rows
            else fail invalid_turn_state rows
      ]

  abbrev pub new_turn : String → Bytes → Bytes → ℕ → ℕ → ℕ → String → TurnRow
  new_turn event_id nonce request now retention claim_ttl token = record {
    event_id = event_id;
    request_ciphertext = seal aead tenant nonce request_aad event_id request;
    result_ciphertext = [];
    state = pending;
    created = now;
    expires = now + retention;
    completed_at = none;
    claim_token = some token;
    claim_expires = some (now + claim_ttl);
  }

  unfoldable pub bind_found :
      String → Bytes → ℕ → ℕ → String → TurnRow → Tx Turns TurnError TurnBinding
  bind_found event_id request now claim_ttl token row rows =
      elim (same_request event_id request row) [
        | err e ↦ fail e rows
        | ok _ ↦
            if is_pending row.state
            then bind_pending event_id now claim_ttl token row rows
            else bind_completed event_id row rows
      ]

  unfoldable pub valid_binding : String → Bytes → ℕ → ℕ → ℕ → ℕ → Bool
  valid_binding event_id request now retention claim_ttl capacity =
      valid_turn_id event_id
      && (within (length request) max_request_bytes
          && (not (eqb now 0)
              && (within retention max_retention
                  && (within claim_ttl max_claim_ttl && within capacity max_capacity))))

  -- `rows` are those that pruning has left.
  unfoldable pub bind_pruned :
      String → Bytes → ℕ → ℕ → ℕ → ℕ → Bytes → String → Tx Turns TurnError TurnBinding
  bind_pruned event_id request now retention claim_ttl capacity nonce token rows =
      elim (find_turn event_id rows) [
        | some row ↦ bind_found event_id request now claim_ttl token row rows
        | none ↦
            if leb capacity (length rows)
            then fail turn_capacity rows
            else pure (granted_binding token)
                (new_turn event_id nonce request now retention claim_ttl token ∷ rows)
      ]

  -- `nonce` and `token` are what crypto/rand writes.
  unfoldable pub bind_dispatcher_turn :
      String → Bytes → ℕ → ℕ → ℕ → ℕ → Bytes → String → Tx Turns TurnError TurnBinding
  bind_dispatcher_turn event_id request now retention claim_ttl capacity nonce token rows =
      if valid_binding event_id request now retention claim_ttl capacity
      then bind_pruned event_id request now retention claim_ttl capacity nonce token
          (prune now rows)
      else fail invalid_turn rows

  unfoldable pub completed_turn : Bytes → ℕ → TurnRow → TurnRow
  completed_turn ciphertext at row = record row {
    result_ciphertext = ciphertext;
    state = completed;
    completed_at = some at;
    claim_token = none;
    claim_expires = none;
  }

  -- event_id = ? AND state = 'pending' AND claim_token = ?
  unfoldable pub owns : String → String → TurnRow → Bool
  owns event_id claim row =
      is_turn event_id row && (is_pending row.state && claimed_by claim row.claim_token)

  unfoldable pub complete_again : String → Bytes → TurnRow → Tx Turns TurnError (Unit {0})
  complete_again event_id result row rows =
      if not (text_or_empty row.claim_token == "")
      then fail invalid_turn_state rows
      else elim (open_sealed aead tenant result_aad event_id row.result_ciphertext) [
        | none ↦ fail corrupt_turn rows
        | some stored ↦
            if bytes_equal stored result then pure tt rows else fail result_conflict rows
      ]

  unfoldable pub complete_pending :
      String → Bytes → ℕ → String → Bytes → TurnRow → Tx Turns TurnError (Unit {0})
  complete_pending event_id result at claim nonce row rows =
      if eqb (length row.result_ciphertext) 0 && text_or_empty row.claim_token == claim
      then if any (owns event_id claim) rows
        then pure tt (
            update_where (owns event_id claim)
              (completed_turn (seal aead tenant nonce result_aad event_id result) at) rows)
        else fail lost_turn rows
      else fail invalid_turn_state rows

  unfoldable pub complete_found :
      String → Bytes → Bytes → ℕ → String → Bytes → TurnRow → Tx Turns TurnError (Unit {0})
  unfolding complete_again complete_pending
  complete_found event_id request result at claim nonce row rows =
      elim (same_request event_id request row) [
        | err e ↦ fail e rows
        | ok _ ↦
            if is_pending row.state
            then complete_pending event_id result at claim nonce row rows
            else complete_again event_id result row rows
      ]

  unfoldable pub valid_completion : String → Bytes → Bytes → ℕ → String → Bool
  valid_completion event_id request result at claim =
      valid_turn_id event_id
      && (valid_turn_id claim
          && (within (length request) max_request_bytes
              && (within (length result) max_result_bytes && not (eqb at 0))))

  unfoldable pub complete_dispatcher_turn :
      String → Bytes → Bytes → ℕ → String → Bytes → Tx Turns TurnError (Unit {0})
  complete_dispatcher_turn event_id request result at claim nonce rows =
      if valid_completion event_id request result at claim
      then elim (find_turn event_id rows) [
        | none ↦ fail turn_not_found rows
        | some row ↦ complete_found event_id request result at claim nonce row rows
      ]
      else fail invalid_turn rows

  unfoldable pub released_turn : TurnRow → TurnRow
  released_turn row = record row { claim_token = none; claim_expires = none }

  unfoldable pub update_found :
      Bool → String → Bytes → String → TurnRow → Tx Turns TurnError (Unit {0})
  update_found abandon event_id request claim row rows = elim (same_request event_id request row) [
    | err e ↦ fail e rows
    | ok _ ↦
        if is_pending row.state
          && (eqb (length row.result_ciphertext) 0 && text_or_empty row.claim_token == claim)
        then if any (owns event_id claim) rows
          then pure tt (
              if abandon
              then select (λ (r : TurnRow). not (owns event_id claim r)) rows
              else update_where (owns event_id claim) released_turn rows)
          else fail lost_turn rows
        else fail invalid_turn_state rows
  ]

  -- ReleaseDispatcherTurnClaim, and AbandonDispatcherTurn where `abandon` is true
  unfoldable pub update_turn_claim : Bool → String → Bytes → String → Tx Turns TurnError (Unit {0})
  update_turn_claim abandon event_id request claim rows =
      if valid_turn_id event_id
        && (valid_turn_id claim && within (length request) max_request_bytes)
      then elim (find_turn event_id rows) [
        | none ↦ fail turn_not_found rows
        | some row ↦ update_found abandon event_id request claim row rows
      ]
      else fail invalid_turn rows
