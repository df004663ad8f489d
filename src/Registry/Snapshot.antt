-- ===== src/Registry/Snapshot.antt =====
-- internal/registry/registry.go and epoch.go. A snapshot keeps the lists of the registry's body
-- and an index of each by its name. Copies of returned slices have no counterpart.
use snagline.Prelude.{
  ℕ, String, Bool, true, false, ◌&&◌, ◌||◌, not, Option, none, some, List, [], ◌∷◌, ◌==◌, eqb, ltb,
  if◌then◌else◌, any, Bytes,
}
use snagline.Tx.{Result, ok, err}

pub record KeyRecord : Type 0 where
  pub key_id : String
  pub public_key : Bytes
  pub principal_id : String
  pub usage : String
  pub not_before : ℕ
  pub expires_at : ℕ
  pub revoked_at : Option ℕ

pub record PrincipalRecord : Type 0 where
  pub principal_id : String
  pub roles : List String
  pub ssp_key_ids : List String
  pub edge_ids : List String

pub record EdgeRecord : Type 0 where
  pub edge_id : String
  pub generation : ℕ
  pub principal_id : String

pub record DomainRoute : Type 0 where
  pub domain : String
  pub dispatcher_principal_id : String
  pub issuer_edge_ids : List String
  pub specialist_principal_ids : List String
  pub families : List String
  pub routing_epoch : ℕ

-- A Go map from names.
abbrev pub NameMap : Type 0 → Type 0
NameMap A = String → Option A

pub record Registry : Type 0 where
  pub revision : ℕ
  pub routing_epoch : ℕ
  pub previous_commitment : String
  pub commitment : String
  pub author_key_id : String
  pub expires_at : ℕ
  pub domains_list : List DomainRoute
  pub principals_list : List PrincipalRecord
  pub edges_list : List EdgeRecord
  pub keys_list : List KeyRecord
  pub domains : NameMap DomainRoute
  pub principals : NameMap PrincipalRecord
  pub edges : NameMap EdgeRecord
  pub keys : NameMap KeyRecord

module _ {A : Type 0} where
  unfoldable pub empty_map : NameMap A
  empty_map id = none

  unfoldable pub put : String → A → NameMap A → NameMap A
  put name a m id = if name == id then some a else m id

  -- for _, value := range list { m[name(value)] = value }
  unfoldable pub put_all : (A → String) → List A → NameMap A → NameMap A
  put_all name [] m = m
  put_all name (a ∷ rest) m = put_all name rest (put (name a) a m)

unfoldable pub index : Registry → Registry
index r = record r {
  domains = put_all (λ (d : DomainRoute). d.domain) r.domains_list empty_map;
  principals = put_all (λ (p : PrincipalRecord). p.principal_id) r.principals_list empty_map;
  edges = put_all (λ (e : EdgeRecord). e.edge_id) r.edges_list empty_map;
  keys = put_all (λ (k : KeyRecord). k.key_id) r.keys_list empty_map;
}

-- A key that is revoked at `at` or before, or that is outside its window, is not usable.
unfoldable pub usable : KeyRecord → ℕ → Bool
usable k at =
    let window = not (ltb at k.not_before) && ltb at k.expires_at in
    elim k.revoked_at [
      | none ↦ window
      | some revoked ↦ if not (ltb at revoked) then false else window
    ]

unfoldable pub authorizes_case_issuer : Registry → String → String → Bool
authorizes_case_issuer r domain edge_id = elim (r.domains domain) [
  | none ↦ false
  | some route ↦
      if edge_id == "" then false else any (λ candidate. candidate == edge_id) route.issuer_edge_ids
]

unfoldable pub authorizes_case_issuer_generation : Registry → String → String → ℕ → Bool
authorizes_case_issuer_generation r domain edge_id generation =
    if eqb generation 0 || not (authorizes_case_issuer r domain edge_id)
    then false
    else (elim (r.edges edge_id) [ none ↦ false | some edge ↦ eqb edge.generation generation ])

-- The test that the loop of SigningKeyFor makes on one of the principal's keys.
unfoldable pub signs : String → String → ℕ → KeyRecord → Bool
signs principal_id usage at key =
    key.principal_id == principal_id && (key.usage == usage && usable key at)

unfoldable pub first_signing_key :
    NameMap KeyRecord → String → String → ℕ → List String → Option KeyRecord
first_signing_key keys principal_id usage at [] = none
first_signing_key keys principal_id usage at (key_id ∷ rest) =
    let later = first_signing_key keys principal_id usage at rest in
    elim (keys key_id) [
      | none ↦ later
      | some key ↦ if signs principal_id usage at key then some key else later
    ]

unfoldable pub signing_key_for : Registry → String → String → ℕ → Option KeyRecord
signing_key_for r principal_id usage at = elim (r.principals principal_id) [
  | none ↦ none
  | some principal ↦ first_signing_key r.keys principal_id usage at principal.ssp_key_ids
]

pub data EpochVerdict : Type 0 where
  current : EpochVerdict
  historical : EpochVerdict
  future : EpochVerdict

pub data EpochError : Type 0 where
  unknown_domain : EpochError

unfoldable pub evaluate_epoch : Registry → String → ℕ → Result EpochError EpochVerdict
evaluate_epoch r domain envelope_routing_epoch = elim (r.domains domain) [
  | none ↦ err unknown_domain
  | some route ↦
      if eqb envelope_routing_epoch route.routing_epoch
      then ok current
      else if ltb envelope_routing_epoch route.routing_epoch
      then ok historical
      else ok future
]

unfoldable pub machine_acceptable_epoch : Registry → String → ℕ → Bool
machine_acceptable_epoch r domain envelope_routing_epoch =
    elim (evaluate_epoch r domain envelope_routing_epoch) [ ok current ↦ true | _ ↦ false ]

pub data BindingError : Type 0 where
  other_revision : BindingError
  other_snapshot : BindingError

unfoldable pub check_binding : Registry → ℕ → String → Result BindingError (Unit {0})
check_binding r revision commitment =
    if not (eqb revision r.revision)
    then err other_revision
    else if not (commitment == r.commitment)
    then err other_snapshot
    else ok tt

-- A snapshot without a validity window has the time 0.
unfoldable pub expired : Registry → ℕ → Bool
expired r at = not (eqb r.expires_at 0) && not (ltb at r.expires_at)
