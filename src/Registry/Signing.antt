-- ===== src/Registry/Signing.antt =====
-- The key that a registry snapshot signs with: SigningKeyFor of internal/registry/registry.go.
use snagline.Prelude.{
  ℕ, ◌≤◌, ◌<◌, String, ◌≡◌, inl, inr, true, false, Option, none, some, List, [], ◌∷◌, eq_iff, refl,
  arith, Bool-cases, Option-cases, ap, sym, subst, ◌∙◌,
}
use mathlib.Core.List.{Memᴰ}
use snagline.Registry.Snapshot.{
  Registry, PrincipalRecord, KeyRecord, NameMap, index, put_all, empty_map, usable, signs,
  first_signing_key, signing_key_for,
}
use snagline.Registry.Listed.{IsListed, index-IsListed}

abbrev pub BeforeRevocation : ℕ → Option ℕ → Type 0
BeforeRevocation at none = Unit
BeforeRevocation at (some revoked) = at < revoked

-- The key signs for the principal at a time.
pub record IsSigner (principal_id usage : String) (at : ℕ) (key : KeyRecord) : Type 0 where
  pub owner : key.principal_id ≡ principal_id
  pub purpose : key.usage ≡ usage
  pub started : key.not_before ≤ at
  pub unexpired : at < key.expires_at
  pub unrevoked : BeforeRevocation at key.revoked_at

unrevoked-usable :
    (key : KeyRecord) (at : ℕ) → usable key at ≡ true → BeforeRevocation at key.revoked_at
unfolding usable
unrevoked-usable key at h = elim (Option-cases key.revoked_at) [
  | inl e ↦ rw (e, BeforeRevocation) tt
  | inr (revoked, e) ↦ rw (e, BeforeRevocation) (ground arith)
]

signs-IsSigner :
    (principal_id usage : String) (at : ℕ) (key : KeyRecord)
    → signs principal_id usage at key ≡ true
    → IsSigner principal_id usage at key
unfolding signs usable
signs-IsSigner principal_id usage at key h = record {
  owner = (eq_iff key.principal_id principal_id).0 (ground arith);
  purpose = (eq_iff key.usage usage).0 (ground arith);
  started = ground arith;
  unexpired = ground arith;
  unrevoked = unrevoked-usable key at (ground arith);
}

IsSigner-signs :
    (principal_id usage : String) (at : ℕ) (key : KeyRecord)
    → IsSigner principal_id usage at key
    → signs principal_id usage at key ≡ true
IsSigner-signs principal_id usage at key s =
    let owns = eq_iff key.principal_id principal_id in
    let serves = eq_iff key.usage usage in
    elim (Option-cases key.revoked_at) [
      | inl e ↦
          unfold signs usable in
          ground (arith, e, owns, serves, s.owner, s.purpose, s.started, s.unexpired)
      | inr (revoked, e) ↦
          (let before : at < revoked = subst (BeforeRevocation at) e s.unrevoked in
            unfold signs usable in
            ground (arith, e, before, owns, serves, s.owner, s.purpose, s.started, s.unexpired))
    ]

-- The key that the search returns is one of the names searched, and passes the test.
found_key :
    (keys : NameMap KeyRecord) (principal_id usage : String) (at : ℕ) (names : List String)
    (key : KeyRecord)
    → first_signing_key keys principal_id usage at names ≡ some key
    → (name : String) × Memᴰ name names
      × (keys name ≡ some key)
      × (signs principal_id usage at key ≡ true)
unfolding first_signing_key
found_key keys principal_id usage at [] key h = absurd (ground arith)
found_key keys principal_id usage at (name ∷ names) key h =
    let later = found_key keys principal_id usage at names key in
    elim (Option-cases (keys name)) [
      | inl e ↦ let (n, m, k, s) = later (ground arith) in (n, Memᴰ.tail m, k, s)
      | inr (here, e) ↦ (elim (Bool-cases (signs principal_id usage at here)) [
        | inl passes ↦
            let same : here ≡ key = ground arith in
            (name, Memᴰ.head refl, e ∙ ap some same, ground (arith, same))
        | inr fails ↦ let (n, m, k, s) = later (ground arith) in (n, Memᴰ.tail m, k, s)
      ])
    ]

-- A search that returns none has no name left whose key passes the test.
no_key :
    (keys : NameMap KeyRecord) (principal_id usage : String) (at : ℕ) (names : List String)
    (name : String) (key : KeyRecord)
    → first_signing_key keys principal_id usage at names ≡ none
    → Memᴰ name names
    → keys name ≡ some key
    → signs principal_id usage at key ≡ false
unfolding first_signing_key
no_key keys principal_id usage at [] name key h m k = elim m [ ]
no_key keys principal_id usage at (other ∷ names) name key h (Memᴰ.head e) k =
    elim (Bool-cases (signs principal_id usage at key)) [
      | inl passes ↦ absurd (ground (arith, ap keys e))
      | inr fails ↦ fails
    ]
no_key keys principal_id usage at (other ∷ names) name key h (Memᴰ.tail m) k =
    elim (Option-cases (keys other)) [
      | inl e ↦ no_key keys principal_id usage at names name key (ground arith) m k
      | inr (here, e) ↦ no_key keys principal_id usage at names name key (ground arith) m k
    ]

-- The key is the principal's: the registry lists the principal, who names the key, and the key.
pub record IsListedSigner (r : Registry) (principal_id usage : String) (at : ℕ) (key : KeyRecord)
    : Type 0 where
  principal : PrincipalRecord
  is_principal :
      IsListed (λ (p : PrincipalRecord). p.principal_id) r.principals_list principal_id principal
  names : Memᴰ key.key_id principal.ssp_key_ids
  is_key : IsListed (λ (k : KeyRecord). k.key_id) r.keys_list key.key_id key
  signer : IsSigner principal_id usage at key

-- When the snapshot that index built returns a signing key for a principal, a usage and a time, the
-- registry lists the principal and the key, the principal names the key, and the key belongs to the
-- principal, has the usage, has started, has not expired and is not revoked at that time.
pub signing_key-IsListedSigner :
    (r : Registry) (principal_id usage : String) (at : ℕ) (key : KeyRecord)
    → signing_key_for (index r) principal_id usage at ≡ some key
    → IsListedSigner r principal_id usage at key
unfolding index signing_key_for
signing_key-IsListedSigner r principal_id usage at key h =
    let by_id = λ (k : KeyRecord). k.key_id in
    let keys = put_all by_id r.keys_list empty_map in
    elim (Option-cases ((index r).principals principal_id)) [
      | inl e ↦ absurd (ground arith)
      | inr (principal, e) ↦
          let (name, mem, found, passes) =
            found_key keys principal_id usage at principal.ssp_key_ids key (ground arith) in
          let listed = index-IsListed by_id r.keys_list name key found in
          record {
            principal = principal;
            is_principal =
                index-IsListed (λ (p : PrincipalRecord). p.principal_id) r.principals_list
                  principal_id principal e;
            names = subst (λ id. Memᴰ id principal.ssp_key_ids) (sym listed.named) mem;
            is_key = record { named = refl; mem = listed.mem };
            signer = signs-IsSigner principal_id usage at key passes;
          }
    ]

-- When a snapshot returns no signing key for a principal that it has, no key that the principal
-- names and the snapshot has is a signer: it has another owner or another usage, or it has not
-- started, has expired or is revoked at that time.
pub no_signing_key :
    (r : Registry) (principal_id usage : String) (at : ℕ) (principal : PrincipalRecord)
    (name : String) (key : KeyRecord)
    → signing_key_for r principal_id usage at ≡ none
    → r.principals principal_id ≡ some principal
    → Memᴰ name principal.ssp_key_ids
    → r.keys name ≡ some key
    → ¬ IsSigner principal_id usage at key
unfolding signing_key_for
no_signing_key r principal_id usage at principal name key h p m k signer =
    let fails =
      no_key r.keys principal_id usage at principal.ssp_key_ids name key (ground arith) m k in
    absurd (ground (arith, fails, IsSigner-signs principal_id usage at key signer))
