-- ===== src/Authority/Bindings.antt =====
-- How cases, advice and registries refer to one another in a reachable state.
use snagline.Prelude.{
  ℕ, suc, ◌≤◌, String, ◌≡◌, refl, ◌⊎◌, inl, inr, false, Option, none, some, arith, eq_iff,
}
use snagline.Tx.{ok}
use snagline.Authority.Request.{CommitCaseRequest, CommitRegistryRequest}
use snagline.Authority.Tables.{CaseRow, AdviceRow, RegistryRow, HeadRow, Db}
use snagline.Authority.Sql.{registry_head, coalesce, nullable_text}
use snagline.Authority.Cases.{find_case, bind_registry}
use snagline.Authority.Advice.{find_advice}
use snagline.Authority.Registries.{admit, successor, judge, existing_registry, find_registry}

-- The registry that a head names is recorded, with the head's commitment and epoch.
abbrev pub HeadIsRecorded : Db → String → HeadRow → Type 0
HeadIsRecorded db t head =
    (row : RegistryRow) × (find_registry t head.latest_revision db ≡ some row)
    × (row.commitment ≡ head.latest_commitment)
    × (row.routing_epoch ≡ head.routing_epoch)

-- A registry is at or below its tenant's head.
abbrev pub IsBelowHead : Db → String → ℕ → Type 0
IsBelowHead db t n =
    (head : HeadRow) × (registry_head t db ≡ some head) × (n ≤ head.latest_revision)

-- A case names a recorded registry by revision, commitment and epoch.
abbrev pub CaseIsBound : Db → String → CaseRow → Type 0
CaseIsBound db t row =
    (registry : RegistryRow) × (find_registry t row.registry_revision db ≡ some registry)
    × (registry.commitment ≡ row.registry_hash)
    × (registry.routing_epoch ≡ row.routing_epoch)

-- An advice repeats the binding of its case, and targets the edge that issued the case.
pub record AdviceBinds (advice : AdviceRow) (row : CaseRow) : Type 0 where
  pub commitment : advice.case_commitment ≡ row.commitment
  pub routing_epoch : advice.routing_epoch ≡ row.routing_epoch
  pub registry_revision : advice.registry_revision ≡ row.registry_revision
  pub registry_hash : advice.registry_hash ≡ row.registry_hash
  pub edge : advice.target_edge_id ≡ row.issuer_edge_id
  pub generation : advice.target_edge_generation ≡ row.issuer_edge_generation

pub record IsChained (db : Db) : Type 0 where
  pub heads :
      (t : String) (head : HeadRow) → registry_head t db ≡ some head → HeadIsRecorded db t head
  pub below :
      (t : String) (n : ℕ) (row : RegistryRow)
      → find_registry t n db ≡ some row
      → IsBelowHead db t n
  pub chained :
      (t : String) (n : ℕ) (row next : RegistryRow)
      → find_registry t n db ≡ some row
      → find_registry t (suc n) db ≡ some next
      → coalesce next.previous_commitment ≡ row.commitment

pub record IsBound (db : Db) : Type 0 where
  pub cases : (t c : String) (row : CaseRow) → find_case t c db ≡ some row → CaseIsBound db t row
  pub advice :
      (t c : String) (advice : AdviceRow)
      → find_advice t c db ≡ some advice
      → (row : CaseRow) × (find_case t c db ≡ some row) × AdviceBinds advice row

pub bind_registry-bound :
    (r : CommitCaseRequest) (head : Option HeadRow)
    → bind_registry r head ≡ ok tt
    → (h : HeadRow) × (head ≡ some h)
      × (h.halted ≡ false)
      × (h.latest_revision ≡ r.registry_revision)
      × (h.latest_commitment ≡ r.registry_hash)
      × (h.routing_epoch ≡ r.routing_epoch)
unfolding bind_registry
bind_registry-bound r none b = cc
bind_registry-bound r (some h) b = (
  h,
  refl,
  ground arith,
  ground arith,
  ground (arith, eq_iff h.latest_commitment r.registry_hash),
  ground arith,
)

-- The two ways to be admitted: as the first registry, or as the successor of a live head.
pub record IsSuccessor (r : CommitRegistryRequest) (head : HeadRow) : Type 0 where
  pub live : head.halted ≡ false
  pub next : r.revision ≡ suc head.latest_revision
  pub linked : r.previous_commitment ≡ head.latest_commitment

pub judge-admit :
    (r : CommitRegistryRequest) (head : Option HeadRow) (db : Db)
    → judge r head db ≡ admit
    → ((head ≡ none) × (r.previous_commitment ≡ ""))
      ⊎ ((h : HeadRow) × (head ≡ some h) × IsSuccessor r h)
unfolding judge successor existing_registry
judge-admit r none db j = inl (refl, ground (arith, eq_iff r.previous_commitment ""))
judge-admit r (some h) db j =
    inr (h, refl, ground (arith, eq_iff r.previous_commitment h.latest_commitment))

pub coalesce-nullable_text : (value : String) → coalesce (nullable_text value) ≡ value
unfolding coalesce nullable_text
coalesce-nullable_text value = ground (arith, eq_iff value "")
