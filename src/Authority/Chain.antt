-- ===== src/Authority/Chain.antt =====
-- The registries of a tenant and its head: CommitRegistry of internal/authority/postgres/store.go.
use snagline.Prelude.{
  ℕ, suc, ◌≤◌, String, ◌≡◌, refl, inl, inr, true, ◌&&◌, Option, none, some, List, arith, Bytes,
  ◌==◌, eq_iff, eqb, find, if◌then◌else◌, Bool-cases, Option-cases,
}
use snagline.Authority.Request.{CommitRegistryRequest}
use snagline.Authority.Tables.{RegistryRow, HeadRow, HighWaterRow, Db, HaltReason}
use snagline.Authority.Sql.{registry_head, coalesce}
use snagline.Authority.Registries.{admit, judge, find_registry, registry_row, new_head}
use snagline.Authority.Written.{registry_state}
use snagline.Authority.Effects.{halted_row, halted_state}
use snagline.Authority.Heads.{head_after, head-halted_state, head-heads_after}
use snagline.Authority.Bindings.{
  HeadIsRecorded, IsBelowHead, IsChained, judge-admit, coalesce-nullable_text,
}
use snagline.Authority.Moves.{OutboxMoves-OnlyOutbox}
use snagline.Authority.History.{
  History, start, step, Effect, unchanged, skipped, moved, case_admitted, advice_admitted,
  head_halted, registry_admitted, classified,
}

same-IsChained :
    (db db' : Db)
    → db'.heads ≡ db.heads
    → db'.registries ≡ db.registries
    → IsChained db
    → IsChained db'
unfolding registry_head find_registry
same-IsChained db db' h g c = record {
  heads = rw (h, g) c.heads;
  below = rw (h, g) c.below;
  chained = rw g c.chained;
}

-- A halt changes the flags of heads alone.
abbrev SamePosition : HeadRow → HeadRow → Type 0
SamePosition a b =
    (a.latest_revision ≡ b.latest_revision)
    × (a.latest_commitment ≡ b.latest_commitment)
    × (a.routing_epoch ≡ b.routing_epoch)

before_halt :
    (tenant : String) (reason : HaltReason) (db : Db) (t : String) (head : HeadRow)
    → registry_head t (halted_state tenant reason db) ≡ some head
    → (old : HeadRow) × (registry_head t db ≡ some old) × SamePosition old head
before_halt tenant reason db t head h = elim (Option-cases (registry_head t db)) [
  | inl e ↦ absurd (ground (arith, head-halted_state t tenant reason db))
  | inr (old, e) ↦ (old, e, ground (arith, head-halted_state t tenant reason db))
]

after_halt :
    (tenant : String) (reason : HaltReason) (db : Db) (t : String) (old : HeadRow)
    → registry_head t db ≡ some old
    → (head : HeadRow) × (registry_head t (halted_state tenant reason db) ≡ some head)
      × SamePosition old head
after_halt tenant reason db t old h = (
  if tenant == t then halted_row reason old else old,
  ground (arith, head-halted_state t tenant reason db),
  ground arith,
)

halted-IsChained :
    (tenant : String) (reason : HaltReason) (db : Db)
    → IsChained db
    → IsChained (halted_state tenant reason db)
unfolding find_registry
halted-IsChained tenant reason db c = record {
  heads = λ t head h.
      let (old, e, same) = before_halt tenant reason db t head h in
      let (row, found, commitment, epoch) = c.heads t old e in (row, ground arith, cc, cc);
  below = λ t n row h.
      let (old, e, le) = c.below t n row h in
      let (head, e', same) = after_halt tenant reason db t old e in (head, e', omega arith);
  chained = c.chained;
}

head_after-SamePosition :
    (r : CommitRegistryRequest) (head : Option HeadRow)
    → SamePosition (head_after r head) (new_head r)
head_after-SamePosition r none = (refl, refl, refl)
head_after-SamePosition r (some head) = (refl, refl, refl)

module _ (r : CommitRegistryRequest) (rows : List HighWaterRow) (db : Db) where
  abbrev after : Db
  after = registry_state r (registry_head r.tenant_id db) rows db

  find-after :
      (t : String) (n : ℕ)
      → find_registry t n after ≡ (
          if r.tenant_id == t && eqb r.revision n
          then some (registry_row r db.next_revision)
          else find_registry t n db)
  unfolding find_registry find registry_row
  find-after t n = refl

  head-after :
      (t : String)
      → registry_head t after ≡ (
          if r.tenant_id == t
          then some (head_after r (registry_head r.tenant_id db))
          else registry_head t db)
  unfolding registry_head
  head-after t = head-heads_after t r db

  after-SamePosition : SamePosition (head_after r (registry_head r.tenant_id db)) (new_head r)
  after-SamePosition = head_after-SamePosition r (registry_head r.tenant_id db)

  module _ (c : IsChained db) (j : judge r (registry_head r.tenant_id db) db ≡ admit)
      (t : String) where
    -- No registry of the tenant is at or above the revision that is admitted.
    revision_is_new :
        (n : ℕ) (row : RegistryRow)
        → (r.tenant_id == t) ≡ true
        → find_registry t n db ≡ some row
        → suc n ≤ r.revision
    revision_is_new n row same found =
        let (head, e, le) = c.below t n row found in
        elim (judge-admit r (registry_head r.tenant_id db) db j) [
          | inl (none_yet, _) ↦ ground (arith, eq_iff r.tenant_id t)
          | inr (h, e', succ) ↦ ground (arith, succ.next, eq_iff r.tenant_id t)
        ]

    -- The registry just below the admitted one is the one that it names.
    links_predecessor :
        (n : ℕ) (row : RegistryRow)
        → (r.tenant_id == t) ≡ true
        → r.revision ≡ suc n
        → find_registry t n db ≡ some row
        → r.previous_commitment ≡ row.commitment
    links_predecessor n row same next found =
        let (head, e, le) = c.below t n row found in
        let (recorded, at_head, commitment, _) = c.heads t head e in
        elim (judge-admit r (registry_head r.tenant_id db) db j) [
          | inl (none_yet, _) ↦ ground (arith, eq_iff r.tenant_id t)
          | inr (h, e', succ) ↦ ground (arith, succ.next, succ.linked, eq_iff r.tenant_id t)
        ]

    after_heads : (head : HeadRow) → registry_head t after ≡ some head → HeadIsRecorded after t head
    after_heads head h = elim (Bool-cases (r.tenant_id == t)) [
      | inl same ↦ (
        registry_row r db.next_revision,
        ground (arith, find-after t head.latest_revision, head-after t, after-SamePosition),
        unfold registry_row in ground (arith, head-after t, after-SamePosition),
        unfold registry_row in ground (arith, head-after t, after-SamePosition),
      )
      | inr other ↦
          (let (row, found, commitment, epoch) = c.heads t head (ground (arith, head-after t)) in
            (row, ground (arith, find-after t head.latest_revision), commitment, epoch))
    ]

    after_below :
        (n : ℕ) (row : RegistryRow) → find_registry t n after ≡ some row → IsBelowHead after t n
    after_below n row h = elim (Bool-cases (r.tenant_id == t)) [
      | inl same ↦ (
        head_after r (registry_head r.tenant_id db),
        ground (arith, head-after t),
        ground (arith, find-after t n, after-SamePosition, revision_is_new n row),
      )
      | inr other ↦
          (let (head, e, le) = c.below t n row (ground (arith, find-after t n)) in
            (head, ground (arith, head-after t), le))
    ]

    after_chained :
        (n : ℕ) (row next : RegistryRow)
        → find_registry t n after ≡ some row
        → find_registry t (suc n) after ≡ some next
        → coalesce next.previous_commitment ≡ row.commitment
    unfolding registry_row
    after_chained n row next h h' = ground (
      arith,
      find-after t n,
      find-after t (suc n),
      c.chained t n row next,
      revision_is_new (suc n) next,
      links_predecessor n row,
      coalesce-nullable_text r.previous_commitment,
    )

Effect-IsChained : (db db' : Db) → Effect db db' → IsChained db → IsChained db'
Effect-IsChained db db' (unchanged e) c = same-IsChained db db' (cc) (cc) c
Effect-IsChained db db' (skipped n e) c =
    same-IsChained db db' (ground (arith, e)) (ground (arith, e)) c
Effect-IsChained db db' (moved m) c =
    same-IsChained db db' (ground (arith, OutboxMoves-OnlyOutbox db db' m))
      (ground (arith, OutboxMoves-OnlyOutbox db db' m)) c
Effect-IsChained db db' (case_admitted _ r v a) c =
    same-IsChained db db' a.written.heads a.written.registries c
Effect-IsChained db db' (advice_admitted _ r target v a) c =
    same-IsChained db db' a.written.heads a.written.registries c
Effect-IsChained db db' (head_halted r reason e a) c =
    rw a.written (halted-IsChained r.tenant_id reason db c)
Effect-IsChained db db' (registry_admitted r rows a) c = rw a.written (record {
  heads = after_heads r rows db c a.judged;
  below = after_below r rows db c a.judged;
  chained = after_chained r rows db c a.judged;
})

-- In every reachable state: a head names a recorded registry with its own
-- commitment and epoch, no registry of the tenant stands above its head, and a registry at
-- revision n + 1 names as its predecessor the commitment of the registry at revision n, if there
-- is one.
pub History-IsChained :
    (sha : Bytes → String) (authority_id : String) (db : Db)
    → History sha authority_id db
    → IsChained db
unfolding registry_head find_registry find
History-IsChained sha authority_id _ start = record {
  heads = λ t head h. cc;
  below = λ t n row h. cc;
  chained = λ t n row next h h'. cc;
}
History-IsChained sha authority_id _ (step {db} {db'} h c) =
    Effect-IsChained db db' (classified sha authority_id db db' c)
      (History-IsChained sha authority_id db h)
