-- ===== src/Authority/Pages.antt =====
-- The pages of ListEdgeDeliveries of internal/authority/postgres/store.go.
use Prim.Native.Nat.{min}
use snagline.Prelude.{
  ℕ, zero, suc, ◌+◌, ◌-◌, ◌<◌, String, ◌≡◌, refl, ap, ◌∙◌, sym, subst, ◌≡⟨◌⟩◌, ◌∎, List, [], ◌∷◌,
  arith, leb, ltb, if◌then◌else◌, length, take, select, Bool-cases, inl, inr, ltb→lt, Bytes,
}
use snagline.Tx.{ok}
use snagline.Authority.Tables.{DeliveryRow, Db}
use snagline.Authority.Sql.{next_sequence}
use snagline.Authority.Logs.{route_log, sequences_of, count_down, RouteIsGapless}
use snagline.Authority.History.{History}
use snagline.Authority.Gapless.{History-IsGapless}
use snagline.Authority.Reads.{
  EdgeDeliveryQuery, EdgeDeliveryPage, insert_by_sequence, order_by_sequence, max_sequence,
  last_sequence, after_cursor, delivery_page, list_edge_deliveries,
}

-- after + 1, …, after + k
unfoldable pub count_up : ℕ → ℕ → List ℕ
count_up after zero = []
count_up after (suc k) = suc after ∷ count_up (suc after) k

-- The same functions on the sequences alone.
insert : ℕ → List ℕ → List ℕ
insert x [] = x ∷ []
insert x (y ∷ ys) = if leb x y then x ∷ y ∷ ys else y ∷ insert x ys

order : List ℕ → List ℕ
order [] = []
order (x ∷ xs) = insert x (order xs)

above : ℕ → List ℕ → List ℕ
above after [] = []
above after (x ∷ xs) = let rest = above after xs in if ltb after x then x ∷ rest else rest

sequences-insert :
    (row : DeliveryRow) (rows : List DeliveryRow)
    → sequences_of (insert_by_sequence row rows) ≡ insert row.delivery_sequence (sequences_of rows)
unfolding sequences_of insert_by_sequence insert
sequences-insert row [] = refl
sequences-insert row (other ∷ rows) = ground (arith, sequences-insert row rows)

sequences-order :
    (rows : List DeliveryRow) → sequences_of (order_by_sequence rows) ≡ order (sequences_of rows)
unfolding sequences_of order_by_sequence order
sequences-order [] = refl
sequences-order (row ∷ rows) =
    sequences-insert row (order_by_sequence rows)
    ∙ ap (insert row.delivery_sequence) (sequences-order rows)

sequences-after_cursor :
    (after : ℕ) (rows : List DeliveryRow)
    → sequences_of (after_cursor after rows) ≡ above after (sequences_of rows)
unfolding sequences_of after_cursor select above
sequences-after_cursor after [] = refl
sequences-after_cursor after (row ∷ rows) = ground (arith, sequences-after_cursor after rows)

sequences-take :
    (n : ℕ) (rows : List DeliveryRow) → sequences_of (take n rows) ≡ take n (sequences_of rows)
unfolding sequences_of
sequences-take zero rows = refl
sequences-take (suc n) [] = refl
sequences-take (suc n) (row ∷ rows) = ap (λ l. row.delivery_sequence ∷ l) (sequences-take n rows)

insert-count_up : (a k x : ℕ) → x ≡ suc (a + k) → insert x (count_up a k) ≡ count_up a (suc k)
unfolding insert count_up
insert-count_up a zero x e = ground arith
insert-count_up a (suc k) x e = ground (arith, insert-count_up (suc a) k x)

suc_sub : (a n : ℕ) → a < suc n → suc n - a ≡ suc (n - a)
suc_sub a n h = omega arith

min-suc : (l k : ℕ) → min (suc l) (suc k) ≡ suc (min l k)
min-suc l k = omega arith

order-above : (a n : ℕ) → order (above a (count_down n)) ≡ count_up a (n - a)
unfolding order above count_down count_up
order-above a zero = ground arith
order-above a (suc n) = elim (Bool-cases (ltb a (suc n))) [
  | inl before ↦ ground (
    arith,
    order-above a n,
    insert-count_up a (n - a) (suc n),
    ltb→lt a (suc n),
    ap (count_up a) (suc_sub a n (ltb→lt a (suc n) before)),
  )
  | inr past ↦ ground (arith, order-above a n)
]

take-count_up : (l a k : ℕ) → take l (count_up a k) ≡ count_up a (min l k)
unfolding count_up
take-count_up zero a k = ground arith
take-count_up (suc l) a zero = ground arith
take-count_up (suc l) a (suc k) =
    ap (λ t. suc a ∷ t) (take-count_up l (suc a) k) ∙ ap (count_up a) (sym (min-suc l k))

max-count_down :
    (n : ℕ) (rows : List DeliveryRow) → sequences_of rows ≡ count_down n → max_sequence rows ≡ n
unfolding sequences_of count_down max_sequence
max-count_down zero [] e = refl
max-count_down zero (row ∷ rows) e = ground arith
max-count_down (suc n) [] e = ground arith
max-count_down (suc n) (row ∷ rows) e = ground (arith, max-count_down n rows)

last-count_up :
    (a k : ℕ) (rows : List DeliveryRow)
    → sequences_of rows ≡ count_up a k
    → (last_sequence a rows ≡ a + k) × (length rows ≡ k)
unfolding sequences_of count_up last_sequence
last-count_up a zero [] e = ground arith
last-count_up a zero (row ∷ rows) e = absurd (ground arith)
last-count_up a (suc k) [] e = absurd (ground arith)
last-count_up a (suc k) (row ∷ rows) e = ground (arith, last-count_up (suc a) k rows)

module _ (q : EdgeDeliveryQuery) (db : Db) where
  abbrev log : List DeliveryRow
  log = route_log q.tenant_id q.edge_id q.edge_generation db.deliveries

  -- the rows that the page holds
  abbrev kept : List DeliveryRow
  kept = take q.limit (order_by_sequence (after_cursor q.after_sequence log))

  sequences-kept :
      (n : ℕ)
      → sequences_of log ≡ count_down n
      → sequences_of kept ≡ count_up q.after_sequence (min q.limit (n - q.after_sequence))
  sequences-kept n e =
      sequences_of kept
      ≡⟨ sequences-take q.limit (order_by_sequence (after_cursor q.after_sequence log)) ⟩
        take q.limit (sequences_of (order_by_sequence (after_cursor q.after_sequence log)))
      ≡⟨ ap (take q.limit) (sequences-order (after_cursor q.after_sequence log)) ⟩
        take q.limit (order (sequences_of (after_cursor q.after_sequence log)))
      ≡⟨ ap (λ s. take q.limit (order s)) (sequences-after_cursor q.after_sequence log) ⟩
        take q.limit (order (above q.after_sequence (sequences_of log)))
      ≡⟨ ap (λ s. take q.limit (order (above q.after_sequence s))) e ⟩
        take q.limit (order (above q.after_sequence (count_down n)))
      ≡⟨ ap (take q.limit) (order-above q.after_sequence n) ⟩
        take q.limit (count_up q.after_sequence (n - q.after_sequence))
      ≡⟨ take-count_up q.limit q.after_sequence (n - q.after_sequence) ⟩
        count_up q.after_sequence (min q.limit (n - q.after_sequence)) ∎

  complete-delivery_page :
      (n : ℕ)
      → sequences_of log ≡ count_down n
      → (delivery_page q db).complete_through
        ≡ q.after_sequence + min q.limit (n - q.after_sequence)
  unfolding delivery_page
  complete-delivery_page n e = ground (
    arith,
    max-count_down n log e,
    last-count_up q.after_sequence (min q.limit (n - q.after_sequence)) kept (sequences-kept n e),
  )

abbrev pub IsNextStretch : EdgeDeliveryQuery → Db → EdgeDeliveryPage → Type 0
IsNextStretch q db page =
    (suc page.high_watermark ≡ next_sequence q.tenant_id q.edge_id q.edge_generation db.sequences)
    × (sequences_of page.deliveries
        ≡ count_up q.after_sequence (min q.limit (page.high_watermark - q.after_sequence)))
    × (page.complete_through
        ≡ q.after_sequence + min q.limit (page.high_watermark - q.after_sequence))

delivery_page-IsNextStretch :
    (q : EdgeDeliveryQuery) (db : Db)
    → RouteIsGapless q.tenant_id q.edge_id q.edge_generation db.sequences db.deliveries
    → IsNextStretch q db (delivery_page q db)
unfolding delivery_page
delivery_page-IsNextStretch q db (n, next, e) =
    let high = max-count_down n (log q db) e in
    (
      ap suc high ∙ sym next,
      rw high (sequences-kept q db n e),
      complete-delivery_page q db n e
          ∙ ap (λ m. q.after_sequence + min q.limit (m - q.after_sequence)) (sym high),
    )

returned :
    (q : EdgeDeliveryQuery) (db : Db) (page : EdgeDeliveryPage)
    → list_edge_deliveries q db ≡ ok page
    → delivery_page q db ≡ page
unfolding list_edge_deliveries
returned q db page e = ground arith

-- In every reachable state, a page that ListEdgeDeliveries returns reports as
-- its watermark the last sequence allocated on the route, holds exactly the sequences after the
-- cursor in increasing order, up to the watermark or to the limit, and is complete through the
-- last of them.
pub list_edge_deliveries-IsNextStretch :
    (sha : Bytes → String) (authority_id : String) (db : Db) (q : EdgeDeliveryQuery)
    (page : EdgeDeliveryPage)
    → History sha authority_id db
    → list_edge_deliveries q db ≡ ok page
    → IsNextStretch q db page
list_edge_deliveries-IsNextStretch sha authority_id db q page h e =
    subst (IsNextStretch q db) (returned q db page e) (
      delivery_page-IsNextStretch q db
        ((History-IsGapless sha authority_id db h).at q.tenant_id q.edge_id q.edge_generation))
