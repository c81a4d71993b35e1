-- ===== src/AppState/Listing/Pages.antt =====
-- All pages of a listing of daemon/src/state.rs together.
use kalatori.AppState.Listing.{list_rows, respond}
use kalatori.Dao.Listing.{get_page, count_rows}
use kalatori.Types.Retry.{
  PaginationParams, PaginatedResponse, validated_page, validated_per_page, offset, paginated,
  u32_max,
}
use kalatori.Dao.Store.{Db, Env, Store, attempt, looked_into, lift, tick, query, ◌>>=◌}
use kalatori.Common.{
  ℕ, zero, suc, ◌+◌, ◌-◌, ◌*◌, ◌/◌, ◌%◌, ◌^◌, ◌≤◌, ◌<◌, ◌≡◌, refl, sym, ap, ◌∙◌, subst, true, false,
  some, List, [], ◌++◌, map, map-append, Result, ok, err, panic, ok_inj, leb, ◌==◌, max, min,
  unwrap_or, length, take, drop, pages, pages-whole, arith,
}

-- The page of that number, of the asked size.
abbrev pub at_page : ℕ → PaginationParams → PaginationParams
at_page k p = record p { page = some k }

abbrev pub items_of : {E B : Type 0} → Result E (PaginatedResponse B) → List B
items_of (ok r) = r.items
items_of (err e) = []
items_of panic = []

-- The items of `count` pages, from that page on.
abbrev pub asked : {E B : Type 0} → (ℕ → Result E (PaginatedResponse B)) → ℕ → ℕ → List B
asked answer zero k = []
asked answer (suc count) k = items_of (answer k) ++ asked answer count (suc k)

-- The number of pages, their offsets, and the size of a page.
enough : (rows size : ℕ) → 1 ≤ size → rows ≤ (rows + size - 1) / size * size
enough rows size h = grind (arith, division (rows + size - 1) size h)
  where
    division : (a b : ℕ) → 1 ≤ b → (a ≡ a / b * b + a % b) × (a % b < b)
    division a b h = (grind arith, grind arith)

inside : (rows size j : ℕ) → 1 ≤ size → j < (rows + size - 1) / size → j * size ≤ rows
inside rows size j h below =
    grind (arith, division (rows + size - 1) size h, step j ((rows + size - 1) / size) size below)
  where
    division : (a b : ℕ) → 1 ≤ b → (a ≡ a / b * b + a % b) × (a % b < b)
    division a b h = (grind arith, grind arith)

    step : (j n z : ℕ) → suc j ≤ n → j * z + z ≤ n * z
    step j n z h = grind arith

size_is : (p : PaginationParams) → 1 ≤ validated_per_page p
unfolding validated_per_page
size_is p = bounded (unwrap_or p.per_page 20)
  where
    bounded : (n : ℕ) → 1 ≤ min (max n 1) 100
    bounded n = omega arith

offset-at_page :
    {E : Type 0} (p : PaginationParams) (j : ℕ)
    → j * validated_per_page p ≤ u32_max
    → offset {E = E} (at_page (suc j) p) ≡ ok (j * validated_per_page p)
unfolding offset validated_page validated_per_page
offset-at_page p j fits = rw (before j, below (j * validated_per_page p) fits) refl
  where
    before : (j : ℕ) → max (suc j) 1 - 1 ≡ j
    before j = omega arith

    below : (n : ℕ) → n ≤ u32_max → leb n u32_max ≡ true
    below n h = ground arith

page-at_page : (p : PaginationParams) (j : ℕ) → validated_page (at_page (suc j) p) ≡ suc j
unfolding validated_page
page-at_page p j = omega arith

whole_u32 : (n : ℕ) → n ≤ u32_max → n % 2 ^ 32 ≡ n
whole_u32 n h = omega arith

module _ {E A B : Type 0} (fault : E) (view : A → B) (listed passing : Db → List A)
    (p : PaginationParams) (s : Store) (quiet : (n : ℕ) → s.env.faulty n ≡ false)
    (same : length (passing s.db) ≡ length (listed s.db))
    (fits : length (listed s.db) ≤ u32_max) where
  abbrev answer : ℕ → Result E (PaginatedResponse B)
  answer k =
      (list_rows view (at_page k p) (get_page fault (at_page k p) listed) (count_rows fault passing)
        s).0

  got_page :
      (j : ℕ)
      → j * validated_per_page p ≤ u32_max
      → get_page fault (at_page (suc j) p) listed s
        ≡ (ok (take (validated_per_page p) (drop (j * validated_per_page p) (listed s.db))), tick s)
  unfolding get_page query ◌>>=◌ validated_per_page
  got_page j h =
      subst
        (λ r.
          (lift r >>= λ from.
          query fault λ _ db. ok (take (validated_per_page p) (drop from (listed db)), db))
            s
          ≡ (
            ok (take (validated_per_page p) (drop (j * validated_per_page p) (listed s.db))),
            tick s,
          ))
        (sym (offset-at_page {E = E} p j h)) (rw (quiet s.calls) refl)

  got_count :
      (t : Store)
      → t.db ≡ s.db
      → t.env ≡ s.env
      → (count_rows fault passing t).0 ≡ ok (length (listed s.db))
  unfolding count_rows query
  got_count t db env =
      rw
        (
          ap (λ (e : Env). e.faulty t.calls) env ∙ quiet t.calls,
          ap (λ d. length (passing d)) db ∙ same,
          whole_u32 (length (listed s.db)) fits,
        )
        refl

  one_page :
      (j : ℕ)
      → j * validated_per_page p ≤ u32_max
      → answer (suc j)
        ≡ ok (
            paginated
              (map view
                (take (validated_per_page p) (drop (j * validated_per_page p) (listed s.db))))
              (length (listed s.db))
              (suc j)
              (validated_per_page p))
  unfolding list_rows attempt ◌>>=◌ validated_per_page
  one_page j h =
      subst
        (λ q.
          (((λ (t : Store). (looked_into q.0, q.1)) >>= λ items.
          attempt {F = E} (count_rows fault passing) >>= λ total.
          lift (respond view (at_page (suc j) p) items total))
            s).0
          ≡ expected)
        (sym (got_page j h))
        (subst
          (λ r.
            (((λ (t : Store). (looked_into r, (count_rows fault passing (tick s)).1)) >>= λ total.
            lift (respond view (at_page (suc j) p) (ok items_there) total))
              (tick s)).0
            ≡ expected)
          (sym (got_count (tick s) refl refl))
          (ap
            (λ k.
              ok (paginated (map view items_there) (length (listed s.db)) k (validated_per_page p)))
            (page-at_page p j)))
    where
      items_there : List A
      items_there = take (validated_per_page p) (drop (j * validated_per_page p) (listed s.db))

      expected : Result E (PaginatedResponse B)
      expected =
          ok
            (paginated (map view items_there) (length (listed s.db)) (suc j) (validated_per_page p))

  asked-pages :
      (count j : ℕ)
      → ((i : ℕ) → i < j + count → i * validated_per_page p ≤ u32_max)
      → asked answer count (suc j)
        ≡ map view (pages (validated_per_page p) (listed s.db) count (j * validated_per_page p))
  unfolding paginated
  asked-pages zero j h = refl
  asked-pages (suc count) j h =
      rw
        (
          one_page j (h j (first j count)),
          asked-pages count (suc j) (λ i below. h i (later i j count below)),
          one_more j (validated_per_page p),
        )
        (sym (
          map-append view
            (take (validated_per_page p) (drop (j * validated_per_page p) (listed s.db)))
            (pages (validated_per_page p) (listed s.db) count
              (j * validated_per_page p + validated_per_page p))))
    where
      first : (j n : ℕ) → j < j + suc n
      first j n = omega arith

      later : (i j n : ℕ) → i < suc j + n → i < j + suc n
      later i j n h = omega arith

      one_more : (j n : ℕ) → suc j * n ≡ j * n + n
      one_more j n = grind arith

  -- The pages that the first answer speaks of are, together, all the rows.
  pub whole_listing :
      (r : PaginatedResponse B)
      → answer 1 ≡ ok r
      → asked answer r.total_pages 1 ≡ map view (listed s.db)
  unfolding paginated
  whole_listing r e =
      let size = validated_per_page p in
      let rows = listed s.db in
      let count = (length rows + size - 1) / size in
      let is_count : count ≡ r.total_pages = rw (not_zero size (size_is p)) at (
        ap (λ (q : PaginatedResponse B). q.total_pages)
          (ok_inj E (sym (one_page 0 (nothing size)) ∙ e))) in
      subst (λ n. asked answer n 1 ≡ map view rows) is_count
        (asked-pages count 0 (λ i below.
            fitting i size (inside (length rows) size i (size_is p) (from_zero i count below)))
          ∙ ap (λ n. map view (pages size rows count n)) (no_rows size)
          ∙ ap (map view) (pages-whole size rows count (enough (length rows) size (size_is p))))
    where
      nothing : (n : ℕ) → 0 * n ≤ u32_max
      nothing n = omega arith

      no_rows : (n : ℕ) → 0 * n ≡ 0
      no_rows n = omega arith

      not_zero : (n : ℕ) → 1 ≤ n → (n == 0) ≡ false
      not_zero n h = ground arith

      from_zero : (i n : ℕ) → i < 0 + n → i < n
      from_zero i n h = omega arith

      fitting : (i size : ℕ) → i * size ≤ length (listed s.db) → i * size ≤ u32_max
      fitting i size h = ground (arith, fits)
