-- ===== src/Analytic/Counted.antt =====
-- The figures on orders that services/analytic_service reports, against a count of the orders.
use inno_taxi.Base.{
  ℕ, suc, ◌+◌, ◌<◌, ◌≤◌, String, Bool, true, false, ◌&&◌, List, [], ◌∷◌, ◌≡◌, refl, sym, ap, ◌∙◌,
  inl, inr, arith,
}
use inno_taxi.Base.Int.{ℤ, pos, ◌+ℤ◌, int64, int64_bound}
use inno_taxi.Base.Action.{ok}
use inno_taxi.Base.Lists.{length}
use inno_taxi.Base.Tests.{◌==◌, if◌then◌else◌, Bool-cases, ==_eq, ==_ne, ltb}
use inno_taxi.Analytic.Entity.{OrderEvent, OrderStats}
use inno_taxi.Analytic.Store.{
  Env, World, Group, no_fault, query_stats, final_orders, in_range, add_to_group, group_by,
  add_count, no_stats, scan_row, scan_rows, get_order_stats_rows,
}
use inno_taxi.Analytic.Service.{get_order_stats}
use inno_taxi.Analytic.Latest.{AreOrdersWithin, in_range-AreOrdersWithin}

-- How many of the orders have a status and a taxi type of which `P` holds.
unfoldable pub count_by : (String → String → Bool) → List OrderEvent → ℕ
count_by P [] = 0
count_by P (x ∷ xs) = if P x.status x.taxi_type then suc (count_by P xs) else count_by P xs

unfoldable sum_by : (String → String → Bool) → List Group → ℕ
sum_by P [] = 0
sum_by P (g ∷ gs) = if P g.status g.taxi_type then g.count + sum_by P gs else sum_by P gs

-- The value of a map, which is zero where there is none.
unfoldable pub value_of : String → List (String × ℤ) → ℤ
value_of k [] = pos 0
value_of k ((k', n) ∷ ns) = if k' == k then n else value_of k ns

int64-sum : (a b : ℕ) → a + b < int64_bound → int64 (pos a +ℤ int64 (pos b)) ≡ pos (a + b)
unfolding int64 ◌+ℤ◌
int64-sum a b h = ground (arith, h)

module _ (P : String → String → Bool) where
  sum_by-add :
      (x : OrderEvent) (gs : List Group)
      → sum_by P (add_to_group x gs)
        ≡ (if P x.status x.taxi_type then suc (sum_by P gs) else sum_by P gs)
  unfolding sum_by add_to_group
  sum_by-add x [] = refl
  sum_by-add x (g ∷ gs) = elim (Bool-cases (g.status == x.status && g.taxi_type == x.taxi_type)) [
    | inl same ↦
        (let status : g.status ≡ x.status = ==_eq g.status x.status (ground (arith, same)) in
          let taxi_type : g.taxi_type ≡ x.taxi_type =
            ==_eq g.taxi_type x.taxi_type (ground (arith, same)) in
          rw same (rw status (rw taxi_type (ground arith))))
    | inr other ↦ rw other (ground (arith, sum_by-add x gs))
  ]

  sum_by-group : (xs : List OrderEvent) → sum_by P (group_by xs) ≡ count_by P xs
  unfolding sum_by group_by count_by
  sum_by-group [] = refl
  sum_by-group (x ∷ xs) = sum_by-add x (group_by xs) ∙ ground (arith, sum_by-group xs)

value_of-add :
    (k j : String) (n : ℕ) (ms : List (String × ℤ))
    → value_of j (add_count k n ms)
      ≡ (if k == j then int64 (value_of j ms +ℤ int64 (pos n)) else value_of j ms)
unfolding value_of add_count
value_of-add k j n [] = refl
value_of-add k j n ((i, m) ∷ ms) = elim (Bool-cases (i == k)) [
  | inl same ↦ rw same (rw (sym (==_eq i k same)) (ground arith))
  | inr other ↦ rw other (elim (Bool-cases (i == j)) [
    | inl here ↦ rw here (elim (Bool-cases (k == j)) [
      | inl there ↦ absurd (==_ne i k other (==_eq i j here ∙ sym (==_eq k j there)))
      | inr elsewhere ↦ rw elsewhere refl
    ])
    | inr elsewhere ↦ rw elsewhere (value_of-add k j n ms)
  ])
]

-- The loop adds up the rows.
scan_rows-total :
    (gs : List Group) (s : OrderStats) (n : ℕ)
    → s.total_orders ≡ pos n
    → n + sum_by (λ st t. true) gs < int64_bound
    → (scan_rows s gs).total_orders ≡ pos (n + sum_by (λ st t. true) gs)
unfolding scan_rows sum_by
scan_rows-total [] s n h small = h ∙ ap pos (omega arith)
scan_rows-total (g ∷ gs) s n h small =
    scan_rows-total gs (scan_row s g) (n + g.count)
      (ap (λ z. int64 (z +ℤ int64 (pos g.count))) h ∙ int64-sum n g.count (omega (arith, small)))
      (omega (arith, small))
    ∙ ap pos (omega arith)

-- What the loop does to one of its maps.
unfoldable fold_counts : (Group → String) → List (String × ℤ) → List Group → List (String × ℤ)
fold_counts key ms [] = ms
fold_counts key ms (g ∷ gs) = fold_counts key (add_count (key g) g.count ms) gs

scan_rows-maps :
    (gs : List Group) (s : OrderStats)
    → ((scan_rows s gs).counts_by_status ≡ fold_counts (λ g. g.status) s.counts_by_status gs)
      × ((scan_rows s gs).counts_by_taxi_type
          ≡ fold_counts (λ g. g.taxi_type) s.counts_by_taxi_type gs)
unfolding scan_rows fold_counts
scan_rows-maps [] s = (refl, refl)
scan_rows-maps (g ∷ gs) s = scan_rows-maps gs (scan_row s g)

module _ (key : Group → String) (k : String) (P : String → String → Bool)
    (same_key : (g : Group) → P g.status g.taxi_type ≡ (key g == k)) where
  fold_counts-value :
      (gs : List Group) (ms : List (String × ℤ)) (n : ℕ)
      → value_of k ms ≡ pos n
      → n + sum_by P gs < int64_bound
      → value_of k (fold_counts key ms gs) ≡ pos (n + sum_by P gs)
  unfolding fold_counts sum_by
  fold_counts-value [] ms n h small = h ∙ ap pos (omega arith)
  fold_counts-value (g ∷ gs) ms n h small = elim (Bool-cases (key g == k)) [
    | inl same ↦
        (let mine = same_key g ∙ same in
          rw mine (
            fold_counts-value gs (add_count (key g) g.count ms) (n + g.count)
              (value_of-add (key g) k g.count ms
                ∙ rw same (
                    ap (λ z. int64 (z +ℤ int64 (pos g.count))) h
                    ∙ int64-sum n g.count (omega (arith, rw mine at small))))
              (omega (arith, rw mine at small))
            ∙ ap pos (omega arith)))
    | inr other ↦
        (let foreign = same_key g ∙ other in
          rw foreign (
            fold_counts-value gs (add_count (key g) g.count ms) n
              (value_of-add (key g) k g.count ms ∙ rw other h) (rw foreign at small)))
  ]

count_by-length : (P : String → String → Bool) (xs : List OrderEvent) → count_by P xs ≤ length xs
unfolding count_by
count_by-length P [] = omega arith
count_by-length P (x ∷ xs) = ground (arith, count_by-length P xs)

length-in_range :
    (from until : ℕ) (xs : List OrderEvent) → length (in_range from until xs) ≤ length xs
unfolding in_range
length-in_range from until [] = omega arith
length-in_range from until (x ∷ xs) = ground (arith, length-in_range from until xs)

length-final_orders : (xs : List OrderEvent) → length (final_orders xs) ≤ length xs
unfolding final_orders
length-final_orders [] = omega arith
length-final_orders (x ∷ xs) = ground (arith, length-final_orders xs)

-- The orders that the figures are of: the last event of each order, where it is in the range.
abbrev pub visible : ℕ → ℕ → World → List OrderEvent
visible from until w = in_range from until (final_orders w.order_events)

sum_by-small :
    (P : String → String → Bool) (from until : ℕ) (w : World)
    → length w.order_events < int64_bound
    → (0 + sum_by P (group_by (visible from until w)) ≡ count_by P (visible from until w))
      × (0 + sum_by P (group_by (visible from until w)) < int64_bound)
sum_by-small P from until w small =
    let same = sum_by-group P (visible from until w) in
    (
      omega (arith, same),
      omega (
        arith,
        same,
        small,
        count_by-length P (visible from until w),
        length-in_range from until (final_orders w.order_events),
        length-final_orders w.order_events,
      ),
    )

count_by-all : (xs : List OrderEvent) → count_by (λ st t. true) xs ≡ length xs
unfolding count_by
count_by-all [] = refl
count_by-all (x ∷ xs) = ground (arith, count_by-all xs)

-- Where the range does not end before it begins, ClickHouse answers and fewer than 2^63 events are
-- stored, the statistics of orders are, for some orders that are all distinct and are exactly the last
-- events of orders created in the range, the number of them, and of those with each status and each taxi
-- type.
pub get_order_stats-counts :
    (e : Env) (from until : ℕ) (w : World)
    → ltb until from ≡ false
    → e.database (query_stats ∷ w.statements) ≡ no_fault
    → length w.order_events < int64_bound
    → (s : OrderStats) × (os : List OrderEvent) × ((get_order_stats e from until w).0 ≡ ok s)
      × AreOrdersWithin from until w.order_events os
      × (s.total_orders ≡ pos (length os))
      × ((k : String) → value_of k s.counts_by_status ≡ pos (count_by (λ st t. st == k) os))
      × ((k : String) → value_of k s.counts_by_taxi_type ≡ pos (count_by (λ st t. t == k) os))
unfolding get_order_stats get_order_stats_rows value_of
get_order_stats-counts e from until w range calm small =
    let os = visible from until w in
    let gs = group_by os in
    let maps = scan_rows-maps gs no_stats in
    (
      scan_rows no_stats gs,
      os,
      ground (arith, range, calm),
      in_range-AreOrdersWithin from until w.order_events,
      scan_rows-total gs no_stats 0 refl (sum_by-small (λ st t. true) from until w small).1
          ∙ ap pos ((sum_by-small (λ st t. true) from until w small).0 ∙ count_by-all os),
      (λ k.
          ap (λ ms. value_of k ms) maps.0
          ∙ fold_counts-value (λ g. g.status) k (λ st t. st == k) (λ g. refl) gs [] 0 refl
              (sum_by-small (λ st t. st == k) from until w small).1
          ∙ ap pos (sum_by-small (λ st t. st == k) from until w small).0),
      (λ k.
          ap (λ ms. value_of k ms) maps.1
          ∙ fold_counts-value (λ g. g.taxi_type) k (λ st t. t == k) (λ g. refl) gs [] 0 refl
              (sum_by-small (λ st t. t == k) from until w small).1
          ∙ ap pos (sum_by-small (λ st t. t == k) from until w small).0),
    )
