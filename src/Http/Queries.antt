-- ===== src/Http/Queries.antt =====
-- List requests: what `parse_list_query` and `order_clause` make of any parameters.
use vpn_manager.Common.{
  ◌/◌, not, ℕ, ◌+◌, ◌-◌, ◌*◌, ◌%◌, ◌^◌, ◌≤◌, ◌<◌, String, true, ◌≡◌, refl, ap, ◌∙◌, Option, none,
  some, List, ◌⊎◌, inl, inr, arith, Bool-cases, Option-cases, if-cases, ltb, ◌==◌, ◌=ₛ◌,
  if◌then◌else◌,
}
use native.Mathlib.Nat.{mul-le-mul_left, lt-div-mul-add, div-mul-le_self, le-div_iff_mul-le}
use vpn_manager.Text.{◌⧺◌, atoi, trim_space, to_lower, ℤ, pos, negsuc}
use vpn_manager.Http.{
  Params, parse_positive_int, parse_list_query, sort_column, column_order, order_clause,
  last_page_of,
}

parse_positive_int-positive :
    (s : String) (fallback : ℕ) → 1 ≤ fallback → 1 ≤ parse_positive_int s fallback
unfolding parse_positive_int
parse_positive_int-positive s fallback h =
    if-cases (λ (n : ℕ). 1 ≤ n) (s =ₛ "") _ _ h (number (atoi s))
  where
    number :
        (o : Option ℤ)
        → 1 ≤ elim o [
          | none ↦ fallback
          | some (pos n) ↦ if n == 0 then fallback else n
          | some (negsuc n) ↦ fallback
        ]
    number none = h
    number (some (pos n)) = ground arith
    number (some (negsuc n)) = h

-- Whatever is asked, the page is 1 at least, a page has between 1 and 100 rows, and the order is `asc`
-- or `desc`.
pub parse_list_query-bounds :
    (q : Params) (allowed : List (String × String)) (default_sort : String)
    → let r = parse_list_query q allowed default_sort in
      (1 ≤ r.page)
      × (1 ≤ r.per_page)
      × (r.per_page ≤ 100)
      × ((r.sort_order ≡ "asc") ⊎ (r.sort_order ≡ "desc"))
unfolding parse_list_query
parse_list_query-bounds q allowed default_sort =
    let asked = parse_positive_int-positive q.per_page 10 (omega arith) in
    let order : String → Type 0 = λ s. (s ≡ "asc") ⊎ (s ≡ "desc") in
    (
      parse_positive_int-positive q.page 1 (omega arith),
      ground (arith, asked),
      ground (arith, asked),
      if-cases order (to_lower (trim_space q.sort_order) =ₛ "desc") "desc" "asc" (inr refl)
          (inl refl),
    )

column_order-closed :
    (allowed : List (String × String)) (name order : String)
    → (order ≡ "asc") ⊎ (order ≡ "desc")
    → let clause = column_order (sort_column allowed name) order in
      (clause ≡ "id asc")
      ⊎ ((name column : String) × (sort_column allowed name ≡ some column)
          × ((clause ≡ column ⧺ " asc") ⊎ (clause ≡ column ⧺ " desc")))
column_order-closed allowed name order either = elim (Option-cases (sort_column allowed name)) [
  | inl e ↦ inl (ap (λ (o : Option String). column_order o order) e)
  | inr (column, e) ↦ elim (Bool-cases (column =ₛ "")) [
    | inl b ↦ inl (ap (λ (o : Option String). column_order o order) e ∙ rw (b, if◌then◌else◌) refl)
    | inr b ↦
        let clause : column_order (sort_column allowed name) order ≡ column ⧺ " " ⧺ order =
          ap (λ (o : Option String). column_order o order) e ∙ rw (b, if◌then◌else◌) refl in
        inr (
          name,
          column,
          e,
          elim either [
            | inl h ↦ inl (clause ∙ ap (λ (k : String). column ⧺ " " ⧺ k) h)
            | inr h ↦ inr (clause ∙ ap (λ (k : String). column ⧺ " " ⧺ k) h)
          ],
        )
  ]
]

-- The `ORDER BY` of a list request is `id asc`, or a column of the handler's own table followed by
-- `asc` or `desc`: nothing else of what the client sent gets into the query.
pub order_clause-closed :
    (q : Params) (allowed : List (String × String)) (default_sort : String)
    → let clause = order_clause (parse_list_query q allowed default_sort) allowed in
      (clause ≡ "id asc")
      ⊎ ((name column : String) × (sort_column allowed name ≡ some column)
          × ((clause ≡ column ⧺ " asc") ⊎ (clause ≡ column ⧺ " desc")))
unfolding order_clause
order_clause-closed q allowed default_sort =
    column_order-closed allowed (parse_list_query q allowed default_sort).sort_by
      (parse_list_query q allowed default_sort).sort_order
      (parse_list_query-bounds q allowed default_sort).3

-- Up to page 2 ^ 56 the offset is the number of the rows on the pages before: the product does not
-- overflow an `int`.
pub parse_list_query-offset :
    (q : Params) (allowed : List (String × String)) (default_sort : String)
    → let r = parse_list_query q allowed default_sort in
      r.page ≤ 2 ^ 56 → (r.offset ≡ (r.page - 1) * r.per_page) × (r.offset < 2 ^ 63)
unfolding parse_list_query
parse_list_query-offset q allowed default_sort small =
    let r = parse_list_query q allowed default_sort in
    let few = (parse_list_query-bounds q allowed default_sort).2 in
    let product = mul-le-mul_left (r.page - 1) few in
    (
      no_wrap ((r.page - 1) * r.per_page) (omega (arith, product)),
      below ((r.page - 1) * r.per_page) (omega (arith, product)),
    )
  where
    no_wrap : (n : ℕ) → n < 2 ^ 63 → n % 2 ^ 64 ≡ n
    no_wrap n h = omega arith

    below : (n : ℕ) → n < 2 ^ 63 → n % 2 ^ 64 < 2 ^ 63
    below n h = omega arith

-- For some rows, the last page is the number of pages that they fill: they fit on so many pages and not
-- on fewer. The sum of the rows and the page size is at most 2 ^ 63, so that it does not wrap.
pub last_page_of-covers :
    (per_page total : ℕ)
    → 0 < per_page
    → 0 < total
    → total + per_page ≤ 2 ^ 63
    → (last : ℕ) × (last_page_of per_page total ≡ pos last)
      × (total ≤ last * per_page)
      × (last * per_page < total + per_page)
      × (1 ≤ last)
unfolding last_page_of
last_page_of-covers per_page total h some_rows small =
    let x = total + per_page - 1 in
    let e : ltb 0 total ≡ true = ground arith in
    let fits : ltb x (2 ^ 63) ≡ true = ground (arith, small) in
    let above = lt-div-mul-add {a = x} {b = per_page} h in
    let below = div-mul-le_self x per_page in
    let one = (le-div_iff_mul-le {k = per_page} {x = 1} {y = x} h).1 (omega arith) in
    (
      x / per_page,
      rw (last_page_of, e, fits, not, if◌then◌else◌) refl,
      omega (arith, above),
      omega (arith, below),
      one,
    )
