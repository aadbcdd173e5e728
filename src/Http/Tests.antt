-- ===== src/Http/Tests.antt =====
-- A list request whose parameters try to get into the query.
use vpn_manager.Common.{
  ℕ, ◌-◌, ◌*◌, ◌+◌, ◌^◌, ◌≤◌, ◌<◌, ◌≡◌, refl, String, List, [], ◌∷◌, some, ◌⊎◌, arith,
}
use vpn_manager.Text.{◌⧺◌, atoi, trim_space, to_lower, pos, negsuc}
use vpn_manager.Http.{
  Params, parse_list_query, parse_positive_int, order_clause, sort_column, last_page_of,
}
use vpn_manager.Http.Queries.{
  parse_list_query-bounds, order_clause-closed, parse_list_query-offset, last_page_of-covers,
}

abbrev hostile : Params
hostile = record {
  page = "3";
  per_page = "1000";
  sort_by = "name; drop table users";
  sort_order = "DESC";
  search = "x";
}

abbrev sorts : List (String × String)
sorts = ("id", "id") ∷ ("name", "name") ∷ []

order_run : order_clause (parse_list_query hostile sorts "name") sorts ≡ "name desc"
unfolding order_clause parse_list_query trim_space to_lower sort_column
order_run = refl

parse_list_query-bounds_example :
    (1 ≤ (parse_list_query hostile sorts "name").page)
    × (1 ≤ (parse_list_query hostile sorts "name").per_page)
    × ((parse_list_query hostile sorts "name").per_page ≤ 100)
    × (((parse_list_query hostile sorts "name").sort_order ≡ "asc")
        ⊎ ((parse_list_query hostile sorts "name").sort_order ≡ "desc"))
parse_list_query-bounds_example = parse_list_query-bounds hostile sorts "name"

order_clause-closed_example :
    (order_clause (parse_list_query hostile sorts "name") sorts ≡ "id asc")
    ⊎ ((name column : String) × (sort_column sorts name ≡ some column)
        × ((order_clause (parse_list_query hostile sorts "name") sorts ≡ column ⧺ " asc")
            ⊎ (order_clause (parse_list_query hostile sorts "name") sorts ≡ column ⧺ " desc")))
order_clause-closed_example = order_clause-closed hostile sorts "name"

page_run : (parse_list_query hostile sorts "name").page ≡ 3
unfolding parse_list_query parse_positive_int atoi
page_run = refl

parse_list_query-offset_example :
    ((parse_list_query hostile sorts "name").offset
      ≡ ((parse_list_query hostile sorts "name").page - 1)
        * (parse_list_query hostile sorts "name").per_page)
    × ((parse_list_query hostile sorts "name").offset < 2 ^ 63)
parse_list_query-offset_example =
    parse_list_query-offset hostile sorts "name" (omega (arith, page_run))

wrapped : last_page_of 2 (2 ^ 63 - 1) ≡ negsuc (2 ^ 62 - 1)
unfolding last_page_of
wrapped = refl

last_page_of-covers_example :
    (last : ℕ) × (last_page_of 10 21 ≡ pos last)
    × (21 ≤ last * 10)
    × (last * 10 < 21 + 10)
    × (1 ≤ last)
last_page_of-covers_example = last_page_of-covers 10 21 (omega arith) (omega arith) (omega arith)
