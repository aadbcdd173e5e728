-- ===== src/Http.antt =====
-- backend/dto/common.go: the response envelopes, their machine-readable codes and list queries.
pub mod Attempt
pub mod Queries
mod Tests
use vpn_manager.Common.{
  ℕ, zero, suc, not, ◌+◌, ◌-◌, ◌*◌, ◌/◌, ◌%◌, ◌^◌, String, Option, none, some, List, [], ◌∷◌, ltb,
  leb, ◌==◌, ◌=ₛ◌, if◌then◌else◌,
}
use vpn_manager.Text.{trim_space, to_lower, ◌⧺◌, atoi, ℤ, pos, negsuc}

-- What a handler writes: `APIResponse` or `ErrorResponse`. `Warning` is "" where it is omitted.
pub data Reply (A : Type 0) : Type 0 where
  success : (status : ℕ) (code message : String) (body : Option A) (warning : String) → Reply A
  failure : (status : ℕ) (code message : String) → Reply A
  invalid : (status : ℕ) (code : String) (fields : List String) → Reply A

-- `codeForStatus`
unfoldable pub code_for_status : ℕ → String
code_for_status s =
    if s == 200
    then "OK"
    else if s == 201
    then "CREATED"
    else if s == 400
    then "BAD_REQUEST"
    else if s == 401
    then "UNAUTHORIZED"
    else if s == 403
    then "FORBIDDEN"
    else if s == 404
    then "NOT_FOUND"
    else if s == 409
    then "CONFLICT"
    else if s == 412
    then "PRECONDITION_FAILED"
    else if s == 422
    then "UNPROCESSABLE_ENTITY"
    else if s == 503
    then "SERVICE_UNAVAILABLE"
    else if leb 500 s
    then "INTERNAL_ERROR"
    else if leb 400 s
    then "BAD_REQUEST"
    else "OK"

module _ {A : Type 0} where
  unfoldable pub reply_success : ℕ → String → A → Reply A
  unfolding code_for_status
  reply_success status message body = success status (code_for_status status) message (some body) ""

  unfoldable pub reply_ok : String → A → Reply A
  unfolding reply_success
  reply_ok message body = reply_success 200 message body

  unfoldable pub reply_created : String → A → Reply A
  unfolding reply_success
  reply_created message body = reply_success 201 message body

  unfoldable pub reply_no_data : ℕ → String → Reply A
  unfolding code_for_status
  reply_no_data status message = success status (code_for_status status) message none ""

  unfoldable pub reply_ok_warn : String → A → String → Reply A
  reply_ok_warn message body warning = success 200 "OK" message (some body) warning

  unfoldable pub reply_created_warn : String → A → String → Reply A
  reply_created_warn message body warning = success 201 "CREATED" message (some body) warning

  unfoldable pub reply_no_data_warn : String → String → Reply A
  reply_no_data_warn message warning = success 200 "OK" message none warning

  unfoldable pub reply_error : ℕ → String → Reply A
  unfolding code_for_status
  reply_error status message = failure status (code_for_status status) message

  unfoldable pub reply_validation_error : List String → Reply A
  reply_validation_error fields = invalid 422 "VALIDATION_ERROR" fields

  -- the HTTP status that carries the reply
  abbrev pub status_of : Reply A → ℕ
  status_of (success s _ _ _ _) = s
  status_of (failure s _ _) = s
  status_of (invalid s _ _) = s

-- `parsePositiveInt`
unfoldable pub parse_positive_int : String → ℕ → ℕ
parse_positive_int value fallback = if value =ₛ "" then fallback else elim (atoi value) [
  | none ↦ fallback
  | some (pos n) ↦ if n == 0 then fallback else n
  | some (negsuc n) ↦ fallback
]

pub record ListQuery : Type 0 where
  pub page : ℕ
  pub per_page : ℕ
  -- an `int` of 64 bits, as its bit pattern
  pub offset : ℕ
  pub sort_by : String
  pub sort_order : String
  pub search : String

-- The query parameters of a list request, "" where one is absent (`c.Query`).
pub record Params : Type 0 where
  pub page : String
  pub per_page : String
  pub sort_by : String
  pub sort_order : String
  pub search : String

-- a lookup in `allowedSorts`
unfoldable pub sort_column : List (String × String) → String → Option String
sort_column [] name = none
sort_column ((k, column) ∷ rest) name = if k =ₛ name then some column else sort_column rest name

abbrev chosen_sort : List (String × String) → String → String → String
chosen_sort allowed fallback name = elim (sort_column allowed name) [
  | none ↦ fallback
  | some _ ↦ name
]

-- `ParseListQuery`; every list handler passes a map, never nil
unfoldable pub parse_list_query : Params → List (String × String) → String → ListQuery
unfolding parse_positive_int sort_column
parse_list_query q allowed default_sort =
    let page = parse_positive_int q.page 1 in
    let asked = parse_positive_int q.per_page 10 in
    let per_page : ℕ = if ltb 100 asked then 100 else asked in
    let wanted = trim_space q.sort_by in
    let named : String = if wanted =ₛ "" then default_sort else wanted in
    let order = to_lower (trim_space q.sort_order) in
    record {
      page = page;
      per_page = per_page;
      offset = ((page - 1) * per_page) % 2 ^ 64;
      sort_by = chosen_sort allowed default_sort named;
      sort_order = if order =ₛ "desc" then "desc" else "asc";
      search = trim_space q.search;
    }

abbrev column_order : Option String → String → String
column_order none order = "id asc"
column_order (some column) order = if column =ₛ "" then "id asc" else column ⧺ " " ⧺ order

-- `ListQuery.OrderClause`
unfoldable pub order_clause : ListQuery → List (String × String) → String
order_clause q allowed = column_order (sort_column allowed q.sort_by) q.sort_order

pub record PaginationMeta : Type 0 where
  pub page : ℕ
  pub per_page : ℕ
  pub total : ℕ
  pub last_page : ℤ
  pub sort_by : String
  pub sort_order : String
  pub search : String

-- a negative `int64` whose 64 bits are `2 ^ 64 - n`, divided towards zero
negative : ℕ → ℤ
negative zero = pos 0
negative (suc n) = negsuc n

-- `NewPaginationMeta` and `NewListMeta`, for a row count that is not negative and a page size that is
-- positive, both of them below 2 ^ 63: their sum wraps to a negative number from 2 ^ 63 on.
unfoldable pub last_page_of : ℕ → ℕ → ℤ
unfolding negative
last_page_of per_page total =
    let sum = total + per_page - 1 in
    if not (ltb 0 total)
    then pos 1
    else if ltb sum (2 ^ 63)
    then pos (sum / per_page)
    else negative ((2 ^ 64 - sum) / per_page)

unfoldable pub new_list_meta : ListQuery → ℕ → PaginationMeta
unfolding last_page_of
new_list_meta q total = record {
  page = q.page;
  per_page = q.per_page;
  total = total;
  last_page = last_page_of q.per_page total;
  sort_by = q.sort_by;
  sort_order = q.sort_order;
  search = q.search;
}
