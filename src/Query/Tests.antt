-- ===== src/Query/Tests.antt =====
-- Requests with filters, orders, pages and expansions.
use projx.Base.Text.{
  Str, codes, starts_with, ends_with, includes, split, split_from, trim, to_lower_case,
}
use projx.Base.Sets.{lookup, insert, dedup, add_all, IsKeyed}
use projx.Query.{
  extract_filters, is_reserved, number, boolean, in_list, gte, lt, operator_eq, one, many, plain,
  object, is_digits, starts_with_date, coerce_value, coerce_plain, coerce_for_column, list_values,
  read_filter, spread, add_filters, build_where_clause, order_of, orders_of, build_order_by_clause,
  total_pages, is_blank,
}
use projx.Query.Laws.{build_where_clause-columns}
use projx.Query.Pages.{IsOnPage, pages_share}
use projx.Query.Expand.{
  build_include_from_expand, include_keys, inherited_names, has_relation,
  build_include_from_expand-contains,
}
use projx.Base.{
  ℕ, ◌≤◌, ◌≡◌, refl, Bool, true, false, ◌&&◌, ◌||◌, Option, none, some, List, [], ◌∷◌, arith,
  if◌then◌else◌, ◌==◌, contains, nat_eq, list_eq, option_eq,
}

abbrev columns : List Str
columns = codes "age" ∷ codes "name" ∷ codes "active" ∷ []

abbrev column_types : Str → Option Str
column_types name = if name == codes "active" then some (codes "boolean") else none

abbrev is_number : Str → Bool
is_number value = is_digits value

abbrev filters : List (Str × Str)
filters =
    (codes "age__gte", codes "18")
    ∷ (codes "age__lt", codes "65")
    ∷ (codes "name", codes "a, b,")
    ∷ (codes "active", codes "1")
    ∷ (codes "secret", codes "x")
    ∷ []

steps : Unit {0}
unfolding build_where_clause add_filters read_filter coerce_for_column coerce_plain coerce_value
    is_digits starts_with_date list_values spread insert lookup list_eq nat_eq operator_eq ends_with
    starts_with includes split split_from trim to_lower_case
steps = tt

where_test :
    build_where_clause is_number column_types columns filters
    ≡ (
      codes "age",
      object ((gte, one (number (codes "18"))) ∷ (lt, one (number (codes "65"))) ∷ []),
    )
      ∷ (codes "name", object ((in_list, many (codes "a" ∷ codes "b" ∷ [])) ∷ []))
      ∷ (codes "active", plain (boolean true))
      ∷ []
unfolding steps
where_test = refl

order_test :
    build_order_by_clause (some (codes "-age, name,secret")) columns
    ≡ (codes "age", true) ∷ (codes "name", false) ∷ []
unfolding build_order_by_clause orders_of order_of steps
order_test = refl

pages_test : (total_pages 0 10 ≡ 1) × (total_pages 20 10 ≡ 2) × (total_pages 21 10 ≡ 3)
unfolding total_pages nat_eq
pages_test = (refl, refl, refl)

secret_unknown : contains columns (codes "secret") ≡ false
unfolding steps
secret_unknown = refl

order_named : is_blank (some (codes "-age")) ≡ false
unfolding steps
order_named = refl

abbrev query : List (Str × Option Str)
query =
    (codes "page", some (codes "2"))
    ∷ (codes "age__gte", some (codes "18"))
    ∷ (codes "name", some [])
    ∷ []

query-IsKeyed : IsKeyed query
unfolding steps
query-IsKeyed = (refl, (refl, (refl, tt)))

filters_test : extract_filters query ≡ (codes "age__gte", some (codes "18")) ∷ []
unfolding extract_filters is_reserved steps
filters_test = refl

include_test :
    build_include_from_expand
      (codes "author" ∷ codes "constructor" ∷ codes "x" ∷ [])
      (some (codes "author" ∷ []))
    ≡ some (codes "author" ∷ codes "constructor" ∷ [])
unfolding build_include_from_expand has_relation dedup add_all steps
include_test = refl

build_where_clause-columns_example :
    lookup (codes "secret") (build_where_clause is_number column_types columns filters) ≡ none
build_where_clause-columns_example =
    build_where_clause-columns is_number column_types columns filters (codes "secret")
      secret_unknown

pages_share_example :
    (page : ℕ) × (1 ≤ page)
    × (page ≤ total_pages 21 10)
    × IsOnPage 10 page 20
    × ((other : ℕ) → 1 ≤ other → IsOnPage 10 other 20 → other ≡ page)
pages_share_example = pages_share 21 10 20 (omega arith) (omega arith)

build_include_from_expand-contains_example :
    contains
      (include_keys (build_include_from_expand (codes "a" ∷ []) (some (codes "a" ∷ []))))
      (codes "a")
    ≡ (contains (codes "a" ∷ []) (codes "a")
        && (contains (codes "a" ∷ []) (codes "a") || contains inherited_names (codes "a")))
build_include_from_expand-contains_example =
    build_include_from_expand-contains (codes "a" ∷ []) (codes "a" ∷ []) (codes "a")
