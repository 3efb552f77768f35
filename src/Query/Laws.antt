-- ===== src/Query/Laws.antt =====
-- What a request's parameters reach: `extractFilters`, `buildWhereClause` and
-- `buildOrderByClause`.
use projx.Base.Text.{Str, codes, starts_with}
use projx.Base.Sets.{IsKeyed, lookup, lookup-insert, lookup-nil, lookup-cons}
use projx.Query.{
  Test, Change, keep, set, extend, change_where, add_filter, add_filters, read_filter,
  build_where_clause, order_of, add_order, orders_of, build_order_by_clause, is_blank, text_of,
  list_values, extract_filters, is_reserved, has_value,
}
use projx.Base.{
  ◌≡◌, refl, sym, ◌∙◌, inl, inr, Bool, true, false, not, ◌||◌, Option, none, some, List, [], ◌∷◌,
  arith, if◌then◌else◌, Bool-cases, eq_cases, ◌==◌, contains, nat_eq, list_eq, option_eq, drop, All,
}

change_where_other :
    (column : Str) (change : Change) (where_ : List (Str × Test)) (name : Str)
    → (name == column) ≡ false
    → lookup name (change_where column change where_) ≡ lookup name where_
change_where_other column keep where_ name other = refl
change_where_other column (set test) where_ name other = rw (lookup-insert, other) refl
change_where_other column (extend operator value) where_ name other = rw (lookup-insert, other) refl

add_filter_other :
    (columns : List Str) (column : Str) (change : Change) (where_ : List (Str × Test)) (name : Str)
    → contains columns name ≡ false
    → lookup name (add_filter columns (column, change) where_) ≡ lookup name where_
add_filter_other columns column change where_ name unknown =
    elim (Bool-cases (contains columns column)) [
      | inl known ↦ rw known (
          change_where_other column change where_ name (elim (eq_cases name column) [
            | inl (_, same) ↦ absurd (true_false (sym known ∙ (rw same at unknown)))
            | inr (test, _) ↦ test
          ]))
      | inr new ↦ rw new refl
    ]
  where
    true_false : true ≡ false → ⊥
    true_false e = cc

add_filters_other :
    (is_number : Str → Bool) (column_types : Str → Option Str) (columns : List Str)
    (filters : List (Str × Str)) (where_ : List (Str × Test)) (name : Str)
    → contains columns name ≡ false
    → lookup name (add_filters is_number column_types columns filters where_) ≡ lookup name where_
unfolding add_filters
add_filters_other is_number column_types columns [] where_ name unknown = refl
add_filters_other is_number column_types columns ((key, value) ∷ filters) where_ name unknown =
    let target = read_filter is_number column_types key value in
    add_filters_other is_number column_types columns filters (add_filter columns target where_) name
      unknown
    ∙ add_filter_other columns target.0 target.1 where_ name unknown

-- Whatever the parameters of a request, the clause has no condition on a name that is no column.
pub build_where_clause-columns :
    (is_number : Str → Bool) (column_types : Str → Option Str) (columns : List Str)
    (filters : List (Str × Str)) (name : Str)
    → contains columns name ≡ false
    → lookup name (build_where_clause is_number column_types columns filters) ≡ none
unfolding build_where_clause
build_where_clause-columns is_number column_types columns filters name unknown =
    add_filters_other is_number column_types columns filters [] name unknown ∙ lookup-nil name

order_of-columns :
    (columns : List Str) (field : Str) (orders : List (Str × Bool))
    → All (λ order. contains columns order.0 ≡ true) orders
    → All (λ order. contains columns order.0 ≡ true) (add_order (order_of columns field) orders)
unfolding order_of
order_of-columns columns field orders h =
    let name : Str = (if starts_with field (codes "-") then drop 1 field else field) in
    elim (Bool-cases (contains columns name)) [
      | inl known ↦ rw known (known, h)
      | inr unknown ↦ rw unknown h
    ]

orders_of-columns :
    (columns fields : List Str)
    → All (λ order. contains columns order.0 ≡ true) (orders_of columns fields)
unfolding orders_of
orders_of-columns columns [] = tt
orders_of-columns columns (field ∷ fields) =
    order_of-columns columns field (orders_of columns fields) (orders_of-columns columns fields)

-- A request that names an order is ordered by columns only.
pub build_order_by_clause-columns :
    (columns : List Str) (order_by : Option Str)
    → is_blank order_by ≡ false
    → All (λ order. contains columns order.0 ≡ true) (build_order_by_clause order_by columns)
unfolding build_order_by_clause
build_order_by_clause-columns columns order_by named =
    rw named (orders_of-columns columns (list_values (text_of order_by)))

-- A parameter's value as a filter.
abbrev pub as_filter : Bool → Option (Option Str) → Option (Option Str)
as_filter true _ = none
as_filter false none = none
as_filter false (some value) = if has_value value then some value else none

as_filter-none : (reserved : Bool) → as_filter reserved none ≡ none
as_filter-none true = refl
as_filter-none false = refl

as_filter-some :
    (reserved : Bool) (value : Option Str)
    → as_filter reserved (some value)
      ≡ (if reserved || not (has_value value) then none else some value)
as_filter-some true value = refl
as_filter-some false value = ground arith

lookup_if :
    (dropped : Bool) (name : Str) (rest all_ : List (Str × Option Str))
    → lookup name (if dropped then rest else all_)
      ≡ (if dropped then lookup name rest else lookup name all_)
lookup_if true name rest all_ = refl
lookup_if false name rest all_ = refl

if_either : (test : Bool) (x : Option (Option Str)) → (if test then x else x) ≡ x
if_either true x = refl
if_either false x = refl

-- For a request that names no parameter twice, the filters are its parameters that are neither
-- reserved nor without a value.
pub lookup-extract_filters :
    (query : List (Str × Option Str)) (name : Str)
    → IsKeyed query
    → lookup name (extract_filters query) ≡ as_filter (is_reserved name) (lookup name query)
unfolding extract_filters
lookup-extract_filters [] name u = rw lookup-nil (sym (as_filter-none (is_reserved name)))
lookup-extract_filters ((key, value) ∷ query) name (new, u) =
    let dropped = is_reserved key || not (has_value value) in
    let later = lookup-extract_filters query name u in
    lookup_if dropped name (extract_filters query) ((key, value) ∷ extract_filters query)
    ∙ elim (eq_cases name key) [
      | inl (test, same) ↦
          rw (lookup-cons, lookup-cons, test, later, same, new, as_filter-none)
            (sym (as_filter-some (is_reserved key) value))
      | inr (test, _) ↦
          rw (lookup-cons, lookup-cons, test)
            (if_either dropped (lookup name (extract_filters query)) ∙ later)
    ]
