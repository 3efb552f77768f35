-- ===== src/Query.antt =====
-- The query engine of the generated API: express/src/modules/_base/query-engine.ts, which
-- fastify/src/modules/_base/query-engine.ts repeats.
--
-- Filters are an object in the order of its keys, with their values printed as strings. A value that
-- JavaScript parses (a number, a date) is kept as its text; `is_number` tells if `Number` can read
-- one. Case is that of ASCII letters.
pub mod Laws
pub mod Pages
pub mod Expand
mod Tests
use projx.Base.Text.{
  Str, codes, starts_with, ends_with, drop_end, includes, split, trim, to_lower_case, is_truthy,
}
use projx.Base.Sets.{lookup, insert}
use projx.Base.{
  ℕ, zero, suc, ◌+◌, ◌-◌, ◌*◌, ◌/◌, ◌%◌, ◌^◌, ◌≤◌, ◌<◌, min, ◌≡◌, refl, sym, ap, ◌∙◌, ◌≢◌, ◌↔◌, ◌⊎◌,
  inl, inr, ite, Bool, true, false, not, ◌&&◌, ◌||◌, Option, none, some, some-ne-none, none-ne-some,
  some-injective, List, [], ◌∷◌, ◌++◌, map, arith, leb, ltb, if◌then◌else◌, Bool-cases,
  Option-cases, eq_cases, Eq, ◌==◌, ==_iff, contains, nat_eq, list_eq, option_eq, length, take,
  drop, any, all, filter, find, length-append, drop-append, take-append, take-append-drop,
  any-append, All, Any, All-append, dec_lt, ℕ_discrete,
}

abbrev pub reserved_params : List Str
reserved_params =
    codes "page" ∷ codes "page_size" ∷ codes "order_by" ∷ codes "search" ∷ codes "expand" ∷ []

unfoldable pub is_reserved : Str → Bool
is_reserved key = contains reserved_params key

-- A parameter is kept if it is not reserved and has a value that is not empty; `none` is undefined.
abbrev pub has_value : Option Str → Bool
has_value none = false
has_value (some value) = is_truthy value

unfoldable pub extract_filters : List (Str × Option Str) → List (Str × Option Str)
extract_filters [] = []
extract_filters ((key, value) ∷ query) =
    let rest = extract_filters query in
    if is_reserved key || not (has_value value) then rest else (key, value) ∷ rest

pub data Value : Type 0 where
  string : Str → Value
  number : Str → Value
  date : Str → Value
  boolean : Bool → Value

-- The keys of a column's condition; `at` is the index of a string that is spread.
pub data Operator : Type 0 where
  in_list is_not gte lte gt lt like mode : Operator
  at : ℕ → Operator

operator_dec : Discrete Operator
operator_dec = hlevel (ℕ_discrete)

instance unfoldable pub operator_eq : Eq Operator
unfolding operator_dec
operator_eq = record { dec = operator_dec }

pub data Operand : Type 0 where
  one : Value → Operand
  many : List Str → Operand
  null_operand : Operand

pub data Test : Type 0 where
  null_test : Test
  plain : Value → Test
  object : List (Operator × Operand) → Test

abbrev pub is_digit : ℕ → Bool
is_digit c = leb 48 c && leb c 57

-- `/^\d+$/`
unfoldable pub is_digits : Str → Bool
is_digits [] = false
is_digits (c ∷ text) = all is_digit (c ∷ text)

-- `/^\d{4}-\d{2}-\d{2}/`
unfoldable pub starts_with_date : Str → Bool
starts_with_date (a ∷ b ∷ c ∷ d ∷ e ∷ f ∷ g ∷ h ∷ i ∷ j ∷ rest) =
    all is_digit (a ∷ b ∷ c ∷ d ∷ f ∷ g ∷ i ∷ j ∷ []) && e == 45 && h == 45
starts_with_date _ = false

-- `/^\d+\.\d+$/`
abbrev pub is_decimal_of : List Str → Bool
is_decimal_of (whole ∷ fraction ∷ []) = is_digits whole && is_digits fraction
is_decimal_of _ = false

unfoldable pub coerce_value : Str → Value
coerce_value value =
    if is_digits value
    then number value
    else if starts_with_date value
    then date value
    else string value

unfoldable pub coerce_plain : Str → Value
coerce_plain value =
    if value == codes "true" || value == codes "false"
    then boolean (value == codes "true")
    else if is_digits value || is_decimal_of (split 46 value)
    then number value
    else string value

-- The column's type decides if it is known and one of these.
unfoldable pub coerce_for_column : (Str → Bool) → Option Str → Str → Value
coerce_for_column is_number none value = coerce_plain value
coerce_for_column is_number (some type) value =
    if type == codes "boolean" || type == codes "bool"
    then boolean (contains (codes "true" ∷ codes "1" ∷ []) (to_lower_case value))
    else if type == codes "number" || type == codes "float" || type == codes "int"
    then (if is_number value then number value else string value)
    else if type == codes "datetime" || type == codes "date"
    then date value
    else coerce_plain value

-- `value.split(',').map(trim).filter(Boolean)`
unfoldable pub list_values : Str → List Str
list_values value = filter is_truthy (map trim (split 44 value))

-- What a filter does to the condition of its column.
pub data Change : Type 0 where
  keep : Change
  set : Test → Change
  extend : Operator → Value → Change

abbrev pub set_list : List Str → Change
set_list [] = keep
set_list (value ∷ values) = set (object ((in_list, many (value ∷ values)) ∷ []))

-- The column that a filter names and its change, by the suffix of its key.
unfoldable pub read_filter : (Str → Bool) → (Str → Option Str) → Str → Str → Str × Change
read_filter is_number column_types key value =
    if ends_with key (codes "__in")
    then (drop_end 4 key, set_list (list_values value))
    else if ends_with key (codes "__isnull")
    then (
      drop_end 8 key,
      (if contains (codes "1" ∷ codes "true" ∷ []) (to_lower_case value)
          then set null_test
          else set (object ((is_not, null_operand) ∷ []))),
    )
    else if ends_with key (codes "__gte")
    then (drop_end 5 key, extend gte (coerce_value value))
    else if ends_with key (codes "__lte")
    then (drop_end 5 key, extend lte (coerce_value value))
    else if ends_with key (codes "__gt")
    then (drop_end 4 key, extend gt (coerce_value value))
    else if ends_with key (codes "__lt")
    then (drop_end 4 key, extend lt (coerce_value value))
    else if ends_with key (codes "__like")
    then (
      drop_end 6 key,
      set (object ((like, one (string value)) ∷ (mode, one (string (codes "insensitive"))) ∷ [])),
    )
    else (
      key,
      (if includes value (codes ",")
          then set_list (list_values value)
          else set (plain (coerce_for_column is_number (column_types key) value))),
    )

unfoldable pub spread_text : ℕ → Str → List (Operator × Operand)
spread_text n [] = []
spread_text n (c ∷ value) = (at n, one (string (c ∷ []))) ∷ spread_text (suc n) value

-- `...(where[col] ?? {})`
unfoldable pub spread : Option Test → List (Operator × Operand)
unfolding spread_text
spread none = []
spread (some null_test) = []
spread (some (object entries)) = entries
spread (some (plain (string value))) = spread_text 0 value
spread (some (plain (number value))) = []
spread (some (plain (date value))) = []
spread (some (plain (boolean value))) = []

abbrev pub change_where : Str → Change → List (Str × Test) → List (Str × Test)
change_where column keep where_ = where_
change_where column (set test) where_ = insert column test where_
change_where column (extend operator value) where_ =
    insert column (object (insert operator (one value) (spread (lookup column where_)))) where_

-- One round of the loop.
abbrev pub add_filter : List Str → Str × Change → List (Str × Test) → List (Str × Test)
add_filter columns (column, change) where_ =
    if not (contains columns column) then where_ else change_where column change where_

unfoldable pub add_filters :
    (Str → Bool)
    → (Str → Option Str)
    → List Str
    → List (Str × Str)
    → List (Str × Test)
    → List (Str × Test)
add_filters is_number column_types columns [] where_ = where_
add_filters is_number column_types columns ((key, value) ∷ filters) where_ =
    add_filters is_number column_types columns filters
      (add_filter columns (read_filter is_number column_types key value) where_)

unfoldable pub build_where_clause :
    (Str → Bool) → (Str → Option Str) → List Str → List (Str × Str) → List (Str × Test)
build_where_clause is_number column_types columns filters =
    add_filters is_number column_types columns filters []

-- A field and if it descends, with the field's name known.
unfoldable pub order_of : List Str → Str → Option (Str × Bool)
order_of columns field =
    let descending = starts_with field (codes "-") in
    let name = (if descending then drop 1 field else field) in
    if not (contains columns name) then none else some (name, descending)

abbrev pub add_order : Option (Str × Bool) → List (Str × Bool) → List (Str × Bool)
add_order none orders = orders
add_order (some order) orders = order ∷ orders

unfoldable pub orders_of : List Str → List Str → List (Str × Bool)
orders_of columns [] = []
orders_of columns (field ∷ fields) = add_order (order_of columns field) (orders_of columns fields)

abbrev pub is_blank : Option Str → Bool
is_blank none = true
is_blank (some value) = not (is_truthy (trim value))

abbrev pub text_of : Option Str → Str
text_of none = []
text_of (some value) = value

unfoldable pub build_order_by_clause : Option Str → List Str → List (Str × Bool)
build_order_by_clause order_by columns =
    if is_blank order_by
    then (codes "created_at", true) ∷ []
    else orders_of columns (list_values (text_of order_by))

-- The pattern, and the fields that it is looked for in.
unfoldable pub build_search_clause : Option Str → List Str → Option (Str × List Str)
build_search_clause search [] = none
build_search_clause search (field ∷ fields) =
    if is_blank search then none else some (trim (text_of search), field ∷ fields)

-- `skip` and `take`; pages are counted from 1.
unfoldable pub build_pagination : ℕ → ℕ → ℕ × ℕ
build_pagination page page_size = ((page - 1) * page_size, page_size)

-- `Math.ceil(total / pageSize) || 1`, for a page size above 0.
unfoldable pub total_pages : ℕ → ℕ → ℕ
total_pages total page_size =
    let pages = (total + (page_size - 1)) / page_size in if pages == 0 then 1 else pages
