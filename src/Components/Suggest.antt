-- ===== src/Components/Suggest.antt =====
-- The nearest component to a mistyped one: `editDistance` and `suggestComponent` of
-- cli/src/utils.ts.
pub mod Distance
pub mod Laws
use projx.Base.Text.{Str, to_lower_case}
use projx.Components.{Component, component_name, components, normalize_component}
use projx.Base.{
  ℕ, zero, suc, ◌+◌, ◌-◌, ◌*◌, ◌/◌, ◌%◌, ◌^◌, ◌≤◌, ◌<◌, min, ◌≡◌, refl, sym, ap, ◌∙◌, ◌≢◌, ◌↔◌, ◌⊎◌,
  inl, inr, ite, Bool, true, false, not, ◌&&◌, ◌||◌, Option, none, some, List, [], ◌∷◌, ◌++◌, map,
  arith, leb, ltb, if◌then◌else◌, Bool-cases, Option-cases, Eq, ◌==◌, ==_iff, contains, nat_eq,
  list_eq, option_eq, length, take, drop, any, all, filter, find, length-append, drop-append,
  take-append, take-append-drop, any-append, All, Any, All-append, dec_lt, ℕ_discrete,
}

-- `a[i - 1] === b[j - 1] ? 0 : 1`
unfoldable pub cost : ℕ → ℕ → ℕ
cost c d = if c == d then 0 else 1

-- The inner loop over j, on row i of the matrix: `c` is `a[i - 1]`, the second argument the rest
-- of `b`, the third the row above from column j - 1 on, and `left` is `dist[i][j - 1]`.
unfoldable pub fill_row : ℕ → Str → List ℕ → ℕ → List ℕ
unfolding cost
fill_row c (d ∷ b) (corner ∷ (above ∷ prev)) left =
    let cell = min (min (above + 1) (left + 1)) (corner + cost c d) in
    cell ∷ fill_row c b (above ∷ prev) cell
fill_row c _ _ left = []

-- The outer loop over i: `i` is the row above, whose cells are `prev`.
unfoldable pub fill_rows : Str → Str → ℕ → List ℕ → List ℕ
unfolding fill_row
fill_rows [] b i prev = prev
fill_rows (c ∷ a) b i prev = fill_rows a b (i + 1) ((i + 1) ∷ fill_row c b prev (i + 1))

-- Row 0: `dist[0][j] = j`, from column j on.
unfoldable pub first_row : ℕ → Str → List ℕ
first_row j [] = j ∷ []
first_row j (d ∷ b) = j ∷ first_row (j + 1) b

-- The last cell of a row.
unfoldable pub last_or : ℕ → List ℕ → ℕ
last_or d [] = d
last_or d (x ∷ xs) = last_or x xs

unfoldable pub edit_distance : Str → Str → ℕ
unfolding fill_rows first_row last_or
edit_distance a b = last_or 0 (fill_rows a b 0 (first_row 0 b))

-- The loop over `COMPONENTS`: the best so far with its distance, `none` for Infinity.
unfoldable pub closest : Str → List Component → Option (Component × ℕ) → Option (Component × ℕ)
unfolding edit_distance
closest needle [] best = best
closest needle (c ∷ cs) none = closest needle cs (some (c, edit_distance needle (component_name c)))
closest needle (c ∷ cs) (some (b, n)) = closest needle cs (
    if ltb (edit_distance needle (component_name c)) n
    then some (c, edit_distance needle (component_name c))
    else some (b, n))

max_allowed : Component → ℕ
max_allowed best = min 3 (length (component_name best) / 2)

within_reach : Option (Component × ℕ) → Option Component
unfolding max_allowed
within_reach none = none
within_reach (some (best, n)) = if leb n (max_allowed best) then some best else none

unfoldable pub suggest_component : Str → Option Component
unfolding normalize_component closest within_reach
suggest_component input = elim (normalize_component (to_lower_case input)) [
  | some aliased ↦ some aliased
  | none ↦ within_reach (closest (to_lower_case input) components none)
]

distance_tests :
    (edit_distance (3 ∷ 1 ∷ 2 ∷ []) (1 ∷ 2 ∷ 4 ∷ []) ≡ 2)
    × (edit_distance [] (1 ∷ 2 ∷ []) ≡ 2)
    × (edit_distance (1 ∷ []) [] ≡ 1)
unfolding edit_distance nat_eq
distance_tests = (refl, refl, refl)
