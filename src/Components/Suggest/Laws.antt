-- ===== src/Components/Suggest/Laws.antt =====
-- What `suggestComponent` returns for a name that is no component.
use projx.Base.Text.{Str, to_lower_case}
use projx.Components.{
  Component, component_name, components, normalize_component, fastapi, fastify, express, go, rust,
  laravel, vitejs, nextjs, mobile, e2e, infra, admin_panel,
}
use projx.Components.Suggest.{edit_distance, closest, max_allowed, within_reach, suggest_component}
use projx.Base.{
  ℕ, ◌/◌, ◌≤◌, min, ◌≡◌, refl, inl, inr, none, some, List, [], ◌∷◌, arith, leb, ltb, if◌then◌else◌,
  Bool-cases, nat_eq, list_eq, option_eq, length, All,
}

-- The distance from a needle to a component's name.
abbrev pub distance : Str → Component → ℕ
distance needle c = edit_distance needle (component_name c)

-- Of all the components this one is the nearest.
abbrev pub IsNearest : Str → Component → Type 0
IsNearest needle best = All (λ c. distance needle best ≤ distance needle c) components

closest_from :
    (needle : Str) (cs : List Component) (b : Component)
    → (best : Component) × (closest needle cs (some (b, distance needle b))
        ≡ some (best, distance needle best))
      × (distance needle best ≤ distance needle b)
      × All (λ c. distance needle best ≤ distance needle c) cs
unfolding closest
closest_from needle [] b = (b, refl, omega arith, tt)
closest_from needle (c ∷ cs) b = elim (Bool-cases (ltb (distance needle c) (distance needle b))) [
  | inl nearer ↦
      let (best, e, le, rest) = closest_from needle cs c in
      (best, rw nearer e, ground arith, (le, rest))
  | inr farther ↦
      let (best, e, le, rest) = closest_from needle cs b in
      (best, rw farther e, le, (ground arith, rest))
]

closest_of_all :
    (needle : Str)
    → (best : Component) × (closest needle components none ≡ some (best, distance needle best))
      × IsNearest needle best
unfolding closest
closest_of_all needle =
    let (best, e, le, rest) =
      closest_from needle
        (fastify ∷ express ∷ go ∷ rust ∷ laravel ∷ vitejs ∷ nextjs ∷ mobile ∷ e2e ∷ infra
          ∷ admin_panel ∷ [])
        fastapi in
    (best, e, (le, rest))

-- For a name that is no component and no alias, one component is nearest, and it is suggested
-- exactly when it lies within three edits and within half of its own length.
pub suggest_component_lem :
    (input : Str)
    → normalize_component (to_lower_case input) ≡ none
    → (best : Component) × IsNearest (to_lower_case input) best
      × (suggest_component input ≡ (
          if leb (distance (to_lower_case input) best) (min 3 (length (component_name best) / 2))
          then some best
          else none))
unfolding suggest_component max_allowed within_reach
suggest_component_lem input unknown =
    let (best, e, nearest) = closest_of_all (to_lower_case input) in
    (best, nearest, rw (unknown, suggest_component, e))
