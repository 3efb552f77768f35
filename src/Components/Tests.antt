-- ===== src/Components/Tests.antt =====
-- Components, ORM providers and package managers at concrete inputs.
use projx.Base.Text.{Str, codes, to_lower_case}
use projx.Components.{
  Component, component_eq, component_name, normalize_component, fastify, express, vitejs, go, infra,
}
use projx.Components.Orm.{
  prisma, sqlc, drizzle, resolve_instance_orm, Chosen, resolve-Chosen, orm_eq, family_eq,
  OrmProvider,
}
use projx.Components.Suggest.{edit_distance, suggest_component}
use projx.Components.Suggest.Distance.{Edits, edit_distance-IsLeast}
use projx.Components.Suggest.Laws.{distance, IsNearest, suggest_component_lem}
use projx.Components.Packages.{pnpm, npm, detect_package_manager_from_components}
use projx.Base.{
  ℕ, ◌/◌, ◌≤◌, min, ◌≡◌, refl, Bool, Option, none, some, [], ◌∷◌, leb, if◌then◌else◌, ◌==◌,
  contains, nat_eq, list_eq, option_eq, length,
}

names : Unit {0}
unfolding normalize_component suggest_component to_lower_case list_eq nat_eq
names = tt

suggest_tests :
    (suggest_component (codes "Frontend") ≡ some vitejs)
    × (suggest_component (codes "fastfy") ≡ some fastify)
    × (suggest_component (codes "zzzzzz") ≡ none)
unfolding names
suggest_tests = (refl, refl, refl)

unknown_fastfy : normalize_component (to_lower_case (codes "fastfy")) ≡ none
unfolding names
unknown_fastfy = refl

edit_distance-IsLeast_example :
    Edits (edit_distance (codes "go") (codes "got")) (codes "go") (codes "got")
    × ((n : ℕ) → Edits n (codes "go") (codes "got") → edit_distance (codes "go") (codes "got") ≤ n)
edit_distance-IsLeast_example = edit_distance-IsLeast (codes "go") (codes "got")

suggest_component_lem_example :
    (best : Component) × IsNearest (to_lower_case (codes "fastfy")) best
    × (suggest_component (codes "fastfy") ≡ (
        if leb
          (distance (to_lower_case (codes "fastfy")) best)
          (min 3 (length (component_name best) / 2))
        then some best
        else none))
suggest_component_lem_example = suggest_component_lem (codes "fastfy") unknown_fastfy

resolve_tests :
    (resolve_instance_orm go none (some prisma) ≡ resolve_instance_orm go none none)
    × (resolve_instance_orm express none (some drizzle) ≡ some drizzle)
    × (resolve_instance_orm infra (some sqlc) (some drizzle) ≡ none)
unfolding resolve_instance_orm orm_eq family_eq
resolve_tests = (refl, refl, refl)

resolve-Chosen_example :
    (o : OrmProvider) × (resolve_instance_orm express none (some drizzle) ≡ some o)
    × Chosen none (some drizzle) prisma o
resolve-Chosen_example = resolve-Chosen express none (some drizzle) prisma refl

abbrev tree : Str → Bool
tree path =
    contains (codes "/p/api" ∷ codes "/p/api/pnpm-lock.yaml" ∷ codes "/p/package-lock.json" ∷ [])
      path

abbrev no_lock : Str → Bool
no_lock path = path == codes "/p/api"

abbrev directories : Component → Option Str
directories express = some (codes "api")
directories _ = none

detect_tests :
    (detect_package_manager_from_components tree (codes "/p") directories ≡ some pnpm)
    × (detect_package_manager_from_components tree (codes "/p") (λ _. none) ≡ some npm)
    × (detect_package_manager_from_components no_lock (codes "/p") directories ≡ none)
unfolding detect_package_manager_from_components list_eq nat_eq
detect_tests = (refl, refl, refl)
