-- ===== src/Features/Targets.antt =====
-- The targets of a feature: `parseFeatureFlag` and `validateFeatureTargets` of
-- cli/src/features.ts. An error is `none`; the comparison of the language that sorts paths, which
-- says whether the first comes no later than the second, is a parameter. Of an instance only the component and the path count.
pub mod Laws
mod Tests
use mathlib.Core.Path.{subst}
use projx.Base.Text.{Str, codes, split, trim, is_truthy}
use projx.Components.{Component, component_eq, component_name, normalize_component}
use projx.Project.Discover.{ComponentInstance}
use projx.Base.{
  ℕ, zero, suc, ◌+◌, ◌-◌, ◌*◌, ◌/◌, ◌%◌, ◌^◌, ◌≤◌, ◌<◌, min, ◌≡◌, refl, sym, ap, ◌∙◌, ◌≢◌, ◌↔◌, ◌⊎◌,
  inl, inr, ite, Bool, true, false, not, ◌&&◌, ◌||◌, Option, none, some, some-ne-none, none-ne-some,
  some-injective, List, [], ◌∷◌, ◌++◌, map, arith, leb, ltb, if◌then◌else◌, Bool-cases,
  Option-cases, eq_cases, ==_refl, Eq, ◌==◌, ==_iff, contains, nat_eq, list_eq, option_eq, length,
  take, drop, any, all, filter, find, length-append, drop-append, take-append, take-append-drop,
  any-append, All, Any, All-append, dec_lt, ℕ_discrete,
}

pub record FeatureTarget : Type 0 where
  pub component : Component
  pub instance_name : Option Str

pub record ResolvedFeatureTarget : Type 0 where
  pub component : Component
  pub instance_name : Str
  pub path : Str

abbrev target_of : Option Component → Option Str → Option FeatureTarget
target_of none name = none
target_of (some component) name = some (record { component = component; instance_name = name })

-- `component` or `component:instance`, of trimmed parts that are not empty.
abbrev parse_parts : List Str → Option FeatureTarget
parse_parts (component ∷ []) = target_of (normalize_component component) none
parse_parts (component ∷ name ∷ []) = target_of (normalize_component component) (some name)
parse_parts _ = none

unfoldable pub parse_piece : Str → Option FeatureTarget
parse_piece piece =
    let parts = map trim (split 58 piece) in
    if not (is_truthy piece) || not (all is_truthy parts) then none else parse_parts parts

abbrev pub add_target {ℓ} : {A : Type ℓ} → Option A → Option (List A) → Option (List A)
add_target none _ = none
add_target (some _) none = none
add_target (some target) (some targets) = some (target ∷ targets)

unfoldable pub parse_pieces : List Str → Option (List FeatureTarget)
parse_pieces [] = some []
parse_pieces (piece ∷ pieces) = add_target (parse_piece (trim piece)) (parse_pieces pieces)

unfoldable pub parse_feature_flag : Str → Option (List FeatureTarget)
parse_feature_flag input =
    if is_truthy (trim input) then parse_pieces (split 44 (trim input)) else some []

unfoldable pub paths_of : Component → List ComponentInstance → List Str
paths_of component [] = []
paths_of component (i ∷ instances) =
    let rest = paths_of component instances in if i.type == component then i.path ∷ rest else rest

module _ (is_before : Str → Str → Bool) where
  unfoldable pub insert_path : Str → List Str → List Str
  insert_path path [] = path ∷ []
  insert_path path (next ∷ paths) =
      let rest = insert_path path paths in
      if is_before path next then path ∷ next ∷ paths else next ∷ rest

  unfoldable pub sort_paths : List Str → List Str
  sort_paths [] = []
  sort_paths (path ∷ paths) = insert_path path (sort_paths paths)

  -- The instance that is named, or the first one.
  abbrev pub pick : Option Str → List Str → Option Str
  pick _ [] = none
  pick none (path ∷ paths) = some path
  pick (some []) (path ∷ paths) = some path
  pick (some (c ∷ name)) (path ∷ paths) =
      if contains (path ∷ paths) (c ∷ name) then some (c ∷ name) else none

  abbrev pub supports_component : Option (List Str) → Component → Bool
  supports_component none component = true
  supports_component (some supported) component = contains supported (component_name component)

  abbrev pub resolved_at : Component → Option Str → Option ResolvedFeatureTarget
  resolved_at component none = none
  resolved_at component (some path) =
      some (record { component = component; instance_name = path; path = path })

  unfoldable pub resolve_target :
      Option (List Str) → List ComponentInstance → FeatureTarget → Option ResolvedFeatureTarget
  resolve_target supported instances target =
      if not (supports_component supported target.component)
      then none
      else resolved_at target.component
          (pick target.instance_name (sort_paths (paths_of target.component instances)))

  unfoldable pub validate_feature_targets :
      List FeatureTarget
      → List ComponentInstance
      → Option (List Str)
      → Option (List ResolvedFeatureTarget)
  validate_feature_targets [] instances supported = some []
  validate_feature_targets (target ∷ targets) instances supported =
      add_target (resolve_target supported instances target)
        (validate_feature_targets targets instances supported)
