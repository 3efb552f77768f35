-- ===== src/Features/Targets/Tests.antt =====
-- Feature flags and their targets in a project with three instances.
use projx.Base.Text.{Str, codes, split, split_from, trim, trim_start, trim_end, is_space}
use projx.Components.{
  component_eq, express, fastapi, vitejs, normalize_component, resolve_alias, component_of,
}
use projx.Project.Discover.{ComponentInstance}
use projx.Features.Targets.{
  FeatureTarget, ResolvedFeatureTarget, parse_piece, parse_pieces, parse_feature_flag, paths_of,
  insert_path, sort_paths, resolve_target, validate_feature_targets,
}
use projx.Features.Targets.Laws.{AllResolved, IsOrder, validate_feature_targets-AllResolved}
use projx.Base.{
  ◌≡◌, refl, Bool, true, false, none, some, List, [], ◌∷◌, leb, arith, nat_eq, list_eq, option_eq,
}

abbrev instances : List ComponentInstance
instances =
    (record { type = express; path = codes "web"; orm = none })
    ∷ (record { type = express; path = codes "api"; orm = none })
    ∷ (record { type = vitejs; path = codes "ui"; orm = none })
    ∷ []

-- By the first unit, the empty text first.
abbrev is_before : Str → Str → Bool
is_before [] _ = true
is_before (_ ∷ _) [] = false
is_before (a ∷ _) (b ∷ _) = leb a b

abbrev targets : List FeatureTarget
targets =
    (record { component = express; instance_name = none })
    ∷ (record { component = vitejs; instance_name = some (codes "ui") })
    ∷ []

abbrev resolved : List ResolvedFeatureTarget
resolved =
    (record { component = express; instance_name = codes "api"; path = codes "api" })
    ∷ (record { component = vitejs; instance_name = codes "ui"; path = codes "ui" })
    ∷ []

steps : Unit {0}
unfolding parse_feature_flag parse_pieces parse_piece validate_feature_targets resolve_target
    sort_paths insert_path paths_of normalize_component resolve_alias component_of split split_from
    trim trim_start trim_end is_space list_eq nat_eq component_eq
steps = tt

parse_test :
    (parse_feature_flag (codes " express , frontend:ui") ≡ some targets)
    × (parse_feature_flag (codes "  ") ≡ some [])
    × (parse_feature_flag (codes "express,,vitejs") ≡ none)
    × (parse_feature_flag (codes "express:") ≡ none)
    × (parse_feature_flag (codes "express:a:b") ≡ none)
    × (parse_feature_flag (codes "rails") ≡ none)
unfolding steps
parse_test = (refl, refl, refl, refl, refl, refl)

validate_test : validate_feature_targets is_before targets instances none ≡ some resolved
unfolding steps
validate_test = refl

unknown_test :
    validate_feature_targets is_before
      ((record { component = fastapi; instance_name = none }) ∷ [])
      instances
      none
    ≡ none
unfolding steps
unknown_test = refl

is_before-IsOrder : IsOrder is_before
is_before-IsOrder = record { total = total; trans = trans }
  where
    total : (a b : Str) → is_before a b ≡ false → is_before b a ≡ true
    total [] b h = absurd (cc)
    total (x ∷ a) [] h = refl
    total (x ∷ a) (y ∷ b) h = ground arith

    trans : (a b c : Str) → is_before a b ≡ true → is_before b c ≡ true → is_before a c ≡ true
    trans [] b c h k = refl
    trans (x ∷ a) [] c h k = absurd (cc)
    trans (x ∷ a) (y ∷ b) [] h k = absurd (cc)
    trans (x ∷ a) (y ∷ b) (z ∷ c) h k = ground arith

validate_feature_targets-AllResolved_example : AllResolved is_before none instances targets resolved
validate_feature_targets-AllResolved_example =
    validate_feature_targets-AllResolved is_before is_before-IsOrder targets instances none resolved
      validate_test
