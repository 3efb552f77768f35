-- ===== src/Features/Targets/Laws.antt =====
-- Which instances the targets of a feature resolve to: `validateFeatureTargets` of
-- cli/src/features.ts.
use mathlib.Core.Path.{subst}
use projx.Base.Text.{Str}
use projx.Components.{Component, component_eq, component_name}
use projx.Project.Discover.{ComponentInstance}
use projx.Base.{
  ◌≡◌, refl, sym, ◌∙◌, ◌≢◌, ◌⊎◌, inl, inr, Bool, true, false, ◌||◌, Option, none, some,
  none-ne-some, some-injective, List, [], ◌∷◌, arith, Bool-cases, Option-cases, eq_cases, ==_refl,
  ◌==◌, contains, nat_eq, list_eq, option_eq, All, Any,
}
use projx.Features.Targets.{
  FeatureTarget, ResolvedFeatureTarget, paths_of, insert_path, sort_paths, pick, supports_component,
  resolve_target, validate_feature_targets,
}

module _ (is_before : Str → Str → Bool) where
  contains-insert_path :
      (path : Str) (paths : List Str) (name : Str)
      → contains (insert_path is_before path paths) name ≡ (name == path || contains paths name)
  unfolding insert_path
  contains-insert_path path [] name = refl
  contains-insert_path path (next ∷ paths) name =
      ground (arith, contains-insert_path path paths name)

  contains-sort_paths :
      (paths : List Str) (name : Str)
      → contains (sort_paths is_before paths) name ≡ contains paths name
  unfolding sort_paths
  contains-sort_paths [] name = refl
  contains-sort_paths (path ∷ paths) name =
      rw
        (
          contains-insert_path path (sort_paths is_before paths) name,
          contains-sort_paths paths name,
        )
        refl

  first_contains :
      (next : Str) (paths : List Str) (path : Str)
      → next ≡ path
      → contains (next ∷ paths) path ≡ true
  first_contains next paths path same =
      subst (λ found. contains (next ∷ paths) found ≡ true) same (rw (==_refl next) refl)

  pick-contains :
      (name : Option Str) (paths : List Str) (path : Str)
      → pick is_before name paths ≡ some path
      → contains paths path ≡ true
  pick-contains name [] path picked = absurd (none-ne-some path picked)
  pick-contains none (next ∷ paths) path picked =
      first_contains next paths path (some-injective next path picked)
  pick-contains (some []) (next ∷ paths) path picked =
      first_contains next paths path (some-injective next path picked)
  pick-contains (some (c ∷ name)) (next ∷ paths) path picked =
      elim (Bool-cases (contains (next ∷ paths) (c ∷ name))) [
        | inl known ↦
            subst (λ found. contains (next ∷ paths) found ≡ true)
              (some-injective (c ∷ name) path (rw known at picked)) known
        | inr unknown ↦ absurd (none-ne-some path (rw unknown at picked))
      ]

  -- The comparison orders texts: `is_before a b` is `a.localeCompare(b) <= 0`.
  pub record IsOrder : Type 0 where
    pub total : (a b : Str) → is_before a b ≡ false → is_before b a ≡ true
    pub trans : (a b c : Str) → is_before a b ≡ true → is_before b c ≡ true → is_before a c ≡ true

  -- An instance of the component with this path.
  abbrev pub HasInstance : Component → Str → List ComponentInstance → Type 0
  HasInstance component path instances = Any (λ i. (i.type ≡ component) × (i.path ≡ path)) instances

  -- The path of the instance that is named; without a name, it comes before those of all the instances
  -- of the component.
  abbrev pub IsChosen : Option Str → Component → Str → List ComponentInstance → Type 0
  IsChosen (some (c ∷ name)) component path instances = path ≡ c ∷ name
  IsChosen _ component path instances =
      All (λ i. (i.type ≢ component) ⊎ (is_before path i.path ≡ true)) instances

  abbrev pub IsSupported : Option (List Str) → Component → Type 0
  IsSupported none component = Unit
  IsSupported (some supported) component = Any (λ s. s ≡ component_name component) supported

  -- A resolved target has the target's component, which is supported, and the path of the instance
  -- of that component that is meant.
  abbrev pub IsResolved :
      Option (List Str) → List ComponentInstance → FeatureTarget → ResolvedFeatureTarget → Type 0
  IsResolved supported instances target resolved =
      (resolved.component ≡ target.component)
      × (resolved.instance_name ≡ resolved.path)
      × HasInstance target.component resolved.path instances
      × IsChosen target.instance_name target.component resolved.path instances
      × IsSupported supported target.component

  abbrev pub AllResolved :
      Option (List Str)
      → List ComponentInstance
      → List FeatureTarget
      → List ResolvedFeatureTarget
      → Type 0
  AllResolved supported instances [] [] = Unit
  AllResolved supported instances [] (_ ∷ _) = ⊥
  AllResolved supported instances (_ ∷ _) [] = ⊥
  AllResolved supported instances (target ∷ targets) (resolved ∷ rest) =
      IsResolved supported instances target resolved × AllResolved supported instances targets rest

  paths_of-HasInstance :
      (component : Component) (path : Str) (instances : List ComponentInstance)
      → contains (paths_of component instances) path ≡ true
      → HasInstance component path instances
  unfolding paths_of
  paths_of-HasInstance component path [] h = absurd (cc)
  paths_of-HasInstance component path (i ∷ instances) h = elim (component_eq.dec i.type component) [
    | yes same ↦ elim (eq_cases i.path path) [
      | inl (_, here) ↦ inl (same, here)
      | inr (other, _) ↦ inr (paths_of-HasInstance component path instances (ground (arith, h)))
    ]
    | no other ↦ inr (paths_of-HasInstance component path instances (ground (arith, h)))
  ]

  paths_of-All :
      (P : Str → Type 0) (component : Component) (instances : List ComponentInstance)
      → All P (paths_of component instances)
      → All (λ i. (i.type ≢ component) ⊎ P i.path) instances
  unfolding paths_of
  paths_of-All P component [] h = tt
  paths_of-All P component (i ∷ instances) h = elim (eq_cases i.type component) [
    | inl (test, same) ↦
        let (now, later) : All P (i.path ∷ paths_of component instances) = rw test at h in
        (inr now, paths_of-All P component instances later)
    | inr (test, other) ↦ (inl other, paths_of-All P component instances (rw test at h))
  ]

  module _ (order : IsOrder) where
    itself : (a : Str) → is_before a a ≡ true
    itself a = elim (Bool-cases (is_before a a)) [ inl yes' ↦ yes' | inr no' ↦ order.total a a no' ]

    -- The head of a sorted list comes before all.
    abbrev HeadIsLeast : List Str → List Str → Type 0
    HeadIsLeast [] paths = paths ≡ []
    HeadIsLeast (first ∷ _) paths = All (λ q. is_before first q ≡ true) paths

    All-before :
        (a b : Str) (paths : List Str)
        → is_before a b ≡ true
        → All (λ q. is_before b q ≡ true) paths
        → All (λ q. is_before a q ≡ true) paths
    All-before a b [] h k = tt
    All-before a b (q ∷ paths) h (k, ks) = (order.trans a b q h k, All-before a b paths h ks)

    insert_path-HeadIsLeast :
        (path : Str) (sorted paths : List Str)
        → HeadIsLeast sorted paths
        → HeadIsLeast (insert_path is_before path sorted) (path ∷ paths)
    unfolding insert_path
    insert_path-HeadIsLeast path [] paths h = (itself path, rw (h) tt)
    insert_path-HeadIsLeast path (next ∷ sorted) paths h = elim (Bool-cases (is_before path next)) [
      | inl before ↦ rw (before) (itself path, All-before path next paths before h)
      | inr after ↦ rw (after) (order.total path next after, h)
    ]

    sort_paths-HeadIsLeast : (paths : List Str) → HeadIsLeast (sort_paths is_before paths) paths
    unfolding sort_paths
    sort_paths-HeadIsLeast [] = refl
    sort_paths-HeadIsLeast (path ∷ paths) =
        insert_path-HeadIsLeast path (sort_paths is_before paths) paths
          (sort_paths-HeadIsLeast paths)

    pick-IsChosen :
        (name : Option Str) (component : Component) (sorted : List Str) (path : Str)
        (instances : List ComponentInstance)
        → HeadIsLeast sorted (paths_of component instances)
        → pick is_before name sorted ≡ some path
        → IsChosen name component path instances
    pick-IsChosen name component [] path instances h picked = absurd (none-ne-some path picked)
    pick-IsChosen none component (next ∷ sorted) path instances h picked =
        subst (λ p. IsChosen none component p instances) (some-injective next path picked)
          (paths_of-All (λ q. is_before next q ≡ true) component instances h)
    pick-IsChosen (some []) component (next ∷ sorted) path instances h picked =
        subst (λ p. IsChosen (some []) component p instances) (some-injective next path picked)
          (paths_of-All (λ q. is_before next q ≡ true) component instances h)
    pick-IsChosen (some (c ∷ name)) component (next ∷ sorted) path instances h picked =
        elim (Bool-cases (contains (next ∷ sorted) (c ∷ name))) [
          | inl known ↦ sym (some-injective (c ∷ name) path (rw known at picked))
          | inr unknown ↦ absurd (none-ne-some path (rw unknown at picked))
        ]

    contains-Any :
        (names : List Str) (name : Str) → contains names name ≡ true → Any (λ s. s ≡ name) names
    contains-Any [] name h = absurd (cc)
    contains-Any (s ∷ names) name h = elim (eq_cases s name) [
      | inl (_, same) ↦ inl same
      | inr (other, _) ↦ inr (contains-Any names name (ground (arith, h)))
    ]

    supports_component-IsSupported :
        (supported : Option (List Str)) (component : Component)
        → supports_component is_before supported component ≡ true
        → IsSupported supported component
    supports_component-IsSupported none component h = tt
    supports_component-IsSupported (some supported) component h =
        contains-Any supported (component_name component) h

    resolve_target-IsResolved :
        (supported : Option (List Str)) (instances : List ComponentInstance)
        (target : FeatureTarget) (resolved : ResolvedFeatureTarget)
        → resolve_target is_before supported instances target ≡ some resolved
        → IsResolved supported instances target resolved
    unfolding resolve_target
    resolve_target-IsResolved supported instances target resolved done =
        let paths = paths_of target.component instances in
        let sorted = sort_paths is_before paths in
        elim (Bool-cases (supports_component is_before supported target.component)) [
          | inr no_support ↦ absurd (none-ne-some resolved (rw no_support at done))
          | inl support ↦ elim (Option-cases (pick is_before target.instance_name sorted)) [
            | inl lost ↦ absurd (none-ne-some resolved (rw (support, lost) at done))
            | inr (path, picked) ↦
                subst (IsResolved supported instances target)
                  (some-injective _ resolved (rw (support, picked) at done))
                  (
                    refl,
                    refl,
                    paths_of-HasInstance target.component path instances (
                        sym (contains-sort_paths paths path)
                        ∙ pick-contains target.instance_name sorted path picked),
                    pick-IsChosen target.instance_name target.component sorted path instances
                        (sort_paths-HeadIsLeast paths) picked,
                    supports_component-IsSupported supported target.component support,
                  )
          ]
        ]

    -- Targets that pass are resolved one by one, in their order. Each resolves to its own component,
    -- which the feature supports, and to the path of an instance of that component: the one that is
    -- named, or else the one whose path comes first in the order of `localeCompare`.
    pub validate_feature_targets-AllResolved :
        (targets : List FeatureTarget) (instances : List ComponentInstance)
        (supported : Option (List Str)) (resolved : List ResolvedFeatureTarget)
        → validate_feature_targets is_before targets instances supported ≡ some resolved
        → AllResolved supported instances targets resolved
    unfolding validate_feature_targets
    validate_feature_targets-AllResolved [] instances supported [] done = tt
    validate_feature_targets-AllResolved [] instances supported (r ∷ resolved) done = absurd (cc)
    validate_feature_targets-AllResolved (target ∷ targets) instances supported resolved done =
        elim (Option-cases (resolve_target is_before supported instances target)) [
          | inl lost ↦ absurd (none-ne-some resolved (rw lost at done))
          | inr (first, found) ↦
              elim (Option-cases (validate_feature_targets is_before targets instances supported)) [
                | inl lost ↦ absurd (none-ne-some resolved (rw (found, lost) at done))
                | inr (rest, found') ↦
                    subst (AllResolved supported instances (target ∷ targets))
                      (some-injective (first ∷ rest) resolved (rw (found, found') at done))
                      (
                        resolve_target-IsResolved supported instances target first found,
                        validate_feature_targets-AllResolved targets instances supported rest
                            found',
                      )
              ]
        ]
