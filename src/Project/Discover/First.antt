-- ===== src/Project/Discover/First.antt =====
-- Which path discovery gives a component: `discoverComponentsFromMarkers` of cli/src/utils.ts.
use projx.Base.Text.{Str, codes, starts_with, is_truthy}
use projx.Base.Sets.{lookup, lookup-insert, contains-append}
use projx.Components.{Component, component_eq}
use projx.Project.{ComponentMarkerData, read_component_marker}
use projx.Project.Discover.{
  Entry, Discovered, exclude, is_candidate, record_marker, visit, visit_all, has_path,
  discover_components_from_markers,
}
use projx.Project.Discover.Laws.{fill_paths_same, All-contains}
use projx.Base.{
  ◌≡◌, refl, sym, ap, ◌∙◌, ◌⊎◌, inl, inr, true, false, Option, none, some, List, [], ◌∷◌, arith,
  Bool-cases, Option-cases, ◌==◌, contains, nat_eq, list_eq, option_eq, All, eq_cases,
  some-injective,
}

-- A directory, neither excluded nor hidden, with a marker of the component.
abbrev pub IsMarked : Component → Entry → Type 0
IsMarked c e =
    (e.is_directory ≡ true)
    × (contains exclude e.name ≡ false)
    × (starts_with e.name (codes ".") ≡ false)
    × (m : ComponentMarkerData) × (read_component_marker e.marker ≡ some m)
    × (m.component ≡ c)

-- The first of the entries that is marked has this name.
abbrev pub IsFirst : Component → Str → List Entry → Type 0
IsFirst c dir [] = ⊥
IsFirst c dir (e ∷ es) = (IsMarked c e × (e.name ≡ dir)) ⊎ ((¬ IsMarked c e) × IsFirst c dir es)

-- What is found of a component: the first entry that is marked, or none where none is.
abbrev pub Found : Component → List Entry → Option Str → Type 0
Found c es none = All (λ e. ¬ IsMarked c e) es
Found c es (some dir) = IsFirst c dir es

behind :
    (c : Component) (e : Entry) (es : List Entry) (found : Option Str)
    → (¬ IsMarked c e)
    → Found c es found
    → Found c (e ∷ es) found
behind c e es none other h = (other, h)
behind c e es (some dir) other h = inr (other, h)

-- An entry is visited in vain, or it has a marker.
visit_cases :
    (e : Entry)
    → (((acc : Discovered) → visit e acc ≡ acc) × ((c : Component) → ¬ IsMarked c e))
      ⊎ ((m : ComponentMarkerData) × (read_component_marker e.marker ≡ some m)
          × ((acc : Discovered) → visit e acc ≡ record_marker e.name m acc)
          × IsMarked m.component e)
unfolding visit is_candidate
visit_cases e = elim (Bool-cases (is_candidate e)) [
  | inr skipped ↦ inl (
    λ acc. rw (skipped) refl,
    λ c (directory, kept, shown, m, marked, named). cc (rw (directory, kept, shown) at skipped),
  )
  | inl candidate ↦ elim (Option-cases (read_component_marker e.marker)) [
    | inl unmarked ↦ inl (
      λ acc. rw (candidate, unmarked) refl,
      λ c (_, _, _, m, marked, named). absurd (cc (unmarked, marked)),
    )
    | inr (m, marked) ↦ inr (
      m,
      marked,
      λ acc. rw (candidate, marked) refl,
      (ground arith, ground arith, ground arith, m, marked, refl),
    )
  ]
]

-- A component is listed with its path, or neither is there.
abbrev IsCoherent : Discovered → Component → Type 0
IsCoherent acc c =
    ((contains acc.components c ≡ true)
      × (d : Str) × (lookup c acc.paths ≡ some d)
      × (is_truthy d ≡ true))
    ⊎ ((contains acc.components c ≡ false) × (lookup c acc.paths ≡ none))

record_other :
    (name : Str) (m : ComponentMarkerData) (acc : Discovered) (c : Component)
    → (c == m.component) ≡ false
    → (contains (record_marker name m acc).components c ≡ contains acc.components c)
      × (lookup c (record_marker name m acc).paths ≡ lookup c acc.paths)
unfolding record_marker
record_other name m acc c other = elim (Bool-cases (contains acc.components m.component)) [
  | inl old ↦ rw (old) (refl, refl)
  | inr new ↦
      rw
        (
          new,
          contains-append acc.components (m.component ∷ []) c,
          lookup-insert c m.component name acc.paths,
          other,
        )
        (ground arith, refl)
]

record_new :
    (name : Str) (m : ComponentMarkerData) (acc : Discovered)
    → contains acc.components m.component ≡ false
    → (contains (record_marker name m acc).components m.component ≡ true)
      × (lookup m.component (record_marker name m acc).paths ≡ some name)
unfolding record_marker
record_new name m acc new =
    rw
      (
        new,
        contains-append acc.components (m.component ∷ []) m.component,
        lookup-insert m.component m.component name acc.paths,
      )
      (ground arith, ground arith)

record_old :
    (name : Str) (m : ComponentMarkerData) (acc : Discovered) (c : Component)
    → contains acc.components c ≡ true
    → (contains (record_marker name m acc).components c ≡ true)
      × (lookup c (record_marker name m acc).paths ≡ lookup c acc.paths)
unfolding record_marker
record_old name m acc c old = elim (eq_cases c m.component) [
  | inl (_, same) ↦
      let old' : contains acc.components m.component ≡ true = rw (same) at old in
      rw (old') (old, refl)
  | inr (other, _) ↦ let (listed, found) = record_other name m acc c other in (listed ∙ old, found)
]

record_marker-IsCoherent :
    (name : Str) (m : ComponentMarkerData) (acc : Discovered) (c : Component)
    → is_truthy name ≡ true
    → IsCoherent acc c
    → IsCoherent (record_marker name m acc) c
record_marker-IsCoherent name m acc c named (inl (old, d, at, truthy)) =
    let (listed, found) = record_old name m acc c old in inl (listed, d, found ∙ at, truthy)
record_marker-IsCoherent name m acc c named (inr (new, nothing)) = elim (eq_cases c m.component) [
  | inl (_, same) ↦
      let (listed, found) = record_new name m acc (rw (same) at new) in
      inl (rw (same) listed, name, rw (same) found, named)
  | inr (other, _) ↦
      let (listed, found) = record_other name m acc c other in inr (listed ∙ new, found ∙ nothing)
]

-- A path that is there stays.
visit_all-lookup_old :
    (c : Component) (es : List Entry) (acc : Discovered)
    → contains acc.components c ≡ true
    → lookup c (visit_all es acc).paths ≡ lookup c acc.paths
unfolding visit_all
visit_all-lookup_old c [] acc old = refl
visit_all-lookup_old c (e ∷ es) acc old = elim (visit_cases e) [
  | inl (same, _) ↦ rw (visit_all, same acc) (visit_all-lookup_old c es acc old)
  | inr (m, _, recorded, _) ↦
      let (listed, found) = record_old e.name m acc c old in
      rw (visit_all, recorded acc)
        (visit_all-lookup_old c es (record_marker e.name m acc) listed ∙ found)
]

visit_all-Found :
    (c : Component) (es : List Entry) (acc : Discovered)
    → contains acc.components c ≡ false
    → lookup c acc.paths ≡ none
    → Found c es (lookup c (visit_all es acc).paths)
unfolding visit_all
visit_all-Found c [] acc new nothing = rw (nothing) tt
visit_all-Found c (e ∷ es) acc new nothing = elim (visit_cases e) [
  | inl (same, other) ↦
      rw (visit_all, same acc) (behind c e es _ (other c) (visit_all-Found c es acc new nothing))
  | inr (m, marked, recorded, is_marked) ↦ elim (eq_cases c m.component) [
    | inl (_, same) ↦
        let (listed, found) = record_new e.name m acc (rw (same) at new) in
        rw
          (
            visit_all,
            recorded acc,
            visit_all-lookup_old c es (record_marker e.name m acc) (rw (same) listed),
            same,
            found,
          )
          (inl (is_marked, refl))
    | inr (test, differs) ↦
        let (listed, found) = record_other e.name m acc c test in
        rw (visit_all, recorded acc)
          (behind c e es _
            (λ (_, _, _, m', marked', named).
              differs
                (sym named ∙ ap (λ k. k.component) (some-injective m' m (sym marked' ∙ marked))))
            (visit_all-Found c es (record_marker e.name m acc) (listed ∙ new) (found ∙ nothing)))
  ]
]

visit_all-IsCoherent :
    (c : Component) (es : List Entry) (acc : Discovered)
    → All (λ (e : Entry). is_truthy e.name ≡ true) es
    → IsCoherent acc c
    → IsCoherent (visit_all es acc) c
unfolding visit_all
visit_all-IsCoherent c [] acc named h = h
visit_all-IsCoherent c (e ∷ es) acc (named, rest) h = elim (visit_cases e) [
  | inl (same, _) ↦ rw (visit_all, same acc) (visit_all-IsCoherent c es acc rest h)
  | inr (m, _, recorded, _) ↦
      rw (visit_all, recorded acc)
        (visit_all-IsCoherent c es (record_marker e.name m acc) rest
          (record_marker-IsCoherent e.name m acc c named h))
]

coherent_listed :
    (acc : Discovered) (c : Component)
    → IsCoherent acc c
    → contains acc.components c ≡ true
    → has_path (lookup c acc.paths) ≡ true
coherent_listed acc c (inl (_, d, at, truthy)) listed = rw (at) truthy
coherent_listed acc c (inr (new, _)) listed = absurd (cc)

-- The path that is discovered for a component is the name of the first directory of the project,
-- neither excluded nor hidden, whose marker is of that component; where no such directory has one,
-- no path is discovered. The entries of a directory have names.
pub discover-Found :
    (root : List Entry) (c : Component)
    → All (λ (e : Entry). is_truthy e.name ≡ true) root
    → Found c root (lookup c (discover_components_from_markers root).paths)
unfolding discover_components_from_markers lookup
discover-Found root c named =
    let start : Discovered = record { components = []; paths = []; instances = [] } in
    let all_ = visit_all root start in
    let same = fill_paths_same all_.components all_.paths (
      All-contains (λ d. has_path (lookup d all_.paths) ≡ true) all_.components
        (λ d listed.
          coherent_listed all_ d (visit_all-IsCoherent d root start named (inr (refl, refl)))
            listed)) in
    rw same (visit_all-Found c root start refl refl)
