-- ===== src/Project/Discover/Laws.antt =====
-- The paths that discovery gives and the markers they lead to.
use mathlib.Core.Path.{subst₂}
use projx.Base.Text.{Str, is_truthy}
use projx.Base.Sets.{lookup, insert, lookup-insert, IsNodup, contains-append}
use projx.Components.{Component, component_eq}
use projx.Project.{RawMarker, ComponentMarkerData, read_component_marker}
use projx.Project.Discover.{
  Entry, Discovered, is_candidate, record_marker, visit, visit_all, has_path, fill_paths,
  discover_components_from_markers, marker_at, change_marker,
}
use projx.Base.{
  ◌≡◌, refl, sym, ap, ◌∙◌, inl, inr, true, false, Option, none, some, List, [], ◌∷◌, ◌++◌, map,
  arith, if◌then◌else◌, Bool-cases, Option-cases, ◌==◌, contains, nat_eq, list_eq, option_eq, All,
}

pub marker_at-change_marker :
    (d dir : Str) (f : Option RawMarker → Option RawMarker) (es : List Entry)
    → f none ≡ none
    → marker_at d (change_marker dir f es)
      ≡ (if d == dir then f (marker_at d es) else marker_at d es)
unfolding marker_at change_marker
marker_at-change_marker d dir f [] h = ground arith
marker_at-change_marker d dir f (e ∷ es) h = ground (arith, marker_at-change_marker d dir f es h)

-- No two entries of a directory have one name, and none is empty.
abbrev pub IsDirectory : List Entry → Type 0
IsDirectory es =
    IsNodup (map (λ (e : Entry). e.name) es) × All (λ (e : Entry). is_truthy e.name ≡ true) es

module _ (root : List Entry) where
  -- The directory holds a marker of the component.
  pub record HoldsMarker (c : Component) (dir : Str) : Type 0 where
    pub marker : ComponentMarkerData
    pub reads : read_component_marker (marker_at dir root) ≡ some marker
    pub component : marker.component ≡ c
    pub named : is_truthy dir ≡ true

  -- The loop's invariant, on the paths and on the components.
  pub record IsSound (acc : Discovered) : Type 0 where
    pub held : (c : Component) (dir : Str) → lookup c acc.paths ≡ some dir → HoldsMarker c dir
    pub listed :
        (c : Component) → contains acc.components c ≡ true → has_path (lookup c acc.paths) ≡ true

  record_marker-IsSound :
      (name : Str) (m : ComponentMarkerData) (acc : Discovered)
      → HoldsMarker m.component name
      → IsSound acc
      → IsSound (record_marker name m acc)
  unfolding record_marker
  record_marker-IsSound name m acc h s = elim (Bool-cases (contains acc.components m.component)) [
    | inl old ↦ rw old (record { held = s.held; listed = s.listed })
    | inr new ↦ rw new (record {
      held = λ c dir e. held_after c dir (sym (lookup-insert c m.component name acc.paths) ∙ e);
      listed = λ c e. listed_after c e;
    })
  ]
    where
      listed_after :
          (c : Component)
          → contains (acc.components ++ m.component ∷ []) c ≡ true
          → has_path (lookup c (insert m.component name acc.paths)) ≡ true
      listed_after c e =
          rw lookup-insert (
            ground
              (arith, s.listed c, h.named, contains-append acc.components (m.component ∷ []) c))

      held_after :
          (c : Component) (dir : Str)
          → (if c == m.component then some name else lookup c acc.paths) ≡ some dir
          → HoldsMarker c dir
      held_after c dir e = elim (component_eq.dec c m.component) [
        | yes same ↦ let p : name ≡ dir = ground arith in subst₂ HoldsMarker (sym same) p h
        | no other ↦ s.held c dir (ground arith)
      ]

  -- What is known of an entry of the root: its marker is found under its name.
  abbrev IsEntry : Entry → Type 0
  IsEntry e = (marker_at e.name root ≡ e.marker) × (is_truthy e.name ≡ true)

  visit-IsSound : (e : Entry) (acc : Discovered) → IsEntry e → IsSound acc → IsSound (visit e acc)
  unfolding visit
  visit-IsSound e acc (found, named) s = elim (Bool-cases (is_candidate e)) [
    | inr skipped ↦ rw (skipped, visit) s
    | inl kept ↦ elim (Option-cases (read_component_marker e.marker)) [
      | inl unmarked ↦ rw (kept, visit, unmarked) s
      | inr (m, marked) ↦
          rw (kept, visit, marked)
            (record_marker-IsSound e.name m acc
              (record {
                marker = m;
                reads = ap read_component_marker found ∙ marked;
                component = refl;
                named = named;
              })
              s)
    ]
  ]

  visit_all-IsSound :
      (es : List Entry) (acc : Discovered)
      → All IsEntry es
      → IsSound acc
      → IsSound (visit_all es acc)
  unfolding visit_all
  visit_all-IsSound [] acc _ s = s
  visit_all-IsSound (e ∷ es) acc (h, hs) s =
      visit_all-IsSound es (visit e acc) hs (visit-IsSound e acc h s)

pub fill_paths_same :
    (cs : List Component) (paths : List (Component × Str))
    → All (λ c. has_path (lookup c paths) ≡ true) cs
    → fill_paths cs paths ≡ paths
unfolding fill_paths
fill_paths_same [] paths h = refl
fill_paths_same (c ∷ cs) paths (p, h) = rw p (fill_paths_same cs paths h)

pub All-contains :
    (P : Component → Type 0) (cs : List Component)
    → ((c : Component) → contains cs c ≡ true → P c)
    → All P cs
All-contains P [] h = tt
All-contains P (c ∷ cs) h = (h c (ground arith), All-contains P cs (λ d k. h d (ground arith)))

found_behind :
    (e : Entry) (root es : List Entry)
    → contains (map (λ (b : Entry). b.name) es) e.name ≡ false
    → All (λ b. marker_at b.name root ≡ b.marker) es
    → All (λ b. marker_at b.name (e ∷ root) ≡ b.marker) es
unfolding marker_at
found_behind e root [] h k = tt
found_behind e root (b ∷ es) h (k, ks) = (ground arith, found_behind e root es (ground arith) ks)

-- With distinct names an entry is found under its own.
entries_found :
    (es : List Entry)
    → IsNodup (map (λ (b : Entry). b.name) es)
    → All (λ b. marker_at b.name es ≡ b.marker) es
unfolding marker_at
entries_found [] n = tt
entries_found (e ∷ es) (new, n) = (ground arith, found_behind e es es new (entries_found es n))

zip-All :
    (root es : List Entry)
    → All (λ b. marker_at b.name root ≡ b.marker) es
    → All (λ (b : Entry). is_truthy b.name ≡ true) es
    → All (IsEntry root) es
zip-All root [] h k = tt
zip-All root (e ∷ es) (h, hs) (k, ks) = ((h, k), zip-All root es hs ks)

start_IsSound :
    (root : List Entry) → IsSound root (record { components = []; paths = []; instances = [] })
unfolding lookup
start_IsSound root = record { held = λ c dir e. absurd (cc); listed = λ c e. absurd (cc) }

-- At a discovered path stands a marker of the component that it is recorded for.
pub discover-HoldsMarker :
    (root : List Entry) (c : Component) (dir : Str)
    → IsDirectory root
    → lookup c (discover_components_from_markers root).paths ≡ some dir
    → HoldsMarker root c dir
unfolding discover_components_from_markers
discover-HoldsMarker root c dir (distinct, named) e =
    let s =
      visit_all-IsSound root root (record { components = []; paths = []; instances = [] })
        (zip-All root root (entries_found root distinct) named) (start_IsSound root) in
    s.held c dir (ap (lookup c) (sym (fill_paths_same _ _ (All-contains _ _ s.listed))) ∙ e)
