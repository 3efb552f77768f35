-- ===== src/Pin/Edit.antt =====
-- One edit of the skip lists, from the patterns to the root's list and the component's marker.
use projx.Base.Text.{Str}
use projx.Base.Sets.{lookup, lookup-cons, lookup-nil, IsKeyed, insert-IsKeyed}
use projx.Components.{Component, component_eq}
use projx.Project.{
  RawMarker, ComponentMarkerData, read_component_marker, write_component_marker, ConfigFile,
  missing, invalid, valid, read_projx_config, write_projx_config, list_or_nil,
}
use projx.Project.Markers.{parse-write_component_marker}
use projx.Project.Discover.{Entry, discover_components_from_markers, change_marker, marker_at}
use projx.Project.Discover.Laws.{
  marker_at-change_marker, IsDirectory, HoldsMarker, discover-HoldsMarker,
}
use projx.Pin.{
  Project, Scope, root, in_component, Paths, classify_pattern, Sorted, put_scope, sort_patterns,
  edit_marker, edit_components, edit_root, edit_pins,
}
use projx.Pin.Lists.{edited}
use projx.Pin.Collect.{scope_eq, asks, sort_patterns-at_root, sort_patterns-at_component}
use projx.Base.{
  ◌≡◌, refl, sym, ap, ◌∙◌, ◌≢◌, inl, inr, Bool, false, not, ◌&&◌, ◌||◌, Option, none, some, List,
  [], ◌∷◌, arith, Option-cases, contains, nat_eq, list_eq, option_eq, any,
}

-- The root's skip list.
abbrev pub root_skip : Project → List Str
root_skip project = list_or_nil (read_projx_config project.config).skip

-- The paths that both commands discover.
abbrev pub paths_of : Project → Paths
paths_of project = (discover_components_from_markers project.entries).paths

component_same :
    {es : List Entry} {c : Component} {dir : Str} {m : ComponentMarkerData}
    → read_component_marker (marker_at dir es) ≡ some m
    → HoldsMarker es c dir
    → m.component ≡ c
component_same reads held = ground (arith, held.reads, held.component)

put_scope-IsKeyed :
    (scope : Scope) (acc : Sorted)
    → IsKeyed acc.at_component
    → IsKeyed (put_scope scope acc).at_component
unfolding put_scope
put_scope-IsKeyed (root r) acc u = u
put_scope-IsKeyed (in_component c r) acc u = insert-IsKeyed c _ acc.at_component u

sort_patterns-IsKeyed :
    (refused : Str → Bool) (paths : Paths) (patterns : List Str) (acc : Sorted)
    → IsKeyed acc.at_component
    → IsKeyed (sort_patterns refused paths patterns acc).at_component
unfolding sort_patterns
sort_patterns-IsKeyed refused paths [] acc u = u
sort_patterns-IsKeyed refused paths (p ∷ ps) acc u = ground (
  arith,
  sort_patterns-IsKeyed refused paths ps acc u,
  sort_patterns-IsKeyed refused paths ps (put_scope (classify_pattern p paths) acc)
      (put_scope-IsKeyed (classify_pattern p paths) acc u),
)

pub or_false : (b : Bool) → (b || false) ≡ b
or_false b = ground arith

pub keep_unremoved : (b : Bool) → (b && not false) ≡ b
keep_unremoved b = ground arith

-- One edit of a list, described by what it does to membership.
module _ (edit : List Str → List Str → Option (List Str)) (combine : Bool → Bool → Bool)
    (Fits : List Str → Type 0) (combine_false : (b : Bool) → combine b false ≡ b)
    (contains-edit : (changes old : List Str) (s : Str)
      → Fits old
      → contains (edited (edit changes old) old) s
        ≡ combine (contains old s) (contains changes s)) where
  edit_root-contains :
      (today : Str) (changes : List Str) (file : ConfigFile) (s : Str)
      → Fits (list_or_nil (read_projx_config file).skip)
      → contains (list_or_nil (read_projx_config (edit_root edit today changes file)).skip) s
        ≡ combine (contains (list_or_nil (read_projx_config file).skip) s) (contains changes s)
  unfolding edit_root edited read_projx_config write_projx_config
  edit_root-contains today [] file s fits = sym (combine_false _)
  edit_root-contains today (c ∷ cs) file s fits =
      let old = list_or_nil (read_projx_config file).skip in
      let law = contains-edit (c ∷ cs) old s fits in
      elim (Option-cases (edit (c ∷ cs) old)) [
        | inl same ↦ rw (same, edit_root) (rw same at law)
        | inr (skip, new) ↦ rw (new, edit_root) (rw new at law)
      ]

  edit_marker-none : (changes : List Str) → edit_marker edit changes none ≡ none
  unfolding edit_marker read_component_marker
  edit_marker-none changes = refl

  written :
      (raw : Option RawMarker) (m : ComponentMarkerData)
      → (m' : ComponentMarkerData) × (read_component_marker (some (write_component_marker raw m))
          ≡ some m')
        × (m'.skip ≡ m.skip)
        × (m'.component ≡ m.component)
  unfolding read_component_marker
  written raw m = (_, parse-write_component_marker raw m, refl, refl)

  edit_marker-contains :
      (changes : List Str) (raw : Option RawMarker) (m : ComponentMarkerData) (s : Str)
      → read_component_marker raw ≡ some m
      → Fits m.skip
      → (m' : ComponentMarkerData) × (read_component_marker (edit_marker edit changes raw)
          ≡ some m')
        × (contains m'.skip s ≡ combine (contains m.skip s) (contains changes s))
        × (m'.component ≡ m.component)
  unfolding edit_marker edited
  edit_marker-contains changes raw m s e fits =
      let law = contains-edit changes m.skip s fits in
      elim (Option-cases (edit changes m.skip)) [
        | inl same ↦ (m, rw (e, edit_marker, same) e, rw same at law, refl)
        | inr (skip, new) ↦
            let (m', reads, same_skip, same_component) = written raw (record m { skip = skip }) in
            (m', rw (e, edit_marker, new) reads, rw same_skip (rw new at law), same_component)
      ]

  -- A marker file after the changes for its component, if there are any.
  abbrev changed_marker : Option (List Str) → Option RawMarker → Option RawMarker
  changed_marker none raw = raw
  changed_marker (some changes) raw = edit_marker edit changes raw

  edit_components-marker_at :
      (paths : Paths) (d : List (Component × List Str)) (es : List Entry) (c : Component)
      (dir : Str)
      → lookup c paths ≡ some dir
      → ((b : Component) → lookup b paths ≡ some dir → b ≡ c)
      → IsKeyed d
      → marker_at dir (edit_components edit paths d es)
        ≡ changed_marker (lookup c d) (marker_at dir es)
  unfolding edit_components
  edit_components-marker_at paths [] es c dir at only u = rw lookup-nil
  edit_components-marker_at paths ((b, xs) ∷ d) es c dir at only (fresh, u) =
      elim (component_eq.dec b c) [
        | yes same ↦
            let gone : lookup c d ≡ none = rw same at fresh in
            let here : lookup b paths ≡ some dir = ap (λ x. lookup x paths) same ∙ at in
            let found : lookup c ((b, xs) ∷ d) ≡ some xs = lookup-cons c b xs d ∙ ground arith in
            rw (found, here)
              (edit_components-marker_at paths d (change_marker dir (edit_marker edit xs) es) c dir
                  at only u
                ∙ rw gone (
                    marker_at-change_marker dir dir (edit_marker edit xs) es (edit_marker-none xs)
                    ∙ ground arith))
        | no other ↦
            let later : lookup c ((b, xs) ∷ d) ≡ lookup c d = lookup-cons c b xs d ∙ ground arith in
            elim (Option-cases (lookup b paths)) [
              | inl nowhere ↦
                  rw (later, nowhere) (edit_components-marker_at paths d es c dir at only u)
              | inr (dir', elsewhere) ↦
                  let apart : dir ≢ dir' = λ p. other (only b (elsewhere ∙ ap some (sym p))) in
                  let kept : marker_at dir (change_marker dir' (edit_marker edit xs) es)
                      ≡ marker_at dir es =
                    marker_at-change_marker dir dir' (edit_marker edit xs) es (edit_marker-none xs)
                    ∙ ground arith in
                  rw (later, elsewhere)
                    (edit_components-marker_at paths d (change_marker dir' (edit_marker edit xs) es)
                        c dir at only u
                      ∙ ap (changed_marker (lookup c d)) kept)
            ]
      ]

  module _ (refused : Str → Bool) (today : Str) (project project' : Project) (patterns : List Str)
      (run : edit_pins edit refused today project patterns ≡ some project') where
    abbrev sorted : Sorted
    sorted =
        sort_patterns refused (paths_of project) patterns
          (record { at_root = []; at_component = [] })

    edit_pins_parts :
        (project'.config ≡ edit_root edit today sorted.at_root project.config)
        × (project'.entries
            ≡ edit_components edit (paths_of project) sorted.at_component project.entries)
    unfolding edit_pins
    edit_pins_parts = parts project.config run
      where
        parts :
            (file : ConfigFile)
            → (elim file [
              | missing ↦ none
              | _ ↦ some (record {
                config = edit_root edit today sorted.at_root project.config;
                entries =
                    edit_components edit (paths_of project) sorted.at_component project.entries;
              })
            ])
              ≡ some project'
            → (project'.config ≡ edit_root edit today sorted.at_root project.config)
              × (project'.entries
                  ≡ edit_components edit (paths_of project) sorted.at_component project.entries)
        parts missing e = cc
        parts invalid e = ground arith
        parts (valid c) e = ground arith

    pub edit_pins-root :
        (s : Str)
        → Fits (root_skip project)
        → contains (root_skip project') s
          ≡ combine
              (contains (root_skip project) s)
              (any (asks refused (paths_of project) (root s)) patterns)
    edit_pins-root s fits =
        ap (λ f. contains (list_or_nil (read_projx_config f).skip) s) edit_pins_parts.0
        ∙ (edit_root-contains today sorted.at_root project.config s fits
            ∙ ap (combine (contains (root_skip project) s))
                (sort_patterns-at_root refused (paths_of project) patterns _ s))

    pub edit_pins-component :
        (c : Component) (dir : Str) (m : ComponentMarkerData) (s : Str)
        → IsDirectory project.entries
        → lookup c (paths_of project) ≡ some dir
        → read_component_marker (marker_at dir project.entries) ≡ some m
        → Fits m.skip
        → (m' : ComponentMarkerData) × (read_component_marker (marker_at dir project'.entries)
            ≡ some m')
          × (m'.component ≡ c)
          × (contains m'.skip s
              ≡ combine
                  (contains m.skip s)
                  (any (asks refused (paths_of project) (in_component c s)) patterns))
    unfolding lookup
    edit_pins-component c dir m s directory at reads fits =
        let held = discover-HoldsMarker project.entries c dir directory at in
        let mine : m.component ≡ c = component_same reads held in
        let only : (b : Component) → lookup b (paths_of project) ≡ some dir → b ≡ c = λ b at_b.
          sym (component_same reads (discover-HoldsMarker project.entries b dir directory at_b))
          ∙ mine in
        let asked =
          sort_patterns-at_component refused (paths_of project) patterns
            (record { at_root = []; at_component = [] }) c s in
        let marker =
          ap (marker_at dir) edit_pins_parts.1
          ∙ edit_components-marker_at (paths_of project) sorted.at_component project.entries c dir
              at only (sort_patterns-IsKeyed refused (paths_of project) patterns _ tt) in
        elim (Option-cases (lookup c sorted.at_component)) [
          | inl untouched ↦ (
            m,
            ap read_component_marker (rw untouched at marker) ∙ reads,
            mine,
            sym (combine_false _) ∙ ap (combine (contains m.skip s)) (rw untouched at asked),
          )
          | inr (xs, changed) ↦
              let (m', reads', law, same) =
                edit_marker-contains xs (marker_at dir project.entries) m s reads fits in
              (
                m',
                ap read_component_marker (rw changed at marker) ∙ reads',
                same ∙ mine,
                law ∙ ap (combine (contains m.skip s)) (rw changed at asked),
              )
        ]
