-- ===== src/Project/Discover.antt =====
-- The components of a project: `discoverComponentsFromMarkers` of cli/src/utils.ts.
pub mod Laws
pub mod First
use projx.Base.Text.{Str, codes, starts_with, is_truthy}
use projx.Base.Sets.{lookup, insert}
use projx.Components.{Component, component_eq, component_name}
use projx.Components.Orm.{OrmProvider}
use projx.Project.{RawMarker, ComponentMarkerData, read_component_marker}
use projx.Base.{
  ℕ, zero, suc, ◌+◌, ◌-◌, ◌*◌, ◌/◌, ◌%◌, ◌^◌, ◌≤◌, ◌<◌, min, ◌≡◌, refl, sym, ap, ◌∙◌, ◌≢◌, ◌↔◌, ◌⊎◌,
  inl, inr, ite, Bool, true, false, not, ◌&&◌, ◌||◌, Option, none, some, List, [], ◌∷◌, ◌++◌, map,
  arith, leb, ltb, if◌then◌else◌, Bool-cases, Option-cases, Eq, ◌==◌, ==_iff, contains, nat_eq,
  list_eq, option_eq, length, take, drop, any, all, filter, find, length-append, drop-append,
  take-append, take-append-drop, any-append, All, Any, All-append, dec_lt, ℕ_discrete,
}

-- An entry of the project's directory, with the content of its marker file.
pub record Entry : Type 0 where
  pub name : Str
  pub is_directory : Bool
  pub marker : Option RawMarker

pub record ComponentInstance : Type 0 where
  pub type : Component
  pub path : Str
  pub orm : Option OrmProvider

-- `paths` in the order of insertion.
pub record Discovered : Type 0 where
  pub components : List Component
  pub paths : List (Component × Str)
  pub instances : List ComponentInstance

abbrev pub exclude : List Str
exclude =
    codes "node_modules"
    ∷ codes "dist"
    ∷ codes "build"
    ∷ codes "target"
    ∷ codes "coverage"
    ∷ codes "__pycache__"
    ∷ codes ".dart_tool"
    ∷ codes ".flutter-plugins"
    ∷ codes ".flutter-plugins-dependencies"
    ∷ codes ".venv"
    ∷ codes ".pytest_cache"
    ∷ codes ".ruff_cache"
    ∷ codes ".mypy_cache"
    ∷ codes "playwright-report"
    ∷ codes "test-results"
    ∷ codes ".terraform"
    ∷ codes "cli"
    ∷ codes ".next"
    ∷ codes ".nyc_output"
    ∷ codes ".swc"
    ∷ codes "dist-e2e"
    ∷ codes ".next-e2e"
    ∷ codes "vendor"
    ∷ []

-- The three tests at the head of the loop.
unfoldable pub is_candidate : Entry → Bool
is_candidate entry =
    entry.is_directory
    && not (contains exclude entry.name)
    && not (starts_with entry.name (codes "."))

-- What a marker adds: an instance, and the component with its path if it is the first of its kind.
unfoldable pub record_marker : Str → ComponentMarkerData → Discovered → Discovered
record_marker name marker acc =
    let instance' : ComponentInstance = record {
      type = marker.component;
      path = name;
      orm = marker.orm;
    } in
    if contains acc.components marker.component
    then record acc { instances = acc.instances ++ instance' ∷ [] }
    else record {
      components = acc.components ++ marker.component ∷ [];
      paths = insert marker.component name acc.paths;
      instances = acc.instances ++ instance' ∷ [];
    }

-- One round of the loop.
unfoldable pub visit : Entry → Discovered → Discovered
visit entry acc =
    if is_candidate entry
    then (elim (read_component_marker entry.marker) [
      | none ↦ acc
      | some marker ↦ record_marker entry.name marker acc
    ])
    else acc

unfoldable pub visit_all : List Entry → Discovered → Discovered
visit_all [] acc = acc
visit_all (entry ∷ entries) acc = visit_all entries (visit entry acc)

-- `!paths[c]`
abbrev pub has_path : Option Str → Bool
has_path none = false
has_path (some path) = is_truthy path

-- The loop that gives a component without a path its own name.
unfoldable pub fill_paths : List Component → List (Component × Str) → List (Component × Str)
fill_paths [] paths = paths
fill_paths (c ∷ cs) paths =
    fill_paths cs (if has_path (lookup c paths) then paths else insert c (component_name c) paths)

unfoldable pub discover_components_from_markers : List Entry → Discovered
discover_components_from_markers entries =
    let found = visit_all entries (record { components = []; paths = []; instances = [] }) in
    record found { paths = fill_paths found.components found.paths }

-- The marker file in a directory of the project.
unfoldable pub marker_at : Str → List Entry → Option RawMarker
marker_at dir [] = none
marker_at dir (entry ∷ entries) = if dir == entry.name then entry.marker else marker_at dir entries

-- A write of a marker file, as a change of its content; in a directory that is not there nothing
-- is written.
unfoldable pub change_marker : Str → (Option RawMarker → Option RawMarker) → List Entry → List Entry
change_marker dir f [] = []
change_marker dir f (entry ∷ entries) =
    if dir == entry.name
    then record entry { marker = f entry.marker } ∷ entries
    else entry ∷ change_marker dir f entries
