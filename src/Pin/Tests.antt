-- ===== src/Pin/Tests.antt =====
-- Pinning in a concrete project.
use projx.Base.Text.{Str, codes, starts_with, ends_with}
use projx.Base.Sets.{lookup, dedup, insert}
use projx.Components.{component_eq, fastify, normalize_component}
use projx.Project.{
  text, other_value, RawMarker, ComponentMarkerData, read_component_marker, parse_marker,
  read_component, or_else, read_first_component, valid, no_config, read_features, read_orm,
  read_projx_config, write_projx_config,
}
use projx.Project.Discover.{
  marker_at, discover_components_from_markers, visit_all, visit, is_candidate, record_marker,
  fill_paths, change_marker,
}
use projx.Project.Discover.Laws.{IsDirectory}
use projx.Project.Discover.First.{Found, discover-Found}
use projx.Project.Discover.{discover_components_from_markers}
use projx.Pin.{
  Project, root, in_component, is_managed, pin, unpin, classify_pattern, sort_patterns, put_scope,
  add_to_skip, remove_from_skip, edit_marker, edit_components, edit_root,
}
use projx.Pin.Collect.{asks, scope_eq}
use projx.Pin.Edit.{root_skip, paths_of}
use projx.Pin.Laws.{pin-root_skip, unpin-component_skip}
use projx.Base.{
  ◌≡◌, refl, true, false, not, ◌&&◌, ◌||◌, Option, none, some, List, [], ◌∷◌, contains, nat_eq,
  list_eq, option_eq, any,
}

abbrev api_marker : RawMarker
api_marker = record {
  component = text (codes "fastify");
  components = other_value;
  skip = some (codes "package.json" ∷ []);
  features = other_value;
  orm = other_value;
}

abbrev api_data : ComponentMarkerData
api_data = record {
  component = fastify;
  skip = codes "package.json" ∷ [];
  features = none;
  orm = none;
}

abbrev sample : Project
sample = record {
  config = valid (record no_config { skip = some (codes "README.md" ∷ []) });
  entries =
      record { name = codes "api"; is_directory = true; marker = some api_marker }
      ∷ record { name = codes ".git"; is_directory = true; marker = none }
      ∷ [];
}

abbrev asked : List Str
asked = codes "api/src/a.ts" ∷ codes "Makefile" ∷ codes ".projx" ∷ []

project_steps : Unit {0}
unfolding discover_components_from_markers visit_all visit is_candidate record_marker fill_paths
    change_marker marker_at read_component_marker parse_marker read_component read_first_component
    or_else read_features read_orm normalize_component lookup component_eq list_eq nat_eq
    starts_with ends_with insert
project_steps = tt

steps : Unit {0}
unfolding project_steps pin unpin classify_pattern sort_patterns put_scope add_to_skip
    remove_from_skip edit_marker edit_components edit_root is_managed dedup read_projx_config
    write_projx_config
steps = tt

done : Option Project → Project
done none = sample
done (some project) = project

pinned : Project
unfolding steps done
pinned = done (pin (codes "2026-01-01") sample asked)

pinned_is_some : pin (codes "2026-01-01") sample asked ≡ some pinned
unfolding pinned
pinned_is_some = refl

unpinned : Project
unfolding steps done
unpinned = done (unpin (codes "2026-01-01") sample asked)

unpinned_is_some : unpin (codes "2026-01-01") sample asked ≡ some unpinned
unfolding unpinned
unpinned_is_some = refl

root_test : root_skip pinned ≡ codes "README.md" ∷ codes "Makefile" ∷ []
unfolding pinned
root_test = refl

sample-IsDirectory : IsDirectory sample.entries
unfolding list_eq nat_eq
sample-IsDirectory = ((refl, (refl, tt)), (refl, (refl, tt)))

api_found : lookup fastify (paths_of sample) ≡ some (codes "api")
unfolding steps
api_found = refl

api_reads : read_component_marker (marker_at (codes "api") sample.entries) ≡ some api_data
unfolding steps
api_reads = refl

discover-Found_example :
    Found fastify sample.entries
      (lookup fastify (discover_components_from_markers sample.entries).paths)
discover-Found_example = discover-Found sample.entries fastify sample-IsDirectory.1

pin-root_skip_example : contains (root_skip pinned) (codes "Makefile") ≡ (
    contains (root_skip sample) (codes "Makefile")
    || any (asks is_managed (paths_of sample) (root (codes "Makefile"))) asked)
unfolding read_projx_config
pin-root_skip_example =
    pin-root_skip (codes "2026-01-01") sample pinned asked (codes "Makefile") pinned_is_some
      (refl, tt)

unpin-component_skip_example :
    (m' : ComponentMarkerData) × (read_component_marker (marker_at (codes "api") unpinned.entries)
      ≡ some m')
    × (m'.component ≡ fastify)
    × (contains m'.skip (codes "package.json") ≡ (
        contains api_data.skip (codes "package.json")
        && not (
            any
              (asks (λ _. false) (paths_of sample) (in_component fastify (codes "package.json")))
              asked)))
unpin-component_skip_example =
    unpin-component_skip (codes "2026-01-01") sample unpinned asked fastify (codes "api") api_data
      (codes "package.json") unpinned_is_some sample-IsDirectory api_found api_reads
