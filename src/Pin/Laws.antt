-- ===== src/Pin/Laws.antt =====
-- What `pin` and `unpin` leave on the lists of the root and of each component.
use projx.Base.Text.{Str}
use projx.Base.Sets.{lookup, IsNodup}
use projx.Components.{Component, component_eq}
use projx.Project.{ComponentMarkerData, read_component_marker}
use projx.Project.Discover.{marker_at}
use projx.Project.Discover.Laws.{IsDirectory}
use projx.Pin.{Project, root, in_component, is_managed, add_to_skip, remove_from_skip, pin, unpin}
use projx.Pin.Lists.{contains-add_to_skip, contains-remove_from_skip}
use projx.Pin.Collect.{asks}
use projx.Pin.Edit.{
  root_skip, paths_of, or_false, keep_unremoved, edit_pins-root, edit_pins-component,
}
use projx.Base.{◌≡◌, false, not, ◌&&◌, ◌||◌, some, List, contains, nat_eq, list_eq, option_eq, any}

-- After a successful `pin` the root's skip list, if it had no repetitions, holds what it held and
-- exactly those patterns that are not projx's own files and belong to the root.
pub pin-root_skip :
    (today : Str) (project project' : Project) (patterns : List Str) (s : Str)
    → pin today project patterns ≡ some project'
    → IsNodup (root_skip project)
    → contains (root_skip project') s ≡ (
        contains (root_skip project) s
        || any (asks is_managed (paths_of project) (root s)) patterns)
unfolding pin
pin-root_skip today project project' patterns s run n =
    edit_pins-root add_to_skip ◌||◌ IsNodup or_false contains-add_to_skip is_managed today project
      project' patterns run s n

-- After a successful `pin` the skip list of a discovered component, if it had no repetitions, holds what it held and
-- exactly the parts of those patterns that belong below the component's directory.
pub pin-component_skip :
    (today : Str) (project project' : Project) (patterns : List Str) (c : Component) (dir : Str)
    (m : ComponentMarkerData) (s : Str)
    → pin today project patterns ≡ some project'
    → IsDirectory project.entries
    → lookup c (paths_of project) ≡ some dir
    → read_component_marker (marker_at dir project.entries) ≡ some m
    → IsNodup m.skip
    → (m' : ComponentMarkerData) × (read_component_marker (marker_at dir project'.entries)
        ≡ some m')
      × (m'.component ≡ c)
      × (contains m'.skip s ≡ (
          contains m.skip s
          || any (asks is_managed (paths_of project) (in_component c s)) patterns))
unfolding pin
pin-component_skip today project project' patterns c dir m s run d at reads n =
    edit_pins-component add_to_skip ◌||◌ IsNodup or_false contains-add_to_skip is_managed today
      project project' patterns run c dir m s d at reads n

-- After a successful `unpin` the root's skip list holds what it held less exactly those patterns
-- that belong to the root.
pub unpin-root_skip :
    (today : Str) (project project' : Project) (patterns : List Str) (s : Str)
    → unpin today project patterns ≡ some project'
    → contains (root_skip project') s ≡ (
        contains (root_skip project) s
        && not (any (asks (λ _. false) (paths_of project) (root s)) patterns))
unfolding unpin
unpin-root_skip today project project' patterns s run =
    edit_pins-root remove_from_skip (λ a b. a && not b) (λ _. Unit) keep_unremoved
      (λ removals skip s _. contains-remove_from_skip removals skip s) (λ _. false) today project
      project' patterns run s tt

-- After a successful `unpin` the skip list of a discovered component holds what it held less
-- exactly the parts of those patterns that belong below the component's directory.
pub unpin-component_skip :
    (today : Str) (project project' : Project) (patterns : List Str) (c : Component) (dir : Str)
    (m : ComponentMarkerData) (s : Str)
    → unpin today project patterns ≡ some project'
    → IsDirectory project.entries
    → lookup c (paths_of project) ≡ some dir
    → read_component_marker (marker_at dir project.entries) ≡ some m
    → (m' : ComponentMarkerData) × (read_component_marker (marker_at dir project'.entries)
        ≡ some m')
      × (m'.component ≡ c)
      × (contains m'.skip s ≡ (
          contains m.skip s
          && not (any (asks (λ _. false) (paths_of project) (in_component c s)) patterns)))
unfolding unpin
unpin-component_skip today project project' patterns c dir m s run d at reads =
    edit_pins-component remove_from_skip (λ a b. a && not b) (λ _. Unit) keep_unremoved
      (λ removals skip s _. contains-remove_from_skip removals skip s) (λ _. false) today project
      project' patterns run c dir m s d at reads tt
