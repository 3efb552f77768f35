-- ===== src/Pin.antt =====
-- Pinning: `pin` and `unpin` of cli/src/pin.ts, which edit the skip lists of the root
-- configuration and of the component markers. Messages are left out.
pub mod Lists
pub mod Collect
pub mod Edit
pub mod Laws
mod Tests
use projx.Base.Text.{Str, codes, starts_with, ends_with}
use projx.Base.Sets.{dedup, lookup, insert}
use projx.Components.{Component, component_eq}
use projx.Project.{
  RawMarker, ComponentMarkerData, read_component_marker, write_component_marker, Config, ConfigFile,
  missing, invalid, valid, read_projx_config, write_projx_config, list_or_nil,
}
use projx.Project.Discover.{Entry, discover_components_from_markers, change_marker}
use projx.Base.{
  ℕ, zero, suc, ◌+◌, ◌-◌, ◌*◌, ◌/◌, ◌%◌, ◌^◌, ◌≤◌, ◌<◌, min, ◌≡◌, refl, sym, ap, ◌∙◌, ◌≢◌, ◌↔◌, ◌⊎◌,
  inl, inr, ite, Bool, true, false, not, ◌&&◌, ◌||◌, Option, none, some, List, [], ◌∷◌, ◌++◌, map,
  arith, leb, ltb, if◌then◌else◌, Bool-cases, Option-cases, Eq, ◌==◌, ==_iff, contains, nat_eq,
  list_eq, option_eq, length, take, drop, any, all, filter, find, length-append, drop-append,
  take-append, take-append-drop, any-append, All, Any, All-append, dec_lt, ℕ_discrete,
}

pub record Project : Type 0 where
  pub config : ConfigFile
  pub entries : List Entry

-- Where a pattern belongs, with the part that goes on the list there.
pub data Scope : Type 0 where
  root : Str → Scope
  in_component : Component → Str → Scope

abbrev pub Paths : Type 0
Paths = List (Component × Str)

-- The table `dirToComponent`.
unfoldable pub dir_to_component : Paths → List (Str × Component) → List (Str × Component)
dir_to_component [] table = table
dir_to_component ((component, dir) ∷ paths) table =
    dir_to_component paths (insert dir component table)

unfoldable pub find_scope : Str → List (Str × Component) → Scope
find_scope pattern [] = root pattern
find_scope pattern ((dir, component) ∷ table) =
    if starts_with pattern (dir ++ codes "/")
    then in_component component (drop (length dir + 1) pattern)
    else find_scope pattern table

unfoldable pub classify_pattern : Str → Paths → Scope
unfolding dir_to_component find_scope
classify_pattern pattern paths = find_scope pattern (dir_to_component paths [])

-- The lists `rootAdds` and `componentAdds` (in `unpin`, `rootRemoves` and `componentRemoves`).
pub record Sorted : Type 0 where
  pub at_root : List Str
  pub at_component : List (Component × List Str)

unfoldable pub put_scope : Scope → Sorted → Sorted
put_scope (root relative) acc = record acc { at_root = acc.at_root ++ relative ∷ [] }
put_scope (in_component component relative) acc = record acc {
  at_component =
      insert component (list_or_nil (lookup component acc.at_component) ++ relative ∷ [])
        acc.at_component;
}

-- A pattern that `pin` refuses.
unfoldable pub is_managed : Str → Bool
is_managed pattern = pattern == codes ".projx" || ends_with pattern (codes ".projx-component")

-- The first loop, over the patterns that pass a test.
unfoldable pub sort_patterns : (Str → Bool) → Paths → List Str → Sorted → Sorted
sort_patterns refused paths [] acc = acc
sort_patterns refused paths (pattern ∷ patterns) acc =
    sort_patterns refused paths patterns
      (if refused pattern then acc else put_scope (classify_pattern pattern paths) acc)

-- `merged`, if it is longer than the list that is there.
unfoldable pub add_to_skip : List Str → List Str → Option (List Str)
add_to_skip additions skip =
    if ltb (length skip) (length (dedup (skip ++ additions)))
    then some (dedup (skip ++ additions))
    else none

-- `filtered`, if it is shorter.
unfoldable pub remove_from_skip : List Str → List Str → Option (List Str)
remove_from_skip removals skip =
    if ltb (length (filter (λ s. not (contains removals s)) skip)) (length skip)
    then some (filter (λ s. not (contains removals s)) skip)
    else none

module _ (edit : List Str → List Str → Option (List Str)) where
  -- The body of the loop over the components, on the marker file. The arguments of `edit` are
  -- the changes and the list that is there; with no result nothing is written.
  unfoldable pub edit_marker : List Str → Option RawMarker → Option RawMarker
  edit_marker changes raw = elim (read_component_marker raw) [
    | none ↦ raw
    | some marker ↦ elim (edit changes marker.skip) [
      | none ↦ raw
      | some skip ↦ some (write_component_marker raw (record marker { skip = skip }))
    ]
  ]

  unfoldable pub edit_components : Paths → List (Component × List Str) → List Entry → List Entry
  edit_components paths [] entries = entries
  edit_components paths ((component, changes) ∷ more) entries =
      edit_components paths more (elim (lookup component paths) [
        | none ↦ entries
        | some dir ↦ change_marker dir (edit_marker changes) entries
      ])

  -- The part on the root's list.
  unfoldable pub edit_root : Str → List Str → ConfigFile → ConfigFile
  edit_root today [] file = file
  edit_root today (change ∷ changes) file =
      elim (edit (change ∷ changes) (list_or_nil (read_projx_config file).skip)) [
        | none ↦ file
        | some skip ↦
            write_projx_config today (record (read_projx_config file) { skip = some skip })
      ]

  -- Both commands: `none` is the exit with status 1.
  unfoldable pub edit_pins : (Str → Bool) → Str → Project → List Str → Option Project
  edit_pins refused today project patterns =
      let paths = (discover_components_from_markers project.entries).paths in
      let sorted =
        sort_patterns refused paths patterns (record { at_root = []; at_component = [] }) in
      elim project.config [
        | missing ↦ none
        | _ ↦ some (record {
          config = edit_root today sorted.at_root project.config;
          entries = edit_components paths sorted.at_component project.entries;
        })
      ]

unfoldable pub pin : Str → Project → List Str → Option Project
unfolding edit_pins
pin today project patterns = edit_pins add_to_skip is_managed today project patterns

unfoldable pub unpin : Str → Project → List Str → Option Project
unfolding edit_pins
unpin today project patterns = edit_pins remove_from_skip (λ _. false) today project patterns
