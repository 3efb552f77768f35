-- ===== src/Merge.antt =====
-- The per-file three-way merge of a template update: `tryThreeWayMerge`, `lookupBaseContent` and
-- `buildPathFallbacks` of cli/src/baseline.ts.
--
-- The disk is a function from paths to contents. Git is two parameters: `show`, the content of a
-- path at the baseline ref, and `merge_file`, what `git merge-file` leaves of the user's content,
-- with whether it ended without a conflict. Template files are readable.
pub mod Rule
pub mod Laws
pub mod Outcomes
pub mod Settled
mod Tests
use projx.Base.Text.{Str, codes, ends_with, index_of, is_truthy}
use projx.Base.Sets.{lookup, insert}
use projx.Components.{Component, component_name}
use projx.Base.{
  ℕ, zero, suc, ◌+◌, ◌-◌, ◌*◌, ◌/◌, ◌%◌, ◌^◌, ◌≤◌, ◌<◌, min, ◌≡◌, refl, sym, ap, ◌∙◌, ◌≢◌, ◌↔◌, ◌⊎◌,
  inl, inr, ite, Bool, true, false, not, ◌&&◌, ◌||◌, Option, none, some, List, [], ◌∷◌, ◌++◌, map,
  arith, leb, ltb, if◌then◌else◌, Bool-cases, Option-cases, Eq, ◌==◌, ==_iff, contains, nat_eq,
  list_eq, option_eq, length, take, drop, any, all, filter, find, length-append, drop-append,
  take-append, take-append-drop, any-append, All, Any, All-append, dec_lt, ℕ_discrete,
}

abbrev pub Disk : Type 0
Disk = Str → Option Str

abbrev pub Paths : Type 0
Paths = List (Component × Str)

-- The canonical name of each component's directory that has another name.
unfoldable pub build_path_fallbacks : Paths → List (Str × Str) → List (Str × Str)
build_path_fallbacks [] fallbacks = fallbacks
build_path_fallbacks ((component, dir) ∷ paths) fallbacks = build_path_fallbacks paths (
    if dir == component_name component
    then fallbacks
    else insert dir (component_name component) fallbacks)

-- `canonical ? show(canonical + rest) : null`
unfoldable pub show_canonical : (Str → Option Str) → Option Str → Str → Option Str
show_canonical show none rest = none
show_canonical show (some canonical) rest =
    if is_truthy canonical then show (canonical ++ rest) else none

-- The part of `lookupBaseContent` behind the first look.
unfoldable pub show_fallback : (Str → Option Str) → Str → List (Str × Str) → Option Str
unfolding show_canonical
show_fallback show file fallbacks = elim (index_of file (codes "/")) [
  | none ↦ none
  | some slash ↦ show_canonical show (lookup (take slash file) fallbacks) (drop slash file)
]

unfoldable pub lookup_base_content : (Str → Option Str) → Str → List (Str × Str) → Option Str
lookup_base_content show file fallbacks = elim (show file) [
  | some direct ↦ some direct
  | none ↦ show_fallback show file fallbacks
]

unfoldable pub is_marker : Str → Bool
is_marker file = ends_with file (codes "/.projx-component") || file == codes ".projx-component"

-- What the loop does with one file of the template.
pub data Decision : Type 0 where
  leave : Decision
  write : Str → Decision
  conflict : Str → Decision

abbrev pub from_merge : Str × Bool → Decision
from_merge (content, true) = write content
from_merge (content, false) = conflict content

pub record MergeState : Type 0 where
  pub disk : Disk
  pub merged : List Str
  pub conflicted : List Str

abbrev pub write_file : Str → Str → Disk → Disk
write_file file content disk path = if path == file then some content else disk path

-- One round of the loop, with the decision taken.
unfoldable pub carry_out : Str → Decision → MergeState → MergeState
carry_out file leave state = state
carry_out file (write content) state = record state {
  disk = write_file file content state.disk;
  merged = state.merged ++ file ∷ [];
}
carry_out file (conflict content) state = record state {
  disk = write_file file content state.disk;
  conflicted = state.conflicted ++ file ∷ [];
}

module _ (show : Str → Option Str) (merge_file : Str → Str → Str → Str × Bool) where
  -- A file that the user has, with a known base.
  unfoldable pub decide_present : Str → Str → Str → Decision
  decide_present ours base theirs =
      if theirs == base
      then leave
      else if ours == base
      then write theirs
      else if ours == theirs
      then leave
      else from_merge (merge_file ours base theirs)

  unfoldable pub decide : List (Str × Str) → Str → Str → Option Str → Decision
  decide fallbacks file theirs none = if file == codes ".projx" then leave else write theirs
  decide fallbacks file theirs (some ours) =
      if file == codes ".projx" || is_marker file
      then leave
      else elim (lookup_base_content show file fallbacks) [
        | none ↦ leave
        | some base ↦ decide_present ours base theirs
      ]

  unfoldable pub merge_files : List (Str × Str) → List (Str × Str) → MergeState → MergeState
  merge_files fallbacks [] state = state
  merge_files fallbacks ((file, theirs) ∷ template) state =
      merge_files fallbacks template
        (carry_out file (decide fallbacks file theirs (state.disk file)) state)

  unfoldable pub try_three_way_merge : Paths → List (Str × Str) → Disk → MergeState
  try_three_way_merge paths template disk =
      merge_files (build_path_fallbacks paths []) template
        (record { disk = disk; merged = []; conflicted = [] })
