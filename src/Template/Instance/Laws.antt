-- ===== src/Template/Instance/Laws.antt =====
-- What an instance of a component receives from the template.
use projx.Base.Text.{Str, codes, split}
use projx.Base.Sets.{lookup, lookup-cons, lookup-nil, contains-dedup, contains-append}
use projx.Components.{Component, component_eq}
use projx.Components.Orm.{orm_eq}
use projx.Project.{ComponentMarkerData}
use projx.Skip.{matches_skip, pattern_matches}
use projx.Merge.{Disk}
use projx.Template.{exists}
use projx.Template.Instance.{
  is_copied, copy_component, last_name, target_rel, is_removed, remove_skipped_files, marker_skip,
  default_skip, skip_patterns,
}
use projx.Base.{
  ◌≡◌, refl, sym, ap, ◌∙◌, inl, inr, Bool, true, false, not, ◌&&◌, Option, none, List, [], ◌∷◌,
  ◌++◌, arith, if◌then◌else◌, Bool-cases, eq_cases, ◌==◌, contains, nat_eq, list_eq, option_eq,
  filter,
}

lookup-filter :
    (p : Str → Bool) (files : List (Str × Str)) (path : Str)
    → lookup path (filter (λ entry. p entry.0) files) ≡ (if p path then lookup path files else none)
lookup-filter p [] path = rw lookup-nil (ground arith)
lookup-filter p ((file, content) ∷ files) path = elim (eq_cases path file) [
  | inl (test, same) ↦ elim (Bool-cases (p file)) [
    | inl passes ↦ rw (passes, lookup-cons, lookup-cons, test, same, passes) refl
    | inr fails ↦
        rw (fails, lookup-cons, test, same, fails)
          (rw (same, fails) at (lookup-filter p files path))
  ]
  | inr (test, _) ↦ elim (Bool-cases (p file)) [
    | inl passes ↦ rw (passes, lookup-cons, lookup-cons, test) (lookup-filter p files path)
    | inr fails ↦ rw (fails, lookup-cons, test) (lookup-filter p files path)
  ]
]

matches_skip_of_contains :
    (skip : List Str) (file pattern : Str)
    → contains skip pattern ≡ true
    → pattern_matches file pattern ≡ true
    → matches_skip file skip ≡ true
unfolding matches_skip
matches_skip_of_contains [] file pattern h m = absurd (ground (arith, h))
matches_skip_of_contains (p ∷ skip) file pattern h m = elim (eq_cases pattern p) [
  | inl (_, same) ↦ rw (sym same, m) refl
  | inr (test, _) ↦ rw (matches_skip_of_contains skip file pattern (rw test at h) m) (ground arith)
]

nothing_removed : (real : Disk) (rel : Str) → is_removed [] real rel ≡ false
unfolding is_removed matches_skip
nothing_removed real rel = ground arith

both_pass :
    (copied removed : Bool) (found : Option Str)
    → (if not removed then (if copied then found else none) else none)
      ≡ (if copied && not removed then found else none)
both_pass true true found = refl
both_pass true false found = refl
both_pass false true found = refl
both_pass false false found = refl

-- Of the component's files exactly those are offered to an instance that are neither excluded from
-- copying nor pinned files that the instance has.
pub remove_skipped_files-lookup :
    (skip : List Str) (real : Disk) (files : List (Str × Str)) (rel : Str)
    → lookup rel (remove_skipped_files skip real (copy_component files))
      ≡ (if is_copied rel && not (is_removed skip real rel) then lookup rel files else none)
unfolding remove_skipped_files copy_component
remove_skipped_files-lookup [] real files rel =
    rw nothing_removed
      (lookup-filter is_copied files rel ∙ both_pass (is_copied rel) false (lookup rel files))
remove_skipped_files-lookup (pattern ∷ skip) real files rel =
    lookup-filter (λ path. not (is_removed (pattern ∷ skip) real path)) (copy_component files) rel
    ∙ ap (λ found. if not (is_removed (pattern ∷ skip) real rel) then found else none)
        (lookup-filter is_copied files rel)
    ∙ both_pass (is_copied rel) (is_removed (pattern ∷ skip) real rel) (lookup rel files)

contains-skip_patterns :
    (component : Component) (marker : Option ComponentMarkerData) (apply_defaults : Bool)
    (base_skip : List Str) (pattern : Str)
    → contains (marker_skip marker) pattern ≡ true
    → contains (skip_patterns component marker apply_defaults base_skip) pattern ≡ true
unfolding skip_patterns
contains-skip_patterns component marker apply_defaults base_skip pattern pinned =
    rw
      (
        contains-dedup
            (base_skip ++ marker_skip marker ++ default_skip component marker apply_defaults)
            pattern,
        contains-append (base_skip ++ marker_skip marker)
            (default_skip component marker apply_defaults) pattern,
        contains-append base_skip (marker_skip marker) pattern,
        pinned,
      )
      (ground arith)

-- A file whose path matches a pattern of the instance's marker and that the user has is not among
-- the files copied from the template, with any defaults and other skips; markers are exempt.
pub pinned_file_not_copied :
    (component : Component) (marker : Option ComponentMarkerData) (apply_defaults : Bool)
    (base_skip : List Str) (real : Disk) (files : List (Str × Str)) (rel pattern : Str)
    → contains (marker_skip marker) pattern ≡ true
    → pattern_matches (target_rel rel) pattern ≡ true
    → exists real (target_rel rel) ≡ true
    → (last_name (split 47 rel) == codes ".projx-component") ≡ false
    → lookup rel (
        remove_skipped_files
          (skip_patterns component marker apply_defaults base_skip)
          real
          (copy_component files))
      ≡ none
unfolding is_removed
pinned_file_not_copied component marker apply_defaults base_skip real files rel pattern pinned
      matched there plain =
    let skip = skip_patterns component marker apply_defaults base_skip in
    let skipped =
      matches_skip_of_contains skip (target_rel rel) pattern
        (contains-skip_patterns component marker apply_defaults base_skip pattern pinned) matched in
    remove_skipped_files-lookup skip real files rel ∙ rw (plain, skipped, there) (ground arith)
