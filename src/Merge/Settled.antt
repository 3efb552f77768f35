-- ===== src/Merge/Settled.antt =====
-- Updates that are repeated: `tryThreeWayMerge` of cli/src/baseline.ts with a baseline that the
-- update before left.
use projx.Base.Text.{Str, codes}
use projx.Base.Sets.{lookup-All, lookup, All-lookup, IsKeyed}
use projx.Merge.{is_marker, Disk, Paths, leave, decide, try_three_way_merge, build_path_fallbacks}
use projx.Merge.Rule.{IsOwn}
use projx.Merge.Laws.{after, try_three_way_merge-status}
use projx.Base.{
  All, ◌≡◌, refl, ap, ◌≢◌, ◌⊎◌, inl, inr, Bool, Option, none, some, List, [], Bool-cases, eq_cases,
  ◌==◌, nat_eq, list_eq, option_eq,
}
use projx.Merge.Outcomes.{decide_unchanged, merge_files_settled, present_after, decide_replaced}
use projx.Base.{sym, ◌∙◌, ==_iff, ==_refl}

-- A file of projx itself that is there, or the configuration, is left.
decide_own :
    (show : Str → Option Str) (merge_file : Str → Str → Str → Str × Bool)
    (fallbacks : List (Str × Str)) (path theirs : Str) (ours : Option Str)
    → IsOwn path
    → (path ≢ codes ".projx" → ours ≢ none)
    → decide show merge_file fallbacks path theirs ours ≡ leave
unfolding decide
decide_own show merge_file fallbacks path theirs none own there =
    elim (eq_cases path (codes ".projx")) [
      | inl (test, config) ↦ rw test refl
      | inr (_, other) ↦ absurd (there other refl)
    ]
decide_own show merge_file fallbacks path theirs (some ours) own there =
    elim (eq_cases path (codes ".projx")) [
      | inl (test, config) ↦ rw test refl
      | inr (test, other) ↦ elim own [
        | inl config ↦ absurd (other config)
        | inr marker ↦ rw (test, marker) refl
      ]
    ]

-- The user has not edited the file: it is projx's own, or not there, or as it was in the baseline.
abbrev pub IsUntouched : (Str → Option Str) → Disk → Str → Type 0
IsUntouched show disk path =
    IsOwn path
    ⊎ (disk path ≡ none)
    ⊎ ((base : Str) × (show path ≡ some base) × (disk path ≡ some base))

module _ (show : Str → Option Str) (merge_file : Str → Str → Str → Str × Bool)
    (fallbacks : List (Str × Str)) (path theirs : Str) where
  after_absent :
      (¬ IsOwn path) → after (decide show merge_file fallbacks path theirs none) none ≡ some theirs
  unfolding decide
  after_absent own = elim (eq_cases path (codes ".projx")) [
    | inl (_, config) ↦ absurd (own (inl config))
    | inr (test, _) ↦ rw test refl
  ]

  -- A file that is not edited becomes the template's.
  after_base :
      (base : Str)
      → (¬ IsOwn path)
      → show path ≡ some base
      → after (decide show merge_file fallbacks path theirs (some base)) (some base) ≡ some theirs
  after_base base own known = elim (eq_cases theirs base) [
    | inl (_, same) ↦
        rw
          (decide_unchanged show merge_file fallbacks path theirs base (known ∙ ap some (sym same)))
          (ap some (sym same))
    | inr (_, new) ↦
        rw (decide_replaced show merge_file fallbacks path theirs base own known new) refl
  ]

-- An update of a project that is not edited settles. For a template without repeated paths, where
-- each of its files is projx's own, not there, or as in the baseline: the files of the template that
-- are not projx's own become the template's, and a second update with the same template, whose
-- baseline is what the first one left, changes no file and reports none.
pub unedited_update_settles :
    (show : Str → Option Str) (merge_file : Str → Str → Str → Str × Bool) (paths : Paths)
    (template : List (Str × Str)) (disk : Disk)
    → IsKeyed template
    → All (λ entry. IsUntouched show disk entry.0) template
    → let left = (try_three_way_merge show merge_file paths template disk).disk in
      All (λ entry. IsOwn entry.0 ⊎ (left entry.0 ≡ some entry.1)) template
      × (try_three_way_merge left merge_file paths template left
          ≡ record { disk = left; merged = []; conflicted = [] })
unfolding try_three_way_merge
unedited_update_settles show merge_file paths template disk u untouched = (
  All-lookup (λ entry. IsOwn entry.0 ⊎ (left entry.0 ≡ some entry.1)) template u settled,
  merge_files_settled left merge_file fallbacks template
      (record { disk = left; merged = []; conflicted = [] })
      (All-lookup (λ entry. decide left merge_file fallbacks entry.0 entry.1 (left entry.0) ≡ leave)
        template u quiet),
)
  where
    fallbacks : List (Str × Str)
    fallbacks = build_path_fallbacks paths []

    left : Disk
    left = (try_three_way_merge show merge_file paths template disk).disk

    left_is :
        (path theirs : Str)
        → lookup path template ≡ some theirs
        → left path ≡ after (decide show merge_file fallbacks path theirs (disk path)) (disk path)
    left_is path theirs found =
        ap (λ s. s.0)
          (rw found at (try_three_way_merge-status show merge_file paths template disk path u))

    settled :
        (path theirs : Str)
        → lookup path template ≡ some theirs
        → IsOwn path ⊎ (left path ≡ some theirs)
    settled path theirs found = elim (Bool-cases (path == codes ".projx")) [
      | inl test ↦ inl (inl ((==_iff path (codes ".projx")).0 test))
      | inr test ↦ elim (Bool-cases (is_marker path)) [
        | inl marker ↦ inl (inr marker)
        | inr plain ↦
            let own : ¬ IsOwn path = λ o. elim o [
              | inl config ↦ cc (test, config, ==_refl (codes ".projx"))
              | inr marker ↦ cc
            ] in
            elim (lookup-All (λ entry. IsUntouched show disk entry.0) template path theirs untouched
              found) [
                | inl o ↦ inl o
                | inr (inl nothing) ↦ inr (
                    left_is path theirs found
                    ∙ rw nothing (after_absent show merge_file fallbacks path theirs own))
                | inr (inr (base, known, there)) ↦ inr (
                    left_is path theirs found
                    ∙ rw there (after_base show merge_file fallbacks path theirs base own known))
              ]
      ]
    ]

    quiet :
        (path theirs : Str)
        → lookup path template ≡ some theirs
        → decide left merge_file fallbacks path theirs (left path) ≡ leave
    quiet path theirs found = elim (settled path theirs found) [
      | inl own ↦ decide_own left merge_file fallbacks path theirs (left path) own (λ other.
          rw (left_is path theirs found)
            (present_after show merge_file fallbacks path theirs (disk path) other))
      | inr same ↦ rw same (decide_unchanged left merge_file fallbacks path theirs theirs same)
    ]
