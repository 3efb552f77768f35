-- ===== src/Merge/Outcomes.antt =====
-- What a template update means for the user's files.
use projx.Base.Text.{Str, codes}
use projx.Base.Sets.{lookup, IsKeyed}
use projx.Merge.{
  is_marker, Disk, Paths, Decision, leave, write, conflict, decide_present, decide, MergeState,
  carry_out, merge_files, try_three_way_merge, build_path_fallbacks, lookup_base_content,
}
use projx.Merge.Rule.{IsOwn, Rule, decide-Rule}
use projx.Merge.Laws.{after, is_write, is_conflict, status, try_three_way_merge-status}
use projx.Base.{
  ◌≡◌, refl, ap, ◌≢◌, inl, inr, Bool, true, false, Option, none, some, some-ne-none, List, [], ◌∷◌,
  arith, Bool-cases, eq_cases, nat_eq, list_eq, option_eq, All,
}

module _ (show : Str → Option Str) (merge_file : Str → Str → Str → Str × Bool) where
  -- With the template's content as the base, there is nothing to decide on a file that is there.
  pub decide_unchanged :
      (fallbacks : List (Str × Str)) (path theirs ours : Str)
      → show path ≡ some theirs
      → decide show merge_file fallbacks path theirs (some ours) ≡ leave
  unfolding decide decide_present lookup_base_content
  decide_unchanged fallbacks path theirs ours known = rw known (ground arith)

  pub merge_files_settled :
      (fallbacks template : List (Str × Str)) (state : MergeState)
      → All
          (λ entry. decide show merge_file fallbacks entry.0 entry.1 (state.disk entry.0) ≡ leave)
          template
      → merge_files show merge_file fallbacks template state ≡ state
  unfolding merge_files carry_out
  merge_files_settled fallbacks [] state h = refl
  merge_files_settled fallbacks ((path, theirs) ∷ template) state (h, hs) =
      rw h (merge_files_settled fallbacks template state hs)

  created_present :
      (fallbacks : List (Str × Str)) (path theirs : Str)
      → path ≢ codes ".projx"
      → after (decide show merge_file fallbacks path theirs none) none ≢ none
  unfolding decide
  created_present fallbacks path theirs other = elim (eq_cases path (codes ".projx")) [
    | inl (_, own) ↦ absurd (other own)
    | inr (test, _) ↦ rw test (some-ne-none theirs)
  ]

  kept_present : (decision : Decision) (ours : Str) → after decision (some ours) ≢ none
  kept_present leave ours = some-ne-none ours
  kept_present (write content) ours = some-ne-none content
  kept_present (conflict content) ours = some-ne-none content

  -- Each file of the template is there after an update.
  pub present_after :
      (fallbacks : List (Str × Str)) (path theirs : Str) (ours : Option Str)
      → path ≢ codes ".projx"
      → after (decide show merge_file fallbacks path theirs ours) ours ≢ none
  present_after fallbacks path theirs none other = created_present fallbacks path theirs other
  present_after fallbacks path theirs (some ours) other =
      kept_present (decide show merge_file fallbacks path theirs (some ours)) ours

  -- A merge of a template without repeated paths treats each of its files by the rule of the
  -- three-way merge: the decision that the rule gives for the content before the merge is the one
  -- that shows in the content after it and in the two reports.
  pub try_three_way_merge-Rule :
      (paths : Paths) (template : List (Str × Str)) (disk : Disk) (path theirs : Str)
      → IsKeyed template
      → lookup path template ≡ some theirs
      → (decision : Decision) × Rule show merge_file
          (build_path_fallbacks paths [])
          path
          theirs
          (disk path)
          decision
        × (status (try_three_way_merge show merge_file paths template disk) path
            ≡ (after decision (disk path), is_write decision, is_conflict decision))
  try_three_way_merge-Rule paths template disk path theirs u found = (
    decide show merge_file (build_path_fallbacks paths []) path theirs (disk path),
    decide-Rule show merge_file (build_path_fallbacks paths []) path theirs (disk path),
    rw found at (try_three_way_merge-status show merge_file paths template disk path u),
  )

  -- In a merge of a template without repeated paths, a file that the user has and whose template
  -- has not changed since the baseline keeps the
  -- user's content, and is in neither report.
  pub user_edits_survive :
      (paths : Paths) (template : List (Str × Str)) (disk : Disk) (path ours base : Str)
      → IsKeyed template
      → lookup path template ≡ some base
      → show path ≡ some base
      → disk path ≡ some ours
      → status (try_three_way_merge show merge_file paths template disk) path
        ≡ (some ours, false, false)
  user_edits_survive paths template disk path ours base u found known there =
      rw
        (
          try_three_way_merge-status show merge_file paths template disk path u,
          found,
          there,
          decide_unchanged (build_path_fallbacks paths []) path base ours known,
        )
        refl

-- A file whose content is the base's is replaced.
pub decide_replaced :
    (show : Str → Option Str) (merge_file : Str → Str → Str → Str × Bool)
    (fallbacks : List (Str × Str)) (path theirs ours : Str)
    → (¬ IsOwn path)
    → show path ≡ some ours
    → theirs ≢ ours
    → decide show merge_file fallbacks path theirs (some ours) ≡ write theirs
unfolding decide decide_present lookup_base_content
decide_replaced show merge_file fallbacks path theirs ours own known new =
    elim (eq_cases path (codes ".projx")) [
      | inl (_, config) ↦ absurd (own (inl config))
      | inr (test, _) ↦ elim (Bool-cases (is_marker path)) [
        | inl marker ↦ absurd (own (inr marker))
        | inr plain ↦ rw (test, plain, known) (ground arith)
      ]
    ]

-- `saveBaselineRef` records the merged project, the user's edits with it, as the next baseline.
-- So an edit that the first update keeps, in a file of the template (without repeated paths) that has
-- not changed in the template and is not projx's own, is undone by a
-- second update with the same template when nothing was changed in between: the template's content
-- stands again, and the file is reported as merged.
pub second_update_undoes_edits :
    (show : Str → Option Str) (merge_file : Str → Str → Str → Str × Bool) (paths : Paths)
    (template : List (Str × Str)) (disk : Disk) (path ours base : Str)
    → IsKeyed template
    → (¬ IsOwn path)
    → lookup path template ≡ some base
    → show path ≡ some base
    → disk path ≡ some ours
    → base ≢ ours
    → let first = (try_three_way_merge show merge_file paths template disk).disk in
      (first path ≡ some ours)
      × (status (try_three_way_merge first merge_file paths template first) path
          ≡ (some base, true, false))
second_update_undoes_edits show merge_file paths template disk path ours base u own found known
      there edited =
    (
      kept,
      rw
          (
            try_three_way_merge-status first merge_file paths template first path u,
            found,
            kept,
            decide_replaced first merge_file (build_path_fallbacks paths []) path base ours own kept
                edited,
          )
          refl,
    )
  where
    first : Disk
    first = (try_three_way_merge show merge_file paths template disk).disk

    kept : first path ≡ some ours
    kept =
        ap (λ s. s.0)
          (user_edits_survive show merge_file paths template disk path ours base u found known
            there)
