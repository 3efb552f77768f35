-- ===== src/Merge/Laws.antt =====
-- What a run of `tryThreeWayMerge` does to each path.
use projx.Base.Text.{Str}
use projx.Base.Sets.{lookup, IsKeyed, lookup-cons, lookup-nil, contains-append}
use projx.Merge.{
  Disk, Paths, Decision, leave, write, conflict, decide, MergeState, carry_out, merge_files,
  try_three_way_merge, build_path_fallbacks,
}
use projx.Base.{
  ◌≡◌, refl, sym, ap, ◌∙◌, inl, inr, Bool, true, false, ◌||◌, Option, none, some, List, [], ◌∷◌,
  arith, eq_cases, ◌==◌, contains, nat_eq, list_eq, option_eq,
}

-- The content of a file after its decision.
abbrev pub after : Decision → Option Str → Option Str
after leave ours = ours
after (write content) ours = some content
after (conflict content) ours = some content

abbrev pub is_write : Decision → Bool
is_write (write _) = true
is_write leave = false
is_write (conflict _) = false

abbrev pub is_conflict : Decision → Bool
is_conflict (conflict _) = true
is_conflict leave = false
is_conflict (write _) = false

-- Of one path: its content, and if it is reported as merged and as conflicted.
abbrev pub status : MergeState → Str → Option Str × Bool × Bool
status state path = (state.disk path, contains state.merged path, contains state.conflicted path)

abbrev pub step : Decision → Option Str × Bool × Bool → Option Str × Bool × Bool
step decision (content, is_merged, is_conflicted) =
    (after decision content, is_merged || is_write decision, is_conflicted || is_conflict decision)

carry_out_other :
    (file path : Str) (decision : Decision) (state : MergeState)
    → (path == file) ≡ false
    → status (carry_out file decision state) path ≡ status state path
unfolding carry_out
carry_out_other file path leave state other = refl
carry_out_other file path (write content) state other = rw contains-append (ground arith)
carry_out_other file path (conflict content) state other = rw contains-append (ground arith)

carry_out_same :
    (file : Str) (decision : Decision) (state : MergeState)
    → status (carry_out file decision state) file ≡ step decision (status state file)
unfolding carry_out
carry_out_same file leave state = ground arith
carry_out_same file (write content) state = rw contains-append (ground arith)
carry_out_same file (conflict content) state = rw contains-append (ground arith)

module _ (show : Str → Option Str) (merge_file : Str → Str → Str → Str × Bool) where
  -- What the merge decides on a path, from the content before: nothing outside the template.
  abbrev pub fate : List (Str × Str) → Str → Option Str → Option Str → Decision
  fate fallbacks path none ours = leave
  fate fallbacks path (some theirs) ours = decide show merge_file fallbacks path theirs ours

  step_leave : (s : Option Str × Bool × Bool) → step leave s ≡ s
  step_leave s = ground arith

  merge_files-status :
      (fallbacks template : List (Str × Str)) (state : MergeState) (path : Str)
      → IsKeyed template
      → status (merge_files show merge_file fallbacks template state) path
        ≡ step (fate fallbacks path (lookup path template) (state.disk path)) (status state path)
  unfolding merge_files
  merge_files-status fallbacks [] state path u =
      rw lookup-nil (sym (step_leave (status state path)))
  merge_files-status fallbacks ((file, theirs) ∷ template) state path (new, u) =
      let decision = decide show merge_file fallbacks file theirs (state.disk file) in
      let later = merge_files-status fallbacks template (carry_out file decision state) path u in
      elim (eq_cases path file) [
        | inl (test, same) ↦
            rw (lookup-cons, test, same)
              ((rw (same, new) at later)
                ∙ step_leave (status (carry_out file decision state) file)
                ∙ carry_out_same file decision state)
        | inr (test, other) ↦
            rw (lookup-cons, test)
              (later
                ∙ ap (λ s. step (fate fallbacks path (lookup path template) s.0) s)
                    (carry_out_other file path decision state test))
      ]

  -- What `tryThreeWayMerge` decides on a path.
  abbrev pub verdict : Paths → List (Str × Str) → Disk → Str → Decision
  verdict paths template disk path =
      fate (build_path_fallbacks paths []) path (lookup path template) (disk path)

  -- For a template with no path twice, each path ends as the decision taken on the content it had
  -- before the merge says, whatever else is in the template: it is reported as merged exactly if it
  -- was written without a conflict and as conflicted exactly if git ended in a conflict, and a path
  -- outside the template is as it was.
  pub try_three_way_merge-status :
      (paths : Paths) (template : List (Str × Str)) (disk : Disk) (path : Str)
      → IsKeyed template
      → status (try_three_way_merge show merge_file paths template disk) path ≡ (
        after (verdict paths template disk path) (disk path),
        is_write (verdict paths template disk path),
        is_conflict (verdict paths template disk path),
      )
  unfolding try_three_way_merge
  try_three_way_merge-status paths template disk path u =
      merge_files-status (build_path_fallbacks paths []) template
        (record { disk = disk; merged = []; conflicted = [] }) path u
