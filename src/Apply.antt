-- ===== src/Apply.antt =====
-- The three tiers of a template update: `applyTemplate`, `saveBaselineRef` and `getBaselineRef` of
-- cli/src/baseline.ts.
--
-- A run is a function from the repository to the repository and an outcome. The template's files
-- and git's answers are parameters: a step that can throw answers with an option or a Boolean.
-- Steps whose failure the source swallows (removing a worktree, deleting a branch, aborting a merge,
-- recording the baseline) leave things as they are where the tools say that they fail. A template
-- that throws half way leaves nothing behind.
pub mod Laws
mod Tests
use projx.Base.Text.{Str}
use projx.Merge.{Disk, Paths, MergeState, write_file, try_three_way_merge}
use projx.Base.{
  ℕ, zero, suc, ◌+◌, ◌-◌, ◌*◌, ◌/◌, ◌%◌, ◌^◌, ◌≤◌, ◌<◌, min, ◌≡◌, refl, sym, ap, ◌∙◌, ◌≢◌, ◌↔◌, ◌⊎◌,
  inl, inr, ite, Bool, true, false, not, ◌&&◌, ◌||◌, Option, none, some, some-ne-none, List, [],
  ◌∷◌, ◌++◌, map, arith, leb, ltb, if◌then◌else◌, Bool-cases, Option-cases, eq_cases, Eq, ◌==◌,
  ==_iff, contains, nat_eq, list_eq, option_eq, length, take, drop, any, all, filter, find,
  length-append, drop-append, take-append, take-append-drop, any-append, All, Any, All-append,
  dec_lt, ℕ_discrete,
}

pub record Repo : Type 0 where
  -- The work tree, the files of the last commit, and those of the commit that
  -- `refs/projx/baseline` names.
  pub disk : Disk
  pub head : Option Disk
  pub baseline : Option Disk
  -- The temporary worktree and branch of an update are there; git is in the middle of a merge.
  pub worktree : Bool
  pub branch : Bool
  pub merging : Bool

pub data MergeResult : Type 0 where
  clean : MergeResult
  merged : List Str → MergeResult
  conflicts : List Str → List Str → MergeResult

pub data Outcome : Type 0 where
  thrown : Outcome
  finished : MergeResult → Outcome

-- What the update asks of git and of the parts that write files.
pub record Tools : Type 0 where
  -- `writeTemplateToDir`: from the user's project and the target, the files to write.
  pub write_template : Disk → Disk → Option (List (Str × Str))
  -- `migrateComponentMarkers` and `writeManagedProjx` on the work tree, with whether they end without
  -- an error.
  pub migrate_markers : Disk → Disk × Bool
  pub write_managed : Disk → Disk × Bool
  pub add_worktree : Bool
  -- `git add` and `git commit` in the worktree.
  pub commit_template : List (Str × Str) → Bool
  -- `git merge` of the template's branch into the last commit: the result if it is clean.
  pub merge : Disk → List (Str × Str) → Option Disk
  -- A merge that is not clean is left under way.
  pub leaves_merge : Bool
  -- A worktree is removed, by git or by hand; a branch is deleted; a merge under way is aborted; the
  -- baseline is recorded.
  pub removes_worktree : Bool
  pub deletes_branch : Bool
  pub aborts_merge : Bool
  pub saves_baseline : Bool
  -- The commit that last changed `.projx`.
  pub last_apply : Option Disk
  pub merge_file : Str → Str → Str → Str × Bool
  -- `git add -A` stages something over the last commit, or throws; committing it does not fail.
  pub has_staged : Disk → Disk → Option Bool
  pub commit : Disk → Bool
  -- `git add .projx`
  pub add_config : Bool

abbrev pub empty_dir : Disk
empty_dir path = none

unfoldable pub write_all : List (Str × Str) → Disk → Disk
write_all [] disk = disk
write_all ((file, content) ∷ files) disk = write_all files (write_file file content disk)

-- What is left of something after it was to be removed.
abbrev pub leftover : Bool → Bool → Bool
leftover true there = false
leftover false there = there

abbrev pub remove_worktree : Tools → Repo → Repo
remove_worktree tools repo = record repo {
  worktree = leftover tools.removes_worktree repo.worktree;
}

abbrev pub delete_branch : Tools → Repo → Repo
delete_branch tools repo = record repo { branch = leftover tools.deletes_branch repo.branch }

abbrev pub cleanup_worktree : Tools → Repo → Repo
cleanup_worktree tools repo = record repo {
  worktree = leftover tools.removes_worktree repo.worktree;
  branch = leftover tools.deletes_branch repo.branch;
}

abbrev pub abort_merge : Tools → Repo → Repo
abort_merge tools repo = record repo { merging = leftover tools.aborts_merge repo.merging }

abbrev pub save_baseline_ref : Tools → Repo → Repo
save_baseline_ref tools repo = record repo {
  baseline = if tools.saves_baseline then repo.head else repo.baseline;
}

module _ (tools : Tools) (paths : Paths) where
  unfoldable pub get_baseline_ref : Repo → Option Disk
  get_baseline_ref repo = elim repo.baseline [ some files ↦ some files | none ↦ tools.last_apply ]

  -- What follows a step that may throw, by whether it did not.
  abbrev pub after_step : Repo → (Repo → Repo × Outcome) → Bool → Repo × Outcome
  after_step repo next true = next repo
  after_step repo next false = (cleanup_worktree tools repo, thrown)

  abbrev pub after_migration : Repo → (Repo → Repo × Outcome) → Repo × Outcome
  after_migration repo next =
      let (disk, ok) = tools.migrate_markers repo.disk in
      after_step (record repo { disk = disk }) next ok

  abbrev pub after_config : Repo → (Repo → Repo × Outcome) → Repo × Outcome
  after_config repo next =
      let (disk, ok) = tools.write_managed repo.disk in
      after_step (record repo { disk = disk }) next ok

  -- A template written straight into the project.
  abbrev pub write_over :
      Repo → (Repo → Repo × Outcome) → Option (List (Str × Str)) → Repo × Outcome
  write_over repo next none = (cleanup_worktree tools repo, thrown)
  write_over repo next (some files) = next (record repo { disk = write_all files repo.disk })

  -- Tier 3: no baseline is known.
  unfoldable pub direct_copy : Repo → Repo × Outcome
  direct_copy repo =
      write_over repo
        (λ repo'. after_migration repo' (λ repo''. (repo'', finished (conflicts [] []))))
        (tools.write_template repo.disk repo.disk)

  abbrev pub merge_result : List Str → MergeResult
  merge_result [] = clean
  merge_result (file ∷ files) = merged (file ∷ files)

  -- The commit of a merge without conflicts, by what there is to commit and if it succeeds.
  abbrev pub commit_merge : Repo → List Str → Option Bool → Bool → Repo × Outcome
  commit_merge repo files none _ = (cleanup_worktree tools repo, thrown)
  commit_merge repo files (some false) _ =
      (save_baseline_ref tools repo, finished (merge_result files))
  commit_merge repo files (some true) true = (
    save_baseline_ref tools (record repo { head = some repo.disk }),
    finished (merge_result files),
  )
  commit_merge repo files (some true) false = (cleanup_worktree tools repo, thrown)

  abbrev pub finish_merge : Repo → Disk → List Str → List Str → Repo × Outcome
  finish_merge repo head files [] = after_config repo (λ repo'.
      commit_merge repo' files (tools.has_staged head repo'.disk) (tools.commit repo'.disk))
  finish_merge repo head files (file ∷ conflicted) = after_config repo (λ repo'.
      after_step repo' (λ repo''. (repo'', finished (conflicts files (file ∷ conflicted))))
        tools.add_config)

  -- Tier 2, with the template's files.
  abbrev pub merge_by_file : Repo → Disk → Disk → Option (List (Str × Str)) → Repo × Outcome
  merge_by_file repo head base none = (cleanup_worktree tools repo, thrown)
  merge_by_file repo head base (some files) =
      let state = try_three_way_merge base tools.merge_file paths files repo.disk in
      after_migration (record repo { disk = state.disk })
        (λ repo'. finish_merge repo' head state.merged state.conflicted)

  abbrev pub without_merge : Repo → Disk → Option Disk → Repo × Outcome
  without_merge repo head none = direct_copy repo
  without_merge repo head (some base) =
      merge_by_file repo head base (tools.write_template repo.disk empty_dir)

  -- Tier 1, with what `git merge` answers.
  abbrev pub merge_branch : Repo → Disk → Option Disk → Repo × Outcome
  merge_branch repo head (some files) =
      let repo' = delete_branch tools (record repo { disk = files; head = some files }) in
      after_migration repo' (λ repo''. (save_baseline_ref tools repo'', finished clean))
  merge_branch repo head none =
      let repo' =
        delete_branch tools (abort_merge tools (record repo { merging = tools.leaves_merge })) in
      without_merge repo' head (get_baseline_ref repo')

  abbrev pub commit_branch : Repo → Disk → List (Str × Str) → Bool → Repo × Outcome
  commit_branch repo head files false = (cleanup_worktree tools repo, thrown)
  commit_branch repo head files true =
      merge_branch (remove_worktree tools repo) head (tools.merge head files)

  abbrev pub fill_worktree : Repo → Disk → Option (List (Str × Str)) → Repo × Outcome
  fill_worktree repo head none = (cleanup_worktree tools repo, thrown)
  fill_worktree repo head (some []) = (cleanup_worktree tools repo, finished clean)
  fill_worktree repo head (some (file ∷ files)) =
      commit_branch repo head (file ∷ files) (tools.commit_template (file ∷ files))

  abbrev pub start_worktree : Repo → Disk → Bool → Repo × Outcome
  start_worktree repo head false = (repo, thrown)
  start_worktree repo head true =
      fill_worktree (record repo { worktree = true; branch = true }) head
        (tools.write_template repo.disk empty_dir)

  abbrev pub write_first : Repo → Option (List (Str × Str)) → Repo × Outcome
  write_first repo none = (repo, thrown)
  write_first repo (some files) = (record repo { disk = write_all files repo.disk }, finished clean)

  abbrev pub by_head : Repo → Option Disk → Repo × Outcome
  by_head repo none = write_first repo (tools.write_template repo.disk repo.disk)
  by_head repo (some head) = start_worktree repo head tools.add_worktree

  unfoldable pub apply_template : Repo → Repo × Outcome
  apply_template repo = by_head repo repo.head
