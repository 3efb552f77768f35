-- ===== src/Apply/Laws.antt =====
-- What an update leaves of the repository: `applyTemplate` of cli/src/baseline.ts.
use projx.Base.Text.{Str}
use projx.Merge.{Disk, Paths, try_three_way_merge}
use projx.Apply.{
  Repo, clean, merged, conflicts, Outcome, thrown, finished, Tools, empty_dir, get_baseline_ref,
  direct_copy, write_over, merge_result, commit_merge, finish_merge, merge_by_file, without_merge,
  merge_branch, commit_branch, fill_worktree, start_worktree, write_first, by_head, apply_template,
  cleanup_worktree, remove_worktree, after_step, after_migration, after_config, save_baseline_ref,
  delete_branch, abort_merge, write_all,
}
use projx.Base.{
  ◌≡◌, refl, ◌⊎◌, inl, inr, Bool, true, false, Option, none, some, List, [], ◌∷◌, nat_eq, list_eq,
  option_eq,
}

-- No temporary worktree, no temporary branch, no merge under way.
abbrev pub IsTidy : Repo → Type 0
IsTidy repo = (repo.worktree ≡ false) × (repo.branch ≡ false) × (repo.merging ≡ false)

-- The steps that clean up, and that which records the baseline, do not fail.
pub record IsAble (tools : Tools) : Type 0 where
  pub removes : tools.removes_worktree ≡ true
  pub deletes : tools.deletes_branch ≡ true
  pub aborts : tools.aborts_merge ≡ true
  pub saves : tools.saves_baseline ≡ true

abbrev pub HasHistory : Repo → Repo → Type 0
HasHistory old new = (new.head ≡ old.head) × (new.baseline ≡ old.baseline)

module _ (tools : Tools) where
  -- The last commit is that of before, or what a clean `git merge` made.
  abbrev pub HasHead : Repo → Repo → Type 0
  HasHead old new =
      (new.head ≡ old.head)
      ⊎ ((head : Disk) × (template : List (Str × Str)) × (files : Disk) × (tools.merge head template
            ≡ some files)
          × (new.head ≡ some files))

  -- What an outcome says of the commits: a run that throws keeps the baseline and has committed at
  -- most a clean `git merge`; one that ends in conflicts commits nothing and keeps the baseline; one
  -- that merges moves the baseline to the last commit; a clean one does one or the other.
  abbrev pub IsRecorded : Repo → Repo → Outcome → Type 0
  IsRecorded old new thrown = (new.baseline ≡ old.baseline) × HasHead old new
  IsRecorded old new (finished (conflicts _ _)) = HasHistory old new
  IsRecorded old new (finished (merged _)) = new.baseline ≡ new.head
  IsRecorded old new (finished clean) = HasHistory old new ⊎ (new.baseline ≡ new.head)

  abbrev IsGood : Repo → Repo × Outcome → Type 0
  IsGood old (new, outcome) = IsTidy new × IsRecorded old new outcome

  module _ (paths : Paths) (able : IsAble tools) (old : Repo) where
    -- Before the commit of an update, and after that of `git merge`.
    abbrev IsOpen : Repo → Type 0
    IsOpen repo = IsTidy repo × HasHistory old repo

    abbrev IsKept : Repo → Type 0
    IsKept repo = (repo.merging ≡ false) × (repo.baseline ≡ old.baseline) × HasHead old repo

    open-IsKept : (repo : Repo) → IsOpen repo → IsKept repo
    open-IsKept repo ((_, _, quiet), (head, baseline)) = (quiet, baseline, inl head)

    threw-IsGood : (repo : Repo) → IsKept repo → IsGood old (cleanup_worktree tools repo, thrown)
    threw-IsGood repo (quiet, baseline, head) =
        rw (able.removes, able.deletes) ((refl, refl, quiet), (baseline, head))

    after_step-IsGood :
        (repo : Repo) (next : Repo → Repo × Outcome) (ok : Bool)
        → IsKept repo
        → IsGood old (next repo)
        → IsGood old (after_step tools paths repo next ok)
    after_step-IsGood repo next true kept good = good
    after_step-IsGood repo next false kept good = threw-IsGood repo kept

    after_migration-IsGood :
        (repo : Repo) (next : Repo → Repo × Outcome)
        → IsKept repo
        → ((disk : Disk) → IsGood old (next (record repo { disk = disk })))
        → IsGood old (after_migration tools paths repo next)
    after_migration-IsGood repo next kept good =
        after_step-IsGood (record repo { disk = (tools.migrate_markers repo.disk).0 }) next
          (tools.migrate_markers repo.disk).1 kept (good (tools.migrate_markers repo.disk).0)

    after_config-IsGood :
        (repo : Repo) (next : Repo → Repo × Outcome)
        → IsKept repo
        → ((disk : Disk) → IsGood old (next (record repo { disk = disk })))
        → IsGood old (after_config tools paths repo next)
    after_config-IsGood repo next kept good =
        after_step-IsGood (record repo { disk = (tools.write_managed repo.disk).0 }) next
          (tools.write_managed repo.disk).1 kept (good (tools.write_managed repo.disk).0)

    saved_result :
        (repo : Repo) (files : List Str)
        → IsTidy repo
        → IsGood old (save_baseline_ref tools repo, finished (merge_result tools paths files))
    saved_result repo [] tidy = rw (able.saves) (tidy, inr refl)
    saved_result repo (_ ∷ _) tidy = rw (able.saves) (tidy, refl)

    commit_merge-IsGood :
        (repo : Repo) (files : List Str) (staged : Option Bool) (ok : Bool)
        → IsOpen repo
        → IsGood old (commit_merge tools paths repo files staged ok)
    commit_merge-IsGood repo files none ok h = threw-IsGood repo (open-IsKept repo h)
    commit_merge-IsGood repo files (some false) ok (tidy, same) = saved_result repo files tidy
    commit_merge-IsGood repo files (some true) true (tidy, same) =
        saved_result (record repo { head = some repo.disk }) files tidy
    commit_merge-IsGood repo files (some true) false h = threw-IsGood repo (open-IsKept repo h)

    finish_merge-IsGood :
        (repo : Repo) (head : Disk) (files conflicted : List Str)
        → IsOpen repo
        → IsGood old (finish_merge tools paths repo head files conflicted)
    finish_merge-IsGood repo head files [] h =
        after_config-IsGood repo
          (λ repo'.
            commit_merge tools paths repo' files (tools.has_staged head repo'.disk)
              (tools.commit repo'.disk))
          (open-IsKept repo h)
          (λ disk.
            commit_merge-IsGood (record repo { disk = disk }) files (tools.has_staged head disk)
              (tools.commit disk) h)
    finish_merge-IsGood repo head files (file ∷ conflicted) h =
        after_config-IsGood repo
          (λ repo'.
            after_step tools paths repo'
              (λ repo''. (repo'', finished (conflicts files (file ∷ conflicted)))) tools.add_config)
          (open-IsKept repo h)
          (λ disk.
            after_step-IsGood (record repo { disk = disk })
              (λ repo'. (repo', finished (conflicts files (file ∷ conflicted)))) tools.add_config
              (open-IsKept repo h) h)

    direct_copy-IsGood : (repo : Repo) → IsOpen repo → IsGood old (direct_copy tools paths repo)
    unfolding direct_copy
    direct_copy-IsGood repo h =
        elim (tools.write_template repo.disk repo.disk)
          as (λ files. IsGood old (
            write_over tools paths repo
              (λ repo'.
                after_migration tools paths repo' (λ repo''. (repo'', finished (conflicts [] []))))
              files)) [
                | none ↦ threw-IsGood repo (open-IsKept repo h)
                | some files ↦
                    after_migration-IsGood (record repo { disk = write_all files repo.disk })
                      (λ repo'. (repo', finished (conflicts [] []))) (open-IsKept repo h)
                      (λ disk. h)
              ]

    merge_by_file-IsGood :
        (repo : Repo) (head base : Disk) (files : Option (List (Str × Str)))
        → IsOpen repo
        → IsGood old (merge_by_file tools paths repo head base files)
    merge_by_file-IsGood repo head base none h = threw-IsGood repo (open-IsKept repo h)
    merge_by_file-IsGood repo head base (some files) h =
        let state = try_three_way_merge base tools.merge_file paths files repo.disk in
        after_migration-IsGood (record repo { disk = state.disk })
          (λ repo'. finish_merge tools paths repo' head state.merged state.conflicted)
          (open-IsKept repo h)
          (λ disk.
            finish_merge-IsGood (record repo { disk = disk }) head state.merged state.conflicted h)

    without_merge-IsGood :
        (repo : Repo) (head : Disk) (base : Option Disk)
        → IsOpen repo
        → IsGood old (without_merge tools paths repo head base)
    without_merge-IsGood repo head none h = direct_copy-IsGood repo h
    without_merge-IsGood repo head (some base) h =
        merge_by_file-IsGood repo head base (tools.write_template repo.disk empty_dir) h

    merge_branch-IsGood :
        (repo : Repo) (head : Disk) (template : List (Str × Str)) (answer : Option Disk)
        → tools.merge head template ≡ answer
        → repo.worktree ≡ false
        → repo.merging ≡ false
        → HasHistory old repo
        → IsGood old (merge_branch tools paths repo head answer)
    merge_branch-IsGood repo head template (some files) answered gone quiet (_, baseline) =
        let repo' = delete_branch tools (record repo { disk = files; head = some files }) in
        after_migration-IsGood repo' (λ repo''. (save_baseline_ref tools repo'', finished clean))
          (quiet, baseline, inr (head, template, files, answered, refl))
          (λ disk.
            saved_result (record repo' { disk = disk }) [] (gone, rw (able.deletes) refl, quiet))
    merge_branch-IsGood repo head template none answered gone quiet same =
        let repo' =
          delete_branch tools (abort_merge tools (record repo { merging = tools.leaves_merge })) in
        without_merge-IsGood repo' head (get_baseline_ref tools paths repo')
          ((gone, rw (able.deletes) refl, rw (able.aborts) refl), same)

    commit_branch-IsGood :
        (repo : Repo) (head : Disk) (files : List (Str × Str)) (ok : Bool)
        → repo.merging ≡ false
        → HasHistory old repo
        → IsGood old (commit_branch tools paths repo head files ok)
    commit_branch-IsGood repo head files false quiet (same, baseline) =
        threw-IsGood repo (quiet, baseline, inl same)
    commit_branch-IsGood repo head files true quiet same =
        merge_branch-IsGood (remove_worktree tools repo) head files (tools.merge head files) refl
          (rw (able.removes) refl) quiet same

    fill_worktree-IsGood :
        (repo : Repo) (head : Disk) (files : Option (List (Str × Str)))
        → repo.merging ≡ false
        → HasHistory old repo
        → IsGood old (fill_worktree tools paths repo head files)
    fill_worktree-IsGood repo head none quiet (same, baseline) =
        threw-IsGood repo (quiet, baseline, inl same)
    fill_worktree-IsGood repo head (some []) quiet same =
        rw (able.removes, able.deletes) ((refl, refl, quiet), inl same)
    fill_worktree-IsGood repo head (some (file ∷ files)) quiet same =
        commit_branch-IsGood repo head (file ∷ files) (tools.commit_template (file ∷ files)) quiet
          same

    start_worktree-IsGood :
        (head : Disk) (ok : Bool) → IsTidy old → IsGood old (start_worktree tools paths old head ok)
    start_worktree-IsGood head false tidy = (tidy, (refl, inl refl))
    start_worktree-IsGood head true (_, _, quiet) =
        fill_worktree-IsGood (record old { worktree = true; branch = true }) head
          (tools.write_template old.disk empty_dir) quiet (refl, refl)

    write_first-IsGood :
        (files : Option (List (Str × Str)))
        → IsTidy old
        → IsGood old (write_first tools paths old files)
    write_first-IsGood none tidy = (tidy, (refl, inl refl))
    write_first-IsGood (some files) tidy = (tidy, inl (refl, refl))

    by_head-IsGood : (head : Option Disk) → IsTidy old → IsGood old (by_head tools paths old head)
    by_head-IsGood none tidy = write_first-IsGood (tools.write_template old.disk old.disk) tidy
    by_head-IsGood (some head) tidy = start_worktree-IsGood head tools.add_worktree tidy

-- An update of a project without leftovers, where git does not fail to remove a worktree, to delete a
-- branch, to abort a merge or to record the baseline, and whatever else fails or throws at any other
-- step: it leaves no worktree, branch or half merge of its own, also when it throws. A run that
-- throws has not moved the baseline, and has committed nothing but what a clean `git merge` made, as
-- it does where the markers cannot be rewritten after it; one that reports conflicts has committed
-- nothing and not moved the baseline; one that reports merged files has the baseline at the last
-- commit; and a clean one does one of the last two.
pub apply_template-IsGood :
    (tools : Tools) (paths : Paths) (old : Repo)
    → IsAble tools
    → IsTidy old
    → let run = apply_template tools paths old in IsTidy run.0 × IsRecorded tools old run.0 run.1
unfolding apply_template
apply_template-IsGood tools paths old able tidy = by_head-IsGood tools paths able old old.head tidy
