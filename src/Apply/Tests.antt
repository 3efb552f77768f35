-- ===== src/Apply/Tests.antt =====
-- Updates of a small project, one for each tier.
use projx.Base.Text.{Str, codes, ends_with, index_of}
use projx.Base.Sets.{lookup, insert}
use projx.Components.{fastify}
use projx.Merge.{
  Disk, Paths, try_three_way_merge, merge_files, build_path_fallbacks, carry_out, decide,
  decide_present, is_marker, lookup_base_content, show_fallback, show_canonical,
}
use projx.Apply.{
  thrown, Repo, merged, conflicts, finished, Tools, write_all, get_baseline_ref, direct_copy,
  apply_template,
}
use projx.Apply.Laws.{IsTidy, IsRecorded, apply_template-IsGood}
use projx.Base.{◌≡◌, refl, true, false, Option, none, some, [], ◌∷◌, nat_eq, list_eq, option_eq}

abbrev paths : Paths
paths = (fastify, codes "api") ∷ []

abbrev first_disk : Disk
first_disk path = lookup path ((codes "a", codes "a1") ∷ (codes "b", codes "mine") ∷ [])

-- Git cannot merge the branch; both files of the template are new.
abbrev tools : Tools
tools = record {
  write_template = λ real target. some ((codes "a", codes "a2") ∷ (codes "b", codes "b2") ∷ []);
  migrate_markers = λ disk. (disk, true);
  write_managed = λ disk. (disk, true);
  add_worktree = true;
  commit_template = λ files. true;
  merge = λ head files. none;
  last_apply = none;
  merge_file = λ ours base theirs. (ours, false);
  has_staged = λ head disk. some true;
  commit = λ disk. true;
  leaves_merge = true;
  removes_worktree = true;
  deletes_branch = true;
  aborts_merge = true;
  saves_baseline = true;
  add_config = true;
}

-- The same, with a git that takes the template's side.
abbrev taking_theirs : Tools
taking_theirs = record tools { merge_file = λ ours base theirs. (theirs, true) }

abbrev repo : Option Disk → Repo
repo baseline = record {
  disk = first_disk;
  head = some first_disk;
  baseline = baseline;
  worktree = false;
  branch = false;
  merging = false;
}

abbrev old_template : Disk
old_template path = lookup path ((codes "a", codes "a1") ∷ (codes "b", codes "b1") ∷ [])

steps : Unit {0}
unfolding apply_template direct_copy get_baseline_ref write_all try_three_way_merge merge_files
    build_path_fallbacks carry_out decide decide_present is_marker lookup_base_content show_fallback
    show_canonical lookup insert list_eq nat_eq ends_with index_of
steps = tt

conflict_test :
    (apply_template tools paths (repo (some old_template))).1
    ≡ finished (conflicts (codes "a" ∷ []) (codes "b" ∷ []))
unfolding steps
conflict_test = refl

merge_test :
    (apply_template taking_theirs paths (repo (some old_template))).1
    ≡ finished (merged (codes "a" ∷ codes "b" ∷ []))
unfolding steps
merge_test = refl

copy_test : (apply_template tools paths (repo none)).1 ≡ finished (conflicts [] [])
unfolding steps
copy_test = refl

-- A clean `git merge` whose markers cannot be rewritten throws after its commit.
abbrev failing_markers : Tools
failing_markers = record tools {
  merge = λ head files. some old_template;
  migrate_markers = λ disk. (disk, false);
}

abbrev head_at : Option Disk → Option (Option Str)
head_at none = none
head_at (some files) = some (files (codes "b"))

committed_test :
    let run = apply_template failing_markers paths (repo (some old_template)) in
    (run.1 ≡ thrown) × (head_at run.0.head ≡ some (some (codes "b1")))
unfolding steps
committed_test = (refl, refl)

apply_template-IsGood_example :
    let run = apply_template failing_markers paths (repo (some old_template)) in
    IsTidy run.0 × IsRecorded failing_markers (repo (some old_template)) run.0 run.1
apply_template-IsGood_example =
    apply_template-IsGood failing_markers paths (repo (some old_template))
      (record { removes = refl; deletes = refl; aborts = refl; saves = refl }) (refl, refl, refl)
