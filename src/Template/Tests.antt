-- ===== src/Template/Tests.antt =====
-- Writing the template into a small project.
use projx.Base.Text.{Str, codes, split, split_from, starts_with, ends_with, includes}
use projx.Base.Sets.{lookup, add_all, dedup}
use projx.Components.{component_eq, express, infra}
use projx.Components.Orm.{OrmProvider, drizzle, orm_eq, resolve_instance_orm}
use projx.Apply.{write_all}
use projx.Project.{ComponentMarkerData}
use projx.Skip.{matches_skip, pattern_matches}
use projx.Merge.{Disk}
use projx.Template.{
  exists, Generated, should_write, statics, static_scripts, has_services, write_root_files,
  copy_statics, copy_scripts, copy_static_files, write_root,
}
use projx.Template.Laws.{write_root_pinned}
use projx.Template.Instance.{
  is_copied, is_copied_name, copy_component, last_name, target_rel, is_removed,
  remove_skipped_files, skip_patterns, marker_skip, Addon, remove_all, apply_orm_addon, Finish,
  write_one_instance,
}
use projx.Template.Instance.Laws.{pinned_file_not_copied}
use projx.Base.{
  ◌≡◌, refl, ◌≢◌, true, false, Option, none, some, List, [], ◌∷◌, ◌++◌, if◌then◌else◌, ◌==◌,
  contains, nat_eq, list_eq, option_eq,
}

abbrev generated : Generated
generated = record {
  docker_compose = codes "compose";
  readme = codes "readme";
  pre_commit = codes "hook";
  ci_yml = codes "ci";
  setup_sh = codes "setup";
  rollback = codes "rollback";
  codeowners = codes "owners";
  runbook = codes "runbook";
  vscode_settings = codes "settings";
}

abbrev repo : Disk
repo path =
    lookup path
      ((codes ".editorconfig", codes "root") ∷ (codes "scripts/ci-local.sh", codes "ci") ∷ [])

abbrev user_files : Disk
user_files path = lookup path (
    (codes "README.md", codes "mine")
    ∷ (codes ".editorconfig", codes "mine")
    ∷ (codes "Dockerfile", codes "mine")
    ∷ (codes "src/app.ts", codes "mine")
    ∷ [])

abbrev new_dir : Disk
new_dir path = none

abbrev root_skip : List Str
root_skip = codes "*.md" ∷ codes ".editorconfig" ∷ []

abbrev print_config : Option Str → Str
print_config old = codes "config"

abbrev written : Disk
written = write_root repo (express ∷ infra ∷ []) generated print_config root_skip user_files new_dir

steps : Unit {0}
unfolding write_root write_root_files copy_static_files copy_statics copy_scripts should_write
    matches_skip pattern_matches has_services lookup list_eq nat_eq component_eq starts_with
    ends_with includes
steps = tt

written_test :
    (written (codes "README.md") ≡ none)
    × (written (codes "docker-compose.yml") ≡ some (codes "compose"))
    × (written (codes "RUNBOOK.md") ≡ some (codes "runbook"))
    × (written (codes "scripts/ci-local.sh") ≡ some (codes "ci"))
    × (written (codes ".projx") ≡ some (codes "config"))
unfolding steps
written_test = (refl, refl, refl, refl, refl)

readme_pinned : matches_skip (codes "README.md") root_skip ≡ true
unfolding steps
readme_pinned = refl

readme_there : exists user_files (codes "README.md") ≡ true
unfolding steps
readme_there = refl

readme_dynamic : contains (statics ++ static_scripts) (codes "README.md") ≡ false
unfolding steps
readme_dynamic = refl

readme_not_config : codes "README.md" ≢ codes ".projx"
readme_not_config same = cc

editorconfig_found : repo (codes ".editorconfig") ≡ some (codes "root")
unfolding steps
editorconfig_found = refl

write_root_pinned_example : written (codes "README.md") ≡ none
write_root_pinned_example =
    write_root_pinned repo (express ∷ infra ∷ []) generated print_config root_skip user_files
      new_dir (codes "README.md") readme_pinned readme_there readme_dynamic readme_not_config

abbrev component_files : List (Str × Str)
component_files =
    (codes "src/app.ts.ejs", codes "app")
    ∷ (codes "Dockerfile", codes "docker")
    ∷ (codes "node_modules/a", codes "a")
    ∷ []

abbrev marker : Option ComponentMarkerData
marker = some (record {
  component = express;
  skip = codes "src/**" ∷ codes "Dockerfile" ∷ [];
  features = none;
  orm = none;
})

offered : List (Str × Str)
unfolding remove_skipped_files is_removed copy_component is_copied is_copied_name skip_patterns
    dedup add_all last_name target_rel split split_from steps
offered =
    remove_skipped_files (skip_patterns express marker false []) user_files
      (copy_component component_files)

offered_test : offered ≡ []
unfolding offered
offered_test = refl

app_pinned : contains (marker_skip marker) (codes "src/**") ≡ true
unfolding steps
app_pinned = refl

app_matched : pattern_matches (target_rel (codes "src/app.ts.ejs")) (codes "src/**") ≡ true
unfolding steps target_rel
app_matched = refl

app_there : exists user_files (target_rel (codes "src/app.ts.ejs")) ≡ true
unfolding steps target_rel
app_there = refl

app_plain : (last_name (split 47 (codes "src/app.ts.ejs")) == codes ".projx-component") ≡ false
unfolding steps last_name split split_from
app_plain = refl

pinned_file_not_copied_example :
    lookup (codes "src/app.ts.ejs") (
      remove_skipped_files
        (skip_patterns express marker false [])
        user_files
        (copy_component component_files))
    ≡ none
pinned_file_not_copied_example =
    pinned_file_not_copied express marker false [] user_files component_files
      (codes "src/app.ts.ejs") (codes "src/**") app_pinned app_matched app_there app_plain

abbrev addon : Addon
addon = record {
  frameworks = codes "express" ∷ [];
  remove_from_base = codes "prisma" ∷ [];
  override_package = none;
  override_gomod = none;
  shared = (codes "drizzle.config.ts", codes "d") ∷ [];
  framework = [];
  dockerfile = codes "FROM base";
}

abbrev addon_of : OrmProvider → Option Addon
addon_of orm = if orm == drizzle then some addon else none

abbrev finish : Finish
finish = record {
  render_ejs = λ disk. disk;
  write_marker = λ skip orm disk. disk;
  substitute_names = λ disk. disk;
  stamp_package_manager = λ disk. disk;
}

abbrev written_instance : Option Disk
written_instance =
    write_one_instance addon_of finish
      (record {
        component = express;
        own_orm = some drizzle;
        override_orm = none;
        global_orm = none;
        base_skip = [];
        apply_defaults = false;
      })
      marker component_files user_files new_dir

instance_steps : Unit {0}
unfolding write_one_instance apply_orm_addon remove_all write_all resolve_instance_orm orm_eq
    offered
instance_steps = tt

addon_known : addon_of drizzle ≡ some addon
unfolding orm_eq
addon_known = refl

written_out : (out : Disk) × (written_instance ≡ some out)
unfolding instance_steps
written_out = (_, refl)
