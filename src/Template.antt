-- ===== src/Template.antt =====
-- The template's root files: `shouldWrite` and the writes of `writeTemplateToDir` in
-- cli/src/baseline.ts, and `copyStaticFiles` of cli/src/utils.ts.
--
-- What the generators print is a parameter. `real` is the user's project and `dest` the target;
-- where the two are one directory, no root file is written twice, so `real` before the writes
-- answers as it does between them.
pub mod Instance
pub mod Laws
mod Tests
use projx.Base.Text.{Str, codes}
use projx.Components.{
  Component, component_eq, fastapi, fastify, express, go, rust, laravel, vitejs, nextjs, infra,
  admin_panel,
}
use projx.Skip.{matches_skip}
use projx.Merge.{Disk, write_file}
use projx.Base.{
  ℕ, zero, suc, ◌+◌, ◌-◌, ◌*◌, ◌/◌, ◌%◌, ◌^◌, ◌≤◌, ◌<◌, min, ◌≡◌, refl, sym, ap, ◌∙◌, ◌≢◌, ◌↔◌, ◌⊎◌,
  inl, inr, ite, Bool, true, false, not, ◌&&◌, ◌||◌, Option, none, some, some-ne-none, List, [],
  ◌∷◌, ◌++◌, map, arith, leb, ltb, if◌then◌else◌, Bool-cases, Option-cases, eq_cases, Eq, ◌==◌,
  ==_iff, contains, nat_eq, list_eq, option_eq, length, take, drop, any, all, filter, find,
  length-append, drop-append, take-append, take-append-drop, any-append, All, Any, All-append,
  dec_lt, ℕ_discrete,
}

-- `existsSync`
abbrev pub exists : Disk → Str → Bool
exists disk path = elim (disk path) [ none ↦ false | some _ ↦ true ]

unfoldable pub should_write : List Str → Disk → Str → Bool
should_write root_skip real file =
    if not (matches_skip file root_skip) then true else not (exists real file)

-- The generators' texts.
pub record Generated : Type 0 where
  pub docker_compose : Str
  pub readme : Str
  pub pre_commit : Str
  pub ci_yml : Str
  pub setup_sh : Str
  pub rollback : Str
  pub codeowners : Str
  pub runbook : Str
  pub vscode_settings : Str

abbrev backend_components : List Component
backend_components = fastapi ∷ fastify ∷ express ∷ go ∷ rust ∷ laravel ∷ []

unfoldable pub has_services : List Component → Bool
has_services components =
    any (contains components) backend_components
    || contains components vitejs
    || contains components nextjs
    || contains components admin_panel

-- The files before the static ones: path, if the project's components ask for it, and text.
abbrev pub root_files : List Component → Generated → List (Str × Bool × Str)
root_files components generated =
    (codes "docker-compose.yml", has_services components, generated.docker_compose)
    ∷ (codes "README.md", true, generated.readme)
    ∷ (codes ".githooks/pre-commit", true, generated.pre_commit)
    ∷ (codes ".github/workflows/ci.yml", true, generated.ci_yml)
    ∷ (codes "scripts/setup.sh", true, generated.setup_sh)
    ∷ (codes "scripts/rollback.sh", contains components infra, generated.rollback)
    ∷ (codes ".github/CODEOWNERS", contains components infra, generated.codeowners)
    ∷ (codes "RUNBOOK.md", contains components infra, generated.runbook)
    ∷ []

abbrev pub late_root_files : Generated → List (Str × Bool × Str)
late_root_files generated = (codes ".vscode/settings.json", true, generated.vscode_settings) ∷ []

unfoldable pub write_root_files : List Str → Disk → List (Str × Bool × Str) → Disk → Disk
write_root_files root_skip real [] dest = dest
write_root_files root_skip real ((file, wanted, text) ∷ files) dest =
    write_root_files root_skip real files
      (if wanted && should_write root_skip real file then write_file file text dest else dest)

abbrev pub copy_over : Str → Option Str → Disk → Disk
copy_over file none dest = dest
copy_over file (some content) dest = write_file file content dest

-- The static files that are always copied.
abbrev pub statics : List Str
statics = codes ".editorconfig" ∷ codes ".vscode/extensions.json" ∷ []

unfoldable pub copy_statics : Disk → List Str → Disk → Disk
copy_statics repo [] dest = dest
copy_statics repo (file ∷ files) dest = copy_statics repo files (copy_over file (repo file) dest)

abbrev pub static_scripts : List Str
static_scripts =
    codes "scripts/projx-dirs.sh"
    ∷ codes "scripts/ci-local.sh"
    ∷ codes "scripts/ci-runner-gc.sh"
    ∷ codes "scripts/check-bundle-size.sh"
    ∷ codes "scripts/setup-docker.sh"
    ∷ codes "scripts/setup-ssl.sh"
    ∷ codes "scripts/style-check.py"
    ∷ codes "scripts/validate-nginx-config.sh"
    ∷ []

-- The scripts that the target lacks.
unfoldable pub copy_scripts : Disk → List Str → Disk → Disk
copy_scripts repo [] dest = dest
copy_scripts repo (file ∷ files) dest =
    copy_scripts repo files (if exists dest file then dest else copy_over file (repo file) dest)

unfoldable pub copy_static_files : Disk → Disk → Disk
copy_static_files repo dest = copy_scripts repo static_scripts (copy_statics repo statics dest)

-- `writeTemplateToDir` after the instances. The configuration is printed from the one in place.
unfoldable pub write_root :
    Disk → List Component → Generated → (Option Str → Str) → List Str → Disk → Disk → Disk
write_root repo components generated print_config root_skip real dest =
    let first = write_root_files root_skip real (root_files components generated) dest in
    let second = copy_static_files repo first in
    let third = write_root_files root_skip real (late_root_files generated) second in
    write_file (codes ".projx") (print_config (third (codes ".projx"))) third
