-- ===== src/Components/Packages.antt =====
-- Package managers: `pmCommands`, `detectPackageManager` and `detectPackageManagerFromComponents`
-- of cli/src/utils.ts. The file system is the test `exists`; paths are joined with a slash.
use projx.Base.Text.{Str, codes, is_truthy}
use projx.Components.{component_eq, Component, fastify, express, vitejs, nextjs, e2e}
use projx.Base.{
  ◌≡◌, refl, ◌∙◌, inl, inr, Bool, true, ◌&&◌, Option, none, some, List, [], ◌∷◌, ◌++◌, arith,
  if◌then◌else◌, Option-cases, contains, nat_eq, list_eq, option_eq, All,
}

pub data PackageManager : Type 0 where
  npm pnpm yarn bun : PackageManager

abbrev pub package_managers : List PackageManager
package_managers = npm ∷ pnpm ∷ yarn ∷ bun ∷ []

pub record PmCommands : Type 0 where
  pub name : PackageManager
  pub version : Str
  pub install : Str
  pub ci : Str
  pub run : Str
  pub exec : Str
  pub dlx : Str
  pub lockfile : Str
  pub prisma_exec : Str
  pub run_dev : Str
  pub audit : Str

abbrev pnpm_version : Str
pnpm_version =
    codes
      "11.5.2+sha512.71c631e382066efc25625d5cf029075de07b61b37f6e27350fbd84b1bda5864c8c1967adc280776b45c30a715c0359a3be08fef42d5bb09e2b99029979692916"

unfoldable pub pm_commands : PackageManager → PmCommands
pm_commands npm = record {
  name = npm;
  version = [];
  install = codes "npm install";
  ci = codes "npm ci";
  run = codes "npm run";
  exec = codes "npx";
  dlx = codes "npx";
  lockfile = codes "package-lock.json";
  prisma_exec = codes "npx prisma";
  run_dev = codes "npm run dev";
  audit = codes "npm audit --omit=dev";
}
pm_commands pnpm = record {
  name = pnpm;
  version = pnpm_version;
  install = codes "pnpm install";
  ci = codes "pnpm install --frozen-lockfile";
  run = codes "pnpm";
  exec = codes "pnpm exec";
  dlx = codes "pnpm dlx";
  lockfile = codes "pnpm-lock.yaml";
  prisma_exec = codes "pnpm prisma";
  run_dev = codes "pnpm dev";
  audit = codes "pnpm audit --prod";
}
pm_commands yarn = record {
  name = yarn;
  version = [];
  install = codes "yarn";
  ci = codes "yarn --frozen-lockfile";
  run = codes "yarn";
  exec = codes "yarn";
  dlx = codes "yarn dlx";
  lockfile = codes "yarn.lock";
  prisma_exec = codes "yarn prisma";
  run_dev = codes "yarn dev";
  audit = codes "yarn npm audit --environment production";
}
pm_commands bun = record {
  name = bun;
  version = [];
  install = codes "bun install";
  ci = codes "bun install --frozen-lockfile";
  run = codes "bun run";
  exec = codes "bunx";
  dlx = codes "bunx";
  lockfile = codes "bun.lockb";
  prisma_exec = codes "bunx prisma";
  run_dev = codes "bun run dev";
  audit = codes "bun audit --prod";
}

-- `join(dir, file)`, for parts that are normal already.
abbrev pub join_path : Str → Str → Str
join_path dir file = dir ++ (codes "/" ++ file)

abbrev js_components : List Component
js_components = fastify ∷ express ∷ vitejs ∷ nextjs ∷ e2e ∷ []

js_components_listed : All (λ c. contains js_components c ≡ true) js_components
unfolding component_eq
js_components_listed = (refl, (refl, (refl, (refl, (refl, tt)))))

module _ (exists : Str → Bool) where
  unfoldable pub detect_package_manager : Str → Option PackageManager
  detect_package_manager cwd =
      if exists (join_path cwd (codes "bun.lockb"))
      then some bun
      else if exists (join_path cwd (codes "pnpm-lock.yaml"))
      then some pnpm
      else if exists (join_path cwd (codes "yarn.lock"))
      then some yarn
      else if exists (join_path cwd (codes "package-lock.json"))
      then some npm
      else none

  -- One round of the loop: what a component's directory tells.
  detect_in : Str → Option Str → Option PackageManager
  unfolding detect_package_manager
  detect_in cwd none = none
  detect_in cwd (some dir) =
      if is_truthy dir && exists (join_path cwd dir)
      then detect_package_manager (join_path cwd dir)
      else none

  detect_loop : Str → (Component → Option Str) → List Component → Option PackageManager
  unfolding detect_in
  detect_loop cwd paths [] = detect_package_manager cwd
  detect_loop cwd paths (c ∷ cs) =
      let rest = detect_loop cwd paths cs in
      elim (detect_in cwd (paths c)) [ some pm ↦ some pm | none ↦ rest ]

  unfoldable pub detect_package_manager_from_components :
      Str → (Component → Option Str) → Option PackageManager
  unfolding detect_loop
  detect_package_manager_from_components cwd paths = detect_loop cwd paths js_components

  -- The directory holds the lock file that the manager's own commands read.
  abbrev pub HasLockfile : Str → PackageManager → Type 0
  HasLockfile dir pm = exists (join_path dir (pm_commands pm).lockfile) ≡ true

  detect-HasLockfile :
      (cwd : Str) (pm : PackageManager) → detect_package_manager cwd ≡ some pm → HasLockfile cwd pm
  unfolding detect_package_manager pm_commands
  detect-HasLockfile cwd npm e = ground arith
  detect-HasLockfile cwd pnpm e = ground arith
  detect-HasLockfile cwd yarn e = ground arith
  detect-HasLockfile cwd bun e = ground arith

  detect-eq-none :
      (cwd : Str) (pm : PackageManager) → detect_package_manager cwd ≡ none → ¬ HasLockfile cwd pm
  unfolding detect_package_manager pm_commands
  detect-eq-none cwd npm e = ground arith
  detect-eq-none cwd pnpm e = ground arith
  detect-eq-none cwd yarn e = ground arith
  detect-eq-none cwd bun e = ground arith

  -- Where a detected manager was found.
  pub data FoundIn (cwd : Str) (paths : Component → Option Str) (pm : PackageManager) : Type 0 where
    in_component :
        (c : Component) (dir : Str)
        → paths c ≡ some dir
        → contains js_components c ≡ true
        → exists (join_path cwd dir) ≡ true
        → HasLockfile (join_path cwd dir) pm
        → FoundIn cwd paths pm
    in_root : HasLockfile cwd pm → FoundIn cwd paths pm

  detect_in-FoundIn :
      (cwd : Str) (paths : Component → Option Str) (c : Component) (pm : PackageManager)
      → contains js_components c ≡ true
      → detect_in cwd (paths c) ≡ some pm
      → FoundIn cwd paths pm
  unfolding detect_in
  detect_in-FoundIn cwd paths c pm listed e = elim (Option-cases (paths c)) [
    | inl missing ↦ absurd (no_directory cwd pm (rw missing at e))
    | inr (dir, found) ↦
        let e' : detect_in cwd (some dir) ≡ some pm = rw found at e in
        in_component c dir found listed (ground arith)
          (detect-HasLockfile (join_path cwd dir) pm (ground arith))
  ]
    where
      no_directory : (cwd : Str) (pm : PackageManager) → detect_in cwd none ≡ some pm → ⊥
      no_directory cwd pm e = cc

  detect_loop-FoundIn :
      (cwd : Str) (paths : Component → Option Str) (cs : List Component) (pm : PackageManager)
      → All (λ c. contains js_components c ≡ true) cs
      → detect_loop cwd paths cs ≡ some pm
      → FoundIn cwd paths pm
  unfolding detect_loop
  detect_loop-FoundIn cwd paths [] pm listed e = in_root (detect-HasLockfile cwd pm e)
  detect_loop-FoundIn cwd paths (c ∷ cs) pm (here, listed) e =
      elim (Option-cases (detect_in cwd (paths c))) [
        | inl missed ↦ detect_loop-FoundIn cwd paths cs pm listed (rw (missed, detect_loop) at e)
        | inr (q, found) ↦
            let same : some q ≡ some pm = rw (found, detect_loop) at e in
            detect_in-FoundIn cwd paths c pm here (found ∙ same)
      ]

  detect_loop-eq-none :
      (cwd : Str) (paths : Component → Option Str) (cs : List Component) (c : Component)
      → contains cs c ≡ true
      → detect_loop cwd paths cs ≡ none
      → detect_in cwd (paths c) ≡ none
  unfolding detect_loop
  detect_loop-eq-none cwd paths [] c listed e = cc
  detect_loop-eq-none cwd paths (b ∷ cs) c listed e =
      ground (arith, detect_loop-eq-none cwd paths cs c)

  detect_loop-root :
      (cwd : Str) (paths : Component → Option Str) (cs : List Component)
      → detect_loop cwd paths cs ≡ none
      → detect_package_manager cwd ≡ none
  unfolding detect_loop
  detect_loop-root cwd paths [] e = e
  detect_loop-root cwd paths (b ∷ cs) e = ground (arith, detect_loop-root cwd paths cs)

  -- A detected package manager is one whose lock file lies in the existing directory of a
  -- JavaScript component, or in the root.
  pub detect_from_components-FoundIn :
      (cwd : Str) (paths : Component → Option Str) (pm : PackageManager)
      → detect_package_manager_from_components cwd paths ≡ some pm
      → FoundIn cwd paths pm
  unfolding detect_package_manager_from_components
  detect_from_components-FoundIn cwd paths pm e =
      detect_loop-FoundIn cwd paths js_components pm js_components_listed e

  -- If none is detected, then neither the root nor the existing directory of a JavaScript
  -- component holds the lock file of any manager.
  pub detect_from_components-eq-none :
      (cwd : Str) (paths : Component → Option Str) (c : Component) (dir : Str) (pm : PackageManager)
      → detect_package_manager_from_components cwd paths ≡ none
      → contains js_components c ≡ true
      → paths c ≡ some dir
      → is_truthy dir ≡ true
      → exists (join_path cwd dir) ≡ true
      → (¬ HasLockfile cwd pm) × (¬ HasLockfile (join_path cwd dir) pm)
  unfolding detect_package_manager_from_components detect_in
  detect_from_components-eq-none cwd paths c dir pm e listed found named there =
      let inside : detect_in cwd (some dir) ≡ none =
        rw found at (detect_loop-eq-none cwd paths js_components c listed e) in
      (
        detect-eq-none cwd pm (detect_loop-root cwd paths js_components e),
        detect-eq-none (join_path cwd dir) pm (ground arith),
      )
