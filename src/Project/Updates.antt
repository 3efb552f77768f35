-- ===== src/Project/Updates.antt =====
-- The configuration file across template updates: `writeManagedProjx` of cli/src/baseline.ts and the
-- package manager that cli/src/update.ts records before it.
use projx.Base.Text.{Str, is_truthy}
use projx.Project.{
  Config, ConfigFile, valid, read_projx_config, write_projx_config, set_if_unset, truthy_or_none,
  write_managed_projx, list_or_nil, is_unset,
}
use projx.Base.{◌≡◌, refl, Bool, true, ◌||◌, Option, none, some, arith, nat_eq, list_eq, option_eq}
use projx.Components.Packages.{PackageManager, npm, pnpm, yarn, bun}
use projx.Base.Text.{codes}
use projx.Base.{◌⊎◌, inl, inr, ap, Option-cases, eq_cases, Bool-cases, ◌==◌, if◌then◌else◌, [], ◌∷◌}

abbrev pub package_manager_name : PackageManager → Str
package_manager_name npm = codes "npm"
package_manager_name pnpm = codes "pnpm"
package_manager_name yarn = codes "yarn"
package_manager_name bun = codes "bun"

-- `update` writes the package manager of a lockfile over another one that is recorded.
unfoldable pub record_detected : Str → Option PackageManager → Config → ConfigFile
record_detected today none c = valid c
record_detected today (some detected) c =
    if c.package_manager == some (package_manager_name detected)
    then valid c
    else write_projx_config today
        (record c { package_manager = some (package_manager_name detected) })

-- `detectedPm ?? recordedPm ?? 'npm'`
unfoldable pub update_package_manager : Option PackageManager → Option Str → Str
update_package_manager (some detected) recorded = package_manager_name detected
update_package_manager none (some recorded) = recorded
update_package_manager none none = codes "npm"

-- The configuration that `update` writes.
unfoldable pub update_config :
    Str → Str → Option PackageManager → Option Str → Bool → Config → ConfigFile
update_config today version detected orm apply_defaults c =
    write_managed_projx today version (some (update_package_manager detected c.package_manager)) orm
      apply_defaults (record_detected today detected c)

set_if_unset_twice :
    (new old : Option Str) → set_if_unset new (set_if_unset new old) ≡ set_if_unset new old
unfolding set_if_unset
set_if_unset_twice none old = refl
set_if_unset_twice (some s) old = ground arith

-- Updating the configuration twice on a day, with the same arguments, is the same as once.
pub write_managed_projx_twice :
    (today version : Str) (pm orm : Option Str) (apply_defaults : Bool) (file : ConfigFile)
    → let once = write_managed_projx today version pm orm apply_defaults file in
      write_managed_projx today version pm orm apply_defaults once ≡ once
unfolding write_managed_projx write_projx_config read_projx_config
write_managed_projx_twice today version pm orm apply_defaults file = ground (
  arith,
  set_if_unset_twice (truthy_or_none pm) (read_projx_config file).package_manager,
  set_if_unset_twice orm (read_projx_config file).orm,
)

-- A setting across a write: one that was chosen stays, one that is unset is given or left.
pub data Recorded (given : Option Str) : Option Str → Option Str → Type 0 where
  kept : {chosen : Str} → is_truthy chosen ≡ true → Recorded given (some chosen) (some chosen)
  filled :
      {old : Option Str} {new : Str}
      → is_unset old ≡ true
      → given ≡ some new
      → Recorded given old (some new)
  left : {old : Option Str} → is_unset old ≡ true → given ≡ none → Recorded given old old

set_if_unset-Recorded : (given old : Option Str) → Recorded given old (set_if_unset given old)
unfolding set_if_unset
set_if_unset-Recorded none none = left refl refl
set_if_unset-Recorded none (some []) = left refl refl
set_if_unset-Recorded none (some (c ∷ s)) = kept refl
set_if_unset-Recorded (some new) none = filled refl refl
set_if_unset-Recorded (some new) (some []) = filled refl refl
set_if_unset-Recorded (some new) (some (c ∷ s)) = kept refl

-- The package manager after an update: that of a lockfile, else the recorded one, else npm.
pub data Managed : Option PackageManager → Option Str → Option Str → Type 0 where
  of_lockfile :
      {detected : PackageManager} {old : Option Str}
      → Managed (some detected) old (some (package_manager_name detected))
  recorded : {old : Str} → Managed none (some old) (some old)
  by_default : Managed none none (some (codes "npm"))

-- A date of creation, or else today.
abbrev dated : Str → Option Str → Option Str
dated today none = some today
dated today (some day) = some day

dated_twice : (today : Str) (day : Option Str) → dated today (dated today day) ≡ dated today day
dated_twice today none = refl
dated_twice today (some day) = refl

dated_cases :
    (today : Str) (day : Option Str)
    → (dated today day ≡ day) ⊎ ((day ≡ none) × (dated today day ≡ some today))
dated_cases today none = inr (refl, refl)
dated_cases today (some day) = inl refl

-- What the first write leaves: all but the package manager, and the date of creation.
record_detected_lem :
    (today : Str) (detected : Option PackageManager) (c : Config)
    → let read = read_projx_config (record_detected today detected c) in
      (read.orm ≡ c.orm)
      × (read.defaults_applied ≡ c.defaults_applied)
      × (list_or_nil read.skip ≡ list_or_nil c.skip)
      × (dated today read.created_at ≡ dated today c.created_at)
unfolding record_detected read_projx_config write_projx_config
record_detected_lem today none c = (refl, refl, refl, refl)
record_detected_lem today (some d) c =
    elim (Bool-cases (c.package_manager == some (package_manager_name d))) [
      | inl same ↦ rw (same) (refl, refl, refl, refl)
      | inr other ↦ rw (other) (refl, refl, refl, dated_twice today c.created_at)
    ]

name_stays :
    (d : PackageManager) (given : Option Str)
    → set_if_unset given (some (package_manager_name d)) ≡ some (package_manager_name d)
unfolding set_if_unset
name_stays npm none = refl
name_stays npm (some given) = refl
name_stays pnpm none = refl
name_stays pnpm (some given) = refl
name_stays yarn none = refl
name_stays yarn (some given) = refl
name_stays bun none = refl
name_stays bun (some given) = refl

detected_lem :
    (today : Str) (d : PackageManager) (c : Config)
    → (read_projx_config (record_detected today (some d) c)).package_manager
      ≡ some (package_manager_name d)
unfolding record_detected read_projx_config write_projx_config
detected_lem today d c = elim (eq_cases c.package_manager (some (package_manager_name d))) [
  | inl (test, same) ↦ rw (test) same
  | inr (test, _) ↦ rw (test) refl
]

update_config-Managed :
    (today : Str) (detected : Option PackageManager) (c : Config)
    → Managed detected c.package_manager (
        set_if_unset
          (truthy_or_none (some (update_package_manager detected c.package_manager)))
          (read_projx_config (record_detected today detected c)).package_manager)
unfolding set_if_unset record_detected read_projx_config truthy_or_none update_package_manager
update_config-Managed today (some d) c = rw (detected_lem today d c, name_stays d _) of_lockfile
update_config-Managed today none c = elim (Option-cases c.package_manager) [
  | inl unset ↦ rw (unset) by_default
  | inr ([], empty) ↦ rw (empty) recorded
  | inr (u ∷ s, chosen) ↦ rw (chosen) recorded
]

-- The configuration that `update` writes, from any configuration: the root's skip list stays, and the
-- date of creation where there is one (else it is today); the ORM stays where one was chosen, else it
-- is the given one; the package manager is that of a lockfile, else the recorded one, else npm; the
-- version is the new one, and that defaults were applied is never taken back.
pub update_config_keeps :
    (today version : Str) (detected : Option PackageManager) (orm : Option Str)
    (apply_defaults : Bool) (c : Config)
    → let new = read_projx_config (update_config today version detected orm apply_defaults c) in
      (new.skip ≡ some (list_or_nil c.skip))
      × ((new.created_at ≡ c.created_at) ⊎ ((c.created_at ≡ none) × (new.created_at ≡ some today)))
      × Managed detected c.package_manager new.package_manager
      × Recorded orm c.orm new.orm
      × (new.version ≡ some version)
      × (new.defaults_applied ≡ (c.defaults_applied || apply_defaults))
unfolding update_config write_managed_projx write_projx_config read_projx_config
update_config_keeps today version detected orm apply_defaults c =
    let (orm_same, defaults_same, skip_same, created) = record_detected_lem today detected c in
    (
      ap some skip_same,
      rw (created) (dated_cases today c.created_at),
      update_config-Managed today detected c,
      rw (orm_same) (set_if_unset-Recorded orm c.orm),
      refl,
      ap (λ b. b || apply_defaults) defaults_same,
    )
