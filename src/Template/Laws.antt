-- ===== src/Template/Laws.antt =====
-- What writing the template leaves of the root files and of an instance's files.
use projx.Base.Text.{Str, codes}
use projx.Base.Sets.{contains-append}
use projx.Components.{Component, component_eq}
use projx.Skip.{matches_skip}
use projx.Merge.{Disk, write_file}
use projx.Template.{
  exists, should_write, Generated, root_files, late_root_files, write_root_files, copy_over,
  statics, copy_statics, static_scripts, copy_scripts, copy_static_files, write_root,
}
use projx.Base.{
  ◌≡◌, refl, sym, ap, ◌∙◌, ◌≢◌, inl, inr, Bool, true, false, ◌&&◌, ◌||◌, Option, none, some, List,
  [], ◌∷◌, ◌++◌, arith, if◌then◌else◌, Bool-cases, eq_cases, ◌==◌, contains, nat_eq, list_eq,
  option_eq,
}

not_equal : (a b : Str) → a ≢ b → (a == b) ≡ false
not_equal a b other = elim (eq_cases a b) [
  | inl (_, same) ↦ absurd (other same)
  | inr (test, _) ↦ test
]

write_file_other :
    (path file content : Str) (disk : Disk)
    → (path == file) ≡ false
    → write_file file content disk path ≡ disk path
write_file_other path file content disk other = rw other refl

copy_over_other :
    (path file : Str) (content : Option Str) (disk : Disk)
    → (path == file) ≡ false
    → copy_over file content disk path ≡ disk path
copy_over_other path file none disk other = refl
copy_over_other path file (some content) disk other = rw other refl

if_same :
    (test : Bool) (new old : Disk) (path : Str)
    → new path ≡ old path
    → (if test then new else old) path ≡ old path
if_same true new old path same = same
if_same false new old path same = refl

not_both : (a b : Bool) (new old : Disk) → b ≡ false → (if a && b then new else old) ≡ old
not_both true b new old off = rw off refl
not_both false b new old off = refl

write_root_files_kept :
    (root_skip : List Str) (real : Disk) (files : List (Str × Bool × Str)) (dest : Disk)
    (path : Str)
    → should_write root_skip real path ≡ false
    → write_root_files root_skip real files dest path ≡ dest path
unfolding write_root_files
write_root_files_kept root_skip real [] dest path kept = refl
write_root_files_kept root_skip real ((file, wanted, text) ∷ files) dest path kept =
    write_root_files_kept root_skip real files
      (if wanted && should_write root_skip real file then write_file file text dest else dest) path
      kept
    ∙ elim (eq_cases path file) [
      | inl (_, same) ↦
          ap (λ disk. disk path)
            (not_both wanted (should_write root_skip real file) (write_file file text dest) dest
              (rw same at kept))
      | inr (test, _) ↦
          if_same (wanted && should_write root_skip real file) (write_file file text dest) dest path
            (write_file_other path file text dest test)
    ]

copy_statics_other :
    (repo : Disk) (files : List Str) (dest : Disk) (path : Str)
    → contains files path ≡ false
    → copy_statics repo files dest path ≡ dest path
unfolding copy_statics
copy_statics_other repo [] dest path other = refl
copy_statics_other repo (file ∷ files) dest path other =
    copy_statics_other repo files (copy_over file (repo file) dest) path (ground arith)
    ∙ copy_over_other path file (repo file) dest (ground arith)

copy_scripts_other :
    (repo : Disk) (files : List Str) (dest : Disk) (path : Str)
    → contains files path ≡ false
    → copy_scripts repo files dest path ≡ dest path
unfolding copy_scripts
copy_scripts_other repo [] dest path other = refl
copy_scripts_other repo (file ∷ files) dest path other =
    copy_scripts_other repo files
      (if exists dest file then dest else copy_over file (repo file) dest) path (ground arith)
    ∙ elim (Bool-cases (exists dest file)) [
      | inl there ↦ rw there refl
      | inr lacking ↦ rw lacking (copy_over_other path file (repo file) dest (ground arith))
    ]

pinned_should_write :
    (root_skip : List Str) (real : Disk) (path : Str)
    → matches_skip path root_skip ≡ true
    → exists real path ≡ true
    → should_write root_skip real path ≡ false
unfolding should_write
pinned_should_write root_skip real path pinned there = rw (pinned, there) refl

-- A root file that the user has pinned and has is not written, except the static files and the
-- configuration, which no pin protects.
pub write_root_pinned :
    (repo : Disk) (components : List Component) (generated : Generated)
    (print_config : Option Str → Str) (root_skip : List Str) (real dest : Disk) (path : Str)
    → matches_skip path root_skip ≡ true
    → exists real path ≡ true
    → contains (statics ++ static_scripts) path ≡ false
    → path ≢ codes ".projx"
    → write_root repo components generated print_config root_skip real dest path ≡ dest path
unfolding write_root copy_static_files
write_root_pinned repo components generated print_config root_skip real dest path pinned there
      dynamic other =
    write_file_other path (codes ".projx") (print_config (third (codes ".projx"))) third
      (not_equal path (codes ".projx") other)
    ∙ write_root_files_kept root_skip real (late_root_files generated) second path kept
    ∙ copy_scripts_other repo static_scripts (copy_statics repo statics first) path
        (ground (arith, listed))
    ∙ copy_statics_other repo statics first path (ground (arith, listed))
    ∙ write_root_files_kept root_skip real (root_files components generated) dest path kept
  where
    kept : should_write root_skip real path ≡ false
    kept = pinned_should_write root_skip real path pinned there

    first : Disk
    first = write_root_files root_skip real (root_files components generated) dest

    second : Disk
    second = copy_static_files repo first

    third : Disk
    third = write_root_files root_skip real (late_root_files generated) second

    listed : (contains statics path || contains static_scripts path) ≡ false
    listed = sym (contains-append statics static_scripts path) ∙ dynamic

-- A pin does not protect `.editorconfig`: whatever the root skip list and the user's file, the
-- repository's file is what the template holds.
pub write_root_editorconfig :
    (repo : Disk) (components : List Component) (generated : Generated)
    (print_config : Option Str → Str) (root_skip : List Str) (real dest : Disk) (content : Str)
    → repo (codes ".editorconfig") ≡ some content
    → write_root repo components generated print_config root_skip real dest (codes ".editorconfig")
      ≡ some content
unfolding write_root copy_static_files write_root_files copy_statics list_eq nat_eq
write_root_editorconfig repo components generated print_config root_skip real dest content found =
    if_same (should_write root_skip real settings)
      (write_file settings generated.vscode_settings second) second (codes ".editorconfig") refl
    ∙ copy_scripts_other repo static_scripts (copy_statics repo statics first)
        (codes ".editorconfig") refl
    ∙ copy_over_other (codes ".editorconfig") (codes ".vscode/extensions.json")
        (repo (codes ".vscode/extensions.json"))
        (copy_over (codes ".editorconfig") (repo (codes ".editorconfig")) first) refl
    ∙ rw found refl
  where
    settings : Str
    settings = codes ".vscode/settings.json"

    first : Disk
    first = write_root_files root_skip real (root_files components generated) dest

    second : Disk
    second = copy_static_files repo first
