-- ===== src/Features/Tests.antt =====
-- A feature's edits of a small file.
use projx.Base.Text.{Str, codes, includes, index_of, starts_with, ends_with, is_space}
use projx.Features.{
  hash_from, digits36, simple_hash, sentinel_for, after, TextPatch, line_start, leading_spaces,
  indent_at, without_newline, patch_at, patch_text, apply_text_patch, env_header, key_lines, closed,
  append_env_example,
}
use projx.Base.{◌≡◌, refl, true, false, none, some, [], ◌∷◌, ◌++◌, nat_eq, list_eq, option_eq}

abbrev content : Str
content = codes "a\n  // routes\nb\n"

abbrev patch : TextPatch
patch = record { anchor = codes "// routes"; insert = codes "  use();\n"; position = after }

steps : Unit {0}
unfolding patch_text patch_at sentinel_for simple_hash hash_from digits36 indent_at line_start
    leading_spaces without_newline index_of includes starts_with is_space list_eq nat_eq
steps = tt

hash_test : simple_hash (codes "ab") ≡ codes "2e9"
unfolding steps
hash_test = refl

abbrev patched : Str
patched =
    codes "a\n  // routes\n  use();\n  // projx-feature: auth "
    ++ simple_hash (codes "// routes|  use();\n")
    ++ codes "\nb\n"

patch_test : patch_text (codes "auth") patch content ≡ some patched
unfolding steps
patch_test = refl

missing_test :
    (apply_text_patch (codes "auth") patch true none ≡ some none)
    × (apply_text_patch (codes "auth") patch false none ≡ none)
    × (apply_text_patch (codes "auth") patch false (some (codes "b")) ≡ none)
unfolding apply_text_patch steps
missing_test = (refl, refl, refl)

env_test :
    append_env_example (codes "auth") (codes "KEY" ∷ []) (some (codes "A=1"))
    ≡ some (codes "A=1\n\n# Added by feature: auth\n# KEY=\n")
unfolding append_env_example env_header key_lines closed ends_with steps
env_test = refl
