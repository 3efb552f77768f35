-- ===== src/Features.antt =====
-- The edits of files by a feature: `applyTextPatch`, `sentinelFor`, `simpleHash` and
-- `appendEnvExample` of cli/src/features.ts. An error is `none`.
pub mod Laws
pub mod Once
pub mod Targets
mod Tests
use projx.Base.Text.{Str, codes, includes, index_of, is_space, starts_with, ends_with, is_truthy}
use projx.Base.{
  ℕ, zero, suc, ◌+◌, ◌-◌, ◌*◌, ◌/◌, ◌%◌, ◌^◌, ◌≤◌, ◌<◌, min, ◌≡◌, refl, sym, ap, ◌∙◌, ◌≢◌, ◌↔◌, ◌⊎◌,
  inl, inr, ite, Bool, true, false, not, ◌&&◌, ◌||◌, Option, none, some, some-ne-none, none-ne-some,
  some-injective, List, [], ◌∷◌, ◌++◌, map, arith, leb, ltb, if◌then◌else◌, Bool-cases,
  Option-cases, eq_cases, Eq, ◌==◌, ==_iff, contains, nat_eq, list_eq, option_eq, length, take,
  drop, any, all, filter, find, length-append, drop-append, take-append, take-append-drop,
  any-append, All, Any, All-append, dec_lt, ℕ_discrete,
}

-- `(h * 31 + s.charCodeAt(i)) | 0` for each unit, as an unsigned number.
unfoldable pub hash_from : ℕ → Str → ℕ
hash_from h [] = h
hash_from h (c ∷ s) = hash_from ((h * 31 + c) % 2 ^ 32) s

-- `Math.abs` of the signed number.
abbrev pub absolute : ℕ → ℕ
absolute h = if ltb h (2 ^ 31) then h else 2 ^ 32 - h

abbrev pub digit36 : ℕ → ℕ
digit36 d = if ltb d 10 then 48 + d else 87 + d

-- The digits to the base 36 before others; seven are enough below 36 ^ 7.
unfoldable pub digits36 : ℕ → ℕ → Str → Str
digits36 zero n done = done
digits36 (suc fuel) n done =
    let more = digits36 fuel (n / 36) (digit36 (n % 36) ∷ done) in
    if n / 36 == 0 then digit36 (n % 36) ∷ done else more

unfoldable pub simple_hash : Str → Str
simple_hash s = digits36 7 (absolute (hash_from 0 s)) []

unfoldable pub sentinel_for : Str → Str → Str → Str → Str
sentinel_for feature anchor insert indent =
    indent
    ++ (if includes anchor (codes "#") then codes "# " else codes "// ")
    ++ codes "projx-feature: "
    ++ feature
    ++ codes " "
    ++ simple_hash (anchor ++ codes "|" ++ insert)
    ++ codes "\n"

pub data Position : Type 0 where
  after before : Position

pub record TextPatch : Type 0 where
  pub anchor : Str
  pub insert : Str
  pub position : Position

-- The place behind the last newline, from the place of the text and the one known so far.
unfoldable pub line_start : ℕ → ℕ → Str → ℕ
line_start place start [] = start
line_start place start (c ∷ s) = line_start (suc place) (if c == 10 then suc place else start) s

unfoldable pub leading_spaces : Str → Str
leading_spaces [] = []
leading_spaces (c ∷ s) = let rest = leading_spaces s in if is_space c then c ∷ rest else []

-- The indentation of the line with the anchor.
unfoldable pub indent_at : Str → ℕ → Str
indent_at content place =
    leading_spaces (drop (line_start 0 0 (take (suc place) content)) (take place content))

-- `after.startsWith('\n') ? after.slice(1) : after`
unfoldable pub without_newline : Str → Str
without_newline [] = []
without_newline (c ∷ s) = if c == 10 then s else c ∷ s

abbrev pub insert_at : Position → Str → ℕ → ℕ → Str → Str
insert_at before text size place content = take place content ++ (text ++ drop place content)
insert_at after text size place content =
    take (place + size) content
    ++ (codes "\n" ++ (text ++ without_newline (drop (place + size) content)))

-- The patch at the anchor's place, unless its sentinel is there.
unfoldable pub patch_at : Str → TextPatch → Str → ℕ → Str
patch_at feature patch content place =
    let sentinel = sentinel_for feature patch.anchor patch.insert (indent_at content place) in
    if includes content sentinel
    then content
    else insert_at patch.position (patch.insert ++ sentinel) (length patch.anchor) place content

abbrev pub patch_found : Str → TextPatch → Str → Option ℕ → Option Str
patch_found feature patch content none = none
patch_found feature patch content (some place) = some (patch_at feature patch content place)

unfoldable pub patch_text : Str → TextPatch → Str → Option Str
patch_text feature patch content = patch_found feature patch content (index_of content patch.anchor)

abbrev pub as_file : Option Str → Option (Option Str)
as_file none = none
as_file (some content) = some (some content)

-- The file before (`none` if it is missing), if that is tolerated, and the file after.
unfoldable pub apply_text_patch : Str → TextPatch → Bool → Option Str → Option (Option Str)
apply_text_patch feature patch tolerate_missing_target none =
    if tolerate_missing_target then some none else none
apply_text_patch feature patch tolerate_missing_target (some content) =
    as_file (patch_text feature patch content)

unfoldable pub env_header : Str → Str
env_header feature = codes "# Added by feature: " ++ feature

unfoldable pub key_lines : List Str → Str
key_lines [] = []
key_lines (key ∷ keys) = codes "# " ++ key ++ codes "=\n" ++ key_lines keys

-- The content with a newline at its end, if it has any.
unfoldable pub closed : Str → Str
closed content =
    if is_truthy content && not (ends_with content (codes "\n"))
    then content ++ codes "\n"
    else content

abbrev pub content_of : Option Str → Str
content_of none = []
content_of (some content) = content

-- The file `.env.example` before and after.
unfoldable pub append_env_example : Str → List Str → Option Str → Option Str
append_env_example feature keys file =
    if includes (content_of file) (env_header feature)
    then file
    else some (
        closed (content_of file)
        ++ (codes "\n" ++ (env_header feature ++ (codes "\n" ++ key_lines keys))))
