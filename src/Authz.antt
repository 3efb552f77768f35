-- ===== src/Authz.antt =====
-- Permissions of the generated API: express/src/middlewares/authz.ts.
pub mod Glob
pub mod Laws
pub mod Tokens
pub mod Authenticate
pub mod Guard
mod Tests
use projx.Base.Text.{Str, codes, split, trim, to_lower_case, replace_unit, includes, is_truthy}
use projx.Base.{
  ℕ, zero, suc, ◌+◌, ◌-◌, ◌*◌, ◌/◌, ◌%◌, ◌^◌, ◌≤◌, ◌<◌, min, ◌≡◌, refl, sym, ap, ◌∙◌, ◌≢◌, ◌↔◌, ◌⊎◌,
  inl, inr, ite, Bool, true, false, not, ◌&&◌, ◌||◌, Option, none, some, some-ne-none, none-ne-some,
  some-injective, List, [], ◌∷◌, ◌++◌, map, arith, leb, ltb, if◌then◌else◌, Bool-cases,
  Option-cases, eq_cases, Eq, ◌==◌, ==_iff, contains, nat_eq, list_eq, option_eq, length, take,
  drop, any, all, filter, find, length-append, drop-append, take-append, take-append-drop,
  any-append, All, Any, All-append, dec_lt, ℕ_discrete,
}

unfoldable pub normalize_resource : Str → Str
normalize_resource value = map (replace_unit 45 95) (to_lower_case (trim value))

-- `const [resource, actionScope] = p.split(':', 2)`, for a text with a colon; the rest is dropped.
abbrev pub normalize_parts : List Str → Str
normalize_parts (resource ∷ action_scope ∷ _) =
    normalize_resource resource ++ codes ":" ++ trim action_scope
normalize_parts _ = []

unfoldable pub normalize_permission : Str → Str
normalize_permission value =
    let p = to_lower_case (trim value) in
    if includes p (codes ":") then normalize_parts (split 58 p) else p

-- What `.` in a regular expression matches.
unfoldable pub is_dot : ℕ → Bool
is_dot c = not (contains (10 ∷ 13 ∷ 0x2028 ∷ 0x2029 ∷ []) c)

-- `.*` and what follows it.
unfoldable pub glob_star : (Str → Bool) → Str → Bool
glob_star rest [] = rest []
glob_star rest (c ∷ value) = rest (c ∷ value) || (is_dot c && glob_star rest value)

abbrev pub glob_unit : ℕ → (Str → Bool) → Str → Bool
glob_unit p rest [] = false
glob_unit p rest (c ∷ value) = (if p == 63 then is_dot c else p == c) && rest value

-- The regular expression that `fnmatch` makes of a pattern, on the whole value.
unfoldable pub glob : Str → Str → Bool
glob [] value = value == []
glob (p ∷ pattern_) value =
    let rest = glob pattern_ in if p == 42 then glob_star rest value else glob_unit p rest value

unfoldable pub fnmatch : Str → Str → Bool
fnmatch value pattern_ =
    if pattern_ == value then true else if pattern_ == codes "*" then true else glob pattern_ value

-- `/^[a-z0-9_*:. ]+$/`
abbrev pub is_safe_unit : ℕ → Bool
is_safe_unit c =
    (leb 97 c && leb c 122) || (leb 48 c && leb c 57) || contains (95 ∷ 42 ∷ 58 ∷ 46 ∷ 32 ∷ []) c

unfoldable pub is_safe : Str → Bool
is_safe value = is_truthy value && all is_safe_unit value

-- One permission of the user against the normalized target.
unfoldable pub permission_matches : Str → Str → Bool
permission_matches target permission =
    is_safe permission
    && (let normalized = normalize_permission permission in
        normalized == codes "*" || normalized == codes "*:*.*" || fnmatch target normalized)

unfoldable pub matches_permission : Str → List Str → Bool
matches_permission required permissions =
    any (permission_matches (normalize_permission required)) permissions

pub data Access : Type 0 where
  -- 401, 403 and the call of the next handler.
  unauthorized forbidden granted : Access

-- The permissions of the request's user, if there is one.
unfoldable pub require_permission : Str → Option (List Str) → Access
require_permission permission none = unauthorized
require_permission permission (some permissions) =
    if not (matches_permission permission permissions) then forbidden else granted
