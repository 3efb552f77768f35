-- ===== src/Authz/Laws.antt =====
-- Which permissions grant access: `matchesPermission` and `requirePermission`.
use projx.Base.Text.{Str, codes}
use projx.Authz.{
  normalize_permission, fnmatch, is_safe, permission_matches, matches_permission, forbidden,
  granted, require_permission,
}
use projx.Authz.Glob.{Glob, glob_sound, glob_complete}
use projx.Base.{
  ◌≡◌, refl, ◌↔◌, inl, inr, Bool, true, false, ◌&&◌, ◌||◌, some, List, [], ◌∷◌, arith,
  if◌then◌else◌, Bool-cases, eq_cases, ==_refl, ◌==◌, nat_eq, list_eq, option_eq, any, Any,
}

-- A permission of the user that grants a target: a safe one that is the star, the pattern `*:*.*`, or
-- a pattern that means the target.
pub data Grants (target permission : Str) : Type 0 where
  star :
      is_safe permission ≡ true
      → normalize_permission permission ≡ codes "*"
      → Grants target permission
  all_scopes :
      is_safe permission ≡ true
      → normalize_permission permission ≡ codes "*:*.*"
      → Grants target permission
  exact :
      is_safe permission ≡ true
      → normalize_permission permission ≡ target
      → Grants target permission
  pattern_of :
      is_safe permission ≡ true
      → Glob (normalize_permission permission) target
      → Grants target permission

and_left : (a b : Bool) → (a && b) ≡ true → a ≡ true
and_left true b h = refl
and_left false b h = h

and_right : (a b : Bool) → (a && b) ≡ true → b ≡ true
and_right true b h = h
and_right false b h = absurd (cc)

permission_sound :
    (target permission : Str)
    → permission_matches target permission ≡ true
    → Grants target permission
unfolding permission_matches fnmatch
permission_sound target permission h =
    let safe = and_left (is_safe permission) _ h in
    let rest = and_right (is_safe permission) _ h in
    elim (eq_cases (normalize_permission permission) (codes "*")) [
      | inl (_, same) ↦ star safe same
      | inr (test, _) ↦ elim (eq_cases (normalize_permission permission) (codes "*:*.*")) [
        | inl (_, same) ↦ all_scopes safe same
        | inr (test', _) ↦ elim (eq_cases (normalize_permission permission) target) [
          | inl (_, same) ↦ exact safe same
          | inr (test'', _) ↦ pattern_of safe (
              glob_sound (normalize_permission permission) target
                (rw (test, test', test'') at rest))
        ]
      ]
    ]

last_true : (a b : Bool) → (a || b || true) ≡ true
last_true true b = refl
last_true false true = refl
last_true false false = refl

last_if : (a b c : Bool) → (a || b || (if c then true else if a then true else true)) ≡ true
last_if true b c = refl
last_if false true c = refl
last_if false false true = refl
last_if false false false = refl

permission_complete :
    (target permission : Str)
    → Grants target permission
    → permission_matches target permission ≡ true
unfolding permission_matches fnmatch
permission_complete target permission (star safe same) = rw (safe, same) (ground arith)
permission_complete target permission (all_scopes safe same) = rw (safe, same) (ground arith)
permission_complete target permission (exact safe same) =
    rw (safe, same, ==_refl target) (last_true (target == codes "*") (target == codes "*:*.*"))
permission_complete target permission (pattern_of safe means) =
    rw (safe, glob_complete means)
      (last_if (normalize_permission permission == codes "*")
        (normalize_permission permission == codes "*:*.*")
        (normalize_permission permission == target))

permissions_sound :
    (target : Str) (permissions : List Str)
    → any (permission_matches target) permissions ≡ true
    → Any (Grants target) permissions
permissions_sound target [] h = cc
permissions_sound target (p ∷ ps) h = elim (Bool-cases (permission_matches target p)) [
  | inl now ↦ inl (permission_sound target p now)
  | inr not_now ↦ inr (permissions_sound target ps (rw not_now at h))
]

permissions_complete :
    (target : Str) (permissions : List Str)
    → Any (Grants target) permissions
    → any (permission_matches target) permissions ≡ true
permissions_complete target [] h = absurd (h tt)
permissions_complete target (p ∷ ps) (inl g) = rw (permission_complete target p g) refl
permissions_complete target (p ∷ ps) (inr gs) = ground (arith, permissions_complete target ps gs)

granted_of :
    (permission : Str) (permissions : List Str)
    → require_permission permission (some permissions) ≡ granted
    → any (permission_matches (normalize_permission permission)) permissions ≡ true
unfolding require_permission matches_permission
granted_of permission permissions h =
    elim (Bool-cases (any (permission_matches (normalize_permission permission)) permissions)) [
      | inl yes_ ↦ yes_
      | inr no_ ↦ let wrong : forbidden ≡ granted = rw no_ at h in absurd (cc)
    ]

of_granted :
    (permission : Str) (permissions : List Str)
    → any (permission_matches (normalize_permission permission)) permissions ≡ true
    → require_permission permission (some permissions) ≡ granted
unfolding require_permission matches_permission
of_granted permission permissions h = rw h refl

-- A request of a known user passes exactly when one of the user's permissions is safe and grants the
-- required one: it is `*` or `*:*.*`, it is the required one, or it means it as a pattern, all of
-- them normalized.
pub require_permission_iff :
    (permission : Str) (permissions : List Str)
    → (require_permission permission (some permissions) ≡ granted)
      ↔ Any (Grants (normalize_permission permission)) permissions
require_permission_iff permission permissions = (
  λ h.
      permissions_sound (normalize_permission permission) permissions
        (granted_of permission permissions h),
  λ g.
      of_granted permission permissions
        (permissions_complete (normalize_permission permission) permissions g),
)
