-- ===== src/Authz/Tests.antt =====
-- Permissions at concrete users.
use projx.Base.Text.{
  Str, codes, split, split_from, trim, trim_start, trim_end, to_lower_case, lower, replace_unit,
  includes, starts_with, is_space,
}
use projx.Authz.{
  normalize_resource, normalize_permission, is_dot, glob_star, glob, fnmatch, is_safe,
  permission_matches, matches_permission, unauthorized, forbidden, granted, require_permission,
}
use projx.Authz.Laws.{Grants, require_permission_iff}
use projx.Authz.Tokens.{
  build_verify_options, resolve_provider, verify_by, verify_token, remote, other, JwtVerifyOptions,
  text, Key, JwtPayload, cache_after, Jose, JwtConfig, get_jwks,
}
use projx.Authz.Authenticate.{
  to_auth_user, extract_bearer, is_public_path, require_auth, fails, authenticate, next,
  guarded_route, AuthUser, Passed, gate,
}
use projx.Authz.Guard.{guarded_route_iff, MayPass}
use projx.Base.{
  ℕ, ◌&&◌, Option, if◌then◌else◌, ◌==◌, contains, ◌≡◌, refl, ◌↔◌, none, some, [], ◌∷◌, nat_eq,
  list_eq, option_eq, Any,
}

steps : Unit {0}
unfolding require_permission matches_permission permission_matches is_safe fnmatch glob glob_star
    is_dot normalize_permission normalize_resource split split_from trim trim_start trim_end
    to_lower_case lower replace_unit includes starts_with is_space list_eq nat_eq
steps = tt

permission_test :
    (require_permission (codes "Audit-Logs:read.all") (some (codes "audit_logs:*" ∷ [])) ≡ granted)
    × (require_permission
          (codes "users:read.all")
          (some (codes "audit_logs:*" ∷ codes "users:read" ∷ []))
        ≡ forbidden)
    × (require_permission (codes "users:read.all") (some (codes "*" ∷ [])) ≡ granted)
    × (require_permission (codes "users:read.all") (some (codes "USERS:*" ∷ [])) ≡ forbidden)
    × (require_permission (codes "users:read.all") none ≡ unauthorized)
unfolding steps
permission_test = (refl, refl, refl, refl, refl)

require_permission_iff_example :
    (require_permission (codes "users:read.all") (some (codes "users:*" ∷ [])) ≡ granted)
    ↔ Any (Grants (normalize_permission (codes "users:read.all"))) (codes "users:*" ∷ [])
require_permission_iff_example =
    require_permission_iff (codes "users:read.all") (codes "users:*" ∷ [])

-- A library with one set of keys, which verifies the tokens `alice` and `nobody` by it.
abbrev claims_of : Str → JwtPayload ℕ
claims_of sub = record {
  sub = some (text sub);
  email = none;
  role = some (other 7);
  sid = none;
  permissions = some (text (codes "users:*") ∷ other 5 ∷ []);
  exp = some 90;
}

abbrev verify_once : Str → Key ℕ Str → JwtVerifyOptions → Option (JwtPayload ℕ)
verify_once token (remote set) opts =
    if token == codes "alice" && contains opts.algorithms (codes "RS256")
    then some (claims_of (codes "alice"))
    else if token == codes "nobody"
    then some (claims_of [])
    else none
verify_once token _ opts = none

abbrev one_jose : Jose ℕ Str ℕ
one_jose = record {
  jwt_verify = verify_once;
  import_spki = λ text algorithm. none;
  create_remote_jwk_set = λ url. some url;
  to_string = λ n. n ∷ [];
}

abbrev by_jwks : JwtConfig
by_jwks = record {
  jwt_secret = [];
  jwt_provider = codes "auto";
  jwt_public_key = [];
  jwt_jwks_url = codes "u";
  jwt_algorithms = codes "ES256, RS256";
  jwt_issuer = [];
  jwt_audience = [];
}

guard_steps : Unit {0}
unfolding steps guarded_route gate authenticate require_auth is_public_path extract_bearer
    to_auth_user verify_token verify_by get_jwks resolve_provider build_verify_options cache_after
guard_steps = tt

-- A request with this header for users to the documentation, after one with a bad token.
abbrev visit : Option Str → Passed (Option (AuthUser ℕ))
visit header =
    guarded_route one_jose by_jwks (codes "users:read.all") (codes "/docs") header
      (cache_after one_jose by_jwks (codes "bad" ∷ []) none)

abbrev error_code : Passed (Option (AuthUser ℕ)) → Option Str
error_code (next user) = none
error_code (fails error) = some error.code

guarded_route_test :
    (error_code (visit none) ≡ some (codes "unauthorized"))
    × (error_code (visit (some (codes "bearer alice"))) ≡ none)
    × (error_code (visit (some (codes "Basic alice"))) ≡ some (codes "unauthorized"))
    × (error_code (visit (some (codes "Bearer  alice"))) ≡ some (codes "unauthorized"))
    × (error_code (visit (some (codes "Bearer nobody"))) ≡ some (codes "invalid_token"))
    × (error_code (visit (some (codes "Bearer bob"))) ≡ some (codes "invalid_token"))
unfolding guard_steps
guarded_route_test = (refl, refl, refl, refl, refl, refl)

guarded_route_iff_example :
    ((user : Option (AuthUser ℕ)) × (guarded_route one_jose by_jwks
          (codes "users:read.all")
          (codes "/docs")
          (some (codes "Bearer alice"))
          (cache_after one_jose by_jwks (codes "bad" ∷ []) none)
        ≡ next user))
    ↔ MayPass one_jose by_jwks (codes "users:read.all") (some (codes "Bearer alice"))
guarded_route_iff_example =
    guarded_route_iff one_jose by_jwks (codes "users:read.all") (codes "/docs") (codes "bad" ∷ [])
      (some (codes "Bearer alice"))
