-- ===== src/Authz/Authenticate.antt =====
-- Who makes a request, and which paths are open: express/src/middlewares/authenticate.ts and
-- express/src/middlewares/public-paths.ts.
use mathlib.Core.Option
use projx.Authz.Tokens.{
  ApiError, Attempt, value, threw, Claim, text, other, JwtPayload, Jose, JwtConfig, Cache,
  verify_token,
}
use projx.Authz.{Access, unauthorized, forbidden, granted, require_permission}
use projx.Base.Text.{Str, codes, split, trim, to_lower_case, starts_with, is_truthy}
use projx.Base.{
  ℕ, Bool, not, ◌||◌, Option, none, some, List, [], ◌∷◌, ◌++◌, map, any, contains, if◌then◌else◌,
  ◌==◌, nat_eq, list_eq, option_eq,
}

abbrev pub public_prefixes : List Str
public_prefixes =
    codes "/docs" ∷ codes "/documentation" ∷ codes "/openapi.json" ∷ codes "/swagger" ∷ []

abbrev pub public_exact : List Str
public_exact =
    codes "/api/" ∷ codes "/api/health" ∷ codes "/api/health/live" ∷ codes "/api/health/ready" ∷ []

unfoldable pub is_public_path : Str → Bool
is_public_path path = contains public_exact path || any (starts_with path) public_prefixes

-- The claims of the token, and those that a user has beside them.
pub record AuthUser (V : Type 0) : Type 0 where
  pub payload : JwtPayload V
  pub sub : Str
  pub email : Str
  pub role : Str
  pub permissions : List Str
  pub sid : Option Str
  pub exp : Option ℕ

abbrev pub token_of : List Str → Option Str
token_of [] = none
token_of (token ∷ _) = let trimmed = trim token in if is_truthy trimmed then some trimmed else none

abbrev pub bearer_of : List Str → Option Str
bearer_of [] = none
bearer_of (scheme ∷ rest) =
    if not (is_truthy scheme) || not (to_lower_case scheme == codes "bearer")
    then none
    else token_of rest

unfoldable pub extract_bearer : Option Str → Option Str
extract_bearer none = none
extract_bearer (some header) = bearer_of (split 32 header)

abbrev pub unauthorized_error : Str → Str → ApiError
unauthorized_error message code = record { status_code = 401; message = message; code = code }

-- A claim where it is a text.
abbrev pub string_of : {V : Type 0} → Option (Claim V) → Option Str
string_of none = none
string_of (some (text s)) = some s
string_of (some (other _)) = none

abbrev pub or_empty : Option Str → Str
or_empty none = []
or_empty (some s) = s

abbrev pub caught : Option ApiError → ApiError
caught none = unauthorized_error (codes "Invalid or expired token") (codes "invalid_token")
caught (some error) = error

-- What a middleware does: it calls the next one, or ends with an error.
pub data Passed (A : Type 0) : Type 0 where
  next : A → Passed A
  fails : ApiError → Passed A

module _ {K J V : Type 0} (jose : Jose K J V) where
  abbrev pub claim_text : Claim V → Str
  claim_text (text s) = s
  claim_text (other v) = jose.to_string v

  abbrev pub permissions_of : Option (List (Claim V)) → List Str
  permissions_of none = []
  permissions_of (some claims) = map claim_text claims

  abbrev pub user_of : JwtPayload V → Str → AuthUser V
  user_of payload sub = record {
    payload = payload;
    sub = sub;
    email = or_empty (string_of payload.email);
    role = or_empty (string_of payload.role);
    permissions = permissions_of payload.permissions;
    sid = string_of payload.sid;
    exp = payload.exp;
  }

  abbrev pub with_sub : JwtPayload V → Option Str → Attempt (AuthUser V)
  with_sub payload (some (c ∷ sub)) = value (user_of payload (c ∷ sub))
  with_sub payload _ =
      threw (some (unauthorized_error (codes "Invalid token payload") (codes "invalid_token")))

  unfoldable pub to_auth_user : JwtPayload V → Attempt (AuthUser V)
  to_auth_user payload = with_sub payload (string_of payload.sub)

  abbrev pub user_or_error : Attempt (AuthUser V) → Passed (Option (AuthUser V))
  user_or_error (value user) = next (some user)
  user_or_error (threw error) = fails (caught error)

  abbrev pub payload_or_error : Attempt (JwtPayload V) → Passed (Option (AuthUser V))
  payload_or_error (value payload) = user_or_error (to_auth_user payload)
  payload_or_error (threw error) = fails (caught error)

  abbrev pub authenticate_by :
      JwtConfig → Cache jose → Option Str → Passed (Option (AuthUser V)) × Cache jose
  authenticate_by config cache none = (next none, cache)
  authenticate_by config cache (some token) =
      let verified = verify_token jose config token cache in
      (payload_or_error verified.0, verified.1)

  -- The user of the request, if it has one, and the cache of the verifier.
  unfoldable pub authenticate :
      JwtConfig → Option Str → Cache jose → Passed (Option (AuthUser V)) × Cache jose
  authenticate config header cache = authenticate_by config cache (extract_bearer header)

  unfoldable pub require_auth : Str → Option (AuthUser V) → Passed (Option (AuthUser V))
  require_auth path user = if is_public_path path then next user else elim user [
    | none ↦ fails (unauthorized_error (codes "Authentication required") (codes "unauthorized"))
    | some u ↦ next (some u)
  ]

  abbrev pub and_then : {A B : Type 0} → Passed A → (A → Passed B) → Passed B
  and_then (next a) f = f a
  and_then (fails error) f = fails error

  -- The two middlewares in front of every route.
  unfoldable pub gate : JwtConfig → Str → Option Str → Cache jose → Passed (Option (AuthUser V))
  gate config path header cache = and_then (authenticate config header cache).0 (require_auth path)

  abbrev pub permitted : Str → Option (AuthUser V) → Access → Passed (Option (AuthUser V))
  permitted permission user unauthorized =
      fails (unauthorized_error (codes "Authentication required") (codes "unauthorized"))
  permitted permission user forbidden = fails (record {
    status_code = 403;
    message = codes "Insufficient permissions: " ++ permission ++ codes " required";
    code = codes "forbidden";
  })
  permitted permission user granted = next user

  -- A route behind them that asks for a permission.
  unfoldable pub guarded_route :
      JwtConfig → Str → Str → Option Str → Cache jose → Passed (Option (AuthUser V))
  guarded_route config permission path header cache =
      and_then (gate config path header cache) (λ user.
        permitted permission user
          (require_permission permission (Option.map (λ u. u.permissions) user)))
