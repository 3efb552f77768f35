-- ===== src/Authz/Tokens.antt =====
-- The verification of tokens: express/src/lib/jwt-verifier.ts, over the functions of `jose`.
use mathlib.Core.Option
use projx.Base.Text.{Str, codes, split, trim, is_truthy}
use projx.Base.{
  ◌++◌, ℕ, Option, none, some, List, [], ◌∷◌, map, filter, if◌then◌else◌, ◌==◌, nat_eq, list_eq,
  option_eq,
}

-- `ApiError` of express/src/errors.ts.
pub record ApiError : Type 0 where
  pub status_code : ℕ
  pub message : Str
  pub code : Str

-- What is awaited: a value or an error that is thrown, `none` for one that is no `ApiError`.
pub data Attempt (A : Type 0) : Type 0 where
  value : A → Attempt A
  threw : Option ApiError → Attempt A

-- The settings of `config` for tokens; an empty text is one that is not set.
pub record JwtConfig : Type 0 where
  pub jwt_secret : Str
  pub jwt_provider : Str
  pub jwt_public_key : Str
  pub jwt_jwks_url : Str
  pub jwt_algorithms : Str
  pub jwt_issuer : Str
  pub jwt_audience : Str

pub data ResolvedProvider : Type 0 where
  shared_secret public_key jwks : ResolvedProvider

pub record JwtVerifyOptions : Type 0 where
  pub issuer : Option Str
  pub audience : Option Str
  pub algorithms : List Str

-- A claim of a payload: a text, or a value `V` of JSON that is none.
pub data Claim (V : Type 0) : Type 0 where
  text : Str → Claim V
  other : V → Claim V

-- The claims that are read of a payload; `permissions` where it is an array, `exp` where it is a
-- number.
pub record JwtPayload (V : Type 0) : Type 0 where
  pub sub : Option (Claim V)
  pub email : Option (Claim V)
  pub role : Option (Claim V)
  pub sid : Option (Claim V)
  pub permissions : Option (List (Claim V))
  pub exp : Option ℕ

-- The text of a secret, a key that is imported, a set of keys at a URL.
pub data Key (K J : Type 0) : Type 0 where
  secret : Str → Key K J
  imported : K → Key K J
  remote : J → Key K J

-- `jose` at one time, `none` where it throws: `jwtVerify`, `importSPKI`, and `createRemoteJWKSet` of
-- `new URL(url)`. `to_string` is `String` of a value, taken to give a text.
pub record Jose (K J V : Type 0) : Type 0 where
  pub jwt_verify : Str → Key K J → JwtVerifyOptions → Option (JwtPayload V)
  pub import_spki : Str → Str → Option K
  pub create_remote_jwk_set : Str → Option J
  pub to_string : V → Str

unfoldable pub resolve_provider : JwtConfig → ResolvedProvider
resolve_provider config =
    if config.jwt_provider == codes "shared_secret"
    then shared_secret
    else if config.jwt_provider == codes "public_key"
    then public_key
    else if config.jwt_provider == codes "jwks"
    then jwks
    else if is_truthy config.jwt_jwks_url
    then jwks
    else if is_truthy config.jwt_public_key
    then public_key
    else shared_secret

abbrev pub when_set : Str → Option Str
when_set s = if is_truthy s then some s else none

abbrev pub default_algorithms : ResolvedProvider → List Str
default_algorithms shared_secret = codes "HS256" ∷ []
default_algorithms public_key = codes "RS256" ∷ []
default_algorithms jwks = codes "RS256" ∷ []

unfoldable pub build_verify_options : JwtConfig → ResolvedProvider → JwtVerifyOptions
build_verify_options config provider = record {
  issuer = when_set config.jwt_issuer;
  audience = when_set config.jwt_audience;
  algorithms =
      if is_truthy config.jwt_algorithms
      then filter is_truthy (map trim (split 44 config.jwt_algorithms))
      else default_algorithms provider;
}

abbrev pub not_configured : Str → ApiError
not_configured name = record {
  status_code = 500;
  message = name ++ codes " is not configured";
  code = codes "jwt_not_configured";
}

abbrev pub first_algorithm : List Str → Str
first_algorithm [] = codes "RS256"
first_algorithm (a ∷ _) = a

-- The value of a call of `jose`.
abbrev pub awaited : {A : Type 0} → Option A → Attempt A
awaited none = threw none
awaited (some a) = value a

module _ {K J V : Type 0} (jose : Jose K J V) where
  -- `cachedJwks`
  abbrev pub Cache : Type 0
  Cache = Option (Str × J)

  -- `new URL` throws before the cache is written.
  abbrev pub cached : Str → Cache → Option J → Option J × Cache
  cached url cache none = (none, cache)
  cached url cache (some fn) = (some fn, some (url, fn))

  unfoldable pub get_jwks : Str → Cache → Option J × Cache
  get_jwks url none = cached url none (jose.create_remote_jwk_set url)
  get_jwks url (some (url', fn)) =
      if url' == url
      then (some fn, some (url', fn))
      else cached url (some (url', fn)) (jose.create_remote_jwk_set url)

  abbrev pub verified_by : Str → JwtVerifyOptions → Option (Key K J) → Attempt (JwtPayload V)
  verified_by token opts none = threw none
  verified_by token opts (some key) = awaited (jose.jwt_verify token key opts)

  unfoldable pub verify_by :
      JwtConfig → ResolvedProvider → JwtVerifyOptions → Str → Cache → Attempt (JwtPayload V) × Cache
  verify_by config shared_secret opts token cache = (
    if is_truthy config.jwt_secret
        then verified_by token opts (some (secret config.jwt_secret))
        else threw (some (not_configured (codes "JWT_SECRET"))),
    cache,
  )
  verify_by config public_key opts token cache = (
    if is_truthy config.jwt_public_key
        then verified_by token opts (
            Option.map imported
              (jose.import_spki config.jwt_public_key (first_algorithm opts.algorithms)))
        else threw (some (not_configured (codes "JWT_PUBLIC_KEY"))),
    cache,
  )
  verify_by config jwks opts token cache =
      let found = get_jwks config.jwt_jwks_url cache in
      if is_truthy config.jwt_jwks_url
      then (verified_by token opts (Option.map remote found.0), found.1)
      else (threw (some (not_configured (codes "JWT_JWKS_URL"))), cache)

  unfoldable pub verify_token : JwtConfig → Str → Cache → Attempt (JwtPayload V) × Cache
  verify_token config token cache =
      let provider = resolve_provider config in
      verify_by config provider (build_verify_options config provider) token cache

  -- The cache after tokens were verified one after the other.
  unfoldable pub cache_after : JwtConfig → List Str → Cache → Cache
  cache_after config [] cache = cache
  cache_after config (token ∷ tokens) cache =
      cache_after config tokens (verify_token config token cache).1
