-- ===== src/Authz/Guard.antt =====
-- The conditions under which a request reaches a route behind `authenticate`, `requireAuth` and
-- `requirePermission` (express/src/middlewares), whatever the verifier of tokens has in its cache.
use projx.Base.Text.{codes, is_truthy, Str}
use mathlib.Core.Option
use projx.Authz.Tokens.{
  threw, value, ApiError, build_verify_options, JwtVerifyOptions, JwtPayload, ResolvedProvider,
  Attempt, resolve_provider, Cache, JwtConfig, Jose, get_jwks, verify_by, verify_token, cache_after,
  cached, shared_secret, public_key, jwks,
}
use projx.Authz.Authenticate.{
  authenticate_by, extract_bearer, payload_or_error, user_of, permissions_of, string_of,
  user_or_error, unauthorized_error, is_public_path, fails, and_then, permitted, next, Passed,
  AuthUser, guarded_route, gate, authenticate, require_auth, to_auth_user,
}
use projx.Authz.Laws.{Grants, require_permission_iff}
use projx.Authz.{Access, normalize_permission, unauthorized, forbidden, granted, require_permission}
use projx.Base.{
  ℕ, inr, inl, Bool-cases, none, eq_cases, some, Option, List, ◌≡◌, refl, [], ◌∷◌, nat_eq, list_eq,
  option_eq, Option-cases, sym, ap, ◌∙◌, Any, ◌↔◌,
}

module _ {K J V : Type 0} (jose : Jose K J V) where
  -- What is cached is what `createRemoteJWKSet` gave for the URL.
  abbrev pub IsOwn : Cache jose → Type 0
  IsOwn none = Unit
  IsOwn (some (url, fn)) = jose.create_remote_jwk_set url ≡ some fn

  cached-IsOwn :
      (url : Str) (cache : Cache jose) (made : Option J)
      → IsOwn cache
      → jose.create_remote_jwk_set url ≡ made
      → ((cached jose url cache made).0 ≡ made) × IsOwn (cached jose url cache made).1
  cached-IsOwn url cache none own is_made = (refl, own)
  cached-IsOwn url cache (some fn) own is_made = (refl, is_made)

  get_jwks-IsOwn :
      (url : Str) (cache : Cache jose)
      → IsOwn cache
      → ((get_jwks jose url cache).0 ≡ jose.create_remote_jwk_set url)
        × IsOwn (get_jwks jose url cache).1
  unfolding get_jwks
  get_jwks-IsOwn url none own = cached-IsOwn url none (jose.create_remote_jwk_set url) tt refl
  get_jwks-IsOwn url (some (url', fn)) own = elim (eq_cases url' url) [
    | inl (test, same) ↦ rw (test, ← same, own) (refl, refl)
    | inr (test, _) ↦
        rw (test) (cached-IsOwn url (some (url', fn)) (jose.create_remote_jwk_set url) own refl)
  ]

  -- The same answer as from an empty cache, and a cache of the same kind.
  abbrev pub IsFresh : (Cache jose → Attempt (JwtPayload V) × Cache jose) → Cache jose → Type 0
  IsFresh verify cache = ((verify cache).0 ≡ (verify none).0) × IsOwn (verify cache).1

  verify_by-IsFresh :
      (config : JwtConfig) (provider : ResolvedProvider) (opts : JwtVerifyOptions) (token : Str)
      (cache : Cache jose)
      → IsOwn cache
      → IsFresh (verify_by jose config provider opts token) cache
  unfolding verify_by
  verify_by-IsFresh config shared_secret opts token cache own = (refl, own)
  verify_by-IsFresh config public_key opts token cache own = (refl, own)
  verify_by-IsFresh config jwks opts token cache own =
      elim (Bool-cases (is_truthy config.jwt_jwks_url)) [
        | inl set ↦
            let (same, own') = get_jwks-IsOwn config.jwt_jwks_url cache own in
            let (new, _) = get_jwks-IsOwn config.jwt_jwks_url none tt in
            rw (set, same, new) (refl, own')
        | inr unset ↦ rw (unset) (refl, own)
      ]

  verify_token-IsFresh :
      (config : JwtConfig) (token : Str) (cache : Cache jose)
      → IsOwn cache
      → IsFresh (verify_token jose config token) cache
  unfolding verify_token
  verify_token-IsFresh config token cache own =
      verify_by-IsFresh config (resolve_provider config)
        (build_verify_options config (resolve_provider config)) token cache own

  cache_after-IsOwn :
      (config : JwtConfig) (tokens : List Str) (cache : Cache jose)
      → IsOwn cache
      → IsOwn (cache_after jose config tokens cache)
  unfolding cache_after
  cache_after-IsOwn config [] cache own = own
  cache_after-IsOwn config (token ∷ tokens) cache own =
      cache_after-IsOwn config tokens (verify_token jose config token cache).1
        (verify_token-IsFresh config token cache own).1

  -- A subject that is a text, and not an empty one.
  abbrev pub HasSubject : JwtPayload V → Type 0
  HasSubject payload = (c : ℕ) × (rest : Str) × (string_of payload.sub ≡ some (c ∷ rest))

  -- A bearer token that is verified, of a user with a permission that grants the one asked for.
  abbrev pub MayPass : JwtConfig → Str → Option Str → Type 0
  MayPass config permission header =
      (token : Str) × (payload : JwtPayload V) × (extract_bearer header ≡ some token)
      × ((verify_token jose config token none).0 ≡ value payload)
      × HasSubject payload
      × Any (Grants (normalize_permission permission)) (permissions_of jose payload.permissions)

  module _ (config : JwtConfig) (permission path : Str) where
    -- What follows `authenticate`.
    abbrev after : Passed (Option (AuthUser V)) → Passed (Option (AuthUser V))
    after passed = and_then jose (and_then jose passed (require_auth jose path)) (λ user.
        permitted jose permission user
          (require_permission permission (Option.map (λ u. u.permissions) user)))

    abbrev Fails : Passed (Option (AuthUser V)) → Type 0
    Fails passed = (error : ApiError) × (passed ≡ fails error)

    -- Without a user, a public path does not open the route.
    after-none : Fails (after (next none))
    unfolding require_auth require_permission
    after-none = elim (Bool-cases (is_public_path path)) [
      | inl open' ↦ (
        unauthorized_error (codes "Authentication required") (codes "unauthorized"),
        rw (open') refl,
      )
      | inr shut ↦ (
        unauthorized_error (codes "Authentication required") (codes "unauthorized"),
        rw (shut) refl,
      )
    ]

    after-some :
        (u : AuthUser V)
        → after (next (some u))
          ≡ permitted jose permission (some u) (require_permission permission (some u.permissions))
    unfolding require_auth
    after-some u = elim (Bool-cases (is_public_path path)) [
      | inl open' ↦ rw (open') refl
      | inr shut ↦ rw (shut) refl
    ]

    permitted_granted :
        (u user : Option (AuthUser V)) (access : Access)
        → permitted jose permission u access ≡ next user
        → access ≡ granted
    permitted_granted u user unauthorized passed = absurd (cc)
    permitted_granted u user forbidden passed = absurd (cc)
    permitted_granted u user granted passed = refl

    to_auth_user-value :
        (payload : JwtPayload V) (passed : Option (AuthUser V))
        → after (user_or_error jose (to_auth_user jose payload)) ≡ next passed
        → HasSubject payload
          × (require_permission permission (some (permissions_of jose payload.permissions))
              ≡ granted)
    unfolding to_auth_user
    to_auth_user-value payload passed is_next = elim (Option-cases (string_of payload.sub)) [
      | inl nothing ↦ let wrong = rw nothing at is_next in absurd (cc)
      | inr ([], empty) ↦ let wrong = rw empty at is_next in absurd (cc)
      | inr (c ∷ rest, there) ↦
          let is_next' = rw there at is_next in
          (
            (c, rest, there),
            permitted_granted (some (user_of jose payload (c ∷ rest))) passed _
                (sym (after-some (user_of jose payload (c ∷ rest))) ∙ is_next'),
          )
    ]

    route_none :
        (header : Option Str) (cache : Cache jose)
        → extract_bearer header ≡ none
        → Fails (guarded_route jose config permission path header cache)
    unfolding guarded_route gate authenticate
    route_none header cache missing =
        let (error, failed) = after-none in
        (error, ap (λ b. after (authenticate_by jose config cache b).0) missing ∙ failed)

    route_some :
        (header : Option Str) (cache : Cache jose) (token : Str)
        → extract_bearer header ≡ some token
        → guarded_route jose config permission path header cache
          ≡ after (payload_or_error jose (verify_token jose config token cache).0)
    unfolding guarded_route gate authenticate
    route_some header cache token there =
        ap (λ b. after (authenticate_by jose config cache b).0) there

    attempt_value :
        (attempt : Attempt (JwtPayload V)) (passed : Option (AuthUser V))
        → after (payload_or_error jose attempt) ≡ next passed
        → (payload : JwtPayload V) × (attempt ≡ value payload)
          × HasSubject payload
          × Any (Grants (normalize_permission permission)) (permissions_of jose payload.permissions)
    attempt_value (threw error) passed is_next = absurd (cc)
    attempt_value (value payload) passed is_next =
        let (subject, is_granted) = to_auth_user-value payload passed is_next in
        (
          payload,
          refl,
          subject,
          (require_permission_iff permission (permissions_of jose payload.permissions)).0
              is_granted,
        )

    value_passes :
        (payload : JwtPayload V)
        → HasSubject payload
        → Any (Grants (normalize_permission permission)) (permissions_of jose payload.permissions)
        → (user : Option (AuthUser V)) × (after (payload_or_error jose (value payload)) ≡ next user)
    unfolding to_auth_user
    value_passes payload (c, rest, there) grants = (
      some (user_of jose payload (c ∷ rest)),
      rw (there) (
          after-some (user_of jose payload (c ∷ rest))
          ∙ ap (permitted jose permission (some (user_of jose payload (c ∷ rest)))) (
              (require_permission_iff permission (permissions_of jose payload.permissions)).1
                grants)),
    )

    same_answer :
        (earlier : List Str) (token : Str)
        → (verify_token jose config token (cache_after jose config earlier none)).0
          ≡ (verify_token jose config token none).0
    same_answer earlier token =
        (verify_token-IsFresh config token (cache_after jose config earlier none)
          (cache_after-IsOwn config earlier none tt)).0

    -- A request reaches a route that asks for a permission exactly when it bears a token that is
    -- verified, with a subject that is a text and not empty, and one of the permissions in the token
    -- grants the one asked for: on every path, a public one included, and whatever tokens the server
    -- has verified before.
    pub guarded_route_iff :
        (earlier : List Str) (header : Option Str)
        → ((user : Option (AuthUser V)) × (guarded_route jose config permission path header
                (cache_after jose config earlier none)
              ≡ next user))
          ↔ MayPass config permission header
    guarded_route_iff earlier header = (
      λ (user, is_next). elim (Option-cases (extract_bearer header)) [
        | inl missing ↦
            let (error, failed) =
              route_none header (cache_after jose config earlier none) missing in
            absurd (cc)
        | inr (token, there) ↦
            let (payload, answer, subject, grants) =
              attempt_value
                (verify_token jose config token (cache_after jose config earlier none)).0 user
                (sym (route_some header (cache_after jose config earlier none) token there)
                  ∙ is_next) in
            (token, payload, there, sym (same_answer earlier token) ∙ answer, subject, grants)
      ],
      λ (token, payload, there, answer, subject, grants).
          let (user, passes) = value_passes payload subject grants in
          (
            user,
            route_some header (cache_after jose config earlier none) token there
                ∙ ap (λ a. after (payload_or_error jose a)) (same_answer earlier token ∙ answer)
                ∙ passes,
          ),
    )
