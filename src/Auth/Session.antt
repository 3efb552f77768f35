-- ===== src/Auth/Session.antt =====
-- Sessions and their tokens: features/auth/express/prisma/files/src/modules/auth/session.ts.
use projx.Base.Text.{Str, codes}
use projx.Auth.Rows.{UserRow, NewRefreshToken}
use projx.Auth.Store.{Client, Db}
use projx.Auth.Services.{Services, Request, Claims}
use projx.Auth.Responses.{UserInfo, Tokens, Response, signed_in}
use projx.Base.{
  ℕ, ◌+◌, ◌*◌, none, some, List, [], ◌∷◌, if◌then◌else◌, ◌==◌, nat_eq, list_eq, option_eq,
}

abbrev pub refresh_ttl_seconds : ℕ
refresh_ttl_seconds = 7 * 24 * 60 * 60

-- `ACCESS_TTL` and `REFRESH_TTL` in seconds.
abbrev pub access_ttl : ℕ
access_ttl = 15 * 60

abbrev pub refresh_ttl : ℕ
refresh_ttl = 7 * 24 * 60 * 60

unfoldable pub permissions_for_role : Str → List Str
permissions_for_role role =
    if role == codes "admin"
    then codes "*" ∷ []
    else if role == codes "user"
    then codes "*:read.*" ∷ []
    else []

unfoldable pub payload_of : Str → Str → UserRow → Claims
unfolding permissions_for_role
payload_of sub sid user = record {
  sub = some sub;
  sid = some sid;
  role = some user.role;
  email = some user.email;
  name = some user.name;
  permissions = permissions_for_role user.role;
  token_type = none;
  jti = none;
  stage = none;
}

abbrev pub user_info : UserRow → UserInfo
user_info user = record {
  id = user.id;
  email = user.email;
  name = user.name;
  role = user.role;
  last_login = user.last_login;
  created_at = user.created_at;
}

module _ (services : Services) where
  abbrev pub hash_refresh_token : Str → Str
  hash_refresh_token token = services.sha256 token

  -- `jwt.sign` with a time to live in seconds.
  abbrev pub sign_with_expiry : Claims → ℕ → ℕ → Str
  sign_with_expiry claims seconds now = services.sign claims (now + seconds * 1000)

  unfoldable pub sign_tokens : Request → Claims → Tokens
  sign_tokens req payload = record {
    token =
        sign_with_expiry
          (record payload { token_type = some (codes "access"); jti = some req.access_jti })
          access_ttl req.now;
    refresh_token =
        sign_with_expiry
          (record payload { token_type = some (codes "refresh"); jti = some req.refresh_jti })
          refresh_ttl req.now;
    access_jti = req.access_jti;
    refresh_jti = req.refresh_jti;
  }

  -- The row of a refresh token: its hash, for a user and a session.
  abbrev pub new_token : Request → Str → Str → Tokens → NewRefreshToken
  new_token req user_id session_id tokens = record {
    user_id = user_id;
    session_id = session_id;
    token_hash = hash_refresh_token tokens.refresh_token;
    expires_at = req.now + refresh_ttl_seconds * 1000;
    ip_address = req.ip;
    user_agent = req.user_agent;
  }

  module _ {U T V : Type 0} (client : Client U T V) where
    abbrev pub issue_tokens : Request → UserRow → Tokens
    issue_tokens req user = sign_tokens req (payload_of user.id req.session_uuid user)

    abbrev pub create_token : NewRefreshToken → Db U T V → Db U T V
    create_token new db = record db {
      refresh_tokens = (client.refresh_token.create new db.refresh_tokens).1;
    }

    unfoldable pub issue_auth_session : Request → UserRow → Db U T V → Db U T V × Response
    unfolding sign_tokens payload_of
    issue_auth_session req user db =
        let tokens = issue_tokens req user in
        (
          create_token (new_token req user.id req.session_uuid tokens) db,
          signed_in (user_info user) tokens.token tokens.refresh_token,
        )
