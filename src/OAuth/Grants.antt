-- ===== src/OAuth/Grants.antt =====
-- The two grants of `POST /oauth/token` (internal/handler/oauth.go).
use sir_auth.Base.{
  ℕ, String, Bool, false, ◌==◌, ◌&&◌, ◌||◌, not, Option, none, some, [], ◌∷◌, if◌then◌else◌, ltb,
}
use sir_auth.Model.{User, OAuthClient, AuthCode, RefreshToken}
use sir_auth.Text.{concat}
use sir_auth.World.{
  Outside, M, halt, next, Result, failed, ok, ◌>>=◌, ◌>>◌, pure, ask, Request, Response, stop_if,
  or_stop, some_or_stop, open_store, now_unix, token_json,
}
use sir_auth.Http.{write_oauth_error}
use sir_auth.Token.{generate_access_token}
use sir_auth.Store.{get_client_by_id, get_user_by_id, create_system_log}
use sir_auth.Store.Codes.{
  Consumed, consumed, missing, invalid, db_error, consume_auth_code, create_refresh_token,
  get_refresh_token, claim_refresh_token,
}
use sir_auth.OAuth.Uri.{verify_pkce, loopback_uri_matches}

abbrev pub invalid_grant : Response
invalid_grant = write_oauth_error "invalid_grant" 400

abbrev pub oauth_server_error : Response
oauth_server_error = write_oauth_error "server_error" 500

abbrev pub found : {A : Type 0} → Result (Option A) → Option A
found failed = none
found (ok o) = o

-- A public client has no secret; any other has to show its own.
abbrev pub shows_secret : OAuthClient → String → Bool
shows_secret c secret = c.is_public || (not (secret == "") && c.client_secret == secret)

-- The client of the request, if it is known and has shown its secret.
abbrev pub authenticated : Result (Option OAuthClient) → String → Option OAuthClient
authenticated r secret = elim (found r) [
  | none ↦ none
  | some c ↦ if shows_secret c secret then some c else none
]

abbrev pub token_response : (access refresh scope : String) → Response
token_response access refresh scope = record {
  status = 200;
  headers = ("Content-Type", "application/json") ∷ ("Cache-Control", "no-store") ∷ [];
  cookie = none;
  body = token_json access refresh scope;
}

abbrev pub code_or_stop : Consumed → M AuthCode
code_or_stop (consumed c) w = next c w
code_or_stop missing w = halt invalid_grant w
code_or_stop invalid w = halt invalid_grant w
code_or_stop db_error w = halt oauth_server_error w

-- The proof of possession and the redirect URI fit the code.
abbrev pub fits_code : Outside → OAuthClient → AuthCode → (verifier redirect_uri : String) → Bool
fits_code o client ac verifier redirect_uri = not (
    ((client.is_public || not (ac.code_challenge == ""))
      && not (verify_pkce o ac.code_challenge verifier))
    || (client.is_public && not (ac.redirect_uri == redirect_uri))
    || not (loopback_uri_matches o ac.redirect_uri redirect_uri))

-- The first part of both grants: the parameters, the store, the client and its secret.
unfoldable pub token_client : Request → Bool → M OAuthClient
token_client r incomplete = do
  stop_if incomplete (write_oauth_error "invalid_request" 400)
  s ← open_store
  or_stop s oauth_server_error
  row ← get_client_by_id (r.form "client_id")
  some_or_stop (authenticated row (r.form "client_secret")) (write_oauth_error "invalid_client" 401)

unfoldable pub check_code : Request → OAuthClient → Consumed → M AuthCode
check_code r client outcome = do
  ac ← code_or_stop outcome
  now ← now_unix
  stop_if (ltb ac.expires_at now || not (ac.client_id == r.form "client_id")) invalid_grant
  o ← ask
  stop_if (not (fits_code o client ac (r.form "code_verifier") (r.form "redirect_uri")))
      invalid_grant
  pure ac

-- The code is taken from the table before it is checked against the request.
unfoldable pub accept_code : Request → OAuthClient → M AuthCode
unfolding check_code
accept_code r client = do outcome ← consume_auth_code (r.form "code"); check_code r client outcome

abbrev pub owner_or_stop : String → M User
owner_or_stop id = do owner ← get_user_by_id id; some_or_stop (found owner) oauth_server_error

-- An access token and a refresh token for the user.
unfoldable pub issue_tokens : (client_id scope : String) → User → M (String × RefreshToken)
issue_tokens client_id scope user = do
  o ← ask
  signed ← generate_access_token user.id user.email user.role scope (o.getenv "JWT_SECRET")
  access ← or_stop signed oauth_server_error
  made ← create_refresh_token user.id client_id scope
  rt ← or_stop made oauth_server_error
  pure (access, rt)

unfoldable pub grant_code : Request → AuthCode → M Response
unfolding issue_tokens
grant_code r ac = do
  user ← owner_or_stop ac.user_id
  issued ← issue_tokens (r.form "client_id") ac.scope user
  _ ←
      create_system_log "USER_LOGIN" user.id user.id
        (concat "User logged in via Authorization Code: " user.email)
  pure (token_response issued.0 issued.1.token ac.scope)

-- `exchangeAuthCode`
unfoldable pub exchange_auth_code : Request → M Response
unfolding token_client accept_code grant_code
exchange_auth_code r = do
  client ←
      token_client r
        (r.form "code" == "" || r.form "redirect_uri" == "" || r.form "client_id" == "")
  ac ← accept_code r client
  grant_code r ac

-- `rt == nil || rt.Revoked || …`; the clock is read in any case.
abbrev pub grantable : Option RefreshToken → String → ℕ → Option RefreshToken
grantable none client_id now = none
grantable (some t) client_id now =
    if t.revoked || not (t.client_id == client_id) || ltb t.expires_at now then none else some t

abbrev pub is_claimed : Result Bool → Bool
is_claimed failed = false
is_claimed (ok b) = b

-- The token's row and its approved owner; then the row is claimed.
unfoldable pub live_grant : Request → M RefreshToken
live_grant r = do
  row ← get_refresh_token (r.form "refresh_token")
  maybe ← or_stop row oauth_server_error
  now ← now_unix
  some_or_stop (grantable maybe (r.form "client_id") now) invalid_grant

unfoldable pub find_grant : Request → M (RefreshToken × User)
unfolding live_grant
find_grant r = do
  rt ← live_grant r
  user ← owner_or_stop rt.user_id
  stop_if (not user.approved) invalid_grant
  pure (rt, user)

unfoldable pub claim_grant : Request → M (Unit {0})
claim_grant r = do
  mine ← claim_refresh_token (r.form "refresh_token")
  stop_if (not (is_claimed mine)) invalid_grant

unfoldable pub rotate : Request → RefreshToken × User → M Response
unfolding issue_tokens
rotate r g = do
  issued ← issue_tokens (r.form "client_id") g.0.scope g.1
  pure (token_response issued.0 issued.1.token g.0.scope)

-- `exchangeRefreshToken`
unfoldable pub exchange_refresh_token : Request → M Response
unfolding token_client find_grant claim_grant rotate
exchange_refresh_token r = do
  client ← token_client r (r.form "refresh_token" == "" || r.form "client_id" == "")
  g ← find_grant r
  claim_grant r
  rotate r g
