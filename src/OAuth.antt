-- ===== src/OAuth.antt =====
-- internal/handler/oauth.go: the authorization code flow.
pub mod Uri
pub mod Grants
pub mod Laws
pub mod Rotation
pub mod Liveness
pub mod Exchange
pub mod Issue
pub mod Handover
use sir_auth.Base.{
  ℕ, String, Bool, true, false, ◌==◌, ◌&&◌, ◌||◌, not, Option, none, some, List, [], ◌∷◌,
  if◌then◌else◌,
}
use sir_auth.Model.{User, OAuthClient, AuthCode}
use sir_auth.Text.{concat}
use sir_auth.World.{
  Outside, World, M, halt, next, Result, failed, ok, ◌>>=◌, ◌>>◌, pure, ask, Request, Response,
  stop_if, or_stop, some_or_stop, respond, open_store, empty,
}
use sir_auth.Http.{
  plain, http_error, write_error, write_oauth_error, method_not_allowed, redirect, show_page,
  unstored_page, default_to, same_origin,
}
use sir_auth.Token.{verify_password}
use sir_auth.Store.{get_client_by_id, get_user_by_id, get_user_by_email}
use sir_auth.Store.Codes.{create_auth_code, revoke_refresh_token}
use sir_auth.Verify.Identities.{Identity, cookie_identity}
use Uri.{is_loopback_uri, valid_public_authorization}
use Grants.{exchange_auth_code, exchange_refresh_token}

abbrev pub found : {A : Type 0} → Result (Option A) → Option A
found failed = none
found (ok o) = o

abbrev pub pending_msg : String
pending_msg = "Your account is waiting for admin approval."

abbrev pub wrong_password : String
wrong_password = "Incorrect email or password. Please try again."

-- The sign-in page of a client, with the parameters that its form sends on.
abbrev pub login_form : OAuthClient → Request → String → Response
login_form c r msg = show_page 200 "login" (c.name ∷ msg ∷ [])

unfoldable pub with_state : Outside → String → String → String
with_state o url state =
    if state == "" then url else concat url (concat "&state=" (o.query_escape state))

unfoldable pub redirect_with_error : Outside → (redirect_uri state err_code : String) → Response
unfolding with_state
redirect_with_error o redirect_uri state err_code =
    redirect (with_state o (concat redirect_uri (concat "?error=" (o.query_escape err_code))) state)
      302

abbrev connect_or_login : OAuthClient → Request → Option Identity → Response
connect_or_login c r none = login_form c r ""
connect_or_login c r (some id) = unstored_page "connect" (id.email ∷ [])

abbrev pub consent : OAuthClient → Request → M Response
consent c r w = elim c.is_public [
  | true ↦ (do id ← cookie_identity r; pure (connect_or_login c r id)) w
  | false ↦ next (login_form c r "") w
]

-- `showLoginForm`
unfoldable pub show_login_form : Request → M Response
unfolding is_loopback_uri valid_public_authorization
show_login_form r = do
  let client_id = r.query "client_id"
  let redirect_uri = r.query "redirect_uri"
  stop_if (not (r.query "response_type" == "code")) (write_error "unsupported_response_type" 400)
  stop_if (client_id == "" || redirect_uri == "")
      (write_error "invalid_request: missing client_id or redirect_uri" 400)
  o ← ask
  stop_if (not (is_loopback_uri o redirect_uri))
      (write_error "invalid_request: redirect_uri must be a loopback address (RFC 8252 §8.3)" 400)
  s ← open_store
  or_stop s (write_error "server_error" 500)
  row ← get_client_by_id client_id
  client ← some_or_stop (found row) (write_error "invalid_client" 401)
  stop_if
      (not (
        valid_public_authorization o client redirect_uri (r.query "code_challenge")
          (r.query "code_challenge_method") (r.query "state")))
      (write_error "invalid_request" 400)
  consent client r

-- Who asks for a code: the user, and whether a session stands for the password.
pub record Asker : Type 0 where
  pub user : Option User
  pub by_session : Bool

abbrev pub session_asker : Option Identity → M Asker
session_asker none w = next (record { user = none; by_session = false }) w
session_asker (some id) w =
    (do
      u ← get_user_by_id id.id
      pure (elim (found u) [
        | none ↦ record { user = none; by_session = false }
        | some x ↦ record { user = some x; by_session = true }
      ]))
      w

unfoldable pub find_asker : OAuthClient → Request → M Asker
find_asker c r w = elim (c.is_public && r.form "email" == "" && same_origin w.outside r) [
  | true ↦ (do id ← cookie_identity r; session_asker id) w
  | false ↦
      (do
        u ← get_user_by_email (r.form "email")
        pure (record { user = found u; by_session = false }))
        w
]

-- `user == nil || (!authenticatedSession && !VerifyPassword(…))`
abbrev pub proves : Outside → String → Asker → Option User
proves o password a = elim a.user [
  | none ↦ none
  | some u ↦
      if not a.by_session && not (verify_password o password u.password_hash) then none else some u
]

-- The first part of `processAuthorize`: the request and its client.
unfoldable pub authorize_client : Request → M OAuthClient
unfolding is_loopback_uri valid_public_authorization redirect_with_error
authorize_client r = do
  stop_if (not r.form_ok) (write_error "invalid_request" 400)
  let redirect_uri = r.form "redirect_uri"
  let state = r.form "state"
  o ← ask
  stop_if (not (is_loopback_uri o redirect_uri))
      (write_error "invalid_request: invalid redirect_uri" 400)
  s ← open_store
  or_stop s (redirect_with_error o redirect_uri state "server_error")
  row ← get_client_by_id (r.form "client_id")
  client ← some_or_stop (found row) (redirect_with_error o redirect_uri state "invalid_client")
  stop_if
      (not (
        valid_public_authorization o client redirect_uri (r.form "code_challenge")
          (r.form "code_challenge_method") state))
      (write_error "invalid_request" 400)
  pure client

-- The second part: the user.
unfoldable pub authorize_user : Request → OAuthClient → M User
unfolding find_asker
authorize_user r client = do
  asker ← find_asker client r
  o ← ask
  user ← some_or_stop (proves o (r.form "password") asker) (login_form client r wrong_password)
  stop_if (not user.approved) (login_form client r pending_msg)
  pure user

-- The third part: the code.
unfoldable pub issue_code : Request → User → M Response
unfolding redirect_with_error
issue_code r user = do
  let redirect_uri = r.form "redirect_uri"
  let state = r.form "state"
  o ← ask
  made ←
      create_auth_code (r.form "client_id") user.id redirect_uri
        (default_to "openid" (r.form "scope")) (r.form "code_challenge")
  ac ← or_stop made (redirect_with_error o redirect_uri state "server_error")
  pure (
      redirect (with_state o (concat redirect_uri (concat "?code=" (o.query_escape ac.code))) state)
        302)

-- `processAuthorize`
unfoldable pub process_authorize : Request → M Response
unfolding authorize_client authorize_user issue_code
process_authorize r = do
  client ← authorize_client r
  user ← authorize_user r client
  issue_code r user

-- `Authorize`
unfoldable pub authorize : Request → M Response
unfolding show_login_form process_authorize
authorize r w = elim (r.method == "GET") [
  | true ↦ show_login_form r w
  | false ↦ elim (r.method == "POST") [
    | true ↦ process_authorize r w
    | false ↦ halt method_not_allowed w
  ]
]

-- `Token`
unfoldable pub token : Request → M Response
unfolding exchange_auth_code exchange_refresh_token
token r = do
  stop_if (not (r.method == "POST")) method_not_allowed
  stop_if (not r.form_ok) (write_oauth_error "invalid_request" 400)
  λ w. elim (r.form "grant_type" == "authorization_code") [
    | true ↦ exchange_auth_code r w
    | false ↦ elim (r.form "grant_type" == "refresh_token") [
      | true ↦ exchange_refresh_token r w
      | false ↦ halt (write_oauth_error "unsupported_grant_type" 400) w
    ]
  ]

-- `Revoke`: the answer does not tell whether there was such a token.
unfoldable pub revoke : Request → M Response
revoke r = do
  stop_if (not (r.method == "POST")) method_not_allowed
  stop_if (not r.form_ok || r.form "token" == "") (write_oauth_error "invalid_request" 400)
  s ← open_store
  or_stop s (write_oauth_error "server_error" 500)
  _ ← revoke_refresh_token (r.form "token")
  pure (plain 200 empty)
