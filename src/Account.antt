-- ===== src/Account.antt =====
-- internal/handler/account.go: what users do to their own account and tokens.
pub mod Laws
pub mod LastAdmin
pub mod Cutoff
pub mod Minting
pub mod Tokens
use sir_auth.Base.{
  ℕ, suc, zero, ◌+◌, ◌*◌, ◌/◌, String, Bool, true, false, ◌==◌, ◌&&◌, ◌||◌, not, Option, none, some,
  List, [], ◌∷◌, if◌then◌else◌, leb, ltb, length,
}
use sir_auth.Model.{User, ApiToken}
use sir_auth.Text.{chars, string, concat, trim_space, byte_len}
use sir_auth.World.{
  Outside, World, M, halt, next, Result, failed, ok, ◌>>=◌, ◌>>◌, pure, ask, Request, Response,
  stop_if, or_stop, some_or_stop, respond, open_store, second, now_unix, now_ns,
}
use sir_auth.Http.{redirect, unstored_page, with_cookie, session_cookie, session_ttl}
use sir_auth.Token.{generate_token, verify_password, hash_password, Pat, new_pat}
use sir_auth.Store.{
  is_approved_admin, count_approved_admins, set_password, bump_sessions, delete_user_data,
  create_system_log,
}
use sir_auth.Store.Tokens.{
  count_active_api_tokens, create_api_token, rename_api_token, revoke_api_token,
}
use sir_auth.Verify.Identities.{invalidate_auth}
use sir_auth.Session.{post_user}

-- `validatePassword` of internal/handler/user.go: a code of `flashErr`, or "".
unfoldable pub validate_password : (password confirm : String) → String
unfolding byte_len
validate_password password confirm =
    if ltb (byte_len (chars password)) 8
    then "pw-short"
    else if password == confirm
    then ""
    else "pw-mismatch"

abbrev back : String → String → Response
back page q = redirect (concat page q) 303

-- A new cookie, if the token could be signed.
abbrev sign_in_again : Outside → ℕ → Result String → Response → Response
sign_in_again o ttl failed r = r
sign_in_again o ttl (ok jwt) r = with_cookie (session_cookie o jwt (some (ttl / second))) r

-- `AccountPassword`
unfoldable pub account_password : Request → M Response
unfolding post_user validate_password
account_password r = do
  u ← post_user r
  o ← ask
  stop_if (not (verify_password o (r.form "current_password") u.password_hash))
      (back "/account?" "err=bad-password")
  let reason = validate_password (r.form "new_password") (r.form "confirm_password")
  stop_if (not (reason == "")) (back "/account?" (concat "err=" reason))
  h ← hash_password (r.form "new_password")
  hash ← or_stop h (back "/account?" "err=server")
  now ← now_unix
  stored ← set_password u.id hash "" now
  or_stop stored (back "/account?" "err=server")
  bumped ← bump_sessions u.id now
  or_stop bumped (back "/account?" "err=server")
  invalidate_auth
  let ttl = session_ttl o
  signed ← generate_token u.id u.email u.role "session" (o.getenv "JWT_SECRET") ttl
  _ ← create_system_log "CHANGE_PASSWORD" u.id u.id "User changed password via /account"
  pure (sign_in_again o ttl signed (back "/account?" "ok=password"))

-- `AccountLogoutAll`, after its guards and whole.
unfoldable pub end_sessions : User → M Response
end_sessions u = do
  now ← now_unix
  bumped ← bump_sessions u.id now
  or_stop bumped (back "/account?" "err=server")
  invalidate_auth
  _ ← create_system_log "LOGOUT_ALL" u.id u.id "User logged out everywhere"
  o ← ask
  pure (with_cookie (session_cookie o "" none) (redirect "/login" 303))

unfoldable pub account_logout_all : Request → M Response
unfolding post_user end_sessions
account_logout_all r = post_user r >>= end_sessions

-- `checkSelfDelete`
unfoldable pub check_self_delete : User → ℕ → String
check_self_delete u approved_admins =
    if is_approved_admin u && leb approved_admins 1 then "last-admin" else ""

-- `AccountDelete`, after its guards and whole.
unfoldable pub delete_self : Request → User → M Response
unfolding check_self_delete
delete_self r u = do
  stop_if (not (r.form "confirm" == "DELETE")) (back "/account?err=" "confirm")
  o ← ask
  stop_if (not (verify_password o (r.form "password") u.password_hash))
      (back "/account?err=" "bad-password")
  counted ← count_approved_admins
  admins ← or_stop counted (back "/account?err=" "server")
  let reason = check_self_delete u admins
  stop_if (not (reason == "")) (back "/account?err=" reason)
  done ← delete_user_data u.id
  or_stop done (back "/account?err=" "server")
  invalidate_auth
  _ ← create_system_log "DELETE_SELF" u.id u.id (concat "User deleted own account: " u.email)
  pure (with_cookie (session_cookie o "" none) (redirect "/login" 303))

unfoldable pub account_delete : Request → M Response
unfolding post_user delete_self
account_delete r = post_user r >>= delete_self r

-- ── Personal access tokens ──
abbrev pub max_active_tokens : ℕ
max_active_tokens = 50

abbrev pub day : ℕ
day = 24 * 3600

-- `parseExpiry`: `none` refuses the choice, `some none` never expires. A day has 24 hours: the
-- location of `now` is taken to have no change of clocks.
unfoldable pub parse_expiry : String → ℕ → Option (Option ℕ)
parse_expiry v now =
    if v == "never"
    then some none
    else if v == "30"
    then some (some (now + 30 * day))
    else if v == "90"
    then some (some (now + 90 * day))
    else if v == "365"
    then some (some (now + 365 * day))
    else none

-- `validTokenName`: from 1 to 64 characters.
unfoldable pub valid_token_name : String → Bool
valid_token_name name = leb 1 (length (chars name)) && leb (length (chars name)) 64

abbrev token_row : User → String → Pat → ℕ → Option ℕ → ApiToken
token_row u name pat now expires_at = record {
  id = "";
  user_id = u.id;
  name = name;
  token_hash = pat.hash;
  prefix = pat.prefix;
  created_at = now;
  expires_at = expires_at;
  revoked_at = none;
  last_used_at = none;
  last_used_ip = "";
}

-- What `createToken` takes from the form, and when.
pub record NewToken : Type 0 where
  pub name : String
  pub now : ℕ
  pub expires_at : Option ℕ

-- `createToken` after its guards, up to the draw and from there; the raw token is on the page, and
-- nowhere else.
unfoldable pub check_token : Request → User → M NewToken
unfolding parse_expiry valid_token_name trim_space
check_token r u = do
  let name = string (trim_space (chars (r.form "name")))
  stop_if (not (valid_token_name name)) (back "/account/tokens?err=" "token-name")
  now ← now_unix
  expires_at ←
      some_or_stop (parse_expiry (r.form "expires") now)
        (back "/account/tokens?err=" "token-expiry")
  counted ← count_active_api_tokens u.id now
  n ← or_stop counted (back "/account/tokens?err=" "server")
  stop_if (leb max_active_tokens n) (back "/account/tokens?err=" "token-limit")
  pure (record { name = name; now = now; expires_at = expires_at })

unfoldable pub announce_pat : User → NewToken → Pat → Result String → M Response
announce_pat u f pat made = do
  id ← or_stop made (back "/account/tokens?err=" "server")
  invalidate_auth
  _ ← create_system_log "CREATE_TOKEN" id u.id (concat "User created token " pat.prefix)
  pure (unstored_page "token-created" (f.name ∷ pat.raw ∷ []))

unfoldable pub keep_pat : User → NewToken → Pat → M Response
unfolding announce_pat
keep_pat u f pat =
    create_api_token (token_row u f.name pat f.now f.expires_at) >>= announce_pat u f pat

unfoldable pub mint_token : User → NewToken → M Response
unfolding keep_pat
mint_token u f = do
  drawn ← new_pat
  pat ← or_stop drawn (back "/account/tokens?err=" "server")
  keep_pat u f pat

unfoldable pub create_token : Request → M Response
unfolding post_user check_token mint_token
create_token r = do u ← post_user r; f ← check_token r u; mint_token u f

-- `TokenRename`
unfoldable pub token_rename : Request → M Response
unfolding post_user valid_token_name trim_space
token_rename r = do
  u ← post_user r
  let name = string (trim_space (chars (r.form "name")))
  stop_if (not (valid_token_name name)) (back "/account/tokens?" "err=token-name")
  done ← rename_api_token u.id (r.form "id") name
  found ← or_stop done (back "/account/tokens?" "err=server")
  stop_if (not found) (back "/account/tokens?" "err=token-missing")
  invalidate_auth
  pure (back "/account/tokens?" "ok=token-renamed")

-- `TokenRevoke`, after its guards and whole.
unfoldable pub revoke_mine : Request → User → M Response
revoke_mine r u = do
  now ← now_unix
  done ← revoke_api_token u.id (r.form "id") now
  found ← or_stop done (back "/account/tokens?" "err=server")
  stop_if (not found) (back "/account/tokens?" "err=token-missing")
  invalidate_auth
  _ ← create_system_log "REVOKE_TOKEN" (r.form "id") u.id "User revoked token"
  pure (back "/account/tokens?" "ok=token-revoked")

unfoldable pub token_revoke : Request → M Response
unfolding post_user revoke_mine
token_revoke r = post_user r >>= revoke_mine r
