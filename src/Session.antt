-- ===== src/Session.antt =====
-- internal/handler/session.go and the guards of internal/handler/ui.go: browser sessions.
pub mod Guards
pub mod SignIn
use sir_auth.Base.{
  ℕ, suc, zero, ◌+◌, ◌/◌, String, Char, code, Bool, true, false, ◌==◌, ◌&&◌, ◌||◌, not, Option,
  none, some, List, [], ◌∷◌, if◌then◌else◌, ltb, nat_eq,
}
use sir_auth.Model.{User}
use sir_auth.Text.{chars, string, concat, cut_prefix}
use sir_auth.World.{
  Outside, World, M, halt, next, Result, failed, ok, ◌>>=◌, ◌>>◌, pure, ask, Request, Response,
  Claims, stop_if, or_stop, some_or_stop, respond, open_store, second,
}
use sir_auth.Http.{
  http_error, server_error, method_not_allowed, redirect, show_page, with_cookie, session_cookie,
  session_ttl, safe_redirect, same_origin,
}
use sir_auth.Token.{generate_token, verify_password}
use sir_auth.Store.{get_user_by_email, get_user_by_id}
use sir_auth.Verify.Identities.{Identity, cookie_identity, session_claims, admits_cookie}
use sir_auth.OAuth.{pending_msg, wrong_password}

-- `rawRD`: everything after the first `rd=` that begins the query or follows an `&`.
abbrev or_try : Option (List Char) → List Char → List Char
or_try none s = s
or_try (some t) s = t

unfoldable pub after_marker : List Char → List Char → List Char
unfolding cut_prefix
after_marker p [] = []
after_marker p (c ∷ s) = or_try (cut_prefix p (c ∷ s)) (after_marker p s)

unfoldable pub raw_rd : String → String
unfolding after_marker chars
raw_rd query = string (after_marker (chars "&rd=") ("&" ∷ chars query))

abbrev login_page : ℕ → (rd msg : String) → Response
login_page code rd msg = show_page code "session-login" (rd ∷ msg ∷ [])

abbrev pub found_user : Result (Option User) → Option User
found_user failed = none
found_user (ok o) = o

-- `err != nil || user == nil || !VerifyPassword(…)`
abbrev pub with_right_password : Outside → String → Result (Option User) → Option User
with_right_password o password r = elim (found_user r) [
  | none ↦ none
  | some u ↦ if verify_password o password u.password_hash then some u else none
]

abbrev login_or_go : Request → Outside → Option Identity → Response
login_or_go r o none = login_page 200 (raw_rd r.raw_query) ""
login_or_go r o (some id) = redirect (safe_redirect o (raw_rd r.raw_query)) 302

unfoldable pub login_get : Request → M Response
unfolding raw_rd
login_get r = do id ← cookie_identity r; o ← ask; pure (login_or_go r o id)

unfoldable pub login_post : Request → M Response
login_post r = do
  stop_if (not r.form_ok) (http_error "Bad Request" 400)
  let rd = r.form "rd"
  s ← open_store
  or_stop s server_error
  row ← get_user_by_email (r.form "email")
  o ← ask
  user ←
      some_or_stop (with_right_password o (r.form "password") row)
        (login_page 401 rd wrong_password)
  stop_if (not user.approved) (login_page 403 rd pending_msg)
  let ttl = session_ttl o
  signed ← generate_token user.id user.email user.role "session" (o.getenv "JWT_SECRET") ttl
  jwt ← or_stop signed server_error
  pure
      (with_cookie (session_cookie o jwt (some (ttl / second))) (redirect (safe_redirect o rd) 302))

-- `Login`
unfoldable pub login : Request → M Response
unfolding login_get login_post
login r w = elim (r.method == "GET") [
  | true ↦ login_get r w
  | false ↦ elim (r.method == "POST") [ true ↦ login_post r w | false ↦ halt method_not_allowed w ]
]

-- `Logout`
unfoldable pub logout : Request → M Response
logout r = do o ← ask; pure (with_cookie (session_cookie o "" none) (redirect "/login" 302))

-- Where a page without a session sends the browser.
abbrev pub to_login : Request → Response
to_login r =
    redirect
      (concat "/login?rd=https://"
        (concat r.host (if r.method == "GET" then r.request_uri else "/")))
      302

-- The row behind a cookie, read from the database at every request.
abbrev pub session_row : Option Claims → M (Option User)
session_row none w = next none w
session_row (some c) w = (do row ← get_user_by_id c.sub; or_stop row server_error) w

abbrev pub admitted : Option Claims → Option User → Option User
admitted none u = none
admitted (some c) none = none
admitted (some c) (some u) = if admits_cookie u c then some u else none

-- `sessionUser`
unfoldable pub session_user : Request → M User
unfolding session_claims
session_user r = do
  c ← session_claims r
  u ← session_row c
  some_or_stop (admitted c u) (to_login r)

-- `pageUser` and `postUser`
unfoldable pub page_user : Request → M User
unfolding session_user
page_user r = do
  stop_if (not (r.method == "GET" || r.method == "HEAD")) method_not_allowed
  s ← open_store
  or_stop s server_error
  session_user r

unfoldable pub post_user : Request → M User
unfolding session_user
post_user r = do
  stop_if (not (r.method == "POST")) method_not_allowed
  o ← ask
  stop_if (not (same_origin o r)) (http_error "Forbidden: cross-origin request" 403)
  s ← open_store
  or_stop s server_error
  u ← session_user r
  stop_if (not r.form_ok) (http_error "Bad Request" 400)
  pure u
