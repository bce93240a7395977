-- ===== src/Pages.antt =====
-- The pages of the signed-in shell: `AccountPage` and `TokensPage`
-- (internal/handler/account.go) and `AdminPage` (internal/handler/admin.go).
-- A page is what it shows; the markup and the order of the rows are left out.
pub mod Laws
use sir_auth.Base.{
  ℕ, ◌+◌, ◌-◌, ◌*◌, ◌/◌, String, Bool, true, false, ◌==◌, ◌&&◌, ◌||◌, not, Option, none, some, List,
  [], ◌∷◌, ◌++◌, map, ltb, leb, if◌then◌else◌, any, keep, find,
}
use sir_auth.Model.{User, ApiToken, RoutePolicy}
use sir_auth.Text.{chars, string, concat, to_lower, trim_prefix}
use sir_auth.World.{
  Outside, World, M, Exit, halt, next, Result, failed, ok, ◌>>=◌, ◌>>◌, pure, ask, Request,
  Response, stop_if, or_stop, open_store, now_ns, second, Cell, words, number, tables, WatcherRoute,
  each, link, tick,
}
use sir_auth.Http.{http_error, server_error, method_not_allowed}
use sir_auth.Times.{fmt_time, time_tag}
use sir_auth.Store.{list_users, list_route_policies}
use sir_auth.Store.Tokens.{count_active_api_tokens, list_api_tokens}
use sir_auth.Store.Logs.{LogFilter, Bucket, count_logs, count_by, by_host}
use sir_auth.Cache.{TtlCache}
use sir_auth.Cache
use sir_auth.Session.{page_user}
use sir_auth.Admin.{session_admin}
use sir_auth.Account.{create_token}
use sir_auth.Routes.{auth_host_name, policy_map, edit_route_policy}

abbrev pub show_tables : String → List Cell → List (List (List Cell)) → Response
show_tables name values rows = record {
  status = 200;
  headers = ("Content-Type", "text/html; charset=utf-8") ∷ [];
  cookie = none;
  body = tables name values rows;
}

-- `flashHTML`: only a fixed text is shown, for the code that the query names.
unfoldable pub flash_ok : String → String
flash_ok code =
    if code == "password"
    then "Password changed. Your other sessions were signed out."
    else if code == "token-renamed"
    then "Token renamed."
    else if code == "token-revoked"
    then "Token revoked. Requests using it are refused from now on."
    else if code == "route-public"
    then "Route is now public."
    else if code == "route-login"
    then "Route now requires login."
    else if code == "route-delete"
    then "Route policy deleted."
    else ""

unfoldable pub flash_err : String → String
flash_err code =
    if code == "bad-password"
    then "Current password is incorrect."
    else if code == "pw-short"
    then "Password must be at least 8 characters."
    else if code == "pw-mismatch"
    then "Passwords do not match."
    else if code == "confirm"
    then "Type DELETE (in capitals) to confirm."
    else if code == "last-admin"
    then "You are the last approved admin, so you cannot delete your account."
    else if code == "token-name"
    then "Token name must be 1–64 characters."
    else if code == "token-limit"
    then "You already have 50 active tokens. Revoke one first."
    else if code == "token-expiry"
    then "Choose a valid token lifetime."
    else if code == "token-missing"
    then "Token not found (or already revoked)."
    else if code == "server"
    then "Something went wrong. Please try again."
    else if code == "route-host"
    then "That host cannot be managed here."
    else ""

unfoldable pub flash : Request → String
unfolding flash_ok flash_err
flash r =
    if flash_ok (r.query "ok") == "" then flash_err (r.query "err") else flash_ok (r.query "ok")

-- The links of the navigation in `appPage`.
unfoldable pub nav_links : User → List String
nav_links u =
    "/"
    ∷ "/account"
    ∷ "/account/tokens"
    ∷ "/account/usage"
    ∷ (if u.role == "admin" then "/admin" ∷ [] else [])

-- `AccountPage`
unfoldable pub account_page : Request → M Response
unfolding flash fmt_time
account_page r = do
  u ← page_user r
  o ← ask
  pure (
      show_tables "account"
        (words (flash r) ∷ words u.email ∷ words u.role ∷ words (fmt_time o u.created_at) ∷ []) [])

-- ── `TokensPage` ──
pub data TokenStatus : Type 0 where
  never_expires : TokenStatus
  revoked_on expired_on expires_soon expires_on : ℕ → TokenStatus

abbrev expiry_status : Option ℕ → ℕ → TokenStatus
expiry_status none now = never_expires
expiry_status (some e) now =
    if leb e now
    then expired_on e
    else if ltb (e - now) (7 * 24 * 3600)
    then expires_soon e
    else expires_on e

unfoldable pub token_status : ApiToken → ℕ → TokenStatus
token_status t now = elim t.revoked_at [
  | some at_time ↦ revoked_on at_time
  | none ↦ expiry_status t.expires_at now
]

unfoldable pub status_cells : TokenStatus → M (List Cell)
unfolding time_tag
status_cells never_expires w = next (words "Never expires" ∷ []) w
status_cells (revoked_on t) w = (do c ← time_tag t; pure (words "Revoked" ∷ c ∷ [])) w
status_cells (expired_on t) w = (do c ← time_tag t; pure (words "Expired" ∷ c ∷ [])) w
status_cells (expires_soon t) w = (do c ← time_tag t; pure (words "Expires" ∷ c ∷ [])) w
status_cells (expires_on t) w = (do c ← time_tag t; pure (words "Expires" ∷ c ∷ [])) w

unfoldable pub last_used : ApiToken → M (List Cell)
unfolding time_tag
last_used t w = elim t.last_used_at [
  | none ↦ next (words "Never used" ∷ []) w
  | some u ↦ (do c ← time_tag u; pure (c ∷ words t.last_used_ip ∷ [])) w
]

-- What can be done with a token: its requests can be seen, and one that is not revoked can be
-- renamed and revoked.
abbrev token_actions : ApiToken → List Cell
token_actions t =
    link "/account/usage" (("token", t.id) ∷ [])
    ∷ elim t.revoked_at [ none ↦ words "Rename" ∷ words "Revoke" ∷ [] | some _ ↦ [] ]

unfoldable pub token_line : ℕ → ApiToken → M (List Cell)
unfolding token_status status_cells last_used time_tag
token_line now t = do
  status ← status_cells (token_status t now)
  used ← last_used t
  created ← time_tag t.created_at
  pure (words t.name ∷ words t.prefix ∷ created ∷ (status ++ used ++ token_actions t))

unfoldable pub show_tokens : Request → M Response
unfolding token_line flash each
show_tokens r = do
  u ← page_user r
  found ← list_api_tokens u.id
  ts ← or_stop found server_error
  now ← now_ns
  rows ← each (token_line (now / second)) ts
  pure (show_tables "tokens" (words (flash r) ∷ []) (rows ∷ []))

unfoldable pub tokens_page : Request → M Response
unfolding show_tokens
tokens_page r w = elim (r.method == "POST") [ true ↦ create_token r w | false ↦ show_tokens r w ]

-- ── `AdminPage` ──
abbrev user_line : User → List Cell
user_line u = words u.email ∷ words u.role ∷ number u.created_at ∷ []

-- The buttons of a row; the administrator's own row has none.
abbrev buttons : User → User → List Cell
buttons me u =
    if not u.approved
    then words "approve" ∷ words "reject" ∷ []
    else if u.id == me.id
    then words "you" ∷ []
    else words "revoke" ∷ words "delete" ∷ link "/admin/stats" (("user", u.id) ∷ []) ∷ []

abbrev admin_line : User → User → List Cell
admin_line me u = user_line u ++ buttons me u

unfoldable pub admin_page : Request → M Response
admin_page r = do
  stop_if (not (r.method == "GET")) method_not_allowed
  s ← open_store
  or_stop s server_error
  me ← session_admin r
  rows ← list_users
  users ← or_stop rows server_error
  pure (
      show_tables "users" [] (
        map (admin_line me) (keep (λ u. not u.approved) users)
        ∷ map (admin_line me) (keep (λ u. u.approved) users)
        ∷ []))
