-- ===== src/Server.antt =====
-- main.go: the routes, the middleware around them and the order of what the process does.
use sir_auth.Base.{String, ◌==◌, Option, none, some, List, [], ◌∷◌, if◌then◌else◌}
use sir_auth.Text.{chars, has_prefix}
use sir_auth.World.{M, Request, Response, Claims, pure, json}
use sir_auth.Http.{json_response}
use sir_auth.Middleware.{Handler, auth_middleware, chain, cors_middleware, with_claims}
use sir_auth.Verify.{verify_session}
use sir_auth.OAuth.{authorize, token, revoke}
use sir_auth.Session.{login, logout}
use sir_auth.Account.{
  account_password, account_logout_all, account_delete, token_rename, token_revoke,
}
use sir_auth.Admin.{admin_action, admin_user_detail}
use sir_auth.Register.{register, setup}
use sir_auth.Api.{me, get_user, admin_users, admin_logs}
use sir_auth.Stats.{usage_page, usage_csv, admin_stats, admin_stats_csv}
use sir_auth.Pages.{account_page, tokens_page, admin_page}
use sir_auth.Home.{home, admin_routes}

-- A handler that reads no claims.
abbrev pub plainly : (Request → M Response) → Handler
plainly h ctx r = h r

abbrev pub behind_token : (Claims → Request → M Response) → Handler
behind_token h = chain (with_claims h) (auth_middleware ∷ [])

-- `handleHealth`
unfoldable pub health : Request → M Response
health r = pure (json_response 200 (json (("status", "ok") ∷ [])))

-- The paths that are registered whole.
abbrev pub Table : Type 0
Table = List (String × Handler)

unfoldable pub exact_paths : Table
unfolding health
exact_paths =
    ("/health", plainly health)
    ∷ ("/login", plainly login)
    ∷ ("/logout", plainly logout)
    ∷ ("/session/verify", plainly verify_session)
    ∷ ("/account", plainly account_page)
    ∷ ("/account/password", plainly account_password)
    ∷ ("/account/logout-all", plainly account_logout_all)
    ∷ ("/account/delete", plainly account_delete)
    ∷ ("/account/tokens", plainly tokens_page)
    ∷ ("/account/tokens/rename", plainly token_rename)
    ∷ ("/account/tokens/revoke", plainly token_revoke)
    ∷ ("/account/usage", plainly usage_page)
    ∷ ("/account/usage.csv", plainly usage_csv)
    ∷ ("/oauth/authorize", plainly authorize)
    ∷ ("/oauth/token", plainly token)
    ∷ ("/oauth/revoke", plainly revoke)
    ∷ ("/setup", plainly setup)
    ∷ ("/register", plainly register)
    ∷ ("/admin", plainly admin_page)
    ∷ ("/admin/routes", plainly admin_routes)
    ∷ ("/admin/stats", plainly admin_stats)
    ∷ ("/admin/stats.csv", plainly admin_stats_csv)
    ∷ ("/api/me", behind_token me)
    ∷ ("/api/admin/users", behind_token admin_users)
    ∷ ("/api/admin/logs", behind_token admin_logs)
    ∷ []

-- The subtrees, the longest first; the last takes every path.
unfoldable pub subtrees : Table
subtrees =
    ("/api/admin/users/", behind_token admin_user_detail)
    ∷ ("/api/users/", behind_token get_user)
    ∷ ("/admin/", plainly admin_action)
    ∷ []

unfoldable pub exact : String → Table → Option Handler
exact path [] = none
exact path ((p, h) ∷ t) = if p == path then some h else exact path t

unfoldable pub subtree : String → Table → Handler
unfolding has_prefix
subtree path [] = plainly home
subtree path ((p, h) ∷ t) = if has_prefix (chars path) (chars p) then h else subtree path t

-- The mux: a path that is registered whole, or else the longest subtree. (That a path is first cleaned, or
-- completed by a slash, by a redirect is left out.)
abbrev pub handler_or : Option Handler → Handler → Handler
handler_or none k = k
handler_or (some h) k = h

unfoldable pub mux : Handler
unfolding exact subtree exact_paths subtrees
mux ctx r = handler_or (exact r.url_path exact_paths) (subtree r.url_path subtrees) ctx r

-- What the server does with a request.
unfoldable pub serve : Request → M Response
unfolding mux
serve r = cors_middleware mux none r
