-- ===== src/Routes.antt =====
-- internal/handler/routes.go: which hosts may be opened without signing in. The page that lists the
-- routes is left out.
pub mod Laws
use sir_auth.Base.{
  ℕ, ◌≤◌, String, Char, code, Bool, true, false, ◌==◌, ◌&&◌, ◌||◌, not, Option, none, some, List,
  [], ◌∷◌, leb, ltb, nat_eq, if◌then◌else◌,
}
use sir_auth.Model.{User, RoutePolicy}
use sir_auth.Text.{chars, string, concat, to_lower, trim_space, trim_prefix, byte_len}
use sir_auth.World.{
  Outside, World, M, Exit, halt, next, Result, failed, ok, ◌>>=◌, ◌>>◌, pure, ask, Request,
  Response, stop_if, or_stop, open_store, now_unix,
}
use sir_auth.Http.{http_error, server_error, redirect, same_origin, cookie_domain}
use sir_auth.Store.{set_route_policy, delete_route_policy, list_route_policies, create_system_log}
use sir_auth.Verify.Identities.{invalidate_auth}
use sir_auth.Admin.{session_admin}

-- `authHostName`
unfoldable pub auth_host_name : Outside → String
unfolding cookie_domain trim_prefix
auth_host_name o = concat "auth." (string (trim_prefix (chars (cookie_domain o)) (chars ".")))

-- `validHost`
abbrev in_range : ℕ → ℕ → ℕ → Bool
in_range lo hi n = leb lo n && leb n hi

unfoldable pub is_host_char : Char → Bool
is_host_char c =
    let n = code c in in_range 97 122 n || in_range 48 57 n || nat_eq n 46 || nat_eq n 45

unfoldable pub all_host_chars : List Char → Bool
unfolding is_host_char
all_host_chars [] = true
all_host_chars (c ∷ s) = is_host_char c && all_host_chars s

unfoldable pub valid_host : String → Bool
unfolding all_host_chars byte_len chars
valid_host h = if h == "" || ltb 253 (byte_len (chars h)) then false else all_host_chars (chars h)

-- `policyMap`: host to policy; an error of the database gives the nil map, where no host is public.
abbrev public_of : List RoutePolicy → String → Option Bool
public_of [] host = none
public_of (p ∷ ps) host =
    let rest = public_of ps host in
    elim rest [ none ↦ if p.host == host then some p.is_public else none | some b ↦ some b ]

abbrev map_of : Result (List RoutePolicy) → String → Option Bool
map_of failed host = none
map_of (ok ps) host = public_of ps host

unfoldable pub policy_map : M (String → Option Bool)
policy_map = do rows ← list_route_policies; pure (map_of rows)

-- ── `setRoutePolicy` ──
abbrev pub back_to : String → Response
back_to q = redirect (concat "/admin/routes?" q) 303

unfoldable pub policy_host : Request → String
unfolding to_lower trim_space
policy_host r = string (to_lower (trim_space (chars (r.form "host"))))

-- The guards: the administrator and the host, which is never the host of sir-auth itself.
unfoldable pub policy_form : Request → M User
unfolding session_admin valid_host policy_host auth_host_name
policy_form r = do
  o ← ask
  stop_if (not (same_origin o r)) (http_error "Forbidden: cross-origin request" 403)
  s ← open_store
  or_stop s server_error
  me ← session_admin r
  stop_if (not r.form_ok) (http_error "Bad Request" 400)
  stop_if (not (valid_host (policy_host r)) || policy_host r == auth_host_name o)
      (back_to "err=route-host")
  pure me

abbrev pub new_policy : (host action me_id : String) → ℕ → RoutePolicy
new_policy host action me_id now = record {
  host = host;
  is_public = action == "public";
  updated_at = now;
  updated_by = me_id;
}

unfoldable pub change_policy : (host action me_id : String) → M (Result (Unit {0}))
change_policy host action me_id w = elim (action == "public" || action == "login") [
  | true ↦ (do now ← now_unix; set_route_policy (new_policy host action me_id now)) w
  | false ↦ elim (action == "delete") [
    | true ↦ delete_route_policy host w
    | false ↦ halt (back_to "err=route-host") w
  ]
]

abbrev upper_route_action : String → String
upper_route_action action =
    if action == "public" then "PUBLIC" else if action == "login" then "LOGIN" else "DELETE"

unfoldable pub put_policy : Request → User → M Response
unfolding change_policy
put_policy r me = do
  done ← change_policy (policy_host r) (r.form "action") me.id
  or_stop done (back_to "err=server")
  invalidate_auth
  _ ←
      create_system_log (concat "ROUTE_" (upper_route_action (r.form "action"))) (policy_host r)
        me.id
        (concat "Admin set route policy via /admin/routes: "
          (concat (policy_host r) (concat " → " (r.form "action"))))
  pure (back_to (concat "ok=route-" (r.form "action")))

unfoldable pub edit_route_policy : Request → M Response
unfolding policy_form put_policy
edit_route_policy r = do me ← policy_form r; put_policy r me
