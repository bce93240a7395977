-- ===== src/Home.antt =====
-- The watcher's routes, and the two pages that show them: `Home` (internal/handler/ui.go) and
-- `AdminRoutes` (internal/handler/routes.go). The markup and the order of the rows are left out.
use sir_auth.Base.{
  ℕ, ◌+◌, ◌-◌, ◌*◌, ◌/◌, String, Bool, true, false, ◌==◌, ◌&&◌, not, Option, none, some, List, [],
  ◌∷◌, map, if◌then◌else◌, any, keep, find,
}
use sir_auth.Model.{RoutePolicy}
use sir_auth.Text.{chars, string, concat, to_lower, trim_prefix}
use sir_auth.World.{
  Outside, M, next, Result, failed, ok, ◌>>=◌, ◌>>◌, pure, ask, Request, Response, stop_if, or_stop,
  open_store, now_ns, second, Cell, words, number, WatcherRoute, tick,
}
use sir_auth.Http.{http_error, server_error, method_not_allowed}
use sir_auth.Store.{list_route_policies}
use sir_auth.Store.Tokens.{count_active_api_tokens}
use sir_auth.Store.Logs.{LogFilter, Bucket, count_logs, count_by, by_host}
use sir_auth.Cache.{TtlCache}
use sir_auth.Cache
use sir_auth.Session.{page_user}
use sir_auth.Admin.{session_admin}
use sir_auth.Routes.{auth_host_name, policy_map, edit_route_policy}
use sir_auth.Pages.{show_tables}

-- ── The watcher's routes ──
unfoldable pub watcher_url : Outside → String
watcher_url o =
    if o.getenv "WATCHER_URL" == ""
    then "http://sir-watcher:8080/routes"
    else o.getenv "WATCHER_URL"

abbrev of_answer : Option (List WatcherRoute) → Result (List WatcherRoute)
of_answer none = failed
of_answer (some rs) = ok rs

-- `loadRoutes`
unfoldable pub load_routes : String → M (Result (List WatcherRoute))
load_routes url w = next (of_answer (w.outside.watch w.calls url)) (tick w)

abbrev pub routes_cache : TtlCache (List WatcherRoute)
routes_cache = record {
  entries = λ w. w.routes_cache;
  set_entries = λ m w. record w { routes_cache = m };
  ttl = 60 * second;
  max = 10;
  load = load_routes;
}

unfoldable pub watched_routes : M (Result (List WatcherRoute))
unfolding watcher_url
watched_routes = do o ← ask; Cache.get routes_cache (watcher_url o)

-- ── `Home` ──
abbrev lower_host : WatcherRoute → String
lower_host rt = string (to_lower (chars rt.hostname))

abbrev or_zero : Result ℕ → ℕ
or_zero failed = 0
or_zero (ok n) = n

abbrev is_true : Option Bool → Bool
is_true none = false
is_true (some b) = b

-- Every link is to HTTPS.
unfoldable pub route_link : WatcherRoute → String
unfolding trim_prefix
route_link rt =
    let link = if rt.url == "" then concat "https://" rt.hostname else rt.url in
    concat "https://"
      (string (trim_prefix (trim_prefix (chars link) (chars "http://")) (chars "https://")))

abbrev badge : (String → Option Bool) → WatcherRoute → String
badge policies rt =
    if rt.auth && not (is_true (policies (lower_host rt))) then "sign-in" else "public"

abbrev card : (String → Option Bool) → WatcherRoute → List Cell
card policies rt =
    words (route_link rt) ∷ words rt.name ∷ words (badge policies rt) ∷ words rt.hostname ∷ []

-- The policies are read only when there are routes to show.
unfoldable pub cards : Result (List WatcherRoute) → M (List (List Cell))
cards failed w = next ((words "The service list is unavailable right now." ∷ []) ∷ []) w
cards (ok []) w = next ((words "No services are registered." ∷ []) ∷ []) w
cards (ok (rt ∷ rts)) w = (do ps ← policy_map; pure (map (card ps) (rt ∷ rts))) w

abbrev day_of : ℕ → String → LogFilter
day_of now user_id = record {
  from = now - 24 * 3600 * second;
  to = now + 60 * second;
  user_id = user_id;
  token_id = "";
  host = "";
}

unfoldable pub home : Request → M Response
unfolding watched_routes cards
home r = do
  stop_if (not (r.url_path == "/")) (http_error "404 page not found" 404)
  u ← page_user r
  now ← now_ns
  n ← count_logs (day_of now u.id)
  k ← count_active_api_tokens u.id (now / second)
  routes ← watched_routes
  rows ← cards routes
  pure (
      show_tables "home" (number (or_zero n) ∷ number (or_zero k) ∷ words u.email ∷ []) (rows ∷ []))

-- ── `AdminRoutes` ──
pub data Access : Type 0 where
  own_host label_public policy_public login_required stale : Access

abbrev policy_access : Option RoutePolicy → Access
policy_access none = login_required
policy_access (some p) = if p.is_public then policy_public else login_required

abbrev policy_for : List RoutePolicy → String → Option RoutePolicy
policy_for ps host = find (λ p. p.host == host) ps

-- What the page says of a route that the watcher lists, and of a policy that fits none.
unfoldable pub route_access : Outside → List RoutePolicy → WatcherRoute → Access
unfolding auth_host_name
route_access o ps rt =
    if lower_host rt == auth_host_name o
    then own_host
    else if not rt.auth
    then label_public
    else policy_access (policy_for ps (lower_host rt))

unfoldable pub policy_row_access : Result (List WatcherRoute) → RoutePolicy → Access
policy_row_access (ok rts) p = stale
policy_row_access failed p = policy_access (some p)

abbrev access_words : Access → String
access_words own_host = "sir-auth · always public"
access_words label_public = "Public (container label)"
access_words policy_public = "Public"
access_words login_required = "Login required"
access_words stale = "stale · no current route"

abbrev or_none : {A : Type 0} → Result (List A) → List A
or_none failed = []
or_none (ok xs) = xs

abbrev hits : List Bucket → String → ℕ
hits bs host = elim (find (λ b. b.key == host) bs) [ none ↦ 0 | some b ↦ b.n ]

abbrev route_row : Outside → List RoutePolicy → List Bucket → WatcherRoute → List Cell
route_row o ps bs rt =
    words (lower_host rt)
    ∷ words rt.name
    ∷ number (hits bs (lower_host rt))
    ∷ words (access_words (route_access o ps rt))
    ∷ []

abbrev policy_row : Result (List WatcherRoute) → List Bucket → RoutePolicy → List Cell
policy_row rts bs p =
    words p.host
    ∷ words ""
    ∷ number (hits bs p.host)
    ∷ words (access_words (policy_row_access rts p))
    ∷ []

abbrev is_listed : List WatcherRoute → RoutePolicy → Bool
is_listed rts p = any (λ rt. lower_host rt == p.host) rts

abbrev month_of : ℕ → LogFilter
month_of now = record {
  from = now - 30 * 24 * 3600 * second;
  to = now + 60 * second;
  user_id = "";
  token_id = "";
  host = "";
}

unfoldable pub show_routes : Request → M Response
unfolding watched_routes route_access policy_row_access
show_routes r = do
  stop_if (not (r.method == "GET")) method_not_allowed
  s ← open_store
  or_stop s server_error
  me ← session_admin r
  rows ← list_route_policies
  ps ← or_stop rows server_error
  now ← now_ns
  counted ← count_by (month_of now) by_host 10000
  routes ← watched_routes
  o ← ask
  let bs = or_none counted
  pure (
      show_tables "routes" [] (
        map (route_row o ps bs) (or_none routes)
        ∷ map (policy_row routes bs) (keep (λ p. not (is_listed (or_none routes) p)) ps)
        ∷ []))

unfoldable pub admin_routes : Request → M Response
unfolding show_routes
admin_routes r w = elim (r.method == "POST") [
  | true ↦ edit_route_policy r w
  | false ↦ show_routes r w
]
