-- ===== src/Integrity/Pages.antt =====
-- About the pages and the statistics: they change no table.
use sir_auth.Base.{arith, ℕ, String, Bool, true, false, ◌==◌, List, [], ◌∷◌, refl}
use sir_auth.Model.{User, ApiToken}
use sir_auth.World.{Request, Result, failed, ok, WatcherRoute, each, now_ns}
use sir_auth.Cache
use sir_auth.Store.Tokens.{list_api_tokens}
use sir_auth.Store.Logs.{
  LogRow, LogFilter, Grouping, count_logs, count_by, daily_counts, recent_logs, each_log,
}
use sir_auth.Routes.{policy_map}
use sir_auth.Stats.{
  recent_row, count_or_stop, users_if, usage_dropped, recent_page, render_stats, usage_page,
  stats_admin, admin_stats, write_csv, usage_csv, admin_stats_csv,
}
use sir_auth.Times.{time_tag}
use sir_auth.Integrity.Rules.{each-Keeps, test-Keeps, bind-Keeps, pure-Keeps, read-Keeps}
use sir_auth.Pages.{
  TokenStatus, never_expires, revoked_on, expired_on, expires_soon, expires_on, status_cells,
  last_used, token_line, account_page, show_tokens, tokens_page, admin_page,
}
use sir_auth.Home.{
  load_routes, routes_cache, watched_routes, cards, home, show_routes, admin_routes,
}
use sir_auth.Integrity.{IsWf, Keeps}
use sir_auth.Integrity.Readers.{guarding, cache_get-Keeps}
use sir_auth.Integrity.Handlers.{create_token-Keeps, edit_route_policy-Keeps}

list_api_tokens-Keeps : (u : String) → Keeps IsWf (list_api_tokens u)
unfolding list_api_tokens
list_api_tokens-Keeps u = read-Keeps _

count_logs-Keeps : (f : LogFilter) → Keeps IsWf (count_logs f)
unfolding count_logs
count_logs-Keeps f = read-Keeps _

count_by-Keeps : (f : LogFilter) (g : Grouping) (n : ℕ) → Keeps IsWf (count_by f g n)
unfolding count_by
count_by-Keeps f g n = read-Keeps _

daily_counts-Keeps : (day : ℕ → String) (f : LogFilter) → Keeps IsWf (daily_counts day f)
unfolding daily_counts
daily_counts-Keeps day f = read-Keeps _

recent_logs-Keeps : (f : LogFilter) (n k : ℕ) → Keeps IsWf (recent_logs f n k)
unfolding recent_logs
recent_logs-Keeps f n k = read-Keeps _

each_log-Keeps : (f : LogFilter) → Keeps IsWf (each_log f)
unfolding each_log
each_log-Keeps f = read-Keeps _

policy_map-Keeps : Keeps IsWf policy_map
unfolding policy_map
policy_map-Keeps = search (guarding)

-- ── internal/handler/stats.go ──
count_or_stop-Keeps : (f : LogFilter) → Keeps IsWf (count_or_stop f)
unfolding count_or_stop
count_or_stop-Keeps f = search (guarding, count_logs-Keeps)

users_if-Keeps : (b : Bool) (f : LogFilter) → Keeps IsWf (users_if b f)
users_if-Keeps true f = record { kept = (count_by-Keeps f _ _).kept }
users_if-Keeps false f = record { kept = λ w p. p }

usage_dropped-Keeps : Keeps IsWf usage_dropped
unfolding usage_dropped
usage_dropped-Keeps = record { kept = λ w p. p }

recent_page-Keeps : (f : LogFilter) (n : ℕ) → Keeps IsWf (recent_page f n)
unfolding recent_page
recent_page-Keeps f n = search (guarding, recent_logs-Keeps)

ruleset counting = (
  guarding, list_api_tokens-Keeps, count_logs-Keeps, count_by-Keeps, daily_counts-Keeps,
  each_log-Keeps, policy_map-Keeps, count_or_stop-Keeps, users_if-Keeps, usage_dropped-Keeps,
  recent_page-Keeps,
)

time_tag-Keeps : (t : ℕ) → Keeps IsWf (time_tag t)
unfolding time_tag now_ns
time_tag-Keeps t = record { kept = λ w p. p }

recent_row-Keeps : (b : Bool) (l : LogRow) → Keeps IsWf (recent_row b l)
unfolding recent_row
recent_row-Keeps b l = search (guarding, time_tag-Keeps)

recent_rows-Keeps : (b : Bool) (ls : List LogRow) → Keeps IsWf (each (recent_row b) ls)
recent_rows-Keeps b ls = each-Keeps (recent_row-Keeps b) ls

render_stats-Keeps : (r : Request) (u : User) (b : Bool) → Keeps IsWf (render_stats r u b)
unfolding render_stats
render_stats-Keeps r u b = search (counting, recent_rows-Keeps) depth 60 fits 8000

stats_admin-Keeps : (r : Request) → Keeps IsWf (stats_admin r)
unfolding stats_admin
stats_admin-Keeps r = search (guarding) depth 20

write_csv-Keeps : (r : Request) (u n : String) → Keeps IsWf (write_csv r u n)
unfolding write_csv
write_csv-Keeps r u n = search (counting) depth 20

pub usage_page-Keeps : (r : Request) → Keeps IsWf (usage_page r)
unfolding usage_page
usage_page-Keeps r = search (guarding, render_stats-Keeps)

pub admin_stats-Keeps : (r : Request) → Keeps IsWf (admin_stats r)
unfolding admin_stats
admin_stats-Keeps r = search (stats_admin-Keeps, guarding, render_stats-Keeps)

pub usage_csv-Keeps : (r : Request) → Keeps IsWf (usage_csv r)
unfolding usage_csv
usage_csv-Keeps r = search (guarding, write_csv-Keeps)

pub admin_stats_csv-Keeps : (r : Request) → Keeps IsWf (admin_stats_csv r)
unfolding admin_stats_csv
admin_stats_csv-Keeps r = search (stats_admin-Keeps, guarding, write_csv-Keeps)

-- ── The pages ──
pub account_page-Keeps : (r : Request) → Keeps IsWf (account_page r)
unfolding account_page
account_page-Keeps r = search (guarding)

status_cells-Keeps : (s : TokenStatus) → Keeps IsWf (status_cells s)
unfolding status_cells time_tag now_ns
status_cells-Keeps never_expires = record { kept = λ w p. p }
status_cells-Keeps (revoked_on t) = record { kept = λ w p. p }
status_cells-Keeps (expired_on t) = record { kept = λ w p. p }
status_cells-Keeps (expires_soon t) = record { kept = λ w p. p }
status_cells-Keeps (expires_on t) = record { kept = λ w p. p }

last_used-Keeps : (t : ApiToken) → Keeps IsWf (last_used t)
unfolding last_used time_tag now_ns
last_used-Keeps t = record { kept = λ w p. ground arith }

token_line-Keeps : (now : ℕ) (t : ApiToken) → Keeps IsWf (token_line now t)
unfolding token_line
token_line-Keeps now t =
    search (guarding, status_cells-Keeps, last_used-Keeps, time_tag-Keeps) depth 20

token_lines-Keeps : (now : ℕ) (ts : List ApiToken) → Keeps IsWf (each (token_line now) ts)
token_lines-Keeps now ts = each-Keeps (token_line-Keeps now) ts

show_tokens-Keeps : (r : Request) → Keeps IsWf (show_tokens r)
unfolding show_tokens
show_tokens-Keeps r = search (counting, token_lines-Keeps) depth 20

pub tokens_page-Keeps : (r : Request) → Keeps IsWf (tokens_page r)
unfolding tokens_page
tokens_page-Keeps r = test-Keeps (r.method == "POST") (create_token-Keeps r) (show_tokens-Keeps r)

pub admin_page-Keeps : (r : Request) → Keeps IsWf (admin_page r)
unfolding admin_page
admin_page-Keeps r = search (guarding) depth 20

load_routes-Keeps : (url : String) → Keeps IsWf (load_routes url)
unfolding load_routes
load_routes-Keeps url = record { kept = λ w p. p }

lookup_routes-Keeps : (k : String) → Keeps IsWf (Cache.get routes_cache k)
lookup_routes-Keeps = cache_get-Keeps routes_cache load_routes-Keeps (λ _ _. refl)

watched_routes-Keeps : Keeps IsWf watched_routes
unfolding watched_routes
watched_routes-Keeps = search (guarding, lookup_routes-Keeps)

cards-Keeps : (o : Result (List WatcherRoute)) → Keeps IsWf (cards o)
unfolding cards
cards-Keeps failed = record { kept = λ w p. p }
cards-Keeps (ok []) = record { kept = λ w p. p }
cards-Keeps (ok (rt ∷ rts)) = record { kept = (bind-Keeps policy_map-Keeps (λ _. pure-Keeps)).kept }

pub home-Keeps : (r : Request) → Keeps IsWf (home r)
unfolding home
home-Keeps r = search (counting, watched_routes-Keeps, cards-Keeps) depth 40

show_routes-Keeps : (r : Request) → Keeps IsWf (show_routes r)
unfolding show_routes
show_routes-Keeps r = search (counting, watched_routes-Keeps) depth 40

pub admin_routes-Keeps : (r : Request) → Keeps IsWf (admin_routes r)
unfolding admin_routes
admin_routes-Keeps r =
    test-Keeps (r.method == "POST") (edit_route_policy-Keeps r) (show_routes-Keeps r)
