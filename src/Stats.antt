-- ===== src/Stats.antt =====
-- internal/handler/stats.go: request statistics, for a user's own requests and, for administrators,
-- for all. A page is what it shows and its links; the markup is left out.

pub mod Windows
pub mod Links
pub mod Chart
pub mod Queries
pub mod Follow
pub mod Pages
pub mod Counts
pub mod Days
pub mod Laws
use sir_auth.Base.{
  ◌/◌, ℕ, zero, suc, ◌+◌, ◌-◌, ◌*◌, String, Bool, true, false, ◌==◌, ◌&&◌, ◌||◌, not, Option, none,
  some, List, [], ◌∷◌, ◌++◌, map, ltb, leb, if◌then◌else◌, length, first,
}
use sir_auth.Model.{User, RequestLog}
use sir_auth.Text.{concat}
use sir_auth.World.{
  Outside, World, M, Exit, halt, next, Result, failed, ok, ◌>>=◌, ◌>>◌, pure, ask, Request,
  Response, stop_if, or_stop, open_store, now_ns, second, Cell, words, number, tables, csv, link,
  each,
}
use sir_auth.Http.{server_error, method_not_allowed}
use sir_auth.Times.{time_tag}
use sir_auth.Store.Logs.{
  LogFilter, LogRow, Bucket, Grouping, by_host, by_token, by_user, count_logs, count_by,
  daily_counts, recent_logs, each_log,
}
use sir_auth.Session.{page_user}
use sir_auth.Admin.{session_admin}
use sir_auth.Stats.Windows.{StatsWindow, hour, parse_window, filter_of, last_window, scope_of}
use sir_auth.Stats.Links.{Params, filters_of, query, preset_links, bucket_link, clear_link, pager}
use sir_auth.Stats.Chart.{Bar, bars, highest}

-- `UsageDropped`
unfoldable pub usage_dropped : M ℕ
usage_dropped w = next w.usage.dropped w

-- The labels of `bucketTable` for credentials and of `userTable`.
unfoldable pub token_label : Bucket → String
token_label b =
    if b.key == "" && b.label == "anonymous"
    then "Anonymous (public route)"
    else if b.key == ""
    then "Browser session"
    else if b.label == ""
    then concat "Token " b.key
    else b.label

unfoldable pub user_label : Bucket → String
user_label b =
    if b.key == ""
    then "anonymous"
    else if b.label == ""
    then concat "deleted user " b.key
    else b.label

abbrev pub plain_label : Bucket → String
plain_label b = b.label

-- `bucketTable`: the label, the link that filters by the group, and the number of requests.
abbrev bucket_row : (Bucket → String) → (Bucket → List Cell) → Bucket → List Cell
bucket_row label filter b = words (label b) ∷ filter b ++ number b.n ∷ []

abbrev bar_row : Bar → List Cell
bar_row b = words b.day ∷ number b.n ∷ []

abbrev or_words : Option String → String
or_words none = ""
or_words (some t) = t

-- `recentTable`: the credential and, for administrators, the user.
abbrev credential : LogRow → String
credential l = elim l.log.token_id [
  | none ↦ l.log.cred
  | some t ↦ if l.token_name == "" then concat "token " t else concat "token: " l.token_name
]

abbrev user_cell : Bool → LogRow → List Cell
user_cell admin l =
    if admin then words (if l.log.user_id == "" then "anonymous" else l.email) ∷ [] else []

unfoldable pub recent_row : Bool → LogRow → M (List Cell)
unfolding time_tag
recent_row admin l = do
  when ← time_tag (l.log.ts / second)
  pure (
      when ∷ user_cell admin l
      ++ words l.log.host
        ∷ words l.log.method
        ∷ words l.log.path
        ∷ words (credential l)
        ∷ words l.log.ip
        ∷ [])

abbrev pub logs_per_page : ℕ
logs_per_page = 50

abbrev pub page_number : Outside → Request → ℕ
page_number o r = if ltb (o.atoi (r.query "page")) 1 then 1 else o.atoi (r.query "page")

abbrev pub users_if : Bool → LogFilter → M (Result (List Bucket))
users_if admin f w = elim admin [ true ↦ count_by f by_user 100 w | false ↦ next (ok []) w ]

-- The page and whether another follows: one row more than fits is asked for.
unfoldable pub recent_page : LogFilter → ℕ → M (List LogRow × Bool)
recent_page f page = do
  rows ← recent_logs f (logs_per_page + 1) ((page - 1) * logs_per_page)
  recent ← or_stop rows server_error
  let has_next = ltb logs_per_page (length recent)
  pure ((if has_next then first logs_per_page recent else recent), has_next)

unfoldable pub count_or_stop : LogFilter → M ℕ
count_or_stop f = do n ← count_logs f; or_stop n server_error

abbrev page_name : Bool → String
page_name admin = if admin then "stats" else "usage"

abbrev base_of : Bool → String
base_of admin = if admin then "/admin/stats" else "/account/usage"

-- `windowLabel`
unfoldable pub window_label : StatsWindow → String
window_label win =
    if not (win.preset == "")
    then concat "the last " win.preset
    else concat win.from_day (concat " – " win.to_day)

-- A page without rows has no pager.
abbrev unless_empty : List LogRow → List Cell → List Cell
unless_empty [] cells = []
unless_empty (l ∷ ls) cells = cells

-- `adminStatsNote`: from one user back to all.
unfoldable pub note_links : Bool → (who : String) → List Cell
note_links admin who = if admin && not (who == "") then link "/admin/stats" [] ∷ [] else []

-- `renderStats`
unfoldable pub render_stats : Request → User → Bool → M Response
unfolding recent_page count_or_stop parse_window usage_dropped token_label user_label window_label
    note_links preset_links query bucket_link clear_link pager filters_of bars highest recent_row
    each
render_stats r u admin = do
  now ← now_ns
  o ← ask
  let win = parse_window o r now
  let who = scope_of admin u r
  let f = filter_of win who "" ""
  n1 ← count_or_stop (last_window now (24 * hour) who)
  n7 ← count_or_stop (last_window now (7 * 24 * hour) who)
  n30 ← count_or_stop (last_window now (30 * 24 * hour) who)
  dropped ← usage_dropped
  total ← count_or_stop f
  days ← daily_counts o.format_day f
  daily ← or_stop days server_error
  hosts ← count_by f by_host 50
  per_host ← or_stop hosts server_error
  tokens ← count_by f by_token 50
  per_token ← or_stop tokens server_error
  users ← users_if admin f
  per_user ← or_stop users server_error
  let host = r.query "host"
  let token = r.query "token"
  recent ← recent_page (filter_of win who token host) (page_number o r)
  let base = base_of admin
  let filters = filters_of admin who token host
  rows ← each (recent_row admin) recent.0
  pure (record {
    status = 200;
    headers = ("Content-Type", "text/html; charset=utf-8") ∷ [];
    cookie = none;
    body =
        tables (page_name admin)
          (number n1 ∷ number n7 ∷ number n30 ∷ (if admin then number dropped ∷ [] else [])
            ++ number total
              ∷ words (window_label win)
              ∷ number (highest 1 daily)
              ∷ number (page_number o r)
              ∷ note_links admin who)
          ((preset_links base win filters
              ∷ (link (concat base ".csv") (query win filters) ∷ [])
              ∷ [])
            ∷ map bar_row (bars o daily win)
            ∷ map (bucket_row plain_label (bucket_link base "host" win filters)) per_host
            ∷ map (bucket_row token_label (bucket_link base "token" win filters)) per_token
            ∷ map (bucket_row user_label (bucket_link base "user" win filters)) per_user
            ∷ (clear_link base win filters ∷ [])
            ∷ rows
            ∷ (unless_empty recent.0 (pager o base (page_number o r) recent.1 win filters) ∷ [])
            ∷ []);
  })

-- `UsagePage` and `AdminStats`
unfoldable pub usage_page : Request → M Response
unfolding render_stats
usage_page r = do u ← page_user r; render_stats r u false

unfoldable pub stats_admin : Request → M User
stats_admin r = do
  stop_if (not (r.method == "GET")) method_not_allowed
  s ← open_store
  or_stop s server_error
  session_admin r

unfoldable pub admin_stats : Request → M Response
unfolding render_stats stats_admin
admin_stats r = do u ← stats_admin r; render_stats r u true

-- ── CSV ──
abbrev pub csv_row : Outside → LogRow → List String
csv_row o l =
    o.rfc3339 l.log.ts
    ∷ l.log.host
    ∷ l.log.method
    ∷ l.log.path
    ∷ l.log.ip
    ∷ l.log.cred
    ∷ or_words l.log.token_id
    ∷ l.token_name
    ∷ l.log.user_id
    ∷ l.email
    ∷ []

abbrev pub csv_heading : List String
csv_heading =
    "time" ∷ "host" ∷ "method" ∷ "path" ∷ "ip" ∷ "credential" ∷ "token_id" ∷ "token_name"
    ∷ "user_id" ∷ "email" ∷ []

abbrev csv_rows : Outside → Result (List LogRow) → List (List String)
csv_rows o failed = csv_heading ∷ []
csv_rows o (ok ls) = csv_heading ∷ map (csv_row o) ls

abbrev is_ok : Result (List LogRow) → Bool
is_ok failed = false
is_ok (ok ls) = true

abbrev file_name : String → StatsWindow → String
file_name name win =
    concat name (concat "-" (concat win.from_day (concat "-to-" (concat win.to_day ".csv"))))

-- `writeCSV`: the status is sent before the rows are read; a failure can only be noted at the end.
unfoldable pub write_csv : Request → (user_id name : String) → M Response
unfolding parse_window
write_csv r user_id name = do
  now ← now_ns
  o ← ask
  let win = parse_window o r now
  rows ← each_log (filter_of win user_id (r.query "token") (r.query "host"))
  pure (record {
    status = 200;
    headers =
        ("Content-Type", "text/csv; charset=utf-8")
        ∷ (
          "Content-Disposition",
          concat "attachment; filename=\"" (concat (file_name name win) "\""),
        )
        ∷ [];
    cookie = none;
    body = csv name (csv_rows o rows) (is_ok rows);
  })

-- `UsageCSV` and `AdminStatsCSV`
unfoldable pub usage_csv : Request → M Response
unfolding write_csv
usage_csv r = do u ← page_user r; write_csv r u.id "usage"

unfoldable pub admin_stats_csv : Request → M Response
unfolding write_csv stats_admin
admin_stats_csv r = do _ ← stats_admin r; write_csv r (r.query "user") "requests"
