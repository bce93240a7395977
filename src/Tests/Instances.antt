-- ===== src/Tests/Instances.antt =====
-- More of the theorems, at the sample world.
use sir_auth.Base.{
  Bool, eq_iff, List, count_if, arith, ℕ, ◌+◌, ◌≤◌, ◌*◌, String, true, ◌≡◌, ◌≢◌, refl, none, [],
  ◌∷◌, any, keep, find, length, if◌then◌else◌, ◌==◌,
}
use sir_auth.Model.{User, RequestLog, active}
use sir_auth.Text.{chars, same, string, concat, lower, to_lower, trim_space}
use sir_auth.Base64.{encode, sextet, decode, value}
use sir_auth.Http.{same_origin}
use sir_auth.Token.{validate_access_token, random_string}
use sir_auth.Session.{page_user}
use sir_auth.Verify.Identities.{invalidate_auth}
use sir_auth.Store.{get_user_by_id, set_route_policy, create_system_log, with_id, upsert_policy}
use sir_auth.World.{
  World, Request, Claims, Exit, next, Response, world_of, open_store, db_read, db_write, now_ns,
  now_unix, lost, ok,
}
use sir_auth.Outcome.{Ends, Gives, OnSuccess}
use sir_auth.Server.{serve}
use sir_auth.Integrity.{IsWf}
use sir_auth.Integrity.Reachable.{here, served, Reach-IsWf}
use sir_auth.Register.{register, setup}
use sir_auth.Register.Laws.{IsRoleFor, IsAdded, admin_users-IsAdded}
use sir_auth.Register.Pending.{OldOrPending, register-OldOrPending}
use sir_auth.Register.Setup.{setup-refused, setup-IsAdded}
use sir_auth.Routes.{edit_route_policy}
use sir_auth.Routes.Laws.{IsPolicyEdit, edit_route_policy-IsPolicyEdit}
use sir_auth.Stats.{usage_csv, logs_per_page}
use sir_auth.Stats.Laws.{IsOwnFile, usage_csv-IsOwnFile}
use sir_auth.Session.Guards.{IsSignedIn}
use sir_auth.Api.{admin_users}
use sir_auth.Usage.{log_usage, close_usage}
use sir_auth.Usage.Turns.{IsBounded}
use sir_auth.Usage.Writes.{covered, total}
use sir_auth.Usage.Flow.{Runs, Runs-total}
use sir_auth.Usage.Close.{IsClosed, close_usage-IsClosed}
use sir_auth.Store.Logs.{
  LogFilter, by_host, groups, window, log_rows, newest_first, insert_log_row, in_window, each_log,
  Bucket, count_by, group_by, add_to, largest_first, insert_group,
}
use sir_auth.Store.Windows.{rows_with, column, count_by-buckets}
use sir_auth.Stats.Pages.{pages, pages-each_log}
use sir_auth.Text.Escape.{html_escape, escape_once, html_escape-escape_once}
use sir_auth.Pages.{token_status}
use sir_auth.Pages.Laws.{is_usable, is_usable-token_status}
use sir_auth.Tests.{
  is_next, sample_outside, response_of, sample_world, sample_db, alice_claims, post, code_form,
  sample_pat,
}

sample-IsWf : IsWf sample_world.db
unfolding any
sample-IsWf = record {
  user_ids = (refl, (refl, tt));
  emails = (refl, (refl, tt));
  roles = (refl, (refl, tt));
  client_ids = (refl, tt);
  codes = (refl, tt);
  code_users = (refl, tt);
  code_clients = (refl, tt);
  tokens = (refl, tt);
  token_users = (refl, tt);
  token_clients = (refl, tt);
  api_token_ids = (refl, tt);
  api_token_hashes = (refl, tt);
  api_token_users = (refl, tt);
  log_ids = tt;
  policy_hosts = tt;
}

abbrev token_request : Request
token_request = post "/oauth/token" code_form

Reach-IsWf_example : IsWf (world_of (serve token_request sample_world)).db
Reach-IsWf_example =
    Reach-IsWf sample_world (world_of (serve token_request sample_world))
      (served sample_world token_request here) sample-IsWf

-- A request with a JSON body.
abbrev json_post : String → (String → String) → Request
json_post path json = record (post path (λ k. "")) { json_ok = true; json = json; query = λ k. "s" }

abbrev new_account : String → String
new_account k =
    if k == "email"
    then "c@x"
    else if k == "password"
    then "pw"
    else if k == "role"
    then "admin"
    else ""

register-OldOrPending_example :
    Ends
      (λ _ v. OldOrPending sample_world.db.users v.db)
      (λ _ v. OldOrPending sample_world.db.users v.db)
      (register (json_post "/register" new_account) sample_world)
register-OldOrPending_example =
    register-OldOrPending (json_post "/register" new_account) sample_world

-- The environment has a secret for the set-up, which `json_post` shows.
abbrev secret_world : World
secret_world = record sample_world { outside = record sample_outside { getenv = λ k. "s" } }

abbrev empty_world : World
empty_world = record secret_world {
  db = record sample_db { users = []; auth_codes = []; refresh_tokens = []; api_tokens = [] };
}

abbrev first_admin : String → String
first_admin k =
    if k == "admin_email"
    then "root@x"
    else if k == "admin_password"
    then "pw"
    else if k == "client_id"
    then "desk"
    else "secret"

setup-refused_example :
    Ends
      (λ _ v. v.db ≡ secret_world.db)
      (λ _ _. ⊥)
      (setup (json_post "/setup" first_admin) secret_world)
setup-refused_example = setup-refused (json_post "/setup" first_admin) secret_world (λ e. cc)

setup_run : is_next (setup (json_post "/setup" first_admin) empty_world) ≡ true
unfolding setup open_store sir_auth.Store.count_users db_read sir_auth.Token.hash_password
    random_string now_unix sir_auth.Store.create_user string encode sextet db_write any
    sir_auth.Store.create_client create_system_log
setup_run = refl

setup-IsAdded_example :
    OnSuccess
      (λ _ v. (empty_world.db.users ≡ []) × IsAdded "root@x" "admin" true [] v.db.users)
      (setup (json_post "/setup" first_admin) empty_world)
setup-IsAdded_example = setup-IsAdded (json_post "/setup" first_admin) empty_world

abbrev plain_claims : Claims
plain_claims = record alice_claims { sub = "carol"; role = "user" }

-- A caller with the role of a user makes an administrator.
admin_users-IsAdded_example :
    OnSuccess
      (λ _ v.
        (role : String) × IsRoleFor "admin" role
        × IsAdded "c@x" role true sample_world.db.users v.db.users)
      (admin_users plain_claims (json_post "/api/admin/users" new_account) sample_world)
admin_users-IsAdded_example =
    admin_users-IsAdded plain_claims (json_post "/api/admin/users" new_account) sample_world refl

abbrev some_event : RequestLog
some_event = record {
  ts = 5;
  host = "app.x";
  method = "GET";
  path = "/";
  ip = "::1";
  cred = "session";
  token_id = none;
  user_id = "alice";
}

abbrev open_world : World
open_world = record sample_world {
  db = record sample_db { request_logs = some_event ∷ [] };
  usage = record {
    is_open = true;
    queued = some_event ∷ some_event ∷ [];
    batch = some_event ∷ [];
    is_running = true;
    dropped = 0;
  };
}

abbrev one_more : World
one_more = world_of (log_usage some_event open_world)

Runs-total_example :
    ((p : RequestLog → Bool)
      → count_if p (some_event ∷ []) + covered p open_world ≤ covered p one_more)
    × (1 + total open_world ≤ total one_more)
    × ((((k : ℕ) → open_world.outside.fate k ≢ lost) → total one_more ≡ 1 + total open_world))
    × IsBounded one_more
Runs-total_example =
    Runs-total open_world one_more (some_event ∷ [])
      (Runs.logged [] open_world some_event Runs.here refl) (omega arith, omega arith)

close_usage-IsClosed_example : Gives (λ _ v. IsClosed open_world v) (close_usage open_world)
close_usage-IsClosed_example = close_usage-IsClosed open_world refl (λ k. refl)

abbrev all_day : LogFilter
all_day = record { from = 0; to = 9; user_id = ""; token_id = ""; host = "" }

buckets_run : length (groups all_day by_host open_world.db) ≤ 50
unfolding groups group_by add_to largest_first insert_group window in_window keep
buckets_run = omega arith

count_by-buckets_example :
    Gives
      (λ o _.
        (bs : List Bucket) × (o ≡ ok bs)
        × (rows_with "app.x" bs
            ≡ count_if (λ l. column by_host l == "app.x") (window all_day open_world.db)))
      (count_by all_day by_host 50 open_world)
count_by-buckets_example = count_by-buckets all_day by_host 50 "app.x" open_world refl buckets_run

sample-one_page : length (log_rows all_day open_world.db) ≤ 1 * logs_per_page
unfolding log_rows newest_first insert_log_row window in_window keep
sample-one_page = omega arith

pages-each_log_example :
    Gives
      (λ all v. Gives (λ rows _. all ≡ ok rows) (pages all_day 0 1 v))
      (each_log all_day open_world)
pages-each_log_example = pages-each_log all_day 1 open_world (λ n. refl) sample-one_page

html_escape-escape_once_example :
    html_escape (chars "<a href=\"&\">") ≡ escape_once (chars "<a href=\"&\">")
html_escape-escape_once_example = html_escape-escape_once (chars "<a href=\"&\">")

is_usable-token_status_example : is_usable (token_status sample_pat 5) ≡ active sample_pat 5
is_usable-token_status_example = is_usable-token_status sample_pat 5

abbrev policy_form_values : String → String
policy_form_values k = if k == "host" then "app.x" else if k == "action" then "public" else ""

abbrev policy_request : Request
policy_request = record (post "/admin/routes" policy_form_values) { host = "app.x" }

abbrev edited : Exit Response
edited = edit_route_policy policy_request sample_world

edit_run :
    edit_route_policy policy_request sample_world ≡ next (response_of edited) (world_of edited)
unfolding edit_route_policy same_origin open_store validate_access_token same encode sextet decode
    value get_user_by_id db_read find string concat now_unix set_route_policy db_write
    invalidate_auth create_system_log with_id random_string any lower to_lower trim_space
    upsert_policy
edit_run = refl

edit_route_policy-IsPolicyEdit_example :
    (me : User) × IsPolicyEdit policy_request sample_world (world_of edited) me
edit_route_policy-IsPolicyEdit_example =
    edit_route_policy-IsPolicyEdit policy_request sample_world (world_of edited)
      (response_of edited) edit_run

abbrev csv_request : Request
csv_request = record (post "/account/usage.csv" (λ k. "")) { method = "GET" }

abbrev exported : Exit Response
exported = usage_csv csv_request open_world

csv_run : usage_csv csv_request open_world ≡ next (response_of exported) (world_of exported)
unfolding usage_csv page_user open_store validate_access_token chars same encode sextet decode value
    get_user_by_id db_read find now_ns each_log
csv_run = refl

usage_csv-IsOwnFile_example :
    (u : User) × IsSignedIn csv_request open_world u
    × IsOwnFile (world_of exported).outside u.id (response_of exported).body
usage_csv-IsOwnFile_example =
    usage_csv-IsOwnFile csv_request open_world (world_of exported) (response_of exported)
      ((λ e. ground (arith, eq_iff "alice" "")), ((λ e. ground (arith, eq_iff "bob" "")), tt))
      csv_run
