-- ===== src/Api.antt =====
-- internal/handler/user.go, `Me`, `GetUser` and `AdminUsers`, and `AdminLogs` of
-- internal/handler/admin.go: the JSON interface behind a bearer token, whose claims are given.
pub mod Laws
use sir_auth.Base.{
  String, true, false, ◌==◌, ◌&&◌, ◌||◌, not, Option, none, some, List, [], ◌∷◌, map, if◌then◌else◌,
}
use sir_auth.Model.{User, SystemLog}
use sir_auth.Text.{chars, string, concat, trim_prefix}
use sir_auth.World.{
  M, halt, Result, failed, ok, ◌>>=◌, ◌>>◌, pure, Request, Response, Claims, stop_if, or_stop,
  some_or_stop, open_store, json, user_json, users_json, logs_json, UserView, LogView,
}
use sir_auth.Http.{write_error, method_not_allowed, json_response}
use sir_auth.Store.{get_user_by_id, list_users, list_system_logs, create_system_log}
use sir_auth.Admin.{find_last}
use sir_auth.Register.{add_user}

-- `Me`
unfoldable pub me : Claims → Request → M Response
me c r = pure (
    json_response 200
      (json (("id", c.sub) ∷ ("email", c.email) ∷ ("role", c.role) ∷ ("scope", c.scope) ∷ [])))

abbrev api_error : Response
api_error = write_error "server_error" 500

abbrev pub user_path : Request → String
user_path r = string (trim_prefix (chars r.url_path) (chars "/api/users/"))

-- `GetUser`
unfoldable pub get_user : Claims → Request → M Response
unfolding trim_prefix
get_user c r = do
  stop_if (not (r.method == "GET")) method_not_allowed
  stop_if (user_path r == "") (write_error "missing user id" 400)
  stop_if (not (c.role == "admin") && not (c.sub == user_path r)) (write_error "forbidden" 403)
  s ← open_store
  or_stop s api_error
  row ← get_user_by_id (user_path r)
  found ← or_stop row api_error
  u ← some_or_stop found (write_error "user not found" 404)
  pure (json_response 200 (user_json u.id u.email u.role u.created_at))

abbrev pub user_view : User → UserView
user_view u = record {
  id = u.id;
  email = u.email;
  role = u.role;
  created_at = u.created_at;
  approved = u.approved;
}

unfoldable pub show_users : M Response
show_users = do
  rows ← list_users
  users ← or_stop rows api_error
  pure (json_response 200 (users_json (map user_view users)))

abbrev pub role_or_user : String → String
role_or_user role = if role == "admin" || role == "user" then role else "user"

unfoldable pub make_user : Claims → Request → M Response
unfolding add_user
make_user c r = do
  stop_if (not r.json_ok || r.json "email" == "" || r.json "password" == "")
      (write_error "invalid_request: email and password required" 400)
  u ←
      add_user (r.json "email") (r.json "password") (role_or_user (r.json "role")) true api_error
        (write_error "conflict: email already exists" 409)
  _ ← create_system_log "CREATE_USER_BY_ADMIN" u.id c.sub (
      concat "Admin created new user via /api/admin/users: "
        (concat u.email (concat " with role " u.role)))
  pure (json_response 201 (json (("id", u.id) ∷ ("email", u.email) ∷ ("role", u.role) ∷ [])))

-- `AdminUsers`
unfoldable pub admin_users : Claims → Request → M Response
unfolding show_users make_user
admin_users c r = do
  s ← open_store
  or_stop s api_error
  λ w. elim (r.method == "GET") [
    | true ↦ show_users w
    | false ↦ elim (r.method == "POST") [
      | true ↦ make_user c r w
      | false ↦ halt method_not_allowed w
    ]
  ]

-- An error of the list of users leaves the map of addresses empty.
abbrev or_empty : Result (List User) → List User
or_empty failed = []
or_empty (ok us) = us

abbrev email_or : String → Option User → String
email_or id none = id
email_or id (some u) = u.email

unfoldable pub log_view : List User → SystemLog → LogView
unfolding find_last
log_view us l = record {
  id = l.id;
  action = l.action;
  admin = email_or l.admin_id (find_last l.admin_id us);
  target = email_or l.target_id (find_last l.target_id us);
  details = l.details;
  created_at = l.created_at;
}

-- `AdminLogs`
unfoldable pub admin_logs : Claims → Request → M Response
unfolding log_view
admin_logs c r = do
  stop_if (not (r.method == "GET")) method_not_allowed
  stop_if (not (c.role == "admin")) (write_error "forbidden" 403)
  s ← open_store
  or_stop s api_error
  rows ← list_system_logs
  logs ← or_stop rows api_error
  users ← list_users
  pure (json_response 200 (logs_json (map (log_view (or_empty users)) logs)))
