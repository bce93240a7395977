-- ===== src/Store.antt =====
-- internal/store/store.go over the tables of internal/store/schema.sql: every operation is one
-- statement or one transaction. The constraints of the schema (primary and unique keys, foreign
-- keys, the check on the role) refuse a row; a deleted user takes codes and tokens along.
pub mod Codes
pub mod Tokens
pub mod Policies
pub mod Logs
pub mod SingleUse
pub mod Audit
pub mod Rotation
pub mod Windows
use sir_auth.Base.{
  ℕ, String, Bool, true, false, ◌&&◌, ◌||◌, not, ◌==◌, Option, none, some, List, [], ◌∷◌, ltb,
  if◌then◌else◌, find, keep, any, map, count_if, update_if, length,
}
use sir_auth.Model.{User, OAuthClient, RoutePolicy, SystemLog, RefreshToken, AuthCode, ApiToken}
use sir_auth.World.{
  Db, M, Result, failed, ok, ◌>>=◌, ◌>>◌, pure, db_read, db_write, now_unix, next, on_ok,
}
use sir_auth.Token.{random_string}

-- ── Users ──
abbrev pub has_id : String → User → Bool
has_id id u = u.id == id

abbrev pub has_email : String → User → Bool
has_email email u = u.email == email

unfoldable pub get_user_by_email : String → M (Result (Option User))
get_user_by_email email = db_read λ d. find (has_email email) d.users

unfoldable pub get_user_by_id : String → M (Result (Option User))
get_user_by_id id = db_read λ d. find (has_id id) d.users

abbrev pub is_role : String → Bool
is_role r = r == "admin" || r == "user"

-- `INSERT INTO users`, with the schema's constraints.
unfoldable pub insert_user : User → Db → Option (Unit {0} × Db)
insert_user u d =
    if any (has_id u.id) d.users || any (has_email u.email) d.users || not (is_role u.role)
    then none
    else some (tt, record d { users = u ∷ d.users })

-- The `BeforeCreate` hooks fill an empty identifier with a random one.
unfoldable pub with_id : ℕ → String → M (Result String)
with_id n id w = elim (id == "") [ true ↦ random_string n w | false ↦ next (ok id) w ]

unfoldable pub create_user : User → M (Result (Unit {0}))
unfolding insert_user with_id
create_user u = do id ← with_id 16 u.id; on_ok id λ i. db_write (insert_user (record u { id = i }))

-- `Select("id, email, role, created_at, approved")`: the other columns are left at zero. The order
-- of the rows (`created_at DESC`) is left out: no code that is modelled depends on it.
abbrev pub listed : User → User
listed u = record u { password_hash = ""; salt = ""; sessions_valid_after = 0 }

unfoldable pub list_users : M (Result (List User))
list_users = db_read λ d. map listed d.users

unfoldable pub count_users : M (Result ℕ)
count_users = db_read λ d. length d.users

-- `Save`: every column of the row with this key; the new values must meet the constraints too.
abbrev pub taken_by_another : User → User → Bool
taken_by_another u v = v.email == u.email && not (v.id == u.id)

unfoldable pub save_user : User → Db → Option (Unit {0} × Db)
unfolding insert_user
save_user u d =
    if not (any (has_id u.id) d.users)
    then insert_user u d
    else if any (taken_by_another u) d.users || not (is_role u.role)
    then none
    else some (tt, record d { users = update_if (has_id u.id) (λ _. u) d.users })

unfoldable pub update_user : User → M (Result (Unit {0}))
unfolding save_user
update_user u = db_write (save_user u)

abbrev pub set_approved : Bool → User → User
set_approved b u = record u { approved = b }

unfoldable pub set_user_approved : String → Bool → M (Result (Unit {0}))
set_user_approved id b =
    db_write λ d. some (tt, record d { users = update_if (has_id id) (set_approved b) d.users })

abbrev pub is_approved_admin : User → Bool
is_approved_admin u = u.role == "admin" && u.approved

unfoldable pub count_approved_admins : M (Result ℕ)
count_approved_admins = db_read λ d. count_if is_approved_admin d.users

abbrev pub with_password : String → String → ℕ → User → User
with_password hash salt t u = record u {
  password_hash = hash;
  salt = salt;
  sessions_valid_after = t;
}

unfoldable pub set_password : String → String → String → ℕ → M (Result (Unit {0}))
set_password id hash salt valid_after = db_write λ d.
    some
      (tt, record d { users = update_if (has_id id) (with_password hash salt valid_after) d.users })

abbrev pub of_user : String → RefreshToken → Bool
of_user id t = t.user_id == id

abbrev pub revoke : RefreshToken → RefreshToken
revoke t = record t { revoked = true }

abbrev pub valid_after : ℕ → User → User
valid_after t u = record u { sessions_valid_after = t }

-- The transaction of `BumpSessions`.
unfoldable pub bump_sql : String → ℕ → Db → Db
bump_sql id t d = record d {
  users = update_if (has_id id) (valid_after t) d.users;
  refresh_tokens = update_if (of_user id) revoke d.refresh_tokens;
}

unfoldable pub bump_sessions : String → ℕ → M (Result (Unit {0}))
unfolding bump_sql
bump_sessions id t = db_write λ d. some (tt, bump_sql id t d)

-- `DELETE FROM users` with the foreign keys' `ON DELETE CASCADE`.
unfoldable pub delete_cascade : String → Db → Db
delete_cascade id d = record d {
  users = keep (λ u. not (has_id id u)) d.users;
  auth_codes = keep (λ c. not (c.user_id == id)) d.auth_codes;
  refresh_tokens = keep (λ t. not (t.user_id == id)) d.refresh_tokens;
  api_tokens = keep (λ t. not (t.user_id == id)) d.api_tokens;
}

unfoldable pub delete_user : String → M (Result (Unit {0}))
unfolding delete_cascade
delete_user id = db_write λ d. some (tt, delete_cascade id d)

-- The transaction of `DeleteUserData`.
unfoldable pub delete_data_sql : String → Db → Db
unfolding delete_cascade
delete_data_sql id d =
    delete_cascade id (record d { request_logs = keep (λ l. not (l.user_id == id)) d.request_logs })

unfoldable pub delete_user_data : String → M (Result (Unit {0}))
unfolding delete_data_sql
delete_user_data id = db_write λ d. some (tt, delete_data_sql id d)

-- ── OAuth clients ──
abbrev pub has_client_id : String → OAuthClient → Bool
has_client_id id c = c.client_id == id

unfoldable pub get_client_by_id : String → M (Result (Option OAuthClient))
get_client_by_id id = db_read λ d. find (has_client_id id) d.clients

unfoldable pub insert_client : OAuthClient → Db → Option (Unit {0} × Db)
insert_client c d =
    if any (has_client_id c.client_id) d.clients
    then none
    else some (tt, record d { clients = c ∷ d.clients })

unfoldable pub create_client : OAuthClient → M (Result (Unit {0}))
unfolding insert_client
create_client c = db_write (insert_client c)

-- ── Route policies ──
abbrev pub for_host : String → RoutePolicy → Bool
for_host host p = p.host == host

unfoldable pub get_route_policy : String → M (Result (Option RoutePolicy))
get_route_policy host = db_read λ d. find (for_host host) d.route_policies

unfoldable pub list_route_policies : M (Result (List RoutePolicy))
list_route_policies = db_read λ d. d.route_policies

-- `Save` is an upsert.
unfoldable pub upsert_policy : RoutePolicy → List RoutePolicy → List RoutePolicy
upsert_policy p [] = p ∷ []
upsert_policy p (q ∷ qs) = if for_host p.host q then p ∷ qs else q ∷ upsert_policy p qs

unfoldable pub set_route_policy : RoutePolicy → M (Result (Unit {0}))
unfolding upsert_policy
set_route_policy p =
    db_write λ d. some (tt, record d { route_policies = upsert_policy p d.route_policies })

unfoldable pub delete_route_policy : String → M (Result (Unit {0}))
delete_route_policy host =
    db_write λ d.
      some (tt, record d { route_policies = keep (λ p. not (for_host host p)) d.route_policies })

-- ── System logs ──
unfoldable pub insert_log : SystemLog → Db → Option (Unit {0} × Db)
insert_log l d =
    if any (λ k. k.id == l.id) d.system_logs
    then none
    else some (tt, record d { system_logs = l ∷ d.system_logs })

abbrev before_create_log : String → M (Result String)
before_create_log id = with_id 12 id

unfoldable pub create_system_log :
    (action target_id admin_id details : String) → M (Result (Unit {0}))
unfolding with_id insert_log
create_system_log action target_id admin_id details = do
  id ← before_create_log ""
  at_time ← now_unix
  on_ok id λ i. db_write (
      insert_log (record {
        id = i;
        action = action;
        target_id = target_id;
        admin_id = admin_id;
        details = details;
        created_at = at_time;
      }))

unfoldable pub list_system_logs : M (Result (List SystemLog))
list_system_logs = db_read λ d. d.system_logs
