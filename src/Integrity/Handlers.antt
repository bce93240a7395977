-- ===== src/Integrity/Handlers.antt =====
-- About the handlers of internal/handler: however a handler ends, the tables still obey the schema.
use sir_auth.Base.{String, Bool, true, false, ◌==◌, ◌||◌}
use sir_auth.Model.{User}
use sir_auth.World.{Request, Response, Claims, halt, next}
use sir_auth.Http.{method_not_allowed}
use sir_auth.Session.{login_get, login_post, login, logout}
use sir_auth.Account.{
  account_password, end_sessions, account_logout_all, delete_self, account_delete, create_token,
  token_rename, token_revoke,
}
use sir_auth.Admin.{
  admin_form, choose_target, perform, finish_action, act, admin_action, new_hash, put_user,
  remove_user, admin_user_detail,
}
use sir_auth.Routes.{policy_form, change_policy, put_policy, edit_route_policy}
use sir_auth.Register.{
  add_user, register_json, register_form, register, is_form, setup_checks, seed, setup,
}
use sir_auth.Api.{me, get_user, show_users, make_user, admin_users, admin_logs}
use sir_auth.Integrity.{IsWf, Keeps}
use sir_auth.Integrity.Rules.{
  test-Keeps, bind-Keeps, pure-Keeps, respond-Keeps, then-Keeps, or_stop-Keeps, now_unix-Keeps,
  hash_password-Keeps, open_store-Keeps,
}
use sir_auth.Integrity.Store.{
  set_user_approved-Keeps, delete_user_data-Keeps, delete_route_policy-Keeps,
  set_route_policy-Keeps,
}
use sir_auth.Integrity.Readers.{guarding}

-- ── internal/handler/session.go ──
login_get-Keeps : (r : Request) → Keeps IsWf (login_get r)
unfolding login_get
login_get-Keeps r = search (guarding)

login_post-Keeps : (r : Request) → Keeps IsWf (login_post r)
unfolding login_post
login_post-Keeps r = search (guarding) depth 30

pub login-Keeps : (r : Request) → Keeps IsWf (login r)
unfolding login
login-Keeps r =
    test-Keeps (r.method == "GET") (login_get-Keeps r)
      (test-Keeps (r.method == "POST") (login_post-Keeps r) respond-Keeps)

pub logout-Keeps : (r : Request) → Keeps IsWf (logout r)
unfolding logout
logout-Keeps r = search (guarding)

-- ── internal/handler/account.go ──
pub account_password-Keeps : (r : Request) → Keeps IsWf (account_password r)
unfolding account_password
account_password-Keeps r = search (guarding) depth 40 fits 8000

pub account_logout_all-Keeps : (r : Request) → Keeps IsWf (account_logout_all r)
unfolding account_logout_all end_sessions
account_logout_all-Keeps r = search (guarding) depth 30

pub account_delete-Keeps : (r : Request) → Keeps IsWf (account_delete r)
unfolding account_delete delete_self
account_delete-Keeps r = search (guarding) depth 40

pub create_token-Keeps : (r : Request) → Keeps IsWf (create_token r)
unfolding create_token
create_token-Keeps r = search (guarding) depth 40

pub token_rename-Keeps : (r : Request) → Keeps IsWf (token_rename r)
unfolding token_rename
token_rename-Keeps r = search (guarding) depth 30

pub token_revoke-Keeps : (r : Request) → Keeps IsWf (token_revoke r)
unfolding token_revoke
token_revoke-Keeps r = search (guarding) depth 30

-- ── internal/handler/admin.go ──
perform-Keeps : (a i : String) → Keeps IsWf (perform a i)
unfolding perform
perform-Keeps a i =
    test-Keeps (a == "approve") (set_user_approved-Keeps i true)
      (test-Keeps (a == "revoke") (set_user_approved-Keeps i false) (delete_user_data-Keeps i))

admin_form-Keeps : (r : Request) → Keeps IsWf (admin_form r)
unfolding admin_form
admin_form-Keeps r = search (guarding) depth 20

choose_target-Keeps : (r : Request) (u : User) → Keeps IsWf (choose_target r u)
unfolding choose_target
choose_target-Keeps r u = search (guarding) depth 20

act-Keeps : (r : Request) (u v : User) → Keeps IsWf (act r u v)
unfolding act finish_action
act-Keeps r u v = search (guarding, perform-Keeps) depth 20

pub admin_action-Keeps : (r : Request) → Keeps IsWf (admin_action r)
unfolding admin_action
admin_action-Keeps r = search (guarding, admin_form-Keeps, choose_target-Keeps, act-Keeps)

new_hash-Keeps : (r : Request) → Keeps IsWf (new_hash r)
new_hash-Keeps r =
    test-Keeps (r.json "password" == "") pure-Keeps
      (bind-Keeps (hash_password-Keeps _) (λ h. bind-Keeps (or_stop-Keeps h _) (λ _. pure-Keeps)))

put_user-Keeps : (c : Claims) (r : Request) (u : User) → Keeps IsWf (put_user c r u)
unfolding put_user
put_user-Keeps c r u = search (guarding, new_hash-Keeps) depth 20

remove_user-Keeps : (c : Claims) (u : User) → Keeps IsWf (remove_user c u)
unfolding remove_user
remove_user-Keeps c u = search (guarding) depth 20

by_method-Keeps :
    (c : Claims) (r : Request) (u : User)
    → Keeps IsWf (λ w. elim (r.method == "PUT") [
      | true ↦ put_user c r u w
      | false ↦ elim (r.method == "DELETE") [
        | true ↦ remove_user c u w
        | false ↦ halt method_not_allowed w
      ]
    ])
by_method-Keeps c r u =
    test-Keeps (r.method == "PUT") (put_user-Keeps c r u)
      (test-Keeps (r.method == "DELETE") (remove_user-Keeps c u) respond-Keeps)

pub admin_user_detail-Keeps : (c : Claims) (r : Request) → Keeps IsWf (admin_user_detail c r)
unfolding admin_user_detail
admin_user_detail-Keeps c r = search (guarding, by_method-Keeps) depth 40

-- ── internal/handler/routes.go ──
policy_form-Keeps : (r : Request) → Keeps IsWf (policy_form r)
unfolding policy_form
policy_form-Keeps r = search (guarding) depth 20

change_policy-Keeps : (h a m : String) → Keeps IsWf (change_policy h a m)
unfolding change_policy
change_policy-Keeps h a m =
    test-Keeps (a == "public" || a == "login")
      (bind-Keeps now_unix-Keeps (λ t. set_route_policy-Keeps _))
      (test-Keeps (a == "delete") (delete_route_policy-Keeps h) respond-Keeps)

pub edit_route_policy-Keeps : (r : Request) → Keeps IsWf (edit_route_policy r)
unfolding edit_route_policy put_policy
edit_route_policy-Keeps r = search (guarding, policy_form-Keeps, change_policy-Keeps) depth 30

-- ── internal/handler/user.go and internal/handler/setup.go ──
add_user-Keeps : (e p o : String) (b : Bool) (x y : Response) → Keeps IsWf (add_user e p o b x y)
unfolding add_user
add_user-Keeps e p o b x y = search (guarding) depth 30

register_json-Keeps : (r : Request) → Keeps IsWf (register_json r)
unfolding register_json
register_json-Keeps r = search (guarding, add_user-Keeps) depth 30

register_form-Keeps : (r : Request) → Keeps IsWf (register_form r)
unfolding register_form
register_form-Keeps r = search (guarding, add_user-Keeps) depth 30

by_content-Keeps :
    (r : Request) (p : Response)
    → Keeps IsWf (λ w. elim (r.method == "GET") [
      | true ↦ next p w
      | false ↦ elim (is_form r) [ true ↦ register_form r w | false ↦ register_json r w ]
    ])
by_content-Keeps r p =
    test-Keeps (r.method == "GET") pure-Keeps
      (test-Keeps (is_form r) (register_form-Keeps r) (register_json-Keeps r))

pub register-Keeps : (r : Request) → Keeps IsWf (register r)
unfolding register
register-Keeps r = search (guarding, by_content-Keeps) depth 20

pub setup-Keeps : (r : Request) → Keeps IsWf (setup r)
unfolding setup setup_checks seed
setup-Keeps r = search (guarding, add_user-Keeps) depth 40

pub me-Keeps : (c : Claims) (r : Request) → Keeps IsWf (me c r)
unfolding me
me-Keeps c r = pure-Keeps

pub get_user-Keeps : (c : Claims) (r : Request) → Keeps IsWf (get_user c r)
unfolding get_user
get_user-Keeps c r = search (guarding) depth 30

show_users-Keeps : Keeps IsWf show_users
unfolding show_users
show_users-Keeps = search (guarding)

make_user-Keeps : (c : Claims) (r : Request) → Keeps IsWf (make_user c r)
unfolding make_user
make_user-Keeps c r = search (guarding, add_user-Keeps) depth 20

pub admin_users-Keeps : (c : Claims) (r : Request) → Keeps IsWf (admin_users c r)
unfolding admin_users
admin_users-Keeps c r = bind-Keeps open_store-Keeps (λ s. then-Keeps (or_stop-Keeps s _) (
    test-Keeps (r.method == "GET") show_users-Keeps
      (test-Keeps (r.method == "POST") (make_user-Keeps c r) respond-Keeps)))

pub admin_logs-Keeps : (c : Claims) (r : Request) → Keeps IsWf (admin_logs c r)
unfolding admin_logs
admin_logs-Keeps c r = search (guarding) depth 30
