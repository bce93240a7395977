-- ===== src/Admin.antt =====
-- internal/handler/admin.go: what administrators do to users, in the browser and over the API.
pub mod Keeps
pub mod Laws
use sir_auth.Base.{
  ℕ, suc, zero, ◌+◌, String, Bool, true, false, ◌==◌, ◌&&◌, ◌||◌, not, Option, none, some, List, [],
  ◌∷◌, if◌then◌else◌, leb, find, count_if,
}
use sir_auth.Model.{User}
use sir_auth.Text.{chars, string, concat, trim_prefix}
use sir_auth.World.{
  Outside, World, M, halt, next, Result, failed, ok, ◌>>=◌, ◌>>◌, pure, ask, Request, Response,
  Claims, stop_if, or_stop, some_or_stop, respond, open_store, user_json, empty,
}
use sir_auth.Http.{
  plain, http_error, write_error, server_error, method_not_allowed, redirect, same_origin,
  json_response,
}
use sir_auth.Token.{hash_password}
use sir_auth.Store.{
  has_id, is_approved_admin, get_user_by_id, list_users, set_user_approved, delete_user_data,
  update_user, create_system_log,
}
use sir_auth.Verify.Identities.{invalidate_auth}
use sir_auth.Session.{session_user}

-- `sessionAdmin`
unfoldable pub session_admin : Request → M User
unfolding session_user
session_admin r = do
  u ← session_user r
  stop_if (not (u.role == "admin")) (http_error "Forbidden" 403)
  pure u

abbrev is_removal : String → Bool
is_removal action = action == "revoke" || action == "delete"

-- `checkAdminAction`: why the action is refused, or "".
unfoldable pub check_admin_action : (action self_id : String) → User → ℕ → String
check_admin_action action self_id target approved_admins =
    if action == "approve"
    then if target.approved then "User is already approved." else ""
    else if action == "reject"
    then if target.approved then "Only pending users can be rejected." else ""
    else if is_removal action
    then if target.id == self_id
      then concat "You cannot " (concat action " your own account.")
      else if action == "revoke" && not target.approved
      then "User is not approved."
      else if is_approved_admin target && leb approved_admins 1
      then concat "You cannot " (concat action " the last admin.")
      else ""
    else "Unknown action."

-- The row that the loop over the list leaves in `target`: the last with this id.
unfoldable pub find_last : String → List User → Option User
find_last id [] = none
find_last id (u ∷ us) =
    let rest = find_last id us in
    elim rest [ none ↦ if has_id id u then some u else none | some v ↦ some v ]

-- The statement that an action sends.
unfoldable pub perform : (action id : String) → M (Result (Unit {0}))
perform action id w = elim (action == "approve") [
  | true ↦ set_user_approved id true w
  | false ↦ elim (action == "revoke") [
    | true ↦ set_user_approved id false w
    | false ↦ delete_user_data id w
  ]
]

abbrev pub upper_action : String → String
upper_action action =
    if action == "approve"
    then "APPROVE"
    else if action == "reject"
    then "REJECT"
    else if action == "revoke"
    then "REVOKE"
    else "DELETE"

-- The guards of `AdminAction`, in their order.
unfoldable pub admin_form : Request → M User
unfolding session_admin
admin_form r = do
  stop_if (not (r.method == "POST")) method_not_allowed
  o ← ask
  stop_if (not (same_origin o r)) (http_error "Forbidden: cross-origin request" 403)
  s ← open_store
  or_stop s server_error
  me ← session_admin r
  stop_if (not r.form_ok) (http_error "Bad Request" 400)
  pure me

abbrev pub action_of : Request → String
action_of r = string (trim_prefix (chars r.url_path) (chars "/admin/"))

abbrev pub refusal : Request → User → User → List User → String
refusal r me target users =
    check_admin_action (action_of r) me.id target (count_if is_approved_admin users)

-- The row that the form names, if the action on it is allowed.
unfoldable pub choose_target : Request → User → M User
unfolding check_admin_action find_last
choose_target r me = do
  rows ← list_users
  users ← or_stop rows server_error
  target ← some_or_stop (find_last (r.form "id") users) (http_error "User not found" 404)
  stop_if (not (refusal r me target users == "")) (http_error (refusal r me target users) 400)
  pure target

unfoldable pub finish_action : Request → User → User → Result (Unit {0}) → M Response
finish_action r me target done = do
  invalidate_auth
  or_stop done server_error
  _ ←
      create_system_log (concat (upper_action (action_of r)) "_USER") target.id me.id
        (concat "Admin " (concat (action_of r) (concat " via /admin: " target.email)))
  pure (redirect "/admin" 303)

unfoldable pub act : Request → User → User → M Response
unfolding perform finish_action
act r me target = do done ← perform (action_of r) target.id; finish_action r me target done

-- `AdminAction`
unfoldable pub admin_action : Request → M Response
unfolding admin_form choose_target act
admin_action r = do me ← admin_form r; target ← choose_target r me; act r me target

-- `AdminUserDetail`, behind the bearer token whose claims it is given.
abbrev new_email : Request → User → String
new_email r u = if r.json "email" == "" then u.email else r.json "email"

abbrev new_role : Request → User → String
new_role r u = if r.json "role" == "admin" || r.json "role" == "user" then r.json "role" else u.role

-- A new hash if there is a new password; `none` leaves the old one.
abbrev pub new_hash : Request → M (Option String)
new_hash r w = elim (r.json "password" == "") [
  | true ↦ next none w
  | false ↦
      (do
        h ← hash_password (r.json "password")
        hash ← or_stop h (write_error "server_error" 500)
        pure (some hash))
        w
]

abbrev rehash : Option String → User → User
rehash none u = u
rehash (some h) u = record u { password_hash = h; salt = "" }

unfoldable pub put_user : Claims → Request → User → M Response
put_user claims r u = do
  stop_if (not r.json_ok) (write_error "invalid_request" 400)
  h ← new_hash r
  let v = rehash h (record u { email = new_email r u; role = new_role r u })
  saved ← update_user v
  or_stop saved (write_error "server_error" 500)
  invalidate_auth
  _ ← create_system_log "UPDATE_USER" v.id claims.sub "Admin updated user profile"
  pure (json_response 200 (user_json v.id v.email v.role v.created_at))

unfoldable pub remove_user : Claims → User → M Response
remove_user claims u = do
  done ← delete_user_data u.id
  or_stop done (write_error "server_error" 500)
  invalidate_auth
  _ ← create_system_log "DELETE_USER" u.id claims.sub "Admin deleted user"
  pure (plain 204 empty)

unfoldable pub admin_user_detail : Claims → Request → M Response
unfolding put_user remove_user
admin_user_detail claims r = do
  stop_if (not (claims.role == "admin")) (write_error "forbidden" 403)
  let target = string (trim_prefix (chars r.url_path) (chars "/api/admin/users/"))
  stop_if (target == "" || target == "/api/admin/users/") (write_error "missing user id" 400)
  s ← open_store
  or_stop s (write_error "server_error" 500)
  row ← get_user_by_id target
  maybe ← or_stop row (write_error "server_error" 500)
  u ← some_or_stop maybe (write_error "user not found" 404)
  λ w. elim (r.method == "PUT") [
    | true ↦ put_user claims r u w
    | false ↦ elim (r.method == "DELETE") [
      | true ↦ remove_user claims u w
      | false ↦ halt method_not_allowed w
    ]
  ]
