-- ===== src/Register.antt =====
-- internal/handler/user.go, `Register`, and internal/handler/setup.go: how accounts come to be.
pub mod Laws
pub mod Pending
pub mod Setup
use sir_auth.Base.{
  ℕ, String, Bool, true, false, ◌==◌, ◌&&◌, ◌||◌, not, ltb, Option, none, some, List, [], ◌∷◌,
  if◌then◌else◌,
}
use sir_auth.Model.{User, OAuthClient}
use sir_auth.Text.{chars, string, concat, trim_space, has_prefix}
use sir_auth.World.{
  Outside, World, M, Exit, halt, next, Result, failed, ok, ◌>>=◌, ◌>>◌, pure, ask, Request,
  Response, stop_if, or_stop, open_store, now_unix, json,
}
use sir_auth.Http.{
  write_error, http_error, server_error, method_not_allowed, show_page, json_response,
}
use sir_auth.Token.{hash_password, random_string}
use sir_auth.Store.{create_user, create_client, count_users, create_system_log}
use sir_auth.Session.{raw_rd}
use sir_auth.Account.{validate_password}

unfoldable pub register_allowed : Outside → Bool
register_allowed o = not (o.getenv "ALLOW_REGISTER" == "false")

-- The message of `flashErr` for a code that `validatePassword` gives.
abbrev flash_password : String → String
flash_password reason =
    if reason == "pw-short"
    then "Password must be at least 8 characters."
    else if reason == "pw-mismatch"
    then "Passwords do not match."
    else ""

abbrev is_address : String → Option String → Bool
is_address email none = false
is_address email (some a) = a == email

-- `validateRegistration`
unfoldable pub validate_registration : Outside → (email password confirm : String) → String
unfolding validate_password
validate_registration o email password confirm =
    if is_address email (o.parse_address email)
    then flash_password (validate_password password confirm)
    else "Please enter a valid email address."

-- A new row; the salt is always empty.
abbrev pub new_user : (id email hash role : String) → ℕ → Bool → User
new_user id email hash role now approved = record {
  id = id;
  email = email;
  password_hash = hash;
  salt = "";
  role = role;
  created_at = now;
  approved = approved;
  sessions_valid_after = 0;
}

-- The hash and the identifier are made, then the row is inserted: an insert that fails is answered
-- with `conflict`, whatever the reason.
unfoldable pub add_user :
    (email password role : String) → Bool → (failure conflict : Response) → M User
add_user email password role approved failure conflict = do
  h ← hash_password password
  hash ← or_stop h failure
  drawn ← random_string 16
  id ← or_stop drawn failure
  now ← now_unix
  let u = new_user id email hash role now approved
  made ← create_user u
  or_stop made conflict
  pure u

abbrev api_error : Response
api_error = write_error "server_error" 500

-- The JSON body of `Register`.
unfoldable pub register_json : Request → M Response
unfolding add_user
register_json r = do
  stop_if (not r.json_ok || r.json "email" == "" || r.json "password" == "")
      (write_error "invalid_request: email and password required" 400)
  s ← open_store
  or_stop s api_error
  u ←
      add_user (r.json "email") (r.json "password") "user" false api_error
        (write_error "conflict: email already exists" 409)
  _ ←
      create_system_log "REGISTER_USER" u.id "SELF_REGISTER"
        (concat "User registered via /register: " u.email)
  pure (json_response 201 (json (("id", u.id) ∷ ("email", u.email) ∷ ("role", u.role) ∷ [])))

abbrev register_page : ℕ → (rd msg : String) → Response
register_page code rd msg = show_page code "register" (rd ∷ msg ∷ [])

-- `registerForm`
unfoldable pub register_form : Request → M Response
unfolding add_user validate_registration trim_space
register_form r = do
  stop_if (not r.form_ok) (http_error "Bad Request" 400)
  let rd = r.form "rd"
  let email = string (trim_space (chars (r.form "email")))
  o ← ask
  let msg = validate_registration o email (r.form "password") (r.form "confirm_password")
  stop_if (not (msg == "")) (register_page 400 rd msg)
  s ← open_store
  or_stop s server_error
  u ←
      add_user email (r.form "password") "user" false server_error
        (register_page 409 rd "An account with this email already exists.")
  _ ←
      create_system_log "REGISTER_USER" u.id "SELF_REGISTER"
        (concat "User registered via /register form (pending approval): " u.email)
  pure (show_page 200 "registered" (rd ∷ []))

-- `Register`
abbrev pub is_form : Request → Bool
is_form r = has_prefix (chars (r.header "Content-Type")) (chars "application/x-www-form-urlencoded")

unfoldable pub register : Request → M Response
unfolding register_json register_form has_prefix register_allowed raw_rd
register r = do
  stop_if (not (r.method == "GET") && not (r.method == "POST")) method_not_allowed
  o ← ask
  stop_if (not (register_allowed o)) (write_error "registration disabled" 403)
  λ w. elim (r.method == "GET") [
    | true ↦ next (register_page 200 (raw_rd r.raw_query) "") w
    | false ↦ elim (is_form r) [ true ↦ register_form r w | false ↦ register_json r w ]
  ]

-- ── Setup ──
abbrev missing_field : Request → Bool
missing_field r =
    r.json "admin_email" == ""
    || r.json "admin_password" == ""
    || r.json "client_id" == ""
    || r.json "client_secret" == ""

abbrev pub client_name : Request → String
client_name r = if r.json "client_name" == "" then "Default Client" else r.json "client_name"

abbrev pub first_client : Request → OAuthClient
first_client r = record {
  is_public = false;
  redirect_uri = "";
  client_id = r.json "client_id";
  client_secret = r.json "client_secret";
  name = client_name r;
}

-- Everything that `Setup` tests before it writes.
unfoldable pub setup_checks : Request → M (Unit {0})
setup_checks r = do
  stop_if (not (r.method == "POST")) method_not_allowed
  o ← ask
  stop_if (o.getenv "SETUP_SECRET" == "" || not (r.query "secret" == o.getenv "SETUP_SECRET"))
      (write_error "forbidden" 403)
  s ← open_store
  or_stop s api_error
  counted ← count_users
  n ← or_stop counted api_error
  stop_if (ltb 0 n) (write_error "already_initialized" 409)
  stop_if (not r.json_ok) (write_error "invalid_request" 400)
  stop_if (missing_field r) (write_error "invalid_request: all fields required" 400)

-- What it writes: the administrator, then the client. The text of the database's error, which the
-- answer repeats, is left out.
unfoldable pub seed : Request → M Response
unfolding add_user
seed r = do
  u ←
      add_user (r.json "admin_email") (r.json "admin_password") "admin" true api_error
        (write_error "server_error: " 500)
  made ← create_client (first_client r)
  or_stop made (write_error "server_error: " 500)
  _ ←
      create_system_log "SYSTEM_SETUP" u.id "SYSTEM"
        (concat "Initial setup completed. Created admin: " (r.json "admin_email"))
  pure (
      json_response 201 (
        json (
          ("admin_id", u.id)
          ∷ ("admin_email", r.json "admin_email")
          ∷ ("client_id", r.json "client_id")
          ∷ ("client_name", client_name r)
          ∷ [])))

-- `Setup`
unfoldable pub setup : Request → M Response
unfolding setup_checks seed
setup r = setup_checks r >> seed r
