-- ===== src/Tests.antt =====
-- A small world for runs and instances: two approved administrators, one of them with a code and a
-- refresh token, the other with a personal access token.
pub mod Runs
pub mod Witnesses
pub mod Instances
pub mod Callers
pub mod Tables
pub mod Access
pub mod Statistics
pub mod Handover
pub mod SignIn
use sir_auth.Base.{
  ℕ, suc, ◌*◌, ◌≤◌, ◌<◌, String, Bool, true, false, ◌≡◌, refl, Option, none, some, List, [], ◌∷◌,
  ◌==◌, if◌then◌else◌, count_if, length, arith, eq_iff, inl, inr, leb,
}
use sir_auth.Base.Rows.{Mem}
use sir_auth.Model.{User, OAuthClient, AuthCode, RefreshToken, ApiToken}
use sir_auth.World.{
  World, Db, Outside, Url, Claims, Cache, CacheEntry, UsageQueue, Request, Fate, Exit, halt, next,
  second, Response, failed, ok, Body, Cookie,
}
use sir_auth.Outcome.{Ends, Gives, OnSuccess, OnOk}

abbrev pub long_verifier : String
long_verifier = "abcdefghijklmnopqrstuvwxyzabcdefghijklmnopqrst"

abbrev pub alice_claims : Claims
alice_claims = record {
  sub = "alice";
  email = "a@x";
  role = "admin";
  scope = "session";
  exp = 9000;
  iat = 1000;
}

abbrev some_url : Url
some_url = record {
  scheme = "https";
  host = "app.x";
  hostname = "app.x";
  port = "";
  path = "/cb";
  has_user = false;
  raw_query = "";
  fragment = "";
}

abbrev pub drawn_bytes : List ℕ
drawn_bytes = 1 ∷ 2 ∷ 3 ∷ []

-- Every statement is answered, it is second 1000, and a password matches itself.
abbrev pub sample_outside : Outside
sample_outside = record {
  clock = λ n. 1000 * second;
  fate = λ n. Fate.answered;
  rand = λ n k. some drawn_bytes;
  opens = true;
  getenv = λ k. if k == "JWT_SECRET" then "secret" else "";
  parse_duration = λ s. none;
  parse_url = λ s. some some_url;
  parse_address = λ s. some s;
  query_escape = λ s. s;
  bcrypt_hash = λ n s. some s;
  bcrypt_matches = λ h p. h == p;
  sha256 = λ s. 171 ∷ 18 ∷ [];
  hmac_sha256 = λ k s. 1 ∷ 2 ∷ 3 ∷ [];
  marshal = λ c. 7 ∷ 8 ∷ 9 ∷ [];
  unmarshal = λ bs. some alice_claims;
  watch = λ n url. none;
  parse_day = λ s. none;
  format_day = λ t. "";
  rfc3339 = λ t. "";
  atoi = λ s. if s == "2" then 2 else 0;
  format_minute = λ t. "";
  itoa = λ n. if leb 2 n then "2" else "";
}

abbrev pub alice : User
alice = record {
  id = "alice";
  email = "a@x";
  password_hash = "pw";
  salt = "";
  role = "admin";
  created_at = 1;
  approved = true;
  sessions_valid_after = 0;
}

abbrev pub bob : User
bob = record {
  id = "bob";
  email = "b@x";
  password_hash = "pw";
  salt = "";
  role = "admin";
  created_at = 2;
  approved = true;
  sessions_valid_after = 0;
}

abbrev pub app : OAuthClient
app = record {
  is_public = false;
  redirect_uri = "https://app.x/cb";
  client_id = "app";
  client_secret = "s3cret";
  name = "App";
}

abbrev pub sample_code : AuthCode
sample_code = record {
  code_challenge = "";
  code = "code";
  client_id = "app";
  user_id = "alice";
  redirect_uri = "https://app.x/cb";
  scope = "all";
  expires_at = 1500;
  used = false;
}

abbrev pub sample_refresh : RefreshToken
sample_refresh = record {
  token = "refresh";
  user_id = "alice";
  client_id = "app";
  scope = "all";
  expires_at = 5000;
  revoked = false;
}

abbrev pub sample_pat : ApiToken
sample_pat = record {
  id = "t1";
  user_id = "bob";
  name = "ci";
  token_hash = "ab12";
  prefix = "sirpat_ab";
  created_at = 1;
  expires_at = none;
  revoked_at = none;
  last_used_at = none;
  last_used_ip = "";
}

abbrev pub sample_db : Db
sample_db = record {
  users = alice ∷ bob ∷ [];
  clients = app ∷ [];
  auth_codes = sample_code ∷ [];
  refresh_tokens = sample_refresh ∷ [];
  system_logs = [];
  api_tokens = sample_pat ∷ [];
  request_logs = [];
  route_policies = [];
}

abbrev pub sample_world : World
sample_world = record {
  outside = sample_outside;
  calls = 0;
  db = sample_db;
  user_cache = [];
  token_cache = [];
  policy_cache = [];
  routes_cache = [];
  usage = record { is_open = false; queued = []; batch = []; is_running = false; dropped = 0 };
}

-- The session cookie that the sample signature accepts.
abbrev pub session_jwt : String
session_jwt = "eyJhbGciOiJIUzI1NiIsInR5cCI6IkpXVCJ9.BwgJ.AQID"

-- A POST of a form by the browser of alice.
abbrev pub post : String → (String → String) → Request
post path form = record {
  method = "POST";
  url_path = path;
  request_uri = path;
  raw_query = "";
  host = "app.x";
  header = λ k. "";
  cookie = λ k. if k == "sir_session" then some session_jwt else none;
  query = λ k. "";
  form_ok = true;
  form = form;
  json_ok = false;
  json = λ k. "";
}

abbrev pub code_form : String → String
code_form k =
    if k == "code"
    then "code"
    else if k == "client_id"
    then "app"
    else if k == "client_secret"
    then "s3cret"
    else if k == "redirect_uri"
    then "https://app.x/cb"
    else ""

abbrev pub refresh_form : String → String
refresh_form k =
    if k == "refresh_token"
    then "refresh"
    else if k == "client_id"
    then "app"
    else if k == "client_secret"
    then "s3cret"
    else ""

abbrev pub delete_form : String → String
delete_form k = if k == "confirm" then "DELETE" else if k == "password" then "pw" else ""

abbrev pub action_form : String → String
action_form k = if k == "action" then "revoke" else if k == "id" then "bob" else ""

-- The status with which a handler ends.
abbrev pub status_of : Exit Response → ℕ
status_of (halt r w) = r.status
status_of (next r w) = r.status

-- Whether a handler comes to its end.
abbrev pub is_next : Exit Response → Bool
is_next (halt r w) = false
is_next (next r w) = true

-- The response with which a run ends.
abbrev pub response_of : Exit Response → Response
response_of (halt r w) = r
response_of (next r w) = r
