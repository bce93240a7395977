-- ===== src/Http.antt =====
-- What the handlers share: the responses that they write (internal/middleware/auth.go and
-- `net/http`), the settings, the session cookie and the checks on the origin of a request.
use sir_auth.Base.{
  ℕ, ◌*◌, String, Bool, true, false, ◌==◌, ◌&&◌, ◌||◌, not, Option, none, some, List, [], ◌∷◌,
  if◌then◌else◌,
}
use sir_auth.Text.{chars, string, concat, to_lower, trim_prefix, has_suffix}
use sir_auth.World.{
  Outside, Url, Cookie, Request, Response, Body, empty, text, error_json, oauth_error, page, second,
}

abbrev pub plain : ℕ → Body → Response
plain status b = record { status = status; headers = []; cookie = none; body = b }

-- `http.Error`, `middleware.WriteError`, `middleware.WriteOAuthError`.
abbrev pub http_error : String → ℕ → Response
http_error msg code = plain code (text msg)

abbrev pub write_error : String → ℕ → Response
write_error msg code = record {
  status = code;
  headers = ("Content-Type", "application/json") ∷ [];
  cookie = none;
  body = error_json msg;
}

abbrev pub write_oauth_error : String → ℕ → Response
write_oauth_error err_code status = record {
  status = status;
  headers = ("Content-Type", "application/json") ∷ ("Cache-Control", "no-store") ∷ [];
  cookie = none;
  body = oauth_error err_code;
}

abbrev pub server_error : Response
server_error = http_error "Internal Server Error" 500

abbrev pub method_not_allowed : Response
method_not_allowed = http_error "Method Not Allowed" 405

abbrev pub redirect : String → ℕ → Response
redirect location code = record {
  status = code;
  headers = ("Location", location) ∷ [];
  cookie = none;
  body = empty;
}

abbrev pub with_cookie : Cookie → Response → Response
with_cookie c r = record r { cookie = some c }

-- `Content-Type: application/json` with a status and an encoded value.
abbrev pub json_response : ℕ → Body → Response
json_response code b = record {
  status = code;
  headers = ("Content-Type", "application/json") ∷ [];
  cookie = none;
  body = b;
}

-- A page: its name, and the values that are put into it.
abbrev pub show_page : ℕ → String → List String → Response
show_page code name values = record {
  status = code;
  headers = ("Content-Type", "text/html; charset=utf-8") ∷ [];
  cookie = none;
  body = page name values;
}

-- A page that no cache may keep.
abbrev pub unstored_page : String → List String → Response
unstored_page name values = record (show_page 200 name values) {
  headers = ("Content-Type", "text/html; charset=utf-8") ∷ ("Cache-Control", "no-store") ∷ [];
}

abbrev pub default_to : String → String → String
default_to d s = if s == "" then d else s

unfoldable pub cookie_domain : Outside → String
cookie_domain o = default_to ".sir-labs.com" (o.getenv "COOKIE_DOMAIN")

abbrev positive_or : ℕ → Option ℕ → ℕ
positive_or d none = d
positive_or d (some Prim.Native.Nat.zero) = d
positive_or d (some (Prim.Native.Nat.suc n)) = Prim.Native.Nat.suc n

-- In nanoseconds; a missing or malformed duration, or one that is not positive, is seven days.
unfoldable pub session_ttl : Outside → ℕ
session_ttl o = positive_or (7 * 24 * 3600 * second) (o.parse_duration (o.getenv "SESSION_TTL"))

abbrev pub session_cookie : Outside → String → Option ℕ → Cookie
session_cookie o value max_age = record {
  name = "sir_session";
  value = value;
  domain = cookie_domain o;
  path = "/";
  max_age = max_age;
  http_only = true;
  secure = true;
  same_site = "Lax";
}

-- The host of the cookie's domain itself.
unfoldable pub apex : Outside → String
unfolding cookie_domain trim_prefix
apex o = string (trim_prefix (chars (cookie_domain o)) (chars "."))

abbrev is_ours : String → String → Bool
is_ours host apex = host == apex || has_suffix (chars host) (chars (concat "." apex))

abbrev redirect_to : Option Url → String → String → String
redirect_to none rd apex = "/"
redirect_to (some u) rd apex =
    if u.scheme == "https" && is_ours (string (to_lower (chars u.hostname))) apex then rd else "/"

-- `safeRedirect`.
unfoldable pub safe_redirect : Outside → String → String
unfolding apex to_lower has_suffix
safe_redirect o rd = redirect_to (o.parse_url rd) rd (apex o)

abbrev same_host : Option Url → String → Bool
same_host none host = false
same_host (some u) host = not (u.host == "") && u.host == host

-- `sameOrigin`: the host of `Origin`, or else of `Referer`, is that of the request.
unfoldable pub same_origin : Outside → Request → Bool
same_origin o r =
    same_host (o.parse_url (default_to (r.header "Referer") (r.header "Origin"))) r.host
