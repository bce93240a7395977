-- ===== src/Verify.antt =====
-- internal/handler/verify.go: who a request comes from, and what `/session/verify` answers nginx.
pub mod Identities
pub mod Cookies
pub mod Laws
pub mod Answer
pub mod Fresh
pub mod FreshTokens
pub mod Race
use sir_auth.Base.{
  ℕ, suc, ◌*◌, ◌+◌, String, Bool, true, false, ◌==◌, ◌&&◌, ◌||◌, not, Option, none, some, List, [],
  ◌∷◌, ◌++◌, ltb, if◌then◌else◌, length,
}
use sir_auth.Model.{User, ApiToken, RoutePolicy, RequestLog}
use sir_auth.Text.{chars, string, to_lower, byte_len, take_bytes, before}
use sir_auth.World.{
  World, UsageQueue, M, halt, next, Result, failed, ok, ◌>>=◌, ◌>>◌, pure, ask, Request, Response,
  empty, stop_if, respond, now_ns, finish,
}
use sir_auth.Token.{parse_bearer_pat}
use sir_auth.Usage.{log_usage}
use Identities.{
  Identity, invalidate_auth, cookie_identity, token_identity, host_public, session_claims,
}

-- `requestPath`: no query, at most 512 bytes, never empty.
abbrev or_root : List (Prim.Native.Char.Char) → String
or_root [] = "/"
or_root (c ∷ s) = string (c ∷ s)

unfoldable pub cap : ℕ → List (Prim.Native.Char.Char) → List (Prim.Native.Char.Char)
unfolding take_bytes
cap n s = if ltb n (byte_len s) then take_bytes n s else s

unfoldable pub request_path : String → String
unfolding cap before
request_path uri = or_root (cap 512 (before "?" (chars uri)))

unfoldable pub cap_len : String → ℕ → String
unfolding cap
cap_len s n = string (cap n (chars s))

unfoldable pub log_request : Request → (host cred : String) → Identity → M (Unit {0})
unfolding cap_len request_path
log_request r host cred id = do
  t ← now_ns
  log_usage (record {
    ts = t;
    host = cap_len host 255;
    method = cap_len (r.header "X-Original-Method") 16;
    path = request_path (r.header "X-Original-URI");
    ip = cap_len (r.header "X-Real-IP") 64;
    cred = cred;
    token_id = id.token_id;
    user_id = id.id;
  })

abbrev pub unauthorized : Response
unauthorized = record { status = 401; headers = []; cookie = none; body = empty }

abbrev pub identified : Identity → Response
identified id = record {
  status = 200;
  headers = ("X-Auth-User-Id", id.id) ∷ ("X-Auth-Email", id.email) ∷ ("X-Auth-Role", id.role) ∷ [];
  cookie = none;
  body = empty;
}

abbrev pub anonymous : Response
anonymous = record { status = 200; headers = []; cookie = none; body = empty }

abbrev pub nobody : Identity
nobody = record { id = ""; email = ""; role = ""; token_id = none }

-- What follows once it is known who asks, by which credential.
unfoldable pub answer : Request → String → Option Identity → M Response
unfolding log_request
answer r cred (some id) = do
  log_request r (r.header "X-Original-Host") cred id
  pure (identified id)
answer r cred none = do
  open_to_all ← host_public (r.header "X-Original-Host")
  stop_if (not open_to_all) unauthorized
  log_request r (r.header "X-Original-Host") "anonymous" nobody
  pure anonymous

-- A bad personal access token is refused on every host.
unfoldable pub answer_token : Request → Option Identity → M Response
unfolding answer
answer_token r none = respond unauthorized
answer_token r (some id) = answer r "token" (some id)

unfoldable pub by_credential : Request → Option String → M Response
unfolding answer_token answer
by_credential r (some raw) = do id ← token_identity raw; answer_token r id
by_credential r none = do id ← cookie_identity r; answer r "session" id

unfoldable pub verify_session : Request → M Response
unfolding by_credential parse_bearer_pat
verify_session r = by_credential r (parse_bearer_pat (r.header "Authorization"))
