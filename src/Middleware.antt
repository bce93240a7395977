-- ===== src/Middleware.antt =====
-- internal/middleware/auth.go and internal/middleware/cors.go: what runs around a handler. The claims
-- that the request's context holds are an argument of the handler.
use sir_auth.Base.{
  String, Bool, true, false, ◌==◌, ◌&&◌, ◌||◌, not, Option, none, some, List, [], ◌∷◌, ◌++◌,
}
use sir_auth.Text.{chars, string, concat, has_prefix, trim_prefix}
use sir_auth.World.{
  M, Exit, halt, next, ◌>>=◌, ◌>>◌, ask, Request, Response, Claims, stop_if, some_or_stop, empty,
}
use sir_auth.Http.{write_error, plain}
use sir_auth.Token.{validate_access_token}

abbrev pub Handler : Type 0
Handler = Option Claims → Request → M Response

-- `AuthMiddleware`: the reason that follows "invalid token: " is left out.
unfoldable pub auth_middleware : Handler → Handler
unfolding has_prefix trim_prefix
auth_middleware h ctx r = do
  let header = chars (r.header "Authorization")
  stop_if (not (has_prefix header (chars "Bearer ")))
      (write_error "missing or invalid authorization header" 401)
  o ← ask
  claims ←
      validate_access_token (string (trim_prefix header (chars "Bearer "))) (o.getenv "JWT_SECRET")
  c ← some_or_stop claims (write_error "invalid token: " 401)
  h (some c) r

abbrev has_role : String → Claims → Bool
has_role role c = c.role == role || c.role == "admin"

-- `RequireRole`
unfoldable pub require_role : String → Handler → Handler
require_role role h ctx r = do
  c ← some_or_stop ctx (write_error "unauthorized" 401)
  stop_if (not (has_role role c)) (write_error (concat "forbidden: requires role " role) 403)
  h ctx r

-- `Chain`: the first of the list runs first.
unfoldable pub chain : Handler → List (Handler → Handler) → Handler
chain h [] = h
chain h (m ∷ ms) = m (chain h ms)

abbrev cors_headers : List (String × String)
cors_headers =
    ("Access-Control-Allow-Origin", "*")
    ∷ ("Access-Control-Allow-Methods", "GET, POST, PUT, DELETE, OPTIONS")
    ∷ ("Access-Control-Allow-Headers", "Content-Type, Authorization")
    ∷ []

abbrev with_headers : List (String × String) → Response → Response
with_headers hs r = record r { headers = hs ++ r.headers }

abbrev pub on_response : (Response → Response) → Exit Response → Exit Response
on_response f (halt r w) = halt (f r) w
on_response f (next r w) = next (f r) w

abbrev pub is_preflight : Request → Bool
is_preflight r = r.method == "OPTIONS" && not (r.url_path == "/session/verify")

-- `CORSMiddleware`
unfoldable pub cors_middleware : Handler → Handler
cors_middleware h ctx r w = elim (is_preflight r) [
  | true ↦ next (with_headers cors_headers (plain 200 empty)) w
  | false ↦ on_response (with_headers cors_headers) (h ctx r w)
]

-- A handler that reads the claims of the context. Without claims it panics, and `net/http` closes
-- the connection: there is no response, status 0 here.
abbrev pub aborted : Response
aborted = plain 0 empty

abbrev pub with_claims : (Claims → Request → M Response) → Handler
with_claims h none r w = halt aborted w
with_claims h (some c) r w = h c r w
