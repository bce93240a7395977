-- ===== src/World.antt =====
-- The world that a handler runs in: the PostgreSQL tables, what the process keeps in memory
-- (the caches of internal/handler/verify.go and the queue of internal/store/usage.go), and what the
-- code calls and does not implement. A handler is a state passing action that may end early.
use sir_auth.Base.{ℕ, suc, ◌/◌, String, Bool, true, false, Option, List, none, some, [], ◌∷◌}
use sir_auth.Model.{
  User, OAuthClient, AuthCode, RefreshToken, SystemLog, ApiToken, RequestLog, RoutePolicy,
}

-- The tables of internal/store/schema.sql.
pub record Db : Type 0 where
  pub users : List User
  pub clients : List OAuthClient
  pub auth_codes : List AuthCode
  pub refresh_tokens : List RefreshToken
  pub system_logs : List SystemLog
  pub api_tokens : List ApiToken
  pub request_logs : List RequestLog
  pub route_policies : List RoutePolicy

-- What becomes of one statement sent to PostgreSQL: it is executed and answered, it is refused, or
-- it is executed and the answer is lost.
pub data Fate : Type 0 where
  answered refused lost : Fate

-- `net/url`'s parse of a URL, as far as the code reads it.
pub record Url : Type 0 where
  pub scheme : String
  pub host : String
  pub hostname : String
  pub port : String
  pub path : String
  pub has_user : Bool
  pub raw_query : String
  pub fragment : String

-- The payload of a signed token (internal/token/token.go, `Claims`).
pub record Claims : Type 0 where
  pub sub : String
  pub email : String
  pub role : String
  pub scope : String
  pub exp : ℕ
  pub iat : ℕ

-- A route of the proxy, as the watcher lists it (internal/handler/ui.go, `watcherRoute`).
pub record WatcherRoute : Type 0 where
  pub name : String
  pub hostname : String
  pub url : String
  pub auth : Bool

-- What the program calls and does not implement. `clock` (nanoseconds), `fate` and `rand` are
-- indexed by the number of such calls made so far, so that each call has its own answer.
pub record Outside : Type 0 where
  pub clock : ℕ → ℕ
  pub fate : ℕ → Fate
  pub rand : ℕ → ℕ → Option (List ℕ)
  pub opens : Bool
  pub getenv : String → String
  pub parse_duration : String → Option ℕ
  pub parse_url : String → Option Url
  pub parse_address : String → Option String
  pub query_escape : String → String
  pub bcrypt_hash : ℕ → String → Option String
  pub bcrypt_matches : String → String → Bool
  pub sha256 : String → List ℕ
  pub hmac_sha256 : String → String → List ℕ
  pub marshal : Claims → List ℕ
  pub unmarshal : List ℕ → Option Claims
  -- The watcher's answer to `GET` of a URL: `none` is no answer, or one that is not a list.
  pub watch : ℕ → String → Option (List WatcherRoute)
  -- Days in Bangkok: the start of `YYYY-MM-DD`, the day of a time, and a time in RFC 3339; all in
  -- nanoseconds. `atoi` is 0 for what is not a positive number, and
  -- `itoa` writes a number; `format_minute` is a time in Bangkok to the minute.
  pub parse_day : String → Option ℕ
  pub format_day : ℕ → String
  pub rfc3339 : ℕ → String
  pub atoi : String → ℕ
  pub itoa : ℕ → String
  pub format_minute : ℕ → String

-- An entry of a `ttlCache`; a missing row is cached too, so `V` is an `Option` there.
pub record CacheEntry (V : Type 0) : Type 0 where
  pub value : V
  pub loaded_at : ℕ

abbrev pub Cache : Type 0 → Type 0
Cache V = List (String × CacheEntry V)

-- The queue of request logs: whether `usage.ch` is not nil, what the channel holds, the batch of
-- `flushLoop`, and whether that loop is running.
pub record UsageQueue : Type 0 where
  pub is_open : Bool
  pub queued : List RequestLog
  pub batch : List RequestLog
  pub is_running : Bool
  pub dropped : ℕ

pub record World : Type 0 where
  pub outside : Outside
  pub calls : ℕ
  pub db : Db
  pub user_cache : Cache (Option User)
  pub token_cache : Cache (Option ApiToken)
  pub policy_cache : Cache (Option RoutePolicy)
  pub routes_cache : Cache (List WatcherRoute)
  pub usage : UsageQueue

pub record Cookie : Type 0 where
  pub name : String
  pub value : String
  pub domain : String
  pub path : String
  -- `none` is a negative MaxAge, which deletes the cookie.
  pub max_age : Option ℕ
  pub http_only : Bool
  pub secure : Bool
  pub same_site : String

-- The rows of `GET /api/admin/users` and of `GET /api/admin/logs`.
pub record UserView : Type 0 where
  pub id : String
  pub email : String
  pub role : String
  pub created_at : ℕ
  pub approved : Bool

pub record LogView : Type 0 where
  pub id : String
  pub action : String
  pub admin : String
  pub target : String
  pub details : String
  pub created_at : ℕ

-- What a page shows in one place.
pub data Cell : Type 0 where
  words : String → Cell
  number : ℕ → Cell
  link : (path : String) (params : List (String × String)) → Cell
  moment : (title text : String) → Cell

-- What a handler writes: a page is named, with the values put into it.
pub data Body : Type 0 where
  empty : Body
  text : String → Body
  error_json : String → Body
  oauth_error : String → Body
  token_json : (access refresh scope : String) → Body
  json : List (String × String) → Body
  user_json : (id email role : String) (created_at : ℕ) → Body
  users_json : List UserView → Body
  logs_json : List LogView → Body
  page : String → List String → Body
  tables : (name : String) (values : List Cell) (rows : List (List (List Cell))) → Body
  csv : (name : String) (rows : List (List String)) (complete : Bool) → Body

pub record Response : Type 0 where
  pub status : ℕ
  pub headers : List (String × String)
  pub cookie : Option Cookie
  pub body : Body

-- A parsed HTTP request. `form_ok` and `json_ok` say whether `ParseForm` and the JSON decoder
-- succeed, `form` and `json` give the values that they find ("" for none).
pub record Request : Type 0 where
  pub method : String
  pub url_path : String
  pub request_uri : String
  pub raw_query : String
  pub host : String
  pub header : String → String
  pub cookie : String → Option String
  pub query : String → String
  pub form_ok : Bool
  pub form : String → String
  pub json_ok : Bool
  pub json : String → String

-- The result of an action: the response is written and the handler returns, or it goes on.
pub data Exit (A : Type 0) : Type 0 where
  halt : Response → World → Exit A
  next : A → World → Exit A

abbrev pub M : Type 0 → Type 0
M A = World → Exit A

infixl 5 ◌>>=◌ ◌>>◌
abbrev pub ◌>>=◌ : {A B : Type 0} → M A → (A → M B) → M B
◌>>=◌ m f w = elim (m w) [ halt r w' ↦ halt r w' | next a w' ↦ f a w' ]

abbrev pub ◌>>◌ : {B : Type 0} → M (Unit {0}) → M B → M B
m >> k = m >>= λ _. k

abbrev pub pure : {A : Type 0} → A → M A
pure a w = next a w

-- `for _, x := range xs`, for what it collects.
unfoldable pub each : {A B : Type 0} → (A → M B) → List A → M (List B)
each f [] w = next [] w
each f (x ∷ xs) w = (do y ← f x; ys ← each f xs; pure (y ∷ ys)) w

-- Write the response and return from the handler.
abbrev pub respond : {A : Type 0} → Response → M A
respond r w = halt r w

-- `if bad { write; return }`.
abbrev pub stop_if : Bool → Response → M (Unit {0})
stop_if b r w = elim b [ true ↦ halt r w | false ↦ next tt w ]

-- The Go result `(v, err)`: `failed` is a non-nil error.
pub data Result (A : Type 0) : Type 0 where
  failed : Result A
  ok : A → Result A

-- `if err != nil { write; return }`.
abbrev pub or_stop : {A : Type 0} → Result A → Response → M A
or_stop failed r w = halt r w
or_stop (ok a) r w = next a w

-- `if err != nil { return err }`.
abbrev pub on_ok : {A B : Type 0} → Result A → (A → M (Result B)) → M (Result B)
on_ok failed f w = next failed w
on_ok (ok a) f w = f a w

-- `if p == nil { write; return }`.
abbrev pub some_or_stop : {A : Type 0} → Option A → Response → M A
some_or_stop none r w = halt r w
some_or_stop (some a) r w = next a w

-- The response and the world at the end of a handler.
abbrev pub finish : Exit Response → Response × World
finish (halt r w) = (r, w)
finish (next r w) = (r, w)

abbrev pub world_of : {A : Type 0} → Exit A → World
world_of (halt r w) = w
world_of (next a w) = w

abbrev pub tick : World → World
tick w = record w { calls = suc w.calls }

abbrev pub ask : M Outside
ask w = next w.outside w

-- `time.Now()`, in nanoseconds, and `time.Now().Unix()`.
unfoldable pub now_ns : M ℕ
now_ns w = next (w.outside.clock w.calls) (tick w)

abbrev pub second : ℕ
second = 1000000000

unfoldable pub now_unix : M ℕ
now_unix w = next (w.outside.clock w.calls / second) (tick w)

-- One SQL statement or transaction. `none` is a violated constraint: nothing is written.
abbrev pub settle : {A : Type 0} → Fate → Option (A × Db) → World → Exit (Result A)
settle refused r w = next failed (tick w)
settle answered none w = next failed (tick w)
settle answered (some (a, d)) w = next (ok a) (record w { calls = suc w.calls; db = d })
settle lost none w = next failed (tick w)
settle lost (some (a, d)) w = next failed (record w { calls = suc w.calls; db = d })

unfoldable pub db_write : {A : Type 0} → (Db → Option (A × Db)) → M (Result A)
db_write f w = settle (w.outside.fate w.calls) (f w.db) w

abbrev pub read_result : {A : Type 0} → Fate → A → Result A
read_result answered a = ok a
read_result _ a = failed

unfoldable pub db_read : {A : Type 0} → (Db → A) → M (Result A)
db_read f w = next (read_result (w.outside.fate w.calls) (f w.db)) (tick w)

-- `store.Open()`: connects once, and gives the same outcome ever after.
unfoldable pub open_store : M (Result (Unit {0}))
open_store w = elim w.outside.opens [ true ↦ next (ok tt) w | false ↦ next failed w ]
