-- ===== src/Lib.antt =====
-- sir-auth is the login service of a few sites: an OAuth 2 authorization server for desktop programs,
-- browser sessions for nginx's auth_request, personal access tokens, and pages on which users and
-- administrators manage accounts. It is one Go process over PostgreSQL.
--
-- The parts, and the files that model them (paths from the repository's root):
--   Model       internal/model/model.go: the rows of the tables.
--   World       the state that a handler runs in: the tables (`Db`), the caches, the queue of
--               request logs, and what the program calls and does not implement (`Outside`).
--   Store       internal/store/store.go over internal/store/schema.sql; Store.Codes has the codes and
--               refresh tokens, Store.Tokens the personal access tokens, Store.Logs the log's queries,
--               Store.Policies the table of policies as a map.
--   Token       internal/token/token.go, over Base64 (`encoding/base64`) and Text (`strings`).
--   Cache       `ttlCache` of internal/handler/verify.go.
--   Verify      internal/handler/verify.go; the caches and identities are in Verify.Identities.
--   Usage       internal/store/usage.go: the queue, and the turns of the loop that writes it.
--   Http        the responses, the cookie, `safeRedirect` and `sameOrigin` that the handlers share.
--   Session     internal/handler/session.go, `pageUser` and `postUser` of internal/handler/ui.go.
--   OAuth       internal/handler/oauth.go; OAuth.Grants has the grants, OAuth.Uri the checks.
--   Admin       `AdminAction` and `AdminUserDetail` of internal/handler/admin.go.
--   Account     the forms of internal/handler/account.go.
--   Middleware  internal/middleware/auth.go and internal/middleware/cors.go.
--   Register    `Register` of internal/handler/user.go and internal/handler/setup.go.
--   Api         the rest of internal/handler/user.go, and `AdminLogs` of internal/handler/admin.go.
--   Routes      the policies of internal/handler/routes.go.
--   Stats       internal/handler/stats.go; Stats.Windows has the windows, Stats.Links the links of the
--               pages, Stats.Chart the bars.
--   Pages       `AccountPage`, `TokensPage`, `AdminPage` and what the pages share, from
--               internal/handler/ui.go, account.go and admin.go.
--   Home        `Home` of internal/handler/ui.go, `AdminRoutes` of routes.go, and the watcher's routes
--               that both show.
--   Server      main.go: which handler a path has, and what runs around it.
--   Integrity   the constraints of internal/store/schema.sql as an invariant of the tables: the rules by
--               which actions keep it, one for each way to compose them, then every statement, every
--               handler, and what the process reaches.
--   Outcome     predicates on how a handler ends; Base the shared names and lemmas; Tests the samples.
-- A handler calls the store; after a change it empties the caches (`invalidate_auth`), from which
-- `verify_session` answers. A definition has the name of the Go function in snake_case; a long handler
-- is cut into named parts that it runs in order.
--
-- How the code is modelled:
--   * A handler is a function `World → Exit A`: `halt` is a written response with an early return,
--     `next` goes on. `OnSuccess P e` says that P holds if the handler `e` comes to its end without an
--     early return, `Ends H N e` says what holds in either case, `Gives N e` that there is no early
--     return. Handlers are total functions; no definition has fuel.
--   * `Outside` has PostgreSQL's fate of each statement, the clock and the random source, each
--     indexed by the number of calls made so far, and net/url, bcrypt, HMAC, SHA-256, JSON and the
--     environment as functions. A statement or transaction is executed whole and is answered, refused,
--     or executed with its answer lost. What is assumed of these functions is a hypothesis of the
--     theorem that needs it.
--   * Times are natural numbers, nanoseconds for the clock and seconds in the tables; the 64-bit range
--     is not reached by them. Each reading of the clock is independent of the others, but for the age
--     of a cache entry, which stops at 0.
--   * A Go string is a list of characters, valid UTF-8; folding of case is that of ASCII letters.
--   * The goroutine that writes request logs takes turns, each whole: a channel with an event, the
--     ticker, the closed channel. The channel holds at most 10000 events and a batch 500, as in the code.
--   * Handlers run one at a time; where the code relies on the database to settle a race, the race is
--     a list of requests (`winners`). The cache's lock is left out.
--   * Pages are named, with the values put into them. The constant `expires_in` of a token response,
--     the order of listed rows and the log lines are left out. In `live_grant` the clock is read also
--     where the code's `||` stops before it.
--
-- Not modelled: the HTML of the pages, the height of a bar in percent, the relative times of
-- internal/handler/ui.go, the static block of internal/handler/mcp.go, and of main.go the listener, the
-- signals and the environment: all of these only format or connect. The migration that schema.sql runs
-- at the start is taken as done. The mux's redirects to a clean path are left out.
pub mod Base
pub mod Text
pub mod Model
pub mod World
pub mod Base64
pub mod Token
pub mod Outcome
pub mod Store
pub mod Cache
pub mod Usage
pub mod Verify
pub mod Http
pub mod OAuth
pub mod Session
pub mod Admin
pub mod Account
pub mod Middleware
pub mod Register
pub mod Api
pub mod Routes
pub mod Stats
pub mod Times
pub mod Pages
pub mod Home
pub mod Server
pub mod Integrity
pub mod Tests
