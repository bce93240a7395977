-- ===== src/Integrity/Serve.antt =====
-- About main.go: every request is answered, and leaves the tables as the schema wants them.
use sir_auth.Base.{String, ◌==◌, Option, none, some, [], ◌∷◌, Bool-cases, inl, inr}
use sir_auth.Base.Rows.{All}
use sir_auth.Text.{chars, has_prefix}
use sir_auth.World.{Exit, halt, next, Request, Response, Claims, M}
use sir_auth.Outcome.{Ends}
use sir_auth.Middleware.{
  Handler, auth_middleware, chain, cors_middleware, with_claims, is_preflight, on_response,
}
use sir_auth.Server.{
  Table, health, plainly, exact_paths, subtrees, exact, subtree, handler_or, mux, serve,
}
use sir_auth.Integrity.{IsWf, Keeps}
use sir_auth.Integrity.Rules.{keeping, test-Keeps, pure-Keeps}
use sir_auth.Integrity.Readers.{guarding, validate_access_token-Keeps, verify_session-Keeps}
use sir_auth.Integrity.OAuth.{authorize-Keeps, token-Keeps, revoke-Keeps}
use sir_auth.Integrity.Handlers.{
  login-Keeps, logout-Keeps, account_password-Keeps, account_logout_all-Keeps, account_delete-Keeps,
  token_rename-Keeps, token_revoke-Keeps, admin_action-Keeps, admin_user_detail-Keeps,
  register-Keeps, setup-Keeps, me-Keeps, get_user-Keeps, admin_users-Keeps, admin_logs-Keeps,
}
use sir_auth.Integrity.Pages.{
  usage_page-Keeps, admin_stats-Keeps, usage_csv-Keeps, admin_stats_csv-Keeps, account_page-Keeps,
  tokens_page-Keeps, admin_page-Keeps, home-Keeps, admin_routes-Keeps,
}

abbrev HandlerKeeps : Handler → Type 0
HandlerKeeps h = (ctx : Option Claims) (r : Request) → Keeps IsWf (h ctx r)

with_claims-Keeps :
    (h : Claims → Request → M Response)
    → ((c : Claims) (r : Request) → Keeps IsWf (h c r))
    → HandlerKeeps (with_claims h)
with_claims-Keeps h k none r = record { kept = λ w p. p }
with_claims-Keeps h k (some c) r = record { kept = (k c r).kept }

auth-Keeps : (h : Handler) → HandlerKeeps h → HandlerKeeps (auth_middleware h)
unfolding auth_middleware
auth-Keeps h k ctx r = search (guarding, validate_access_token-Keeps, k) depth 20

behind-Keeps :
    (h : Claims → Request → M Response)
    → ((c : Claims) (r : Request) → Keeps IsWf (h c r))
    → HandlerKeeps (chain (with_claims h) (auth_middleware ∷ []))
unfolding chain
behind-Keeps h k = auth-Keeps (with_claims h) (with_claims-Keeps h k)

abbrev TableKeeps : Table → Type 0
TableKeeps t = All (λ e. HandlerKeeps e.1) t

health-Keeps : HandlerKeeps (plainly health)
unfolding health
health-Keeps ctx r = search (keeping)

exact_paths-Keeps : TableKeeps exact_paths
unfolding exact_paths
exact_paths-Keeps =
    search
      (
        health-Keeps, login-Keeps, logout-Keeps, verify_session-Keeps, account_page-Keeps,
        account_password-Keeps, account_logout_all-Keeps, account_delete-Keeps, tokens_page-Keeps,
        token_rename-Keeps, token_revoke-Keeps, usage_page-Keeps, usage_csv-Keeps, authorize-Keeps,
        token-Keeps, revoke-Keeps, setup-Keeps, register-Keeps, admin_page-Keeps,
        admin_routes-Keeps, admin_stats-Keeps, admin_stats_csv-Keeps, behind-Keeps, me-Keeps,
        admin_users-Keeps, admin_logs-Keeps,
      )
      depth 60 fits 4000

subtrees-Keeps : TableKeeps subtrees
unfolding subtrees
subtrees-Keeps =
    search (behind-Keeps, admin_user_detail-Keeps, get_user-Keeps, admin_action-Keeps) depth 20

exact-Keeps :
    (path : String) (t : Table) (k : Handler)
    → TableKeeps t
    → HandlerKeeps k
    → HandlerKeeps (handler_or (exact path t) k)
unfolding exact
exact-Keeps path [] k ks h = h
exact-Keeps path ((p, i) ∷ t) k (j, ks) h = elim (Bool-cases (p == path)) [
  | inl e ↦ rw e j
  | inr e ↦ rw e (exact-Keeps path t k ks h)
]

subtree-Keeps : (path : String) (t : Table) → TableKeeps t → HandlerKeeps (subtree path t)
unfolding subtree
subtree-Keeps path [] ks = λ _ r. home-Keeps r
subtree-Keeps path ((p, i) ∷ t) (j, ks) = elim (Bool-cases (has_prefix (chars path) (chars p))) [
  | inl e ↦ rw e j
  | inr e ↦ rw e (subtree-Keeps path t ks)
]

mux-Keeps : HandlerKeeps mux
unfolding mux
mux-Keeps ctx r =
    exact-Keeps r.url_path exact_paths (subtree r.url_path subtrees) exact_paths-Keeps
      (subtree-Keeps r.url_path subtrees subtrees-Keeps) ctx r

-- The headers that are added to a response touch no table.
on_response-Keeps :
    (f : Response → Response) (e : Exit Response)
    → Ends (λ _ w'. IsWf w'.db) (λ _ w'. IsWf w'.db) e
    → Ends (λ _ w'. IsWf w'.db) (λ _ w'. IsWf w'.db) (on_response f e)
on_response-Keeps f (halt r w) h = h
on_response-Keeps f (next r w) h = h

cors-Keeps : (h : Handler) → HandlerKeeps h → HandlerKeeps (cors_middleware h)
unfolding cors_middleware
cors-Keeps h k ctx r =
    test-Keeps (is_preflight r) pure-Keeps
      (record { kept = λ w p. on_response-Keeps _ _ ((k ctx r).kept w p) })

pub serve-Keeps : (r : Request) → Keeps IsWf (serve r)
unfolding serve
serve-Keeps r = cors-Keeps mux mux-Keeps none r
