-- ===== src/Verify/Answer.antt =====
-- About `VerifySession` of internal/handler/verify.go: which requests it lets through, and as whom.
use sir_auth.Base.{String, Bool, true, not, ◌≡◌, ◌⊎◌, Option, none, some, find}
use sir_auth.Model.{RoutePolicy}
use sir_auth.Text.{chars, string, to_lower}
use sir_auth.World.{World, M, Request, Response, stop_if, pure, ◌>>◌}
use sir_auth.Store.{for_host}
use sir_auth.Token.{parse_bearer_pat}
use sir_auth.Cache
use sir_auth.Verify.Identities.{Identity, policy_cache}
use sir_auth.Verify.{anonymous, identified, unauthorized, nobody, log_request}
use sir_auth.Verify.Laws.{IsTokenIdentity}
use sir_auth.Verify.Cookies.{Held, IsCookieIdentity}

-- A cached policy stands under its own host.
abbrev pub IsPolicyOf : String → Option RoutePolicy → Type 0
IsPolicyOf k o = (p : RoutePolicy) → o ≡ some p → p.host ≡ k

abbrev host_key : Request → String
host_key r = string (to_lower (chars (r.header "X-Original-Host")))

-- The policy that the table, or an entry of the cache, has for the host of the request makes it
-- public.
abbrev pub IsOpenHost : Request → World → Type 0
IsOpenHost r w =
    (p : RoutePolicy) × (p.host ≡ host_key r)
    × (p.is_public ≡ true)
    × Held w.policy_cache (host_key r) (find (for_host (host_key r)) w.db.route_policies) (some p)

-- Who is let through, and with which answer: the owner of a personal access token that was shown;
-- or, if none was shown, the user of the cookie, or anybody on an open host.
abbrev pub IsAdmitted : Request → World → Response → Type 0
IsAdmitted r w resp =
    ((raw : String) × (id : Identity) × (parse_bearer_pat (r.header "Authorization") ≡ some raw)
      × IsTokenIdentity raw w id
      × (resp ≡ identified id))
    ⊎ ((parse_bearer_pat (r.header "Authorization") ≡ none)
        × (((id : Identity) × IsCookieIdentity r w id × (resp ≡ identified id))
            ⊎ (IsOpenHost r w × (resp ≡ anonymous))))

abbrev Refused : Response → World → Type 0
Refused resp w' = resp ≡ unauthorized

abbrev anonymously : Request → Bool → M Response
anonymously r open_to_all = do
  stop_if (not open_to_all) unauthorized
  log_request r (r.header "X-Original-Host") "anonymous" nobody
  pure anonymous

abbrev Admitted : Request → World → Response → World → Type 0
Admitted r w resp _ = IsAdmitted r w resp
