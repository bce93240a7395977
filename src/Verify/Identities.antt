-- ===== src/Verify/Identities.antt =====
-- The caches of internal/handler/verify.go and the identities that they give.
use sir_auth.Base.{
  ◌*◌, String, Bool, true, false, ◌&&◌, not, Option, none, some, [], ltb, if◌then◌else◌, ◌/◌,
}
use sir_auth.Model.{User, ApiToken, RoutePolicy, active}
use sir_auth.Text.{chars, string, to_lower}
use sir_auth.World.{
  M, next, Result, failed, ok, ◌>>=◌, pure, ask, Request, Claims, second, open_store, tick,
}
use sir_auth.Token.{validate_access_token, hash_pat}
use sir_auth.Store.{get_user_by_id, get_route_policy}
use sir_auth.Store.Tokens.{get_api_token_by_hash}
use sir_auth.Cache.{TtlCache}
use sir_auth.Cache

abbrev pub if_open : {A : Type 0} → Result (Unit {0}) → M (Result A) → M (Result A)
if_open failed k w = next failed w
if_open (ok _) k w = k w

unfoldable pub load_user : String → M (Result (Option User))
load_user id = do s ← open_store; if_open s (get_user_by_id id)

unfoldable pub load_token : String → M (Result (Option ApiToken))
load_token hash = do s ← open_store; if_open s (get_api_token_by_hash hash)

unfoldable pub load_policy : String → M (Result (Option RoutePolicy))
load_policy host = do s ← open_store; if_open s (get_route_policy host)

abbrev pub user_cache : TtlCache (Option User)
user_cache = record {
  entries = λ w. w.user_cache;
  set_entries = λ m w. record w { user_cache = m };
  ttl = 30 * second;
  max = 10000;
  load = load_user;
}

abbrev pub token_cache : TtlCache (Option ApiToken)
token_cache = record {
  entries = λ w. w.token_cache;
  set_entries = λ m w. record w { token_cache = m };
  ttl = 30 * second;
  max = 10000;
  load = load_token;
}

abbrev pub policy_cache : TtlCache (Option RoutePolicy)
policy_cache = record {
  entries = λ w. w.policy_cache;
  set_entries = λ m w. record w { policy_cache = m };
  ttl = 30 * second;
  max = 10000;
  load = load_policy;
}

unfoldable pub invalidate_auth : M (Unit {0})
invalidate_auth w = next tt (record w { user_cache = []; token_cache = []; policy_cache = [] })

pub record Identity : Type 0 where
  pub id : String
  pub email : String
  pub role : String
  pub token_id : Option String

abbrev pub is_public_policy : Result (Option RoutePolicy) → Bool
is_public_policy (ok (some p)) = p.is_public
is_public_policy (ok none) = false
is_public_policy failed = false

unfoldable pub host_public : String → M Bool
host_public host = do
  p ← Cache.get policy_cache (string (to_lower (chars host)))
  pure (is_public_policy p)

abbrev claims_of : Option String → M (Option Claims)
claims_of none w = next none w
claims_of (some v) w = validate_access_token v (w.outside.getenv "JWT_SECRET") w

unfoldable pub session_claims : Request → M (Option Claims)
session_claims r = claims_of (r.cookie "sir_session")

abbrev pub of_user : User → Option String → Identity
of_user u t = record { id = u.id; email = u.email; role = u.role; token_id = t }

-- The cookie is good for this user: approved, and not older than `sessions_valid_after`.
abbrev pub admits_cookie : User → Claims → Bool
admits_cookie u c = u.approved && not (ltb c.iat u.sessions_valid_after)

abbrev pub cookie_user : Claims → Result (Option User) → Option Identity
cookie_user c failed = some (record { id = c.sub; email = c.email; role = c.role; token_id = none })
cookie_user c (ok none) = none
cookie_user c (ok (some u)) = if admits_cookie u c then some (of_user u none) else none

abbrev pub cookie_claims : Option Claims → M (Option Identity)
cookie_claims none w = next none w
cookie_claims (some c) w = (do u ← Cache.get user_cache c.sub; pure (cookie_user c u)) w

unfoldable pub cookie_identity : Request → M (Option Identity)
unfolding session_claims
cookie_identity r = do c ← session_claims r; cookie_claims c

abbrev pub token_user : ApiToken → Result (Option User) → Option Identity
token_user t failed = none
token_user t (ok none) = none
token_user t (ok (some u)) = if u.approved then some (of_user u (some t.id)) else none

-- The token is active at the time that is read now; then its owner is looked up.
abbrev pub token_row : Result (Option ApiToken) → M (Option Identity)
token_row failed w = next none w
token_row (ok none) w = next none w
token_row (ok (some t)) w = elim (active t (w.outside.clock w.calls / second)) [
  | false ↦ next none (tick w)
  | true ↦ (do u ← Cache.get user_cache t.user_id; pure (token_user t u)) (tick w)
]

unfoldable pub token_identity : String → M (Option Identity)
unfolding active hash_pat
token_identity raw = do o ← ask; t ← Cache.get token_cache (hash_pat o raw); token_row t
