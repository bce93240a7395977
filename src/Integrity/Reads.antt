-- ===== src/Integrity/Reads.antt =====
-- About the reads of internal/store/store.go: they change no table.
use sir_auth.Base.{ℕ, String, ◌==◌}
use sir_auth.World.{Db}
use sir_auth.Store.{
  get_user_by_email, get_user_by_id, with_id, list_users, count_users, count_approved_admins,
  get_client_by_id, get_route_policy, list_route_policies, list_system_logs,
}
use sir_auth.Store.Codes.{get_refresh_token}
use sir_auth.Store.Tokens.{get_api_token_by_hash, count_active_api_tokens}
use sir_auth.Integrity.{Keeps}
use sir_auth.Integrity.Rules.{
  keeping, write-Keeps, test-Keeps, random_string-Keeps, pure-Keeps, bind-Keeps, on_ok-Keeps,
  now_unix-Keeps, now_ns-Keeps, read-Keeps,
}

module _ {P : Db → Type 0} where
  pub get_user_by_email-Keeps : (e : String) → Keeps P (get_user_by_email e)
  unfolding get_user_by_email
  get_user_by_email-Keeps e = search (keeping)

  pub get_user_by_id-Keeps : (i : String) → Keeps P (get_user_by_id i)
  unfolding get_user_by_id
  get_user_by_id-Keeps i = search (keeping)

  pub list_users-Keeps : Keeps P list_users
  unfolding list_users
  list_users-Keeps = search (keeping)

  pub count_users-Keeps : Keeps P count_users
  unfolding count_users
  count_users-Keeps = search (keeping)

  pub count_approved_admins-Keeps : Keeps P count_approved_admins
  unfolding count_approved_admins
  count_approved_admins-Keeps = search (keeping)

  pub get_client_by_id-Keeps : (i : String) → Keeps P (get_client_by_id i)
  unfolding get_client_by_id
  get_client_by_id-Keeps i = search (keeping)

  pub get_route_policy-Keeps : (i : String) → Keeps P (get_route_policy i)
  unfolding get_route_policy
  get_route_policy-Keeps i = search (keeping)

  pub list_route_policies-Keeps : Keeps P list_route_policies
  unfolding list_route_policies
  list_route_policies-Keeps = search (keeping)

  pub list_system_logs-Keeps : Keeps P list_system_logs
  unfolding list_system_logs
  list_system_logs-Keeps = search (keeping)

  pub get_refresh_token-Keeps : (i : String) → Keeps P (get_refresh_token i)
  unfolding get_refresh_token
  get_refresh_token-Keeps i = search (keeping)

  pub get_api_token_by_hash-Keeps : (i : String) → Keeps P (get_api_token_by_hash i)
  unfolding get_api_token_by_hash
  get_api_token_by_hash-Keeps i = search (keeping)

  pub count_active_api_tokens-Keeps : (i : String) (n : ℕ) → Keeps P (count_active_api_tokens i n)
  unfolding count_active_api_tokens
  count_active_api_tokens-Keeps i n = search (keeping)

  pub with_id-Keeps : (n : ℕ) (i : String) → Keeps P (with_id n i)
  unfolding with_id
  with_id-Keeps n i = test-Keeps (i == "") (random_string-Keeps n) pure-Keeps

pub ruleset reading = (
  keeping, get_user_by_email-Keeps, get_user_by_id-Keeps, list_users-Keeps, count_users-Keeps,
  count_approved_admins-Keeps, get_client_by_id-Keeps, get_route_policy-Keeps,
  list_route_policies-Keeps, list_system_logs-Keeps, get_refresh_token-Keeps,
  get_api_token_by_hash-Keeps, count_active_api_tokens-Keeps,
)
