-- ===== src/Integrity/Codes.antt =====
-- About the writes of internal/store/store.go to codes and tokens: however one ends, the tables still obey
-- the schema.
use sir_auth.Base.{ℕ, String, refl, ltb, Option, none, some}
use sir_auth.Model.{AuthCode, ApiToken}
use sir_auth.Token.{random_string}
use sir_auth.World.{now_ns, M, Result, failed, ok}
use sir_auth.Store.Codes.{
  create_auth_code, create_refresh_token, revoke_refresh_token, claim_refresh_token,
  claim_token_sql, Consumed, consume_auth_code, claim_code, claim_code_sql, look_up, is_claimable,
  mark_used, has_token, revoke_token, is_live,
}
use sir_auth.Store.Tokens.{
  create_api_token, rename_api_token, revoke_api_token, is_mine, revoke_at, is_revocable,
}
use sir_auth.Integrity.{IsWf, Keeps, KeepsSql}
use sir_auth.Integrity.Rules.{
  keeping, write-Keeps, test-Keeps, pure-Keeps, bind-Keeps, now_unix-Keeps, read-Keeps,
}
use sir_auth.Integrity.Writes.{
  insert_code-Keeps, insert_refresh_token-Keeps, insert_api_token-Keeps, update_codes_IsWf,
  update_tokens_IsWf, update_api_tokens_IsWf,
}
use sir_auth.Integrity.Reads.{reading, with_id-Keeps}
use sir_auth.Integrity.Store.{
  create_user-Keeps, update_user-Keeps, set_user_approved-Keeps, set_password-Keeps,
  bump_sessions-Keeps, delete_user-Keeps, delete_user_data-Keeps, create_client-Keeps,
  set_route_policy-Keeps, delete_route_policy-Keeps, create_system_log-Keeps,
}

pub create_auth_code-Keeps : (c u r s p : String) → Keeps IsWf (create_auth_code c u r s p)
unfolding create_auth_code random_string now_ns
create_auth_code-Keeps c u r s p = search (keeping, write-Keeps, insert_code-Keeps)

claim_code_sql-Keeps : (code : String) (t : ℕ) → KeepsSql IsWf (claim_code_sql code t)
unfolding claim_code_sql
claim_code_sql-Keeps code t d =
    update_codes_IsWf (is_claimable code t) mark_used d (λ _. refl) (λ _. refl) (λ _. refl)

claim_code-Keeps : (code : String) (c : AuthCode) → Keeps IsWf (claim_code code c)
unfolding claim_code
claim_code-Keeps code c = search (keeping, write-Keeps, claim_code_sql-Keeps)

look_up-Keeps :
    {f : AuthCode → M Consumed} (row : Result (Option AuthCode))
    → ((c : AuthCode) → Keeps IsWf (f c))
    → Keeps IsWf (look_up row f)
look_up-Keeps failed h = record { kept = λ w p. p }
look_up-Keeps (ok none) h = record { kept = λ w p. p }
look_up-Keeps (ok (some c)) h = record { kept = λ w p. (h c).kept w p }

pub consume_auth_code-Keeps : (code : String) → Keeps IsWf (consume_auth_code code)
unfolding consume_auth_code
consume_auth_code-Keeps code = bind-Keeps (read-Keeps _) (λ row. look_up-Keeps row (λ c.
    test-Keeps c.used pure-Keeps (
      bind-Keeps now_unix-Keeps
        (λ t. test-Keeps (ltb c.expires_at t) pure-Keeps (claim_code-Keeps code c)))))

pub create_refresh_token-Keeps : (u c s : String) → Keeps IsWf (create_refresh_token u c s)
unfolding create_refresh_token random_string now_ns
create_refresh_token-Keeps u c s = search (keeping, write-Keeps, insert_refresh_token-Keeps)

pub revoke_refresh_token-Keeps : (raw : String) → Keeps IsWf (revoke_refresh_token raw)
unfolding revoke_refresh_token
revoke_refresh_token-Keeps raw =
    write-Keeps _
      (λ d. update_tokens_IsWf (has_token raw) revoke_token d (λ _. refl) (λ _. refl) (λ _. refl))

claim_token_sql-Keeps : (raw : String) (t : ℕ) → KeepsSql IsWf (claim_token_sql raw t)
unfolding claim_token_sql
claim_token_sql-Keeps raw t d =
    update_tokens_IsWf (is_live raw t) revoke_token d (λ _. refl) (λ _. refl) (λ _. refl)

pub claim_refresh_token-Keeps : (raw : String) → Keeps IsWf (claim_refresh_token raw)
unfolding claim_refresh_token
claim_refresh_token-Keeps raw = search (keeping, write-Keeps, claim_token_sql-Keeps)

pub create_api_token-Keeps : (t : ApiToken) → Keeps IsWf (create_api_token t)
unfolding create_api_token
create_api_token-Keeps t = search (keeping, with_id-Keeps, write-Keeps, insert_api_token-Keeps)

pub rename_api_token-Keeps : (u i n : String) → Keeps IsWf (rename_api_token u i n)
unfolding rename_api_token
rename_api_token-Keeps u i n = write-Keeps _ (λ d.
    update_api_tokens_IsWf (is_mine u i) (λ t. record t { name = n }) d (λ _. refl) (λ _. refl)
      (λ _. refl))

pub revoke_api_token-Keeps : (u i : String) (t : ℕ) → Keeps IsWf (revoke_api_token u i t)
unfolding revoke_api_token
revoke_api_token-Keeps u i t = write-Keeps _ (λ d.
    update_api_tokens_IsWf (is_revocable u i) (revoke_at t) d (λ _. refl) (λ _. refl) (λ _. refl))

pub ruleset storing = (
  reading, create_user-Keeps, update_user-Keeps, set_user_approved-Keeps, set_password-Keeps,
  bump_sessions-Keeps, delete_user-Keeps, delete_user_data-Keeps, create_client-Keeps,
  set_route_policy-Keeps, delete_route_policy-Keeps, create_system_log-Keeps,
  create_auth_code-Keeps, consume_auth_code-Keeps, create_refresh_token-Keeps,
  revoke_refresh_token-Keeps, claim_refresh_token-Keeps, create_api_token-Keeps,
  rename_api_token-Keeps, revoke_api_token-Keeps,
)
