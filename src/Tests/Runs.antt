-- ===== src/Tests/Runs.antt =====
-- Runs of the handlers in the sample world.
use sir_auth.Base.{ℕ, ◌*◌, ◌≡◌, refl, find, any, count_if, update_if}
use sir_auth.Text.{concat, chars, string, fold, equal_fold}
use sir_auth.World.{second, now_unix, now_ns, open_store, db_read, db_write}
use sir_auth.Base64.{encode, sextet}
use sir_auth.Token.{generate_token, generate_access_token, random_string}
use sir_auth.Store.{with_id, get_client_by_id, get_user_by_id, create_system_log}
use sir_auth.Store.Codes.{
  consume_auth_code, claim_code, claim_code_sql, create_refresh_token, insert_refresh_token,
  claim_refresh_token, claim_token_sql, get_refresh_token,
}
use sir_auth.OAuth.Uri.{loopback_uri_matches}
use sir_auth.Times.{rel_time, plural}
use sir_auth.Tests.{sample_outside, sample_world, post, code_form, refresh_form, status_of}
use sir_auth.OAuth.Grants.{
  token_client, check_code, accept_code, grant_code, issue_tokens, exchange_auth_code, find_grant,
  live_grant, claim_grant, rotate, exchange_refresh_token,
}

-- The code is exchanged, and once more it is refused.
code_run : status_of (exchange_auth_code (post "/oauth/token" code_form) sample_world) ≡ 200
unfolding exchange_auth_code token_client accept_code check_code grant_code issue_tokens open_store
    get_client_by_id get_user_by_id db_read db_write find consume_auth_code claim_code
    claim_code_sql count_if update_if now_unix now_ns loopback_uri_matches equal_fold fold chars
    generate_access_token generate_token create_refresh_token random_string insert_refresh_token any
    create_system_log with_id string encode sextet
code_run = refl

refresh_run :
    status_of (exchange_refresh_token (post "/oauth/token" refresh_form) sample_world) ≡ 200
unfolding exchange_refresh_token token_client find_grant live_grant claim_grant rotate issue_tokens
    open_store get_client_by_id get_refresh_token claim_refresh_token claim_token_sql get_user_by_id
    db_read db_write find count_if update_if now_unix now_ns generate_access_token generate_token
    create_refresh_token random_string insert_refresh_token any string encode sextet
refresh_run = refl

abbrev seconds : ℕ → ℕ
seconds n = n * second

moment_run : rel_time sample_outside (seconds 1000) (seconds 1010) ≡ "just now"
unfolding rel_time
moment_run = refl

past_run : rel_time sample_outside (seconds 0) (seconds 86400) ≡ "1 day ago"
unfolding rel_time plural concat
past_run = refl

future_run : rel_time sample_outside (seconds 172800) (seconds 0) ≡ "in 2 days"
unfolding rel_time plural concat
future_run = refl
