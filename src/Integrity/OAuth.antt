-- ===== src/Integrity/OAuth.antt =====
-- About the handlers of internal/handler/oauth.go: however a handler ends, the tables still obey the
-- schema.
use sir_auth.Base.{String, Bool, true, false, ◌==◌, ◌&&◌, Option, none, some}
use sir_auth.Model.{User, OAuthClient, AuthCode, RefreshToken}
use sir_auth.World.{Request, halt}
use sir_auth.Http.{same_origin, write_oauth_error}
use sir_auth.Store.Codes.{Consumed, consumed, missing, invalid, db_error}
use sir_auth.Verify.Identities.{Identity}
use sir_auth.OAuth.{
  consent, session_asker, find_asker, authorize_client, authorize_user, issue_code, show_login_form,
  process_authorize, authorize, token, revoke,
}
use sir_auth.OAuth.Grants.{
  token_client, code_or_stop, check_code, accept_code, issue_tokens, grant_code, exchange_auth_code,
  live_grant, find_grant, claim_grant, rotate, exchange_refresh_token,
}
use sir_auth.Integrity.{IsWf, Keeps}
use sir_auth.Integrity.Rules.{test-Keeps, bind-Keeps, pure-Keeps, respond-Keeps}
use sir_auth.Integrity.Reads.{reading, get_user_by_id-Keeps, get_user_by_email-Keeps}
use sir_auth.Integrity.Readers.{guarding, cookie_identity-Keeps, generate_access_token-Keeps}

consent-Keeps : (c : OAuthClient) (r : Request) → Keeps IsWf (consent c r)
consent-Keeps c r =
    test-Keeps c.is_public (bind-Keeps (cookie_identity-Keeps r) (λ _. pure-Keeps)) pure-Keeps

show_login_form-Keeps : (r : Request) → Keeps IsWf (show_login_form r)
unfolding show_login_form
show_login_form-Keeps r = search (reading, consent-Keeps) depth 40

session_asker-Keeps : (o : Option Identity) → Keeps IsWf (session_asker o)
session_asker-Keeps none = record { kept = λ w p. p }
session_asker-Keeps (some i) = record {
  kept = (bind-Keeps (get_user_by_id-Keeps i.id) (λ u. pure-Keeps)).kept;
}

find_asker-Keeps : (c : OAuthClient) (r : Request) → Keeps IsWf (find_asker c r)
unfolding find_asker
find_asker-Keeps c r = record {
  kept = λ w.
      (test-Keeps (c.is_public && r.form "email" == "" && same_origin w.outside r)
          (bind-Keeps (cookie_identity-Keeps r) session_asker-Keeps)
          (bind-Keeps (get_user_by_email-Keeps (r.form "email")) (λ _. pure-Keeps))).kept
        w;
}

authorize_client-Keeps : (r : Request) → Keeps IsWf (authorize_client r)
unfolding authorize_client
authorize_client-Keeps r = search (guarding) depth 40

authorize_user-Keeps : (r : Request) (c : OAuthClient) → Keeps IsWf (authorize_user r c)
unfolding authorize_user
authorize_user-Keeps r c = search (guarding, find_asker-Keeps) depth 20

issue_code-Keeps : (r : Request) (u : User) → Keeps IsWf (issue_code r u)
unfolding issue_code
issue_code-Keeps r u = search (guarding) depth 20

process_authorize-Keeps : (r : Request) → Keeps IsWf (process_authorize r)
unfolding process_authorize
process_authorize-Keeps r =
    search (guarding, authorize_client-Keeps, authorize_user-Keeps, issue_code-Keeps)

pub authorize-Keeps : (r : Request) → Keeps IsWf (authorize r)
unfolding authorize
authorize-Keeps r =
    test-Keeps (r.method == "GET") (show_login_form-Keeps r)
      (test-Keeps (r.method == "POST") (process_authorize-Keeps r) respond-Keeps)

token_client-Keeps : (r : Request) (b : Bool) → Keeps IsWf (token_client r b)
unfolding token_client
token_client-Keeps r b = search (guarding) depth 20

code_or_stop-Keeps : (o : Consumed) → Keeps IsWf (code_or_stop o)
code_or_stop-Keeps (consumed c) = record { kept = λ w p. p }
code_or_stop-Keeps missing = record { kept = λ w p. p }
code_or_stop-Keeps invalid = record { kept = λ w p. p }
code_or_stop-Keeps db_error = record { kept = λ w p. p }

check_code-Keeps : (r : Request) (c : OAuthClient) (o : Consumed) → Keeps IsWf (check_code r c o)
unfolding check_code
check_code-Keeps r c o = search (guarding, code_or_stop-Keeps) depth 20

accept_code-Keeps : (r : Request) (c : OAuthClient) → Keeps IsWf (accept_code r c)
unfolding accept_code
accept_code-Keeps r c = search (guarding, check_code-Keeps)

issue_tokens-Keeps : (c s : String) (u : User) → Keeps IsWf (issue_tokens c s u)
unfolding issue_tokens
issue_tokens-Keeps c s u = search (guarding, generate_access_token-Keeps) depth 20

grant_code-Keeps : (r : Request) (a : AuthCode) → Keeps IsWf (grant_code r a)
unfolding grant_code
grant_code-Keeps r a = search (guarding, issue_tokens-Keeps) depth 20

exchange_auth_code-Keeps : (r : Request) → Keeps IsWf (exchange_auth_code r)
unfolding exchange_auth_code
exchange_auth_code-Keeps r =
    search (guarding, token_client-Keeps, accept_code-Keeps, grant_code-Keeps)

live_grant-Keeps : (r : Request) → Keeps IsWf (live_grant r)
unfolding live_grant
live_grant-Keeps r = search (guarding) depth 20

find_grant-Keeps : (r : Request) → Keeps IsWf (find_grant r)
unfolding find_grant
find_grant-Keeps r = search (guarding, live_grant-Keeps) depth 20

claim_grant-Keeps : (r : Request) → Keeps IsWf (claim_grant r)
unfolding claim_grant
claim_grant-Keeps r = search (guarding)

rotate-Keeps : (r : Request) (g : RefreshToken × User) → Keeps IsWf (rotate r g)
unfolding rotate
rotate-Keeps r g = search (guarding, issue_tokens-Keeps)

exchange_refresh_token-Keeps : (r : Request) → Keeps IsWf (exchange_refresh_token r)
unfolding exchange_refresh_token
exchange_refresh_token-Keeps r =
    search (guarding, token_client-Keeps, find_grant-Keeps, claim_grant-Keeps, rotate-Keeps)

by_grant-Keeps :
    (r : Request)
    → Keeps IsWf (λ w. elim (r.form "grant_type" == "authorization_code") [
      | true ↦ exchange_auth_code r w
      | false ↦ elim (r.form "grant_type" == "refresh_token") [
        | true ↦ exchange_refresh_token r w
        | false ↦ halt (write_oauth_error "unsupported_grant_type" 400) w
      ]
    ])
by_grant-Keeps r =
    test-Keeps (r.form "grant_type" == "authorization_code") (exchange_auth_code-Keeps r) (
      test-Keeps (r.form "grant_type" == "refresh_token") (exchange_refresh_token-Keeps r)
        respond-Keeps)

pub token-Keeps : (r : Request) → Keeps IsWf (token r)
unfolding token
token-Keeps r = search (guarding, by_grant-Keeps) depth 20

pub revoke-Keeps : (r : Request) → Keeps IsWf (revoke r)
unfolding revoke
revoke-Keeps r = search (guarding) depth 20
