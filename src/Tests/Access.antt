-- ===== src/Tests/Access.antt =====
-- The theorems on ending and giving access, at the sample world.
use sir_auth.Base.{
  ◌*◌, String, ◌≡◌, refl, none, some, [], ◌∷◌, false, find, any, count_if, update_if, arith, ◌==◌,
  if◌then◌else◌,
}
use sir_auth.Model.{User}
use sir_auth.Text.{chars, same, string, take_bytes, trim_space}
use sir_auth.Base64.{encode, sextet, decode, value}
use sir_auth.Http.{same_origin, unstored_page}
use sir_auth.Token.{validate_access_token, parse_bearer_pat, hash_pat, random_string, new_pat, b64}
use sir_auth.World.{
  World, Exit, next, ok, Request, Response, world_of, tick, second, open_store, db_read, db_write,
  now_unix,
}
use sir_auth.Outcome.{Ends, Gives}
use sir_auth.Session.{post_user}
use sir_auth.Store.{get_user_by_id, has_id, bump_sessions, create_system_log, with_id}
use sir_auth.Store.Tokens.{
  has_hash, revoke_api_token, create_api_token, insert_api_token, count_active_api_tokens,
}
use sir_auth.Base.Rows.{All}
use sir_auth.Verify.Identities.{session_claims, invalidate_auth, of_user}
use sir_auth.Verify.{unauthorized, identified, verify_session}
use sir_auth.Verify.Fresh.{IsUp, NotIdentified}
use sir_auth.Verify.Race.{late_load, late_load-stale}
use sir_auth.Account.{
  account_logout_all, token_revoke, create_token, check_token, mint_token, valid_token_name,
}
use sir_auth.Account.Cutoff.{account_logout_all-NotIdentified, token_revoke-unauthorized}
use sir_auth.Account.Tokens.{create_token-verify_session}
use sir_auth.Tests.{
  sample_world, sample_outside, sample_db, sample_pat, alice_claims, alice, post, response_of,
}

-- The tables are alice's, a hundred seconds after her cookie was made.
abbrev later_world : World
later_world = record sample_world {
  outside = record sample_outside { clock = λ n. 1100 * second };
  db = record sample_db { api_tokens = record sample_pat { user_id = "alice" } ∷ [] };
}

abbrev no_form : String → String
no_form k = ""

abbrev logout_request : Request
logout_request = record (post "/account/logout-all" no_form) { host = "app.x" }

abbrev logged_out : Exit Response
logged_out = account_logout_all logout_request later_world

logout_run :
    account_logout_all logout_request later_world
    ≡ next (response_of logged_out) (world_of logged_out)
unfolding account_logout_all post_user same_origin open_store validate_access_token chars same
    encode sextet decode value get_user_by_id db_read find now_unix bump_sessions db_write
    invalidate_auth create_system_log with_id random_string any
logout_run = refl

abbrev verify_request : Request
verify_request = record logout_request { method = "GET" }

no_credential : parse_bearer_pat "" ≡ none
unfolding parse_bearer_pat
no_credential = refl

signed_before :
    session_claims logout_request later_world
    ≡ next (some alice_claims) (record later_world { calls = 1 })
unfolding session_claims validate_access_token chars same encode sextet decode value
signed_before = refl

abbrev after_logout : World
after_logout = world_of logged_out

after_logout-IsUp : IsUp after_logout
unfolding account_logout_all post_user same_origin open_store validate_access_token chars same
    encode sextet decode value get_user_by_id db_read find now_unix bump_sessions db_write
    invalidate_auth create_system_log with_id random_string any
after_logout-IsUp = record { opens = refl; answered = λ n. refl }

signed_after :
    session_claims verify_request after_logout ≡ next (some alice_claims) (tick after_logout)
unfolding account_logout_all post_user same_origin open_store validate_access_token chars same
    encode sextet decode value get_user_by_id db_read find now_unix bump_sessions db_write
    invalidate_auth create_system_log with_id random_string any session_claims
signed_after = refl

account_logout_all-NotIdentified_example :
    Ends
      (λ e _. NotIdentified e)
      (λ e _. NotIdentified e)
      (verify_session verify_request after_logout)
account_logout_all-NotIdentified_example =
    account_logout_all-NotIdentified logout_request verify_request later_world after_logout
      (tick later_world) (tick after_logout) (response_of logged_out) alice_claims alice_claims
      logout_run signed_before no_credential signed_after refl (λ n h. omega arith)
      after_logout-IsUp

-- ── Tokens ──
abbrev revoke_form : String → String
revoke_form k = if k == "id" then "t1" else ""

abbrev revoke_request : Request
revoke_request = record (post "/account/tokens/revoke" revoke_form) { host = "app.x" }

abbrev revoked : Exit Response
revoked = token_revoke revoke_request later_world

revoke_run : token_revoke revoke_request later_world ≡ next (response_of revoked) (world_of revoked)
unfolding token_revoke post_user same_origin open_store validate_access_token chars same encode
    sextet decode value get_user_by_id db_read find now_unix revoke_api_token count_if update_if
    db_write invalidate_auth create_system_log with_id random_string any
revoke_run = refl

revoked-IsUp : IsUp (world_of revoked)
unfolding token_revoke post_user same_origin open_store validate_access_token chars same encode
    sextet decode value get_user_by_id db_read find now_unix revoke_api_token count_if update_if
    db_write invalidate_auth create_system_log with_id random_string any
revoked-IsUp = record { opens = refl; answered = λ n. refl }

abbrev bearer_request : Request
bearer_request = record verify_request {
  header = λ k. if k == "Authorization" then "Bearer sirpat_AQID" else "";
}

shows_token : parse_bearer_pat "Bearer sirpat_AQID" ≡ some "sirpat_AQID"
unfolding parse_bearer_pat chars string
shows_token = refl

signed_revoke :
    session_claims revoke_request later_world ≡ next (some alice_claims) (tick later_world)
unfolding session_claims validate_access_token chars same encode sextet decode value
signed_revoke = refl

token_listed :
    find (has_hash (hash_pat later_world.outside "sirpat_AQID")) later_world.db.api_tokens
    ≡ some (record sample_pat { user_id = "alice" })
unfolding find hash_pat string
token_listed = refl

token_revoke-unauthorized_example :
    Ends (λ e _. e ≡ unauthorized) (λ _ _. ⊥) (verify_session bearer_request (world_of revoked))
token_revoke-unauthorized_example =
    token_revoke-unauthorized revoke_request bearer_request later_world (world_of revoked)
      (tick later_world) (response_of revoked) alice_claims "sirpat_AQID"
      (record sample_pat { user_id = "alice" }) revoke_run signed_revoke shows_token token_listed
      refl refl revoked-IsUp

abbrev bare_world : World
bare_world = record later_world { db = record sample_db { api_tokens = [] } }

abbrev token_form : String → String
token_form k = if k == "name" then "ci" else if k == "expires" then "90" else ""

abbrev token_request : Request
token_request = record (post "/account/tokens" token_form) { host = "app.x" }

abbrev created : Exit Response
created = create_token token_request bare_world

create_run : create_token token_request bare_world ≡ next (response_of created) (world_of created)
unfolding create_token post_user same_origin open_store validate_access_token chars same encode
    sextet decode value get_user_by_id db_read find now_unix count_active_api_tokens count_if
    new_pat create_api_token insert_api_token db_write invalidate_auth create_system_log with_id
    random_string any trim_space string hash_pat valid_token_name check_token mint_token b64
    take_bytes
create_run = refl

created-IsUp : IsUp (world_of created)
unfolding create_token post_user same_origin open_store validate_access_token chars same encode
    sextet decode value get_user_by_id db_read find now_unix count_active_api_tokens count_if
    new_pat create_api_token insert_api_token db_write invalidate_auth create_system_log with_id
    random_string any trim_space string hash_pat valid_token_name check_token mint_token b64
    take_bytes
created-IsUp = record { opens = refl; answered = λ n. refl }

created_page : response_of created ≡ unstored_page "token-created" ("ci" ∷ "sirpat_AQID" ∷ [])
unfolding create_token post_user same_origin open_store validate_access_token chars same encode
    sextet decode value get_user_by_id db_read find now_unix count_active_api_tokens count_if
    new_pat create_api_token insert_api_token db_write invalidate_auth create_system_log with_id
    random_string any trim_space string hash_pat valid_token_name check_token mint_token b64
    take_bytes
created_page = refl

signed_create : session_claims token_request bare_world ≡ next (some alice_claims) (tick bare_world)
unfolding session_claims validate_access_token chars same encode sextet decode value
signed_create = refl

create_token-verify_session_example :
    (u : User) × (id : String) × (find (has_id "alice") sample_db.users ≡ some u)
    × Gives
        (λ e _. e ≡ identified (of_user u (some id)))
        (verify_session bearer_request (world_of created))
create_token-verify_session_example =
    create_token-verify_session token_request bearer_request bare_world (world_of created)
      (tick bare_world) (response_of created) alice_claims "ci" "sirpat_AQID" create_run
      signed_create created_page shows_token created-IsUp (λ m n. omega arith)

sample-IsUp : IsUp sample_world
sample-IsUp = record { opens = refl; answered = λ n. refl }

alice_listed : find (has_id "alice") sample_world.db.users ≡ some alice
unfolding find
alice_listed = refl

late_load-stale_example :
    Gives
      (λ o v. (o ≡ ok (some alice)) × All (λ x. x.id ≡ "alice" → x.approved ≡ false) v.db.users)
      (late_load "alice" none sample_world)
late_load-stale_example =
    late_load-stale "alice" none sample_world alice sample-IsUp alice_listed (λ m n. omega arith)
