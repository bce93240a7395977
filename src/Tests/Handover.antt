-- ===== src/Tests/Handover.antt =====
-- A desktop app signs alice in and takes its tokens, in the sample world.
use sir_auth.Base.{
  ℕ, String, ◌==◌, ◌≡◌, refl, some, List, [], ◌∷◌, true, false, if◌then◌else◌, find, any, count_if,
  arith,
}
use sir_auth.Model.{OAuthClient}
use sir_auth.Text.{chars, string, fold, equal_fold, byte_len}
use sir_auth.Base64.{encode, sextet}
use sir_auth.Http.{same_origin, default_to}
use sir_auth.Token.{random_string, verify_password}
use sir_auth.World.{
  World, Exit, next, Request, Response, Url, now_ns, open_store, db_read, db_write, world_of,
}
use sir_auth.Outcome.{Gives}
use sir_auth.Store.{with_id, get_client_by_id, get_user_by_email}
use sir_auth.Store.Codes.{create_auth_code, before_create_code, insert_code}
use sir_auth.Store.SingleUse.{UniqueCodes}
use sir_auth.Verify.Fresh.{IsUp}
use sir_auth.OAuth.Uri.{
  is_loopback_uri, valid_public_authorization, loopback_uri_matches, is_challenge, is_verifier,
  every, verify_pkce,
}
use sir_auth.OAuth.Grants.{exchange_auth_code}
use sir_auth.OAuth.Liveness.{DrawsFresh, IsTokenAnswer}
use sir_auth.OAuth.Handover.{IsHandover, process_authorize-exchange_auth_code}
use sir_auth.OAuth.Issue.{code_redirect}
use sir_auth.OAuth.{process_authorize, authorize_client, authorize_user, issue_code, find_asker}
use sir_auth.Tests.{
  sample_world, sample_outside, sample_db, drawn_bytes, post, response_of, long_verifier,
}

abbrev native_url : Url
native_url = record {
  scheme = "http";
  host = "127.0.0.1:7000";
  hostname = "127.0.0.1";
  port = "7000";
  path = "/cb";
  has_user = false;
  raw_query = "";
  fragment = "";
}

abbrev desktop : OAuthClient
desktop = record {
  is_public = true;
  redirect_uri = "http://127.0.0.1/cb";
  client_id = "desktop";
  client_secret = "";
  name = "Notes";
}

abbrev zeros : List ℕ
zeros =
    0 ∷ 0 ∷ 0 ∷ 0 ∷ 0 ∷ 0 ∷ 0 ∷ 0 ∷ 0 ∷ 0 ∷ 0 ∷ 0 ∷ 0 ∷ 0 ∷ 0 ∷ 0 ∷ 0 ∷ 0 ∷ 0 ∷ 0 ∷ 0 ∷ 0 ∷ 0 ∷ 0
    ∷ 0 ∷ 0 ∷ 0 ∷ 0 ∷ 0 ∷ 0 ∷ 0 ∷ 0 ∷ []

abbrev desktop_world : World
desktop_world = record sample_world {
  outside = record sample_outside { parse_url = λ s. some native_url; sha256 = λ s. zeros };
  db = record sample_db { clients = desktop ∷ [] };
}

abbrev authorize_form : String → String
authorize_form k =
    if k == "client_id"
    then "desktop"
    else if k == "redirect_uri"
    then "http://127.0.0.1:7000/cb"
    else if k == "state"
    then "abcdefghijklmnopqrstuvwxyzabcdef"
    else if k == "email"
    then "a@x"
    else if k == "password"
    then "pw"
    else if k == "code_challenge"
    then "AAAAAAAAAAAAAAAAAAAAAAAAAAAAAAAAAAAAAAAAAAA"
    else if k == "code_challenge_method"
    then "S256"
    else ""

abbrev exchange_form : String → String
exchange_form k =
    if k == "code"
    then "AQID"
    else if k == "client_id"
    then "desktop"
    else if k == "redirect_uri"
    then "http://127.0.0.1:7000/cb"
    else if k == "code_verifier"
    then long_verifier
    else ""

abbrev authorize_request : Request
authorize_request = post "/oauth/authorize" authorize_form

abbrev exchange_request : Request
exchange_request = post "/oauth/token" exchange_form

abbrev authorized : Exit Response
authorized = process_authorize authorize_request desktop_world

authorized_run :
    process_authorize authorize_request desktop_world
    ≡ next (response_of authorized) (world_of authorized)
unfolding process_authorize authorize_client authorize_user issue_code find_asker is_loopback_uri
    valid_public_authorization loopback_uri_matches equal_fold fold chars byte_len is_challenge
    every open_store get_client_by_id get_user_by_email db_read db_write find verify_password
    same_origin create_auth_code before_create_code with_id random_string string encode sextet
    now_ns insert_code any
authorized_run = refl

abbrev after_authorize : World
after_authorize = world_of authorized

-- PostgreSQL answers on, and the bytes that are drawn next are no refresh token.
after_authorize_ready :
    IsUp after_authorize
    × DrawsFresh after_authorize (λ n. drawn_bytes)
    × (response_of authorized
        ≡ code_redirect authorize_request desktop_world.outside (exchange_request.form "code"))
unfolding process_authorize authorize_client authorize_user issue_code find_asker is_loopback_uri
    valid_public_authorization loopback_uri_matches equal_fold fold chars byte_len is_challenge
    every open_store get_client_by_id get_user_by_email db_read db_write find verify_password
    same_origin create_auth_code before_create_code with_id random_string string encode sextet
    now_ns insert_code any
after_authorize_ready = (
  record { opens = refl; answered = λ n. refl },
  record { drawn = λ n h. refl; fresh = λ n h. refl },
  refl,
)

desktop-UniqueCodes : UniqueCodes desktop_world.db
unfolding count_if
desktop-UniqueCodes k = ground arith

desktop-IsHandover :
    IsHandover authorize_request exchange_request desktop desktop_world after_authorize
      after_authorize
unfolding process_authorize authorize_client authorize_user issue_code find_asker is_loopback_uri
    valid_public_authorization loopback_uri_matches equal_fold fold chars byte_len is_challenge
    every open_store get_client_by_id get_user_by_email db_read db_write find verify_password
    same_origin create_auth_code before_create_code with_id random_string string encode sextet
    now_ns insert_code any verify_pkce is_verifier
desktop-IsHandover = record {
  complete = refl;
  same_redirect = refl;
  same_client = refl;
  known = refl;
  secret = refl;
  verifier = refl;
  same_outside = refl;
  same_codes = refl;
  same_users = refl;
  in_time = λ n k from to after before. omega arith;
}

process_authorize-exchange_auth_code_example :
    Gives
      (λ answer _. IsTokenAnswer after_authorize (λ n. drawn_bytes) (default_to "openid" "") answer)
      (exchange_auth_code exchange_request after_authorize)
process_authorize-exchange_auth_code_example =
    process_authorize-exchange_auth_code authorize_request exchange_request desktop
      (response_of authorized) (λ n. drawn_bytes) desktop_world after_authorize after_authorize
      authorized_run after_authorize_ready.2 (λ x y e. e) desktop-UniqueCodes
      after_authorize_ready.0 after_authorize_ready.1 desktop-IsHandover
