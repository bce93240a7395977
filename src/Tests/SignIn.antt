-- ===== src/Tests/SignIn.antt =====
-- Alice signs in with her password and is known by her cookie, in the sample world.
use sir_auth.Base.{
  ◌*◌, String, ◌==◌, ◌≡◌, refl, none, some, if◌then◌else◌, find, arith, ◌≤◌, ◌/◌, [],
}
use sir_auth.Text.{chars, string}
use sir_auth.Base64.{encode, sextet}
use sir_auth.Http.{session_cookie, session_ttl}
use sir_auth.Token.{verify_password, generate_token, parse_bearer_pat}
use sir_auth.Token.Laws.{IsCodec}
use sir_auth.World.{
  World, Exit, next, Request, Response, Cookie, open_store, db_read, now_ns, now_unix, world_of,
  second,
}
use sir_auth.Outcome.{Gives}
use sir_auth.Store.{get_user_by_email, has_email, has_id}
use sir_auth.Verify.Identities.{of_user}
use sir_auth.Verify.{identified, verify_session}
use sir_auth.Verify.Fresh.{IsUp}
use sir_auth.Session.{login, login_post}
use sir_auth.Session.SignIn.{cookie_claims_of, login-verify_session}
use sir_auth.Tests.{sample_world, sample_outside, alice, session_jwt, post, response_of}

abbrev short_world : World
short_world = record sample_world {
  outside = record sample_outside { parse_duration = λ s. some (8000 * second) };
}

abbrev sign_in_form : String → String
sign_in_form k = if k == "email" then "a@x" else if k == "password" then "pw" else ""

abbrev login_request : Request
login_request = post "/login" sign_in_form

abbrev signed_in : Exit Response
signed_in = login login_request short_world

signed_in_run : login login_request short_world ≡ next (response_of signed_in) (world_of signed_in)
unfolding login login_post open_store get_user_by_email db_read find verify_password session_ttl
    generate_token now_ns now_unix
signed_in_run = refl

abbrev alice_cookie : Cookie
alice_cookie = session_cookie short_world.outside session_jwt (some 8000)

abbrev visit : Request
visit = record login_request { method = "GET" }

signed_in_ready :
    ((response_of signed_in).cookie ≡ some alice_cookie)
    × IsUp (world_of signed_in)
    × (find (has_id "alice") (world_of signed_in).db.users ≡ some alice)
    × (find (has_email "a@x") short_world.db.users ≡ some alice)
    × ((world_of signed_in).outside ≡ short_world.outside)
    × ((world_of signed_in).user_cache ≡ [])
    × ((world_of signed_in).outside.clock (world_of signed_in).calls / second
        ≤ (cookie_claims_of alice short_world).exp)
    × (parse_bearer_pat (visit.header "Authorization") ≡ none)
unfolding login login_post open_store get_user_by_email db_read find verify_password session_ttl
    generate_token now_ns now_unix chars string encode sextet parse_bearer_pat
signed_in_ready =
    (refl, record { opens = refl; answered = λ n. refl }, refl, refl, refl, refl, omega arith, refl)

alice-IsCodec : IsCodec short_world.outside (cookie_claims_of alice short_world)
unfolding session_ttl
alice-IsCodec = record {
  marshal_bytes = (omega arith, (omega arith, (omega arith, tt)));
  hmac_bytes = λ key text. (omega arith, (omega arith, (omega arith, tt)));
  back = refl;
}

login-verify_session_example :
    Gives (λ e _. e ≡ identified (of_user alice none)) (verify_session visit (world_of signed_in))
login-verify_session_example =
    login-verify_session login_request visit short_world (world_of signed_in) (world_of signed_in)
      (response_of signed_in) alice_cookie alice refl signed_in_run signed_in_ready.3
      signed_in_ready.2 signed_in_ready.0 refl signed_in_ready.7 alice-IsCodec signed_in_ready.4
      signed_in_ready.6 (omega arith) signed_in_ready.1 signed_in_ready.5
