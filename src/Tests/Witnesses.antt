-- ===== src/Tests/Witnesses.antt =====
-- The theorems at the sample world.
use sir_auth.Base.{
  true, ℕ, ◌*◌, ◌≤◌, ◌<◌, ◌≡◌, refl, some, [], ◌∷◌, count_if, length, arith, eq_iff, inl, inr,
  String, any, find,
}
use sir_auth.World.{CacheEntry, Cache, Request, second, ok}
use sir_auth.Outcome.{Ends, Gives, OnSuccess, OnOk}
use sir_auth.Store.{is_approved_admin}
use sir_auth.Store.SingleUse.{UniqueCodes}
use sir_auth.Store.Rotation.{UniqueTokens, winners, winners-le-one, winners-eq-one}
use sir_auth.OAuth.Grants.{exchange_auth_code, exchange_refresh_token}
use sir_auth.OAuth.Laws.{IsCodeGrant, exchange_auth_code-IsCodeGrant}
use sir_auth.OAuth.Rotation.{IsRotation, exchange_refresh_token-IsRotation}
use sir_auth.Admin.{admin_action}
use sir_auth.Admin.Laws.{AdminLeft, admin_action-HasAdmin}
use sir_auth.Admin.Keeps.{UniqueUsers}
use sir_auth.Account.{account_delete, account_logout_all}
use sir_auth.Account.Laws.{
  IsLogoutAll, IsDeletion, account_logout_all-IsLogoutAll, account_delete-IsDeletion,
}
use sir_auth.Account.LastAdmin.{UniqueIds, account_delete-HasAdmin}
use sir_auth.Session.{session_user}
use sir_auth.Session.Guards.{IsSignedIn, session_user-guards}
use sir_auth.Verify.Identities.{cookie_identity, user_cache}
use sir_auth.Verify.Laws.{IfSome, cookie_identity_sound}
use sir_auth.Verify.Cookies.{CachesKeyed, IsCookieIdentity, IsUserOf, load_user-IsSound}
use sir_auth.Token.{generate_token, validate_access_token, read_claims, b64}
use sir_auth.Token.Laws.{
  IsCodec, IsSigned, new_claims, validate_access_token-generate_token, read_claims-IsSigned,
}
use sir_auth.Text.{chars, same, string}
use sir_auth.Base64.{encode, sextet, decode, value}
use sir_auth.OAuth.Liveness.{DrawsFresh, IsTokenAnswer, IsGrantable, exchange_refresh_token-grants}
use sir_auth.Tests.{
  is_next, app, drawn_bytes, alice_claims, session_jwt, alice, sample_refresh, sample_db,
  sample_world, post, code_form, refresh_form, delete_form, action_form,
}
use sir_auth.Cache
use sir_auth.Cache.{lookup, put}
use sir_auth.Cache.Laws.{Entries, get-Sound, length-put}

sample-UniqueCodes : UniqueCodes sample_world.db
unfolding count_if
sample-UniqueCodes code = ground arith

sample-UniqueTokens : UniqueTokens sample_world.db.refresh_tokens
unfolding count_if
sample-UniqueTokens raw = ground arith

sample-UniqueIds : UniqueIds sample_world.db.users
unfolding count_if
sample-UniqueIds id = ground (arith, eq_iff "alice" id, eq_iff "bob" id, eq_iff "alice" "bob")

sample-UniqueUsers : UniqueUsers sample_world.db.users
sample-UniqueUsers u v (inl a) (inl b) e = cc
sample-UniqueUsers u v (inl a) (inr (inl b)) e = ground (arith, eq_iff "alice" "bob")
sample-UniqueUsers u v (inl a) (inr (inr b)) e = absurd b
sample-UniqueUsers u v (inr (inl a)) (inl b) e = ground (arith, eq_iff "alice" "bob")
sample-UniqueUsers u v (inr (inl a)) (inr (inl b)) e = cc
sample-UniqueUsers u v (inr (inl a)) (inr (inr b)) e = absurd b
sample-UniqueUsers u v (inr (inr a)) m e = absurd a

abbrev code_request : Request
code_request = post "/oauth/token" code_form

abbrev refresh_request : Request
refresh_request = post "/oauth/token" refresh_form

abbrev delete_request : Request
delete_request = post "/account/delete" delete_form

abbrev action_request : Request
action_request = post "/admin/action" action_form

sample-has_admins : 0 < count_if is_approved_admin sample_world.db.users
unfolding count_if
sample-has_admins = omega arith

exchange_auth_code-IsCodeGrant_example :
    OnSuccess
      (λ _ w'. IsCodeGrant code_request sample_world w')
      (exchange_auth_code code_request sample_world)
exchange_auth_code-IsCodeGrant_example =
    exchange_auth_code-IsCodeGrant code_request sample_world sample-UniqueCodes

exchange_refresh_token-IsRotation_example :
    OnSuccess
      (λ _ w'. IsRotation refresh_request sample_world w')
      (exchange_refresh_token refresh_request sample_world)
exchange_refresh_token-IsRotation_example =
    exchange_refresh_token-IsRotation refresh_request sample_world sample-UniqueTokens

winners-le-one_example : winners "refresh" (1000 ∷ 1000 ∷ 6000 ∷ []) sample_db ≤ 1
winners-le-one_example =
    winners-le-one "refresh" (1000 ∷ 1000 ∷ 6000 ∷ []) sample_db sample-UniqueTokens

winners-eq-one_example : winners "refresh" (1000 ∷ 1000 ∷ 900 ∷ []) sample_db ≡ 1
winners-eq-one_example =
    winners-eq-one "refresh" 1000 (1000 ∷ 900 ∷ []) sample_db sample_refresh sample-UniqueTokens
      (inl refl) refl

admin_action-HasAdmin_example : AdminLeft (admin_action action_request sample_world)
admin_action-HasAdmin_example =
    admin_action-HasAdmin action_request sample_world sample-UniqueUsers (alice, inl refl, refl)

account_delete-HasAdmin_example :
    Ends
      (λ _ w'. 0 < count_if is_approved_admin w'.db.users)
      (λ _ w'. 0 < count_if is_approved_admin w'.db.users)
      (account_delete delete_request sample_world)
account_delete-HasAdmin_example =
    account_delete-HasAdmin delete_request sample_world sample-UniqueIds sample-has_admins

delete_run : is_next (account_delete delete_request sample_world) ≡ true
unfolding account_delete sir_auth.Token.verify_password sir_auth.Store.count_approved_admins
    count_if sir_auth.Store.delete_user_data sir_auth.Account.check_self_delete
    sir_auth.Account.delete_self sir_auth.Http.same_origin sir_auth.World.open_store
    validate_access_token chars same encode sextet decode value sir_auth.Store.get_user_by_id
    sir_auth.World.db_read find sir_auth.World.now_unix sir_auth.World.db_write
    sir_auth.Verify.Identities.invalidate_auth sir_auth.Session.post_user session_user
    sir_auth.Store.create_system_log sir_auth.Store.insert_log sir_auth.Store.with_id
    sir_auth.Text.concat string sir_auth.Token.random_string any
delete_run = refl

logout_run : is_next (account_logout_all delete_request sample_world) ≡ true
unfolding account_logout_all sir_auth.Store.bump_sessions sir_auth.Account.end_sessions
    sir_auth.Http.same_origin sir_auth.World.open_store validate_access_token chars same encode
    sextet decode value sir_auth.Store.get_user_by_id sir_auth.World.db_read find
    sir_auth.World.now_unix sir_auth.World.db_write sir_auth.Verify.Identities.invalidate_auth
    sir_auth.Session.post_user session_user sir_auth.Store.create_system_log
    sir_auth.Store.insert_log sir_auth.Store.with_id sir_auth.Text.concat string
    sir_auth.Token.random_string any
logout_run = refl

account_delete-IsDeletion_example :
    OnSuccess
      (λ _ w'. IsDeletion delete_request sample_world w')
      (account_delete delete_request sample_world)
account_delete-IsDeletion_example = account_delete-IsDeletion delete_request sample_world

account_logout_all-IsLogoutAll_example :
    OnSuccess
      (λ _ w'. IsLogoutAll delete_request sample_world w')
      (account_logout_all delete_request sample_world)
account_logout_all-IsLogoutAll_example = account_logout_all-IsLogoutAll delete_request sample_world

session_user-guards_example :
    Ends
      (λ _ w'. w'.db ≡ sample_world.db)
      (λ u w'. (w'.db ≡ sample_world.db) × IsSignedIn delete_request sample_world u)
      (session_user delete_request sample_world)
session_user-guards_example = session_user-guards delete_request sample_world

sample-CachesKeyed : CachesKeyed sample_world
unfolding lookup
sample-CachesKeyed = record { users = λ k e h. cc; tokens = λ k e h. cc }

cookie_identity_sound_example :
    Gives
      (λ o _. IfSome (IsCookieIdentity delete_request sample_world) o)
      (cookie_identity delete_request sample_world)
cookie_identity_sound_example = cookie_identity_sound delete_request sample_world sample-CachesKeyed

get-Sound_example :
    Gives
      (λ r w'. OnOk (IsUserOf "alice") r × Entries IsUserOf w'.user_cache)
      (Cache.get user_cache "alice" sample_world)
get-Sound_example =
    get-Sound user_cache IsUserOf load_user-IsSound "alice" sample_world (sample-CachesKeyed.users)

abbrev sample_entry : CacheEntry ℕ
sample_entry = record { value = 7; loaded_at = 1 }

abbrev one_cache : Cache ℕ
one_cache = ("a", sample_entry) ∷ []

length-put_example : length (put 1 "b" sample_entry one_cache) ≤ 1
length-put_example = length-put 1 "b" sample_entry one_cache (omega arith) (omega arith)

abbrev ttl : ℕ
ttl = 8000 * second

session-read : read_claims sample_world.outside session_jwt "secret" ≡ some alice_claims
unfolding read_claims chars same encode sextet decode value
session-read = refl

sample-IsCodec :
    IsCodec sample_world.outside (new_claims "alice" "a@x" "admin" "session" ttl sample_world)
sample-IsCodec = record {
  marshal_bytes = (omega arith, (omega arith, (omega arith, tt)));
  hmac_bytes = λ key text. (omega arith, (omega arith, (omega arith, tt)));
  back = refl;
}

validate_access_token-generate_token_example :
    Gives
      (λ jwt _.
        (raw : String) × (jwt ≡ ok raw)
        × Gives
            (λ c _. c ≡ some (new_claims "alice" "a@x" "admin" "session" ttl sample_world))
            (validate_access_token raw "secret" sample_world))
      (generate_token "alice" "a@x" "admin" "session" "secret" ttl sample_world)
validate_access_token-generate_token_example =
    validate_access_token-generate_token "alice" "a@x" "admin" "session" "secret" ttl sample_world
      sample_world sample-IsCodec refl (omega arith)

read_claims-IsSigned_example : IsSigned sample_world.outside session_jwt "secret" alice_claims
read_claims-IsSigned_example =
    read_claims-IsSigned sample_world.outside session_jwt "secret" alice_claims session-read

sample-DrawsFresh : DrawsFresh sample_world (λ n. drawn_bytes)
unfolding any b64 encode sextet string
sample-DrawsFresh = record { drawn = λ n h. refl; fresh = λ n h. refl }

sample-IsGrantable : IsGrantable refresh_request sample_world app sample_refresh alice
unfolding find
sample-IsGrantable = record {
  complete = refl;
  known = refl;
  secret = refl;
  listed = refl;
  live = refl;
  to_client = refl;
  in_time = λ n from to. omega arith;
  owner = refl;
  approved = refl;
}

exchange_refresh_token-grants_example :
    Gives
      (λ resp _. IsTokenAnswer sample_world (λ n. drawn_bytes) "all" resp)
      (exchange_refresh_token refresh_request sample_world)
exchange_refresh_token-grants_example =
    exchange_refresh_token-grants refresh_request sample_world app sample_refresh alice
      (λ n. drawn_bytes) refl (λ n. refl) sample-DrawsFresh sample-UniqueTokens sample-IsGrantable
