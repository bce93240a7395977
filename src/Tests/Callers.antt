-- ===== src/Tests/Callers.antt =====
-- The theorem on `GetUser`, at the sample world.
use sir_auth.Base.{◌≡◌, refl, none, find, if◌then◌else◌, ◌==◌}
use sir_auth.Text.{chars, same, string, trim_prefix, has_prefix}
use sir_auth.Base64.{encode, sextet, decode, value}
use sir_auth.Token.{validate_access_token}
use sir_auth.Store.{get_user_by_id}
use sir_auth.World.{Request, Exit, next, Response, world_of, open_store, db_read}
use sir_auth.Server.{behind_token}
use sir_auth.Middleware.{chain, auth_middleware}
use sir_auth.Api.{get_user}
use sir_auth.Api.Laws.{IsShownUser, get_user-IsShownUser}
use sir_auth.Tests.{response_of, sample_world, post}

-- alice asks for her own account with her token.
abbrev user_request : Request
user_request = record (post "/api/users/alice" (λ k. "")) {
  method = "GET";
  header = λ k.
      if k == "Authorization" then "Bearer eyJhbGciOiJIUzI1NiIsInR5cCI6IkpXVCJ9.BwgJ.AQID" else "";
}

abbrev shown_user : Exit Response
shown_user = behind_token get_user none user_request sample_world

user_run :
    behind_token get_user none user_request sample_world
    ≡ next (response_of shown_user) (world_of shown_user)
unfolding chain auth_middleware get_user open_store validate_access_token chars string same encode
    sextet decode value get_user_by_id db_read find trim_prefix has_prefix
user_run = refl

get_user-IsShownUser_example : IsShownUser user_request sample_world (response_of shown_user)
get_user-IsShownUser_example =
    get_user-IsShownUser user_request sample_world (world_of shown_user) (response_of shown_user)
      user_run
