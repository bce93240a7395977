-- ===== src/Store/Tokens.antt =====
-- Personal access tokens of internal/store/store.go; every change is scoped by the owner.
use sir_auth.Base.{
  ℕ, String, Bool, true, false, ◌&&◌, ◌||◌, not, ◌==◌, Option, none, some, ◌∷◌, ltb, if◌then◌else◌,
  find, any, keep, List, count_if, update_if,
}
use sir_auth.Model.{ApiToken, active}
use sir_auth.World.{Db, M, Result, failed, ok, ◌>>=◌, pure, db_read, db_write, on_ok}
use sir_auth.Store.{with_id}

-- The unique key on the hash and the foreign key to the owner.
unfoldable pub insert_api_token : ApiToken → Db → Option (Unit {0} × Db)
insert_api_token t d =
    if any (λ s. s.id == t.id) d.api_tokens
      || any (λ s. s.token_hash == t.token_hash) d.api_tokens
      || not (any (λ u. u.id == t.user_id) d.users)
    then none
    else some (tt, record d { api_tokens = t ∷ d.api_tokens })

abbrev answer_id : String → Result (Unit {0}) → Result String
answer_id i failed = failed
answer_id i (ok _) = ok i

-- `BeforeCreate`.
abbrev before_create_pat : String → M (Result String)
before_create_pat id = with_id 12 id

-- The result is the identifier of the row.
unfoldable pub create_api_token : ApiToken → M (Result String)
unfolding insert_api_token with_id
create_api_token t = do
  id ← before_create_pat t.id
  on_ok id λ i. do r ← db_write (insert_api_token (record t { id = i })); pure (answer_id i r)

abbrev pub has_hash : String → ApiToken → Bool
has_hash hash t = t.token_hash == hash

unfoldable pub get_api_token_by_hash : String → M (Result (Option ApiToken))
get_api_token_by_hash hash = db_read λ d. find (has_hash hash) d.api_tokens

abbrev is_owned_active : String → ℕ → ApiToken → Bool
is_owned_active user_id now t = t.user_id == user_id && active t now

unfoldable pub count_active_api_tokens : String → ℕ → M (Result ℕ)
unfolding active
count_active_api_tokens user_id now =
    db_read λ d. count_if (is_owned_active user_id now) d.api_tokens

abbrev pub is_mine : String → String → ApiToken → Bool
is_mine user_id id t = t.id == id && t.user_id == user_id

-- The rows changed are more than none.
unfoldable pub rename_api_token : (user_id id name : String) → M (Result Bool)
rename_api_token user_id id name = db_write λ d. some (
  ltb 0 (count_if (is_mine user_id id) d.api_tokens),
  record d {
    api_tokens = update_if (is_mine user_id id) (λ t. record t { name = name }) d.api_tokens;
  },
)

abbrev pub not_revoked : Option ℕ → Bool
not_revoked none = true
not_revoked (some _) = false

abbrev pub is_revocable : String → String → ApiToken → Bool
is_revocable user_id id t = is_mine user_id id t && not_revoked t.revoked_at

abbrev pub revoke_at : ℕ → ApiToken → ApiToken
revoke_at now t = record t { revoked_at = some now }

unfoldable pub revoke_api_token : (user_id id : String) → ℕ → M (Result Bool)
revoke_api_token user_id id now = db_write λ d. some (
  ltb 0 (count_if (is_revocable user_id id) d.api_tokens),
  record d { api_tokens = update_if (is_revocable user_id id) (revoke_at now) d.api_tokens },
)

-- The owner's tokens; their order is left out.
unfoldable pub list_api_tokens : String → M (Result (List ApiToken))
list_api_tokens user_id = db_read λ d. keep (λ t. t.user_id == user_id) d.api_tokens
