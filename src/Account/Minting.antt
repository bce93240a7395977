-- ===== src/Account/Minting.antt =====
-- About the steps of `createToken` (internal/handler/account.go).
use sir_auth.Base.{
  ℕ, ◌+◌, ◌*◌, ◌/◌, ◌<◌, String, true, ◌≡◌, refl, ◌∙◌, none, some, List, [], ◌∷◌, arith, eq_iff,
  Option-cases, inl, inr,
}
use sir_auth.Model.{User, ApiToken, active}
use sir_auth.Text.{string}
use sir_auth.World.{
  World, next, Result, or_stop, ◌>>=◌, ok, failed, Request, Response, second, now_unix, db_read,
  db_write,
}
use sir_auth.Outcome.{>>=-eq-next}
use sir_auth.Http.{unstored_page}
use sir_auth.Token.{Pat, hash_pat, b64, new_pat, random_string}
use sir_auth.Verify.Identities.{invalidate_auth}
use sir_auth.Store.{create_system_log}
use sir_auth.Store.Tokens.{create_api_token, insert_api_token, count_active_api_tokens}
use sir_auth.Account.{announce_pat, NewToken, day, check_token, keep_pat, parse_expiry, token_row}

keep_pat-no_id :
    (u : User) (f : NewToken) (pat : Pat) (w w' : World) (resp : Response)
    → w.outside.rand w.calls 12 ≡ none
    → keep_pat u f pat w ≡ next resp w'
    → ⊥
unfolding keep_pat create_api_token random_string
keep_pat-no_id u f pat w w' resp none_drawn e = ground arith

create_api_token-inv :
    (t : ApiToken) (w w' : World) (i : String) (is : List ℕ)
    → t.id ≡ ""
    → w.outside.rand w.calls 12 ≡ some is
    → create_api_token t w ≡ next (ok i) w'
    → (w'.db.api_tokens ≡ record t { id = string (b64 is) } ∷ w.db.api_tokens)
      × (w'.db.users ≡ w.db.users)
      × (w'.outside ≡ w.outside)
unfolding create_api_token insert_api_token db_write random_string
create_api_token-inv t w w' i is unnamed drawn e = ground (arith, eq_iff t.id "")

announce_pat-inv :
    (u : User) (f : NewToken) (pat : Pat) (i : String) (w w' : World) (resp : Response)
    → announce_pat u f pat (ok i) w ≡ next resp w'
    → (resp ≡ unstored_page "token-created" (f.name ∷ pat.raw ∷ []))
      × (w'.db.api_tokens ≡ w.db.api_tokens)
      × (w'.db.users ≡ w.db.users)
      × (w'.user_cache ≡ [])
      × (w'.token_cache ≡ [])
      × (w'.outside ≡ w.outside)
unfolding announce_pat invalidate_auth create_system_log db_write random_string now_unix
announce_pat-inv u f pat i w w' resp e = ground arith

abbrev pub row_of : User → NewToken → Pat → String → ApiToken
row_of u f pat i = record (token_row u f.name pat f.now f.expires_at) { id = i }

-- What a token that is kept leaves behind.
pub record IsKept (u : User) (f : NewToken) (pat : Pat) (w w' : World) (resp : Response)
    : Type 0 where
  pub id : String
  pub answer : resp ≡ unstored_page "token-created" (f.name ∷ pat.raw ∷ [])
  pub row : w'.db.api_tokens ≡ row_of u f pat id ∷ w.db.api_tokens
  pub users : w'.db.users ≡ w.db.users
  pub no_users : w'.user_cache ≡ []
  pub no_tokens : w'.token_cache ≡ []
  pub outside : w'.outside ≡ w.outside

announced :
    (u : User) (f : NewToken) (pat : Pat) (w w₁ w' : World) (resp : Response) (is : List ℕ)
    (made : Result String)
    → w.outside.rand w.calls 12 ≡ some is
    → create_api_token (token_row u f.name pat f.now f.expires_at) w ≡ next made w₁
    → announce_pat u f pat made w₁ ≡ next resp w'
    → IsKept u f pat w w' resp
unfolding announce_pat
announced u f pat w w₁ w' resp is failed drawn e k = cc
announced u f pat w w₁ w' resp is (ok i) drawn e k =
    let (answer, row, users, no_users, no_tokens, outside) =
      announce_pat-inv u f pat i w₁ w' resp k in
    let (row₁, users₁, outside₁) =
      create_api_token-inv (token_row u f.name pat f.now f.expires_at) w w₁ i is refl drawn e in
    record {
      id = string (b64 is);
      answer = answer;
      row = row ∙ row₁;
      users = users ∙ users₁;
      no_users = no_users;
      no_tokens = no_tokens;
      outside = outside ∙ outside₁;
    }

keep_pat-IsKept :
    (u : User) (f : NewToken) (pat : Pat) (w w' : World) (resp : Response)
    → keep_pat u f pat w ≡ next resp w'
    → IsKept u f pat w w' resp
unfolding keep_pat
keep_pat-IsKept u f pat w w' resp e =
    let (made, w₁, k, l) =
      >>=-eq-next (create_api_token (token_row u f.name pat f.now f.expires_at))
        (announce_pat u f pat) w e in
    elim (Option-cases (w.outside.rand w.calls 12)) [
      | inl no_bytes ↦ absurd (keep_pat-no_id u f pat w w' resp no_bytes e)
      | inr (is, drawn) ↦ announced u f pat w w₁ w' resp is made drawn k l
    ]

pub new_pat-inv :
    (w w₁ : World) (pat : Pat)
    → new_pat w ≡ next (ok pat) w₁
    → (pat.hash ≡ hash_pat w.outside pat.raw) × (w₁.db ≡ w.db) × (w₁.outside ≡ w.outside)
unfolding new_pat random_string
new_pat-inv w w₁ pat e = ground arith

pub minted :
    (u : User) (f : NewToken) (w w' : World) (resp : Response) (x : Response) (drawn : Result Pat)
    → (or_stop drawn x >>= keep_pat u f) w ≡ next resp w'
    → (pat : Pat) × (drawn ≡ ok pat) × IsKept u f pat w w' resp
minted u f w w' resp x failed e = cc
minted u f w w' resp x (ok pat) e = (pat, refl, keep_pat-IsKept u f pat w w' resp e)

pub check_token-inv :
    (r : Request) (u : User) (w w' : World) (f : NewToken)
    → check_token r u w ≡ next f w'
    → (w'.db ≡ w.db)
      × (w'.outside ≡ w.outside)
      × (f.now ≡ w.outside.clock w.calls / second)
      × (parse_expiry (r.form "expires") f.now ≡ some f.expires_at)
unfolding check_token now_unix count_active_api_tokens db_read
check_token-inv r u w w' f e = ground arith

pub expiry-active :
    (choice : String) (now t : ℕ) (row : ApiToken)
    → parse_expiry choice now ≡ some row.expires_at
    → row.revoked_at ≡ none
    → t < now + 30 * day
    → active row t ≡ true
unfolding parse_expiry active
expiry-active choice now t row e live h = ground arith
