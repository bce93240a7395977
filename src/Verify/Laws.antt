-- ===== src/Verify/Laws.antt =====
-- About the identities of internal/handler/verify.go: what a cookie or a personal access token gives.
use sir_auth.Base.{
  Option-cases, find, ◌⊎◌, ℕ, ◌/◌, String, true, ◌≡◌, refl, ◌≢◌, inl, inr, Option, none, some,
  arith, Bool-cases,
}
use sir_auth.Model.{User, ApiToken, active}
use sir_auth.World.{
  CacheEntry, World, Exit, halt, next, Result, failed, ok, Request, Response, pure, second, tick,
  db_read, open_store,
}
use sir_auth.Outcome.{Ends-intro, Gives, OnOk, >>=-eq-next}
use sir_auth.Store.{has_id, get_user_by_id}
use sir_auth.Store.Tokens.{has_hash, get_api_token_by_hash}
use sir_auth.Token.{validate_access_token, hash_pat}
use sir_auth.Cache
use sir_auth.Cache.{lookup}
use sir_auth.Cache.Laws.{Entries, get-Sound}
use sir_auth.Verify.Identities.{
  session_claims, of_user, token_row, cookie_identity, token_identity, user_cache, token_cache,
  load_user, load_token, Identity, token_user,
}
use sir_auth.Verify.Cookies.{
  IsUserOf, Held, get_user-Held, load_user-IsSound, HasHash, load_token-IsSound, CachesKeyed,
  IsCookieIdentity, cookie_identity-inv,
}

-- What a personal access token proves of an identity: a row with the token's hash, active when it
-- was read, whose owner is approved, both as the table or the cache of the process has them.
pub record IsTokenIdentity (raw : String) (w : World) (id : Identity) : Type 0 where
  pub token : ApiToken
  pub owner : User
  pub read_at : ℕ
  pub row :
      Held w.token_cache
        (hash_pat w.outside raw)
        (find (has_hash (hash_pat w.outside raw)) w.db.api_tokens)
        (some token)
  pub owner_row :
      Held w.user_cache token.user_id (find (has_id token.user_id) w.db.users) (some owner)
  pub hashed : token.token_hash ≡ hash_pat w.outside raw
  pub active_then : active token (w.outside.clock read_at / second) ≡ true
  pub owned : owner.id ≡ token.user_id
  pub approved : owner.approved ≡ true
  pub identity : id ≡ of_user owner (some token.id)

-- Looking a token up touches neither the users' cache nor what lies outside.
get_token-frame :
    (k : String) (w w₁ : World) (o : Result (Option ApiToken))
    → Cache.get token_cache k w ≡ next o w₁
    → (w₁.user_cache ≡ w.user_cache) × (w₁.outside ≡ w.outside) × (w₁.db ≡ w.db)
unfolding Cache.get load_token open_store get_api_token_by_hash db_read
get_token-frame k w w₁ o e = ground arith

get_token-Held-miss :
    (k : String) (w w' : World) (o : Option ApiToken)
    → lookup k w.token_cache ≡ none
    → Cache.get token_cache k w ≡ next (ok o) w'
    → o ≡ find (has_hash k) w.db.api_tokens
unfolding Cache.get load_token open_store get_api_token_by_hash db_read
get_token-Held-miss k w w' o miss e = ground arith

get_token-Held-hit :
    (k : String) (w w' : World) (o : Option ApiToken) (x : CacheEntry (Option ApiToken))
    → lookup k w.token_cache ≡ some x
    → Cache.get token_cache k w ≡ next (ok o) w'
    → (o ≡ find (has_hash k) w.db.api_tokens) ⊎ (o ≡ x.value)
unfolding Cache.get load_token open_store get_api_token_by_hash db_read
get_token-Held-hit k w w' o x hit e = ground arith

get_token-Held :
    (k : String) (w w' : World) (o : Option ApiToken)
    → Cache.get token_cache k w ≡ next (ok o) w'
    → Held w.token_cache k (find (has_hash k) w.db.api_tokens) o
get_token-Held k w w' o e = elim (Option-cases (lookup k w.token_cache)) [
  | inl miss ↦ inl (get_token-Held-miss k w w' o miss e)
  | inr (x, hit) ↦ elim (get_token-Held-hit k w w' o x hit e) [
    | inl row ↦ inl row
    | inr cached ↦ inr (x, hit, cached)
  ]
]

-- The row that a lookup of the token gives, if it gives one.
abbrev TokenHeld : String → World → Result (Option ApiToken) → Type 0
TokenHeld raw w o =
    (t : ApiToken)
    → o ≡ ok (some t)
    → Held w.token_cache (hash_pat w.outside raw)
        (find (has_hash (hash_pat w.outside raw)) w.db.api_tokens) (some t)

token_user-inv :
    (raw : String) (w : World) (t : ApiToken) (n : ℕ) (u : Result (Option User)) (id : Identity)
    → t.token_hash ≡ hash_pat w.outside raw
    → active t (w.outside.clock n / second) ≡ true
    → OnOk (IsUserOf t.user_id) u
    → Held w.token_cache
        (hash_pat w.outside raw)
        (find (has_hash (hash_pat w.outside raw)) w.db.api_tokens)
        (some t)
    → ((owner : User)
        → u ≡ ok (some owner)
        → Held w.user_cache t.user_id (find (has_id t.user_id) w.db.users) (some owner))
    → token_user t u ≡ some id
    → IsTokenIdentity raw w id
token_user-inv raw w t n failed id h a k row owner_row e = cc
token_user-inv raw w t n (ok none) id h a k row owner_row e = cc
token_user-inv raw w t n (ok (some u)) id h a k row owner_row e = record {
  token = t;
  row = row;
  owner_row = owner_row u refl;
  owner = u;
  read_at = n;
  hashed = h;
  active_then = a;
  owned = k u refl;
  approved = ground arith;
  identity = ground arith;
}

token_row_sound :
    (raw : String) (w w₁ w' : World) (o : Result (Option ApiToken)) (id : Identity)
    → (w₁.user_cache ≡ w.user_cache) × (w₁.outside ≡ w.outside) × (w₁.db ≡ w.db)
    → Entries IsUserOf w₁.user_cache
    → TokenHeld raw w o
    → OnOk (HasHash (hash_pat w.outside raw)) o
    → token_row o w₁ ≡ next (some id) w'
    → IsTokenIdentity raw w id
token_row_sound raw w w₁ w' failed id same k held h e = cc
token_row_sound raw w w₁ w' (ok none) id same k held h e = cc
token_row_sound raw w w₁ w' (ok (some t)) id same k held h e =
    elim (Bool-cases (active t (w₁.outside.clock w₁.calls / second))) [
      | inl a ↦
          let (u, w₂, g, e₂) =
            >>=-eq-next (Cache.get user_cache t.user_id) (λ u. pure (token_user t u)) (tick w₁)
              (rw (a, token_row) at e) in
          token_user-inv raw w t w₁.calls u id (h t refl) (rw same.1 at a)
            (rw g at (get-Sound user_cache IsUserOf load_user-IsSound t.user_id (tick w₁) k)).0
            (held t refl)
            (λ owner is_owner.
              rw (same.0, same.2) at
                (get_user-Held t.user_id (tick w₁) w₂ (some owner) (rw is_owner at g)))
            (cc)
      | inr a ↦ absurd (none≢some-next (rw (a, token_row) at e))
    ]
  where
    none≢some-next :
        {v v' : World} → ◌≡◌ {A = Exit (Option Identity)} (next none v) (next (some id) v') → ⊥
    none≢some-next q = cc

pub token_identity-inv :
    (raw : String) (w w' : World) (id : Identity)
    → CachesKeyed w
    → token_identity raw w ≡ next (some id) w'
    → IsTokenIdentity raw w id
unfolding token_identity
token_identity-inv raw w w' id k e =
    let hash = hash_pat w.outside raw in
    let (o, w₁, g, e₁) = >>=-eq-next (Cache.get token_cache hash) token_row w e in
    let same = get_token-frame hash w w₁ o g in
    token_row_sound raw w w₁ w' o id same (rw same.0 k.users)
      (λ t is_row. get_token-Held hash w w₁ (some t) (rw is_row at g))
      (rw g at (get-Sound token_cache HasHash load_token-IsSound hash w k.tokens)).0 e₁

-- A condition on the identity, if there is one.
abbrev pub IfSome : (Identity → Type 0) → Option Identity → Type 0
IfSome P none = Unit {0}
IfSome P (some id) = P id

IfSome-intro :
    (P : Identity → Type 0) (o : Option Identity)
    → ((id : Identity) → o ≡ some id → P id)
    → IfSome P o
IfSome-intro P none f = tt
IfSome-intro P (some id) f = f id refl

pub token_identity-halt :
    (raw : String) (w w' : World) (resp : Response) → token_identity raw w ≢ halt resp w'
unfolding token_identity Cache.get load_token load_user open_store get_user_by_id
    get_api_token_by_hash db_read
token_identity-halt raw w w' resp e = ground arith

pub cookie_identity-halt :
    (r : Request) (w w' : World) (resp : Response) → cookie_identity r w ≢ halt resp w'
unfolding cookie_identity session_claims validate_access_token Cache.get load_user open_store
    get_user_by_id db_read
cookie_identity-halt r w w' resp e = ground arith

-- If the caches hold rows under their own keys, looking a cookie up always comes to an end, and an
-- identity that it gives has the subject of validly signed claims and no token: it is the row that
-- the table, or an entry of the cache, has for the subject, of an approved user who has not signed
-- out since the cookie was made, or, only where the user could not be looked up, it has the role of
-- the claims.
pub cookie_identity_sound :
    (r : Request) (w : World)
    → CachesKeyed w
    → Gives (λ o _. IfSome (IsCookieIdentity r w) o) (cookie_identity r w)
cookie_identity_sound r w k =
    Ends-intro (λ _ _. ⊥) (λ o _. IfSome (IsCookieIdentity r w) o) (cookie_identity r w)
      (λ resp w' e. cookie_identity-halt r w w' resp e)
      (λ o w' e.
        IfSome-intro (IsCookieIdentity r w) o λ id s. cookie_identity-inv r w w' id k (rw s at e))
