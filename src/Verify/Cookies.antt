-- ===== src/Verify/Cookies.antt =====
-- About `cookieIdentity` of internal/handler/verify.go: what a cookie gives.
use sir_auth.Base.{
  Option-cases, ◌≤◌, String, true, ◌≡◌, refl, ◌⊎◌, inl, inr, Option, none, some, List, arith,
  eq_iff, Bool-cases, find,
}
use sir_auth.Base.Rows.{find_sound}
use sir_auth.Model.{User, ApiToken}
use sir_auth.World.{
  Cache, CacheEntry, World, next, Result, failed, ok, Request, Claims, pure, read_result, db_read,
  open_store, Fate,
}
use sir_auth.Outcome.{OnOk, >>=-eq-next}
use sir_auth.Store.{has_id, get_user_by_id}
use sir_auth.Store.Tokens.{has_hash, get_api_token_by_hash}
use sir_auth.Token.{validate_access_token}
use sir_auth.Cache
use sir_auth.Cache.{lookup}
use sir_auth.Cache.Laws.{Entries, IsSound, get-Sound}
use sir_auth.Verify.Identities.{
  session_claims, of_user, cookie_claims, cookie_identity, user_cache, token_cache, load_user,
  load_token, Identity, cookie_user,
}

-- A cached user stands under its own identifier.
abbrev pub IsUserOf : String → Option User → Type 0
IsUserOf k o = (u : User) → o ≡ some u → u.id ≡ k

read-IsUserOf :
    (f : Fate) (k : String) (us : List User)
    → OnOk (IsUserOf k) (read_result f (find (has_id k) us))
read-IsUserOf Fate.answered k us = λ u e. (eq_iff u.id k).0 (find_sound (has_id k) us u e)
read-IsUserOf Fate.refused k us = tt
read-IsUserOf Fate.lost k us = tt

pub load_user-IsSound : IsSound user_cache IsUserOf
unfolding load_user open_store get_user_by_id db_read
load_user-IsSound = record {
  entries-set = λ m w. refl;
  entries-tick = λ w. refl;
  loads = λ k w. elim (Bool-cases w.outside.opens) [
    | inl e ↦ rw e (read-IsUserOf (w.outside.fate w.calls) k w.db.users, refl)
    | inr e ↦ rw e (tt, refl)
  ];
}

abbrev pub HasHash : String → Option ApiToken → Type 0
HasHash k o = (t : ApiToken) → o ≡ some t → t.token_hash ≡ k

read-HasHash :
    (f : Fate) (k : String) (ts : List ApiToken)
    → OnOk (HasHash k) (read_result f (find (has_hash k) ts))
read-HasHash Fate.answered k ts = λ t e. (eq_iff t.token_hash k).0 (find_sound (has_hash k) ts t e)
read-HasHash Fate.refused k ts = tt
read-HasHash Fate.lost k ts = tt

pub load_token-IsSound : IsSound token_cache HasHash
unfolding load_token open_store get_api_token_by_hash db_read
load_token-IsSound = record {
  entries-set = λ m w. refl;
  entries-tick = λ w. refl;
  loads = λ k w. elim (Bool-cases w.outside.opens) [
    | inl e ↦ rw e (read-HasHash (w.outside.fate w.calls) k w.db.api_tokens, refl)
    | inr e ↦ rw e (tt, refl)
  ];
}

-- The caches of the process hold rows under their own keys.
pub record CachesKeyed (w : World) : Type 0 where
  pub users : Entries IsUserOf w.user_cache
  pub tokens : Entries HasHash w.token_cache

-- Where a row comes from: the table, under its key, or the cache of the process.
abbrev pub Held : {V : Type 0} → Cache V → String → V → V → Type 0
Held {V} m k row v = (v ≡ row) ⊎ ((e : CacheEntry V) × (lookup k m ≡ some e) × (v ≡ e.value))

get_user-Held-miss :
    (k : String) (w w' : World) (o : Option User)
    → lookup k w.user_cache ≡ none
    → Cache.get user_cache k w ≡ next (ok o) w'
    → o ≡ find (has_id k) w.db.users
unfolding Cache.get load_user open_store get_user_by_id db_read
get_user-Held-miss k w w' o miss e = ground arith

get_user-Held-hit :
    (k : String) (w w' : World) (o : Option User) (x : CacheEntry (Option User))
    → lookup k w.user_cache ≡ some x
    → Cache.get user_cache k w ≡ next (ok o) w'
    → (o ≡ find (has_id k) w.db.users) ⊎ (o ≡ x.value)
unfolding Cache.get load_user open_store get_user_by_id db_read
get_user-Held-hit k w w' o x hit e = ground arith

pub get_user-Held :
    (k : String) (w w' : World) (o : Option User)
    → Cache.get user_cache k w ≡ next (ok o) w'
    → Held w.user_cache k (find (has_id k) w.db.users) o
get_user-Held k w w' o e = elim (Option-cases (lookup k w.user_cache)) [
  | inl miss ↦ inl (get_user-Held-miss k w w' o miss e)
  | inr (x, hit) ↦ elim (get_user-Held-hit k w w' o x hit e) [
    | inl row ↦ inl row
    | inr cached ↦ inr (x, hit, cached)
  ]
]

-- What a cookie proves of an identity: the signed subject, whose row is approved and not signed
-- out since, as the table or the cache of users has it, or the claims alone while the row cannot be
-- read.
pub record IsCookieIdentity (r : Request) (w : World) (id : Identity) : Type 0 where
  pub claims : Claims
  pub after : World
  pub signed : session_claims r w ≡ next (some claims) after
  pub subject : id.id ≡ claims.sub
  pub no_token : id.token_id ≡ none
  pub row :
      ((u : User) × Held w.user_cache claims.sub (find (has_id claims.sub) w.db.users) (some u)
        × (u.approved ≡ true)
        × (u.sessions_valid_after ≤ claims.iat)
        × (id ≡ of_user u none))
      ⊎ ((w' : World) × (Cache.get user_cache claims.sub after ≡ next failed w')
          × (id.role ≡ claims.role))

cookie_user-inv :
    (r : Request) (w after w' : World) (c : Claims) (id : Identity) (u : Result (Option User))
    → session_claims r w ≡ next (some c) after
    → Cache.get user_cache c.sub after ≡ next u w'
    → OnOk (IsUserOf c.sub) u
    → (after.user_cache ≡ w.user_cache) × (after.db ≡ w.db)
    → cookie_user c u ≡ some id
    → IsCookieIdentity r w id
cookie_user-inv r w after w' c id failed sg g k same e = record {
  claims = c;
  after = after;
  signed = sg;
  subject = ground arith;
  no_token = ground arith;
  row = inr (w', g, ground arith);
}
cookie_user-inv r w after w' c id (ok none) sg g k same e = cc
cookie_user-inv r w after w' c id (ok (some u)) sg g k same e = record {
  claims = c;
  after = after;
  signed = sg;
  subject = ground (arith, k u refl);
  no_token = ground arith;
  row = inl (
    u,
    rw (same.0, same.1) at (get_user-Held c.sub after w' (some u) g),
    ground arith,
    ground arith,
    ground arith,
  );
}

session_claims-cache :
    (r : Request) (w w₁ : World) (c : Option Claims)
    → session_claims r w ≡ next c w₁
    → (w₁.user_cache ≡ w.user_cache) × (w₁.db ≡ w.db)
unfolding session_claims validate_access_token
session_claims-cache r w w₁ c e = ground arith

cookie_claims_sound :
    (r : Request) (w w₁ w' : World) (c : Option Claims) (id : Identity)
    → Entries IsUserOf w₁.user_cache
    → session_claims r w ≡ next c w₁
    → cookie_claims c w₁ ≡ next (some id) w'
    → IsCookieIdentity r w id
cookie_claims_sound r w w₁ w' none id k s e = cc
cookie_claims_sound r w w₁ w' (some c) id k s e =
    let (u, w₂, g, e₂) =
      >>=-eq-next (Cache.get user_cache c.sub) (λ u. pure (cookie_user c u)) w₁ e in
    cookie_user-inv r w w₁ w₂ c id u s g
      (rw g at (get-Sound user_cache IsUserOf load_user-IsSound c.sub w₁ k)).0
      (session_claims-cache r w w₁ (some c) s) (cc)

pub cookie_identity-inv :
    (r : Request) (w w' : World) (id : Identity)
    → CachesKeyed w
    → cookie_identity r w ≡ next (some id) w'
    → IsCookieIdentity r w id
unfolding cookie_identity
cookie_identity-inv r w w' id k e =
    let (c, w₁, signed, e₁) = >>=-eq-next (session_claims r) cookie_claims w e in
    cookie_claims_sound r w w₁ w' c id (rw (session_claims-cache r w w₁ c signed).0 k.users) signed
      e₁
