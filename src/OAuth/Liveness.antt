-- ===== src/OAuth/Liveness.antt =====
-- About `exchangeRefreshToken` of internal/handler/oauth.go: when it grants.
use sir_auth.Base.{
  ℕ, suc, ◌+◌, ◌/◌, ◌<◌, ◌≤◌, String, Bool, true, false, ◌||◌, ◌==◌, ◌≡◌, refl, ◌∙◌, some, List, [],
  ◌∷◌, find, any, count_if, update_if, arith, eq_iff,
}
use sir_auth.Base.Rows.{Mem, find-mem, find_sound, mem-count_if}
use sir_auth.Model.{User, OAuthClient, RefreshToken}
use sir_auth.Text.{string}
use sir_auth.World.{
  Response, World, next, Request, ok, open_store, now_unix, now_ns, second, db_read, db_write, Fate,
  tick,
}
use sir_auth.Outcome.{Gives}
use sir_auth.Token.Laws.{new_claims}
use sir_auth.Token.{
  access_token_ttl, generate_token, generate_access_token, random_string, b64, refresh_token_ttl,
  sign_claims,
}
use sir_auth.Store.{has_id, has_client_id, get_client_by_id, get_user_by_id}
use sir_auth.Store.Codes.{
  has_token, get_refresh_token, create_refresh_token, insert_refresh_token, claim_refresh_token,
  claim_token_sql, is_live, revoke_token,
}
use sir_auth.Store.Rotation.{UniqueTokens, live-le}
use sir_auth.OAuth.Grants.{
  token_client, live_grant, find_grant, claim_grant, issue_tokens, rotate, exchange_refresh_token,
  shows_secret, token_response, grantable,
}

module _ (r : Request) (w : World) (up : w.outside.opens ≡ true)
    (answered : (n : ℕ) → w.outside.fate n ≡ Fate.answered) where
  pub token_client-next :
      (c : OAuthClient) (b : Bool)
      → b ≡ false
      → find (has_client_id (r.form "client_id")) w.db.clients ≡ some c
      → shows_secret c (r.form "client_secret") ≡ true
      → token_client r b w ≡ next c (tick w)
  unfolding token_client open_store get_client_by_id db_read
  token_client-next c b complete known secret =
      rw (complete, up, answered w.calls, known, secret) refl

  live_grant-next :
      (t : RefreshToken)
      → find (has_token (r.form "refresh_token")) w.db.refresh_tokens ≡ some t
      → grantable (some t) (r.form "client_id") (w.outside.clock (suc w.calls) / second) ≡ some t
      → live_grant r w ≡ next t (tick (tick w))
  unfolding live_grant get_refresh_token db_read now_unix
  live_grant-next t listed live = rw (answered w.calls, listed, live) refl

  find_grant-next :
      (t : RefreshToken) (u : User)
      → find (has_token (r.form "refresh_token")) w.db.refresh_tokens ≡ some t
      → grantable (some t) (r.form "client_id") (w.outside.clock (suc w.calls) / second) ≡ some t
      → find (has_id t.user_id) w.db.users ≡ some u
      → u.approved ≡ true
      → find_grant r w ≡ next (t, u) (tick (tick (tick w)))
  unfolding find_grant get_user_by_id db_read
  find_grant-next t u listed live owner approved =
      ground (arith, live_grant-next t listed live, answered (suc (suc w.calls)))

  abbrev claimed_world : World
  claimed_world = record w {
    calls = suc (suc w.calls);
    db = record w.db {
      refresh_tokens =
          update_if (is_live (r.form "refresh_token") (w.outside.clock w.calls / second))
            revoke_token w.db.refresh_tokens;
    };
  }

  claim_grant-next :
      count_if
          (is_live (r.form "refresh_token") (w.outside.clock w.calls / second))
          w.db.refresh_tokens
        ≡ 1
      → claim_grant r w ≡ next tt claimed_world
  unfolding claim_grant claim_refresh_token claim_token_sql db_write now_unix
  claim_grant-next one = ground (arith, answered (suc w.calls))

  abbrev pub new_row : User → (scope : String) → List ℕ → RefreshToken
  new_row u scope bs = record {
    token = string (b64 bs);
    user_id = u.id;
    client_id = r.form "client_id";
    scope = scope;
    expires_at = (w.outside.clock (suc w.calls) + refresh_token_ttl) / second;
    revoked = false;
  }

  abbrev pub stored_world : User → (scope : String) → List ℕ → World
  stored_world u scope bs = record w {
    calls = suc (suc (suc w.calls));
    db = record w.db { refresh_tokens = new_row u scope bs ∷ w.db.refresh_tokens };
  }

  pub create_refresh_token-next :
      (u : User) (scope : String) (bs : List ℕ)
      → w.outside.rand w.calls 48 ≡ some bs
      → any (has_token (string (b64 bs))) w.db.refresh_tokens ≡ false
      → any (λ c. c.client_id == r.form "client_id") w.db.clients ≡ true
      → any (λ v. v.id == u.id) w.db.users ≡ true
      → create_refresh_token u.id (r.form "client_id") scope w
        ≡ next (ok (new_row u scope bs)) (stored_world u scope bs)
  unfolding create_refresh_token insert_refresh_token random_string now_ns db_write
  create_refresh_token-next u scope bs drawn fresh client user =
      ground (arith, answered (suc (suc w.calls)))

pub any-find :
    {A : Type 0} (p : A → Bool) (xs : List A) (a : A) → find p xs ≡ some a → any p xs ≡ true
unfolding any find
any-find p [] a e = cc
any-find p (x ∷ xs) a e = ground (arith, any-find p xs a)

any-update :
    (key raw : String) (now : ℕ) (ts : List RefreshToken)
    → any (has_token key) (update_if (is_live raw now) revoke_token ts) ≡ any (has_token key) ts
unfolding any update_if
any-update key raw now [] = refl
any-update key raw now (t ∷ ts) = ground (arith, any-update key raw now ts)

-- The token that is issued at this moment.
abbrev pub access_now : User → (scope : String) → World → String
access_now u scope w =
    sign_claims w.outside (new_claims u.id u.email u.role scope access_token_ttl w)
      (w.outside.getenv "JWT_SECRET")

rotate-next :
    (r : Request) (w : World) (t : RefreshToken) (u : User) (bs : List ℕ)
    → (answered : (n : ℕ) → w.outside.fate n ≡ Fate.answered) → (up : w.outside.opens ≡ true)
    → w.outside.rand (suc (suc w.calls)) 48 ≡ some bs
    → any (has_token (string (b64 bs))) w.db.refresh_tokens ≡ false
    → any (λ c. c.client_id == r.form "client_id") w.db.clients ≡ true
    → any (λ v. v.id == u.id) w.db.users ≡ true
    → rotate r (t, u) w
      ≡ next
          (token_response (access_now u t.scope w) (string (b64 bs)) t.scope)
          (stored_world r (tick (tick w)) up answered u t.scope bs)
unfolding rotate issue_tokens generate_access_token generate_token now_ns now_unix
rotate-next r w t u bs answered up drawn fresh client user = ground (
  arith,
  create_refresh_token-next r (tick (tick w)) up answered u t.scope bs drawn fresh client user,
)

-- What a refresh that is granted needs of the request and of the world: everything outside answers,
-- the client and the owner are known, and the row of the token is live.
pub record IsGrantable (r : Request) (w : World) (c : OAuthClient) (t : RefreshToken) (u : User)
    : Type 0 where
  pub complete : (r.form "refresh_token" == "" || r.form "client_id" == "") ≡ false
  pub known : find (has_client_id (r.form "client_id")) w.db.clients ≡ some c
  pub secret : shows_secret c (r.form "client_secret") ≡ true
  pub listed : find (has_token (r.form "refresh_token")) w.db.refresh_tokens ≡ some t
  pub live : t.revoked ≡ false
  pub to_client : t.client_id ≡ r.form "client_id"
  pub in_time : (n : ℕ) → w.calls ≤ n → n ≤ w.calls + 8 → w.outside.clock n / second < t.expires_at
  pub owner : find (has_id t.user_id) w.db.users ≡ some u
  pub approved : u.approved ≡ true

-- Every draw of 48 random bytes from now on gives bytes, each its own, whose text is no refresh token
-- of the table.
pub record DrawsFresh (w : World) (draws : ℕ → List ℕ) : Type 0 where
  pub drawn : (n : ℕ) → w.calls ≤ n → w.outside.rand n 48 ≡ some (draws n)
  pub fresh :
      (n : ℕ) → w.calls ≤ n → any (has_token (string (b64 (draws n)))) w.db.refresh_tokens ≡ false

-- The answer with an access token, the text of one of the later draws as the refresh token, and the
-- scope.
abbrev pub IsTokenAnswer : World → (ℕ → List ℕ) → (scope : String) → Response → Type 0
IsTokenAnswer w draws scope resp =
    (access : String) × (n : ℕ) × (w.calls ≤ n)
    × (resp ≡ token_response access (string (b64 (draws n))) scope)

-- If the store opens and PostgreSQL answers every statement, the refresh tokens in the table are
-- unique, every draw of 48 random bytes from now on gives bytes, each its own, whose text is no
-- token of the table, the client of the request is known and shows its secret (unless it is public), and the row of the token
-- shown is not revoked, was issued to this client, has not expired by the next readings of the clock and is owned by an approved user, then the refresh is granted: the answer has an access token,
-- the text of such a draw as the new refresh token, and the scope of the old one.
pub exchange_refresh_token-grants :
    (r : Request) (w : World) (c : OAuthClient) (t : RefreshToken) (u : User) (draws : ℕ → List ℕ)
    → w.outside.opens ≡ true
    → ((n : ℕ) → w.outside.fate n ≡ Fate.answered)
    → DrawsFresh w draws
    → UniqueTokens w.db.refresh_tokens
    → IsGrantable r w c t u
    → Gives (λ resp _. IsTokenAnswer w draws t.scope resp) (exchange_refresh_token r w)
unfolding exchange_refresh_token
exchange_refresh_token-grants r w c t u draws up answered d unique g =
    let raw : String = r.form "refresh_token" in
    let w₁ : World = tick w in
    let w₄ : World = tick (tick (tick w₁)) in
    let now : ℕ = w₄.outside.clock w₄.calls / second in
    let listed : Mem t w.db.refresh_tokens =
      find-mem (has_token raw) w.db.refresh_tokens t g.listed in
    let same_token : t.token == raw ≡ true =
      find_sound (has_token raw) w.db.refresh_tokens t g.listed in
    let is_live_now : is_live raw now t ≡ true =
      ground (arith, g.live, same_token, g.in_time w₄.calls (omega arith) (omega arith)) in
    let one : count_if (is_live raw now) w.db.refresh_tokens ≡ 1 = omega (
      arith,
      mem-count_if (is_live raw now) w.db.refresh_tokens t listed is_live_now,
      live-le raw now w.db.refresh_tokens,
      unique raw,
    ) in
    let grant : grantable (some t) (r.form "client_id") (w₁.outside.clock (suc w₁.calls) / second)
        ≡ some t =
      ground (
        arith,
        g.live,
        g.to_client,
        eq_iff t.client_id (r.form "client_id"),
        g.in_time (suc w₁.calls) (omega arith) (omega arith),
      ) in
    let w₆ : World = claimed_world r w₄ up answered in
    let owner_id : u.id ≡ t.user_id =
      (eq_iff u.id t.user_id).0 (find_sound (has_id t.user_id) w.db.users u g.owner) in
    let k : ℕ = suc (suc w₆.calls) in
    let later : w.calls ≤ k = omega arith in
    let bs : List ℕ = draws k in
    let fresh₆ : any (has_token (string (b64 bs))) w₆.db.refresh_tokens ≡ false =
      any-update (string (b64 bs)) raw now w.db.refresh_tokens ∙ d.fresh k later in
    let client : any (λ c. c.client_id == r.form "client_id") w.db.clients ≡ true =
      any-find (has_client_id (r.form "client_id")) w.db.clients c g.known in
    let user : any (λ v. v.id == u.id) w.db.users ≡ true =
      rw owner_id (any-find (has_id t.user_id) w.db.users u g.owner) in
    let granted : exchange_refresh_token r w
        ≡ next (token_response (access_now u t.scope w₆) (string (b64 bs)) t.scope)
            (stored_world r (tick (tick w₆)) up answered u t.scope bs) =
      ground (
        arith,
        token_client-next r w up answered c _ g.complete g.known g.secret,
        find_grant-next r w₁ up answered t u g.listed grant g.owner g.approved,
        claim_grant-next r w₄ up answered one,
        rotate-next r w₆ t u bs answered up (d.drawn k later) fresh₆ client user,
      ) in
    rw granted (access_now u t.scope w₆, k, later, refl)
