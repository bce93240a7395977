-- ===== src/OAuth/Rotation.antt =====
-- About `exchangeRefreshToken` of internal/handler/oauth.go.
use sir_auth.Base.{
  ℕ, suc, ◌/◌, ◌≤◌, String, Bool, true, false, ◌||◌, not, ◌==◌, ◌≡◌, ap, ◌∙◌, ◌<◌, some, ◌∷◌, find,
  any, count_if, arith, eq_iff,
}
use sir_auth.Base.Rows.{Mem, find-mem, find_sound, any-count_if, mem-count_if}
use sir_auth.Model.{User, OAuthClient, RefreshToken}
use sir_auth.World.{
  World, next, Request, Response, ok, ◌>>=◌, ◌>>◌, pure, stop_if, now_unix, now_ns, second, db_read,
  db_write,
}
use sir_auth.Outcome.{OnSuccess, OnSuccess-intro, >>=-eq-next}
use sir_auth.Token.{generate_access_token, random_string}
use sir_auth.Store.{has_id, has_client_id, get_user_by_id}
use sir_auth.Store.Codes.{
  has_token, get_refresh_token, create_refresh_token, insert_refresh_token, claim_refresh_token,
}
use sir_auth.Store.Rotation.{
  Revoked, UniqueTokens, claim_refresh_token-count, claim_refresh_token-Revoked,
  Revoked-claim_refresh_token,
}
use sir_auth.OAuth.Grants.{
  token_client, live_grant, find_grant, claim_grant, issue_tokens, token_response, rotate,
  exchange_refresh_token, shows_secret, owner_or_stop, invalid_grant,
}
use sir_auth.OAuth.Laws.{token_client-inv}

-- The row that a refresh request is granted on, and the approved user that it belongs to.
pub record IsRefreshable (r : Request) (w : World) (rt : RefreshToken) (u : User) : Type 0 where
  pub listed : Mem rt w.db.refresh_tokens
  pub same_token : rt.token ≡ r.form "refresh_token"
  pub live : rt.revoked ≡ false
  pub in_time : (n : ℕ) × (w.calls ≤ n) × (w.outside.clock n / second ≤ rt.expires_at)
  pub to_client : rt.client_id ≡ r.form "client_id"
  pub owner : Mem u w.db.users
  pub owner_id : u.id ≡ rt.user_id
  pub approved : u.approved ≡ true

owner_or_stop-inv :
    (id : String) (u : User) (w w' : World)
    → owner_or_stop id w ≡ next u w'
    → (w'.db ≡ w.db) × (find (has_id id) w.db.users ≡ some u)
unfolding get_user_by_id db_read
owner_or_stop-inv id u w w' e = ground arith

live_grant-inv :
    (r : Request) (t : RefreshToken) (w w' : World)
    → live_grant r w ≡ next t w'
    → (w'.db ≡ w.db)
      × (find (has_token (r.form "refresh_token")) w.db.refresh_tokens ≡ some t)
      × (t.revoked ≡ false)
      × (w.outside.clock (suc w.calls) / second ≤ t.expires_at)
      × (t.client_id ≡ r.form "client_id")
unfolding live_grant get_refresh_token db_read now_unix
live_grant-inv r t w w' e = ground (arith, eq_iff t.client_id (r.form "client_id"))

find_grant-inv :
    (r : Request) (g : RefreshToken × User) (w w' : World)
    → find_grant r w ≡ next g w'
    → (w'.db ≡ w.db) × IsRefreshable r w g.0 g.1
unfolding find_grant
find_grant-inv r g w w' e =
    let (t, w₁, e₁, k₁) =
      >>=-eq-next (live_grant r)
        (λ rt. do
          user ← owner_or_stop rt.user_id
          stop_if (not user.approved) invalid_grant
          pure (rt, user))
        w e in
    let (u, w₂, e₂, k₂) =
      >>=-eq-next (owner_or_stop t.user_id)
        (λ user. do stop_if (not user.approved) invalid_grant; pure (t, user)) w₁ k₁ in
    let (db₁, is_row, live, in_time, to_client) = live_grant-inv r t w w₁ e₁ in
    let (db₂, is_user) = owner_or_stop-inv t.user_id u w₁ w₂ e₂ in
    let token_is : g.0 ≡ t = ground arith in
    let user_is : g.1 ≡ u = ground arith in
    let db₃ : w'.db ≡ w₂.db = ground arith in
    let users_are : w₁.db.users ≡ w.db.users = cc in
    (
      ground arith,
      record {
        listed =
            rw token_is
              (find-mem (has_token (r.form "refresh_token")) w.db.refresh_tokens t is_row);
        same_token = rw token_is (
            (eq_iff t.token (r.form "refresh_token")).0
              (find_sound (has_token (r.form "refresh_token")) w.db.refresh_tokens t is_row));
        live = rw token_is live;
        in_time = (suc w.calls, omega arith, rw token_is in_time);
        to_client = rw token_is to_client;
        owner = rw user_is (rw users_are at (find-mem (has_id t.user_id) w₁.db.users u is_user));
        owner_id =
            rw (user_is, token_is)
              ((eq_iff u.id t.user_id).0 (find_sound (has_id t.user_id) w₁.db.users u is_user));
        approved = ground arith;
      },
    )

claim_grant-inv :
    (r : Request) (x : Unit {0}) (w w' : World)
    → claim_grant r w ≡ next x w'
    → claim_refresh_token (r.form "refresh_token") w ≡ next (ok true) w'
unfolding claim_grant
claim_grant-inv r x w w' e = ground arith

-- The new token stands before the rows that were there, under a key of its own.
issue_tokens-inv :
    (client_id scope : String) (u : User) (x : String × RefreshToken) (w w' : World)
    → issue_tokens client_id scope u w ≡ next x w'
    → (w'.db.refresh_tokens ≡ x.1 ∷ w.db.refresh_tokens)
      × (any (has_token x.1.token) w.db.refresh_tokens ≡ false)
unfolding issue_tokens generate_access_token create_refresh_token insert_refresh_token db_write
    random_string now_ns
issue_tokens-inv client_id scope u x w w' e = ground arith

rotate-Revoked :
    (r : Request) (raw : String) (g : RefreshToken × User) (resp : Response) (w w' : World)
    → 0 < count_if (has_token raw) w.db.refresh_tokens
    → Revoked raw w.db
    → rotate r g w ≡ next resp w'
    → Revoked raw w'.db
unfolding rotate
rotate-Revoked r raw g resp w w' present h e =
    let (issued, w₁, e₁, k₁) =
      >>=-eq-next (issue_tokens (r.form "client_id") g.0.scope g.1)
        (λ issued. pure (token_response issued.0 issued.1.token g.0.scope)) w e in
    let (rows, fresh) = issue_tokens-inv (r.form "client_id") g.0.scope g.1 issued w w₁ e₁ in
    let same : w'.db.refresh_tokens ≡ issued.1 ∷ w.db.refresh_tokens = ground arith in
    let no_key : count_if (has_token issued.1.token) w.db.refresh_tokens ≡ 0 =
      any-count_if (has_token issued.1.token) w.db.refresh_tokens fresh in
    rw same (
      (λ same_key.
          absurd (
            omega (arith, present, ap (λ k. count_if (has_token k) w.db.refresh_tokens) same_key))),
      h,
    )

-- What a successful refresh proves, and leaves behind.
pub record IsRotation (r : Request) (w w' : World) : Type 0 where
  pub client : OAuthClient
  pub known : find (has_client_id (r.form "client_id")) w.db.clients ≡ some client
  pub secret : shows_secret client (r.form "client_secret") ≡ true
  pub old : RefreshToken
  pub user : User
  pub refreshable : IsRefreshable r w old user
  pub revoked : Revoked (r.form "refresh_token") w'.db

abbrev refresh_request_incomplete : Request → Bool
refresh_request_incomplete r = r.form "refresh_token" == "" || r.form "client_id" == ""

exchange_refresh_token-inv :
    (r : Request) (resp : Response) (w w' : World)
    → UniqueTokens w.db.refresh_tokens
    → exchange_refresh_token r w ≡ next resp w'
    → IsRotation r w w'
unfolding exchange_refresh_token
exchange_refresh_token-inv r resp w w' u e =
    let raw : String = r.form "refresh_token" in
    let (client, w₁, e₁, k₁) =
      >>=-eq-next (token_client r (refresh_request_incomplete r))
        (λ client. find_grant r >>= λ g. claim_grant r >> rotate r g) w e in
    let (db₁, same_outside, later, known, secret) =
      token_client-inv r (refresh_request_incomplete r) client w w₁ e₁ in
    let (g, w₂, e₂, k₂) = >>=-eq-next (find_grant r) (λ g. claim_grant r >> rotate r g) w₁ k₁ in
    let (db₂, ok_row) = find_grant-inv r g w₁ w₂ e₂ in
    let (x, w₃, e₃, k₃) = >>=-eq-next (claim_grant r) (λ _. rotate r g) w₂ k₂ in
    let won = claim_grant-inv r x w₂ w₃ e₃ in
    let db : w₂.db ≡ w.db = db₂ ∙ db₁ in
    let listed : Mem g.0 w.db.refresh_tokens = rw db₁ at ok_row.listed in
    let present : 0 < count_if (has_token raw) w.db.refresh_tokens =
      mem-count_if (has_token raw) w.db.refresh_tokens g.0 listed
        ((eq_iff g.0.token raw).1 ok_row.same_token) in
    record {
      client = client;
      known = known;
      secret = secret;
      old = g.0;
      user = g.1;
      refreshable = record {
        listed = listed;
        same_token = ok_row.same_token;
        live = ok_row.live;
        in_time = (
          ok_row.in_time.0,
          omega (arith, later, ok_row.in_time.1),
          rw same_outside at ok_row.in_time.2,
        );
        to_client = ok_row.to_client;
        owner = rw db₁ at ok_row.owner;
        owner_id = ok_row.owner_id;
        approved = ok_row.approved;
      };
      revoked =
          rotate-Revoked r raw g resp w₃ w'
            (rw (claim_refresh_token-count raw raw w₂ w₃ (ok true) won, db) present)
            (claim_refresh_token-Revoked raw w₂ w₃ (rw db u) won) k₃;
    }

-- If the refresh tokens in the table are unique, a refresh that ends without an error was made
-- for a known client that has shown its secret (unless it is public), and for a row with this
-- token that was not revoked, not past its expiry at a reading of the clock, issued to this
-- client and owned by an approved user; afterwards every row with this token is revoked.
pub exchange_refresh_token-IsRotation :
    (r : Request) (w : World)
    → UniqueTokens w.db.refresh_tokens
    → OnSuccess (λ _ w'. IsRotation r w w') (exchange_refresh_token r w)
exchange_refresh_token-IsRotation r w u =
    OnSuccess-intro (λ _ w'. IsRotation r w w') (exchange_refresh_token r w)
      (λ resp w' e. exchange_refresh_token-inv r resp w w' u e)

-- If every row with the refresh token of the request is revoked, the refresh ends in an early
-- return.
Revoked-exchange_refresh_token :
    (r : Request) (w : World)
    → Revoked (r.form "refresh_token") w.db
    → OnSuccess (λ _ _. ⊥) (exchange_refresh_token r w)
unfolding exchange_refresh_token
Revoked-exchange_refresh_token r w h =
    OnSuccess-intro (λ _ _. ⊥) (exchange_refresh_token r w)
      λ resp w' e.
        let (client, w₁, e₁, k₁) =
          >>=-eq-next (token_client r (refresh_request_incomplete r))
            (λ client. find_grant r >>= λ g. claim_grant r >> rotate r g) w e in
        let (db₁, _, _, _, _) = token_client-inv r (refresh_request_incomplete r) client w w₁ e₁ in
        let (g, w₂, e₂, k₂) = >>=-eq-next (find_grant r) (λ g. claim_grant r >> rotate r g) w₁ k₁ in
        let (db₂, _) = find_grant-inv r g w₁ w₂ e₂ in
        let (x, w₃, e₃, _) = >>=-eq-next (claim_grant r) (λ _. rotate r g) w₂ k₂ in
        Revoked-claim_refresh_token (r.form "refresh_token") w₂ w₃ (rw (db₂ ∙ db₁) h)
          (claim_grant-inv r x w₂ w₃ e₃)
