-- ===== src/OAuth/Exchange.antt =====
-- About `exchangeAuthCode` of internal/handler/oauth.go: when it grants.
use sir_auth.Base.{
  ◌+◌, ℕ, suc, ◌/◌, ◌<◌, ◌≤◌, String, true, false, ◌||◌, ◌==◌, ◌≡◌, refl, some, List, find, any,
  count_if, update_if, arith, eq_iff,
}
use sir_auth.Base.Rows.{Mem, find-mem, find_sound, mem-count_if}
use sir_auth.Model.{User, OAuthClient, AuthCode}
use sir_auth.Text.{string, concat}
use sir_auth.World.{World, next, Request, now_unix, second, db_read, db_write, Fate, tick, now_ns}
use sir_auth.Outcome.{Gives}
use sir_auth.Token.{generate_access_token, b64, generate_token}
use sir_auth.Store.{has_id, has_client_id, get_user_by_id}
use sir_auth.Store.Codes.{
  has_code, has_token, is_claimable, mark_used, claim_code_sql, claim_code, consume_auth_code,
  consumed,
}
use sir_auth.Store.SingleUse.{UniqueCodes, claimable-le}
use sir_auth.Store.Audit.{create_system_log-next}
use sir_auth.OAuth.Grants.{
  accept_code, check_code, grant_code, issue_tokens, exchange_auth_code, shows_secret, fits_code,
  token_response,
}
use sir_auth.OAuth.Liveness.{
  DrawsFresh, IsTokenAnswer, token_client-next, create_refresh_token-next, new_row, stored_world,
  access_now, any-find,
}

module _ (r : Request) (w : World) (up : w.outside.opens ≡ true)
    (answered : (n : ℕ) → w.outside.fate n ≡ Fate.answered) where
  abbrev taken_world : World
  taken_world = record w {
    calls = suc (suc (suc (suc w.calls)));
    db = record w.db {
      auth_codes =
          update_if (is_claimable (r.form "code") (w.outside.clock (suc (suc w.calls)) / second))
            mark_used w.db.auth_codes;
    };
  }

  consume_auth_code-next :
      (c : AuthCode)
      → find (has_code (r.form "code")) w.db.auth_codes ≡ some c
      → c.used ≡ false
      → w.outside.clock (suc w.calls) / second < c.expires_at
      → count_if
          (is_claimable (r.form "code") (w.outside.clock (suc (suc w.calls)) / second))
          w.db.auth_codes
        ≡ 1
      → consume_auth_code (r.form "code") w ≡ next (consumed (mark_used c)) taken_world
  unfolding consume_auth_code claim_code claim_code_sql db_read db_write now_unix
  consume_auth_code-next c listed unused in_time one =
      ground (arith, answered w.calls, answered (suc (suc (suc w.calls))))

  check_code-next :
      (client : OAuthClient) (c : AuthCode)
      → w.outside.clock w.calls / second < c.expires_at
      → c.client_id ≡ r.form "client_id"
      → fits_code w.outside client c (r.form "code_verifier") (r.form "redirect_uri") ≡ true
      → check_code r client (consumed c) w ≡ next c (tick w)
  unfolding check_code now_unix
  check_code-next client c in_time to_client fits =
      ground (arith, eq_iff c.client_id (r.form "client_id"))

  issue_tokens-next :
      (u : User) (scope : String) (bs : List ℕ)
      → w.outside.rand (suc (suc w.calls)) 48 ≡ some bs
      → any (has_token (string (b64 bs))) w.db.refresh_tokens ≡ false
      → any (λ c. c.client_id == r.form "client_id") w.db.clients ≡ true
      → any (λ v. v.id == u.id) w.db.users ≡ true
      → issue_tokens (r.form "client_id") scope u w
        ≡ next
            (access_now u scope w, new_row r (tick (tick w)) up answered u scope bs)
            (stored_world r (tick (tick w)) up answered u scope bs)
  unfolding issue_tokens generate_access_token generate_token now_ns now_unix
  issue_tokens-next u scope bs drawn fresh client user = ground (
    arith,
    create_refresh_token-next r (tick (tick w)) up answered u scope bs drawn fresh client user,
  )

grant_code-next :
    (r : Request) (w : World) (up : w.outside.opens ≡ true)
    (answered : (n : ℕ) → w.outside.fate n ≡ Fate.answered) (c : AuthCode) (u : User) (bs : List ℕ)
    → find (has_id c.user_id) w.db.users ≡ some u
    → w.outside.rand (suc (suc (suc w.calls))) 48 ≡ some bs
    → any (has_token (string (b64 bs))) w.db.refresh_tokens ≡ false
    → any (λ c. c.client_id == r.form "client_id") w.db.clients ≡ true
    → any (λ v. v.id == u.id) w.db.users ≡ true
    → (w' : World) × (grant_code r c w
        ≡ next (token_response (access_now u c.scope (tick w)) (string (b64 bs)) c.scope) w')
unfolding grant_code get_user_by_id db_read
grant_code-next r w up answered c u bs owner drawn fresh client user =
    let w₁ : World = tick w in
    let (logged, w', e, _) =
      create_system_log-next "USER_LOGIN" u.id u.id
        (concat "User logged in via Authorization Code: " u.email)
        (stored_world r (tick (tick w₁)) up answered u c.scope bs) in
    (
      w',
      ground (
        arith,
        answered w.calls,
        owner,
        issue_tokens-next r w₁ up answered u c.scope bs drawn fresh client user,
        e,
      ),
    )

-- What an exchange that is granted needs of the request and of the world: the client and the owner
-- are known, and the row of the code is unused, live and fits.
pub record IsRedeemable (r : Request) (w : World) (c : OAuthClient) (ac : AuthCode) (u : User)
    : Type 0 where
  pub complete :
      (r.form "code" == "" || r.form "redirect_uri" == "" || r.form "client_id" == "") ≡ false
  pub known : find (has_client_id (r.form "client_id")) w.db.clients ≡ some c
  pub secret : shows_secret c (r.form "client_secret") ≡ true
  pub listed : find (has_code (r.form "code")) w.db.auth_codes ≡ some ac
  pub unused : ac.used ≡ false
  pub to_client : ac.client_id ≡ r.form "client_id"
  pub in_time : (n : ℕ) → w.calls ≤ n → n ≤ w.calls + 8 → w.outside.clock n / second < ac.expires_at
  pub fits : fits_code w.outside c ac (r.form "code_verifier") (r.form "redirect_uri") ≡ true
  pub owner : find (has_id ac.user_id) w.db.users ≡ some u

-- If the store opens and PostgreSQL answers every statement, the codes in the table are unique,
-- every draw of 48 random bytes from now on gives bytes, each its own, whose text is no refresh
-- token of the table, the client of the request is known and shows its secret (unless it is public), and the row of the code shown is
-- unused, was issued to this client, has not expired by the next readings of the clock, fits the verifier
-- and the redirect URI of the request and is owned by a user of the table, then the exchange is
-- granted: the answer has an access token, the text of such a draw as the refresh token, and the
-- scope of the code.
pub exchange_auth_code-grants :
    (r : Request) (w : World) (c : OAuthClient) (ac : AuthCode) (u : User) (draws : ℕ → List ℕ)
    → w.outside.opens ≡ true
    → ((n : ℕ) → w.outside.fate n ≡ Fate.answered)
    → DrawsFresh w draws
    → UniqueCodes w.db
    → IsRedeemable r w c ac u
    → Gives (λ resp _. IsTokenAnswer w draws ac.scope resp) (exchange_auth_code r w)
unfolding exchange_auth_code accept_code
exchange_auth_code-grants r w c ac u draws up answered d unique g =
    let code : String = r.form "code" in
    let w₁ : World = tick w in
    let now : ℕ = w₁.outside.clock (suc (suc w₁.calls)) / second in
    let listed : Mem ac w.db.auth_codes = find-mem (has_code code) w.db.auth_codes ac g.listed in
    let same_code : ac.code == code ≡ true =
      find_sound (has_code code) w.db.auth_codes ac g.listed in
    let is_claimable_now : is_claimable code now ac ≡ true =
      ground
        (arith, g.unused, same_code, g.in_time (suc (suc w₁.calls)) (omega arith) (omega arith)) in
    let one : count_if (is_claimable code now) w.db.auth_codes ≡ 1 = omega (
      arith,
      mem-count_if (is_claimable code now) w.db.auth_codes ac listed is_claimable_now,
      claimable-le code now w.db.auth_codes,
      unique code,
    ) in
    let w₅ : World = taken_world r w₁ up answered in
    let k : ℕ = suc (suc (suc (suc w₅.calls))) in
    let later : w.calls ≤ k = omega arith in
    let bs : List ℕ = draws k in
    let owner_id : u.id ≡ ac.user_id =
      (eq_iff u.id ac.user_id).0 (find_sound (has_id ac.user_id) w.db.users u g.owner) in
    let client : any (λ c. c.client_id == r.form "client_id") w.db.clients ≡ true =
      any-find (has_client_id (r.form "client_id")) w.db.clients c g.known in
    let user : any (λ v. v.id == u.id) w.db.users ≡ true =
      rw owner_id (any-find (has_id ac.user_id) w.db.users u g.owner) in
    let (w', granted) =
      grant_code-next r (tick w₅) up answered (mark_used ac) u bs g.owner (d.drawn k later)
        (d.fresh k later) client user in
    let done : exchange_auth_code r w
        ≡ next (token_response (access_now u ac.scope (tick (tick w₅))) (string (b64 bs)) ac.scope)
            w' =
      ground (
        arith,
        token_client-next r w up answered c _ g.complete g.known g.secret,
        consume_auth_code-next r w₁ up answered ac g.listed g.unused
            (g.in_time (suc w₁.calls) (omega arith) (omega arith)) one,
        check_code-next r w₅ up answered c (mark_used ac)
            (g.in_time w₅.calls (omega arith) (omega arith)) g.to_client g.fits,
        granted,
      ) in
    rw done (access_now u ac.scope (tick (tick w₅)), k, later, refl)
