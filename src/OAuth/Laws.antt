-- ===== src/OAuth/Laws.antt =====
-- About `exchangeAuthCode` of internal/handler/oauth.go.
use sir_auth.Base.{
  ℕ, suc, ◌/◌, ◌≤◌, String, Bool, true, false, ◌||◌, ◌==◌, ◌≡◌, ap, some, find, arith, eq_iff,
}
use sir_auth.Base.Rows.{Mem}
use sir_auth.Model.{User, OAuthClient, RefreshToken, AuthCode}
use sir_auth.Text.{concat}
use sir_auth.World.{
  Db, World, next, Request, Response, ◌>>=◌, pure, open_store, now_unix, second, db_read, db_write,
  now_ns,
}
use sir_auth.Outcome.{OnSuccess, OnSuccess-intro, >>=-eq-next}
use sir_auth.Token.{generate_access_token, random_string}
use sir_auth.Store.{has_client_id, get_client_by_id, get_user_by_id, create_system_log}
use sir_auth.Store.Codes.{
  Consumed, missing, invalid, db_error, mark_used, consumed, consume_auth_code,
  create_refresh_token, insert_refresh_token,
}
use sir_auth.Store.SingleUse.{
  Spent, UniqueCodes, consume_auth_code-IsFirstUse, Spent-consume_auth_code,
}
use sir_auth.Store.Audit.{create_system_log-frame}
use sir_auth.OAuth.Grants.{
  issue_tokens, token_client, accept_code, check_code, owner_or_stop, grant_code,
  exchange_auth_code, fits_code, token_response, shows_secret,
}

-- The client that passes is known, and has shown its secret unless it is public.
pub token_client-inv :
    (r : Request) (b : Bool) (c : OAuthClient) (w w' : World)
    → token_client r b w ≡ next c w'
    → (w'.db ≡ w.db)
      × (w'.outside ≡ w.outside)
      × (w.calls ≤ w'.calls)
      × (find (has_client_id (r.form "client_id")) w.db.clients ≡ some c)
      × (shows_secret c (r.form "client_secret") ≡ true)
unfolding token_client open_store get_client_by_id db_read
token_client-inv r b c w w' e = ground arith

check_code-inv :
    (r : Request) (client : OAuthClient) (outcome : Consumed) (ac : AuthCode) (w w' : World)
    → check_code r client outcome w ≡ next ac w'
    → (outcome ≡ consumed ac)
      × (w'.db ≡ w.db)
      × (w'.outside ≡ w.outside)
      × (ac.client_id ≡ r.form "client_id")
      × (fits_code w.outside client ac (r.form "code_verifier") (r.form "redirect_uri") ≡ true)
unfolding check_code now_unix
check_code-inv r client (consumed c) ac w w' e =
    ground (arith, eq_iff c.client_id (r.form "client_id"))
check_code-inv r client missing ac w w' e = cc
check_code-inv r client invalid ac w w' e = cc
check_code-inv r client db_error ac w w' e = cc

-- A code that was accepted: unused until then, issued to this client, and it fits the proof of
-- possession and the redirect URI of the request.
pub record IsAccepted (r : Request) (w : World) (client : OAuthClient) (row : AuthCode)
    : Type 0 where
  pub listed : Mem row w.db.auth_codes
  pub same_code : row.code ≡ r.form "code"
  pub unused : row.used ≡ false
  pub in_time : (n : ℕ) × (w.calls ≤ n) × (w.outside.clock n / second ≤ row.expires_at)
  pub to_client : row.client_id ≡ r.form "client_id"
  pub fits : fits_code w.outside client row (r.form "code_verifier") (r.form "redirect_uri") ≡ true

accept_code-IsAccepted :
    (r : Request) (client : OAuthClient) (ac : AuthCode) (w w' : World)
    → UniqueCodes w.db
    → accept_code r client w ≡ next ac w'
    → (row : AuthCode) × IsAccepted r w client row
      × (ac ≡ mark_used row)
      × Spent (r.form "code") w'.db
unfolding accept_code
accept_code-IsAccepted r client ac w w' u e =
    let (outcome, v, taken, e₁) =
      >>=-eq-next (consume_auth_code (r.form "code")) (check_code r client) w e in
    let (same, same_db, same_outside, to_client, fits) =
      check_code-inv r client outcome ac v w' e₁ in
    let first = consume_auth_code-IsFirstUse (r.form "code") ac w v u (rw (← same) taken) in
    (
      first.row,
      record {
        listed = first.listed;
        same_code = first.same_code;
        unused = first.unused;
        to_client = rw first.result at to_client;
        fits = rw (first.same_outside, first.result) at fits;
        in_time = (suc w.calls, omega arith, first.in_time);
      },
      first.result,
      rw same_db first.spent,
    )

-- Issuing tokens leaves the codes alone.
issue_tokens-codes :
    (client_id scope : String) (u : User) (x : String × RefreshToken) (w w' : World)
    → issue_tokens client_id scope u w ≡ next x w'
    → w'.db.auth_codes ≡ w.db.auth_codes
unfolding issue_tokens generate_access_token create_refresh_token insert_refresh_token db_write
    random_string now_ns
issue_tokens-codes client_id scope u x w w' e = ground arith

grant_code-codes :
    (r : Request) (ac : AuthCode) (resp : Response) (w w' : World)
    → grant_code r ac w ≡ next resp w'
    → w'.db.auth_codes ≡ w.db.auth_codes
unfolding grant_code get_user_by_id db_read
grant_code-codes r ac resp w w' e =
    let (user, w₁, e₁, k₁) =
      >>=-eq-next (owner_or_stop ac.user_id)
        (λ user. do
          issued ← issue_tokens (r.form "client_id") ac.scope user
          _ ←
              create_system_log "USER_LOGIN" user.id user.id
                (concat "User logged in via Authorization Code: " user.email)
          pure (token_response issued.0 issued.1.token ac.scope))
        w e in
    let (issued, w₂, e₂, k₂) =
      >>=-eq-next (issue_tokens (r.form "client_id") ac.scope user)
        (λ issued. do
          _ ←
              create_system_log "USER_LOGIN" user.id user.id
                (concat "User logged in via Authorization Code: " user.email)
          pure (token_response issued.0 issued.1.token ac.scope))
        w₁ k₁ in
    let (logged, w₃, e₃, k₃) =
      >>=-eq-next
        (create_system_log "USER_LOGIN" user.id user.id
          (concat "User logged in via Authorization Code: " user.email))
        (λ _. pure (token_response issued.0 issued.1.token ac.scope)) w₂ k₂ in
    ground (
      arith,
      issue_tokens-codes (r.form "client_id") ac.scope user issued w₁ w₂ e₂,
      create_system_log-frame "USER_LOGIN" user.id user.id
          (concat "User logged in via Authorization Code: " user.email) logged w₂ w₃ e₃,
    )

-- What a successful exchange of a code proves of the request, and leaves behind.
pub record IsCodeGrant (r : Request) (w w' : World) : Type 0 where
  pub client : OAuthClient
  pub row : AuthCode
  pub known : find (has_client_id (r.form "client_id")) w.db.clients ≡ some client
  pub secret : shows_secret client (r.form "client_secret") ≡ true
  pub accepted : IsAccepted r w client row
  pub spent : Spent (r.form "code") w'.db

abbrev code_request_incomplete : Request → Bool
code_request_incomplete r =
    r.form "code" == "" || r.form "redirect_uri" == "" || r.form "client_id" == ""

exchange_auth_code-inv :
    (r : Request) (resp : Response) (w w' : World)
    → UniqueCodes w.db
    → exchange_auth_code r w ≡ next resp w'
    → IsCodeGrant r w w'
unfolding exchange_auth_code
exchange_auth_code-inv r resp w w' u e =
    let (client, w₁, e₁, k₁) =
      >>=-eq-next (token_client r (code_request_incomplete r))
        (λ client. accept_code r client >>= grant_code r) w e in
    let (same_db, same_outside, later, known, secret) =
      token_client-inv r (code_request_incomplete r) client w w₁ e₁ in
    let (ac, w₂, e₂, k₂) = >>=-eq-next (accept_code r client) (grant_code r) w₁ k₁ in
    let (row, accepted, _, spent) = accept_code-IsAccepted r client ac w₁ w₂ (rw same_db u) e₂ in
    record {
      client = client;
      row = row;
      known = known;
      secret = secret;
      accepted = record {
        listed = rw (ap (λ (d : Db). d.auth_codes) same_db) at accepted.listed;
        same_code = accepted.same_code;
        unused = accepted.unused;
        to_client = accepted.to_client;
        fits = rw same_outside at accepted.fits;
        in_time = (
          accepted.in_time.0,
          omega (arith, later, accepted.in_time.1),
          rw same_outside at accepted.in_time.2,
        );
      };
      spent = rw (grant_code-codes r ac resp w₂ w' k₂) spent;
    }

-- If the codes in the table are unique, an exchange of a code that ends without an error was
-- made for a known client that has shown its secret (unless it is public), and for a row with
-- this code that was unused, not past its expiry at a reading of the clock, issued to this
-- client, and that the verifier and the redirect URI of the request fit; afterwards the code is
-- spent.
pub exchange_auth_code-IsCodeGrant :
    (r : Request) (w : World)
    → UniqueCodes w.db
    → OnSuccess (λ _ w'. IsCodeGrant r w w') (exchange_auth_code r w)
exchange_auth_code-IsCodeGrant r w u =
    OnSuccess-intro (λ _ w'. IsCodeGrant r w w') (exchange_auth_code r w)
      (λ resp w' e. exchange_auth_code-inv r resp w w' u e)

-- If every row with the code of the request is used, the exchange ends in an early return.
Spent-exchange_auth_code :
    (r : Request) (w : World)
    → Spent (r.form "code") w.db
    → OnSuccess (λ _ _. ⊥) (exchange_auth_code r w)
unfolding exchange_auth_code accept_code
Spent-exchange_auth_code r w s =
    OnSuccess-intro (λ _ _. ⊥) (exchange_auth_code r w)
      λ resp w' e.
        let (client, w₁, e₁, k₁) =
          >>=-eq-next (token_client r (code_request_incomplete r))
            (λ client. accept_code r client >>= grant_code r) w e in
        let (same_db, _, _, _, _) = token_client-inv r (code_request_incomplete r) client w w₁ e₁ in
        let (ac, w₂, e₂, k₂) = >>=-eq-next (accept_code r client) (grant_code r) w₁ k₁ in
        let (outcome, v, taken, e₃) =
          >>=-eq-next (consume_auth_code (r.form "code")) (check_code r client) w₁ e₂ in
        let (same, _, _, _, _) = check_code-inv r client outcome ac v w₂ e₃ in
        Spent-consume_auth_code (r.form "code") ac w₁ v (rw same_db s) (rw (← same) taken)
