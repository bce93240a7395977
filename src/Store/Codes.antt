-- ===== src/Store/Codes.antt =====
-- Authorization codes and refresh tokens of internal/store/store.go. A code is used and a token is
-- claimed by a conditional UPDATE that reports how many rows it changed.
use sir_auth.Base.{
  ℕ, ◌+◌, ◌/◌, String, Bool, true, false, ◌&&◌, ◌||◌, not, ◌==◌, Option, none, some, ◌∷◌, ltb,
  if◌then◌else◌, find, any, count_if, update_if, nat_eq,
}
use sir_auth.Model.{RefreshToken, AuthCode}
use sir_auth.World.{
  Db, M, Result, failed, ok, ◌>>=◌, pure, db_read, db_write, now_unix, now_ns, next, second, on_ok,
}
use sir_auth.Store.{with_id}
use sir_auth.Token.{auth_code_ttl, refresh_token_ttl}

abbrev pub has_code : String → AuthCode → Bool
has_code code c = c.code == code

-- The foreign keys of a code or a refresh token.
abbrev refers : String → String → Db → Bool
refers client_id user_id d =
    any (λ c. c.client_id == client_id) d.clients && any (λ u. u.id == user_id) d.users

unfoldable pub insert_code : AuthCode → Db → Option (AuthCode × Db)
insert_code c d =
    if any (has_code c.code) d.auth_codes || not (refers c.client_id c.user_id d)
    then none
    else some (c, record d { auth_codes = c ∷ d.auth_codes })

-- `BeforeCreate` draws a code and sets the expiry, where there is none.
abbrev expire_code : AuthCode → M (Result AuthCode)
expire_code c w = elim (nat_eq c.expires_at 0) [
  | true ↦ (do t ← now_ns; pure (ok (record c { expires_at = (t + auth_code_ttl) / second }))) w
  | false ↦ next (ok c) w
]

unfoldable pub before_create_code : AuthCode → M (Result AuthCode)
unfolding with_id
before_create_code c = do
  code ← with_id 32 c.code
  on_ok code λ i. expire_code (record c { code = i })

unfoldable pub create_auth_code :
    (client_id user_id redirect_uri scope challenge : String) → M (Result AuthCode)
unfolding insert_code before_create_code
create_auth_code client_id user_id redirect_uri scope challenge = do
  made ← before_create_code (record {
    code_challenge = challenge;
    code = "";
    client_id = client_id;
    user_id = user_id;
    redirect_uri = redirect_uri;
    scope = scope;
    expires_at = 0;
    used = false;
  })
  on_ok made λ c. db_write (insert_code c)

-- `Model(&ac).Where("used = false AND expires_at > ?").Update("used", true)`: the rows changed.
abbrev pub is_claimable : String → ℕ → AuthCode → Bool
is_claimable code now c = c.code == code && not c.used && ltb now c.expires_at

abbrev pub mark_used : AuthCode → AuthCode
mark_used c = record c { used = true }

unfoldable pub claim_code_sql : String → ℕ → Db → Option (ℕ × Db)
claim_code_sql code now d = some (
  count_if (is_claimable code now) d.auth_codes,
  record d { auth_codes = update_if (is_claimable code now) mark_used d.auth_codes },
)

-- The outcomes of `ConsumeAuthCode`: the row, `(nil, nil)`, "code invalid or expired", or the
-- error of the database.
pub data Consumed : Type 0 where
  consumed : AuthCode → Consumed
  missing invalid db_error : Consumed

abbrev pub claimed : AuthCode → Result ℕ → Consumed
claimed c failed = db_error
claimed c (ok n) = if nat_eq n 1 then consumed (mark_used c) else invalid

abbrev pub look_up : Result (Option AuthCode) → (AuthCode → M Consumed) → M Consumed
look_up failed f w = next db_error w
look_up (ok none) f w = next missing w
look_up (ok (some c)) f w = f c w

unfoldable pub claim_code : String → AuthCode → M Consumed
unfolding claim_code_sql
claim_code code c = do now' ← now_unix; n ← db_write (claim_code_sql code now'); pure (claimed c n)

unfoldable pub consume_auth_code : String → M Consumed
unfolding claim_code
consume_auth_code code = do
  row ← db_read (λ d. find (has_code code) d.auth_codes)
  look_up row λ c w. elim c.used [
    | true ↦ next invalid w
    | false ↦
        (do
          t ← now_unix
          λ w'. elim (ltb c.expires_at t) [ true ↦ next invalid w' | false ↦ claim_code code c w' ])
          w
  ]

-- ── Refresh tokens ──
abbrev pub has_token : String → RefreshToken → Bool
has_token token t = t.token == token

unfoldable pub insert_refresh_token : RefreshToken → Db → Option (RefreshToken × Db)
insert_refresh_token t d =
    if any (has_token t.token) d.refresh_tokens || not (refers t.client_id t.user_id d)
    then none
    else some (t, record d { refresh_tokens = t ∷ d.refresh_tokens })

-- `BeforeCreate`, as for codes.
abbrev expire_token : RefreshToken → M (Result RefreshToken)
expire_token t w = elim (nat_eq t.expires_at 0) [
  | true ↦
      (do now ← now_ns; pure (ok (record t { expires_at = (now + refresh_token_ttl) / second }))) w
  | false ↦ next (ok t) w
]

unfoldable pub before_create_token : RefreshToken → M (Result RefreshToken)
unfolding with_id
before_create_token t = do
  raw ← with_id 48 t.token
  on_ok raw λ r. expire_token (record t { token = r })

unfoldable pub create_refresh_token : (user_id client_id scope : String) → M (Result RefreshToken)
unfolding insert_refresh_token before_create_token
create_refresh_token user_id client_id scope = do
  made ← before_create_token (record {
    token = "";
    user_id = user_id;
    client_id = client_id;
    scope = scope;
    expires_at = 0;
    revoked = false;
  })
  on_ok made λ t. db_write (insert_refresh_token t)

unfoldable pub get_refresh_token : String → M (Result (Option RefreshToken))
get_refresh_token raw = db_read λ d. find (has_token raw) d.refresh_tokens

abbrev pub revoke_token : RefreshToken → RefreshToken
revoke_token t = record t { revoked = true }

unfoldable pub revoke_refresh_token : String → M (Result (Unit {0}))
revoke_refresh_token raw = db_write λ d.
    some (tt, record d { refresh_tokens = update_if (has_token raw) revoke_token d.refresh_tokens })

-- The conditional UPDATE of `ClaimRefreshToken` and the rows that it changes.
abbrev pub is_live : String → ℕ → RefreshToken → Bool
is_live raw now t = t.token == raw && not t.revoked && ltb now t.expires_at

unfoldable pub claim_token_sql : String → ℕ → Db → Option (ℕ × Db)
claim_token_sql raw now d = some (
  count_if (is_live raw now) d.refresh_tokens,
  record d { refresh_tokens = update_if (is_live raw now) revoke_token d.refresh_tokens },
)

abbrev pub one_row : Result ℕ → Result Bool
one_row failed = failed
one_row (ok n) = ok (nat_eq n 1)

unfoldable pub claim_refresh_token : String → M (Result Bool)
unfolding claim_token_sql
claim_refresh_token raw = do
  now' ← now_unix
  n ← db_write (claim_token_sql raw now')
  pure (one_row n)
