-- ===== src/Integrity/Writes.antt =====
-- About the other statements of internal/store/store.go: none breaks a constraint of the schema.
use sir_auth.Base.{
  arith, String, Bool, false, ◌==◌, ◌≡◌, refl, sym, inl, inr, List, [], ◌∷◌, any, update_if, eq_iff,
  Bool-cases,
}
use sir_auth.Base.Rows.{All-update_if}
use sir_auth.Model.{User, OAuthClient, RefreshToken, AuthCode, ApiToken, RoutePolicy}
use sir_auth.World.{Db}
use sir_auth.Store.{upsert_policy, for_host}
use sir_auth.Store.Codes.{insert_code, insert_refresh_token}
use sir_auth.Store.Tokens.{insert_api_token}
use sir_auth.Integrity.{IsWf, KeepsSql, HasUser, HasClient}
use sir_auth.Integrity.Tables.{Unique, Unique-update_if}

-- Updates of codes and tokens that leave their keys.
pub update_codes_IsWf :
    (p : AuthCode → Bool) (f : AuthCode → AuthCode) (d : Db)
    → ((c : AuthCode) → (f c).code ≡ c.code)
    → ((c : AuthCode) → (f c).user_id ≡ c.user_id)
    → ((c : AuthCode) → (f c).client_id ≡ c.client_id)
    → IsWf d
    → IsWf (record d { auth_codes = update_if p f d.auth_codes })
update_codes_IsWf p f d k u c wf = record {
  user_ids = wf.user_ids;
  emails = wf.emails;
  roles = wf.roles;
  client_ids = wf.client_ids;
  codes = Unique-update_if (λ (c : AuthCode). c.code) p f d.auth_codes (λ a _. k a) wf.codes;
  code_users =
      All-update_if (λ (c : AuthCode). HasUser d c.user_id) p f d.auth_codes (λ a h. rw (u a) h)
        wf.code_users;
  code_clients =
      All-update_if (λ (c : AuthCode). HasClient d c.client_id) p f d.auth_codes (λ a h. rw (c a) h)
        wf.code_clients;
  tokens = wf.tokens;
  token_users = wf.token_users;
  token_clients = wf.token_clients;
  api_token_ids = wf.api_token_ids;
  api_token_hashes = wf.api_token_hashes;
  api_token_users = wf.api_token_users;
  log_ids = wf.log_ids;
  policy_hosts = wf.policy_hosts;
}

pub update_tokens_IsWf :
    (p : RefreshToken → Bool) (f : RefreshToken → RefreshToken) (d : Db)
    → ((t : RefreshToken) → (f t).token ≡ t.token)
    → ((t : RefreshToken) → (f t).user_id ≡ t.user_id)
    → ((t : RefreshToken) → (f t).client_id ≡ t.client_id)
    → IsWf d
    → IsWf (record d { refresh_tokens = update_if p f d.refresh_tokens })
update_tokens_IsWf p f d k u c wf = record {
  user_ids = wf.user_ids;
  emails = wf.emails;
  roles = wf.roles;
  client_ids = wf.client_ids;
  codes = wf.codes;
  code_users = wf.code_users;
  code_clients = wf.code_clients;
  tokens =
      Unique-update_if (λ (t : RefreshToken). t.token) p f d.refresh_tokens (λ a _. k a) wf.tokens;
  token_users =
      All-update_if (λ (t : RefreshToken). HasUser d t.user_id) p f d.refresh_tokens
        (λ a h. rw (u a) h) wf.token_users;
  token_clients =
      All-update_if (λ (t : RefreshToken). HasClient d t.client_id) p f d.refresh_tokens
        (λ a h. rw (c a) h) wf.token_clients;
  api_token_ids = wf.api_token_ids;
  api_token_hashes = wf.api_token_hashes;
  api_token_users = wf.api_token_users;
  log_ids = wf.log_ids;
  policy_hosts = wf.policy_hosts;
}

pub update_api_tokens_IsWf :
    (p : ApiToken → Bool) (f : ApiToken → ApiToken) (d : Db)
    → ((t : ApiToken) → (f t).id ≡ t.id)
    → ((t : ApiToken) → (f t).token_hash ≡ t.token_hash)
    → ((t : ApiToken) → (f t).user_id ≡ t.user_id)
    → IsWf d
    → IsWf (record d { api_tokens = update_if p f d.api_tokens })
update_api_tokens_IsWf p f d k h u wf = record {
  user_ids = wf.user_ids;
  emails = wf.emails;
  roles = wf.roles;
  client_ids = wf.client_ids;
  codes = wf.codes;
  code_users = wf.code_users;
  code_clients = wf.code_clients;
  tokens = wf.tokens;
  token_users = wf.token_users;
  token_clients = wf.token_clients;
  api_token_ids =
      Unique-update_if (λ (t : ApiToken). t.id) p f d.api_tokens (λ a _. k a) wf.api_token_ids;
  api_token_hashes =
      Unique-update_if (λ (t : ApiToken). t.token_hash) p f d.api_tokens (λ a _. h a)
        wf.api_token_hashes;
  api_token_users =
      All-update_if (λ (t : ApiToken). HasUser d t.user_id) p f d.api_tokens (λ a i. rw (u a) i)
        wf.api_token_users;
  log_ids = wf.log_ids;
  policy_hosts = wf.policy_hosts;
}

-- Two foreign keys of a row that is inserted.
abbrev ReferOk : Db → String → String → Type 0
ReferOk d client_id user_id = HasClient d client_id × HasUser d user_id

pub insert_code-Keeps : (c : AuthCode) → KeepsSql IsWf (insert_code c)
unfolding insert_code
insert_code-Keeps c d wf =
    elim (Bool-cases (any (λ (b : AuthCode). b.code == c.code) d.auth_codes)) [
      | inl k ↦ rw k tt
      | inr k ↦
          elim (Bool-cases (any (λ (o : OAuthClient). o.client_id == c.client_id) d.clients)) [
            | inr n ↦ rw (k, n) tt
            | inl n ↦ elim (Bool-cases (any (λ (u : User). u.id == c.user_id) d.users)) [
              | inr m ↦ rw (k, n, m) tt
              | inl m ↦
                  rw (k, n, m)
                    (record {
                      user_ids = wf.user_ids;
                      emails = wf.emails;
                      roles = wf.roles;
                      client_ids = wf.client_ids;
                      codes = (k, wf.codes);
                      code_users = (m, wf.code_users);
                      code_clients = (n, wf.code_clients);
                      tokens = wf.tokens;
                      token_users = wf.token_users;
                      token_clients = wf.token_clients;
                      api_token_ids = wf.api_token_ids;
                      api_token_hashes = wf.api_token_hashes;
                      api_token_users = wf.api_token_users;
                      log_ids = wf.log_ids;
                      policy_hosts = wf.policy_hosts;
                    })
            ]
          ]
    ]

pub insert_refresh_token-Keeps : (t : RefreshToken) → KeepsSql IsWf (insert_refresh_token t)
unfolding insert_refresh_token
insert_refresh_token-Keeps t d wf =
    elim (Bool-cases (any (λ (b : RefreshToken). b.token == t.token) d.refresh_tokens)) [
      | inl k ↦ rw k tt
      | inr k ↦
          elim (Bool-cases (any (λ (o : OAuthClient). o.client_id == t.client_id) d.clients)) [
            | inr n ↦ rw (k, n) tt
            | inl n ↦ elim (Bool-cases (any (λ (u : User). u.id == t.user_id) d.users)) [
              | inr m ↦ rw (k, n, m) tt
              | inl m ↦
                  rw (k, n, m)
                    (record {
                      user_ids = wf.user_ids;
                      emails = wf.emails;
                      roles = wf.roles;
                      client_ids = wf.client_ids;
                      codes = wf.codes;
                      code_users = wf.code_users;
                      code_clients = wf.code_clients;
                      tokens = (k, wf.tokens);
                      token_users = (m, wf.token_users);
                      token_clients = (n, wf.token_clients);
                      api_token_ids = wf.api_token_ids;
                      api_token_hashes = wf.api_token_hashes;
                      api_token_users = wf.api_token_users;
                      log_ids = wf.log_ids;
                      policy_hosts = wf.policy_hosts;
                    })
            ]
          ]
    ]

pub insert_api_token-Keeps : (t : ApiToken) → KeepsSql IsWf (insert_api_token t)
unfolding insert_api_token
insert_api_token-Keeps t d wf =
    elim (Bool-cases (any (λ (b : ApiToken). b.id == t.id) d.api_tokens)) [
      | inl k ↦ rw k tt
      | inr k ↦
          elim (Bool-cases (any (λ (b : ApiToken). b.token_hash == t.token_hash) d.api_tokens)) [
            | inl n ↦ rw (k, n) tt
            | inr n ↦ elim (Bool-cases (any (λ (u : User). u.id == t.user_id) d.users)) [
              | inr m ↦ rw (k, n, m) tt
              | inl m ↦
                  rw (k, n, m)
                    (record {
                      user_ids = wf.user_ids;
                      emails = wf.emails;
                      roles = wf.roles;
                      client_ids = wf.client_ids;
                      codes = wf.codes;
                      code_users = wf.code_users;
                      code_clients = wf.code_clients;
                      tokens = wf.tokens;
                      token_users = wf.token_users;
                      token_clients = wf.token_clients;
                      api_token_ids = (k, wf.api_token_ids);
                      api_token_hashes = (n, wf.api_token_hashes);
                      api_token_users = (m, wf.api_token_users);
                      log_ids = wf.log_ids;
                      policy_hosts = wf.policy_hosts;
                    })
            ]
          ]
    ]

-- ── Route policies ──
upsert-fresh :
    (k : String) (p : RoutePolicy) (ps : List RoutePolicy)
    → (p.host == k) ≡ false
    → any (λ (q : RoutePolicy). q.host == k) ps ≡ false
    → any (λ (q : RoutePolicy). q.host == k) (upsert_policy p ps) ≡ false
unfolding any upsert_policy
upsert-fresh k p [] n h = ground arith
upsert-fresh k p (q ∷ ps) n h = ground (arith, upsert-fresh k p ps)

pub Unique-upsert_policy :
    (p : RoutePolicy) (ps : List RoutePolicy)
    → Unique (λ (q : RoutePolicy). q.host) ps
    → Unique (λ (q : RoutePolicy). q.host) (upsert_policy p ps)
unfolding any upsert_policy
Unique-upsert_policy p [] u = (refl, tt)
Unique-upsert_policy p (q ∷ ps) (u, us) = elim (Bool-cases (for_host p.host q)) [
  | inl e ↦ let same : q.host ≡ p.host = (eq_iff q.host p.host).0 e in rw e (rw (sym same) u, us)
  | inr e ↦ rw e (
    upsert-fresh q.host p ps (ground (arith, eq_iff q.host p.host, eq_iff p.host q.host)) u,
    Unique-upsert_policy p ps us,
  )
]
