-- ===== src/Integrity/Users.antt =====
-- About the statements of internal/store/store.go on users: none breaks a constraint of the schema.
use sir_auth.Base.{
  arith, String, Bool, true, false, not, ◌==◌, ◌≡◌, refl, sym, inl, inr, List, [], ◌∷◌, any, keep,
  update_if, eq_iff, Bool-cases,
}
use sir_auth.Base.Rows.{All, All-keep, All-update_if}
use sir_auth.Model.{User, RefreshToken, AuthCode, ApiToken}
use sir_auth.World.{Db}
use sir_auth.Store.{
  has_id, has_email, is_role, insert_user, save_user, taken_by_another, delete_cascade,
}
use sir_auth.Integrity.{IsWf, KeepsSql, HasUser, HasClient}
use sir_auth.Integrity.Tables.{
  Unique, Unique-keep, Unique-update_if, Has, Has-cons, Has-keep, Has-update_if, All-mono,
  All-keep_if,
}

-- The tables with other users, of whom none is missing.
with_users_IsWf :
    (d : Db) (us : List User)
    → IsWf d
    → Unique (λ (u : User). u.id) us
    → Unique (λ (u : User). u.email) us
    → All (λ (u : User). is_role u.role ≡ true) us
    → ((id : String) → HasUser d id → Has (λ (u : User). u.id) id us)
    → IsWf (record d { users = us })
with_users_IsWf d us wf ids emails roles there = record {
  user_ids = ids;
  emails = emails;
  roles = roles;
  client_ids = wf.client_ids;
  codes = wf.codes;
  code_users =
      All-mono (λ (c : AuthCode). HasUser d c.user_id) (λ c. Has (λ (u : User). u.id) c.user_id us)
        d.auth_codes (λ c. there c.user_id) wf.code_users;
  code_clients = wf.code_clients;
  tokens = wf.tokens;
  token_users =
      All-mono (λ (t : RefreshToken). HasUser d t.user_id)
        (λ t. Has (λ (u : User). u.id) t.user_id us) d.refresh_tokens (λ t. there t.user_id)
        wf.token_users;
  token_clients = wf.token_clients;
  api_token_ids = wf.api_token_ids;
  api_token_hashes = wf.api_token_hashes;
  api_token_users =
      All-mono (λ (t : ApiToken). HasUser d t.user_id) (λ t. Has (λ (u : User). u.id) t.user_id us)
        d.api_tokens (λ t. there t.user_id) wf.api_token_users;
  log_ids = wf.log_ids;
  policy_hosts = wf.policy_hosts;
}

insert_user_rows :
    (u : User) (d : Db)
    → IsWf d
    → any (has_id u.id) d.users ≡ false
    → any (has_email u.email) d.users ≡ false
    → is_role u.role ≡ true
    → IsWf (record d { users = u ∷ d.users })
insert_user_rows u d wf i e r =
    with_users_IsWf d (u ∷ d.users) wf (i, wf.user_ids) (e, wf.emails) (r, wf.roles)
      (λ id. Has-cons (λ (u : User). u.id) u d.users id)

pub insert_user-Keeps : (u : User) → KeepsSql IsWf (insert_user u)
unfolding insert_user
insert_user-Keeps u d wf = elim (Bool-cases (any (has_id u.id) d.users)) [
  | inl i ↦ rw i tt
  | inr i ↦ elim (Bool-cases (any (has_email u.email) d.users)) [
    | inl e ↦ rw (i, e) tt
    | inr e ↦ elim (Bool-cases (is_role u.role)) [
      | inl r ↦ rw (i, e, r) (insert_user_rows u d wf i e r)
      | inr r ↦ rw (i, e, r) tt
    ]
  ]
]

-- An update that leaves identifier, address and role.
pub update_users_IsWf :
    (p : User → Bool) (f : User → User) (d : Db)
    → ((u : User) → (f u).id ≡ u.id)
    → ((u : User) → (f u).email ≡ u.email)
    → ((u : User) → (f u).role ≡ u.role)
    → IsWf d
    → IsWf (record d { users = update_if p f d.users })
update_users_IsWf p f d i e r wf =
    with_users_IsWf d (update_if p f d.users) wf
      (Unique-update_if (λ (u : User). u.id) p f d.users (λ u _. i u) wf.user_ids)
      (Unique-update_if (λ (u : User). u.email) p f d.users (λ u _. e u) wf.emails)
      (All-update_if (λ (u : User). is_role u.role ≡ true) p f d.users (λ u h. rw (r u) h) wf.roles)
      (λ id. Has-update_if (λ (u : User). u.id) p f d.users id (λ u _. i u))

-- ── `Save` ──
same_id : (u v : User) → has_id u.id v ≡ true → u.id ≡ v.id
same_id u v h = sym ((eq_iff v.id u.id).0 h)

-- A row of another user has another address.
other_email :
    (u : User) (us : List User)
    → any (taken_by_another u) us ≡ false
    → any (has_id u.id) us ≡ false
    → any (has_email u.email) (update_if (has_id u.id) (λ _. u) us) ≡ false
unfolding any update_if
other_email u [] t n = refl
other_email u (v ∷ us) t n = ground (arith, other_email u us)

fresh_email :
    (u v : User) (us : List User)
    → (u.email == v.email) ≡ false
    → any (has_email v.email) us ≡ false
    → any (has_email v.email) (update_if (has_id u.id) (λ _. u) us) ≡ false
unfolding any update_if
fresh_email u v [] n h = refl
fresh_email u v (x ∷ us) n h = ground (arith, fresh_email u v us)

-- A row with another address keeps the addresses unique.
Unique-save :
    (u : User) (us : List User)
    → Unique (λ (v : User). v.id) us
    → Unique (λ (v : User). v.email) us
    → any (taken_by_another u) us ≡ false
    → Unique (λ (v : User). v.email) (update_if (has_id u.id) (λ _. u) us)
unfolding any update_if
Unique-save u [] ids emails t = tt
Unique-save u (v ∷ us) (i, ids) (e, emails) t = elim (Bool-cases (has_id u.id v)) [
  | inl h ↦
      let none_else : any (has_id u.id) us ≡ false = rw (same_id u v h) i in
      rw h (other_email u us (ground arith) none_else, Unique-save u us ids emails (ground arith))
  | inr h ↦ rw h (
    fresh_email u v us (ground (arith, eq_iff v.email u.email, eq_iff u.email v.email)) e,
    Unique-save u us ids emails (ground arith),
  )
]

save_rows :
    (u : User) (d : Db)
    → IsWf d
    → any (taken_by_another u) d.users ≡ false
    → is_role u.role ≡ true
    → IsWf (record d { users = update_if (has_id u.id) (λ _. u) d.users })
save_rows u d wf t r =
    with_users_IsWf d (update_if (has_id u.id) (λ _. u) d.users) wf
      (Unique-update_if (λ (v : User). v.id) (has_id u.id) (λ _. u) d.users (same_id u) wf.user_ids)
      (Unique-save u d.users wf.user_ids wf.emails t)
      (All-update_if (λ (v : User). is_role v.role ≡ true) (has_id u.id) (λ _. u) d.users (λ _ _. r)
        wf.roles)
      (λ id. Has-update_if (λ (v : User). v.id) (has_id u.id) (λ _. u) d.users id (same_id u))

pub save_user-Keeps : (u : User) → KeepsSql IsWf (save_user u)
unfolding save_user
save_user-Keeps u d wf = elim (Bool-cases (any (has_id u.id) d.users)) [
  | inr i ↦ let kept = insert_user-Keeps u d wf in rw i (rw i at kept)
  | inl i ↦ elim (Bool-cases (any (taken_by_another u) d.users)) [
    | inl t ↦ rw (i, t) tt
    | inr t ↦ elim (Bool-cases (is_role u.role)) [
      | inl r ↦ rw (i, t, r) (save_rows u d wf t r)
      | inr r ↦ rw (i, t, r) tt
    ]
  ]
]

-- ── `DELETE FROM users` ──
still_there :
    (id k : String) (us : List User)
    → not (k == id) ≡ true
    → Has (λ (u : User). u.id) k us
    → Has (λ (u : User). u.id) k (keep (λ u. not (has_id id u)) us)
still_there id k us n h = Has-keep (λ (u : User). u.id) id k us (ground arith) h

pub delete_cascade-Keeps : (id : String) (d : Db) → IsWf d → IsWf (delete_cascade id d)
unfolding delete_cascade
delete_cascade-Keeps id d wf =
    let users = keep (λ u. not (has_id id u)) d.users in
    record {
      user_ids = Unique-keep (λ (u : User). u.id) (λ u. not (has_id id u)) d.users wf.user_ids;
      emails = Unique-keep (λ (u : User). u.email) (λ u. not (has_id id u)) d.users wf.emails;
      roles =
          All-keep (λ (u : User). is_role u.role ≡ true) (λ u. not (has_id id u)) d.users wf.roles;
      client_ids = wf.client_ids;
      codes =
          Unique-keep (λ (c : AuthCode). c.code) (λ c. not (c.user_id == id)) d.auth_codes wf.codes;
      code_users =
          All-keep_if (λ (c : AuthCode). HasUser d c.user_id)
            (λ c. Has (λ (u : User). u.id) c.user_id users) (λ c. not (c.user_id == id))
            d.auth_codes (λ c. still_there id c.user_id d.users) wf.code_users;
      code_clients =
          All-keep (λ (c : AuthCode). HasClient d c.client_id) (λ c. not (c.user_id == id))
            d.auth_codes wf.code_clients;
      tokens =
          Unique-keep (λ (t : RefreshToken). t.token) (λ t. not (t.user_id == id)) d.refresh_tokens
            wf.tokens;
      token_users =
          All-keep_if (λ (t : RefreshToken). HasUser d t.user_id)
            (λ t. Has (λ (u : User). u.id) t.user_id users) (λ t. not (t.user_id == id))
            d.refresh_tokens (λ t. still_there id t.user_id d.users) wf.token_users;
      token_clients =
          All-keep (λ (t : RefreshToken). HasClient d t.client_id) (λ t. not (t.user_id == id))
            d.refresh_tokens wf.token_clients;
      api_token_ids =
          Unique-keep (λ (t : ApiToken). t.id) (λ t. not (t.user_id == id)) d.api_tokens
            wf.api_token_ids;
      api_token_hashes =
          Unique-keep (λ (t : ApiToken). t.token_hash) (λ t. not (t.user_id == id)) d.api_tokens
            wf.api_token_hashes;
      api_token_users =
          All-keep_if (λ (t : ApiToken). HasUser d t.user_id)
            (λ t. Has (λ (u : User). u.id) t.user_id users) (λ t. not (t.user_id == id))
            d.api_tokens (λ t. still_there id t.user_id d.users) wf.api_token_users;
      log_ids = wf.log_ids;
      policy_hosts = wf.policy_hosts;
    }
