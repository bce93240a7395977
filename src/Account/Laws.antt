-- ===== src/Account/Laws.antt =====
-- About logging out everywhere and deleting one's account (internal/handler/account.go).
use sir_auth.Base.{
  ℕ, ◌/◌, ◌<◌, ◌≤◌, String, true, false, not, ◌==◌, ◌≡◌, ◌≢◌, inl, inr, List, [], ◌∷◌, keep,
  update_if, arith, eq_iff, Bool-cases,
}
use sir_auth.Base.Rows.{All}
use sir_auth.Model.{User, RefreshToken}
use sir_auth.World.{
  World, Db, next, Request, Response, ok, db_write, Claims, db_read, open_store, now_unix, second,
}
use sir_auth.Outcome.{>>=-eq-next, OnSuccess, OnSuccess-intro}
use sir_auth.Session.{post_user, session_user}
use sir_auth.Session.Guards.{IsSignedIn, session_user-IsSignedIn}
use sir_auth.Token.{random_string, validate_access_token, verify_password}
use sir_auth.Verify.Identities.{session_claims, invalidate_auth, admits_cookie}
use sir_auth.Store.{
  get_user_by_id, count_approved_admins, create_system_log, has_id, of_user, revoke, valid_after,
  bump_sql, bump_sessions, delete_data_sql, delete_cascade, delete_user_data,
}
use sir_auth.Account.{
  end_sessions, delete_self, check_self_delete, account_logout_all, account_delete,
}

-- All sessions of the user that began before `t` are over, and so are all refresh tokens.
pub record IsSignedOut (id : String) (t : ℕ) (d : Db) : Type 0 where
  pub cookies : All (λ u. u.id ≡ id → (c : Claims) → c.iat < t → admits_cookie u c ≡ false) d.users
  pub refresh : All (λ x. x.user_id ≡ id → x.revoked ≡ true) d.refresh_tokens

bump_sql-cookies :
    (id : String) (t : ℕ) (us : List User)
    → All
        (λ u. u.id ≡ id → (c : Claims) → c.iat < t → admits_cookie u c ≡ false)
        (update_if (has_id id) (valid_after t) us)
unfolding update_if
bump_sql-cookies id t [] = tt
bump_sql-cookies id t (u ∷ us) =
    ((λ e c h. ground (arith, eq_iff u.id id)), bump_sql-cookies id t us)

bump_sql-refresh :
    (id : String) (ts : List RefreshToken)
    → All (λ x. x.user_id ≡ id → x.revoked ≡ true) (update_if (of_user id) revoke ts)
unfolding update_if
bump_sql-refresh id [] = tt
bump_sql-refresh id (x ∷ xs) = ((λ e. ground (arith, eq_iff x.user_id id)), bump_sql-refresh id xs)

-- Logging out everywhere ends every session that began before, and every refresh token.
bump_sql-IsSignedOut : (id : String) (t : ℕ) (d : Db) → IsSignedOut id t (bump_sql id t d)
unfolding bump_sql
bump_sql-IsSignedOut id t d = record {
  cookies = bump_sql-cookies id t d.users;
  refresh = bump_sql-refresh id d.refresh_tokens;
}

-- Nothing of the user is left in any table that refers to users.
pub record IsGone (id : String) (d : Db) : Type 0 where
  pub users : All (λ u. u.id ≢ id) d.users
  pub codes : All (λ c. c.user_id ≢ id) d.auth_codes
  pub refresh_tokens : All (λ t. t.user_id ≢ id) d.refresh_tokens
  pub api_tokens : All (λ t. t.user_id ≢ id) d.api_tokens
  pub request_logs : All (λ l. l.user_id ≢ id) d.request_logs

keep-All :
    {A : Type 0} (key : A → String) (id : String) (xs : List A)
    → All (λ x. key x ≢ id) (keep (λ x. not (key x == id)) xs)
unfolding keep
keep-All key id [] = tt
keep-All key id (x ∷ xs) = elim (Bool-cases (key x == id)) [
  | inl e ↦ rw e (keep-All key id xs)
  | inr e ↦ rw e ((λ q. ground (arith, eq_iff (key x) id)), keep-All key id xs)
]

delete_data_sql-IsGone : (id : String) (d : Db) → IsGone id (delete_data_sql id d)
unfolding delete_data_sql delete_cascade
delete_data_sql-IsGone id d = record {
  users = keep-All (λ u. u.id) id d.users;
  codes = keep-All (λ c. c.user_id) id d.auth_codes;
  refresh_tokens = keep-All (λ t. t.user_id) id d.refresh_tokens;
  api_tokens = keep-All (λ t. t.user_id) id d.api_tokens;
  request_logs = keep-All (λ l. l.user_id) id d.request_logs;
}

post_user-user :
    (r : Request) (w w' : World) (u : User)
    → post_user r w ≡ next u w'
    → session_user r w ≡ next u w'
unfolding post_user open_store
post_user-user r w w' u e = ground arith

-- Who passes the guards of a form is signed in, and the tables are as they were.
pub post_user-IsSignedIn :
    (r : Request) (w w' : World) (u : User)
    → post_user r w ≡ next u w'
    → (w'.db ≡ w.db) × IsSignedIn r w u
post_user-IsSignedIn r w w' u e = session_user-IsSignedIn r w w' u (post_user-user r w w' u e)

bump_sessions-ok :
    (id : String) (t : ℕ) (x : Unit {0}) (w w' : World)
    → bump_sessions id t w ≡ next (ok x) w'
    → w'.db ≡ bump_sql id t w.db
unfolding bump_sessions db_write
bump_sessions-ok id t x w w' e = ground arith

delete_user_data-ok :
    (id : String) (x : Unit {0}) (w w' : World)
    → delete_user_data id w ≡ next (ok x) w'
    → w'.db ≡ delete_data_sql id w.db
unfolding delete_user_data db_write
delete_user_data-ok id x w w' e = ground arith

end_sessions-inv :
    (u : User) (resp : Response) (w w' : World)
    → end_sessions u w ≡ next resp w'
    → (w'.db.users ≡ (bump_sql u.id (w.outside.clock w.calls / second) w.db).users)
      × (w'.db.refresh_tokens
          ≡ (bump_sql u.id (w.outside.clock w.calls / second) w.db).refresh_tokens)
      × (w'.user_cache ≡ [])
unfolding end_sessions bump_sessions bump_sql invalidate_auth create_system_log db_write
    random_string now_unix
end_sessions-inv u resp w w' e = ground arith

delete_self-inv :
    (r : Request) (u : User) (resp : Response) (w w' : World)
    → delete_self r u w ≡ next resp w'
    → (r.form "confirm" ≡ "DELETE")
      × (verify_password w.outside (r.form "password") u.password_hash ≡ true)
      × (w'.db.users ≡ (delete_data_sql u.id w.db).users)
      × (w'.db.auth_codes ≡ (delete_data_sql u.id w.db).auth_codes)
      × (w'.db.refresh_tokens ≡ (delete_data_sql u.id w.db).refresh_tokens)
      × (w'.db.api_tokens ≡ (delete_data_sql u.id w.db).api_tokens)
      × (w'.db.request_logs ≡ (delete_data_sql u.id w.db).request_logs)
      × (w'.user_cache ≡ [])
      × (w'.token_cache ≡ [])
      × (w'.policy_cache ≡ [])
unfolding delete_self check_self_delete count_approved_admins delete_user_data invalidate_auth
    create_system_log db_read db_write random_string now_unix
delete_self-inv r u resp w w' e = ground (arith, eq_iff (r.form "confirm") "DELETE")

-- What "log out everywhere" leaves behind: every session of the signed-in user that began before
-- the time that was read is over, the refresh tokens are revoked and no user is cached.
pub record IsLogoutAll (r : Request) (w w' : World) : Type 0 where
  pub user : User
  pub signed_in : IsSignedIn r w user
  pub read_at : ℕ
  pub later : w.calls ≤ read_at
  pub out : IsSignedOut user.id (w.outside.clock read_at / second) w'.db
  pub uncached : w'.user_cache ≡ []

pub post_user-outside :
    (r : Request) (w w' : World) (u : User) → post_user r w ≡ next u w' → w'.outside ≡ w.outside
unfolding post_user session_user session_claims validate_access_token get_user_by_id open_store
    db_read
post_user-outside r w w' u e = ground arith

post_user-calls :
    (r : Request) (w w' : World) (u : User) → post_user r w ≡ next u w' → w.calls ≤ w'.calls
unfolding post_user session_user session_claims validate_access_token get_user_by_id open_store
    db_read
post_user-calls r w w' u e = ground arith

-- Logging out everywhere, when it succeeds, ends every session of the signed-in user that began
-- before the time it read, revokes all refresh tokens of the user and empties the users' cache.
pub account_logout_all-IsLogoutAll :
    (r : Request) (w : World) → OnSuccess (λ _ w'. IsLogoutAll r w w') (account_logout_all r w)
unfolding account_logout_all
account_logout_all-IsLogoutAll r w =
    OnSuccess-intro (λ _ w'. IsLogoutAll r w w') (account_logout_all r w)
      λ resp w' e.
        let (u, w₁, e₁, k₁) = >>=-eq-next (post_user r) end_sessions w e in
        let (_, signed_in) = post_user-IsSignedIn r w w₁ u e₁ in
        let (users, refresh, uncached) = end_sessions-inv u resp w₁ w' k₁ in
        let out = bump_sql-IsSignedOut u.id (w₁.outside.clock w₁.calls / second) w₁.db in
        record {
          user = u;
          signed_in = signed_in;
          read_at = w₁.calls;
          later = post_user-calls r w w₁ u e₁;
          out =
              rw (← post_user-outside r w w₁ u e₁)
                (record { cookies = rw users out.cookies; refresh = rw refresh out.refresh });
          uncached = uncached;
        }

-- A deleted account: who asked was signed in and gave the password, and nothing is left.
pub record IsDeletion (r : Request) (w w' : World) : Type 0 where
  pub user : User
  pub signed_in : IsSignedIn r w user
  pub confirmed : r.form "confirm" ≡ "DELETE"
  pub password : verify_password w.outside (r.form "password") user.password_hash ≡ true
  pub gone : IsGone user.id w'.db
  pub uncached : (w'.user_cache ≡ []) × (w'.token_cache ≡ []) × (w'.policy_cache ≡ [])

-- Deleting one's account, when it succeeds, was confirmed and was asked for by the signed-in user
-- with the right password; afterwards no row of the user is left in the tables of users, codes,
-- refresh tokens, personal access tokens and request logs, and no row of a user, a token or a policy is cached.
pub account_delete-IsDeletion :
    (r : Request) (w : World) → OnSuccess (λ _ w'. IsDeletion r w w') (account_delete r w)
unfolding account_delete
account_delete-IsDeletion r w =
    OnSuccess-intro (λ _ w'. IsDeletion r w w') (account_delete r w)
      λ resp w' e.
        let (u, w₁, e₁, k₁) = >>=-eq-next (post_user r) (delete_self r) w e in
        let (_, signed_in) = post_user-IsSignedIn r w w₁ u e₁ in
        let (
          confirmed, password, users, codes, refresh, api, logs, no_users, no_tokens, no_policies,
        ) =
          delete_self-inv r u resp w₁ w' k₁ in
        let gone = delete_data_sql-IsGone u.id w₁.db in
        record {
          user = u;
          signed_in = signed_in;
          confirmed = confirmed;
          password = rw (post_user-outside r w w₁ u e₁) at password;
          gone = record {
            users = rw users gone.users;
            codes = rw codes gone.codes;
            refresh_tokens = rw refresh gone.refresh_tokens;
            api_tokens = rw api gone.api_tokens;
            request_logs = rw logs gone.request_logs;
          };
          uncached = (no_users, no_tokens, no_policies);
        }
