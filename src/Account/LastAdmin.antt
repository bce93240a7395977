-- ===== src/Account/LastAdmin.antt =====
-- About `checkSelfDelete` in `AccountDelete` (internal/handler/account.go) and the administrators that
-- it leaves.
use sir_auth.Base.{
  ◌+◌, ◌≤◌, ◌<◌, String, Bool, ◌&&◌, not, ◌≡◌, refl, List, [], ◌∷◌, keep, count_if, ◌⊎◌, inl, inr,
  arith, eq_iff, eq_refl, Bool-cases,
}
use sir_auth.Base.Rows.{Mem, mem-count_if}
use sir_auth.Model.{User}
use sir_auth.World.{World, Request, Response, halt, next, open_store, db_read, db_write, now_unix}
use sir_auth.Outcome.{Ends, Ends-intro, Ends-bind}
use sir_auth.Token.{random_string}
use sir_auth.Verify.Identities.{invalidate_auth}
use sir_auth.Session.{post_user}
use sir_auth.Session.Guards.{session_user-db}
use sir_auth.Store.{
  has_id, is_approved_admin, count_approved_admins, delete_cascade, delete_data_sql,
  delete_user_data, create_system_log,
}
use sir_auth.Account.{check_self_delete, delete_self, account_delete}
use sir_auth.Account.Laws.{post_user-IsSignedIn}

-- The users' primary key.
abbrev pub UniqueIds : List User → Type 0
UniqueIds us = (id : String) → count_if (has_id id) us ≤ 1

abbrev is_admin_row : String → User → Bool
is_admin_row id u = has_id id u && is_approved_admin u

abbrev is_plain_row : String → User → Bool
is_plain_row id u = has_id id u && not (is_approved_admin u)

-- Deleting the rows of one user takes away the administrators among them.
count_if-keep :
    (id : String) (us : List User)
    → count_if is_approved_admin us
      ≤ count_if is_approved_admin (keep (λ u. not (has_id id u)) us)
        + count_if (is_admin_row id) us
unfolding count_if keep
count_if-keep id [] = omega arith
count_if-keep id (u ∷ us) = ground (arith, count_if-keep id us)

count_if-rows :
    (id : String) (us : List User)
    → count_if (is_admin_row id) us + count_if (is_plain_row id) us ≡ count_if (has_id id) us
unfolding count_if
count_if-rows id [] = refl
count_if-rows id (u ∷ us) = ground (arith, count_if-rows id us)

-- A user who may leave leaves an administrator behind.
keep-positive :
    (u : User) (us : List User)
    → UniqueIds us
    → Mem u us
    → 0 < count_if is_approved_admin us
    → check_self_delete u (count_if is_approved_admin us) ≡ ""
    → 0 < count_if is_approved_admin (keep (λ v. not (has_id u.id v)) us)
unfolding check_self_delete
keep-positive u us unique m h e = elim (Bool-cases (is_approved_admin u)) [
  | inl admin ↦
      let more : 1 < count_if is_approved_admin us = ground (arith, eq_iff "last-admin" "") in
      omega (arith, more, count_if-keep u.id us, count_if-rows u.id us, unique u.id)
  | inr plain ↦
      let there : 0 < count_if (is_plain_row u.id) us =
        mem-count_if (is_plain_row u.id) us u m (ground (arith, eq_refl u.id)) in
      omega (arith, there, h, count_if-keep u.id us, count_if-rows u.id us, unique u.id)
]

-- What becomes of the users, in either way to end.
abbrev DeletedOrNot : User → World → World → Type 0
DeletedOrNot u w w' =
    (w'.db.users ≡ w.db.users)
    ⊎ ((w'.db.users ≡ keep (λ v. not (has_id u.id v)) w.db.users)
        × (check_self_delete u (count_if is_approved_admin w.db.users) ≡ ""))

module _ (r : Request) (u : User) (resp : Response) (w w' : World) where
  delete_self-next : delete_self r u w ≡ next resp w' → DeletedOrNot u w w'
  unfolding delete_self count_approved_admins delete_user_data delete_data_sql delete_cascade
      invalidate_auth create_system_log db_read db_write random_string now_unix
  delete_self-next e =
      ground (arith, eq_iff (check_self_delete u (count_if is_approved_admin w.db.users)) "")

  delete_self-halt : delete_self r u w ≡ halt resp w' → DeletedOrNot u w w'
  unfolding delete_self count_approved_admins delete_user_data delete_data_sql delete_cascade
      invalidate_auth create_system_log db_read db_write random_string now_unix
  delete_self-halt e =
      ground (arith, eq_iff (check_self_delete u (count_if is_approved_admin w.db.users)) "")

post_user-halt :
    (r : Request) (w w' : World) (resp : Response) → post_user r w ≡ halt resp w' → w'.db ≡ w.db
unfolding post_user open_store
post_user-halt r w w' resp e = ground (arith, session_user-db r w)

abbrev HasAdmin : {A : Type 0} → A → World → Type 0
HasAdmin _ w' = 0 < count_if is_approved_admin w'.db.users

DeletedOrNot-HasAdmin :
    (u : User) (resp : Response) (w w' : World)
    → UniqueIds w.db.users
    → Mem u w.db.users
    → HasAdmin resp w
    → DeletedOrNot u w w'
    → HasAdmin resp w'
DeletedOrNot-HasAdmin u resp w w' unique m h (inl same) = rw same h
DeletedOrNot-HasAdmin u resp w w' unique m h (inr (gone, allowed)) =
    rw gone (keep-positive u w.db.users unique m h allowed)

-- If the ids of users are unique and there is an approved administrator, one is left after a request
-- to delete one's own account, however it ends and whatever becomes of its statements.
pub account_delete-HasAdmin :
    (r : Request) (w : World)
    → UniqueIds w.db.users
    → 0 < count_if is_approved_admin w.db.users
    → Ends
        (λ _ w'. 0 < count_if is_approved_admin w'.db.users)
        (λ _ w'. 0 < count_if is_approved_admin w'.db.users)
        (account_delete r w)
unfolding account_delete
account_delete-HasAdmin r w unique h = Ends-bind HasAdmin HasAdmin (post_user r) (delete_self r) w (
    Ends-intro HasAdmin (λ u w₁. Ends HasAdmin HasAdmin (delete_self r u w₁)) (post_user r w)
      (λ resp w' e. rw (post_user-halt r w w' resp e) h)
      (λ u w₁ e.
        let (same, signed) = post_user-IsSignedIn r w w₁ u e in
        Ends-intro HasAdmin HasAdmin (delete_self r u w₁)
          (λ resp w' d.
            DeletedOrNot-HasAdmin u resp w₁ w' (rw same unique) (rw same signed.listed) (rw same h)
              (delete_self-halt r u resp w₁ w' d))
          (λ resp w' d.
            DeletedOrNot-HasAdmin u resp w₁ w' (rw same unique) (rw same signed.listed) (rw same h)
              (delete_self-next r u resp w₁ w' d))))
