-- ===== src/Admin/Keeps.antt =====
-- About `checkAdminAction` and the statements of `AdminAction` (internal/handler/admin.go).
use sir_auth.Base.{
  ℕ, String, true, false, not, ◌==◌, ◌≡◌, refl, ◌≢◌, ◌⊎◌, inl, inr, List, [], ◌∷◌, update_if, arith,
  eq_iff, Bool-cases,
}
use sir_auth.Base.Rows.{Mem, mem-keep, mem-update_if}
use sir_auth.Model.{User}
use sir_auth.Text.{concat}
use sir_auth.Text.Lemmas.{concat-empty}
use sir_auth.World.{World, Db, halt, next, Response, Result, db_write}
use sir_auth.Outcome.{db_write-db}
use sir_auth.Store.{
  has_id, set_approved, is_approved_admin, set_user_approved, delete_user_data, delete_data_sql,
  delete_cascade,
}
use sir_auth.Admin.{perform, check_admin_action}

-- Some approved administrator is left.
abbrev pub HasAdmin : List User → Type 0
HasAdmin us = (u : User) × Mem u us × (is_approved_admin u ≡ true)

-- The primary key of the users.
abbrev pub UniqueUsers : List User → Type 0
UniqueUsers us = (u v : User) → Mem u us → Mem v us → u.id ≡ v.id → u ≡ v

-- A refusal says something.
refusal-ne-empty : (action why : String) → concat "You cannot " (concat action why) ≢ ""
refusal-ne-empty action why e =
    ground (arith, concat-empty "You cannot " (concat action why) e, eq_iff "You cannot " "")

-- An action that is allowed on a target cannot be one that removes who asks for it.
pub check_admin_action_self :
    (action self_id : String) (target : User) (n : ℕ)
    → check_admin_action action self_id target n ≡ ""
    → (action ≡ "approve")
      ⊎ ((action ≡ "reject") × (target.approved ≡ false))
      ⊎ (target.id ≢ self_id)
unfolding check_admin_action
check_admin_action_self action self_id target n e = ground (
  arith,
  eq_iff action "approve",
  eq_iff action "reject",
  eq_iff target.id self_id,
  refusal-ne-empty action " your own account.",
  eq_iff "Only pending users can be rejected." "",
  eq_iff "Unknown action." "",
)

-- Deleting another user keeps a user's row.
delete-keeps :
    (id : String) (u : User) (d : Db)
    → Mem u d.users
    → u.id ≢ id
    → Mem u (delete_data_sql id d).users
unfolding delete_data_sql delete_cascade
delete-keeps id u d m ne =
    mem-keep (λ v. not (has_id id v)) d.users u m (ground (arith, eq_iff u.id id))

raise : (u : User) → is_approved_admin u ≡ true → is_approved_admin (set_approved true u) ≡ true
raise u a = ground arith

approve-keeps :
    (id : String) (u : User) (us : List User)
    → Mem u us
    → is_approved_admin u ≡ true
    → HasAdmin (update_if (has_id id) (set_approved true) us)
unfolding update_if
approve-keeps id u (x ∷ us) (inl e) a = elim (Bool-cases (has_id id x)) [
  | inl h ↦ rw h (set_approved true x, inl refl, rw e at (raise u a))
  | inr h ↦ rw h (u, inl e, a)
]
approve-keeps id u (x ∷ us) (inr m) a = let (v, n, b) = approve-keeps id u us m a in (v, inr n, b)
approve-keeps id u [] m a = absurd m

disapprove-keeps :
    (id : String) (u : User) (us : List User)
    → Mem u us
    → u.id ≢ id
    → Mem u (update_if (has_id id) (set_approved false) us)
disapprove-keeps id u us m ne =
    mem-update_if (has_id id) (set_approved false) us u m (ground (arith, eq_iff u.id id))

-- The statement that an action sends leaves an approved administrator, whatever becomes of it.
pub perform-HasAdmin :
    (action : String) (me target : User) (w w' : World) (o : Result (Unit {0}))
    → Mem me w.db.users
    → is_approved_admin me ≡ true
    → (action ≡ "approve") ⊎ (me.id ≢ target.id)
    → perform action target.id w ≡ next o w'
    → HasAdmin w'.db.users
unfolding perform set_user_approved delete_user_data
perform-HasAdmin action me target w w' o m a h e = elim (Bool-cases (action == "approve")) [
  | inl yes_approve ↦
      elim (db_write-db
        (λ d. record d { users = update_if (has_id target.id) (set_approved true) d.users }) w w' o
        (rw (yes_approve, perform) at e)) [
          | inl same ↦ rw same (me, m, a)
          | inr done ↦ rw done (approve-keeps target.id me w.db.users m a)
        ]
  | inr no_approve ↦
      let ne : me.id ≢ target.id = ground (arith, eq_iff action "approve") in
      elim (Bool-cases (action == "revoke")) [
        | inl yes_revoke ↦
            elim (db_write-db
              (λ d. record d { users = update_if (has_id target.id) (set_approved false) d.users })
              w w' o (rw yes_revoke at (rw (no_approve, perform) at e))) [
                | inl same ↦ rw same (me, m, a)
                | inr done ↦ rw done (me, disapprove-keeps target.id me w.db.users m ne, a)
              ]
        | inr no_revoke ↦
            elim (db_write-db (delete_data_sql target.id) w w' o
              (rw no_revoke at (rw (no_approve, perform) at e))) [
                | inl same ↦ rw same (me, m, a)
                | inr done ↦ rw done (me, delete-keeps target.id me w.db m ne, a)
              ]
      ]
]

pub perform-halt :
    (action id : String) (w w' : World) (resp : Response) → perform action id w ≢ halt resp w'
unfolding perform set_user_approved delete_user_data db_write
perform-halt action id w w' resp e = ground arith
