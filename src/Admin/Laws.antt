-- ===== src/Admin/Laws.antt =====
-- About `AdminAction` of internal/handler/admin.go and the administrators that it leaves.
use sir_auth.Base.{
  String, true, false, ◌≡◌, refl, ap, ◌∙◌, sym, ◌≢◌, ◌⊎◌, inl, inr, some, List, [], ◌∷◌, count_if,
  map, arith, eq_iff, Option-cases,
}
use sir_auth.Base.Rows.{Mem}
use sir_auth.Model.{User}
use sir_auth.Text.{concat}
use sir_auth.World.{
  World, Exit, halt, next, Request, Response, Result, failed, ok, ◌>>=◌, pure, db_read, open_store,
}
use sir_auth.Outcome.{Ends, Ends-intro, Ends-bind}
use sir_auth.Verify.Identities.{invalidate_auth}
use sir_auth.Store.{listed, is_approved_admin, create_system_log, list_users}
use sir_auth.Store.Audit.{create_system_log-frame, create_system_log-halt}
use sir_auth.Session.{session_user}
use sir_auth.Http.{redirect}
use sir_auth.Session.Guards.{session_user-IsSignedIn, session_user-db}
use sir_auth.Admin.{
  session_admin, admin_form, choose_target, act, finish_action, upper_action, perform, admin_action,
  action_of, refusal, find_last,
}
use sir_auth.Admin.Keeps.{
  HasAdmin, UniqueUsers, check_admin_action_self, perform-HasAdmin, perform-halt,
}

-- However the action ends, an approved administrator is left.
abbrev pub AdminLeft : {A : Type 0} → Exit A → Type 0
AdminLeft e = Ends (λ _ w'. HasAdmin w'.db.users) (λ _ w'. HasAdmin w'.db.users) e

-- After the statement, only the log is written.
finish_action-AdminLeft :
    (r : Request) (me target : User) (o : Result (Unit {0})) (w : World)
    → HasAdmin w.db.users
    → AdminLeft (finish_action r me target o w)
unfolding finish_action invalidate_auth
finish_action-AdminLeft r me target failed w h = h
finish_action-AdminLeft r me target (ok _) w h =
    let a = concat (upper_action (action_of r)) "_USER" in
    let d = concat "Admin " (concat (action_of r) (concat " via /admin: " target.email)) in
    let w₁ : World = record w { user_cache = []; token_cache = []; policy_cache = [] } in
    Ends-bind (λ _ w'. HasAdmin w'.db.users) (λ _ w'. HasAdmin w'.db.users)
      (create_system_log a target.id me.id d) (λ _. pure (redirect "/admin" 303)) w₁
      (Ends-intro (λ _ w'. HasAdmin w'.db.users) (λ _ w'. HasAdmin w'.db.users)
        (create_system_log a target.id me.id d w₁)
        (λ resp w' e. absurd (create_system_log-halt a target.id me.id d w₁ w' resp e))
        (λ x w' e. rw ((create_system_log-frame a target.id me.id d x w₁ w' e).0) h))

act-AdminLeft :
    (r : Request) (me target : User) (w : World)
    → Mem me w.db.users
    → is_approved_admin me ≡ true
    → (action_of r ≡ "approve") ⊎ (me.id ≢ target.id)
    → AdminLeft (act r me target w)
unfolding act
act-AdminLeft r me target w m a h =
    Ends-bind (λ _ w'. HasAdmin w'.db.users) (λ _ w'. HasAdmin w'.db.users)
      (perform (action_of r) target.id) (finish_action r me target) w
      (Ends-intro (λ _ w'. HasAdmin w'.db.users)
        (λ o w'. AdminLeft (finish_action r me target o w')) (perform (action_of r) target.id w)
        (λ resp w' e. absurd (perform-halt (action_of r) target.id w w' resp e))
        (λ o w' e.
          finish_action-AdminLeft r me target o w'
            (perform-HasAdmin (action_of r) me target w w' o m a h e)))

find_last-inv :
    (id : String) (us : List User) (t : User) → find_last id us ≡ some t → Mem t us × (t.id ≡ id)
unfolding find_last
find_last-inv id [] t e = cc
find_last-inv id (u ∷ us) t e = elim (Option-cases (find_last id us)) [
  | inl last ↦
      let here : (t ≡ u) × (t.id ≡ id) = ground (arith, eq_iff u.id id) in (inl here.0, here.1)
  | inr (v, later) ↦
      let same : v ≡ t = ground arith in
      let (m, k) = find_last-inv id us t (rw (← same) later) in (inr m, k)
]

-- The listed rows are those of the table, but for the columns that are not selected.
mem-listed :
    (us : List User) (t : User) → Mem t (map listed us) → (u : User) × Mem u us × (t ≡ listed u)
mem-listed [] t m = absurd m
mem-listed (u ∷ us) t (inl e) = (u, inl refl, e)
mem-listed (u ∷ us) t (inr m) = let (v, n, e) = mem-listed us t m in (v, inr n, e)

choose_target-inv :
    (r : Request) (me t : User) (w w' : World)
    → choose_target r me w ≡ next t w'
    → (w'.db ≡ w.db)
      × (find_last (r.form "id") (map listed w.db.users) ≡ some t)
      × (refusal r me t (map listed w.db.users) ≡ "")
unfolding choose_target list_users db_read
choose_target-inv r me t w w' e = ground (arith, eq_iff (refusal r me t (map listed w.db.users)) "")

choose_target-halt :
    (r : Request) (me : User) (w w' : World) (resp : Response)
    → choose_target r me w ≡ halt resp w'
    → w'.db ≡ w.db
unfolding choose_target list_users db_read
choose_target-halt r me w w' resp e = ground arith

-- The target of an allowed action other than approval is not who asks.
choose_target-safe :
    (r : Request) (me t : User) (us : List User)
    → UniqueUsers us
    → Mem me us
    → me.approved ≡ true
    → find_last (r.form "id") (map listed us) ≡ some t
    → refusal r me t (map listed us) ≡ ""
    → (action_of r ≡ "approve") ⊎ (me.id ≢ t.id)
choose_target-safe r me t us unique m a found allowed =
    let (v, n, t_is) = mem-listed us t (find_last-inv (r.form "id") (map listed us) t found).0 in
    elim (check_admin_action_self (action_of r) me.id t (count_if is_approved_admin (map listed us))
      allowed) [
        | inl approves ↦ inl approves
        | inr (inl (_, pending)) ↦ inr (λ same.
            let me_is : me ≡ v = unique me v m n (same ∙ ap (λ (x : User). x.id) t_is) in
            let v_pending : v.approved ≡ false =
              rw (ap (λ (x : User). x.approved) t_is) at pending in
            absurd (ground arith))
        | inr (inr other) ↦ inr (λ same. other (sym same))
      ]

-- Who passes the guards of the form is the signed-in user, and an administrator.
admin_form-user :
    (r : Request) (me : User) (w w' : World)
    → admin_form r w ≡ next me w'
    → (session_user r w ≡ next me w') × (me.role ≡ "admin")
unfolding admin_form session_admin open_store
admin_form-user r me w w' e = ground (arith, eq_iff me.role "admin")

admin_form-inv :
    (r : Request) (me : User) (w w' : World)
    → admin_form r w ≡ next me w'
    → (w'.db ≡ w.db) × Mem me w.db.users × (is_approved_admin me ≡ true)
admin_form-inv r me w w' e =
    let (is_user, role) = admin_form-user r me w w' e in
    let (same, signed) = session_user-IsSignedIn r w w' me is_user in
    (same, signed.listed, ground (arith, signed.approved, eq_iff me.role "admin"))

admin_form-halt :
    (r : Request) (w w' : World) (resp : Response) → admin_form r w ≡ halt resp w' → w'.db ≡ w.db
unfolding admin_form session_admin open_store
admin_form-halt r w w' resp e = ground (arith, session_user-db r w)

abbrev Left : {A : Type 0} → A → World → Type 0
Left _ w' = HasAdmin w'.db.users

chosen-AdminLeft :
    (r : Request) (me : User) (w : World)
    → UniqueUsers w.db.users
    → Mem me w.db.users
    → is_approved_admin me ≡ true
    → AdminLeft ((choose_target r me >>= act r me) w)
chosen-AdminLeft r me w unique m a = Ends-bind Left Left (choose_target r me) (act r me) w (
    Ends-intro Left (λ t w'. AdminLeft (act r me t w')) (choose_target r me w)
      (λ resp w' e. rw (choose_target-halt r me w w' resp e) (me, m, a))
      (λ t w' e.
        let (same, found, allowed) = choose_target-inv r me t w w' e in
        act-AdminLeft r me t w' (rw same m) a
          (choose_target-safe r me t w.db.users unique m (ground arith) found allowed)))

-- Whatever is posted to the admin pages, allowed or refused, and whatever becomes of the statements
-- sent to the database: if there is an approved administrator and the ids of users are unique, an
-- approved administrator is left.
pub admin_action-HasAdmin :
    (r : Request) (w : World)
    → UniqueUsers w.db.users
    → HasAdmin w.db.users
    → AdminLeft (admin_action r w)
unfolding admin_action
admin_action-HasAdmin r w unique h =
    Ends-bind Left Left (admin_form r) (λ me. choose_target r me >>= act r me) w
      (Ends-intro Left (λ me w₁. AdminLeft ((choose_target r me >>= act r me) w₁)) (admin_form r w)
        (λ resp w' e. rw (admin_form-halt r w w' resp e) h)
        (λ me w' e.
          let (same, m, a) = admin_form-inv r me w w' e in
          chosen-AdminLeft r me w' (rw same unique) (rw same m) a))
