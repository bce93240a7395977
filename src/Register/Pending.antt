-- ===== src/Register/Pending.antt =====
-- About `Register` of internal/handler/user.go: whom it lets in, which is nobody yet.
use sir_auth.Base.{
  String, true, false, not, ◌==◌, ◌||◌, ◌≡◌, refl, List, [], ◌∷◌, any, ◌⊎◌, inl, inr, Bool-cases,
}
use sir_auth.Base.Rows.{Mem, All}
use sir_auth.Model.{User, SystemLog}
use sir_auth.World.{Db, World, Request, Response, next}
use sir_auth.Outcome.{Ends}
use sir_auth.Store.{
  create_user, insert_user, has_id, has_email, is_role, create_system_log, insert_log,
}
use sir_auth.Register.{add_user, register_json, register_form, register, is_form}
use sir_auth.Integrity.{Keeps, KeepsSql}
use sir_auth.Integrity.Rules.{keeping, write-Keeps, test-Keeps, pure-Keeps}
use sir_auth.Integrity.Reads.{with_id-Keeps}

-- A row that was there, or one that waits for approval and is no administrator's.
abbrev IsOldOrPending : List User → User → Type 0
IsOldOrPending us u = Mem u us ⊎ ((u.role ≡ "user") × (u.approved ≡ false))

abbrev pub OldOrPending : List User → Db → Type 0
OldOrPending us d = All (IsOldOrPending us) d.users

insert_pending-Keeps :
    (us : List User) (u : User)
    → u.role ≡ "user"
    → u.approved ≡ false
    → KeepsSql (OldOrPending us) (insert_user u)
unfolding insert_user
insert_pending-Keeps us u r a d p =
    elim (Bool-cases
      (any (has_id u.id) d.users || any (has_email u.email) d.users || not (is_role u.role))) [
        | inl bad ↦ rw bad tt
        | inr good ↦ rw good (inr (r, a), p)
      ]

insert_log-Keeps : (us : List User) (l : SystemLog) → KeepsSql (OldOrPending us) (insert_log l)
unfolding insert_log
insert_log-Keeps us l d p =
    elim (Bool-cases (any (λ (k : SystemLog). k.id == l.id) d.system_logs)) [
      | inl e ↦ rw e tt
      | inr e ↦ rw e p
    ]

module _ (us : List User) where
  create_pending-Keeps :
      (u : User) → u.role ≡ "user" → u.approved ≡ false → Keeps (OldOrPending us) (create_user u)
  unfolding create_user
  create_pending-Keeps u r a =
      search (keeping, with_id-Keeps, write-Keeps, insert_pending-Keeps us, r, a)

  log-Keeps : (a t m s : String) → Keeps (OldOrPending us) (create_system_log a t m s)
  unfolding create_system_log
  log-Keeps a t m s = search (keeping, with_id-Keeps, write-Keeps, insert_log-Keeps us)

  add_pending-Keeps :
      (e p : String) (x y : Response) → Keeps (OldOrPending us) (add_user e p "user" false x y)
  unfolding add_user
  add_pending-Keeps e p x y = search (keeping, create_pending-Keeps) depth 30

  register_json-Keeps : (r : Request) → Keeps (OldOrPending us) (register_json r)
  unfolding register_json
  register_json-Keeps r = search (keeping, add_pending-Keeps, log-Keeps) depth 30

  register_form-Keeps : (r : Request) → Keeps (OldOrPending us) (register_form r)
  unfolding register_form
  register_form-Keeps r = search (keeping, add_pending-Keeps, log-Keeps) depth 30

  by_content-Keeps :
      (r : Request) (p : Response)
      → Keeps (OldOrPending us) (λ w. elim (r.method == "GET") [
        | true ↦ next p w
        | false ↦ elim (is_form r) [ true ↦ register_form r w | false ↦ register_json r w ]
      ])
  by_content-Keeps r p =
      test-Keeps (r.method == "GET") pure-Keeps
        (test-Keeps (is_form r) (register_form-Keeps r) (register_json-Keeps r))

  register-Keeps : (r : Request) → Keeps (OldOrPending us) (register r)
  unfolding register
  register-Keeps r = search (keeping, by_content-Keeps) depth 20

All-old : (us vs : List User) → ((u : User) → Mem u vs → Mem u us) → All (IsOldOrPending us) vs
All-old us [] h = tt
All-old us (v ∷ vs) h = (inl (h v (inl refl)), All-old us vs (λ u m. h u (inr m)))

-- However registration ends, errors and lost answers of the database included, each row of the users is
-- one that was there before, or it has the role of a user and waits for approval.
pub register-OldOrPending :
    (r : Request) (w : World)
    → Ends
        (λ _ v. OldOrPending w.db.users v.db)
        (λ _ v. OldOrPending w.db.users v.db)
        (register r w)
register-OldOrPending r w =
    (register-Keeps w.db.users r).kept w (All-old w.db.users w.db.users (λ u m. m))
