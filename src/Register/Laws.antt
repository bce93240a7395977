-- ===== src/Register/Laws.antt =====
-- About the accounts that `Register` and `AdminUsers` of internal/handler/user.go and `Setup` of
-- internal/handler/setup.go make.
use sir_auth.Base.{
  arith, eq_iff, ◌≢◌, ◌⊎◌, String, Bool, true, false, not, ◌==◌, ◌||◌, ◌≡◌, refl, List, ◌∷◌, any,
  inl, inr, Bool-cases,
}
use sir_auth.Model.{User, SystemLog}
use sir_auth.World.{Db, World, Request, Response, Claims, M, halt}
use sir_auth.Outcome.{Ends-mono, OnSuccess}
use sir_auth.Store.{
  create_user, insert_user, has_id, has_email, is_role, create_system_log, insert_log,
}
use sir_auth.Register.{add_user, new_user}
use sir_auth.Api.{make_user, admin_users, role_or_user}
use sir_auth.Integrity.{Keeps, KeepsSql}
use sir_auth.Integrity.Rules.{
  keeping, write-Keeps, hash_password-Keeps, or_stop-Keeps, random_string-Keeps, now_unix-Keeps,
  stop_if-Keeps, open_store-Keeps,
}
use sir_auth.Integrity.Reads.{with_id-Keeps}
use sir_auth.Integrity.Triples.{
  Yields, bind-Yields, skip-Yields, skip_then, pure-Yields, IfOk, or_stop-Yields, WritesTo,
  write-Yields, on_ok-Yields,
}

-- One row more, and the others as they were.
pub record IsAdded (email role : String) (approved : Bool) (us us' : List User) : Type 0 where
  pub row : User
  pub rows : us' ≡ row ∷ us
  pub same_email : row.email ≡ email
  pub same_role : row.role ≡ role
  pub same_approved : row.approved ≡ approved

abbrev pub Users : List User → Db → Type 0
Users us d = d.users ≡ us

abbrev pub Added : (email role : String) → Bool → List User → Db → Type 0
Added email role b us d = IsAdded email role b us d.users

insert_user_writes :
    (u : User) (us : List User)
    → WritesTo (Users us) (Added u.email u.role u.approved us) (insert_user u)
unfolding insert_user
insert_user_writes u us d e =
    elim (Bool-cases
      (any (has_id u.id) d.users || any (has_email u.email) d.users || not (is_role u.role))) [
        | inl bad ↦ rw bad tt
        | inr good ↦
            let added : IsAdded u.email u.role u.approved us (u ∷ d.users) = record {
              row = u;
              rows = rw e refl;
              same_email = refl;
              same_role = refl;
              same_approved = refl;
            } in
            rw good added
      ]

create_user-Yields :
    (u : User) (us : List User)
    → Yields (Users us) (IfOk (Added u.email u.role u.approved us)) (create_user u)
unfolding create_user
create_user-Yields u us =
    skip-Yields (with_id-Keeps 16 u.id)
      (λ o. on_ok-Yields o (λ i. write-Yields _ (insert_user_writes (record u { id = i }) us)))

insert_log-Keeps :
    (P : List User → Type 0) (l : SystemLog) → KeepsSql (λ d. P d.users) (insert_log l)
unfolding insert_log
insert_log-Keeps P l d p = elim (Bool-cases (any (λ (k : SystemLog). k.id == l.id) d.system_logs)) [
  | inl e ↦ rw e tt
  | inr e ↦ rw e p
]

pub add_user-Yields :
    (email password role : String) (b : Bool) (x y : Response) (us : List User)
    → Yields (Users us) (λ _. Added email role b us) (add_user email password role b x y)
unfolding add_user
add_user-Yields email password role b x y us = skip-Yields (hash_password-Keeps password) (λ h.
    skip-Yields (or_stop-Keeps h x) (λ hash. skip-Yields (random_string-Keeps 16) (λ drawn.
      skip-Yields (or_stop-Keeps drawn x) (λ id. skip-Yields now_unix-Keeps (λ now.
        bind-Yields (create_user-Yields (new_user id email hash role now b) us) (λ made.
          bind-Yields {Q = λ _. Added email role b us} (or_stop-Yields made y)
            (λ _. pure-Yields (λ _ p. p))))))))

-- The log has its own table.
pub log-Keeps :
    (P : List User → Type 0) (a t m s : String) → Keeps (λ d. P d.users) (create_system_log a t m s)
unfolding create_system_log
log-Keeps P a t m s = search (keeping, with_id-Keeps, write-Keeps, insert_log-Keeps P)

make_user-Yields :
    (c : Claims) (r : Request) (us : List User)
    → Yields
        (Users us)
        (λ _. Added (r.json "email") (role_or_user (r.json "role")) true us)
        (make_user c r)
unfolding make_user
make_user-Yields c r us = skip_then (stop_if-Keeps _ _) (
    bind-Yields
      (add_user-Yields (r.json "email") (r.json "password") (role_or_user (r.json "role")) true _ _
        us)
      (λ u. skip-Yields (log-Keeps _ _ _ _ _) (λ _. pure-Yields (λ _ p. p))))

-- A request that is neither answered by the list nor refused for its method.
posted :
    {P : Db → Type 0} {N : Response → Db → Type 0} {m : M Response} (a b : Bool) (g : M Response)
    (x : Response)
    → a ≡ false
    → b ≡ true
    → Yields P N m
    → Yields P N (λ w. elim a [ true ↦ g w | false ↦ elim b [ true ↦ m w | false ↦ halt x w ] ])
posted false true g x h k y = record { yields = λ w p. y.yields w p }
posted true b g x h k y = cc
posted false false g x h k y = cc

admin_users-Yields :
    (c : Claims) (r : Request) (us : List User)
    → r.method ≡ "POST"
    → Yields
        (Users us)
        (λ _. Added (r.json "email") (role_or_user (r.json "role")) true us)
        (admin_users c r)
unfolding admin_users
admin_users-Yields c r us h = skip-Yields open_store-Keeps (λ s. skip_then (or_stop-Keeps s _) (
    posted (r.method == "GET") (r.method == "POST") _ _ (rw h refl) (rw h refl)
      (make_user-Yields c r us)))

-- An administrator is made where one is asked for by name; any other word makes a user.
abbrev pub IsRoleFor : (asked role : String) → Type 0
IsRoleFor asked role =
    ((asked ≡ "admin") × (role ≡ "admin")) ⊎ ((asked ≢ "admin") × (role ≡ "user"))

role_or_user-IsRoleFor : (asked : String) → IsRoleFor asked (role_or_user asked)
role_or_user-IsRoleFor asked = elim (Bool-cases (asked == "admin")) [
  | inl y ↦ inl ((eq_iff asked "admin").0 y, ground (arith, eq_iff asked "admin"))
  | inr n ↦ inr ((λ e. ground (arith, eq_iff asked "admin")), ground (arith, eq_iff asked "user"))
]

-- Whatever role the claims have, a `POST` of users that goes through has added one row: approved, with
-- the address of the request, and with the role of an administrator exactly if the request asks for
-- `admin`, and of a user otherwise.
pub admin_users-IsAdded :
    (c : Claims) (r : Request) (w : World)
    → r.method ≡ "POST"
    → OnSuccess
        (λ _ v.
          (role : String) × IsRoleFor (r.json "role") role
          × IsAdded (r.json "email") role true w.db.users v.db.users)
        (admin_users c r w)
admin_users-IsAdded c r w h =
    Ends-mono (admin_users c r w) (λ _ _ _. tt)
      (λ _ _ added. (role_or_user (r.json "role"), role_or_user-IsRoleFor (r.json "role"), added))
      ((admin_users-Yields c r w.db.users h).yields w refl)
