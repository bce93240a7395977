-- ===== src/Api/Laws.antt =====
-- About `GetUser` of internal/handler/user.go behind `AuthMiddleware` of internal/middleware/auth.go.
use sir_auth.Base.{
  arith, true, false, ◌==◌, ◌&&◌, not, ◌≡◌, ◌⊎◌, inl, inr, String, Option, none, some, find, eq_iff,
  Bool-cases, Option-cases, Bool, refl, sym,
}
use sir_auth.Base.Rows.{Mem, find-mem, find_sound}
use sir_auth.Model.{User}
use sir_auth.Text.{chars, string, has_prefix, trim_prefix}
use sir_auth.World.{
  World, Request, Response, Claims, M, next, stop_if, some_or_stop, db_read, open_store, user_json,
  ◌>>=◌, ◌>>◌,
}
use sir_auth.Outcome.{>>=-eq-next}
use sir_auth.Http.{json_response, write_error}
use sir_auth.Token.{validate_access_token}
use sir_auth.Store.{get_user_by_id, has_id}
use sir_auth.Middleware.{chain, auth_middleware, with_claims}
use sir_auth.Api.{get_user, user_path}
use sir_auth.Server.{behind_token}

abbrev pub bearer : Request → String
bearer r = string (trim_prefix (chars (r.header "Authorization")) (chars "Bearer "))

-- The caller, by the signed claims of its token, and the row that it is shown.
pub record IsShownUser (r : Request) (w : World) (resp : Response) : Type 0 where
  pub claims : Claims
  pub after : World
  pub signed :
      validate_access_token (bearer r) (w.outside.getenv "JWT_SECRET") w ≡ next (some claims) after
  pub allowed : (claims.role ≡ "admin") ⊎ (claims.sub ≡ user_path r)
  pub row : User
  pub listed : Mem row w.db.users
  pub asked : row.id ≡ user_path r
  pub shown : resp ≡ json_response 200 (user_json row.id row.email row.role row.created_at)

abbrev user_answer : User → Response
user_answer u = json_response 200 (user_json u.id u.email u.role u.created_at)

get_user-some :
    (c : Claims) (r : Request) (w w' : World) (resp : Response) (u : User)
    → find (has_id (user_path r)) w.db.users ≡ some u
    → get_user c r w ≡ next resp w'
    → ((not (c.role == "admin") && not (c.sub == user_path r)) ≡ false) × (resp ≡ user_answer u)
unfolding get_user open_store get_user_by_id db_read
get_user-some c r w w' resp u f e = ground arith

get_user-none :
    (c : Claims) (r : Request) (w w' : World) (resp : Response)
    → find (has_id (user_path r)) w.db.users ≡ none
    → get_user c r w ≡ next resp w'
    → ⊥
unfolding get_user open_store get_user_by_id db_read
get_user-none c r w w' resp f e = ground arith

may_see :
    (role sub id : String)
    → (not (role == "admin") && not (sub == id)) ≡ false
    → (role ≡ "admin") ⊎ (sub ≡ id)
may_see role sub id e = elim (Bool-cases (role == "admin")) [
  | inl a ↦ inl ((eq_iff role "admin").0 a)
  | inr n ↦ inr ((eq_iff sub id).0 (ground arith))
]

validate-db :
    (raw secret : String) (w w' : World) (c : Option Claims)
    → validate_access_token raw secret w ≡ next c w'
    → w'.db ≡ w.db
unfolding validate_access_token
validate-db raw secret w w' c e = ground arith

stop_if-next :
    {A : Type 0} (b : Bool) (x : Response) (m : M A) (w w' : World) (a : A)
    → (stop_if b x >> m) w ≡ next a w'
    → m w ≡ next a w'
stop_if-next true x m w w' a e = cc
stop_if-next false x m w w' a e = e

some_or_stop-next :
    {A B : Type 0} (o : Option A) (x : Response) (f : A → M B) (w w' : World) (b : B)
    → (some_or_stop o x >>= f) w ≡ next b w'
    → (a : A) × (o ≡ some a) × (f a w ≡ next b w')
some_or_stop-next none x f w w' b e = cc
some_or_stop-next (some a) x f w w' b e = (a, refl, e)

auth-inv :
    (h : Claims → Request → M Response) (r : Request) (w w' : World) (resp : Response)
    → behind_token h none r w ≡ next resp w'
    → (c : Claims) × (v : World) × (validate_access_token
          (bearer r)
          (w.outside.getenv "JWT_SECRET")
          w
        ≡ next (some c) v)
      × (h c r v ≡ next resp w')
unfolding auth_middleware chain
auth-inv h r w w' resp e =
    let valid = validate_access_token (bearer r) (w.outside.getenv "JWT_SECRET") in
    let admit : Option Claims → M Response = λ claims.
      some_or_stop claims (write_error "invalid token: " 401) >>= λ c. with_claims h (some c) r in
    let (o, v, k, l) = >>=-eq-next valid admit w (
      stop_if-next (not (has_prefix (chars (r.header "Authorization")) (chars "Bearer ")))
        (write_error "missing or invalid authorization header" 401)
        (λ v. (validate_access_token (bearer r) (v.outside.getenv "JWT_SECRET") >>= admit) v) w w'
        resp e) in
    let (c, is_c, m) =
      some_or_stop-next o (write_error "invalid token: " 401) (λ c. with_claims h (some c) r) v w'
        resp l in
    (c, v, rw (sym is_c) k, m)

-- Behind `AuthMiddleware`, `GetUser` answers with an account only to a caller whose bearer token has a
-- valid signature and has not expired, and only the account whose id the path names: one that the
-- caller's claims have as their subject, or any if they have the role of an administrator.
pub get_user-IsShownUser :
    (r : Request) (w w' : World) (resp : Response)
    → behind_token get_user none r w ≡ next resp w'
    → IsShownUser r w resp
get_user-IsShownUser r w w' resp e =
    let (c, v, signed, k) = auth-inv get_user r w w' resp e in
    let same = validate-db (bearer r) (w.outside.getenv "JWT_SECRET") w v (some c) signed in
    elim (Option-cases (find (has_id (user_path r)) v.db.users)) [
      | inl missing ↦ absurd (get_user-none c r v w' resp missing k)
      | inr (u, there) ↦
          let (allowed, shown) = get_user-some c r v w' resp u there k in
          let found : find (has_id (user_path r)) w.db.users ≡ some u = cc in
          record {
            claims = c;
            after = v;
            signed = signed;
            allowed = may_see c.role c.sub (user_path r) allowed;
            row = u;
            listed = find-mem (has_id (user_path r)) w.db.users u found;
            asked =
                (eq_iff u.id (user_path r)).0
                  (find_sound (has_id (user_path r)) w.db.users u found);
            shown = shown;
          }
    ]
