-- ===== src/Session/Guards.antt =====
-- About the guards of internal/handler/session.go and internal/handler/ui.go: who passes them.
use sir_auth.Base.{◌≤◌, true, ◌≡◌, refl, Option, none, some, find, arith, eq_iff}
use sir_auth.Base.Rows.{Mem, find-mem, find_sound}
use sir_auth.Model.{User}
use sir_auth.World.{World, halt, next, Request, Response, Claims, ◌>>=◌, db_read, some_or_stop}
use sir_auth.Outcome.{Ends, Ends-mono, Ends-intro, >>=-eq-next}
use sir_auth.Token.{validate_access_token}
use sir_auth.Store.{has_id, get_user_by_id}
use sir_auth.Verify.Identities.{session_claims}
use sir_auth.Session.{session_user, admitted, session_row, to_login}

-- The user of a request: the row of the signed subject, approved, and signed in since.
pub record IsSignedIn (r : Request) (w : World) (u : User) : Type 0 where
  pub claims : Claims
  pub after : World
  pub signed : session_claims r w ≡ next (some claims) after
  pub found : find (has_id claims.sub) w.db.users ≡ some u
  pub listed : Mem u w.db.users
  pub subject : u.id ≡ claims.sub
  pub approved : u.approved ≡ true
  pub since : u.sessions_valid_after ≤ claims.iat

session_claims-db :
    (r : Request) (w w' : World) (c : Option Claims) → session_claims r w ≡ next c w' → w'.db ≡ w.db
unfolding session_claims validate_access_token
session_claims-db r w w' c e = ground arith

session_row-inv :
    (c : Claims) (w w' : World) (o : Option User)
    → session_row (some c) w ≡ next o w'
    → (w'.db ≡ w.db) × (o ≡ find (has_id c.sub) w.db.users)
unfolding get_user_by_id db_read
session_row-inv c w w' o e = ground arith

admitted-inv :
    (c : Option Claims) (o : Option User) (u : User)
    → admitted c o ≡ some u
    → (x : Claims) × (c ≡ some x)
      × (o ≡ some u)
      × (u.approved ≡ true)
      × (u.sessions_valid_after ≤ x.iat)
admitted-inv none o u e = cc
admitted-inv (some c) none u e = cc
admitted-inv (some c) (some v) u e = (c, refl, ground arith, ground arith, ground arith)

some_or_stop-inv :
    {A : Type 0} (o : Option A) (r : Response) (w w' : World) (a : A)
    → some_or_stop o r w ≡ next a w'
    → (o ≡ some a) × (w' ≡ w)
some_or_stop-inv none r w w' a e = cc
some_or_stop-inv (some b) r w w' a e = (cc, cc)

session_user-step :
    (r : Request) (c : Option Claims) (o : Option User) (w w₁ w₂ w' : World) (u : User)
    → session_claims r w ≡ next c w₁
    → session_row c w₁ ≡ next o w₂
    → admitted c o ≡ some u
    → w' ≡ w₂
    → (w'.db ≡ w.db) × IsSignedIn r w u
session_user-step r none o w w₁ w₂ w' u s row e same = cc
session_user-step r (some c) o w w₁ w₂ w' u s row e same =
    let (x, is_x, is_u, approved, since) = admitted-inv (some c) o u e in
    let (db₂, o_is) = session_row-inv c w₁ w₂ o row in
    let db₁ = session_claims-db r w w₁ (some c) s in
    let found : find (has_id c.sub) w.db.users ≡ some u = cc in
    (
      cc,
      record {
        claims = c;
        after = w₁;
        signed = s;
        found = found;
        listed = find-mem (has_id c.sub) w.db.users u found;
        subject = (eq_iff u.id c.sub).0 (find_sound (has_id c.sub) w.db.users u found);
        approved = approved;
        since = ground arith;
      },
    )

pub session_user-IsSignedIn :
    (r : Request) (w w' : World) (u : User)
    → session_user r w ≡ next u w'
    → (w'.db ≡ w.db) × IsSignedIn r w u
unfolding session_user
session_user-IsSignedIn r w w' u e =
    let (c, w₁, s, k₁) =
      >>=-eq-next (session_claims r)
        (λ c. session_row c >>= λ o. some_or_stop (admitted c o) (to_login r)) w e in
    let (o, w₂, row, k₂) =
      >>=-eq-next (session_row c) (λ o. some_or_stop (admitted c o) (to_login r)) w₁ k₁ in
    let (is_u, same) = some_or_stop-inv (admitted c o) (to_login r) w₂ w' u k₂ in
    session_user-step r c o w w₁ w₂ w' u s row is_u same

-- No way to be turned away changes a table.
pub session_user-halt :
    (r : Request) (w w' : World) (resp : Response) → session_user r w ≡ halt resp w' → w'.db ≡ w.db
unfolding session_user session_claims validate_access_token get_user_by_id db_read
session_user-halt r w w' resp e = ground arith

-- However the guard of the pages ends, no table has changed; and a user whom it lets through is the
-- row, as it is in the table now, of the subject of a validly signed cookie, approved, and has not
-- signed out since the cookie was made.
pub session_user-guards :
    (r : Request) (w : World)
    → Ends (λ _ w'. w'.db ≡ w.db) (λ u w'. (w'.db ≡ w.db) × IsSignedIn r w u) (session_user r w)
session_user-guards r w =
    Ends-intro (λ _ w'. w'.db ≡ w.db) (λ u w'. (w'.db ≡ w.db) × IsSignedIn r w u) (session_user r w)
      (λ resp w' e. session_user-halt r w w' resp e) (λ u w' e. session_user-IsSignedIn r w w' u e)

pub session_user-db :
    (r : Request) (w : World)
    → Ends (λ _ w'. w'.db ≡ w.db) (λ _ w'. w'.db ≡ w.db) (session_user r w)
session_user-db r w =
    Ends-mono (session_user r w) (λ _ _ h. h) (λ _ _ h. h.0) (session_user-guards r w)
