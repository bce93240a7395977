-- ===== src/Session/SignIn.antt =====
-- About `Login` of internal/handler/session.go and the request to `/session/verify` that follows:
-- the cookie that the one sets is a credential for the other.
use sir_auth.Base.{
  ◌/◌, ◌≤◌, true, false, ◌==◌, ◌≡◌, refl, ◌∙◌, some, none, [], find, arith, ltb, sym, subst,
}
use sir_auth.Model.{User}
use sir_auth.World.{
  halt, World, next, Request, Response, Cookie, Claims, second, tick, open_store, db_read, now_ns,
  now_unix,
}
use sir_auth.Outcome.{Gives}
use sir_auth.Http.{method_not_allowed, session_cookie, session_ttl}
use sir_auth.Token.{generate_token, validate_access_token, sign_claims, parse_bearer_pat}
use sir_auth.Token.Laws.{new_claims, IsCodec, read_claims-sign_claims}
use sir_auth.Store.{has_id, has_email, get_user_by_email}
use sir_auth.Verify.Identities.{session_claims, of_user, admits_cookie}
use sir_auth.Verify.{identified, verify_session}
use sir_auth.Verify.Fresh.{IsUp, verify_session-admitted}
use sir_auth.Session.{login, login_get, login_post}

-- The claims of the cookie that a user is given at this moment.
abbrev pub cookie_claims_of : User → World → Claims
cookie_claims_of u w = new_claims u.id u.email u.role "session" (session_ttl w.outside) (tick w)

login_post-inv :
    (r : Request) (w w' : World) (resp : Response) (u : User)
    → login_post r w ≡ next resp w'
    → find (has_email (r.form "email")) w.db.users ≡ some u
    → (u.approved ≡ true)
      × (resp.cookie
          ≡ some (
              session_cookie w.outside
                (sign_claims w.outside (cookie_claims_of u w) (w.outside.getenv "JWT_SECRET"))
                (some (session_ttl w.outside / second))))
unfolding login_post open_store get_user_by_email db_read generate_token now_ns now_unix
login_post-inv r w w' resp u e found = ground arith

session_claims-signed :
    (q : Request) (v : World) (c : Claims)
    → IsCodec v.outside c
    → q.cookie "sir_session" ≡ some (sign_claims v.outside c (v.outside.getenv "JWT_SECRET"))
    → v.outside.clock v.calls / second ≤ c.exp
    → session_claims q v ≡ next (some c) (tick v)
unfolding session_claims validate_access_token
session_claims-signed q v c codec shown time =
    let fresh : ltb c.exp (v.outside.clock v.calls / second) ≡ false = ground (arith, time) in
    rw (shown, read_claims-sign_claims v.outside c (v.outside.getenv "JWT_SECRET") codec, fresh)
      refl

some_inj : {A : Type 0} {a b : A} → some a ≡ some b → a ≡ b
some_inj e = cc

login-login_post : (r : Request) (w : World) → r.method ≡ "POST" → login r w ≡ login_post r w
unfolding login
login-login_post r w post =
    subst
      (λ m.
        elim (m == "GET") [
          | true ↦ login_get r w
          | false ↦ elim (m == "POST") [ true ↦ login_post r w | false ↦ halt method_not_allowed w ]
        ]
        ≡ login_post r w)
      (sym post) refl

-- Signing in works: if a `POST` of the sign-in form with the address of a user goes through, and
-- then, while PostgreSQL answers, the table has the same row under the identifier of the user, no
-- user is cached and the cookie has not expired, a request sends this cookie and no personal access
-- token, it is let through as the user, provided that JSON and HMAC give bytes, the claims are read
-- back from their JSON, and the user has not ended all sessions after the time that the cookie
-- names.
pub login-verify_session :
    (r q : Request) (w w' v : World) (resp : Response) (k : Cookie) (u : User)
    → r.method ≡ "POST"
    → login r w ≡ next resp w'
    → find (has_email (r.form "email")) w.db.users ≡ some u
    → find (has_id u.id) v.db.users ≡ some u
    → resp.cookie ≡ some k
    → q.cookie k.name ≡ some k.value
    → parse_bearer_pat (q.header "Authorization") ≡ none
    → IsCodec w.outside (cookie_claims_of u w)
    → v.outside ≡ w.outside
    → v.outside.clock v.calls / second ≤ (cookie_claims_of u w).exp
    → u.sessions_valid_after ≤ (cookie_claims_of u w).iat
    → IsUp v
    → v.user_cache ≡ []
    → Gives (λ e _. e ≡ identified (of_user u none)) (verify_session q v)
login-verify_session r q w w' v resp k u post e found listed set_ sent no_token codec same_outside
      time began up none_cached =
    let c : Claims = cookie_claims_of u w in
    let (approved, cookie) =
      login_post-inv r w w' resp u (sym (login-login_post r w post) ∙ e) found in
    let same : session_cookie w.outside (sign_claims w.outside c (w.outside.getenv "JWT_SECRET"))
          (some (session_ttl w.outside / second))
        ≡ k =
      some_inj (sym cookie ∙ set_) in
    let shown : q.cookie "sir_session"
        ≡ some (sign_claims v.outside c (v.outside.getenv "JWT_SECRET")) =
      rw same_outside (subst (λ (x : Cookie). q.cookie x.name ≡ some x.value) (sym same) sent) in
    let admits : admits_cookie u c ≡ true = ground (arith, approved, began) in
    verify_session-admitted q v (tick v) c u up none_cached no_token
      (session_claims-signed q v c (rw same_outside codec) shown time) listed admits
