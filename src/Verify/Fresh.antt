-- ===== src/Verify/Fresh.antt =====
-- About `VerifySession` of internal/handler/verify.go just after a change: with emptied caches it
-- answers from the tables.
use sir_auth.Base.{
  ◌∙◌, subst, sym, ◌⊎◌, ℕ, String, true, false, ◌≡◌, refl, Option, none, some, [], find, arith,
  eq_iff,
}
use sir_auth.Base.Rows.{All, All-mem, find-mem, find_sound}
use sir_auth.Model.{User}
use sir_auth.World.{
  World, next, ok, Request, Response, Claims, pure, db_read, open_store, now_ns, Fate,
}
use sir_auth.Outcome.{Ends, Gives, Ends-bind, Ends-mono}
use sir_auth.Store.{has_id, get_user_by_id, get_route_policy}
use sir_auth.Token.{validate_access_token, parse_bearer_pat}
use sir_auth.Cache
use sir_auth.Cache.{lookup}
use sir_auth.Verify.Identities.{
  of_user, session_claims, cookie_claims, cookie_identity, user_cache, load_user, Identity,
  cookie_user, admits_cookie, host_public, load_policy,
}
use sir_auth.Verify.{
  identified, anonymous, unauthorized, answer, answer_token, by_credential, verify_session,
  log_request,
}
use sir_auth.Usage.{log_usage}

-- PostgreSQL can be reached, and answers.
pub record IsUp (w : World) : Type 0 where
  pub opens : w.outside.opens ≡ true
  pub answered : (n : ℕ) → w.outside.fate n ≡ Fate.answered

pub get_user-fresh :
    (k : String) (w : World)
    → IsUp w
    → w.user_cache ≡ []
    → Gives (λ o _. o ≡ ok (find (has_id k) w.db.users)) (Cache.get user_cache k w)
unfolding Cache.get load_user open_store get_user_by_id db_read lookup
get_user-fresh k w up e = ground (arith, up.answered w.calls)

session_claims-frame :
    (r : Request) (w v : World) (c : Option Claims)
    → session_claims r w ≡ next c v
    → (v.db ≡ w.db) × (v.user_cache ≡ w.user_cache) × (v.outside ≡ w.outside)
unfolding session_claims validate_access_token
session_claims-frame r w v c e = ground arith

-- With no user cached, a signed cookie is judged by the row that its subject has now.
cookie_identity-fresh :
    (q : Request) (w v : World) (c : Claims)
    → IsUp w
    → w.user_cache ≡ []
    → session_claims q w ≡ next (some c) v
    → Gives (λ o _. o ≡ cookie_user c (ok (find (has_id c.sub) w.db.users))) (cookie_identity q w)
unfolding cookie_identity
cookie_identity-fresh q w v c up none_cached signed =
    let (db, users, outside) = session_claims-frame q w v (some c) signed in
    let still_up : IsUp v = record { opens = cc; answered = λ n. rw outside (up.answered n) } in
    let judged : Option Identity → World → Type 0 =
      λ o _. o ≡ cookie_user c (ok (find (has_id c.sub) w.db.users)) in
    Ends-bind (λ _ _. ⊥) judged (session_claims q) cookie_claims w
      (subst (λ e. Ends (λ _ _. ⊥) (λ o w'. Ends (λ _ _. ⊥) judged (cookie_claims o w')) e)
        (sym signed)
        (Ends-bind (λ _ _. ⊥) judged (Cache.get user_cache c.sub) (λ u. pure (cookie_user c u)) v
          (Ends-mono (Cache.get user_cache c.sub v) (λ _ _ h. h) (λ o _ h. rw h (rw db refl))
            (get_user-fresh c.sub v still_up (users ∙ none_cached)))))

-- Whoever is not identified is refused, or let through as nobody.
abbrev pub NotIdentified : Response → Type 0
NotIdentified resp = (resp ≡ unauthorized) ⊎ (resp ≡ anonymous)

answer-none :
    (q : Request) (cred : String) (w : World)
    → Ends (λ resp _. NotIdentified resp) (λ resp _. NotIdentified resp) (answer q cred none w)
unfolding answer host_public Cache.get load_policy open_store get_route_policy db_read log_request
    log_usage now_ns
answer-none q cred w = ground arith

pub answer_token-none :
    (q : Request) (w : World)
    → Ends (λ resp _. resp ≡ unauthorized) (λ _ _. ⊥) (answer_token q none w)
unfolding answer_token
answer_token-none q w = refl

-- A cookie that the row of its subject does not admit.
unadmitted :
    (c : Claims) (o : Option User)
    → ((u : User) → o ≡ some u → admits_cookie u c ≡ false)
    → cookie_user c (ok o) ≡ none
unadmitted c none h = refl
unadmitted c (some u) h = rw (h u refl) refl

pub verify_session-unadmitted :
    (q : Request) (w v : World) (c : Claims)
    → IsUp w
    → w.user_cache ≡ []
    → parse_bearer_pat (q.header "Authorization") ≡ none
    → session_claims q w ≡ next (some c) v
    → All (λ u. u.id ≡ c.sub → admits_cookie u c ≡ false) w.db.users
    → Ends (λ resp _. NotIdentified resp) (λ resp _. NotIdentified resp) (verify_session q w)
unfolding verify_session by_credential
verify_session-unadmitted q w v c up none_cached no_token signed out = rw no_token (
    let no_row : cookie_user c (ok (find (has_id c.sub) w.db.users)) ≡ none =
      unadmitted c (find (has_id c.sub) w.db.users) (λ u e.
        All-mem (λ u. u.id ≡ c.sub → admits_cookie u c ≡ false) w.db.users u out
          (find-mem (has_id c.sub) w.db.users u e)
          ((eq_iff u.id c.sub).0 (find_sound (has_id c.sub) w.db.users u e))) in
    Ends-bind (λ resp _. NotIdentified resp) (λ resp _. NotIdentified resp) (cookie_identity q)
      (answer q "session") w
      (Ends-mono (cookie_identity q w) (λ _ _ h. absurd h)
        (λ o w₁ h.
          subst
            (λ x. Ends (λ e _. NotIdentified e) (λ e _. NotIdentified e) (answer q "session" x w₁))
            (sym (h ∙ no_row)) (answer-none q "session" w₁))
        (cookie_identity-fresh q w v c up none_cached signed)))

answer-some :
    (q : Request) (id : Identity) (w : World)
    → Gives (λ e _. e ≡ identified id) (answer q "session" (some id) w)
unfolding answer log_request log_usage now_ns
answer-some q id w = refl

-- With no user cached, a signed cookie that the row of its subject admits is let through as that
-- user.
pub verify_session-admitted :
    (q : Request) (w v : World) (c : Claims) (u : User)
    → IsUp w
    → w.user_cache ≡ []
    → parse_bearer_pat (q.header "Authorization") ≡ none
    → session_claims q w ≡ next (some c) v
    → find (has_id c.sub) w.db.users ≡ some u
    → admits_cookie u c ≡ true
    → Gives (λ e _. e ≡ identified (of_user u none)) (verify_session q w)
unfolding verify_session by_credential
verify_session-admitted q w v c u up none_cached no_token signed found admits = rw no_token (
    let id : Identity = of_user u none in
    let known : cookie_user c (ok (find (has_id c.sub) w.db.users)) ≡ some id =
      rw (found, admits) refl in
    Ends-bind (λ _ _. ⊥) (λ e _. e ≡ identified id) (cookie_identity q) (answer q "session") w
      (Ends-mono (cookie_identity q w) (λ _ _ h. h)
        (λ o w₁ h.
          subst (λ x. Gives (λ e _. e ≡ identified id) (answer q "session" x w₁)) (sym (h ∙ known))
            (answer-some q id w₁))
        (cookie_identity-fresh q w v c up none_cached signed)))
