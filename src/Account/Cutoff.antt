-- ===== src/Account/Cutoff.antt =====
-- About what an account's holder does to end access, and what `/session/verify` answers next
-- (internal/handler/account.go, internal/handler/verify.go).
use sir_auth.Base.{
  refl, Bool, List, [], ◌∷◌, find, update_if, if◌then◌else◌, Option-cases, inl, inr, eq_iff, ℕ, ◌/◌,
  ◌<◌, ◌≤◌, String, ◌≡◌, some, none, false, ap, subst, sym, ◌∙◌, arith,
}
use sir_auth.Integrity.Tables.{All-mono}
use sir_auth.Model.{User, ApiToken, active}
use sir_auth.Session.{post_user}
use sir_auth.Store.{create_system_log}
use sir_auth.Store.Tokens.{is_revocable, revoke_at, has_hash, revoke_api_token}
use sir_auth.World.{Db, Outside, World, next, Request, Response, Claims, second, now_unix, db_write}
use sir_auth.Outcome.{Ends, OnSuccess, >>=-eq-next}
use sir_auth.Token.{parse_bearer_pat, hash_pat, random_string}
use sir_auth.Verify.Identities.{invalidate_auth, session_claims, admits_cookie}
use sir_auth.Verify.{verify_session, unauthorized}
use sir_auth.Verify.Fresh.{IsUp, NotIdentified, verify_session-unadmitted}
use sir_auth.Verify.FreshTokens.{verify_session-inactive}
use sir_auth.Account.{account_logout_all, token_revoke, revoke_mine}
use sir_auth.Account.Laws.{
  IsLogoutAll, account_logout_all-IsLogoutAll, post_user-IsSignedIn, post_user-outside,
}

account_logout_all-inv :
    (r : Request) (w w' : World) (resp : Response)
    → account_logout_all r w ≡ next resp w'
    → IsLogoutAll r w w'
account_logout_all-inv r w w' resp e =
    subst (OnSuccess (λ _ v. IsLogoutAll r w v)) e (account_logout_all-IsLogoutAll r w)

pub same_claims :
    (r : Request) (w v v' : World) (c d : Claims)
    → session_claims r w ≡ next (some c) v
    → session_claims r w ≡ next (some d) v'
    → c ≡ d
same_claims r w v v' c d e f = cc

-- If logging out everywhere goes through and the next thing that the server does is to verify a
-- request, in the very state that the logging out leaves, then this request is refused or let
-- through as nobody, if PostgreSQL answers, the request has no personal access token, and its cookie
-- is of the same user and was made before every reading of the clock since the logging out began.
pub account_logout_all-NotIdentified :
    (r q : Request) (w w' v v' : World) (resp : Response) (mine c : Claims)
    → account_logout_all r w ≡ next resp w'
    → session_claims r w ≡ next (some mine) v
    → parse_bearer_pat (q.header "Authorization") ≡ none
    → session_claims q w' ≡ next (some c) v'
    → c.sub ≡ mine.sub
    → ((n : ℕ) → w.calls ≤ n → c.iat < w.outside.clock n / second)
    → IsUp w'
    → Ends (λ e _. NotIdentified e) (λ e _. NotIdentified e) (verify_session q w')
account_logout_all-NotIdentified r q w w' v v' resp mine c gone signed no_token shown same before
      up =
    let out = account_logout_all-inv r w w' resp gone in
    let me : out.user.id ≡ c.sub =
      out.signed_in.subject
      ∙ ap (λ (x : Claims). x.sub)
          (same_claims r w out.signed_in.after v out.signed_in.claims mine out.signed_in.signed
            signed)
      ∙ sym same in
    verify_session-unadmitted q w' v' c up out.uncached no_token shown (
      All-mono
        (λ (u : User).
          u.id ≡ out.user.id
          → (d : Claims) → d.iat < w.outside.clock out.read_at / second
          → admits_cookie u d ≡ false)
        (λ u. u.id ≡ c.sub → admits_cookie u c ≡ false) w'.db.users
        (λ u h is_me. h (is_me ∙ sym me) c (before out.read_at out.later)) out.out.cookies)

find-update :
    {A : Type 0} (p q : A → Bool) (f : A → A) (xs : List A) (x : A)
    → ((a : A) → p (f a) ≡ p a)
    → find p xs ≡ some x
    → find p (update_if q f xs) ≡ some (if q x then f x else x)
unfolding find update_if
find-update p q f [] x h e = cc
find-update p q f (y ∷ ys) x h e = ground (arith, h y, find-update p q f ys x h)

-- A token that is revoked, or was, is never active.
revoked-dead :
    (user_id id : String) (now : ℕ) (t : ApiToken)
    → t.id ≡ id
    → t.user_id ≡ user_id
    → (n : ℕ) → active (if is_revocable user_id id t then revoke_at now t else t) n ≡ false
unfolding active
revoked-dead user_id id now t same mine n = elim (Option-cases t.revoked_at) [
  | inl live ↦ ground (arith, eq_iff t.id id, eq_iff t.user_id user_id)
  | inr (at_time, dead) ↦ ground (arith, eq_iff t.id id, eq_iff t.user_id user_id)
]

revoke_mine-inv :
    (r : Request) (u : User) (w w' : World) (resp : Response)
    → revoke_mine r u w ≡ next resp w'
    → (w'.db.api_tokens
        ≡ update_if
            (is_revocable u.id (r.form "id"))
            (revoke_at (w.outside.clock w.calls / second))
            w.db.api_tokens)
      × (w'.token_cache ≡ [])
      × (w'.outside ≡ w.outside)
unfolding revoke_mine revoke_api_token invalidate_auth create_system_log db_write random_string
    now_unix
revoke_mine-inv r u w w' resp e = ground arith

-- If revoking a token goes through and the next thing that the server does is to verify a request,
-- in the very state that the revocation leaves, then this request is refused with an empty 401,
-- whatever its host is, if PostgreSQL answers and the request shows a token whose row was the
-- signed-in user's own and had the identifier of the form.
pub token_revoke-unauthorized :
    (r q : Request) (w w' v : World) (resp : Response) (mine : Claims) (raw : String) (t : ApiToken)
    → token_revoke r w ≡ next resp w'
    → session_claims r w ≡ next (some mine) v
    → parse_bearer_pat (q.header "Authorization") ≡ some raw
    → find (has_hash (hash_pat w.outside raw)) w.db.api_tokens ≡ some t
    → t.id ≡ r.form "id"
    → t.user_id ≡ mine.sub
    → IsUp w'
    → Ends (λ e _. e ≡ unauthorized) (λ _ _. ⊥) (verify_session q w')
unfolding token_revoke
token_revoke-unauthorized r q w w' v resp mine raw t gone signed token row same_id owner up =
    let (u, w₁, e₁, k₁) = >>=-eq-next (post_user r) (revoke_mine r) w gone in
    let (same_db, signed_in) = post_user-IsSignedIn r w w₁ u e₁ in
    let (tokens, uncached, outside) = revoke_mine-inv r u w₁ w' resp k₁ in
    let me : t.user_id ≡ u.id =
      owner
      ∙ ap (λ (x : Claims). x.sub)
          (same_claims r w v signed_in.after mine signed_in.claims signed signed_in.signed)
      ∙ sym signed_in.subject in
    let now : ℕ = w₁.outside.clock w₁.calls / second in
    let dead : ApiToken = if is_revocable u.id (r.form "id") t then revoke_at now t else t in
    let hash : String = hash_pat w.outside raw in
    let found : find (has_hash (hash_pat w'.outside raw)) w'.db.api_tokens ≡ some dead =
      ap (λ (o : Outside). find (has_hash (hash_pat o raw)) w'.db.api_tokens)
        (outside ∙ post_user-outside r w w₁ u e₁)
      ∙ ap (find (has_hash hash)) (
          tokens
          ∙ ap
              (λ (d : Db). update_if (is_revocable u.id (r.form "id")) (revoke_at now) d.api_tokens)
              same_db)
      ∙ find-update (has_hash hash) (is_revocable u.id (r.form "id")) (revoke_at now)
          w.db.api_tokens t (λ _. refl) row in
    verify_session-inactive q w' raw dead up uncached token found
      (revoked-dead u.id (r.form "id") now t same_id me)
