-- ===== src/Verify/FreshTokens.antt =====
-- About `VerifySession` of internal/handler/verify.go with emptied caches and a personal access token.
use sir_auth.Base.{
  ◌∙◌, ap, subst, sym, ℕ, ◌/◌, String, true, false, ◌≡◌, refl, Option, none, some, [], find, arith,
}
use sir_auth.Model.{User, ApiToken, active}
use sir_auth.World.{
  World, Outside, next, Result, ok, Request, pure, second, tick, db_read, open_store, now_ns,
}
use sir_auth.Outcome.{Ends, Gives, Ends-bind, Ends-mono, Ends-intro}
use sir_auth.Store.{has_id}
use sir_auth.Store.Tokens.{has_hash, get_api_token_by_hash}
use sir_auth.Token.{hash_pat, parse_bearer_pat}
use sir_auth.Cache
use sir_auth.Cache.{lookup}
use sir_auth.Verify.Identities.{
  of_user, token_identity, user_cache, token_cache, load_token, Identity, token_user, token_row,
}
use sir_auth.Verify.{
  identified, unauthorized, answer, answer_token, by_credential, verify_session, log_request,
}
use sir_auth.Usage.{log_usage}
use sir_auth.Verify.Fresh.{IsUp, get_user-fresh, answer_token-none}

get_token-fresh :
    (k : String) (w : World)
    → IsUp w
    → w.token_cache ≡ []
    → Gives (λ o _. o ≡ ok (find (has_hash k) w.db.api_tokens)) (Cache.get token_cache k w)
unfolding Cache.get load_token open_store get_api_token_by_hash db_read lookup
get_token-fresh k w up e = ground (arith, up.answered w.calls)

token_row-inactive :
    (t : ApiToken) (w : World)
    → ((n : ℕ) → active t n ≡ false)
    → Gives (λ o _. o ≡ none) (token_row (ok (some t)) w)
token_row-inactive t w h = rw (h (w.outside.clock w.calls / second), token_row) refl

-- With no token cached, a personal access token whose row is never active is refused.
pub verify_session-inactive :
    (q : Request) (w : World) (raw : String) (t : ApiToken)
    → IsUp w
    → w.token_cache ≡ []
    → parse_bearer_pat (q.header "Authorization") ≡ some raw
    → find (has_hash (hash_pat w.outside raw)) w.db.api_tokens ≡ some t
    → ((n : ℕ) → active t n ≡ false)
    → Ends (λ resp _. resp ≡ unauthorized) (λ _ _. ⊥) (verify_session q w)
unfolding verify_session by_credential token_identity
verify_session-inactive q w raw t up none_cached token row dead = rw token (
    let gone : Gives (λ o _. o ≡ none) (token_identity raw w) =
      Ends-bind (λ _ _. ⊥) (λ o _. o ≡ none) (Cache.get token_cache (hash_pat w.outside raw))
        token_row w
        (Ends-mono (Cache.get token_cache (hash_pat w.outside raw) w) (λ _ _ h. h)
          (λ o w₁ h.
            subst (λ x. Ends (λ _ _. ⊥) (λ o _. o ≡ none) (token_row x w₁)) (sym (h ∙ ap ok row))
              (token_row-inactive t w₁ dead))
          (get_token-fresh (hash_pat w.outside raw) w up none_cached)) in
    Ends-bind (λ resp _. resp ≡ unauthorized) (λ _ _. ⊥) (token_identity raw) (answer_token q) w
      (Ends-mono (token_identity raw w) (λ _ _ h. absurd h)
        (λ o w₁ h.
          subst (λ x. Ends (λ e _. e ≡ unauthorized) (λ _ _. ⊥) (answer_token q x w₁)) (sym h)
            (answer_token-none q w₁))
        gone))

get_token-keeps :
    (k : String) (w : World)
    → Gives
        (λ _ v. (v.db ≡ w.db) × (v.user_cache ≡ w.user_cache) × (v.outside ≡ w.outside))
        (Cache.get token_cache k w)
unfolding Cache.get load_token open_store get_api_token_by_hash db_read
get_token-keeps k w = ground arith

token_row-active :
    (t : ApiToken) (u : User) (w : World)
    → IsUp w
    → w.user_cache ≡ []
    → active t (w.outside.clock w.calls / second) ≡ true
    → find (has_id t.user_id) w.db.users ≡ some u
    → u.approved ≡ true
    → Gives (λ o _. o ≡ some (of_user u (some t.id))) (token_row (ok (some t)) w)
token_row-active t u w up none_cached live owner approved =
    rw (live, token_row)
      (Ends-bind (λ _ _. ⊥) (λ o _. o ≡ some (of_user u (some t.id)))
        (Cache.get user_cache t.user_id) (λ o. pure (token_user t o)) (tick w)
        (Ends-mono (Cache.get user_cache t.user_id (tick w)) (λ _ _ h. h)
          (λ o _ h.
            subst (λ x. token_user t x ≡ some (of_user u (some t.id))) (sym (h ∙ ap ok owner))
              (rw approved refl))
          (get_user-fresh t.user_id (tick w) (record { opens = up.opens; answered = up.answered })
            none_cached)))

answer_token-some :
    (q : Request) (id : Identity) (w : World)
    → Gives (λ e _. e ≡ identified id) (answer_token q (some id) w)
unfolding answer_token answer log_request log_usage now_ns
answer_token-some q id w = refl

-- With nothing cached, a personal access token whose row is active by every reading of the clock,
-- and whose owner is approved, is let through as its owner.
pub verify_session-active :
    (q : Request) (w : World) (raw : String) (t : ApiToken) (u : User)
    → IsUp w
    → w.token_cache ≡ []
    → w.user_cache ≡ []
    → parse_bearer_pat (q.header "Authorization") ≡ some raw
    → find (has_hash (hash_pat w.outside raw)) w.db.api_tokens ≡ some t
    → ((n : ℕ) → active t (w.outside.clock n / second) ≡ true)
    → find (has_id t.user_id) w.db.users ≡ some u
    → u.approved ≡ true
    → Gives (λ e _. e ≡ identified (of_user u (some t.id))) (verify_session q w)
unfolding verify_session by_credential token_identity
verify_session-active q w raw t u up no_tokens no_users token row live owner approved = rw token (
    let hash : String = hash_pat w.outside raw in
    let id : Identity = of_user u (some t.id) in
    let looked_up : (o : Result (Option ApiToken)) (v : World)
        → Cache.get token_cache hash w ≡ next o v
        → Gives (λ x _. x ≡ some id) (token_row o v) =
      λ o v e.
        let (db, users, outside) = rw e at (get_token-keeps hash w) in
        let there = rw e at (get_token-fresh hash w up no_tokens) in
        subst (λ x. Gives (λ y _. y ≡ some id) (token_row x v)) (sym (there ∙ ap ok row))
          (token_row-active t u v
            (record {
              opens = ap (λ (x : Outside). x.opens) outside ∙ up.opens;
              answered = λ n. ap (λ (x : Outside). x.fate n) outside ∙ up.answered n;
            })
            (users ∙ no_users) (rw outside (live v.calls)) (rw db owner) approved) in
    Ends-bind (λ _ _. ⊥) (λ e _. e ≡ identified id) (token_identity raw) (answer_token q) w
      (Ends-mono (token_identity raw w) (λ _ _ h. h)
        (λ o v h.
          subst (λ x. Gives (λ e _. e ≡ identified id) (answer_token q x v)) (sym h)
            (answer_token-some q id v))
        (Ends-bind (λ _ _. ⊥) (λ o _. o ≡ some id) (Cache.get token_cache hash) token_row w
          (Ends-intro (λ _ _. ⊥) (λ o v. Gives (λ x _. x ≡ some id) (token_row o v))
            (Cache.get token_cache hash w) (λ e v h. rw h at (get_token-keeps hash w)) looked_up))))
