-- ===== src/OAuth/Handover.antt =====
-- About `Authorize` of internal/handler/oauth.go and the `Token` request that follows it: the code
-- that the one hands out is a grant for the other.
use sir_auth.Base.{
  ◌∙◌, sym, Bool-cases, inl, inr, ℕ, suc, ◌+◌, ◌≤◌, String, Bool, true, false, ◌||◌, ◌==◌, ◌≡◌,
  refl, some, List, [], ◌∷◌, find, any, count_if, arith, eq_iff,
}
use sir_auth.Model.{User, OAuthClient, AuthCode}
use sir_auth.Text.{string, concat}
use sir_auth.World.{World, next, Request, Response, second, ◌>>=◌, Outside}
use sir_auth.Outcome.{Gives, >>=-eq-next}
use sir_auth.Http.{default_to, redirect}
use sir_auth.Token.{b64, auth_code_ttl}
use sir_auth.Store.{has_id, has_client_id}
use sir_auth.Store.Codes.{has_code}
use sir_auth.Store.SingleUse.{UniqueCodes}
use sir_auth.Verify.Fresh.{IsUp}
use sir_auth.OAuth.Uri.{is_loopback_uri, loopback_uri_matches, verify_pkce}
use sir_auth.OAuth.Grants.{shows_secret, fits_code, exchange_auth_code}
use sir_auth.OAuth.Exchange.{IsRedeemable, exchange_auth_code-grants}
use sir_auth.OAuth.{with_state, authorize_client, authorize_user, issue_code, process_authorize}
use sir_auth.OAuth.Liveness.{DrawsFresh, IsTokenAnswer}
use sir_auth.Text.Lemmas.{concat-left, concat-right}
use sir_auth.OAuth.Issue.{
  issue_code-drawn, loopback-matches, issued_row, code_redirect, IsIssue, authorize_client-inv,
  authorize_user-frame, issue_code-inv,
}

any-some :
    {A : Type 0} (p : A → Bool) (xs : List A) → any p xs ≡ true → (a : A) × (find p xs ≡ some a)
unfolding any find
any-some p [] e = cc
any-some p (x ∷ xs) e = elim (Bool-cases (p x)) [
  | inl y ↦ (x, rw y refl)
  | inr n ↦ let (a, h) = any-some p xs (rw n at e) in (a, rw n h)
]

any-count_if : {A : Type 0} (p : A → Bool) (xs : List A) → any p xs ≡ false → count_if p xs ≡ 0
unfolding any count_if
any-count_if p [] e = refl
any-count_if p (x ∷ xs) e = ground (arith, any-count_if p xs)

-- One more code, which no row has, leaves the codes unique.
add-UniqueCodes :
    (ac : AuthCode) (cs : List AuthCode)
    → any (has_code ac.code) cs ≡ false
    → ((k : String) → count_if (has_code k) cs ≤ 1)
    → (k : String) → count_if (has_code k) (ac ∷ cs) ≤ 1
unfolding count_if
add-UniqueCodes ac cs fresh u k = elim (Bool-cases (ac.code == k)) [
  | inl e ↦
      let same : ac.code ≡ k = (eq_iff ac.code k).0 e in
      let rest : count_if (has_code k) cs ≡ 0 = any-count_if (has_code k) cs (rw same at fresh) in
      rw (e, rest) omega arith
  | inr e ↦ rw e (omega (arith, u k))
]

-- The request for a token that follows: it shows the same redirect URI, the client and the verifier
-- of the challenge; the tables of accounts and codes are as they were left.
pub record IsHandover (r q : Request) (c : OAuthClient) (w w' v : World) : Type 0 where
  pub complete :
      (q.form "code" == "" || q.form "redirect_uri" == "" || q.form "client_id" == "") ≡ false
  pub same_redirect : q.form "redirect_uri" ≡ r.form "redirect_uri"
  pub same_client : q.form "client_id" ≡ r.form "client_id"
  pub known : find (has_client_id (q.form "client_id")) v.db.clients ≡ some c
  pub secret : shows_secret c (q.form "client_secret") ≡ true
  pub verifier : verify_pkce v.outside (r.form "code_challenge") (q.form "code_verifier") ≡ true
  pub same_outside : w.outside ≡ v.outside
  pub same_codes : v.db.auth_codes ≡ w'.db.auth_codes
  pub same_users : v.db.users ≡ w'.db.users
  pub in_time :
      (n k : ℕ)
      → v.calls ≤ n
      → n ≤ v.calls + 8
      → w.calls ≤ k
      → k ≤ w'.calls
      → v.outside.clock n + second ≤ v.outside.clock k + auth_code_ttl

issued-fits :
    (r : Request) (u : User) (c : OAuthClient) (code : String) (w : World) (o : Outside)
    (verifier : String)
    → verify_pkce o (r.form "code_challenge") verifier ≡ true
    → is_loopback_uri o (r.form "redirect_uri") ≡ true
    → fits_code o c (issued_row r u code w) verifier (r.form "redirect_uri") ≡ true
issued-fits r u c code w o verifier proof loopback =
    let uri = r.form "redirect_uri" in
    let same : uri == uri ≡ true = (eq_iff uri uri).1 refl in
    let matches : loopback_uri_matches o uri uri ≡ true = loopback-matches o uri loopback in
    ground (arith, proof, same, matches)

issued-IsRedeemable :
    (r q : Request) (u : User) (c : OAuthClient) (code : String) (resp : Response)
    (w w₂ w' v : World)
    → IsIssue r u code resp w₂ w'
    → w₂.outside ≡ w.outside
    → w.calls ≤ w₂.calls
    → is_loopback_uri w.outside (r.form "redirect_uri") ≡ true
    → q.form "code" ≡ code
    → IsHandover r q c w w' v
    → (o : User) × IsRedeemable q v c (issued_row r u code w₂) o
unfolding find
issued-IsRedeemable r q u c code resp w w₂ w' v i same_outside later loopback same_code h =
    let (o, owner) = any-some (has_id u.id) w₂.db.users i.user in
    let outside : w₂.outside ≡ v.outside = same_outside ∙ h.same_outside in
    (
      o,
      record {
        complete = h.complete;
        known = h.known;
        secret = h.secret;
        listed = rw (same_code, h.same_codes, i.row) ground (arith, eq_iff code code);
        unused = refl;
        to_client = sym h.same_client;
        in_time = λ n from to. rw outside (
            omega (
              arith,
              h.in_time n (suc w₂.calls) from to (omega (arith, later)) (omega (arith, i.later)),
            ));
        fits = rw h.same_redirect (
            issued-fits r u c code w₂ v.outside (q.form "code_verifier") h.verifier
              (rw h.same_outside at loopback));
        owner = rw (h.same_users, i.same_users) owner;
      },
    )

redirect_inj : (a b : String) → redirect a 302 ≡ redirect b 302 → a ≡ b
redirect_inj a b e = cc

with_state_inj : (o : Outside) (a b s : String) → with_state o a s ≡ with_state o b s → a ≡ b
unfolding with_state
with_state_inj o a b s e = elim (Bool-cases (s == "")) [
  | inl y ↦ rw y at e
  | inr n ↦ concat-right (concat "&state=" (o.query_escape s)) a b (rw n at e)
]

-- The redirect tells its code, since escaping is reversible.
code_redirect_inj :
    (r : Request) (o : Outside) (a b : String)
    → ((x y : String) → o.query_escape x ≡ o.query_escape y → x ≡ y)
    → code_redirect r o a ≡ code_redirect r o b
    → a ≡ b
code_redirect_inj r o a b reversible e =
    let uri = r.form "redirect_uri" in
    let shown : String → String = λ c. concat uri (concat "?code=" (o.query_escape c)) in
    let url : shown a ≡ shown b =
      with_state_inj o (shown a) (shown b) (r.form "state") (redirect_inj _ _ e) in
    reversible a b
      (concat-left "?code=" (o.query_escape a) (o.query_escape b) (concat-left uri _ _ url))

-- A code that `Authorize` hands out is worth its tokens: if the codes in the table are unique and the
-- escaping of a query is reversible, and if then PostgreSQL answers, the readings of the clock for the token
-- request are at most 9:59 minutes after those for `Authorize`, the users and the codes are as they were left, every draw of 48 bytes
-- from then on gives bytes, each its own, whose text is no refresh token of the table, and the token
-- request leaves no parameter empty and has the code that the redirect shows, the same redirect URI
-- and client, the verifier of the challenge and, unless the client, which is known, is public, its
-- secret, then that request is granted: the answer has an access token, the text of such a draw as
-- the refresh token, and the scope that was asked for, or `openid`.
pub process_authorize-exchange_auth_code :
    (r q : Request) (c : OAuthClient) (resp : Response) (draws : ℕ → List ℕ) (w w' v : World)
    → process_authorize r w ≡ next resp w'
    → resp ≡ code_redirect r w.outside (q.form "code")
    → ((x y : String) → w.outside.query_escape x ≡ w.outside.query_escape y → x ≡ y)
    → UniqueCodes w.db
    → IsUp v
    → DrawsFresh v draws
    → IsHandover r q c w w' v
    → Gives
        (λ answer _. IsTokenAnswer v draws (default_to "openid" (r.form "scope")) answer)
        (exchange_auth_code q v)
unfolding process_authorize
process_authorize-exchange_auth_code r q c resp draws w w' v e shows reversible unique up fresh h =
    let (client, w₁, e₁, k₁) =
      >>=-eq-next (authorize_client r)
        (λ client. do user ← authorize_user r client; issue_code r user) w e in
    let (db₁, outside₁, _, loopback, later₁) = authorize_client-inv r client w w₁ e₁ in
    let (u, w₂, e₂, k₂) = >>=-eq-next (authorize_user r client) (issue_code r) w₁ k₁ in
    let (db₂, outside₂, later₂) = authorize_user-frame r client u w₁ w₂ e₂ in
    let same_db : w₂.db ≡ w.db = db₂ ∙ db₁ in
    let same_outside : w₂.outside ≡ w.outside = outside₂ ∙ outside₁ in
    let later : w.calls ≤ w₂.calls = omega (arith, later₁, later₂) in
    let (bs, drawn) = issue_code-drawn r u resp w₂ w' k₂ in
    let code : String = string (b64 bs) in
    let i : IsIssue r u code resp w₂ w' = issue_code-inv r u resp bs w₂ w' drawn k₂ in
    let same_code : q.form "code" ≡ code =
      code_redirect_inj r w.outside (q.form "code") code reversible
        (sym shows ∙ (rw same_outside at i.shown)) in
    let (o, redeemable) =
      issued-IsRedeemable r q u c code resp w w₂ w' v i same_outside later loopback same_code h in
    let unique_v : UniqueCodes v.db = λ k.
      rw (h.same_codes, i.row)
        (add-UniqueCodes (issued_row r u code w₂) w₂.db.auth_codes i.fresh (rw same_db unique) k) in
    exchange_auth_code-grants q v c (issued_row r u code w₂) o draws up.opens up.answered fresh
      unique_v redeemable
