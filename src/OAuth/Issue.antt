-- ===== src/OAuth/Issue.antt =====
-- About `Authorize` of internal/handler/oauth.go: the code that it hands out.
use sir_auth.Base.{
  ◌≤◌, Option-cases, Bool-cases, inl, inr, ℕ, suc, ◌+◌, ◌/◌, String, true, false, ◌&&◌, ◌==◌, ◌≡◌,
  refl, some, none, Option, List, [], ◌∷◌, find, any, arith, eq_iff, not,
}
use sir_auth.Model.{User, OAuthClient, AuthCode}
use sir_auth.Text.{string, concat, equal_fold, chars}
use sir_auth.World.{
  Url, World, next, Request, Response, now_ns, second, db_read, db_write, open_store, some_or_stop,
  stop_if, pure, ◌>>=◌, ◌>>◌, ask, Outside,
}
use sir_auth.Outcome.{>>=-eq-next}
use sir_auth.Http.{same_origin, default_to, redirect}
use sir_auth.Token.{random_string, b64, auth_code_ttl, validate_access_token}
use sir_auth.Store.{has_client_id, get_user_by_id, get_user_by_email, get_client_by_id, with_id}
use sir_auth.Store.Codes.{has_code, create_auth_code, before_create_code, insert_code}
use sir_auth.Cache
use sir_auth.Cache.{lookup}
use sir_auth.Verify.Identities.{session_claims, cookie_identity, load_user, Identity}
use sir_auth.OAuth.Uri.{is_loopback, urls_match, is_loopback_uri, loopback_uri_matches}
use sir_auth.OAuth.{
  proves, login_form, Asker, find_asker, session_asker, authorize_client, authorize_user,
  issue_code, with_state, pending_msg, wrong_password,
}

cookie_identity-frame :
    (r : Request) (w w' : World) (o : Option Identity)
    → cookie_identity r w ≡ next o w'
    → (w'.db ≡ w.db) × (w'.outside ≡ w.outside) × (w.calls ≤ w'.calls)
unfolding cookie_identity session_claims validate_access_token Cache.get load_user open_store
    get_user_by_id db_read lookup
cookie_identity-frame r w w' o e = ground arith

session_asker-frame :
    (id : Option Identity) (a : Asker) (w w' : World)
    → session_asker id w ≡ next a w'
    → (w'.db ≡ w.db) × (w'.outside ≡ w.outside) × (w.calls ≤ w'.calls)
unfolding get_user_by_id db_read
session_asker-frame none a w w' e = ground arith
session_asker-frame (some id) a w w' e = ground arith

find_asker-frame :
    (c : OAuthClient) (r : Request) (a : Asker) (w w' : World)
    → find_asker c r w ≡ next a w'
    → (w'.db ≡ w.db) × (w'.outside ≡ w.outside) × (w.calls ≤ w'.calls)
unfolding find_asker get_user_by_email db_read
find_asker-frame c r a w w' e =
    elim (Bool-cases (c.is_public && r.form "email" == "" && same_origin w.outside r)) [
      | inl b ↦
          let (id, v, e₁, k₁) =
            >>=-eq-next (cookie_identity r) session_asker w (rw (b, find_asker) at e) in
          ground (arith, cookie_identity-frame r w v id e₁, session_asker-frame id a v w' k₁)
      | inr b ↦ ground arith
    ]

equal_fold_refl : (s : List _) → equal_fold s s ≡ true
unfolding equal_fold
equal_fold_refl [] = refl
equal_fold_refl (c ∷ s) = ground (arith, equal_fold_refl s)

pub loopback-matches :
    (o : Outside) (u : String) → is_loopback_uri o u ≡ true → loopback_uri_matches o u u ≡ true
unfolding is_loopback_uri loopback_uri_matches
loopback-matches o u h = go (o.parse_url u) h
  where
    go : (p : Option Url) → is_loopback p ≡ true → urls_match p p u u ≡ true
    go none h = cc
    go (some p) h = ground (
      arith,
      equal_fold_refl (chars p.hostname),
      (eq_iff p.scheme p.scheme).1 refl,
      (eq_iff p.path p.path).1 refl,
      (eq_iff u u).1 refl,
    )

-- The row that is issued, and the redirect that shows its code.
abbrev pub issued_row : Request → User → (code : String) → World → AuthCode
issued_row r u code w = record {
  code_challenge = r.form "code_challenge";
  code = code;
  client_id = r.form "client_id";
  user_id = u.id;
  redirect_uri = r.form "redirect_uri";
  scope = default_to "openid" (r.form "scope");
  expires_at = (w.outside.clock (suc w.calls) + auth_code_ttl) / second;
  used = false;
}

abbrev pub code_redirect : Request → Outside → (code : String) → Response
code_redirect r o code =
    redirect
      (with_state o (concat (r.form "redirect_uri") (concat "?code=" (o.query_escape code)))
        (r.form "state"))
      302

pub record IsIssue (r : Request) (u : User) (code : String) (resp : Response) (w w' : World)
    : Type 0 where
  pub fresh : any (has_code code) w.db.auth_codes ≡ false
  pub user : any (λ v. v.id == u.id) w.db.users ≡ true
  pub row : w'.db.auth_codes ≡ issued_row r u code w ∷ w.db.auth_codes
  pub same_users : w'.db.users ≡ w.db.users
  pub same_clients : w'.db.clients ≡ w.db.clients
  pub same_outside : w'.outside ≡ w.outside
  pub shown : resp ≡ code_redirect r w.outside code
  pub later : suc (suc w.calls) ≤ w'.calls

pub authorize_client-inv :
    (r : Request) (c : OAuthClient) (w w' : World)
    → authorize_client r w ≡ next c w'
    → (w'.db ≡ w.db)
      × (w'.outside ≡ w.outside)
      × (find (has_client_id (r.form "client_id")) w.db.clients ≡ some c)
      × (is_loopback_uri w.outside (r.form "redirect_uri") ≡ true)
      × (w.calls ≤ w'.calls)
unfolding authorize_client open_store get_client_by_id db_read
authorize_client-inv r c w w' e = ground arith

pub authorize_user-frame :
    (r : Request) (c : OAuthClient) (u : User) (w w' : World)
    → authorize_user r c w ≡ next u w'
    → (w'.db ≡ w.db) × (w'.outside ≡ w.outside) × (w.calls ≤ w'.calls)
unfolding authorize_user
authorize_user-frame r c u w w' e =
    let (a, v, e₁, k₁) =
      >>=-eq-next (find_asker c r)
        (λ a. do
          o ← ask
          user ← some_or_stop (proves o (r.form "password") a) (login_form c r wrong_password)
          stop_if (not user.approved) (login_form c r pending_msg)
          pure user)
        w e in
    ground (arith, find_asker-frame c r a w v e₁)

pub issue_code-drawn :
    (r : Request) (u : User) (resp : Response) (w w' : World)
    → issue_code r u w ≡ next resp w'
    → (bs : List ℕ) × (w.outside.rand w.calls 32 ≡ some bs)
unfolding issue_code create_auth_code before_create_code with_id db_write now_ns random_string
issue_code-drawn r u resp w w' e = elim (Option-cases (w.outside.rand w.calls 32)) [
  | inl none_drawn ↦ absurd (ground arith)
  | inr drawn ↦ drawn
]

pub issue_code-inv :
    (r : Request) (u : User) (resp : Response) (bs : List ℕ) (w w' : World)
    → w.outside.rand w.calls 32 ≡ some bs
    → issue_code r u w ≡ next resp w'
    → IsIssue r u (string (b64 bs)) resp w w'
unfolding issue_code create_auth_code before_create_code with_id insert_code db_write now_ns
    random_string
issue_code-inv r u resp bs w w' drawn e = record {
  fresh = ground arith;
  user = ground arith;
  row = ground arith;
  same_users = ground arith;
  same_clients = ground arith;
  same_outside = ground arith;
  shown = ground arith;
  later = ground arith;
}
