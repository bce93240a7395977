-- ===== src/Account/Tokens.antt =====
-- About a new personal access token (`createToken` of internal/handler/account.go): it works at once.
use sir_auth.Base.{
  ℕ, ◌+◌, ◌*◌, ◌/◌, ◌<◌, String, true, ◌≡◌, refl, ap, subst, sym, ◌∙◌, some, List, [], ◌∷◌, find,
  arith, eq_iff,
}
use sir_auth.Model.{User, ApiToken, active}
use sir_auth.World.{World, Db, Outside, next, or_stop, ◌>>=◌, Request, Response, Claims, second}
use sir_auth.Outcome.{Gives, >>=-eq-next}
use sir_auth.Http.{unstored_page}
use sir_auth.Token.{parse_bearer_pat, Pat, hash_pat, new_pat}
use sir_auth.Verify.Identities.{of_user, session_claims}
use sir_auth.Store.{has_id}
use sir_auth.Store.Tokens.{has_hash}
use sir_auth.Account.Laws.{post_user-IsSignedIn, post_user-outside}
use sir_auth.Account.Cutoff.{same_claims}
use sir_auth.Session.{post_user}
use sir_auth.Session.Guards.{IsSignedIn}
use sir_auth.Verify.{identified, verify_session}
use sir_auth.Verify.Fresh.{IsUp}
use sir_auth.Verify.FreshTokens.{verify_session-active}
use sir_auth.Account.{
  back, NewToken, day, check_token, keep_pat, mint_token, parse_expiry, create_token,
}
use sir_auth.Account.Minting.{row_of, new_pat-inv, minted, check_token-inv, expiry-active}

-- What making a token, when it goes through, has done.
record IsCreated (r : Request) (w w' : World) (resp : Response) : Type 0 where
  user : User
  signed_in : IsSignedIn r w user
  token : NewToken
  pat : Pat
  id : String
  hashed : pat.hash ≡ hash_pat w.outside pat.raw
  read_at : ℕ
  now : token.now ≡ w.outside.clock read_at / second
  expiry : parse_expiry (r.form "expires") token.now ≡ some token.expires_at
  answer : resp ≡ unstored_page "token-created" (token.name ∷ pat.raw ∷ [])
  row : w'.db.api_tokens ≡ row_of user token pat id ∷ w.db.api_tokens
  users : w'.db.users ≡ w.db.users
  no_users : w'.user_cache ≡ []
  no_tokens : w'.token_cache ≡ []
  outside : w'.outside ≡ w.outside

create_token-IsCreated :
    (r : Request) (w w' : World) (resp : Response)
    → create_token r w ≡ next resp w'
    → IsCreated r w w' resp
unfolding create_token mint_token
create_token-IsCreated r w w' resp e =
    let (u, w₁, e₁, k₁) = >>=-eq-next (post_user r) (λ u. check_token r u >>= mint_token u) w e in
    let (f, w₂, e₂, k₂) = >>=-eq-next (check_token r u) (mint_token u) w₁ k₁ in
    let (drawn, w₃, e₃, k₃) =
      >>=-eq-next new_pat
        (λ drawn. or_stop drawn (back "/account/tokens?err=" "server") >>= keep_pat u f) w₂ k₂ in
    let (pat, is_pat, kept) =
      minted u f w₃ w' resp (back "/account/tokens?err=" "server") drawn k₃ in
    let (db₁, signed_in) = post_user-IsSignedIn r w w₁ u e₁ in
    let outside₁ = post_user-outside r w w₁ u e₁ in
    let (db₂, outside₂, now, expiry) = check_token-inv r u w₁ w₂ f e₂ in
    let (hashed, db₃, outside₃) = new_pat-inv w₂ w₃ pat (rw is_pat at e₃) in
    let db = db₃ ∙ db₂ ∙ db₁ in
    let outside = outside₂ ∙ outside₁ in
    record {
      user = u;
      signed_in = signed_in;
      token = f;
      pat = pat;
      id = kept.id;
      hashed = hashed ∙ ap (λ (o : Outside). hash_pat o pat.raw) outside;
      read_at = w₁.calls;
      now = now ∙ ap (λ (o : Outside). o.clock w₁.calls / second) outside₁;
      expiry = expiry;
      answer = kept.answer;
      row = kept.row ∙ ap (λ (d : Db). row_of u f pat kept.id ∷ d.api_tokens) db;
      users = kept.users ∙ ap (λ (d : Db). d.users) db;
      no_users = kept.no_users;
      no_tokens = kept.no_tokens;
      outside = kept.outside ∙ outside₃ ∙ outside;
    }

find-head :
    (h : String) (t : ApiToken) (ts : List ApiToken)
    → t.token_hash ≡ h
    → find (has_hash h) (t ∷ ts) ≡ some t
unfolding find
find-head h t ts e = ground (arith, eq_iff t.token_hash h)

module _ {r : Request} {w w' : World} {resp : Response} (c : IsCreated r w w' resp) where
  abbrev created_row : ApiToken
  created_row = row_of c.user c.token c.pat c.id

  created-listed :
      find (has_hash (hash_pat w'.outside c.pat.raw)) w'.db.api_tokens ≡ some created_row
  created-listed =
      ap (λ (ts : List ApiToken). find (has_hash (hash_pat w'.outside c.pat.raw)) ts) c.row
      ∙ find-head (hash_pat w'.outside c.pat.raw) created_row w.db.api_tokens
          (c.hashed ∙ ap (λ (o : Outside). hash_pat o c.pat.raw) (sym c.outside))

  created-active :
      ((m n : ℕ) → w.outside.clock n / second < w.outside.clock m / second + 30 * day)
      → (n : ℕ) → active created_row (w'.outside.clock n / second) ≡ true
  created-active clocks n =
      expiry-active (r.form "expires") c.token.now (w'.outside.clock n / second) created_row
        c.expiry refl (rw (c.outside, c.now) (clocks c.read_at n))

  created-owner : find (has_id c.user.id) w'.db.users ≡ some c.user
  created-owner =
      ap (λ (us : List User). find (has_id c.user.id) us) c.users
      ∙ ap (λ (i : String). find (has_id i) w.db.users) c.signed_in.subject
      ∙ c.signed_in.found

shown_raw :
    (name raw name' raw' : String)
    → unstored_page "token-created" (name ∷ raw ∷ [])
      ≡ unstored_page "token-created" (name' ∷ raw' ∷ [])
    → raw ≡ raw'
shown_raw name raw name' raw' e = cc

-- A token that `createToken` shows works at once: if the request goes through and its page shows
-- the token, then, as long as PostgreSQL answers and no two readings of the clock are 30 days
-- apart, every request that shows this token as its credential is let through as the signed-in
-- user, by the row that the user has in the table.
pub create_token-verify_session :
    (r q : Request) (w w' v : World) (resp : Response) (mine : Claims) (name raw : String)
    → create_token r w ≡ next resp w'
    → session_claims r w ≡ next (some mine) v
    → resp ≡ unstored_page "token-created" (name ∷ raw ∷ [])
    → parse_bearer_pat (q.header "Authorization") ≡ some raw
    → IsUp w'
    → ((m n : ℕ) → w.outside.clock n / second < w.outside.clock m / second + 30 * day)
    → (u : User) × (id : String) × (find (has_id mine.sub) w.db.users ≡ some u)
      × Gives (λ e _. e ≡ identified (of_user u (some id))) (verify_session q w')
create_token-verify_session r q w w' v resp mine name raw e signed shown credential up clocks =
    let made = create_token-IsCreated r w w' resp e in
    let me : made.signed_in.claims ≡ mine =
      same_claims r w made.signed_in.after v made.signed_in.claims mine made.signed_in.signed
        signed in
    let found : find (has_id mine.sub) w.db.users ≡ some made.user =
      subst (λ (c : Claims). find (has_id c.sub) w.db.users ≡ some made.user) me
        made.signed_in.found in
    let same_raw : made.pat.raw ≡ raw = shown_raw _ _ _ _ (sym made.answer ∙ shown) in
    (
      made.user,
      made.id,
      found,
      verify_session-active q w' raw (created_row made) made.user up made.no_tokens made.no_users
          credential
          (subst
            (λ x.
              find (has_hash (hash_pat w'.outside x)) w'.db.api_tokens ≡ some (created_row made))
            same_raw (created-listed made))
          (created-active made clocks) (created-owner made) made.signed_in.approved,
    )
