-- ===== src/Store/Rotation.antt =====
-- About `ClaimRefreshToken` of internal/store/store.go, alone and when several requests race for one
-- refresh token.
use sir_auth.Base.{
  ℕ, ◌+◌, ◌/◌, ◌≤◌, ◌<◌, String, Bool, true, ◌≡◌, refl, ◌≢◌, inl, inr, none, some, List, [], ◌∷◌,
  if◌then◌else◌, count_if, update_if, nat_eq, arith, eq_iff, Bool-cases,
}
use sir_auth.Base.Rows.{Mem, All, mem-count_if}
use sir_auth.Model.{RefreshToken}
use sir_auth.World.{Db, World, next, Result, ok, db_write, now_unix, second}
use sir_auth.Store.Codes.{has_token, is_live, revoke_token, claim_token_sql, claim_refresh_token}

abbrev pub IsRevokedIf : String → RefreshToken → Type 0
IsRevokedIf raw t = t.token ≡ raw → t.revoked ≡ true

-- Every row with this token is revoked.
abbrev pub Revoked : String → Db → Type 0
Revoked raw d = All (IsRevokedIf raw) d.refresh_tokens

-- The primary key of the table.
abbrev pub UniqueTokens : List RefreshToken → Type 0
UniqueTokens ts = (raw : String) → count_if (has_token raw) ts ≤ 1

module _ (raw : String) (now : ℕ) where
  Revoked-count :
      (ts : List RefreshToken) → All (IsRevokedIf raw) ts → count_if (is_live raw now) ts ≡ 0
  unfolding count_if
  Revoked-count [] h = refl
  Revoked-count (t ∷ ts) (h, hs) = ground (arith, eq_iff t.token raw, h, Revoked-count ts hs)

  no_row-Revoked :
      (ts : List RefreshToken)
      → count_if (has_token raw) ts ≡ 0
      → All (IsRevokedIf raw) (update_if (is_live raw now) revoke_token ts)
  unfolding count_if update_if
  no_row-Revoked [] h = tt
  no_row-Revoked (t ∷ ts) h =
      (ground (arith, eq_iff t.token raw), no_row-Revoked ts (ground (arith, eq_iff t.token raw)))

  pub live-le :
      (ts : List RefreshToken) → count_if (is_live raw now) ts ≤ count_if (has_token raw) ts
  unfolding count_if
  live-le [] = omega arith
  live-le (t ∷ ts) = ground (arith, live-le ts)

  claimed-Revoked :
      (ts : List RefreshToken)
      → count_if (has_token raw) ts ≤ 1
      → count_if (is_live raw now) ts ≡ 1
      → All (IsRevokedIf raw) (update_if (is_live raw now) revoke_token ts)
  unfolding count_if update_if
  claimed-Revoked [] u h = absurd (omega arith)
  claimed-Revoked (t ∷ ts) u h = elim (Bool-cases (has_token raw t)) [
    | inl e ↦
        let rest : count_if (has_token raw) ts ≡ 0 = ground arith in
        let none_here : count_if (is_live raw now) ts ≤ 0 = omega (arith, live-le ts) in
        (ground (arith, eq_iff t.token raw), no_row-Revoked ts rest)
    | inr e ↦ (ground (arith, eq_iff t.token raw), claimed-Revoked ts (ground arith) (ground arith))
  ]

  Revoked-update :
      (ts : List RefreshToken)
      → All (IsRevokedIf raw) ts
      → All (IsRevokedIf raw) (update_if (is_live raw now) revoke_token ts)
  unfolding update_if
  Revoked-update [] h = tt
  Revoked-update (t ∷ ts) (h, hs) = (ground (arith, h), Revoked-update ts hs)

  update-count :
      (key : String) (ts : List RefreshToken)
      → count_if (has_token key) (update_if (is_live raw now) revoke_token ts)
        ≡ count_if (has_token key) ts
  unfolding count_if update_if
  update-count key [] = refl
  update-count key (t ∷ ts) = ground (arith, update-count key ts)

-- A claim that succeeds revokes the token, and leaves the keys unique.
pub claim_refresh_token-Revoked :
    (raw : String) (w w' : World)
    → UniqueTokens w.db.refresh_tokens
    → claim_refresh_token raw w ≡ next (ok true) w'
    → Revoked raw w'.db
unfolding claim_refresh_token claim_token_sql db_write now_unix
claim_refresh_token-Revoked raw w w' u e =
    ground
      (arith, claimed-Revoked raw (w.outside.clock w.calls / second) w.db.refresh_tokens (u raw))

-- A revoked token is never claimed, whenever it is tried.
pub Revoked-claim_refresh_token :
    (raw : String) (w w' : World) → Revoked raw w.db → claim_refresh_token raw w ≢ next (ok true) w'
unfolding claim_refresh_token claim_token_sql db_write now_unix
Revoked-claim_refresh_token raw w w' h e =
    ground (arith, Revoked-count raw (w.outside.clock w.calls / second) w.db.refresh_tokens h)

-- The UPDATEs of racing requests, in the order in which the database takes them, each with the
-- time that its request read: how many requests see one row changed.
pub winners : String → List ℕ → Db → ℕ
winners raw [] d = 0
winners raw (now ∷ nows) d = elim (claim_token_sql raw now d) [
  | none ↦ 0
  | some (n, d') ↦ (if nat_eq n 1 then 1 else 0) + winners raw nows d'
]

Revoked-winners : (raw : String) (nows : List ℕ) (d : Db) → Revoked raw d → winners raw nows d ≡ 0
unfolding winners claim_token_sql
Revoked-winners raw [] d h = refl
Revoked-winners raw (now ∷ nows) d h =
    let d' : Db = record d {
      refresh_tokens = update_if (is_live raw now) revoke_token d.refresh_tokens;
    } in
    ground (
      arith,
      Revoked-count raw now d.refresh_tokens h,
      Revoked-winners raw nows d' (Revoked-update raw now d.refresh_tokens h),
    )

-- If the refresh tokens in the table are unique, at most one of any number of requests that race
-- to claim one refresh token wins, in any order and whatever their clocks.
pub winners-le-one :
    (raw : String) (nows : List ℕ) (d : Db) → UniqueTokens d.refresh_tokens → winners raw nows d ≤ 1
unfolding winners claim_token_sql
winners-le-one raw [] d u = omega arith
winners-le-one raw (now ∷ nows) d u =
    let d' : Db = record d {
      refresh_tokens = update_if (is_live raw now) revoke_token d.refresh_tokens;
    } in
    elim (Bool-cases (nat_eq (count_if (is_live raw now) d.refresh_tokens) 1)) [
      | inl e ↦ rw e (
          omega (
            arith,
            Revoked-winners raw nows d'
                (claimed-Revoked raw now d.refresh_tokens (u raw) (ground arith)),
          ))
      | inr e ↦ rw e (
          omega (
            arith,
            winners-le-one raw nows d'
                (λ key. rw (update-count raw now key d.refresh_tokens) (u key)),
          ))
    ]

-- A claim changes no key.
pub claim_refresh_token-count :
    (raw key : String) (w w' : World) (o : Result Bool)
    → claim_refresh_token raw w ≡ next o w'
    → count_if (has_token key) w'.db.refresh_tokens ≡ count_if (has_token key) w.db.refresh_tokens
unfolding claim_refresh_token claim_token_sql db_write now_unix
claim_refresh_token-count raw key w w' o e =
    ground (arith, update-count raw (w.outside.clock w.calls / second) key w.db.refresh_tokens)

mem-live :
    (raw : String) (now : ℕ) (t : RefreshToken) (ts : List RefreshToken)
    → Mem t ts
    → is_live raw now t ≡ true
    → 0 < count_if (is_live raw now) ts
mem-live raw now t ts m live = mem-count_if (is_live raw now) ts t m live

-- If the refresh tokens in the table are unique and the token has a row that is live when the
-- first of the racing requests comes, exactly one of them wins.
pub winners-eq-one :
    (raw : String) (now : ℕ) (nows : List ℕ) (d : Db) (t : RefreshToken)
    → UniqueTokens d.refresh_tokens
    → Mem t d.refresh_tokens
    → is_live raw now t ≡ true
    → winners raw (now ∷ nows) d ≡ 1
unfolding winners claim_token_sql
winners-eq-one raw now nows d t u m live =
    let d' : Db = record d {
      refresh_tokens = update_if (is_live raw now) revoke_token d.refresh_tokens;
    } in
    let one : count_if (is_live raw now) d.refresh_tokens ≡ 1 = omega (
      arith,
      mem-live raw now t d.refresh_tokens m live,
      live-le raw now d.refresh_tokens,
      u raw,
    ) in
    ground (
      arith,
      one,
      Revoked-winners raw nows d' (claimed-Revoked raw now d.refresh_tokens (u raw) one),
    )
