-- ===== src/Pages/Laws.antt =====
-- About `TokensPage` of internal/handler/account.go and `Active` of internal/model/model.go.
use sir_auth.Base.{arith, ℕ, Bool, true, false, ◌≡◌}
use sir_auth.Model.{ApiToken, active}
use sir_auth.Pages.{
  TokenStatus, never_expires, revoked_on, expired_on, expires_soon, expires_on, token_status,
}

-- The statuses that promise that a token works.
abbrev pub is_usable : TokenStatus → Bool
is_usable never_expires = true
is_usable (revoked_on t) = false
is_usable (expired_on t) = false
is_usable (expires_soon t) = true
is_usable (expires_on t) = true

-- The page shows a token as revoked or expired exactly when it fails `Active`, the test that the
-- lookup of a token makes of its row.
pub is_usable-token_status :
    (t : ApiToken) (now : ℕ) → is_usable (token_status t now) ≡ active t now
unfolding token_status active
is_usable-token_status t now = ground arith
