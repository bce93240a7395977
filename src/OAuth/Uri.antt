-- ===== src/OAuth/Uri.antt =====
-- The checks of internal/handler/oauth.go on redirect URIs and on PKCE.
use sir_auth.Base.{
  String, Char, code, Bool, true, false, ◌==◌, ◌&&◌, ◌||◌, not, Option, none, some, List, [], ◌∷◌,
  if◌then◌else◌, leb, nat_eq, length,
}
use sir_auth.Model.{OAuthClient}
use sir_auth.Text.{chars, string, equal_fold, byte_len}
use sir_auth.World.{Outside, Url}
use sir_auth.Token.{b64}

abbrev is_loopback_host : String → Bool
is_loopback_host h = h == "127.0.0.1" || h == "localhost" || h == "::1"

abbrev pub is_loopback : Option Url → Bool
is_loopback none = false
is_loopback (some u) =
    if u.scheme == "https" then true else u.scheme == "http" && is_loopback_host u.hostname

unfoldable pub is_loopback_uri : Outside → String → Bool
is_loopback_uri o raw = is_loopback (o.parse_url raw)

abbrev pub urls_match : Option Url → Option Url → String → String → Bool
urls_match (some reg) (some req) registered request =
    if reg.scheme == "https"
    then registered == request
    else reg.scheme == req.scheme
      && equal_fold (chars reg.hostname) (chars req.hostname)
      && reg.path == req.path
urls_match _ _ registered request = false

-- `loopbackURIMatches`: but for the port and the query, the URI that was registered.
unfoldable pub loopback_uri_matches : Outside → (registered request : String) → Bool
unfolding equal_fold
loopback_uri_matches o registered request =
    urls_match (o.parse_url registered) (o.parse_url request) registered request

abbrev is_alphanumeric : Char → Bool
is_alphanumeric c =
    (leb b'a' (code c) && leb (code c) b'z')
    || (leb b'A' (code c) && leb (code c) b'Z')
    || (leb b'0' (code c) && leb (code c) b'9')

abbrev is_challenge_char : Char → Bool
is_challenge_char c = is_alphanumeric c || nat_eq (code c) b'_' || nat_eq (code c) b'-'

abbrev is_verifier_char : Char → Bool
is_verifier_char c = is_challenge_char c || nat_eq (code c) b'.' || nat_eq (code c) b'~'

unfoldable pub every : (Char → Bool) → List Char → Bool
every p [] = true
every p (c ∷ s) = p c && every p s

-- `^[A-Za-z0-9_-]{43}$` and `^[A-Za-z0-9._~-]{43,128}$`.
unfoldable pub is_challenge : String → Bool
unfolding every
is_challenge s = nat_eq (length (chars s)) 43 && every is_challenge_char (chars s)

unfoldable pub is_verifier : String → Bool
unfolding every
is_verifier s =
    leb 43 (length (chars s)) && leb (length (chars s)) 128 && every is_verifier_char (chars s)

-- `verifyPKCE`
unfoldable pub verify_pkce : Outside → (challenge verifier : String) → Bool
unfolding is_challenge is_verifier
verify_pkce o challenge verifier =
    is_verifier verifier && is_challenge challenge && string (b64 (o.sha256 verifier)) == challenge

abbrev is_native_redirect : Option Url → Bool
is_native_redirect none = false
is_native_redirect (some u) =
    u.scheme == "http"
    && u.hostname == "127.0.0.1"
    && not (u.port == "")
    && not u.has_user
    && u.raw_query == ""
    && u.fragment == ""

-- `validPublicAuthorization`
unfoldable pub valid_public_authorization :
    Outside → OAuthClient → (redirect challenge method state : String) → Bool
unfolding is_challenge loopback_uri_matches byte_len
valid_public_authorization o client redirect challenge method state =
    if not client.is_public
    then challenge == "" || (method == "S256" && is_challenge challenge)
    else is_native_redirect (o.parse_url redirect)
      && loopback_uri_matches o client.redirect_uri redirect
      && method == "S256"
      && is_challenge challenge
      && leb 32 (byte_len (chars state))
      && leb (byte_len (chars state)) 200
