-- ===== src/Token.antt =====
-- internal/token/token.go: signed access tokens, random strings, personal access tokens.
-- SHA-256, HMAC, bcrypt, the random source and `encoding/json` are of `Outside`; base64 is `Base64`.
pub mod Laws
use sir_auth.Base.{
  ℕ, ◌+◌, ◌*◌, ◌/◌, ◌%◌, String, Char, code, Bool, Option, none, some, List, [], ◌∷◌, ◌++◌, map,
  ltb, nat_eq, if◌then◌else◌,
}
use sir_auth.Text.{
  chars, string, trim_space, split_space, equal_fold, byte_len, take_bytes, nth_char, same,
}
use sir_auth.Base64.{encode, decode}
use sir_auth.World.{
  Outside, Claims, M, Result, failed, ok, ◌>>=◌, pure, ask, now_ns, now_unix, second, tick, next,
}

-- Lifetimes in nanoseconds.
abbrev pub access_token_ttl : ℕ
access_token_ttl = 3600 * second

abbrev pub refresh_token_ttl : ℕ
refresh_token_ttl = 30 * 24 * 3600 * second

abbrev pub auth_code_ttl : ℕ
auth_code_ttl = 10 * 60 * second

-- `{"alg":"HS256","typ":"JWT"}`
abbrev pub header_bytes : List ℕ
unfolding chars
header_bytes = map code (chars "{\"alg\":\"HS256\",\"typ\":\"JWT\"}")

unfoldable pub b64 : List ℕ → List Char
b64 bs = encode bs

unfoldable pub sign_hs256 : Outside → List Char → String → List Char
unfolding b64
sign_hs256 o hp secret = b64 (o.hmac_sha256 (string hp) secret)

unfoldable pub sign_claims : Outside → Claims → String → String
unfolding sign_hs256
sign_claims o c secret =
    let hp = b64 header_bytes ++ "." ∷ b64 (o.marshal c) in
    string (hp ++ "." ∷ sign_hs256 o hp secret)

unfoldable pub generate_token :
    (user_id email role scope secret : String) (ttl : ℕ) → M (Result String)
unfolding sign_claims now_ns now_unix
generate_token user_id email role scope secret ttl = do
  start ← now_ns
  iat ← now_unix
  o ← ask
  let c : Claims = record {
    sub = user_id;
    email = email;
    role = role;
    scope = scope;
    exp = (start + ttl) / second;
    iat = iat;
  }
  pure (ok (sign_claims o c secret))

unfoldable pub generate_access_token :
    (user_id email role scope secret : String) → M (Result String)
unfolding generate_token
generate_access_token user_id email role scope secret =
    generate_token user_id email role scope secret access_token_ttl

-- `strings.Split(s, ".")`.
abbrev pub add_first : Char → List (List Char) → List (List Char)
add_first c [] = (c ∷ []) ∷ []
add_first c (p ∷ ps) = (c ∷ p) ∷ ps

unfoldable pub split_dots : List Char → List (List Char)
split_dots [] = [] ∷ []
split_dots (c ∷ s) =
    let rest = split_dots s in if nat_eq (code c) b'.' then [] ∷ rest else add_first c rest

-- The payload of a token of three parts whose signature is right.
unfoldable pub signed_payload : Outside → String → List (List Char) → Option (List Char)
unfolding sign_hs256
signed_payload o secret (h ∷ p ∷ s ∷ []) =
    if same (sign_hs256 o (h ++ "." ∷ p) secret) s then some p else none
signed_payload o secret _ = none

abbrev pub unmarshal_payload : Outside → Option (List ℕ) → Option Claims
unmarshal_payload o none = none
unmarshal_payload o (some bs) = o.unmarshal bs

abbrev pub decode_payload : Outside → Option (List Char) → Option Claims
decode_payload o none = none
decode_payload o (some p) = unmarshal_payload o (decode p)

unfoldable pub read_claims : Outside → String → String → Option Claims
unfolding signed_payload split_dots
read_claims o raw secret = decode_payload o (signed_payload o secret (split_dots (chars raw)))

-- The clock is read only for a token that decodes; an expired one is refused.
abbrev unexpired : Option Claims → M (Option Claims)
unexpired none w = next none w
unexpired (some c) w =
    let t = w.outside.clock w.calls / second in next (if ltb c.exp t then none else some c) (tick w)

unfoldable pub validate_access_token : String → String → M (Option Claims)
unfolding read_claims
validate_access_token raw secret w = unexpired (read_claims w.outside raw secret) w

abbrev encode_random : Option (List ℕ) → Result String
encode_random none = failed
encode_random (some bs) = ok (string (b64 bs))

unfoldable pub random_string : ℕ → M (Result String)
unfolding b64
random_string n w = next (encode_random (w.outside.rand w.calls n)) (tick w)

-- bcrypt salts at random: the hash depends on the call.
abbrev of_option : Option String → Result String
of_option none = failed
of_option (some h) = ok h

unfoldable pub hash_password : String → M (Result String)
hash_password password w = next (of_option (w.outside.bcrypt_hash w.calls password)) (tick w)

unfoldable pub verify_password : Outside → String → String → Bool
verify_password o password hash = o.bcrypt_matches hash password

abbrev pub pat_prefix : List Char
unfolding chars
pat_prefix = chars "sirpat_"

-- `hex.EncodeToString`.
unfoldable pub hex : List ℕ → List Char
unfolding nth_char chars
hex [] = []
hex (b ∷ bs) =
    nth_char (chars "0123456789abcdef") (b / 16)
    ∷ nth_char (chars "0123456789abcdef") (b % 16)
    ∷ hex bs

unfoldable pub hash_pat : Outside → String → String
unfolding hex
hash_pat o raw = string (hex (o.sha256 raw))

pub record Pat : Type 0 where
  pub raw : String
  pub hash : String
  pub prefix : String

abbrev make_pat : Outside → Result String → Result Pat
make_pat o failed = failed
make_pat o (ok r) =
    let raw = pat_prefix ++ chars r in
    ok (record {
      raw = string raw;
      hash = hash_pat o (string raw);
      prefix = string (take_bytes 12 raw);
    })

unfoldable pub new_pat : M (Result Pat)
unfolding random_string hash_pat
new_pat = do r ← random_string 32; o ← ask; pure (make_pat o r)

-- `ParseBearerPAT`: a header `Bearer sirpat_…`, both words in any case, any space between.
unfoldable pub sirpat_credential : List Char → Option (List Char)
unfolding equal_fold take_bytes trim_space byte_len
sirpat_credential s =
    let cred = trim_space s in
    if ltb (byte_len cred) 7
    then none
    else if equal_fold (take_bytes 7 cred) pat_prefix
    then some cred
    else none

abbrev bearer_credential : Option (List Char × List Char) → Option (List Char)
bearer_credential none = none
bearer_credential (some (scheme, rest)) =
    if equal_fold scheme (chars "Bearer") then sirpat_credential rest else none

unfoldable pub parse_bearer_chars : List Char → Option (List Char)
unfolding split_space sirpat_credential chars
parse_bearer_chars header = bearer_credential (split_space (trim_space header))

abbrev to_string : Option (List Char) → Option String
to_string none = none
to_string (some s) = some (string s)

unfoldable pub parse_bearer_pat : String → Option String
unfolding parse_bearer_chars
parse_bearer_pat header = to_string (parse_bearer_chars (chars header))
