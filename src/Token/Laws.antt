-- ===== src/Token/Laws.antt =====
-- About signed access tokens of internal/token/token.go: what is signed is read back, and what is read
-- was signed.
use sir_auth.Base.{
  ℕ, suc, ◌+◌, ◌/◌, ◌≤◌, String, Char, code, Bool, true, false, ◌&&◌, Option, none, some, List, [],
  ◌∷◌, ◌++◌, ◌≡◌, ◌≢◌, refl, ap, ◌∙◌, sym, arith, nat_eq, ltb, Bool-cases, inl, inr,
}
use sir_auth.Text.{chars, string, same}
use sir_auth.Text.Lemmas.{chars-string, same_sound, same_refl, code_eq}
use sir_auth.Base64.{encode}
use sir_auth.Base64.Laws.{Bytes, IsPlain, encode-IsPlain, decode-encode}
use sir_auth.World.{Outside, Claims, World, ok, second, now_ns, now_unix}
use sir_auth.Outcome.{Gives}
use sir_auth.Token.{
  header_bytes, b64, sign_hs256, sign_claims, generate_token, split_dots, signed_payload,
  read_claims, validate_access_token, add_first, decode_payload, unmarshal_payload,
}

-- A part without a dot is split off whole.
split_dots-first : (p s : List Char) → IsPlain p → split_dots (p ++ "." ∷ s) ≡ p ∷ split_dots s
unfolding split_dots
split_dots-first [] s h = refl
split_dots-first (c ∷ p) s ((fine, _), h) = ground (arith, split_dots-first p s h)

split_dots-last : (p : List Char) → IsPlain p → split_dots p ≡ p ∷ []
unfolding split_dots
split_dots-last [] h = refl
split_dots-last (c ∷ p) ((fine, _), h) = ground (arith, split_dots-last p h)

-- The parts of a text, put together again.
abbrev join_dots : List (List Char) → List Char
join_dots [] = []
join_dots (p ∷ []) = p
join_dots (p ∷ q ∷ ps) = p ++ "." ∷ join_dots (q ∷ ps)

reassoc : (h p x : List Char) → (h ++ "." ∷ p) ++ "." ∷ x ≡ h ++ "." ∷ (p ++ "." ∷ x)
reassoc [] p x = refl
reassoc (c ∷ h) p x = ap (◌∷◌ c) (reassoc h p x)

join_dots-add_first :
    (c : Char) (ps : List (List Char)) → ps ≢ [] → join_dots (add_first c ps) ≡ c ∷ join_dots ps
join_dots-add_first c [] h = absurd (h refl)
join_dots-add_first c (p ∷ []) h = refl
join_dots-add_first c (p ∷ q ∷ ps) h = refl

join_dots-dot : (ps : List (List Char)) → ps ≢ [] → join_dots ([] ∷ ps) ≡ "." ∷ join_dots ps
join_dots-dot [] h = absurd (h refl)
join_dots-dot (p ∷ ps) h = refl

split_dots-ne : (s : List Char) → split_dots s ≢ []
unfolding split_dots
split_dots-ne [] e = cc
split_dots-ne (c ∷ s) e = elim (Bool-cases (nat_eq (code c) b'.')) [
  | inl h ↦ absurd (nonempty (split_dots s) (rw h at e))
  | inr h ↦ absurd (added (split_dots s) (rw h at e))
]
  where
    nonempty : (ps : List (List Char)) → [] ∷ ps ≢ []
    nonempty ps q = cc

    added : (ps : List (List Char)) → add_first c ps ≢ []
    added [] q = cc
    added (p ∷ ps) q = cc

join_dots-split_dots : (s : List Char) → join_dots (split_dots s) ≡ s
unfolding split_dots
join_dots-split_dots [] = refl
join_dots-split_dots (c ∷ s) = elim (Bool-cases (nat_eq (code c) b'.')) [
  | inl h ↦ rw h (
      join_dots-dot (split_dots s) (split_dots-ne s)
      ∙ (ap (λ (t : List Char). "." ∷ t) (join_dots-split_dots s)
          ∙ ap (λ (d : Char). d ∷ s) (sym (code_eq c "." h))))
  | inr h ↦
      rw h (
        join_dots-add_first c (split_dots s) (split_dots-ne s)
        ∙ ap (◌∷◌ c) (join_dots-split_dots s))
]

-- The form of a signed token: header, payload and the signature of both.
pub record IsSigned (o : Outside) (raw secret : String) (c : Claims) : Type 0 where
  pub header : List Char
  pub payload : List Char
  pub text :
      chars raw ≡ header ++ "." ∷ payload ++ "." ∷ sign_hs256 o (header ++ "." ∷ payload) secret
  pub read : decode_payload o (some payload) ≡ some c

parts-IsSigned :
    (o : Outside) (raw secret : String) (c : Claims) (ps : List (List Char))
    → split_dots (chars raw) ≡ ps
    → decode_payload o (signed_payload o secret ps) ≡ some c
    → IsSigned o raw secret c
unfolding signed_payload
parts-IsSigned o raw secret c [] s e = cc
parts-IsSigned o raw secret c (h ∷ []) s e = cc
parts-IsSigned o raw secret c (h ∷ p ∷ []) s e = cc
parts-IsSigned o raw secret c (h ∷ p ∷ g ∷ q ∷ r) s e = cc
parts-IsSigned o raw secret c (h ∷ p ∷ g ∷ []) s e =
    elim (Bool-cases (same (sign_hs256 o (h ++ "." ∷ p) secret) g)) [
      | inl ok_sign ↦
          let joined : chars raw ≡ h ++ "." ∷ p ++ "." ∷ g =
            (sym (join_dots-split_dots (chars raw)) ∙ ap join_dots s) ∙ sym (reassoc h p g) in
          let signed : sign_hs256 o (h ++ "." ∷ p) secret ≡ g = same_sound _ g ok_sign in
          record { header = h; payload = p; text = rw signed joined; read = rw ok_sign at e }
      | inr bad ↦ absurd (no_claims (rw bad at e))
    ]
  where
    no_claims : ◌≡◌ {A = Option Claims} none (some c) → ⊥
    no_claims q = cc

-- Claims that are read from a text were signed with the secret: the text is a header, the payload that
-- they are decoded from and the signature of both.
pub read_claims-IsSigned :
    (o : Outside) (raw secret : String) (c : Claims)
    → read_claims o raw secret ≡ some c
    → IsSigned o raw secret c
unfolding read_claims
read_claims-IsSigned o raw secret c e =
    parts-IsSigned o raw secret c (split_dots (chars raw)) refl e

are_bytes : List ℕ → Bool
are_bytes [] = true
are_bytes (b ∷ bs) = ltb b 256 && are_bytes bs

are_bytes-Bytes : (bs : List ℕ) → are_bytes bs ≡ true → Bytes bs
unfolding are_bytes
are_bytes-Bytes [] h = tt
are_bytes-Bytes (b ∷ bs) h = (ground arith, are_bytes-Bytes bs (ground arith))

header-IsPlain : IsPlain (b64 header_bytes)
unfolding b64 chars are_bytes
header-IsPlain = encode-IsPlain header_bytes (are_bytes-Bytes header_bytes refl)

split_dots-three :
    (h p g : List Char)
    → IsPlain h
    → IsPlain p
    → IsPlain g
    → split_dots ((h ++ "." ∷ p) ++ "." ∷ g) ≡ h ∷ p ∷ g ∷ []
split_dots-three h p g a b c =
    rw
      (
        reassoc h p g,
        split_dots-first h (p ++ "." ∷ g) a,
        split_dots-first p g b,
        split_dots-last g c,
      )
      refl

signed_payload-signed :
    (o : Outside) (secret : String) (h p : List Char)
    → signed_payload o secret (h ∷ p ∷ sign_hs256 o (h ++ "." ∷ p) secret ∷ []) ≡ some p
unfolding signed_payload
signed_payload-signed o secret h p = rw (same_refl (sign_hs256 o (h ++ "." ∷ p) secret)) refl

-- What `encoding/json` and `crypto/hmac` are relied on for with these claims: bytes, and claims that
-- are read back.
pub record IsCodec (o : Outside) (c : Claims) : Type 0 where
  pub marshal_bytes : Bytes (o.marshal c)
  pub hmac_bytes : (key text : String) → Bytes (o.hmac_sha256 key text)
  pub back : o.unmarshal (o.marshal c) ≡ some c

pub read_claims-sign_claims :
    (o : Outside) (c : Claims) (secret : String)
    → IsCodec o c
    → read_claims o (sign_claims o c secret) secret ≡ some c
unfolding read_claims sign_claims b64
read_claims-sign_claims o c secret codec =
    let h : List Char = encode header_bytes in
    let p : List Char = encode (o.marshal c) in
    let g : List Char = sign_hs256 o (h ++ "." ∷ p) secret in
    let plain : IsPlain g = encode-IsPlain _ (codec.hmac_bytes (string (h ++ "." ∷ p)) secret) in
    let parts : split_dots (chars (string ((h ++ "." ∷ p) ++ "." ∷ g))) ≡ h ∷ p ∷ g ∷ [] =
      ap split_dots (chars-string ((h ++ "." ∷ p) ++ "." ∷ g))
      ∙ split_dots-three h p g header-IsPlain (encode-IsPlain _ codec.marshal_bytes) plain in
    ap (λ ps. decode_payload o (signed_payload o secret ps)) parts
    ∙ (ap (decode_payload o) (signed_payload-signed o secret h p)
        ∙ (ap (unmarshal_payload o) (decode-encode (o.marshal c) codec.marshal_bytes) ∙ codec.back))

-- The claims that a token generated now is to have.
abbrev pub new_claims : (user_id email role scope : String) → ℕ → World → Claims
new_claims user_id email role scope ttl w = record {
  sub = user_id;
  email = email;
  role = role;
  scope = scope;
  exp = (w.outside.clock w.calls + ttl) / second;
  iat = w.outside.clock (suc w.calls) / second;
}

-- If JSON and HMAC give bytes and the new claims are read back from their JSON, generating a token
-- gives a token, and it is valid, with these claims, wherever the same secret and the same outside
-- functions are used and the clock has not passed the expiry.
pub validate_access_token-generate_token :
    (user_id email role scope secret : String) (ttl : ℕ) (w v : World)
    → IsCodec w.outside (new_claims user_id email role scope ttl w)
    → v.outside ≡ w.outside
    → v.outside.clock v.calls / second ≤ (w.outside.clock w.calls + ttl) / second
    → Gives
        (λ jwt _.
          (raw : String) × (jwt ≡ ok raw)
          × Gives
              (λ c _. c ≡ some (new_claims user_id email role scope ttl w))
              (validate_access_token raw secret v))
        (generate_token user_id email role scope secret ttl w)
unfolding generate_token validate_access_token now_ns now_unix
validate_access_token-generate_token user_id email role scope secret ttl w v codec same_outside
      time =
    let c : Claims = new_claims user_id email role scope ttl w in
    let raw : String = sign_claims w.outside c secret in
    let read : read_claims v.outside raw secret ≡ some c =
      rw same_outside (read_claims-sign_claims w.outside c secret codec) in
    let fresh : ltb c.exp (v.outside.clock v.calls / second) ≡ false = ground (arith, time) in
    (raw, refl, rw read (rw fresh refl))
