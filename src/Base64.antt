-- ===== src/Base64.antt =====
-- `base64.RawURLEncoding`, which internal/token/token.go uses for the parts of a signed token and
-- for random strings: three bytes are four characters, and there is no padding.
pub mod Laws
use sir_auth.Base.{
  ℕ, suc, zero, ◌+◌, ◌*◌, ◌/◌, ◌%◌, ◌≤◌, ◌<◌, Char, code, Bool, Option, none, some, List, [], ◌∷◌,
  ◌||◌, nat_eq, if◌then◌else◌,
}
use sir_auth.Text.{chars, nth_char}

abbrev pub alphabet : List Char
unfolding chars
alphabet = chars "ABCDEFGHIJKLMNOPQRSTUVWXYZabcdefghijklmnopqrstuvwxyz0123456789-_"

unfoldable pub sextet : ℕ → Char
unfolding nth_char chars
sextet n = nth_char alphabet n

unfoldable pub encode : List ℕ → List Char
encode [] = []
encode (a ∷ []) = sextet (a / 4) ∷ sextet (a % 4 * 16) ∷ []
encode (a ∷ b ∷ []) = sextet (a / 4) ∷ sextet (a % 4 * 16 + b / 16) ∷ sextet (b % 16 * 4) ∷ []
encode (a ∷ b ∷ c ∷ r) =
    sextet (a / 4)
    ∷ sextet (a % 4 * 16 + b / 16)
    ∷ sextet (b % 16 * 4 + c / 64)
    ∷ sextet (c % 64)
    ∷ encode r

-- The place of a character in the alphabet.
unfoldable pub position : List Char → Char → Option ℕ
position [] c = none
position (d ∷ ds) c =
    let rest = position ds c in
    if nat_eq (code d) (code c) then some 0 else elim rest [ none ↦ none | some n ↦ some (suc n) ]

unfoldable pub value : Char → Option ℕ
unfolding position chars
value c = position alphabet c

abbrev pub two : Option ℕ → Option ℕ → Option (List ℕ)
two (some p) (some q) = some ((p * 4 + q / 16) ∷ [])
two _ _ = none

abbrev pub three : Option ℕ → Option ℕ → Option ℕ → Option (List ℕ)
three (some p) (some q) (some r) = some ((p * 4 + q / 16) ∷ (q % 16 * 16 + r / 4) ∷ [])
three _ _ _ = none

abbrev pub four : Option ℕ → Option ℕ → Option ℕ → Option ℕ → Option (List ℕ) → Option (List ℕ)
four (some p) (some q) (some r) (some s) (some rest) =
    some ((p * 4 + q / 16) ∷ (q % 16 * 16 + r / 4) ∷ (r % 4 * 64 + s) ∷ rest)
four _ _ _ _ _ = none

-- The decoder skips line breaks first; the bits left over in the last character are not tested.
unfoldable pub skip_breaks : List Char → List Char
skip_breaks [] = []
skip_breaks (c ∷ s) =
    if nat_eq (code c) 10 || nat_eq (code c) 13 then skip_breaks s else c ∷ skip_breaks s

unfoldable pub decode_quads : List Char → Option (List ℕ)
decode_quads [] = some []
decode_quads (a ∷ []) = none
decode_quads (a ∷ b ∷ []) = two (value a) (value b)
decode_quads (a ∷ b ∷ c ∷ []) = three (value a) (value b) (value c)
decode_quads (a ∷ b ∷ c ∷ d ∷ r) = four (value a) (value b) (value c) (value d) (decode_quads r)

unfoldable pub decode : List Char → Option (List ℕ)
unfolding skip_breaks decode_quads
decode s = decode_quads (skip_breaks s)
