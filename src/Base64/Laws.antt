-- ===== src/Base64/Laws.antt =====
-- About encoding and decoding, and what an encoded text looks like.
use sir_auth.Base.{
  ℕ, zero, suc, ◌+◌, ◌*◌, ◌/◌, ◌%◌, ◌<◌, Char, code, ◌≡◌, refl, Bool, true, false, ◌&&◌, not, ◌||◌,
  Option, none, some, List, [], ◌∷◌, arith, nat_eq, Bool-cases, if◌then◌else◌, inl, inr,
}
use sir_auth.Text.{chars, is_space}
use sir_auth.Base64.{sextet, encode, value, skip_breaks, decode_quads, decode}

-- Every sextet passes a test, by trying each.
passes_below : (ℕ → Bool) → ℕ → Bool
passes_below test zero = true
passes_below test (suc m) = if test m then passes_below test m else false

passes_below_at : (test : ℕ → Bool) (m k : ℕ) → k < m → passes_below test m ≡ true → test k ≡ true
unfolding passes_below
passes_below_at test zero k less all = absurd (omega arith)
passes_below_at test (suc m) k less all = elim (Bool-cases (test m)) [
  | inl here ↦ ground (arith, passes_below_at test m k)
  | inr not_here ↦ ground arith
]

abbrev is_value : Option ℕ → ℕ → Bool
is_value none n = false
is_value (some m) n = nat_eq m n

is_value_sound : (o : Option ℕ) (n : ℕ) → is_value o n ≡ true → o ≡ some n
is_value_sound none n h = cc
is_value_sound (some m) n h = ground arith

value_table : passes_below (λ n. is_value (value (sextet n)) n) 64 ≡ true
unfolding passes_below value sextet chars
value_table = refl

value-sextet : (n : ℕ) → n < 64 → value (sextet n) ≡ some n
value-sextet n h = is_value_sound (value (sextet n)) n (passes_below_at _ 64 n h value_table)

-- The characters of the alphabet: no dot, no space and no line break among them.
abbrev pub is_plain : Char → Bool
is_plain c = not (is_space c) && not (nat_eq (code c) b'.')

plain_table : passes_below (λ n. is_plain (sextet n)) 64 ≡ true
unfolding passes_below sextet chars is_space
plain_table = refl

sextet-plain : (n : ℕ) → n < 64 → is_plain (sextet n) ≡ true
sextet-plain n h = passes_below_at _ 64 n h plain_table

abbrev is_break : Char → Bool
is_break c = nat_eq (code c) 10 || nat_eq (code c) 13

break_table : passes_below (λ n. not (is_break (sextet n))) 64 ≡ true
unfolding passes_below sextet chars
break_table = refl

sextet-break : (n : ℕ) → n < 64 → is_break (sextet n) ≡ false
sextet-break n h = ground (arith, passes_below_at _ 64 n h break_table)

-- Every number of the list is a byte.
abbrev pub Bytes : List ℕ → Type 0
Bytes [] = Unit {0}
Bytes (b ∷ bs) = (b < 256) × Bytes bs

-- No space, dot or line break.
abbrev pub IsFine : Char → Type 0
IsFine c = (is_plain c ≡ true) × (is_break c ≡ false)

abbrev pub IsPlain : List Char → Type 0
IsPlain [] = Unit {0}
IsPlain (c ∷ s) = IsFine c × IsPlain s

sextet-IsFine : (n : ℕ) → n < 64 → IsFine (sextet n)
sextet-IsFine n h = (sextet-plain n h, sextet-break n h)

pub encode-IsPlain : (bs : List ℕ) → Bytes bs → IsPlain (encode bs)
unfolding encode
encode-IsPlain [] h = tt
encode-IsPlain (a ∷ []) (h, t) =
    (sextet-IsFine (a / 4) (omega arith), (sextet-IsFine (a % 4 * 16) (omega arith), tt))
encode-IsPlain (a ∷ b ∷ []) (h, (k, t)) = (
  sextet-IsFine (a / 4) (omega arith),
  (
    sextet-IsFine (a % 4 * 16 + b / 16) (omega arith),
    (sextet-IsFine (b % 16 * 4) (omega arith), tt),
  ),
)
encode-IsPlain (a ∷ b ∷ c ∷ r) (h, (k, (l, t))) = (
  sextet-IsFine (a / 4) (omega arith),
  (
    sextet-IsFine (a % 4 * 16 + b / 16) (omega arith),
    (
      sextet-IsFine (b % 16 * 4 + c / 64) (omega arith),
      (sextet-IsFine (c % 64) (omega arith), encode-IsPlain r t),
    ),
  ),
)

skip_breaks_of_IsPlain : (s : List Char) → IsPlain s → skip_breaks s ≡ s
unfolding skip_breaks
skip_breaks_of_IsPlain [] h = refl
skip_breaks_of_IsPlain (c ∷ s) ((_, b), h) = rw (b, skip_breaks_of_IsPlain s h)

decode_quads-encode : (bs : List ℕ) → Bytes bs → decode_quads (encode bs) ≡ some bs
unfolding encode decode_quads
decode_quads-encode [] h = refl
decode_quads-encode (a ∷ []) (h, t) =
    rw (value-sextet (a / 4) (omega arith), value-sextet (a % 4 * 16) (omega arith)) (ground arith)
decode_quads-encode (a ∷ b ∷ []) (h, (k, t)) =
    rw
      (
        value-sextet (a / 4) (omega arith),
        value-sextet (a % 4 * 16 + b / 16) (omega arith),
        value-sextet (b % 16 * 4) (omega arith),
      )
      (ground arith)
decode_quads-encode (a ∷ b ∷ c ∷ r) (h, (k, (l, t))) =
    rw
      (
        value-sextet (a / 4) (omega arith),
        value-sextet (a % 4 * 16 + b / 16) (omega arith),
        value-sextet (b % 16 * 4 + c / 64) (omega arith),
        value-sextet (c % 64) (omega arith),
        decode_quads-encode r t,
      )
      (ground arith)

-- Decoding an encoded list of bytes gives the list back.
pub decode-encode : (bs : List ℕ) → Bytes bs → decode (encode bs) ≡ some bs
unfolding decode
decode-encode bs h =
    rw (skip_breaks_of_IsPlain (encode bs) (encode-IsPlain bs h)) (decode_quads-encode bs h)
