-- ===== src/Text.antt =====
-- What the program uses of Go's `strings`, `unicode` and `unicode/utf8`. A Go string is a text of
-- valid UTF-8 here: a list of characters, whose length in bytes is `byte_len`. Case folding and
-- `ToLower` are those of the ASCII letters (and of the two other characters that fold into them).
pub mod Lemmas
pub mod Escape
use Prim.Native.String
use sir_auth.Base.{
  ℕ, zero, suc, ◌+◌, ◌-◌, String, Char, code, Bool, true, false, ◌&&◌, ◌||◌, Option, none, some,
  List, [], ◌∷◌, ◌++◌, ltb, leb, nat_eq, if◌then◌else◌,
}

unfoldable pub chars : String → List Char
chars String.[] = []
chars (String.◌∷◌ c s) = c ∷ chars s

unfoldable pub string : List Char → String
string [] = ""
string (c ∷ s) = String.◌∷◌ c (string s)

unfoldable pub concat : String → String → String
unfolding chars string
concat s t = string (chars s ++ chars t)

-- The bytes that a character takes in UTF-8.
unfoldable pub utf8_size : Char → ℕ
utf8_size c =
    if ltb (code c) 0x80
    then 1
    else if ltb (code c) 0x800
    then 2
    else if ltb (code c) 0x10000
    then 3
    else 4

unfoldable pub byte_len : List Char → ℕ
unfolding utf8_size
byte_len [] = 0
byte_len (c ∷ s) = utf8_size c + byte_len s

-- `unicode.IsSpace`.
unfoldable pub is_space : Char → Bool
is_space c =
    let n = code c in
    (leb 9 n && leb n 13)
    || nat_eq n 32
    || nat_eq n 0x85
    || nat_eq n 0xa0
    || nat_eq n 0x1680
    || (leb 0x2000 n && leb n 0x200a)
    || nat_eq n 0x2028
    || nat_eq n 0x2029
    || nat_eq n 0x202f
    || nat_eq n 0x205f
    || nat_eq n 0x3000

unfoldable pub trim_left : List Char → List Char
unfolding is_space
trim_left [] = []
trim_left (c ∷ s) = if is_space c then trim_left s else c ∷ s

-- Keep a character if something other than space follows it, or if it is none itself.
abbrev pub keep_trimmed : Char → List Char → List Char
keep_trimmed c [] = if is_space c then [] else c ∷ []
keep_trimmed c (d ∷ s) = c ∷ d ∷ s

unfoldable pub trim_right : List Char → List Char
unfolding is_space
trim_right [] = []
trim_right (c ∷ s) = keep_trimmed c (trim_right s)

-- `strings.TrimSpace`.
unfoldable pub trim_space : List Char → List Char
unfolding trim_left trim_right
trim_space s = trim_right (trim_left s)

-- `strings.IndexFunc(h, unicode.IsSpace)` with the two slices around it; `none` is -1.
abbrev pub cons_first : Char → Option (List Char × List Char) → Option (List Char × List Char)
cons_first c none = none
cons_first c (some (a, b)) = some (c ∷ a, b)

unfoldable pub split_space : List Char → Option (List Char × List Char)
unfolding is_space
split_space [] = none
split_space (c ∷ s) = if is_space c then some ([], c ∷ s) else cons_first c (split_space s)

-- The representative of a character under simple case folding.
unfoldable pub fold : Char → ℕ
fold c =
    let n = code c in
    if leb 65 n && leb n 90
    then n + 32
    else if nat_eq n 0x17f
    then 115
    else if nat_eq n 0x212a
    then 107
    else n

-- `strings.EqualFold`.
unfoldable pub equal_fold : List Char → List Char → Bool
unfolding fold
equal_fold [] [] = true
equal_fold (c ∷ s) (d ∷ t) = nat_eq (fold c) (fold d) && equal_fold s t
equal_fold [] (_ ∷ _) = false
equal_fold (_ ∷ _) [] = false

unfoldable pub nth_char : List Char → ℕ → Char
nth_char [] n = "A"
nth_char (c ∷ s) zero = c
nth_char (c ∷ s) (suc n) = nth_char s n

unfoldable pub lower : Char → Char
unfolding nth_char chars
lower c =
    if leb 65 (code c) && leb (code c) 90
    then nth_char (chars "abcdefghijklmnopqrstuvwxyz") (code c - 65)
    else c

-- `strings.ToLower`.
unfoldable pub to_lower : List Char → List Char
unfolding lower
to_lower [] = []
to_lower (c ∷ s) = lower c ∷ to_lower s

-- `strings.CutPrefix`: the rest after the prefix, or `none` if it does not start so.
unfoldable pub cut_prefix : List Char → List Char → Option (List Char)
cut_prefix [] s = some s
cut_prefix (c ∷ p) [] = none
cut_prefix (c ∷ p) (d ∷ s) = if nat_eq (code c) (code d) then cut_prefix p s else none

abbrev pub or_else : Option (List Char) → List Char → List Char
or_else none s = s
or_else (some t) s = t

abbrev is_some : Option (List Char) → Bool
is_some none = false
is_some (some t) = true

-- `strings.HasPrefix(s, p)` and `strings.TrimPrefix(s, p)`.
unfoldable pub has_prefix : List Char → List Char → Bool
unfolding cut_prefix
has_prefix s p = is_some (cut_prefix p s)

unfoldable pub trim_prefix : List Char → List Char → List Char
unfolding cut_prefix
trim_prefix s p = or_else (cut_prefix p s) s

-- Whole texts are equal.
unfoldable pub same : List Char → List Char → Bool
same [] [] = true
same (c ∷ s) (d ∷ t) = nat_eq (code c) (code d) && same s t
same [] (_ ∷ _) = false
same (_ ∷ _) [] = false

-- `strings.HasSuffix(s, p)`.
unfoldable pub has_suffix : List Char → List Char → Bool
unfolding same
has_suffix [] p = same [] p
has_suffix (c ∷ s) p = same (c ∷ s) p || has_suffix s p

-- What stands before the first `sep` (`strings.Cut`, first result).
unfoldable pub before : Char → List Char → List Char
before sep [] = []
before sep (c ∷ s) = if nat_eq (code c) (code sep) then [] else c ∷ before sep s

-- `strings.ToValidUTF8(s[:n], "")`: a character that the cut splits is dropped.
unfoldable pub take_bytes : ℕ → List Char → List Char
unfolding utf8_size
take_bytes n [] = []
take_bytes n (c ∷ s) = if leb (utf8_size c) n then c ∷ take_bytes (n - utf8_size c) s else []

-- `strings.ReplaceAll` of one character.
unfoldable pub replace_all : Char → List Char → List Char → List Char
replace_all old by [] = []
replace_all old by (c ∷ s) =
    if nat_eq (code c) (code old) then by ++ replace_all old by s else c ∷ replace_all old by s
