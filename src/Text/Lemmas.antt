-- ===== src/Text/Lemmas.antt =====
-- Lemmas on texts.
use text.Mathlib.TextEquality.{Char-path}
use mathlib.Core.List.{append_cancel_left, append_cancel_right}
use sir_auth.Base.{
  ℕ, ◌-◌, ◌≤◌, String, Char, code, ◌≡◌, refl, ap, sym, ◌∙◌, true, List, [], ◌∷◌, ◌++◌, arith,
  nat_eq,
}
use sir_auth.Text.{chars, string, concat, byte_len, utf8_size, take_bytes, same}

pub string-chars : (s : String) → string (chars s) ≡ s
unfolding chars string
string-chars String.[] = refl
string-chars (String.◌∷◌ c s) = ap (String.◌∷◌ c) (string-chars s)

pub chars-string : (s : List Char) → chars (string s) ≡ s
unfolding chars string
chars-string [] = refl
chars-string (c ∷ s) = ap (◌∷◌ c) (chars-string s)

pub chars-concat : (s t : String) → chars (concat s t) ≡ chars s ++ chars t
unfolding concat
chars-concat s t = chars-string (chars s ++ chars t)

pub code_eq : (c d : Char) → nat_eq (code c) (code d) ≡ true → c ≡ d
code_eq c d h = Char-path c d (ground arith)

pub same_sound : (s t : List Char) → same s t ≡ true → s ≡ t
unfolding same
same_sound [] [] h = refl
same_sound (c ∷ s) (d ∷ t) h = ground (arith, same_sound s t, code_eq c d)
same_sound [] (_ ∷ _) h = cc
same_sound (_ ∷ _) [] h = cc

pub same_refl : (s : List Char) → same s s ≡ true
unfolding same
same_refl [] = refl
same_refl (c ∷ s) = ground (arith, same_refl s)

-- The cut text fits.
pub byte_len-take_bytes : (n : ℕ) (s : List Char) → byte_len (take_bytes n s) ≤ n
unfolding byte_len take_bytes
byte_len-take_bytes n [] = omega arith
byte_len-take_bytes n (c ∷ s) = ground (arith, byte_len-take_bytes (n - utf8_size c) s)

-- A text that begins with another is not empty, if that is not.
pub concat-empty : (s t : String) → concat s t ≡ "" → s ≡ ""
unfolding chars string
concat-empty s t e =
    let p : chars s ++ chars t ≡ [] = rw (chars-concat s t) at (ap chars e) in
    empty_of (chars s) (string-chars s) p
  where
    empty_of : (l : List Char) → string l ≡ s → l ++ chars t ≡ [] → s ≡ ""
    empty_of [] q p = sym q
    empty_of (c ∷ l) q p = cc

pub concat-left : (s t u : String) → concat s t ≡ concat s u → t ≡ u
concat-left s t u e =
    let same : chars t ≡ chars u =
      append_cancel_left (chars s) (chars t) (chars u)
        (sym (chars-concat s t) ∙ ap chars e ∙ chars-concat s u) in
    sym (string-chars t) ∙ ap string same ∙ string-chars u

pub concat-right : (s t u : String) → concat t s ≡ concat u s → t ≡ u
concat-right s t u e =
    let same : chars t ≡ chars u =
      append_cancel_right (chars t) (chars u) (chars s)
        (sym (chars-concat t s) ∙ ap chars e ∙ chars-concat u s) in
    sym (string-chars t) ∙ ap string same ∙ string-chars u
