-- ===== src/Text/Escape.antt =====
-- `htmlEscape` of internal/handler/oauth.go.
use sir_auth.Base.{
  Char, code, List, [], ◌∷◌, ◌++◌, ◌≡◌, refl, sym, ap, ◌∙◌, nat_eq, if◌then◌else◌, Bool-cases, inl,
  inr,
}
use mathlib.Core.List.{append_assoc}
use sir_auth.Text.{chars, replace_all}

-- Four replacements, one after the other: the ampersand first.
unfoldable pub html_escape : List Char → List Char
unfolding replace_all chars
html_escape s = replace_all ">" (chars "&gt;") (
    replace_all "<" (chars "&lt;")
      (replace_all "\"" (chars "&#34;") (replace_all "&" (chars "&amp;") s)))

-- What should become of one character.
abbrev pub escaped : Char → List Char
unfolding chars
escaped c =
    if nat_eq (code c) (code "&")
    then chars "&amp;"
    else if nat_eq (code c) (code "\"")
    then chars "&#34;"
    else if nat_eq (code c) (code "<")
    then chars "&lt;"
    else if nat_eq (code c) (code ">")
    then chars "&gt;"
    else c ∷ []

unfoldable pub escape_once : List Char → List Char
escape_once [] = []
escape_once (c ∷ s) = escaped c ++ escape_once s

replace_all-append :
    (old : Char) (by s t : List Char)
    → replace_all old by (s ++ t) ≡ replace_all old by s ++ replace_all old by t
unfolding replace_all
replace_all-append old by [] t = refl
replace_all-append old by (c ∷ s) t = elim (Bool-cases (nat_eq (code c) (code old))) [
  | inl e ↦
      rw (e, replace_all-append old by s t)
        (sym (append_assoc by (replace_all old by s) (replace_all old by t)))
  | inr e ↦ rw (e, replace_all-append old by s t) refl
]

html_escape-append : (s t : List Char) → html_escape (s ++ t) ≡ html_escape s ++ html_escape t
unfolding html_escape
html_escape-append s t =
    let r1 = replace_all "&" (chars "&amp;") in
    let r2 = replace_all "\"" (chars "&#34;") in
    let r3 = replace_all "<" (chars "&lt;") in
    let r4 = replace_all ">" (chars "&gt;") in
    ap (λ x. r4 (r3 (r2 x))) (replace_all-append "&" (chars "&amp;") s t)
    ∙ ap (λ x. r4 (r3 x)) (replace_all-append "\"" (chars "&#34;") (r1 s) (r1 t))
    ∙ ap r4 (replace_all-append "<" (chars "&lt;") (r2 (r1 s)) (r2 (r1 t)))
    ∙ replace_all-append ">" (chars "&gt;") (r3 (r2 (r1 s))) (r3 (r2 (r1 t)))

html_escape_one : (c : Char) → html_escape (c ∷ []) ≡ escaped c
unfolding html_escape
html_escape_one c = elim (Bool-cases (nat_eq (code c) (code "&"))) [
  | inl a ↦ rw a refl
  | inr a ↦ elim (Bool-cases (nat_eq (code c) (code "\""))) [
    | inl q ↦ rw (a, q) refl
    | inr q ↦ elim (Bool-cases (nat_eq (code c) (code "<"))) [
      | inl l ↦ rw (a, q, l) refl
      | inr l ↦ elim (Bool-cases (nat_eq (code c) (code ">"))) [
        | inl g ↦ rw (a, q, l, g) refl
        | inr g ↦ rw (a, q, l, g) refl
      ]
    ]
  ]
]

html_escape_none : html_escape [] ≡ []
unfolding html_escape
html_escape_none = refl

-- The replacements, made one after the other, replace each special character of the text once, and
-- leave what they put in alone.
pub html_escape-escape_once : (s : List Char) → html_escape s ≡ escape_once s
unfolding escape_once
html_escape-escape_once [] = html_escape_none
html_escape-escape_once (c ∷ s) =
    html_escape-append (c ∷ []) s ∙ rw (html_escape_one c, html_escape-escape_once s) refl
