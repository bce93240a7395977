-- ===== src/Stats/Queries.antt =====
-- About `query` and `parseWindow` of internal/handler/stats.go: the parameters of a link, read back.
use sir_auth.Base.{
  arith, ℕ, String, Bool, true, false, ◌==◌, ◌||◌, not, ◌≡◌, refl, none, some, [], ◌∷◌,
  if◌then◌else◌, eq_iff, Bool-cases, Option-cases, subst, ap, sym, ◌∙◌, inl, inr, ltb,
}
use sir_auth.World.{Outside, Request}
use sir_auth.Stats.Windows.{parse_window, preset_window, preset_or_week}
use sir_auth.Stats.Links.{Params, set_param, get_param, window_params, add_params}

-- The request that a browser makes for a link.
abbrev pub follow : Params → Request → Request
follow ps r = record r { query = λ k. get_param k ps }

get_param-set_param :
    (k j x : String) (ps : Params)
    → get_param j (set_param k x ps) ≡ (if k == j then x else get_param j ps)
unfolding get_param set_param
get_param-set_param k j x [] = refl
get_param-set_param k j x ((i, y) ∷ ps) =
    ground (arith, eq_iff k j, eq_iff i k, eq_iff i j, get_param-set_param k j x ps)

-- None of the parameters has the key.
abbrev pub Absent : String → Params → Type 0
Absent k [] = Unit {0}
Absent k ((j, x) ∷ ps) = ((j == k) ≡ false) × Absent k ps

pub get_param-add_params :
    (k : String) (extra v : Params)
    → Absent k extra
    → get_param k (add_params extra v) ≡ get_param k v
unfolding add_params
get_param-add_params k [] v h = refl
get_param-add_params k ((j, x) ∷ extra) v (n, h) = ground (
  arith,
  get_param-add_params k extra (if not (x == "") then set_param j x v else v) h,
  get_param-set_param j k x v,
)

pub parse_window-cong :
    (o : Outside) (r s : Request) (now : ℕ)
    → r.query "from" ≡ s.query "from"
    → r.query "to" ≡ s.query "to"
    → r.query "range" ≡ s.query "range"
    → parse_window o r now ≡ parse_window o s now
unfolding parse_window
parse_window-cong o r s now a b c = rw (a, b, c) refl

preset_or_week_idem : (p : String) → preset_or_week (preset_or_week p) ≡ preset_or_week p
unfolding preset_or_week
preset_or_week_idem p = elim (Bool-cases (p == "24h" || p == "7d" || p == "30d")) [
  | inl e ↦ rw (e, e) refl
  | inr e ↦ rw e refl
]

preset_or_week-ne : (p : String) → (preset_or_week p == "") ≡ false
unfolding preset_or_week
preset_or_week-ne p = elim (Bool-cases (p == "24h" || p == "7d" || p == "30d")) [
  | inl e ↦ rw e (elim (Bool-cases (p == "")) [
    | inl none_given ↦ absurd (not_a_preset (subst is_preset ((eq_iff p "").0 none_given) e))
    | inr given ↦ given
  ])
  | inr e ↦ rw e refl
]
  where
    is_preset : String → Type 0
    is_preset q = (q == "24h" || q == "7d" || q == "30d") ≡ true

    not_a_preset : ◌≡◌ {A = Bool} false true → ⊥
    not_a_preset h = cc

preset_params :
    (o : Outside) (p : String) (now : ℕ)
    → (p == "") ≡ false
    → window_params (preset_window o p now) ≡ ("range", p) ∷ []
unfolding window_params set_param
preset_params o p now e = rw e refl

module _ (o : Outside) (r : Request) (no_day : o.parse_day "" ≡ none) where
  parse_window-range :
      (p : String) (later : ℕ)
      → parse_window o (follow (("range", p) ∷ []) r) later
        ≡ preset_window o (preset_or_week p) later
  unfolding parse_window get_param
  parse_window-range p later = rw no_day refl

  by_preset :
      (now later : ℕ)
      → ((n : ℕ) → parse_window o r n ≡ preset_window o (preset_or_week (r.query "range")) n)
      → parse_window o (follow (window_params (parse_window o r now)) r) later
        ≡ parse_window o r later
  by_preset now later h =
      let p = preset_or_week (r.query "range") in
      ap (λ win. parse_window o (follow (window_params win) r) later) (h now)
      ∙ ap (λ ps. parse_window o (follow ps r) later)
          (preset_params o p now (preset_or_week-ne (r.query "range")))
      ∙ parse_window-range p later
      ∙ ap (λ q. preset_window o q later) (preset_or_week_idem (r.query "range"))
      ∙ sym (h later)

  by_days :
      (now later f t : ℕ)
      → o.parse_day (r.query "from") ≡ some f
      → o.parse_day (r.query "to") ≡ some t
      → ltb t f ≡ false
      → parse_window o (follow (window_params (parse_window o r now)) r) later
        ≡ parse_window o r later
  unfolding parse_window window_params get_param set_param
  by_days now later f t from to order = rw (from, to, order) (rw (from, to, order) refl)

  -- The parameters of a window give the same window at every time.
  pub parse_window-window_params :
      (now later : ℕ)
      → parse_window o (follow (window_params (parse_window o r now)) r) later
        ≡ parse_window o r later
  parse_window-window_params now later = elim (Option-cases (o.parse_day (r.query "from"))) [
    | inl no_from ↦ by_preset now later (λ n. unfold parse_window in (rw no_from refl))
    | inr (f, from) ↦ elim (Option-cases (o.parse_day (r.query "to"))) [
      | inl no_to ↦ by_preset now later (λ n. unfold parse_window in (rw (from, no_to) refl))
      | inr (t, to) ↦ elim (Bool-cases (ltb t f)) [
        | inl late ↦ by_preset now later (λ n. unfold parse_window in (rw (from, to, late) refl))
        | inr order ↦ by_days now later f t from to order
      ]
    ]
  ]
