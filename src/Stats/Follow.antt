-- ===== src/Stats/Follow.antt =====
-- About the links of internal/handler/stats.go: what the page that a link leads to is asked for.
use sir_auth.Base.{
  ◌+◌, ◌++◌, List, [], ◌∷◌, ap, sym, inl, inr, Bool-cases, ltb, arith, ℕ, ◌<◌, String, Bool, true,
  false, ◌==◌, ◌≡◌, refl, none, eq_iff, ◌∙◌,
}
use sir_auth.Model.{User}
use sir_auth.World.{Outside, Request, Cell, link}
use sir_auth.Store.Logs.{LogFilter, Bucket}
use sir_auth.Stats.Windows.{StatsWindow, parse_window, filter_of, scope_of}
use sir_auth.Stats.Links.{
  Params, pager, page_params, bucket_link, set_param, get_param, window_params, add_params, query,
  filters_of,
}
use sir_auth.Stats.{page_number}
use sir_auth.Stats.Queries.{
  follow, Absent, get_param-add_params, parse_window-cong, parse_window-window_params,
}

-- The conditions on the recent requests of a page.
abbrev pub rows_asked : Outside → Bool → User → Request → ℕ → LogFilter
rows_asked o admin u r now =
    filter_of (parse_window o r now) (scope_of admin u r) (r.query "token") (r.query "host")

-- The filters in a page's links.
abbrev pub filters_in : Bool → User → Request → Params
filters_in admin u r = filters_of admin (scope_of admin u r) (r.query "token") (r.query "host")

-- No parameter of these is one of a window.
NoWindow : Params → Type 0
NoWindow ps = Absent "from" ps × Absent "to" ps × Absent "range" ps

filters-NoWindow :
    (admin : Bool) (who token host k x : String)
    → ((k == "from") ≡ false) × ((k == "to") ≡ false) × ((k == "range") ≡ false)
    → NoWindow (set_param k x (filters_of admin who token host))
unfolding NoWindow set_param filters_of
filters-NoWindow admin who token host k x h = ground arith

-- What a link of a page asks for: one filter is set, the window and the others are kept.
abbrev pub linked : Outside → Bool → User → Request → ℕ → (key value : String) → Request
linked o admin u r now k x =
    follow (query (parse_window o r now) (set_param k x (filters_in admin u r))) r

parse_window-linked :
    (o : Outside) (admin : Bool) (u : User) (r : Request) (now later : ℕ) (k x : String)
    → o.parse_day "" ≡ none
    → ((k == "from") ≡ false) × ((k == "to") ≡ false) × ((k == "range") ≡ false)
    → parse_window o (linked o admin u r now k x) later ≡ parse_window o r later
unfolding query NoWindow
parse_window-linked o admin u r now later k x no_day other =
    let extra : Params = set_param k x (filters_in admin u r) in
    let params : Params = window_params (parse_window o r now) in
    let (from, to, range) =
      filters-NoWindow admin (scope_of admin u r) (r.query "token") (r.query "host") k x other in
    parse_window-cong o (follow (add_params extra params) r) (follow params r) later
      (get_param-add_params "from" extra params from) (get_param-add_params "to" extra params to)
      (get_param-add_params "range" extra params range)
    ∙ parse_window-window_params o r no_day now later

-- What a link has of the filters.
module _ (win : StatsWindow) (admin : Bool) (who token host x : String) where
  get_page_linked :
      (get_param "page" (query win (set_param "page" x (filters_of admin who token host))) ≡ x)
      × (get_param "host" (query win (set_param "page" x (filters_of admin who token host))) ≡ host)
      × (get_param "token" (query win (set_param "page" x (filters_of admin who token host)))
          ≡ token)
  unfolding query add_params set_param window_params filters_of get_param
  get_page_linked = ground (arith, eq_iff host "", eq_iff token "", eq_iff x "", eq_iff who "")

  get_host_linked :
      (get_param "host" (query win (set_param "host" x (filters_of admin who token host))) ≡ x)
      × (get_param "token" (query win (set_param "host" x (filters_of admin who token host)))
          ≡ token)
  unfolding query add_params set_param window_params filters_of get_param
  get_host_linked = ground (arith, eq_iff host "", eq_iff token "", eq_iff x "", eq_iff who "")

  get_token_linked :
      (get_param "host" (query win (set_param "token" x (filters_of admin who token host))) ≡ host)
      × (get_param "token" (query win (set_param "token" x (filters_of admin who token host))) ≡ x)
  unfolding query add_params set_param window_params filters_of get_param
  get_token_linked = ground (arith, eq_iff host "", eq_iff token "", eq_iff x "", eq_iff who "")

module _ (win : StatsWindow) (who token host x : String) where
  get_page_user :
      (admin : Bool)
      → admin ≡ true
      → get_param "user" (query win (set_param "page" x (filters_of admin who token host))) ≡ who
  unfolding query add_params set_param window_params filters_of get_param
  get_page_user true h = ground (arith, eq_iff host "", eq_iff token "", eq_iff x "", eq_iff who "")
  get_page_user false h = cc

  get_host_user :
      (admin : Bool)
      → admin ≡ true
      → get_param "user" (query win (set_param "host" x (filters_of admin who token host))) ≡ who
  unfolding query add_params set_param window_params filters_of get_param
  get_host_user true h = ground (arith, eq_iff host "", eq_iff token "", eq_iff x "", eq_iff who "")
  get_host_user false h = cc

  get_token_user :
      (admin : Bool)
      → admin ≡ true
      → get_param "user" (query win (set_param "token" x (filters_of admin who token host))) ≡ who
  unfolding query add_params set_param window_params filters_of get_param
  get_token_user true h =
      ground (arith, eq_iff host "", eq_iff token "", eq_iff x "", eq_iff who "")
  get_token_user false h = cc

scope_of-admin :
    (admin : Bool) (u : User) (r : Request) → admin ≡ true → scope_of admin u r ≡ r.query "user"
scope_of-admin true u r h = refl
scope_of-admin false u r h = cc

page_number-atoi :
    (o : Outside) (r : Request) (p : ℕ)
    → r.query "page" ≡ o.itoa p
    → o.atoi (o.itoa p) ≡ p
    → 0 < p
    → page_number o r ≡ p
page_number-atoi o r p e reads some_page = rw (e, reads) (ground arith)

scope_of-cong :
    (admin : Bool) (u : User) (r s : Request)
    → (admin ≡ true → s.query "user" ≡ r.query "user")
    → scope_of admin u s ≡ scope_of admin u r
scope_of-cong true u r s h = h refl
scope_of-cong false u r s h = refl

filter_of-cong :
    {win win' : StatsWindow} {who who' token token' host host' : String}
    → win ≡ win'
    → who ≡ who'
    → token ≡ token'
    → host ≡ host'
    → filter_of win who token host ≡ filter_of win' who' token' host'
filter_of-cong a b c d = cc

linked-rows_asked :
    (o : Outside) (admin : Bool) (u : User) (r : Request) (now later p : ℕ) (key : String)
    → o.parse_day "" ≡ none
    → o.atoi (o.itoa p) ≡ p
    → 0 < p
    → (rows_asked o admin u (linked o admin u r now "page" (o.itoa p)) later
        ≡ rows_asked o admin u r later)
      × (page_number o (linked o admin u r now "page" (o.itoa p)) ≡ p)
      × (rows_asked o admin u (linked o admin u r now "host" key) later
          ≡ record (rows_asked o admin u r later) { host = key })
      × (rows_asked o admin u (linked o admin u r now "token" key) later
          ≡ record (rows_asked o admin u r later) { token_id = key })
linked-rows_asked o admin u r now later p key no_day reads some_page =
    let win = parse_window o r now in
    let who = scope_of admin u r in
    let token = r.query "token" in
    let host = r.query "host" in
    let (page_is, host_is, token_is) = get_page_linked win admin who token host (o.itoa p) in
    let (host_set, token_kept) = get_host_linked win admin who token host key in
    let (host_kept, token_set) = get_token_linked win admin who token host key in
    (
      filter_of-cong
          (parse_window-linked o admin u r now later "page" (o.itoa p) no_day (refl, refl, refl))
          (scope_of-cong admin u r (linked o admin u r now "page" (o.itoa p)) (λ is.
            get_page_user win who token host (o.itoa p) admin is ∙ scope_of-admin admin u r is))
          token_is host_is,
      page_number-atoi o (linked o admin u r now "page" (o.itoa p)) p page_is reads some_page,
      filter_of-cong
          (parse_window-linked o admin u r now later "host" key no_day (refl, refl, refl))
          (scope_of-cong admin u r (linked o admin u r now "host" key)
            (λ is. get_host_user win who token host key admin is ∙ scope_of-admin admin u r is))
          token_kept host_set,
      filter_of-cong
          (parse_window-linked o admin u r now later "token" key no_day (refl, refl, refl))
          (scope_of-cong admin u r (linked o admin u r now "token" key)
            (λ is. get_token_user win who token host key admin is ∙ scope_of-admin admin u r is))
          token_set host_kept,
    )

link-inj : (a b : String) (p q : Params) → link a p ∷ [] ≡ link b q ∷ [] → p ≡ q
link-inj a b p q e = cc

bucket_link-params :
    (base param : String) (win : StatsWindow) (filters ps : Params) (b : Bucket)
    → bucket_link base param win filters b ≡ link base ps ∷ []
    → ps ≡ query win (set_param param b.key filters)
unfolding bucket_link
bucket_link-params base param win filters ps b e = elim (Bool-cases (b.key == "")) [
  | inl no_key ↦ absurd (no_link (rw no_key at e))
  | inr some_key ↦ sym (link-inj base base _ _ (rw some_key at e))
]
  where
    no_link : ◌≡◌ {A = List Cell} [] (link base ps ∷ []) → ⊥
    no_link q = cc

pager-params :
    (o : Outside) (base : String) (page : ℕ) (win : StatsWindow) (filters ps : Params)
    → pager o base page true win filters ≡ pager o base page false win filters ++ link base ps ∷ []
    → ps ≡ page_params o (page + 1) win filters
unfolding pager
pager-params o base page win filters ps e = elim (Bool-cases (ltb 1 page)) [
  | inl more ↦ sym (second_link (rw more at e))
  | inr one ↦ sym (link-inj base base _ _ (rw one at e))
]
  where
    second_link : {a : Cell} {p q : Params} → a ∷ link base p ∷ [] ≡ a ∷ link base q ∷ [] → p ≡ q
    second_link e = cc

-- The links of a page of statistics keep what the page is about, at whatever later time they are
-- followed, if no day has an empty name and a number is read back as it was written: the link
-- that `recentTable` adds where there are older requests asks for the same requests and for the next
-- page, and the link of a service or of a credential in `bucketTable` asks for the same requests with
-- that service or that credential.
pub links-rows_asked :
    (o : Outside) (admin : Bool) (u : User) (r : Request) (now later : ℕ) (base : String)
    (b c : Bucket) (older hosts tokens : Params)
    → o.parse_day "" ≡ none
    → o.atoi (o.itoa (page_number o r + 1)) ≡ page_number o r + 1
    → pager o base (page_number o r) true (parse_window o r now) (filters_in admin u r)
      ≡ pager o base (page_number o r) false (parse_window o r now) (filters_in admin u r)
        ++ link base older ∷ []
    → bucket_link base "host" (parse_window o r now) (filters_in admin u r) b ≡ link base hosts ∷ []
    → bucket_link base "token" (parse_window o r now) (filters_in admin u r) c
      ≡ link base tokens ∷ []
    → (rows_asked o admin u (follow older r) later ≡ rows_asked o admin u r later)
      × (page_number o (follow older r) ≡ page_number o r + 1)
      × (rows_asked o admin u (follow hosts r) later
          ≡ record (rows_asked o admin u r later) { host = b.key })
      × (rows_asked o admin u (follow tokens r) later
          ≡ record (rows_asked o admin u r later) { token_id = c.key })
unfolding page_params
links-rows_asked o admin u r now later base b c older hosts tokens no_day reads pages hosts_are
      tokens_are =
    let p : ℕ = page_number o r + 1 in
    let win = parse_window o r now in
    let some_page : 0 < p = omega arith in
    let (kept, next_page, _, _) =
      linked-rows_asked o admin u r now later p b.key no_day reads some_page in
    let (_, _, host, _) = linked-rows_asked o admin u r now later p b.key no_day reads some_page in
    let (_, _, _, token) = linked-rows_asked o admin u r now later p c.key no_day reads some_page in
    let older_is = pager-params o base (page_number o r) win (filters_in admin u r) older pages in
    let hosts_is = bucket_link-params base "host" win (filters_in admin u r) hosts b hosts_are in
    let tokens_is =
      bucket_link-params base "token" win (filters_in admin u r) tokens c tokens_are in
    (
      ap (λ (ps : Params). rows_asked o admin u (follow ps r) later) older_is ∙ kept,
      ap (λ (ps : Params). page_number o (follow ps r)) older_is ∙ next_page,
      ap (λ (ps : Params). rows_asked o admin u (follow ps r) later) hosts_is ∙ host,
      ap (λ (ps : Params). rows_asked o admin u (follow ps r) later) tokens_is ∙ token,
    )
