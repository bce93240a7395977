-- ===== src/Stats/Links.antt =====
-- The links of internal/handler/stats.go: a link keeps the window and the filters of its page.
use sir_auth.Base.{
  ℕ, ◌+◌, ◌-◌, String, Bool, ◌==◌, ◌&&◌, not, List, [], ◌∷◌, ◌++◌, map, ltb, if◌then◌else◌,
}
use sir_auth.World.{Outside, Cell, link}
use sir_auth.Store.Logs.{Bucket}
use sir_auth.Stats.Windows.{StatsWindow}

-- `url.Values` with one value for each key: `Set` and `Get`. What `Encode` writes, `Query` reads.
abbrev pub Params : Type 0
Params = List (String × String)

unfoldable pub set_param : String → String → Params → Params
set_param k x [] = (k, x) ∷ []
set_param k x ((j, y) ∷ ps) = if j == k then (k, x) ∷ ps else (j, y) ∷ set_param k x ps

unfoldable pub get_param : String → Params → String
get_param k [] = ""
get_param k ((j, y) ∷ ps) = if j == k then y else get_param k ps

-- `query`: the window, then every parameter that is not empty.
unfoldable pub window_params : StatsWindow → Params
unfolding set_param
window_params win =
    if not (win.preset == "")
    then set_param "range" win.preset []
    else set_param "to" win.to_day (set_param "from" win.from_day [])

unfoldable pub add_params : Params → Params → Params
unfolding set_param
add_params [] v = v
add_params ((k, x) ∷ extra) v = add_params extra (if not (x == "") then set_param k x v else v)

unfoldable pub query : StatsWindow → Params → Params
unfolding window_params add_params
query win extra = add_params extra (window_params win)

-- The filters of a page; administrators have one more.
unfoldable pub filters_of : Bool → (who token host : String) → Params
filters_of admin who token host =
    ("host", host) ∷ ("token", token) ∷ (if admin then ("user", who) ∷ [] else [])

abbrev with_preset : StatsWindow → String → StatsWindow
with_preset win p = record win { preset = p }

unfoldable pub preset_links : (base : String) → StatsWindow → Params → List Cell
unfolding query
preset_links base win filters =
    map (λ p. link base (query (with_preset win p) filters)) ("24h" ∷ "7d" ∷ "30d" ∷ [])

-- `bucketTable`: a group without a key has no link.
unfoldable pub bucket_link : (base param : String) → StatsWindow → Params → Bucket → List Cell
unfolding query set_param
bucket_link base param win filters b =
    if b.key == "" then [] else link base (query win (set_param param b.key filters)) ∷ []

-- The links of `recentTable`: all rows again, the page before and the page after.
unfoldable pub clear_link : (base : String) → StatsWindow → Params → List Cell
unfolding query get_param
clear_link base win filters =
    if get_param "host" filters == "" && get_param "token" filters == ""
    then []
    else link base (query win (("user", get_param "user" filters) ∷ [])) ∷ []

unfoldable pub page_params : Outside → ℕ → StatsWindow → Params → Params
unfolding query set_param
page_params o p win filters = query win (set_param "page" (o.itoa p) filters)

unfoldable pub pager : Outside → (base : String) → ℕ → Bool → StatsWindow → Params → List Cell
unfolding page_params
pager o base page has_next win filters =
    (if ltb 1 page then link base (page_params o (page - 1) win filters) ∷ [] else [])
    ++ (if has_next then link base (page_params o (page + 1) win filters) ∷ [] else [])
