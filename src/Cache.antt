-- ===== src/Cache.antt =====
-- `ttlCache` of internal/handler/verify.go: loaded values are kept for `ttl`, missing rows too; a
-- failed reload serves the stale value if there is one; the map is emptied when it is full.
-- The lock is left out: a call is modelled whole, as if no other call ran meanwhile.
pub mod Laws
use sir_auth.Base.{
  ℕ, suc, ◌-◌, String, Bool, true, false, ◌==◌, Option, none, some, List, [], ◌∷◌, ltb, leb,
  if◌then◌else◌, length,
}
use sir_auth.World.{
  World, M, Exit, halt, next, Result, failed, ok, Cache, CacheEntry, ◌>>=◌, ◌>>◌, pure, now_ns,
  tick,
}

module _ {V : Type 0} where
  unfoldable pub lookup : String → Cache V → Option (CacheEntry V)
  lookup k [] = none
  lookup k ((j, e) ∷ m) = if j == k then some e else lookup k m

  unfoldable pub assign : String → CacheEntry V → Cache V → Cache V
  assign k e [] = (k, e) ∷ []
  assign k e ((j, f) ∷ m) = if j == k then (k, e) ∷ m else (j, f) ∷ assign k e m

  -- `if len(c.m) >= c.max { c.m = {} }; c.m[key] = …`
  unfoldable pub put : ℕ → String → CacheEntry V → Cache V → Cache V
  unfolding assign
  put max k e m = assign k e (if leb max (length m) then [] else m)

-- A cache of the process: where it stands in the world, its lifetime, its size and its loader.
pub record TtlCache (V : Type 0) : Type 0 where
  pub entries : World → Cache V
  pub set_entries : Cache V → World → World
  pub ttl : ℕ
  pub max : ℕ
  pub load : String → M (Result V)

module _ {V : Type 0} (c : TtlCache V) where
  abbrev store_value : String → V → M (Result V)
  store_value k v w =
      let e : CacheEntry V = record { value = v; loaded_at = w.outside.clock w.calls } in
      next (ok v) (c.set_entries (put c.max k e (c.entries w)) (tick w))

  -- What follows a load: `old` is the entry that was found before, if any.
  unfoldable pub settle_load : String → Option (CacheEntry V) → Result V → M (Result V)
  unfolding put
  settle_load k old (ok v) w = store_value k v w
  settle_load k (some e) failed w = next (ok e.value) w
  settle_load k none failed w = next failed w

  unfoldable pub reload : String → Option (CacheEntry V) → M (Result V)
  unfolding settle_load
  reload k old = do r ← c.load k; settle_load k old r

  abbrev is_fresh : CacheEntry V → ℕ → Bool
  is_fresh e t = ltb (t - e.loaded_at) c.ttl

  -- The clock is read for an entry that is there. (It is monotonic: `t - e.loaded_at` is exact.)
  unfoldable pub get_entry : String → Option (CacheEntry V) → M (Result V)
  unfolding reload
  get_entry k none w = reload k none w
  get_entry k (some e) w =
      let t = w.outside.clock w.calls in
      elim (is_fresh e t) [ true ↦ next (ok e.value) (tick w) | false ↦ reload k (some e) (tick w) ]

  unfoldable pub get : String → M (Result V)
  unfolding get_entry lookup
  get k w = get_entry k (lookup k (c.entries w)) w

  unfoldable pub clear : World → World
  clear w = c.set_entries [] w
