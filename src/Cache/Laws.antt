-- ===== src/Cache/Laws.antt =====
-- About the cache: its size, its keys, where its answers come from.
use sir_auth.Base.{
  ℕ, suc, ◌-◌, ◌≤◌, ◌<◌, String, ◌==◌, ◌≡◌, refl, ◌⊎◌, inl, inr, Option, none, some, [], ◌∷◌, ltb,
  leb, if◌then◌else◌, length, arith, eq_iff, eq_refl, Bool-cases,
}
use sir_auth.World.{World, next, Result, failed, ok, Cache, CacheEntry, tick}
use sir_auth.Outcome.{Gives, OnOk, Ends-bind, Ends-mono, Ends-test}
use sir_auth.Cache.{lookup, assign, put, TtlCache, settle_load, reload, get_entry, get}

module _ {V : Type 0} where
  length-assign :
      (k : String) (e : CacheEntry V) (m : Cache V) → length (assign k e m) ≤ suc (length m)
  unfolding assign
  length-assign k e [] = omega arith
  length-assign k e ((j, f) ∷ m) = ground (arith, length-assign k e m)

  -- If a cache has at most `max` entries, and `max` is at least one, it has at most `max`
  -- entries after a write.
  pub length-put :
      (max : ℕ) (k : String) (e : CacheEntry V) (m : Cache V)
      → 0 < max
      → length m ≤ max
      → length (put max k e m) ≤ max
  unfolding put
  length-put max k e m h b = elim (Bool-cases (leb max (length m))) [
    | inl full ↦ rw full (omega (arith, length-assign k e []))
    | inr room ↦ rw room (ground (arith, length-assign k e m))
  ]

  pub lookup-assign :
      (k j : String) (e : CacheEntry V) (m : Cache V)
      → lookup j (assign k e m) ≡ (if k == j then some e else lookup j m)
  unfolding lookup assign
  lookup-assign k j e [] = refl
  lookup-assign k j e ((i, f) ∷ m) =
      ground (arith, eq_iff k j, eq_iff i k, eq_iff i j, lookup-assign k j e m)

  -- What was written is found; of another key, at most what was there before.
  pub lookup-put :
      (max : ℕ) (k j : String) (e f : CacheEntry V) (m : Cache V)
      → lookup j (put max k e m) ≡ some f
      → ((j ≡ k) × (f ≡ e)) ⊎ (lookup j m ≡ some f)
  unfolding put lookup
  lookup-put max k j e f m h =
      ground (arith, eq_iff k j, lookup-assign k j e m, lookup-assign k j e [])

  pub lookup-put_self :
      (max : ℕ) (k : String) (e : CacheEntry V) (m : Cache V) → lookup k (put max k e m) ≡ some e
  unfolding put lookup
  lookup-put_self max k e m =
      ground (arith, eq_refl k, lookup-assign k k e m, lookup-assign k k e [])

-- Every entry of the cache has the property.
abbrev pub Entries : {V : Type 0} → (String → V → Type 0) → Cache V → Type 0
Entries {V} P m = (k : String) (e : CacheEntry V) → lookup k m ≡ some e → P k e.value

pub put-Entries :
    {V : Type 0} (P : String → V → Type 0) (max : ℕ) (k : String) (e : CacheEntry V) (m : Cache V)
    → P k e.value
    → Entries P m
    → Entries P (put max k e m)
put-Entries P max k e m p h j f q = elim (lookup-put max k j e f m q) [
  | inl (same_key, same_entry) ↦ rw (same_key, same_entry) p
  | inr old ↦ h j f old
]

-- A cache over a loader all of whose answers have the property; loading leaves the cache alone.
pub record IsSound {V : Type 0} (c : TtlCache V) (P : String → V → Type 0) : Type 0 where
  pub entries-set : (m : Cache V) (w : World) → c.entries (c.set_entries m w) ≡ m
  pub entries-tick : (w : World) → c.entries (tick w) ≡ c.entries w
  pub loads :
      (k : String) (w : World)
      → Gives (λ r w'. OnOk (P k) r × (c.entries w' ≡ c.entries w)) (c.load k w)

module _ {V : Type 0} (c : TtlCache V) (P : String → V → Type 0) (s : IsSound c P) where
  abbrev Sound : String → Result V → World → Type 0
  Sound k r w = OnOk (P k) r × Entries P (c.entries w)

  settle_load-Sound :
      (k : String) (old : Option (CacheEntry V)) (r : Result V) (w : World)
      → ((e : CacheEntry V) → old ≡ some e → P k e.value)
      → OnOk (P k) r
      → Entries P (c.entries w)
      → Gives (Sound k) (settle_load c k old r w)
  unfolding settle_load
  settle_load-Sound k old (ok v) w _ p h =
      let e : CacheEntry V = record { value = v; loaded_at = w.outside.clock w.calls } in
      (p, rw s.entries-set (put-Entries P c.max k e (c.entries w) p h))
  settle_load-Sound k (some e) failed w q p h = (q e refl, h)
  settle_load-Sound k none failed w q p h = (tt, h)

  reload-Sound :
      (k : String) (old : Option (CacheEntry V)) (w : World)
      → ((e : CacheEntry V) → old ≡ some e → P k e.value)
      → Entries P (c.entries w)
      → Gives (Sound k) (reload c k old w)
  unfolding reload
  reload-Sound k old w q h =
      Ends-bind (λ _ _. ⊥) (Sound k) (c.load k) (settle_load c k old) w
        (Ends-mono (c.load k w) (λ r w' x. x)
          (λ r w' x. settle_load-Sound k old r w' q x.0 (rw x.1 h)) (s.loads k w))

  get_entry-Sound :
      (k : String) (old : Option (CacheEntry V)) (w : World)
      → ((e : CacheEntry V) → old ≡ some e → P k e.value)
      → Entries P (c.entries w)
      → Gives (Sound k) (get_entry c k old w)
  unfolding get_entry
  get_entry-Sound k none w q h = reload-Sound k none w q h
  get_entry-Sound k (some e) w q h =
      let t : ℕ = w.outside.clock w.calls in
      Ends-test (λ _ _. ⊥) (Sound k) (ltb (t - e.loaded_at) c.ttl) (next (ok e.value) (tick w))
        (reload c k (some e) (tick w)) (λ _. (q e refl, rw s.entries-tick h))
        (λ _. reload-Sound k (some e) (tick w) q (rw s.entries-tick h))

  -- If every answer of a cache's loader has a property for its key, the loader leaves the cache
  -- alone, and every entry has the property too, then a call of the cache always comes to an
  -- end, its answer, fresh or stale, has the property unless it is an error, and every entry has
  -- the property afterwards.
  pub get-Sound :
      (k : String) (w : World)
      → Entries P (c.entries w)
      → Gives (λ r w'. OnOk (P k) r × Entries P (c.entries w')) (get c k w)
  unfolding get
  get-Sound k w h = get_entry-Sound k (lookup k (c.entries w)) w (λ e q. h k e q) h
