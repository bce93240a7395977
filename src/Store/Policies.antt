-- ===== src/Store/Policies.antt =====
-- About the route policies of internal/store/store.go, `GetRoutePolicy`, `SetRoutePolicy` and
-- `DeleteRoutePolicy`: the table against a map from hosts to policies.
use mathlib.Core.Path.{fun_ext}
use sir_auth.Base.{
  arith, String, ◌==◌, not, ◌≡◌, ◌⊎◌, inl, inr, refl, Option, none, some, List, [], ◌∷◌, find, keep,
  subst, if◌then◌else◌, eq_iff, Bool-cases,
}
use sir_auth.Model.{RoutePolicy}
use sir_auth.World.{
  Db, World, M, Result, failed, ok, ◌>>=◌, pure, db_read, db_write, Fate, answered, refused, lost,
  settle, read_result,
}
use sir_auth.Outcome.{Gives, Ends-mono, OnOk, Ends-bind}
use sir_auth.Store.{
  for_host, upsert_policy, get_route_policy, set_route_policy, delete_route_policy,
}

-- ── The map ──
abbrev pub PolicyMap : Type 0
PolicyMap = String → Option RoutePolicy

pub data Command : Type 0 where
  set_policy : RoutePolicy → Command
  drop_policy : String → Command

abbrev pub apply : Command → PolicyMap → PolicyMap
apply (set_policy p) m k = if p.host == k then some p else m k
apply (drop_policy h) m k = if h == k then none else m k

-- How a map may become another by commands with their results: one whose result is an error was
-- executed or not.
pub Explains : List (Command × Result (Unit {0})) → PolicyMap → PolicyMap → Type 0
Explains [] m n = n ≡ m
Explains ((c, ok x) ∷ l) m n = Explains l (apply c m) n
Explains ((c, failed) ∷ l) m n = Explains l m n ⊎ Explains l (apply c m) n

-- ── The table ──
abbrev pub view : Db → PolicyMap
view d k = find (for_host k) d.route_policies

abbrev pub exec : Command → M (Result (Unit {0}))
exec (set_policy p) = set_route_policy p
exec (drop_policy h) = delete_route_policy h

abbrev pub exec_all : List Command → M (List (Command × Result (Unit {0})))
exec_all [] = pure []
exec_all (c ∷ cs) = do o ← exec c; os ← exec_all cs; pure ((c, o) ∷ os)

pub find-upsert :
    (p : RoutePolicy) (k : String) (ps : List RoutePolicy)
    → find (for_host k) (upsert_policy p ps)
      ≡ (if p.host == k then some p else find (for_host k) ps)
unfolding find upsert_policy
find-upsert p k [] = ground arith
find-upsert p k (q ∷ ps) = elim (Bool-cases (for_host p.host q)) [
  | inl e ↦ let same : q.host ≡ p.host = (eq_iff q.host p.host).0 e in rw e (rw same (ground arith))
  | inr e ↦
      rw e
        (ground (arith, find-upsert p k ps, eq_iff q.host p.host, eq_iff q.host k, eq_iff p.host k))
]

pub find-keep :
    (h k : String) (ps : List RoutePolicy)
    → find (for_host k) (keep (λ p. not (for_host h p)) ps)
      ≡ (if h == k then none else find (for_host k) ps)
unfolding find keep
find-keep h k [] = ground arith
find-keep h k (q ∷ ps) =
    ground (arith, find-keep h k ps, eq_iff q.host h, eq_iff q.host k, eq_iff h k)

set_policy-view :
    (p : RoutePolicy) (d : Db)
    → view (record d { route_policies = upsert_policy p d.route_policies })
      ≡ apply (set_policy p) (view d)
set_policy-view p d = fun_ext (λ k. find-upsert p k d.route_policies)

drop_policy-view :
    (h : String) (d : Db)
    → view (record d { route_policies = keep (λ p. not (for_host h p)) d.route_policies })
      ≡ apply (drop_policy h) (view d)
drop_policy-view h d = fun_ext (λ k. find-keep h k d.route_policies)

-- A statement that meets no constraint, by what it makes of the map.
settle-step :
    (x : Fate) (c : Command) (d : Db) (w : World)
    → view d ≡ apply c (view w.db)
    → Gives (λ o w'. Explains ((c, o) ∷ []) (view w.db) (view w'.db)) (settle x (some (tt, d)) w)
unfolding Explains
settle-step answered c d w e = e
settle-step refused c d w e = inl refl
settle-step lost c d w e = inr e

exec-step :
    (c : Command) (w : World)
    → Gives (λ o w'. Explains ((c, o) ∷ []) (view w.db) (view w'.db)) (exec c w)
unfolding set_route_policy delete_route_policy db_write
exec-step (set_policy p) w =
    settle-step (w.outside.fate w.calls) (set_policy p) _ w (set_policy-view p w.db)
exec-step (drop_policy h) w =
    settle-step (w.outside.fate w.calls) (drop_policy h) _ w (drop_policy-view h w.db)

Explains-cons :
    (c : Command) (o : Result (Unit {0})) (l : List (Command × Result (Unit {0})))
    (m n k : PolicyMap)
    → Explains ((c, o) ∷ []) m n
    → Explains l n k
    → Explains ((c, o) ∷ l) m k
unfolding Explains
Explains-cons c (ok x) l m n k e h = subst (λ a. Explains l a k) e h
Explains-cons c failed l m n k (inl e) h = inl (subst (λ a. Explains l a k) e h)
Explains-cons c failed l m n k (inr e) h = inr (subst (λ a. Explains l a k) e h)

exec_all-Explains :
    (cs : List Command) (w : World)
    → Gives (λ l w'. Explains l (view w.db) (view w'.db)) (exec_all cs w)
unfolding Explains
exec_all-Explains [] w = refl
exec_all-Explains (c ∷ cs) w =
    let final : List (Command × Result (Unit {0})) → World → Type 0 =
      λ l w'. Explains l (view w.db) (view w'.db) in
    Ends-bind (λ _ _. ⊥) final (exec c) (λ o. exec_all cs >>= λ os. pure ((c, o) ∷ os)) w
      (Ends-mono (exec c w) (λ _ _ h. h)
        (λ o v step.
          Ends-bind (λ _ _. ⊥) final (exec_all cs) (λ os. pure ((c, o) ∷ os)) v
            (Ends-mono (exec_all cs v) (λ _ _ h. h)
              (λ os v' h. Explains-cons c o os (view w.db) (view v.db) (view v'.db) step h)
              (exec_all-Explains cs v)))
        (exec-step c w))

-- Commands, and a read of one host after them.
abbrev pub exec_then_read :
    List Command → String → M (List (Command × Result (Unit {0})) × Result (Option RoutePolicy))
exec_then_read cs h = do l ← exec_all cs; q ← get_route_policy h; pure (l, q)

read-OnOk : (x : Fate) (q : Option RoutePolicy) → OnOk (λ a. a ≡ q) (read_result x q)
read-OnOk answered q = refl
read-OnOk refused q = tt
read-OnOk lost q = tt

-- The table of route policies is a map from hosts to policies: whatever fails in between, some map
-- that the commands lead to from the first one, where a command that reports an error has been
-- executed or not and every other one has, is the map from which `GetRoutePolicy` then answers,
-- unless it reports an error itself.
pub exec_then_read-Explains :
    (cs : List Command) (h : String) (w : World)
    → Gives
        (λ a _. (n : PolicyMap) × Explains a.0 (view w.db) n × OnOk (λ q. q ≡ n h) a.1)
        (exec_then_read cs h w)
unfolding get_route_policy db_read
exec_then_read-Explains cs h w =
    Ends-bind (λ _ _. ⊥)
      (λ a _. (n : PolicyMap) × Explains a.0 (view w.db) n × OnOk (λ q. q ≡ n h) a.1) (exec_all cs)
      (λ l. get_route_policy h >>= λ q. pure (l, q)) w
      (Ends-mono (exec_all cs w) (λ _ _ e. e)
        (λ l v e. (view v.db, e, read-OnOk (v.outside.fate v.calls) (view v.db h)))
        (exec_all-Explains cs w))
