-- ===== src/Tests/Tables.antt =====
-- The theorem on the table of route policies, at the sample world.
use sir_auth.Base.{true, ◌≡◌, [], ◌∷◌}
use sir_auth.Model.{RoutePolicy}
use sir_auth.Outcome.{Gives, OnOk}
use sir_auth.Store.Policies.{
  set_policy, drop_policy, PolicyMap, Explains, view, exec_then_read, exec_then_read-Explains,
}
use sir_auth.Tests.{sample_world}

abbrev open_app : RoutePolicy
open_app = record { host = "app.x"; is_public = true; updated_at = 5; updated_by = "alice" }

-- A policy is set, another dropped, and the first read.
exec_then_read-Explains_example :
    Gives
      (λ a _.
        (n : PolicyMap) × Explains a.0 (view sample_world.db) n × OnOk (λ q. q ≡ n "app.x") a.1)
      (exec_then_read (set_policy open_app ∷ drop_policy "wiki.x" ∷ []) "app.x" sample_world)
exec_then_read-Explains_example =
    exec_then_read-Explains (set_policy open_app ∷ drop_policy "wiki.x" ∷ []) "app.x" sample_world
