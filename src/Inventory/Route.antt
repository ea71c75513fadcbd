-- ===== src/Inventory/Route.antt =====
-- Routes (pkg/inventory/route.go), by namespace and name. What stands in the spec is
-- not read.
use jaeger_operator.Base.{String, ◌≡◌, List, Run, done, ◌>>=◌}
use jaeger_operator.Base.Dict.{Dict, RangeOrder}
use jaeger_operator.Meta.{ObjectMeta, object_key, update_meta}
use jaeger_operator.Meta.Laws.{merged_meta, update_meta_done, object_key-merged_meta}
use jaeger_operator.Inventory.{Inventory, reconcile, to_map}
use jaeger_operator.Inventory.Contract.{IsPlan, reconcile-IsPlan}

pub record Route (Spec : Type 0) : Type 0 where
  pub meta : ObjectMeta
  pub spec : Spec

module _ {Spec : Type 0} where
  unfoldable pub route_key : Route Spec → String
  route_key d = object_key d.meta

  -- The body of the loop: `t` is the existing object, `v` the desired one.
  unfoldable pub update_route : Route Spec → Route Spec → Run (Route Spec)
  update_route t v =
      update_meta t.meta v.meta >>= λ meta. done (record t { meta = meta; spec = v.spec })

  unfoldable pub route_map : List (Route Spec) → Dict (Route Spec)
  route_map = to_map route_key

  unfoldable pub for_routes :
      RangeOrder → List (Route Spec) → List (Route Spec) → Run (Inventory (Route Spec))
  unfolding route_map
  for_routes o existing desired = reconcile o update_route (route_map desired) (route_map existing)

  -- The updated object: the spec and the owners are the desired ones.
  unfoldable pub merged_route : Route Spec → Route Spec → Route Spec
  merged_route t v = record { meta = merged_meta t.meta v.meta; spec = v.spec }

  update_route_done : (t v : Route Spec) → update_route t v ≡ done (merged_route t v)
  unfolding update_route merged_route
  update_route_done t v = rw update_meta_done

  route_key-merged_route : (t v : Route Spec) → route_key (merged_route t v) ≡ route_key t
  unfolding route_key merged_route
  route_key-merged_route t v = object_key-merged_meta t.meta v.meta

  pub for_routes-IsPlan :
      (o : RangeOrder) (existing desired : List (Route Spec))
      → (inv : Inventory (Route Spec)) × (for_routes o existing desired ≡ done inv)
        × IsPlan route_key merged_route (route_map desired) (route_map existing) inv
  unfolding for_routes
  for_routes-IsPlan o existing desired =
      reconcile-IsPlan route_key merged_route route_key-merged_route o update_route
        update_route_done desired existing
