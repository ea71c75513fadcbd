-- ===== src/Inventory/Ingress.antt =====
-- Ingresses (pkg/inventory/ingress.go), by namespace and name. What stands in the spec is
-- not read.
use jaeger_operator.Base.{String, ◌≡◌, List, Run, done, ◌>>=◌}
use jaeger_operator.Base.Dict.{Dict, RangeOrder}
use jaeger_operator.Meta.{ObjectMeta, object_key, update_meta}
use jaeger_operator.Meta.Laws.{merged_meta, update_meta_done, object_key-merged_meta}
use jaeger_operator.Inventory.{Inventory, reconcile, to_map}
use jaeger_operator.Inventory.Contract.{IsPlan, reconcile-IsPlan}

pub record Ingress (Spec : Type 0) : Type 0 where
  pub meta : ObjectMeta
  pub spec : Spec

module _ {Spec : Type 0} where
  unfoldable pub ingress_key : Ingress Spec → String
  ingress_key d = object_key d.meta

  -- The body of the loop: `t` is the existing object, `v` the desired one.
  unfoldable pub update_ingress : Ingress Spec → Ingress Spec → Run (Ingress Spec)
  update_ingress t v =
      update_meta t.meta v.meta >>= λ meta. done (record t { meta = meta; spec = v.spec })

  unfoldable pub ingress_map : List (Ingress Spec) → Dict (Ingress Spec)
  ingress_map = to_map ingress_key

  unfoldable pub for_ingresses :
      RangeOrder → List (Ingress Spec) → List (Ingress Spec) → Run (Inventory (Ingress Spec))
  unfolding ingress_map
  for_ingresses o existing desired =
      reconcile o update_ingress (ingress_map desired) (ingress_map existing)

  -- The updated object: the spec and the owners are the desired ones.
  unfoldable pub merged_ingress : Ingress Spec → Ingress Spec → Ingress Spec
  merged_ingress t v = record { meta = merged_meta t.meta v.meta; spec = v.spec }

  update_ingress_done : (t v : Ingress Spec) → update_ingress t v ≡ done (merged_ingress t v)
  unfolding update_ingress merged_ingress
  update_ingress_done t v = rw update_meta_done

  ingress_key-merged_ingress :
      (t v : Ingress Spec) → ingress_key (merged_ingress t v) ≡ ingress_key t
  unfolding ingress_key merged_ingress
  ingress_key-merged_ingress t v = object_key-merged_meta t.meta v.meta

  pub for_ingresses-IsPlan :
      (o : RangeOrder) (existing desired : List (Ingress Spec))
      → (inv : Inventory (Ingress Spec)) × (for_ingresses o existing desired ≡ done inv)
        × IsPlan ingress_key merged_ingress (ingress_map desired) (ingress_map existing) inv
  unfolding for_ingresses
  for_ingresses-IsPlan o existing desired =
      reconcile-IsPlan ingress_key merged_ingress ingress_key-merged_ingress o update_ingress
        update_ingress_done desired existing
