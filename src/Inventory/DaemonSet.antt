-- ===== src/Inventory/DaemonSet.antt =====
-- Daemon sets (pkg/inventory/daemonset.go), by namespace and name. What stands in the spec is
-- not read.
use jaeger_operator.Base.{String, ◌≡◌, List, Run, done, ◌>>=◌}
use jaeger_operator.Base.Dict.{Dict, RangeOrder}
use jaeger_operator.Meta.{ObjectMeta, object_key, update_meta}
use jaeger_operator.Meta.Laws.{merged_meta, update_meta_done, object_key-merged_meta}
use jaeger_operator.Inventory.{Inventory, reconcile, to_map}
use jaeger_operator.Inventory.Contract.{IsPlan, reconcile-IsPlan}

pub record DaemonSet (Spec : Type 0) : Type 0 where
  pub meta : ObjectMeta
  pub spec : Spec

module _ {Spec : Type 0} where
  unfoldable pub daemonset_key : DaemonSet Spec → String
  daemonset_key d = object_key d.meta

  -- The body of the loop: `t` is the existing object, `v` the desired one.
  unfoldable pub update_daemonset : DaemonSet Spec → DaemonSet Spec → Run (DaemonSet Spec)
  update_daemonset t v =
      update_meta t.meta v.meta >>= λ meta. done (record t { meta = meta; spec = v.spec })

  unfoldable pub daemonset_map : List (DaemonSet Spec) → Dict (DaemonSet Spec)
  daemonset_map = to_map daemonset_key

  unfoldable pub for_daemon_sets :
      RangeOrder → List (DaemonSet Spec) → List (DaemonSet Spec) → Run (Inventory (DaemonSet Spec))
  unfolding daemonset_map
  for_daemon_sets o existing desired =
      reconcile o update_daemonset (daemonset_map desired) (daemonset_map existing)

  -- The updated object: the spec and the owners are the desired ones.
  unfoldable pub merged_daemonset : DaemonSet Spec → DaemonSet Spec → DaemonSet Spec
  merged_daemonset t v = record { meta = merged_meta t.meta v.meta; spec = v.spec }

  update_daemonset_done :
      (t v : DaemonSet Spec) → update_daemonset t v ≡ done (merged_daemonset t v)
  unfolding update_daemonset merged_daemonset
  update_daemonset_done t v = rw update_meta_done

  daemonset_key-merged_daemonset :
      (t v : DaemonSet Spec) → daemonset_key (merged_daemonset t v) ≡ daemonset_key t
  unfolding daemonset_key merged_daemonset
  daemonset_key-merged_daemonset t v = object_key-merged_meta t.meta v.meta

  pub for_daemon_sets-IsPlan :
      (o : RangeOrder) (existing desired : List (DaemonSet Spec))
      → (inv : Inventory (DaemonSet Spec)) × (for_daemon_sets o existing desired ≡ done inv)
        × IsPlan daemonset_key merged_daemonset (daemonset_map desired) (daemonset_map existing) inv
  unfolding for_daemon_sets
  for_daemon_sets-IsPlan o existing desired =
      reconcile-IsPlan daemonset_key merged_daemonset daemonset_key-merged_daemonset o
        update_daemonset update_daemonset_done desired existing
