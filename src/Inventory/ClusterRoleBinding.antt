-- ===== src/Inventory/ClusterRoleBinding.antt =====
-- Cluster role bindings (pkg/inventory/clusterrolebinding.go), by namespace and name.
use jaeger_operator.Base.{String, ◌≡◌, List, Run, done, ◌>>=◌}
use jaeger_operator.Base.Dict.{Dict, RangeOrder}
use jaeger_operator.Meta.{ObjectMeta, object_key, update_meta}
use jaeger_operator.Meta.Laws.{merged_meta, update_meta_done, object_key-merged_meta}
use jaeger_operator.Inventory.{Inventory, reconcile, to_map}
use jaeger_operator.Inventory.Contract.{IsPlan, reconcile-IsPlan}

pub record ClusterRoleBinding (Subject : Type 0) (RoleRef : Type 0) : Type 0 where
  pub meta : ObjectMeta
  pub subjects : List Subject
  pub role_ref : RoleRef

module _ {Subject RoleRef : Type 0} where
  unfoldable pub cluster_role_binding_key : ClusterRoleBinding Subject RoleRef → String
  cluster_role_binding_key d = object_key d.meta

  -- The body of the loop: `t` is the existing object, `v` the desired one.
  unfoldable pub update_cluster_role_binding :
      ClusterRoleBinding Subject RoleRef
      → ClusterRoleBinding Subject RoleRef
      → Run (ClusterRoleBinding Subject RoleRef)
  update_cluster_role_binding t v = update_meta t.meta v.meta >>= λ meta.
      done (record t { meta = meta; subjects = v.subjects; role_ref = v.role_ref })

  unfoldable pub cluster_role_binding_map :
      List (ClusterRoleBinding Subject RoleRef) → Dict (ClusterRoleBinding Subject RoleRef)
  cluster_role_binding_map = to_map cluster_role_binding_key

  unfoldable pub for_cluster_role_bindings :
      RangeOrder
      → List (ClusterRoleBinding Subject RoleRef)
      → List (ClusterRoleBinding Subject RoleRef)
      → Run (Inventory (ClusterRoleBinding Subject RoleRef))
  unfolding cluster_role_binding_map
  for_cluster_role_bindings o existing desired =
      reconcile o update_cluster_role_binding (cluster_role_binding_map desired)
        (cluster_role_binding_map existing)

  -- The updated object.
  unfoldable pub merged_cluster_role_binding :
      ClusterRoleBinding Subject RoleRef
      → ClusterRoleBinding Subject RoleRef
      → ClusterRoleBinding Subject RoleRef
  merged_cluster_role_binding t v = record t {
    meta = merged_meta t.meta v.meta;
    subjects = v.subjects;
    role_ref = v.role_ref;
  }

  update_cluster_role_binding_done :
      (t v : ClusterRoleBinding Subject RoleRef)
      → update_cluster_role_binding t v ≡ done (merged_cluster_role_binding t v)
  unfolding update_cluster_role_binding merged_cluster_role_binding
  update_cluster_role_binding_done t v = rw update_meta_done

  cluster_role_binding_key-merged_cluster_role_binding :
      (t v : ClusterRoleBinding Subject RoleRef)
      → cluster_role_binding_key (merged_cluster_role_binding t v) ≡ cluster_role_binding_key t
  unfolding cluster_role_binding_key merged_cluster_role_binding
  cluster_role_binding_key-merged_cluster_role_binding t v = object_key-merged_meta t.meta v.meta

  pub for_cluster_role_bindings-IsPlan :
      (o : RangeOrder) (existing desired : List (ClusterRoleBinding Subject RoleRef))
      → (inv : Inventory (ClusterRoleBinding Subject RoleRef)) × (for_cluster_role_bindings o
            existing desired
          ≡ done inv)
        × IsPlan cluster_role_binding_key merged_cluster_role_binding
            (cluster_role_binding_map desired)
            (cluster_role_binding_map existing)
            inv
  unfolding for_cluster_role_bindings
  for_cluster_role_bindings-IsPlan o existing desired =
      reconcile-IsPlan cluster_role_binding_key merged_cluster_role_binding
        cluster_role_binding_key-merged_cluster_role_binding o update_cluster_role_binding
        update_cluster_role_binding_done desired existing
