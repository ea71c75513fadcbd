-- ===== src/Inventory/ConfigMap.antt =====
-- Config maps (pkg/inventory/configmap.go), by namespace and name. `rest` is what else a config map holds: no update touches it.
use jaeger_operator.Base.{ℕ, String, ◌≡◌, List, Run, done, ◌>>=◌}
use jaeger_operator.Base.Dict.{GoMap, Dict, RangeOrder}
use jaeger_operator.Meta.{ObjectMeta, object_key, update_meta}
use jaeger_operator.Meta.Laws.{merged_meta, update_meta_done, object_key-merged_meta}
use jaeger_operator.Inventory.{Inventory, reconcile, to_map}
use jaeger_operator.Inventory.Contract.{IsPlan, reconcile-IsPlan}

pub record ConfigMap (Rest : Type 0) : Type 0 where
  pub meta : ObjectMeta
  pub data_text : GoMap String
  pub binary_data : GoMap (List ℕ)
  pub rest : Rest

module _ {Rest : Type 0} where
  unfoldable pub config_map_key : ConfigMap Rest → String
  config_map_key d = object_key d.meta

  -- The body of the loop: `t` is the existing object, `v` the desired one.
  unfoldable pub update_config_map : ConfigMap Rest → ConfigMap Rest → Run (ConfigMap Rest)
  update_config_map t v = update_meta t.meta v.meta >>= λ meta.
      done (record t { meta = meta; data_text = v.data_text; binary_data = v.binary_data })

  unfoldable pub configs_map : List (ConfigMap Rest) → Dict (ConfigMap Rest)
  configs_map = to_map config_map_key

  unfoldable pub for_config_maps :
      RangeOrder → List (ConfigMap Rest) → List (ConfigMap Rest) → Run (Inventory (ConfigMap Rest))
  unfolding configs_map
  for_config_maps o existing desired =
      reconcile o update_config_map (configs_map desired) (configs_map existing)

  -- The updated object.
  unfoldable pub merged_config_map : ConfigMap Rest → ConfigMap Rest → ConfigMap Rest
  merged_config_map t v = record t {
    meta = merged_meta t.meta v.meta;
    data_text = v.data_text;
    binary_data = v.binary_data;
  }

  update_config_map_done :
      (t v : ConfigMap Rest) → update_config_map t v ≡ done (merged_config_map t v)
  unfolding update_config_map merged_config_map
  update_config_map_done t v = rw update_meta_done

  config_map_key-merged_config_map :
      (t v : ConfigMap Rest) → config_map_key (merged_config_map t v) ≡ config_map_key t
  unfolding config_map_key merged_config_map
  config_map_key-merged_config_map t v = object_key-merged_meta t.meta v.meta

  -- A plan is always made. It creates the config maps that are desired and do not exist, updates
  -- those that are desired and exist, deletes the others, and lists none twice.
  pub for_config_maps-IsPlan :
      (o : RangeOrder) (existing desired : List (ConfigMap Rest))
      → (inv : Inventory (ConfigMap Rest)) × (for_config_maps o existing desired ≡ done inv)
        × IsPlan config_map_key merged_config_map (configs_map desired) (configs_map existing) inv
  unfolding for_config_maps
  for_config_maps-IsPlan o existing desired =
      reconcile-IsPlan config_map_key merged_config_map config_map_key-merged_config_map o
        update_config_map update_config_map_done desired existing
