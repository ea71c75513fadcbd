-- ===== src/Inventory/Versioned.antt =====
-- Objects that exist in two versions of the Kubernetes API: cron jobs (pkg/inventory/cronjob.go) and
-- pod autoscalers (pkg/inventory/horizontalpodautoscaler.go). A configured version says which type
-- the objects must have; a type assertion to the other type panics.
pub mod Laws
use jaeger_operator.Base.{String, ◌≡◌, refl, Bool, true, false, List, [], ◌∷◌, Run, done, panic}
use jaeger_operator.Base.{◌>>=◌, All, arith, ◌==◌}
use jaeger_operator.Base.Dict.{Dict, RangeOrder, insert}
use jaeger_operator.Meta.{ObjectMeta, object_key, update_meta}
use jaeger_operator.Meta.Laws.{merged_meta, update_meta_done, object_key-merged_meta}
use jaeger_operator.Inventory.{Inventory, reconcile, to_map, fill_map}
use jaeger_operator.Inventory.Contract.{IsPlan, reconcile-IsPlan_where}

pub record Resource (Spec : Type 0) : Type 0 where
  pub meta : ObjectMeta
  pub spec : Spec

-- runtime.Object: the type of the older API version, that of the newer one, or any other
pub data Object (Old New Other : Type 0) : Type 0 where
  older : Resource Old → Object Old New Other
  newer : Resource New → Object Old New Other
  other : Other → Object Old New Other

module _ {Spec : Type 0} where
  -- The body of the loop, which both files write out for each of the two types.
  unfoldable pub update_resource : Resource Spec → Resource Spec → Run (Resource Spec)
  update_resource t v =
      update_meta t.meta v.meta >>= λ meta. done (record t { meta = meta; spec = v.spec })

  unfoldable pub merged_resource : Resource Spec → Resource Spec → Resource Spec
  merged_resource t v = record { meta = merged_meta t.meta v.meta; spec = v.spec }

  pub update_resource_done :
      (t v : Resource Spec) → update_resource t v ≡ done (merged_resource t v)
  unfolding update_resource merged_resource
  update_resource_done t v = rw update_meta_done

module _ {Old New Other : Type 0} where
  -- d.(*batchv1beta1.CronJob) and its siblings
  abbrev pub as_older : Object Old New Other → Run (Resource Old)
  as_older (older r) = done r
  as_older _ = panic

  abbrev pub as_newer : Object Old New Other → Run (Resource New)
  as_newer (newer r) = done r
  as_newer _ = panic

  -- The key of one object in jobsMap and hpaMap; `beta` says that the older version is configured.
  unfoldable pub key_of : Bool → Object Old New Other → Run String
  key_of true d = as_older d >>= λ cj. done (object_key cj.meta)
  key_of false d = as_newer d >>= λ cj. done (object_key cj.meta)

  unfoldable pub fill_objects :
      Bool
      → List (Object Old New Other)
      → Dict (Object Old New Other)
      → Run (Dict (Object Old New Other))
  unfolding key_of
  fill_objects beta [] m = done m
  fill_objects beta (d ∷ deps) m = key_of beta d >>= λ key. fill_objects beta deps (insert key d m)

  -- jobsMap, hpaMap
  unfoldable pub objects_map :
      Bool → List (Object Old New Other) → Run (Dict (Object Old New Other))
  unfolding fill_objects
  objects_map beta deps = fill_objects beta deps []

  unfoldable pub update_object :
      Bool → Object Old New Other → Object Old New Other → Run (Object Old New Other)
  unfolding update_resource
  update_object true t v =
      as_older t >>= λ t1. as_older v >>= λ v1. update_resource t1 v1 >>= λ tp. done (older tp)
  update_object false t v =
      as_newer t >>= λ t1. as_newer v >>= λ v1. update_resource t1 v1 >>= λ tp. done (newer tp)

  -- ForCronJobs and ForHorizontalPodAutoscalers, given which version is configured.
  unfoldable pub for_objects :
      Bool
      → RangeOrder
      → List (Object Old New Other)
      → List (Object Old New Other)
      → Run (Inventory (Object Old New Other))
  unfolding objects_map update_object
  for_objects beta o existing desired = objects_map beta desired >>= λ desired_map.
      objects_map beta existing >>= λ existing_map.
      reconcile o (update_object beta) desired_map existing_map

  -- ForCronJobs, with the configured `cronjobs-version`
  unfoldable pub for_cron_jobs :
      String
      → RangeOrder
      → List (Object Old New Other)
      → List (Object Old New Other)
      → Run (Inventory (Object Old New Other))
  unfolding for_objects
  for_cron_jobs cronjobs_version = for_objects (cronjobs_version == "batch/v1beta1")

  -- ForHorizontalPodAutoscalers, with the configured `autoscaling-version`
  unfoldable pub for_horizontal_pod_autoscalers :
      String
      → RangeOrder
      → List (Object Old New Other)
      → List (Object Old New Other)
      → Run (Inventory (Object Old New Other))
  unfolding for_objects
  for_horizontal_pod_autoscalers autoscaling_version =
      for_objects (autoscaling_version == "autoscaling/v2beta2")
