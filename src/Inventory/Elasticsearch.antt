-- ===== src/Inventory/Elasticsearch.antt =====
-- Elasticsearch clusters (pkg/inventory/elasticsearch.go), by namespace and name. What stands in the spec is
-- not read.
use jaeger_operator.Base.{String, ◌≡◌, List, Run, done, ◌>>=◌}
use jaeger_operator.Base.Dict.{Dict, RangeOrder}
use jaeger_operator.Meta.{ObjectMeta, object_key, update_meta}
use jaeger_operator.Meta.Laws.{merged_meta, update_meta_done, object_key-merged_meta}
use jaeger_operator.Inventory.{Inventory, reconcile, to_map}
use jaeger_operator.Inventory.Contract.{IsPlan, reconcile-IsPlan}

pub record Elasticsearch (Spec : Type 0) : Type 0 where
  pub meta : ObjectMeta
  pub spec : Spec

module _ {Spec : Type 0} where
  unfoldable pub es_key : Elasticsearch Spec → String
  es_key d = object_key d.meta

  -- The body of the loop: `t` is the existing object, `v` the desired one.
  unfoldable pub update_es : Elasticsearch Spec → Elasticsearch Spec → Run (Elasticsearch Spec)
  update_es t v =
      update_meta t.meta v.meta >>= λ meta. done (record t { meta = meta; spec = v.spec })

  unfoldable pub es_map : List (Elasticsearch Spec) → Dict (Elasticsearch Spec)
  es_map = to_map es_key

  unfoldable pub for_elasticsearches :
      RangeOrder
      → List (Elasticsearch Spec)
      → List (Elasticsearch Spec)
      → Run (Inventory (Elasticsearch Spec))
  unfolding es_map
  for_elasticsearches o existing desired = reconcile o update_es (es_map desired) (es_map existing)

  -- The updated object: the spec and the owners are the desired ones.
  unfoldable pub merged_es : Elasticsearch Spec → Elasticsearch Spec → Elasticsearch Spec
  merged_es t v = record { meta = merged_meta t.meta v.meta; spec = v.spec }

  update_es_done : (t v : Elasticsearch Spec) → update_es t v ≡ done (merged_es t v)
  unfolding update_es merged_es
  update_es_done t v = rw update_meta_done

  es_key-merged_es : (t v : Elasticsearch Spec) → es_key (merged_es t v) ≡ es_key t
  unfolding es_key merged_es
  es_key-merged_es t v = object_key-merged_meta t.meta v.meta

  pub for_elasticsearches-IsPlan :
      (o : RangeOrder) (existing desired : List (Elasticsearch Spec))
      → (inv : Inventory (Elasticsearch Spec)) × (for_elasticsearches o existing desired ≡ done inv)
        × IsPlan es_key merged_es (es_map desired) (es_map existing) inv
  unfolding for_elasticsearches
  for_elasticsearches-IsPlan o existing desired =
      reconcile-IsPlan es_key merged_es es_key-merged_es o update_es update_es_done desired existing
