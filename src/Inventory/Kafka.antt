-- ===== src/Inventory/Kafka.antt =====
-- Kafka clusters (pkg/inventory/kafka.go), by namespace and name. What stands in the spec is
-- not read.
use jaeger_operator.Base.{String, ◌≡◌, List, Run, done, ◌>>=◌}
use jaeger_operator.Base.Dict.{Dict, RangeOrder}
use jaeger_operator.Meta.{ObjectMeta, object_key, update_meta}
use jaeger_operator.Meta.Laws.{merged_meta, update_meta_done, object_key-merged_meta}
use jaeger_operator.Inventory.{Inventory, reconcile, to_map}
use jaeger_operator.Inventory.Contract.{IsPlan, reconcile-IsPlan}

pub record Kafka (Spec : Type 0) : Type 0 where
  pub meta : ObjectMeta
  pub spec : Spec

module _ {Spec : Type 0} where
  unfoldable pub kafka_key : Kafka Spec → String
  kafka_key d = object_key d.meta

  -- The body of the loop: `t` is the existing object, `v` the desired one.
  unfoldable pub update_kafka : Kafka Spec → Kafka Spec → Run (Kafka Spec)
  update_kafka t v =
      update_meta t.meta v.meta >>= λ meta. done (record t { meta = meta; spec = v.spec })

  unfoldable pub kafka_map : List (Kafka Spec) → Dict (Kafka Spec)
  kafka_map = to_map kafka_key

  unfoldable pub for_kafkas :
      RangeOrder → List (Kafka Spec) → List (Kafka Spec) → Run (Inventory (Kafka Spec))
  unfolding kafka_map
  for_kafkas o existing desired = reconcile o update_kafka (kafka_map desired) (kafka_map existing)

  -- The updated object: the spec and the owners are the desired ones.
  unfoldable pub merged_kafka : Kafka Spec → Kafka Spec → Kafka Spec
  merged_kafka t v = record { meta = merged_meta t.meta v.meta; spec = v.spec }

  update_kafka_done : (t v : Kafka Spec) → update_kafka t v ≡ done (merged_kafka t v)
  unfolding update_kafka merged_kafka
  update_kafka_done t v = rw update_meta_done

  kafka_key-merged_kafka : (t v : Kafka Spec) → kafka_key (merged_kafka t v) ≡ kafka_key t
  unfolding kafka_key merged_kafka
  kafka_key-merged_kafka t v = object_key-merged_meta t.meta v.meta

  pub for_kafkas-IsPlan :
      (o : RangeOrder) (existing desired : List (Kafka Spec))
      → (inv : Inventory (Kafka Spec)) × (for_kafkas o existing desired ≡ done inv)
        × IsPlan kafka_key merged_kafka (kafka_map desired) (kafka_map existing) inv
  unfolding for_kafkas
  for_kafkas-IsPlan o existing desired =
      reconcile-IsPlan kafka_key merged_kafka kafka_key-merged_kafka o update_kafka
        update_kafka_done desired existing
