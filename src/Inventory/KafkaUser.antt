-- ===== src/Inventory/KafkaUser.antt =====
-- Kafka users (pkg/inventory/kafkauser.go), by namespace and name. What stands in the spec is
-- not read.
use jaeger_operator.Base.{String, ◌≡◌, List, Run, done, ◌>>=◌}
use jaeger_operator.Base.Dict.{Dict, RangeOrder}
use jaeger_operator.Meta.{ObjectMeta, object_key, update_meta}
use jaeger_operator.Meta.Laws.{merged_meta, update_meta_done, object_key-merged_meta}
use jaeger_operator.Inventory.{Inventory, reconcile, to_map}
use jaeger_operator.Inventory.Contract.{IsPlan, reconcile-IsPlan}

pub record KafkaUser (Spec : Type 0) : Type 0 where
  pub meta : ObjectMeta
  pub spec : Spec

module _ {Spec : Type 0} where
  unfoldable pub kafka_user_key : KafkaUser Spec → String
  kafka_user_key d = object_key d.meta

  -- The body of the loop: `t` is the existing object, `v` the desired one.
  unfoldable pub update_kafka_user : KafkaUser Spec → KafkaUser Spec → Run (KafkaUser Spec)
  update_kafka_user t v =
      update_meta t.meta v.meta >>= λ meta. done (record t { meta = meta; spec = v.spec })

  unfoldable pub kafka_user_map : List (KafkaUser Spec) → Dict (KafkaUser Spec)
  kafka_user_map = to_map kafka_user_key

  unfoldable pub for_kafka_users :
      RangeOrder → List (KafkaUser Spec) → List (KafkaUser Spec) → Run (Inventory (KafkaUser Spec))
  unfolding kafka_user_map
  for_kafka_users o existing desired =
      reconcile o update_kafka_user (kafka_user_map desired) (kafka_user_map existing)

  -- The updated object: the spec and the owners are the desired ones.
  unfoldable pub merged_kafka_user : KafkaUser Spec → KafkaUser Spec → KafkaUser Spec
  merged_kafka_user t v = record { meta = merged_meta t.meta v.meta; spec = v.spec }

  update_kafka_user_done :
      (t v : KafkaUser Spec) → update_kafka_user t v ≡ done (merged_kafka_user t v)
  unfolding update_kafka_user merged_kafka_user
  update_kafka_user_done t v = rw update_meta_done

  kafka_user_key-merged_kafka_user :
      (t v : KafkaUser Spec) → kafka_user_key (merged_kafka_user t v) ≡ kafka_user_key t
  unfolding kafka_user_key merged_kafka_user
  kafka_user_key-merged_kafka_user t v = object_key-merged_meta t.meta v.meta

  pub for_kafka_users-IsPlan :
      (o : RangeOrder) (existing desired : List (KafkaUser Spec))
      → (inv : Inventory (KafkaUser Spec)) × (for_kafka_users o existing desired ≡ done inv)
        × IsPlan kafka_user_key merged_kafka_user
            (kafka_user_map desired)
            (kafka_user_map existing)
            inv
  unfolding for_kafka_users
  for_kafka_users-IsPlan o existing desired =
      reconcile-IsPlan kafka_user_key merged_kafka_user kafka_user_key-merged_kafka_user o
        update_kafka_user update_kafka_user_done desired existing
