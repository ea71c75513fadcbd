-- ===== src/Inventory/Secret.antt =====
-- Secrets (pkg/inventory/secret.go), by namespace and name. `rest` is what else a secret holds: no update touches it.
use jaeger_operator.Base.{ℕ, String, ◌≡◌, List, Run, done, ◌>>=◌}
use jaeger_operator.Base.Dict.{GoMap, Dict, RangeOrder}
use jaeger_operator.Meta.{ObjectMeta, object_key, update_meta}
use jaeger_operator.Meta.Laws.{merged_meta, update_meta_done, object_key-merged_meta}
use jaeger_operator.Inventory.{Inventory, reconcile, to_map}
use jaeger_operator.Inventory.Contract.{IsPlan, reconcile-IsPlan}

pub record Secret (Rest : Type 0) : Type 0 where
  pub meta : ObjectMeta
  pub data_bytes : GoMap (List ℕ)
  pub string_data : GoMap String
  pub rest : Rest

module _ {Rest : Type 0} where
  unfoldable pub secret_key : Secret Rest → String
  secret_key d = object_key d.meta

  -- The body of the loop: `t` is the existing object, `v` the desired one.
  unfoldable pub update_secret : Secret Rest → Secret Rest → Run (Secret Rest)
  update_secret t v = update_meta t.meta v.meta >>= λ meta.
      done (record t { meta = meta; data_bytes = v.data_bytes; string_data = v.string_data })

  unfoldable pub secrets_map : List (Secret Rest) → Dict (Secret Rest)
  secrets_map = to_map secret_key

  unfoldable pub for_secrets :
      RangeOrder → List (Secret Rest) → List (Secret Rest) → Run (Inventory (Secret Rest))
  unfolding secrets_map
  for_secrets o existing desired =
      reconcile o update_secret (secrets_map desired) (secrets_map existing)

  -- The updated object.
  unfoldable pub merged_secret : Secret Rest → Secret Rest → Secret Rest
  merged_secret t v = record t {
    meta = merged_meta t.meta v.meta;
    data_bytes = v.data_bytes;
    string_data = v.string_data;
  }

  update_secret_done : (t v : Secret Rest) → update_secret t v ≡ done (merged_secret t v)
  unfolding update_secret merged_secret
  update_secret_done t v = rw update_meta_done

  secret_key-merged_secret : (t v : Secret Rest) → secret_key (merged_secret t v) ≡ secret_key t
  unfolding secret_key merged_secret
  secret_key-merged_secret t v = object_key-merged_meta t.meta v.meta

  pub for_secrets-IsPlan :
      (o : RangeOrder) (existing desired : List (Secret Rest))
      → (inv : Inventory (Secret Rest)) × (for_secrets o existing desired ≡ done inv)
        × IsPlan secret_key merged_secret (secrets_map desired) (secrets_map existing) inv
  unfolding for_secrets
  for_secrets-IsPlan o existing desired =
      reconcile-IsPlan secret_key merged_secret secret_key-merged_secret o update_secret
        update_secret_done desired existing
