-- ===== src/Inventory/Account.antt =====
-- Service accounts (pkg/inventory/account.go), by namespace and name. `rest` is what else a service account holds: no update touches it.
use jaeger_operator.Base.{String, ◌≡◌, List, Run, done, ◌>>=◌}
use jaeger_operator.Base.Dict.{Dict, RangeOrder}
use jaeger_operator.Meta.{ObjectMeta, object_key, update_meta}
use jaeger_operator.Meta.Laws.{merged_meta, update_meta_done, object_key-merged_meta}
use jaeger_operator.Inventory.{Inventory, reconcile, to_map}
use jaeger_operator.Inventory.Contract.{IsPlan, reconcile-IsPlan}

pub record ServiceAccount (Rest : Type 0) : Type 0 where
  pub meta : ObjectMeta
  pub rest : Rest

module _ {Rest : Type 0} where
  unfoldable pub account_key : ServiceAccount Rest → String
  account_key d = object_key d.meta

  -- The body of the loop: `t` is the existing object, `v` the desired one.
  unfoldable pub update_account :
      ServiceAccount Rest → ServiceAccount Rest → Run (ServiceAccount Rest)
  update_account t v = update_meta t.meta v.meta >>= λ meta. done (record t { meta = meta })

  unfoldable pub account_map : List (ServiceAccount Rest) → Dict (ServiceAccount Rest)
  account_map = to_map account_key

  unfoldable pub for_accounts :
      RangeOrder
      → List (ServiceAccount Rest)
      → List (ServiceAccount Rest)
      → Run (Inventory (ServiceAccount Rest))
  unfolding account_map
  for_accounts o existing desired =
      reconcile o update_account (account_map desired) (account_map existing)

  -- The updated object.
  unfoldable pub merged_account : ServiceAccount Rest → ServiceAccount Rest → ServiceAccount Rest
  merged_account t v = record t { meta = merged_meta t.meta v.meta }

  update_account_done : (t v : ServiceAccount Rest) → update_account t v ≡ done (merged_account t v)
  unfolding update_account merged_account
  update_account_done t v = rw update_meta_done

  account_key-merged_account :
      (t v : ServiceAccount Rest) → account_key (merged_account t v) ≡ account_key t
  unfolding account_key merged_account
  account_key-merged_account t v = object_key-merged_meta t.meta v.meta

  pub for_accounts-IsPlan :
      (o : RangeOrder) (existing desired : List (ServiceAccount Rest))
      → (inv : Inventory (ServiceAccount Rest)) × (for_accounts o existing desired ≡ done inv)
        × IsPlan account_key merged_account (account_map desired) (account_map existing) inv
  unfolding for_accounts
  for_accounts-IsPlan o existing desired =
      reconcile-IsPlan account_key merged_account account_key-merged_account o update_account
        update_account_done desired existing
