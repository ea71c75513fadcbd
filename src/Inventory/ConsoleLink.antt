-- ===== src/Inventory/ConsoleLink.antt =====
-- Console links (pkg/inventory/consolelink.go), by name alone: they are cluster-wide. What stands in the spec is
-- not read.
use jaeger_operator.Base.{String, ◌≡◌, refl, List, Run, done, ◌>>=◌}
use jaeger_operator.Base.Dict.{Dict, RangeOrder}
use jaeger_operator.Meta.{ObjectMeta, update_meta}
use jaeger_operator.Meta.Laws.{merged_meta, update_meta_done}
use jaeger_operator.Inventory.{Inventory, reconcile, to_map}
use jaeger_operator.Inventory.Contract.{IsPlan, reconcile-IsPlan}

pub record ConsoleLink (Spec : Type 0) : Type 0 where
  pub meta : ObjectMeta
  pub spec : Spec

module _ {Spec : Type 0} where
  unfoldable pub console_link_key : ConsoleLink Spec → String
  console_link_key d = d.meta.name

  -- The body of the loop: `t` is the existing object, `v` the desired one.
  unfoldable pub update_console_link : ConsoleLink Spec → ConsoleLink Spec → Run (ConsoleLink Spec)
  update_console_link t v =
      update_meta t.meta v.meta >>= λ meta. done (record t { meta = meta; spec = v.spec })

  unfoldable pub console_link_map : List (ConsoleLink Spec) → Dict (ConsoleLink Spec)
  console_link_map = to_map console_link_key

  unfoldable pub for_console_links :
      RangeOrder
      → List (ConsoleLink Spec)
      → List (ConsoleLink Spec)
      → Run (Inventory (ConsoleLink Spec))
  unfolding console_link_map
  for_console_links o existing desired =
      reconcile o update_console_link (console_link_map desired) (console_link_map existing)

  -- The updated object: the spec and the owners are the desired ones.
  unfoldable pub merged_console_link : ConsoleLink Spec → ConsoleLink Spec → ConsoleLink Spec
  merged_console_link t v = record { meta = merged_meta t.meta v.meta; spec = v.spec }

  update_console_link_done :
      (t v : ConsoleLink Spec) → update_console_link t v ≡ done (merged_console_link t v)
  unfolding update_console_link merged_console_link
  update_console_link_done t v = rw update_meta_done

  console_link_key-merged_console_link :
      (t v : ConsoleLink Spec) → console_link_key (merged_console_link t v) ≡ console_link_key t
  unfolding console_link_key merged_console_link merged_meta
  console_link_key-merged_console_link t v = refl

  pub for_console_links-IsPlan :
      (o : RangeOrder) (existing desired : List (ConsoleLink Spec))
      → (inv : Inventory (ConsoleLink Spec)) × (for_console_links o existing desired ≡ done inv)
        × IsPlan console_link_key merged_console_link
            (console_link_map desired)
            (console_link_map existing)
            inv
  unfolding for_console_links
  for_console_links-IsPlan o existing desired =
      reconcile-IsPlan console_link_key merged_console_link console_link_key-merged_console_link o
        update_console_link update_console_link_done desired existing
