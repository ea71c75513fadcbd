-- ===== src/Inventory/Service.antt =====
-- Services (pkg/inventory/service.go), by namespace and name. Of the spec only the cluster's address
-- is read.
use jaeger_operator.Base.{String, ◌≡◌, ◌≢◌, not, ◌&&◌, List, Run, done, ◌>>=◌, some, ◌∙◌}
use jaeger_operator.Base.{◌==◌, if◌then◌else◌, arith}
use jaeger_operator.Base.Dict.{Dict, RangeOrder, lookup, named}
use jaeger_operator.Meta.{ObjectMeta, object_key, update_meta}
use jaeger_operator.Meta.Laws.{IsMeta, MetaUpdated, merged_meta, update_meta_done}
use jaeger_operator.Meta.Laws.{object_key-merged_meta, merged_meta-MetaUpdated}
use jaeger_operator.Inventory.{Inventory, reconcile, to_map}
use jaeger_operator.Inventory.Contract.{IsPlan, reconcile-IsPlan}

pub record ServiceSpec (Rest : Type 0) : Type 0 where
  pub cluster_ip : String
  pub rest : Rest

pub record Service (Rest : Type 0) : Type 0 where
  pub meta : ObjectMeta
  pub spec : ServiceSpec Rest

module _ {Rest : Type 0} where
  unfoldable pub service_key : Service Rest → String
  service_key d = object_key d.meta

  -- The desired spec, with the address that the cluster assigned if none is asked for.
  unfoldable pub with_cluster_ip : ServiceSpec Rest → ServiceSpec Rest → ServiceSpec Rest
  with_cluster_ip tp v =
      if v.cluster_ip == "" && not (tp.cluster_ip == "")
      then record v { cluster_ip = tp.cluster_ip }
      else v

  -- The body of the loop: `t` is the existing object, `v` the desired one.
  unfoldable pub update_service : Service Rest → Service Rest → Run (Service Rest)
  unfolding with_cluster_ip
  update_service t v = update_meta t.meta v.meta >>= λ meta.
      done (record t { meta = meta; spec = with_cluster_ip t.spec v.spec })

  unfoldable pub service_map : List (Service Rest) → Dict (Service Rest)
  service_map = to_map service_key

  unfoldable pub for_services :
      RangeOrder → List (Service Rest) → List (Service Rest) → Run (Inventory (Service Rest))
  unfolding service_map
  for_services o existing desired =
      reconcile o update_service (service_map desired) (service_map existing)

  unfoldable pub merged_service : Service Rest → Service Rest → Service Rest
  merged_service t v = record {
    meta = merged_meta t.meta v.meta;
    spec = with_cluster_ip t.spec v.spec;
  }

  update_service_done : (t v : Service Rest) → update_service t v ≡ done (merged_service t v)
  unfolding update_service merged_service
  update_service_done t v = rw update_meta_done

  service_key-merged_service :
      (t v : Service Rest) → service_key (merged_service t v) ≡ service_key t
  unfolding service_key merged_service
  service_key-merged_service t v = object_key-merged_meta t.meta v.meta

  pub for_services-IsPlan :
      (o : RangeOrder) (existing desired : List (Service Rest))
      → (inv : Inventory (Service Rest)) × (for_services o existing desired ≡ done inv)
        × IsPlan service_key merged_service (service_map desired) (service_map existing) inv
  unfolding for_services
  for_services-IsPlan o existing desired =
      reconcile-IsPlan service_key merged_service service_key-merged_service o update_service
        update_service_done desired existing

  -- What an updated service is made of.
  pub record ServiceUpdated (t v m : Service Rest) : Type 0 where
    pub meta : MetaUpdated t.meta v.meta m.meta
    pub rest : m.spec.rest ≡ v.spec.rest
    pub asked : v.spec.cluster_ip ≢ "" → m.spec.cluster_ip ≡ v.spec.cluster_ip
    pub kept : v.spec.cluster_ip ≡ "" → m.spec.cluster_ip ≡ t.spec.cluster_ip

  merged_service-ServiceUpdated :
      (t v : Service Rest) → IsMeta v.meta → ServiceUpdated t v (merged_service t v)
  unfolding merged_service with_cluster_ip
  merged_service-ServiceUpdated t v h = record {
    meta = merged_meta-MetaUpdated t.meta v.meta h;
    rest = ground arith;
    asked = λ p. ground arith;
    kept = λ p. ground arith;
  }

  -- A service that exists and is desired is updated: the address that the cluster assigned stays
  -- unless another one is asked for, labels and annotations of others stay, and the rest is as
  -- desired.
  pub for_services-updated :
      (o : RangeOrder) (existing desired : List (Service Rest)) (k : String) (t v : Service Rest)
      → lookup k (service_map existing) ≡ some t
      → lookup k (service_map desired) ≡ some v
      → IsMeta v.meta
      → (inv : Inventory (Service Rest)) × (m : Service Rest) × (for_services o existing desired
          ≡ done inv)
        × (lookup k (named service_key inv.update) ≡ some m)
        × ServiceUpdated t v m
  for_services-updated o existing desired k t v et ev h =
      let (inv, runs, plan) = for_services-IsPlan o existing desired in
      (
        inv,
        merged_service t v,
        runs,
        plan.update k ∙ rw (et, ev),
        merged_service-ServiceUpdated t v h,
      )
