-- ===== src/Apply/Services.antt =====
-- applyServices (pkg/controller/jaeger/service.go).
use jaeger_operator.Base.{String, ◌≡◌, true, Option, some, List, is_some}
use jaeger_operator.Base.Dict.{RangeOrder, lookup}
use jaeger_operator.Inventory.Service.{Service, service_key, service_map, merged_service}
use jaeger_operator.Inventory.Service.{for_services, for_services-IsPlan}
use jaeger_operator.Apply.{Client, Reply, ok}
use jaeger_operator.Apply.Calls.{IsApi}
use jaeger_operator.Apply.Kinds.{apply_services}
use jaeger_operator.Apply.Correct.{target, get-apply, apply-keeps}

module _ {Rest : Type 0} (c : Client (Service Rest)) (o : RangeOrder)
    (admit : Service Rest → Service Rest) (get : c.State → String → Option (Service Rest))
    (api : IsApi c service_key admit get) (desired : List (Service Rest)) (s s' : c.State) where
  -- With an API as it is documented (IsApi): however a run of applyServices ends, a desired service that was there is there; and after one
  -- that succeeded the instance has exactly the desired services: new ones as desired, those that
  -- were there updated, and no others.
  pub get-apply_services :
      (reply : Reply c.Fault)
      → apply_services c o desired s ≡ some (reply, s')
      → ((k : String)
          → is_some (lookup k (service_map desired)) ≡ true
          → is_some (get s k) ≡ true
          → is_some (get s' k) ≡ true)
        × (reply ≡ ok
            → (k : String)
            → get s' k ≡ target merged_service admit (lookup k (service_map desired)) (get s k))
  unfolding apply_services service_map
  get-apply_services reply e = (
    λ k wanted there.
        apply-keeps c service_key merged_service admit get api (for_services o)
          (for_services-IsPlan o) desired s s' reply k e wanted there,
    λ fine k.
        get-apply c service_key merged_service admit get api (for_services o)
          (for_services-IsPlan o) desired s s' (rw fine at e) k,
  )
