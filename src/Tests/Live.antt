-- ===== src/Tests/Live.antt =====
-- A run of applyDeployments against an API that answers (pkg/controller/jaeger/deployment.go).
use jaeger_operator.Base.{String, ◌≡◌, refl, some, List, [], ◌∷◌}
use jaeger_operator.Base.Dict.{insertion_order, lookup}
use jaeger_operator.Apply.{Client, Reply, ok}
use jaeger_operator.Apply.Correct.{target}
use jaeger_operator.Apply.Memory.{held, memory, memory-IsApi}
use jaeger_operator.Base.{Bool, true, is_some}
use jaeger_operator.Inventory.Service.{Service, service_key, service_map, merged_service}
use jaeger_operator.Apply.Kinds.{apply_services}
use jaeger_operator.Apply.Services.{get-apply_services}
use jaeger_operator.Tests.Plans.{a_meta, service, services, ready}

abbrev service_server : Client (Service String)
service_server = memory service_key ready

abbrev updated_service : Service String
updated_service = record {
  meta = record (a_meta "query" "1.31") { annotations = some [] };
  spec = record { cluster_ip = "10.0.0.7"; rest = "1.31" };
}

abbrev services_after : List (Service String)
services_after = service "1.30" "10.0.0.7" ∷ updated_service ∷ []

services_run :
    apply_services service_server insertion_order (services "1.31" "") (services "1.30" "10.0.0.7")
    ≡ some (ok, services_after)
unfolding apply_services jaeger_operator.Inventory.Service.for_services
    jaeger_operator.Inventory.reconcile jaeger_operator.Inventory.to_map
    jaeger_operator.Base.Dict.insert lookup jaeger_operator.Base.string_dec service_key
    jaeger_operator.Meta.object_key jaeger_operator.Inventory.Service.update_service
    jaeger_operator.Meta.update_meta jaeger_operator.Meta.copy_entries
    jaeger_operator.Base.Dict.erase
services_run = refl

get-apply_services_example :
    ((k : String)
      → is_some (lookup k (service_map (services "1.31" ""))) ≡ true
      → is_some (held service_key (services "1.30" "10.0.0.7") k) ≡ true
      → is_some (held service_key services_after k) ≡ true)
    × (◌≡◌ {A = Reply String} ok ok
        → (k : String)
        → held service_key services_after k
          ≡ target merged_service
              (λ d. d)
              (lookup k (service_map (services "1.31" "")))
              (held service_key (services "1.30" "10.0.0.7") k))
get-apply_services_example =
    get-apply_services service_server insertion_order (λ d. d) (held service_key)
      (memory-IsApi service_key ready) (services "1.31" "") (services "1.30" "10.0.0.7")
      services_after ok services_run
