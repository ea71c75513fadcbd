-- ===== src/Tests/Plans.antt =====
-- Plans and runs for a few deployments and services (pkg/inventory, pkg/controller/jaeger).
use jaeger_operator.Base.{
  ℕ, String, ◌<>◌, ◌≡◌, ◌≢◌, refl, done, panic, All, ◌++◌, Bool, true, false, Option, none, some,
  List, [], ◌∷◌, is_some,
}
use jaeger_operator.Base.Dict.{RangeOrder, insertion_order, lookup, named}
use jaeger_operator.Meta.{ObjectMeta}
use jaeger_operator.Inventory.Deployment.{
  Deployment, DeploymentSpec, Container, deployment_key, deployment_map, for_deployments,
}
use jaeger_operator.Inventory.{Inventory}
use jaeger_operator.Inventory.Contract.{IsPlan}
use jaeger_operator.Meta.Laws.{IsMeta, MetaUpdated}
use jaeger_operator.Inventory.Deployment.{merged_deployment, for_deployments-IsPlan}
use jaeger_operator.Inventory.Deployment.Updates.{SpecUpdated, for_deployments-updated}
use jaeger_operator.Inventory.Service.{
  Service, service_key, service_map, for_services, ServiceUpdated, for_services-updated,
}
use jaeger_operator.Inventory.Versioned.{Object, older, newer, for_objects}
use jaeger_operator.Inventory.Versioned.Laws.{name_key, merged_object, for_objects-IsPlan}
use jaeger_operator.Inventory.{to_map}
use jaeger_operator.Apply.{Client, Reply, ok, err}
use jaeger_operator.Apply.Kinds.{DeploymentStatus, apply_deployments}
use jaeger_operator.Apply.Memory.{memory, memory-IsApi, held}
use jaeger_operator.Apply.Deployments.{
  get-apply_deployments, apply_deployments-keeps, apply_deployments_unstable,
}

abbrev pub Deploy : Type 0
Deploy = Deployment String String String

abbrev pub a_meta : String → String → ObjectMeta
a_meta name version = record {
  name = name;
  namespace = "obs";
  labels = some (("version", version) ∷ []);
  annotations = none;
  owner_references = [];
}

abbrev deploy : String → String → Option ℕ → List (Container String) → Deploy
deploy name version replicas containers = record {
  meta = a_meta name version;
  spec = record { replicas = replicas; selector = name; containers = containers; rest = version };
}

abbrev proxy : String → List (Container String)
proxy secret =
    record {
      name = "oauth-proxy";
      args = ("--cookie-secret=" <> secret) ∷ "--https-address=:8443" ∷ [];
      rest = "proxy";
    }
    ∷ []

abbrev pub there : List Deploy
there = deploy "query" "1.30" (some 3) (proxy "old") ∷ deploy "ingester" "1.30" none [] ∷ []

abbrev pub wanted : List Deploy
wanted = deploy "query" "1.31" none (proxy "new") ∷ deploy "collector" "1.31" (some 1) [] ∷ []

abbrev pub ready : DeploymentStatus
ready = record { ready_replicas = 1; replicas = 1 }

abbrev unready : DeploymentStatus
unready = record { ready_replicas = 0; replicas = 1 }

abbrev pub server : DeploymentStatus → Client Deploy
server status = memory deployment_key status

abbrev query_updated : Deploy
query_updated = record {
  meta = record (a_meta "query" "1.31") { annotations = some [] };
  spec = (deploy "query" "1.31" (some 3) (proxy "old")).spec;
}

abbrev after : List Deploy
after =
    deploy "query" "1.30" (some 3) (proxy "old")
    ∷ deploy "collector" "1.31" (some 1) []
    ∷ query_updated
    ∷ []

run : apply_deployments (server ready) (λ s. s) insertion_order 2 wanted there ≡ some (ok, after)
unfolding apply_deployments for_deployments jaeger_operator.Inventory.reconcile to_map
    jaeger_operator.Base.Dict.insert jaeger_operator.Base.string_dec deployment_key
    jaeger_operator.Meta.object_key lookup jaeger_operator.Inventory.Deployment.update_deployment
    jaeger_operator.Meta.update_meta jaeger_operator.Meta.copy_entries
    jaeger_operator.Base.Dict.erase jaeger_operator.Apply.Memory.without
    jaeger_operator.Util.Args.find_item jaeger_operator.Base.has_prefix
    jaeger_operator.Util.Args.replace_argument
run = refl

get-apply_deployments_example : held deployment_key after "obs.query" ≡ some query_updated
unfolding lookup deployment_map to_map jaeger_operator.Base.Dict.insert
    jaeger_operator.Base.string_dec deployment_key jaeger_operator.Meta.object_key merged_deployment
    jaeger_operator.Meta.Laws.merged_meta
    jaeger_operator.Inventory.Deployment.propagate_oauth_cookie_secret
    jaeger_operator.Meta.Laws.overlay jaeger_operator.Util.Args.find_item
    jaeger_operator.Base.has_prefix jaeger_operator.Inventory.Deployment.with_replicas
    jaeger_operator.Util.Args.replace_argument
get-apply_deployments_example =
    get-apply_deployments (server ready) (λ s. s) insertion_order (λ d. d) (held deployment_key)
      (memory-IsApi deployment_key ready) 2 wanted there after "obs.query" run

query_wanted : is_some (lookup "obs.query" (deployment_map wanted)) ≡ true
unfolding lookup deployment_map to_map jaeger_operator.Base.Dict.insert
    jaeger_operator.Base.string_dec deployment_key jaeger_operator.Meta.object_key
query_wanted = refl

query_there : is_some (held deployment_key there "obs.query") ≡ true
unfolding lookup to_map jaeger_operator.Base.Dict.insert jaeger_operator.Base.string_dec
    deployment_key jaeger_operator.Meta.object_key
query_there = refl

apply_deployments-keeps_example : is_some (held deployment_key after "obs.query") ≡ true
apply_deployments-keeps_example =
    apply_deployments-keeps (server ready) (λ s. s) insertion_order (λ d. d) (held deployment_key)
      (memory-IsApi deployment_key ready) 2 wanted there after "obs.query" ok run query_wanted
      query_there

-- The run that times out, since the server reports no ready replica: nothing is deleted.
abbrev after_timeout : List Deploy
after_timeout =
    deploy "query" "1.30" (some 3) (proxy "old")
    ∷ deploy "ingester" "1.30" none []
    ∷ deploy "collector" "1.31" (some 1) []
    ∷ query_updated
    ∷ []

abbrev timed_out : Reply String
timed_out = err "timed out waiting for the condition"

run_unready :
    apply_deployments (server unready) (λ _. unready) insertion_order 2 wanted there
    ≡ some (timed_out, after_timeout)
unfolding apply_deployments for_deployments jaeger_operator.Inventory.reconcile to_map
    jaeger_operator.Base.Dict.insert jaeger_operator.Base.string_dec deployment_key
    jaeger_operator.Meta.object_key lookup jaeger_operator.Inventory.Deployment.update_deployment
    jaeger_operator.Meta.update_meta jaeger_operator.Meta.copy_entries
    jaeger_operator.Base.Dict.erase jaeger_operator.Util.Args.find_item
    jaeger_operator.Base.has_prefix jaeger_operator.Util.Args.replace_argument
run_unready = refl

never_ready : (x : DeploymentStatus) → unready.ready_replicas ≢ unready.replicas
never_ready x = λ e. cc

ingester_there : is_some (held deployment_key there "obs.ingester") ≡ true
unfolding lookup to_map jaeger_operator.Base.Dict.insert jaeger_operator.Base.string_dec
    deployment_key jaeger_operator.Meta.object_key
ingester_there = refl

apply_deployments_unstable_example :
    is_some (held deployment_key after_timeout "obs.ingester") ≡ true
apply_deployments_unstable_example =
    apply_deployments_unstable (server unready) (λ _. unready) insertion_order (λ d. d)
      (held deployment_key) (memory-IsApi deployment_key unready) 2 wanted there after_timeout
      "obs.query" "obs.ingester" timed_out never_ready query_wanted run_unready ingester_there

for_deployments-IsPlan_example :
    (inv : Inventory Deploy) × (for_deployments insertion_order there wanted ≡ done inv)
    × IsPlan deployment_key merged_deployment (deployment_map wanted) (deployment_map there) inv
for_deployments-IsPlan_example = for_deployments-IsPlan insertion_order there wanted

abbrev old_query : Deploy
old_query = deploy "query" "1.30" (some 3) (proxy "old")

abbrev new_query : Deploy
new_query = deploy "query" "1.31" none (proxy "new")

old_query-there : lookup "obs.query" (deployment_map there) ≡ some old_query
unfolding lookup deployment_map to_map jaeger_operator.Base.Dict.insert
    jaeger_operator.Base.string_dec deployment_key jaeger_operator.Meta.object_key
old_query-there = refl

new_query-wanted : lookup "obs.query" (deployment_map wanted) ≡ some new_query
unfolding lookup deployment_map to_map jaeger_operator.Base.Dict.insert
    jaeger_operator.Base.string_dec deployment_key jaeger_operator.Meta.object_key
new_query-wanted = refl

new_query-IsMeta : IsMeta new_query.meta
unfolding lookup
new_query-IsMeta = record { labels = (refl, tt); annotations = tt }

for_deployments-updated_example :
    (inv : Inventory Deploy) × (m : Deploy) × (for_deployments insertion_order there wanted
      ≡ done inv)
    × (lookup "obs.query" (named deployment_key inv.update) ≡ some m)
    × MetaUpdated old_query.meta new_query.meta m.meta
    × SpecUpdated old_query.spec new_query.spec m.spec
for_deployments-updated_example =
    for_deployments-updated insertion_order there wanted "obs.query" old_query new_query
      old_query-there new_query-wanted new_query-IsMeta

abbrev pub service : String → String → Service String
service version ip = record {
  meta = a_meta "query" version;
  spec = record { cluster_ip = ip; rest = version };
}

abbrev pub services : String → String → List (Service String)
services version ip = service version ip ∷ []

service_there :
    lookup "obs.query" (service_map (services "1.30" "10.0.0.7")) ≡ some (service "1.30" "10.0.0.7")
unfolding lookup service_map to_map jaeger_operator.Base.Dict.insert jaeger_operator.Base.string_dec
    service_key jaeger_operator.Meta.object_key
service_there = refl

service_wanted : lookup "obs.query" (service_map (services "1.31" "")) ≡ some (service "1.31" "")
unfolding lookup service_map to_map jaeger_operator.Base.Dict.insert jaeger_operator.Base.string_dec
    service_key jaeger_operator.Meta.object_key
service_wanted = refl

service-IsMeta : IsMeta (service "1.31" "").meta
unfolding lookup
service-IsMeta = record { labels = (refl, tt); annotations = tt }

for_services-updated_example :
    (inv : Inventory (Service String)) × (m : Service String) × (for_services insertion_order
        (services "1.30" "10.0.0.7")
        (services "1.31" "")
      ≡ done inv)
    × (lookup "obs.query" (named service_key inv.update) ≡ some m)
    × ServiceUpdated (service "1.30" "10.0.0.7") (service "1.31" "") m
for_services-updated_example =
    for_services-updated insertion_order (services "1.30" "10.0.0.7") (services "1.31" "")
      "obs.query" (service "1.30" "10.0.0.7") (service "1.31" "") service_there service_wanted
      service-IsMeta

abbrev job : String → Object String String String
job version = older (record { meta = a_meta "cleaner" version; spec = version })

abbrev new_job : Object String String String
new_job = newer (record { meta = a_meta "rollover" "1.31"; spec = "1.31" })

for_objects-IsPlan_example :
    (inv : Inventory (Object String String String)) × (for_objects true insertion_order
        (job "1.30" ∷ [])
        (job "1.31" ∷ [])
      ≡ done inv)
    × IsPlan name_key merged_object
        (to_map name_key (job "1.31" ∷ []))
        (to_map name_key (job "1.30" ∷ []))
        inv
for_objects-IsPlan_example =
    for_objects-IsPlan true insertion_order (job "1.30" ∷ []) (job "1.31" ∷ []) (tt, tt) (tt, tt)
