-- ===== src/Autoclean.antt =====
-- The removal of agents whose instance is gone (pkg/autoclean/main.go). The lists that the cluster
-- answers are functions of a namespace, the empty one for all; a list after an error is empty. What
-- an update answers is only logged.
pub mod Laws
pub mod Injected
use jaeger_operator.Base.{String, Bool, Option, none, some, List, [], ◌∷◌, ◌++◌}
use jaeger_operator.Base.{◌==◌, if◌then◌else◌, is_some}
use jaeger_operator.Base.Dict.{Dict, get, insert, lookup}
use jaeger_operator.Kube.{Kube}
use jaeger_operator.Jaeger.{Jaeger}
use jaeger_operator.Inject.{Deployment, label}
use jaeger_operator.Inject.Tags.{split_comma}
use jaeger_operator.Inject.Sidecar.{clean_sidecar}

module _ {K : Kube} where
  -- instancesMap[instances.Items[i].Name] = &instances.Items[i]
  unfoldable pub add_instances : List (Jaeger K) → Dict (Jaeger K) → Dict (Jaeger K)
  add_instances [] instances_map = instances_map
  add_instances (j ∷ instances) instances_map =
      add_instances instances (insert j.name j instances_map)

  -- The loop over the watched namespaces
  unfoldable pub gather :
      (String → List (Deployment K))
      → (String → List (Jaeger K))
      → List String
      → List (Deployment K)
      → Dict (Jaeger K)
      → List (Deployment K) × Dict (Jaeger K)
  unfolding add_instances
  gather list_deployments list_instances [] deployments instances_map = (deployments, instances_map)
  gather list_deployments list_instances (ns ∷ namespaces) deployments instances_map =
      gather list_deployments list_instances namespaces (deployments ++ list_deployments ns)
        (add_instances (list_instances ns) instances_map)

  abbrev pub orphaned_by : Dict (Jaeger K) → Option String → Option String
  orphaned_by instances_map none = none
  orphaned_by instances_map (some instance_name) =
      if is_some (lookup instance_name instances_map) then none else some instance_name

  abbrev pub cleaned_in_front :
      Bool → Deployment K → Option String → List (Deployment K) → List (Deployment K)
  cleaned_in_front openshift dep none rest = rest
  cleaned_in_front openshift dep (some instance_name) rest =
      clean_sidecar openshift instance_name dep ∷ rest

  -- The loop over the deployments: what is asked to be updated
  unfoldable pub clean_each : Bool → Dict (Jaeger K) → List (Deployment K) → List (Deployment K)
  clean_each openshift instances_map [] = []
  clean_each openshift instances_map (dep ∷ deployments) =
      cleaned_in_front openshift dep (orphaned_by instances_map (get label dep.meta.labels))
        (clean_each openshift instances_map deployments)

  -- cleanDeployments
  unfoldable pub clean_deployments :
      Bool
      → String
      → (String → List (Deployment K))
      → (String → List (Jaeger K))
      → List (Deployment K)
  unfolding gather clean_each split_comma
  clean_deployments openshift watch_namespace list_deployments list_instances =
      let namespaces = if watch_namespace == "" then "" ∷ [] else split_comma watch_namespace in
      let (deployments, instances_map) = gather list_deployments list_instances namespaces [] [] in
      clean_each openshift instances_map deployments
