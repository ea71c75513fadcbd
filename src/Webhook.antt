-- ===== src/Webhook.antt =====
-- The webhook of deployments (controllers/appsv1/deployment_webhook.go). What the cluster, the decoder
-- and the encoder answer is a record; what the handler asks the cluster to create is part of its
-- result.
pub mod Laws
use jaeger_operator.Base.{
  String, Bool, true, false, ◌||◌, not, Option, none, some, List, [], ◌∷◌, ◌++◌,
}
use jaeger_operator.Base.{ℕ, ◌==◌, if◌then◌else◌, is_some, equal_fold, Run, done, ◌>>=◌}
use jaeger_operator.Base.Dict.{GoMap, get}
use jaeger_operator.Kube.{Kube}
use jaeger_operator.Jaeger.{Jaeger}
use jaeger_operator.Ca.{Bundle, get_trusted_ca_bundle, get_service_ca_bundle}
use jaeger_operator.Inject.{
  Deployment, ConfigMap, label, is_jaeger, needed, select, has_jaeger_agent,
}
use jaeger_operator.Inject.{matched_config_maps}
use jaeger_operator.Inject.Tags.{split_comma}
use jaeger_operator.Inject.Agent.{Surroundings}
use jaeger_operator.Inject.Sidecar.{sidecar, clean_sidecar}

pub data Creation : Type 0 where
  created already_exists refused : Creation

-- A request and all that is answered while it is handled. The lists are those for the options that the
-- handler passes; the list of config maps is empty after an error.
pub record Request (K : Kube) : Type 0 where
  pub namespace : String
  pub watch_namespace : String
  pub decoded : Option (Deployment K)
  pub namespace_annotations : Option (GoMap String)
  pub jaegers : Option (List (Jaeger K))
  pub config_maps : List ConfigMap
  pub creation : Bundle → Creation
  pub encodes : Deployment K → Bool

-- A patch is the deployment that the patch leads to.
pub data Response (K : Kube) : Type 0 where
  allowed : String → Response K
  errored : ℕ → Response K
  patched : Deployment K → Response K

-- The loop of shouldHandleDeployment
unfoldable pub watches : List String → String → Bool
watches [] namespace = false
watches (ns ∷ namespaces) namespace =
    if equal_fold ns namespace then true else watches namespaces namespace

abbrev is_refused : Creation → Bool
is_refused refused = true
is_refused _ = false

-- The loop of reconcileConfigMaps: what it asks to be created, up to the first refusal
unfoldable pub reconcile_config_maps_of : (Bundle → Creation) → List Bundle → List Bundle
reconcile_config_maps_of creation [] = []
reconcile_config_maps_of creation (cm ∷ cms) =
    let rest = reconcile_config_maps_of creation cms in
    if is_refused (creation cm) then cm ∷ [] else cm ∷ rest

abbrev bundles : Option Bundle → List Bundle
bundles none = []
bundles (some cm) = cm ∷ []

-- reconcileConfigMap: the bundle goes to the namespace of the deployment
abbrev moved_to : String → Bundle → Bundle
moved_to namespace cm = record cm { meta = record (cm.meta) { namespace = namespace } }

abbrev all_moved : String → List Bundle → List Bundle
all_moved namespace [] = []
all_moved namespace (cm ∷ cms) = moved_to namespace cm ∷ all_moved namespace cms

abbrev pub annotations_of : Option (GoMap String) → GoMap String
annotations_of none = none
annotations_of (some annotations) = annotations

module _ {K : Kube} where
  -- shouldHandleDeployment
  unfoldable pub should_handle_deployment : Request K → Bool
  unfolding watches split_comma
  should_handle_deployment req =
      if req.watch_namespace == ""
      then true
      else watches (split_comma req.watch_namespace) req.namespace

  -- reconcileConfigMaps
  unfoldable pub reconcile_config_maps :
      Bool → Request K → Jaeger K → Deployment K → Run (List Bundle)
  unfolding reconcile_config_maps_of
  reconcile_config_maps openshift req jaeger dep =
      get_trusted_ca_bundle openshift jaeger >>= λ trusted.
      get_service_ca_bundle openshift jaeger >>= λ service. done (
        reconcile_config_maps_of req.creation
          (all_moved dep.meta.namespace (bundles trusted ++ bundles service)))

  abbrev pub respond : Request K → Deployment K → Response K
  respond req dep = if req.encodes dep then patched dep else errored 500

  -- What is done with the instance that was selected.
  unfoldable pub handle_selected :
      Surroundings K → Request K → Jaeger K → Deployment K → Run (Response K × List Bundle)
  unfolding reconcile_config_maps
  handle_selected s req jaeger dep =
      (if jaeger.namespace == dep.meta.namespace
        then done []
        else reconcile_config_maps s.openshift req jaeger dep)
      >>= λ asked. sidecar s (matched_config_maps dep req.config_maps) jaeger dep >>= λ dep'.
          done (respond req dep', asked)

  -- The end of Handle, for a deployment that needs no agent
  unfoldable pub handle_unneeded : Surroundings K → Request K → Deployment K → Response K
  handle_unneeded s req dep =
      if is_some (has_jaeger_agent dep)
      then (elim (get label dep.meta.labels) [
        | some instance_name ↦ respond req (clean_sidecar s.openshift instance_name dep)
        | none ↦ allowed "no action needed"
      ])
      else allowed "no action needed"

  abbrev pub live : Option (Jaeger K) → Option (Jaeger K)
  live none = none
  live (some jaeger) = if is_some jaeger.deletion_timestamp then none else some jaeger

  -- The end of Handle, for a deployment that needs an agent
  unfoldable pub handle_needed :
      Surroundings K → Request K → Option (Jaeger K) → Deployment K → Run (Response K × List Bundle)
  unfolding handle_selected
  handle_needed s req none dep =
      done (allowed "no suitable Jaeger instances found to inject a sidecar", [])
  handle_needed s req (some jaeger) dep = handle_selected s req jaeger dep

  -- Handle, from the list of instances on
  unfoldable pub handle_listed :
      Surroundings K → Request K → List (Jaeger K) → Deployment K → Run (Response K × List Bundle)
  unfolding handle_unneeded handle_needed
  handle_listed s req jaegers dep =
      let ns = annotations_of req.namespace_annotations in
      if needed dep ns
      then handle_needed s req (live (select dep ns jaegers)) dep
      else done (handle_unneeded s req dep, [])

  -- Handle, for a deployment that was decoded
  unfoldable pub handle_decoded :
      Surroundings K → Request K → Deployment K → Run (Response K × List Bundle)
  unfolding handle_listed
  handle_decoded s req dep =
      if is_jaeger dep
      then done (allowed "is jaeger deployment, we do not touch it", [])
      else elim req.jaegers [
        | none ↦ done (errored 500, [])
        | some jaegers ↦ handle_listed s req jaegers dep
      ]

  -- Handle
  unfoldable pub handle : Surroundings K → Request K → Run (Response K × List Bundle)
  unfolding should_handle_deployment handle_decoded
  handle s req =
      if not (should_handle_deployment req)
      then done (allowed "not watching in namespace, we do not touch the deployment", [])
      else elim req.decoded [ none ↦ done (errored 400, []) | some dep ↦ handle_decoded s req dep ]
