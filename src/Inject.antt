-- ===== src/Inject.antt =====
-- Which deployments are given an agent, and of which instance (pkg/inject/sidecar.go): desired,
-- Needed, Select, getJaeger, getJaegerFromNamespace, HasJaegerAgent and
-- GetConfigMapsMatchedEnvFromInDeployment. A namespace is its annotations.
pub mod Choice
pub mod Tags
pub mod Agent
pub mod Sidecar
pub mod Sync
use jaeger_operator.Base.{ℕ, ◌+◌, String, Bool, true, false, ◌&&◌, ◌||◌, not, Option, none, some}
use jaeger_operator.Base.{List, [], ◌∷◌, ◌==◌, if◌then◌else◌, is_some, equal_fold}
use jaeger_operator.Base.Dict.{Dict, GoMap, get, insert, lookup}
use jaeger_operator.Kube.{Kube, Volume, VolumeMount, LocalObjectReference}
use jaeger_operator.Meta.{ObjectMeta}
use jaeger_operator.Util.Args.{EnvVar}
use jaeger_operator.Util.Merge.{Resources}
use jaeger_operator.Jaeger.{ℤ, Jaeger}

pub record ContainerPort : Type 0 where
  pub container_port : ℤ
  pub name : String
  pub protocol : String

-- corev1.Container; a source of variables is the name of its config map, or none
pub record Container (K : Kube) : Type 0 where
  pub name : String
  pub image : String
  pub args : List String
  pub env : List (EnvVar K.EnvSource)
  pub env_from : List (Option String)
  pub ports : List ContainerPort
  pub resources : Resources K
  pub security_context : Option K.SecurityContext
  pub volume_mounts : List (VolumeMount K)
  pub liveness_probe : Option K.Probe
  pub readiness_probe : Option K.Probe
  pub rest : K.ContainerRest

-- appsv1.Deployment, as far as the injection reads or writes it
pub record Deployment (K : Kube) : Type 0 where
  pub meta : ObjectMeta
  pub template_labels : GoMap String
  pub containers : List (Container K)
  pub image_pull_secrets : List LocalObjectReference
  pub volumes : List (Volume K)

-- corev1.ConfigMap, as far as it is read
pub record ConfigMap : Type 0 where
  pub name : String
  pub data_text : GoMap String

-- Annotation and Label
abbrev pub annotation : String
annotation = "sidecar.jaegertracing.io/inject"

abbrev pub label : String
label = "sidecar.jaegertracing.io/injected"

abbrev asks : Option String → Bool
asks none = false
asks (some val) = not (equal_fold val "false")

-- m[k], "" if there is none
abbrev pub text_or_empty : Option String → String
text_or_empty none = ""
text_or_empty (some s) = s

abbrev pub index_after : Option ℕ → Option ℕ
index_after none = none
index_after (some i) = some (i + 1)

-- The config maps by their names: a later one replaces an earlier one.
unfoldable pub config_map_search_map : List ConfigMap → Dict ConfigMap → Dict ConfigMap
config_map_search_map [] by_name = by_name
config_map_search_map (cm ∷ config_maps) by_name =
    config_map_search_map config_maps (insert cm.name cm by_name)

abbrev matched : Dict ConfigMap → Option String → List ConfigMap → List ConfigMap
matched by_name none rest = rest
matched by_name (some name) rest = elim (lookup name by_name) [ none ↦ rest | some cm ↦ cm ∷ rest ]

unfoldable pub matched_env_from :
    Dict ConfigMap → List (Option String) → List ConfigMap → List ConfigMap
matched_env_from by_name [] rest = rest
matched_env_from by_name (ref ∷ env_from) rest =
    matched by_name ref (matched_env_from by_name env_from rest)

module _ {K : Kube} where
  -- The loop of HasJaegerAgent: the index of the agent
  unfoldable pub agent_index : List (Container K) → Option ℕ
  agent_index [] = none
  agent_index (c ∷ containers) =
      let rest = agent_index containers in
      if c.name == "jaeger-agent" then some 0 else index_after rest

  -- HasJaegerAgent
  unfoldable pub has_jaeger_agent : Deployment K → Option ℕ
  unfolding agent_index
  has_jaeger_agent dep = agent_index dep.containers

  unfoldable pub desired : Deployment K → GoMap String → Bool
  desired dep ns = asks (get annotation dep.meta.annotations) || asks (get annotation ns)

  -- A component of Jaeger, other than the query
  abbrev pub is_jaeger : Deployment K → Bool
  is_jaeger dep =
      text_or_empty (get "app" dep.meta.labels) == "jaeger"
      && not (text_or_empty (get "app.kubernetes.io/component" dep.meta.labels) == "query")

  -- Needed
  unfoldable pub needed : Deployment K → GoMap String → Bool
  unfolding desired has_jaeger_agent
  needed dep ns =
      if not (desired dep ns)
      then false
      else if is_jaeger dep
      then false
      else if is_some (has_jaeger_agent dep)
      then is_some (get label dep.meta.labels)
      else true

  -- The loop of getJaeger, with the best candidate so far
  unfoldable pub best_candidate :
      String → String → Option (Jaeger K) → List (Jaeger K) → Option (Jaeger K)
  best_candidate namespace name candidate [] = candidate
  best_candidate namespace name candidate (j ∷ jaegers) =
      let candidate' =
        if j.name == name
        then elim candidate [ none ↦ some j | some best ↦ some best ]
        else candidate in
      let rest = best_candidate namespace name candidate' jaegers in
      if j.name == name && namespace == j.namespace then some j else rest

  -- getJaeger
  unfoldable pub get_jaeger : String → String → List (Jaeger K) → Option (Jaeger K)
  unfolding best_candidate
  get_jaeger namespace name jaegers = best_candidate namespace name none jaegers

  -- getJaegerFromNamespace
  unfoldable pub get_jaeger_from_namespace : String → List (Jaeger K) → List (Jaeger K)
  get_jaeger_from_namespace namespace [] = []
  get_jaeger_from_namespace namespace (p ∷ jaegers) =
      let instances = get_jaeger_from_namespace namespace jaegers in
      if p.namespace == namespace then p ∷ instances else instances

  -- The one element of a list
  abbrev pub only : List (Jaeger K) → Option (Jaeger K)
  only [] = none
  only (j ∷ []) = some j
  only (_ ∷ _ ∷ _) = none

  abbrev pub or_instance : Option (Jaeger K) → Option (Jaeger K) → Option (Jaeger K)
  or_instance none b = b
  or_instance (some a) b = some a

  -- Select
  unfoldable pub select : Deployment K → GoMap String → List (Jaeger K) → Option (Jaeger K)
  unfolding get_jaeger get_jaeger_from_namespace
  select target ns jaegers =
      let name_dep = text_or_empty (get annotation target.meta.annotations) in
      let name_ns = text_or_empty (get annotation ns) in
      if not (name_dep == "") && not (equal_fold name_dep "true")
      then get_jaeger target.meta.namespace name_dep jaegers
      else or_instance (get_jaeger target.meta.namespace name_ns jaegers) (
          if equal_fold name_dep "true" || equal_fold name_ns "true"
          then or_instance (only jaegers)
              (only (get_jaeger_from_namespace target.meta.namespace jaegers))
          else none)

  unfoldable pub matched_containers : Dict ConfigMap → List (Container K) → List ConfigMap
  unfolding matched_env_from
  matched_containers by_name [] = []
  matched_containers by_name (c ∷ containers) =
      matched_env_from by_name c.env_from (matched_containers by_name containers)

  -- GetConfigMapsMatchedEnvFromInDeployment
  unfoldable pub matched_config_maps : Deployment K → List ConfigMap → List ConfigMap
  unfolding config_map_search_map matched_containers
  matched_config_maps dep config_maps =
      matched_containers (config_map_search_map config_maps []) dep.containers
