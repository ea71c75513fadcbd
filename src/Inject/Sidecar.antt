-- ===== src/Inject/Sidecar.antt =====
-- Adding an agent to a deployment and removing it (pkg/inject/sidecar.go: Sidecar, decorate,
-- CleanSidecar, EqualSidecar). Sidecar is given an instance: its test for nil comes after uses of the
-- instance.
pub mod Laws
pub mod Runs
pub mod Assigned
pub mod Total
use Prim.Native.String.{len}
use jaeger_operator.Base.{
  ℕ, ◌-◌, String, ◌<>◌, Bool, true, false, ◌&&◌, ◌||◌, not, Option, none, some,
}
use jaeger_operator.Base.{List, [], ◌∷◌, ◌++◌, map, ◌==◌, if◌then◌else◌, nat_eq, is_some}
use jaeger_operator.Base.{Run, done, panic, ◌>>=◌}
use jaeger_operator.Base.Dict.{Dict, GoMap, get, insert, lookup, erase, assign, entries}
use jaeger_operator.Kube.{Kube, Volume}
use jaeger_operator.Util.Args.{EnvVar}
use jaeger_operator.Jaeger.{Jaeger}
use jaeger_operator.Names.{label_value, trusted_ca_name, service_ca_name}
use jaeger_operator.Inject.{Container, Deployment, ConfigMap, label, text_or_empty, agent_index}
use jaeger_operator.Inject.{has_jaeger_agent}
use jaeger_operator.Inject.Agent.{Surroundings, container}

-- haskeyInEnvFromConfigMaps
unfoldable pub has_key : String → List ConfigMap → Bool
has_key key [] = false
has_key key (cm ∷ config_maps) = is_some (get key cm.data_text) || has_key key config_maps

-- PrometheusDefaultAnnotations
abbrev pub prometheus_annotations : Dict String
prometheus_annotations = ("prometheus.io/scrape", "true") ∷ ("prometheus.io/port", "14271") ∷ []

-- The loop over the default annotations, in any order
unfoldable pub add_annotations : Dict String → GoMap String → Run (GoMap String)
add_annotations [] annotations = done annotations
add_annotations ((key, value) ∷ defaults) annotations =
    (if is_some (get key annotations) then done annotations else assign annotations key value)
    >>= λ annotations'. add_annotations defaults annotations'

-- The application that a pod belongs to, by its labels
abbrev pub app_of : GoMap String → Option String
app_of labels = elim (get "app.kubernetes.io/instance" labels) [
  | some app ↦ some app
  | none ↦ elim (get "app.kubernetes.io/name" labels) [
    | some app ↦ some app
    | none ↦ get "app" labels
  ]
]

abbrev pub without_label : GoMap String → GoMap String
without_label none = none
without_label (some labels) = some (erase label labels)

abbrev pub names_other : String → Option String → Bool
names_other name none = false
names_other name (some val) = not (val == name)

module _ {Source : Type 0} where
  unfoldable pub has_env : String → List (EnvVar Source) → Bool
  has_env name [] = false
  has_env name (v ∷ vars) = if v.name == name then true else has_env name vars

  -- A variable that is added unless the container or a config map has it.
  unfoldable pub add_env :
      List ConfigMap → String → String → List (EnvVar Source) → List (EnvVar Source)
  unfolding has_env has_key
  add_env config_maps name value env =
      if not (has_env name env) && not (has_key name config_maps)
      then env ++ record { name = name; value = value; value_from = none } ∷ []
      else env

module _ {K : Kube} where
  unfoldable pub decorate_containers :
      List ConfigMap → String → List (Container K) → List (Container K)
  unfolding add_env
  decorate_containers config_maps app [] = []
  decorate_containers config_maps app (c ∷ containers) =
      record c {
        env =
            add_env config_maps "JAEGER_PROPAGATION" "jaeger,b3,w3c"
              (add_env config_maps "JAEGER_SERVICE_NAME" app c.env);
      }
      ∷ decorate_containers config_maps app containers

  -- The containers of a pod whose application is known, or not
  abbrev pub decorated_for : List ConfigMap → Deployment K → Option String → List (Container K)
  decorated_for config_maps dep none = dep.containers
  decorated_for config_maps dep (some app) =
      decorate_containers config_maps
        (app <> (if dep.meta.namespace == "" then ".default" else "." <> dep.meta.namespace))
        dep.containers

  abbrev pub decorated_containers : List ConfigMap → Deployment K → List (Container K)
  decorated_containers config_maps dep = decorated_for config_maps dep (app_of dep.template_labels)

  unfoldable pub decorate : List ConfigMap → Deployment K → Run (Deployment K)
  unfolding decorate_containers add_annotations
  decorate config_maps dep =
      add_annotations prometheus_annotations dep.meta.annotations >>= λ annotations.
      done (record dep {
        meta = record (dep.meta) { annotations = annotations };
        containers = decorated_containers config_maps dep;
      })

  -- containers[i] = c
  unfoldable pub set_container : ℕ → Container K → List (Container K) → List (Container K)
  set_container i c [] = []
  set_container i c (d ∷ containers) =
      let rest = set_container (i - 1) c containers in
      if nat_eq i 0 then c ∷ containers else d ∷ rest

  abbrev pub place : Option ℕ → Container K → List (Container K) → List (Container K)
  place none c containers = containers ++ c ∷ []
  place (some i) c containers = set_container i c containers

  -- dep.Labels[Label] = name, in a map that is made if there is none
  abbrev pub with_label : String → Deployment K → Deployment K
  with_label name dep = record dep {
    meta = record (dep.meta) { labels = some (insert label name (entries dep.meta.labels)) };
  }

  -- What Sidecar does with a deployment that is not another instance's.
  unfoldable pub inject :
      Surroundings K → List ConfigMap → Jaeger K → Deployment K → Run (Deployment K)
  unfolding decorate container set_container has_jaeger_agent
  inject s config_maps jaeger dep = decorate config_maps dep >>= λ dep1.
      container s jaeger dep1 (has_jaeger_agent dep1) >>= λ built.
      label_value jaeger.name >>= λ jaeger_name. done (
        with_label jaeger_name (record (built.1) {
          containers = place (has_jaeger_agent dep1) built.0 built.1.containers;
        }))

  -- The deployment carries the label of another instance.
  abbrev pub assigned_elsewhere : Jaeger K → Deployment K → Bool
  assigned_elsewhere jaeger dep = names_other jaeger.name (get label dep.meta.labels)

  -- Sidecar
  unfoldable pub sidecar :
      Surroundings K → List ConfigMap → Jaeger K → Deployment K → Run (Deployment K)
  unfolding inject
  sidecar s config_maps jaeger dep =
      if assigned_elsewhere jaeger dep then done dep else inject s config_maps jaeger dep

  -- The first loop of CleanSidecar: it removes the first agent
  unfoldable pub remove_agent : List (Container K) → List (Container K)
  remove_agent [] = []
  remove_agent (c ∷ containers) =
      let rest = remove_agent containers in
      if c.name == "jaeger-agent" then containers else c ∷ rest

  -- Its second loop: it removes every volume of the instance's bundles
  unfoldable pub remove_volumes : String → List (Volume K) → List (Volume K)
  remove_volumes instance_name [] = []
  remove_volumes instance_name (v ∷ volumes) =
      let rest = remove_volumes instance_name volumes in
      if v.name == trusted_ca_name instance_name || v.name == service_ca_name instance_name
      then rest
      else v ∷ rest

  -- CleanSidecar
  unfoldable pub clean_sidecar : Bool → String → Deployment K → Deployment K
  unfolding remove_agent remove_volumes
  clean_sidecar openshift instance_name deployment = record deployment {
    meta = record (deployment.meta) { labels = without_label deployment.meta.labels };
    containers = remove_agent deployment.containers;
    volumes =
        if openshift then remove_volumes instance_name deployment.volumes else deployment.volumes;
  }

  unfoldable pub container_at : Option ℕ → List (Container K) → Run (Container K)
  container_at none containers = panic
  container_at (some i) [] = panic
  container_at (some i) (c ∷ containers) =
      let rest = container_at (some (i - 1)) containers in if nat_eq i 0 then done c else rest

  -- EqualSidecar, with reflect.DeepEqual of two containers
  unfoldable pub equal_sidecar :
      (Container K → Container K → Bool) → Deployment K → Deployment K → Run Bool
  unfolding has_jaeger_agent container_at
  equal_sidecar deep_equal dep old_dep =
      let dep_agent = has_jaeger_agent dep in
      let old_dep_agent = has_jaeger_agent old_dep in
      if is_some dep_agent && not (is_some old_dep_agent)
        || not (is_some dep_agent) && is_some old_dep_agent
      then done false
      else container_at dep_agent dep.containers >>= λ c.
          container_at old_dep_agent old_dep.containers >>= λ old_c. done (deep_equal c old_c)
