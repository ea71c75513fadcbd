-- ===== src/Inject/Sidecar/Runs.antt =====
-- What a call of Sidecar that goes through has made of a deployment (pkg/inject/sidecar.go).
use jaeger_operator.Base.{
  ℕ, String, ◌≡◌, refl, ◌∙◌, sym, ap, Option, none, some, List, [], ◌∷◌, ◌++◌, ◌<>◌, ◌==◌,
  if◌then◌else◌,
}
use jaeger_operator.Base.{done, ◌>>=◌, >>=-eq-done, done_inj}
use jaeger_operator.Base.Dict.{insert, entries}
use jaeger_operator.Kube.{Kube}
use jaeger_operator.Util.Dedup.{remove_duplicated_volumes, remove_duplicated_image_pull_secrets}
use jaeger_operator.Jaeger.{Jaeger}
use jaeger_operator.Names.{label_value, headless_collector_service}
use jaeger_operator.Inject.{Container, Deployment, ConfigMap, label, agent_index, has_jaeger_agent}
use jaeger_operator.Inject.Agent.{
  volumes_and_mounts, Surroundings, container, with_tags, agent_container, reporter_args,
}
use jaeger_operator.Inject.Sidecar.{add_annotations, prometheus_annotations, decorate}
use jaeger_operator.Inject.Sidecar.{
  decorated_containers, decorated_for, app_of, decorate_containers, place, with_label, inject,
}

module _ {K : Kube} where
  -- The deployment with an agent in the place of the old one, or else at the end.
  pub record Injected (s : Surroundings K) (config_maps : List ConfigMap) (jaeger : Jaeger K)
      (dep dep' : Deployment K) : Type 0 where
    pub agent : Container K
    pub agent_name : agent.name ≡ "jaeger-agent"
    pub containers :
        dep'.containers
        ≡ place (agent_index dep.containers) agent (decorated_containers config_maps dep)
    pub jaeger_name : String
    pub is_label : label_value jaeger.name ≡ done jaeger_name
    pub labels : dep'.meta.labels ≡ some (insert label jaeger_name (entries dep.meta.labels))

  agent_index-decorate_containers :
      (config_maps : List ConfigMap) (app : String) (containers : List (Container K))
      → agent_index (decorate_containers config_maps app containers) ≡ agent_index containers
  unfolding agent_index decorate_containers
  agent_index-decorate_containers config_maps app [] = refl
  agent_index-decorate_containers config_maps app (c ∷ containers) =
      rw (agent_index-decorate_containers config_maps app containers) refl

  agent_index-decorated_for :
      (config_maps : List ConfigMap) (dep : Deployment K) (app : Option String)
      → agent_index (decorated_for config_maps dep app) ≡ agent_index dep.containers
  agent_index-decorated_for config_maps dep none = refl
  agent_index-decorated_for config_maps dep (some app) =
      agent_index-decorate_containers config_maps
        (app <> (if dep.meta.namespace == "" then ".default" else "." <> dep.meta.namespace))
        dep.containers

  pub agent_index-decorated_containers :
      (config_maps : List ConfigMap) (dep : Deployment K)
      → agent_index (decorated_containers config_maps dep) ≡ agent_index dep.containers
  agent_index-decorated_containers config_maps dep =
      agent_index-decorated_for config_maps dep (app_of dep.template_labels)

  -- The results of container and of the injection, once their parts are there
  abbrev pub built_of :
      Surroundings K
      → Jaeger K
      → Deployment K
      → List String
      → List String
      → Container K × Deployment K
  built_of s jaeger dep args all_args = (
    agent_container s jaeger dep args all_args,
    record dep {
      image_pull_secrets =
          remove_duplicated_image_pull_secrets
            (dep.image_pull_secrets ++ jaeger.spec.agent.common.image_pull_secrets);
      volumes = remove_duplicated_volumes (dep.volumes ++ (volumes_and_mounts s jaeger).volumes);
    },
  )

  abbrev pub placed : Deployment K → Container K × Deployment K → String → Deployment K
  placed dep1 built jaeger_name = with_label jaeger_name (record (built.1) {
    containers = place (agent_index dep1.containers) built.0 built.1.containers;
  })

  container_done :
      (s : Surroundings K) (jaeger : Jaeger K) (dep : Deployment K) (i : Option ℕ)
      (built : Container K × Deployment K)
      → container s jaeger dep i ≡ done built
      → (built.0.name ≡ "jaeger-agent")
        × (built.1.containers ≡ dep.containers)
        × (built.1.meta ≡ dep.meta)
  unfolding container agent_container
  container_done s jaeger dep i built e =
      let (collector, _, e1) =
        >>=-eq-done (headless_collector_service jaeger.name)
          (λ collector.
            let args = reporter_args s.openshift collector jaeger in
            with_tags dep i args >>= λ all_args. done (built_of s jaeger dep args all_args))
          e in
      let args = reporter_args s.openshift collector jaeger in
      let (all_args, _, e2) =
        >>=-eq-done (with_tags dep i args) (λ all_args. done (built_of s jaeger dep args all_args))
          e1 in
      let same : built_of s jaeger dep args all_args ≡ built = done_inj e2 in
      (
        ap (λ b. b.0.name) (sym same),
        ap (λ b. b.1.containers) (sym same),
        ap (λ b. b.1.meta) (sym same),
      )

  pub decorate_done :
      (config_maps : List ConfigMap) (dep dep1 : Deployment K)
      → decorate config_maps dep ≡ done dep1
      → (dep1.containers ≡ decorated_containers config_maps dep)
        × (dep1.meta.labels ≡ dep.meta.labels)
  unfolding decorate
  decorate_done config_maps dep dep1 e =
      let (a, _, e1) =
        >>=-eq-done (add_annotations prometheus_annotations dep.meta.annotations)
          (λ annotations. done (record dep {
            meta = record (dep.meta) { annotations = annotations };
            containers = decorated_containers config_maps dep;
          }))
          e in
      let same = done_inj e1 in
      (ap (λ d. d.containers) (sym same), ap (λ d. d.meta.labels) (sym same))

  -- What an injection that goes through has made.
  pub inject-Injected :
      (s : Surroundings K) (config_maps : List ConfigMap) (jaeger : Jaeger K)
      (dep dep' : Deployment K)
      → inject s config_maps jaeger dep ≡ done dep'
      → Injected s config_maps jaeger dep dep'
  unfolding inject has_jaeger_agent
  inject-Injected s config_maps jaeger dep dep' e =
      let (dep1, decorated, e1) =
        >>=-eq-done (decorate config_maps dep)
          (λ dep1. container s jaeger dep1 (agent_index dep1.containers) >>= λ built.
            label_value jaeger.name >>= λ jaeger_name. done (placed dep1 built jaeger_name))
          e in
      let (built, made, e2) =
        >>=-eq-done (container s jaeger dep1 (agent_index dep1.containers))
          (λ built. label_value jaeger.name >>= λ jaeger_name. done (placed dep1 built jaeger_name))
          e1 in
      let (jaeger_name, labelled, e3) =
        >>=-eq-done (label_value jaeger.name) (λ jaeger_name. done (placed dep1 built jaeger_name))
          e2 in
      let same = done_inj e3 in
      let (containers1, labels1) = decorate_done config_maps dep dep1 decorated in
      let (agent_name, containers2, meta2) =
        container_done s jaeger dep1 (agent_index dep1.containers) built made in
      record {
        agent = built.0;
        agent_name = agent_name;
        containers =
            ap (λ d. d.containers) (sym same)
            ∙ ap (λ cs. place (agent_index dep1.containers) built.0 cs) (containers2 ∙ containers1)
            ∙ ap (λ i. place i built.0 (decorated_containers config_maps dep))
                (ap agent_index containers1 ∙ agent_index-decorated_containers config_maps dep);
        jaeger_name = jaeger_name;
        is_label = labelled;
        labels =
            ap (λ d. d.meta.labels) (sym same)
            ∙ ap (λ m. some (insert label jaeger_name (entries m.labels))) meta2
            ∙ ap (λ l. some (insert label jaeger_name (entries l))) labels1;
      }
