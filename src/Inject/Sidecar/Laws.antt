-- ===== src/Inject/Sidecar/Laws.antt =====
-- What becomes of the agents of a deployment (pkg/inject/sidecar.go: Sidecar, CleanSidecar).
use jaeger_operator.Base.{
  ℕ, suc, ◌+◌, ◌-◌, String, ◌≡◌, refl, ◌∙◌, sym, ap, subst, true, false, not,
}
use jaeger_operator.Base.{
  Option, none, some, is_some, List, [], ◌∷◌, ◌++◌, ◌<>◌, Bool, ◌==◌, if◌then◌else◌, arith, nat_eq,
}
use jaeger_operator.Base.{Run, done, length}
use jaeger_operator.Base.Dict.{get, entries, insert, lookup-erase}
use jaeger_operator.Kube.{Kube}
use jaeger_operator.Jaeger.{Jaeger}
use jaeger_operator.Inject.{Container, Deployment, ConfigMap, label, agent_index}
use jaeger_operator.Inject.Agent.{Surroundings}
use jaeger_operator.Inject.Sidecar.{
  decorated_for, decorate_containers, app_of, set_container, place, remove_agent,
  decorated_containers, inject,
}
use jaeger_operator.Inject.Sidecar.{clean_sidecar, without_label, sidecar, assigned_elsewhere}
use jaeger_operator.Inject.Sidecar.Runs.{
  Injected, inject-Injected, agent_index-decorated_containers,
}

module _ {K : Kube} where
  -- How many containers have the name of an agent
  unfoldable pub agents : List (Container K) → ℕ
  agents [] = 0
  agents (c ∷ containers) =
      let rest = agents containers in if c.name == "jaeger-agent" then suc rest else rest

  agents-append_agent :
      (containers : List (Container K)) (c : Container K)
      → c.name ≡ "jaeger-agent"
      → agents (containers ++ c ∷ []) ≡ suc (agents containers)
  unfolding agents
  agents-append_agent [] c e = ground arith
  agents-append_agent (d ∷ containers) c e = ground (arith, agents-append_agent containers c e)

  agents-none :
      (containers : List (Container K)) → agent_index containers ≡ none → agents containers ≡ 0
  unfolding agents agent_index
  agents-none [] e = refl
  agents-none (d ∷ containers) e = ground (arith, agents-none containers)

  agents-set_container :
      (containers : List (Container K)) (c : Container K) (i : ℕ)
      → c.name ≡ "jaeger-agent"
      → agent_index containers ≡ some i
      → agents (set_container i c containers) ≡ agents containers
  unfolding agents agent_index set_container
  agents-set_container [] c i named e = cc
  agents-set_container (d ∷ containers) c i named e =
      ground (arith, agents-set_container containers c (i - 1) named)

  remove_agent-append_agent :
      (containers : List (Container K)) (c : Container K)
      → c.name ≡ "jaeger-agent"
      → agent_index containers ≡ none
      → remove_agent (containers ++ c ∷ []) ≡ containers
  unfolding remove_agent agent_index
  remove_agent-append_agent [] c named e = ground arith
  remove_agent-append_agent (d ∷ containers) c named e =
      ground (arith, remove_agent-append_agent containers c named)

  agents-decorate_containers :
      (config_maps : List ConfigMap) (app : String) (containers : List (Container K))
      → agents (decorate_containers config_maps app containers) ≡ agents containers
  unfolding agents decorate_containers
  agents-decorate_containers config_maps app [] = refl
  agents-decorate_containers config_maps app (c ∷ containers) =
      rw (agents-decorate_containers config_maps app containers) refl

  agents-decorated_for :
      (config_maps : List ConfigMap) (dep : Deployment K) (app : Option String)
      → agents (decorated_for config_maps dep app) ≡ agents dep.containers
  agents-decorated_for config_maps dep none = refl
  agents-decorated_for config_maps dep (some app) =
      agents-decorate_containers config_maps
        (app <> (if dep.meta.namespace == "" then ".default" else "." <> dep.meta.namespace))
        dep.containers

  agents-place :
      (i : Option ℕ) (containers : List (Container K)) (c : Container K)
      → c.name ≡ "jaeger-agent"
      → agent_index containers ≡ i
      → agents (place i c containers) ≡ (if is_some i then agents containers else 1)
  agents-place none containers c named e =
      agents-append_agent containers c named ∙ ap (λ n. suc n) (agents-none containers e)
  agents-place (some i) containers c named e = agents-set_container containers c i named e

  pub sidecar-Injected :
      (s : Surroundings K) (config_maps : List ConfigMap) (jaeger : Jaeger K)
      (dep dep' : Deployment K)
      → assigned_elsewhere jaeger dep ≡ false
      → sidecar s config_maps jaeger dep ≡ done dep'
      → Injected s config_maps jaeger dep dep'
  unfolding sidecar
  sidecar-Injected s config_maps jaeger dep dep' free e =
      inject-Injected s config_maps jaeger dep dep'
        (ap (λ b. if b then done dep else inject s config_maps jaeger dep) (sym free) ∙ e)

  -- After Sidecar on a deployment that is not another instance's, there is one agent if there was
  -- none, and otherwise as many as there were.
  pub agents-sidecar :
      (s : Surroundings K) (config_maps : List ConfigMap) (jaeger : Jaeger K)
      (dep dep' : Deployment K)
      → assigned_elsewhere jaeger dep ≡ false
      → sidecar s config_maps jaeger dep ≡ done dep'
      → agents dep'.containers
        ≡ (if is_some (agent_index dep.containers) then agents dep.containers else 1)
  agents-sidecar s config_maps jaeger dep dep' free e =
      let made = sidecar-Injected s config_maps jaeger dep dep' free e in
      let decorated = decorated_containers config_maps dep in
      ap agents made.containers
      ∙ agents-place (agent_index dep.containers) decorated made.agent made.agent_name
          (agent_index-decorated_containers config_maps dep)
      ∙ ap (λ n. if is_some (agent_index dep.containers) then n else 1)
          (agents-decorated_for config_maps dep (app_of dep.template_labels))

  -- CleanSidecar takes away what Sidecar gave to a deployment that had no agent: its containers are
  -- then those that it had, with the variables that were added to them, and the label is gone.
  pub clean_sidecar-sidecar :
      (s : Surroundings K) (config_maps : List ConfigMap) (jaeger : Jaeger K)
      (dep dep' : Deployment K) (openshift : Bool) (instance_name : String)
      → assigned_elsewhere jaeger dep ≡ false
      → agent_index dep.containers ≡ none
      → sidecar s config_maps jaeger dep ≡ done dep'
      → ((clean_sidecar openshift instance_name dep').containers
          ≡ decorated_containers config_maps dep)
        × (get label (clean_sidecar openshift instance_name dep').meta.labels ≡ none)
  unfolding clean_sidecar jaeger_operator.Base.string_dec
  clean_sidecar-sidecar s config_maps jaeger dep dep' openshift instance_name free no_agent e =
      let made = sidecar-Injected s config_maps jaeger dep dep' free e in
      let decorated = decorated_containers config_maps dep in
      (
        ap remove_agent (made.containers ∙ ap (λ i. place i made.agent decorated) no_agent)
            ∙ remove_agent-append_agent decorated made.agent made.agent_name
                (agent_index-decorated_containers config_maps dep ∙ no_agent),
        ap (λ l. get label (without_label l)) made.labels
            ∙ lookup-erase label label (insert label made.jaeger_name (entries dep.meta.labels)),
      )
