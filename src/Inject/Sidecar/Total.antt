-- ===== src/Inject/Sidecar/Total.antt =====
-- When an injection goes through, and when it panics (pkg/inject/sidecar.go).
use jaeger_operator.Base.{String, ◌≡◌, refl, ◌∙◌, ap, false, Bool-cases, inl, inr}
use jaeger_operator.Base.{some, none, List, [], ◌∷◌, ◌++◌, length, nat_eq, if◌then◌else◌, ◌==◌}
use jaeger_operator.Base.{Run, done, panic, ◌>>=◌, arith, is_some, ◌<>◌}
use jaeger_operator.Base.Dict.{Dict, GoMap, get, insert, lookup}
use jaeger_operator.Kube.{Kube}
use jaeger_operator.Jaeger.{Jaeger}
use jaeger_operator.Names.{label_value, headless_collector_service}
use jaeger_operator.Names.Bounds.{suffixed-IsLabel}
use jaeger_operator.Util.Args.{find_item}
use jaeger_operator.Util.Text.{literal}
use jaeger_operator.Util.Text.Bounds.{truncate_bounded}
use jaeger_operator.Inject.{Container, Deployment, ConfigMap, agent_index, has_jaeger_agent}
use jaeger_operator.Inject.Tags.{join_tags}
use jaeger_operator.Inject.Agent.{Surroundings, container, with_tags, agent_tags, reporter_args}
use jaeger_operator.Inject.Agent.{get_container_name, name_at, default_agent_tags}
use jaeger_operator.Inject.Sidecar.{add_annotations, prometheus_annotations, decorate}
use jaeger_operator.Inject.Sidecar.{decorated_containers, assigned_elsewhere, inject, sidecar}
use jaeger_operator.Inject.Sidecar.Runs.{
  decorate_done, built_of, placed, agent_index-decorated_containers,
}

-- A run that goes through.
abbrev pub Done {ℓ} : {A : Type ℓ} → Run A → Type ℓ
Done {A = A} m = (a : A) × (m ≡ done a)

Done->>= {ℓ κ} :
    {A : Type ℓ} {B : Type κ} (m : Run A) (f : A → Run B)
    → Done m
    → ((a : A) → m ≡ done a → Done (f a))
    → Done (m >>= f)
Done->>= m f (a, e) h = let (b, eb) = h a e in (b, rw e eb)

add_annotations_done :
    (defaults : Dict String) (annotations : Dict String)
    → (a : Dict String) × (add_annotations defaults (some annotations) ≡ done (some a))
unfolding add_annotations
add_annotations_done [] annotations = (annotations, refl)
add_annotations_done ((key, value) ∷ defaults) annotations =
    elim (Bool-cases (is_some (get key (some annotations)))) [
      | inl there ↦ let (a, e) = add_annotations_done defaults annotations in (a, rw there e)
      | inr missing ↦
          let (a, e) = add_annotations_done defaults (insert key value annotations) in
          (a, rw missing e)
    ]

module _ {K : Kube} where
  name_at-Done :
      (containers : List (Container K)) → length containers ≡ 1 → Done (name_at 0 containers)
  unfolding name_at
  name_at-Done [] e = ground arith
  name_at-Done (c ∷ containers) e = (c.name, refl)

  get_container_name-Done :
      (containers : List (Container K)) → Done (get_container_name containers none)
  unfolding get_container_name
  get_container_name-Done containers = elim (Bool-cases (nat_eq (length containers) 1)) [
    | inl one ↦
        let (n, e) = name_at-Done containers (ground arith) in
        (n, ap (λ b. if b then name_at 0 containers else done "") one ∙ e)
    | inr more ↦ ("", ap (λ b. if b then name_at 0 containers else done "") more)
  ]

  agent_tags-Done : (dep : Deployment K) → Done (agent_tags dep none)
  unfolding agent_tags
  agent_tags-Done dep =
      Done->>= (get_container_name dep.containers none)
        (λ container_name. done (default_agent_tags dep container_name))
        (get_container_name-Done dep.containers) (λ n _. (default_agent_tags dep n, refl))

  with_tags-Done : (dep : Deployment K) (args : List String) → Done (with_tags dep none args)
  unfolding with_tags
  with_tags-Done dep args = elim (Bool-cases (find_item "--agent.tags=" args == "")) [
    | inl missing ↦
        let (l, e) =
          Done->>= (agent_tags dep none)
            (λ tags. done (args ++ ("--agent.tags=" <> join_tags tags) ∷ [])) (agent_tags-Done dep)
            (λ tags _. (args ++ ("--agent.tags=" <> join_tags tags) ∷ [], refl)) in
        (l, rw missing e)
    | inr there ↦ (args, rw there refl)
  ]

  container_total :
      (s : Surroundings K) (jaeger : Jaeger K) (dep : Deployment K)
      → Done (container s jaeger dep none)
  unfolding container
  container_total s jaeger dep =
      let (collector, e, _, _) = suffixed-IsLabel "-collector-headless" jaeger.name in
      Done->>= (headless_collector_service jaeger.name)
        (λ name. with_tags dep none (reporter_args s.openshift name jaeger) >>= λ all_args.
          done (built_of s jaeger dep (reporter_args s.openshift name jaeger) all_args))
        (collector, e)
        (λ name _.
          Done->>= (with_tags dep none (reporter_args s.openshift name jaeger))
            (λ all_args.
              done (built_of s jaeger dep (reporter_args s.openshift name jaeger) all_args))
            (with_tags-Done dep (reporter_args s.openshift name jaeger))
            (λ all_args _.
              (built_of s jaeger dep (reporter_args s.openshift name jaeger) all_args, refl)))

  decorate_there :
      (config_maps : List ConfigMap) (dep : Deployment K) (a : GoMap String)
      → add_annotations prometheus_annotations dep.meta.annotations ≡ done a
      → decorate config_maps dep
        ≡ done (record dep {
          meta = record (dep.meta) { annotations = a };
          containers = decorated_containers config_maps dep;
        })
  unfolding decorate
  decorate_there config_maps dep a e = rw e refl

  inject_total :
      (s : Surroundings K) (config_maps : List ConfigMap) (jaeger : Jaeger K) (dep : Deployment K)
      (annotations : Dict String)
      → dep.meta.annotations ≡ some annotations
      → agent_index dep.containers ≡ none
      → Done (inject s config_maps jaeger dep)
  unfolding inject decorate has_jaeger_agent
  inject_total s config_maps jaeger dep annotations there no_agent =
      let (a, e) = add_annotations_done prometheus_annotations annotations in
      let (l, el, _) = truncate_bounded (literal jaeger.name ∷ []) 63 [] in
      Done->>= (decorate config_maps dep)
        (λ dep1. container s jaeger dep1 (agent_index dep1.containers) >>= λ built.
          label_value jaeger.name >>= λ jaeger_name. done (placed dep1 built jaeger_name))
        (
          record dep {
            meta = record (dep.meta) { annotations = some a };
            containers = decorated_containers config_maps dep;
          },
          decorate_there config_maps dep (some a)
              (ap (add_annotations prometheus_annotations) there ∙ e),
        )
        (λ dep1 decorated.
          let none_yet : agent_index dep1.containers ≡ none =
            ap agent_index (decorate_done config_maps dep dep1 decorated).0
            ∙ agent_index-decorated_containers config_maps dep
            ∙ no_agent in
          let (built, made) = container_total s jaeger dep1 in
          Done->>= (container s jaeger dep1 (agent_index dep1.containers))
            (λ built.
              label_value jaeger.name >>= λ jaeger_name. done (placed dep1 built jaeger_name))
            (built, ap (container s jaeger dep1) none_yet ∙ made)
            (λ built _.
              Done->>= (label_value jaeger.name)
                (λ jaeger_name. done (placed dep1 built jaeger_name)) (l, el)
                (λ jaeger_name _. (placed dep1 built jaeger_name, refl))))

  -- Sidecar goes through on every deployment without an agent that has a map of annotations, whatever
  -- the instance.
  pub sidecar_total :
      (s : Surroundings K) (config_maps : List ConfigMap) (jaeger : Jaeger K) (dep : Deployment K)
      (annotations : Dict String)
      → dep.meta.annotations ≡ some annotations
      → agent_index dep.containers ≡ none
      → (dep' : Deployment K) × (sidecar s config_maps jaeger dep ≡ done dep')
  unfolding sidecar
  sidecar_total s config_maps jaeger dep annotations there no_agent =
      elim (Bool-cases (assigned_elsewhere jaeger dep)) [
        | inl foreign ↦
            (dep, ap (λ b. if b then done dep else inject s config_maps jaeger dep) foreign)
        | inr own ↦
            let (dep', e) = inject_total s config_maps jaeger dep annotations there no_agent in
            (dep', ap (λ b. if b then done dep else inject s config_maps jaeger dep) own ∙ e)
      ]

  -- Sidecar panics on a deployment without annotations, unless it is another instance's.
  pub sidecar_unannotated :
      (s : Surroundings K) (config_maps : List ConfigMap) (jaeger : Jaeger K) (dep : Deployment K)
      → dep.meta.annotations ≡ none
      → assigned_elsewhere jaeger dep ≡ false
      → sidecar s config_maps jaeger dep ≡ panic
  unfolding sidecar inject decorate add_annotations lookup
  sidecar_unannotated s config_maps jaeger dep missing own = rw own (rw missing refl)
