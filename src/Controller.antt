-- ===== src/Controller.antt =====
-- The reconciliation of an instance (pkg/controller/jaeger/jaeger_controller.go: Reconcile, validate,
-- apply). The functions that it calls are a record of operations on a state: the cluster's API, and the
-- apply functions, which Apply and Upgrade are about.
pub mod Steps
pub mod Outcomes
pub mod Running
use jaeger_operator.Base.{
  String, Bool, true, false, ◌&&◌, ◌||◌, not, Option, none, some, List, [], ◌∷◌,
}
use jaeger_operator.Base.{◌==◌, if◌then◌else◌}
use jaeger_operator.Base.Dict.{GoMap, get, insert, entries}
use jaeger_operator.Kube.{Kube}
use jaeger_operator.Apply.{Reply, ok, err}
use jaeger_operator.Jaeger.{Jaeger, JaegerStatus, should_inject_openshift_elasticsearch}

-- The parts of a plan, each of which one function applies
pub data Stage : Type 0 where
  secrets elasticsearches kafkas kafka_users accounts dependencies cluster_role_bindings : Stage
  config_maps cron_jobs services deployments routes console_links ingresses : Stage
  horizontal_pod_autoscalers daemon_sets : Stage

-- The flags of the operator that a reconciliation reads
pub record Flags : Type 0 where
  pub identity : String
  pub openshift : Bool
  pub es_integration : Bool
  pub kafka_integration : Bool

-- What is found under the name of the request
pub data Found (K : Kube) (Fault : Type 0) : Type 0 where
  instance_gone : Found K Fault
  unreadable : Fault → Found K Fault
  instance_read : Jaeger K → Found K Fault

pub record Operations (K : Kube) : Type 1 where
  pub State : Type 0
  pub Fault : Type 0
  pub Plan : Type 0
  pub fetch : State → Found K Fault × State
  pub clean_config_maps : State → Reply Fault × State
  pub sync_on_jaeger_changes : String → State → Reply Fault × State
  -- time.ParseDuration
  pub parse_duration : String → Reply Fault
  -- The two updates also give the instance that is written back into the variable.
  pub update : Jaeger K → State → Reply Fault × Jaeger K × State
  pub update_status : Jaeger K → State → Reply Fault × Jaeger K × State
  -- strategy.For, with the normalized instance
  pub choose_strategy : Jaeger K → Jaeger K × Plan
  pub apply_upgrades : Jaeger K → State → Reply Fault × Jaeger K × State
  pub list_secrets : Jaeger K → State → Reply Fault × State
  -- CreateCerts, and the plan with the secrets that ExtractSecrets adds
  pub create_certs : Jaeger K → Plan → State → Reply Fault × Plan × State
  pub apply_stage : Stage → Jaeger K → Plan → State → Reply Fault × State
  -- The list of routes that the console links are made from
  pub list_routes : Jaeger K → State → Reply Fault × State
  pub deep_equal : Jaeger K → Jaeger K → Bool

abbrev pub operated_by : String
operated_by = "jaegertracing.io/operated-by"

module _ {K : Kube} (ops : Operations K) where
  open ops use {State, Fault, Plan}

  abbrev pub with_phase : String → Jaeger K → Jaeger K
  with_phase phase jaeger = record jaeger { status = record (jaeger.status) { phase = phase } }

  -- if err := ...; err != nil { return err }
  abbrev pub then_do : Reply Fault × State → (State → Reply Fault × State) → Reply Fault × State
  then_do (ok, s) k = k s
  then_do (err e, s) k = (err e, s)

  -- An error that is only logged
  abbrev pub logged : Reply Fault × State → (State → Reply Fault × State) → Reply Fault × State
  logged (r, s) k = k s

  -- An error that ends the function without an error
  abbrev pub or_finish : Reply Fault × State → (State → Reply Fault × State) → Reply Fault × State
  or_finish (ok, s) k = k s
  or_finish (err e, s) k = (ok, s)

  abbrev pub only_if : Bool → (State → Reply Fault × State) → State → Reply Fault × State
  only_if test call s = if test then call s else (ok, s)

  -- The routes and console links, or the ingresses, and what follows them
  unfoldable pub apply_access :
      Bool → Jaeger K → Plan → (State → Reply Fault × State) → State → Reply Fault × State
  apply_access openshift jaeger plan k s =
      if openshift
      then then_do (ops.apply_stage routes jaeger plan s) (λ s1.
        logged (then_do (ops.list_routes jaeger s1) (ops.apply_stage console_links jaeger plan)) k)
      else then_do (ops.apply_stage ingresses jaeger plan s) k

  -- apply, from applySecrets on
  unfoldable pub apply_stages : Flags → Jaeger K → Plan → State → Reply Fault × State
  unfolding apply_access
  apply_stages f jaeger plan s = then_do (ops.apply_stage secrets jaeger plan s) λ s.
      then_do (only_if f.es_integration (ops.apply_stage elasticsearches jaeger plan) s) λ s.
        then_do (only_if f.kafka_integration (ops.apply_stage kafkas jaeger plan) s) λ s.
          then_do (only_if f.kafka_integration (ops.apply_stage kafka_users jaeger plan) s) λ s.
            then_do (ops.apply_stage accounts jaeger plan s) λ s.
              then_do (ops.apply_stage dependencies jaeger plan s) λ s.
                then_do (ops.apply_stage cluster_role_bindings jaeger plan s) λ s.
                  then_do (ops.apply_stage config_maps jaeger plan s) λ s.
                    then_do (ops.apply_stage cron_jobs jaeger plan s) λ s.
                      then_do (ops.apply_stage services jaeger plan s) λ s.
                        then_do (ops.apply_stage deployments jaeger plan s) λ s.
                          apply_access f.openshift jaeger plan
                            (λ s.
                              or_finish (ops.apply_stage horizontal_pod_autoscalers jaeger plan s)
                                λ s.
                                  then_do (ops.apply_stage daemon_sets jaeger plan s)
                                    (λ s. (ok, s)))
                            s

  abbrev pub needs_certs : Jaeger K → Bool
  needs_certs jaeger =
      should_inject_openshift_elasticsearch jaeger.spec.storage
      && (elim jaeger.spec.storage.elasticsearch.use_cert_management [
        | none ↦ true
        | some managed ↦ not managed
      ])

  -- With the certificates of Elasticsearch, created if the operator is to; `plan` is the strategy.
  abbrev pub after_certs :
      Flags → Jaeger K → Reply Fault × Plan × State → Reply Fault × Jaeger K × State
  after_certs f jaeger (err e, plan, s) = (err e, jaeger, s)
  after_certs f jaeger (ok, plan, s) = let (r, s1) = apply_stages f jaeger plan s in (r, jaeger, s1)

  abbrev pub after_secrets :
      Flags → Jaeger K → Plan → Reply Fault × State → Reply Fault × Jaeger K × State
  after_secrets f jaeger plan (err e, s) =
      let (r, jaeger1, s1) = ops.update_status (with_phase "Failed" jaeger) s in
      (err e, jaeger1, s1)
  after_secrets f jaeger plan (ok, s) = after_certs f jaeger (ops.create_certs jaeger plan s)

  abbrev pub after_upgrades :
      Flags → Plan → Reply Fault × Jaeger K × State → Reply Fault × Jaeger K × State
  after_upgrades f plan (err e, jaeger, s) = (err e, jaeger, s)
  after_upgrades f plan (ok, jaeger, s) =
      if needs_certs jaeger
      then after_secrets f jaeger plan (ops.list_secrets jaeger s)
      else after_certs f jaeger (ok, plan, s)

  -- apply
  unfoldable pub apply_strategy : Flags → Jaeger K → Plan → State → Reply Fault × Jaeger K × State
  unfolding apply_stages should_inject_openshift_elasticsearch
  apply_strategy f jaeger plan s = after_upgrades f plan (ops.apply_upgrades jaeger s)

  -- validate
  unfoldable pub validate : Jaeger K → Reply Fault
  validate jaeger =
      if jaeger.spec.storage.es_rollover.read_ttl == ""
      then ok
      else ops.parse_duration jaeger.spec.storage.es_rollover.read_ttl

  abbrev pub result : Reply Fault × Jaeger K × State → Reply Fault × State
  result (r, jaeger, s) = (r, s)

  -- The status at the end of Reconcile, for the version before and the one after the changes
  unfoldable pub store_status : String → String → Jaeger K → State → Reply Fault × State
  store_status original_version version jaeger s =
      if not (version == original_version) || not (jaeger.status.phase == "Running")
      then result (
          ops.update_status
            (record jaeger { status = record { version = version; phase = "Running" } }) s)
      else (ok, s)

  abbrev pub after_store : String → String → Reply Fault × Jaeger K × State → Reply Fault × State
  after_store original_version version (err e, jaeger, s) = (err e, s)
  after_store original_version version (ok, jaeger, s) =
      store_status original_version version jaeger s

  -- What follows apply: the instance before the strategy and after it
  abbrev pub after_apply :
      Jaeger K → Jaeger K → Reply Fault × Jaeger K × State → Reply Fault × State
  after_apply original instance (err e, updated, s) =
      let (r, i, s1) = ops.update_status (with_phase "Failed" instance) s in (err e, s1)
  after_apply original instance (ok, updated, s) =
      after_store original.status.version updated.status.version
        (if ops.deep_equal original updated then (ok, updated, s) else ops.update updated s)

  -- Reconcile of an instance that is this operator's
  unfoldable pub reconcile_own : Flags → Jaeger K → State → Reply Fault × State
  unfolding apply_strategy store_status
  reconcile_own f original s =
      let (instance, plan) = ops.choose_strategy original in
      after_apply original instance (apply_strategy f instance plan s)

  abbrev pub labelled : String → Jaeger K → Jaeger K
  labelled identity jaeger = record jaeger {
    labels = some (insert operated_by identity (entries jaeger.labels));
  }

  abbrev pub after_claim : Reply Fault × Jaeger K × State → Reply Fault × State
  after_claim (ok, jaeger, s) = (ok, s)
  after_claim (err e, jaeger, s) =
      let (r, i, s1) = ops.update_status (with_phase "Failed" jaeger) s in (err e, s1)

  -- Reconcile, for the operator that the label names
  abbrev pub reconcile_owned : Flags → Option String → Jaeger K → State → Reply Fault × State
  reconcile_owned f (some val) instance s =
      if val == f.identity then reconcile_own f instance s else (ok, s)
  reconcile_owned f none instance s = after_claim (ops.update (labelled f.identity instance) s)

  -- Reconcile of an instance that was read
  unfoldable pub reconcile_instance : Flags → Jaeger K → State → Reply Fault × State
  unfolding validate reconcile_own
  reconcile_instance f instance s = then_do (ops.sync_on_jaeger_changes instance.name s) λ s1.
      then_do (validate instance, s1) (reconcile_owned f (get operated_by instance.labels) instance)

  abbrev pub after_fetch : Flags → Found K Fault × State → Reply Fault × State
  after_fetch f (instance_gone, s) = ops.clean_config_maps s
  after_fetch f (unreadable e, s) = (err e, s)
  after_fetch f (instance_read instance, s) = reconcile_instance f instance s

  -- Reconcile
  unfoldable pub reconcile_request : Flags → State → Reply Fault × State
  unfolding reconcile_instance
  reconcile_request f s = after_fetch f (ops.fetch s)
