-- ===== src/Controller/Steps.antt =====
-- The order in which a plan is applied (apply of pkg/controller/jaeger/jaeger_controller.go).
use jaeger_operator.Base.{
  String, ◌≡◌, refl, sym, subst, Bool, true, false, List, [], ◌∷◌, ◌++◌, if◌then◌else◌,
}
use jaeger_operator.Kube.{Kube}
use jaeger_operator.Apply.{Reply, ok, err}
use jaeger_operator.Jaeger.{Jaeger}
use jaeger_operator.Controller.{Flags, Operations, Stage, then_do, or_finish, logged, apply_stages}
use jaeger_operator.Controller.{
  apply_access, secrets, elasticsearches, kafkas, kafka_users, accounts,
}
use jaeger_operator.Controller.{
  dependencies, cluster_role_bindings, config_maps, cron_jobs, services,
}
use jaeger_operator.Controller.{deployments, routes, console_links, ingresses, daemon_sets}
use jaeger_operator.Controller.{horizontal_pod_autoscalers}

-- What an error of a stage means: it is returned, or the rest goes on, or the rest is skipped without
-- an error.
pub data Severity : Type 0 where
  fatal ignored final : Severity

abbrev pub is_console : Stage → Bool
is_console console_links = true
is_console _ = false

abbrev pub stages_if : Bool → List (Stage × Severity) → List (Stage × Severity)
stages_if test stages = if test then stages else []

-- All stages, in the order of a reconciliation
abbrev pub sequence_of : Bool → Bool → Bool → List (Stage × Severity)
sequence_of es kafka openshift =
    (secrets, fatal)
    ∷ (stages_if es ((elasticsearches, fatal) ∷ [])
        ++ (stages_if kafka ((kafkas, fatal) ∷ (kafka_users, fatal) ∷ [])
            ++ ((accounts, fatal)
                ∷ (dependencies, fatal)
                ∷ (cluster_role_bindings, fatal)
                ∷ (config_maps, fatal)
                ∷ (cron_jobs, fatal)
                ∷ (services, fatal)
                ∷ (deployments, fatal)
                ∷ ((if openshift
                      then (routes, fatal) ∷ (console_links, ignored) ∷ []
                      else (ingresses, fatal) ∷ [])
                    ++ ((horizontal_pod_autoscalers, final) ∷ (daemon_sets, fatal) ∷ [])))))

abbrev pub sequence : Flags → List (Stage × Severity)
sequence f = sequence_of f.es_integration f.kafka_integration f.openshift

module _ {K : Kube} (ops : Operations K) (jaeger : Jaeger K) (plan : Operations.Plan ops) where
  open ops use {State, Fault}

  -- The console links are applied to the routes that are listed.
  abbrev pub apply_listed : Stage → State → Reply Fault × State
  apply_listed console_links s =
      then_do ops (ops.list_routes jaeger s) (ops.apply_stage console_links jaeger plan)
  apply_listed stage s = ops.apply_stage stage jaeger plan s

  abbrev pub followed_by :
      Severity → Reply Fault × State → (State → Reply Fault × State) → Reply Fault × State
  followed_by fatal r k = then_do ops r k
  followed_by ignored r k = logged ops r k
  followed_by final r k = or_finish ops r k

  -- The stages of a list, one after the other
  unfoldable pub run_stages : List (Stage × Severity) → State → Reply Fault × State
  run_stages [] s = (ok, s)
  run_stages ((stage, severity) ∷ stages) s =
      followed_by severity (apply_listed stage s) (run_stages stages)

  run_stages_of :
      (es kafka openshift : Bool) (identity : String) (s : State)
      → apply_stages ops
          (record {
            identity = identity;
            openshift = openshift;
            es_integration = es;
            kafka_integration = kafka;
          })
          jaeger
          plan
          s
        ≡ run_stages (sequence_of es kafka openshift) s
  unfolding apply_stages apply_access run_stages
  run_stages_of true true true identity s = refl
  run_stages_of true true false identity s = refl
  run_stages_of true false true identity s = refl
  run_stages_of true false false identity s = refl
  run_stages_of false true true identity s = refl
  run_stages_of false true false identity s = refl
  run_stages_of false false true identity s = refl
  run_stages_of false false false identity s = refl

  -- What applying a stage may do: the console links are applied to the routes that are listed, and an
  -- error of the listing is theirs.
  pub data Applied : Stage → State → Reply Fault × State → Type 0 where
    unlisted :
        {s s1 : State} {e : Fault}
        → ops.list_routes jaeger s ≡ (err e, s1)
        → Applied console_links s (err e, s1)
    to_listed :
        {s s1 : State}
        → ops.list_routes jaeger s ≡ (ok, s1)
        → Applied console_links s (ops.apply_stage console_links jaeger plan s1)
    applied :
        {stage : Stage} {s : State}
        → is_console stage ≡ false
        → Applied stage s (ops.apply_stage stage jaeger plan s)

  -- The runs of a list of stages: what an error does is that of its severity.
  pub data Runs : List (Stage × Severity) → State → Reply Fault × State → Type 0 where
    finished : {s : State} → Runs [] s (ok, s)
    next :
        {stage : Stage} {severity : Severity} {stages : List (Stage × Severity)} {s s1 : State}
        {r : Reply Fault × State}
        → Applied stage s (ok, s1)
        → Runs stages s1 r
        → Runs ((stage, severity) ∷ stages) s r
    ended :
        {stage : Stage} {stages : List (Stage × Severity)} {s s1 : State} {e : Fault}
        → Applied stage s (err e, s1)
        → Runs ((stage, fatal) ∷ stages) s (err e, s1)
    passed_over :
        {stage : Stage} {stages : List (Stage × Severity)} {s s1 : State} {e : Fault}
        {r : Reply Fault × State}
        → Applied stage s (err e, s1)
        → Runs stages s1 r
        → Runs ((stage, ignored) ∷ stages) s r
    ended_early :
        {stage : Stage} {stages : List (Stage × Severity)} {s s1 : State} {e : Fault}
        → Applied stage s (err e, s1)
        → Runs ((stage, final) ∷ stages) s (ok, s1)

  links_listed :
      (s : State) (r : Reply Fault × State)
      → ops.list_routes jaeger s ≡ r
      → Applied console_links s (then_do ops r (ops.apply_stage console_links jaeger plan))
  links_listed s (ok, s1) e = to_listed e
  links_listed s (err f, s1) e = unlisted e

  apply_listed-Applied : (stage : Stage) (s : State) → Applied stage s (apply_listed stage s)
  apply_listed-Applied console_links s = links_listed s (ops.list_routes jaeger s) refl
  apply_listed-Applied secrets s = applied refl
  apply_listed-Applied elasticsearches s = applied refl
  apply_listed-Applied kafkas s = applied refl
  apply_listed-Applied kafka_users s = applied refl
  apply_listed-Applied accounts s = applied refl
  apply_listed-Applied dependencies s = applied refl
  apply_listed-Applied cluster_role_bindings s = applied refl
  apply_listed-Applied config_maps s = applied refl
  apply_listed-Applied cron_jobs s = applied refl
  apply_listed-Applied services s = applied refl
  apply_listed-Applied deployments s = applied refl
  apply_listed-Applied routes s = applied refl
  apply_listed-Applied ingresses s = applied refl
  apply_listed-Applied horizontal_pod_autoscalers s = applied refl
  apply_listed-Applied daemon_sets s = applied refl

  followed_by-Runs :
      (stage : Stage) (severity : Severity) (stages : List (Stage × Severity)) (s : State)
      (r : Reply Fault × State)
      → Applied stage s r
      → ((s1 : State) → Runs stages s1 (run_stages stages s1))
      → Runs ((stage, severity) ∷ stages) s (followed_by severity r (run_stages stages))
  followed_by-Runs stage fatal stages s (ok, s1) a rest = next a (rest s1)
  followed_by-Runs stage fatal stages s (err e, s1) a rest = ended a
  followed_by-Runs stage ignored stages s (ok, s1) a rest = next a (rest s1)
  followed_by-Runs stage ignored stages s (err e, s1) a rest = passed_over a (rest s1)
  followed_by-Runs stage final stages s (ok, s1) a rest = next a (rest s1)
  followed_by-Runs stage final stages s (err e, s1) a rest = ended_early a

  run_stages-Runs :
      (stages : List (Stage × Severity)) (s : State) → Runs stages s (run_stages stages s)
  unfolding run_stages
  run_stages-Runs [] s = finished
  run_stages-Runs ((stage, severity) ∷ stages) s =
      followed_by-Runs stage severity stages s (apply_listed stage s) (apply_listed-Applied stage s)
        (run_stages-Runs stages)

  -- The stages of a plan are applied in one order, which the flags of the operator select from: the
  -- first error of a stage ends the reconciliation with that error, but for the console links, whose
  -- errors are passed over, and the pod autoscalers, whose error ends it as if all had gone through,
  -- so that the daemon sets are not applied.
  pub apply_stages-Runs :
      (f : Flags) (s : State) → Runs (sequence f) s (apply_stages ops f jaeger plan s)
  apply_stages-Runs f s =
      subst (Runs (sequence f) s)
        (sym (run_stages_of f.es_integration f.kafka_integration f.openshift f.identity s))
        (run_stages-Runs (sequence f) s)
