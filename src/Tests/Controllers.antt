-- ===== src/Tests/Controllers.antt =====
-- A reconciliation that notes what it does (pkg/controller/jaeger).
use jaeger_operator.Base.{
  ℕ, ◌<◌, suc, String, ◌≡◌, refl, Bool, true, false, Option, none, some, List, [], ◌∷◌,
}
use jaeger_operator.Base.{if◌then◌else◌, string_dec, inr, arith, nat_eq}
use jaeger_operator.Base.Dict.{get, lookup}
use jaeger_operator.Kube.{text_kube}
use jaeger_operator.Jaeger.{Jaeger}
use jaeger_operator.Apply.{Client, Reply, ok, err, found}
use jaeger_operator.Apply.Dependencies.{handle_dependency, handle_dependency_completes}
use jaeger_operator.Apply.Dependencies.{CompletesIn}
use jaeger_operator.Controller.{
  Flags, Operations, Stage, instance_read, services, apply_stages, operated_by,
}
use jaeger_operator.Controller.{reconcile_request}
use jaeger_operator.Controller.Steps.{Runs, sequence, apply_stages-Runs}
use jaeger_operator.Controller.Running.{IsStore, reconcile_running}
use jaeger_operator.Base.{ap, sym}
use jaeger_operator.Util.Merge.{no_settings}
use jaeger_operator.Jaeger.{pos, negsuc}
use jaeger_operator.Autoscale.{Component}
use jaeger_operator.Tests.Sample.{instance_at}

-- An instance that an operator is named for
abbrev operated : Jaeger text_kube
operated = record (instance_at "1.57.0") {
  labels = some (("jaegertracing.io/operated-by", "us") ∷ []);
}

abbrev flags_of : String → Flags
flags_of identity = record {
  identity = identity;
  openshift = false;
  es_integration = false;
  kafka_integration = false;
}

abbrev fails_at : Bool → Stage → Reply String
fails_at broken services = if broken then err "no services" else ok
fails_at broken _ = ok

-- The state is a list of notes: the phases that are stored. The plan says whether services fail.
abbrev noting : Bool → Operations text_kube
noting broken = record {
  State = List String;
  Fault = String;
  Plan = Unit;
  fetch = λ s. (instance_read operated, s);
  clean_config_maps = λ s. (ok, s);
  sync_on_jaeger_changes = λ n s. (ok, s);
  parse_duration = λ t. ok;
  update = λ j s. (ok, j, "stored" ∷ s);
  update_status = λ j s. (ok, j, j.status.phase ∷ s);
  choose_strategy = λ j. (j, tt);
  apply_upgrades = λ j s. (ok, j, s);
  list_secrets = λ j s. (ok, s);
  create_certs = λ j p s. (ok, p, s);
  apply_stage = λ stage j p s. (fails_at broken stage, s);
  list_routes = λ j s. (ok, s);
  deep_equal = λ a b. false;
}

labelled : get operated_by operated.labels ≡ some "us"
unfolding lookup string_dec
labelled = refl

-- The phase that was stored last, and the one of the instance before
abbrev stored_phase : List String → String
stored_phase [] = operated.status.phase
stored_phase (phase ∷ phases) = phase

-- An API that keeps the phase of the instance
abbrev keeping : Bool → Operations text_kube
keeping broken = record (noting broken) {
  fetch = λ s. (
    instance_read
        (record operated { status = record { version = "1.57.0"; phase = stored_phase s } }),
    s,
  );
  update =
      λ j s. (ok, record j { status = record { version = "1.57.0"; phase = stored_phase s } }, s);
}

keeping-IsStore : IsStore (keeping false) stored_phase
keeping-IsStore = record {
  fetch-phase = λ s s1 j e. cc e;
  update-phase = λ j j' s s' e. cc e;
  update_status-phase = λ j j' s s' e. ap (λ r. stored_phase r.2) (sym e);
  sync-phase = λ n s. refl;
  upgrades-phase = λ j s. refl;
  secrets-phase = λ j s. refl;
  certs-phase = λ j p s. refl;
  stage-phase = λ stage j p s. refl;
  routes-phase = λ j s. refl;
  deep_equal-eq = λ a b e. cc e;
}

kept_running :
    reconcile_request (keeping false) (flags_of "us") ("Failed" ∷ [])
    ≡ (ok, "Running" ∷ "Failed" ∷ [])
unfolding reconcile_request string_dec lookup
kept_running = refl

reconcile_running_example : stored_phase ("Running" ∷ "Failed" ∷ []) ≡ "Running"
reconcile_running_example =
    reconcile_running (keeping false) stored_phase keeping-IsStore (flags_of "us")
      (record operated { status = record { version = "1.57.0"; phase = "Failed" } }) ("Failed" ∷ [])
      ("Failed" ∷ []) ("Running" ∷ "Failed" ∷ []) refl labelled kept_running

apply_stages-Runs_example :
    Runs
      (noting true)
      operated
      tt
      (sequence (flags_of "us"))
      []
      (apply_stages (noting true) (flags_of "us") operated tt [])
apply_stages-Runs_example = apply_stages-Runs (noting true) operated tt (flags_of "us") []

-- A job that exists and completes at the second look; the state counts the looks.
abbrev jobs : Client String
jobs = record {
  State = ℕ;
  Fault = String;
  Status = ℕ;
  list = λ s. ([], ok);
  create = λ a s. (err "exists", s);
  update = λ a s. (ok, s);
  delete = λ a s. (ok, s);
  observe = λ a s. (found s, suc s);
  timeout = "timeout";
  removed = "removed";
}

abbrev any_fault : String → Bool
any_fault e = true

abbrev usual_deadline : String → Option ℕ
usual_deadline a = none

completes : CompletesIn jobs (λ status. nat_eq status 1) 1 "schema-job" 0
unfolding CompletesIn
completes = (0, refl, refl, (1, refl, refl))

in_time : 1 < 120
in_time = omega arith

handle_dependency_completes_example :
    (handle_dependency jobs any_fault usual_deadline (λ n. n) "schema-job" 0).0 ≡ ok
handle_dependency_completes_example =
    handle_dependency_completes jobs any_fault usual_deadline (λ n. n) "schema-job" 0 0
      (err "exists") 1 120 refl (inr ("exists", refl, refl)) (inr (refl, refl)) completes in_time

-- A component with a largest number of replicas that is negative
abbrev a_collector : Component text_kube
a_collector = record {
  name = "tracing-collector";
  hpa_labels = none;
  replicas = none;
  common_spec = no_settings;
  autoscaling_spec = record {
    autoscale = none;
    min_replicas = some (pos 2);
    max_replicas = some (negsuc 0);
  };
  instance_of = operated;
  owner = record {
    api_version = "jaegertracing.io/v1";
    kind = "Jaeger";
    name = "tracing";
    uid = "1";
  };
}
