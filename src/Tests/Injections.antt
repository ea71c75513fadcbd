-- ===== src/Tests/Injections.antt =====
-- Agents of a small deployment (pkg/inject, controllers/appsv1, pkg/autoclean), and names.
use Prim.Native.String.{len}
use jaeger_operator.Base.{
  ℕ, ◌+◌, ◌≤◌, ◌<◌, String, ◌≡◌, refl, Bool, true, false, none, some, List, [], ◌∷◌, string_dec,
}
use jaeger_operator.Base.{ap, ◌>>=◌, Run, done, panic, arith, Option, ◌==◌, if◌then◌else◌, is_some}
use jaeger_operator.Base.Dict.{GoMap, get, lookup}
use jaeger_operator.Kube.{text_kube}
use jaeger_operator.Jaeger.{Jaeger, pos}
use jaeger_operator.Names.{suffixed, query_route}
use jaeger_operator.Names.Bounds.{query_route-IsLabel}
use jaeger_operator.Util.Text.{
  trim_end, trim_begin, Piece, literal, verb, truncate, trim_non_alpha_numeric,
}
use jaeger_operator.Util.Text.Bounds.{truncate_bounded}
use jaeger_operator.Util.Text.Dns.{IsLabel}
use jaeger_operator.Inject.{
  needed, desired, get_jaeger, Container, Deployment, ConfigMap, label, agent_index, select,
  annotation,
}
use jaeger_operator.Inject.Agent.{Surroundings}
use jaeger_operator.Inject.Sidecar.{
  sidecar, clean_sidecar, assigned_elsewhere, decorated_containers,
}
use jaeger_operator.Inject.Sidecar.Laws.{agents, agents-sidecar, clean_sidecar-sidecar}
use jaeger_operator.Inject.Sidecar.Total.{sidecar_total}
use jaeger_operator.Tests.Sample.{instance_at}
use jaeger_operator.Base.{◌++◌}
use jaeger_operator.Autoclean.{clean_deployments}
use jaeger_operator.Autoclean.Laws.{
  clean_deployments-orphans, orphans, listed, watched, has_instance,
}
use jaeger_operator.Autoclean.Injected.{injected_kept, injected_cleaned}
use jaeger_operator.Webhook.{
  handle_decoded, handle_listed, handle_needed, handle_selected, Request, handle, patched, created,
}
use jaeger_operator.Webhook.Laws.{Handled, handle-Handled}

abbrev an_app : Container text_kube
an_app = record {
  name = "app";
  image = "app:1";
  args = [];
  env = [];
  env_from = [];
  ports = [];
  resources = record { limits = none; requests = none };
  security_context = none;
  volume_mounts = [];
  liveness_probe = none;
  readiness_probe = none;
  rest = "";
}

abbrev a_deployment : Deployment text_kube
a_deployment = record {
  meta = record {
    name = "shop";
    namespace = "obs";
    labels = some [];
    annotations = some (("sidecar.jaegertracing.io/inject", "tracing") ∷ []);
    owner_references = [];
  };
  template_labels = some (("app", "shop") ∷ []);
  containers = an_app ∷ [];
  image_pull_secrets = [];
  volumes = [];
}

abbrev surroundings : Surroundings text_kube
surroundings = record {
  openshift = false;
  proxy_vars = [];
  agent_image = "jaegertracing/jaeger-agent";
  agent_version = "1.57.0";
  mounts = record { config_map_source = λ n k p. n; read_only = "ro" };
  field_source = λ p. p;
  http_liveness_probe = λ p. "live";
  http_readiness_probe = λ p. "ready";
  no_rest = "";
}

abbrev tracing : Jaeger text_kube
tracing = instance_at "1.57.0"

abbrev no_map : GoMap String
no_map = none

unassigned : assigned_elsewhere tracing a_deployment ≡ false
unfolding lookup
unassigned = refl

no_agent : agent_index (an_app ∷ []) ≡ none
unfolding agent_index string_dec
no_agent = refl

sidecar_total_example :
    (dep' : Deployment text_kube) × (sidecar surroundings [] tracing a_deployment ≡ done dep')
sidecar_total_example =
    sidecar_total surroundings [] tracing a_deployment
      (("sidecar.jaegertracing.io/inject", "tracing") ∷ []) refl no_agent

-- The deployment with its agent, and why it is there
injected :
    (dep' : Deployment text_kube) × (sidecar surroundings [] tracing a_deployment ≡ done dep')
injected =
    sidecar_total surroundings [] tracing a_deployment
      (("sidecar.jaegertracing.io/inject", "tracing") ∷ []) refl no_agent

agents-sidecar_example : agents injected.0.containers ≡ 1
unfolding agent_index string_dec
agents-sidecar_example =
    agents-sidecar surroundings [] tracing a_deployment injected.0 unassigned injected.1

clean_sidecar-sidecar_example :
    ((clean_sidecar false "tracing" injected.0).containers ≡ decorated_containers [] a_deployment)
    × (get label (clean_sidecar false "tracing" injected.0).meta.labels ≡ none)
clean_sidecar-sidecar_example =
    clean_sidecar-sidecar surroundings [] tracing a_deployment injected.0 false "tracing" unassigned
      no_agent injected.1

short_name : len "tracing" ≤ 63
short_name = omega arith

trimmed_name : trim_non_alpha_numeric "tracing" ≡ "tracing"
unfolding trim_non_alpha_numeric trim_end trim_begin string_dec
trimmed_name = refl

listed_there : has_instance "tracing" (listed (λ _. tracing ∷ []) (watched "")) ≡ true
unfolding listed has_instance string_dec
listed_there = refl

only_listed : listed (λ _. injected.0 ∷ []) (watched "") ≡ [] ++ injected.0 ∷ []
unfolding listed string_dec
only_listed = refl

injected_kept_example :
    clean_deployments false "" (λ _. injected.0 ∷ []) (λ _. tracing ∷ [])
    ≡ orphans false (listed (λ _. tracing ∷ []) (watched "")) ([] ++ [])
injected_kept_example =
    injected_kept surroundings [] tracing a_deployment injected.0 false "" (λ _. injected.0 ∷ [])
      (λ _. tracing ∷ []) [] [] short_name trimmed_name unassigned injected.1 listed_there
      only_listed

-- An instance with a name of 70 bytes
abbrev long_tracing : Jaeger text_kube
long_tracing = record tracing {
  name = "tracing-of-the-services-that-the-platform-team-keeps-for-other-teams-x";
}

long_name : 63 < len long_tracing.name
long_name = omega arith

long_unassigned : assigned_elsewhere long_tracing a_deployment ≡ false
unfolding lookup
long_unassigned = refl

long_injected :
    (dep' : Deployment text_kube) × (sidecar surroundings [] long_tracing a_deployment ≡ done dep')
long_injected =
    sidecar_total surroundings [] long_tracing a_deployment
      (("sidecar.jaegertracing.io/inject", "tracing") ∷ []) refl no_agent

only_long_listed : listed (λ _. long_injected.0 ∷ []) (watched "") ≡ [] ++ long_injected.0 ∷ []
unfolding listed string_dec
only_long_listed = refl

injected_cleaned_example :
    (l : String) × (get label long_injected.0.meta.labels ≡ some l)
    × ((long_tracing.name == l) ≡ false)
    × (has_instance l (listed (λ _. long_tracing ∷ []) (watched "")) ≡ false
        → clean_deployments false "" (λ _. long_injected.0 ∷ []) (λ _. long_tracing ∷ [])
          ≡ orphans false (listed (λ _. long_tracing ∷ []) (watched "")) []
            ++ clean_sidecar false l long_injected.0
              ∷ orphans false (listed (λ _. long_tracing ∷ []) (watched "")) [])
injected_cleaned_example =
    injected_cleaned surroundings [] long_tracing a_deployment long_injected.0 false ""
      (λ _. long_injected.0 ∷ []) (λ _. long_tracing ∷ []) [] [] long_name long_unassigned
      long_injected.1 only_long_listed

clean_deployments-orphans_example :
    clean_deployments false "" (λ _. a_deployment ∷ []) (λ _. [])
    ≡ orphans false (listed (λ _. []) (watched "")) (listed (λ _. a_deployment ∷ []) (watched ""))
clean_deployments-orphans_example =
    clean_deployments-orphans false "" (λ _. a_deployment ∷ []) (λ _. [])

abbrev a_request : Request text_kube
a_request = record {
  namespace = "obs";
  watch_namespace = "";
  decoded = some a_deployment;
  namespace_annotations = none;
  jaegers = some (tracing ∷ []);
  config_maps = [];
  creation = λ b. created;
  encodes = λ d. true;
}

answered : handle surroundings a_request ≡ done (patched injected.0, [])
unfolding handle handle_decoded handle_listed handle_needed handle_selected needed desired select
    get_jaeger string_dec lookup jaeger_operator.Base.equal_fold sidecar
    jaeger_operator.Base.Dict.insert suffixed truncate jaeger_operator.Util.Args.find_item
    jaeger_operator.Options.to_args jaeger_operator.Base.has_prefix
    jaeger_operator.Util.Text.dns_name jaeger_operator.Inject.matched_config_maps
answered = ap (λ r. r >>= λ d. done (patched d, [])) injected.1

handle-Handled_example : Handled surroundings a_request injected.0
handle-Handled_example = handle-Handled surroundings a_request injected.0 [] answered

truncate_bounded_example :
    (name : String) × (truncate
        (verb ∷ literal "-es-index-cleaner" ∷ [])
        (pos 52)
        ("tracing-of-the-services-that-the-platform-team-keeps" ∷ [])
      ≡ done name)
    × (len name ≤ 52)
truncate_bounded_example =
    truncate_bounded (verb ∷ literal "-es-index-cleaner" ∷ []) 52
      ("tracing-of-the-services-that-the-platform-team-keeps" ∷ [])

short_namespace : len "observability" < 63
short_namespace = omega arith

query_route-IsLabel_example :
    (n : String) × (query_route "observability" "tracing" ≡ done n)
    × IsLabel n
    × (len n + 1 + len "observability" ≤ 63)
query_route-IsLabel_example = query_route-IsLabel "observability" "tracing" short_namespace
