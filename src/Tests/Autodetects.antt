-- ===== src/Tests/Autodetects.antt =====
-- Rounds of detection on an OpenShift cluster (pkg/autodetect).
use jaeger_operator.Base.{
  String, ◌≡◌, refl, true, false, none, some, List, [], ◌∷◌, ◌==◌, if◌then◌else◌,
}
use jaeger_operator.Base.{string_dec, has_prefix, Option}
use jaeger_operator.Autodetect.{Config, Answers, ResourceList, integration_yes, integration_no}
use jaeger_operator.Autodetect.{
  kubernetes_platform, openshift_platform, delegator_yes, available_of,
}
use jaeger_operator.Autodetect.{
  available_apis, get_es_integration, get_kafka_integration, get_platform,
}
use jaeger_operator.Autodetect.Detect.{Background, auto_detect, rounds, detect_cronjobs_version}
use jaeger_operator.Autodetect.Detect.{detect_autoscaling_version, with_clients}
use jaeger_operator.Autodetect.Versions.{detect_versions}
use jaeger_operator.Autodetect.Found.{auto_detect_found}
use jaeger_operator.Autodetect.Rounds.{Settled, rounds-Settled}

abbrev route_apis : ResourceList
route_apis = record {
  group_version = "route.openshift.io/v1";
  resources = record { name = "routes"; kind = "Route" } ∷ [];
}

abbrev batch_apis : ResourceList
batch_apis = record {
  group_version = "batch/v1";
  resources = record { name = "cronjobs"; kind = "CronJob" } ∷ [];
}

abbrev resources_of : String → Option ResourceList
resources_of v =
    if v == "route.openshift.io/v1"
    then some route_apis
    else if v == "batch/v1"
    then some batch_apis
    else none

abbrev openshift_answers : Answers
openshift_answers = record {
  server_groups =
      some
        (record { name = "route.openshift.io"; preferred_version = "route.openshift.io/v1" } ∷ []);
  server_resources = resources_of;
  ingress_classes = [];
  image_stream = none;
  review_created = true;
}

abbrev start_config : Config
start_config = record {
  platform = "auto-detect";
  es_provision = "yes";
  kafka_provision = "auto";
  auth_delegator = "";
  cronjobs_version = "batch/v1beta1";
  autoscaling_version = "autoscaling/v2";
  default_ingress_class = "";
  oauth_proxy_image = "";
  imagestream_namespace = "";
  imagestream_name = "";
}

abbrev no_digest : String → String
no_digest s = ""

abbrev started : Background
started = record { first_run_done = true; retry_detect_es = false; retry_detect_kafka = true }

apis_read : available_apis openshift_answers ≡ some (route_apis ∷ [])
unfolding available_apis string_dec
apis_read = refl

-- An explicit es-provision of "yes" is overridden where there is no operator.
auto_detect_found_example :
    (get_es_integration
        (auto_detect no_digest openshift_answers (with_clients start_config, start_config)).1
      ≡ integration_no)
    × (get_kafka_integration
          (auto_detect no_digest openshift_answers (with_clients start_config, start_config)).1
        ≡ integration_no)
unfolding jaeger_operator.Autodetect.is_elasticsearch_operator_available string_dec has_prefix
    jaeger_operator.Autodetect.has_group
auto_detect_found_example =
    auto_detect_found no_digest openshift_answers (with_clients start_config) start_config
      (route_apis ∷ []) apis_read

rounds-Settled_example :
    Settled
      (auto_detect no_digest openshift_answers (with_clients start_config, start_config)).1
      (rounds no_digest
        (openshift_answers ∷ openshift_answers ∷ [])
        (with_clients start_config, start_config)).1
rounds-Settled_example =
    rounds-Settled no_digest openshift_answers (openshift_answers ∷ []) (with_clients start_config)
      start_config (route_apis ∷ []) apis_read

detect_versions_example :
    ((detect_cronjobs_version openshift_answers start_config).cronjobs_version ≡ "batch/v1")
    × ((detect_autoscaling_version openshift_answers start_config).autoscaling_version
        ≡ "autoscaling/v2")
unfolding string_dec jaeger_operator.Autodetect.has_name
detect_versions_example = detect_versions openshift_answers start_config

platform_found :
    get_platform
      (auto_detect no_digest openshift_answers (with_clients start_config, start_config)).1
    ≡ openshift_platform
unfolding get_platform jaeger_operator.Base.same_lower auto_detect available_apis string_dec
    jaeger_operator.Autodetect.has_name jaeger_operator.Autodetect.has_group has_prefix
    jaeger_operator.Autodetect.is_elasticsearch_operator_available
platform_found = refl
