-- ===== src/Autodetect/Detect.antt =====
-- The detections of one round (pkg/autodetect/main.go).
use jaeger_operator.Base.{String, Bool, true, false, ◌||◌, not, Option, none, some, List, [], ◌∷◌}
use jaeger_operator.Base.{◌==◌, if◌then◌else◌}
use jaeger_operator.Base.Dict.{get}
use jaeger_operator.Autodetect.{kubernetes_platform, openshift_platform, Config, Answers}
use jaeger_operator.Autodetect.{Integration, integration_yes, integration_no, on_openshift}
use jaeger_operator.Autodetect.{
  AuthDelegatorAvailability, delegator_yes, delegator_no, delegator_unknown,
}
use jaeger_operator.Autodetect.{platform_text, set_platform, is_platform_autodetection_enabled}
use jaeger_operator.Autodetect.{get_es_integration, set_es_integration, get_kafka_integration}
use jaeger_operator.Autodetect.{set_kafka_integration, get_auth_delegator, set_auth_delegator}
use jaeger_operator.Autodetect.{ResourceList, IngressClass, available_apis, has_name, is_openshift}
use jaeger_operator.Autodetect.{is_kafka_operator_available, is_elasticsearch_operator_available}

-- Background: the clients and the ticker are left out
pub record Background : Type 0 where
  pub first_run_done : Bool
  pub retry_detect_es : Bool
  pub retry_detect_kafka : Bool

-- WithClients, with the flags of the start
abbrev pub with_clients : Config → Background
with_clients c = record {
  first_run_done = false;
  retry_detect_es = c.es_provision == "auto";
  retry_detect_kafka = c.kafka_provision == "auto";
}

unfoldable pub detect_platform : List ResourceList → Config → Config
unfolding set_platform is_platform_autodetection_enabled
detect_platform api_list c =
    if not (is_platform_autodetection_enabled c)
    then c
    else set_platform
        (platform_text (if is_openshift api_list then openshift_platform else kubernetes_platform))
        c

-- Whether the resources of a version can be read and name this one.
abbrev pub serves : (String → Option ResourceList) → String → String → Bool
serves resources_for name version = elim (resources_for version) [
  | none ↦ false
  | some l ↦ has_name name l.resources
]

-- The loop of detectCronjobsVersion: it goes on after a version that was found
unfoldable pub last_version : (String → Option ResourceList) → List String → String → String
last_version resources_for [] detected_version = detected_version
last_version resources_for (version ∷ versions) detected_version =
    last_version resources_for versions
      (if serves resources_for "cronjobs" version then version else detected_version)

unfoldable pub detect_cronjobs_version : Answers → Config → Config
unfolding last_version
detect_cronjobs_version a c =
    let detected_version = last_version a.server_resources ("batch/v1" ∷ "batch/v1beta1" ∷ []) "" in
    if detected_version == "" then c else record c { cronjobs_version = detected_version }

-- The loop of detectAutoscalingVersion: it ends at the first version that is found
unfoldable pub first_version : (String → Option ResourceList) → List String → String
first_version resources_for [] = ""
first_version resources_for (version ∷ versions) =
    if serves resources_for "horizontalpodautoscalers" version
    then version
    else first_version resources_for versions

unfoldable pub detect_autoscaling_version : Answers → Config → Config
unfolding first_version
detect_autoscaling_version a c =
    let detected_version =
      first_version a.server_resources ("autoscaling/v2" ∷ "autoscaling/v2beta2" ∷ []) in
    if detected_version == "" then c else record c { autoscaling_version = detected_version }

abbrev is_default_class : IngressClass → Bool
is_default_class ic = elim (get "ingressclass.kubernetes.io/is-default-class" ic.annotations) [
  | none ↦ false
  | some val ↦ val == "true"
]

-- The loop of detectDefaultIngressClass
unfoldable pub default_class : List IngressClass → Config → Config
default_class [] c = c
default_class (ic ∷ ingress_classes) c =
    if is_default_class ic
    then record c { default_ingress_class = ic.name }
    else default_class ingress_classes c

unfoldable pub detect_default_ingress_class : Answers → Config → Config
unfolding default_class
detect_default_ingress_class a c = if on_openshift c then c else default_class a.ingress_classes c

-- The reference that an image stream leads to: that of the first item of its first tag.
abbrev pub first_reference : List (List String) → String
first_reference [] = ""
first_reference ([] ∷ tags) = ""
first_reference ((reference ∷ items) ∷ tags) = reference

-- What `detectOAuthProxyImageStream` does with a stream that it could read.
abbrev pub set_image : Option (List (List String)) → Config → Config
set_image none c = c
set_image (some tags) c =
    if first_reference tags == "" then c else record c { oauth_proxy_image = first_reference tags }

-- detectOAuthProxyImageStream; `digest` parses an image reference (openshift/library-go) and gives
-- its digest, "" if it has none or does not parse
unfoldable pub detect_oauth_proxy_image_stream : (String → String) → Answers → Config → Config
detect_oauth_proxy_image_stream digest a c =
    if not (on_openshift c)
    then c
    else if c.imagestream_namespace == "" || c.imagestream_name == ""
    then c
    else if not (digest c.oauth_proxy_image == "")
    then c
    else set_image a.image_stream c

abbrev pub same_integration : Integration → Integration → Bool
same_integration integration_yes integration_yes = true
same_integration integration_no integration_no = true
same_integration _ _ = false

abbrev pub integration_if : Bool → Integration
integration_if b = if b then integration_yes else integration_no

-- detectElasticsearch: that the flag is set explicitly is only logged
unfoldable pub detect_elasticsearch : List ResourceList → Config → Config
unfolding get_es_integration set_es_integration
detect_elasticsearch api_list c =
    let es_provision = integration_if (is_elasticsearch_operator_available api_list) in
    if same_integration (get_es_integration c) es_provision
    then c
    else set_es_integration es_provision c

unfoldable pub detect_kafka : Background → List ResourceList → Config → Config
unfolding get_kafka_integration set_kafka_integration
detect_kafka b api_list c =
    let kafka_provision = integration_if (is_kafka_operator_available api_list) in
    if not b.retry_detect_kafka
    then c
    else if same_integration (get_kafka_integration c) kafka_provision
    then c
    else set_kafka_integration kafka_provision c

abbrev pub is_unknown : AuthDelegatorAvailability → Bool
is_unknown delegator_unknown = true
is_unknown _ = false

abbrev pub same_availability : AuthDelegatorAvailability → AuthDelegatorAvailability → Bool
same_availability delegator_yes delegator_yes = true
same_availability delegator_no delegator_no = true
same_availability delegator_unknown delegator_unknown = true
same_availability _ _ = false

-- detectClusterRoles: the token review is created and, in any case, deleted again
unfoldable pub detect_cluster_roles : Answers → Config → Config
unfolding get_auth_delegator set_auth_delegator
detect_cluster_roles a c =
    let current = get_auth_delegator c in
    let found = if a.review_created then delegator_yes else delegator_no in
    if not (on_openshift c)
    then c
    else if not (same_availability current found) || is_unknown current
    then set_auth_delegator found c
    else c

-- What runs in the first round whose answers can be read.
unfoldable pub first_run : Answers → List ResourceList → Config → Config
unfolding detect_platform detect_cronjobs_version detect_autoscaling_version
    detect_default_ingress_class
first_run a api_list c =
    detect_default_ingress_class a
      (detect_autoscaling_version a (detect_cronjobs_version a (detect_platform api_list c)))

-- autoDetectCapabilities
unfoldable pub auto_detect : (String → String) → Answers → Background × Config → Background × Config
unfolding first_run detect_oauth_proxy_image_stream detect_elasticsearch detect_kafka
    detect_cluster_roles
auto_detect digest a (b, c) = elim (available_apis a) [
  | none ↦ (b, detect_cluster_roles a c)
  | some api_list ↦
      let c1 = if b.first_run_done then c else first_run a api_list c in
      let c2 = detect_oauth_proxy_image_stream digest a c1 in
      let c3 = detect_kafka b api_list (detect_elasticsearch api_list c2) in
      (record b { first_run_done = true }, detect_cluster_roles a c3)
]

-- The rounds of the ticker
unfoldable pub rounds : (String → String) → List Answers → Background × Config → Background × Config
unfolding auto_detect
rounds digest [] s = s
rounds digest (a ∷ answers) s = rounds digest answers (auto_detect digest a s)
