-- ===== src/Autodetect.antt =====
-- What the operator knows of its cluster (pkg/autodetect/operatorconfig.go) and the rounds of the
-- process that finds it out (pkg/autodetect/main.go). The flags are those that the program keeps in
-- viper: texts. What a round is told by the cluster is a record of answers.
pub mod Flags
pub mod Detect
pub mod Rounds
pub mod Found
pub mod Versions
use jaeger_operator.Base.{
  String, Bool, true, false, ◌||◌, not, Option, none, some, List, [], ◌∷◌, ◌++◌,
}
use jaeger_operator.Base.{◌==◌, if◌then◌else◌, has_prefix, equal_fold, same_lower}
use jaeger_operator.Base.Dict.{GoMap, get}

pub data Platform : Type 0 where
  kubernetes_platform openshift_platform : Platform

-- ESOperatorIntegration and KafkaOperatorIntegration
pub data Integration : Type 0 where
  integration_yes integration_no : Integration

pub data AuthDelegatorAvailability : Type 0 where
  delegator_yes delegator_no delegator_unknown : AuthDelegatorAvailability

-- The values of the flags.
pub record Config : Type 0 where
  pub platform : String
  pub es_provision : String
  pub kafka_provision : String
  pub auth_delegator : String
  pub cronjobs_version : String
  pub autoscaling_version : String
  pub default_ingress_class : String
  pub oauth_proxy_image : String
  pub imagestream_namespace : String
  pub imagestream_name : String

-- The String methods
abbrev pub platform_text : Platform → String
platform_text kubernetes_platform = "Kubernetes"
platform_text openshift_platform = "OpenShift"

abbrev pub integration_text : Integration → String
integration_text integration_yes = "Yes"
integration_text integration_no = "No"

abbrev pub availability_text : AuthDelegatorAvailability → String
availability_text delegator_yes = "Yes"
availability_text delegator_no = "No"
availability_text delegator_unknown = "Unknown"

-- GetPlatform and SetPlatform, for a platform or a text
unfoldable pub get_platform : Config → Platform
get_platform c =
    if same_lower c.platform "openshift" then openshift_platform else kubernetes_platform

unfoldable pub set_platform : String → Config → Config
set_platform p c = record c { platform = p }

-- IsPlatformAutodetectionEnabled
unfoldable pub is_platform_autodetection_enabled : Config → Bool
is_platform_autodetection_enabled c = equal_fold c.platform "auto-detect"

-- GetESPIntegration and GetKafkaIntegration
abbrev pub integration_of : String → Integration
integration_of e = if same_lower e "yes" then integration_yes else integration_no

unfoldable pub get_es_integration : Config → Integration
get_es_integration c = integration_of c.es_provision

unfoldable pub set_es_integration : Integration → Config → Config
set_es_integration e c = record c { es_provision = integration_text e }

unfoldable pub get_kafka_integration : Config → Integration
get_kafka_integration c = integration_of c.kafka_provision

unfoldable pub set_kafka_integration : Integration → Config → Config
set_kafka_integration e c = record c { kafka_provision = integration_text e }

-- GetAuthDelegator and SetAuthDelegatorAvailability
unfoldable pub get_auth_delegator : Config → AuthDelegatorAvailability
get_auth_delegator c =
    if same_lower c.auth_delegator "yes"
    then delegator_yes
    else if same_lower c.auth_delegator "no"
    then delegator_no
    else delegator_unknown

unfoldable pub set_auth_delegator : AuthDelegatorAvailability → Config → Config
set_auth_delegator a c = record c { auth_delegator = availability_text a }

abbrev is_openshift_platform : Platform → Bool
is_openshift_platform kubernetes_platform = false
is_openshift_platform openshift_platform = true

abbrev pub on_openshift : Config → Bool
on_openshift c = is_openshift_platform (get_platform c)

-- metav1.APIResourceList: the names and kinds of the resources of a group and version
pub record Resource : Type 0 where
  pub name : String
  pub kind : String

pub record ResourceList : Type 0 where
  pub group_version : String
  pub resources : List Resource

pub record Group : Type 0 where
  pub name : String
  pub preferred_version : String

pub record IngressClass : Type 0 where
  pub name : String
  pub annotations : GoMap String

-- What the cluster answers in a round; `none` is an error, where there is one. A list of ingress
-- classes after an error is empty. An image stream is the tags with their items' references.
pub record Answers : Type 0 where
  pub server_groups : Option (List Group)
  pub server_resources : String → Option ResourceList
  pub ingress_classes : List IngressClass
  pub image_stream : Option (List (List String))
  pub review_created : Bool

-- The loop of AvailableAPIs: a group whose resources cannot be read is an error, in the end.
unfoldable pub available_of : (String → Option ResourceList) → List Group → List ResourceList × Bool
available_of resources_for [] = ([], true)
available_of resources_for (sg ∷ groups) =
    let (lists, fine) = available_of resources_for groups in
    if sg.name == "logging.openshift.io"
      || (sg.name == "kafka.strimzi.io" || sg.name == "route.openshift.io")
    then (elim (resources_for sg.preferred_version) [
      | some l ↦ (l ∷ lists, fine)
      | none ↦ (lists, false)
    ])
    else (lists, fine)

-- AvailableAPIs for the groups that are listened for
unfoldable pub available_apis : Answers → Option (List ResourceList)
unfolding available_of
available_apis a = elim a.server_groups [
  | none ↦ none
  | some groups ↦
      let (lists, fine) = available_of a.server_resources groups in
      if fine then some lists else none
]

unfoldable pub has_group : String → List ResourceList → Bool
has_group prefix [] = false
has_group prefix (r ∷ api_list) = has_prefix r.group_version prefix || has_group prefix api_list

unfoldable pub has_kind : String → List Resource → Bool
has_kind kind [] = false
has_kind kind (api ∷ resources) = api.kind == kind || has_kind kind resources

unfoldable pub has_name : String → List Resource → Bool
has_name name [] = false
has_name name (api ∷ resources) = api.name == name || has_name name resources

-- isOpenShift and isKafkaOperatorAvailable
abbrev pub is_openshift : List ResourceList → Bool
is_openshift api_list = has_group "route.openshift.io" api_list

abbrev pub is_kafka_operator_available : List ResourceList → Bool
is_kafka_operator_available api_list = has_group "kafka.strimzi.io" api_list

-- IsElasticsearchOperatorAvailable
unfoldable pub is_elasticsearch_operator_available : List ResourceList → Bool
unfolding has_kind
is_elasticsearch_operator_available [] = false
is_elasticsearch_operator_available (r ∷ api_list) =
    let rest = is_elasticsearch_operator_available api_list in
    if has_prefix r.group_version "logging.openshift.io"
    then has_kind "Elasticsearch" r.resources || rest
    else rest
