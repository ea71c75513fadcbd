-- ===== src/Autodetect/Found.antt =====
-- What one round finds of the operators and of the rights (pkg/autodetect/main.go).
use jaeger_operator.Base.{
  String, ◌≡◌, refl, ap, ◌∙◌, Bool, true, false, not, ◌||◌, Bool-cases, inl, inr, some, List, [],
  ◌∷◌,
}
use jaeger_operator.Base.{if◌then◌else◌, arith}
use jaeger_operator.Autodetect.{
  Config, Answers, IngressClass, ResourceList, available_apis, get_es_integration,
}
use jaeger_operator.Autodetect.{get_kafka_integration, get_auth_delegator, on_openshift}
use jaeger_operator.Autodetect.{is_elasticsearch_operator_available, is_kafka_operator_available}
use jaeger_operator.Autodetect.{delegator_yes, delegator_no, Integration, AuthDelegatorAvailability}
use jaeger_operator.Autodetect.{set_es_integration}
use jaeger_operator.Autodetect.{set_kafka_integration, set_auth_delegator}
use jaeger_operator.Autodetect.Flags.{get_es_integration-set_es_integration}
use jaeger_operator.Autodetect.Flags.{get_kafka_integration-set_kafka_integration}
use jaeger_operator.Autodetect.Flags.{get_auth_delegator-set_auth_delegator}
use jaeger_operator.Autodetect.Detect.{
  detect_platform, detect_cronjobs_version, detect_autoscaling_version,
}
use jaeger_operator.Autodetect.Detect.{detect_default_ingress_class, default_class}
use jaeger_operator.Autodetect.Detect.{Background, detect_elasticsearch, detect_kafka, auto_detect}
use jaeger_operator.Autodetect.Detect.{detect_cluster_roles, integration_if, first_run}
use jaeger_operator.Autodetect.Detect.{same_integration, same_availability, is_unknown}
use jaeger_operator.Autodetect.Detect.{detect_oauth_proxy_image_stream}
use jaeger_operator.Autodetect.Rounds.{auto_detect_read, every_round}

same_integration_eq : (x y : Integration) → same_integration x y ≡ true → x ≡ y
same_integration_eq x y e = ground arith

same_availability_eq : (x y : AuthDelegatorAvailability) → same_availability x y ≡ true → x ≡ y
same_availability_eq x y e = ground arith

-- A test whether the flag has the value already, and the value written if not.
es_written :
    (same : Bool) (e : Integration) (c : Config)
    → (same ≡ true → get_es_integration c ≡ e)
    → get_es_integration (if same then c else set_es_integration e c) ≡ e
es_written true e c h = h refl
es_written false e c h = get_es_integration-set_es_integration e c

kafka_written :
    (same : Bool) (e : Integration) (c : Config)
    → (same ≡ true → get_kafka_integration c ≡ e)
    → get_kafka_integration (if same then c else set_kafka_integration e c) ≡ e
kafka_written true e c h = h refl
kafka_written false e c h = get_kafka_integration-set_kafka_integration e c

delegator_written :
    (write : Bool) (e : AuthDelegatorAvailability) (c : Config)
    → (write ≡ false → get_auth_delegator c ≡ e)
    → get_auth_delegator (if write then set_auth_delegator e c else c) ≡ e
delegator_written true e c h = get_auth_delegator-set_auth_delegator e c
delegator_written false e c h = h refl

get_es_integration-detect_elasticsearch :
    (l : List ResourceList) (c : Config)
    → get_es_integration (detect_elasticsearch l c)
      ≡ integration_if (is_elasticsearch_operator_available l)
unfolding detect_elasticsearch
get_es_integration-detect_elasticsearch l c =
    let e = integration_if (is_elasticsearch_operator_available l) in
    es_written (same_integration (get_es_integration c) e) e c
      (same_integration_eq (get_es_integration c) e)

get_kafka_integration-detect_kafka :
    (b : Background) (l : List ResourceList) (c : Config)
    → b.retry_detect_kafka ≡ true
    → get_kafka_integration (detect_kafka b l c) ≡ integration_if (is_kafka_operator_available l)
unfolding detect_kafka
get_kafka_integration-detect_kafka b l c retry =
    let e = integration_if (is_kafka_operator_available l) in
    rw retry (
      kafka_written (same_integration (get_kafka_integration c) e) e c
        (same_integration_eq (get_kafka_integration c) e))

availability_known :
    (x y : AuthDelegatorAvailability)
    → (not (same_availability x y) || is_unknown x) ≡ false
    → x ≡ y
availability_known x y e = ground arith

get_auth_delegator-detect_cluster_roles :
    (a : Answers) (c : Config)
    → on_openshift c ≡ true
    → get_auth_delegator (detect_cluster_roles a c)
      ≡ (if a.review_created then delegator_yes else delegator_no)
unfolding detect_cluster_roles
get_auth_delegator-detect_cluster_roles a c e =
    let found = if a.review_created then delegator_yes else delegator_no in
    let current = get_auth_delegator c in
    rw e (
      delegator_written (not (same_availability current found) || is_unknown current) found c
        (availability_known current found))

detect_kafka_es :
    (b : Background) (l : List ResourceList) (c : Config)
    → (detect_kafka b l c).es_provision ≡ c.es_provision
unfolding detect_kafka
detect_kafka_es b l c = ground arith

detect_cluster_roles_es :
    (a : Answers) (c : Config) → (detect_cluster_roles a c).es_provision ≡ c.es_provision
unfolding detect_cluster_roles
detect_cluster_roles_es a c = ground arith

detect_cluster_roles_kafka :
    (a : Answers) (c : Config) → (detect_cluster_roles a c).kafka_provision ≡ c.kafka_provision
unfolding detect_cluster_roles
detect_cluster_roles_kafka a c = ground arith

es_of :
    (c c' : Config)
    → c.es_provision ≡ c'.es_provision
    → get_es_integration c ≡ get_es_integration c'
unfolding get_es_integration
es_of c c' e = rw e refl

kafka_of :
    (c c' : Config)
    → c.kafka_provision ≡ c'.kafka_provision
    → get_kafka_integration c ≡ get_kafka_integration c'
unfolding get_kafka_integration
kafka_of c c' e = rw e refl

every_round_es :
    (digest : String → String) (a : Answers) (l : List ResourceList) (b : Background) (c : Config)
    → get_es_integration (every_round digest a l b c)
      ≡ integration_if (is_elasticsearch_operator_available l)
every_round_es digest a l b c =
    let c2 = detect_elasticsearch l (detect_oauth_proxy_image_stream digest a c) in
    let c3 = detect_kafka b l c2 in
    es_of (detect_cluster_roles a c3) c2 (detect_cluster_roles_es a c3 ∙ detect_kafka_es b l c2)
    ∙ get_es_integration-detect_elasticsearch l (detect_oauth_proxy_image_stream digest a c)

platform_kafka :
    (l : List ResourceList) (c : Config) → (detect_platform l c).kafka_provision ≡ c.kafka_provision
unfolding detect_platform
platform_kafka l c = ground arith

cronjobs_kafka :
    (a : Answers) (c : Config) → (detect_cronjobs_version a c).kafka_provision ≡ c.kafka_provision
unfolding detect_cronjobs_version
cronjobs_kafka a c = ground arith

autoscaling_kafka :
    (a : Answers) (c : Config)
    → (detect_autoscaling_version a c).kafka_provision ≡ c.kafka_provision
unfolding detect_autoscaling_version
autoscaling_kafka a c = ground arith

stream_kafka :
    (digest : String → String) (a : Answers) (c : Config)
    → (detect_oauth_proxy_image_stream digest a c).kafka_provision ≡ c.kafka_provision
unfolding detect_oauth_proxy_image_stream
stream_kafka digest a c = ground arith

elasticsearch_kafka :
    (l : List ResourceList) (c : Config)
    → (detect_elasticsearch l c).kafka_provision ≡ c.kafka_provision
unfolding detect_elasticsearch
elasticsearch_kafka l c = ground arith

class_kafka :
    (ingress_classes : List IngressClass) (c : Config)
    → (default_class ingress_classes c).kafka_provision ≡ c.kafka_provision
unfolding default_class
class_kafka [] c = refl
class_kafka (ic ∷ ingress_classes) c = let rest = class_kafka ingress_classes c in ground arith

ingress_class_kafka :
    (a : Answers) (c : Config)
    → (detect_default_ingress_class a c).kafka_provision ≡ c.kafka_provision
unfolding detect_default_ingress_class
ingress_class_kafka a c = let found = class_kafka a.ingress_classes c in ground arith

first_run_kafka :
    (a : Answers) (l : List ResourceList) (c : Config)
    → (first_run a l c).kafka_provision ≡ c.kafka_provision
unfolding first_run
first_run_kafka a l c =
    let c1 = detect_platform l c in
    let c2 = detect_cronjobs_version a c1 in
    ingress_class_kafka a (detect_autoscaling_version a c2)
    ∙ autoscaling_kafka a c2
    ∙ cronjobs_kafka a c1
    ∙ platform_kafka l c

started_kafka :
    (started : Bool) (a : Answers) (l : List ResourceList) (c : Config)
    → (if started then c else first_run a l c).kafka_provision ≡ c.kafka_provision
started_kafka true a l c = refl
started_kafka false a l c = first_run_kafka a l c

detect_kafka_explicit :
    (b : Background) (l : List ResourceList) (c : Config)
    → b.retry_detect_kafka ≡ false
    → get_kafka_integration (detect_kafka b l c) ≡ get_kafka_integration c
unfolding detect_kafka
detect_kafka_explicit b l c e = rw e refl

start_kafka :
    (digest : String → String) (a : Answers) (l : List ResourceList) (b : Background) (c : Config)
    → (detect_elasticsearch l (
        detect_oauth_proxy_image_stream digest a
          (if b.first_run_done then c else first_run a l c))).kafka_provision
      ≡ c.kafka_provision
start_kafka digest a l b c =
    let c1 = if b.first_run_done then c else first_run a l c in
    elasticsearch_kafka l (detect_oauth_proxy_image_stream digest a c1)
    ∙ stream_kafka digest a c1
    ∙ started_kafka b.first_run_done a l c

-- With retries the flag follows the cluster, and without them it stays.
detect_kafka_lem :
    (b : Background) (l : List ResourceList) (c : Config)
    → get_kafka_integration (detect_kafka b l c) ≡ (
        if b.retry_detect_kafka
        then integration_if (is_kafka_operator_available l)
        else get_kafka_integration c)
detect_kafka_lem b l c =
    elim (Bool-cases b.retry_detect_kafka)
      as (λ _. get_kafka_integration (detect_kafka b l c) ≡ (
        if b.retry_detect_kafka
        then integration_if (is_kafka_operator_available l)
        else get_kafka_integration c)) [
          | inl retry ↦ get_kafka_integration-detect_kafka b l c retry ∙ rw retry refl
          | inr explicit ↦ detect_kafka_explicit b l c explicit ∙ rw explicit refl
        ]

every_round_kafka :
    (digest : String → String) (a : Answers) (l : List ResourceList) (b : Background) (c : Config)
    → get_kafka_integration
        (every_round digest a l b (if b.first_run_done then c else first_run a l c))
      ≡ (if b.retry_detect_kafka
          then integration_if (is_kafka_operator_available l)
          else get_kafka_integration c)
every_round_kafka digest a l b c =
    let c1 = if b.first_run_done then c else first_run a l c in
    let c2 = detect_elasticsearch l (detect_oauth_proxy_image_stream digest a c1) in
    let c3 = detect_kafka b l c2 in
    kafka_of (detect_cluster_roles a c3) c3 (detect_cluster_roles_kafka a c3)
    ∙ detect_kafka_lem b l c2
    ∙ ap (λ k. if b.retry_detect_kafka then integration_if (is_kafka_operator_available l) else k)
        (kafka_of c2 c (start_kafka digest a l b c))

-- A round that reads the groups ends with the integration of Elasticsearch that matches whether its
-- operator is there, whatever the flag was set to before and whether or not it was set explicitly.
-- The integration of Kafka matches its operator if the flag was left to be detected, and is otherwise
-- what it was.
pub auto_detect_found :
    (digest : String → String) (a : Answers) (b : Background) (c : Config) (l : List ResourceList)
    → available_apis a ≡ some l
    → (get_es_integration (auto_detect digest a (b, c)).1
        ≡ integration_if (is_elasticsearch_operator_available l))
      × (get_kafka_integration (auto_detect digest a (b, c)).1 ≡ (
          if b.retry_detect_kafka
          then integration_if (is_kafka_operator_available l)
          else get_kafka_integration c))
auto_detect_found digest a b c l read =
    let c1 = if b.first_run_done then c else first_run a l c in
    (
      ap (λ s. get_es_integration s.1) (auto_detect_read digest a b c l read)
          ∙ every_round_es digest a l b c1,
      ap (λ s. get_kafka_integration s.1) (auto_detect_read digest a b c l read)
          ∙ every_round_kafka digest a l b c,
    )
