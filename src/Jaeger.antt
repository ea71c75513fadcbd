-- ===== src/Jaeger.antt =====
-- The custom resource of a Jaeger instance (apis/v1/jaeger_types.go), as far as normalization and
-- upgrades read or write it, and ShouldInjectOpenShiftElasticsearchConfiguration
-- (apis/v1/jaeger_webhook.go). A pointer is an Option; `none` is nil.
use jaeger_operator.Base.{ℕ, String, Bool, false, Option, not, is_some, ◌==◌, nat_eq}
use jaeger_operator.Base.{if◌then◌else◌}
use jaeger_operator.Base.Dict.{GoMap, get}
use jaeger_operator.Kube.{Kube}
use jaeger_operator.Util.Merge.{JaegerCommonSpec, Resources}
use jaeger_operator.Options.{Options}

-- Go's signed integers; `negsuc n` is -(n + 1).
pub data ℤ : Type 0 where
  pos : ℕ → ℤ
  negsuc : ℕ → ℤ

abbrev pub is_number : ℕ → ℤ → Bool
is_number n (pos m) = nat_eq m n
is_number n (negsuc m) = false

-- JaegerAllInOneSpec, JaegerQuerySpec, JaegerCollectorSpec, JaegerIngesterSpec and JaegerAgentSpec
pub record Part (K : Kube) : Type 0 where
  pub image : String
  pub options : Options
  pub common : JaegerCommonSpec K

pub record IndexCleaner : Type 0 where
  pub enabled : Option Bool
  pub number_of_days : Option ℤ
  pub schedule : String

pub record Dependencies : Type 0 where
  pub enabled : Option Bool
  pub schedule : String

pub record Rollover : Type 0 where
  pub schedule : String
  pub read_ttl : String

pub record ElasticsearchSpec (K : Kube) : Type 0 where
  pub name : String
  pub node_count : ℤ
  pub redundancy_policy : String
  pub resources : Option (Resources K)
  pub use_cert_management : Option Bool
  pub do_not_provision : Bool

pub record StorageSpec (K : Kube) : Type 0 where
  pub storage_type : String
  pub options : Options
  pub dependencies : Dependencies
  pub es_index_cleaner : IndexCleaner
  pub es_rollover : Rollover
  pub elasticsearch : ElasticsearchSpec K

pub record OpenShiftSpec : Type 0 where
  pub sar : Option String
  pub delegate_urls : String
  pub skip_logout : Option Bool

pub record IngressSpec : Type 0 where
  pub enabled : Option Bool
  pub security : String
  pub openshift : OpenShiftSpec
  pub options : Options

-- FreeForm of apis/v1/freeform.go: raw JSON
pub record FreeForm : Type 0 where
  pub json : Option String

pub record JaegerSpec (K : Kube) : Type 0 where
  pub strategy : String
  pub all_in_one : Part K
  pub query : Part K
  pub collector : Part K
  pub ingester : Part K
  pub agent : Part K
  pub sidecar_security_context : Option K.SecurityContext
  pub ui : FreeForm
  pub storage : StorageSpec K
  pub ingress : IngressSpec
  pub common : JaegerCommonSpec K

pub record JaegerStatus : Type 0 where
  pub version : String
  pub phase : String

pub record Jaeger (K : Kube) : Type 0 where
  pub name : String
  pub namespace : String
  pub labels : GoMap String
  pub deletion_timestamp : Option String
  pub spec : JaegerSpec K
  pub status : JaegerStatus

module _ {K : Kube} where
  -- ShouldInjectOpenShiftElasticsearchConfiguration
  unfoldable pub should_inject_openshift_elasticsearch : StorageSpec K → Bool
  should_inject_openshift_elasticsearch s =
      if s.storage_type == "elasticsearch"
      then not (is_some (get "es.server-urls" s.options.opts))
      else false
