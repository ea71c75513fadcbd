-- ===== src/Autoscale.antt =====
-- The pod autoscaler of a component (pkg/deployment/autoscale.go, AutoScaleSpec of
-- apis/v1/jaeger_types.go). The kinds of the two versions have the same fields here.
pub mod Bounds
use jaeger_operator.Base.{ℕ, String, Bool, true, false, ◌||◌, not, Option, none, some, is_some}
use jaeger_operator.Base.{List, [], ◌∷◌, ◌==◌, if◌then◌else◌}
use jaeger_operator.Base.Dict.{GoMap}
use jaeger_operator.Kube.{Kube}
use jaeger_operator.Meta.{ObjectMeta, OwnerReference}
use jaeger_operator.Util.Merge.{JaegerCommonSpec, no_settings, merge}
use jaeger_operator.Jaeger.{ℤ, pos, negsuc, Jaeger}

pub record AutoScaleSpec : Type 0 where
  pub autoscale : Option Bool
  pub min_replicas : Option ℤ
  pub max_replicas : Option ℤ

-- component: what its methods return, and the owner reference of the instance
pub record Component (K : Kube) : Type 0 where
  pub name : String
  pub hpa_labels : GoMap String
  pub replicas : Option ℤ
  pub common_spec : JaegerCommonSpec K
  pub autoscaling_spec : AutoScaleSpec
  pub instance_of : Jaeger K
  pub owner : OwnerReference

-- The two kinds of autoscalers
pub data Kind : Type 0 where
  autoscaling_v2 autoscaling_v2beta2 : Kind

-- A metric that is a share of the use of a resource
pub record Metric : Type 0 where
  pub resource : String
  pub average_utilization : ℕ

pub record HorizontalPodAutoscaler : Type 0 where
  pub kind : Kind
  pub api_version : String
  pub meta : ObjectMeta
  pub target_kind : String
  pub target_name : String
  pub min_replicas : Option ℤ
  pub max_replicas : ℤ
  pub metrics : List Metric

-- The largest number of replicas: 100 if it is unset or negative
unfoldable pub max_replicas : Option ℤ → ℤ
max_replicas none = pos 100
max_replicas (some (pos n)) = pos n
max_replicas (some (negsuc n)) = pos 100

abbrev pub is_disabled : Option Bool → Bool
is_disabled none = false
is_disabled (some autoscale) = not autoscale

module _ {K : Kube} where
  -- The one autoscaler, for the version of the API in the operator's flags
  unfoldable pub autoscaler : String → Component K → HorizontalPodAutoscaler
  unfolding max_replicas
  autoscaler autoscaling_version c =
      let base_common_spec : JaegerCommonSpec K = record no_settings {
        annotations = none;
        labels = c.hpa_labels;
      } in
      let common_spec = merge (c.common_spec ∷ c.instance_of.spec.common ∷ base_common_spec ∷ []) in
      record {
        kind =
            if autoscaling_version == "autoscaling/v2beta2"
            then autoscaling_v2beta2
            else autoscaling_v2;
        api_version = autoscaling_version;
        meta = record {
          name = c.name;
          namespace = c.instance_of.namespace;
          labels = common_spec.labels;
          annotations = common_spec.annotations;
          owner_references = c.owner ∷ [];
        };
        target_kind = "Deployment";
        target_name = c.name;
        min_replicas = c.autoscaling_spec.min_replicas;
        max_replicas = max_replicas c.autoscaling_spec.max_replicas;
        metrics =
            record { resource = "cpu"; average_utilization = 90 }
            ∷ record { resource = "memory"; average_utilization = 90 }
            ∷ [];
      }

  -- autoscalers
  unfoldable pub autoscalers : String → Component K → List HorizontalPodAutoscaler
  unfolding autoscaler
  autoscalers autoscaling_version c =
      if is_some c.replicas
      then []
      else if is_disabled c.autoscaling_spec.autoscale
      then []
      else autoscaler autoscaling_version c ∷ []
