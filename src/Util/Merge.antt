-- ===== src/Util/Merge.antt =====
-- Merge and MergeResources (pkg/util/util.go): the common settings of several parts of a Jaeger spec,
-- the most specific part first.
pub mod Laws
use jaeger_operator.Base.{String, ◌≡◌, refl, Bool, Option, none, some, List, [], ◌∷◌, ◌++◌}
use jaeger_operator.Base.{◌==◌, if◌then◌else◌, is_some, arith}
use jaeger_operator.Base.Dict.{Dict, GoMap, entries, get, insert, lookup}
use jaeger_operator.Kube.{Kube, Volume, VolumeMount, LocalObjectReference}
use jaeger_operator.Util.Dedup.{remove_duplicated_volumes, remove_duplicated_volume_mounts}
use jaeger_operator.Util.Dedup.{remove_duplicated_image_pull_secrets}

-- corev1.ResourceRequirements
pub record Resources (K : Kube) : Type 0 where
  pub limits : GoMap K.Quantity
  pub requests : GoMap K.Quantity

-- JaegerCommonSpec of apis/v1/jaeger_types.go
pub record JaegerCommonSpec (K : Kube) : Type 0 where
  pub volumes : List (Volume K)
  pub volume_mounts : List (VolumeMount K)
  pub annotations : GoMap String
  pub labels : GoMap String
  pub resources : Resources K
  pub affinity : Option K.Affinity
  pub tolerations : List K.Toleration
  pub security_context : Option K.PodSecurityContext
  pub container_security_context : Option K.SecurityContext
  pub service_account : String
  pub liveness_probe : Option K.Probe
  pub image_pull_secrets : List LocalObjectReference
  pub image_pull_policy : String

module _ {V : Type 0} where
  -- for k, v := range from { if _, ok := into[k]; !ok { into[k] = v } }
  unfoldable pub add_missing : Dict V → Dict V → Dict V
  add_missing [] into = into
  add_missing ((k, v) ∷ from) into =
      add_missing from (if is_some (lookup k into) then into else insert k v into)

  -- The same over a list of resources, which is made when the first entry is added.
  unfoldable pub add_resources : Dict V → GoMap V → GoMap V
  add_resources [] into = into
  add_resources ((k, v) ∷ from) into =
      add_resources from (if is_some (get k into) then into else some (insert k v (entries into)))

abbrev first_set {ℓ} : {A : Type ℓ} → Option A → Option A → Option A
first_set none b = b
first_set (some a) b = some a

abbrev first_text : String → String → String
first_text a b = if a == "" then b else a

module _ {K : Kube} where
  unfoldable pub merge_resources : Resources K → Resources K → Resources K
  merge_resources resources res = record {
    limits = add_resources (entries res.limits) resources.limits;
    requests = add_resources (entries res.requests) resources.requests;
  }

  -- The local variables of Merge before the loop. The probe is not among them: the result has none.
  abbrev pub no_settings : JaegerCommonSpec K
  no_settings = record {
    volumes = [];
    volume_mounts = [];
    annotations = some [];
    labels = some [];
    resources = record { limits = none; requests = none };
    affinity = none;
    tolerations = [];
    security_context = none;
    container_security_context = none;
    service_account = "";
    liveness_probe = none;
    image_pull_secrets = [];
    image_pull_policy = "";
  }

  -- One round of the loop.
  unfoldable pub merge_one : JaegerCommonSpec K → JaegerCommonSpec K → JaegerCommonSpec K
  unfolding merge_resources
  merge_one acc spec = record {
    volumes = acc.volumes ++ spec.volumes;
    volume_mounts = acc.volume_mounts ++ spec.volume_mounts;
    annotations = some (add_missing (entries spec.annotations) (entries acc.annotations));
    labels = some (add_missing (entries spec.labels) (entries acc.labels));
    resources = merge_resources acc.resources spec.resources;
    affinity = first_set acc.affinity spec.affinity;
    tolerations = acc.tolerations ++ spec.tolerations;
    security_context = first_set acc.security_context spec.security_context;
    container_security_context =
        first_set acc.container_security_context spec.container_security_context;
    service_account = first_text acc.service_account spec.service_account;
    liveness_probe = none;
    image_pull_secrets = acc.image_pull_secrets ++ spec.image_pull_secrets;
    image_pull_policy = first_text acc.image_pull_policy spec.image_pull_policy;
  }

  unfoldable pub merge_all : JaegerCommonSpec K → List (JaegerCommonSpec K) → JaegerCommonSpec K
  unfolding merge_one
  merge_all acc [] = acc
  merge_all acc (spec ∷ specs) = merge_all (merge_one acc spec) specs

  unfoldable pub merge : List (JaegerCommonSpec K) → JaegerCommonSpec K
  unfolding merge_all remove_duplicated_volumes remove_duplicated_volume_mounts
      remove_duplicated_image_pull_secrets
  merge common_specs =
      let m = merge_all no_settings common_specs in
      record m {
        volumes = remove_duplicated_volumes m.volumes;
        volume_mounts = remove_duplicated_volume_mounts m.volume_mounts;
        image_pull_secrets = remove_duplicated_image_pull_secrets m.image_pull_secrets;
      }
