-- ===== src/Strategy.antt =====
-- The normalization of a custom resource (pkg/strategy/controller.go), up to the settings of the user
-- interface, which Strategy.Ui adds.
pub mod Normal
pub mod Explicit
pub mod Ui
pub mod Choice
use jaeger_operator.Base.{
  String, ◌<>◌, Bool, true, false, ◌&&◌, ◌||◌, not, Option, none, some, List, [], ◌∷◌,
}
use jaeger_operator.Base.{◌==◌, if◌then◌else◌, is_some, equal_fold}
use jaeger_operator.Base.Dict.{Dict, GoMap, erase, lookup}
use jaeger_operator.Kube.{Kube}
use jaeger_operator.Util.Merge.{JaegerCommonSpec}
use jaeger_operator.Options.{string_map}
use jaeger_operator.Jaeger.{ℤ, pos, is_number, Part, IndexCleaner, Dependencies, Rollover, Jaeger}
use jaeger_operator.Jaeger.{ElasticsearchSpec, StorageSpec, OpenShiftSpec, IngressSpec, JaegerSpec}
use jaeger_operator.Jaeger.{should_inject_openshift_elasticsearch}

-- What the normalization reads besides the custom resource: the platform, and constants of other
-- libraries.
pub record Env (K : Kube) : Type 0 where
  pub openshift : Bool
  pub zero_redundancy : String
  pub single_redundancy : String
  pub default_es_memory : K.Quantity
  pub default_es_cpu_request : K.Quantity

-- ValidStorageTypes
abbrev pub valid_storage_types : List String
valid_storage_types =
    "memory" ∷ "cassandra" ∷ "elasticsearch" ∷ "kafka" ∷ "badger" ∷ "grpc-plugin" ∷ []

-- The loop of unknownStorage
unfoldable pub unknown_among : List String → String → Bool
unknown_among [] typ = true
unknown_among (k ∷ ks) typ = if typ == k then false else unknown_among ks typ

unfoldable pub unknown_storage : String → Bool
unfolding unknown_among
unknown_storage typ = unknown_among valid_storage_types typ

unfoldable pub distributed_storage : String → Bool
distributed_storage storage = not (storage == "memory") && not (storage == "badger")

-- SupportedStorage of pkg/cronjob/spark_dependencies.go
unfoldable pub supported_storage : String → Bool
supported_storage storage = storage == "elasticsearch" || storage == "cassandra"

abbrev pub or_text : String → String → String
or_text text default_text = if text == "" then default_text else text

-- A value of a map of texts, "" if there is none
abbrev pub text_at : String → Dict String → String
text_at k d = elim (lookup k d) [ none ↦ "" | some s ↦ s ]

unfoldable pub normalize_index_cleaner : IndexCleaner → String → IndexCleaner
normalize_index_cleaner spec storage = record {
  enabled =
      if storage == "elasticsearch" && not (is_some spec.enabled) then some true else spec.enabled;
  schedule = or_text spec.schedule "55 23 * * *";
  number_of_days = elim spec.number_of_days [ none ↦ some (pos 7) | some n ↦ some n ];
}

unfoldable pub normalize_rollover : Rollover → Rollover
normalize_rollover spec = record spec { schedule = or_text spec.schedule "0 0 * * *" }

abbrev pub delete_reserved : GoMap String → GoMap String
delete_reserved none = none
delete_reserved (some d) =
    some (erase "app.kubernetes.io/managed-by" (erase "app.kubernetes.io/instance" d))

-- The deployment strategy, after the storage type
abbrev pub normal_strategy : String → String → String
normal_strategy storage strategy =
    let known =
      if strategy == "production" || strategy == "streaming" then strategy else "allinone" in
    if distributed_storage storage then known else "allinone"

module _ {K : Kube} where
  unfoldable pub normalize_spark_dependencies : StorageSpec K → StorageSpec K
  unfolding supported_storage should_inject_openshift_elasticsearch
  normalize_spark_dependencies spec =
      let s_flags_map = string_map spec.options in
      let tls_is_not_enabled =
        not (equal_fold (text_at "es.tls" s_flags_map) "true")
        && (not (equal_fold (text_at "es.tls.skip-host-verify" s_flags_map) "true")
            && equal_fold (text_at "es.tls.ca" s_flags_map) "") in
      record spec {
        dependencies = record {
          enabled =
              if supported_storage spec.storage_type
                && (not (is_some spec.dependencies.enabled)
                    && (not (should_inject_openshift_elasticsearch spec) && tls_is_not_enabled))
              then some true
              else spec.dependencies.enabled;
          schedule = or_text spec.dependencies.schedule "55 23 * * *";
        };
      }

  -- The loop over the labels, for one of the three maps
  abbrev pub without_reserved : JaegerCommonSpec K → JaegerCommonSpec K
  without_reserved c = record c { labels = delete_reserved c.labels }

  module _ (env : Env K) where
    unfoldable pub normalize_elasticsearch : ElasticsearchSpec K → ElasticsearchSpec K
    normalize_elasticsearch spec =
        let node_count = if is_number 0 spec.node_count then pos 3 else spec.node_count in
        record spec {
          node_count = node_count;
          redundancy_policy =
              if spec.redundancy_policy == ""
              then (if is_number 1 node_count then env.zero_redundancy else env.single_redundancy)
              else spec.redundancy_policy;
          resources = elim spec.resources [
            | some r ↦ some r
            | none ↦ some (record {
              limits = some (("memory", env.default_es_memory) ∷ []);
              requests =
                  some
                    (("memory", env.default_es_memory) ∷ ("cpu", env.default_es_cpu_request) ∷ []);
            })
          ];
        }

    abbrev pub normal_security : String → String
    normal_security security =
        if env.openshift && not (security == "none") then "oauth-proxy" else "none"

    abbrev default_sar : String → String
    default_sar namespace =
        "{\"namespace\": \"" <> (namespace <> "\", \"resource\": \"pods\", \"verb\": \"get\"}")

    -- The ingress, with the namespace of the instance
    unfoldable pub normalize_ingress : String → IngressSpec → IngressSpec
    normalize_ingress namespace spec =
        let security = normal_security spec.security in
        record spec {
          security = security;
          openshift = record (spec.openshift) {
            sar = elim spec.openshift.sar [
              | some sar ↦ some sar
              | none ↦
                  if env.openshift && security == "oauth-proxy"
                  then some (default_sar namespace)
                  else none
            ];
          };
        }

    -- The storage, from its type on
    unfoldable pub normalize_storage : StorageSpec K → StorageSpec K
    unfolding unknown_storage normalize_spark_dependencies normalize_index_cleaner
        normalize_elasticsearch normalize_rollover
    normalize_storage spec =
        let given = or_text spec.storage_type "memory" in
        let storage_type = if unknown_storage given then "memory" else given in
        let s = normalize_spark_dependencies (record spec { storage_type = storage_type }) in
        let es = normalize_elasticsearch s.elasticsearch in
        record s {
          es_index_cleaner = normalize_index_cleaner s.es_index_cleaner storage_type;
          elasticsearch = record es { name = or_text es.name "elasticsearch" };
          es_rollover = normalize_rollover s.es_rollover;
        }

    -- normalize without normalizeUI, which rewrites the settings of the UI (spec.UI) and nothing else:
    -- normalize_jaeger of Strategy.Ui is the whole of it
    unfoldable pub normalize : Jaeger K → Jaeger K
    unfolding normalize_ingress normalize_storage distributed_storage
    normalize jaeger =
        let storage = normalize_storage jaeger.spec.storage in
        record jaeger {
          name = or_text jaeger.name "my-jaeger";
          spec = record (jaeger.spec) {
            storage = storage;
            common = without_reserved jaeger.spec.common;
            all_in_one = record (jaeger.spec.all_in_one) {
              common = without_reserved jaeger.spec.all_in_one.common;
            };
            query = record (jaeger.spec.query) {
              common = without_reserved jaeger.spec.query.common;
            };
            strategy = normal_strategy storage.storage_type jaeger.spec.strategy;
            ingress = normalize_ingress jaeger.namespace jaeger.spec.ingress;
          };
        }
