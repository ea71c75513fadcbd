-- ===== src/Strategy/Explicit.antt =====
-- What the user sets is kept by the normalization (pkg/strategy/controller.go).
use jaeger_operator.Base.{String, ◌≡◌, ◌≢◌, refl, true, false, none, some, ◌⊎◌}
use jaeger_operator.Base.{is_some, arith}
use jaeger_operator.Base.Dict.{GoMap, get, erase, lookup-erase}
use jaeger_operator.Kube.{Kube}
use jaeger_operator.Util.Merge.{JaegerCommonSpec}
use jaeger_operator.Jaeger.{is_number, Jaeger}
use jaeger_operator.Strategy.{Env, unknown_storage, distributed_storage}
use jaeger_operator.Strategy.{delete_reserved}
use jaeger_operator.Strategy.{normalize}

get-delete_reserved :
    (k : String) (labels : GoMap String)
    → k ≢ "app.kubernetes.io/instance"
    → k ≢ "app.kubernetes.io/managed-by"
    → get k (delete_reserved labels) ≡ get k labels
get-delete_reserved k none p q = refl
get-delete_reserved k (some d) p q = ground (
  arith,
  lookup-erase k "app.kubernetes.io/managed-by" (erase "app.kubernetes.io/instance" d),
  lookup-erase k "app.kubernetes.io/instance" d,
)

module _ {K : Kube} (env : Env K) where
  -- All labels but the two that are reserved for the operator
  pub record LabelsKept (c c' : JaegerCommonSpec K) : Type 0 where
    pub label :
        (k : String)
        → k ≢ "app.kubernetes.io/instance"
        → k ≢ "app.kubernetes.io/managed-by"
        → get k c'.labels ≡ get k c.labels

  -- The settings of an instance, before and after.
  pub record Kept (j j' : Jaeger K) : Type 0 where
    pub name : j.name ≢ "" → j'.name ≡ j.name
    pub storage_type :
        j.spec.storage.storage_type ≢ ""
        → unknown_storage j.spec.storage.storage_type ≡ false
        → j'.spec.storage.storage_type ≡ j.spec.storage.storage_type
    pub strategy :
        (j.spec.strategy ≡ "production") ⊎ (j.spec.strategy ≡ "streaming")
        → distributed_storage j'.spec.storage.storage_type ≡ true
        → j'.spec.strategy ≡ j.spec.strategy
    pub no_security : j.spec.ingress.security ≡ "none" → j'.spec.ingress.security ≡ "none"
    pub sar :
        is_some j.spec.ingress.openshift.sar ≡ true
        → j'.spec.ingress.openshift.sar ≡ j.spec.ingress.openshift.sar
    pub labels : LabelsKept j.spec.common j'.spec.common
    pub all_in_one_labels : LabelsKept j.spec.all_in_one.common j'.spec.all_in_one.common
    pub query_labels : LabelsKept j.spec.query.common j'.spec.query.common
    pub dependencies :
        is_some j.spec.storage.dependencies.enabled ≡ true
        → j'.spec.storage.dependencies.enabled ≡ j.spec.storage.dependencies.enabled
    pub index_cleaner :
        is_some j.spec.storage.es_index_cleaner.enabled ≡ true
        → j'.spec.storage.es_index_cleaner.enabled ≡ j.spec.storage.es_index_cleaner.enabled
    pub number_of_days :
        is_some j.spec.storage.es_index_cleaner.number_of_days ≡ true
        → j'.spec.storage.es_index_cleaner.number_of_days
          ≡ j.spec.storage.es_index_cleaner.number_of_days
    pub dependencies_schedule :
        j.spec.storage.dependencies.schedule ≢ ""
        → j'.spec.storage.dependencies.schedule ≡ j.spec.storage.dependencies.schedule
    pub index_cleaner_schedule :
        j.spec.storage.es_index_cleaner.schedule ≢ ""
        → j'.spec.storage.es_index_cleaner.schedule ≡ j.spec.storage.es_index_cleaner.schedule
    pub rollover_schedule :
        j.spec.storage.es_rollover.schedule ≢ ""
        → j'.spec.storage.es_rollover.schedule ≡ j.spec.storage.es_rollover.schedule
    pub read_ttl : j'.spec.storage.es_rollover.read_ttl ≡ j.spec.storage.es_rollover.read_ttl
    pub es_name :
        j.spec.storage.elasticsearch.name ≢ ""
        → j'.spec.storage.elasticsearch.name ≡ j.spec.storage.elasticsearch.name
    pub use_cert_management :
        j'.spec.storage.elasticsearch.use_cert_management
        ≡ j.spec.storage.elasticsearch.use_cert_management
    pub do_not_provision :
        j'.spec.storage.elasticsearch.do_not_provision
        ≡ j.spec.storage.elasticsearch.do_not_provision
    pub node_count :
        is_number 0 j.spec.storage.elasticsearch.node_count ≡ false
        → j'.spec.storage.elasticsearch.node_count ≡ j.spec.storage.elasticsearch.node_count
    pub redundancy_policy :
        j.spec.storage.elasticsearch.redundancy_policy ≢ ""
        → j'.spec.storage.elasticsearch.redundancy_policy
          ≡ j.spec.storage.elasticsearch.redundancy_policy
    pub resources :
        is_some j.spec.storage.elasticsearch.resources ≡ true
        → j'.spec.storage.elasticsearch.resources ≡ j.spec.storage.elasticsearch.resources
    pub storage_options : j'.spec.storage.options ≡ j.spec.storage.options
    pub namespace : j'.namespace ≡ j.namespace
    pub status : j'.status ≡ j.status

  -- The normalization, but for the settings of the UI, keeps what the user sets: a name, a known storage
  -- type, a distributed strategy for distributed storage, an ingress without security, a permission to
  -- check, all labels that are not reserved (the common ones, of all-in-one and of query), whether the
  -- dependencies and the index cleaner run, the three schedules, the days to keep, and the name, the
  -- number of nodes, the redundancy and the resources of the Elasticsearch cluster. It does not touch
  -- the options of the storage, the read time of the rollover, the management of certificates, whether
  -- the cluster is provisioned, the namespace and the status.
  pub normalize-Kept : (j : Jaeger K) → Kept j (normalize env j)
  unfolding normalize
  normalize-Kept j = record {
    name = λ p. ground arith;
    storage_type = λ p q. ground arith;
    strategy = λ p q. ground arith;
    no_security = λ p. ground arith;
    sar = λ p. ground arith;
    labels = record { label = λ k p q. get-delete_reserved k j.spec.common.labels p q };
    all_in_one_labels = record {
      label = λ k p q. get-delete_reserved k j.spec.all_in_one.common.labels p q;
    };
    query_labels = record { label = λ k p q. get-delete_reserved k j.spec.query.common.labels p q };
    dependencies = λ p. ground arith;
    index_cleaner = λ p. ground arith;
    number_of_days = λ p. ground arith;
    dependencies_schedule = λ p. ground arith;
    index_cleaner_schedule = λ p. ground arith;
    rollover_schedule = λ p. ground arith;
    read_ttl = refl;
    es_name = λ p. ground arith;
    use_cert_management = refl;
    do_not_provision = refl;
    node_count = λ p. ground arith;
    redundancy_policy = λ p. ground arith;
    resources = λ p. ground arith;
    storage_options = refl;
    namespace = refl;
    status = refl;
  }
