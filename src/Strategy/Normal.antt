-- ===== src/Strategy/Normal.antt =====
-- What holds of every normalized instance (pkg/strategy/controller.go).
use jaeger_operator.Base.{
  String, ◌<>◌, ◌≡◌, ◌≢◌, refl, Bool, true, false, not, ◌&&◌, ◌||◌, Option, none, some, ◌⊎◌, inl,
  inr,
}
use jaeger_operator.Base.{◌==◌, if◌then◌else◌, is_some, arith, List, [], ◌∷◌}
use jaeger_operator.Base.Dict.{GoMap, get, erase, lookup, lookup-erase}
use jaeger_operator.Kube.{Kube}
use jaeger_operator.Jaeger.{is_number, Jaeger}
use jaeger_operator.Strategy.{Env, unknown_storage, distributed_storage}
use jaeger_operator.Strategy.{or_text, delete_reserved}
use jaeger_operator.Strategy.{normalize}

-- The labels that the operator sets itself are absent.
abbrev pub NotReserved : GoMap String → Type 0
NotReserved labels =
    (get "app.kubernetes.io/instance" labels ≡ none)
    × (get "app.kubernetes.io/managed-by" labels ≡ none)

delete_reserved-NotReserved : (labels : GoMap String) → NotReserved (delete_reserved labels)
unfolding lookup
delete_reserved-NotReserved none = (refl, refl)
delete_reserved-NotReserved (some d) = (
  ground (
    arith,
    lookup-erase "app.kubernetes.io/instance" "app.kubernetes.io/managed-by"
        (erase "app.kubernetes.io/instance" d),
    lookup-erase "app.kubernetes.io/instance" "app.kubernetes.io/instance" d,
  ),
  ground (
    arith,
    lookup-erase "app.kubernetes.io/managed-by" "app.kubernetes.io/managed-by"
        (erase "app.kubernetes.io/instance" d),
  ),
)

or_text_nonempty : (text default_text : String) → default_text ≢ "" → or_text text default_text ≢ ""
or_text_nonempty text default_text h e = ground arith

pub memory_known : unknown_storage "memory" ≡ false
unfolding unknown_storage jaeger_operator.Base.string_dec
memory_known = refl

module _ {K : Kube} (env : Env K) where
  pub record IsNormal (j : Jaeger K) : Type 0 where
    pub name : j.name ≢ ""
    pub storage_known : unknown_storage j.spec.storage.storage_type ≡ false
    pub strategy :
        (j.spec.strategy ≡ "allinone")
        ⊎ (j.spec.strategy ≡ "production")
        ⊎ (j.spec.strategy ≡ "streaming")
    pub local_storage :
        distributed_storage j.spec.storage.storage_type ≡ false → j.spec.strategy ≡ "allinone"
    pub security :
        (j.spec.ingress.security ≡ "none")
        ⊎ ((env.openshift ≡ true)
            × (j.spec.ingress.security ≡ "oauth-proxy")
            × (is_some j.spec.ingress.openshift.sar ≡ true))
    pub common_labels : NotReserved j.spec.common.labels
    pub all_in_one_labels : NotReserved j.spec.all_in_one.common.labels
    pub query_labels : NotReserved j.spec.query.common.labels
    pub dependencies_schedule : j.spec.storage.dependencies.schedule ≢ ""
    pub index_cleaner_schedule : j.spec.storage.es_index_cleaner.schedule ≢ ""
    pub rollover_schedule : j.spec.storage.es_rollover.schedule ≢ ""
    pub number_of_days : is_some j.spec.storage.es_index_cleaner.number_of_days ≡ true
    pub index_cleaner_enabled :
        j.spec.storage.storage_type ≡ "elasticsearch"
        → is_some j.spec.storage.es_index_cleaner.enabled ≡ true
    pub es_name : j.spec.storage.elasticsearch.name ≢ ""
    pub node_count : is_number 0 j.spec.storage.elasticsearch.node_count ≡ false
    pub redundancy_policy : j.spec.storage.elasticsearch.redundancy_policy ≢ ""
    pub resources : is_some j.spec.storage.elasticsearch.resources ≡ true

  -- Every normalized instance has a name, a known storage type and one of three strategies, which is
  -- allinone if the storage is local; its ingress is secured by the proxy, with a permission to
  -- check, only on OpenShift; it has no reserved labels; and the jobs and the Elasticsearch cluster
  -- have all that they need. The names of the redundancy policies must not be empty.
  pub normalize-IsNormal :
      (j : Jaeger K)
      → env.zero_redundancy ≢ ""
      → env.single_redundancy ≢ ""
      → IsNormal (normalize env j)
  unfolding normalize
  normalize-IsNormal j zero single = record {
    name = or_text_nonempty j.name "my-jaeger" (λ e. cc);
    storage_known = ground arith;
    strategy = ground arith;
    local_storage = λ e. ground arith;
    security = ground arith;
    common_labels = delete_reserved-NotReserved j.spec.common.labels;
    all_in_one_labels = delete_reserved-NotReserved j.spec.all_in_one.common.labels;
    query_labels = delete_reserved-NotReserved j.spec.query.common.labels;
    dependencies_schedule =
        or_text_nonempty j.spec.storage.dependencies.schedule "55 23 * * *" (λ e. cc);
    index_cleaner_schedule =
        or_text_nonempty j.spec.storage.es_index_cleaner.schedule "55 23 * * *" (λ e. cc);
    rollover_schedule = or_text_nonempty j.spec.storage.es_rollover.schedule "0 0 * * *" (λ e. cc);
    number_of_days = ground arith;
    index_cleaner_enabled = λ e. ground arith;
    es_name = or_text_nonempty j.spec.storage.elasticsearch.name "elasticsearch" (λ e. cc);
    node_count = ground arith;
    redundancy_policy = λ e. ground arith;
    resources = ground arith;
  }
