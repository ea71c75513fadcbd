-- ===== src/Upgrade/Steps.antt =====
-- The upgrade of an instance to each version (pkg/upgrade/v1_15_0.go to v1_28_0.go).
use jaeger_operator.Base.{none, some, [], ◌∷◌}
use jaeger_operator.Base.{Run, done, ◌>>=◌}
use jaeger_operator.Kube.{Kube}
use jaeger_operator.Options.{Options}
use jaeger_operator.Jaeger.{Jaeger}
use jaeger_operator.Upgrade.Migrate.{flag, with_options}
use jaeger_operator.Upgrade.Migrate.{migrate_deprecated_options, migrate_all_deprecated_options}
use jaeger_operator.Upgrade.Changes.{
  flags1_15_0, flags1_17_0, migrate_kafka_tls, migrate_collector_options, migrate_agent_options,
  flags1_20_0, update_cassandra_verify_host_flag, migrate_query_host_port_flags,
}

module _ {K : Kube} where
  unfoldable pub upgrade1_15_0 : Jaeger K → Jaeger K
  unfolding migrate_all_deprecated_options
  upgrade1_15_0 jaeger = migrate_all_deprecated_options jaeger flags1_15_0

  unfoldable pub upgrade1_17_0 : Jaeger K → Jaeger K
  unfolding migrate_all_deprecated_options migrate_kafka_tls
  upgrade1_17_0 jaeger =
      let j = migrate_all_deprecated_options jaeger flags1_17_0 in
      record j {
        spec = record (j.spec) {
          collector = with_options migrate_kafka_tls j.spec.collector;
          ingester = with_options migrate_kafka_tls j.spec.ingester;
          storage = record (j.spec.storage) { options = migrate_kafka_tls j.spec.storage.options };
        };
      }

  unfoldable pub upgrade1_18_0 : Jaeger K → Jaeger K
  unfolding migrate_collector_options migrate_agent_options
  upgrade1_18_0 j = record j {
    spec = record (j.spec) {
      collector = with_options migrate_collector_options j.spec.collector;
      agent = with_options migrate_agent_options j.spec.agent;
    };
  }

  unfoldable pub upgrade1_20_0 : Jaeger K → Jaeger K
  unfolding migrate_all_deprecated_options
  upgrade1_20_0 jaeger = migrate_all_deprecated_options jaeger flags1_20_0

  -- upgrade1_22_0 up to the migration of the query's ports
  abbrev renamed1_22_0 : Jaeger K → Jaeger K
  renamed1_22_0 j =
      let collector =
        λ (o : Options). migrate_deprecated_options o (flag "jaeger.tags" "collector.tags" ∷ []) in
      let agent =
        λ (o : Options). migrate_deprecated_options o (flag "jaeger.tags" "agent.tags" ∷ []) in
      let query = λ (o : Options).
        migrate_deprecated_options o
          (flag "downsampling.hashsalt" "" ∷ flag "downsampling.ratio" "" ∷ []) in
      record j {
        spec = record (j.spec) {
          all_in_one = with_options collector j.spec.all_in_one;
          collector = with_options collector j.spec.collector;
          agent = with_options agent j.spec.agent;
          query = with_options query j.spec.query;
        };
      }

  -- migrateCassandraVerifyFlagv1_22_0
  unfoldable pub migrate_cassandra_verify_flag : Jaeger K → Run (Jaeger K)
  unfolding update_cassandra_verify_host_flag
  migrate_cassandra_verify_flag j =
      update_cassandra_verify_host_flag j.spec.collector.options >>= λ collector.
      update_cassandra_verify_host_flag j.spec.storage.options >>= λ storage.
      update_cassandra_verify_host_flag j.spec.ingress.options >>= λ ingress. done (record j {
        spec = record (j.spec) {
          collector = record (j.spec.collector) { options = collector };
          storage = record (j.spec.storage) { options = storage };
          ingress = record (j.spec.ingress) { options = ingress };
        };
      })

  unfoldable pub upgrade1_22_0 : Jaeger K → Run (Jaeger K)
  unfolding migrate_query_host_port_flags migrate_cassandra_verify_flag
  upgrade1_22_0 jaeger =
      let j = renamed1_22_0 jaeger in
      migrate_query_host_port_flags j.spec.query.options >>= λ query.
      migrate_cassandra_verify_flag
        (record j { spec = record (j.spec) { query = record (j.spec.query) { options = query } } })

  unfoldable pub upgrade1_28_0 : Jaeger K → Jaeger K
  upgrade1_28_0 j = elim j.spec.ingress.openshift.sar [
    | some sar ↦ j
    | none ↦ record j {
      spec = record (j.spec) {
        ingress = record (j.spec.ingress) {
          openshift = record (j.spec.ingress.openshift) { sar = some " " };
        };
      };
    }
  ]
