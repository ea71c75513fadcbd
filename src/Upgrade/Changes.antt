-- ===== src/Upgrade/Changes.antt =====
-- The changes to options that the upgrades make (pkg/upgrade/v1_15_0.go and its siblings, utils.go).
use jaeger_operator.Base.{
  String, ◌<>◌, Bool, true, false, ◌||◌, not, Option, none, some, List, [], ◌∷◌, map,
}
use jaeger_operator.Base.{◌==◌, if◌then◌else◌, is_some, Run, done, panic, ◌>>=◌}
use jaeger_operator.Base.Dict.{Dict, lookup, insert, erase}
use jaeger_operator.Options.{Options, Setting, one, many, generic_map, printed}
use jaeger_operator.Upgrade.Migrate.{DeprecationFlagMap, flag, renew}
use jaeger_operator.Upgrade.Migrate.{migrate_deprecated_options}

-- The flags of upgrade1_15_0
abbrev pub flags1_15_0 : List DeprecationFlagMap
flags1_15_0 =
    flag "collector.grpc.tls.client.ca" "collector.grpc.tls.client-ca"
    ∷ flag "collector.host-port" "reporter.tchannel.host-port"
    ∷ flag "discovery.conn-check-timeout" "reporter.tchannel.discovery.conn-check-timeout"
    ∷ flag "discovery.min-peers" "reporter.tchannel.discovery.min-peers"
    ∷ flag "health-check-http-port" "admin-http-port"
    ∷ flag "cassandra-archive.enable-dependencies-v2" ""
    ∷ flag "cassandra.enable-dependencies-v2" ""
    ∷ []

-- The flags of upgrade1_17_0, from its prefixes
abbrev pub flags1_17_0 : List DeprecationFlagMap
flags1_17_0 =
    map (λ item. flag (item <> ".tls") (item <> ".tls.enabled"))
      ("collector.grpc" ∷ "reporter.grpc" ∷ "es" ∷ "es-archive" ∷ "cassandra" ∷ "cassandra-archive"
        ∷ "kafka.consumer" ∷ "kafka.producer" ∷ [])

-- optsMap[key] == text
abbrev pub is_text : String → String → Dict Setting → Bool
is_text key t opts_map = elim (lookup key opts_map) [
  | none ↦ false
  | some v ↦ elim v [ one s ↦ s == t | many l ↦ false ]
]

-- One if statement of upgrade1_17_0MigrateKafkaTLS
abbrev pub enable_tls : String → String → Dict Setting → Dict Setting
enable_tls authentication enabled opts_map =
    if is_text authentication "tls" opts_map then insert enabled (one "true") opts_map else opts_map

-- upgrade1_17_0MigrateKafkaTLS, and the assignment of its result if it changed something
unfoldable pub migrate_kafka_tls : Options → Options
unfolding renew generic_map
migrate_kafka_tls opts =
    let opts_map = generic_map opts in
    let after_consumer =
      enable_tls "kafka.consumer.authentication" "kafka.consumer.tls.enabled" opts_map in
    let after_producer =
      enable_tls "kafka.producer.authentication" "kafka.producer.tls.enabled" after_consumer in
    if is_text "kafka.consumer.authentication" "tls" opts_map
      || is_text "kafka.producer.authentication" "tls" after_consumer
    then renew after_producer
    else opts

-- The flags of migrateCollectorOptions
abbrev pub flags1_18_0 : List DeprecationFlagMap
flags1_18_0 =
    flag "collector.port" "collector.tchan-server.host-port"
    ∷ flag "collector.http-port" "collector.http-server.host-port"
    ∷ flag "collector.grpc-port" "collector.grpc-server.host-port"
    ∷ flag "collector.zipkin.http-port" "collector.zipkin.host-port"
    ∷ flag "admin-http-port" "admin.http.host-port"
    ∷ []

-- The flags of migrateAgentOptions
abbrev pub agent_flags1_18_0 : List DeprecationFlagMap
agent_flags1_18_0 =
    flag "collector.host-port" ""
    ∷ flag "reporter.tchannel.discovery.conn-check-timeout" ""
    ∷ flag "reporter.tchannel.discovery.min-peers" ""
    ∷ flag "reporter.tchannel.host-port" ""
    ∷ flag "reporter.tchannel.report-timeout" ""
    ∷ []

-- A value as %s prints it
abbrev pub as_printed : Setting → String
as_printed (one s) = s
as_printed (many l) = printed l

-- The loop of transformCollectorPorts
unfoldable pub transform_ports : List DeprecationFlagMap → Dict Setting → Dict Setting
transform_ports [] m = m
transform_ports (d ∷ flag_map) m =
    transform_ports flag_map
      (elim (lookup d.to m) [ none ↦ m | some val ↦ insert d.to (one (":" <> as_printed val)) m ])

-- transformCollectorPorts
unfoldable pub transform_collector_ports : Options → List DeprecationFlagMap → Options
unfolding renew generic_map transform_ports
transform_collector_ports opts collector_new_flags_map =
    renew (transform_ports collector_new_flags_map (generic_map opts))

-- migrateCollectorOptions
unfoldable pub migrate_collector_options : Options → Options
unfolding migrate_deprecated_options transform_collector_ports
migrate_collector_options opts =
    transform_collector_ports (migrate_deprecated_options opts flags1_18_0) flags1_18_0

-- migrateAgentOptions
unfoldable pub migrate_agent_options : Options → Options
unfolding migrate_deprecated_options renew generic_map
migrate_agent_options opts = renew (generic_map (migrate_deprecated_options opts agent_flags1_18_0))

abbrev pub flags1_20_0 : List DeprecationFlagMap
flags1_20_0 =
    flag "es.max-num-spans" "es.max-doc-count"
    ∷ flag "es-archive.max-num-spans" "es-archive.max-doc-count"
    ∷ []

-- strconv.ParseBool
abbrev pub parse_bool : String → Option Bool
parse_bool s =
    if s == "1" || (s == "t" || (s == "T" || (s == "TRUE" || (s == "true" || s == "True"))))
    then some true
    else if s == "0" || (s == "f" || (s == "F" || (s == "FALSE" || (s == "false" || s == "False"))))
    then some false
    else none

-- flagBoolValue: a value that is no text is asserted to be a Boolean
unfoldable pub flag_bool_value : Setting → Run Bool
flag_bool_value (one str_value) = elim (parse_bool str_value) [
  | none ↦ done false
  | some b ↦ done b
]
flag_bool_value (many l) = panic

abbrev pub skip_verify : Dict Setting → Bool → Dict Setting
skip_verify m verify =
    if not verify then insert "cassandra.tls.skip-host-verify" (one "true") m else m

-- updateCassandraVerifyHostFlagv1_22_0
unfoldable pub update_cassandra_verify_host_flag : Options → Run Options
unfolding renew generic_map flag_bool_value
update_cassandra_verify_host_flag options =
    let m = generic_map options in
    elim (lookup "cassandra.tls.verify-host" m) [
      | none ↦ done (renew m)
      | some v ↦ flag_bool_value v >>= λ verify.
          done (renew (skip_verify (erase "cassandra.tls.verify-host" m) verify))
    ]

-- port.(string)
abbrev pub as_string : Setting → Run String
as_string (one s) = done s
as_string (many l) = panic

-- newValue of migrateQueryHostPortFlagsv1_22_0
abbrev pub new_host_port : Option Setting → Option Setting → Run String
new_host_port (some port) host_port = as_string port >>= λ p. done (":" <> p)
new_host_port none (some host_port) = as_string host_port
new_host_port none none = done ""

abbrev pub add_flag : String → String → Dict Setting → Dict Setting
add_flag k v m = if is_some (lookup k m) then m else insert k (one v) m

abbrev pub add_host_ports : String → Dict Setting → Dict Setting
add_host_ports new_value m =
    if new_value == ""
    then m
    else add_flag "query.http-server.host-port" new_value
        (add_flag "query.grpc-server.host-port" new_value m)

-- migrateQueryHostPortFlagsv1_22_0
unfoldable pub migrate_query_host_port_flags : Options → Run Options
unfolding renew generic_map
migrate_query_host_port_flags options =
    let m = generic_map options in
    new_host_port (lookup "query.port" m) (lookup "query.host-port" m) >>= λ new_value.
    done (renew (erase "query.host-port" (erase "query.port" (add_host_ports new_value m))))
