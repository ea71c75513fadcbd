-- ===== src/Names.antt =====
-- Names of the objects that belong to an instance (pkg/service/collector.go, query.go and agent.go,
-- pkg/config/ui/ui.go, pkg/config/sampling/sampling.go, pkg/route/query.go, pkg/config/ca/ca.go) and
-- their labels (Labels of pkg/util/util.go).
pub mod Bounds
use Prim.Native.String.{len}
use jaeger_operator.Base.{ℕ, ◌-◌, String, ◌<>◌, List, [], ◌∷◌, if◌then◌else◌, ltb, Run, done, ◌>>=◌}
use jaeger_operator.Base.Dict.{Dict}
use jaeger_operator.Jaeger.{pos}
use jaeger_operator.Util.Text.{literal, verb, truncate, dns_name}

-- util.DNSName(util.Truncate("%s" + suffix, 63, jaeger.Name))
unfoldable pub suffixed : String → String → Run String
suffixed suffix name =
    truncate (verb ∷ literal suffix ∷ []) (pos 63) (name ∷ []) >>= λ n. done (dns_name n)

-- GetNameForCollectorService and its neighbours, for the name of an instance
abbrev pub collector_service : String → Run String
collector_service name = suffixed "-collector" name

abbrev pub headless_collector_service : String → Run String
headless_collector_service name = suffixed "-collector-headless" name

abbrev pub query_service : String → Run String
query_service name = suffixed "-query" name

abbrev pub query_tls_secret : String → Run String
query_tls_secret name = suffixed "-ui-oauth-proxy-tls" name

abbrev pub agent_service : String → Run String
agent_service name = suffixed "-agent" name

abbrev pub ui_configuration_volume : String → Run String
ui_configuration_volume name = suffixed "-ui-configuration-volume" name

abbrev pub sampling_configuration_volume : String → Run String
sampling_configuration_volume name = suffixed "-sampling-configuration-volume" name

-- The name of the route in (*QueryRoute).Get, for a namespace and the name of an instance
unfoldable pub query_route : String → String → Run String
query_route namespace name =
    (if ltb (len namespace) 63
      then truncate (literal name ∷ []) (pos (62 - len namespace)) []
      else done name)
    >>= λ n. done (dns_name n)

-- util.Truncate(text, 63), for a text without a percent sign: the value of a label
abbrev pub label_value : String → Run String
label_value text = truncate (literal text ∷ []) (pos 63) []

-- Labels, for a component and the name of an instance
unfoldable pub labels : String → String → String → Run (Dict String)
labels name component instance_name = label_value name >>= λ n. label_value instance_name >>= λ i.
    label_value component >>= λ c. done (
      ("app", "jaeger")
      ∷ ("app.kubernetes.io/name", n)
      ∷ ("app.kubernetes.io/instance", i)
      ∷ ("app.kubernetes.io/component", c)
      ∷ ("app.kubernetes.io/part-of", "jaeger")
      ∷ ("app.kubernetes.io/managed-by", "jaeger-operator")
      ∷ [])

-- TrustedCANameFromString and ServiceCANameFromString
abbrev pub trusted_ca_name : String → String
trusted_ca_name name = name <> "-trusted-ca"

abbrev pub service_ca_name : String → String
service_ca_name name = name <> "-service-ca"
