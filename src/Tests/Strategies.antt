-- ===== src/Tests/Strategies.antt =====
-- The normalization of a small instance (pkg/strategy/controller.go).
use jaeger_operator.Base.{String, ◌≡◌, ◌≢◌, refl, true}
use jaeger_operator.Kube.{text_kube}
use jaeger_operator.Tests.Sample.{instance_at}
use jaeger_operator.Strategy.{Env, normalize}
use jaeger_operator.Strategy.Choice.{Strategy, strategy_for, production}
use jaeger_operator.Strategy.Ui.{UiEnv, normalize_ui}
use jaeger_operator.Options.{Fields, text, list, obj, nil, cons, field, end}
use jaeger_operator.Base.{some, none, done, panic, Run}
use jaeger_operator.Jaeger.{Jaeger}
use jaeger_operator.Strategy.Normal.{IsNormal, normalize-IsNormal}
use jaeger_operator.Strategy.Explicit.{Kept, normalize-Kept}

abbrev on_openshift : Env text_kube
on_openshift = record {
  openshift = true;
  zero_redundancy = "ZeroRedundancy";
  single_redundancy = "SingleRedundancy";
  default_es_memory = "16Gi";
  default_es_cpu_request = "1";
}

zero_named : on_openshift.zero_redundancy ≢ ""
zero_named = λ e. cc

single_named : on_openshift.single_redundancy ≢ ""
single_named = λ e. cc

normalize-IsNormal_example : IsNormal on_openshift (normalize on_openshift (instance_at "1.31.0"))
normalize-IsNormal_example =
    normalize-IsNormal on_openshift (instance_at "1.31.0") zero_named single_named

normalize-Kept_example :
    Kept on_openshift (instance_at "1.31.0") (normalize on_openshift (instance_at "1.31.0"))
normalize-Kept_example = normalize-Kept on_openshift (instance_at "1.31.0")

-- A JSON library that reads one setting of the menu, and a link to a documentation
abbrev links : UiEnv
links = record {
  unmarshal = λ s. some (some (field "menu" (text s) end));
  marshal = λ fields. "marshalled";
  documentation_url = some "https://docs";
  sprint = λ v. "";
}

abbrev some_settings : Fields
some_settings = field "gaTrackingID" (text "UA-1") (field "menu" (list nil) end)

-- A menu that is a text is a panic.
menu_panics :
    normalize_ui links
      (record ((instance_at "1.31.0").spec) { ui = record { json = some "About" } })
    ≡ panic
unfolding normalize_ui jaeger_operator.Options.string_map jaeger_operator.Base.string_dec
    jaeger_operator.Base.Dict.lookup jaeger_operator.Base.equal_fold
menu_panics = refl

production_chosen :
    (x : Jaeger text_kube × Strategy) × (strategy_for on_openshift links (instance_at "1.31.0")
      ≡ done x)
    × (x.1 ≡ production)
unfolding strategy_for jaeger_operator.Options.string_map jaeger_operator.Base.string_dec
    jaeger_operator.Base.Dict.lookup jaeger_operator.Base.equal_fold jaeger_operator.Base.has_prefix
production_chosen = (_, refl, refl)

proxy_secured :
    (normalize on_openshift (instance_at "1.31.0")).spec.ingress.security ≡ "oauth-proxy"
unfolding normalize jaeger_operator.Base.string_dec
proxy_secured = refl
