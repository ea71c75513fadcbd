-- ===== src/Strategy/Choice.antt =====
-- The choice of the strategy (pkg/strategy/controller.go: For).
use jaeger_operator.Base.{String, ◌==◌, if◌then◌else◌, Run, done, ◌>>=◌}
use jaeger_operator.Kube.{Kube}
use jaeger_operator.Jaeger.{Jaeger}
use jaeger_operator.Strategy.{Env}
use jaeger_operator.Strategy.Ui.{UiEnv, normalize_jaeger}

-- The strategies that For chooses from
pub data Strategy : Type 0 where
  all_in_one : Strategy
  streaming : Strategy
  production : Strategy

abbrev chosen : String → Strategy
chosen strategy =
    if strategy == "allinone"
    then all_in_one
    else if strategy == "streaming"
    then streaming
    else production

module _ {K : Kube} (env : Env K) (ui : UiEnv) where
  abbrev renamed_strategy : Jaeger K → Jaeger K
  renamed_strategy jaeger =
      if jaeger.spec.strategy == "all-in-one"
      then record jaeger { spec = record (jaeger.spec) { strategy = "allinone" } }
      else jaeger

  -- For, with the normalized instance that it works on
  unfoldable pub strategy_for : Jaeger K → Run (Jaeger K × Strategy)
  unfolding normalize_jaeger
  strategy_for jaeger =
      normalize_jaeger env ui (renamed_strategy jaeger) >>= λ j. done (j, chosen j.spec.strategy)
