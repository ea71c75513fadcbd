-- ===== src/Strategy/Ui/Whole.antt =====
-- The whole of normalize (pkg/strategy/controller.go), with the settings of the interface.
use jaeger_operator.Base.{◌≡◌}
use jaeger_operator.Kube.{Kube}
use jaeger_operator.Jaeger.{FreeForm, Jaeger, JaegerSpec}

module _ {K : Kube} where
  abbrev pub with_ui : FreeForm → Jaeger K → Jaeger K
  with_ui f j = record j { spec = record (j.spec) { ui = f } }

  -- The specification with other settings of the interface
  abbrev OnlyUi : JaegerSpec K → JaegerSpec K → Type 0
  OnlyUi spec spec' = (f : FreeForm) × (spec' ≡ record spec { ui = f })
