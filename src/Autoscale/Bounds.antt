-- ===== src/Autoscale/Bounds.antt =====
-- The bounds of an autoscaler (pkg/deployment/autoscale.go).
use jaeger_operator.Base.{ℕ, String, ◌≡◌, ◌≢◌, some}
use jaeger_operator.Base.{[], ◌∷◌}
use jaeger_operator.Base.Dict.{get, or_else}
use jaeger_operator.Kube.{Kube}
use jaeger_operator.Jaeger.{ℤ, pos, negsuc}
use jaeger_operator.Autoscale.{Component, HorizontalPodAutoscaler, max_replicas}

abbrev pub IsNatural : ℤ → Type 0
IsNatural (pos n) = Unit
IsNatural (negsuc n) = ⊥

module _ {K : Kube} where
  -- An autoscaler of a component's own deployment, with a largest number of replicas
  pub record Scales (c : Component K) (a : HorizontalPodAutoscaler) : Type 0 where
    pub bound : IsNatural a.max_replicas
    pub bound_kept :
        (n : ℕ) → c.autoscaling_spec.max_replicas ≡ some (pos n) → a.max_replicas ≡ pos n
    pub bound_default :
        ((n : ℕ) → c.autoscaling_spec.max_replicas ≢ some (pos n)) → a.max_replicas ≡ pos 100
    pub namespace : a.meta.namespace ≡ c.instance_of.namespace
    pub owner : a.meta.owner_references ≡ c.owner ∷ []
    pub target_kind : a.target_kind ≡ "Deployment"
    pub own_label :
        (k : String)
        → get k a.meta.labels
          ≡ or_else
              (get k c.common_spec.labels)
              (or_else (get k c.instance_of.spec.common.labels) (get k c.hpa_labels))
    pub own_name : a.meta.name ≡ c.name
    pub target : a.target_name ≡ c.name
    pub lowest : a.min_replicas ≡ c.autoscaling_spec.min_replicas
