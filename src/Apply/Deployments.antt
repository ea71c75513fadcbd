-- ===== src/Apply/Deployments.antt =====
-- applyDeployments (pkg/controller/jaeger/deployment.go).
use jaeger_operator.Base.{ℕ, String, ◌≡◌, ◌≢◌, true, Option, some, List, is_some, arith}
use jaeger_operator.Base.Dict.{RangeOrder, lookup}
use jaeger_operator.Inventory.Deployment.{Deployment, deployment_key, deployment_map}
use jaeger_operator.Inventory.Deployment.{
  merged_deployment, for_deployments, for_deployments-IsPlan,
}
use jaeger_operator.Apply.{Client, Reply, ok}
use jaeger_operator.Apply.Calls.{IsApi}
use jaeger_operator.Apply.Kinds.{DeploymentStatus, is_stable, apply_deployments}
use jaeger_operator.Apply.Correct.{target, get-apply_waiting, apply_waiting-keeps}
use jaeger_operator.Apply.Correct.{apply_waiting_unstable}

module _ {Selector CRest Rest : Type 0} (c : Client (Deployment Selector CRest Rest))
    (status : c.Status → DeploymentStatus) (o : RangeOrder)
    (admit : Deployment Selector CRest Rest → Deployment Selector CRest Rest)
    (get : c.State → String → Option (Deployment Selector CRest Rest))
    (api : IsApi c deployment_key admit get) (polls : ℕ)
    (desired : List (Deployment Selector CRest Rest)) (s s' : c.State) where
  -- With an API as it is documented (IsApi): after a run of applyDeployments that succeeded the
  -- instance has exactly the desired deployments: the others are gone, new ones are as desired, and those that were there are updated.
  pub get-apply_deployments :
      (k : String)
      → apply_deployments c status o polls desired s ≡ some (ok, s')
      → get s' k ≡ target merged_deployment admit (lookup k (deployment_map desired)) (get s k)
  unfolding apply_deployments deployment_map
  get-apply_deployments k e =
      get-apply_waiting c deployment_key merged_deployment admit get api (for_deployments o)
        (for_deployments-IsPlan o) (λ x. is_stable (status x)) polls desired s s' e k

  -- With an API as it is documented, and as long as no one else removes deployments during the run, as
  -- IsApi says: however a run of applyDeployments ends, a desired deployment that was there is there.
  pub apply_deployments-keeps :
      (k : String) (reply : Reply c.Fault)
      → apply_deployments c status o polls desired s ≡ some (reply, s')
      → is_some (lookup k (deployment_map desired)) ≡ true
      → is_some (get s k) ≡ true
      → is_some (get s' k) ≡ true
  unfolding apply_deployments deployment_map
  apply_deployments-keeps k reply e wanted there =
      apply_waiting-keeps c deployment_key merged_deployment admit get api (for_deployments o)
        (for_deployments-IsPlan o) (λ x. is_stable (status x)) polls desired s s' reply k e wanted
        there

  -- With an API as it is documented: as long as no deployment has as many ready replicas as replicas, and there is a desired one, a
  -- run deletes none, not the obsolete ones either.
  pub apply_deployments_unstable :
      (j k : String) (reply : Reply c.Fault)
      → ((x : c.Status) → (status x).ready_replicas ≢ (status x).replicas)
      → is_some (lookup j (deployment_map desired)) ≡ true
      → apply_deployments c status o polls desired s ≡ some (reply, s')
      → is_some (get s k) ≡ true
      → is_some (get s' k) ≡ true
  unfolding apply_deployments deployment_map
  apply_deployments_unstable j k reply unready wanted e there =
      apply_waiting_unstable c deployment_key merged_deployment admit get api (for_deployments o)
        (for_deployments-IsPlan o) (λ x. is_stable (status x)) polls desired s s' reply k j
        (λ x. ground (arith, unready x)) wanted e there
