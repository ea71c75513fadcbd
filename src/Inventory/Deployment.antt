-- ===== src/Inventory/Deployment.antt =====
-- Deployments (pkg/inventory/deployment.go), by namespace and name, and PropagateOAuthCookieSecret
-- (pkg/inject/oauth_proxy.go). What is not read of a spec or a container is `rest`.
pub mod Updates
use jaeger_operator.Base.{ℕ, String, ◌≡◌, refl, Option, none, some, List, [], ◌∷◌, Run, done, ◌>>=◌}
use jaeger_operator.Base.{◌==◌, if◌then◌else◌, arith}
use jaeger_operator.Base.Dict.{Dict, RangeOrder}
use jaeger_operator.Meta.{ObjectMeta, object_key, update_meta}
use jaeger_operator.Meta.Laws.{merged_meta, update_meta_done, object_key-merged_meta}
use jaeger_operator.Util.Args.{find_item, replace_argument}
use jaeger_operator.Inventory.{Inventory, reconcile, to_map}
use jaeger_operator.Inventory.Contract.{IsPlan, reconcile-IsPlan}

pub record Container (Rest : Type 0) : Type 0 where
  pub name : String
  pub args : List String
  pub rest : Rest

pub record DeploymentSpec (Selector CRest Rest : Type 0) : Type 0 where
  pub replicas : Option ℕ
  pub selector : Selector
  pub containers : List (Container CRest)
  pub rest : Rest

pub record Deployment (Selector CRest Rest : Type 0) : Type 0 where
  pub meta : ObjectMeta
  pub spec : DeploymentSpec Selector CRest Rest

module _ {CRest : Type 0} where
  -- The first loop of PropagateOAuthCookieSecret: it stops at the first oauth-proxy.
  unfoldable pub cookie_arg : List (Container CRest) → String
  cookie_arg [] = ""
  cookie_arg (c ∷ cs) =
      if c.name == "oauth-proxy" then find_item "--cookie-secret=" c.args else cookie_arg cs

  -- Its second loop: every oauth-proxy is given the argument.
  unfoldable pub restore_cookie : String → List (Container CRest) → List (Container CRest)
  restore_cookie secret_arg [] = []
  restore_cookie secret_arg (c ∷ cs) =
      (if c.name == "oauth-proxy"
        then record c { args = (replace_argument "--cookie-secret" secret_arg c.args).0 }
        else c)
      ∷ restore_cookie secret_arg cs

module _ {Selector CRest Rest : Type 0} where
  -- PropagateOAuthCookieSecret
  unfoldable pub propagate_oauth_cookie_secret :
      DeploymentSpec Selector CRest Rest
      → DeploymentSpec Selector CRest Rest
      → DeploymentSpec Selector CRest Rest
  unfolding cookie_arg restore_cookie
  propagate_oauth_cookie_secret spec_src spec_dst =
      let secret_arg = cookie_arg spec_src.containers in
      if secret_arg == ""
      then spec_dst
      else record spec_dst { containers = restore_cookie secret_arg spec_dst.containers }

  -- The replicas that an autoscaler may have written, if none are desired.
  unfoldable pub with_replicas :
      DeploymentSpec Selector CRest Rest
      → DeploymentSpec Selector CRest Rest
      → DeploymentSpec Selector CRest Rest
  with_replicas tp v = elim tp.replicas [
    | none ↦ v
    | some n ↦ elim v.replicas [ none ↦ record v { replicas = some n } | some m ↦ v ]
  ]

  unfoldable pub deployment_key : Deployment Selector CRest Rest → String
  deployment_key d = object_key d.meta

  abbrev updated_spec :
      DeploymentSpec Selector CRest Rest
      → DeploymentSpec Selector CRest Rest
      → DeploymentSpec Selector CRest Rest
  updated_spec t v =
      let v' = with_replicas t v in
      record (propagate_oauth_cookie_secret t v') { selector = t.selector }

  -- The body of the loop: `t` is the existing object, `v` the desired one.
  unfoldable pub update_deployment :
      Deployment Selector CRest Rest
      → Deployment Selector CRest Rest
      → Run (Deployment Selector CRest Rest)
  unfolding with_replicas propagate_oauth_cookie_secret
  update_deployment t v = update_meta t.meta v.meta >>= λ meta.
      done (record t { meta = meta; spec = updated_spec t.spec v.spec })

  unfoldable pub deployment_map :
      List (Deployment Selector CRest Rest) → Dict (Deployment Selector CRest Rest)
  deployment_map = to_map deployment_key

  unfoldable pub for_deployments :
      RangeOrder
      → List (Deployment Selector CRest Rest)
      → List (Deployment Selector CRest Rest)
      → Run (Inventory (Deployment Selector CRest Rest))
  unfolding deployment_map
  for_deployments o existing desired =
      reconcile o update_deployment (deployment_map desired) (deployment_map existing)

  unfoldable pub merged_deployment :
      Deployment Selector CRest Rest
      → Deployment Selector CRest Rest
      → Deployment Selector CRest Rest
  merged_deployment t v = record {
    meta = merged_meta t.meta v.meta;
    spec = updated_spec t.spec v.spec;
  }

  update_deployment_done :
      (t v : Deployment Selector CRest Rest) → update_deployment t v ≡ done (merged_deployment t v)
  unfolding update_deployment merged_deployment
  update_deployment_done t v = rw update_meta_done

  deployment_key-merged_deployment :
      (t v : Deployment Selector CRest Rest)
      → deployment_key (merged_deployment t v) ≡ deployment_key t
  unfolding deployment_key merged_deployment
  deployment_key-merged_deployment t v = object_key-merged_meta t.meta v.meta

  -- A plan is always made. It creates the deployments that are desired and do not exist, updates
  -- those that are desired and exist, deletes the others, and lists none twice.
  pub for_deployments-IsPlan :
      (o : RangeOrder) (existing desired : List (Deployment Selector CRest Rest))
      → (inv : Inventory (Deployment Selector CRest Rest)) × (for_deployments o existing desired
          ≡ done inv)
        × IsPlan deployment_key merged_deployment
            (deployment_map desired)
            (deployment_map existing)
            inv
  unfolding for_deployments
  for_deployments-IsPlan o existing desired =
      reconcile-IsPlan deployment_key merged_deployment deployment_key-merged_deployment o
        update_deployment update_deployment_done desired existing
