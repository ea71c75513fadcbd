-- ===== src/Inventory/Deployment/Updates.antt =====
-- What an update of a deployment keeps and what it takes over.
use jaeger_operator.Base.{String, ◌≡◌, ◌≢◌, refl, ◌∙◌, some, List, [], ◌∷◌, map}
use jaeger_operator.Base.{true, done}
use jaeger_operator.Base.{
  arith, has_prefix, has_prefix_shorter, if◌then◌else◌, ◌==◌, ap, Bool-cases, inl, inr,
}
use jaeger_operator.Util.Args.{replace_argument}
use jaeger_operator.Base.Dict.{RangeOrder, lookup, named, or_else}
use jaeger_operator.Meta.Laws.{IsMeta, MetaUpdated, merged_meta-MetaUpdated}
use jaeger_operator.Util.Args.Laws.{
  find_item-has_prefix, find_item-replace_argument, replace_argument_found,
}
use jaeger_operator.Inventory.{Inventory}
use jaeger_operator.Inventory.Deployment.{Container, DeploymentSpec, Deployment, cookie_arg}
use jaeger_operator.Inventory.Deployment.{
  restore_cookie, propagate_oauth_cookie_secret, with_replicas,
}
use jaeger_operator.Inventory.Deployment.{updated_spec, deployment_key, deployment_map}
use jaeger_operator.Inventory.Deployment.{
  for_deployments, merged_deployment, for_deployments-IsPlan,
}

-- The arguments of a container that are not its cookie secret
unfoldable pub without_cookie : List String → List String
without_cookie [] = []
without_cookie (arg ∷ args) =
    if has_prefix arg "--cookie-secret" then without_cookie args else arg ∷ without_cookie args

without_cookie-replace_argument :
    (s : String) (args : List String)
    → has_prefix s "--cookie-secret" ≡ true
    → without_cookie (replace_argument "--cookie-secret" s args).0 ≡ without_cookie args
unfolding without_cookie replace_argument
without_cookie-replace_argument s [] p = refl
without_cookie-replace_argument s (arg ∷ args) p =
    ground (arith, without_cookie-replace_argument s args p, p)

module _ {CRest : Type 0} where
  cookie_arg-has_prefix :
      (cs : List (Container CRest))
      → cookie_arg cs ≢ ""
      → has_prefix (cookie_arg cs) "--cookie-secret=" ≡ true
  unfolding cookie_arg
  cookie_arg-has_prefix [] h = absurd (h refl)
  cookie_arg-has_prefix (c ∷ cs) h =
      ground (arith, find_item-has_prefix "--cookie-secret=" c.args, cookie_arg-has_prefix cs)

  cookie_arg-restore_cookie :
      (s : String) (cs : List (Container CRest))
      → has_prefix s "--cookie-secret=" ≡ true
      → cookie_arg cs ≢ ""
      → cookie_arg (restore_cookie s cs) ≡ s
  unfolding cookie_arg restore_cookie
  cookie_arg-restore_cookie s [] p h = absurd (h refl)
  cookie_arg-restore_cookie s (c ∷ cs) p h = ground (
    arith,
    find_item-replace_argument "--cookie-secret" "=" s c.args p,
    replace_argument_found "--cookie-secret" "=" s c.args,
    cookie_arg-restore_cookie s cs p,
  )

  names-restore_cookie :
      (s : String) (cs : List (Container CRest))
      → map (λ (c : Container CRest). c.name) (restore_cookie s cs)
        ≡ map (λ (c : Container CRest). c.name) cs
  unfolding restore_cookie
  names-restore_cookie s [] = refl
  names-restore_cookie s (c ∷ cs) = ground (arith, names-restore_cookie s cs)

  rests-restore_cookie :
      (s : String) (cs : List (Container CRest))
      → map (λ (c : Container CRest). c.rest) (restore_cookie s cs)
        ≡ map (λ (c : Container CRest). c.rest) cs
  unfolding restore_cookie
  rests-restore_cookie s [] = refl
  rests-restore_cookie s (c ∷ cs) = ground (arith, rests-restore_cookie s cs)

  abbrev pub plain : Container CRest → Container CRest
  plain c = if c.name == "oauth-proxy" then record c { args = without_cookie c.args } else c

  plain-with_args :
      (s : String) (c : Container CRest)
      → has_prefix s "--cookie-secret" ≡ true
      → plain (
          if c.name == "oauth-proxy"
          then record c { args = (replace_argument "--cookie-secret" s c.args).0 }
          else c)
        ≡ plain c
  plain-with_args s c p = ground (arith, without_cookie-replace_argument s c.args p)

  plain-restore_cookie :
      (s : String) (cs : List (Container CRest))
      → has_prefix s "--cookie-secret" ≡ true
      → map plain (restore_cookie s cs) ≡ map plain cs
  unfolding restore_cookie
  plain-restore_cookie s [] p = refl
  plain-restore_cookie s (c ∷ cs) p =
      ap (λ d. d ∷ map plain (restore_cookie s cs)) (plain-with_args s c p)
      ∙ ap (λ l. plain c ∷ l) (plain-restore_cookie s cs p)

module _ {Selector CRest Rest : Type 0} where
  pub record SpecUpdated (t v m : DeploymentSpec Selector CRest Rest) : Type 0 where
    pub selector : m.selector ≡ t.selector
    pub replicas : m.replicas ≡ or_else v.replicas t.replicas
    pub rest : m.rest ≡ v.rest
    pub names : map (λ c. c.name) m.containers ≡ map (λ c. c.name) v.containers
    pub rests : map (λ c. c.rest) m.containers ≡ map (λ c. c.rest) v.containers
    -- Only arguments of oauth-proxy containers that begin with --cookie-secret may differ.
    pub others : map plain m.containers ≡ map plain v.containers
    pub cookie_kept :
        cookie_arg t.containers ≢ ""
        → cookie_arg v.containers ≢ ""
        → cookie_arg m.containers ≡ cookie_arg t.containers
    pub cookie_new : cookie_arg t.containers ≡ "" → m.containers ≡ v.containers

  plain_updated :
      (t v : DeploymentSpec Selector CRest Rest)
      → map plain (updated_spec t v).containers ≡ map plain v.containers
  unfolding propagate_oauth_cookie_secret with_replicas
  plain_updated t v = elim (Bool-cases (cookie_arg t.containers == "")) [
    | inl absent ↦ ground (arith, absent)
    | inr present ↦ ground (
      arith,
      plain-restore_cookie (cookie_arg t.containers) v.containers (
          has_prefix_shorter (cookie_arg t.containers) "--cookie-secret" "="
            (cookie_arg-has_prefix t.containers (λ e. ground arith))),
    )
  ]

  updated_spec-SpecUpdated :
      (t v : DeploymentSpec Selector CRest Rest) → SpecUpdated t v (updated_spec t v)
  unfolding propagate_oauth_cookie_secret with_replicas
  updated_spec-SpecUpdated t v = record {
    selector = refl;
    replicas = ground arith;
    rest = ground arith;
    names = ground (arith, names-restore_cookie (cookie_arg t.containers) v.containers);
    rests = ground (arith, rests-restore_cookie (cookie_arg t.containers) v.containers);
    others = plain_updated t v;
    cookie_kept = λ p q. ground (
      arith,
      cookie_arg-restore_cookie (cookie_arg t.containers) v.containers
          (cookie_arg-has_prefix t.containers p) q,
    );
    cookie_new = λ p. ground arith;
  }

  -- A deployment that exists and is desired is updated. Its selector stays, its replicas stay unless
  -- a number is desired, its oauth-proxy keeps the generated cookie secret if there is one, and all
  -- else of the spec is as desired: the rest, and all of every container but the arguments of an
  -- oauth-proxy that begin with --cookie-secret. Labels and annotations of others stay.
  pub for_deployments-updated :
      (o : RangeOrder) (existing desired : List (Deployment Selector CRest Rest)) (k : String)
      (t v : Deployment Selector CRest Rest)
      → lookup k (deployment_map existing) ≡ some t
      → lookup k (deployment_map desired) ≡ some v
      → IsMeta v.meta
      → (inv : Inventory (Deployment Selector CRest Rest)) × (m : Deployment Selector CRest Rest)
        × (for_deployments o existing desired ≡ done inv)
        × (lookup k (named deployment_key inv.update) ≡ some m)
        × MetaUpdated t.meta v.meta m.meta
        × SpecUpdated t.spec v.spec m.spec
  unfolding merged_deployment
  for_deployments-updated o existing desired k t v et ev h =
      let (inv, runs, plan) = for_deployments-IsPlan o existing desired in
      (
        inv,
        merged_deployment t v,
        runs,
        plan.update k ∙ rw (et, ev),
        merged_meta-MetaUpdated t.meta v.meta h,
        updated_spec-SpecUpdated t.spec v.spec,
      )
