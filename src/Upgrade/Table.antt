-- ===== src/Upgrade/Table.antt =====
-- The table of the upgrades, with the one that calls the cluster (pkg/upgrade/versions.go,
-- v1_31_0.go).
use jaeger_operator.Base.{String, Option, none, some, [], ◌∷◌}
use jaeger_operator.Base.{if◌then◌else◌, Run, done, ◌>>=◌}
use jaeger_operator.Base.Dict.{Dict}
use jaeger_operator.Kube.{Kube}
use jaeger_operator.Jaeger.{Jaeger}
use jaeger_operator.Jaeger.{should_inject_openshift_elasticsearch}
use jaeger_operator.Upgrade.Steps.{upgrade1_15_0, upgrade1_17_0, upgrade1_18_0, upgrade1_20_0}
use jaeger_operator.Upgrade.Steps.{upgrade1_22_0, upgrade1_28_0}

-- What the deletion of an Elasticsearch object answers.
pub data Deletion (Fault : Type 0) : Type 0 where
  deleted : Deletion Fault
  not_found : Deletion Fault
  refused : Fault → Deletion Fault

-- The call of the cluster's API that an upgrade makes: the deletion of the Elasticsearch object with a
-- namespace and a name.
pub record Cluster : Type 1 where
  pub State : Type 0
  pub Fault : Type 0
  pub delete_elasticsearch : String → String → State → Deletion Fault × State

-- client.IgnoreNotFound
abbrev ignore_not_found : {Fault : Type 0} → Deletion Fault → Option Fault
ignore_not_found deleted = none
ignore_not_found not_found = none
ignore_not_found (refused e) = some e

module _ (K : Kube) (c : Cluster) where
  open c use {State, Fault}

  -- An upgrade function of the table: the instance, an error if there is one, and the cluster.
  abbrev pub Upgrade : Type 0
  Upgrade = Jaeger K → State → Run (Jaeger K × Option Fault × State)

  unfoldable pub upgrade1_31_0 : Upgrade
  unfolding should_inject_openshift_elasticsearch
  upgrade1_31_0 jaeger s =
      if should_inject_openshift_elasticsearch jaeger.spec.storage
      then (let (reply, s') = c.delete_elasticsearch jaeger.namespace "elasticsearch" s in
          done (jaeger, ignore_not_found reply, s'))
      else done (jaeger, none, s)

  abbrev pub pure_upgrade : (Jaeger K → Jaeger K) → Upgrade
  pure_upgrade f j s = done (f j, none, s)

  -- upgrades
  abbrev pub upgrades : Dict Upgrade
  upgrades =
      ("1.15.0", pure_upgrade upgrade1_15_0)
      ∷ ("1.17.0", pure_upgrade upgrade1_17_0)
      ∷ ("1.18.0", pure_upgrade upgrade1_18_0)
      ∷ ("1.20.0", pure_upgrade upgrade1_20_0)
      ∷ ("1.22.0", λ j s. upgrade1_22_0 j >>= λ j'. done (j', none, s))
      ∷ ("1.28.0", pure_upgrade upgrade1_28_0)
      ∷ ("1.31.0", upgrade1_31_0)
      ∷ []
