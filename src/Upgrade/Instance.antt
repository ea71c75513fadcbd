-- ===== src/Upgrade/Instance.antt =====
-- The upgrade of one instance (pkg/upgrade/upgrade.go ManagedInstance, main.go) and applyUpgrades
-- (pkg/controller/jaeger/upgrade.go). Semantic versions are those of a library: a parameter.
pub mod Runs
pub mod Ordered
pub mod Managed
use jaeger_operator.Base.{
  String, Bool, true, false, ◌&&◌, ◌||◌, Option, none, some, List, [], ◌∷◌, map,
}
use jaeger_operator.Base.{◌==◌, if◌then◌else◌, Run, done, panic, ◌>>=◌}
use jaeger_operator.Base.Dict.{Dict, lookup}
use jaeger_operator.Kube.{Kube}
use jaeger_operator.Jaeger.{Jaeger, JaegerStatus}
use jaeger_operator.Upgrade.Table.{Cluster, Upgrade, upgrades}

pub data Order : Type 0 where
  less : Order
  same : Order
  greater : Order

-- github.com/Masterminds/semver: NewVersion, Compare and String
pub record Semver : Type 1 where
  pub Version : Type 0
  pub new_version : String → Option Version
  pub compare : Version → Version → Order
  pub show : Version → String

-- What ManagedInstance reports: an instance whose version does not parse, or the error of an upgrade.
pub data UpgradeError (Fault : Type 0) : Type 0 where
  bad_version : UpgradeError Fault
  upgrade_failed : Fault → UpgradeError Fault

module _ (v : Semver) where
  open v use {Version, new_version, compare}

  abbrev pub less_than : Version → Version → Bool
  less_than a b = elim (compare a b) [ less ↦ true | same ↦ false | greater ↦ false ]

  abbrev pub greater_than : Version → Version → Bool
  greater_than a b = elim (compare a b) [ less ↦ false | same ↦ false | greater ↦ true ]

  abbrev pub equal : Version → Version → Bool
  equal a b = elim (compare a b) [ less ↦ false | same ↦ true | greater ↦ false ]

  abbrev pub must_parse : String → Run Version
  must_parse s = elim (new_version s) [ none ↦ panic | some x ↦ done x ]

  -- sort.Sort over a semver.Collection
  unfoldable pub insert_version : Version → List Version → List Version
  insert_version x [] = x ∷ []
  insert_version x (y ∷ ys) =
      let rest = insert_version x ys in if less_than x y then x ∷ y ∷ ys else y ∷ rest

  unfoldable pub sort_versions : List Version → List Version
  unfolding insert_version
  sort_versions [] = []
  sort_versions (x ∷ xs) = insert_version x (sort_versions xs)

  abbrev parse_all : {V : Type 0} → Dict V → Option (List Version)
  parse_all [] = some []
  parse_all ((s, _) ∷ d) = elim (new_version s) [
    | none ↦ none
    | some x ↦ elim (parse_all d) [ none ↦ none | some xs ↦ some (x ∷ xs) ]
  ]

  -- versions, and the panic of parseSemVer on its error
  unfoldable pub versions : {V : Type 0} → Dict V → Run (List Version)
  unfolding sort_versions
  versions table = elim (parse_all table) [ none ↦ panic | some xs ↦ done (sort_versions xs) ]

  -- The condition of the loop of ManagedInstance.
  abbrev pub in_range : Version → Version → Version → Bool
  in_range current latest x = greater_than x current && (less_than x latest || equal x latest)

abbrev pub with_version : {K : Kube} → String → Jaeger K → Jaeger K
with_version version j = record j { status = record (j.status) { version = version } }

module _ (K : Kube) (c : Cluster) (v : Semver) where
  open c use {State, Fault}
  open v use {Version, new_version, show}

  abbrev pub Result : Type 0
  Result = Jaeger K × Option (UpgradeError Fault) × State

  -- What a round does with the answer of the upgrade function.
  abbrev pub after_upgrade :
      String
      → Jaeger K
      → (Jaeger K → State → Run Result)
      → Jaeger K × Option Fault × State
      → Run Result
  after_upgrade name j next (upgraded, none, s) = next (with_version name upgraded) s
  after_upgrade name j next (upgraded, some e, s) = done (j, some (upgrade_failed e), s)

  -- The call of a function of the table; there is none under a name that is missing.
  abbrev pub call_upgrade :
      Dict (Upgrade K c) → String → Jaeger K → State → Run (Jaeger K × Option Fault × State)
  call_upgrade table name j s = elim (lookup name table) [ none ↦ panic | some up ↦ up j s ]

  -- The loop of ManagedInstance.
  unfoldable pub upgrade_all :
      Dict (Upgrade K c) → List Version → Version → Version → Jaeger K → State → Run Result
  upgrade_all table [] current latest j s = done (j, none, s)
  upgrade_all table (x ∷ xs) current latest j s =
      if in_range v current latest x
      then call_upgrade table (show x) j s
        >>= after_upgrade (show x) j (upgrade_all table xs current latest)
      else upgrade_all table xs current latest j s

  abbrev pub set_latest : Version → Result → Run Result
  set_latest latest (j, none, s) = done (with_version (show latest) j, none, s)
  set_latest latest (j, some e, s) = done (j, some e, s)

  -- ManagedInstance once both versions are known
  unfoldable pub upgrade_between :
      Dict (Upgrade K c)
      → List Version
      → Version
      → Version
      → Version
      → Jaeger K
      → State
      → Run Result
  unfolding upgrade_all
  upgrade_between table semantic_versions start_updates current latest j s =
      if less_than v current start_updates || greater_than v current latest
      then done (j, none, s)
      else upgrade_all table semantic_versions current latest j s >>= set_latest latest

  -- ManagedInstance
  unfoldable pub managed_instance :
      Dict (Upgrade K c) → List Version → Version → Jaeger K → String → State → Run Result
  unfolding upgrade_between
  managed_instance table semantic_versions start_updates j latest_version s =
      elim (new_version j.status.version) [
        | none ↦ done (j, some bad_version, s)
        | some current ↦ must_parse v latest_version >>= λ latest.
            upgrade_between table semantic_versions start_updates current latest j s
      ]

  -- What applyUpgrades makes of the answer.
  abbrev pub keep_or_set : Jaeger K → String → Result → Run Result
  keep_or_set j version (upgraded, none, s) = done (with_version version upgraded, none, s)
  keep_or_set j version (upgraded, some e, s) = done (j, some e, s)

  -- applyUpgrades; `version` is the operator's version of Jaeger
  unfoldable pub apply_upgrades : List Version → Version → String → Jaeger K → State → Run Result
  unfolding managed_instance
  apply_upgrades semantic_versions start_updates version j s =
      if j.status.version == "" || j.status.version == version
      then done (with_version version j, none, s)
      else managed_instance (upgrades K c) semantic_versions start_updates j version s
        >>= keep_or_set j version
