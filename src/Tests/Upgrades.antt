-- ===== src/Tests/Upgrades.antt =====
-- Upgrades of a small instance (pkg/upgrade, pkg/controller/jaeger/upgrade.go).
use jaeger_operator.Base.{
  ℕ, String, ◌≡◌, refl, Bool, true, false, Option, none, some, List, [], ◌∷◌, All, ◌↔◌,
}
use jaeger_operator.Base.{done, panic, ltb, nat_eq, if◌then◌else◌, ◌==◌, ◌>>=◌, arith}
use jaeger_operator.Base.Dict.{Dict, entries, get, NodupKeys}
use jaeger_operator.Kube.{text_kube}
use jaeger_operator.Options.{one}
use jaeger_operator.Options.Laws.{reprinted_option}
use jaeger_operator.Jaeger.{Jaeger, Part}
use jaeger_operator.Tests.Sample.{collector_options, a_part, a_spec, instance_at}
use jaeger_operator.Upgrade.Migrate.{migrate_deprecated_options}
use jaeger_operator.Upgrade.Migrate.Laws.{Migrated, Untouched, get-migrate_deprecated_options}
use jaeger_operator.Upgrade.Migrate.Laws.{Independent, independent-Independent}
use jaeger_operator.Upgrade.Changes.{flags1_20_0}
use jaeger_operator.Upgrade.Steps.{upgrade1_20_0}
use jaeger_operator.Upgrade.Table.{Cluster, Deletion, deleted, Upgrade, upgrades, pure_upgrade}
use jaeger_operator.Upgrade.Instance.{Semver, less, same, greater, Result}
use jaeger_operator.Upgrade.Instance.{managed_instance, apply_upgrades}
use jaeger_operator.Upgrade.Instance.Ordered.{IsOrder}
use jaeger_operator.Upgrade.Instance.Managed.{Answer, managed_instance-Answer}
use jaeger_operator.Upgrade.Instance.Managed.{apply_upgrades-Stamped}

-- A few versions, by their minor numbers.
abbrev minor_version : String → Option ℕ
minor_version s =
    if s == "1.18.0"
    then some 18
    else if s == "1.20.0"
    then some 20
    else if s == "1.31.0"
    then some 31
    else none

abbrev version_name : ℕ → String
version_name n =
    if nat_eq n 18
    then "1.18.0"
    else if nat_eq n 20
    then "1.20.0"
    else if nat_eq n 31
    then "1.31.0"
    else ""

abbrev minor_versions : Semver
minor_versions = record {
  Version = ℕ;
  new_version = minor_version;
  compare = λ a b. if ltb a b then less else if nat_eq a b then same else greater;
  show = version_name;
}

-- A cluster that notes the names of what is deleted.
abbrev noting : Cluster
noting = record {
  State = List String;
  Fault = String;
  delete_elasticsearch = λ namespace name s. (deleted, name ∷ s);
}

abbrev starting : List String
starting = []

abbrev version_list : List ℕ
version_list = 20 ∷ 31 ∷ []

abbrev table : Dict (Upgrade text_kube noting)
table = upgrades text_kube noting

minor_versions-IsOrder : IsOrder minor_versions
minor_versions-IsOrder = record { asym = λ a b e. ground arith; trans = λ a b c e f. ground arith }

collector_options-NodupKeys : NodupKeys (entries collector_options.opts)
unfolding jaeger_operator.Base.Dict.lookup jaeger_operator.Base.string_dec
collector_options-NodupKeys = (refl, (refl, tt))

flags-Independent : Independent flags1_20_0
unfolding jaeger_operator.Upgrade.Migrate.Laws.independent jaeger_operator.Base.string_dec
flags-Independent = independent-Independent flags1_20_0 refl

get-migrate_deprecated_options_example :
    All
      (Migrated collector_options (migrate_deprecated_options collector_options flags1_20_0))
      flags1_20_0
    × ((k : String)
        → Untouched k flags1_20_0
        → get k (migrate_deprecated_options collector_options flags1_20_0).opts
          ≡ reprinted_option (get k collector_options.opts))
get-migrate_deprecated_options_example =
    get-migrate_deprecated_options collector_options flags1_20_0 collector_options-NodupKeys
      flags-Independent

abbrev empty_part : Part text_kube
empty_part = a_part (record { opts = some []; json = none })

-- The collector's flag has its new name, and the provisioned Elasticsearch was deleted for 1.31.0.
abbrev upgraded_instance : Jaeger text_kube
upgraded_instance = record (instance_at "1.31.0") {
  spec = record a_spec {
    all_in_one = empty_part;
    query = empty_part;
    collector = a_part (record {
      opts = some (("log-level", one "debug") ∷ ("es.max-doc-count", one "100") ∷ []);
      json = none;
    });
    ingester = empty_part;
    agent = empty_part;
    storage = record (a_spec.storage) { options = record { opts = some []; json = none } };
  };
}

abbrev result : Result text_kube noting minor_versions
result = (upgraded_instance, none, "elasticsearch" ∷ [])

upgrade_run :
    managed_instance text_kube noting minor_versions table version_list 18
      (instance_at "1.18.0")
      "1.31.0"
      starting
    ≡ done result
unfolding managed_instance jaeger_operator.Base.string_dec jaeger_operator.Base.Dict.lookup
    jaeger_operator.Upgrade.Table.upgrade1_31_0 upgrade1_20_0 jaeger_operator.Base.Dict.erase
    jaeger_operator.Base.Dict.insert
upgrade_run = refl

managed_instance-Answer_example :
    Answer text_kube noting minor_versions table version_list 18
      (instance_at "1.18.0")
      "1.31.0"
      starting
      result
managed_instance-Answer_example =
    managed_instance-Answer text_kube noting minor_versions table version_list 18
      (instance_at "1.18.0") "1.31.0" starting result upgrade_run

apply_run :
    apply_upgrades text_kube noting minor_versions version_list 18 "1.31.0"
      (instance_at "1.18.0")
      starting
    ≡ done result
unfolding apply_upgrades jaeger_operator.Base.string_dec jaeger_operator.Base.Dict.lookup
    jaeger_operator.Upgrade.Table.upgrade1_31_0 upgrade1_20_0 jaeger_operator.Base.Dict.erase
    jaeger_operator.Base.Dict.insert
apply_run = refl

apply_upgrades-Stamped_example : upgraded_instance.status.version ≡ "1.31.0"
apply_upgrades-Stamped_example =
    apply_upgrades-Stamped text_kube noting minor_versions version_list 18 "1.31.0"
      (instance_at "1.18.0") starting result apply_run
