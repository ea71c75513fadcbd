-- ===== src/Upgrade/Migrate.antt =====
-- Deprecated flags and their new names (pkg/upgrade/migrate_deprecated.go).
pub mod Laws
use jaeger_operator.Base.{String, none, some, List, [], ◌∷◌}
use jaeger_operator.Base.{◌==◌, if◌then◌else◌}
use jaeger_operator.Base.Dict.{Dict, lookup, insert, erase}
use jaeger_operator.Kube.{Kube}
use jaeger_operator.Options.{Options, Setting, new_options, fields_of, generic_map}
use jaeger_operator.Jaeger.{Jaeger, Part}

-- deprecationFlagMap: an empty `to` says that the flag has no replacement
pub record DeprecationFlagMap : Type 0 where
  pub from : String
  pub to : String

abbrev pub flag : String → String → DeprecationFlagMap
flag from to = record { from = from; to = to }

-- One round of the loop of migrateDeprecatedOptions.
unfoldable pub migrate_flag : DeprecationFlagMap → Dict Setting → Dict Setting
migrate_flag d in_map = elim (lookup d.from in_map) [
  | none ↦ in_map
  | some val ↦ erase d.from (if d.to == "" then in_map else insert d.to val in_map)
]

unfoldable pub migrate_flags : List DeprecationFlagMap → Dict Setting → Dict Setting
unfolding migrate_flag
migrate_flags [] in_map = in_map
migrate_flags (d ∷ flag_map) in_map = migrate_flags flag_map (migrate_flag d in_map)

-- NewOptions of a map of settings.
unfoldable pub renew : Dict Setting → Options
unfolding new_options fields_of
renew in_map = new_options (fields_of in_map)

-- migrateDeprecatedOptions
unfoldable pub migrate_deprecated_options : Options → List DeprecationFlagMap → Options
unfolding migrate_flags renew generic_map
migrate_deprecated_options opts flag_map = renew (migrate_flags flag_map (generic_map opts))

module _ {K : Kube} where
  abbrev pub with_options : (Options → Options) → Part K → Part K
  with_options f p = record p { options = f p.options }

  -- migrateAllDeprecatedOptions
  unfoldable pub migrate_all_deprecated_options : Jaeger K → List DeprecationFlagMap → Jaeger K
  unfolding migrate_deprecated_options
  migrate_all_deprecated_options j flag_map =
      let m = λ (o : Options). migrate_deprecated_options o flag_map in
      record j {
        spec = record (j.spec) {
          all_in_one = with_options m j.spec.all_in_one;
          collector = with_options m j.spec.collector;
          query = with_options m j.spec.query;
          agent = with_options m j.spec.agent;
          ingester = with_options m j.spec.ingester;
          storage = record (j.spec.storage) { options = m j.spec.storage.options };
        };
      }
