-- ===== src/Upgrade/Migrate/Laws.antt =====
-- What the migration of deprecated options does to every name (pkg/upgrade/migrate_deprecated.go).
use jaeger_operator.Base.{
  String, ◌≡◌, ◌≢◌, refl, sym, ap, subst, ◌∙◌, none, some, List, [], ◌∷◌, All,
}
use jaeger_operator.Base.{
  ◌==◌, if◌then◌else◌, arith, Option-cases, inl, inr, Bool, true, not, ◌&&◌, ◌||◌,
}
use jaeger_operator.Base.Dict.{Dict, entries, get, lookup, insert, erase, NodupKeys, lookup-insert}
use jaeger_operator.Base.Dict.{lookup-erase, insert-NodupKeys, erase-NodupKeys}
use jaeger_operator.Options.{Options, Setting, generic_map}
use jaeger_operator.Options.Laws.{reprinted, reprinted_option, get-new_options-generic_map}
use jaeger_operator.Upgrade.Migrate.{DeprecationFlagMap, migrate_flag, migrate_flags, renew}
use jaeger_operator.Upgrade.Migrate.{migrate_deprecated_options}

-- No entry of the list reads or writes the name.
abbrev pub Untouched : String → List DeprecationFlagMap → Type 0
Untouched k flag_map = All (λ d. (k ≢ d.from) × (k ≢ d.to)) flag_map

-- The names of every entry are those of no later entry.
abbrev pub Independent : List DeprecationFlagMap → Type 0
Independent [] = Unit
Independent (d ∷ flag_map) =
    Untouched d.from flag_map × (d.to ≢ "" → Untouched d.to flag_map) × Independent flag_map

-- The same as a test.
unfoldable pub untouched : String → List DeprecationFlagMap → Bool
untouched k [] = true
untouched k (d ∷ flag_map) = not (k == d.from) && (not (k == d.to) && untouched k flag_map)

unfoldable pub independent : List DeprecationFlagMap → Bool
unfolding untouched
independent [] = true
independent (d ∷ flag_map) =
    untouched d.from flag_map && ((d.to == "" || untouched d.to flag_map) && independent flag_map)

untouched-Untouched :
    (k : String) (flag_map : List DeprecationFlagMap)
    → untouched k flag_map ≡ true
    → Untouched k flag_map
unfolding untouched
untouched-Untouched k [] e = tt
untouched-Untouched k (d ∷ flag_map) e =
    ((λ h. ground arith, λ h. ground arith), untouched-Untouched k flag_map (ground arith))

pub independent-Independent :
    (flag_map : List DeprecationFlagMap) → independent flag_map ≡ true → Independent flag_map
unfolding independent
independent-Independent [] e = tt
independent-Independent (d ∷ flag_map) e = (
  untouched-Untouched d.from flag_map (ground arith),
  λ n. untouched-Untouched d.to flag_map (ground arith),
  independent-Independent flag_map (ground arith),
)

lookup-migrate_flag :
    (k : String) (d : DeprecationFlagMap) (m : Dict Setting)
    → lookup k (migrate_flag d m) ≡ (
        if k == d.from
        then none
        else if k == d.to
        then (if d.to == ""
            then lookup k m
            else elim (lookup d.from m) [ none ↦ lookup k m | some v ↦ some v ])
        else lookup k m)
unfolding migrate_flag
lookup-migrate_flag k d m = elim (Option-cases (lookup d.from m)) [
  | inl e ↦ ground arith
  | inr (v, e) ↦ ground (
    arith,
    lookup-erase k d.from m,
    lookup-erase k d.from (insert d.to v m),
    lookup-insert k d.to v m,
  )
]

lookup-migrate_flag_other :
    (k : String) (d : DeprecationFlagMap) (m : Dict Setting)
    → k ≢ d.from
    → (d.to ≢ "" → k ≢ d.to)
    → lookup k (migrate_flag d m) ≡ lookup k m
lookup-migrate_flag_other k d m p q = ground (arith, lookup-migrate_flag k d m, q)

migrate_flag_absent :
    (d : DeprecationFlagMap) (m : Dict Setting) → lookup d.from m ≡ none → migrate_flag d m ≡ m
unfolding migrate_flag
migrate_flag_absent d m e = ground arith

migrate_flag_present :
    (d : DeprecationFlagMap) (m : Dict Setting) (v : Setting)
    → lookup d.from m ≡ some v
    → migrate_flag d m ≡ erase d.from (if d.to == "" then m else insert d.to v m)
unfolding migrate_flag
migrate_flag_present d m v e = ground arith

migrate_flag-NodupKeys :
    (d : DeprecationFlagMap) (m : Dict Setting) → NodupKeys m → NodupKeys (migrate_flag d m)
migrate_flag-NodupKeys d m u = elim (Option-cases (lookup d.from m)) [
  | inl e ↦ subst (λ n. NodupKeys n) (sym (migrate_flag_absent d m e)) u
  | inr (v, e) ↦
      subst (λ n. NodupKeys n) (sym (migrate_flag_present d m v e))
        (erase-NodupKeys d.from (if d.to == "" then m else insert d.to v m)
          (ground (arith, insert-NodupKeys d.to v m u)))
]

migrate_flags-NodupKeys :
    (flag_map : List DeprecationFlagMap) (m : Dict Setting)
    → NodupKeys m
    → NodupKeys (migrate_flags flag_map m)
unfolding migrate_flags
migrate_flags-NodupKeys [] m u = u
migrate_flags-NodupKeys (d ∷ flag_map) m u =
    migrate_flags-NodupKeys flag_map (migrate_flag d m) (migrate_flag-NodupKeys d m u)

lookup-migrate_flags-Untouched :
    (k : String) (flag_map : List DeprecationFlagMap) (m : Dict Setting)
    → Untouched k flag_map
    → lookup k (migrate_flags flag_map m) ≡ lookup k m
unfolding migrate_flags
lookup-migrate_flags-Untouched k [] m h = refl
lookup-migrate_flags-Untouched k (d ∷ flag_map) m ((p, q), h) =
    lookup-migrate_flags-Untouched k flag_map (migrate_flag d m) h
    ∙ ground (arith, lookup-migrate_flag k d m)

-- What became of one deprecated flag: it is gone, and its value stands under the new name.
abbrev Moved : Dict Setting → Dict Setting → DeprecationFlagMap → Type 0
Moved m m' d =
    (lookup d.from m' ≡ none)
    × ((v : Setting)
        → lookup d.from m ≡ some v
        → d.to ≢ ""
        → d.to ≢ d.from
        → lookup d.to m' ≡ some v)
    × (lookup d.from m ≡ none → d.to ≢ "" → d.to ≢ d.from → lookup d.to m' ≡ lookup d.to m)

Moved-migrate_flag :
    (d : DeprecationFlagMap) (flag_map others : List DeprecationFlagMap) (m m' : Dict Setting)
    → Untouched d.from others
    → (d.to ≢ "" → Untouched d.to others)
    → All (Moved (migrate_flag d m) m') others
    → All (Moved m m') others
Moved-migrate_flag d flag_map [] m m' p q h = tt
Moved-migrate_flag d flag_map (e ∷ others) m m' ((p, p'), ps) q ((gone, moved, kept), h) = (
  (
    gone,
    λ v held. moved v (
        lookup-migrate_flag_other e.from d m (λ same. p (sym same)) (λ n same. (q n).0.0 (sym same))
        ∙ held),
    λ absent named differs.
        kept
          (lookup-migrate_flag_other e.from d m (λ same. p (sym same))
              (λ n same. (q n).0.0 (sym same))
            ∙ absent)
          named differs
        ∙ lookup-migrate_flag_other e.to d m (λ same. p' (sym same))
            (λ n same. (q n).0.1 (sym same)),
  ),
  Moved-migrate_flag d flag_map others m m' ps (λ n. (q n).1) h,
)

migrate_flags-Moved :
    (flag_map : List DeprecationFlagMap) (m : Dict Setting)
    → Independent flag_map
    → All (Moved m (migrate_flags flag_map m)) flag_map
unfolding migrate_flags
migrate_flags-Moved [] m h = tt
migrate_flags-Moved (d ∷ flag_map) m (p, q, h) = (
  (
    lookup-migrate_flags-Untouched d.from flag_map (migrate_flag d m) p
        ∙ ground (arith, lookup-migrate_flag d.from d m),
    λ v held named differs.
        lookup-migrate_flags-Untouched d.to flag_map (migrate_flag d m) (q named)
        ∙ ground (arith, lookup-migrate_flag d.to d m),
    λ absent named differs.
        lookup-migrate_flags-Untouched d.to flag_map (migrate_flag d m) (q named)
        ∙ ap (λ n. lookup d.to n) (migrate_flag_absent d m absent),
  ),
  Moved-migrate_flag d flag_map flag_map m (migrate_flags flag_map (migrate_flag d m)) p q
      (migrate_flags-Moved flag_map (migrate_flag d m) h),
)

get-renew :
    (k : String) (m : Dict Setting)
    → NodupKeys m
    → get k (renew m).opts ≡ reprinted_option (lookup k m)
unfolding renew generic_map
get-renew k m u = get-new_options-generic_map k (record { opts = some m; json = none }) u

-- One deprecated flag before and after.
pub record Migrated (o o' : Options) (d : DeprecationFlagMap) : Type 0 where
  pub gone : get d.from o'.opts ≡ none
  pub moved :
      (v : Setting)
      → get d.from o.opts ≡ some v
      → d.to ≢ ""
      → d.to ≢ d.from
      → get d.to o'.opts ≡ some (reprinted v)
  pub kept :
      get d.from o.opts ≡ none
      → d.to ≢ ""
      → d.to ≢ d.from
      → get d.to o'.opts ≡ reprinted_option (get d.to o.opts)

Moved-Migrated :
    (o : Options) (m' : Dict Setting) (flag_map : List DeprecationFlagMap)
    → NodupKeys m'
    → All (Moved (entries o.opts) m') flag_map
    → All (Migrated o (renew m')) flag_map
Moved-Migrated o m' [] u h = tt
Moved-Migrated o m' (d ∷ flag_map) u ((gone, moved, kept), h) = (
  record {
    gone = get-renew d.from m' u ∙ rw gone refl;
    moved = λ v held named differs. get-renew d.to m' u ∙ rw (moved v held named differs) refl;
    kept = λ absent named differs. get-renew d.to m' u ∙ rw (kept absent named differs) refl;
  },
  Moved-Migrated o m' flag_map u h,
)

-- For options that hold no name twice and entries of which none uses the names of another: after the
-- migration no deprecated flag is left, the value of each stands under its new name if it has one,
-- a new name whose deprecated flag was not set is as before, and so is every name that no entry has. A list of texts becomes one text, as it is printed.
pub get-migrate_deprecated_options :
    (o : Options) (flag_map : List DeprecationFlagMap)
    → NodupKeys (entries o.opts)
    → Independent flag_map
    → All (Migrated o (migrate_deprecated_options o flag_map)) flag_map
      × ((k : String)
          → Untouched k flag_map
          → get k (migrate_deprecated_options o flag_map).opts ≡ reprinted_option (get k o.opts))
unfolding migrate_deprecated_options
get-migrate_deprecated_options o flag_map u h =
    let m = entries o.opts in
    let u' = migrate_flags-NodupKeys flag_map m u in
    (
      Moved-Migrated o (migrate_flags flag_map m) flag_map u' (migrate_flags-Moved flag_map m h),
      λ k away.
          get-renew k (migrate_flags flag_map m) u'
          ∙ rw (lookup-migrate_flags-Untouched k flag_map m away) refl,
    )
