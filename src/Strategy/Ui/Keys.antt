-- ===== src/Strategy/Ui/Keys.antt =====
-- The two changes of normalizeUI that cannot panic: the archive and the dependencies
-- (pkg/strategy/controller.go: enableArchiveButton, disableDependenciesTab).
use jaeger_operator.Base.{
  String, ◌≡◌, ◌≢◌, refl, sym, ◌∙◌, Bool, true, false, ◌||◌, Option, none, some,
}
use jaeger_operator.Base.{◌==◌, if◌then◌else◌, is_some, equal_fold, arith}
use jaeger_operator.Base.Dict.{Dict}
use jaeger_operator.Options.{Value, Fields, text, scalar, null, list, texts, obj, end, field}
use jaeger_operator.Strategy.{text_at}
use jaeger_operator.Strategy.Ui.{get_field, set_field, enable_archive_button, is_true}
use jaeger_operator.Strategy.Ui.{disable_dependencies_tab, with_dependencies}

pub get-set_field :
    (k j : String) (v : Value) (fields : Fields)
    → get_field k (set_field j v fields) ≡ (if k == j then some v else get_field k fields)
unfolding get_field set_field
get-set_field k j v end = ground arith
get-set_field k j v (field i w fields) = ground (arith, get-set_field k j v fields)

-- A change that leaves every key but one
abbrev pub Only : String → Fields → Fields → Type 0
Only key fields fields' = (k : String) → k ≢ key → get_field k fields' ≡ get_field k fields

pub set_field-Only :
    (key : String) (v : Value) (fields : Fields) → Only key fields (set_field key v fields)
set_field-Only key v fields k n = ground (arith, get-set_field k key v fields)

pub archive-Only :
    (fields : Fields) (s_opts : Dict String)
    → Only "archiveEnabled" fields (enable_archive_button fields s_opts)
unfolding enable_archive_button
archive-Only fields s_opts k n =
    ground (arith, set_field-Only "archiveEnabled" (scalar "true") fields k n)

pub archive_kept :
    (fields : Fields) (s_opts : Dict String)
    → is_some (get_field "archiveEnabled" fields) ≡ true
    → enable_archive_button fields s_opts ≡ fields
unfolding enable_archive_button
archive_kept fields s_opts e = ground (arith, e)

-- The storage has an archive.
abbrev pub asks_for_archive : Dict String → Bool
asks_for_archive s_opts =
    equal_fold (text_at "es-archive.enabled" s_opts) "true"
    || equal_fold (text_at "cassandra-archive.enabled" s_opts) "true"

pub archive_switched :
    (fields : Fields) (s_opts : Dict String)
    → get_field "archiveEnabled" fields ≡ none
    → get_field "archiveEnabled" (enable_archive_button fields s_opts)
      ≡ (if asks_for_archive s_opts then some (scalar "true") else none)
unfolding enable_archive_button
archive_switched fields s_opts unset =
    ground (arith, unset, get-set_field "archiveEnabled" "archiveEnabled" (scalar "true") fields)

-- What the tab of the dependencies becomes
abbrev pub tab_of : Bool → Option Value → Option Value
tab_of shown none = if shown then none else some (obj (field "menuEnabled" (scalar "false") end))
tab_of shown (some (obj deps)) =
    if shown || is_some (get_field "menuEnabled" deps)
    then some (obj deps)
    else some (obj (set_field "menuEnabled" (scalar "false") deps))
tab_of shown (some v) = some v

dependencies-Only :
    (fields : Fields) (v : Option Value) → Only "dependencies" fields (with_dependencies v fields)
dependencies-Only fields none k n = ground (
  arith,
  set_field-Only "dependencies" (obj (set_field "menuEnabled" (scalar "false") end)) fields k n,
)
dependencies-Only fields (some (obj deps)) k n = ground (
  arith,
  set_field-Only "dependencies" (obj (set_field "menuEnabled" (scalar "false") deps)) fields k n,
)
dependencies-Only fields (some (text s)) k n = refl
dependencies-Only fields (some (scalar s)) k n = refl
dependencies-Only fields (some null) k n = refl
dependencies-Only fields (some (list l)) k n = refl
dependencies-Only fields (some (texts l)) k n = refl

pub tab-Only :
    (fields : Fields) (storage : String) (enabled : Option Bool)
    → Only "dependencies" fields (disable_dependencies_tab fields storage enabled)
unfolding disable_dependencies_tab
tab-Only fields storage enabled k n =
    ground (arith, dependencies-Only fields (get_field "dependencies" fields) k n)

with_dependencies_tab :
    (fields : Fields) (v : Option Value)
    → get_field "dependencies" fields ≡ v
    → get_field "dependencies" (with_dependencies v fields) ≡ tab_of false v
unfolding set_field get_field
with_dependencies_tab fields none e =
    get-set_field "dependencies" "dependencies" _ fields ∙ ground arith
with_dependencies_tab fields (some (obj deps)) e = ground (
  arith,
  e,
  get-set_field "dependencies" "dependencies" (obj (set_field "menuEnabled" (scalar "false") deps))
      fields,
)
with_dependencies_tab fields (some (text s)) e = e
with_dependencies_tab fields (some (scalar s)) e = e
with_dependencies_tab fields (some null) e = e
with_dependencies_tab fields (some (list l)) e = e
with_dependencies_tab fields (some (texts l)) e = e

shown_tab : (v : Option Value) → tab_of true v ≡ v
shown_tab none = refl
shown_tab (some (obj deps)) = refl
shown_tab (some (text s)) = refl
shown_tab (some (scalar s)) = refl
shown_tab (some null) = refl
shown_tab (some (list l)) = refl
shown_tab (some (texts l)) = refl

pub tab_becomes :
    (fields : Fields) (storage : String) (enabled : Option Bool) (shown : Bool)
    → (storage == "memory" || is_true enabled) ≡ shown
    → get_field "dependencies" (disable_dependencies_tab fields storage enabled)
      ≡ tab_of shown (get_field "dependencies" fields)
unfolding disable_dependencies_tab
tab_becomes fields storage enabled true e = rw e (sym (shown_tab (get_field "dependencies" fields)))
tab_becomes fields storage enabled false e =
    rw e (with_dependencies_tab fields (get_field "dependencies" fields) refl)
