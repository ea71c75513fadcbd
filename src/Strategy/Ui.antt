-- ===== src/Strategy/Ui.antt =====
-- The settings of the user interface (pkg/strategy/controller.go: normalizeUI and the functions that it
-- calls) and the whole of normalize. The settings are a map of JSON values; encoding/json is a
-- parameter, and a map that it sets to nil is `none`.
pub mod Keys
pub mod Laws
pub mod Whole
use jaeger_operator.Base.{
  String, Bool, true, false, ◌&&◌, ◌||◌, not, Option, none, some, ℕ, zero, suc,
}
use jaeger_operator.Base.{
  ◌==◌, ◌+◌, if◌then◌else◌, is_some, equal_fold, has_prefix, Run, done, panic, ◌>>=◌,
}
use jaeger_operator.Base.Dict.{Dict}
use jaeger_operator.Kube.{Kube}
use jaeger_operator.Options.{
  Value, Items, Fields, text, scalar, null, list, obj, nil, cons, end, field, string_map,
}
use jaeger_operator.Jaeger.{FreeForm, Jaeger, JaegerSpec}
use jaeger_operator.Strategy.{Env, text_at, normalize}

-- encoding/json, the documentation-url of viper, and the text that %v prints for a slice or a map
pub record UiEnv : Type 0 where
  pub unmarshal : String → Option (Option Fields)
  pub marshal : Fields → String
  pub documentation_url : Option String
  pub sprint : Value → String

-- A key of a map
unfoldable pub get_field : String → Fields → Option Value
get_field k end = none
get_field k (field j v fields) = if k == j then some v else get_field k fields

-- An assignment to a key
unfoldable pub set_field : String → Value → Fields → Fields
set_field k v end = field k v end
set_field k v (field j w fields) =
    let rest = set_field k v fields in if k == j then field j v fields else field j w rest

-- FreeForm.IsEmpty
abbrev pub is_empty : FreeForm → Bool
is_empty f = elim f.json [ none ↦ true | some json ↦ json == "" || json == "{}" ]

-- FreeForm.GetMap, `none` for an error
abbrev pub get_map : UiEnv → FreeForm → Option (Option Fields)
get_map ui f = elim f.json [ none ↦ some (some end) | some json ↦ ui.unmarshal json ]

-- strings.Contains
unfoldable pub contains : String → String → Bool
contains String.[] part = has_prefix "" part
contains (String.◌∷◌ c s) part = has_prefix (String.◌∷◌ c s) part || contains s part

-- enableArchiveButton
unfoldable pub enable_archive_button : Fields → Dict String → Fields
unfolding get_field set_field
enable_archive_button ui_opts s_opts =
    if is_some (get_field "archiveEnabled" ui_opts)
    then ui_opts
    else if equal_fold (text_at "es-archive.enabled" s_opts) "true"
        || equal_fold (text_at "cassandra-archive.enabled" s_opts) "true"
    then set_field "archiveEnabled" (scalar "true") ui_opts
    else ui_opts

abbrev pub is_true : Option Bool → Bool
is_true none = false
is_true (some b) = b

-- The end of disableDependenciesTab, for the map of the dependencies
abbrev pub disable_menu : Fields → Fields → Fields
disable_menu deps ui_opts =
    if is_some (get_field "menuEnabled" deps)
    then ui_opts
    else set_field "dependencies" (obj (set_field "menuEnabled" (scalar "false") deps)) ui_opts

abbrev pub with_dependencies : Option Value → Fields → Fields
with_dependencies none ui_opts = disable_menu end ui_opts
with_dependencies (some (obj deps)) ui_opts = disable_menu deps ui_opts
with_dependencies (some _) ui_opts = ui_opts

-- disableDependenciesTab
unfoldable pub disable_dependencies_tab : Fields → String → Option Bool → Fields
unfolding get_field set_field
disable_dependencies_tab ui_opts storage deps_enabled =
    if storage == "memory" || is_true deps_enabled
    then ui_opts
    else with_dependencies (get_field "dependencies" ui_opts) ui_opts

abbrev pub is_text : String → Option Value → Bool
is_text label (some (text s)) = s == label
is_text label _ = false

-- How a loop of hasDocumentationLink ends: with a link, with a value that it does not expect, or at
-- the end of the slice
pub data Search : Type 0 where
  linked unexpected exhausted : Search

unfoldable pub search_items : Items → Search
unfolding get_field
search_items nil = exhausted
search_items (cons (obj item) items) =
    let rest = search_items items in
    if is_text "Documentation" (get_field "label" item) then linked else rest
search_items (cons _ items) = unexpected

-- A menu that has the label About is searched.
abbrev pub search_menu : Option Value → Search
search_menu (some (list items)) = search_items items
search_menu _ = unexpected

-- hasDocumentationLink, with the index of the first menu
unfoldable pub has_documentation_link : ℕ → Items → Option ℕ
unfolding get_field search_items
has_documentation_link menu_index nil = none
has_documentation_link menu_index (cons (obj menu) menus) =
    let rest = has_documentation_link (menu_index + 1) menus in
    if is_text "About" (get_field "label" menu)
    then (elim (search_menu (get_field "items" menu)) [
      | linked ↦ some menu_index
      | unexpected ↦ none
      | exhausted ↦ rest
    ])
    else rest
has_documentation_link menu_index (cons _ menus) = none

-- menus[i] = v
unfoldable pub set_item : ℕ → Value → Items → Items
set_item i v nil = nil
set_item zero v (cons w items) = cons v items
set_item (suc i) v (cons w items) = cons w (set_item i v items)

abbrev pub about_menu : String → Value
about_menu url = obj (
    field "label" (text "About") (
      field "items"
        (list (cons (obj (field "label" (text "Documentation") (field "url" (text url) end))) nil))
        end))

-- enableDocumentationLink, for the menu that there is; another value than a slice is a panic
abbrev pub link_menu : String → Option Value → Fields → Run Fields
link_menu url none ui_opts = done (set_field "menu" (list (cons (about_menu url) nil)) ui_opts)
link_menu url (some (list menus)) ui_opts = elim (has_documentation_link 0 menus) [
  | none ↦ done ui_opts
  | some i ↦ done (set_field "menu" (list (set_item i (about_menu url) menus)) ui_opts)
]
link_menu url (some _) ui_opts = panic

unfoldable pub enable_documentation_link : Option String → Fields → Run Fields
unfolding get_field set_field set_item has_documentation_link
enable_documentation_link none ui_opts = done ui_opts
enable_documentation_link (some url) ui_opts = link_menu url (get_field "menu" ui_opts) ui_opts

-- fmt.Sprintf("%v", v)
abbrev pub printed_value : UiEnv → Option Value → String
printed_value ui none = "<nil>"
printed_value ui (some (text s)) = s
printed_value ui (some (scalar s)) = s
printed_value ui (some null) = "<nil>"
printed_value ui (some v) = ui.sprint v

-- The loop of enableLogOut: it returns at a menu that is no map or that signs in
unfoldable pub stops : UiEnv → Items → Bool
unfolding get_field contains
stops ui nil = false
stops ui (cons (obj menu) menus) =
    let rest = stops ui menus in
    if contains (printed_value ui (get_field "url" menu)) "/oauth/sign_in" then true else rest
stops ui (cons _ menus) = true

unfoldable pub append_item : Items → Value → Items
append_item nil v = cons v nil
append_item (cons w items) v = cons w (append_item items v)

abbrev pub log_out : Value
log_out = obj (
    field "label" (text "Log Out")
      (field "url" (text "/oauth/sign_in") (field "anchorTarget" (text "_self") end)))

abbrev pub add_log_out : UiEnv → Items → Fields → Fields
add_log_out ui menus ui_opts =
    if stops ui menus then ui_opts else set_field "menu" (list (append_item menus log_out)) ui_opts

abbrev pub with_log_out : UiEnv → Option Value → Fields → Run Fields
with_log_out ui none ui_opts = done (add_log_out ui nil ui_opts)
with_log_out ui (some (list menus)) ui_opts = done (add_log_out ui menus ui_opts)
with_log_out ui (some _) ui_opts = panic

abbrev pub is_false : Option Bool → Bool
is_false none = false
is_false (some b) = not b

module _ {K : Kube} where
  -- enableLogOut
  unfoldable pub enable_log_out : UiEnv → Fields → JaegerSpec K → Run Fields
  unfolding get_field set_field stops append_item
  enable_log_out ui ui_opts spec =
      if is_false spec.ingress.enabled || not (spec.ingress.security == "oauth-proxy")
      then done ui_opts
      else if is_true spec.ingress.openshift.skip_logout
      then done ui_opts
      else with_log_out ui (get_field "menu" ui_opts) ui_opts

  -- The four changes of normalizeUI to a map
  unfoldable pub ui_options : UiEnv → JaegerSpec K → Fields → Run Fields
  unfolding enable_archive_button disable_dependencies_tab enable_documentation_link enable_log_out
  ui_options ui spec ui_opts =
      let archive = enable_archive_button ui_opts (string_map spec.storage.options) in
      let tab =
        disable_dependencies_tab archive spec.storage.storage_type
          spec.storage.dependencies.enabled in
      enable_documentation_link ui.documentation_url tab >>= λ linked. enable_log_out ui linked spec

  -- spec.UI.Options, if the map holds anything
  abbrev pub stored_ui : UiEnv → JaegerSpec K → Fields → JaegerSpec K
  stored_ui ui spec end = spec
  stored_ui ui spec (field k v fields) = record spec {
    ui = record { json = some (ui.marshal (field k v fields)) };
  }

  -- A nil map can be read as an empty one, and any write to it is a panic.
  abbrev pub unwritten : JaegerSpec K → Run Fields → Run (JaegerSpec K)
  unwritten spec (done end) = done spec
  unwritten spec (done (field k v fields)) = panic
  unwritten spec panic = panic

  abbrev pub with_ui_options : UiEnv → JaegerSpec K → Option (Option Fields) → Run (JaegerSpec K)
  with_ui_options ui spec none =
      ui_options ui spec end >>= λ ui_opts. done (stored_ui ui spec ui_opts)
  with_ui_options ui spec (some none) = unwritten spec (ui_options ui spec end)
  with_ui_options ui spec (some (some m)) =
      ui_options ui spec m >>= λ ui_opts. done (stored_ui ui spec ui_opts)

  -- normalizeUI
  unfoldable pub normalize_ui : UiEnv → JaegerSpec K → Run (JaegerSpec K)
  unfolding ui_options
  normalize_ui ui spec =
      with_ui_options ui spec (if is_empty spec.ui then none else get_map ui spec.ui)

  -- normalize
  unfoldable pub normalize_jaeger : Env K → UiEnv → Jaeger K → Run (Jaeger K)
  unfolding normalize normalize_ui
  normalize_jaeger env ui jaeger =
      let j = normalize env jaeger in
      normalize_ui ui j.spec >>= λ spec. done (record j { spec = spec })
