-- ===== src/Strategy/Ui/Laws.antt =====
-- What the user sets in the settings of the interface is kept (pkg/strategy/controller.go: normalizeUI).
use jaeger_operator.Base.{String, ◌≡◌, ◌≢◌, true, ◌||◌, Option, none, some}
use jaeger_operator.Base.{◌==◌, if◌then◌else◌, is_some, Run, done}
use jaeger_operator.Kube.{Kube}
use jaeger_operator.Options.{Value, Items, Fields, scalar, list}
use jaeger_operator.Options.{string_map}
use jaeger_operator.Jaeger.{JaegerSpec}
use jaeger_operator.Strategy.Ui.{UiEnv, get_field, is_true}
use jaeger_operator.Strategy.Ui.Keys.{Only, asks_for_archive, tab_of}

-- The menu is absent or a list.
pub data IsMenu : Option Value → Type 0 where
  no_menu : IsMenu none
  menu_list : (menus : Items) → IsMenu (some (list menus))

-- A step that may panic: it does not, changes the menu only, and leaves a list there.
record MenuStep (fields : Fields) (r : Run Fields) : Type 0 where
  fields' : Fields
  runs : r ≡ done fields'
  only : Only "menu" fields fields'
  is_menu : IsMenu (get_field "menu" fields')

module _ {K : Kube} (ui : UiEnv) (spec : JaegerSpec K) where
  -- The settings before and after
  pub record UiKept (o o' : Fields) : Type 0 where
    pub archive :
        is_some (get_field "archiveEnabled" o) ≡ true
        → get_field "archiveEnabled" o' ≡ get_field "archiveEnabled" o
    pub archive_on :
        get_field "archiveEnabled" o ≡ none
        → get_field "archiveEnabled" o' ≡ (
            if asks_for_archive (string_map spec.storage.options)
            then some (scalar "true")
            else none)
    pub dependencies :
        get_field "dependencies" o'
        ≡ tab_of
            (spec.storage.storage_type == "memory" || is_true spec.storage.dependencies.enabled)
            (get_field "dependencies" o)
    pub menu : IsMenu (get_field "menu" o')
    pub others :
        (k : String)
        → k ≢ "archiveEnabled"
        → k ≢ "dependencies"
        → k ≢ "menu"
        → get_field k o' ≡ get_field k o
