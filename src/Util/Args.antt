-- ===== src/Util/Args.antt =====
-- Command-line arguments of containers and their environment (pkg/util/util.go: FindItem,
-- ReplaceArgument, IsOTLPExplcitSet, IsOTLPEnable, RemoveEmptyVars, FindEnvVar).
pub mod Laws
use jaeger_operator.Base.{ℕ, ◌+◌, String, ◌≡◌, refl, Bool, true, false, ◌||◌, Option, none, some}
use jaeger_operator.Base.{List, [], ◌∷◌, not, is_some, ◌==◌, if◌then◌else◌, has_prefix, arith}

-- FindItem: the first argument with the prefix, "" if there is none
unfoldable pub find_item : String → List String → String
find_item prefix [] = ""
find_item prefix (v ∷ args) = if has_prefix v prefix then v else find_item prefix args

-- ReplaceArgument: the slice after the call, and the count that is returned
unfoldable pub replace_argument : String → String → List String → List String × ℕ
replace_argument prefix new_value [] = ([], 0)
replace_argument prefix new_value (arg ∷ args) =
    let (rest, found) = replace_argument prefix new_value args in
    if has_prefix arg prefix then (new_value ∷ rest, found + 1) else (arg ∷ rest, found)

-- IsOTLPExplcitSet
unfoldable pub is_otlp_explicit_set : List String → Bool
is_otlp_explicit_set options = not (find_item "--collector.otlp.enabled=" options == "")

-- IsOTLPEnable
unfoldable pub is_otlp_enable : List String → Bool
is_otlp_enable options =
    if is_otlp_explicit_set options
    then not (find_item "--collector.otlp.enabled=true" options == "")
    else true

-- corev1.EnvVar: the source of a value is not read
pub record EnvVar (Source : Type 0) : Type 0 where
  pub name : String
  pub value : String
  pub value_from : Option Source

module _ {Source : Type 0} where
  -- RemoveEmptyVars
  unfoldable pub remove_empty_vars : List (EnvVar Source) → List (EnvVar Source)
  remove_empty_vars [] = []
  remove_empty_vars (v ∷ env_vars) =
      let rest = remove_empty_vars env_vars in
      if not (v.value == "") || is_some v.value_from then v ∷ rest else rest

  -- FindEnvVar
  unfoldable pub find_env_var : List (EnvVar Source) → String → Option (EnvVar Source)
  find_env_var [] name = none
  find_env_var (env ∷ envs) name = if env.name == name then some env else find_env_var envs name
