-- ===== src/Inject/Sync.antt =====
-- The deployments that are evaluated again when an instance changes (syncOnJaegerChanges of
-- pkg/controller/jaeger/jaeger_controller.go, IncreaseRevision of pkg/inject/sidecar.go). strconv is
-- written out for numbers of 64 bits. A namespace that was read answers the same when it is read again.
pub mod Laws
use Prim.Native.Nat.{◌/◌, ◌%◌}
use Prim.Native.String.{char_at}
use jaeger_operator.Base.{
  ℕ, zero, suc, ◌+◌, String, ◌<>◌, Bool, true, false, ◌||◌, not, Option, none, some,
}
use jaeger_operator.Base.{List, [], ◌∷◌, ◌++◌, ◌==◌, if◌then◌else◌, ltb, nat_eq, is_some}
use jaeger_operator.Base.Dict.{Dict, GoMap, get, insert}
use jaeger_operator.Kube.{Kube}
use jaeger_operator.Apply.{Reply, ok, err}
use jaeger_operator.Jaeger.{ℤ, pos, negsuc}
use jaeger_operator.Util.Ports.{parse_int}
use jaeger_operator.Inject.{Deployment, label, annotation, text_or_empty}
use jaeger_operator.Inject.Tags.{split_comma}
use jaeger_operator.Inject.Sidecar.{names_other}

-- AnnotationRev
abbrev pub annotation_rev : String
annotation_rev = "sidecar.jaegertracing.io/revision"

-- The digits of a number, in front of a text; a number has fewer digits than the fuel.
unfoldable pub decimal_from : ℕ → ℕ → String → String
decimal_from zero n text = text
decimal_from (suc fuel) n text =
    let text' = String.◌∷◌ (char_at "0123456789" (n % 10)) text in
    let rest = decimal_from fuel (n / 10) text' in if ltb n 10 then text' else rest

unfoldable pub decimal : ℕ → String
unfolding decimal_from
decimal n = decimal_from 20 n ""

-- strconv.Itoa
abbrev pub itoa : ℤ → String
itoa (pos n) = decimal n
itoa (negsuc n) = "-" <> decimal (suc n)

-- rev + 1 on 64 bits
abbrev pub next_revision : ℤ → ℤ
next_revision (pos n) =
    if nat_eq n 9223372036854775807 then negsuc 9223372036854775807 else pos (suc n)
next_revision (negsuc zero) = pos 0
next_revision (negsuc (suc n)) = negsuc n

unfoldable pub revision_text : String → String
unfolding parse_int decimal
revision_text v = elim (parse_int 9223372036854775807 v) [
  | none ↦ "0"
  | some rev ↦ itoa (next_revision rev)
]

-- IncreaseRevision
unfoldable pub increase_revision : GoMap String → GoMap String
unfolding revision_text
increase_revision none = none
increase_revision (some annotations) =
    let v = text_or_empty (get annotation_rev (some annotations)) in
    some (insert annotation_rev (revision_text v) annotations)

-- The lists of the watched namespaces, up to the first error
unfoldable pub list_all {ℓ} :
    {A : Type ℓ} → (String → Option (List A)) → List String → Option (List A)
list_all list [] = some []
list_all list (ns ∷ namespaces) = elim (list ns) [
  | none ↦ none
  | some items ↦ elim (list_all list namespaces) [ none ↦ none | some rest ↦ some (items ++ rest) ]
]

abbrev pub asks_for_agent : Option (GoMap String) → Bool
asks_for_agent none = false
asks_for_agent (some annotations) = is_some (get annotation annotations)

module _ {K : Kube} where
  abbrev pub revised : Deployment K → Deployment K
  revised dep = record dep {
    meta = record (dep.meta) { annotations = increase_revision dep.meta.annotations };
  }

  -- A deployment is evaluated again if it or its namespace asks for an agent, unless it is assigned to
  -- another instance.
  abbrev pub is_concerned : (String → Option (GoMap String)) → String → Deployment K → Bool
  is_concerned namespace_annotations jaeger_name dep =
      if names_other jaeger_name (get label dep.meta.labels)
      then false
      else is_some (get annotation dep.meta.annotations)
        || asks_for_agent (namespace_annotations dep.meta.namespace)

  -- The loop over the deployments
  unfoldable pub concerned :
      (String → Option (GoMap String)) → String → List (Deployment K) → List (Deployment K)
  unfolding increase_revision
  concerned namespace_annotations jaeger_name [] = []
  concerned namespace_annotations jaeger_name (dep ∷ deployments) =
      let deps = concerned namespace_annotations jaeger_name deployments in
      if is_concerned namespace_annotations jaeger_name dep then revised dep ∷ deps else deps

  module _ {State Fault : Type 0} (update : Deployment K → State → Reply Fault × State) where
    abbrev after_update : Reply Fault × State → (State → Reply Fault × State) → Reply Fault × State
    after_update (ok, s) k = k s
    after_update (err e, s) k = (err e, s)

    -- The loop of the updates
    unfoldable pub update_each : List (Deployment K) → State → Reply Fault × State
    update_each [] s = (ok, s)
    update_each (dep ∷ deps) s = after_update (update dep s) (update_each deps)

    -- syncOnJaegerChanges; `unlisted` is the error of the lists
    unfoldable pub sync_on_jaeger_changes :
        String
        → (String → Option (List (Deployment K)))
        → (String → Option (GoMap String))
        → Fault
        → String
        → State
        → Reply Fault × State
    unfolding list_all concerned update_each split_comma
    sync_on_jaeger_changes watch_namespace list namespace_annotations unlisted jaeger_name s =
        let namespaces = if watch_namespace == "" then "" ∷ [] else split_comma watch_namespace in
        elim (list_all list namespaces) [
          | none ↦ (err unlisted, s)
          | some deployments ↦
              update_each (concerned namespace_annotations jaeger_name deployments) s
        ]
