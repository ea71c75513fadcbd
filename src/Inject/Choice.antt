-- ===== src/Inject/Choice.antt =====
-- Which instance is selected for a deployment (pkg/inject/sidecar.go: Select, getJaeger).
use mathlib.Core.List.{Memᴰ}
use jaeger_operator.Base.{String, Bool, true, false, ◌&&◌, ◌||◌, not, ◌≡◌, refl, ◌∙◌, sym, ap}
use jaeger_operator.Base.{
  Option, none, some, List, [], ◌∷◌, ◌==◌, if◌then◌else◌, equal_fold, arith, ◌⊎◌,
}
use jaeger_operator.Base.{Bool-cases, inl, inr}
use jaeger_operator.Base.Dict.{GoMap, get}
use jaeger_operator.Kube.{Kube}
use jaeger_operator.Jaeger.{Jaeger}
use jaeger_operator.Inject.{Deployment, annotation, text_or_empty, best_candidate, get_jaeger}
use jaeger_operator.Inject.{get_jaeger_from_namespace, only, or_instance, select}

abbrev pub ns_name : GoMap String → String
ns_name ns = text_or_empty (get annotation ns)

or_true : {a b : Bool} → (a || b) ≡ true → (a ≡ true) ⊎ (b ≡ true)
or_true {a = true} e = inl refl
or_true {a = false} e = inr e

module _ {K : Kube} where
  -- The first instance that passes a test
  unfoldable pub first : (Jaeger K → Bool) → List (Jaeger K) → Option (Jaeger K)
  first test [] = none
  first test (j ∷ jaegers) = if test j then some j else first test jaegers

  abbrev pub is_named : String → Jaeger K → Bool
  is_named name j = j.name == name

  abbrev pub is_named_in : String → String → Jaeger K → Bool
  is_named_in namespace name j = j.name == name && namespace == j.namespace

  best_candidate_lem :
      (namespace name : String) (candidate : Option (Jaeger K)) (jaegers : List (Jaeger K))
      → best_candidate namespace name candidate jaegers
        ≡ or_instance
            (first (is_named_in namespace name) jaegers)
            (or_instance candidate (first (is_named name) jaegers))
  unfolding best_candidate first
  best_candidate_lem namespace name none [] = refl
  best_candidate_lem namespace name (some best) [] = refl
  best_candidate_lem namespace name candidate (j ∷ jaegers) = ground (
    arith,
    best_candidate_lem namespace name candidate jaegers,
    best_candidate_lem namespace name (some j) jaegers,
  )

  -- The instance of a name is the first one in the namespace of the deployment, and if there is none
  -- the first one anywhere.
  pub get_jaeger-first :
      (namespace name : String) (jaegers : List (Jaeger K))
      → get_jaeger namespace name jaegers
        ≡ or_instance (first (is_named_in namespace name) jaegers) (first (is_named name) jaegers)
  unfolding get_jaeger
  get_jaeger-first namespace name jaegers = best_candidate_lem namespace name none jaegers

  abbrev pub dep_name : Deployment K → String
  dep_name target = text_or_empty (get annotation target.meta.annotations)

  -- The deployment asks for an instance by its name.
  abbrev pub names_one : Deployment K → Bool
  names_one target = not (dep_name target == "") && not (equal_fold (dep_name target) "true")

  -- Why an instance may be the one that is selected: it has the name that the deployment or else the
  -- namespace asks for, or one of them asks for any instance, and it is the only one, at all or in
  -- the namespace of the deployment.
  pub data Suitable (target : Deployment K) (ns : GoMap String) (jaegers : List (Jaeger K))
      (j : Jaeger K) : Type 0 where
    named_by_deployment :
        names_one target ≡ true
        → Memᴰ j jaegers
        → j.name ≡ dep_name target
        → Suitable target ns jaegers j
    named_by_namespace :
        names_one target ≡ false
        → Memᴰ j jaegers
        → j.name ≡ ns_name ns
        → Suitable target ns jaegers j
    only_instance :
        names_one target ≡ false
        → (equal_fold (dep_name target) "true" ≡ true) ⊎ (equal_fold (ns_name ns) "true" ≡ true)
        → jaegers ≡ j ∷ []
        → Suitable target ns jaegers j
    only_in_namespace :
        names_one target ≡ false
        → (equal_fold (dep_name target) "true" ≡ true) ⊎ (equal_fold (ns_name ns) "true" ≡ true)
        → get_jaeger_from_namespace target.meta.namespace jaegers ≡ j ∷ []
        → Suitable target ns jaegers j

  some_inj : {a b : Jaeger K} → some a ≡ some b → a ≡ b
  some_inj e = cc

  none-some : {j : Jaeger K} → none ≡ some j → ⊥
  none-some e = cc

  first-Memᴰ :
      (test : Jaeger K → Bool) (jaegers : List (Jaeger K)) (j : Jaeger K)
      → first test jaegers ≡ some j
      → Memᴰ j jaegers × (test j ≡ true)
  unfolding first
  first-Memᴰ test [] j e = cc
  first-Memᴰ test (p ∷ jaegers) j e = elim (Bool-cases (test p)) [
    | inl passes ↦
        let same : j ≡ p = some_inj (sym e ∙ rw passes refl) in
        (Memᴰ.head same, ap test same ∙ passes)
    | inr fails ↦
        let (m, t) = first-Memᴰ test jaegers j (sym (rw fails refl) ∙ e) in (Memᴰ.tail m, t)
  ]

  only_eq : (jaegers : List (Jaeger K)) (j : Jaeger K) → only jaegers ≡ some j → jaegers ≡ j ∷ []
  only_eq [] j e = cc
  only_eq (p ∷ []) j e = cc
  only_eq (p ∷ q ∷ jaegers) j e = cc

  -- Where a choice of two comes from
  or_instance-cases :
      (a b : Option (Jaeger K)) (j : Jaeger K)
      → or_instance a b ≡ some j
      → (a ≡ some j) ⊎ (b ≡ some j)
  or_instance-cases none b j e = inr e
  or_instance-cases (some a) b j e = inl e

  named_true : (name : String) (j : Jaeger K) → is_named name j ≡ true → j.name ≡ name
  named_true name j e = ground arith

  named_in_true :
      (namespace name : String) (j : Jaeger K) → is_named_in namespace name j ≡ true → j.name ≡ name
  named_in_true namespace name j e = ground arith

  get_jaeger-Memᴰ :
      (namespace name : String) (jaegers : List (Jaeger K)) (j : Jaeger K)
      → get_jaeger namespace name jaegers ≡ some j
      → Memᴰ j jaegers × (j.name ≡ name)
  get_jaeger-Memᴰ namespace name jaegers j e =
      let there = first (is_named_in namespace name) jaegers in
      elim (or_instance-cases there (first (is_named name) jaegers) j
        (sym (get_jaeger-first namespace name jaegers) ∙ e)) [
          | inl near ↦
              let (m, t) = first-Memᴰ (is_named_in namespace name) jaegers j near in
              (m, named_in_true namespace name j t)
          | inr far ↦
              let (m, t) = first-Memᴰ (is_named name) jaegers j far in (m, named_true name j t)
        ]

  any_instance :
      (target : Deployment K) (ns : GoMap String) (jaegers : List (Jaeger K)) (j : Jaeger K)
      (asked : Bool)
      → names_one target ≡ false
      → (equal_fold (dep_name target) "true" || equal_fold (ns_name ns) "true") ≡ asked
      → (if asked
          then or_instance
              (only jaegers)
              (only (get_jaeger_from_namespace target.meta.namespace jaegers))
          else none)
        ≡ some j
      → Suitable target ns jaegers j
  any_instance target ns jaegers j true unnamed any e =
      let near = get_jaeger_from_namespace target.meta.namespace jaegers in
      elim (or_instance-cases (only jaegers) (only near) j e) [
        | inl one ↦ only_instance unnamed (or_true any) (only_eq jaegers j one)
        | inr one ↦ only_in_namespace unnamed (or_true any) (only_eq near j one)
      ]
  any_instance target ns jaegers j false unnamed any e = absurd (none-some e)

  by_choice :
      (target : Deployment K) (ns : GoMap String) (jaegers : List (Jaeger K)) (j : Jaeger K)
      (by_deployment asked : Bool)
      → names_one target ≡ by_deployment
      → (equal_fold (dep_name target) "true" || equal_fold (ns_name ns) "true") ≡ asked
      → (if by_deployment
          then get_jaeger target.meta.namespace (dep_name target) jaegers
          else or_instance (get_jaeger target.meta.namespace (ns_name ns) jaegers) (
              if asked
              then or_instance
                  (only jaegers)
                  (only (get_jaeger_from_namespace target.meta.namespace jaegers))
              else none))
        ≡ some j
      → Suitable target ns jaegers j
  by_choice target ns jaegers j true asked by any e =
      let (m, named) = get_jaeger-Memᴰ target.meta.namespace (dep_name target) jaegers j e in
      named_by_deployment by m named
  by_choice target ns jaegers j false asked by any e =
      let others =
        if asked
        then or_instance (only jaegers)
            (only (get_jaeger_from_namespace target.meta.namespace jaegers))
        else none in
      elim (or_instance-cases (get_jaeger target.meta.namespace (ns_name ns) jaegers) others j e) [
        | inl found ↦
            let (m, named) = get_jaeger-Memᴰ target.meta.namespace (ns_name ns) jaegers j found in
            named_by_namespace by m named
        | inr found ↦ any_instance target ns jaegers j asked by any found
      ]

  pub select-Suitable :
      (target : Deployment K) (ns : GoMap String) (jaegers : List (Jaeger K)) (j : Jaeger K)
      → select target ns jaegers ≡ some j
      → Suitable target ns jaegers j
  unfolding select
  select-Suitable target ns jaegers j e =
      by_choice target ns jaegers j (names_one target)
        (equal_fold (dep_name target) "true" || equal_fold (ns_name ns) "true") refl refl e

  -- A deployment that asks for an instance by its name is never given another one, and one of its own
  -- namespace is preferred.
  pub select_named :
      (target : Deployment K) (ns : GoMap String) (jaegers : List (Jaeger K))
      → not (dep_name target == "") && not (equal_fold (dep_name target) "true") ≡ true
      → select target ns jaegers
        ≡ or_instance
            (first (is_named_in target.meta.namespace (dep_name target)) jaegers)
            (first (is_named (dep_name target)) jaegers)
  unfolding select
  select_named target ns jaegers e =
      rw e (get_jaeger-first target.meta.namespace (dep_name target) jaegers)
