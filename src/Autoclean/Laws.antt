-- ===== src/Autoclean/Laws.antt =====
-- Which deployments lose their agents (pkg/autoclean/main.go).
use jaeger_operator.Base.{String, ◌≡◌, refl, ◌∙◌, sym, ap, Bool, true, false}
use jaeger_operator.Base.{
  Option, some, none, is_some, List, [], ◌∷◌, ◌++◌, ◌==◌, ◌||◌, if◌then◌else◌, arith,
}
use jaeger_operator.Base.Dict.{Dict, get, insert, lookup, lookup-insert}
use jaeger_operator.Kube.{Kube}
use jaeger_operator.Jaeger.{Jaeger}
use jaeger_operator.Inject.{Deployment, label}
use jaeger_operator.Inject.Tags.{split_comma}
use jaeger_operator.Autoclean.{add_instances, gather, orphaned_by, cleaned_in_front, clean_each}
use jaeger_operator.Autoclean.{clean_deployments}

-- All that a function lists for some namespaces
module _ {ℓ} {A : Type ℓ} where
  unfoldable pub listed : (String → List A) → List String → List A
  listed list [] = []
  listed list (ns ∷ namespaces) = list ns ++ listed list namespaces

  append_assoc : (xs ys zs : List A) → (xs ++ ys) ++ zs ≡ xs ++ (ys ++ zs)
  append_assoc [] ys zs = refl
  append_assoc (x ∷ xs) ys zs = ap (λ l. x ∷ l) (append_assoc xs ys zs)

  pub append-nil : (xs : List A) → xs ++ [] ≡ xs
  append-nil [] = refl
  append-nil (x ∷ xs) = ap (λ l. x ∷ l) (append-nil xs)

or_false : (b : Bool) → (b || false) ≡ b
or_false true = refl
or_false false = refl

-- The name on a label, unless it is among some names
abbrev pub unless_among : (String → Bool) → Option String → Option String
unless_among among none = none
unless_among among (some name) = if among name then none else some name

-- The namespaces that are watched: the empty text stands for all
abbrev pub watched : String → List String
watched watch_namespace = if watch_namespace == "" then "" ∷ [] else split_comma watch_namespace

module _ {K : Kube} where
  -- A list of instances has one of a name.
  unfoldable pub has_instance : String → List (Jaeger K) → Bool
  has_instance name [] = false
  has_instance name (j ∷ instances) = if j.name == name then true else has_instance name instances

  -- Reference: the labelled deployments whose instance is not in a list, cleaned, in their order.
  unfoldable pub orphans : Bool → List (Jaeger K) → List (Deployment K) → List (Deployment K)
  unfolding has_instance
  orphans openshift instances [] = []
  orphans openshift instances (dep ∷ deployments) =
      cleaned_in_front openshift dep
        (unless_among (λ name. has_instance name instances) (get label dep.meta.labels))
        (orphans openshift instances deployments)

  front_append :
      (openshift : Bool) (dep : Deployment K) (named : Option String) (xs ys : List (Deployment K))
      → cleaned_in_front openshift dep named (xs ++ ys)
        ≡ cleaned_in_front openshift dep named xs ++ ys
  front_append openshift dep none xs ys = refl
  front_append openshift dep (some name) xs ys = refl

  pub orphans-append :
      (openshift : Bool) (instances : List (Jaeger K)) (xs ys : List (Deployment K))
      → orphans openshift instances (xs ++ ys)
        ≡ orphans openshift instances xs ++ orphans openshift instances ys
  unfolding orphans
  orphans-append openshift instances [] ys = refl
  orphans-append openshift instances (dep ∷ xs) ys =
      let named = unless_among (λ name. has_instance name instances) (get label dep.meta.labels) in
      ap (cleaned_in_front openshift dep named) (orphans-append openshift instances xs ys)
      ∙ front_append openshift dep named (orphans openshift instances xs)
          (orphans openshift instances ys)

  lookup-add_instances :
      (name : String) (instances : List (Jaeger K)) (m : Dict (Jaeger K))
      → is_some (lookup name (add_instances instances m))
        ≡ (has_instance name instances || is_some (lookup name m))
  unfolding add_instances has_instance
  lookup-add_instances name [] m = refl
  lookup-add_instances name (j ∷ instances) m = ground (
    arith,
    lookup-add_instances name instances (insert j.name j m),
    lookup-insert name j.name j m,
  )

  add_instances-append :
      (xs ys : List (Jaeger K)) (m : Dict (Jaeger K))
      → add_instances (xs ++ ys) m ≡ add_instances ys (add_instances xs m)
  unfolding add_instances
  add_instances-append [] ys m = refl
  add_instances-append (j ∷ xs) ys m = add_instances-append xs ys (insert j.name j m)

  gather-listed :
      (ld : String → List (Deployment K)) (li : String → List (Jaeger K)) (namespaces : List String)
      (deployments : List (Deployment K)) (m : Dict (Jaeger K))
      → gather ld li namespaces deployments m
        ≡ (deployments ++ listed ld namespaces, add_instances (listed li namespaces) m)
  unfolding gather listed add_instances
  gather-listed ld li [] deployments m = ap (λ l. (l, m)) (sym (append-nil deployments))
  gather-listed ld li (ns ∷ namespaces) deployments m =
      gather-listed ld li namespaces (deployments ++ ld ns) (add_instances (li ns) m)
      ∙ ap (λ l. (l, add_instances (listed li namespaces) (add_instances (li ns) m)))
          (append_assoc deployments (ld ns) (listed ld namespaces))
      ∙ ap (λ m'. (deployments ++ (ld ns ++ listed ld namespaces), m'))
          (sym (add_instances-append (li ns) (listed li namespaces) m))

  orphaned_by_lem :
      (instances : List (Jaeger K)) (l : Option String)
      → orphaned_by (add_instances instances []) l
        ≡ unless_among (λ name. has_instance name instances) l
  unfolding lookup
  orphaned_by_lem instances none = refl
  orphaned_by_lem instances (some name) =
      ap (λ b. if b then none else some name)
        (lookup-add_instances name instances [] ∙ or_false (has_instance name instances))

  clean_each-orphans :
      (openshift : Bool) (instances : List (Jaeger K)) (deployments : List (Deployment K))
      → clean_each openshift (add_instances instances []) deployments
        ≡ orphans openshift instances deployments
  unfolding clean_each orphans
  clean_each-orphans openshift instances [] = refl
  clean_each-orphans openshift instances (dep ∷ deployments) =
      ap
        (λ l.
          cleaned_in_front openshift dep l
            (clean_each openshift (add_instances instances []) deployments))
        (orphaned_by_lem instances (get label dep.meta.labels))
      ∙ ap
          (cleaned_in_front openshift dep
            (unless_among (λ name. has_instance name instances) (get label dep.meta.labels)))
          (clean_each-orphans openshift instances deployments)

  -- A round asks for the update of exactly the deployments of the watched namespaces with a label that
  -- is the name of no instance that was listed there, each of them cleaned, in their order.
  pub clean_deployments-orphans :
      (openshift : Bool) (watch_namespace : String) (ld : String → List (Deployment K))
      (li : String → List (Jaeger K))
      → clean_deployments openshift watch_namespace ld li
        ≡ orphans openshift
            (listed li (watched watch_namespace))
            (listed ld (watched watch_namespace))
  unfolding clean_deployments
  clean_deployments-orphans openshift watch_namespace ld li =
      ap (λ g. clean_each openshift g.1 g.0) (gather-listed ld li (watched watch_namespace) [] [])
      ∙ clean_each-orphans openshift (listed li (watched watch_namespace))
          (listed ld (watched watch_namespace))
