-- ===== src/Inject/Sidecar/Assigned.antt =====
-- To whom a deployment is assigned after an injection (pkg/inject/sidecar.go: the label).
use Prim.Native.String.{len}
use jaeger_operator.Base.{
  ℕ, String, ◌≡◌, ◌≢◌, refl, ◌∙◌, sym, ap, subst, true, false, not, List, ◌==◌, arith,
}
use jaeger_operator.Base.{
  Bool, Option, some, none, ◌≤◌, ◌<◌, if◌then◌else◌, Run, done, done_inj, [], ◌∷◌,
}
use jaeger_operator.Base.Dict.{get, entries, lookup-insert}
use jaeger_operator.Kube.{Kube}
use jaeger_operator.Jaeger.{Jaeger}
use jaeger_operator.Names.{label_value}
use jaeger_operator.Util.Text.{trim_non_alpha_numeric, literal}
use jaeger_operator.Util.Text.Bounds.{truncate_bounded, truncate_literal}
use jaeger_operator.Inject.{Deployment, ConfigMap, label}
use jaeger_operator.Inject.Agent.{Surroundings}
use jaeger_operator.Inject.Sidecar.{assigned_elsewhere, names_other, sidecar, inject}
use jaeger_operator.Inject.Sidecar.Runs.{Injected}
use jaeger_operator.Inject.Sidecar.Laws.{sidecar-Injected}

too_long : {n : ℕ} → n ≤ 63 → 63 < n → ⊥
too_long p q = omega arith

differing : (l name : String) → l ≢ name → (l == name) ≡ false
differing l name d = ground arith

text_same : (l name : String) → l ≡ name → (l == name) ≡ true
text_same l name e = ground arith

label_long : (n l name : String) → n ≡ l → len n ≤ 63 → 63 < len name → (l == name) ≡ false
label_long n l name e bound long =
    let short : len l ≤ 63 = subst (λ t. len t ≤ 63) e bound in
    differing l name (λ same. too_long (subst (λ t. len t ≤ 63) same short) long)

long_name_differs :
    (name l : String) → 63 < len name → label_value name ≡ done l → (l == name) ≡ false
long_name_differs name l long e =
    let (n, en, bound) = truncate_bounded (literal name ∷ []) 63 [] in
    let same : n ≡ l = done_inj (sym en ∙ e) in label_long n l name same bound long

short_name_same :
    (name l : String)
    → len name ≤ 63
    → trim_non_alpha_numeric name ≡ name
    → label_value name ≡ done l
    → (l == name) ≡ true
short_name_same name l short trimmed e =
    let same : l ≡ name = done_inj (sym e ∙ truncate_literal name 63 short) ∙ trimmed in
    text_same l name same

unequal_sym : (a b : String) → (a == b) ≡ false → (b == a) ≡ false
unequal_sym a b e = ground arith

module _ {K : Kube} where
  -- A deployment with a label of an instance is another one's unless the name is the label.
  labelled_elsewhere :
      (jaeger : Jaeger K) (dep : Deployment K) (l : String)
      → get label dep.meta.labels ≡ some l
      → assigned_elsewhere jaeger dep ≡ not (l == jaeger.name)
  labelled_elsewhere jaeger dep l e = ap (names_other jaeger.name) e

  label-Injected :
      (s : Surroundings K) (config_maps : List ConfigMap) (jaeger : Jaeger K)
      (dep dep' : Deployment K) (made : Injected s config_maps jaeger dep dep')
      → get label dep'.meta.labels ≡ some made.jaeger_name
  unfolding jaeger_operator.Base.string_dec
  label-Injected s config_maps jaeger dep dep' made =
      ap (λ l. get label l) made.labels
      ∙ lookup-insert label label made.jaeger_name (entries dep.meta.labels)

  -- A deployment that was injected for an instance with a name of at most 63 bytes that begins and ends
  -- with a letter or a digit is still the instance's: a later Sidecar updates it.
  pub sidecar_assigned :
      (s : Surroundings K) (config_maps : List ConfigMap) (jaeger : Jaeger K)
      (dep dep' : Deployment K)
      → len jaeger.name ≤ 63
      → trim_non_alpha_numeric jaeger.name ≡ jaeger.name
      → assigned_elsewhere jaeger dep ≡ false
      → sidecar s config_maps jaeger dep ≡ done dep'
      → (assigned_elsewhere jaeger dep' ≡ false)
        × (sidecar s config_maps jaeger dep' ≡ inject s config_maps jaeger dep')
  unfolding sidecar
  sidecar_assigned s config_maps jaeger dep dep' short trimmed free e =
      let made = sidecar-Injected s config_maps jaeger dep dep' free e in
      let own =
        labelled_elsewhere jaeger dep' made.jaeger_name
          (label-Injected s config_maps jaeger dep dep' made)
        ∙ ap not (short_name_same jaeger.name made.jaeger_name short trimmed made.is_label) in
      (own, rw own refl)

  -- A deployment that was injected for an instance with a name of more than 63 bytes counts as another
  -- instance's from then on: no later Sidecar for an instance of that name changes it.
  pub sidecar_stuck :
      (s s' : Surroundings K) (config_maps config_maps' : List ConfigMap)
      (jaeger jaeger' : Jaeger K) (dep dep' : Deployment K)
      → 63 < len jaeger.name
      → jaeger'.name ≡ jaeger.name
      → assigned_elsewhere jaeger dep ≡ false
      → sidecar s config_maps jaeger dep ≡ done dep'
      → sidecar s' config_maps' jaeger' dep' ≡ done dep'
  unfolding sidecar
  sidecar_stuck s s' config_maps config_maps' jaeger jaeger' dep dep' long same free e =
      let made = sidecar-Injected s config_maps jaeger dep dep' free e in
      let foreign : assigned_elsewhere jaeger' dep' ≡ true =
        labelled_elsewhere jaeger' dep' made.jaeger_name
          (label-Injected s config_maps jaeger dep dep' made)
        ∙ ap (λ n. not (made.jaeger_name == n)) same
        ∙ ap not (long_name_differs jaeger.name made.jaeger_name long made.is_label) in
      ap (λ b. if b then done dep' else inject s' config_maps' jaeger' dep') foreign

  -- The label that an injection leaves, for a short name and for a long one
  pub own_label :
      (s : Surroundings K) (config_maps : List ConfigMap) (jaeger : Jaeger K)
      (dep dep' : Deployment K)
      → len jaeger.name ≤ 63
      → trim_non_alpha_numeric jaeger.name ≡ jaeger.name
      → assigned_elsewhere jaeger dep ≡ false
      → sidecar s config_maps jaeger dep ≡ done dep'
      → get label dep'.meta.labels ≡ some jaeger.name
  own_label s config_maps jaeger dep dep' short trimmed free e =
      let made = sidecar-Injected s config_maps jaeger dep dep' free e in
      label-Injected s config_maps jaeger dep dep' made
      ∙ ap some (done_inj (sym made.is_label ∙ truncate_literal jaeger.name 63 short) ∙ trimmed)

  pub long_label :
      (s : Surroundings K) (config_maps : List ConfigMap) (jaeger : Jaeger K)
      (dep dep' : Deployment K)
      → 63 < len jaeger.name
      → assigned_elsewhere jaeger dep ≡ false
      → sidecar s config_maps jaeger dep ≡ done dep'
      → (l : String) × (get label dep'.meta.labels ≡ some l) × ((jaeger.name == l) ≡ false)
  long_label s config_maps jaeger dep dep' long free e =
      let made = sidecar-Injected s config_maps jaeger dep dep' free e in
      (
        made.jaeger_name,
        label-Injected s config_maps jaeger dep dep' made,
        unequal_sym made.jaeger_name jaeger.name
            (long_name_differs jaeger.name made.jaeger_name long made.is_label),
      )
