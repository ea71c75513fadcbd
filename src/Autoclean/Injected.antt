-- ===== src/Autoclean/Injected.antt =====
-- What becomes of a deployment that was injected for an instance that still exists
-- (pkg/inject/sidecar.go and pkg/autoclean/main.go together).
use Prim.Native.String.{len}
use jaeger_operator.Base.{String, ◌≡◌, sym, ◌∙◌, ap, Bool, true, false, List, ◌∷◌, ◌++◌, Option}
use jaeger_operator.Base.{◌≤◌, ◌<◌, some, none, done, ◌==◌, if◌then◌else◌}
use jaeger_operator.Base.Dict.{get}
use jaeger_operator.Kube.{Kube}
use jaeger_operator.Jaeger.{Jaeger}
use jaeger_operator.Util.Text.{trim_non_alpha_numeric}
use jaeger_operator.Inject.{Deployment, ConfigMap, label}
use jaeger_operator.Inject.Agent.{Surroundings}
use jaeger_operator.Inject.Sidecar.{sidecar, assigned_elsewhere, clean_sidecar}
use jaeger_operator.Inject.Sidecar.Assigned.{own_label, long_label}
use jaeger_operator.Autoclean.{clean_deployments, cleaned_in_front}
use jaeger_operator.Autoclean.Laws.{
  has_instance, orphans, unless_among, listed, watched, orphans-append, clean_deployments-orphans,
}

module _ {K : Kube} where
  -- A round over some namespaces that lists a deployment between others
  among :
      (openshift : Bool) (watch_namespace : String) (ld : String → List (Deployment K))
      (li : String → List (Jaeger K)) (before after : List (Deployment K)) (dep : Deployment K)
      → listed ld (watched watch_namespace) ≡ before ++ dep ∷ after
      → clean_deployments openshift watch_namespace ld li
        ≡ orphans openshift (listed li (watched watch_namespace)) before
          ++ cleaned_in_front openshift dep
              (unless_among
                (λ name. has_instance name (listed li (watched watch_namespace)))
                (get label dep.meta.labels))
              (orphans openshift (listed li (watched watch_namespace)) after)
  unfolding orphans
  among openshift watch_namespace ld li before after dep found =
      let instances = listed li (watched watch_namespace) in
      clean_deployments-orphans openshift watch_namespace ld li
      ∙ ap (orphans openshift instances) found
      ∙ orphans-append openshift instances before (dep ∷ after)

  -- A deployment that was injected for an instance with a name of at most 63 bytes that begins and ends
  -- with a letter or a digit keeps its agent as long as an instance of that name is listed in one of
  -- the watched namespaces: a round asks for the updates that it asks for without the deployment.
  pub injected_kept :
      (s : Surroundings K) (config_maps : List ConfigMap) (jaeger : Jaeger K)
      (dep dep' : Deployment K) (openshift : Bool) (watch_namespace : String)
      (ld : String → List (Deployment K)) (li : String → List (Jaeger K))
      (before after : List (Deployment K))
      → len jaeger.name ≤ 63
      → trim_non_alpha_numeric jaeger.name ≡ jaeger.name
      → assigned_elsewhere jaeger dep ≡ false
      → sidecar s config_maps jaeger dep ≡ done dep'
      → has_instance jaeger.name (listed li (watched watch_namespace)) ≡ true
      → listed ld (watched watch_namespace) ≡ before ++ dep' ∷ after
      → clean_deployments openshift watch_namespace ld li
        ≡ orphans openshift (listed li (watched watch_namespace)) (before ++ after)
  injected_kept s config_maps jaeger dep dep' openshift watch_namespace ld li before after short
        trimmed free e exists found =
      let instances = listed li (watched watch_namespace) in
      let others = orphans openshift instances after in
      let front = λ (l : Option String).
        orphans openshift instances before ++ cleaned_in_front openshift dep' l others in
      among openshift watch_namespace ld li before after dep' found
      ∙ ap (λ l. front (unless_among (λ name. has_instance name instances) l))
          (own_label s config_maps jaeger dep dep' short trimmed free e)
      ∙ ap (λ b. front (if b then none else some jaeger.name)) exists
      ∙ sym (orphans-append openshift instances before after)

  -- A deployment that was injected for an instance with a name of more than 63 bytes carries a label
  -- that is not the name of the instance, and loses its agent in the next round, whether the instance
  -- is listed or not, unless another instance has the name on the label.
  pub injected_cleaned :
      (s : Surroundings K) (config_maps : List ConfigMap) (jaeger : Jaeger K)
      (dep dep' : Deployment K) (openshift : Bool) (watch_namespace : String)
      (ld : String → List (Deployment K)) (li : String → List (Jaeger K))
      (before after : List (Deployment K))
      → 63 < len jaeger.name
      → assigned_elsewhere jaeger dep ≡ false
      → sidecar s config_maps jaeger dep ≡ done dep'
      → listed ld (watched watch_namespace) ≡ before ++ dep' ∷ after
      → (l : String) × (get label dep'.meta.labels ≡ some l)
        × ((jaeger.name == l) ≡ false)
        × (has_instance l (listed li (watched watch_namespace)) ≡ false
            → clean_deployments openshift watch_namespace ld li
              ≡ orphans openshift (listed li (watched watch_namespace)) before
                ++ clean_sidecar openshift l dep'
                  ∷ orphans openshift (listed li (watched watch_namespace)) after)
  injected_cleaned s config_maps jaeger dep dep' openshift watch_namespace ld li before after long
        free e found =
      let instances = listed li (watched watch_namespace) in
      let others = orphans openshift instances after in
      let front = λ (l : Option String).
        orphans openshift instances before ++ cleaned_in_front openshift dep' l others in
      let (l, labelled, differs) = long_label s config_maps jaeger dep dep' long free e in
      (
        l,
        labelled,
        differs,
        λ unnamed.
            among openshift watch_namespace ld li before after dep' found
            ∙ ap (λ l. front (unless_among (λ name. has_instance name instances) l)) labelled
            ∙ ap (λ b. front (if b then none else some l)) unnamed,
      )
