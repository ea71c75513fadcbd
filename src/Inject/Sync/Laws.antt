-- ===== src/Inject/Sync/Laws.antt =====
-- What a change of an instance does to deployments (syncOnJaegerChanges of
-- pkg/controller/jaeger/jaeger_controller.go).
use mathlib.Core.List.{Memᴰ}
use jaeger_operator.Base.{
  String, ◌≡◌, refl, ◌∙◌, ap, Bool, true, false, Option, none, some, List, [], ◌∷◌, All,
}
use jaeger_operator.Base.{◌==◌, if◌then◌else◌}
use jaeger_operator.Base.Dict.{GoMap, get, lookup, lookup-insert}
use jaeger_operator.Kube.{Kube}
use jaeger_operator.Inject.{Deployment, text_or_empty}
use jaeger_operator.Inject.Sync.{
  annotation_rev, increase_revision, revised, is_concerned, concerned,
}
use jaeger_operator.Inject.Sync.{revision_text}

-- Only the revision is changed among the annotations, and none is added where there is no map.
pub increase_revision_keeps :
    (annotations : GoMap String) (k : String)
    → (k == annotation_rev) ≡ false
    → get k (increase_revision annotations) ≡ get k annotations
unfolding increase_revision
increase_revision_keeps none k other = refl
increase_revision_keeps (some annotations) k other =
    let v = revision_text (text_or_empty (get annotation_rev (some annotations))) in
    lookup-insert k annotation_rev v annotations
    ∙ ap (λ b. if b then some v else lookup k annotations) other

module _ {K : Kube} (namespace_annotations : String → Option (GoMap String))
    (jaeger_name : String) where
  -- A deployment that is to be updated: one of a list with its revision increased
  pub record Revised (deployments : List (Deployment K)) (dep' : Deployment K) : Type 0 where
    pub dep : Deployment K
    pub is_listed : Memᴰ dep deployments
    pub reason : is_concerned namespace_annotations jaeger_name dep ≡ true
    pub is_revised : dep' ≡ revised dep

  longer :
      (d : Deployment K) (deployments l : List (Deployment K))
      → All (Revised deployments) l
      → All (Revised (d ∷ deployments)) l
  longer d deployments [] h = tt
  longer d deployments (x ∷ l) (h, hs) = (
    record {
      dep = h.dep;
      is_listed = Memᴰ.tail h.is_listed;
      reason = h.reason;
      is_revised = h.is_revised;
    },
    longer d deployments l hs,
  )

  one_more :
      (dep : Deployment K) (deployments l : List (Deployment K)) (test : Bool)
      → is_concerned namespace_annotations jaeger_name dep ≡ test
      → All (Revised (dep ∷ deployments)) l
      → All (Revised (dep ∷ deployments)) (if test then revised dep ∷ l else l)
  one_more dep deployments l true e h =
      (record { dep = dep; is_listed = Memᴰ.head refl; reason = e; is_revised = refl }, h)
  one_more dep deployments l false e h = h

  -- A change of an instance updates only deployments that ask for an agent, themselves or by their
  -- namespace, and that are not assigned to an instance of another name; of those, only the revision.
  pub concerned-Revised :
      (deployments : List (Deployment K))
      → All (Revised deployments) (concerned namespace_annotations jaeger_name deployments)
  unfolding concerned
  concerned-Revised [] = tt
  concerned-Revised (dep ∷ deployments) =
      let rest = concerned namespace_annotations jaeger_name deployments in
      one_more dep deployments rest (is_concerned namespace_annotations jaeger_name dep) refl
        (longer dep deployments rest (concerned-Revised deployments))
