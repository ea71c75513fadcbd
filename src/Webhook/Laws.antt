-- ===== src/Webhook/Laws.antt =====
-- When the webhook changes a deployment (controllers/appsv1/deployment_webhook.go).
use jaeger_operator.Base.{ℕ, String, ◌≡◌, refl, ◌∙◌, sym, ap, Bool, true, false, not}
use jaeger_operator.Base.{Option, some, none, is_some, List, [], ◌==◌}
use jaeger_operator.Base.{Run, done, ◌>>=◌, >>=-eq-done, done_inj, if◌then◌else◌}
use jaeger_operator.Base.Dict.{GoMap, get}
use jaeger_operator.Kube.{Kube}
use jaeger_operator.Jaeger.{Jaeger}
use jaeger_operator.Ca.{Bundle}
use jaeger_operator.Inject.{
  Deployment, ConfigMap, agent_index, label, is_jaeger, needed, select, has_jaeger_agent,
  matched_config_maps,
}
use jaeger_operator.Inject.Choice.{Suitable, select-Suitable}
use jaeger_operator.Inject.Agent.{Surroundings}
use jaeger_operator.Inject.Sidecar.{sidecar, clean_sidecar, inject, assigned_elsewhere}
use jaeger_operator.Inject.Sidecar.Laws.{agents, agents-sidecar}
use jaeger_operator.Webhook.{
  Request, Response, allowed, errored, patched, respond, live, annotations_of,
}
use jaeger_operator.Webhook.{handle, handle_decoded, handle_listed, handle_needed, handle_selected}
use jaeger_operator.Webhook.{handle_unneeded, should_handle_deployment, reconcile_config_maps}

module _ {K : Kube} (s : Surroundings K) (req : Request K) where
  abbrev pub ns_of : GoMap String
  ns_of = annotations_of req.namespace_annotations

  -- What Sidecar did: the deployment carries the label of another instance and is as it was, or it has
  -- one agent if it had none, and as many as before otherwise.
  pub record Added (jaeger : Jaeger K) (dep dep' : Deployment K) : Type 0 where
    pub elsewhere : assigned_elsewhere jaeger dep ≡ true → dep' ≡ dep
    pub agents :
        assigned_elsewhere jaeger dep ≡ false
        → agents dep'.containers
          ≡ (if is_some (agent_index dep.containers) then agents dep.containers else 1)

  -- Why a deployment may be changed: it needs an agent, and has become what Sidecar makes of it for an
  -- instance that suits it and is not being deleted; or it needs none, has an agent, carries the label of an
  -- instance, and has become what CleanSidecar makes of it.
  pub data Justified (jaegers : List (Jaeger K)) (dep dep' : Deployment K) : Type 0 where
    injected :
        (jaeger : Jaeger K)
        → needed dep ns_of ≡ true
        → Suitable dep ns_of jaegers jaeger
        → jaeger.deletion_timestamp ≡ none
        → sidecar s (matched_config_maps dep req.config_maps) jaeger dep ≡ done dep'
        → Added jaeger dep dep'
        → Justified jaegers dep dep'
    cleaned :
        (instance_name : String)
        → needed dep ns_of ≡ false
        → is_some (has_jaeger_agent dep) ≡ true
        → get label dep.meta.labels ≡ some instance_name
        → clean_sidecar s.openshift instance_name dep ≡ dep'
        → Justified jaegers dep dep'

  some_inj : {a b : Jaeger K} → some a ≡ some b → a ≡ b
  some_inj e = cc

  patched_inj : {a b : Deployment K} → patched a ≡ patched b → a ≡ b
  patched_inj e = cc

  allowed_patched : {m : String} {a : Deployment K} → allowed m ≡ patched a → ⊥
  allowed_patched e = cc

  errored_patched : {n : ℕ} {a : Deployment K} → errored n ≡ patched a → ⊥
  errored_patched e = cc

  respond_patched :
      (encodes : Bool) (dep dep' : Deployment K)
      → (if encodes then patched dep else errored 500) ≡ patched dep'
      → dep ≡ dep'
  respond_patched true dep dep' e = patched_inj e
  respond_patched false dep dep' e = absurd (errored_patched e)

  handle_selected_patched :
      (jaeger : Jaeger K) (dep dep' : Deployment K) (asked : List Bundle)
      → handle_selected s req jaeger dep ≡ done (patched dep', asked)
      → sidecar s (matched_config_maps dep req.config_maps) jaeger dep ≡ done dep'
  unfolding handle_selected
  handle_selected_patched jaeger dep dep' asked e =
      let cms = matched_config_maps dep req.config_maps in
      let (asked1, _, e1) =
        >>=-eq-done
          (if jaeger.namespace == dep.meta.namespace
            then done []
            else reconcile_config_maps s.openshift req jaeger dep)
          (λ asked. sidecar s cms jaeger dep >>= λ dep'. done (respond req dep', asked)) e in
      let (made, there, e2) =
        >>=-eq-done (sidecar s cms jaeger dep) (λ dep'. done (respond req dep', asked1)) e1 in
      there ∙ ap done (respond_patched (req.encodes made) made dep' (ap (λ r. r.0) (done_inj e2)))

  unneeded_patched :
      (dep dep' : Deployment K) (agent : Bool) (l : Option String)
      → (if agent
          then (elim l [
            | some instance_name ↦ respond req (clean_sidecar s.openshift instance_name dep)
            | none ↦ allowed "no action needed"
          ])
          else allowed "no action needed")
        ≡ patched dep'
      → (instance_name : String) × (agent ≡ true)
        × (l ≡ some instance_name)
        × (clean_sidecar s.openshift instance_name dep ≡ dep')
  unneeded_patched dep dep' false l e = absurd (allowed_patched e)
  unneeded_patched dep dep' true none e = absurd (allowed_patched e)
  unneeded_patched dep dep' true (some instance_name) e =
      let cleaned = clean_sidecar s.openshift instance_name dep in
      (instance_name, refl, refl, respond_patched (req.encodes cleaned) cleaned dep' e)

  sidecar-Added :
      (config_maps : List ConfigMap) (jaeger : Jaeger K) (dep dep' : Deployment K)
      → sidecar s config_maps jaeger dep ≡ done dep'
      → Added jaeger dep dep'
  unfolding sidecar
  sidecar-Added config_maps jaeger dep dep' e = record {
    elsewhere = λ taken. sym (
        done_inj
          (sym (ap (λ b. if b then done dep else inject s config_maps jaeger dep) taken) ∙ e));
    agents = λ free. agents-sidecar s config_maps jaeger dep dep' free e;
  }

  undeleted :
      (deletion : Option String) (j jaeger : Jaeger K)
      → (if is_some deletion then none else some j) ≡ some jaeger
      → (j ≡ jaeger) × (deletion ≡ none)
  undeleted none j jaeger e = (some_inj e, refl)
  undeleted (some t) j jaeger e = cc

  live-some :
      (chosen : Option (Jaeger K)) (jaeger : Jaeger K)
      → live chosen ≡ some jaeger
      → (chosen ≡ some jaeger) × (jaeger.deletion_timestamp ≡ none)
  live-some none jaeger e = cc
  live-some (some j) jaeger e =
      let (same, gone) = undeleted j.deletion_timestamp j jaeger e in
      (ap some same, ap (λ i. i.deletion_timestamp) (sym same) ∙ gone)

  handle_needed_patched :
      (jaegers : List (Jaeger K)) (dep dep' : Deployment K) (asked : List Bundle)
      (chosen : Option (Jaeger K))
      → live (select dep ns_of jaegers) ≡ chosen
      → needed dep ns_of ≡ true
      → handle_needed s req chosen dep ≡ done (patched dep', asked)
      → Justified jaegers dep dep'
  unfolding handle_needed
  handle_needed_patched jaegers dep dep' asked none sel need e =
      absurd (allowed_patched (ap (λ r. r.0) (done_inj e)))
  handle_needed_patched jaegers dep dep' asked (some jaeger) sel need e =
      let (chosen, alive) = live-some (select dep ns_of jaegers) jaeger sel in
      injected jaeger need (select-Suitable dep ns_of jaegers jaeger chosen) alive
        (handle_selected_patched jaeger dep dep' asked e)
        (sidecar-Added (matched_config_maps dep req.config_maps) jaeger dep dep'
          (handle_selected_patched jaeger dep dep' asked e))

  handle_listed_patched :
      (jaegers : List (Jaeger K)) (dep dep' : Deployment K) (asked : List Bundle) (need : Bool)
      → needed dep ns_of ≡ need
      → (if need
          then handle_needed s req (live (select dep ns_of jaegers)) dep
          else done (handle_unneeded s req dep, []))
        ≡ done (patched dep', asked)
      → Justified jaegers dep dep'
  unfolding handle_unneeded
  handle_listed_patched jaegers dep dep' asked true need e =
      handle_needed_patched jaegers dep dep' asked (live (select dep ns_of jaegers)) refl need e
  handle_listed_patched jaegers dep dep' asked false need e =
      let (instance_name, there, labelled, made) =
        unneeded_patched dep dep' (is_some (has_jaeger_agent dep)) (get label dep.meta.labels)
          (ap (λ r. r.0) (done_inj e)) in
      cleaned instance_name need there labelled made

  decoded_patched :
      (listed : Option (List (Jaeger K))) (dep dep' : Deployment K) (asked : List Bundle)
      (own : Bool)
      → if◌then◌else◌ {A = Run (Response K × List Bundle)} own
          (done (allowed "is jaeger deployment, we do not touch it", []))
          (elim listed [
            | none ↦ done (errored 500, [])
            | some jaegers ↦ handle_listed s req jaegers dep
          ])
        ≡ done (patched dep', asked)
      → (own ≡ false)
        × ((jaegers : List (Jaeger K)) × (listed ≡ some jaegers) × Justified jaegers dep dep')
  unfolding handle_listed
  decoded_patched listed dep dep' asked true e =
      absurd (allowed_patched (ap (λ r. r.0) (done_inj e)))
  decoded_patched none dep dep' asked false e =
      absurd (errored_patched (ap (λ r. r.0) (done_inj e)))
  decoded_patched (some jaegers) dep dep' asked false e = (
    refl,
    (jaegers, refl, handle_listed_patched jaegers dep dep' asked (needed dep ns_of) refl e),
  )

  -- What a change of a deployment by the webhook has behind it.
  pub record Handled (dep' : Deployment K) : Type 0 where
    pub watched : should_handle_deployment req ≡ true
    pub dep : Deployment K
    pub is_decoded : req.decoded ≡ some dep
    pub not_own : is_jaeger dep ≡ false
    pub jaegers : List (Jaeger K)
    pub is_listed : req.jaegers ≡ some jaegers
    pub justified : Justified jaegers dep dep'

  handled :
      (decoded : Option (Deployment K)) (dep' : Deployment K) (asked : List Bundle) (watched : Bool)
      → should_handle_deployment req ≡ watched
      → req.decoded ≡ decoded
      → if◌then◌else◌ {A = Run (Response K × List Bundle)}
          (not watched)
          (done (allowed "not watching in namespace, we do not touch the deployment", []))
          (elim decoded [ none ↦ done (errored 400, []) | some dep ↦ handle_decoded s req dep ])
        ≡ done (patched dep', asked)
      → Handled dep'
  unfolding handle_decoded
  handled decoded dep' asked false w d e = absurd (allowed_patched (ap (λ r. r.0) (done_inj e)))
  handled none dep' asked true w d e = absurd (errored_patched (ap (λ r. r.0) (done_inj e)))
  handled (some dep) dep' asked true w d e =
      let (not_own, (jaegers, is_listed, why)) =
        decoded_patched req.jaegers dep dep' asked (is_jaeger dep) e in
      record {
        watched = w;
        dep = dep;
        is_decoded = d;
        not_own = not_own;
        jaegers = jaegers;
        is_listed = is_listed;
        justified = why;
      }

  -- The webhook changes a deployment only in a watched namespace, never one of Jaeger's own but the
  -- query, and only in one of two ways: the deployment needs an agent and becomes what Sidecar makes of
  -- it for an instance that suits it and is not being deleted (it then has an agent, or is as it was
  -- where it carries the label of another instance), or it needs none, has one and carries the label
  -- of an instance, and becomes what CleanSidecar makes of it.
  pub handle-Handled :
      (dep' : Deployment K) (asked : List Bundle)
      → handle s req ≡ done (patched dep', asked)
      → Handled dep'
  unfolding handle
  handle-Handled dep' asked e =
      handled req.decoded dep' asked (should_handle_deployment req) refl refl e
