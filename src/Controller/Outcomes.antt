-- ===== src/Controller/Outcomes.antt =====
-- All that a reconciliation can end with (Reconcile of pkg/controller/jaeger/jaeger_controller.go).
use jaeger_operator.Base.{String, ◌≡◌, ◌≢◌, refl, Bool, true, false, ◌||◌, not, Option, none, some}
use jaeger_operator.Base.{◌==◌, if◌then◌else◌, ◌⊎◌, inl, inr, Bool-cases, arith}
use jaeger_operator.Base.Dict.{get}
use jaeger_operator.Kube.{Kube}
use jaeger_operator.Apply.{Reply, ok, err}
use jaeger_operator.Jaeger.{Jaeger}
use jaeger_operator.Controller.{
  Flags, Operations, Found, instance_gone, unreadable, instance_read, then_do, validate,
}
use jaeger_operator.Controller.{
  apply_strategy, after_apply, after_store, store_status, reconcile_own, reconcile_owned,
  after_claim,
}
use jaeger_operator.Controller.{after_fetch, reconcile_instance, reconcile_request}
use jaeger_operator.Controller.{operated_by, with_phase, result, labelled}

module _ {K : Kube} (ops : Operations K) (f : Flags) where
  open ops use {State, Fault, Plan}

  -- An instance that is read in a state, synchronized with the state after it, and valid
  pub record Read (instance : Jaeger K) (s s2 : State) : Type 0 where
    pub s1 : State
    pub is_read : ops.fetch s ≡ (instance_read instance, s1)
    pub is_synced : ops.sync_on_jaeger_changes instance.name s1 ≡ (ok, s2)
    pub is_valid : validate ops instance ≡ ok

  -- The plan of an own instance was applied, with this answer.
  pub record Planned (original instance : Jaeger K) (s s2 : State)
      (answer : Reply Fault × Jaeger K × State) : Type 0 where
    pub read : Read original s s2
    pub owner : String
    pub is_owned : get operated_by original.labels ≡ some owner
    pub is_own : (owner == f.identity) ≡ true
    pub plan : Plan
    pub is_chosen : ops.choose_strategy original ≡ (instance, plan)
    pub is_applied : apply_strategy ops f instance plan s2 ≡ answer

  -- The changed instance is what it was, or it is written.
  pub data Stored (original updated : Jaeger K) (s3 : State) : Jaeger K → State → Type 0 where
    unchanged : ops.deep_equal original updated ≡ true → Stored original updated s3 updated s3
    written :
        {stored : Jaeger K} {s4 : State}
        → ops.deep_equal original updated ≡ false
        → ops.update updated s3 ≡ (ok, stored, s4)
        → Stored original updated s3 stored s4

  -- The ends of a reconciliation that begins in a state, each with its answer and its last call.
  pub data Outcome (s : State) : Reply Fault × State → Type 0 where
    gone : {s1 : State} → ops.fetch s ≡ (instance_gone, s1) → Outcome s (ops.clean_config_maps s1)
    not_read : {s1 : State} {e : Fault} → ops.fetch s ≡ (unreadable e, s1) → Outcome s (err e, s1)
    not_synced :
        {instance : Jaeger K} {s1 s2 : State} {e : Fault}
        → ops.fetch s ≡ (instance_read instance, s1)
        → ops.sync_on_jaeger_changes instance.name s1 ≡ (err e, s2)
        → Outcome s (err e, s2)
    not_valid :
        {instance : Jaeger K} {s1 s2 : State} {e : Fault}
        → ops.fetch s ≡ (instance_read instance, s1)
        → ops.sync_on_jaeger_changes instance.name s1 ≡ (ok, s2)
        → validate ops instance ≡ err e
        → Outcome s (err e, s2)
    foreign :
        {instance : Jaeger K} {s2 : State} (owner : String)
        → Read instance s s2
        → get operated_by instance.labels ≡ some owner
        → (owner == f.identity) ≡ false
        → Outcome s (ok, s2)
    claimed :
        {instance stored : Jaeger K} {s2 s3 : State}
        → Read instance s s2
        → get operated_by instance.labels ≡ none
        → ops.update (labelled ops f.identity instance) s2 ≡ (ok, stored, s3)
        → Outcome s (ok, s3)
    not_claimed :
        {instance stored : Jaeger K} {s2 s3 : State} {e : Fault}
        → Read instance s s2
        → get operated_by instance.labels ≡ none
        → ops.update (labelled ops f.identity instance) s2 ≡ (err e, stored, s3)
        → Outcome s (err e, (ops.update_status (with_phase ops "Failed" stored) s3).2)
    not_applied :
        {original instance updated : Jaeger K} {s2 s3 : State} {e : Fault}
        → Planned original instance s s2 (err e, updated, s3)
        → Outcome s (err e, (ops.update_status (with_phase ops "Failed" instance) s3).2)
    not_stored :
        {original instance updated stored : Jaeger K} {s2 s3 s4 : State} {e : Fault}
        → Planned original instance s s2 (ok, updated, s3)
        → ops.deep_equal original updated ≡ false
        → ops.update updated s3 ≡ (err e, stored, s4)
        → Outcome s (err e, s4)
    still_running :
        {original instance updated stored : Jaeger K} {s2 s3 s4 : State}
        → Planned original instance s s2 (ok, updated, s3)
        → Stored original updated s3 stored s4
        → updated.status.version ≡ original.status.version
        → stored.status.phase ≡ "Running"
        → Outcome s (ok, s4)
    now_running :
        {original instance updated stored : Jaeger K} {s2 s3 s4 : State}
        → Planned original instance s s2 (ok, updated, s3)
        → Stored original updated s3 stored s4
        → (updated.status.version ≢ original.status.version) ⊎ (stored.status.phase ≢ "Running")
        → Outcome s (
            result ops (
              ops.update_status
                (record stored {
                  status = record { version = updated.status.version; phase = "Running" };
                })
                s4))

  store_status-Outcome :
      {original instance updated stored : Jaeger K} {s s2 s3 s4 : State} (stale : Bool)
      → Planned original instance s s2 (ok, updated, s3)
      → Stored original updated s3 stored s4
      → (not (updated.status.version == original.status.version)
          || not (stored.status.phase == "Running"))
        ≡ stale
      → Outcome s (
          if stale
          then result ops (
              ops.update_status
                (record stored {
                  status = record { version = updated.status.version; phase = "Running" };
                })
                s4)
          else (ok, s4))
  store_status-Outcome true p w e = now_running p w (changed e)
    where
      changed :
          {a b c : String}
          → (not (a == b) || not (c == "Running")) ≡ true
          → (a ≢ b) ⊎ (c ≢ "Running")
      changed {a = a} {b = b} {c = c} e = elim (Bool-cases (a == b)) [
        | inl same ↦ inr (λ h. ground arith)
        | inr differs ↦ inl (λ h. ground arith)
      ]
  store_status-Outcome false p w e = still_running p w (ground arith) (ground arith)

  update-Outcome :
      {original instance updated : Jaeger K} {s s2 s3 : State}
      (answer : Reply Fault × Jaeger K × State)
      → Planned original instance s s2 (ok, updated, s3)
      → ops.deep_equal original updated ≡ false
      → ops.update updated s3 ≡ answer
      → Outcome s (after_store ops original.status.version updated.status.version answer)
  unfolding store_status
  update-Outcome (err e, stored, s4) p differs w = not_stored p differs w
  update-Outcome (ok, stored, s4) p differs w = store_status-Outcome _ p (written differs w) refl

  stored-Outcome :
      {original instance updated : Jaeger K} {s s2 s3 : State} (same : Bool)
      → Planned original instance s s2 (ok, updated, s3)
      → ops.deep_equal original updated ≡ same
      → Outcome s (
          after_store ops original.status.version updated.status.version
            (if same then (ok, updated, s3) else ops.update updated s3))
  unfolding store_status
  stored-Outcome true p e = store_status-Outcome _ p (unchanged e) refl
  stored-Outcome {updated = updated} {s3 = s3} false p e =
      update-Outcome (ops.update updated s3) p e refl

  apply-Outcome :
      {original instance : Jaeger K} {s s2 : State} (answer : Reply Fault × Jaeger K × State)
      → Planned original instance s s2 answer
      → Outcome s (after_apply ops original instance answer)
  apply-Outcome (err e, updated, s3) p = not_applied p
  apply-Outcome {original = original} (ok, updated, s3) p =
      stored-Outcome (ops.deep_equal original updated) p refl

  claim-Outcome :
      {instance : Jaeger K} {s s2 : State} (answer : Reply Fault × Jaeger K × State)
      → Read instance s s2
      → get operated_by instance.labels ≡ none
      → ops.update (labelled ops f.identity instance) s2 ≡ answer
      → Outcome s (after_claim ops answer)
  claim-Outcome (ok, stored, s3) r unowned e = claimed r unowned e
  claim-Outcome (err f, stored, s3) r unowned e = not_claimed r unowned e

  named-Outcome :
      {instance : Jaeger K} {s s2 : State} (owner : String) (own : Bool)
      → Read instance s s2
      → get operated_by instance.labels ≡ some owner
      → (owner == f.identity) ≡ own
      → Outcome s (if own then reconcile_own ops f instance s2 else (ok, s2))
  unfolding reconcile_own
  named-Outcome owner false r owned e = foreign owner r owned e
  named-Outcome {instance = instance} {s2 = s2} owner true r owned e =
      let (chosen, plan) = ops.choose_strategy instance in
      apply-Outcome (apply_strategy ops f chosen plan s2) (record {
        read = r;
        owner = owner;
        is_owned = owned;
        is_own = e;
        plan = plan;
        is_chosen = refl;
        is_applied = refl;
      })

  owned-Outcome :
      {instance : Jaeger K} {s s2 : State} (owner : Option String)
      → Read instance s s2
      → get operated_by instance.labels ≡ owner
      → Outcome s (reconcile_owned ops f owner instance s2)
  owned-Outcome (some owner) r e = named-Outcome owner (owner == f.identity) r e refl
  owned-Outcome {instance = instance} {s2 = s2} none r e =
      claim-Outcome (ops.update (labelled ops f.identity instance) s2) r e refl

  valid-Outcome :
      {instance : Jaeger K} {s s1 s2 : State} (valid : Reply Fault)
      → ops.fetch s ≡ (instance_read instance, s1)
      → ops.sync_on_jaeger_changes instance.name s1 ≡ (ok, s2)
      → validate ops instance ≡ valid
      → Outcome s (
          then_do ops
            (valid, s2)
            (reconcile_owned ops f (get operated_by instance.labels) instance))
  valid-Outcome (err e) there synced v = not_valid there synced v
  valid-Outcome {instance = instance} {s1 = s1} ok there synced v =
      owned-Outcome (get operated_by instance.labels)
        (record { s1 = s1; is_read = there; is_synced = synced; is_valid = v }) refl

  synced-Outcome :
      {instance : Jaeger K} {s s1 : State} (synced : Reply Fault × State)
      → ops.fetch s ≡ (instance_read instance, s1)
      → ops.sync_on_jaeger_changes instance.name s1 ≡ synced
      → Outcome s (
          then_do ops synced (λ s2.
            then_do ops
              (validate ops instance, s2)
              (reconcile_owned ops f (get operated_by instance.labels) instance)))
  synced-Outcome (err e, s2) there h = not_synced there h
  synced-Outcome {instance = instance} (ok, s2) there h =
      valid-Outcome (validate ops instance) there h refl

  fetched-Outcome :
      {s : State} (fetched : Found K Fault × State)
      → ops.fetch s ≡ fetched
      → Outcome s (after_fetch ops f fetched)
  unfolding reconcile_instance
  fetched-Outcome (instance_gone, s1) e = gone e
  fetched-Outcome (unreadable x, s1) e = not_read e
  fetched-Outcome (instance_read instance, s1) e =
      synced-Outcome (ops.sync_on_jaeger_changes instance.name s1) e refl

  pub reconcile-Outcome : (s : State) → Outcome s (reconcile_request ops f s)
  unfolding reconcile_request
  reconcile-Outcome s = fetched-Outcome (ops.fetch s) refl
