-- ===== src/Controller/Running.antt =====
-- What the cluster stores as the phase of an instance when its reconciliation succeeds
-- (pkg/controller/jaeger/jaeger_controller.go).
use jaeger_operator.Base.{String, ◌≡◌, refl, sym, ap, ◌∙◌, Bool, true, false, some, List}
use jaeger_operator.Base.{◌==◌, if◌then◌else◌, arith}
use jaeger_operator.Base.Dict.{get}
use jaeger_operator.Kube.{Kube}
use jaeger_operator.Apply.{Reply, ok, err}
use jaeger_operator.Jaeger.{Jaeger}
use jaeger_operator.Controller.{Flags, Operations, Stage, instance_read, apply_strategy}
use jaeger_operator.Controller.{
  after_certs, after_secrets, after_upgrades, needs_certs, reconcile_request, operated_by,
}
use jaeger_operator.Controller.Steps.{Severity, Applied, Runs, apply_stages-Runs}
use jaeger_operator.Controller.{console_links}
use jaeger_operator.Controller.Steps.{
  unlisted, to_listed, applied, finished, next, ended, passed_over, ended_early,
}
use jaeger_operator.Controller.Outcomes.{
  unchanged, written, gone, not_read, not_synced, not_valid, foreign, claimed, not_claimed,
}
use jaeger_operator.Controller.Outcomes.{not_applied, not_stored, still_running, now_running}
use jaeger_operator.Controller.Outcomes.{Read, Planned, Stored, Outcome, reconcile-Outcome}

module _ {K : Kube} (ops : Operations K) where
  open ops use {State, Fault, Plan}

  -- Documented behaviour of the API, seen through the phase that it stores with the instance of the
  -- request: a Get answers it, an update of the instance answers it and an update of the status
  -- stores the one that is given; no call for another object changes it. Equal instances are equal.
  pub record IsStore (phase : State → String) : Type 0 where
    pub fetch-phase :
        (s s1 : State) (j : Jaeger K)
        → ops.fetch s ≡ (instance_read j, s1)
        → phase s1 ≡ j.status.phase
    pub update-phase :
        (j j' : Jaeger K) (s s' : State)
        → ops.update j s ≡ (ok, j', s')
        → phase s' ≡ j'.status.phase
    pub update_status-phase :
        (j j' : Jaeger K) (s s' : State)
        → ops.update_status j s ≡ (ok, j', s')
        → phase s' ≡ j.status.phase
    pub sync-phase :
        (name : String) (s : State) → phase (ops.sync_on_jaeger_changes name s).1 ≡ phase s
    pub upgrades-phase : (j : Jaeger K) (s : State) → phase (ops.apply_upgrades j s).2 ≡ phase s
    pub secrets-phase : (j : Jaeger K) (s : State) → phase (ops.list_secrets j s).1 ≡ phase s
    pub certs-phase :
        (j : Jaeger K) (p : Plan) (s : State) → phase (ops.create_certs j p s).2 ≡ phase s
    pub stage-phase :
        (stage : Stage) (j : Jaeger K) (p : Plan) (s : State)
        → phase (ops.apply_stage stage j p s).1 ≡ phase s
    pub routes-phase : (j : Jaeger K) (s : State) → phase (ops.list_routes j s).1 ≡ phase s
    pub deep_equal-eq : (a b : Jaeger K) → ops.deep_equal a b ≡ true → a ≡ b

  module _ (phase : State → String) (store : IsStore phase) where
    Applied-phase :
        {j : Jaeger K} {p : Plan} {stage : Stage} {s : State} {r : Reply Fault × State}
        → Applied ops j p stage s r
        → phase r.1 ≡ phase s
    Applied-phase {j = j} {s = s} (unlisted e) =
        ap (λ r. phase r.1) (sym e) ∙ store.routes-phase j s
    Applied-phase {j = j} {p = p} {s = s} (to_listed {s1 = s1} e) =
        store.stage-phase console_links j p s1
        ∙ ap (λ r. phase r.1) (sym e)
        ∙ store.routes-phase j s
    Applied-phase {j = j} {p = p} {s = s} (applied {stage = stage} e) =
        store.stage-phase stage j p s

    Runs-phase :
        {j : Jaeger K} {p : Plan} {stages : List (Stage × Severity)} {s : State}
        {r : Reply Fault × State}
        → Runs ops j p stages s r
        → phase r.1 ≡ phase s
    Runs-phase finished = refl
    Runs-phase (next a rest) = Runs-phase rest ∙ Applied-phase a
    Runs-phase (ended a) = Applied-phase a
    Runs-phase (passed_over a rest) = Runs-phase rest ∙ Applied-phase a
    Runs-phase (ended_early a) = Applied-phase a

    -- The parts of apply leave the phase as it is, if they succeed.
    Leaves : Reply Fault × Jaeger K × State → State → Type 0
    Leaves r s = r.0 ≡ ok → phase r.2 ≡ phase s

    certs-Leaves :
        (f : Flags) (j : Jaeger K) (r : Reply Fault × Plan × State) (s : State)
        → phase r.2 ≡ phase s
        → Leaves (after_certs ops f j r) s
    unfolding Leaves
    certs-Leaves f j (err e, plan, s1) s same h = same
    certs-Leaves f j (ok, plan, s1) s same h = Runs-phase (apply_stages-Runs ops j plan f s1) ∙ same

    secrets-Leaves :
        (f : Flags) (j : Jaeger K) (plan : Plan) (r : Reply Fault × State) (s : State)
        → phase r.1 ≡ phase s
        → Leaves (after_secrets ops f j plan r) s
    unfolding Leaves
    secrets-Leaves f j plan (err e, s1) s same h = cc
    secrets-Leaves f j plan (ok, s1) s same h =
        certs-Leaves f j (ops.create_certs j plan s1) s (store.certs-phase j plan s1 ∙ same) h

    managed-Leaves :
        (f : Flags) (j : Jaeger K) (plan : Plan) (s1 s : State) (certs : Bool)
        → phase s1 ≡ phase s
        → Leaves
            (if certs
              then after_secrets ops f j plan (ops.list_secrets j s1)
              else after_certs ops f j (ok, plan, s1))
            s
    managed-Leaves f j plan s1 s true same =
        secrets-Leaves f j plan (ops.list_secrets j s1) s (store.secrets-phase j s1 ∙ same)
    managed-Leaves f j plan s1 s false same = certs-Leaves f j (ok, plan, s1) s same

    upgrades-Leaves :
        (f : Flags) (plan : Plan) (r : Reply Fault × Jaeger K × State) (s : State)
        → phase r.2 ≡ phase s
        → Leaves (after_upgrades ops f plan r) s
    unfolding Leaves
    upgrades-Leaves f plan (err e, j, s1) s same h = same
    upgrades-Leaves f plan (ok, j, s1) s same h =
        managed-Leaves f j plan s1 s (needs_certs ops j) same h

    apply_strategy-phase :
        (f : Flags) (j updated : Jaeger K) (plan : Plan) (s s' : State)
        → apply_strategy ops f j plan s ≡ (ok, updated, s')
        → phase s' ≡ phase s
    unfolding apply_strategy Leaves
    apply_strategy-phase f j updated plan s s' e =
        ap (λ r. phase r.2) (sym e)
        ∙ upgrades-Leaves f plan (ops.apply_upgrades j s) s (store.upgrades-phase j s)
            (ap (λ r. r.0) e)

    Read-phase :
        {f : Flags} {j : Jaeger K} {s s2 : State} → Read ops f j s s2 → phase s2 ≡ j.status.phase
    Read-phase {j = j} {s = s} r =
        ap (λ x. phase x.1) (sym r.is_synced)
        ∙ store.sync-phase j.name r.s1
        ∙ store.fetch-phase s r.s1 j r.is_read

    Stored-phase :
        {f : Flags} {original instance updated stored : Jaeger K} {s s2 s3 s4 : State}
        → Planned ops f original instance s s2 (ok, updated, s3)
        → Stored ops f original updated s3 stored s4
        → phase s4 ≡ stored.status.phase
    Stored-phase {f = f} {original = original} {instance = instance} {updated = updated} {s2 = s2}
          {s3 = s3} p (unchanged e) =
        apply_strategy-phase f instance updated p.plan s2 s3 p.is_applied
        ∙ Read-phase p.read
        ∙ ap (λ j. j.status.phase) (store.deep_equal-eq original updated e)
    Stored-phase {updated = updated} {s3 = s3} p (written {stored = stored} {s4 = s4} differs e) =
        store.update-phase updated stored s3 s4 e

    unique-Read :
        {f : Flags} {a b : Jaeger K} {s s1 s2 : State}
        → ops.fetch s ≡ (instance_read a, s1)
        → Read ops f b s s2
        → a ≡ b
    unique-Read e r = cc (e, r.is_read)

    Outcome-phase :
        (f : Flags) (j : Jaeger K) (s s1 : State) (r : Reply Fault × State)
        → ops.fetch s ≡ (instance_read j, s1)
        → get operated_by j.labels ≡ some f.identity
        → Outcome ops f s r
        → r.0 ≡ ok
        → phase r.1 ≡ "Running"
    Outcome-phase f j s s1 r there own (gone e) h = cc (there, e)
    Outcome-phase f j s s1 r there own (not_read e) h = cc
    Outcome-phase f j s s1 r there own (not_synced e x) h = cc
    Outcome-phase f j s s1 r there own (not_valid e x v) h = cc
    Outcome-phase f j s s1 r there own (foreign owner read owned other) h = absurd (
        not_other f.identity owner
          (sym own ∙ ap (λ i. get operated_by i.labels) (unique-Read there read) ∙ owned) other)
      where
        not_other : (a b : String) → some a ≡ some b → (b == a) ≡ false → ⊥
        not_other a b e d = ground arith
    Outcome-phase f j s s1 r there own (claimed read unowned e) h =
        cc (own, ap (λ i. get operated_by i.labels) (unique-Read there read), unowned)
    Outcome-phase f j s s1 r there own (not_claimed read unowned e) h = cc
    Outcome-phase f j s s1 r there own (not_applied p) h = cc
    Outcome-phase f j s s1 r there own (not_stored p d e) h = cc
    Outcome-phase f j s s1 r there own (still_running p w v running) h = Stored-phase p w ∙ running
    Outcome-phase f j s s1 r there own
          (now_running {updated = updated} {stored = stored} {s4 = s4} p w c) h =
        let final = record stored {
          status = record { version = updated.status.version; phase = "Running" };
        } in
        let (reply, j', s5) = ops.update_status final s4 in
        store.update_status-phase final j' s4 s5 (ap (λ x. (x, j', s5)) h)

    -- With an API that stores what it is given (IsStore): when the reconciliation of an instance that
    -- carries this operator's label ends without an error, the cluster stores the phase Running for it.
    pub reconcile_running :
        (f : Flags) (j : Jaeger K) (s s1 s' : State)
        → ops.fetch s ≡ (instance_read j, s1)
        → get operated_by j.labels ≡ some f.identity
        → reconcile_request ops f s ≡ (ok, s')
        → phase s' ≡ "Running"
    reconcile_running f j s s1 s' there own e =
        ap (λ r. phase r.1) (sym e)
        ∙ Outcome-phase f j s s1 (reconcile_request ops f s) there own (reconcile-Outcome ops f s)
            (ap (λ r. r.0) e)
