-- ===== src/Apply/Elasticsearches.antt =====
-- Elasticsearch clusters, each of which is waited for after it is created
-- (pkg/controller/jaeger/elasticsearch.go).
use jaeger_operator.Base.{ℕ, zero, suc, ◌+◌, ◌≡◌, refl, ap, subst, ◌∙◌, Bool, true, false, Option}
use jaeger_operator.Base.{List, [], ◌∷◌, nat_eq, if◌then◌else◌, Run}
use jaeger_operator.Inventory.{Inventory}
use jaeger_operator.Apply.{Client, Reply, ok, err, failed, found, not_found, Observed, Verdict}
use jaeger_operator.Apply.{stop, again, for_each, and_then, after_list}

-- A deployment's replicas and those available, and a stateful set's replicas that are ready
pub record Replicas : Type 0 where
  pub replicas : ℕ
  pub available : ℕ

-- The two lists of a look at a cluster
pub record Members (Fault : Type 0) : Type 0 where
  pub deployments : List Replicas
  pub stateful_sets : Observed (List ℕ) Fault

-- The deployments all of whose replicas are available
unfoldable pub available_deployments : List Replicas → ℕ
available_deployments [] = 0
available_deployments (d ∷ deployments) =
    let rest = available_deployments deployments in
    if nat_eq d.replicas d.available then suc rest else rest

unfoldable pub ready_replicas : List ℕ → ℕ
ready_replicas [] = 0
ready_replicas (ready ∷ stateful_sets) = ready + ready_replicas stateful_sets

module _ {A : Type 0} (c : Client A) (members : c.Status → Members c.Fault)
    (expected_size : A → ℕ) where
  open c use {State, Fault}

  abbrev pub enough : ℕ → List Replicas → List ℕ → Bool
  enough size deployments stateful_sets =
      nat_eq (available_deployments deployments + ready_replicas stateful_sets) size

  -- The condition that waitForAvailableElastic polls, after the deployments were listed
  unfoldable pub available : ℕ → List Replicas → Observed (List ℕ) Fault → Verdict Fault
  unfolding available_deployments ready_replicas
  available size deployments (failed e) = stop (err e)
  available size deployments not_found = again true
  available size deployments (found stateful_sets) =
      if enough size deployments stateful_sets then stop ok else again true

  -- The condition; `seen` is its variable
  unfoldable pub availability : ℕ → Bool → Observed c.Status Fault → Verdict Fault
  unfolding available
  availability size seen (failed e) = stop (err e)
  availability size true not_found = stop (err c.removed)
  availability size false not_found = again false
  availability size seen (found status) =
      available size (members status).deployments (members status).stateful_sets

  -- waitForAvailableElastic, for a number of polls
  unfoldable pub wait_for_available_elastic : ℕ → Bool → A → State → Reply Fault × State
  unfolding availability
  wait_for_available_elastic zero seen es s = (err c.timeout, s)
  wait_for_available_elastic (suc polls) seen es s =
      let (now, s') = c.observe es s in
      elim (availability (expected_size es) seen now) [
        | again seen' ↦ wait_for_available_elastic polls seen' es s'
        | stop r ↦ (r, s')
      ]

  abbrev pub create_elastic : ℕ → A → State → Reply Fault × State
  create_elastic polls d s = and_then c (c.create d s) (wait_for_available_elastic polls false d)

  abbrev pub carry_out_elastic : ℕ → Inventory A → State → Reply Fault × State
  carry_out_elastic polls inv s =
      and_then c (for_each c (create_elastic polls) inv.create s)
        λ s1. and_then c (for_each c c.update inv.update s1) (for_each c c.delete inv.delete)

  -- applyElasticsearches
  unfoldable pub apply_elasticsearches :
      ℕ → (List A → List A → Run (Inventory A)) → List A → State → Option (Reply Fault × State)
  unfolding for_each wait_for_available_elastic
  apply_elasticsearches polls inventory desired s =
      let (existing, listed) = c.list s in
      after_list c (λ l. inventory l desired) (carry_out_elastic polls) existing listed s

  -- A cluster was seen with as many members as it is to have.
  pub record SeenComplete (es : A) (before after : State) : Type 0 where
    pub look : c.Status
    pub is_seen : c.observe es before ≡ (found look, after)
    pub sets : List ℕ
    pub is_listed : (members look).stateful_sets ≡ found sets
    pub complete : enough (expected_size es) (members look).deployments sets ≡ true

  again_stop : {b : Bool} {r : Reply Fault} → again b ≡ stop r → ⊥
  again_stop e = cc

  stop_inj : {a b : Reply Fault} → stop a ≡ stop b → a ≡ b
  stop_inj e = cc

  err_ok : {e : Fault} → err e ≡ ok → ⊥
  err_ok e = cc

  decided :
      (b : Bool) → if◌then◌else◌ {A = Verdict Fault} b (stop ok) (again true) ≡ stop ok → b ≡ true
  decided true e = refl
  decided false e = absurd (again_stop e)

  available_ok :
      (size : ℕ) (deployments : List Replicas) (listed : Observed (List ℕ) Fault)
      → available size deployments listed ≡ stop ok
      → (sets : List ℕ) × (listed ≡ found sets) × (enough size deployments sets ≡ true)
  unfolding available
  available_ok size deployments (failed e) h = absurd (err_ok (stop_inj h))
  available_ok size deployments not_found h = absurd (again_stop h)
  available_ok size deployments (found sets) h =
      (sets, refl, decided (enough size deployments sets) h)

  availability_ok :
      (es : A) (seen : Bool) (now : Observed c.Status Fault) (s s1 : State)
      → c.observe es s ≡ (now, s1)
      → availability (expected_size es) seen now ≡ stop ok
      → SeenComplete es s s1
  unfolding availability
  availability_ok es seen (failed e) s s1 o h = absurd (err_ok (stop_inj h))
  availability_ok es true not_found s s1 o h = absurd (err_ok (stop_inj h))
  availability_ok es false not_found s s1 o h = absurd (again_stop h)
  availability_ok es seen (found look) s s1 o h =
      let (sets, listed, complete) =
        available_ok (expected_size es) (members look).deployments (members look).stateful_sets h in
      record { look = look; is_seen = o; sets = sets; is_listed = listed; complete = complete }

  by_verdict :
      (rest : Bool → Reply Fault × State) (es : A) (seen : Bool) (now : Observed c.Status Fault)
      (s s1 s' : State)
      → c.observe es s ≡ (now, s1)
      → (v : Verdict Fault) → availability (expected_size es) seen now ≡ v
      → ((seen' : Bool) → rest seen' ≡ (ok, s') → (before : State) × SeenComplete es before s')
      → (elim v as (λ _. Reply Fault × State) [ again seen' ↦ rest seen' | stop r ↦ (r, s1) ])
        ≡ (ok, s')
      → (before : State) × SeenComplete es before s'
  by_verdict rest es seen now s s1 s' o (again seen') v later e = later seen' e
  by_verdict rest es seen now s s1 s' o (stop r) v later e = (
    s,
    subst (λ t. SeenComplete es s t) (ap (λ x. x.1) e)
        (availability_ok es seen now s s1 o (v ∙ ap stop (ap (λ x. x.0) e))),
  )

  -- A wait for a cluster succeeds only with a look at which it had as many members as it is to have.
  pub wait_for_available_elastic_complete :
      (polls : ℕ) (seen : Bool) (es : A) (s s' : State)
      → wait_for_available_elastic polls seen es s ≡ (ok, s')
      → (before : State) × SeenComplete es before s'
  unfolding wait_for_available_elastic
  wait_for_available_elastic_complete zero seen es s s' e = absurd (err_ok (ap (λ r. r.0) e))
  wait_for_available_elastic_complete (suc polls) seen es s s' e =
      by_verdict (λ seen'. wait_for_available_elastic polls seen' es (c.observe es s).1) es seen
        (c.observe es s).0 s (c.observe es s).1 s' refl
        (availability (expected_size es) seen (c.observe es s).0) refl
        (λ seen'. wait_for_available_elastic_complete polls seen' es (c.observe es s).1 s') e
