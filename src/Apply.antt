-- ===== src/Apply.antt =====
-- Bringing the cluster to a plan: the apply functions of pkg/controller/jaeger, one for each kind of
-- object. They differ in the inventory that they use; some also wait before they delete.
-- The cluster's API is a parameter: its state, and the calls that the functions make.
pub mod Kinds
pub mod Calls
pub mod Correct
pub mod Deployments
pub mod Memory
pub mod Live
pub mod Services
pub mod Dependencies
pub mod Elasticsearches
use jaeger_operator.Base.{ℕ, zero, suc, String, Bool, true, false, Option, none, some}
use jaeger_operator.Base.{List, [], ◌∷◌, Run, done, panic, if◌then◌else◌}
use jaeger_operator.Inventory.{Inventory}

pub data Reply (Fault : Type 0) : Type 0 where
  ok : Reply Fault
  err : Fault → Reply Fault

-- What a Get of an object answers: an error, that there is no such object, or its status.
pub data Observed (Status Fault : Type 0) : Type 0 where
  failed : Fault → Observed Status Fault
  not_found : Observed Status Fault
  found : Status → Observed Status Fault

-- What a polled condition answers: go on, with the variable `seen`, or end.
pub data Verdict (Fault : Type 0) : Type 0 where
  again : Bool → Verdict Fault
  stop : Reply Fault → Verdict Fault

-- The listing is that of the instance's own objects, by the labels that each function selects.
pub record Client (A : Type 0) : Type 1 where
  pub State : Type 0
  pub Fault : Type 0
  pub Status : Type 0
  pub list : State → List A × Reply Fault
  pub create : A → State → Reply Fault × State
  pub update : A → State → Reply Fault × State
  pub delete : A → State → Reply Fault × State
  -- A look at an object while it is waited for. Time passes between two looks.
  pub observe : A → State → Observed Status Fault × State
  -- The error of a wait that took too long, and that of an object which was there and is gone.
  pub timeout : Fault
  pub removed : Fault

module _ {A : Type 0} (c : Client A) where
  open c use {State, Fault}

  -- Go on if the first part succeeded.
  abbrev pub and_then : Reply Fault × State → (State → Reply Fault × State) → Reply Fault × State
  and_then (ok, s) k = k s
  and_then (err e, s) k = (err e, s)

  -- A loop that returns at the first error.
  unfoldable pub for_each : (A → State → Reply Fault × State) → List A → State → Reply Fault × State
  for_each call [] s = (ok, s)
  for_each call (a ∷ rest) s = and_then (call a s) (for_each call rest)

  abbrev pub carry_out : Inventory A → State → Reply Fault × State
  carry_out inv s =
      and_then (for_each c.create inv.create s)
        λ s1. and_then (for_each c.update inv.update s1) (for_each c.delete inv.delete)

  -- What is done with the listing, and with a plan made from it: `none` is a panic.
  abbrev pub after_plan :
      (Inventory A → State → Reply Fault × State)
      → Run (Inventory A)
      → State
      → Option (Reply Fault × State)
  after_plan act panic s = none
  after_plan act (done inv) s = some (act inv s)

  abbrev pub after_list :
      (List A → Run (Inventory A))
      → (Inventory A → State → Reply Fault × State)
      → List A
      → Reply Fault
      → State
      → Option (Reply Fault × State)
  after_list inventory act existing (err e) s = some (err e, s)
  after_list inventory act existing ok s = after_plan act (inventory existing) s

  -- applyAccounts, applyConfigMaps and the others of its shape, for an inventory.
  unfoldable pub apply :
      (List A → List A → Run (Inventory A)) → List A → State → Option (Reply Fault × State)
  unfolding for_each
  apply inventory desired s =
      let (existing, listed) = c.list s in
      after_list (λ l. inventory l desired) carry_out existing listed s

  -- The condition that waitForStability, waitForKafkaStability and waitForKafkaUserStability poll;
  -- `seen` is its variable.
  unfoldable pub stability : (c.Status → Bool) → Bool → Observed c.Status Fault → Verdict Fault
  stability stable seen (failed e) = stop (err e)
  stability stable true not_found = stop (err c.removed)
  stability stable false not_found = again false
  stability stable seen (found status) = if stable status then stop ok else again true

  -- The polling: `polls` is how often the condition is called before the time is up.
  unfoldable pub wait_for : (c.Status → Bool) → ℕ → Bool → A → State → Reply Fault × State
  unfolding stability
  wait_for stable zero seen d s = (err c.timeout, s)
  wait_for stable (suc polls) seen d s =
      let (now, s') = c.observe d s in
      elim (stability stable seen now) [
        | again seen' ↦ wait_for stable polls seen' d s'
        | stop r ↦ (r, s')
      ]

  abbrev pub carry_out_waiting : (c.Status → Bool) → ℕ → Inventory A → State → Reply Fault × State
  carry_out_waiting stable polls inv s = and_then (for_each c.create inv.create s) λ s1.
      and_then (for_each c.update inv.update s1) λ s2.
        and_then (for_each (wait_for stable polls false) inv.create s2) λ s3.
          and_then (for_each (wait_for stable polls false) inv.update s3)
            (for_each c.delete inv.delete)

  -- applyDeployments, applyKafkas and applyKafkaUsers, for an inventory: what was created or updated
  -- is waited for before anything is deleted.
  unfoldable pub apply_waiting :
      (c.Status → Bool)
      → ℕ
      → (List A → List A → Run (Inventory A))
      → List A
      → State
      → Option (Reply Fault × State)
  unfolding for_each wait_for
  apply_waiting stable polls inventory desired s =
      let (existing, listed) = c.list s in
      after_list (λ l. inventory l desired) (carry_out_waiting stable polls) existing listed s
