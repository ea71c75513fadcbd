-- ===== src/Apply/Dependencies.antt =====
-- The jobs that a storage needs before anything else is deployed
-- (pkg/controller/jaeger/dependencies.go), one poll for each second of the deadline, and the removal
-- of an instance's config maps (cleanConfigMaps of pkg/controller/jaeger/configmap.go).
use jaeger_operator.Base.{
  ℕ, zero, suc, ◌<◌, ◌≡◌, refl, ap, sym, subst, ◌⊎◌, inl, inr, ◌∙◌, Bool, true, false, Option, none,
  some,
}
use jaeger_operator.Base.{List, [], ◌∷◌, nat_eq, if◌then◌else◌, arith}
use jaeger_operator.Apply.{Client, Reply, ok, err, found, stability, wait_for}
use jaeger_operator.Apply.{stop, again, for_each}

-- deadline, in seconds
abbrev pub deadline : Option ℕ → ℕ
deadline none = 120
deadline (some active_deadline_seconds) = active_deadline_seconds

deadline_eq :
    (o : Option ℕ) (seconds : ℕ)
    → (o ≡ some seconds) ⊎ ((o ≡ none) × (seconds ≡ 120))
    → deadline o ≡ seconds
deadline_eq o seconds (inl given) = ap deadline given
deadline_eq o seconds (inr (unset, e)) = ap deadline unset ∙ sym e

module _ {A : Type 0} (c : Client A) where
  open c use {State, Fault}

  -- What follows the creation of a job: that it exists already is no error
  abbrev pub after_create :
      (Fault → Bool) → (State → Reply Fault × State) → Reply Fault × State → Reply Fault × State
  after_create already_exists wait (ok, s) = wait s
  after_create already_exists wait (err e, s) = if already_exists e then wait s else (err e, s)

  -- handleDependency, for the reading of a job's deadline and of its status
  unfoldable pub handle_dependency :
      (Fault → Bool) → (A → Option ℕ) → (c.Status → ℕ) → A → State → Reply Fault × State
  unfolding wait_for
  handle_dependency already_exists active_deadline succeeded dep s =
      after_create already_exists
        (wait_for c (λ status. nat_eq (succeeded status) 1) (deadline (active_deadline dep)) false
          dep)
        (c.create dep s)

  -- handleDependencies
  unfoldable pub handle_dependencies :
      (Fault → Bool) → (A → Option ℕ) → (c.Status → ℕ) → List A → State → Reply Fault × State
  unfolding handle_dependency for_each
  handle_dependencies already_exists active_deadline succeeded dependencies s =
      for_each c (handle_dependency already_exists active_deadline succeeded) dependencies s

  -- The loop of cleanConfigMaps: an error of a deletion is only logged
  unfoldable pub delete_each : List A → State → State
  delete_each [] s = s
  delete_each (cfg_map ∷ config_maps) s = delete_each config_maps (c.delete cfg_map s).1

  -- cleanConfigMaps
  abbrev pub after_selection : List A × Reply Fault → State → Reply Fault × State
  after_selection (config_maps, err e) s = (err e, s)
  after_selection (config_maps, ok) s = (ok, delete_each config_maps s)

  unfoldable pub clean_config_maps : State → Reply Fault × State
  unfolding delete_each
  clean_config_maps s = after_selection (c.list s) s

  -- An object passes a test after a number of looks at which it is there and does not pass it.
  unfoldable pub CompletesIn : (c.Status → Bool) → ℕ → A → State → Type 0
  CompletesIn complete zero a s =
      (x : c.Status) × ((c.observe a s).0 ≡ found x) × (complete x ≡ true)
  CompletesIn complete (suc n) a s =
      (x : c.Status) × ((c.observe a s).0 ≡ found x)
      × (complete x ≡ false)
      × CompletesIn complete n a (c.observe a s).1

  stability_complete :
      (complete : c.Status → Bool) (seen : Bool) (x : c.Status) (b : Bool)
      → complete x ≡ b
      → stability c complete seen (found x) ≡ (if b then stop ok else again true)
  unfolding stability
  stability_complete complete true x b e = rw e refl
  stability_complete complete false x b e = rw e refl

  pub wait_for_completes :
      (complete : c.Status → Bool) (n polls : ℕ) (seen : Bool) (a : A) (s : State)
      → CompletesIn complete n a s
      → n < polls
      → (wait_for c complete polls seen a s).0 ≡ ok
  unfolding wait_for CompletesIn
  wait_for_completes complete n zero seen a s h below = absurd (omega (arith, below))
  wait_for_completes complete zero (suc polls) seen a s (x, there, done) below =
      ap
        (λ v.
          (elim v as (λ _. Reply Fault × State) [
            | again seen' ↦ wait_for c complete polls seen' a (c.observe a s).1
            | stop r ↦ (r, (c.observe a s).1)
          ]).0)
        (ap (stability c complete seen) there ∙ stability_complete complete seen x true done)
  wait_for_completes complete (suc n) (suc polls) seen a s (x, there, waiting, later) below =
      ap
        (λ v.
          (elim v as (λ _. Reply Fault × State) [
            | again seen' ↦ wait_for c complete polls seen' a (c.observe a s).1
            | stop r ↦ (r, (c.observe a s).1)
          ]).0)
        (ap (stability c complete seen) there ∙ stability_complete complete seen x false waiting)
      ∙ wait_for_completes complete n polls true a (c.observe a s).1 later (omega (arith, below))

  after_create_waits :
      (already_exists : Fault → Bool) (wait : State → Reply Fault × State) (r : Reply Fault)
      (s : State)
      → (r ≡ ok) ⊎ ((e : Fault) × (r ≡ err e) × (already_exists e ≡ true))
      → after_create already_exists wait (r, s) ≡ wait s
  after_create_waits already_exists wait r s (inl fine) =
      ap (λ x. after_create already_exists wait (x, s)) fine
  after_create_waits already_exists wait r s (inr (e, there, exists)) =
      ap (λ x. after_create already_exists wait (x, s)) there
      ∙ ap (λ b. if◌then◌else◌ {A = Reply Fault × State} b (wait s) (err e, s)) exists

  -- A dependency is waited for as long as its deadline allows: if the job can be created or exists, and
  -- has its one pod succeed before as many looks as the deadline has seconds (120 where the job gives
  -- none), handling it succeeds.
  pub handle_dependency_completes :
      (already_exists : Fault → Bool) (active_deadline : A → Option ℕ) (succeeded : c.Status → ℕ)
      (dep : A) (s s1 : State) (r : Reply Fault) (n seconds : ℕ)
      → c.create dep s ≡ (r, s1)
      → (r ≡ ok) ⊎ ((e : Fault) × (r ≡ err e) × (already_exists e ≡ true))
      → (active_deadline dep ≡ some seconds) ⊎ ((active_deadline dep ≡ none) × (seconds ≡ 120))
      → CompletesIn (λ status. nat_eq (succeeded status) 1) n dep s1
      → n < seconds
      → (handle_dependency already_exists active_deadline succeeded dep s).0 ≡ ok
  unfolding handle_dependency
  handle_dependency_completes already_exists active_deadline succeeded dep s s1 r n seconds made
        fine given h below =
      let wait =
        wait_for c (λ status. nat_eq (succeeded status) 1) (deadline (active_deadline dep)) false
          dep in
      ap (λ x. (after_create already_exists wait x).0) made
      ∙ ap (λ x. x.0) (after_create_waits already_exists wait r s1 fine)
      ∙ wait_for_completes (λ status. nat_eq (succeeded status) 1) n
          (deadline (active_deadline dep)) false dep s1 h
          (subst (λ d. n < d) (sym (deadline_eq (active_deadline dep) seconds given)) below)
