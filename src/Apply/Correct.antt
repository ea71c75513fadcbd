-- ===== src/Apply/Correct.antt =====
-- What the apply functions of pkg/controller/jaeger leave in the cluster.
use jaeger_operator.Base.{ℕ, String, ◌≡◌, ◌≢◌, refl, sym, ap, subst, ◌∙◌, Bool, true, false, Option}
use jaeger_operator.Base.{none, some, Run, done}
use jaeger_operator.Base.{List, [], is_some, arith}
use jaeger_operator.Base.Dict.{Dict, lookup, named}
use jaeger_operator.Inventory.{Inventory, to_map}
use jaeger_operator.Inventory.Contract.{IsPlan}
use jaeger_operator.Apply.{Client, Reply, ok}
use jaeger_operator.Apply.{for_each, carry_out, carry_out_waiting, wait_for}
use jaeger_operator.Apply.{apply, apply_waiting}
use jaeger_operator.Apply.Calls.{IsApi, and_then-ok, get-for_each_store, get-for_each_remove}
use jaeger_operator.Apply.Calls.{
  after_list-ok, after_list-keeps, and_then-keeps, and_then-keeps_ok, for_each_fails,
  wait_for_never, for_each-keeps, wait_for-keeps,
}

-- The object that a name should have, from the desired and from the existing one.
abbrev pub target {ℓ} : {A : Type ℓ} → (A → A → A) → (A → A) → Option A → Option A → Option A
target merge admit none t = none
target merge admit (some v) none = some (admit v)
target merge admit (some v) (some t) = some (admit (merge t v))

module _ {A : Type 0} (c : Client A) (key : A → String) (merge : A → A → A) (admit : A → A)
    (get : c.State → String → Option A) (api : IsApi c key admit get) where
  -- The three loops of a plan.
  get-carry_out :
      (desired existing : Dict A) (inv : Inventory A) (s s' : c.State)
      → IsPlan key merge desired existing inv
      → ((k : String) → lookup k existing ≡ get s k)
      → carry_out c inv s ≡ (ok, s')
      → (k : String) → get s' k ≡ target merge admit (lookup k desired) (get s k)
  get-carry_out desired existing inv s s' plan seen e k =
      let (s1, creates, e1) = and_then-ok c key (for_each c c.create inv.create s) _ s' e in
      let (s2, updates, deletes) = and_then-ok c key (for_each c c.update inv.update s1) _ s' e1 in
      ground (
        arith,
        seen k,
        plan.create k,
        plan.update k,
        plan.delete k,
        get-for_each_store c key get c.create admit api.create-get inv.create s s1
            plan.create-NodupKeys creates k,
        get-for_each_store c key get c.update admit api.update-get inv.update s1 s2
            plan.update-NodupKeys updates k,
        get-for_each_remove c key get c.delete api.delete-get inv.delete s2 s' deletes k,
      )

  -- The name has an object.
  abbrev pub There : String → c.State → Type 0
  There k s = is_some (get s k) ≡ true

  pub create-There :
      (inv : Inventory A) (k : String) (s : c.State)
      → There k s
      → There k (for_each c c.create inv.create s).1
  create-There inv k =
      for_each-keeps c key (There k) c.create inv.create (λ a s _. api.create-keeps a s k)

  pub update-There :
      (inv : Inventory A) (k : String) (s : c.State)
      → There k s
      → There k (for_each c c.update inv.update s).1
  update-There inv k =
      for_each-keeps c key (There k) c.update inv.update (λ a s _. api.update-keeps a s k)

  pub wait-There :
      (stable : c.Status → Bool) (polls : ℕ) (l : List A) (k : String) (s : c.State)
      → There k s
      → There k (for_each c (wait_for c stable polls false) l s).1
  wait-There stable polls l k =
      for_each-keeps c key (There k) (wait_for c stable polls false) l (λ a s _.
        wait_for-keeps c key (There k)
          (λ b s1 h. subst (λ o. is_some o ≡ true) (sym (api.observe-get b s1 k)) h) stable polls
          false a s)

  -- Waiting leaves every name as it is.
  get-wait :
      (stable : c.Status → Bool) (polls : ℕ) (l : List A) (k : String) (s : c.State)
      → get (for_each c (wait_for c stable polls false) l s).1 k ≡ get s k
  get-wait stable polls l k s =
      for_each-keeps c key (λ s1. get s1 k ≡ get s k) (wait_for c stable polls false) l
        (λ a s1 _.
          wait_for-keeps c key (λ s2. get s2 k ≡ get s k) (λ b s2 h. api.observe-get b s2 k ∙ h)
            stable polls false a s1)
        s refl

  get-carry_out_waiting :
      (stable : c.Status → Bool) (polls : ℕ) (desired existing : Dict A) (inv : Inventory A)
      (s s' : c.State)
      → IsPlan key merge desired existing inv
      → ((k : String) → lookup k existing ≡ get s k)
      → carry_out_waiting c stable polls inv s ≡ (ok, s')
      → (k : String) → get s' k ≡ target merge admit (lookup k desired) (get s k)
  get-carry_out_waiting stable polls desired existing inv s s' plan seen e k =
      let (s1, creates, e1) = and_then-ok c key (for_each c c.create inv.create s) _ s' e in
      let (s2, updates, e2) = and_then-ok c key (for_each c c.update inv.update s1) _ s' e1 in
      let (s3, wait1, e3) =
        and_then-ok c key (for_each c (wait_for c stable polls false) inv.create s2) _ s' e2 in
      let (s4, wait2, deletes) =
        and_then-ok c key (for_each c (wait_for c stable polls false) inv.update s3) _ s' e3 in
      let same1 : get s3 k ≡ get s2 k =
        ap (λ (x : Reply c.Fault × c.State). get x.1 k) (sym wait1)
        ∙ get-wait stable polls inv.create k s2 in
      let same2 : get s4 k ≡ get s3 k =
        ap (λ (x : Reply c.Fault × c.State). get x.1 k) (sym wait2)
        ∙ get-wait stable polls inv.update k s3 in
      ground (
        arith,
        seen k,
        plan.create k,
        plan.update k,
        plan.delete k,
        get-for_each_store c key get c.create admit api.create-get inv.create s s1
            plan.create-NodupKeys creates k,
        get-for_each_store c key get c.update admit api.update-get inv.update s1 s2
            plan.update-NodupKeys updates k,
        same1,
        same2,
        get-for_each_remove c key get c.delete api.delete-get inv.delete s4 s' deletes k,
      )

  pub list_pair : (s : c.State) → (c.list s).1 ≡ ok → c.list s ≡ ((c.list s).0, ok)
  list_pair s e = λ i. ((c.list s).0, e i)

  done-injective : (a b : Inventory A) → done a ≡ done b → a ≡ b
  done-injective a b e = cc

  module _ (inventory : List A → List A → Run (Inventory A))
      (plans : (existing desired : List A)
        → (inv : Inventory A) × (inventory existing desired ≡ done inv)
          × IsPlan key merge (to_map key desired) (to_map key existing) inv) where
    known-IsPlan :
        (desired existing : List A) (inv : Inventory A)
        → inventory existing desired ≡ done inv
        → IsPlan key merge (to_map key desired) (to_map key existing) inv
    known-IsPlan desired existing inv made =
        let (inv', made', plan) = plans existing desired in
        subst (IsPlan key merge (to_map key desired) (to_map key existing))
          (done-injective inv' inv (sym made' ∙ made)) plan

    -- After a run that succeeded every listed name has the object that it should have: what is not
    -- desired is gone, what is desired is there, updated if it was there before.
    pub get-apply :
        (desired : List A) (s s' : c.State)
        → apply c inventory desired s ≡ some (ok, s')
        → (k : String) → get s' k ≡ target merge admit (lookup k (to_map key desired)) (get s k)
    unfolding apply
    get-apply desired s s' e k =
        let (inv, listed, made, carried) =
          after_list-ok c key (λ l. inventory l desired) (carry_out c) (c.list s).0 (c.list s).1 s
            s' e in
        get-carry_out (to_map key desired) (to_map key (c.list s).0) inv s s'
          (known-IsPlan desired (c.list s).0 inv made)
          (api.list-get s (c.list s).0 (list_pair s listed)) carried k

    -- The same for a run that waits.
    pub get-apply_waiting :
        (stable : c.Status → Bool) (polls : ℕ) (desired : List A) (s s' : c.State)
        → apply_waiting c stable polls inventory desired s ≡ some (ok, s')
        → (k : String) → get s' k ≡ target merge admit (lookup k (to_map key desired)) (get s k)
    unfolding apply_waiting
    get-apply_waiting stable polls desired s s' e k =
        let (inv, listed, made, carried) =
          after_list-ok c key (λ l. inventory l desired) (carry_out_waiting c stable polls)
            (c.list s).0 (c.list s).1 s s' e in
        get-carry_out_waiting stable polls (to_map key desired) (to_map key (c.list s).0) inv s s'
          (known-IsPlan desired (c.list s).0 inv made)
          (api.list-get s (c.list s).0 (list_pair s listed)) carried k

    delete-There :
        (desired existing : Dict A) (inv : Inventory A) (k : String)
        → IsPlan key merge desired existing inv
        → is_some (lookup k desired) ≡ true
        → (s : c.State) → There k s
        → There k (for_each c c.delete inv.delete s).1
    delete-There desired existing inv k plan wanted =
        for_each-keeps c key (There k) c.delete inv.delete (λ a s listed.
          api.delete-keeps a s k (λ same. absurd (
            cc
              (delete_unwanted (key a) listed, ap (λ j. is_some (lookup j desired)) same, wanted))))
      where
        delete_unwanted :
            (j : String)
            → is_some (lookup j (named key inv.delete)) ≡ true
            → is_some (lookup j desired) ≡ false
        delete_unwanted j h = ground (arith, plan.delete j)

    -- However a run ends, with an error half-way too, a desired object that was there is there.
    pub apply-keeps :
        (desired : List A) (s s' : c.State) (reply : Reply c.Fault) (k : String)
        → apply c inventory desired s ≡ some (reply, s')
        → is_some (lookup k (to_map key desired)) ≡ true
        → is_some (get s k) ≡ true
        → is_some (get s' k) ≡ true
    unfolding apply
    apply-keeps desired s s' reply k e wanted there =
        after_list-keeps c key (There k) (λ l. inventory l desired) (carry_out c) (c.list s).0
          (c.list s).1 s reply s' there
          (λ inv listed made.
            and_then-keeps c key (There k) (for_each c c.create inv.create s) _
              (create-There inv k s there)
              (λ s1 h1.
                and_then-keeps c key (There k) (for_each c c.update inv.update s1) _
                  (update-There inv k s1 h1)
                  (delete-There (to_map key desired) (to_map key (c.list s).0) inv k
                    (known-IsPlan desired (c.list s).0 inv made) wanted)))
          e

    pub apply_waiting-keeps :
        (stable : c.Status → Bool) (polls : ℕ) (desired : List A) (s s' : c.State)
        (reply : Reply c.Fault) (k : String)
        → apply_waiting c stable polls inventory desired s ≡ some (reply, s')
        → is_some (lookup k (to_map key desired)) ≡ true
        → is_some (get s k) ≡ true
        → is_some (get s' k) ≡ true
    unfolding apply_waiting
    apply_waiting-keeps stable polls desired s s' reply k e wanted there =
        after_list-keeps c key (There k) (λ l. inventory l desired)
          (carry_out_waiting c stable polls) (c.list s).0 (c.list s).1 s reply s' there
          (λ inv listed made.
            and_then-keeps c key (There k) (for_each c c.create inv.create s) _
              (create-There inv k s there)
              (λ s1 h1.
                and_then-keeps c key (There k) (for_each c c.update inv.update s1) _
                  (update-There inv k s1 h1)
                  (λ s2 h2.
                    and_then-keeps c key (There k)
                      (for_each c (wait_for c stable polls false) inv.create s2) _
                      (wait-There stable polls inv.create k s2 h2)
                      (λ s3 h3.
                        and_then-keeps c key (There k)
                          (for_each c (wait_for c stable polls false) inv.update s3)
                          (for_each c c.delete inv.delete)
                          (wait-There stable polls inv.update k s3 h3)
                          (delete-There (to_map key desired) (to_map key (c.list s).0) inv k
                            (known-IsPlan desired (c.list s).0 inv made) wanted)))))
          e

    -- A plan for at least one desired object creates or updates something.
    busy :
        (desired existing : Dict A) (inv : Inventory A) (k : String)
        → IsPlan key merge desired existing inv
        → is_some (lookup k desired) ≡ true
        → inv.create ≡ []
        → inv.update ≢ []
    unfolding named lookup
    busy desired existing inv k plan wanted none_created none_updated = ground (
      arith,
      plan.create k,
      plan.update k,
      ap (λ l. lookup k (named key l)) none_created,
      ap (λ l. lookup k (named key l)) none_updated,
    )

    -- While nothing that was created or updated becomes stable, nothing is deleted.
    pub apply_waiting_unstable :
        (stable : c.Status → Bool) (polls : ℕ) (desired : List A) (s s' : c.State)
        (reply : Reply c.Fault) (k j : String)
        → ((x : c.Status) → stable x ≡ false)
        → is_some (lookup j (to_map key desired)) ≡ true
        → apply_waiting c stable polls inventory desired s ≡ some (reply, s')
        → is_some (get s k) ≡ true
        → is_some (get s' k) ≡ true
    unfolding apply_waiting
    apply_waiting_unstable stable polls desired s s' reply k j never wanted e there =
        after_list-keeps c key (There k) (λ l. inventory l desired)
          (carry_out_waiting c stable polls) (c.list s).0 (c.list s).1 s reply s' there
          (λ inv listed made.
            and_then-keeps c key (There k) (for_each c c.create inv.create s) _
              (create-There inv k s there)
              (λ s1 h1.
                and_then-keeps c key (There k) (for_each c c.update inv.update s1) _
                  (update-There inv k s1 h1)
                  (λ s2 h2.
                    and_then-keeps_ok c key (There k)
                      (for_each c (wait_for c stable polls false) inv.create s2) _
                      (wait-There stable polls inv.create k s2 h2)
                      (λ s3 waited h3.
                        and_then-keeps_ok c key (There k)
                          (for_each c (wait_for c stable polls false) inv.update s3)
                          (for_each c c.delete inv.delete)
                          (wait-There stable polls inv.update k s3 h3)
                          (λ s4 waited' h4. absurd (both_empty inv made s2 s3 waited waited'))))))
          e
      where
        both_empty :
            (inv : Inventory A)
            → inventory (c.list s).0 desired ≡ done inv
            → (s2 s3 : c.State) → (for_each c (wait_for c stable polls false) inv.create s2).0 ≡ ok
            → (for_each c (wait_for c stable polls false) inv.update s3).0 ≡ ok
            → ⊥
        both_empty inv made s2 s3 waited waited' =
            for_each_fails c key (wait_for c stable polls false) inv.create s2
              (wait_for_never c key stable never polls false)
              (λ empty.
                for_each_fails c key (wait_for c stable polls false) inv.update s3
                  (wait_for_never c key stable never polls false)
                  (busy (to_map key desired) (to_map key (c.list s).0) inv j
                    (known-IsPlan desired (c.list s).0 inv made) wanted empty)
                  waited')
              waited
