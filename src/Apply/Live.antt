-- ===== src/Apply/Live.antt =====
-- Runs against an API that answers: applyDeployments and its siblings (pkg/controller/jaeger) end and
-- succeed.
use jaeger_operator.Base.{
  ℕ, ◌<◌, String, ◌≡◌, ◌≢◌, refl, ap, ◌∙◌, Bool, true, false, Option, none, some, List, [], ◌∷◌,
}
use jaeger_operator.Base.{Run, done, arith, is_some}
use jaeger_operator.Base.Dict.{Dict, lookup, named, NodupKeys}
use jaeger_operator.Inventory.{Inventory, to_map}
use jaeger_operator.Inventory.Contract.{IsPlan}
use jaeger_operator.Inventory.Deployment.{Deployment}
use jaeger_operator.Apply.{Client, Reply, ok, err, and_then, for_each}
use jaeger_operator.Apply.{wait_for, carry_out_waiting, apply_waiting}
use jaeger_operator.Apply.Calls.{IsApi, get-for_each_store, wait_for-keeps}
use jaeger_operator.Apply.Correct.{There, create-There, update-There, wait-There, list_pair}
use jaeger_operator.Apply.Dependencies.{CompletesIn, wait_for_completes}

module _ {A : Type 0} (c : Client A) (key : A → String) (merge : A → A → A) (admit : A → A)
    (get : c.State → String → Option A) (api : IsApi c key admit get) (stable : c.Status → Bool)
    (looks : ℕ) where
  -- No call fails that the API may answer: an object can be created where there is none of its name,
  -- updated and deleted where there is one, and one that is there is seen to be stable after a number
  -- of looks.
  pub record IsUp : Type 0 where
    pub list-ok : (s : c.State) → (c.list s).1 ≡ ok
    pub create-ok : (a : A) (s : c.State) → get s (key a) ≡ none → (c.create a s).0 ≡ ok
    pub update-ok : (a : A) (s : c.State) → is_some (get s (key a)) ≡ true → (c.update a s).0 ≡ ok
    pub delete-ok : (a : A) (s : c.State) → is_some (get s (key a)) ≡ true → (c.delete a s).0 ≡ ok
    pub observe-stable :
        (a : A) (s : c.State) → is_some (get s (key a)) ≡ true → CompletesIn c stable looks a s

  and_then_ok :
      (r : Reply c.Fault × c.State) (k : c.State → Reply c.Fault × c.State)
      → r.0 ≡ ok
      → (k r.1).0 ≡ ok
      → (and_then c r k).0 ≡ ok
  and_then_ok (ok, s) k e h = h
  and_then_ok (err f, s) k e h = e

  -- All objects of a list are there.
  abbrev AllThere : List A → c.State → Type 0
  AllThere l s =
      (k : String) → is_some (lookup k (named key l)) ≡ true → There c key merge admit get api k s

  -- A loop of calls that each succeed where the object is there, and leave the others there.
  for_each_there :
      (call : A → c.State → Reply c.Fault × c.State)
      → ((a : A) (s : c.State) → is_some (get s (key a)) ≡ true → (call a s).0 ≡ ok)
      → ((a : A) (s : c.State) (k : String)
          → k ≢ key a
          → is_some (get s k) ≡ true
          → is_some (get (call a s).1 k) ≡ true)
      → (l : List A) (s : c.State) → NodupKeys (named key l)
      → AllThere l s
      → (for_each c call l s).0 ≡ ok
  unfolding for_each named lookup
  for_each_there call succeeds keeps [] s u there = refl
  for_each_there call succeeds keeps (a ∷ l) s (fresh, u) there =
      and_then_ok (call a s) (for_each c call l) (succeeds a s (there (key a) (ground arith))) (
        for_each_there call succeeds keeps l (call a s).1 u (λ k listed.
          keeps a s k (λ same. cc (fresh, listed, ap (λ j. is_some (lookup j (named key l))) same))
            (there k (ground arith))))

  module _ (up : IsUp) where
    -- A loop that creates objects of which none is there.
    for_each_create :
        (l : List A) (s : c.State)
        → NodupKeys (named key l)
        → ((k : String) → is_some (lookup k (named key l)) ≡ true → get s k ≡ none)
        → (for_each c c.create l s).0 ≡ ok
    unfolding for_each named lookup
    for_each_create [] s u absent = refl
    for_each_create (a ∷ l) s (fresh, u) absent =
        let made = up.create-ok a s (absent (key a) (ground arith)) in
        and_then_ok (c.create a s) (for_each c c.create l) made (
          for_each_create l (c.create a s).1 u (λ k listed. ground (
            arith,
            api.create-get a s (c.create a s).1 (λ i. (made i, (c.create a s).1)) k,
            absent k,
            fresh,
          )))

    wait_all :
        (polls : ℕ) (l : List A) (s : c.State)
        → looks < polls
        → NodupKeys (named key l)
        → AllThere l s
        → (for_each c (wait_for c stable polls false) l s).0 ≡ ok
    wait_all polls l s time u there =
        for_each_there (wait_for c stable polls false)
          (λ a s1 h.
            wait_for_completes c stable looks polls false a s1 (up.observe-stable a s1 h) time)
          (λ a s1 k differs h.
            wait_for-keeps c key (λ s2. is_some (get s2 k) ≡ true)
              (λ b s2 h2. ap is_some (api.observe-get b s2 k) ∙ h2) stable polls false a s1 h)
          l s u there

    carry_out_waiting_ok :
        (polls : ℕ) (desired existing : Dict A) (inv : Inventory A) (s : c.State)
        → looks < polls
        → IsPlan key merge desired existing inv
        → ((k : String) → lookup k existing ≡ get s k)
        → (carry_out_waiting c stable polls inv s).0 ≡ ok
    carry_out_waiting_ok polls desired existing inv s time plan seen =
        let wait = wait_for c stable polls false in
        let s1 = (for_each c c.create inv.create s).1 in
        let s2 = (for_each c c.update inv.update s1).1 in
        let s3 = (for_each c wait inv.create s2).1 in
        let s4 = (for_each c wait inv.update s3).1 in
        let created : (for_each c c.create inv.create s).0 ≡ ok =
          for_each_create inv.create s plan.create-NodupKeys
            (λ k listed. ground (arith, plan.create k, seen k)) in
        let new : AllThere inv.create s1 = λ k listed. ground (
          arith,
          get-for_each_store c key get c.create admit api.create-get inv.create s s1
              plan.create-NodupKeys (λ i. (created i, s1)) k,
        ) in
        let kept1 = λ (k : String). create-There c key merge admit get api inv k s in
        let kept2 = λ (k : String). update-There c key merge admit get api inv k s1 in
        let kept3 =
          λ (k : String). wait-There c key merge admit get api stable polls inv.create k s2 in
        let kept4 =
          λ (k : String). wait-There c key merge admit get api stable polls inv.update k s3 in
        let old : (k : String)
            → is_some (lookup k (named key inv.update)) ≡ true
            → is_some (get s k) ≡ true =
          λ k listed. ground (arith, plan.update k, seen k) in
        let obsolete : (k : String)
            → is_some (lookup k (named key inv.delete)) ≡ true
            → is_some (get s k) ≡ true =
          λ k listed. ground (arith, plan.delete k, seen k) in
        and_then_ok (for_each c c.create inv.create s) _ created (
          and_then_ok (for_each c c.update inv.update s1) _
            (for_each_there c.update up.update-ok (λ a s5 k differs. api.update-keeps a s5 k)
              inv.update s1 plan.update-NodupKeys (λ k listed. kept1 k (old k listed)))
            (and_then_ok (for_each c wait inv.create s2) _
              (wait_all polls inv.create s2 time plan.create-NodupKeys
                (λ k listed. kept2 k (new k listed)))
              (and_then_ok (for_each c wait inv.update s3) _
                (wait_all polls inv.update s3 time plan.update-NodupKeys
                  (λ k listed. kept3 k (kept2 k (kept1 k (old k listed)))))
                (for_each_there c.delete up.delete-ok api.delete-keeps inv.delete s4
                  plan.delete-NodupKeys
                  (λ k listed. kept4 k (kept3 k (kept2 k (kept1 k (obsolete k listed)))))))))

    pub apply_waiting_ok :
        (polls : ℕ) (inventory : List A → List A → Run (Inventory A)) (desired : List A)
        (s : c.State)
        → looks < polls
        → ((existing : List A)
            → (inv : Inventory A) × (inventory existing desired ≡ done inv)
              × IsPlan key merge (to_map key desired) (to_map key existing) inv)
        → (s' : c.State) × (apply_waiting c stable polls inventory desired s ≡ some (ok, s'))
    unfolding apply_waiting
    apply_waiting_ok polls inventory desired s time plans =
        let (inv, made, plan) = plans (c.list s).0 in
        let r = carry_out_waiting c stable polls inv s in
        let listed = list_pair c key merge admit get api s (up.list-ok s) in
        let fine : r.0 ≡ ok =
          carry_out_waiting_ok polls (to_map key desired) (to_map key (c.list s).0) inv s time plan
            (api.list-get s (c.list s).0 listed) in
        (r.1, rw (up.list-ok s, made) (λ i. some (fine i, r.1)))
