-- ===== src/Apply/Calls.antt =====
-- What is assumed of the cluster's API, and what loops of its calls do.
use jaeger_operator.Base.{
  ℕ, zero, suc, String, ◌≡◌, ◌≢◌, refl, Bool, true, false, Option, none, some,
}
use jaeger_operator.Base.{ap, sym, List, [], ◌∷◌, is_some, ◌==◌, if◌then◌else◌, arith}
use mathlib.Core.Option.{some-injective, none-ne-some}
use jaeger_operator.Base.{Run, done, panic, subst}
use jaeger_operator.Base.Dict.{lookup, named, NodupKeys, or_else}
use jaeger_operator.Inventory.{Inventory, to_map}
use jaeger_operator.Apply.{Client, Reply, ok, err, Observed, failed, not_found, found}
use jaeger_operator.Apply.{
  after_plan, after_list, Verdict, again, stop, and_then, for_each, stability, wait_for,
}

abbrev pub stored {ℓ} : {A : Type ℓ} → (A → A) → Option A → Option A
stored admit none = none
stored admit (some a) = some (admit a)

module _ {A : Type 0} (c : Client A) (key : A → String) where
  -- Documented behaviour of the API, seen through `get`: the object of a name among those that are
  -- listed. `admit` is what the API server makes of an object that it stores. A call that fails may
  -- have had its effect or none; it never removes another object. No one else changes the objects of the
  -- instance during a run, also not while they are waited for (observe-get).
  pub record IsApi (admit : A → A) (get : c.State → String → Option A) : Type 0 where
    pub list-get :
        (s : c.State) (l : List A)
        → c.list s ≡ (l, ok)
        → (k : String) → lookup k (to_map key l) ≡ get s k
    pub create-get :
        (a : A) (s s' : c.State)
        → c.create a s ≡ (ok, s')
        → (k : String) → get s' k ≡ (if k == key a then some (admit a) else get s k)
    pub update-get :
        (a : A) (s s' : c.State)
        → c.update a s ≡ (ok, s')
        → (k : String) → get s' k ≡ (if k == key a then some (admit a) else get s k)
    pub delete-get :
        (a : A) (s s' : c.State)
        → c.delete a s ≡ (ok, s')
        → (k : String) → get s' k ≡ (if k == key a then none else get s k)
    pub create-keeps :
        (a : A) (s : c.State) (k : String)
        → is_some (get s k) ≡ true
        → is_some (get (c.create a s).1 k) ≡ true
    pub update-keeps :
        (a : A) (s : c.State) (k : String)
        → is_some (get s k) ≡ true
        → is_some (get (c.update a s).1 k) ≡ true
    pub delete-keeps :
        (a : A) (s : c.State) (k : String)
        → k ≢ key a
        → is_some (get s k) ≡ true
        → is_some (get (c.delete a s).1 k) ≡ true
    pub observe-get : (a : A) (s : c.State) (k : String) → get (c.observe a s).1 k ≡ get s k

  -- A chain that succeeded did so at each step.
  pub and_then-ok :
      (r : Reply c.Fault × c.State) (k : c.State → Reply c.Fault × c.State) (s' : c.State)
      → and_then c r k ≡ (ok, s')
      → (s1 : c.State) × (r ≡ (ok, s1)) × (k s1 ≡ (ok, s'))
  and_then-ok (ok, s) k s' e = (s, refl, e)
  and_then-ok (err f, s) k s' e = absurd (cc (ap (λ (x : Reply c.Fault × c.State). x.0) e))

  module _ (get : c.State → String → Option A) (call : A → c.State → Reply c.Fault × c.State) where
    -- A loop of calls that each store their object.
    pub get-for_each_store :
        (admit : A → A)
        → ((a : A) (s s' : c.State)
            → call a s ≡ (ok, s')
            → (k : String) → get s' k ≡ (if k == key a then some (admit a) else get s k))
        → (l : List A) (s s' : c.State) → NodupKeys (named key l)
        → for_each c call l s ≡ (ok, s')
        → (k : String) → get s' k ≡ or_else (stored admit (lookup k (named key l))) (get s k)
    unfolding for_each named lookup
    get-for_each_store admit step [] s s' u e k =
        ap (λ (x : Reply c.Fault × c.State). get x.1 k) (sym e)
    get-for_each_store admit step (a ∷ l) s s' (fresh, u) e k =
        let (s1, first, rest) = and_then-ok (call a s) (for_each c call l) s' e in
        ground (arith, step a s s1 first k, get-for_each_store admit step l s1 s' u rest k)

    -- A loop of calls that each remove their object.
    pub get-for_each_remove :
        ((a : A) (s s' : c.State)
          → call a s ≡ (ok, s')
          → (k : String) → get s' k ≡ (if k == key a then none else get s k))
        → (l : List A) (s s' : c.State) → for_each c call l s ≡ (ok, s')
        → (k : String) → get s' k ≡ (if is_some (lookup k (named key l)) then none else get s k)
    unfolding for_each named lookup
    get-for_each_remove step [] s s' e k = ap (λ (x : Reply c.Fault × c.State). get x.1 k) (sym e)
    get-for_each_remove step (a ∷ l) s s' e k =
        let (s1, first, rest) = and_then-ok (call a s) (for_each c call l) s' e in
        ground (arith, step a s s1 first k, get-for_each_remove step l s1 s' rest k)

  pub and_then-keeps {κ} :
      (P : c.State → Type κ) (r : Reply c.Fault × c.State) (k : c.State → Reply c.Fault × c.State)
      → P r.1
      → ((s : c.State) → P s → P (k s).1)
      → P (and_then c r k).1
  and_then-keeps P (ok, s) k h step = step s h
  and_then-keeps P (err e, s) k h step = h

  -- The second part runs only after the first succeeded.
  pub and_then-keeps_ok {κ} :
      (P : c.State → Type κ) (r : Reply c.Fault × c.State) (k : c.State → Reply c.Fault × c.State)
      → P r.1
      → ((s : c.State) → r.0 ≡ ok → P s → P (k s).1)
      → P (and_then c r k).1
  and_then-keeps_ok P (ok, s) k h step = step s refl h
  and_then-keeps_ok P (err e, s) k h step = h

  -- What every call of a loop keeps, the loop keeps, however it ends.
  pub for_each-keeps {κ} :
      (P : c.State → Type κ) (call : A → c.State → Reply c.Fault × c.State) (l : List A)
      → ((a : A) (s : c.State)
          → is_some (lookup (key a) (named key l)) ≡ true
          → P s
          → P (call a s).1)
      → (s : c.State) → P s
      → P (for_each c call l s).1
  unfolding for_each named lookup
  for_each-keeps P call [] step s h = h
  for_each-keeps P call (a ∷ l) step s h =
      and_then-keeps P (call a s) (for_each c call l) (step a s (ground arith) h)
        (λ s1. for_each-keeps P call l (λ b s2 m. step b s2 (ground arith)) s1)

  -- Waiting only looks.
  pub wait_for-keeps {κ} :
      (P : c.State → Type κ)
      → ((a : A) (s : c.State) → P s → P (c.observe a s).1)
      → (stable : c.Status → Bool) (polls : ℕ) (seen : Bool) (a : A) (s : c.State) → P s
      → P (wait_for c stable polls seen a s).1
  unfolding wait_for
  wait_for-keeps P step stable zero seen a s h = h
  wait_for-keeps P step stable (suc polls) seen a s h =
      elim (stability c stable seen (c.observe a s).0)
        as (λ v.
          P
            (elim v as (λ _. Reply c.Fault × c.State) [
              | again seen' ↦ wait_for c stable polls seen' a (c.observe a s).1
              | stop r ↦ (r, (c.observe a s).1)
            ]).1) [
              | again seen' ↦
                  wait_for-keeps P step stable polls seen' a (c.observe a s).1 (step a s h)
              | stop r ↦ step a s h
            ]

  stability_never :
      (stable : c.Status → Bool)
      → ((x : c.Status) → stable x ≡ false)
      → (seen : Bool) (o : Observed c.Status c.Fault) → stability c stable seen o ≢ stop ok
  unfolding stability
  stability_never stable never seen (failed e) h = cc
  stability_never stable never true not_found h = cc
  stability_never stable never false not_found h = cc
  stability_never stable never seen (found x) h = ground (arith, never x)

  -- A wait for what never becomes stable does not succeed.
  pub wait_for_never :
      (stable : c.Status → Bool)
      → ((x : c.Status) → stable x ≡ false)
      → (polls : ℕ) (seen : Bool) (a : A) (s : c.State) → (wait_for c stable polls seen a s).0 ≢ ok
  unfolding wait_for
  wait_for_never stable never zero seen a s e = cc
  wait_for_never stable never (suc polls) seen a s e =
      verdict (stability c stable seen (c.observe a s).0)
        (stability_never stable never seen (c.observe a s).0)
        (λ seen'. wait_for_never stable never polls seen' a (c.observe a s).1) e
    where
      verdict :
          (v : Verdict c.Fault)
          → v ≢ stop ok
          → ((seen' : Bool) → (wait_for c stable polls seen' a (c.observe a s).1).0 ≢ ok)
          → (elim v as (λ _. Reply c.Fault × c.State) [
            | again seen' ↦ wait_for c stable polls seen' a (c.observe a s).1
            | stop r ↦ (r, (c.observe a s).1)
          ]).0
            ≢ ok
      verdict (again seen') h rec = rec seen'
      verdict (stop r) h rec = λ same. h (ap stop same)

  pub and_then_fails :
      (r : Reply c.Fault × c.State) (k : c.State → Reply c.Fault × c.State)
      → r.0 ≢ ok
      → (and_then c r k).0 ≢ ok
  and_then_fails (ok, s) k h e = h refl
  and_then_fails (err f, s) k h e = cc

  pub for_each_fails :
      (call : A → c.State → Reply c.Fault × c.State) (l : List A) (s : c.State)
      → ((a : A) (s1 : c.State) → (call a s1).0 ≢ ok)
      → l ≢ []
      → (for_each c call l s).0 ≢ ok
  unfolding for_each
  for_each_fails call [] s fails some_left e = some_left refl
  for_each_fails call (a ∷ l) s fails some_left e =
      and_then_fails (call a s) (for_each c call l) (fails a s) e

  -- A run that succeeded has listed, made a plan and carried it out.
  after_plan-ok :
      (act : Inventory A → c.State → Reply c.Fault × c.State) (r : Run (Inventory A))
      (s s' : c.State)
      → after_plan c act r s ≡ some (ok, s')
      → (inv : Inventory A) × (r ≡ done inv) × (act inv s ≡ (ok, s'))
  after_plan-ok act panic s s' e = absurd (none-ne-some _ e)
  after_plan-ok act (done inv) s s' e = (inv, refl, some-injective _ _ e)

  pub after_list-ok :
      (inventory : List A → Run (Inventory A))
      (act : Inventory A → c.State → Reply c.Fault × c.State) (l : List A) (listed : Reply c.Fault)
      (s s' : c.State)
      → after_list c inventory act l listed s ≡ some (ok, s')
      → (inv : Inventory A) × (listed ≡ ok) × (inventory l ≡ done inv) × (act inv s ≡ (ok, s'))
  after_list-ok inventory act l ok s s' e =
      let (inv, made, carried) = after_plan-ok act (inventory l) s s' e in
      (inv, refl, made, carried)
  after_list-ok inventory act l (err f) s s' e =
      absurd (cc (ap (λ (x : Reply c.Fault × c.State). x.0) (some-injective _ _ e)))

  -- What every part keeps, a run keeps, however it ends.
  after_plan-keeps {κ} :
      (P : c.State → Type κ) (act : Inventory A → c.State → Reply c.Fault × c.State)
      (r : Run (Inventory A)) (s : c.State) (reply : Reply c.Fault) (s' : c.State)
      → ((inv : Inventory A) → r ≡ done inv → P (act inv s).1)
      → after_plan c act r s ≡ some (reply, s')
      → P s'
  after_plan-keeps P act panic s reply s' h e = absurd (none-ne-some _ e)
  after_plan-keeps P act (done inv) s reply s' h e =
      subst (λ (x : Reply c.Fault × c.State). P x.1) (some-injective _ _ e) (h inv refl)

  pub after_list-keeps {κ} :
      (P : c.State → Type κ) (inventory : List A → Run (Inventory A))
      (act : Inventory A → c.State → Reply c.Fault × c.State) (l : List A) (listed : Reply c.Fault)
      (s : c.State) (reply : Reply c.Fault) (s' : c.State)
      → P s
      → ((inv : Inventory A) → listed ≡ ok → inventory l ≡ done inv → P (act inv s).1)
      → after_list c inventory act l listed s ≡ some (reply, s')
      → P s'
  after_list-keeps P inventory act l ok s reply s' p h e =
      after_plan-keeps P act (inventory l) s reply s' (λ inv m. h inv refl m) e
  after_list-keeps P inventory act l (err f) s reply s' p h e =
      subst (λ (x : Reply c.Fault × c.State). P x.1) (some-injective _ _ e) p
