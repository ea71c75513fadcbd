-- ===== src/Apply/Memory.antt =====
-- An API server in memory, as an instance of what is assumed of the cluster's API: the objects are a
-- list, every call succeeds, and every object that is there reports the same status.
use jaeger_operator.Base.{String, ◌≡◌, refl, Option, none, some, List, [], ◌∷◌, ◌++◌}
use jaeger_operator.Base.{ap, sym, ◌∙◌, ◌==◌, if◌then◌else◌, arith}
use jaeger_operator.Base.Dict.{Dict, lookup, insert, or_else, lookup-insert}
use jaeger_operator.Inventory.{fill_map, to_map}
use jaeger_operator.Apply.{Client, Reply, ok, Observed, not_found, found}
use jaeger_operator.Apply.Calls.{IsApi}

module _ {A : Type 0} (key : A → String) where
  abbrev pub held : List A → String → Option A
  held s k = lookup k (to_map key s)

  unfoldable pub without : String → List A → List A
  without k [] = []
  without k (a ∷ s) = let rest = without k s in if k == key a then rest else a ∷ rest

  abbrev pub memory : {Status : Type 0} → Status → Client A
  memory {Status} status = record {
    State = List A;
    Fault = String;
    Status = Status;
    list = λ s. (s, ok);
    create = λ a s. (ok, s ++ a ∷ []);
    update = λ a s. (ok, s ++ a ∷ []);
    delete = λ a s. (ok, without (key a) s);
    observe = λ a s. (
      elim (held s (key a)) as (λ _. Observed Status String) [
        | none ↦ not_found
        | some _ ↦ found status
      ],
      s,
    );
    timeout = "timed out waiting for the condition";
    removed = "deployment has been removed";
  }

  lookup-fill_map :
      (k : String) (l : List A) (m : Dict A)
      → lookup k (fill_map key l m) ≡ or_else (lookup k (fill_map key l [])) (lookup k m)
  unfolding fill_map lookup
  lookup-fill_map k [] m = refl
  lookup-fill_map k (a ∷ l) m = ground (
    arith,
    lookup-fill_map k l (insert (key a) a m),
    lookup-fill_map k l (insert (key a) a []),
    lookup-insert k (key a) a m,
    lookup-insert k (key a) a [],
  )

  fill_map-append :
      (l : List A) (a : A) (m : Dict A)
      → fill_map key (l ++ a ∷ []) m ≡ insert (key a) a (fill_map key l m)
  unfolding fill_map
  fill_map-append [] a m = refl
  fill_map-append (b ∷ l) a m = fill_map-append l a (insert (key b) b m)

  held-append :
      (a : A) (s : List A) (k : String)
      → held (s ++ a ∷ []) k ≡ (if k == key a then some a else held s k)
  unfolding to_map
  held-append a s k = rw (fill_map-append s a []) (lookup-insert k (key a) a (fill_map key s []))

  held-without :
      (j : String) (s : List A) (k : String)
      → held (without j s) k ≡ (if k == j then none else held s k)
  unfolding to_map fill_map without lookup
  held-without j [] k = ground arith
  held-without j (a ∷ s) k = ground (
    arith,
    held-without j s k,
    lookup-fill_map k s (insert (key a) a []),
    lookup-fill_map k (without j s) (insert (key a) a []),
    lookup-insert k (key a) a [],
  )

  -- The server in memory has what is assumed of the cluster's API; it stores objects unchanged.
  pub memory-IsApi : {Status : Type 0} (status : Status) → IsApi (memory status) key (λ a. a) held
  memory-IsApi status = record {
    list-get = λ s l e k. ap (λ (x : List A × Reply String). held x.0 k) (sym e);
    create-get =
        λ a s s' e k. ap (λ (x : Reply String × List A). held x.1 k) (sym e) ∙ held-append a s k;
    update-get =
        λ a s s' e k. ap (λ (x : Reply String × List A). held x.1 k) (sym e) ∙ held-append a s k;
    delete-get = λ a s s' e k.
        ap (λ (x : Reply String × List A). held x.1 k) (sym e) ∙ held-without (key a) s k;
    create-keeps = λ a s k h. ground (arith, held-append a s k);
    update-keeps = λ a s k h. ground (arith, held-append a s k);
    delete-keeps = λ a s k n h. ground (arith, held-without (key a) s k);
    observe-get = λ a s k. refl;
  }
