-- ===== src/Inventory/Versioned/Laws.antt =====
-- Plans of versioned objects go through exactly when every object has the configured version.
use jaeger_operator.Base.{String, ◌≡◌, refl, Bool, true, false, List, [], ◌∷◌, done, panic}
use jaeger_operator.Base.{◌++◌, All}
use jaeger_operator.Base.Dict.{Dict, RangeOrder, insert}
use jaeger_operator.Meta.{object_key}
use jaeger_operator.Meta.Laws.{object_key-merged_meta}
use jaeger_operator.Inventory.{Inventory, to_map, fill_map}
use jaeger_operator.Inventory.Contract.{IsPlan, reconcile-IsPlan_where}
use jaeger_operator.Inventory.Versioned.{Object, older, newer, other, merged_resource}
use jaeger_operator.Inventory.Versioned.{update_resource_done, key_of, fill_objects}
use jaeger_operator.Inventory.Versioned.{update_object, for_objects}

module _ {Old New Other : Type 0} where
  -- The object has the type that is configured.
  abbrev pub HasVersion : Bool → Object Old New Other → Type 0
  HasVersion true (older r) = Unit
  HasVersion false (newer r) = Unit
  HasVersion _ _ = ⊥

  -- The key of an object whatever its type; an object of another type has none.
  abbrev pub name_key : Object Old New Other → String
  name_key (older r) = object_key r.meta
  name_key (newer r) = object_key r.meta
  name_key (other r) = ""

  abbrev pub merged_object : Object Old New Other → Object Old New Other → Object Old New Other
  merged_object (older t) (older v) = older (merged_resource t v)
  merged_object (newer t) (newer v) = newer (merged_resource t v)
  merged_object t _ = t

  name_key-merged_object : (t v : Object Old New Other) → name_key (merged_object t v) ≡ name_key t
  unfolding merged_resource
  name_key-merged_object (older t) (older v) = object_key-merged_meta t.meta v.meta
  name_key-merged_object (newer t) (newer v) = object_key-merged_meta t.meta v.meta
  name_key-merged_object (older t) (newer v) = refl
  name_key-merged_object (newer t) (older v) = refl
  name_key-merged_object (older t) (other v) = refl
  name_key-merged_object (newer t) (other v) = refl
  name_key-merged_object (other t) v = refl

  key_of_done :
      (beta : Bool) (d : Object Old New Other)
      → HasVersion beta d
      → key_of beta d ≡ done (name_key d)
  unfolding key_of
  key_of_done true (older r) h = refl
  key_of_done false (newer r) h = refl
  key_of_done true (newer r) h = absurd h
  key_of_done true (other r) h = absurd h
  key_of_done false (older r) h = absurd h
  key_of_done false (other r) h = absurd h

  key_of_panic :
      (beta : Bool) (d : Object Old New Other) → ¬ HasVersion beta d → key_of beta d ≡ panic
  unfolding key_of
  key_of_panic true (older r) h = absurd (h tt)
  key_of_panic false (newer r) h = absurd (h tt)
  key_of_panic true (newer r) h = refl
  key_of_panic true (other r) h = refl
  key_of_panic false (older r) h = refl
  key_of_panic false (other r) h = refl

  update_object_done :
      (beta : Bool) (t v : Object Old New Other)
      → HasVersion beta t
      → HasVersion beta v
      → update_object beta t v ≡ done (merged_object t v)
  unfolding update_object
  update_object_done true (older t) (older v) p q = rw update_resource_done
  update_object_done false (newer t) (newer v) p q = rw update_resource_done
  update_object_done true (older t) (newer v) p q = absurd q
  update_object_done true (older t) (other v) p q = absurd q
  update_object_done true (newer t) v p q = absurd p
  update_object_done true (other t) v p q = absurd p
  update_object_done false (newer t) (older v) p q = absurd q
  update_object_done false (newer t) (other v) p q = absurd q
  update_object_done false (older t) v p q = absurd p
  update_object_done false (other t) v p q = absurd p

  fill_objects_done :
      (beta : Bool) (l : List (Object Old New Other)) (m : Dict (Object Old New Other))
      → All (HasVersion beta) l
      → fill_objects beta l m ≡ done (fill_map name_key l m)
  unfolding fill_objects fill_map
  fill_objects_done beta [] m h = refl
  fill_objects_done beta (d ∷ l) m (p, h) =
      rw (key_of_done beta d p) (fill_objects_done beta l (insert (name_key d) d m) h)

  -- When all objects have the configured version, a plan is made. It creates the objects that are
  -- desired and do not exist, updates those that are desired and exist, deletes the others, and
  -- lists none twice.
  pub for_objects-IsPlan :
      (beta : Bool) (o : RangeOrder) (existing desired : List (Object Old New Other))
      → All (HasVersion beta) existing
      → All (HasVersion beta) desired
      → (inv : Inventory (Object Old New Other)) × (for_objects beta o existing desired ≡ done inv)
        × IsPlan name_key merged_object (to_map name_key desired) (to_map name_key existing) inv
  unfolding for_objects to_map
  for_objects-IsPlan beta o existing desired pe pd =
      rw (fill_objects_done beta desired [] pd, fill_objects_done beta existing [] pe)
        (reconcile-IsPlan_where name_key merged_object name_key-merged_object o (HasVersion beta)
          (update_object beta) (update_object_done beta) desired existing pd pe)

  -- A plan panics when one of the desired objects, after some of the configured version, has another
  -- version.
  pub for_objects_panic :
      (beta : Bool) (o : RangeOrder) (existing before after : List (Object Old New Other))
      (d : Object Old New Other)
      → All (HasVersion beta) before
      → ¬ HasVersion beta d
      → for_objects beta o existing (before ++ d ∷ after) ≡ panic
  unfolding for_objects
  for_objects_panic beta o existing before after d h wrong = rw (go before [] h)
    where
      go :
          (l : List (Object Old New Other)) (m : Dict (Object Old New Other))
          → All (HasVersion beta) l
          → fill_objects beta (l ++ d ∷ after) m ≡ panic
      go [] m h = rw (key_of_panic beta d wrong)
      go (x ∷ l) m (p, h) = rw (key_of_done beta x p) (go l (insert (name_key x) x m) h)
