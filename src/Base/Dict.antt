-- ===== src/Base/Dict.antt =====
-- Go's maps with string keys. A map that was made is a list of entries; a map variable holds one or
-- nil, and a nil map reads as empty and panics when written.
use jaeger_operator.Base.{String, ◌≡◌, refl, Option, none, some, List, [], ◌∷◌, ◌++◌}
use jaeger_operator.Base.{◌==◌, if◌then◌else◌, arith, Run, done, panic}

abbrev pub Dict {ℓ} : Type ℓ → Type ℓ
Dict V = List (String × V)

module _ {ℓ} {V : Type ℓ} where
  unfoldable pub lookup : String → Dict V → Option V
  lookup k [] = none
  lookup k ((j, v) ∷ d) = if k == j then some v else lookup k d

  -- m[k] = v
  unfoldable pub insert : String → V → Dict V → Dict V
  insert k v [] = (k, v) ∷ []
  insert k v ((j, w) ∷ d) = if k == j then (k, v) ∷ d else (j, w) ∷ insert k v d

  -- delete(m, k)
  unfoldable pub erase : String → Dict V → Dict V
  erase k [] = []
  erase k ((j, w) ∷ d) = let rest = erase k d in if k == j then rest else (j, w) ∷ rest

  abbrev pub values : Dict V → List V
  values [] = []
  values ((k, v) ∷ d) = v ∷ values d

  abbrev pub NodupKeys : Dict V → Type ℓ
  NodupKeys [] = Unit
  NodupKeys ((k, _) ∷ d) = (lookup k d ≡ none) × NodupKeys d

  -- The elements of a list by their names. A lookup finds the first, and distinct keys are distinct
  -- names.
  unfoldable pub named : (V → String) → List V → Dict V
  named name [] = []
  named name (x ∷ xs) = (name x, x) ∷ named name xs

  pub lookup-nil : (k : String) → lookup k [] ≡ none
  unfolding lookup
  lookup-nil k = refl

  pub lookup-cons :
      (j k : String) (v : V) (d : Dict V)
      → lookup j ((k, v) ∷ d) ≡ (if j == k then some v else lookup j d)
  unfolding lookup
  lookup-cons j k v d = refl

  pub lookup-insert :
      (j k : String) (v : V) (d : Dict V)
      → lookup j (insert k v d) ≡ (if j == k then some v else lookup j d)
  unfolding insert lookup
  lookup-insert j k v [] = refl
  lookup-insert j k v (_ ∷ d) = ground (arith, lookup-insert j k v d)

  pub lookup-erase :
      (j k : String) (d : Dict V) → lookup j (erase k d) ≡ (if j == k then none else lookup j d)
  unfolding erase lookup
  lookup-erase j k [] = ground arith
  lookup-erase j k (_ ∷ d) = ground (arith, lookup-erase j k d)

  pub insert-NodupKeys : (k : String) (v : V) (d : Dict V) → NodupKeys d → NodupKeys (insert k v d)
  unfolding insert
  insert-NodupKeys k v [] _ = (lookup-nil k, tt)
  insert-NodupKeys k v ((j, _) ∷ d) (fresh, u) =
      ground (arith, insert-NodupKeys k v d u, lookup-insert j k v d)

  pub erase-NodupKeys : (k : String) (d : Dict V) → NodupKeys d → NodupKeys (erase k d)
  unfolding erase
  erase-NodupKeys k [] _ = tt
  erase-NodupKeys k ((j, _) ∷ d) (fresh, u) =
      ground (arith, erase-NodupKeys k d u, lookup-erase j k d)

  -- What the map holds under a key, or else the other value.
  abbrev pub or_else : Option V → Option V → Option V
  or_else none b = b
  or_else (some a) b = some a

  pub lookup-named-append :
      (name : V → String) (k : String) (xs ys : List V)
      → lookup k (named name (xs ++ ys))
        ≡ or_else (lookup k (named name xs)) (lookup k (named name ys))
  unfolding named lookup
  lookup-named-append name k [] ys = refl
  lookup-named-append name k (x ∷ xs) ys = ground (arith, lookup-named-append name k xs ys)

pub ruleset dict_laws = (lookup-nil, lookup-insert, lookup-erase)

-- A map variable: nil, or a map that was made.
abbrev pub GoMap {ℓ} : Type ℓ → Type ℓ
GoMap V = Option (Dict V)

module _ {ℓ} {V : Type ℓ} where
  -- The entries that a `range` loop visits, and that a read sees.
  abbrev pub entries : GoMap V → Dict V
  entries none = []
  entries (some d) = d

  abbrev pub get : String → GoMap V → Option V
  get k m = lookup k (entries m)

  -- m[k] = v
  abbrev pub assign : GoMap V → String → V → Run (GoMap V)
  assign none k v = panic
  assign (some d) k v = done (some (insert k v d))

-- A `range` over a map visits every entry once, in an order that the runtime chooses.
pub record RangeOrder : Type 1 where
  pub range : (V : Type 0) → Dict V → Dict V
  pub range-NodupKeys : (V : Type 0) (d : Dict V) → NodupKeys d → NodupKeys (range V d)
  pub lookup-range :
      (V : Type 0) (d : Dict V) → NodupKeys d → (k : String) → lookup k (range V d) ≡ lookup k d

-- The order in which the keys were inserted.
abbrev pub insertion_order : RangeOrder
insertion_order = record {
  range = λ V d. d;
  range-NodupKeys = λ V d u. u;
  lookup-range = λ V d u k. refl;
}
