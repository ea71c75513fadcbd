-- ===== src/Inventory/Each.antt =====
-- A property of every object of a map, through the operations of a plan.
use mathlib.Core.Option.{some-injective}
use jaeger_operator.Base.{String, ◌≡◌, subst, inl, inr}
use jaeger_operator.Base.{some, List, [], ◌∷◌, All, Bool-cases}
use jaeger_operator.Base.{◌==◌, arith}
use jaeger_operator.Base.Dict.{Dict, lookup, insert, erase, NodupKeys}
use jaeger_operator.Inventory.{to_map, fill_map}

module _ {ℓ κ} {A : Type ℓ} (P : A → Type κ) where
  abbrev pub Each : Dict A → Type κ
  Each [] = Unit
  Each ((k, a) ∷ d) = P a × Each d

  pub lookup-Each : (k : String) (d : Dict A) (a : A) → Each d → lookup k d ≡ some a → P a
  unfolding lookup
  lookup-Each k [] a h e = cc
  lookup-Each k ((j, b) ∷ d) a (p, h) e = elim (Bool-cases (k == j)) [
    | inl q ↦ subst P (some-injective b a (rw q at e)) p
    | inr n ↦ lookup-Each k d a h (rw n at e)
  ]

  pub erase-Each : (k : String) (d : Dict A) → Each d → Each (erase k d)
  unfolding erase
  erase-Each k [] h = tt
  erase-Each k ((j, b) ∷ d) (p, h) = elim (Bool-cases (k == j)) [
    | inl q ↦ rw q (erase-Each k d h)
    | inr n ↦ rw n (p, erase-Each k d h)
  ]

  insert-Each : (k : String) (a : A) (d : Dict A) → P a → Each d → Each (insert k a d)
  unfolding insert
  insert-Each k a [] p h = (p, tt)
  insert-Each k a ((j, b) ∷ d) p (q, h) = elim (Bool-cases (k == j)) [
    | inl e ↦ rw e (p, h)
    | inr n ↦ rw n (q, insert-Each k a d p h)
  ]

  pub fill_map-Each :
      (key : A → String) (l : List A) (d : Dict A) → All P l → Each d → Each (fill_map key l d)
  unfolding fill_map
  fill_map-Each key [] d h e = e
  fill_map-Each key (a ∷ l) d (p, h) e =
      fill_map-Each key l (insert (key a) a d) h (insert-Each (key a) a d p e)

  pub to_map-Each : (key : A → String) (l : List A) → All P l → Each (to_map key l)
  unfolding to_map
  to_map-Each key l h = fill_map-Each key l [] h tt

  pub Each-of_lookup :
      (d : Dict A) → NodupKeys d → ((k : String) (a : A) → lookup k d ≡ some a → P a) → Each d
  unfolding lookup
  Each-of_lookup [] u h = tt
  Each-of_lookup ((k, a) ∷ d) (fresh, u) h =
      (h k a (ground arith), Each-of_lookup d u (λ j b e. h j b (ground arith)))
