-- ===== src/Inventory/Loop.antt =====
-- The loop of a plan, for an update that goes through.
use jaeger_operator.Base.{String, ◌≡◌, refl, sym, none, some, List, [], ◌∷◌, ◌++◌}
use jaeger_operator.Base.{subst, Option-cases, inl, inr, arith, Run, done}
use jaeger_operator.Base.Dict.{Dict, lookup, erase, values, NodupKeys, named}
use jaeger_operator.Base.Dict.{lookup-named-append}
use jaeger_operator.Inventory.Each.{Each, lookup-Each, erase-Each}
use jaeger_operator.Inventory.{Progress, visit, visit_all}

module _ {ℓ} {A : Type ℓ} where
  -- Every entry stands under the key of its object.
  abbrev pub Keyed : (A → String) → Dict A → Type ℓ
  Keyed key [] = Unit
  Keyed key ((k, a) ∷ d) = (key a ≡ k) × Keyed key d

  pub named-values : (key : A → String) (d : Dict A) → Keyed key d → named key (values d) ≡ d
  unfolding named
  named-values key [] h = refl
  named-values key ((k, a) ∷ d) (e, h) = rw (e, named-values key d h)

  pub key_of_lookup :
      (key : A → String) (k : String) (d : Dict A) (a : A)
      → Keyed key d
      → lookup k d ≡ some a
      → key a ≡ k
  unfolding lookup
  key_of_lookup key k [] a h e = cc
  key_of_lookup key k ((j, b) ∷ d) a (h, hs) e = ground (arith, key_of_lookup key k d a hs)

  pub erase-Keyed :
      (key : A → String) (k : String) (d : Dict A) → Keyed key d → Keyed key (erase k d)
  unfolding erase
  erase-Keyed key k [] h = tt
  erase-Keyed key k ((j, b) ∷ d) (h, hs) = ground (arith, erase-Keyed key k d hs)

  pub named-append-NodupKeys :
      (key : A → String) (l : List A) (a : A)
      → NodupKeys (named key l)
      → lookup (key a) (named key l) ≡ none
      → NodupKeys (named key (l ++ a ∷ []))
  unfolding named lookup
  named-append-NodupKeys key [] a u fresh = (refl, tt)
  named-append-NodupKeys key (b ∷ l) a (new, u) fresh =
      ground (arith, lookup-named-append key (key b) l (a ∷ []), named-append-NodupKeys key l a u)

module _ {ℓ} {A : Type ℓ} (merge : A → A → A) where
  -- A round as a plain function.
  unfoldable pub next : String → A → Progress A → Progress A
  next k v s = elim (lookup k s.mdelete) [
    | none ↦ s
    | some t ↦ record {
      update = s.update ++ merge t v ∷ [];
      mcreate = erase k s.mcreate;
      mdelete = erase k s.mdelete;
    }
  ]

  pub next-none : (k : String) (v : A) (s : Progress A) → lookup k s.mdelete ≡ none → next k v s ≡ s
  unfolding next
  next-none k v s e = ground arith

  abbrev pub moved : String → A → A → Progress A → Progress A
  moved k v t s = record {
    update = s.update ++ merge t v ∷ [];
    mcreate = erase k s.mcreate;
    mdelete = erase k s.mdelete;
  }

  pub next-some :
      (k : String) (v t : A) (s : Progress A)
      → lookup k s.mdelete ≡ some t
      → next k v s ≡ moved k v t s
  unfolding next
  next-some k v t s e = ground arith

  unfoldable pub next_all : Dict A → Progress A → Progress A
  next_all [] s = s
  next_all ((k, v) ∷ rest) s = next_all rest (next k v s)

  -- An update that goes through for the objects with `P` makes the plan go through.
  module _ {κ} (P : A → Type κ) (upd : A → A → Run A)
      (total : (t v : A) → P t → P v → upd t v ≡ done (merge t v)) where
    visit-next :
        (k : String) (v : A) (s : Progress A)
        → P v
        → Each P s.mdelete
        → visit upd k v s ≡ done (next k v s)
    unfolding visit next
    visit-next k v s p h = elim (Option-cases (lookup k s.mdelete)) [
      | inl e ↦ ground arith
      | inr (t, e) ↦ ground (arith, total t v (lookup-Each P k s.mdelete t h e) p)
    ]

    next-Each :
        (k : String) (v : A) (s : Progress A) → Each P s.mdelete → Each P (next k v s).mdelete
    unfolding next
    next-Each k v s h = elim (Option-cases (lookup k s.mdelete)) [
      | inl e ↦ subst (λ (s' : Progress A). Each P s'.mdelete) (sym (next-none k v s e)) h
      | inr (t, e) ↦
          subst (λ (s' : Progress A). Each P s'.mdelete) (sym (next-some k v t s e))
            (erase-Each P k s.mdelete h)
    ]

    pub visit_all_done :
        (rest : Dict A) (s : Progress A)
        → Each P rest
        → Each P s.mdelete
        → visit_all upd rest s ≡ done (next_all rest s)
    unfolding visit_all next_all
    visit_all_done [] s h d = refl
    visit_all_done ((k, v) ∷ rest) s (p, h) d =
        rw (visit-next k v s p d) (visit_all_done rest (next k v s) h (next-Each k v s d))
