-- ===== src/Inventory/Contract.antt =====
-- What a plan promises, whatever the kind of object: every name falls into exactly one of the
-- three lists.
use jaeger_operator.Base.{String, ◌≡◌, refl, ◌∙◌, sym, subst, Option, none, some, List, [], ◌∷◌}
use jaeger_operator.Base.{
  All, Option-cases, inl, inr, ◌&&◌, is_some, if◌then◌else◌, arith, Run, done,
}
use jaeger_operator.Base.Dict.{Dict, RangeOrder, lookup, insert, values, or_else, NodupKeys, named}
use jaeger_operator.Base.Dict.{lookup-nil, insert-NodupKeys}
use jaeger_operator.Base.Dict.{lookup-erase, erase-NodupKeys, lookup-named-append}
use jaeger_operator.Inventory.{Inventory, Progress, reconcile, to_map, fill_map}
use jaeger_operator.Inventory.Each.{lookup-Each, to_map-Each, Each-of_lookup}
use jaeger_operator.Inventory.Loop.{Keyed, named-values, key_of_lookup, erase-Keyed}
use jaeger_operator.Inventory.Loop.{named-append-NodupKeys}
use jaeger_operator.Inventory.Loop.{next, next_all, moved, next-none, next-some, visit_all_done}

module _ {ℓ} {A : Type ℓ} where
  -- What becomes of a name that the first map has only if the second has not.
  abbrev pub only : Option A → Option A → Option A
  only a none = a
  only a (some b) = none

  abbrev pub both : (A → A → A) → Option A → Option A → Option A
  both merge (some v) (some t) = some (merge t v)
  both merge _ _ = none

-- The plan for the maps of desired and of existing objects, name by name. No list names an object
-- twice.
pub record IsPlan {ℓ} {A : Type ℓ} (key : A → String) (merge : A → A → A)
    (desired existing : Dict A) (inv : Inventory A) : Type ℓ where
  pub create :
      (k : String) → lookup k (named key inv.create) ≡ only (lookup k desired) (lookup k existing)
  pub update :
      (k : String)
      → lookup k (named key inv.update) ≡ both merge (lookup k desired) (lookup k existing)
  pub delete :
      (k : String) → lookup k (named key inv.delete) ≡ only (lookup k existing) (lookup k desired)
  pub create-NodupKeys : NodupKeys (named key inv.create)
  pub update-NodupKeys : NodupKeys (named key inv.update)
  pub delete-NodupKeys : NodupKeys (named key inv.delete)

module _ {ℓ} {A : Type ℓ} (key : A → String) where
  fill_map-Keyed : (l : List A) (d : Dict A) → Keyed key d → Keyed key (fill_map key l d)
  unfolding fill_map insert
  fill_map-Keyed [] d h = h
  fill_map-Keyed (a ∷ l) d h =
      fill_map-Keyed l (insert (key a) a d) (insert-Keyed (key a) a d refl h)
    where
      insert-Keyed :
          (k : String) (a : A) (d : Dict A) → key a ≡ k → Keyed key d → Keyed key (insert k a d)
      insert-Keyed k a [] e h = (e, tt)
      insert-Keyed k a ((j, b) ∷ d) e (h, hs) = ground (arith, insert-Keyed k a d e hs)

  fill_map-NodupKeys : (l : List A) (d : Dict A) → NodupKeys d → NodupKeys (fill_map key l d)
  unfolding fill_map
  fill_map-NodupKeys [] d u = u
  fill_map-NodupKeys (a ∷ l) d u =
      fill_map-NodupKeys l (insert (key a) a d) (insert-NodupKeys (key a) a d u)

  pub to_map-Keyed : (l : List A) → Keyed key (to_map key l)
  unfolding to_map
  to_map-Keyed l = fill_map-Keyed l [] tt

  pub to_map-NodupKeys : (l : List A) → NodupKeys (to_map key l)
  unfolding to_map
  to_map-NodupKeys l = fill_map-NodupKeys l [] tt

  pub Keyed-of_lookup :
      (d : Dict A)
      → NodupKeys d
      → ((k : String) (a : A) → lookup k d ≡ some a → key a ≡ k)
      → Keyed key d
  unfolding lookup
  Keyed-of_lookup [] u h = tt
  Keyed-of_lookup ((k, a) ∷ d) (fresh, u) h =
      (ground (arith, h k a), Keyed-of_lookup d u (λ j b e. ground (arith, h j b)))

module _ {ℓ} {A : Type ℓ} (key : A → String) (merge : A → A → A)
    (keeps : (t v : A) → key (merge t v) ≡ key t) where
  -- What holds of the variables at every round: the maps hold a name once and under its key, and
  -- what was updated is no longer up for deletion.
  record IsProgress (s : Progress A) : Type ℓ where
    create_once : NodupKeys s.mcreate
    delete_once : NodupKeys s.mdelete
    keyed : Keyed key s.mdelete
    update_once : NodupKeys (named key s.update)
    settled :
        (k : String) (b : A) → lookup k s.mdelete ≡ some b → lookup k (named key s.update) ≡ none

  key-merge :
      (k : String) (v t : A) (s : Progress A)
      → IsProgress s
      → lookup k s.mdelete ≡ some t
      → key (merge t v) ≡ k
  key-merge k v t s h e = keeps t v ∙ key_of_lookup key k s.mdelete t h.keyed e

  moved-IsProgress :
      (k : String) (v t : A) (s : Progress A)
      → IsProgress s
      → lookup k s.mdelete ≡ some t
      → IsProgress (moved merge k v t s)
  unfolding named lookup
  moved-IsProgress k v t s h e =
      let same = key-merge k v t s h e in
      record {
        create_once = erase-NodupKeys k s.mcreate h.create_once;
        delete_once = erase-NodupKeys k s.mdelete h.delete_once;
        keyed = erase-Keyed key k s.mdelete h.keyed;
        update_once =
            named-append-NodupKeys key s.update (merge t v) h.update_once
              (rw same (h.settled k t e));
        settled = λ j b. ground (
          arith,
          lookup-erase j k s.mdelete,
          lookup-named-append key j s.update (merge t v ∷ []),
          same,
          h.settled j b,
        );
      }

  next-IsProgress :
      (k : String) (v : A) (s : Progress A) → IsProgress s → IsProgress (next merge k v s)
  next-IsProgress k v s h = elim (Option-cases (lookup k s.mdelete)) [
    | inl e ↦ rw (next-none merge k v s e) h
    | inr (t, e) ↦ rw (next-some merge k v t s e) (moved-IsProgress k v t s h e)
  ]

  -- What one name becomes in the rounds that are left.
  record Settles (rest : Dict A) (s s' : Progress A) (k : String) : Type ℓ where
    create : lookup k s'.mcreate ≡ (
        if is_some (lookup k rest) && is_some (lookup k s.mdelete)
        then none
        else lookup k s.mcreate)
    update :
        lookup k (named key s'.update)
        ≡ or_else (lookup k (named key s.update)) (both merge (lookup k rest) (lookup k s.mdelete))
    delete : lookup k s'.mdelete ≡ only (lookup k s.mdelete) (lookup k rest)

  next_all-Settles :
      (rest : Dict A) (s : Progress A) (k : String)
      → NodupKeys rest
      → IsProgress s
      → Settles rest s (next_all merge rest s) k
  unfolding next_all named lookup
  next_all-Settles [] s k u h = record { create = refl; update = ground arith; delete = refl }
  next_all-Settles ((j, v) ∷ rest) s k (fresh, u) h = elim (Option-cases (lookup j s.mdelete)) [
    | inl e ↦ rw (next-none merge j v s e) (
        let ih = next_all-Settles rest s k u h in
        record {
          create = ground (arith, ih.create);
          update = ground (arith, ih.update);
          delete = ground (arith, ih.delete);
        })
    | inr (t, e) ↦ rw (next-some merge j v t s e) (
        let ih = next_all-Settles rest (moved merge j v t s) k u (moved-IsProgress j v t s h e) in
        let same = key-merge j v t s h e in
        record {
          create =
              ground (arith, ih.create, lookup-erase k j s.mcreate, lookup-erase k j s.mdelete);
          update = ground (
            arith,
            ih.update,
            same,
            lookup-erase k j s.mdelete,
            h.settled j t,
            lookup-named-append key k s.update (merge t v ∷ []),
          );
          delete = ground (arith, ih.delete, lookup-erase k j s.mdelete);
        })
  ]

  next_all-IsProgress :
      (rest : Dict A) (s : Progress A) → IsProgress s → IsProgress (next_all merge rest s)
  unfolding next_all
  next_all-IsProgress [] s h = h
  next_all-IsProgress ((j, v) ∷ rest) s h =
      next_all-IsProgress rest (next merge j v s) (next-IsProgress j v s h)

  next-Keyed :
      (k : String) (v : A) (s : Progress A)
      → Keyed key s.mcreate
      → Keyed key (next merge k v s).mcreate
  next-Keyed k v s h = elim (Option-cases (lookup k s.mdelete)) [
    | inl e ↦ subst (λ (s' : Progress A). Keyed key s'.mcreate) (sym (next-none merge k v s e)) h
    | inr (t, e) ↦
        subst (λ (s' : Progress A). Keyed key s'.mcreate) (sym (next-some merge k v t s e))
          (erase-Keyed key k s.mcreate h)
  ]

  next_all-Keyed :
      (rest : Dict A) (s : Progress A)
      → Keyed key s.mcreate
      → Keyed key (next_all merge rest s).mcreate
  unfolding next_all
  next_all-Keyed [] s h = h
  next_all-Keyed ((j, v) ∷ rest) s h = next_all-Keyed rest (next merge j v s) (next-Keyed j v s h)

All-Unit {ℓ} : {A : Type ℓ} (l : List A) → All (λ _. Unit {0}) l
All-Unit [] = tt
All-Unit (a ∷ l) = (tt, All-Unit l)

module _ {A : Type 0} (key : A → String) (merge : A → A → A)
    (keeps : (t v : A) → key (merge t v) ≡ key t) (o : RangeOrder) where
  -- A `range` over a map whose entries stand under their keys.
  range-Keyed : (d : Dict A) → NodupKeys d → Keyed key d → Keyed key (o.range A d)
  range-Keyed d u h =
      Keyed-of_lookup key (o.range A d) (o.range-NodupKeys A d u)
        (λ k a e. key_of_lookup key k d a h (sym (o.lookup-range A d u k) ∙ e))

  range-named :
      (d : Dict A) → NodupKeys d → Keyed key d → named key (values (o.range A d)) ≡ o.range A d
  range-named d u h = named-values key (o.range A d) (range-Keyed d u h)

  module _ (desired existing : Dict A) (du : NodupKeys desired) (eu : NodupKeys existing)
      (dk : Keyed key desired) (ek : Keyed key existing) where
    abbrev start : Progress A
    start = record { update = []; mcreate = desired; mdelete = existing }

    abbrev last : Progress A
    last = next_all merge (o.range A desired) start

    abbrev plan : Inventory A
    plan = record {
      create = values (o.range A last.mcreate);
      update = last.update;
      delete = values (o.range A last.mdelete);
    }

    start-IsProgress : IsProgress key merge keeps start
    unfolding named
    start-IsProgress = record {
      create_once = du;
      delete_once = eu;
      keyed = ek;
      update_once = tt;
      settled = λ k b e. lookup-nil k;
    }

    last-IsProgress : IsProgress key merge keeps last
    last-IsProgress = next_all-IsProgress key merge keeps (o.range A desired) start start-IsProgress

    settled_last : (k : String) → Settles key merge keeps (o.range A desired) start last k
    settled_last k =
        next_all-Settles key merge keeps (o.range A desired) start k
          (o.range-NodupKeys A desired du) start-IsProgress

    created : named key plan.create ≡ o.range A last.mcreate
    created =
        range-named last.mcreate last-IsProgress.create_once
          (next_all-Keyed key merge keeps (o.range A desired) start dk)

    deleted : named key plan.delete ≡ o.range A last.mdelete
    deleted = range-named last.mdelete last-IsProgress.delete_once last-IsProgress.keyed

    plan-IsPlan : IsPlan key merge desired existing plan
    unfolding named lookup
    plan-IsPlan = record {
      create = λ k. rw created (
          ground (
            arith,
            o.lookup-range A last.mcreate last-IsProgress.create_once k,
            (settled_last k).create,
            o.lookup-range A desired du k,
          ));
      update = λ k. (settled_last k).update ∙ rw (o.lookup-range A desired du k);
      delete = λ k. rw deleted (
          ground (
            arith,
            o.lookup-range A last.mdelete last-IsProgress.delete_once k,
            (settled_last k).delete,
            o.lookup-range A desired du k,
          ));
      create-NodupKeys = rw created (o.range-NodupKeys A last.mcreate last-IsProgress.create_once);
      update-NodupKeys = last-IsProgress.update_once;
      delete-NodupKeys = rw deleted (o.range-NodupKeys A last.mdelete last-IsProgress.delete_once);
    }

  -- A plan is made, and it keeps its promise, when the update of objects with `P` goes through and
  -- keeps the key, and all objects have `P`.
  pub reconcile-IsPlan_where {κ} :
      (P : A → Type κ) (upd : A → A → Run A)
      → ((t v : A) → P t → P v → upd t v ≡ done (merge t v))
      → (desired existing : List A) → All P desired
      → All P existing
      → (inv : Inventory A) × (reconcile o upd (to_map key desired) (to_map key existing)
          ≡ done inv)
        × IsPlan key merge (to_map key desired) (to_map key existing) inv
  unfolding reconcile
  reconcile-IsPlan_where P upd total desired existing pd pe =
      let d = to_map key desired in
      let e = to_map key existing in
      let du = to_map-NodupKeys key desired in
      (
        plan d e du (to_map-NodupKeys key existing) (to_map-Keyed key desired)
            (to_map-Keyed key existing),
        rw (
            visit_all_done merge P upd total (o.range A d)
              (start d e du (to_map-NodupKeys key existing) (to_map-Keyed key desired)
                (to_map-Keyed key existing))
              (Each-of_lookup P (o.range A d) (o.range-NodupKeys A d du) (λ k a q.
                lookup-Each P k d a (to_map-Each P key desired pd)
                  (sym (o.lookup-range A d du k) ∙ q)))
              (to_map-Each P key existing pe)),
        plan-IsPlan d e du (to_map-NodupKeys key existing) (to_map-Keyed key desired)
            (to_map-Keyed key existing),
      )

  -- The same for an update that always goes through.
  pub reconcile-IsPlan :
      (upd : A → A → Run A)
      → ((t v : A) → upd t v ≡ done (merge t v))
      → (desired existing : List A)
      → (inv : Inventory A) × (reconcile o upd (to_map key desired) (to_map key existing)
          ≡ done inv)
        × IsPlan key merge (to_map key desired) (to_map key existing) inv
  reconcile-IsPlan upd total desired existing =
      reconcile-IsPlan_where (λ _. Unit {0}) upd (λ t v _ _. total t v) desired existing
        (All-Unit desired) (All-Unit existing)
