-- ===== src/Inventory.antt =====
-- The plan that every file of pkg/inventory makes: from the existing and the desired objects of one
-- kind, the objects to create, to update and to delete. The files differ in the object type, in its
-- key and in what an update copies; they are the modules below this one.
pub mod Loop
pub mod Contract
pub mod Deployment
pub mod Service
pub mod Versioned
pub mod Each
pub mod Secret
pub mod ConfigMap
pub mod ClusterRoleBinding
pub mod Account
pub mod ConsoleLink
pub mod Ingress
pub mod Route
pub mod KafkaUser
pub mod Kafka
pub mod Elasticsearch
pub mod DaemonSet
use jaeger_operator.Base.{String, Option, none, some, List, [], ◌∷◌, ◌++◌, map, Run, done, ◌>>=◌}
use jaeger_operator.Base.Dict.{Dict, RangeOrder, lookup, insert, erase, values}

module _ {ℓ} {A : Type ℓ} where
  -- for _, d := range deps { m[key(d)] = d }
  unfoldable pub fill_map : (A → String) → List A → Dict A → Dict A
  fill_map key [] m = m
  fill_map key (d ∷ deps) m = fill_map key deps (insert (key d) d m)

  -- accountMap, configsMap, ...
  unfoldable pub to_map : (A → String) → List A → Dict A
  unfolding fill_map
  to_map key deps = fill_map key deps []

-- accountList, configsList, ...
abbrev pub to_list : {A : Type 0} → RangeOrder → Dict A → List A
to_list {A} o m = values (o.range A m)

-- Account, ConfigMap, ...: the three lists
pub record Inventory {ℓ} (A : Type ℓ) : Type ℓ where
  pub create : List A
  pub update : List A
  pub delete : List A

-- The local variables of the loop.
pub record Progress {ℓ} (A : Type ℓ) : Type ℓ where
  pub update : List A
  pub mcreate : Dict A
  pub mdelete : Dict A

module _ {ℓ} {A : Type ℓ} (upd : A → A → Run A) where
  -- One round: `k` and `v` are an entry of mcreate. `upd t v` is the updated copy `tp`.
  unfoldable pub visit : String → A → Progress A → Run (Progress A)
  visit k v s = elim (lookup k s.mdelete) [
    | none ↦ done s
    | some t ↦ upd t v >>= λ tp. done (record {
      update = s.update ++ tp ∷ [];
      mcreate = erase k s.mcreate;
      mdelete = erase k s.mdelete;
    })
  ]

  -- The loop over the entries of mcreate. It deletes no entry but the one that it visits.
  unfoldable pub visit_all : Dict A → Progress A → Run (Progress A)
  unfolding visit
  visit_all [] s = done s
  visit_all ((k, v) ∷ rest) s = visit k v s >>= λ s'. visit_all rest s'

-- The body of ForAccounts and its siblings, from the two maps on.
unfoldable pub reconcile :
    {A : Type 0} → RangeOrder → (A → A → Run A) → Dict A → Dict A → Run (Inventory A)
unfolding visit_all
reconcile {A} o upd mcreate mdelete =
    visit_all upd (o.range A mcreate) (record { update = []; mcreate = mcreate; mdelete = mdelete })
    >>= λ s.
        done
          (record { create = to_list o s.mcreate; update = s.update; delete = to_list o s.mdelete })
