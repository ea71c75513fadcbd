-- ===== src/Util/Dedup.antt =====
-- RemoveDuplicatedVolumes, RemoveDuplicatedVolumeMounts and RemoveDuplicatedImagePullSecrets
-- (pkg/util/util.go): the three bodies are one loop over the names.
use jaeger_operator.Base.{String, ◌≡◌, Bool, true, false, none, some, List, [], ◌∷◌}
use jaeger_operator.Base.{if◌then◌else◌, arith}
use jaeger_operator.Base.Dict.{Dict, lookup, insert, lookup-insert, NodupKeys, named}
use jaeger_operator.Kube.{Kube, Volume, VolumeMount, LocalObjectReference}

-- existing[name]
abbrev seen : String → Dict Bool → Bool
seen name existing = elim (lookup name existing) [ some b ↦ b | none ↦ false ]

module _ {ℓ} {A : Type ℓ} (name : A → String) where
  -- The loop: `existing` is the map of the names that were met.
  unfoldable pub remove_duplicated_from : Dict Bool → List A → List A
  remove_duplicated_from existing [] = []
  remove_duplicated_from existing (x ∷ xs) = elim (seen (name x) existing) [
    | true ↦ remove_duplicated_from existing xs
    | false ↦ x ∷ remove_duplicated_from (insert (name x) true existing) xs
  ]

  unfoldable pub remove_duplicated : List A → List A
  unfolding remove_duplicated_from
  remove_duplicated xs = remove_duplicated_from [] xs

  lookup-remove_duplicated_from :
      (k : String) (existing : Dict Bool) (xs : List A)
      → lookup k (named name (remove_duplicated_from existing xs))
        ≡ (if seen k existing then none else lookup k (named name xs))
  unfolding remove_duplicated_from named lookup
  lookup-remove_duplicated_from k existing [] = ground arith
  lookup-remove_duplicated_from k existing (x ∷ xs) = ground (
    arith,
    lookup-remove_duplicated_from k existing xs,
    lookup-remove_duplicated_from k (insert (name x) true existing) xs,
    lookup-insert k (name x) true existing,
  )

  remove_duplicated_from-NodupKeys :
      (existing : Dict Bool) (xs : List A)
      → NodupKeys (named name (remove_duplicated_from existing xs))
  unfolding remove_duplicated_from named
  remove_duplicated_from-NodupKeys existing [] = tt
  remove_duplicated_from-NodupKeys existing (x ∷ xs) = ground (
    arith,
    remove_duplicated_from-NodupKeys existing xs,
    remove_duplicated_from-NodupKeys (insert (name x) true existing) xs,
    lookup-remove_duplicated_from (name x) (insert (name x) true existing) xs,
    lookup-insert (name x) (name x) true existing,
  )

  -- The first element of each name is kept, and no name stands twice.
  pub lookup-remove_duplicated :
      (k : String) (xs : List A)
      → lookup k (named name (remove_duplicated xs)) ≡ lookup k (named name xs)
  unfolding remove_duplicated lookup
  lookup-remove_duplicated k xs = lookup-remove_duplicated_from k [] xs

  pub remove_duplicated-NodupKeys : (xs : List A) → NodupKeys (named name (remove_duplicated xs))
  unfolding remove_duplicated
  remove_duplicated-NodupKeys xs = remove_duplicated_from-NodupKeys [] xs

  -- The first element of each name is kept, under any name that the elements are told apart by, and
  -- no name stands twice.
  pub remove_duplicated_keeps_first :
      (xs : List A)
      → ((k : String) → lookup k (named name (remove_duplicated xs)) ≡ lookup k (named name xs))
        × NodupKeys (named name (remove_duplicated xs))
  remove_duplicated_keeps_first xs =
      (λ k. lookup-remove_duplicated k xs, remove_duplicated-NodupKeys xs)

module _ {K : Kube} where
  unfoldable pub remove_duplicated_volumes : List (Volume K) → List (Volume K)
  unfolding remove_duplicated
  remove_duplicated_volumes = remove_duplicated (λ v. v.name)

  unfoldable pub remove_duplicated_volume_mounts : List (VolumeMount K) → List (VolumeMount K)
  unfolding remove_duplicated
  remove_duplicated_volume_mounts = remove_duplicated (λ v. v.name)

unfoldable pub remove_duplicated_image_pull_secrets :
    List LocalObjectReference → List LocalObjectReference
unfolding remove_duplicated
remove_duplicated_image_pull_secrets = remove_duplicated (λ v. v.name)
