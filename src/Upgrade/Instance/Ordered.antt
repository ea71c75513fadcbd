-- ===== src/Upgrade/Instance/Ordered.antt =====
-- The order in which the upgrades run (parseSemVer of pkg/upgrade/main.go and the loop of
-- ManagedInstance in upgrade.go).
use jaeger_operator.Base.{◌≡◌, ◌↔◌, true, false, List, [], ◌∷◌, All, arith}
use jaeger_operator.Base.{Bool-cases, inl, inr}
use jaeger_operator.Upgrade.Instance.{Semver, less_than, in_range}
use jaeger_operator.Upgrade.Instance.{insert_version, sort_versions}
use jaeger_operator.Upgrade.Instance.Runs.{filter_range}

-- What is assumed of the comparison of versions.
pub record IsOrder (v : Semver) : Type 0 where
  pub asym : (a b : v.Version) → less_than v a b ≡ true → less_than v b a ≡ false
  pub trans :
      (a b c : v.Version) → less_than v a b ≡ true → less_than v b c ≡ true → less_than v a c ≡ true

module _ (v : Semver) where
  open v use {Version}

  -- No version comes after a later one.
  abbrev pub Sorted : List Version → Type 0
  Sorted [] = Unit
  Sorted (x ∷ xs) = All (λ y. less_than v y x ≡ false) xs × Sorted xs

  All-insert_version {κ} :
      (P : Version → Type κ) (x : Version) (xs : List Version)
      → P x
      → All P xs
      → All P (insert_version v x xs)
  unfolding insert_version
  All-insert_version P x [] p h = (p, tt)
  All-insert_version P x (y ∷ ys) p (q, h) = ground (arith, All-insert_version P x ys p h)

  All-uninsert {κ} :
      (P : Version → Type κ) (x : Version) (xs : List Version)
      → All P (insert_version v x xs)
      → P x × All P xs
  unfolding insert_version
  All-uninsert P x [] h = h
  All-uninsert P x (y ∷ ys) h = elim (Bool-cases (less_than v x y)) [
    | inl e ↦ rw e at h
    | inr e ↦
        let (q, rest) : P y × All P (insert_version v x ys) = rw e at h in
        let (p, ps) = All-uninsert P x ys rest in (p, (q, ps))
  ]

  module _ (order : IsOrder v) where
    not_before :
        (x y : Version) (ys : List Version)
        → less_than v x y ≡ true
        → All (λ z. less_than v z y ≡ false) ys
        → All (λ z. less_than v z x ≡ false) ys
    not_before x y [] e h = tt
    not_before x y (z ∷ zs) e (p, h) = (ground (arith, order.trans z x y), not_before x y zs e h)

    Sorted-insert_version :
        (x : Version) (xs : List Version) → Sorted xs → Sorted (insert_version v x xs)
    unfolding insert_version
    Sorted-insert_version x [] h = (tt, tt)
    Sorted-insert_version x (y ∷ ys) (first, h) = elim (Bool-cases (less_than v x y)) [
      | inl e ↦ rw e ((order.asym x y e, not_before x y ys e first), (first, h))
      | inr e ↦ rw e (
        All-insert_version (λ z. less_than v z y ≡ false) x ys e first,
        Sorted-insert_version x ys h,
      )
    ]

    sort_versions-Sorted : (xs : List Version) → Sorted (sort_versions v xs)
    unfolding sort_versions
    sort_versions-Sorted [] = tt
    sort_versions-Sorted (x ∷ xs) =
        Sorted-insert_version x (sort_versions v xs) (sort_versions-Sorted xs)

  pub All-filter_range {κ} :
      (P : Version → Type κ) (current latest : Version) (xs : List Version)
      → All (λ x. in_range v current latest x ≡ true → P x) xs
      → All P (filter_range v current latest xs)
  unfolding filter_range
  All-filter_range P current latest [] h = tt
  All-filter_range P current latest (x ∷ xs) (p, h) =
      elim (Bool-cases (in_range v current latest x)) [
        | inl e ↦ rw e (p e, All-filter_range P current latest xs h)
        | inr e ↦ rw e (All-filter_range P current latest xs h)
      ]

  All-unfilter {κ} :
      (P : Version → Type κ) (current latest : Version) (xs : List Version)
      → All P (filter_range v current latest xs)
      → All (λ x. in_range v current latest x ≡ true → P x) xs
  unfolding filter_range
  All-unfilter P current latest [] h = tt
  All-unfilter P current latest (x ∷ xs) h = elim (Bool-cases (in_range v current latest x)) [
    | inl e ↦
        let (p, ps) : P x × All P (filter_range v current latest xs) = rw e at h in
        (λ _. p, All-unfilter P current latest xs ps)
    | inr e ↦ (λ inside. absurd (cc (e, inside)), All-unfilter P current latest xs (rw e at h))
  ]

  All-All {κ μ} :
      {P : Version → Type κ} {Q : Version → Type μ} (xs : List Version)
      → ((x : Version) → P x → Q x)
      → All P xs
      → All Q xs
  All-All [] f h = tt
  All-All (x ∷ xs) f (p, h) = (f x p, All-All xs f h)

  Sorted-filter_range :
      (current latest : Version) (xs : List Version)
      → Sorted xs
      → Sorted (filter_range v current latest xs)
  unfolding filter_range
  Sorted-filter_range current latest [] h = tt
  Sorted-filter_range current latest (x ∷ xs) (first, h) =
      elim (Bool-cases (in_range v current latest x)) [
        | inl e ↦ rw e (
          All-filter_range (λ y. less_than v y x ≡ false) current latest xs
              (All-All xs (λ y p _. p) first),
          Sorted-filter_range current latest xs h,
        )
        | inr e ↦ rw e (Sorted-filter_range current latest xs h)
      ]

  All-sort_versions {κ} :
      (P : Version → Type κ) (xs : List Version) → All P xs ↔ All P (sort_versions v xs)
  unfolding sort_versions
  All-sort_versions P [] = (λ h. h, λ h. h)
  All-sort_versions P (x ∷ xs) =
      let (to, from) = All-sort_versions P xs in
      (
        λ h. All-insert_version P x (sort_versions v xs) h.0 (to h.1),
        λ h. let (p, ps) = All-uninsert P x (sort_versions v xs) h in (p, from ps),
      )

  -- For an asymmetric and transitive comparison: the versions to which an instance is upgraded are
  -- in ascending order, and they are those of the table after the current one, up to the latest.
  pub filter_range-Sorted :
      IsOrder v
      → (current latest : Version) (xs : List Version)
      → Sorted (filter_range v current latest (sort_versions v xs))
        × ((P : Version → Type 0)
            → All P (filter_range v current latest (sort_versions v xs))
              ↔ All (λ x. in_range v current latest x ≡ true → P x) xs)
  filter_range-Sorted order current latest xs = (
    Sorted-filter_range current latest (sort_versions v xs) (sort_versions-Sorted order xs),
    λ P.
        let (to, from) = All-sort_versions (λ x. in_range v current latest x ≡ true → P x) xs in
        (
          λ h. from (All-unfilter P current latest (sort_versions v xs) h),
          λ h. All-filter_range P current latest (sort_versions v xs) (to h),
        ),
  )
