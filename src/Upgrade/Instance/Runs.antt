-- ===== src/Upgrade/Instance/Runs.antt =====
-- What ManagedInstance and applyUpgrades (pkg/upgrade, pkg/controller/jaeger/upgrade.go) promise: the
-- upgrades of the versions in between run in order, and an error leaves the last good instance.
use jaeger_operator.Base.{◌≡◌, refl, subst, ap, Option}
use jaeger_operator.Base.{none, some, List, [], ◌∷◌, ◌++◌, inl, inr, Bool-cases}
use jaeger_operator.Base.{if◌then◌else◌, Run, done, ◌>>=◌, >>=-eq-done}
use jaeger_operator.Base.Dict.{Dict}
use jaeger_operator.Kube.{Kube}
use jaeger_operator.Jaeger.{Jaeger}
use jaeger_operator.Upgrade.Table.{Cluster, Upgrade}
use jaeger_operator.Upgrade.Instance.{Semver}
use jaeger_operator.Upgrade.Instance.{upgrade_failed}
use jaeger_operator.Upgrade.Instance.{in_range, with_version, Result, after_upgrade, call_upgrade}
use jaeger_operator.Upgrade.Instance.{upgrade_all}

-- The versions to which an instance is upgraded.
unfoldable pub filter_range : (v : Semver) → v.Version → v.Version → List v.Version → List v.Version
filter_range v current latest [] = []
filter_range v current latest (x ∷ xs) =
    let rest = filter_range v current latest xs in
    if in_range v current latest x then x ∷ rest else rest

module _ (K : Kube) (c : Cluster) (v : Semver) (table : Dict (Upgrade K c)) where
  open c use {State, Fault}
  open v use {Version, show}

  -- Upgrades that succeed one after another. Each sets the version that it upgrades to.
  pub data Chain : List Version → Jaeger K → State → Jaeger K → State → Type 0 where
    stay : (j : Jaeger K) (s : State) → Chain [] j s j s
    step :
        (x : Version) (xs : List Version) (j j1 j2 : Jaeger K) (s s1 s2 : State)
        → call_upgrade K c v table (show x) j s ≡ done (j1, none, s1)
        → Chain xs (with_version (show x) j1) s1 j2 s2
        → Chain (x ∷ xs) j s j2 s2

  -- What the loop answers: all upgrades succeeded, or those up to one that failed, whose result is
  -- dropped.
  pub data Outcome (xs : List Version) (j : Jaeger K) (s : State) : Result K c v → Type 0 where
    finished : (j' : Jaeger K) (s' : State) → Chain xs j s j' s' → Outcome xs j s (j', none, s')
    stopped :
        (before after : List Version) (x : Version) (j1 j2 : Jaeger K) (s1 s' : State) (e : Fault)
        → xs ≡ before ++ x ∷ after
        → Chain before j s j1 s1
        → call_upgrade K c v table (show x) j1 s1 ≡ done (j2, some e, s')
        → Outcome xs j s (j1, some (upgrade_failed e), s')

  Outcome-step :
      (x : Version) (xs : List Version) (j j1 : Jaeger K) (s s1 : State) (r : Result K c v)
      → call_upgrade K c v table (show x) j s ≡ done (j1, none, s1)
      → Outcome xs (with_version (show x) j1) s1 r
      → Outcome (x ∷ xs) j s r
  Outcome-step x xs j j1 s s1 _ e (finished j' s' chain) =
      finished j' s' (step x xs j j1 j' s s1 s' e chain)
  Outcome-step x xs j j1 s s1 _ e (stopped before after y j2 j3 s2 s' f split chain fails) =
      stopped (x ∷ before) after y j2 j3 s2 s' f (ap (λ l. x ∷ l) split)
        (step x before j j1 j2 s s1 s2 e chain) fails

  pub done-injective : (a b : Result K c v) → done a ≡ done b → a ≡ b
  done-injective a b e = cc

  Outcome-after_upgrade :
      (x : Version) (xs : List Version) (j : Jaeger K) (s : State)
      (next : Jaeger K → State → Run (Result K c v)) (r : Result K c v)
      (a : Jaeger K × Option Fault × State)
      → ((j1 : Jaeger K) (s1 : State) → next j1 s1 ≡ done r → Outcome xs j1 s1 r)
      → call_upgrade K c v table (show x) j s ≡ done a
      → after_upgrade K c v (show x) j next a ≡ done r
      → Outcome (x ∷ xs) j s r
  Outcome-after_upgrade x xs j s next r (j1, none, s1) later ran e =
      Outcome-step x xs j j1 s s1 r ran (later (with_version (show x) j1) s1 e)
  Outcome-after_upgrade x xs j s next r (j1, some f, s1) later ran e =
      subst (Outcome (x ∷ xs) j s) (done-injective _ _ e)
        (stopped [] xs x j j1 s s1 f refl (stay j s) ran)

  pub upgrade_all-Outcome :
      (xs : List Version) (current latest : Version) (j : Jaeger K) (s : State) (r : Result K c v)
      → upgrade_all K c v table xs current latest j s ≡ done r
      → Outcome (filter_range v current latest xs) j s r
  unfolding upgrade_all filter_range
  upgrade_all-Outcome [] current latest j s r e =
      subst (Outcome [] j s) (done-injective _ _ e) (finished j s (stay j s))
  upgrade_all-Outcome (x ∷ xs) current latest j s r e =
      elim (Bool-cases (in_range v current latest x)) [
        | inl inside ↦
            let e' : (call_upgrade K c v table (show x) j s
                  >>= after_upgrade K c v (show x) j (upgrade_all K c v table xs current latest))
                ≡ done r =
              rw inside at e in
            let (a, ran, after) = >>=-eq-done (call_upgrade K c v table (show x) j s) _ e' in
            rw inside (
              Outcome-after_upgrade x (filter_range v current latest xs) j s
                (upgrade_all K c v table xs current latest) r a
                (λ j1 s1. upgrade_all-Outcome xs current latest j1 s1 r) ran after)
        | inr outside ↦ rw outside (upgrade_all-Outcome xs current latest j s r (rw outside at e))
      ]
