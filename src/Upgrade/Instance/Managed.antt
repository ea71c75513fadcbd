-- ===== src/Upgrade/Instance/Managed.antt =====
-- What ManagedInstance and applyUpgrades answer (pkg/upgrade, pkg/controller/jaeger/upgrade.go).
use jaeger_operator.Base.{String, ◌≡◌, refl, sym, subst, ◌∙◌, true, false, ◌||◌, none, some}
use jaeger_operator.Base.{List, [], ◌∷◌, ◌++◌, inl, inr, Bool-cases, Option-cases}
use jaeger_operator.Base.{arith, ◌==◌, done, ◌>>=◌, >>=-eq-done}
use jaeger_operator.Base.Dict.{Dict}
use jaeger_operator.Kube.{Kube}
use jaeger_operator.Jaeger.{Jaeger}
use jaeger_operator.Upgrade.Table.{Cluster, Upgrade, upgrades}
use jaeger_operator.Upgrade.Instance.{Semver, bad_version, upgrade_failed, less_than}
use jaeger_operator.Upgrade.Instance.{greater_than, must_parse, with_version, Result}
use jaeger_operator.Upgrade.Instance.{call_upgrade, upgrade_all, set_latest}
use jaeger_operator.Upgrade.Instance.{
  upgrade_between, managed_instance, keep_or_set, apply_upgrades,
}
use jaeger_operator.Upgrade.Instance.Runs.{filter_range, Chain, Outcome, finished, stopped}
use jaeger_operator.Upgrade.Instance.Runs.{upgrade_all-Outcome, done-injective}

module _ (K : Kube) (c : Cluster) (v : Semver) (table : Dict (Upgrade K c))
    (semantic_versions : List v.Version) (start_updates : v.Version) where
  open c use {State, Fault}
  open v use {Version, new_version, show}

  -- The possible answers: the version of the instance does not parse; it is too old or too new, and
  -- nothing is done; all upgrades in between succeeded; one failed after others succeeded.
  pub data Answer (j : Jaeger K) (latest_version : String) (s : State) : Result K c v → Type 0 where
    unparsed :
        new_version j.status.version ≡ none → Answer j latest_version s (j, some bad_version, s)
    skipped :
        (current latest : Version)
        → new_version j.status.version ≡ some current
        → new_version latest_version ≡ some latest
        → (less_than v current start_updates || greater_than v current latest) ≡ true
        → Answer j latest_version s (j, none, s)
    upgraded :
        (current latest : Version) (j' : Jaeger K) (s' : State)
        → new_version j.status.version ≡ some current
        → new_version latest_version ≡ some latest
        → (less_than v current start_updates || greater_than v current latest) ≡ false
        → Chain K c v table (filter_range v current latest semantic_versions) j s j' s'
        → Answer j latest_version s (with_version (show latest) j', none, s')
    failed :
        (current latest x : Version) (before after : List Version) (j1 j2 : Jaeger K)
        (s1 s' : State) (e : Fault)
        → new_version j.status.version ≡ some current
        → new_version latest_version ≡ some latest
        → filter_range v current latest semantic_versions ≡ before ++ x ∷ after
        → Chain K c v table before j s j1 s1
        → call_upgrade K c v table (show x) j1 s1 ≡ done (j2, some e, s')
        → Answer j latest_version s (j1, some (upgrade_failed e), s')

  module _ (j : Jaeger K) (latest_version : String) (s : State) (current latest : Version)
      (ec : new_version j.status.version ≡ some current)
      (el : new_version latest_version ≡ some latest) where
    Answer-set_latest :
        (r0 r : Result K c v)
        → (less_than v current start_updates || greater_than v current latest) ≡ false
        → Outcome K c v table (filter_range v current latest semantic_versions) j s r0
        → set_latest K c v latest r0 ≡ done r
        → Answer j latest_version s r
    Answer-set_latest _ r fits (finished j' s' chain) e =
        subst (Answer j latest_version s) (done-injective K c v table _ _ e)
          (upgraded current latest j' s' ec el fits chain)
    Answer-set_latest _ r fits (stopped before after x j1 j2 s1 s' f split chain fails) e =
        subst (Answer j latest_version s) (done-injective K c v table _ _ e)
          (failed current latest x before after j1 j2 s1 s' f ec el split chain fails)

    upgrade_between-Answer :
        (r : Result K c v)
        → upgrade_between K c v table semantic_versions start_updates current latest j s ≡ done r
        → Answer j latest_version s r
    unfolding upgrade_between
    upgrade_between-Answer r e =
        elim (Bool-cases (less_than v current start_updates || greater_than v current latest)) [
          | inl skips ↦
              subst (Answer j latest_version s) (done-injective K c v table _ _ (rw skips at e))
                (skipped current latest ec el skips)
          | inr fits ↦
              let e' : (upgrade_all K c v table semantic_versions current latest j s
                    >>= set_latest K c v latest)
                  ≡ done r =
                rw fits at e in
              let (r0, ran, after) =
                >>=-eq-done (upgrade_all K c v table semantic_versions current latest j s) _ e' in
              Answer-set_latest r0 r fits
                (upgrade_all-Outcome K c v table semantic_versions current latest j s r0 ran) after
        ]

  must_parse-done : (s : String) (x : Version) → must_parse v s ≡ done x → new_version s ≡ some x
  must_parse-done s x e = elim (Option-cases (new_version s)) [
    | inl absent ↦ ground arith
    | inr (y, present) ↦ ground arith
  ]

  must_parse_parsed : (s : String) (x : Version) → new_version s ≡ some x → must_parse v s ≡ done x
  must_parse_parsed s x e = ground arith

  managed_instance_unparsed :
      (j : Jaeger K) (latest_version : String) (s : State)
      → new_version j.status.version ≡ none
      → managed_instance K c v table semantic_versions start_updates j latest_version s
        ≡ done (j, some bad_version, s)
  unfolding managed_instance
  managed_instance_unparsed j latest_version s e = rw (e, managed_instance) refl

  managed_instance_parsed :
      (j : Jaeger K) (latest_version : String) (s : State) (current : Version)
      → new_version j.status.version ≡ some current
      → managed_instance K c v table semantic_versions start_updates j latest_version s ≡ (
          must_parse v latest_version >>= λ latest.
          upgrade_between K c v table semantic_versions start_updates current latest j s)
  unfolding managed_instance
  managed_instance_parsed j latest_version s current e = rw (e, managed_instance) refl

  -- Whatever ManagedInstance returns is one of the four answers: an instance whose version does not
  -- parse, is below the start or above the latest comes back unchanged; otherwise the upgrades in
  -- between have run in their order, each setting its version, and the instance has the latest
  -- version, or it is that of the last upgrade before the one that failed.
  pub managed_instance-Answer :
      (j : Jaeger K) (latest_version : String) (s : State) (r : Result K c v)
      → managed_instance K c v table semantic_versions start_updates j latest_version s ≡ done r
      → Answer j latest_version s r
  managed_instance-Answer j latest_version s r e =
      elim (Option-cases (new_version j.status.version)) [
        | inl absent ↦
            subst (Answer j latest_version s)
              (done-injective K c v table _ _
                (sym (managed_instance_unparsed j latest_version s absent) ∙ e))
              (unparsed absent)
        | inr (current, present) ↦
            let (latest, parsed, between) =
              >>=-eq-done (must_parse v latest_version) _
                (sym (managed_instance_parsed j latest_version s current present) ∙ e) in
            upgrade_between-Answer j latest_version s current latest present
              (must_parse-done latest_version latest parsed) r between
      ]

module _ (K : Kube) (c : Cluster) (v : Semver) where
  -- The instance has the operator's version, or there is an error and the instance is as it was.
  abbrev pub Stamped : Jaeger K → String → Result K c v → Type 0
  Stamped j version (j', none, s) = j'.status.version ≡ version
  Stamped j version (j', some e, s) = j' ≡ j

  keep_or_set-Stamped :
      (j : Jaeger K) (version : String) (r0 r : Result K c v)
      → keep_or_set K c v j version r0 ≡ done r
      → Stamped j version r
  keep_or_set-Stamped j version (j', none, s) r e =
      subst (Stamped j version) (done-injective K c v [] _ _ e) refl
  keep_or_set-Stamped j version (j', some f, s) r e =
      subst (Stamped j version) (done-injective K c v [] _ _ e) refl

  -- Whatever applyUpgrades returns, either the instance has the operator's version, or there is an
  -- error and the instance is as it was before, with no upgrade kept.
  pub apply_upgrades-Stamped :
      (semantic_versions : List v.Version) (start_updates : v.Version) (version : String)
      (j : Jaeger K) (s : c.State) (r : Result K c v)
      → apply_upgrades K c v semantic_versions start_updates version j s ≡ done r
      → Stamped j version r
  unfolding apply_upgrades
  apply_upgrades-Stamped semantic_versions start_updates version j s r e =
      elim (Bool-cases (j.status.version == "" || j.status.version == version)) [
        | inl same ↦ subst (Stamped j version) (done-injective K c v [] _ _ (rw same at e)) refl
        | inr differs ↦
            let e' : (managed_instance K c v (upgrades K c) semantic_versions start_updates j
                    version s
                  >>= keep_or_set K c v j version)
                ≡ done r =
              rw differs at e in
            let (r0, ran, after) =
              >>=-eq-done
                (managed_instance K c v (upgrades K c) semantic_versions start_updates j version s)
                _ e' in
            keep_or_set-Stamped j version r0 r after
      ]
