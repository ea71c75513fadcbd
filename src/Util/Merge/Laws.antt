-- ===== src/Util/Merge/Laws.antt =====
-- What Merge (pkg/util/util.go) promises: each setting comes from the most specific part that has it.
use mathlib.Core.List.{append-nil, append_assoc}
use jaeger_operator.Base.{String, ◌≡◌, refl, ◌∙◌, Option, none, some, List, [], ◌∷◌, ◌++◌}
use jaeger_operator.Base.{◌==◌, if◌then◌else◌, arith}
use jaeger_operator.Base.Dict.{Dict, GoMap, entries, get, insert, lookup, or_else, named, NodupKeys}
use jaeger_operator.Base.Dict.{lookup-insert, lookup-named-append}
use jaeger_operator.Kube.{Kube}
use jaeger_operator.Util.Dedup.{lookup-remove_duplicated, remove_duplicated-NodupKeys}
use jaeger_operator.Util.Merge.{JaegerCommonSpec, add_missing, add_resources}
use jaeger_operator.Util.Merge.{no_settings, merge_one, merge_all, merge}

module _ {V : Type 0} where
  pub lookup-add_missing :
      (k : String) (from into : Dict V)
      → lookup k (add_missing from into) ≡ or_else (lookup k into) (lookup k from)
  unfolding add_missing lookup
  lookup-add_missing k [] into = ground arith
  lookup-add_missing k ((j, v) ∷ from) into = ground (
    arith,
    lookup-add_missing k from into,
    lookup-add_missing k from (insert j v into),
    lookup-insert k j v into,
  )

  pub get-add_resources :
      (k : String) (from : Dict V) (into : GoMap V)
      → get k (add_resources from into) ≡ or_else (get k into) (lookup k from)
  unfolding add_resources lookup
  get-add_resources k [] into = ground arith
  get-add_resources k ((j, v) ∷ from) into = ground (
    arith,
    get-add_resources k from into,
    get-add_resources k from (some (insert j v (entries into))),
    lookup-insert k j v (entries into),
  )

-- The first part that has the setting.
module _ {ℓ κ} {S : Type ℓ} {A : Type κ} where
  abbrev pub first_some : (S → Option A) → List S → Option A
  first_some f [] = none
  first_some f (s ∷ specs) = or_else (f s) (first_some f specs)

abbrev pub first_nonempty {ℓ} : {S : Type ℓ} → (S → String) → List S → String
first_nonempty f [] = ""
first_nonempty f (s ∷ specs) = if f s == "" then first_nonempty f specs else f s

abbrev pub all_of {ℓ κ} : {S : Type ℓ} {A : Type κ} → (S → List A) → List S → List A
all_of f [] = []
all_of f (s ∷ specs) = f s ++ all_of f specs

module _ {K : Kube} where
  -- Maps, pointers, texts and lists, each in the order of the parts.
  pub record IsMerge (specs : List (JaegerCommonSpec K)) (r : JaegerCommonSpec K) : Type 0 where
    pub annotations :
        (k : String) → get k r.annotations ≡ first_some (λ s. get k s.annotations) specs
    pub labels : (k : String) → get k r.labels ≡ first_some (λ s. get k s.labels) specs
    pub limits :
        (k : String) → get k r.resources.limits ≡ first_some (λ s. get k s.resources.limits) specs
    pub requests :
        (k : String)
        → get k r.resources.requests ≡ first_some (λ s. get k s.resources.requests) specs
    pub affinity : r.affinity ≡ first_some (λ s. s.affinity) specs
    pub security_context : r.security_context ≡ first_some (λ s. s.security_context) specs
    pub container_security_context :
        r.container_security_context ≡ first_some (λ s. s.container_security_context) specs
    pub liveness_probe : r.liveness_probe ≡ none
    pub service_account : r.service_account ≡ first_nonempty (λ s. s.service_account) specs
    pub image_pull_policy : r.image_pull_policy ≡ first_nonempty (λ s. s.image_pull_policy) specs
    pub tolerations : r.tolerations ≡ all_of (λ s. s.tolerations) specs
    pub volumes :
        (k : String)
        → lookup k (named (λ v. v.name) r.volumes)
          ≡ first_some (λ s. lookup k (named (λ v. v.name) s.volumes)) specs
    pub volume_mounts :
        (k : String)
        → lookup k (named (λ v. v.name) r.volume_mounts)
          ≡ first_some (λ s. lookup k (named (λ v. v.name) s.volume_mounts)) specs
    pub image_pull_secrets :
        (k : String)
        → lookup k (named (λ v. v.name) r.image_pull_secrets)
          ≡ first_some (λ s. lookup k (named (λ v. v.name) s.image_pull_secrets)) specs
    pub volumes-NodupKeys : NodupKeys (named (λ v. v.name) r.volumes)
    pub volume_mounts-NodupKeys : NodupKeys (named (λ v. v.name) r.volume_mounts)
    pub image_pull_secrets-NodupKeys : NodupKeys (named (λ v. v.name) r.image_pull_secrets)

  -- A setting that one round takes over only where it is missing is, after the loop, that of the
  -- first part that has it.
  merge_all-first_some {κ} :
      {A : Type κ} (f : JaegerCommonSpec K → Option A)
      → ((acc s : JaegerCommonSpec K) → f (merge_one acc s) ≡ or_else (f acc) (f s))
      → (acc : JaegerCommonSpec K) (specs : List (JaegerCommonSpec K))
      → f (merge_all acc specs) ≡ or_else (f acc) (first_some f specs)
  unfolding merge_all
  merge_all-first_some f step acc [] = ground arith
  merge_all-first_some f step acc (s ∷ specs) =
      ground (arith, merge_all-first_some f step (merge_one acc s) specs, step acc s)

  merge_all-first_nonempty :
      (f : JaegerCommonSpec K → String)
      → ((acc s : JaegerCommonSpec K) → f (merge_one acc s) ≡ (if f acc == "" then f s else f acc))
      → (acc : JaegerCommonSpec K) (specs : List (JaegerCommonSpec K))
      → f (merge_all acc specs) ≡ (if f acc == "" then first_nonempty f specs else f acc)
  unfolding merge_all
  merge_all-first_nonempty f step acc [] = ground arith
  merge_all-first_nonempty f step acc (s ∷ specs) =
      ground (arith, merge_all-first_nonempty f step (merge_one acc s) specs, step acc s)

  merge_all-all_of {κ} :
      {A : Type κ} (f : JaegerCommonSpec K → List A)
      → ((acc s : JaegerCommonSpec K) → f (merge_one acc s) ≡ f acc ++ f s)
      → (acc : JaegerCommonSpec K) (specs : List (JaegerCommonSpec K))
      → f (merge_all acc specs) ≡ f acc ++ all_of f specs
  unfolding merge_all
  merge_all-all_of f step acc [] = rw append-nil
  merge_all-all_of f step acc (s ∷ specs) =
      simp (merge_all-all_of f step (merge_one acc s) specs, step acc s, append_assoc)

  merge_all-no_probe :
      (acc : JaegerCommonSpec K) (specs : List (JaegerCommonSpec K))
      → acc.liveness_probe ≡ none
      → (merge_all acc specs).liveness_probe ≡ none
  unfolding merge_all
  merge_all-no_probe acc [] e = e
  merge_all-no_probe acc (s ∷ specs) e = merge_all-no_probe (merge_one acc s) specs refl

  -- Merge takes every label, annotation and resource, the affinity, both security contexts, the service
  -- account and the pull policy from the first part that has it, joins the tolerations of all parts in
  -- their order, and of volumes, mounts and pull secrets with one name keeps the first only. The
  -- liveness probe of every part is dropped.
  pub merge-IsMerge : (specs : List (JaegerCommonSpec K)) → IsMerge specs (merge specs)
  unfolding merge lookup named
  merge-IsMerge specs = record {
    annotations = λ k.
        merge_all-first_some (λ s. get k s.annotations)
          (λ acc s. lookup-add_missing k (entries s.annotations) (entries acc.annotations))
          no_settings specs;
    labels = λ k.
        merge_all-first_some (λ s. get k s.labels)
          (λ acc s. lookup-add_missing k (entries s.labels) (entries acc.labels)) no_settings specs;
    limits = λ k.
        merge_all-first_some (λ s. get k s.resources.limits)
          (λ acc s. get-add_resources k (entries s.resources.limits) acc.resources.limits)
          no_settings specs;
    requests = λ k.
        merge_all-first_some (λ s. get k s.resources.requests)
          (λ acc s. get-add_resources k (entries s.resources.requests) acc.resources.requests)
          no_settings specs;
    affinity = merge_all-first_some (λ s. s.affinity) (λ acc s. ground arith) no_settings specs;
    security_context =
        merge_all-first_some (λ s. s.security_context) (λ acc s. ground arith) no_settings specs;
    container_security_context =
        merge_all-first_some (λ s. s.container_security_context) (λ acc s. ground arith) no_settings
          specs;
    liveness_probe = merge_all-no_probe no_settings specs refl;
    service_account =
        merge_all-first_nonempty (λ s. s.service_account) (λ acc s. refl) no_settings specs
        ∙ ground arith;
    image_pull_policy =
        merge_all-first_nonempty (λ s. s.image_pull_policy) (λ acc s. refl) no_settings specs
        ∙ ground arith;
    tolerations = merge_all-all_of (λ s. s.tolerations) (λ acc s. refl) no_settings specs;
    volumes = λ k.
        lookup-remove_duplicated (λ v. v.name) k (merge_all no_settings specs).volumes
        ∙ merge_all-first_some (λ s. lookup k (named (λ v. v.name) s.volumes))
            (λ acc s. lookup-named-append (λ v. v.name) k acc.volumes s.volumes) no_settings specs;
    volume_mounts = λ k.
        lookup-remove_duplicated (λ v. v.name) k (merge_all no_settings specs).volume_mounts
        ∙ merge_all-first_some (λ s. lookup k (named (λ v. v.name) s.volume_mounts))
            (λ acc s. lookup-named-append (λ v. v.name) k acc.volume_mounts s.volume_mounts)
            no_settings specs;
    image_pull_secrets = λ k.
        lookup-remove_duplicated (λ v. v.name) k (merge_all no_settings specs).image_pull_secrets
        ∙ merge_all-first_some (λ s. lookup k (named (λ v. v.name) s.image_pull_secrets))
            (λ acc s.
              lookup-named-append (λ v. v.name) k acc.image_pull_secrets s.image_pull_secrets)
            no_settings specs;
    volumes-NodupKeys =
        remove_duplicated-NodupKeys (λ v. v.name) (merge_all no_settings specs).volumes;
    volume_mounts-NodupKeys =
        remove_duplicated-NodupKeys (λ v. v.name) (merge_all no_settings specs).volume_mounts;
    image_pull_secrets-NodupKeys =
        remove_duplicated-NodupKeys (λ v. v.name) (merge_all no_settings specs).image_pull_secrets;
  }
