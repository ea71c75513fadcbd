-- ===== src/Autodetect/Versions.antt =====
-- Which API versions are chosen (pkg/autodetect/main.go).
use jaeger_operator.Base.{
  String, ◌≡◌, refl, ◌∙◌, Bool, true, false, if◌then◌else◌, ◌==◌, string_dec, [], ◌∷◌,
}
use jaeger_operator.Autodetect.{Config, Answers}
use jaeger_operator.Autodetect.Detect.{serves, last_version, first_version, detect_cronjobs_version}
use jaeger_operator.Autodetect.Detect.{detect_autoscaling_version}

-- What is written of a version that was detected.
written_cronjobs_version :
    (unfound : Bool) (c : Config) (v : String)
    → (if unfound then c else record c { cronjobs_version = v }).cronjobs_version
      ≡ (if unfound then c.cronjobs_version else v)
written_cronjobs_version true c v = refl
written_cronjobs_version false c v = refl

written_autoscaling_version :
    (unfound : Bool) (c : Config) (v : String)
    → (if unfound then c else record c { autoscaling_version = v }).autoscaling_version
      ≡ (if unfound then c.autoscaling_version else v)
written_autoscaling_version true c v = refl
written_autoscaling_version false c v = refl

-- The version with none detected, for two names that are not empty.
preferred :
    (p q : String) (a b : Bool) (old : String)
    → (p == "") ≡ false
    → (q == "") ≡ false
    → (if (if a then p else if b then q else "") == ""
        then old
        else if a
        then p
        else if b
        then q
        else "")
      ≡ (if a then p else if b then q else old)
unfolding string_dec
preferred p q true b old p_there q_there = rw p_there refl
preferred p q false true old p_there q_there = rw q_there refl
preferred p q false false old p_there q_there = refl

-- Of two versions that a cluster serves, the older one is chosen for cron jobs and the newer one for
-- pod autoscalers. A single version that is served is chosen, and with none the flag stays.
pub detect_versions :
    (a : Answers) (c : Config)
    → ((detect_cronjobs_version a c).cronjobs_version ≡ (
        if serves a.server_resources "cronjobs" "batch/v1beta1"
        then "batch/v1beta1"
        else if serves a.server_resources "cronjobs" "batch/v1"
        then "batch/v1"
        else c.cronjobs_version))
      × ((detect_autoscaling_version a c).autoscaling_version ≡ (
          if serves a.server_resources "horizontalpodautoscalers" "autoscaling/v2"
          then "autoscaling/v2"
          else if serves a.server_resources "horizontalpodautoscalers" "autoscaling/v2beta2"
          then "autoscaling/v2beta2"
          else c.autoscaling_version))
unfolding detect_cronjobs_version detect_autoscaling_version last_version first_version string_dec
detect_versions a c = (
  written_cronjobs_version
        (last_version a.server_resources ("batch/v1" ∷ "batch/v1beta1" ∷ []) "" == "") c
        (last_version a.server_resources ("batch/v1" ∷ "batch/v1beta1" ∷ []) "")
      ∙ preferred "batch/v1beta1" "batch/v1" (serves a.server_resources "cronjobs" "batch/v1beta1")
          (serves a.server_resources "cronjobs" "batch/v1") c.cronjobs_version refl refl,
  written_autoscaling_version
        (first_version a.server_resources ("autoscaling/v2" ∷ "autoscaling/v2beta2" ∷ []) == "") c
        (first_version a.server_resources ("autoscaling/v2" ∷ "autoscaling/v2beta2" ∷ []))
      ∙ preferred "autoscaling/v2" "autoscaling/v2beta2"
          (serves a.server_resources "horizontalpodautoscalers" "autoscaling/v2")
          (serves a.server_resources "horizontalpodautoscalers" "autoscaling/v2beta2")
          c.autoscaling_version refl refl,
)
