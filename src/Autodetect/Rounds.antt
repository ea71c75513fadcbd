-- ===== src/Autodetect/Rounds.antt =====
-- What holds over all rounds of the detection (pkg/autodetect/main.go).
use jaeger_operator.Base.{String, ◌≡◌, refl, ap, ◌∙◌, true, none, some, List, [], ◌∷◌}
use jaeger_operator.Base.{if◌then◌else◌, arith, Option-cases, inl, inr}
use jaeger_operator.Autodetect.{Config, Answers, ResourceList, available_apis}
use jaeger_operator.Autodetect.Detect.{Background}
use jaeger_operator.Autodetect.Detect.{
  detect_oauth_proxy_image_stream, detect_elasticsearch, detect_kafka,
}
use jaeger_operator.Autodetect.Detect.{detect_cluster_roles, first_run, auto_detect, rounds}

-- What no round after the first one changes.
pub record Settled (c c' : Config) : Type 0 where
  pub platform : c'.platform ≡ c.platform
  pub cronjobs_version : c'.cronjobs_version ≡ c.cronjobs_version
  pub autoscaling_version : c'.autoscaling_version ≡ c.autoscaling_version
  pub default_ingress_class : c'.default_ingress_class ≡ c.default_ingress_class
  pub imagestream_namespace : c'.imagestream_namespace ≡ c.imagestream_namespace
  pub imagestream_name : c'.imagestream_name ≡ c.imagestream_name

Settled-trans : (a b c : Config) → Settled a b → Settled b c → Settled a c
Settled-trans a b c p q = record {
  platform = q.platform ∙ p.platform;
  cronjobs_version = q.cronjobs_version ∙ p.cronjobs_version;
  autoscaling_version = q.autoscaling_version ∙ p.autoscaling_version;
  default_ingress_class = q.default_ingress_class ∙ p.default_ingress_class;
  imagestream_namespace = q.imagestream_namespace ∙ p.imagestream_namespace;
  imagestream_name = q.imagestream_name ∙ p.imagestream_name;
}

detect_oauth_proxy_image_stream-Settled :
    (digest : String → String) (a : Answers) (c : Config)
    → Settled c (detect_oauth_proxy_image_stream digest a c)
unfolding detect_oauth_proxy_image_stream
detect_oauth_proxy_image_stream-Settled digest a c = ground arith

detect_elasticsearch-Settled :
    (l : List ResourceList) (c : Config) → Settled c (detect_elasticsearch l c)
unfolding detect_elasticsearch
detect_elasticsearch-Settled l c = ground arith

detect_kafka-Settled :
    (b : Background) (l : List ResourceList) (c : Config) → Settled c (detect_kafka b l c)
unfolding detect_kafka
detect_kafka-Settled b l c = ground arith

detect_cluster_roles-Settled : (a : Answers) (c : Config) → Settled c (detect_cluster_roles a c)
unfolding detect_cluster_roles
detect_cluster_roles-Settled a c = ground arith

-- The detections that every readable round makes.
abbrev pub every_round :
    (String → String) → Answers → List ResourceList → Background → Config → Config
every_round digest a l b c =
    detect_cluster_roles a
      (detect_kafka b l (detect_elasticsearch l (detect_oauth_proxy_image_stream digest a c)))

every_round-Settled :
    (digest : String → String) (a : Answers) (l : List ResourceList) (b : Background) (c : Config)
    → Settled c (every_round digest a l b c)
every_round-Settled digest a l b c =
    let c1 = detect_oauth_proxy_image_stream digest a c in
    let c2 = detect_elasticsearch l c1 in
    let c3 = detect_kafka b l c2 in
    Settled-trans c c3 (detect_cluster_roles a c3)
      (Settled-trans c c2 c3
        (Settled-trans c c1 c2 (detect_oauth_proxy_image_stream-Settled digest a c)
          (detect_elasticsearch-Settled l c1))
        (detect_kafka-Settled b l c2))
      (detect_cluster_roles-Settled a c3)

auto_detect_unread :
    (digest : String → String) (a : Answers) (b : Background) (c : Config)
    → available_apis a ≡ none
    → auto_detect digest a (b, c) ≡ (b, detect_cluster_roles a c)
unfolding auto_detect
auto_detect_unread digest a b c e = ground arith

pub auto_detect_read :
    (digest : String → String) (a : Answers) (b : Background) (c : Config) (l : List ResourceList)
    → available_apis a ≡ some l
    → auto_detect digest a (b, c) ≡ (
      record b { first_run_done = true },
      every_round digest a l b (if b.first_run_done then c else first_run a l c),
    )
unfolding auto_detect
auto_detect_read digest a b c l e = ground arith

auto_detect-Settled :
    (digest : String → String) (a : Answers) (b : Background) (c : Config)
    → b.first_run_done ≡ true
    → ((auto_detect digest a (b, c)).0.first_run_done ≡ true)
      × Settled c (auto_detect digest a (b, c)).1
unfolding detect_kafka
auto_detect-Settled digest a b c e =
    elim (Option-cases (available_apis a))
      as (λ _.
        ((auto_detect digest a (b, c)).0.first_run_done ≡ true)
        × Settled c (auto_detect digest a (b, c)).1) [
          | inl none_read ↦
              rw (auto_detect_unread digest a b c none_read) (e, detect_cluster_roles-Settled a c)
          | inr (l, read) ↦
              rw (auto_detect_read digest a b c l read)
                (rw e (refl, every_round-Settled digest a l b c))
        ]

Settled-refl : (c : Config) → Settled c c
Settled-refl c = ground arith

later-Settled :
    (digest : String → String) (answers : List Answers) (b : Background) (c : Config)
    → b.first_run_done ≡ true
    → Settled c (rounds digest answers (b, c)).1
unfolding rounds
later-Settled digest [] b c e = Settled-refl c
later-Settled digest (a ∷ answers) b c e =
    let (b', c') = auto_detect digest a (b, c) in
    let (e', settled) = auto_detect-Settled digest a b c e in
    Settled-trans c c' (rounds digest answers (b', c')).1 settled
      (later-Settled digest answers b' c' e')

-- Once a round has read the groups, be it the first one or not, no later round changes the platform, the
-- versions, the default ingress class or the image stream that is asked for.
pub rounds-Settled :
    (digest : String → String) (a : Answers) (answers : List Answers) (b : Background) (c : Config)
    (l : List ResourceList)
    → available_apis a ≡ some l
    → Settled (auto_detect digest a (b, c)).1 (rounds digest (a ∷ answers) (b, c)).1
unfolding rounds
rounds-Settled digest a answers b c l read =
    later-Settled digest answers (auto_detect digest a (b, c)).0 (auto_detect digest a (b, c)).1
      (ap (λ x. x.0.first_run_done) (auto_detect_read digest a b c l read))
