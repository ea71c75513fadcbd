-- ===== src/Autodetect/Flags.antt =====
-- What is written to a flag is read back (pkg/autodetect/operatorconfig.go).
use jaeger_operator.Base.{◌≡◌, refl, same_lower}
use jaeger_operator.Autodetect.{
  Platform, kubernetes_platform, openshift_platform, Config, Integration,
}
use jaeger_operator.Autodetect.{integration_yes, integration_no, AuthDelegatorAvailability}
use jaeger_operator.Autodetect.{delegator_yes, delegator_no, delegator_unknown, platform_text}
use jaeger_operator.Autodetect.{get_platform, set_platform, get_es_integration, set_es_integration}
use jaeger_operator.Autodetect.{get_kafka_integration, set_kafka_integration, get_auth_delegator}
use jaeger_operator.Autodetect.{set_auth_delegator}

pub get_platform-set_platform :
    (p : Platform) (c : Config) → get_platform (set_platform (platform_text p) c) ≡ p
unfolding get_platform set_platform same_lower
get_platform-set_platform kubernetes_platform c = refl
get_platform-set_platform openshift_platform c = refl

pub get_es_integration-set_es_integration :
    (e : Integration) (c : Config) → get_es_integration (set_es_integration e c) ≡ e
unfolding get_es_integration set_es_integration same_lower
get_es_integration-set_es_integration integration_yes c = refl
get_es_integration-set_es_integration integration_no c = refl

pub get_kafka_integration-set_kafka_integration :
    (e : Integration) (c : Config) → get_kafka_integration (set_kafka_integration e c) ≡ e
unfolding get_kafka_integration set_kafka_integration same_lower
get_kafka_integration-set_kafka_integration integration_yes c = refl
get_kafka_integration-set_kafka_integration integration_no c = refl

pub get_auth_delegator-set_auth_delegator :
    (a : AuthDelegatorAvailability) (c : Config) → get_auth_delegator (set_auth_delegator a c) ≡ a
unfolding get_auth_delegator set_auth_delegator same_lower
get_auth_delegator-set_auth_delegator delegator_yes c = refl
get_auth_delegator-set_auth_delegator delegator_no c = refl
get_auth_delegator-set_auth_delegator delegator_unknown c = refl

-- A platform, an integration or an availability that is set is what is read afterwards.
pub get_flags-set_flags :
    (p : Platform) (e k : Integration) (a : AuthDelegatorAvailability) (c : Config)
    → (get_platform (set_platform (platform_text p) c) ≡ p)
      × (get_es_integration (set_es_integration e c) ≡ e)
      × (get_kafka_integration (set_kafka_integration k c) ≡ k)
      × (get_auth_delegator (set_auth_delegator a c) ≡ a)
get_flags-set_flags p e k a c = (
  get_platform-set_platform p c,
  get_es_integration-set_es_integration e c,
  get_kafka_integration-set_kafka_integration k c,
  get_auth_delegator-set_auth_delegator a c,
)
