-- ===== src/Ca.antt =====
-- The bundles of certificate authorities on OpenShift (pkg/config/ca/ca.go). The platform is an
-- argument; what the structs of Kubernetes hold for a volume is a parameter.
use jaeger_operator.Base.{String, Bool, true, false, not, Option, none, some, List, [], ◌∷◌, ◌++◌}
use jaeger_operator.Base.{if◌then◌else◌, has_prefix, Run, done, ◌>>=◌}
use jaeger_operator.Base.Dict.{GoMap, insert}
use jaeger_operator.Kube.{Kube, VolumeMount}
use jaeger_operator.Meta.{ObjectMeta}
use jaeger_operator.Util.Merge.{JaegerCommonSpec}
use jaeger_operator.Util.Dedup.{remove_duplicated_volumes, remove_duplicated_volume_mounts}
use jaeger_operator.Jaeger.{Jaeger}
use jaeger_operator.Names.{labels, trusted_ca_name, service_ca_name}

-- A volume of one key of a config map (name, key, path), and ReadOnly of a mount.
pub record Mounts (K : Kube) : Type 0 where
  pub config_map_source : String → String → String → K.VolumeSource
  pub read_only : K.MountSettings

-- A config map of a bundle: the data is nil for the service's one.
pub record Bundle : Type 0 where
  pub meta : ObjectMeta
  pub data_text : GoMap String

abbrev pub service_ca_mount_path : String
service_ca_mount_path = "/etc/pki/ca-trust/source/service-ca"

abbrev pub ca_bundle_mount_path : String
ca_bundle_mount_path = "/etc/pki/ca-trust/extracted/pem"

module _ {K : Kube} where
  -- The loops of deployTrustedCA and deployServiceCA
  unfoldable pub unmounted : String → List (VolumeMount K) → Bool
  unmounted path [] = true
  unmounted path (vm ∷ volume_mounts) =
      if has_prefix vm.mount_path path then false else unmounted path volume_mounts

  abbrev pub deploy_trusted_ca : Jaeger K → Bool
  deploy_trusted_ca jaeger = unmounted ca_bundle_mount_path jaeger.spec.common.volume_mounts

  abbrev pub deploy_service_ca : Jaeger K → Bool
  deploy_service_ca jaeger = unmounted service_ca_mount_path jaeger.spec.common.volume_mounts

  -- GetTrustedCABundle
  unfoldable pub get_trusted_ca_bundle : Bool → Jaeger K → Run (Option Bundle)
  unfolding unmounted
  get_trusted_ca_bundle openshift jaeger =
      let name = trusted_ca_name jaeger.name in
      if not openshift
      then done none
      else if not (deploy_trusted_ca jaeger)
      then done none
      else labels name "ca-configmap" jaeger.name >>= λ l. done (
          some (record {
            meta = record {
              name = name;
              namespace = jaeger.namespace;
              labels = some (insert "config.openshift.io/inject-trusted-cabundle" "true" l);
              annotations = none;
              owner_references = [];
            };
            data_text = some (("ca-bundle.crt", "") ∷ []);
          }))

  -- GetServiceCABundle
  unfoldable pub get_service_ca_bundle : Bool → Jaeger K → Run (Option Bundle)
  unfolding unmounted
  get_service_ca_bundle openshift jaeger =
      let name = service_ca_name jaeger.name in
      if not openshift
      then done none
      else if not (deploy_service_ca jaeger)
      then done none
      else labels name "service-ca-configmap" jaeger.name >>= λ l. done (
          some (record {
            meta = record {
              name = name;
              namespace = jaeger.namespace;
              labels = some l;
              annotations = some (("service.beta.openshift.io/inject-cabundle", "true") ∷ []);
              owner_references = [];
            };
            data_text = none;
          }))

  -- What both functions do to the common settings.
  abbrev pub with_bundle :
      Mounts K → String → String → String → String → JaegerCommonSpec K → JaegerCommonSpec K
  with_bundle m name key path mount_path spec = record spec {
    volumes =
        remove_duplicated_volumes
          (spec.volumes ++ record { name = name; source = m.config_map_source name key path } ∷ []);
    volume_mounts = remove_duplicated_volume_mounts (
        spec.volume_mounts
        ++ record { name = name; mount_path = mount_path; settings = m.read_only } ∷ []);
  }

  -- Update
  unfoldable pub update_ca : Mounts K → Bool → Jaeger K → JaegerCommonSpec K → JaegerCommonSpec K
  unfolding unmounted
  update_ca m openshift jaeger spec =
      if not openshift
      then spec
      else if not (deploy_trusted_ca jaeger)
      then spec
      else with_bundle m (trusted_ca_name jaeger.name) "ca-bundle.crt" "tls-ca-bundle.pem"
          ca_bundle_mount_path spec

  -- AddServiceCA
  unfoldable pub add_service_ca :
      Mounts K → Bool → Jaeger K → JaegerCommonSpec K → JaegerCommonSpec K
  unfolding unmounted
  add_service_ca m openshift jaeger spec =
      if not openshift
      then spec
      else if not (deploy_service_ca jaeger)
      then spec
      else with_bundle m (service_ca_name jaeger.name) "service-ca.crt" "service-ca.crt"
          service_ca_mount_path spec
