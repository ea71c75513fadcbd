-- ===== src/Apply/Kinds.antt =====
-- The apply functions of pkg/controller/jaeger, each over the client for its kind of object.
use jaeger_operator.Base.{ℕ, Bool, List, [], ◌∷◌, Option, some, String, ◌==◌, if◌then◌else◌}
use jaeger_operator.Base.{nat_eq, equal_fold}
use jaeger_operator.Base.Dict.{RangeOrder}
use jaeger_operator.Apply.{Client, Reply, ok, apply, apply_waiting}
use jaeger_operator.Inventory.Account.{ServiceAccount, for_accounts}
use jaeger_operator.Inventory.ConfigMap.{ConfigMap, for_config_maps}
use jaeger_operator.Inventory.DaemonSet.{DaemonSet, for_daemon_sets}
use jaeger_operator.Inventory.Ingress.{Ingress, for_ingresses}
use jaeger_operator.Inventory.Route.{Route, for_routes}
use jaeger_operator.Inventory.Secret.{Secret, for_secrets}
use jaeger_operator.Inventory.Service.{Service, for_services}
use jaeger_operator.Inventory.ClusterRoleBinding.{ClusterRoleBinding, for_cluster_role_bindings}
use jaeger_operator.Inventory.ConsoleLink.{ConsoleLink, for_console_links}
use jaeger_operator.Inventory.Kafka.{Kafka, for_kafkas}
use jaeger_operator.Inventory.KafkaUser.{KafkaUser, for_kafka_users}
use jaeger_operator.Inventory.Deployment.{Deployment, for_deployments}
use jaeger_operator.Inventory.Versioned.{Object, for_cron_jobs, for_horizontal_pod_autoscalers}

module _ {Rest : Type 0} (c : Client (ServiceAccount Rest)) (o : RangeOrder) where
  unfoldable pub apply_accounts :
      List (ServiceAccount Rest) → c.State → Option (Reply c.Fault × c.State)
  unfolding apply
  apply_accounts = apply c (for_accounts o)

module _ {Rest : Type 0} (c : Client (ConfigMap Rest)) (o : RangeOrder) where
  unfoldable pub apply_config_maps :
      List (ConfigMap Rest) → c.State → Option (Reply c.Fault × c.State)
  unfolding apply
  apply_config_maps = apply c (for_config_maps o)

module _ {Spec : Type 0} (c : Client (DaemonSet Spec)) (o : RangeOrder) where
  unfoldable pub apply_daemon_sets :
      List (DaemonSet Spec) → c.State → Option (Reply c.Fault × c.State)
  unfolding apply
  apply_daemon_sets = apply c (for_daemon_sets o)

module _ {Spec : Type 0} (c : Client (Ingress Spec)) (o : RangeOrder) where
  unfoldable pub apply_ingresses : List (Ingress Spec) → c.State → Option (Reply c.Fault × c.State)
  unfolding apply
  apply_ingresses = apply c (for_ingresses o)

module _ {Spec : Type 0} (c : Client (Route Spec)) (o : RangeOrder) where
  unfoldable pub apply_routes : List (Route Spec) → c.State → Option (Reply c.Fault × c.State)
  unfolding apply
  apply_routes = apply c (for_routes o)

module _ {Rest : Type 0} (c : Client (Secret Rest)) (o : RangeOrder) where
  unfoldable pub apply_secrets : List (Secret Rest) → c.State → Option (Reply c.Fault × c.State)
  unfolding apply
  apply_secrets = apply c (for_secrets o)

module _ {Rest : Type 0} (c : Client (Service Rest)) (o : RangeOrder) where
  unfoldable pub apply_services : List (Service Rest) → c.State → Option (Reply c.Fault × c.State)
  unfolding apply
  apply_services = apply c (for_services o)

-- With the configured operator scope: there is nothing to do for an operator of one namespace.
module _ {Subject RoleRef : Type 0} (c : Client (ClusterRoleBinding Subject RoleRef))
    (o : RangeOrder) where
  unfoldable pub apply_cluster_role_binding_bindings :
      String
      → List (ClusterRoleBinding Subject RoleRef)
      → c.State
      → Option (Reply c.Fault × c.State)
  unfolding apply
  apply_cluster_role_binding_bindings scope desired s =
      if scope == "cluster" then apply c (for_cluster_role_bindings o) desired s else some (ok, s)

-- With the configured operator scope: there is nothing to do for an operator of one namespace.
module _ {Spec : Type 0} (c : Client (ConsoleLink Spec)) (o : RangeOrder) where
  unfoldable pub apply_console_links :
      String → List (ConsoleLink Spec) → c.State → Option (Reply c.Fault × c.State)
  unfolding apply
  apply_console_links scope desired s =
      if scope == "cluster" then apply c (for_console_links o) desired s else some (ok, s)

-- d.Status.ReadyReplicas and d.Status.Replicas
pub record DeploymentStatus : Type 0 where
  pub ready_replicas : ℕ
  pub replicas : ℕ

abbrev pub is_stable : DeploymentStatus → Bool
is_stable d = nat_eq d.ready_replicas d.replicas

module _ {Selector CRest Rest : Type 0} (c : Client (Deployment Selector CRest Rest))
    (status : c.Status → DeploymentStatus) (o : RangeOrder) where
  unfoldable pub apply_deployments :
      ℕ → List (Deployment Selector CRest Rest) → c.State → Option (Reply c.Fault × c.State)
  unfolding apply_waiting
  apply_deployments polls = apply_waiting c (λ s. is_stable (status s)) polls (for_deployments o)

-- KafkaStatusCondition of pkg/kafka/v1beta2
pub record Condition : Type 0 where
  pub type_text : String
  pub status : String

unfoldable pub get_ready_condition : List Condition → Condition
get_ready_condition [] = record { type_text = "unknown"; status = "unknown" }
get_ready_condition (c ∷ conditions) =
    if equal_fold c.type_text "ready" then c else get_ready_condition conditions

abbrev pub is_ready : List Condition → Bool
is_ready conditions = equal_fold (get_ready_condition conditions).status "true"

module _ {Spec : Type 0} (c : Client (Kafka Spec)) (conditions : c.Status → List Condition)
    (o : RangeOrder) where
  unfoldable pub apply_kafkas : ℕ → List (Kafka Spec) → c.State → Option (Reply c.Fault × c.State)
  unfolding apply_waiting get_ready_condition
  apply_kafkas polls = apply_waiting c (λ s. is_ready (conditions s)) polls (for_kafkas o)

module _ {Spec : Type 0} (c : Client (KafkaUser Spec)) (conditions : c.Status → List Condition)
    (o : RangeOrder) where
  unfoldable pub apply_kafka_users :
      ℕ → List (KafkaUser Spec) → c.State → Option (Reply c.Fault × c.State)
  unfolding apply_waiting get_ready_condition
  apply_kafka_users polls = apply_waiting c (λ s. is_ready (conditions s)) polls (for_kafka_users o)

module _ {Old New Other : Type 0} (c : Client (Object Old New Other)) (o : RangeOrder) where
  -- The listing is of the configured version. The assertions inside the loops hold for the objects
  -- of a plan, since the inventory has made them.
  unfoldable pub apply_cron_jobs :
      String → List (Object Old New Other) → c.State → Option (Reply c.Fault × c.State)
  unfolding apply
  apply_cron_jobs cronjobs_version = apply c (for_cron_jobs cronjobs_version o)

  unfoldable pub apply_horizontal_pod_autoscalers :
      String → List (Object Old New Other) → c.State → Option (Reply c.Fault × c.State)
  unfolding apply
  apply_horizontal_pod_autoscalers autoscaling_version =
      apply c (for_horizontal_pod_autoscalers autoscaling_version o)
