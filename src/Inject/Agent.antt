-- ===== src/Inject/Agent.antt =====
-- The container of an agent beside an application (pkg/inject/sidecar.go: container,
-- getContainerName, isContainerPortAvailable).
use jaeger_operator.Base.{ℕ, ◌-◌, String, ◌<>◌, Bool, true, false, ◌&&◌, not, Option, none, some}
use jaeger_operator.Base.{List, [], ◌∷◌, ◌++◌, ◌==◌, if◌then◌else◌, ltb, nat_eq, length}
use jaeger_operator.Base.{Run, done, panic, ◌>>=◌}
use jaeger_operator.Base.Dict.{Dict, insert}
use jaeger_operator.Kube.{Kube}
use jaeger_operator.Util.Args.{EnvVar, find_item}
use jaeger_operator.Util.Merge.{JaegerCommonSpec, merge}
use jaeger_operator.Util.Dedup.{remove_duplicated_volumes, remove_duplicated_image_pull_secrets}
use jaeger_operator.Util.Ports.{get_port, get_admin_port, image_name}
use jaeger_operator.Jaeger.{ℤ, pos, negsuc, Jaeger}
use jaeger_operator.Options.{to_args}
use jaeger_operator.Names.{headless_collector_service}
use jaeger_operator.Ca.{Mounts, update_ca, add_service_ca, service_ca_mount_path}
use jaeger_operator.Inject.{Container, ContainerPort, Deployment}
use jaeger_operator.Inject.Tags.{sort_strings, join_tags, parse_agent_tags}

-- What the injection reads besides: the platform, the proxy variables (operator-lib), the settings of
-- the image, and what the structs of Kubernetes hold for a field of a pod and the probes of a port.
pub record Surroundings (K : Kube) : Type 0 where
  pub openshift : Bool
  pub proxy_vars : List (EnvVar K.EnvSource)
  pub agent_image : String
  pub agent_version : String
  pub mounts : Mounts K
  pub field_source : String → K.EnvSource
  pub http_liveness_probe : ℤ → K.Probe
  pub http_readiness_probe : ℤ → K.Probe
  pub no_rest : K.ContainerRest

abbrev same_port : ℤ → ℤ → Bool
same_port (pos m) (pos n) = nat_eq m n
same_port (negsuc m) (negsuc n) = nat_eq m n
same_port _ _ = false

unfoldable pub uses_port : ℤ → List ContainerPort → Bool
uses_port port [] = false
uses_port port (p ∷ ports) = if same_port port p.container_port then true else uses_port port ports

-- The argument if none has the prefix
abbrev pub default_arg : String → String → List String → List String
default_arg prefix value args =
    if find_item prefix args == "" then args ++ (prefix <> value) ∷ [] else args

-- for key, value := range defaultAgentTagsMap { existingAgentTags[key] = value }
unfoldable pub merge_tags : Dict String → Dict String → Dict String
merge_tags [] existing = existing
merge_tags ((key, value) ∷ tags) existing = merge_tags tags (insert key value existing)

abbrev pub agent_ports : List String → List ContainerPort
agent_ports args =
    record {
      container_port = get_port "--processor.zipkin-compact.server-host-port=" args (pos 5775);
      name = "zk-compact-trft";
      protocol = "UDP";
    }
    ∷ record {
      container_port = get_port "--http-server.host-port=" args (pos 5778);
      name = "config-rest";
      protocol = "";
    }
    ∷ record {
      container_port = get_port "--processor.jaeger-compact.server-host-port=" args (pos 6831);
      name = "jg-compact-trft";
      protocol = "UDP";
    }
    ∷ record {
      container_port = get_port "--processor.jaeger-binary.server-host-port=" args (pos 6832);
      name = "jg-binary-trft";
      protocol = "UDP";
    }
    ∷ record {
      container_port = get_admin_port args (pos 14271);
      name = "admin-http";
      protocol = "";
    }
    ∷ []

module _ {K : Kube} where
  -- isContainerPortAvailable
  unfoldable pub is_container_port_available : ℤ → List (Container K) → Bool
  unfolding uses_port
  is_container_port_available port [] = true
  is_container_port_available port (c ∷ containers) =
      if not (c.name == "jaeger-agent") && uses_port port c.ports
      then false
      else is_container_port_available port containers

  -- containers[i].Name
  unfoldable pub name_at : ℕ → List (Container K) → Run String
  name_at i [] = panic
  name_at i (c ∷ containers) =
      let rest = name_at (i - 1) containers in if nat_eq i 0 then done c.name else rest

  -- getContainerName; the index -1 is none
  unfoldable pub get_container_name : List (Container K) → Option ℕ → Run String
  unfolding name_at
  get_container_name containers none =
      if nat_eq (length containers) 1 then name_at 0 containers else done ""
  get_container_name containers (some agent_idx) =
      if nat_eq (length containers) 2
      then (if ltb 1 agent_idx then panic else name_at (1 - agent_idx) containers)
      else done ""

  -- containers[i].Args
  unfoldable pub args_at : ℕ → List (Container K) → Run (List String)
  args_at i [] = panic
  args_at i (c ∷ containers) =
      let rest = args_at (i - 1) containers in if nat_eq i 0 then done c.args else rest

  -- defaultAgentTagsMap, in the order of its assignments
  abbrev pub default_agent_tags : Deployment K → String → Dict String
  default_agent_tags dep container_name =
      let tags =
        ("cluster", "undefined")
        ∷ ("deployment.name", dep.meta.name)
        ∷ ("pod.namespace", dep.meta.namespace)
        ∷ ("pod.name", "${POD_NAME:}")
        ∷ ("host.ip", "${HOST_IP:}")
        ∷ [] in
      if container_name == "" then tags else insert "container.name" container_name tags

  -- The tags that an agent at an index is given.
  unfoldable pub agent_tags : Deployment K → Option ℕ → Run (Dict String)
  unfolding get_container_name args_at merge_tags
  agent_tags dep agent_idx = get_container_name dep.containers agent_idx >>= λ container_name.
      let tags = default_agent_tags dep container_name in
      elim agent_idx [
        | none ↦ done tags
        | some i ↦ args_at i dep.containers >>= λ args.
            parse_agent_tags args >>= λ existing. done (merge_tags tags existing)
      ]

  -- The arguments, up to the tags
  unfoldable pub reporter_args : Bool → String → Jaeger K → List String
  reporter_args openshift collector jaeger =
      let args = to_args jaeger.spec.agent.options in
      let args1 =
        default_arg "--reporter.grpc.host-port="
          ("dns:///" <> (collector <> ("." <> (jaeger.namespace <> ".svc:14250")))) args in
      if openshift && find_item "--reporter.grpc.tls.enabled=" args1 == ""
      then args1
        ++ ("--reporter.grpc.tls.enabled=true"
            ∷ ("--reporter.grpc.tls.ca=" <> (service_ca_mount_path <> "/service-ca.crt"))
            ∷ [])
      else args1

  unfoldable pub with_tags : Deployment K → Option ℕ → List String → Run (List String)
  unfolding agent_tags
  with_tags dep agent_idx args =
      if find_item "--agent.tags=" args == ""
      then (agent_tags dep agent_idx >>= λ tags.
          done (args ++ ("--agent.tags=" <> join_tags tags) ∷ []))
      else done args

  -- The variables of the agent
  abbrev pub agent_env : Surroundings K → List (EnvVar K.EnvSource)
  agent_env s =
      record { name = "POD_NAME"; value = ""; value_from = some (s.field_source "metadata.name") }
      ∷ record { name = "HOST_IP"; value = ""; value_from = some (s.field_source "status.hostIP") }
      ∷ s.proxy_vars

  -- ca.Update and ca.AddServiceCA on the common settings of the agent
  abbrev pub volumes_and_mounts : Surroundings K → Jaeger K → JaegerCommonSpec K
  volumes_and_mounts s jaeger =
      add_service_ca s.mounts s.openshift jaeger
        (update_ca s.mounts s.openshift jaeger jaeger.spec.agent.common)

  -- The container for arguments that are complete but not sorted.
  unfoldable pub agent_container :
      Surroundings K → Jaeger K → Deployment K → List String → List String → Container K
  unfolding is_container_port_available
  agent_container s jaeger dep args all_args =
      let common_spec = merge (jaeger.spec.agent.common ∷ jaeger.spec.common ∷ []) in
      let admin_port = get_admin_port args (pos 14271) in
      let free = is_container_port_available admin_port dep.containers in
      record {
        name = "jaeger-agent";
        image = image_name s.agent_version jaeger.spec.agent.image s.agent_image;
        args = sort_strings all_args;
        env = agent_env s;
        env_from = [];
        ports = agent_ports args;
        resources = common_spec.resources;
        security_context = jaeger.spec.sidecar_security_context;
        volume_mounts = (volumes_and_mounts s jaeger).volume_mounts;
        liveness_probe = if free then some (s.http_liveness_probe admin_port) else none;
        readiness_probe = if free then some (s.http_readiness_probe admin_port) else none;
        rest = s.no_rest;
      }

  -- container: the agent, and the deployment with the secrets and volumes that it needs
  unfoldable pub container :
      Surroundings K → Jaeger K → Deployment K → Option ℕ → Run (Container K × Deployment K)
  unfolding reporter_args with_tags agent_container
  container s jaeger dep agent_idx = headless_collector_service jaeger.name >>= λ collector.
      let args = reporter_args s.openshift collector jaeger in
      with_tags dep agent_idx args >>= λ all_args. done (
        agent_container s jaeger dep args all_args,
        record dep {
          image_pull_secrets =
              remove_duplicated_image_pull_secrets
                (dep.image_pull_secrets ++ jaeger.spec.agent.common.image_pull_secrets);
          volumes =
              remove_duplicated_volumes (dep.volumes ++ (volumes_and_mounts s jaeger).volumes);
        },
      )
