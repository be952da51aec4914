-- ===== src/Controllers/Pods/Proxy.antt =====
-- The Envoy proxy beside the API server, from `generatePodTemplateSpec` of
-- controllers/handleDeployment.go: its container, and the ConfigMap with its configuration.
pub mod Upstreams
use yatai_deployment.Base.{
  ℕ, String, Option, none, some, List, [], ◌∷◌, Bool, true, false, ◌==◌, ◌<>◌, Result, ok, panic,
  bind, wrap_err, if◌then◌else◌,
}
use yatai_deployment.Base.Int.{ℤ, pos, int32}
use yatai_deployment.Base.Dict.{Dict, read, insert}
use yatai_deployment.Base.Effect.{Exec, pure, lift, wrap_exec, call, ◌>>=◌, ◌>>◌}
use yatai_deployment.Envoy.{CreateEnvoyConfig, generate_envoy_configuration_content}
use yatai_deployment.Api.Consts.{Consts}
use yatai_deployment.Api.Kube.{Quantity, QuantityLib, ResourceRequirements, ObjectMeta}
use yatai_deployment.Api.Pods.{Container, ConfigMap, Volume, config_map, exec}
use yatai_deployment.Conversion.Names.{TextLib}
use yatai_deployment.Controllers.Names.{get_kube_name, get_service_name}
use yatai_deployment.Controllers.Service.{
  container_port_name_http_proxy, service_port_http_non_proxy,
}
use yatai_deployment.Controllers.Pods.Options.{PodOption, PodLib, PodClient}
use yatai_deployment.Controllers.Pods.Security.{security_context}
use yatai_deployment.Controllers.Pods.Sidecars.{
  proxy_port, tcp_port, sidecar_probe, bare_container, image_or,
}

-- `HeaderNameDebug`
abbrev header_name_debug : String
header_name_debug = "X-Yatai-Debug"

-- A quantity that an annotation may set.
annotated_quantity : QuantityLib → Option (Dict String) → String → String → String → Result Quantity
unfolding read
annotated_quantity quantities annotations key default context =
    let text = if read annotations key == "" then default else read annotations key in
    wrap_err (context <> text) (quantities.parse_quantity text)

-- The four quantities, in the order in which they are read.
unfoldable pub proxy_resources : QuantityLib → Option (Dict String) → Result ResourceRequirements
unfolding annotated_quantity
proxy_resources quantities annotations =
    bind
      (annotated_quantity quantities annotations "yatai.ai/proxy-sidecar-resources-requests-cpu"
        "100m" "failed to parse proxy sidecar resources requests cpu: ")
      λ requests_cpu.
        bind
          (annotated_quantity quantities annotations
            "yatai.ai/proxy-sidecar-resources-requests-memory" "200Mi"
            "failed to parse proxy sidecar resources requests memory: ")
          λ requests_memory.
            bind
              (annotated_quantity quantities annotations
                "yatai.ai/proxy-sidecar-resources-limits-cpu" "300m"
                "failed to parse proxy sidecar resources limits cpu: ")
              λ limits_cpu.
                bind
                  (annotated_quantity quantities annotations
                    "yatai.ai/proxy-sidecar-resources-limits-memory" "1000Mi"
                    "failed to parse proxy sidecar resources limits memory: ")
                  λ limits_memory. ok (record {
                    requests = ("cpu", requests_cpu) ∷ ("memory", requests_memory) ∷ [];
                    limits = ("cpu", limits_cpu) ∷ ("memory", limits_memory) ∷ [];
                  })

module _ (c : Consts) (lib : TextLib) (opt : PodOption) where
  -- The API server's production or debug Service, as a host name.
  unfoldable pub service_host : Bool → String
  unfolding get_service_name
  service_host debug =
      get_service_name lib opt.bento_deployment opt.bento none debug
      <> ("." <> (opt.bento_deployment.meta.namespace <> ".svc.cluster.local"))

  -- Requests for the pods of the own mode go to the main container at `port`, those for the other
  -- mode's pods to their Service. The mode is that of the debug pods if the first argument is true.
  unfoldable pub envoy_for : Bool → ℤ → CreateEnvoyConfig
  unfolding service_host
  envoy_for true port = record {
    listen_port = proxy_port c;
    debug_header_name = header_name_debug;
    debug_header_value = c.kube_label_value_true;
    debug_server_address = "localhost";
    debug_server_port = port;
    production_server_address = service_host false;
    production_server_port = pos (service_port_http_non_proxy c);
  }
  envoy_for false port = record {
    listen_port = proxy_port c;
    debug_header_name = header_name_debug;
    debug_header_value = c.kube_label_value_true;
    debug_server_address = service_host true;
    debug_server_port = pos (service_port_http_non_proxy c);
    production_server_address = "localhost";
    production_server_port = port;
  }

  unfoldable pub envoy_config : ℤ → CreateEnvoyConfig
  unfolding envoy_for
  envoy_config = envoy_for opt.is_stealing_traffic_debug_mode_enabled

  config_map_name : String
  unfolding get_kube_name
  config_map_name =
      get_kube_name opt.bento_deployment opt.bento opt.runner_name
        opt.is_stealing_traffic_debug_mode_enabled
      <> "-envoy-config"

  -- The ConfigMap with a configuration.
  unfoldable pub envoy_config_map : String → ConfigMap
  unfolding config_map_name
  envoy_config_map content = record {
    meta = record {
      name = config_map_name;
      namespace = opt.bento_deployment.meta.namespace;
      uid = "";
      resource_version = "";
      labels = none;
      annotations = none;
      owner_references = [];
    };
    data_of = some (("envoy.yaml", content) ∷ []);
  }

  -- What the update writes to the ConfigMap that is there; writing to a nil map panics.
  unfoldable pub write_envoy : String → ConfigMap → Result ConfigMap
  unfolding insert
  write_envoy content there = elim there.data_of [
    | none ↦ panic
    | some d ↦ ok (record there { data_of = some (insert "envoy.yaml" content d) })
  ]

  unfoldable pub configure : {S : Type 0} → ℤ → Exec S String
  unfolding envoy_config generate_envoy_configuration_content
  configure port =
      wrap_exec "failed to generate envoy configuration content"
        (lift (generate_envoy_configuration_content (envoy_config port)))

  module _ {S : Type 0} (client : PodClient S) where
    unfoldable pub refer_envoy_config : String → Exec S ConfigMap
    unfolding envoy_config_map
    refer_envoy_config content =
        wrap_exec "failed to set controller reference for envoy config config map"
          (lift (client.set_controller_reference opt.bento_deployment (envoy_config_map content)))

    unfoldable pub write_envoy_config : String → ConfigMap → Exec S (Unit {0})
    unfolding write_envoy
    write_envoy_config content owned =
        wrap_exec "failed to create or update envoy config configmap"
          (call (client.create_or_update owned (write_envoy content)))

    unfoldable pub own_envoy_config : String → Exec S (Unit {0})
    unfolding refer_envoy_config write_envoy_config
    own_envoy_config content = do
      owned ← refer_envoy_config content
      write_envoy_config content owned

    -- The ConfigMap is made or updated.
    unfoldable pub save_envoy_config : ℤ → Exec S (Unit {0})
    unfolding configure own_envoy_config
    save_envoy_config port = do content ← configure port; own_envoy_config content

  unfoldable pub proxy_volume : Volume
  unfolding config_map_name
  proxy_volume = record { name = "envoy-config"; source = config_map config_map_name }

unfoldable pub proxy_container : Consts → PodLib → ResourceRequirements → Container
unfolding image_or int32 security_context
proxy_container c pods resources =
    let probe = sidecar_probe (
      exec ("sh" ∷ "-c" ∷ "curl -s localhost:9901/server_info | grep state | grep -q LIVE" ∷ [])) in
    record (bare_container "proxy"
      (image_or pods "INTERNAL_IMAGES_PROXY" "quay.io/bentoml/bentoml-proxy:0.0.1") resources) {
        command = "envoy" ∷ "--config-path" ∷ "/etc/envoy/envoy.yaml" ∷ [];
        volume_mounts =
            (record { name = "envoy-config"; mount_path = "/etc/envoy"; read_only = false }) ∷ [];
        ports = tcp_port container_port_name_http_proxy (int32 (pos (proxy_port c))) ∷ [];
        readiness_probe = some probe;
        liveness_probe = some probe;
        security_context = security_context pods;
      }
