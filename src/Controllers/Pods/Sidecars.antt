-- ===== src/Controllers/Pods/Sidecars.antt =====
-- The containers beside a component's main container, from `generatePodTemplateSpec` of
-- controllers/handleDeployment.go: the metrics transformer, the monitor exporter and the debugger.
use yatai_deployment.Base.{
  ℕ, ◌+◌, String, none, some, List, [], ◌∷◌, ◌++◌, true, false, ◌==◌, ◌<>◌, map, replace_all,
  if◌then◌else◌,
}
use yatai_deployment.Base.Int.{ℤ, pos, int32}
use yatai_deployment.Base.Dict.{Dict, entries}
use yatai_deployment.Decimal.{decimal, decimal_int}
use yatai_deployment.Api.Consts.{Consts}
use yatai_deployment.Api.Kube.{
  EnvVar, QuantityLib, ResourceList, ResourceRequirements, from_int, from_string,
}
use yatai_deployment.Api.Pods.{
  Container, ContainerPort, Probe, ProbeHandler, http_get, Volume, VolumeMount, given,
}
use yatai_deployment.Api.V2alpha1.{MonitorExporterSpec, MonitorExporterMountSpec}
use yatai_deployment.Controllers.Pods.Envs.{env_var, seen_in}
use yatai_deployment.Controllers.Pods.Options.{PodLib}
use yatai_deployment.Controllers.Pods.Security.{security_context, empty_context, ptrace}

-- `lastPort`, as it grows.
module _ (c : Consts) where
  abbrev pub monitor_exporter_port : ℕ
  monitor_exporter_port = c.bento_service_port + 1 + 1

  abbrev pub metrics_port : ℕ
  metrics_port = monitor_exporter_port + 1

  abbrev pub proxy_port : ℕ
  proxy_port = metrics_port + 1

  -- Where the pod has a monitor exporter, it has a proxy too.
  abbrev pub monitor_exporter_probe_port : ℕ
  monitor_exporter_probe_port = proxy_port + 1

abbrev pub tcp_port : String → ℤ → ContainerPort
tcp_port name port = record { name = name; container_port = port; protocol = "TCP" }

abbrev pub sidecar_probe : ProbeHandler → Probe
sidecar_probe handler = record {
  initial_delay_seconds = 5;
  timeout_seconds = 5;
  failure_threshold = 10;
  handler = handler;
}

abbrev pub cpu_memory : QuantityLib → String → String → ResourceList
cpu_memory lib cpu memory = ("cpu", lib.must_parse cpu) ∷ ("memory", lib.must_parse memory) ∷ []

-- A container with nothing but its name and image.
abbrev pub bare_container : String → String → ResourceRequirements → Container
bare_container name image resources = record {
  name = name;
  image = image;
  command = [];
  args = [];
  liveness_probe = none;
  readiness_probe = none;
  resources = resources;
  env = [];
  tty = false;
  stdin = false;
  volume_mounts = [];
  ports = [];
  security_context = none;
}

-- `INTERNAL_IMAGES_...`, or the default.
unfoldable pub image_or : PodLib → String → String → String
image_or pods variable default =
    if pods.getenv variable == "" then default else pods.getenv variable

module _ (c : Consts) (quantities : QuantityLib) (pods : PodLib) where
  -- The container that reads the metrics of the main container on `port`.
  unfoldable pub metrics_container : String → ℤ → Container
  unfolding decimal decimal_int int32 replace_all security_context
  metrics_container repository port =
      let probe = sidecar_probe (http_get "/healthz" (from_string "metrics")) in
      let resources : ResourceRequirements = record {
        requests = cpu_memory quantities "10m" "10Mi";
        limits = cpu_memory quantities "100m" "100Mi";
      } in
      record (bare_container "metrics-transformer" pods.metrics_transformer resources) {
        readiness_probe = some probe;
        liveness_probe = some probe;
        env =
            env_var "BENTOML_SERVER_HOST" "localhost"
            ∷ env_var "BENTOML_SERVER_PORT" (decimal_int port)
            ∷ env_var "PORT" (decimal (metrics_port c))
            ∷ env_var "OLD_METRICS_PREFIX" ("BENTOML_" <> (replace_all repository "-" ":" <> "_"))
            ∷ env_var "NEW_METRICS_PREFIX" "BENTOML_"
            ∷ [];
        ports = tcp_port "metrics" (int32 (pos (metrics_port c))) ∷ [];
        security_context = security_context pods;
      }

  -- A structured option.
  structure_env : EnvVar → EnvVar
  structure_env env = record env { name = "FLUENTBIT_OUTPUT_OPTION_" <> pods.to_upper env.name }

  -- The loop over the other options, without those that are structured.
  option_envs : List String → Dict String → List EnvVar
  unfolding seen_in
  option_envs seen [] = []
  option_envs seen ((k, v) ∷ options) =
      let rest = option_envs seen options in
      if seen_in (pods.to_lower k) seen
      then rest
      else env_var ("FLUENTBIT_OUTPUT_OPTION_" <> pods.to_upper k) v ∷ rest

  monitor_envs : MonitorExporterSpec → List EnvVar
  unfolding structure_env option_envs
  monitor_envs exporter =
      let seen = map (λ env. pods.to_lower env.name) exporter.structure_options in
      map structure_env exporter.structure_options ++ option_envs seen (entries exporter.options)

  -- `monitor-exporter-<idx>`
  mount_name : ℕ → String
  unfolding decimal
  mount_name idx = "monitor-exporter-" <> decimal idx

  -- The loop over the mounts, counted from `idx`.
  unfoldable pub monitor_volumes : ℕ → List MonitorExporterMountSpec → List Volume
  unfolding mount_name
  monitor_volumes idx [] = []
  monitor_volumes idx (mount ∷ mounts) =
      (record { name = mount_name idx; source = given mount.volume_source })
      ∷ monitor_volumes (idx + 1) mounts

  unfoldable pub monitor_mounts : ℕ → List MonitorExporterMountSpec → List VolumeMount
  unfolding mount_name
  monitor_mounts idx [] = []
  monitor_mounts idx (mount ∷ mounts) =
      (record { name = mount_name idx; mount_path = mount.path; read_only = mount.read_only })
      ∷ monitor_mounts (idx + 1) mounts

  unfoldable pub monitor_container : MonitorExporterSpec → Container
  unfolding decimal image_or monitor_envs monitor_mounts security_context
  monitor_container exporter =
      let probe_port = monitor_exporter_probe_port c in
      let image =
        image_or pods "INTERNAL_IMAGES_MONITOR_EXPORTER"
          "quay.io/bentoml/bentoml-monitor-exporter:0.0.3" in
      let resources : ResourceRequirements = record {
        requests = cpu_memory quantities "100m" "24Mi";
        limits = cpu_memory quantities "1000m" "72Mi";
      } in
      record (bare_container "monitor-exporter" image resources) {
        volume_mounts = monitor_mounts 0 exporter.mounts;
        env =
            env_var "FLUENTBIT_OTLP_PORT" (decimal (monitor_exporter_port c))
            ∷ env_var "FLUENTBIT_HTTP_PORT" (decimal probe_port)
            ∷ env_var "FLUENTBIT_OUTPUT" exporter.output
            ∷ monitor_envs exporter;
        readiness_probe = some (sidecar_probe (http_get "/readyz" (from_int probe_port)));
        liveness_probe = some (sidecar_probe (http_get "/livez" (from_int probe_port)));
        security_context = security_context pods;
      }

  unfoldable pub debugger_container : Container
  unfolding image_or
  debugger_container =
      let image = image_or pods "INTERNAL_IMAGES_DEBUGGER" "quay.io/bentoml/bento-debugger:0.0.8" in
      let resources : ResourceRequirements = record {
        requests = cpu_memory quantities "100m" "100Mi";
        limits = cpu_memory quantities "1000m" "1000Mi";
      } in
      record (bare_container "debugger" image resources) {
        command = "sleep" ∷ "infinity" ∷ [];
        security_context = some (record empty_context { capabilities = some ptrace });
        stdin = true;
        tty = true;
      }
