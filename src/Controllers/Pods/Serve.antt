-- ===== src/Controllers/Pods/Serve.antt =====
-- What a component's main container runs, and how it is probed, from `generatePodTemplateSpec` of
-- controllers/handleDeployment.go.
pub mod Addresses
use yatai_deployment.Base.{
  ℕ, String, Option, none, some, List, [], ◌∷◌, ◌++◌, Bool, true, false, ◌==◌, ◌<>◌, map, join,
  Result, ok, bind, wrap_err, if◌then◌else◌,
}
use yatai_deployment.Base.Int.{ℤ}
use yatai_deployment.Base.Dict.{Dict, insert}
use yatai_deployment.Decimal.{decimal, decimal_int}
use yatai_deployment.Json.{marshal}
use yatai_deployment.Api.Consts.{Consts}
use yatai_deployment.Api.Kube.{from_string}
use yatai_deployment.Api.Pods.{Probe, http_get, exec}
use yatai_deployment.Api.Resources.{Bento, BentoRunner}
use yatai_deployment.Api.V2alpha1.{BentoDeployment}
use yatai_deployment.Conversion.Names.{TextLib}
use yatai_deployment.Controllers.Debug.{
  find_runner, check_if_is_stealing_traffic_debug_mode_enabled,
}
use yatai_deployment.Controllers.Names.{get_runner_service_name, get_runner_generic_service_name}
use yatai_deployment.Controllers.Pods.Options.{PodOption, PodLib}

-- Whether the Bento was built by a BentoML with the old command lines.
unfoldable pub is_old_version : PodLib → Bento → Result Bool
is_old_version pods bento = elim bento.spec.bentoml_version [
  | none ↦ ok false
  | some version ↦
      if version == ""
      then ok false
      else bind (wrap_err ("invalid bentoml version " <> version) (pods.parse_version version))
          λ current.
            bind (wrap_err ("invalid target version " <> version) (pods.parse_version "1.0.0a7"))
              λ target. ok (pods.less_than_or_equal current target)
]

-- `tcp://0.0.0.0:<port>`, where the program listens.
listen_on : ℤ → String
unfolding decimal_int
listen_on port = "tcp://0.0.0.0:" <> decimal_int port

unfoldable pub runner_args : Bool → String → ℤ → List String
unfolding listen_on
runner_args is_old runner_name port =
    if is_old
    then "./env/docker/entrypoint.sh"
      ∷ "python"
      ∷ "-m"
      ∷ "bentoml._internal.server.cli.runner"
      ∷ "."
      ∷ runner_name
      ∷ listen_on port
      ∷ "--working-dir"
      ∷ "."
      ∷ []
    else "./env/docker/entrypoint.sh"
      ∷ "python"
      ∷ "-m"
      ∷ "bentoml._internal.server.cli.runner"
      ∷ "."
      ∷ "--runner-name"
      ∷ runner_name
      ∷ "--bind"
      ∷ listen_on port
      ∷ "--working-dir"
      ∷ "."
      ∷ []

-- The arguments of an API server with runners, whose map is given.
unfoldable pub api_server_args : Bool → ℤ → String → List String
unfolding listen_on
api_server_args is_old port runner_map =
    if is_old
    then "./env/docker/entrypoint.sh"
      ∷ "python"
      ∷ "-m"
      ∷ "bentoml._internal.server.cli.api_server"
      ∷ "."
      ∷ listen_on port
      ∷ "--runner-map"
      ∷ ("'" <> (runner_map <> "'"))
      ∷ "--working-dir"
      ∷ "."
      ∷ []
    else "./env/docker/entrypoint.sh"
      ∷ "python"
      ∷ "-m"
      ∷ "bentoml._internal.server.cli.api_server"
      ∷ "."
      ∷ "--bind"
      ∷ listen_on port
      ∷ "--runner-map"
      ∷ ("'" <> (runner_map <> "'"))
      ∷ "--working-dir"
      ∷ "."
      ∷ []

-- The loop over the Bento's runners, with the address of a name.
unfoldable pub add_addresses : (String → String) → List BentoRunner → Dict String → Dict String
unfolding insert
add_addresses address [] addresses = addresses
add_addresses address (runner ∷ runners) addresses =
    add_addresses address runners (insert runner.name (address runner.name) addresses)

module _ (c : Consts) (lib : TextLib) (opt : PodOption) where
  -- Whether a runner is itself in stealing-traffic debug mode.
  unfoldable pub runner_is_stealing : String → Bool
  unfolding find_runner check_if_is_stealing_traffic_debug_mode_enabled
  runner_is_stealing name = elim (find_runner name opt.bento_deployment.spec.runners) [
    | none ↦ false
    | some runner ↦ check_if_is_stealing_traffic_debug_mode_enabled c runner.annotations
  ]

  -- The Service by which this API server calls a runner: the debug pods call the Service of the
  -- runner's own mode, the production pods the generic one.
  unfoldable pub runner_service_name : String → String
  unfolding runner_is_stealing get_runner_service_name get_runner_generic_service_name
  runner_service_name name =
      if opt.is_stealing_traffic_debug_mode_enabled
      then get_runner_service_name lib opt.bento_deployment opt.bento name (runner_is_stealing name)
      else get_runner_generic_service_name lib opt.bento_deployment opt.bento name

  -- `<scheme>://<service>:<port>` of a runner, for the text before the name of the Service.
  unfoldable pub runner_address : String → String → String
  unfolding runner_service_name decimal
  runner_address scheme name =
      scheme <> (runner_service_name name <> (":" <> decimal c.bento_service_port))

  -- The addresses of the Bento's runners.
  unfoldable pub runner_map : Dict String
  unfolding runner_address add_addresses
  runner_map = add_addresses (runner_address "tcp://") opt.bento.spec.runners []

  -- The URLs that a probe of the API server opens: its own and those of the runners.
  probe_urls : ℤ → String → List String
  unfolding runner_address decimal_int
  probe_urls port path =
      ("http://localhost:" <> (decimal_int port <> path))
      ∷ map (λ runner. runner_address "http://" runner.name <> path) opt.bento.spec.runners

  -- The probe that opens them all, in Python.
  runners_probe : ℤ → String → ℕ → Probe
  unfolding probe_urls join
  runners_probe port path failure_threshold =
      let pieces = map (λ url. "urlopen('" <> (url <> "')")) (probe_urls port path) in
      record {
        initial_delay_seconds = 5;
        timeout_seconds = 5;
        failure_threshold = failure_threshold;
        handler =
            exec (
              "python3" ∷ "-c" ∷ ("from urllib.request import urlopen; " <> join "; " pieces) ∷ []);
      }

  plain_probe : String → ℕ → ℕ → ℕ → Probe
  plain_probe path initial_delay timeout failure_threshold = record {
    initial_delay_seconds = initial_delay;
    timeout_seconds = timeout;
    failure_threshold = failure_threshold;
    handler = http_get path (from_string c.bento_container_port_name);
  }

  -- The liveness and the readiness probe of the main container.
  unfoldable pub probes : ℤ → Probe × Probe
  unfolding plain_probe runners_probe
  probes port =
      let plain : Probe × Probe = (plain_probe "/livez" 10 20 6, plain_probe "/readyz" 5 5 12) in
      elim opt.runner_name [
        | some _ ↦ plain
        | none ↦ elim opt.bento.spec.runners [
          | [] ↦ plain
          | _ ∷ _ ↦ (runners_probe port "/healthz" 6, runners_probe port "/readyz" 36)
        ]
      ]

  unfoldable pub main_args : Bool → ℤ → List String
  unfolding runner_args api_server_args runner_map marshal
  main_args is_old port = elim opt.runner_name [
    | some runner_name ↦ runner_args is_old runner_name port
    | none ↦ elim opt.bento.spec.runners [
      | [] ↦ "./env/docker/entrypoint.sh" ∷ "bentoml" ∷ "serve" ∷ "." ∷ "--production" ∷ []
      | _ ∷ _ ↦ api_server_args is_old port (marshal runner_map)
    ]
  ]
