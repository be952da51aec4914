-- ===== src/Tests/Templates.antt =====
-- Pod templates of an API server.
use yatai_deployment.Base.{
  find_first, ◌==◌, none, some, or_else, ◌++◌, [], ◌∷◌, any, true, false, ok, err, panic, Result,
  ◌≡◌, refl, String, ◌<>◌, arith,
}
use yatai_deployment.Base.Dict.{Dict, lookup}
use yatai_deployment.Base.Effect.{World}
use yatai_deployment.Base.Int.{ℤ, pos, int32}
use yatai_deployment.Api.Kube.{ServicePort}
use yatai_deployment.Decimal.{decimal}
use yatai_deployment.Decimal.Atoi.{atoi}
use yatai_deployment.Api.Pods.{Deployment, PodTemplateSpec}
use yatai_deployment.Controllers.Service.{service_of, service_option}
use yatai_deployment.Controllers.Resources.{default_resources}
use yatai_deployment.Controllers.Pods.Envs.Loops.{env_value, distinct}
use yatai_deployment.Controllers.Pods.Proxy.{envoy_config, proxy_container}
use yatai_deployment.Controllers.Pods.Proxy.Upstreams.{server, Reaches, envoy_config-Reaches}
use yatai_deployment.Controllers.Pods.Serve.{runner_map}
use yatai_deployment.Controllers.Pods.Serve.Addresses.{called, runner_map-called}
use yatai_deployment.Controllers.Pods.Sidecars.{tcp_port}
use yatai_deployment.Controllers.Pods.Template.{generate_pod_template_spec}
use yatai_deployment.Controllers.Pods.Template.Environment.{
  first_env, first_ports, template-distinct, template-value, template-listens,
}
use yatai_deployment.Controllers.Pods.Template.Values.{stated_value, YataiTable, PortOf, own_table}
use yatai_deployment.Controllers.Pods.Template.Serves.{provides_all, template-provides}
use yatai_deployment.Tests.Fixtures.{consts, texts, quantities}
use yatai_deployment.Tests.PodFixtures.{pod_lib, pod_client, no_http, api_option, no_deployments}
use yatai_deployment.Tests.Store.{Store}

abbrev empty_template : PodTemplateSpec
empty_template = record {
  labels = [];
  annotations = [];
  spec = record {
    containers = [];
    volumes = [];
    image_pull_secrets = [];
    scheduler_name = "";
    node_selector = none;
    affinity = none;
    tolerations = [];
    topology_spread_constraints = [];
    service_account_name = "";
    host_ipc = false;
    host_network = false;
    host_pid = false;
    share_process_namespace = none;
  };
}

abbrev value_of : Result PodTemplateSpec → PodTemplateSpec
value_of (ok template) = template
value_of (err e) = empty_template
value_of panic = empty_template

abbrev pub run : Result PodTemplateSpec × World (Store Deployment)
run =
    generate_pod_template_spec consts texts quantities pod_lib api_option pod_client no_http
      no_deployments

abbrev pub template : PodTemplateSpec
template = value_of run.0

pub made : run ≡ (ok template, run.1)
unfolding generate_pod_template_spec lookup
made = refl

template-distinct_example : distinct (first_env template.spec.containers) ≡ true
unfolding distinct
template-distinct_example =
    template-distinct pod_client no_http consts texts quantities pod_lib api_option no_deployments
      run.1 template refl made

template-value_example :
    (port : ℤ) × PortOf consts (stated_value api_option consts.env_bento_service_port) port
    × ((yatai : Dict String) × YataiTable no_http consts api_option.cluster_name
          api_option.yatai_client no_deployments yatai
        × (env_value "LEVEL" (first_env template.spec.containers)
            ≡ or_else
                (stated_value api_option "LEVEL")
                (lookup "LEVEL" (own_table consts api_option.bento_deployment port ++ yatai))))
template-value_example =
    template-value pod_client no_http consts texts quantities pod_lib api_option no_deployments
      run.1 template "LEVEL" refl made

-- The first of two values.
template-level : env_value "LEVEL" (first_env template.spec.containers) ≡ some "debug"
unfolding generate_pod_template_spec lookup env_value
template-level = refl

template-listens_example :
    (text : String) × (port : ℤ) × (env_value "PORT" (first_env template.spec.containers)
      ≡ some text)
    × (atoi text ≡ ok port)
    × (first_ports template.spec.containers ≡ tcp_port "http" (int32 port) ∷ [])
template-listens_example =
    template-listens pod_client no_http consts texts quantities pod_lib api_option no_deployments
      run.1 template (omega arith) refl made

-- The user's port is read and listened at.
template-ports : first_ports template.spec.containers ≡ tcp_port "http" (pos 5000) ∷ []
unfolding generate_pod_template_spec lookup
template-ports = refl

template-provides_example :
    provides_all template.spec.containers
      (service_of consts texts (
        service_option consts
          (record {
            bento_deployment = api_option.bento_deployment;
            bento = api_option.bento;
            runner_name = none;
          })
          true
          false)).spec.ports
    ≡ true
template-provides_example =
    template-provides pod_client no_http consts texts quantities pod_lib api_option no_deployments
      run.1 template true false made

runner_map-called_example :
    (port : ServicePort) × (find_first
        (λ port. port.name == "http")
        (called consts texts api_option "iris_clf").spec.ports
      ≡ some port)
    × (lookup "iris_clf" (runner_map consts texts api_option)
        ≡ some (
            "tcp://"
            <> ((called consts texts api_option "iris_clf").meta.name
                <> (":" <> decimal port.port))))
unfolding any
runner_map-called_example = runner_map-called consts texts api_option "iris_clf" refl

envoy_config-Reaches_example :
    let config = envoy_config consts texts api_option (pos 5000) in
    Reaches consts texts api_option false true (pos 5000) (server config true)
    × ((proxy_container consts pod_lib (default_resources quantities)).ports
        ≡ tcp_port "http-proxy" (int32 (pos config.listen_port)) ∷ [])
    × (config.debug_header_value ≡ "true")
envoy_config-Reaches_example =
    envoy_config-Reaches consts texts api_option pod_lib (default_resources quantities) (pos 5000)
      true
