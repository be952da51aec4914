-- ===== src/Tests/Deployments.antt =====
-- The Deployments of a runner in stealing-traffic debug mode.
use yatai_deployment.Base.{String, ◌<>◌, any, none, some, [], ◌∷◌, true, ◌≡◌, refl}
use yatai_deployment.Decimal.{decimal}
use yatai_deployment.Base.Dict.{lookup}
use yatai_deployment.Base.Effect.{World}
use yatai_deployment.Api.Pods.{Deployment}
use yatai_deployment.Api.Kube.{Service}
use yatai_deployment.Controllers.Service.{create_or_update_or_delete_services}
use yatai_deployment.Controllers.Service.Selector.{Selects}
use yatai_deployment.Controllers.Pods.{extra_pod_labels}
use yatai_deployment.Controllers.Pods.Options.{PodOption}
use yatai_deployment.Controllers.Pods.Serve.{runner_is_stealing, runner_map}
use yatai_deployment.Controllers.Pods.Serve.Addresses.{runner_option, debug_runner-Unreachable}
use yatai_deployment.Controllers.Deployments.{deployment_of, create_or_update_or_delete_deployments}
use yatai_deployment.Controllers.Deployments.Component.{
  IsUpToDate, create_or_update_or_delete_deployments-IsUpToDate,
}
use yatai_deployment.Controllers.Deployments.Selector.{deployment_of-Selects}
use yatai_deployment.Tests.Fixtures.{consts, texts, sixteen, quantities, runner, deployment}
use yatai_deployment.Tests.PodFixtures.{
  pod_lib, pod_client, no_http, api_option, key_of, Agrees, deployments, deployments-IsLawful,
  apart, runner_deployments, no_deployments,
}
use yatai_deployment.Tests.Services.{
  services, Agrees as ServiceAgrees, lawful, service_kind, before, key_of as service_key_of,
}
use yatai_deployment.Tests.Store.{Store, view}
use yatai_deployment.Tests.Templates.{template, run, made}

abbrev after : World (Store Deployment)
after =
    (create_or_update_or_delete_deployments deployments pod_client no_http consts texts quantities
      pod_lib runner_deployments no_deployments).1

create_or_update_or_delete_deployments-IsUpToDate_example :
    IsUpToDate deployments
      (view key_of)
      Agrees
      deployments-IsLawful
      (λ a. refl)
      pod_client
      no_http
      apart
      consts
      texts
      quantities
      pod_lib
      runner_deployments
      no_deployments
      after
unfolding create_or_update_or_delete_deployments lookup
create_or_update_or_delete_deployments-IsUpToDate_example =
    create_or_update_or_delete_deployments-IsUpToDate deployments (view key_of) Agrees
      deployments-IsLawful (λ a. refl) pod_client no_http apart consts texts quantities pod_lib
      runner_deployments no_deployments after true refl

deployment_of-Selects_example :
    Selects (deployment_of consts texts api_option template).spec.selector template.labels
    × ((deployment_of consts texts api_option template).spec.selector
        ≡ ("yatai.ai/selector", (deployment_of consts texts api_option template).meta.name) ∷ [])
unfolding extra_pod_labels lookup
deployment_of-Selects_example =
    deployment_of-Selects pod_client no_http consts texts quantities pod_lib api_option
      no_deployments run.1 template refl made

-- The debug pods of the API server of a resource whose runner is in no debug mode.
abbrev debug_option : PodOption
debug_option = record api_option {
  is_stealing_traffic_debug_mode_enabled = true;
  bento_deployment = record deployment {
    spec = record deployment.spec {
      annotations = some (("yatai.ai/enable-stealing-traffic-debug-mode", "true") ∷ []);
      runners = record runner { annotations = none } ∷ [];
    };
  };
}

abbrev without : World (Store Service)
without =
    (create_or_update_or_delete_services services consts texts
      (runner_option consts texts debug_option "iris_clf") before).1

debug_runner-Unreachable_example :
    (service : String) × (lookup "iris_clf" (runner_map consts texts debug_option)
      ≡ some ("tcp://" <> (service <> (":" <> decimal 3000))))
    × (view service_key_of without.cluster (record { namespace = "yatai"; name = service }) ≡ none)
unfolding create_or_update_or_delete_services lookup runner_is_stealing any
debug_runner-Unreachable_example =
    debug_runner-Unreachable services (view service_key_of) ServiceAgrees lawful service_kind consts
      texts sixteen debug_option "iris_clf" before without true refl refl refl refl refl
