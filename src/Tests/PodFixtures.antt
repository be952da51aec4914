-- ===== src/Tests/PodFixtures.antt =====
-- Concrete libraries for pods, over a cluster that keeps Deployments.
use yatai_deployment.Base.{none, some, [], ◌∷◌, true, false, ok, err, Error, ◌≡◌, refl, ◌<>◌}
use yatai_deployment.Base.Dict.{insert, entries}
use yatai_deployment.Base.Effect.{World}
use yatai_deployment.Api.Kube.{NamespacedName}
use yatai_deployment.Api.Pods.{Deployment}
use yatai_deployment.Api.Yatai.{Http}
use yatai_deployment.Controllers.Objects.{Kind}
use yatai_deployment.Controllers.Objects.Laws.{IsLawful}
use yatai_deployment.Controllers.Pods.Options.{PodOption, PodLib, PodClient}
use yatai_deployment.Controllers.Deployments.{DeploymentsOption}
use yatai_deployment.Controllers.Deployments.Frame.{IsApart}
use yatai_deployment.Tests.Fixtures.{bento, deployment, world}
use yatai_deployment.Tests.Store.{Store, view, store_kind, store_kind-IsLawful}

abbrev pub pod_lib : PodLib
pod_lib = record {
  getenv = λ name. "";
  metrics_transformer = "registry/metrics-transformer";
  parse_version = λ text. ok text;
  less_than_or_equal = λ a b. false;
  to_lower = λ text. text;
  to_upper = λ text. text;
}

abbrev pub pod_client : PodClient (Store Deployment)
pod_client = record {
  set_controller_reference = λ owner m. ok m;
  create_or_update = λ m f s. (ok tt, s);
  list_service_accounts = λ namespace key value s. (ok [], s);
}

-- A Yatai server that has nothing.
abbrev pub no_http : Http (Store Deployment)
no_http = record {
  url_join = λ endpoint path query. endpoint <> path;
  send = λ request s. (err (Error.other "not found"), s);
  organization_of = λ body. ok (record { uid = body; name = "default" });
  cluster_of = λ body. ok (record { uid = body });
  version_of = λ body. ok (record { version = body; git_commit = "" });
  deployment_of = λ body. ok (record { latest_revision = none });
}

-- The API server of a resource with a runner in stealing-traffic debug mode.
abbrev pub api_option : PodOption
api_option = record {
  bento_deployment = record deployment {
    spec = record deployment.spec {
      envs = some (
          (record { name = "PORT"; value = "5000"; value_from = none })
          ∷ (record { name = "LEVEL"; value = "debug"; value_from = none })
          ∷ (record { name = "LEVEL"; value = "info"; value_from = none })
          ∷ []);
    };
  };
  bento = bento;
  yatai_client = none;
  cluster_name = none;
  runner_name = none;
  is_stealing_traffic_debug_mode_enabled = false;
  contains_stealing_traffic_debug_mode_enabled = true;
}

abbrev pub key_of : Deployment → NamespacedName
key_of a = record { namespace = a.meta.namespace; name = a.meta.name }

abbrev annotate : Deployment → Deployment
annotate a = record a {
  meta = record a.meta {
    annotations = some (insert "banzaicloud.com/last-applied" "{}" (entries a.meta.annotations));
  };
}

abbrev refer : Deployment → Deployment
refer a = record a { meta = record a.meta { owner_references = "iris" ∷ [] } }

abbrev pub Agrees : Deployment → Deployment → Type 0
Agrees a b = (a.spec ≡ b.spec) × (a.meta.labels ≡ b.meta.labels)

abbrev pub deployments : Kind (Store Deployment) Deployment
deployments = store_kind key_of "Deployment" annotate refer

pub deployments-IsLawful : IsLawful deployments (view key_of) Agrees
deployments-IsLawful =
    store_kind-IsLawful key_of "Deployment" annotate refer Agrees (λ a. (refl, (refl, refl)))
      (λ a. (refl, λ stored agrees. agrees))

pub apart : IsApart (view key_of) pod_client no_http
apart = record {
  create_or_update = λ m f s j. refl;
  list_service_accounts = λ namespace key value s j. refl;
  send = λ request s j. refl;
}

abbrev pub runner_deployments : DeploymentsOption
runner_deployments = record {
  bento_deployment = deployment;
  bento = bento;
  yatai_client = none;
  cluster_name = none;
  runner_name = some "iris_clf";
}

abbrev pub no_deployments : World (Store Deployment)
no_deployments = world (λ _. none)
