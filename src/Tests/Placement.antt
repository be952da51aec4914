-- ===== src/Tests/Placement.antt =====
-- The objects of a resource with one runner, in a cluster that shows Deployments alone.
use yatai_deployment.Base.{◌≡◌, ◌⊎◌, is_some, String, none, some, [], true, false, ok, err, refl}
use yatai_deployment.Base.Effect.{World, not_found}
use yatai_deployment.Base.Dict.{lookup}
use yatai_deployment.Api.Kube.{NamespacedName}
use yatai_deployment.Api.Pods.{Deployment}
use yatai_deployment.Controllers.Objects.{Kind}
use yatai_deployment.Controllers.Hpa.{HpaClient}
use yatai_deployment.Controllers.Reconcile.{Reconciler}
use yatai_deployment.Controllers.Reconcile.Components.{all_components}
use yatai_deployment.Controllers.Reconcile.Components.AllPlaced.{all_components-Placed}
use yatai_deployment.Controllers.Reconcile.Components.Placed.{IsSeparate, Placed}
use yatai_deployment.Controllers.Reconcile.Loop.{reconcile_resource}
use yatai_deployment.Controllers.Reconcile.Loop.Placed.{
  Waits, Deployed, reconcile_resource-Deployed,
}
use yatai_deployment.Api.Yatai.{Http}
use yatai_deployment.Tests.Fixtures.{consts, texts, quantities, deployment, bento}
use yatai_deployment.Tests.PodFixtures.{
  pod_lib, pod_client, no_http, Agrees, key_of, deployments, deployments-IsLawful, no_deployments,
}
use yatai_deployment.Tests.Store.{Store, view}

abbrev key : NamespacedName
key = record { namespace = "yatai"; name = "iris" }

-- Objects of a kind that the cluster takes and does not show.
abbrev blind : {A : Type 0} → String → Kind (Store Deployment) A
blind reason = record {
  reason = reason;
  key = λ a. key;
  get = λ j s. (err not_found, s);
  create = λ a s. (ok tt, s);
  update = λ a s. (ok tt, s);
  delete = λ a s. (ok tt, s);
  set_controller_reference = λ owner a. ok a;
  set_last_applied_annotation = λ a. ok a;
  calculate = λ old new. ok false;
}

abbrev hpas : HpaClient (Store Deployment) (Unit {0})
hpas = record {
  key = λ a. key;
  get_legacy = λ j s. (err not_found, s);
  get_current = λ j s. (err not_found, s);
  create = λ a s. (ok tt, s);
  update = λ a s. (ok tt, s);
  delete = λ a s. (ok tt, s);
  set_controller_reference = λ owner a. ok a;
  set_last_applied_annotation = λ a. ok a;
  calculate = λ old new. ok false;
  copy = λ a. ok tt;
  copy_status = λ a. ok tt;
}

-- A Yatai server that knows everything.
abbrev server : Http (Store Deployment)
server = record no_http { send = λ request s. (ok "known", s) }

abbrev reconciler : Reconciler (Store Deployment) (Unit {0})
reconciler = record {
  status = record {
    get = λ j s. (ok deployment, s);
    update_status = λ d s. (ok tt, s);
    set_status_condition = λ old condition. old;
  };
  bentos = λ j s. (ok bento, s);
  bento_requests = λ j s. (err not_found, s);
  deployments = deployments;
  services = blind "Service";
  hpas = hpas;
  version = record { major = "1"; minor = "25" };
  ingresses = blind "Ingress";
  ingress_lib = record {
    new_for_config = λ s. (ok tt, s);
    get_domain_suffix = λ s. (ok "example.com", s);
    get_network_config_config_map = λ s. (ok none, s);
    unmarshal = λ text. ok [];
  };
  pod_client = pod_client;
  pod_lib = pod_lib;
  yatai = record {
    new_for_config = λ s. (ok tt, s);
    get_yatai_config =
        λ s. (ok (record { endpoint = "http://yatai"; cluster_name = ""; api_token = "token" }), s);
  };
  http = server;
  consts = consts;
  texts = texts;
  quantities = quantities;
  find_status_condition = λ conditions type. none;
  error_text = λ e. "";
  deep_equal = λ old new. false;
}

separate : IsSeparate reconciler (view key_of)
separate = record {
  pods = record {
    create_or_update = λ m f s j. refl;
    list_service_accounts = λ namespace name value s j. refl;
    send = λ request s j. refl;
  };
  services = λ shown. record {
    get = λ j s h. h;
    create = λ a s h. h;
    update = λ a s h. h;
    delete = λ a s h. h;
  };
  hpas = λ shown. record {
    get_legacy = λ j s h. h;
    get_current = λ j s h. h;
    create = λ a s h. h;
    update = λ a s h. h;
    delete = λ a s h. h;
  };
  ingresses = λ shown. record {
    get = λ j s h. h;
    create = λ a s h. h;
    update = λ a s h. h;
    delete = λ a s h. h;
  };
  settings = λ shown. record {
    new_for_config = λ s h. h;
    get_domain_suffix = λ s h. h;
    get_network_config_config_map = λ s h. h;
  };
  status = λ shown. record { get = λ j s h. h; update_status = λ d s h. h };
}

abbrev after : World (Store Deployment)
after = (all_components reconciler none deployment bento no_deployments).1

-- The runner's Deployments are there after the API server's have been made.
all_components-Placed_example :
    Placed reconciler
      (view key_of)
      Agrees
      deployments-IsLawful
      (λ a. refl)
      separate
      none
      deployment
      bento
      (some "iris_clf")
      after
unfolding all_components lookup
all_components-Placed_example =
    all_components-Placed reconciler (view key_of) Agrees deployments-IsLawful (λ a. refl) separate
      none deployment bento no_deployments after true refl (some "iris_clf") refl

abbrev reconciled : World (Store Deployment)
reconciled = (reconcile_resource reconciler key deployment no_deployments).1

reconcile_resource-Deployed_example :
    Waits reconciler key
      (view key_of)
      Agrees
      deployments-IsLawful
      (λ a. refl)
      separate
      deployment
      no_deployments
    ⊎ Deployed reconciler key
        (view key_of)
        Agrees
        deployments-IsLawful
        (λ a. refl)
        separate
        deployment
        no_deployments
        reconciled
unfolding reconcile_resource lookup
reconcile_resource-Deployed_example =
    reconcile_resource-Deployed reconciler key (view key_of) Agrees deployments-IsLawful (λ a. refl)
      separate deployment no_deployments reconciled refl

-- The Deployments of the API server and of the runner are there, and both debug Deployments.
there :
    (is_some
        (view key_of reconciled.cluster (record { namespace = "yatai"; name = "iris-runner-0" }))
      ≡ true)
    × (is_some (
          view key_of reconciled.cluster (record { namespace = "yatai"; name = "iris-runner-d-0" }))
        ≡ true)
    × (is_some (view key_of reconciled.cluster (record { namespace = "yatai"; name = "iris-d" }))
        ≡ true)
unfolding reconcile_resource lookup
there = (refl, refl, refl)
