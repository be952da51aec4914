-- ===== src/Tests/Reconcile.antt =====
-- A reconciliation that fails, and the resources that a change of a Bento wakes.
use yatai_deployment.Base.{
  String, Option, ap, sym, ◌∙◌, none, some, List, [], ◌∷◌, true, false, ok, err, ◌≡◌, ◌⊎◌, ◌<>◌,
  refl,
}
use yatai_deployment.Base.Effect.{World, Error, not_found, conflict, is_not_found, ok-injective}
use yatai_deployment.Api.Kube.{NamespacedName}
use yatai_deployment.Api.Resources.{Bento}
use yatai_deployment.Api.V2alpha1.{BentoDeployment}
use yatai_deployment.Api.Pods.{Deployment}
use yatai_deployment.Controllers.Objects.{Kind}
use yatai_deployment.Controllers.Objects.Laws.{IsLawful}
use yatai_deployment.Controllers.Reconcile.Components.Placed.{IsSeparate}
use yatai_deployment.Controllers.Hpa.{HpaClient}
use yatai_deployment.Controllers.Reconcile.{Reconciler}
use yatai_deployment.Controllers.Reconcile.Loop.{reconcile}
use yatai_deployment.Controllers.Reconcile.Loop.Outcome.{Deleted, Reconciled, reconcile-outcome}
use yatai_deployment.Controllers.Watches.{WatchClient, bento_requests, bento_request_requests}
use yatai_deployment.Controllers.Watches.Wakes.{requested, uses, wakes}
use yatai_deployment.Tests.Fixtures.{consts, texts, quantities, deployment, world}
use yatai_deployment.Tests.PodFixtures.{pod_lib}
use yatai_deployment.Tests.Status.{Cluster, view, client, lawful, key}

-- A cluster that has no objects of a kind and takes none.
abbrev no_kind : {A : Type 0} → String → Kind Cluster A
no_kind reason = record {
  reason = reason;
  key = λ a. key;
  get = λ j s. (err not_found, s);
  create = λ a s. (err conflict, s);
  update = λ a s. (err conflict, s);
  delete = λ a s. (err conflict, s);
  set_controller_reference = λ owner a. ok a;
  set_last_applied_annotation = λ a. ok a;
  calculate = λ old new. ok false;
}

abbrev no_deployments : Kind Cluster Deployment
no_deployments = record (no_kind "Deployment") {
  key = λ a. record { namespace = a.meta.namespace; name = a.meta.name };
}

abbrev no_view : Cluster → NamespacedName → Option Deployment
no_view s j = none

no_deployments-IsLawful : IsLawful no_deployments no_view ◌≡◌
no_deployments-IsLawful = record {
  view_key = λ s j a h. cc h;
  get_found = λ j s a h. cc h;
  get_missing = λ j s e h missing. refl;
  get_view = λ i j s. refl;
  create_view = λ a s j h. cc h;
  update_view = λ a s j h. cc h;
  delete_view = λ a s j h. cc h;
  annotated =
      λ a b h. let same : a ≡ b = ok-injective h in (ap no_deployments.key (sym same), sym same);
  referenced = λ owner a b h.
      let same : a ≡ b = ok-injective h in
      (ap no_deployments.key (sym same), λ stored agrees. agrees ∙ sym same);
  empty_patch = λ old new h. cc h;
}

abbrev no_hpas : HpaClient Cluster (Unit {0})
no_hpas = record {
  key = λ a. key;
  get_legacy = λ j s. (err not_found, s);
  get_current = λ j s. (err not_found, s);
  create = λ a s. (err conflict, s);
  update = λ a s. (err conflict, s);
  delete = λ a s. (err conflict, s);
  set_controller_reference = λ owner a. ok a;
  set_last_applied_annotation = λ a. ok a;
  calculate = λ old new. ok false;
  copy = λ a. ok tt;
  copy_status = λ a. ok tt;
}

-- The API server answers with a conflict when it is asked for a Bento.
abbrev reconciler : Reconciler Cluster (Unit {0})
reconciler = record {
  status = client;
  bentos = λ j s. (err conflict, s);
  bento_requests = λ j s. (err not_found, s);
  deployments = no_deployments;
  services = no_kind "Service";
  hpas = no_hpas;
  version = record { major = "1"; minor = "25" };
  ingresses = no_kind "Ingress";
  ingress_lib = record {
    new_for_config = λ s. (ok tt, s);
    get_domain_suffix = λ s. (ok "example.com", s);
    get_network_config_config_map = λ s. (ok none, s);
    unmarshal = λ text. ok [];
  };
  pod_client = record {
    set_controller_reference = λ owner m. ok m;
    create_or_update = λ m f s. (ok tt, s);
    list_service_accounts = λ namespace name value s. (ok [], s);
  };
  pod_lib = pod_lib;
  yatai = record {
    new_for_config = λ s. (ok tt, s);
    get_yatai_config =
        λ s. (ok (record { endpoint = "http://yatai"; cluster_name = ""; api_token = "token" }), s);
  };
  http = record {
    url_join = λ endpoint path query. endpoint <> path;
    send = λ request s. (err (Error.other "not found"), s);
    organization_of = λ body. ok (record { uid = body; name = "default" });
    cluster_of = λ body. ok (record { uid = body });
    version_of = λ body. ok (record { version = body; git_commit = "" });
    deployment_of = λ body. ok (record { latest_revision = none });
  };
  consts = consts;
  texts = texts;
  quantities = quantities;
  find_status_condition = λ conditions type. none;
  error_text = λ e. "the object has been modified";
  deep_equal = λ old new. false;
}

separate : IsSeparate reconciler no_view
separate = record {
  pods = record {
    create_or_update = λ m f s j. refl;
    list_service_accounts = λ namespace name value s j. refl;
    send = λ request s j. refl;
  };
  services = λ shown. record {
    get = λ j s h. h;
    create = λ a s h. h;
    update = λ a s h. h;
    delete = λ a s h. h;
  };
  hpas = λ shown. record {
    get_legacy = λ j s h. h;
    get_current = λ j s h. h;
    create = λ a s h. h;
    update = λ a s h. h;
    delete = λ a s h. h;
  };
  ingresses = λ shown. record {
    get = λ j s h. h;
    create = λ a s h. h;
    update = λ a s h. h;
    delete = λ a s h. h;
  };
  settings = λ shown. record {
    new_for_config = λ s h. h;
    get_domain_suffix = λ s h. h;
    get_network_config_config_map = λ s h. h;
  };
  status = λ shown. record { get = λ j s h. h; update_status = λ d s h. h };
}

abbrev before : World Cluster
before = world (0, some deployment)

abbrev after : World Cluster
after = (reconcile reconciler key before).1

reconcile-outcome_example :
    Deleted reconciler key view lawful no_view ◌≡◌ no_deployments-IsLawful
      (λ a. refl)
      separate
      before
      after
    ⊎ Reconciled reconciler key view lawful no_view ◌≡◌ no_deployments-IsLawful
        (λ a. refl)
        separate
        before
        after
unfolding reconcile
reconcile-outcome_example =
    reconcile-outcome reconciler key view lawful no_view ◌≡◌ no_deployments-IsLawful (λ a. refl)
      separate before after refl

-- Two resources, of which one has the Bento.
abbrev other : BentoDeployment
other = record deployment { spec = record deployment.spec { bento = "other" } }

abbrev watch : WatchClient (List BentoDeployment)
watch = record { get_bento = λ j s. (err not_found, s); list = λ namespace s. (ok s, s) }

abbrev changed : NamespacedName
changed = record { namespace = "yatai"; name = deployment.spec.bento }

wakes_example :
    ((requests : List NamespacedName) × ((bento_requests watch changed
          (world (deployment ∷ other ∷ []))).0
        ≡ ok requests)
      × (requested key requests ≡ uses key changed.name (deployment ∷ other ∷ [])))
    × ((found : Bento)
        → (watch.get_bento changed (deployment ∷ other ∷ [])).0 ≡ ok found
        → (bento_request_requests watch changed (world (deployment ∷ other ∷ []))).0 ≡ ok [])
    × ((e : Error)
        → (watch.get_bento changed (deployment ∷ other ∷ [])).0 ≡ err e
        → is_not_found e ≡ true
        → (watch.get_bento changed (deployment ∷ other ∷ [])).1 ≡ deployment ∷ other ∷ []
        → (bento_request_requests watch changed (world (deployment ∷ other ∷ []))).0
          ≡ (bento_requests watch changed (world (deployment ∷ other ∷ []))).0)
unfolding bento_requests bento_request_requests
wakes_example =
    wakes watch key changed (world (deployment ∷ other ∷ [])) (deployment ∷ other ∷ []) refl
