-- ===== src/Controllers/Deployments.antt =====
-- controllers/handleDeployment.go: the Deployments of a component, one for its production pods and, in
-- stealing-traffic debug mode, one for its debug pods.
pub mod Frame
pub mod Selector
pub mod Component
use yatai_deployment.Base.{
  String, Option, none, some, List, [], ◌∷◌, Bool, true, false, ◌==◌, if◌then◌else◌,
}
use yatai_deployment.Base.Dict.{Dict, read}
use yatai_deployment.Base.Effect.{Exec, pure, lift, wrap_exec, ◌>>=◌}
use yatai_deployment.Api.Consts.{Consts}
use yatai_deployment.Api.Kube.{NamespacedName, QuantityLib, from_int, from_string}
use yatai_deployment.Api.Pods.{
  Deployment, DeploymentStrategy, rolling_update, recreate, PodTemplateSpec,
}
use yatai_deployment.Api.Resources.{Bento}
use yatai_deployment.Api.V2alpha1.{BentoDeployment}
use yatai_deployment.Api.Yatai.{Http}
use yatai_deployment.Conversion.Names.{TextLib}
use yatai_deployment.YataiClient.{YataiClient}
use yatai_deployment.Controllers.Debug.{
  get_resource_annotations, check_if_contains_stealing_traffic_debug_mode_enabled,
}
use yatai_deployment.Controllers.Labels.{get_kube_labels, get_kube_annotations}
use yatai_deployment.Controllers.Names.{get_kube_name}
use yatai_deployment.Controllers.Objects.{
  Kind, object_meta, create_or_update_object, delete_if_found,
}
use yatai_deployment.Controllers.Service.{has_split_services}
use yatai_deployment.Controllers.Pods.Options.{PodOption, PodLib, PodClient}
use yatai_deployment.Controllers.Pods.Template.{generate_pod_template_spec}

-- The default, and the strategy of a text that names none of the strategies.
abbrev default_strategy : DeploymentStrategy
default_strategy = rolling_update (from_string "25%") (from_string "25%")

-- The strategy for the text of the annotation.
unfoldable pub strategy_of : Consts → String → DeploymentStrategy
strategy_of c text =
    if text == ""
    then default_strategy
    else if text == c.deployment_strategy_rolling_update
    then default_strategy
    else if text == c.deployment_strategy_recreate
    then recreate
    else if text == c.deployment_strategy_ramped_slow_rollout
    then rolling_update (from_int 1) (from_int 0)
    else if text == c.deployment_strategy_best_effort_controlled_rollout
    then rolling_update (from_int 0) (from_string "20%")
    else default_strategy

module _ (c : Consts) (lib : TextLib) where
  unfoldable pub deployment_name : PodOption → String
  unfolding get_kube_name
  deployment_name opt =
      get_kube_name opt.bento_deployment opt.bento opt.runner_name
        opt.is_stealing_traffic_debug_mode_enabled

  -- The Deployment with a pod template, before its controller reference is set.
  unfoldable pub deployment_of : PodOption → PodTemplateSpec → Deployment
  unfolding deployment_name get_kube_labels get_kube_annotations get_resource_annotations read
      strategy_of
  deployment_of opt template = record {
    meta =
        object_meta (deployment_name opt) opt.bento_deployment.meta.namespace
          (get_kube_labels c lib opt.bento_deployment opt.bento opt.runner_name)
          (get_kube_annotations c lib opt.bento_deployment opt.bento opt.runner_name);
    spec = record {
      replicas = if opt.is_stealing_traffic_debug_mode_enabled then some 1 else none;
      selector = (c.kube_label_yatai_selector, deployment_name opt) ∷ [];
      template = template;
      strategy = strategy_of c (
          read (get_resource_annotations opt.bento_deployment opt.runner_name)
            "yatai.ai/deployment-strategy");
    };
  }

-- `createOrUpdateOrDeleteDeploymentsOption`
pub record DeploymentsOption : Type 0 where
  pub bento_deployment : BentoDeployment
  pub bento : Bento
  pub yatai_client : Option YataiClient
  pub cluster_name : Option String
  pub runner_name : Option String

-- The options of one of a component's Deployments.
unfoldable pub deployment_option : Consts → DeploymentsOption → Bool → PodOption
unfolding check_if_contains_stealing_traffic_debug_mode_enabled
deployment_option c opt is_stealing = record {
  bento_deployment = opt.bento_deployment;
  bento = opt.bento;
  yatai_client = opt.yatai_client;
  cluster_name = opt.cluster_name;
  runner_name = opt.runner_name;
  is_stealing_traffic_debug_mode_enabled = is_stealing;
  contains_stealing_traffic_debug_mode_enabled =
      check_if_contains_stealing_traffic_debug_mode_enabled c opt.bento_deployment;
}

module _ {S : Type 0} (k : Kind S Deployment) (client : PodClient S) (http : Http S) (c : Consts)
    (lib : TextLib) (quantities : QuantityLib) (pods : PodLib) where
  -- The controller reference is set to a Deployment with a template.
  unfoldable pub own_deployment : PodOption → PodTemplateSpec → Exec S Deployment
  unfolding deployment_of
  own_deployment opt template =
      wrap_exec "set deployment controller reference"
        (lift (k.set_controller_reference opt.bento_deployment (deployment_of c lib opt template)))

  unfoldable pub generate_deployment : PodOption → Exec S Deployment
  unfolding generate_pod_template_spec own_deployment
  generate_deployment opt = do
    template ← generate_pod_template_spec c lib quantities pods opt client http
    own_deployment opt template

  -- An update replaces the Deployment.
  unfoldable pub save_deployment : Deployment → Exec S Bool
  unfolding create_or_update_object
  save_deployment deployment = create_or_update_object k deployment (λ old new. new)

  unfoldable pub create_or_update_deployment : PodOption → Exec S Bool
  unfolding generate_deployment save_deployment
  create_or_update_deployment opt = do
    deployment ← generate_deployment opt
    save_deployment deployment

  unfoldable pub debug_key : DeploymentsOption → NamespacedName
  unfolding get_kube_name
  debug_key opt = record {
    namespace = opt.bento_deployment.meta.namespace;
    name = get_kube_name opt.bento_deployment opt.bento opt.runner_name true;
  }

  -- The debug Deployment is not wanted. What is returned tells of a deletion, or else of the change of
  -- the production Deployment.
  unfoldable pub remove_debug_deployment : DeploymentsOption → Bool → Exec S Bool
  unfolding debug_key delete_if_found
  remove_debug_deployment opt modified = do
    removed ← delete_if_found k "get deployment" "delete deployment" (debug_key opt)
    pure (if removed then true else modified)

  -- The production Deployment is done: the debug Deployment. Its change, not that of the production
  -- Deployment, is returned.
  unfoldable pub debug_deployment : DeploymentsOption → Bool → Exec S Bool
  unfolding has_split_services create_or_update_deployment deployment_option remove_debug_deployment
  debug_deployment opt modified =
      if has_split_services c (record {
        bento_deployment = opt.bento_deployment;
        bento = opt.bento;
        runner_name = opt.runner_name;
      })
      then wrap_exec "create or update deployment"
          (create_or_update_deployment (deployment_option c opt true))
      else remove_debug_deployment opt modified

  unfoldable pub create_or_update_or_delete_deployments : DeploymentsOption → Exec S Bool
  unfolding create_or_update_deployment deployment_option debug_deployment
  create_or_update_or_delete_deployments opt = do
    modified ←
        wrap_exec "create or update deployment"
          (create_or_update_deployment (deployment_option c opt false))
    debug_deployment opt modified
