-- ===== src/Controllers/Service.antt =====
-- controllers/handleService.go: the Services of a component. A component has a generic Service, and in
-- stealing-traffic debug mode one for the production pods and one for the debug pods.
pub mod Frame
pub mod Selector
pub mod Sync
pub mod Component
use yatai_deployment.Base.{
  ℕ, ◌+◌, String, Option, none, some, List, [], ◌∷◌, Bool, true, false, ◌&&◌, ◌||◌, not, Result, ok,
  wrap_err, if◌then◌else◌, is_some,
}
use yatai_deployment.Base.Effect.{Exec, pure, lift, ◌>>=◌}
use yatai_deployment.Base.Dict.{Dict, insert, erase}
use yatai_deployment.Api.Consts.{Consts}
use yatai_deployment.Api.Kube.{
  NamespacedName, Service, ServiceSpec, ServicePort, IntOrString, from_string,
}
use yatai_deployment.Api.Resources.{Bento}
use yatai_deployment.Api.V2alpha1.{BentoDeployment}
use yatai_deployment.Conversion.Names.{TextLib}
use yatai_deployment.Controllers.Debug.{
  get_resource_annotations, check_if_is_stealing_traffic_debug_mode_enabled,
  check_if_is_debug_pod_receive_production_traffic_enabled,
  check_if_contains_stealing_traffic_debug_mode_enabled,
}
use yatai_deployment.Controllers.Names.{get_service_name, get_generic_service_name}
use yatai_deployment.Controllers.Labels.{debug, get_kube_labels, get_kube_annotations}
use yatai_deployment.Controllers.Objects.{
  Kind, object_meta, create_or_update_object, delete_if_found,
}

-- `createOrUpdateServiceOption`, and `generateServiceOption`, which has the same fields.
pub record ServiceOption : Type 0 where
  pub bento_deployment : BentoDeployment
  pub bento : Bento
  pub runner_name : Option String
  pub is_stealing_traffic_debug_mode_enabled : Bool
  pub is_debug_pod_receive_production_traffic : Bool
  pub contains_stealing_traffic_debug_mode_enabled : Bool
  pub is_generic_service : Bool

abbrev pub container_port_name_http_proxy : String
container_port_name_http_proxy = "http-proxy"

abbrev pub service_port_name_http_non_proxy : String
service_port_name_http_non_proxy = "http-non-proxy"

-- `ServicePortHTTPNonProxy`
abbrev pub service_port_http_non_proxy : Consts → ℕ
service_port_http_non_proxy c = c.bento_service_port + 1

-- Whether the selector leaves the target type open.
drops_target_type : ServiceOption → Bool
drops_target_type opt =
    if is_some opt.runner_name
    then opt.is_generic_service && opt.is_debug_pod_receive_production_traffic
    else opt.is_generic_service

module _ (c : Consts) where
  selector_of : ServiceOption → Dict String → Dict String
  unfolding drops_target_type insert erase
  selector_of opt labels =
      let key = c.kube_label_yatai_bento_deployment_target_type in
      let selector =
        if opt.is_stealing_traffic_debug_mode_enabled then insert key debug labels else labels in
      if drops_target_type opt then erase key selector else selector

  -- The proxy container of the API server's pods takes the requests of the generic Service where some
  -- component is in stealing-traffic debug mode.
  unfoldable pub target_port : ServiceOption → IntOrString
  target_port opt =
      if not (is_some opt.runner_name)
        && (opt.is_generic_service && opt.contains_stealing_traffic_debug_mode_enabled)
      then from_string container_port_name_http_proxy
      else from_string c.bento_container_port_name

module _ (c : Consts) (lib : TextLib) where
  service_name : ServiceOption → String
  unfolding get_service_name get_generic_service_name
  service_name opt =
      if opt.is_generic_service
      then get_generic_service_name lib opt.bento_deployment opt.bento opt.runner_name
      else get_service_name lib opt.bento_deployment opt.bento opt.runner_name
          opt.is_stealing_traffic_debug_mode_enabled

  -- The Service before its controller reference is set.
  unfoldable pub service_of : ServiceOption → Service
  unfolding service_name selector_of target_port get_kube_labels get_kube_annotations
  service_of opt =
      let labels = get_kube_labels c lib opt.bento_deployment opt.bento opt.runner_name in
      record {
        meta =
            object_meta (service_name opt) opt.bento_deployment.meta.namespace labels
              (get_kube_annotations c lib opt.bento_deployment opt.bento opt.runner_name);
        spec = record {
          selector = selector_of c opt labels;
          ports =
              (record {
                name = c.bento_service_port_name;
                port = c.bento_service_port;
                target_port = target_port c opt;
                protocol = "TCP";
              })
              ∷ (record {
                name = service_port_name_http_non_proxy;
                port = service_port_http_non_proxy c;
                target_port = from_string c.bento_container_port_name;
                protocol = "TCP";
              })
              ∷ [];
        };
      }

-- What an update writes: the old object with the new annotations, labels and spec.
abbrev pub write_service : Service → Service → Service
write_service old service = record old {
  meta = record old.meta { annotations = service.meta.annotations; labels = service.meta.labels };
  spec = service.spec;
}

module _ {S : Type 0} (k : Kind S Service) (c : Consts) (lib : TextLib) where
  unfoldable pub generate_service : ServiceOption → Result Service
  unfolding service_of
  generate_service opt =
      wrap_err "set controller reference for service"
        (k.set_controller_reference opt.bento_deployment (service_of c lib opt))

  unfoldable pub create_or_update_service : ServiceOption → Exec S Bool
  unfolding generate_service create_or_update_object
  create_or_update_service opt = do
    service ← lift (generate_service opt)
    create_or_update_object k service write_service

-- `createOrUpdateOrDeleteServicesOption`
pub record ServicesOption : Type 0 where
  pub bento_deployment : BentoDeployment
  pub bento : Bento
  pub runner_name : Option String

module _ (c : Consts) where
  -- The options of one of a component's Services.
  unfoldable pub service_option : ServicesOption → Bool → Bool → ServiceOption
  unfolding get_resource_annotations check_if_is_debug_pod_receive_production_traffic_enabled
      check_if_contains_stealing_traffic_debug_mode_enabled
  service_option opt is_generic is_stealing = record {
    bento_deployment = opt.bento_deployment;
    bento = opt.bento;
    runner_name = opt.runner_name;
    is_stealing_traffic_debug_mode_enabled = is_stealing;
    is_debug_pod_receive_production_traffic =
        check_if_is_debug_pod_receive_production_traffic_enabled c
          (get_resource_annotations opt.bento_deployment opt.runner_name);
    contains_stealing_traffic_debug_mode_enabled =
        check_if_contains_stealing_traffic_debug_mode_enabled c opt.bento_deployment;
    is_generic_service = is_generic;
  }

  -- Whether the component has Services for its production and its debug pods.
  unfoldable pub has_split_services : ServicesOption → Bool
  unfolding get_resource_annotations check_if_is_stealing_traffic_debug_mode_enabled
      check_if_contains_stealing_traffic_debug_mode_enabled
  has_split_services opt =
      (not (is_some opt.runner_name)
        && check_if_contains_stealing_traffic_debug_mode_enabled c opt.bento_deployment)
      || (is_some opt.runner_name
          && check_if_is_stealing_traffic_debug_mode_enabled c
              (get_resource_annotations opt.bento_deployment opt.runner_name))

module _ {S : Type 0} (k : Kind S Service) (c : Consts) (lib : TextLib) where
  split_services : ServicesOption → Bool → Exec S Bool
  unfolding create_or_update_service service_option
  split_services opt modified = do
    production_modified ← create_or_update_service k c lib (service_option c opt false false)
    debug_modified ← create_or_update_service k c lib (service_option c opt false true)
    pure (modified || (production_modified || debug_modified))

  service_key : ServicesOption → Bool → NamespacedName
  unfolding get_service_name
  service_key opt is_debug = record {
    namespace = opt.bento_deployment.meta.namespace;
    name = get_service_name lib opt.bento_deployment opt.bento opt.runner_name is_debug;
  }

  remove_services : ServicesOption → Bool → Exec S Bool
  unfolding service_key delete_if_found
  remove_services opt modified = do
    production_removed ←
        delete_if_found k "Failed to get service" "Failed to delete service" (service_key opt false)
    debug_removed ←
        delete_if_found k "Failed to get service" "Failed to delete service" (service_key opt true)
    pure (modified || (production_removed || debug_removed))

  unfoldable pub create_or_update_or_delete_services : ServicesOption → Exec S Bool
  unfolding create_or_update_service service_option has_split_services split_services
      remove_services
  create_or_update_or_delete_services opt = do
    modified ← create_or_update_service k c lib (service_option c opt true false)
    if has_split_services c opt then split_services opt modified else remove_services opt modified
