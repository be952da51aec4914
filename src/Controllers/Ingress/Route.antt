-- ===== src/Controllers/Ingress/Route.antt =====
-- The Ingress of the API server leads to the API server's generic Service.
use yatai_deployment.Base.{
  String, none, some, [], ◌∷◌, true, false, ◌≡◌, refl, ◌==◌, eq_refl, find_first, if◌then◌else◌,
}
use yatai_deployment.Base.Effect.{IngressConfig}
use yatai_deployment.Api.Consts.{Consts}
use yatai_deployment.Api.Resources.{Bento}
use yatai_deployment.Api.V2alpha1.{BentoDeployment}
use yatai_deployment.Conversion.Names.{TextLib}
use yatai_deployment.Api.Kube.{from_string}
use yatai_deployment.Controllers.Debug.{check_if_contains_stealing_traffic_debug_mode_enabled}
use yatai_deployment.Controllers.Service.{
  container_port_name_http_proxy, ServicesOption, service_of, service_option,
}
use yatai_deployment.Controllers.Ingress.{IngressPath, ingress_of}

abbrev api_server : BentoDeployment → Bento → ServicesOption
api_server bento_deployment bento = record {
  bento_deployment = bento_deployment;
  bento = bento;
  runner_name = none;
}

-- The Ingress has one rule, for the generated host, with one path; the path's backend is the generic
-- Service of the API server, in the Ingress's namespace, at the port of this Service that leads to the
-- pods' proxy if some component is in stealing-traffic debug mode, and else to the server itself.
pub ingress_of-service_of :
    (c : Consts) (texts : TextLib) (bento_deployment : BentoDeployment) (bento : Bento)
    (internal_host org_name : String) (config : IngressConfig)
    → let ingress = ingress_of c texts bento_deployment bento internal_host org_name config in
      let service =
        service_of c texts (service_option c (api_server bento_deployment bento) true false) in
      (path : IngressPath) × (ingress.rules
        ≡ (record { host = internal_host; paths = path ∷ [] }) ∷ [])
      × (path.service_name ≡ service.meta.name)
      × (ingress.meta.namespace ≡ service.meta.namespace)
      × (find_first (λ port. port.name == path.service_port_name) service.spec.ports
          ≡ some (record {
            name = c.bento_service_port_name;
            port = c.bento_service_port;
            target_port =
                (if check_if_contains_stealing_traffic_debug_mode_enabled c bento_deployment
                  then from_string container_port_name_http_proxy
                  else from_string c.bento_container_port_name);
            protocol = "TCP";
          }))
unfolding ingress_of service_of service_option find_first
    check_if_contains_stealing_traffic_debug_mode_enabled
ingress_of-service_of c texts bento_deployment bento internal_host org_name config =
    (_, refl, refl, refl, simp (eq_refl))
