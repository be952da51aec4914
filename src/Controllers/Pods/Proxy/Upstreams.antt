-- ===== src/Controllers/Pods/Proxy/Upstreams.antt =====
-- Where the proxy of an API server's pod sends requests.
use yatai_deployment.Base.{String, none, [], ◌∷◌, Bool, true, false, not, ◌<>◌, ◌≡◌, refl, sym, ap}
use yatai_deployment.Base.Int.{ℤ, pos, int32}
use yatai_deployment.Envoy.{CreateEnvoyConfig}
use yatai_deployment.Api.Consts.{Consts}
use yatai_deployment.Api.Kube.{ServicePort, from_string, Service, ResourceRequirements}
use yatai_deployment.Conversion.Names.{TextLib}
use yatai_deployment.Controllers.Names.{get_service_name}
use yatai_deployment.Controllers.Service.{
  container_port_name_http_proxy, ServicesOption, service_of, service_option,
}
use yatai_deployment.Controllers.Pods.Options.{PodOption, PodLib}
use yatai_deployment.Controllers.Pods.Sidecars.{tcp_port, proxy_port}
use yatai_deployment.Controllers.Pods.Proxy.{envoy_for, envoy_config, proxy_container}

-- The server for requests with the debug header (`true`) or without.
abbrev pub server : CreateEnvoyConfig → Bool → String × ℤ
server config true = (config.debug_server_address, config.debug_server_port)
server config false = (config.production_server_address, config.production_server_port)

module _ (c : Consts) (lib : TextLib) (opt : PodOption) where
  abbrev api_server : ServicesOption
  api_server = record {
    bento_deployment = opt.bento_deployment;
    bento = opt.bento;
    runner_name = none;
  }

  -- The API server's Service for its production or its debug pods.
  abbrev pub split : Bool → Service
  split debug = service_of c lib (service_option c api_server false debug)

  -- A request for a mode's pods reaches the main container of such a pod, by this server: in the pod
  -- itself, or through a port of the mode's Service that leads to the main container, not to a proxy.
  abbrev pub Reaches : Bool → Bool → ℤ → String × ℤ → Type 0
  Reaches true debug port server = server ≡ ("localhost", port)
  Reaches false debug port (address, number) =
      (address
        ≡ (split debug).meta.name
          <> ("." <> ((split debug).meta.namespace <> ".svc.cluster.local")))
      × ((first last : ServicePort) × ((split debug).spec.ports ≡ first ∷ last ∷ [])
          × (number ≡ pos last.port)
          × (last.target_port ≡ from_string c.bento_container_port_name))

  abbrev same : Bool → Bool → Bool
  same true b = b
  same false b = not b

  envoy_for-Reaches :
      (stealing debug : Bool) (port : ℤ)
      → Reaches (same stealing debug) debug port (server (envoy_for c lib opt stealing port) debug)
  unfolding envoy_for service_of service_option get_service_name
  envoy_for-Reaches true true port = refl
  envoy_for-Reaches false false port = refl
  envoy_for-Reaches true false port = (refl, (_, _, refl, refl, refl))
  envoy_for-Reaches false true port = (refl, (_, _, refl, refl, refl))

  envoy_for-same :
      (stealing : Bool) (port : ℤ)
      → let config = envoy_for c lib opt stealing port in
        (config.listen_port ≡ proxy_port c) × (config.debug_header_value ≡ c.kube_label_value_true)
  unfolding envoy_for
  envoy_for-same true port = (refl, refl)
  envoy_for-same false port = (refl, refl)

  -- The proxy of an API server's pod listens at the port that the proxy container declares, and sends
  -- requests with the debug header to the main container of a debug pod and all others to that of a
  -- production pod: to its own main container, or by the other mode's Service, past the other's proxy.
  -- The header's value is the text that switches an annotation on.
  pub envoy_config-Reaches :
      (pods : PodLib) (resources : ResourceRequirements) (port : ℤ) (debug : Bool)
      → let config = envoy_config c lib opt port in
        Reaches
          (same opt.is_stealing_traffic_debug_mode_enabled debug)
          debug
          port
          (server config debug)
        × ((proxy_container c pods resources).ports
            ≡ tcp_port container_port_name_http_proxy (int32 (pos config.listen_port)) ∷ [])
        × (config.debug_header_value ≡ c.kube_label_value_true)
  unfolding envoy_config proxy_container
  envoy_config-Reaches pods resources port debug =
      let stealing = opt.is_stealing_traffic_debug_mode_enabled in
      let (listens, header) = envoy_for-same stealing port in
      (
        envoy_for-Reaches stealing debug port,
        ap (λ n. tcp_port container_port_name_http_proxy (int32 (pos n)) ∷ []) (sym listens),
        header,
      )
