-- ===== src/Controllers/Pods/Template/Serves.antt =====
-- The Services of a component find the ports that they name in the component's pods.
use yatai_deployment.Base.{
  String, Option, none, some, List, [], ◌∷◌, ◌++◌, Bool, true, false, ◌==◌, ◌&&◌, not, any, is_some,
  ok, ◌≡◌, refl, ap, ◌∙◌, arith, eq_refl, if◌then◌else◌,
}
use yatai_deployment.Base.Int.{ℤ}
use yatai_deployment.Base.Effect.{World}
use yatai_deployment.Api.Consts.{Consts}
use yatai_deployment.Api.Kube.{
  QuantityLib, ResourceRequirements, ServicePort, IntOrString, from_int, from_string,
}
use yatai_deployment.Api.Pods.{Container, PodTemplateSpec}
use yatai_deployment.Api.Yatai.{Http}
use yatai_deployment.Conversion.Names.{TextLib}
use yatai_deployment.Controllers.Service.{
  service_of, service_option, target_port, container_port_name_http_proxy,
}
use yatai_deployment.Controllers.Pods.Options.{PodOption, PodLib, PodClient}
use yatai_deployment.Controllers.Pods.Proxy.{proxy_container}
use yatai_deployment.Controllers.Pods.Containers.{main_container, own_containers}
use yatai_deployment.Controllers.Pods.Template.{generate_pod_template_spec}
use yatai_deployment.Controllers.Pods.Template.Inversion.{
  Made, generate_pod_template_spec-Made, template-containers,
}

-- Whether some container has a port of a name.
unfoldable pub has_port : String → List Container → Bool
unfolding any
has_port name = any λ container. any (λ port. port.name == name) container.ports

-- Whether the target of a Service's port is a port of the containers, by its name.
abbrev pub provides : List Container → IntOrString → Bool
provides containers (from_int n) = false
provides containers (from_string name) = has_port name containers

-- Whether the targets of all ports are.
unfoldable pub provides_all : List Container → List ServicePort → Bool
unfolding has_port
provides_all containers [] = true
provides_all containers (port ∷ ports) =
    provides containers port.target_port && provides_all containers ports

both : {a b : Bool} → a ≡ true → b ≡ true → (a && b) ≡ true
both h h' = ground (arith, h, h')

provides-target :
    (c : Consts) (containers : List Container) (runner_name : Option String) (proxied : Bool)
    → has_port c.bento_container_port_name containers ≡ true
    → (runner_name ≡ none → has_port container_port_name_http_proxy containers ≡ true)
    → provides containers (
        if not (is_some runner_name) && proxied
        then from_string container_port_name_http_proxy
        else from_string c.bento_container_port_name)
      ≡ true
provides-target c containers none true http proxy = proxy refl
provides-target c containers none false http proxy = http
provides-target c containers (some runner_name) proxied http proxy = http

module _ {S : Type 0} (client : PodClient S) (http : Http S) (c : Consts) (lib : TextLib)
    (quantities : QuantityLib) (pods : PodLib) (opt : PodOption) where
  -- The container port of the main container is a port of the pod.
  provides-http :
      (template : PodTemplateSpec)
      → Made client http c lib quantities pods opt template
      → has_port c.bento_container_port_name template.spec.containers ≡ true
  unfolding has_port own_containers main_container
  provides-http template made =
      ap (λ containers. has_port c.bento_container_port_name containers)
        (template-containers client http c lib quantities pods opt template made).1
      ∙ ground (arith, eq_refl c.bento_container_port_name)

  -- The proxy's port is a port of the API server's pod.
  proxied :
      (main : Container) (port : ℤ) (proxy : Option ResourceRequirements) (more : List Container)
      → is_some proxy ≡ true
      → has_port container_port_name_http_proxy
          (own_containers c lib quantities pods opt main port proxy ++ more)
        ≡ true
  unfolding has_port own_containers proxy_container
  proxied main port none more h = ground (arith, h)
  proxied main port (some resources) more h = ground arith

  provides-http_proxy :
      (template : PodTemplateSpec)
      → Made client http c lib quantities pods opt template
      → opt.runner_name ≡ none
      → has_port container_port_name_http_proxy template.spec.containers ≡ true
  provides-http_proxy template made api_server =
      let (more, e) = template-containers client http c lib quantities pods opt template made in
      ap (λ containers. has_port container_port_name_http_proxy containers) e
      ∙ proxied _ _ made.proxy more (made.has_proxy ∙ ap (λ name. not (is_some name)) api_server)

  -- A Service of a component asks for ports of the component's pods: each target port of each of the
  -- Services (generic or not, debug or not) is by its name the port of a container in a pod template
  -- that was generated for the component.
  pub template-provides :
      (w w' : World S) (template : PodTemplateSpec) (is_generic is_stealing : Bool)
      → generate_pod_template_spec c lib quantities pods opt client http w ≡ (ok template, w')
      → provides_all template.spec.containers
          (service_of c lib (
            service_option c
              (record {
                bento_deployment = opt.bento_deployment;
                bento = opt.bento;
                runner_name = opt.runner_name;
              })
              is_generic
              is_stealing)).spec.ports
        ≡ true
  unfolding provides_all service_of service_option target_port
  template-provides w w' template is_generic is_stealing h =
      let made =
        generate_pod_template_spec-Made client http c lib quantities pods opt w w' template h in
      let http_port = provides-http template made in
      let option =
        service_option c
          (record {
            bento_deployment = opt.bento_deployment;
            bento = opt.bento;
            runner_name = opt.runner_name;
          })
          is_generic is_stealing in
      let target =
        provides-target c template.spec.containers opt.runner_name
          (option.is_generic_service && option.contains_stealing_traffic_debug_mode_enabled)
          http_port (provides-http_proxy template made) in
      both target (both http_port refl)
