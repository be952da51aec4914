-- ===== src/Controllers/Pods/Serve/Addresses.antt =====
-- The addresses of the runners that an API server is started with, and the runners' Services.
use yatai_deployment.Base.{
  String, length, Option, none, some, List, [], ◌∷◌, Bool, true, false, ok, ◌==◌, not, ◌<>◌, any,
  ◌≡◌, ◌∙◌, refl, ap, subst, arith, eq_iff, eq_refl, find_first, sym, if◌then◌else◌,
}
use yatai_deployment.Base.Dict.{Dict, lookup, lookup-insert, insert, read}
use yatai_deployment.Base.Effect.{World}
use yatai_deployment.Decimal.{decimal}
use yatai_deployment.Api.Consts.{Consts}
use yatai_deployment.Api.Kube.{NamespacedName, Service, ServicePort}
use yatai_deployment.Api.Resources.{BentoRunner}
use yatai_deployment.Conversion.Names.{TextLib}
use yatai_deployment.Controllers.Debug.{
  get_resource_annotations, check_if_is_stealing_traffic_debug_mode_enabled,
}
use yatai_deployment.Controllers.Names.{get_service_name, get_generic_service_name}
use yatai_deployment.Controllers.Objects.{Kind}
use yatai_deployment.Controllers.Objects.Laws.{IsLawful}
use yatai_deployment.Controllers.Service.{
  ServicesOption, target_port, service_of, service_option, has_split_services,
  create_or_update_or_delete_services,
}
use yatai_deployment.Controllers.Service.Sync.{IsServiceKind}
use yatai_deployment.Controllers.Service.Component.{
  Splits, create_or_update_or_delete_services-IsUpToDate,
}
use yatai_deployment.Controllers.Pods.Options.{PodOption}
use yatai_deployment.Controllers.Pods.Serve.{
  runner_is_stealing, runner_service_name, runner_address, runner_map, add_addresses,
}

lookup-add_addresses :
    (j : String) (address : String → String) (runners : List BentoRunner) (addresses : Dict String)
    → lookup j (add_addresses address runners addresses)
      ≡ (if any (λ runner. runner.name == j) runners then some (address j) else lookup j addresses)
unfolding add_addresses any
lookup-add_addresses j address [] addresses = refl
lookup-add_addresses j address (runner ∷ runners) addresses = ground (
  arith,
  eq_iff runner.name j,
  lookup-add_addresses j address runners (insert runner.name (address runner.name) addresses),
  lookup-insert runner.name j (address runner.name) addresses,
)

if-not : {A : Type 0} (b : Bool) (x y : A) → (if b then x else y) ≡ (if not b then y else x)
if-not true x y = refl
if-not false x y = refl

module _ (c : Consts) (lib : TextLib) (opt : PodOption) where
  -- The options of a runner's Services.
  abbrev pub runner_option : String → ServicesOption
  runner_option name = record {
    bento_deployment = opt.bento_deployment;
    bento = opt.bento;
    runner_name = some name;
  }

  -- The Service of a runner that the API server calls: the generic one from production pods, and from
  -- debug pods the one of the runner's own mode.
  abbrev pub called : String → Service
  called name = service_of c lib (
      service_option c (runner_option name) (not opt.is_stealing_traffic_debug_mode_enabled)
        (runner_is_stealing c lib opt name))

  service_name-called :
      (name : String) → runner_service_name c lib opt name ≡ (called name).meta.name
  unfolding runner_service_name service_of service_option get_service_name get_generic_service_name
  service_name-called name =
      if-not opt.is_stealing_traffic_debug_mode_enabled
        (get_service_name lib opt.bento_deployment opt.bento (some name)
          (runner_is_stealing c lib opt name))
        (get_generic_service_name lib opt.bento_deployment opt.bento (some name))

  url-called :
      (name : String)
      → runner_address c lib opt "tcp://" name
        ≡ "tcp://" <> ((called name).meta.name <> (":" <> decimal c.bento_service_port))
  unfolding runner_address
  url-called name =
      ap (λ service. "tcp://" <> (service <> (":" <> decimal c.bento_service_port)))
        (service_name-called name)

  -- What the map has for a runner of the Bento.
  lookup-runner_map :
      (name : String)
      → any (λ runner. runner.name == name) opt.bento.spec.runners ≡ true
      → lookup name (runner_map c lib opt)
        ≡ some ("tcp://" <> ((called name).meta.name <> (":" <> decimal c.bento_service_port)))
  unfolding runner_map lookup
  lookup-runner_map name present =
      lookup-add_addresses name (runner_address c lib opt "tcp://") opt.bento.spec.runners []
      ∙ (ap (λ x. if x then some (runner_address c lib opt "tcp://" name) else none) present
          ∙ ap some (url-called name))

  -- The map that the API server is started with leads each runner of the Bento to a Service that the
  -- program describes for that runner: to its name, and to the number of its first port that is named
  -- as the port of Bento services is.
  pub runner_map-called :
      (name : String)
      → any (λ runner. runner.name == name) opt.bento.spec.runners ≡ true
      → (port : ServicePort) × (find_first
            (λ port. port.name == c.bento_service_port_name)
            (called name).spec.ports
          ≡ some port)
        × (lookup name (runner_map c lib opt)
            ≡ some ("tcp://" <> ((called name).meta.name <> (":" <> decimal port.port))))
  unfolding service_of
  runner_map-called name present = (
    record {
      name = c.bento_service_port_name;
      port = c.bento_service_port;
      target_port = target_port c (
          service_option c (runner_option name) (not opt.is_stealing_traffic_debug_mode_enabled)
            (runner_is_stealing c lib opt name));
      protocol = "TCP";
    },
    ground (arith, eq_refl c.bento_service_port_name),
    lookup-runner_map name present,
  )

module _ {S : Type 0} (k : Kind S Service) (view : S → NamespacedName → Option Service)
    (Agrees : Service → Service → Type 0) (law : IsLawful k view Agrees)
    (kind : IsServiceKind k Agrees) (c : Consts) (lib : TextLib)
    (sixteen : (t : String) → length (lib.md5_sum t) ≡ 16) (opt : PodOption) where
  -- A runner has Services for its own modes only where it is in stealing-traffic debug mode.
  has_split_services-plain :
      (name : String)
      → ("" == c.kube_label_value_true) ≡ false
      → runner_is_stealing c lib opt name ≡ false
      → has_split_services c (runner_option c lib opt name) ≡ false
  unfolding has_split_services runner_is_stealing get_resource_annotations lookup
      check_if_is_stealing_traffic_debug_mode_enabled read
  has_split_services-plain name apart plain = ground (arith, apart, plain)

  called_key :
      (name : String)
      → k.key (called c lib opt name) ≡ record {
        namespace = opt.bento_deployment.meta.namespace;
        name = (called c lib opt name).meta.name;
      }
  unfolding service_of service_option
  called_key name = kind.key_of (called c lib opt name)

  -- A debug API server is given, for each runner of the Bento that is not itself in stealing-traffic
  -- debug mode, the address of a Service that is not there: once the runner's Services have been
  -- brought up to date, the cluster has no Service of the name that is in the map. The text that
  -- switches a mode on is not empty.
  pub debug_runner-Unreachable :
      (name : String) (w w' : World S) (b : Bool)
      → ("" == c.kube_label_value_true) ≡ false
      → opt.is_stealing_traffic_debug_mode_enabled ≡ true
      → runner_is_stealing c lib opt name ≡ false
      → any (λ runner. runner.name == name) opt.bento.spec.runners ≡ true
      → create_or_update_or_delete_services k c lib (runner_option c lib opt name) w ≡ (ok b, w')
      → (service : String) × (lookup name (runner_map c lib opt)
          ≡ some ("tcp://" <> (service <> (":" <> decimal c.bento_service_port))))
        × (view w'.cluster
              (record { namespace = opt.bento_deployment.meta.namespace; name = service })
            ≡ none)
  debug_runner-Unreachable name w w' b apart debug plain present h =
      let up =
        create_or_update_or_delete_services-IsUpToDate k view Agrees law kind c lib sixteen
          (runner_option c lib opt name) w w' b h in
      let gone =
        subst (Splits k view Agrees law kind c lib sixteen (runner_option c lib opt name) w')
          (has_split_services-plain name apart plain) up.splits in
      (
        (called c lib opt name).meta.name,
        lookup-runner_map c lib opt name present,
        ap (view w'.cluster) (sym (called_key name))
            ∙ (ap
                  (λ generic. view w'.cluster (
                    k.key (
                      service_of c lib (
                        service_option c (runner_option c lib opt name) (not generic)
                          (runner_is_stealing c lib opt name)))))
                  debug
                ∙ gone (runner_is_stealing c lib opt name)),
      )
