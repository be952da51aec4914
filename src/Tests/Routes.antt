-- ===== src/Tests/Routes.antt =====
-- The Ingress of the API server, in an empty cluster and in one where it is.
use yatai_deployment.Base.{
  Option, none, some, [], ◌∷◌, true, false, ok, ◌==◌, ◌≡◌, refl, ap, find_first,
}
use yatai_deployment.Base.Effect.{Exec, World, IngressConfig}
use yatai_deployment.Api.Yatai.{OrganizationFullSchema}
use yatai_deployment.Base.Dict.{lookup}
use yatai_deployment.Api.Kube.{NamespacedName, from_string}
use yatai_deployment.Controllers.Objects.{Kind}
use yatai_deployment.Controllers.Objects.Laws.{IsLawful}
use yatai_deployment.Controllers.Debug.{check_if_contains_stealing_traffic_debug_mode_enabled}
use yatai_deployment.Controllers.Service.{ServicesOption, service_of, service_option}
use yatai_deployment.Controllers.Ingress.{
  Ingress, IngressPath, IngressLib, ingress_of, create_or_update_ingresses,
}
use yatai_deployment.Controllers.Ingress.Route.{ingress_of-service_of}
use yatai_deployment.Controllers.Ingress.Sync.{first_host, IsIngressKind, IsSynced}
use yatai_deployment.Controllers.Ingress.Component.{
  ReadsOnly, Generated, create_or_update_ingresses-IsSynced,
}
use yatai_deployment.Tests.Fixtures.{consts, texts, bento, deployment, world}
use yatai_deployment.Tests.Store.{Store, view, store_kind, store_kind-IsLawful, get_found}

abbrev key_of : Ingress → NamespacedName
key_of a = record { namespace = a.meta.namespace; name = a.meta.name }

-- An Ingress is as described in its rules and its TLS.
abbrev Agrees : Ingress → Ingress → Type 0
Agrees a b = (a.rules ≡ b.rules) × (a.tls ≡ b.tls)

abbrev refer : Ingress → Ingress
refer a = record a { meta = record a.meta { owner_references = "iris" ∷ [] } }

abbrev ingresses : Kind (Store Ingress) Ingress
ingresses = store_kind key_of "Ingress" (λ a. a) refer

lawful : IsLawful ingresses (view key_of) Agrees
lawful =
    store_kind-IsLawful key_of "Ingress" (λ a. a) refer Agrees (λ a. (refl, (refl, refl)))
      (λ a. (refl, λ stored agrees. agrees))

get_host :
    (key : NamespacedName) (s : Store Ingress) (a there : Ingress)
    → (ingresses.get key s).0 ≡ ok a
    → view key_of s key ≡ some there
    → first_host a.rules ≡ first_host there.rules
get_host key s a there h shows =
    let shown : view key_of s key ≡ some a = get_found key_of key s a h in
    let same : a ≡ there = cc shows in ap (λ x. first_host x.rules) same

ingress_kind : IsIngressKind ingresses (view key_of)
ingress_kind = record { key_of = λ a. refl; get_host = get_host }

-- A cluster whose configuration names a class of Ingresses.
abbrev lib : IngressLib (Store Ingress)
lib = record {
  new_for_config = λ s. (ok tt, s);
  get_domain_suffix = λ s. (ok "example.com", s);
  get_network_config_config_map = λ s. (ok (some (("ingress-class", "nginx") ∷ [])), s);
  unmarshal = λ text. ok [];
}

reads_only : ReadsOnly ingresses (view key_of) Agrees lawful ingress_kind lib
reads_only = record {
  new_for_config = λ s j. refl;
  get_domain_suffix = λ s j. refl;
  get_network_config_config_map = λ s j. refl;
}

-- The Yatai server answers with an organization.
abbrev yatai : Option (Exec (Store Ingress) OrganizationFullSchema)
yatai = some λ w. (ok (record { uid = "1"; name = "default" }), w)

abbrev before : World (Store Ingress)
before = world (λ _. none)

abbrev after : World (Store Ingress)
after = (create_or_update_ingresses ingresses lib consts texts yatai deployment bento before).1

create_or_update_ingresses-IsSynced_example :
    (ingress : Ingress) × Generated ingresses
      (view key_of)
      Agrees
      lawful
      ingress_kind
      lib
      reads_only
      yatai
      (λ w j. refl)
      consts
      texts
      deployment
      bento
      before
      ingress
    × IsSynced ingresses (view key_of) Agrees lawful ingress_kind true ingress before after
unfolding create_or_update_ingresses lookup
create_or_update_ingresses-IsSynced_example =
    create_or_update_ingresses-IsSynced ingresses (view key_of) Agrees lawful ingress_kind lib
      reads_only yatai (λ w j. refl) consts texts deployment bento before after true refl

abbrev config : IngressConfig
config = record {
  class_name = some "nginx";
  annotations = [];
  path = "/";
  path_type = "ImplementationSpecific";
}

abbrev ingress : Ingress
ingress = ingress_of consts texts deployment bento "other.example.com" "default" config

ingress_of-service_of_example :
    let opt : ServicesOption = record {
      bento_deployment = deployment;
      bento = bento;
      runner_name = none;
    } in
    let service = service_of consts texts (service_option consts opt true false) in
    (path : IngressPath) × (ingress.rules
      ≡ (record { host = "other.example.com"; paths = path ∷ [] }) ∷ [])
    × (path.service_name ≡ service.meta.name)
    × (ingress.meta.namespace ≡ service.meta.namespace)
    × (find_first (λ port. port.name == path.service_port_name) service.spec.ports
        ≡ some (record {
          name = "http";
          port = 3000;
          target_port = from_string "http-proxy";
          protocol = "TCP";
        }))
unfolding check_if_contains_stealing_traffic_debug_mode_enabled lookup
ingress_of-service_of_example =
    ingress_of-service_of consts texts deployment bento "other.example.com" "default" config
