-- ===== src/Controllers/Ingress.antt =====
-- controllers/handleIngress.go: the Ingress of the API server.
pub mod Frame
pub mod Sync
pub mod Component
pub mod Route
use yatai_deployment.Base.{
  ℕ, String, Option, none, some, List, [], ◌∷◌, Bool, true, false, ◌||◌, Result, ok, panic,
  wrap_err, bind, ◌==◌, ◌<>◌, if◌then◌else◌, trim_space,
}
use yatai_deployment.Base.Effect.{
  World, Exec, pure, lift, call, wrap_exec, emit, or_warn, normal, IngressConfig, ◌>>=◌, ◌>>◌,
}
use yatai_deployment.Base.Dict.{Dict, insert, merge, entries, read}
use yatai_deployment.Api.Consts.{Consts}
use yatai_deployment.Api.Kube.{ObjectMeta}
use yatai_deployment.Api.Resources.{Bento}
use yatai_deployment.Api.Yatai.{OrganizationFullSchema}
use yatai_deployment.Api.V2alpha1.{BentoDeployment, BentoDeploymentIngressTlsSpec}
use yatai_deployment.Conversion.Names.{TextLib}
use yatai_deployment.Controllers.Names.{
  get_kube_name, get_generic_service_name, get_bento_repository_name_and_bento_version,
}
use yatai_deployment.Controllers.Labels.{get_kube_labels, get_kube_annotations}
use yatai_deployment.Controllers.Objects.{
  Kind, object_meta, subject_of, find_object, create_object, update_object,
}

pub record IngressTls : Type 0 where
  pub hosts : List String
  pub secret_name : String

pub record IngressPath : Type 0 where
  pub path : String
  pub path_type : String
  pub service_name : String
  pub service_port_name : String

pub record IngressRule : Type 0 where
  pub host : String
  pub paths : List IngressPath

-- `networkingv1.Ingress`
pub record Ingress : Type 0 where
  pub meta : ObjectMeta
  pub ingress_class_name : Option String
  pub tls : List IngressTls
  pub rules : List IngressRule

-- The calls of the libraries that read the cluster's settings, and JSON.
pub record IngressLib (S : Type 0) : Type 0 where
  pub new_for_config : S → Result (Unit {0}) × S
  pub get_domain_suffix : S → Result String × S
  pub get_network_config_config_map : S → Result (Option (Dict String)) × S
  pub unmarshal : String → Result (Dict String)

-- The name of the organization, given the call of the Yatai client, if there is a client.
unfoldable pub organization : {S : Type 0} → Option (Exec S OrganizationFullSchema) → Exec S String
unfolding emit or_warn
organization none = pure "unknown"
organization (some get_organization) = do
  emit normal "GetOrganization" ""
  organization ← or_warn "GetOrganization" "" get_organization
  pure organization.name

module _ {S : Type 0} (lib : IngressLib S) where
  remember_suffix : String → Exec S String
  remember_suffix suffix w =
      (ok suffix, record w { caches = record w.caches { domain_suffix = some suffix } })

  read_domain_suffix : Exec S String
  unfolding remember_suffix
  read_domain_suffix = do
    wrap_exec "create kubernetes clientset" (call lib.new_for_config)
    suffix ← wrap_exec "get domain suffix" (call lib.get_domain_suffix)
    remember_suffix suffix

  cached_suffix : Option String → Exec S String
  unfolding read_domain_suffix
  cached_suffix none = read_domain_suffix
  cached_suffix (some suffix) = pure suffix

  unfoldable pub generate_default_hostname : BentoDeployment → Exec S String
  unfolding cached_suffix
  generate_default_hostname bento_deployment w =
      (do
        domain_suffix ← cached_suffix w.caches.domain_suffix
        pure (
            bento_deployment.meta.name
            <> ("-" <> (bento_deployment.meta.namespace <> ("." <> domain_suffix)))))
        w

  unfoldable pub generate_ingress_host : BentoDeployment → Exec S String
  unfolding generate_default_hostname
  generate_ingress_host = generate_default_hostname

  abbrev text_or_nil : String → Option String
  text_or_nil text = if text == "" then none else some text

  abbrev text_or : String → String → String
  text_or text default = if text == "" then default else text

  read_annotations : String → Result (Dict String)
  read_annotations text =
      if text == ""
      then ok []
      else wrap_err "failed to json unmarshal ingress annotations" (lib.unmarshal text)

  module _ (c : Consts) where
    config_of : Option (Dict String) → Result IngressConfig
    unfolding read_annotations trim_space read
    config_of config_map =
        bind
          (read_annotations
            (trim_space (read config_map c.kube_config_map_key_network_config_ingress_annotations)))
          λ annotations. ok (record {
            class_name =
                text_or_nil
                  (trim_space (read config_map c.kube_config_map_key_network_config_ingress_class));
            annotations = annotations;
            path = text_or (trim_space (read config_map "ingress-path")) "/";
            path_type =
                text_or (trim_space (read config_map "ingress-path-type")) "ImplementationSpecific";
          })

    remember_config : IngressConfig → Exec S IngressConfig
    remember_config config w =
        (ok config, record w { caches = record w.caches { ingress_config = some config } })

    read_ingress_config : Exec S IngressConfig
    unfolding config_of remember_config
    read_ingress_config = do
      wrap_exec "create kubernetes clientset" (call lib.new_for_config)
      config_map ← wrap_exec "failed to get configmap" (call lib.get_network_config_config_map)
      config ← lift (config_of config_map)
      remember_config config

    cached_config : Option IngressConfig → Exec S IngressConfig
    unfolding read_ingress_config
    cached_config none = read_ingress_config
    cached_config (some config) = pure config

    unfoldable pub get_ingress_config : Exec S IngressConfig
    unfolding cached_config
    get_ingress_config w = cached_config w.caches.ingress_config w

module _ (c : Consts) (texts : TextLib) where
  abbrev snippet : String → String → String
  snippet org_name tag =
      "\nmore_set_headers \"X-Powered-By: Yatai\";\nmore_set_headers \"X-Yatai-Org-Name: "
      <> (org_name <> ("\";\nmore_set_headers \"X-Yatai-Bento: " <> (tag <> "\";\n")))

  -- The annotations: the component's, those of the program, of the cluster, of the resource.
  ingress_annotations : BentoDeployment → Bento → String → IngressConfig → Dict String
  unfolding get_kube_annotations get_bento_repository_name_and_bento_version merge insert
  ingress_annotations bento_deployment bento org_name config =
      let (repository, version) = get_bento_repository_name_and_bento_version texts bento in
      merge (entries bento_deployment.spec.ingress.annotations) (
        merge config.annotations (
          insert "nginx.ingress.kubernetes.io/ssl-redirect" "false" (
            insert "nginx.ingress.kubernetes.io/configuration-snippet"
              (snippet org_name (repository <> (":" <> version)))
              (get_kube_annotations c texts bento_deployment bento none))))

  tls_of : String → Option BentoDeploymentIngressTlsSpec → List IngressTls
  tls_of host none = []
  tls_of host (some tls) =
      if tls.secret_name == ""
      then []
      else (record { hosts = host ∷ []; secret_name = tls.secret_name }) ∷ []

  -- The Ingress before its controller reference is set.
  unfoldable pub ingress_of : BentoDeployment → Bento → String → String → IngressConfig → Ingress
  unfolding ingress_annotations tls_of get_kube_name get_kube_labels merge get_generic_service_name
  ingress_of bento_deployment bento internal_host org_name config = record {
    meta =
        object_meta (get_kube_name bento_deployment bento none false)
          bento_deployment.meta.namespace
          (merge (entries bento_deployment.spec.ingress.labels)
            (get_kube_labels c texts bento_deployment bento none))
          (ingress_annotations bento_deployment bento org_name config);
    ingress_class_name = config.class_name;
    tls = tls_of internal_host bento_deployment.spec.ingress.tls;
    rules =
        (record {
          host = internal_host;
          paths =
              (record {
                path = config.path;
                path_type = config.path_type;
                service_name = get_generic_service_name texts bento_deployment bento none;
                service_port_name = c.bento_service_port_name;
              })
              ∷ [];
        })
        ∷ [];
  }

-- `ingress.Spec.Rules[0].Host = oldIngress.Spec.Rules[0].Host`
abbrev pub with_host : List IngressRule → Ingress → Result Ingress
with_host [] ingress = panic
with_host (old ∷ _) ingress = elim ingress.rules [
  | [] ↦ panic
  | rule ∷ rules ↦ ok (record ingress { rules = (record rule { host = old.host }) ∷ rules })
]

module _ {S : Type 0} (k : Kind S Ingress) where
  -- One round of the loop over the Ingresses, by what was found.
  save_ingress : Bool → Ingress → Option Ingress → Exec S Bool
  unfolding emit or_warn create_object update_object
  save_ingress enabled ingress none =
      if enabled
      then create_object k ingress
      else (do emit normal "GetIngress" (subject_of (k.key ingress)); pure false)
  save_ingress enabled ingress (some old) =
      if enabled
      then (do kept ← lift (with_host old.rules ingress); update_object k old kept (λ new. new))
      else (do
        let subject = subject_of (k.key ingress)
        emit normal "DeleteIngress" subject
        or_warn "DeleteIngress" subject (call (k.delete ingress))
        emit normal "DeleteIngress" subject
        pure true)

  unfoldable pub sync_ingress : Bool → Ingress → Exec S Bool
  unfolding find_object save_ingress
  sync_ingress enabled ingress = do old ← find_object k ingress; save_ingress enabled ingress old

  sync_ingresses : Bool → List Ingress → Exec S Bool
  unfolding sync_ingress
  sync_ingresses enabled [] = pure false
  sync_ingresses enabled (ingress ∷ ingresses) = do
    first ← sync_ingress enabled ingress
    rest ← sync_ingresses enabled ingresses
    pure (first || rest)

  module _ (lib : IngressLib S) (c : Consts) (texts : TextLib) where
    generated : BentoDeployment → Bento → String → String → IngressConfig → Result Ingress
    unfolding ingress_of
    generated bento_deployment bento internal_host org_name config =
        wrap_err "set ingress controller reference" (
          k.set_controller_reference bento_deployment
            (ingress_of c texts bento_deployment bento internal_host org_name config))

    generate_configured :
        BentoDeployment → Bento → String → String → IngressConfig → Exec S (List Ingress)
    unfolding generated
    generate_configured bento_deployment bento internal_host org_name config = do
      ingress ← lift (generated bento_deployment bento internal_host org_name config)
      pure (ingress ∷ [])

    generate_named : BentoDeployment → Bento → String → String → Exec S (List Ingress)
    unfolding get_ingress_config generate_configured
    generate_named bento_deployment bento internal_host org_name = do
      config ← wrap_exec "get ingress config" (get_ingress_config lib c)
      generate_configured bento_deployment bento internal_host org_name config

    generate_hosted :
        Option (Exec S OrganizationFullSchema)
        → BentoDeployment
        → Bento
        → String
        → Exec S (List Ingress)
    unfolding organization generate_named emit
    generate_hosted yatai bento_deployment bento internal_host = do
      emit normal "GenerateIngressHost" internal_host
      org_name ← organization yatai
      generate_named bento_deployment bento internal_host org_name

    -- `generateIngresses`, whose part after the host is `generate_hosted`.
    unfoldable pub generate_ingresses :
        Option (Exec S OrganizationFullSchema) → BentoDeployment → Bento → Exec S (List Ingress)
    unfolding generate_ingress_host generate_hosted emit or_warn
    generate_ingresses yatai bento_deployment bento = do
      emit normal "GenerateIngressHost" ""
      internal_host ← or_warn "GenerateIngressHost" "" (generate_ingress_host lib bento_deployment)
      generate_hosted yatai bento_deployment bento internal_host

    unfoldable pub create_or_update_ingresses :
        Option (Exec S OrganizationFullSchema) → BentoDeployment → Bento → Exec S Bool
    unfolding generate_ingresses sync_ingresses
    create_or_update_ingresses yatai bento_deployment bento = do
      ingresses ← generate_ingresses yatai bento_deployment bento
      sync_ingresses bento_deployment.spec.ingress.enabled ingresses
