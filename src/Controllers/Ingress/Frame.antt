-- ===== src/Controllers/Ingress/Frame.antt =====
-- What making an Ingress leaves as it is: everything that the calls for settings leave.
use yatai_deployment.Base.{String, Option, none, some, List, [], ◌∷◌, Bool, false}
use yatai_deployment.Base.Effect.{
  Exec, IngressConfig, lift, call, emit, normal, pure, wrap_exec, or_warn, ◌>>=◌, ◌>>◌,
}
use yatai_deployment.Base.Effect.Keeps.{Keeps, >>=-Keeps, if-Keeps}
use yatai_deployment.Api.Consts.{Consts}
use yatai_deployment.Api.Resources.{Bento}
use yatai_deployment.Api.Yatai.{OrganizationFullSchema}
use yatai_deployment.Api.V2alpha1.{BentoDeployment}
use yatai_deployment.Conversion.Names.{TextLib}
use yatai_deployment.Controllers.Objects.{
  Kind, subject_of, find_object, create_object, update_object,
}
use yatai_deployment.Controllers.Objects.Frame.{
  Of, Preserves, after_event-Keeps, or_warn-Keeps, written-Keeps, find_object-Keeps,
  create_object-Keeps, update_object-Keeps,
}
use yatai_deployment.Controllers.Ingress.{
  Ingress, IngressLib, with_host, save_ingress, sync_ingress, sync_ingresses, organization,
  generate_default_hostname, generate_ingress_host, read_domain_suffix, cached_suffix,
  remember_suffix, get_ingress_config, config_of, remember_config, cached_config,
  read_ingress_config, generate_ingresses, generated, generate_configured, generate_named,
  generate_hosted, create_or_update_ingresses,
}

-- The calls that read settings keep a property of the cluster.
pub record SettingsPreserve {S : Type 0} (P : S → Type 0) (lib : IngressLib S) : Type 0 where
  pub new_for_config : (s : S) → P s → P (lib.new_for_config s).1
  pub get_domain_suffix : (s : S) → P s → P (lib.get_domain_suffix s).1
  pub get_network_config_config_map : (s : S) → P s → P (lib.get_network_config_config_map s).1

-- So does the call of the Yatai client, if there is a client.
abbrev pub AskKeeps : {S : Type 0} → (S → Type 0) → Option (Exec S OrganizationFullSchema) → Type 0
AskKeeps P none = Unit
AskKeeps P (some get_organization) = Keeps (Of P) get_organization

module _ {S : Type 0} (P : S → Type 0) (k : Kind S Ingress) (lib : IngressLib S)
    (settings : SettingsPreserve P lib) (c : Consts) (texts : TextLib) where
  read_suffix-Keeps : Keeps (Of P) (read_domain_suffix lib)
  unfolding read_domain_suffix
  read_suffix-Keeps =
      >>=-Keeps (Of P) (wrap_exec _ (call lib.new_for_config)) _
        (λ w h. settings.new_for_config w.cluster h)
        λ _.
          >>=-Keeps (Of P) (wrap_exec _ (call lib.get_domain_suffix)) (remember_suffix lib)
            (λ w h. settings.get_domain_suffix w.cluster h) λ _ w h. h

  cached_suffix-Keeps : (cached : Option String) → Keeps (Of P) (cached_suffix lib cached)
  unfolding cached_suffix
  cached_suffix-Keeps none = read_suffix-Keeps
  cached_suffix-Keeps (some suffix) = λ w h. h

  host-Keeps :
      (bento_deployment : BentoDeployment)
      → Keeps (Of P) (generate_ingress_host lib bento_deployment)
  unfolding generate_ingress_host generate_default_hostname
  host-Keeps bento_deployment w h =
      >>=-Keeps (Of P) (cached_suffix lib w.caches.domain_suffix) _
        (cached_suffix-Keeps w.caches.domain_suffix) (λ _ w h. h) w h

  read_config-Keeps : Keeps (Of P) (read_ingress_config lib c)
  unfolding read_ingress_config
  read_config-Keeps =
      >>=-Keeps (Of P) (wrap_exec _ (call lib.new_for_config)) _
        (λ w h. settings.new_for_config w.cluster h)
        λ _.
          >>=-Keeps (Of P) (wrap_exec _ (call lib.get_network_config_config_map)) _
            (λ w h. settings.get_network_config_config_map w.cluster h)
            λ config_map.
              >>=-Keeps (Of P) (lift (config_of lib c config_map)) (remember_config lib c)
                (λ w h. h) λ _ w h. h

  cached_config-Keeps : (cached : Option IngressConfig) → Keeps (Of P) (cached_config lib c cached)
  unfolding cached_config
  cached_config-Keeps none = read_config-Keeps
  cached_config-Keeps (some config) = λ w h. h

  config-Keeps : Keeps (Of P) (get_ingress_config lib c)
  unfolding get_ingress_config
  config-Keeps w h = cached_config-Keeps w.caches.ingress_config w h

  organization-Keeps :
      (yatai : Option (Exec S OrganizationFullSchema))
      → AskKeeps P yatai
      → Keeps (Of P) (organization yatai)
  unfolding organization
  organization-Keeps none asks = λ w h. h
  organization-Keeps (some get_organization) asks =
      after_event-Keeps P normal "GetOrganization" ""
        (or_warn "GetOrganization" "" get_organization
          >>= λ (organization : OrganizationFullSchema). pure organization.name)
        (>>=-Keeps (Of P) (or_warn "GetOrganization" "" get_organization)
          (λ (organization : OrganizationFullSchema). pure organization.name)
          (or_warn-Keeps P "GetOrganization" "" get_organization asks) λ organization w h. h)

  named-Keeps :
      (bento_deployment : BentoDeployment) (bento : Bento) (internal_host org_name : String)
      → Keeps (Of P) (generate_named k lib c texts bento_deployment bento internal_host org_name)
  unfolding generate_named generate_configured
  named-Keeps bento_deployment bento internal_host org_name =
      >>=-Keeps (Of P) (wrap_exec "get ingress config" (get_ingress_config lib c)) _ config-Keeps
        λ config.
          >>=-Keeps (Of P)
            (lift (generated k lib c texts bento_deployment bento internal_host org_name config)) _
            (λ w h. h) λ _ w h. h

  hosted-Keeps :
      (yatai : Option (Exec S OrganizationFullSchema)) (asks : AskKeeps P yatai)
      (bento_deployment : BentoDeployment) (bento : Bento) (internal_host : String)
      → Keeps (Of P) (generate_hosted k lib c texts yatai bento_deployment bento internal_host)
  unfolding generate_hosted
  hosted-Keeps yatai asks bento_deployment bento internal_host =
      after_event-Keeps P normal "GenerateIngressHost" internal_host
        (organization yatai >>= generate_named k lib c texts bento_deployment bento internal_host)
        (>>=-Keeps (Of P) (organization yatai)
          (generate_named k lib c texts bento_deployment bento internal_host)
          (organization-Keeps yatai asks) (named-Keeps bento_deployment bento internal_host))

  -- Making the Ingress keeps what the calls for settings keep.
  pub generate_ingresses-Keeps :
      (yatai : Option (Exec S OrganizationFullSchema)) (asks : AskKeeps P yatai)
      (bento_deployment : BentoDeployment) (bento : Bento)
      → Keeps (Of P) (generate_ingresses k lib c texts yatai bento_deployment bento)
  unfolding generate_ingresses
  generate_ingresses-Keeps yatai asks bento_deployment bento =
      after_event-Keeps P normal "GenerateIngressHost" ""
        (or_warn "GenerateIngressHost" "" (generate_ingress_host lib bento_deployment)
          >>= generate_hosted k lib c texts yatai bento_deployment bento)
        (>>=-Keeps (Of P)
          (or_warn "GenerateIngressHost" "" (generate_ingress_host lib bento_deployment))
          (generate_hosted k lib c texts yatai bento_deployment bento)
          (or_warn-Keeps P "GenerateIngressHost" "" (generate_ingress_host lib bento_deployment)
            (host-Keeps bento_deployment))
          (hosted-Keeps yatai asks bento_deployment bento))

  module _ (preserves : Preserves P k) where
    save_ingress-Keeps :
        (enabled : Bool) (ingress : Ingress) (old : Option Ingress)
        → Keeps (Of P) (save_ingress k enabled ingress old)
    unfolding save_ingress
    save_ingress-Keeps enabled ingress none =
        let subject = subject_of (k.key ingress) in
        if-Keeps (Of P) enabled (create_object k ingress)
          (emit normal "GetIngress" subject >> pure false)
          (create_object-Keeps P k preserves ingress)
          (after_event-Keeps P normal "GetIngress" subject (pure false) λ w h. h)
    save_ingress-Keeps enabled ingress (some old) =
        if-Keeps (Of P) enabled
          (lift (with_host old.rules ingress) >>= λ kept. update_object k old kept (λ new. new)) _
          (>>=-Keeps (Of P) (lift (with_host old.rules ingress)) _ (λ w h. h)
            λ kept. update_object-Keeps P k preserves old kept (λ new. new))
          (written-Keeps P "DeleteIngress" (subject_of (k.key ingress)) (call (k.delete ingress))
            λ w h. preserves.delete ingress w.cluster h)

    sync_ingress-Keeps :
        (enabled : Bool) (ingress : Ingress) → Keeps (Of P) (sync_ingress k enabled ingress)
    unfolding sync_ingress
    sync_ingress-Keeps enabled ingress =
        >>=-Keeps (Of P) (find_object k ingress) _ (find_object-Keeps P k preserves ingress)
          (save_ingress-Keeps enabled ingress)

    sync_ingresses-Keeps :
        (enabled : Bool) (ingresses : List Ingress)
        → Keeps (Of P) (sync_ingresses k enabled ingresses)
    unfolding sync_ingresses
    sync_ingresses-Keeps enabled [] = λ w h. h
    sync_ingresses-Keeps enabled (ingress ∷ ingresses) =
        >>=-Keeps (Of P) (sync_ingress k enabled ingress) _ (sync_ingress-Keeps enabled ingress)
          λ first.
            >>=-Keeps (Of P) (sync_ingresses k enabled ingresses) _
              (sync_ingresses-Keeps enabled ingresses) λ _ w h. h

    -- The method keeps what its calls keep.
    pub create_or_update_ingresses-Keeps :
        (yatai : Option (Exec S OrganizationFullSchema)) (asks : AskKeeps P yatai)
        (bento_deployment : BentoDeployment) (bento : Bento)
        → Keeps (Of P) (create_or_update_ingresses k lib c texts yatai bento_deployment bento)
    unfolding create_or_update_ingresses
    create_or_update_ingresses-Keeps yatai asks bento_deployment bento =
        >>=-Keeps (Of P) (generate_ingresses k lib c texts yatai bento_deployment bento) _
          (generate_ingresses-Keeps yatai asks bento_deployment bento)
          (sync_ingresses-Keeps bento_deployment.spec.ingress.enabled)
