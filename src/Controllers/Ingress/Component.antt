-- ===== src/Controllers/Ingress/Component.antt =====
-- `createOrUpdateIngresses`: the Ingress in the cluster after the method has returned.
use yatai_deployment.Base.{
  String, Option, none, some, List, [], ◌∷◌, Bool, ok, ◌≡◌, ◌∙◌, refl, sym, ap, subst,
}
use yatai_deployment.Base.Effect.{
  World, ok-injective, wrap_err-eq-ok, or_warn-eq-ok, Exec, IngressConfig, lift, emit, normal, pure,
  wrap_exec, or_warn, >>=-eq-ok,
}
use yatai_deployment.Api.Consts.{Consts}
use yatai_deployment.Api.Kube.{NamespacedName}
use yatai_deployment.Api.Resources.{Bento}
use yatai_deployment.Api.Yatai.{OrganizationFullSchema}
use yatai_deployment.Api.V2alpha1.{BentoDeployment}
use yatai_deployment.Conversion.Names.{TextLib}
use yatai_deployment.Controllers.Objects.{Kind}
use yatai_deployment.Controllers.Objects.Laws.{IsLawful}
use yatai_deployment.Controllers.Ingress.{
  Ingress, IngressLib, sync_ingress, sync_ingresses, organization, generate_ingress_host,
  get_ingress_config, generate_ingresses, generated, generate_configured, generate_named,
  generate_hosted, ingress_of, create_or_update_ingresses,
}
use yatai_deployment.Controllers.Ingress.Frame.{
  AskKeeps, SettingsPreserve, generate_ingresses-Keeps,
}
use yatai_deployment.Controllers.Ingress.Sync.{
  IsIngressKind, IsSynced, IsSynced-after, sync_ingress-IsSynced,
}

module _ {S : Type 0} (k : Kind S Ingress) (view : S → NamespacedName → Option Ingress)
    (Agrees : Ingress → Ingress → Type 0) (law : IsLawful k view Agrees)
    (kind : IsIngressKind k view) where
  -- The calls that read settings leave the Ingresses of the cluster alone.
  pub record ReadsOnly (lib : IngressLib S) : Type 0 where
    pub new_for_config : (s : S) (j : NamespacedName) → view (lib.new_for_config s).1 j ≡ view s j
    pub get_domain_suffix :
        (s : S) (j : NamespacedName) → view (lib.get_domain_suffix s).1 j ≡ view s j
    pub get_network_config_config_map :
        (s : S) (j : NamespacedName) → view (lib.get_network_config_config_map s).1 j ≡ view s j

  -- So does the call of the Yatai client, if there is a client.
  abbrev pub AsksOnly : Option (Exec S OrganizationFullSchema) → Type 0
  AsksOnly none = Unit
  AsksOnly (some get_organization) =
      (w : World S) (j : NamespacedName) → view (get_organization w).1.cluster j ≡ view w.cluster j

  asks-Keeps :
      (yatai : Option (Exec S OrganizationFullSchema)) (asks : AsksOnly yatai) (s : S)
      (j : NamespacedName)
      → AskKeeps (λ s'. view s' j ≡ view s j) yatai
  asks-Keeps none asks s j = tt
  asks-Keeps (some get_organization) asks s j = λ w h. asks w j ∙ h

  module _ (lib : IngressLib S) (reads : ReadsOnly lib)
      (yatai : Option (Exec S OrganizationFullSchema)) (asks : AsksOnly yatai) (c : Consts)
      (texts : TextLib) where
    settings :
        (w : World S) (j : NamespacedName) → SettingsPreserve (λ s. view s j ≡ view w.cluster j) lib
    settings w j = record {
      new_for_config = λ s h. reads.new_for_config s j ∙ h;
      get_domain_suffix = λ s h. reads.get_domain_suffix s j ∙ h;
      get_network_config_config_map = λ s h. reads.get_network_config_config_map s j ∙ h;
    }

    -- The worlds of a run that starts in `w`: where the host is asked for, where the organization is, and
    -- where the configuration is.
    abbrev pub hosting : World S → World S
    hosting w = (emit normal "GenerateIngressHost" "" w).1

    abbrev pub naming : BentoDeployment → String → World S → World S
    naming bento_deployment internal_host w =
        (emit normal "GenerateIngressHost" internal_host
          (generate_ingress_host lib bento_deployment (hosting w)).1).1

    -- The one Ingress that was generated, from this run's answers for the host, the organization and the
    -- configuration.
    abbrev pub Generated : BentoDeployment → Bento → World S → Ingress → Type 0
    Generated bento_deployment bento w ingress =
        (internal_host : String) × (org_name : String) × (config : IngressConfig)
        × ((generate_ingress_host lib bento_deployment (hosting w)).0 ≡ ok internal_host)
        × ((organization yatai (naming bento_deployment internal_host w)).0 ≡ ok org_name)
        × ((get_ingress_config lib c
              (organization yatai (naming bento_deployment internal_host w)).1).0
            ≡ ok config)
        × (k.set_controller_reference bento_deployment
              (ingress_of c texts bento_deployment bento internal_host org_name config)
            ≡ ok ingress)

    generate_hosted-eq-ok :
        (bento_deployment : BentoDeployment) (bento : Bento) (internal_host : String)
        (w w' : World S) (ingresses : List Ingress)
        → (generate_ingress_host lib bento_deployment (hosting w)).0 ≡ ok internal_host
        → generate_hosted k lib c texts yatai bento_deployment bento internal_host
            (generate_ingress_host lib bento_deployment (hosting w)).1
          ≡ (ok ingresses, w')
        → (ingress : Ingress) × Generated bento_deployment bento w ingress
          × (ingresses ≡ ingress ∷ [])
    unfolding generate_hosted generate_named generate_configured generated emit
    generate_hosted-eq-ok bento_deployment bento internal_host w w' ingresses e0 h =
        let w1 = naming bento_deployment internal_host w in
        let (org_name, e1, h2) =
          >>=-eq-ok (organization yatai)
            (generate_named k lib c texts bento_deployment bento internal_host) w1 h in
        let (config, e2, h3) =
          >>=-eq-ok (wrap_exec "get ingress config" (get_ingress_config lib c))
            (generate_configured k lib c texts bento_deployment bento internal_host org_name)
            (organization yatai w1).1 h2 in
        let (ingress, e, h4) =
          >>=-eq-ok
            (lift (generated k lib c texts bento_deployment bento internal_host org_name config))
            (λ ingress. pure (ingress ∷ [])) _ h3 in
        (
          ingress,
          (
            internal_host,
            org_name,
            config,
            e0,
            e1,
            wrap_err-eq-ok "get ingress config" _ e2,
            wrap_err-eq-ok "set ingress controller reference" _ e,
          ),
          sym (ok-injective (ap (λ p. p.0) h4)),
        )

    generate_ingresses-eq-ok :
        (bento_deployment : BentoDeployment) (bento : Bento) (w w' : World S)
        (ingresses : List Ingress)
        → generate_ingresses k lib c texts yatai bento_deployment bento w ≡ (ok ingresses, w')
        → (ingress : Ingress) × Generated bento_deployment bento w ingress
          × (ingresses ≡ ingress ∷ [])
    unfolding generate_ingresses emit
    generate_ingresses-eq-ok bento_deployment bento w w' ingresses h =
        let host = generate_ingress_host lib bento_deployment in
        let hosted = generate_hosted k lib c texts yatai bento_deployment bento in
        let (internal_host, e, more) =
          >>=-eq-ok (or_warn "GenerateIngressHost" "" host) hosted (hosting w) h in
        let (found, same) = or_warn-eq-ok "GenerateIngressHost" "" host (hosting w) e in
        generate_hosted-eq-ok bento_deployment bento internal_host w w' ingresses found
          (ap (hosted internal_host) (sym same) ∙ more)

    sync_one :
        (enabled : Bool) (ingress : Ingress) (w w' : World S) (b : Bool)
        → sync_ingresses k enabled (ingress ∷ []) w ≡ (ok b, w')
        → IsSynced k view Agrees law kind enabled ingress w w'
    unfolding sync_ingresses
    sync_one enabled ingress w w' b h =
        let first = sync_ingress k enabled ingress in
        let (b1, e, more) = >>=-eq-ok first _ w h in
        subst (IsSynced k view Agrees law kind enabled ingress w) (ap (λ p. p.1) more) (
          sync_ingress-IsSynced k view Agrees law kind enabled ingress w (first w).1 b1
            (λ i. (e i, (first w).1)))

    -- When the method has returned, the Ingress that was generated for the resource, from the host, the
    -- organization and the configuration that this run has read, is in the cluster if the resource has
    -- Ingresses enabled, with the host that it had there before, if it was there; and it is not in the
    -- cluster if they are disabled. Every other Ingress is as before. This is provided that a read of an
    -- Ingress returns the host of its first rule, and that the calls for settings and of the Yatai
    -- server leave the Ingresses alone.
    pub create_or_update_ingresses-IsSynced :
        (bento_deployment : BentoDeployment) (bento : Bento) (w w' : World S) (b : Bool)
        → create_or_update_ingresses k lib c texts yatai bento_deployment bento w ≡ (ok b, w')
        → (ingress : Ingress) × Generated bento_deployment bento w ingress
          × IsSynced k view Agrees law kind bento_deployment.spec.ingress.enabled ingress w w'
    unfolding create_or_update_ingresses
    create_or_update_ingresses-IsSynced bento_deployment bento w w' b h =
        let generate = generate_ingresses k lib c texts yatai bento_deployment bento in
        let enabled = bento_deployment.spec.ingress.enabled in
        let (ingresses, e, more) = >>=-eq-ok generate (sync_ingresses k enabled) w h in
        let w1 = (generate w).1 in
        let (ingress, made, one) =
          generate_ingresses-eq-ok bento_deployment bento w w1 ingresses (λ i. (e i, w1)) in
        (
          ingress,
          made,
          IsSynced-after k view Agrees law kind enabled ingress w w1 w'
              (λ j.
                generate_ingresses-Keeps (λ s. view s j ≡ view w.cluster j) k lib (settings w j) c
                  texts yatai (asks-Keeps yatai asks w.cluster j) bento_deployment bento w refl)
              (sync_one enabled ingress w1 w' b
                (subst (λ x. sync_ingresses k enabled x w1 ≡ (ok b, w')) one more)),
        )
