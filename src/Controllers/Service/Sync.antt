-- ===== src/Controllers/Service/Sync.antt =====
-- `createOrUpdateOrDeleteServices` brings the Services of a component up to date.
use yatai_deployment.Base.{
  Option, some, Bool, false, ok, ◌≡◌, ◌≢◌, ◌∙◌, refl, sym, ap, arith, eq_iff,
}
use yatai_deployment.Base.Effect.{World, lift, >>=-eq-ok}
use yatai_deployment.Api.Consts.{Consts}
use yatai_deployment.Api.Kube.{NamespacedName, Service}
use yatai_deployment.Conversion.Names.{TextLib}
use yatai_deployment.Controllers.Objects.{Kind, create_or_update_object}
use yatai_deployment.Controllers.Objects.Laws.{IsLawful, same_key}
use yatai_deployment.Controllers.Objects.Upsert.{create_or_update_object-Upserted}
use yatai_deployment.Controllers.Service.{
  ServiceOption, service_of, generate_service, write_service, create_or_update_service,
}

-- Keys with two names are two keys.
pub same_key_ne : (a b : NamespacedName) → a.name ≢ b.name → same_key a b ≡ false
same_key_ne a b h = ground (arith, eq_iff a.name b.name, eq_iff a.namespace b.namespace)

-- The key of a Service, and what its description reads of it.
pub record IsServiceKind {S : Type 0} (k : Kind S Service) (Agrees : Service → Service → Type 0)
    : Type 0 where
  pub key_of : (a : Service) → k.key a ≡ record { namespace = a.meta.namespace; name = a.meta.name }
  pub reads :
      (a b d : Service)
      → b.spec ≡ a.spec
      → b.meta.labels ≡ a.meta.labels
      → b.meta.annotations ≡ a.meta.annotations
      → Agrees a d
      → Agrees b d

module _ {S : Type 0} (k : Kind S Service) (view : S → NamespacedName → Option Service)
    (Agrees : Service → Service → Type 0) (law : IsLawful k view Agrees)
    (kind : IsServiceKind k Agrees) where
  -- The cluster has a Service as it is described.
  abbrev pub InPlace : World S → Service → Type 0
  InPlace w service =
      (stored : Service) × (view w.cluster (k.key service) ≡ some stored) × Agrees stored service

  service-WritesBack :
      (object old : Service)
      → k.key old ≡ k.key object
      → (annotated : Service) → k.key annotated ≡ k.key object
      → Agrees annotated object
      → (k.key (write_service old annotated) ≡ k.key object)
        × Agrees (write_service old annotated) object
  service-WritesBack object old same annotated _ agrees = (
    kind.key_of (write_service old annotated) ∙ (sym (kind.key_of old) ∙ same),
    kind.reads annotated (write_service old annotated) object refl refl refl agrees,
  )

  module _ (c : Consts) (lib : TextLib) where
    -- One Service: it is in place, and nothing else has changed.
    abbrev pub Changed : ServiceOption → World S → World S → Type 0
    Changed opt w w' =
        InPlace w' (service_of c lib opt)
        × ((j : NamespacedName)
            → same_key (k.key (service_of c lib opt)) j ≡ false
            → view w'.cluster j ≡ view w.cluster j)

    pub create_or_update_service-Changed :
        (opt : ServiceOption) (w w' : World S) (b : Bool)
        → create_or_update_service k c lib opt w ≡ (ok b, w')
        → Changed opt w w'
    unfolding create_or_update_service
    create_or_update_service-Changed opt w w' b h =
        let (service, e, more) =
          >>=-eq-ok (lift (generate_service k c lib opt))
            (λ service. create_or_update_object k service write_service) w h in
        let up =
          create_or_update_object-Upserted k view Agrees law service write_service w w' b
            (service-WritesBack service) more in
        let (same, described) =
          law.referenced opt.bento_deployment (service_of c lib opt) service
            (unfold generate_service in ground (arith, e)) in
        (
          (
            up.stored,
            ap (λ key. view w'.cluster key) (sym same) ∙ up.at_key,
            described up.stored up.agrees,
          ),
          λ j ne. up.elsewhere j (ap (λ key. same_key key j) same ∙ ne),
        )
