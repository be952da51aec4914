-- ===== src/Controllers/Service/Frame.antt =====
-- What bringing a component's Services up to date leaves as it is: everything that the calls for Services
-- leave.
use yatai_deployment.Base.{Bool, true, false}
use yatai_deployment.Base.Effect.{lift}
use yatai_deployment.Base.Effect.Keeps.{Keeps, >>=-Keeps, if-Keeps}
use yatai_deployment.Api.Consts.{Consts}
use yatai_deployment.Api.Kube.{Service}
use yatai_deployment.Conversion.Names.{TextLib}
use yatai_deployment.Controllers.Objects.{Kind, delete_if_found}
use yatai_deployment.Controllers.Objects.Frame.{
  Of, Preserves, create_or_update_object-Keeps, delete_if_found-Keeps,
}
use yatai_deployment.Controllers.Service.{
  ServiceOption, ServicesOption, service_option, generate_service, write_service,
  create_or_update_service, has_split_services, split_services, service_key, remove_services,
  create_or_update_or_delete_services,
}

module _ {S : Type 0} (P : S → Type 0) (k : Kind S Service) (preserves : Preserves P k) (c : Consts)
    (lib : TextLib) where
  create_or_update_service-Keeps :
      (opt : ServiceOption) → Keeps (Of P) (create_or_update_service k c lib opt)
  unfolding create_or_update_service
  create_or_update_service-Keeps opt =
      >>=-Keeps (Of P) (lift (generate_service k c lib opt)) _ (λ w h. h)
        λ service. create_or_update_object-Keeps P k preserves service write_service

  split_services-Keeps :
      (opt : ServicesOption) (modified : Bool) → Keeps (Of P) (split_services k c lib opt modified)
  unfolding split_services
  split_services-Keeps opt modified =
      >>=-Keeps (Of P) (create_or_update_service k c lib (service_option c opt false false)) _
        (create_or_update_service-Keeps (service_option c opt false false))
        λ _.
          >>=-Keeps (Of P) (create_or_update_service k c lib (service_option c opt false true)) _
            (create_or_update_service-Keeps (service_option c opt false true)) λ _ w h. h

  remove_services-Keeps :
      (opt : ServicesOption) (modified : Bool) → Keeps (Of P) (remove_services k c lib opt modified)
  unfolding remove_services
  remove_services-Keeps opt modified =
      >>=-Keeps (Of P) (delete_if_found k _ _ (service_key k c lib opt false)) _
        (delete_if_found-Keeps P k preserves "Failed to get service" "Failed to delete service"
          (service_key k c lib opt false))
        λ _.
          >>=-Keeps (Of P) (delete_if_found k _ _ (service_key k c lib opt true)) _
            (delete_if_found-Keeps P k preserves "Failed to get service" "Failed to delete service"
              (service_key k c lib opt true))
            λ _ w h. h

  -- The method keeps what its calls keep.
  pub create_or_update_or_delete_services-Keeps :
      (opt : ServicesOption) → Keeps (Of P) (create_or_update_or_delete_services k c lib opt)
  unfolding create_or_update_or_delete_services
  create_or_update_or_delete_services-Keeps opt =
      >>=-Keeps (Of P) (create_or_update_service k c lib (service_option c opt true false)) _
        (create_or_update_service-Keeps (service_option c opt true false))
        λ modified.
          if-Keeps (Of P) (has_split_services c opt) (split_services k c lib opt modified)
            (remove_services k c lib opt modified) (split_services-Keeps opt modified)
            (remove_services-Keeps opt modified)
