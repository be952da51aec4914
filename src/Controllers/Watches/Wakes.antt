-- ===== src/Controllers/Watches/Wakes.antt =====
-- Which resources a change of a Bento or a BentoRequest wakes.
use yatai_deployment.Base.{
  String, List, [], ◌∷◌, Bool, true, ◌==◌, ◌&&◌, any, ok, err, ◌≡◌, refl, arith,
}
use yatai_deployment.Base.Effect.{World, is_not_found, Error}
use yatai_deployment.Api.Kube.{NamespacedName}
use yatai_deployment.Api.Resources.{Bento}
use yatai_deployment.Api.V2alpha1.{BentoDeployment}
use yatai_deployment.Controllers.Objects.Laws.{same_key}
use yatai_deployment.Controllers.Watches.{
  WatchClient, object_key, requests_for, listed, list_namespace, bento_requests, is_missing,
  requests_if, bento_request_requests,
}

-- Whether a key is requested.
abbrev pub requested : NamespacedName → List NamespacedName → Bool
requested key = any λ other. same_key other key

-- Whether some resource has the key and a Bento of the name.
abbrev pub uses : NamespacedName → String → List BentoDeployment → Bool
uses key name = any λ bento_deployment.
    bento_deployment.spec.bento == name && same_key (object_key bento_deployment) key

requests_for-uses :
    (key : NamespacedName) (name : String) (items : List BentoDeployment)
    → requested key (requests_for name items) ≡ uses key name items
unfolding requests_for any
requests_for-uses key name [] = refl
requests_for-uses key name (item ∷ items) = ground (arith, requests_for-uses key name items)

module _ {S : Type 0} (client : WatchClient S) where
  -- A change of a Bento wakes exactly the resources of its namespace that have a Bento of its name, and
  -- a change of a BentoRequest wakes the same resources if its Bento is missing, and no resource if its
  -- Bento is there.
  pub wakes :
      (key changed : NamespacedName) (w : World S) (items : List BentoDeployment)
      → (client.list changed.namespace w.cluster).0 ≡ ok items
      → ((requests : List NamespacedName) × ((bento_requests client changed w).0 ≡ ok requests)
          × (requested key requests ≡ uses key changed.name items))
        × ((bento : Bento)
            → (client.get_bento changed w.cluster).0 ≡ ok bento
            → (bento_request_requests client changed w).0 ≡ ok [])
        × ((e : Error)
            → (client.get_bento changed w.cluster).0 ≡ err e
            → is_not_found e ≡ true
            → (client.get_bento changed w.cluster).1 ≡ w.cluster
            → (bento_request_requests client changed w).0 ≡ (bento_requests client changed w).0)
  unfolding bento_requests bento_request_requests list_namespace listed is_missing requests_if
  wakes key changed w items h = (
    (requests_for changed.name items, ground (arith, h), requests_for-uses key changed.name items),
    λ bento there. ground (arith, there),
    λ e missing says_so same. ground (arith, missing, says_so, same),
  )
