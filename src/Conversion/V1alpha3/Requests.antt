-- ===== src/Conversion/V1alpha3/Requests.antt =====
-- The BentoRequest that `ConvertTo` leaves in the cluster.
use yatai_deployment.Base.{
  Option, some, Result, ok, err, panic, ◌≡◌, refl, ap, sym, subst, ◌∙◌, arith,
}
use yatai_deployment.Base.Effect.{World, Error, call, attempt, wrap_exec, >>=-eq-ok}
use yatai_deployment.Api.Consts.{Consts}
use yatai_deployment.Api.Kube.{QuantityLib, NamespacedName}
use yatai_deployment.Api.Resources.{BentoRequest}
use yatai_deployment.Api.V2alpha1
use yatai_deployment.Api.V1alpha3
use yatai_deployment.Conversion.Names.{TextLib, convert_to_bento_request}
use yatai_deployment.Conversion.V1alpha3.{BentoClients, convert_to, after_create}

abbrev pub request_key : BentoRequest → NamespacedName
request_key request = record { namespace = request.meta.namespace; name = request.meta.name }

-- The contracts: `view` are the BentoRequests of the cluster.
pub record IsLawfulRequests {S : Type 0} (clients : BentoClients S)
    (view : S → NamespacedName → Option BentoRequest) : Type 0 where
  pub created :
      (request : BentoRequest) (s : S)
      → (clients.create_bento_request request s).0 ≡ ok tt
      → view (clients.create_bento_request request s).1 (request_key request) ≡ some request
  pub got :
      (key : NamespacedName) (s : S) (request : BentoRequest)
      → (clients.get_bento_request key s).0 ≡ ok request
      → request_key request ≡ key
  pub updated :
      (request : BentoRequest) (s : S)
      → (clients.update_bento_request request s).0 ≡ ok tt
      → view (clients.update_bento_request request s).1 (request_key request) ≡ some request

module _ {S : Type 0} (clients : BentoClients S) (view : S → NamespacedName → Option BentoRequest)
    (law : IsLawfulRequests clients view) where
  abbrev pub Requested : BentoRequest → S → Type 0
  Requested request s =
      (stored : BentoRequest) × (view s (request_key request) ≡ some stored)
      × (stored.spec.bento_tag ≡ request.spec.bento_tag)

  abbrev with_tag : BentoRequest → BentoRequest → BentoRequest
  with_tag old request = record old {
    spec = record old.spec { bento_tag = request.spec.bento_tag };
  }

  -- What has happened where the request was there before.
  exists-eq-ok :
      (request : BentoRequest) (reason : Error) (w w' : World S)
      → after_create clients request (err reason) w ≡ (ok tt, w')
      → (old : BentoRequest) × ((clients.get_bento_request (request_key request) w.cluster).0
          ≡ ok old)
        × ((clients.update_bento_request
              (with_tag old request)
              (clients.get_bento_request (request_key request) w.cluster).1).0
            ≡ ok tt)
        × (w'.cluster
            ≡ (clients.update_bento_request
                (with_tag old request)
                (clients.get_bento_request (request_key request) w.cluster).1).1)
  unfolding after_create
  exists-eq-ok request reason w w' h = ground arith

  after_create-Requested :
      (request : BentoRequest) (r : Result (Unit {0})) (s : S) (w w' : World S)
      → (clients.create_bento_request request s).0 ≡ r
      → (clients.create_bento_request request s).1 ≡ w.cluster
      → after_create clients request r w ≡ (ok tt, w')
      → Requested request w'.cluster
  unfolding after_create
  after_create-Requested request (ok _) s w w' e same h =
      let after = ap (λ p. p.1.cluster) h in
      (
        request,
        ap (λ x. view x (request_key request)) (sym after)
            ∙ (ap (λ x. view x (request_key request)) (sym same) ∙ law.created request s e),
        refl,
      )
  after_create-Requested request panic s w w' e same h = cc h
  after_create-Requested request (err reason) s w w' e same h =
      let (old, found, done, after) = exists-eq-ok request reason w w' h in
      let keyed = law.got (request_key request) w.cluster old found in
      let s1 = (clients.get_bento_request (request_key request) w.cluster).1 in
      (
        with_tag old request,
        ap (λ x. view x (request_key request)) after
            ∙ (ap (view (clients.update_bento_request (with_tag old request) s1).1) (sym keyed)
                ∙ law.updated (with_tag old request) s1 done),
        refl,
      )

  attempt-eq-ok :
      (request : BentoRequest) (w : World S) (r : Result (Unit {0}))
      → (attempt (call (clients.create_bento_request request)) w).0 ≡ ok r
      → (clients.create_bento_request request w.cluster).0 ≡ r
  attempt-eq-ok request w r h = ground arith

  attempt-cluster :
      (request : BentoRequest) (w : World S)
      → (clients.create_bento_request request w.cluster).1
        ≡ (attempt (call (clients.create_bento_request request)) w).1.cluster
  attempt-cluster request w = ground arith

  module _ (c : Consts) (lib : QuantityLib) (texts : TextLib) where
    -- When `ConvertTo` has returned a resource, the cluster has a BentoRequest with the tag of the
    -- source, in its namespace and with the name that stands for the tag, whether the request was
    -- created or was there already.
    pub convert_to-Requested :
        (src : V1alpha3.BentoDeployment) (dst mid : V2alpha1.BentoDeployment) (w w' : World S)
        → convert_to clients c lib texts src dst w ≡ (ok mid, w')
        → Requested (convert_to_bento_request texts src) w'.cluster
    unfolding convert_to
    convert_to-Requested src dst mid w w' h =
        let request = convert_to_bento_request texts src in
        let make = wrap_exec "create BentoRequest client" (call clients.new_for_config) in
        let create = attempt (call (clients.create_bento_request request)) in
        let (u, e1, h1) = >>=-eq-ok make _ w h in
        let w1 = (make w).1 in
        let (r, e2, h2) = >>=-eq-ok create _ w1 h1 in
        let w2 = (create w1).1 in
        let (v, e3, h3) = >>=-eq-ok (after_create clients request r) _ w2 h2 in
        let w3 = (after_create clients request r w2).1 in
        subst (λ x. Requested request x) (ap (λ p. p.1.cluster) h3)
          (after_create-Requested request r w1.cluster w2 w3 (attempt-eq-ok request w1 r e2)
            (attempt-cluster request w1) (λ i. (e3 i, w3)))
