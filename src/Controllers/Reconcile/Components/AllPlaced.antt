-- ===== src/Controllers/Reconcile/Components/AllPlaced.antt =====
-- Bringing the objects of all components up to date leaves the Deployments of every one in place.
use yatai_deployment.Base.{
  String, Option, none, some, List, [], ◌∷◌, Bool, true, false, ◌==◌, eq_iff, Bool-cases, inl, inr,
  any, ok, ◌≡◌, ◌∙◌, refl, ap, subst, arith,
}
use yatai_deployment.Base.Effect.{World, >>=-eq-ok}
use yatai_deployment.Base.Effect.Keeps.{Keeps}
use yatai_deployment.Api.Kube.{NamespacedName}
use yatai_deployment.Api.Pods.{Deployment}
use yatai_deployment.Api.Resources.{Bento, BentoRunner}
use yatai_deployment.Api.V2alpha1.{BentoDeployment}
use yatai_deployment.Controllers.Names.Distinct.{is_runner, IsComponent, component-cases}
use yatai_deployment.Controllers.Objects.Laws.{IsLawful}
use yatai_deployment.Controllers.Objects.Frame.{Of}
use yatai_deployment.Controllers.Hpa.Frame.{create_or_update_hpa-Keeps}
use yatai_deployment.Controllers.Ingress.{create_or_update_ingresses}
use yatai_deployment.Controllers.Ingress.Frame.{AskKeeps, create_or_update_ingresses-Keeps}
use yatai_deployment.YataiClient.Frame.{get_organization-Keeps}
use yatai_deployment.Controllers.Service.Frame.{create_or_update_or_delete_services-Keeps}
use yatai_deployment.Controllers.Status.{YataiClient}
use yatai_deployment.Controllers.Reconcile.{Reconciler}
use yatai_deployment.Controllers.Reconcile.Components.{
  component_deployments, component_hpa, component_services, component, runners_step, ingresses_step,
  organization_call, api_server_step, all_components,
}
use yatai_deployment.Controllers.Reconcile.Components.Placed.{
  Shows, IsSeparate, Placed, Placed-after, key, component_deployments-Placed,
}

module _ {S V : Type 0} (r : Reconciler S V) (view : S → NamespacedName → Option Deployment)
    (Agrees : Deployment → Deployment → Type 0) (law : IsLawful r.deployments view Agrees)
    (key_of : (a : Deployment)
      → r.deployments.key a ≡ record { namespace = a.meta.namespace; name = a.meta.name })
    (separate : IsSeparate r view) (yatai : Option YataiClient) (bento_deployment : BentoDeployment)
    (bento : Bento) where
  -- The Deployments of a component are in place.
  abbrev pub Here : Option String → World S → Type 0
  Here = Placed r view Agrees law key_of separate yatai bento_deployment bento

  hpa-Shows :
      (x : Option String) (shown : NamespacedName → Option Deployment)
      → Keeps (Of (Shows view shown)) (component_hpa r yatai bento_deployment bento x)
  unfolding component_hpa
  hpa-Shows x shown =
      create_or_update_hpa-Keeps (Shows view shown) r.hpas (separate.hpas shown) r.consts r.texts
        r.version bento_deployment bento x

  services-Shows :
      (x : Option String) (shown : NamespacedName → Option Deployment)
      → Keeps (Of (Shows view shown)) (component_services r yatai bento_deployment bento x)
  unfolding component_services
  services-Shows x shown =
      create_or_update_or_delete_services-Keeps (Shows view shown) r.services
        (separate.services shown) r.consts r.texts
        (record { bento_deployment = bento_deployment; bento = bento; runner_name = x })

  -- A component that is done is in place, and the others that were in place are still.
  Done : Option String → World S → World S → Type 0
  Done x w w' = Here x w' × ((y : Option String) → IsComponent bento y → Here y w → Here y w')

  component-Done :
      (x : Option String) (modified : Bool) (w w' : World S) (b : Bool)
      → IsComponent bento x
      → component r yatai bento_deployment bento x modified w ≡ (ok b, w')
      → Done x w w'
  unfolding component Done
  component-Done x modified w w' b p h =
      let deployments = component_deployments r yatai bento_deployment bento x in
      let hpa = component_hpa r yatai bento_deployment bento x in
      let services = component_services r yatai bento_deployment bento x in
      let (b1, e1, h1) = >>=-eq-ok deployments _ w h in
      let w1 = (deployments w).1 in
      let (b2, e2, h2) = >>=-eq-ok hpa _ w1 h1 in
      let w2 = (hpa w1).1 in
      let (b3, e3, h3) = >>=-eq-ok services _ w2 h2 in
      let w3 = (services w2).1 in
      let same : Shows view (view w1.cluster) w3.cluster =
        services-Shows x (view w1.cluster) w2 (hpa-Shows x (view w1.cluster) w1 λ j. refl) in
      let end : w3 ≡ w' = ap (λ q. q.1) h3 in
      let keep = λ (y : Option String) (placed : Here y w1). subst (Here y) end (
        Placed-after r view Agrees law key_of separate yatai bento_deployment bento y w1 w3
          (λ is_debug.
            same (key r view Agrees law key_of separate yatai bento_deployment bento y is_debug))
          placed) in
      let (placed, others) =
        component_deployments-Placed r view Agrees law key_of separate yatai bento_deployment bento
          x w w1 b1 p (λ i. (e1 i, w1)) in
      (
        keep x placed,
        λ y q before. elim (component-cases x y) [
          | inl same_component ↦ subst (λ z. Here z w') same_component (keep x placed)
          | inr other ↦ keep y (others y q other before)
        ],
      )

  runners-Placed :
      (runners : List BentoRunner) (modified : Bool) (w w' : World S) (b : Bool)
      → ((name : String) → is_runner name runners ≡ true → is_runner name bento.spec.runners ≡ true)
      → runners_step r yatai bento_deployment bento runners modified w ≡ (ok b, w')
      → ((name : String) → is_runner name runners ≡ true → Here (some name) w')
        × ((y : Option String) → IsComponent bento y → Here y w → Here y w')
  unfolding runners_step any Done
  runners-Placed [] modified w w' b known h =
      (λ name p. cc p, λ y q placed. subst (Here y) (ap (λ q. q.1) h) placed)
  runners-Placed (runner ∷ runners) modified w w' b known h =
      let step = component r yatai bento_deployment bento (some runner.name) modified in
      let (b1, e1, h1) = >>=-eq-ok step _ w h in
      let w1 = (step w).1 in
      let is_known : is_runner runner.name bento.spec.runners ≡ true =
        known runner.name (ground (arith, eq_iff runner.name runner.name)) in
      let (here, others) =
        component-Done (some runner.name) modified w w1 b1 is_known (λ i. (e1 i, w1)) in
      let (later, kept) =
        runners-Placed runners b1 w1 w' b (λ name p. known name (ground (arith, p))) h1 in
      (
        λ name p. elim (Bool-cases (runner.name == name)) [
          | inl same ↦
              subst (λ z. Here (some z) w') (ground (arith, same, eq_iff runner.name name))
                (kept (some runner.name) is_known here)
          | inr other ↦ later name (ground (arith, p, other))
        ],
        λ y q placed. kept y q (others y q placed),
      )

  asks :
      (shown : NamespacedName → Option Deployment) (client : Option YataiClient)
      → AskKeeps (Shows view shown) (organization_call r.http r.consts client)
  asks shown none = tt
  asks shown (some client) =
      get_organization-Keeps (Shows view shown) r.http
        (λ request s h j. separate.pods.send request s j ∙ h j) r.consts _

  api_server-Done :
      (modified : Bool) (w w' : World S) (b : Bool)
      → api_server_step r yatai bento_deployment bento modified w ≡ (ok b, w')
      → Done none w w'
  unfolding api_server_step ingresses_step Done
  api_server-Done modified w w' b h =
      let step = component r yatai bento_deployment bento none modified in
      let (b1, e1, h1) = >>=-eq-ok step _ w h in
      let w1 = (step w).1 in
      let ingresses =
        create_or_update_ingresses r.ingresses r.ingress_lib r.consts r.texts
          (organization_call r.http r.consts yatai) bento_deployment bento in
      let (b2, e2, h2) = >>=-eq-ok ingresses _ w1 h1 in
      let w2 = (ingresses w1).1 in
      let same : Shows view (view w1.cluster) w2.cluster =
        create_or_update_ingresses-Keeps (Shows view (view w1.cluster)) r.ingresses r.ingress_lib
          (separate.settings (view w1.cluster)) r.consts r.texts
          (separate.ingresses (view w1.cluster)) (organization_call r.http r.consts yatai)
          (asks (view w1.cluster) yatai) bento_deployment bento w1 (λ j. refl) in
      let keep = λ (y : Option String) (placed : Here y w1). subst (Here y) (ap (λ q. q.1) h2) (
        Placed-after r view Agrees law key_of separate yatai bento_deployment bento y w1 w2
          (λ is_debug.
            same (key r view Agrees law key_of separate yatai bento_deployment bento y is_debug))
          placed) in
      let (here, others) = component-Done none modified w w1 b1 tt (λ i. (e1 i, w1)) in
      (keep none here, λ y q placed. keep y (others y q placed))

  -- When the objects of all components have been brought up to date, the Deployments of the API server
  -- and of every runner of the Bento are in place at once: no component has changed those of another,
  -- provided that no call for another kind of object or for settings shows a Deployment another way.
  pub all_components-Placed :
      (w w' : World S) (b : Bool)
      → all_components r yatai bento_deployment bento w ≡ (ok b, w')
      → (x : Option String) → IsComponent bento x
      → Here x w'
  unfolding all_components Done
  all_components-Placed w w' b h x p =
      let runners = runners_step r yatai bento_deployment bento bento.spec.runners false in
      let (modified, e, more) = >>=-eq-ok runners _ w h in
      let w1 = (runners w).1 in
      let (placed, _) =
        runners-Placed bento.spec.runners false w w1 modified (λ name q. q) (λ i. (e i, w1)) in
      let (here, others) = api_server-Done modified w1 w' b more in
      elim x as (λ x. IsComponent bento x → Here x w') [
        | none ↦ λ _. here
        | some name ↦ λ q. others (some name) q (placed name q)
      ]
        p
