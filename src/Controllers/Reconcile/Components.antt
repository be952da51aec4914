-- ===== src/Controllers/Reconcile/Components.antt =====
-- The part of `Reconcile` of controllers/bentodeployment_controller.go that brings the objects of a
-- resource up to date: for each runner of the Bento and then for the API server.
pub mod Placed
pub mod AllPlaced
use yatai_deployment.Base.{String, Option, none, some, List, [], ◌∷◌, Bool, false, ◌||◌, is_some}
use yatai_deployment.Base.Effect.{Exec, pure, ◌>>=◌}
use yatai_deployment.Api.Resources.{Bento, BentoRunner}
use yatai_deployment.Api.V2alpha1.{BentoDeployment}
use yatai_deployment.Api.Consts.{Consts}
use yatai_deployment.Api.Yatai.{Http, OrganizationFullSchema}
use yatai_deployment.YataiClient as Client
use yatai_deployment.Controllers.Deployments.{
  DeploymentsOption, create_or_update_or_delete_deployments,
}
use yatai_deployment.Controllers.Hpa.{create_or_update_hpa}
use yatai_deployment.Controllers.Ingress.{create_or_update_ingresses}
use yatai_deployment.Controllers.Service.{create_or_update_or_delete_services}
use yatai_deployment.Controllers.Status.{YataiClient}
use yatai_deployment.Controllers.Reconcile.{Reconciler}

-- The client and the name of the cluster that `getYataiClient` returns.
abbrev pub client_of : Option YataiClient → Option Client.YataiClient
client_of none = none
client_of (some yatai) = some (Client.new_yatai_client yatai.endpoint yatai.api_token)

abbrev pub cluster_name_of : Option YataiClient → Option String
cluster_name_of none = none
cluster_name_of (some yatai) = some yatai.cluster_name

-- `yataiClient.GetOrganization`, if there is a client.
abbrev pub organization_call :
    {S : Type 0} → Http S → Consts → Option YataiClient → Option (Exec S OrganizationFullSchema)
organization_call http c none = none
organization_call http c (some yatai) =
    some (Client.get_organization http c (Client.new_yatai_client yatai.endpoint yatai.api_token))

module _ {S V : Type 0} (r : Reconciler S V) (yatai : Option YataiClient)
    (bento_deployment : BentoDeployment) (bento : Bento) where
  abbrev pub deployments_option : Option String → DeploymentsOption
  deployments_option runner_name = record {
    bento_deployment = bento_deployment;
    bento = bento;
    yatai_client = client_of yatai;
    cluster_name = cluster_name_of yatai;
    runner_name = runner_name;
  }

  unfoldable pub component_deployments : Option String → Exec S Bool
  unfolding create_or_update_or_delete_deployments
  component_deployments runner_name =
      create_or_update_or_delete_deployments r.deployments r.pod_client r.http r.consts r.texts
        r.quantities r.pod_lib (deployments_option runner_name)

  unfoldable pub component_hpa : Option String → Exec S Bool
  unfolding create_or_update_hpa
  component_hpa runner_name =
      create_or_update_hpa r.hpas r.consts r.texts r.version bento_deployment bento runner_name

  unfoldable pub component_services : Option String → Exec S Bool
  unfolding create_or_update_or_delete_services
  component_services runner_name =
      create_or_update_or_delete_services r.services r.consts r.texts
        (record { bento_deployment = bento_deployment; bento = bento; runner_name = runner_name })

  -- One component, after the others have been `modified` or not.
  unfoldable pub component : Option String → Bool → Exec S Bool
  unfolding component_deployments component_hpa component_services
  component runner_name modified = do
    deployments_modified ← component_deployments runner_name
    hpa_modified ← component_hpa runner_name
    services_modified ← component_services runner_name
    pure (modified || (deployments_modified || (hpa_modified || services_modified)))

  -- The loop over the Bento's runners.
  unfoldable pub runners_step : List BentoRunner → Bool → Exec S Bool
  unfolding component
  runners_step [] modified = pure modified
  runners_step (runner ∷ runners) modified = do
    modified' ← component (some runner.name) modified
    runners_step runners modified'

  unfoldable pub ingresses_step : Bool → Exec S Bool
  unfolding create_or_update_ingresses
  ingresses_step modified = do
    ingresses_modified ←
        create_or_update_ingresses r.ingresses r.ingress_lib r.consts r.texts
          (organization_call r.http r.consts yatai) bento_deployment bento
    pure (modified || ingresses_modified)

  unfoldable pub api_server_step : Bool → Exec S Bool
  unfolding component ingresses_step
  api_server_step modified = do modified' ← component none modified; ingresses_step modified'

  unfoldable pub all_components : Exec S Bool
  unfolding runners_step api_server_step
  all_components = do modified ← runners_step bento.spec.runners false; api_server_step modified
