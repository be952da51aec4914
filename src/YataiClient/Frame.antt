-- ===== src/YataiClient/Frame.antt =====
-- What a request to the Yatai server leaves as it is: everything that sending leaves.
use yatai_deployment.Base.{String, Result}
use yatai_deployment.Base.Effect.{call, lift, ◌>>=◌}
use yatai_deployment.Base.Effect.Keeps.{Keeps, >>=-Keeps}
use yatai_deployment.Api.Consts.{Consts}
use yatai_deployment.Api.Kube.{Opaque}
use yatai_deployment.Api.Yatai.{Http, Request, CreateDeploymentSchema, UpdateDeploymentSchema}
use yatai_deployment.YataiClient.{
  YataiClient, get_organization, get_bento, get_deployment, sync_deployment_status,
  create_deployment, update_deployment,
}

-- Sending keeps a property of the cluster.
abbrev pub SendPreserves : {S : Type 0} → (S → Type 0) → Http S → Type 0
SendPreserves {S} P http = (request : Request) (s : S) → P s → P (http.send request s).1

module _ {S : Type 0} (P : S → Type 0) (http : Http S) (sends : SendPreserves P http) (c : Consts)
    (client : YataiClient) where
  sent-Keeps :
      {A : Type 0} (request : Request) (read : Opaque → Result A)
      → Keeps (λ w. P w.cluster) (call (http.send request) >>= λ body. lift (read body))
  sent-Keeps request read =
      >>=-Keeps (λ w. P w.cluster) (call (http.send request)) (λ body. lift (read body))
        (λ w h. sends request w.cluster h) λ body w h. h

  pub get_organization-Keeps : Keeps (λ w. P w.cluster) (get_organization http c client)
  unfolding get_organization
  get_organization-Keeps = sent-Keeps _ http.organization_of

  pub get_bento-Keeps :
      (repository version : String)
      → Keeps (λ w. P w.cluster) (get_bento http c client repository version)
  unfolding get_bento
  get_bento-Keeps repository version w h = sends _ w.cluster h

  pub get_deployment-Keeps :
      (cluster namespace name : String)
      → Keeps (λ w. P w.cluster) (get_deployment http c client cluster namespace name)
  unfolding get_deployment
  get_deployment-Keeps cluster namespace name = sent-Keeps _ http.deployment_of

  pub sync_deployment_status-Keeps :
      (cluster namespace name : String)
      → Keeps (λ w. P w.cluster) (sync_deployment_status http c client cluster namespace name)
  unfolding sync_deployment_status
  sync_deployment_status-Keeps cluster namespace name = sent-Keeps _ http.deployment_of

  pub create_deployment-Keeps :
      (cluster : String) (schema : CreateDeploymentSchema)
      → Keeps (λ w. P w.cluster) (create_deployment http c client cluster schema)
  unfolding create_deployment
  create_deployment-Keeps cluster schema = sent-Keeps _ http.deployment_of

  pub update_deployment-Keeps :
      (cluster namespace name : String) (schema : UpdateDeploymentSchema)
      → Keeps (λ w. P w.cluster) (update_deployment http c client cluster namespace name schema)
  unfolding update_deployment
  update_deployment-Keeps cluster namespace name schema = sent-Keeps _ http.deployment_of
