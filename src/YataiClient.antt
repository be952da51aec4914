-- ===== src/YataiClient.antt =====
-- yatai-client/client.go: the requests to the Yatai server.
pub mod Frame
use yatai_deployment.Base.{String, [], ◌∷◌, ◌<>◌}
use yatai_deployment.Base.Dict.{Dict}
use yatai_deployment.Base.Effect.{Exec, pure, lift, call, ◌>>=◌}
use yatai_deployment.Decimal.{decimal}
use yatai_deployment.Api.Consts.{Consts}
use yatai_deployment.Api.Kube.{Opaque}
use yatai_deployment.Api.Yatai.{
  OrganizationFullSchema, ClusterFullSchema, VersionSchema, DeploymentSchema,
  CreateDeploymentSchema, UpdateDeploymentSchema, RegisterYataiComponentSchema, ListQuerySchema,
  Payload, no_payload, fields, create_deployment_payload, update_deployment_payload,
  register_payload, Request, Http,
}

pub record YataiClient : Type 0 where
  pub endpoint : String
  pub api_token : String

abbrev pub new_yatai_client : String → String → YataiClient
new_yatai_client endpoint api_token = record { endpoint = endpoint; api_token = api_token }

abbrev pub bento_path : String → String → String → String
bento_path repository version rest =
    "/api/v1/bento_repositories/" <> (repository <> ("/bentos/" <> (version <> rest)))

abbrev pub cluster_path : String → String → String
cluster_path cluster_name rest = "/api/v1/clusters/" <> (cluster_name <> rest)

abbrev pub deployment_path : String → String → String → String → String
deployment_path cluster_name namespace deployment_name rest =
    cluster_path cluster_name
      ("/namespaces/" <> (namespace <> ("/deployments/" <> (deployment_name <> rest))))

module _ {S : Type 0} (http : Http S) (c : Consts) (client : YataiClient) where
  -- A request that `getJSONReqBuilder` starts: its header has the token.
  unfoldable pub request : String → String → Dict String → Payload → Request
  request method path query payload = record {
    method = method;
    url = http.url_join client.endpoint path query;
    headers = (c.yatai_api_token_header_name, client.api_token) ∷ [];
    payload = payload;
  }

  unfoldable pub list_bentos : ListQuerySchema → Exec S Opaque
  unfolding request decimal
  list_bentos req = call (
      http.send (
        request "GET" "/api/v1/bentos"
          (("start", decimal req.start) ∷ ("count", decimal req.count) ∷ ("q", req.q) ∷ [])
          no_payload))

  unfoldable pub list_image_build_status_unsynced_bentos : Exec S Opaque
  unfolding request
  list_image_build_status_unsynced_bentos =
      call (http.send (request "GET" "/api/v1/image_build_status_unsynced_bentos" [] no_payload))

  unfoldable pub update_bento_image_build_status_syncing_at : String → String → Exec S (Unit {0})
  unfolding request
  update_bento_image_build_status_syncing_at bento_repository_name bento_version = do
    body ← call (
        http.send (
          request "PATCH"
            (bento_path bento_repository_name bento_version "/update_image_build_status_syncing_at")
            [] no_payload))
    pure tt

  unfoldable pub update_bento_image_build_status : String → String → String → Exec S (Unit {0})
  unfolding request
  update_bento_image_build_status bento_repository_name bento_version status = do
    body ← call (
        http.send (
          request "PATCH"
            (bento_path bento_repository_name bento_version "/update_image_build_status") []
            (fields (("image_build_status", status) ∷ []))))
    pure tt

  unfoldable pub get_bento : String → String → Exec S Opaque
  unfolding request
  get_bento bento_repository_name bento_version =
      call (
        http.send (request "GET" (bento_path bento_repository_name bento_version "") [] no_payload))

  unfoldable pub get_bento_repository : String → Exec S Opaque
  unfolding request
  get_bento_repository bento_repository_name = call (
      http.send
        (request "GET" ("/api/v1/bento_repositories/" <> bento_repository_name) [] no_payload))

  unfoldable pub get_deployment : String → String → String → Exec S DeploymentSchema
  unfolding request
  get_deployment cluster_name namespace deployment_name = do
    body ← call (
        http.send
          (request "GET" (deployment_path cluster_name namespace deployment_name "") [] no_payload))
    lift (http.deployment_of body)

  unfoldable pub sync_deployment_status : String → String → String → Exec S DeploymentSchema
  unfolding request
  sync_deployment_status cluster_name namespace deployment_name = do
    body ← call (
        http.send (
          request "POST" (deployment_path cluster_name namespace deployment_name "/sync_status") []
            no_payload))
    lift (http.deployment_of body)

  unfoldable pub create_deployment : String → CreateDeploymentSchema → Exec S DeploymentSchema
  unfolding request
  create_deployment cluster_name schema = do
    body ← call (
        http.send (
          request "POST" (cluster_path cluster_name "/deployments") []
            (create_deployment_payload schema)))
    lift (http.deployment_of body)

  unfoldable pub update_deployment :
      String → String → String → UpdateDeploymentSchema → Exec S DeploymentSchema
  unfolding request
  update_deployment cluster_name namespace deployment_name schema = do
    body ← call (
        http.send (
          request "PATCH" (deployment_path cluster_name namespace deployment_name "") []
            (update_deployment_payload schema)))
    lift (http.deployment_of body)

  unfoldable pub get_docker_registry_ref : String → Exec S Opaque
  unfolding request
  get_docker_registry_ref cluster_name =
      call
        (http.send (request "GET" (cluster_path cluster_name "/docker_registry_ref") [] no_payload))

  unfoldable pub get_major_cluster : Exec S ClusterFullSchema
  unfolding request
  get_major_cluster = do
    body ← call (http.send (request "GET" "/api/v1/current_org/major_cluster" [] no_payload))
    lift (http.cluster_of body)

  unfoldable pub get_version : Exec S VersionSchema
  unfolding request
  get_version = do
    body ← call (http.send (request "GET" "/api/v1/version" [] no_payload))
    lift (http.version_of body)

  unfoldable pub get_organization : Exec S OrganizationFullSchema
  unfolding request
  get_organization = do
    body ← call (http.send (request "GET" "/api/v1/current_org" [] no_payload))
    lift (http.organization_of body)

  unfoldable pub get_cluster : String → Exec S ClusterFullSchema
  unfolding request
  get_cluster cluster_name = do
    body ← call (http.send (request "GET" (cluster_path cluster_name "") [] no_payload))
    lift (http.cluster_of body)

  unfoldable pub register_yatai_component : String → RegisterYataiComponentSchema → Exec S Opaque
  unfolding request
  register_yatai_component cluster_name schema = call (
      http.send (
        request "POST" (cluster_path cluster_name "/yatai_components") []
          (register_payload schema)))

  unfoldable pub presign_bento_download_url : String → String → Exec S Opaque
  unfolding request
  presign_bento_download_url bento_repository_name bento_version = call (
      http.send (
        request "PATCH" (bento_path bento_repository_name bento_version "/presign_download_url") []
          no_payload))

  unfoldable pub presign_model_download_url : String → String → Exec S Opaque
  unfolding request
  presign_model_download_url model_repository_name model_version = call (
      http.send (
        request "PATCH"
          ("/api/v1/model_repositories/"
            <> (model_repository_name
                <> ("/models/" <> (model_version <> "/presign_download_url"))))
          [] no_payload))
