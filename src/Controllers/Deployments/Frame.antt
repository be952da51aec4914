-- ===== src/Controllers/Deployments/Frame.antt =====
-- Making a pod template changes no Deployment: it reads, writes a ConfigMap and asks the Yatai server.
use yatai_deployment.Base.{
  ◌==◌, List, [], String, Option, none, some, Bool, true, false, Result, ◌≡◌, ◌∙◌,
}
use yatai_deployment.Base.Int.{ℤ, pos}
use yatai_deployment.Base.Effect.{wrap_exec, pure, call, ◌>>=◌, World, lift}
use yatai_deployment.Base.Effect.Keeps.{Keeps, >>=-Keeps}
use yatai_deployment.Api.Consts.{Consts}
use yatai_deployment.Api.Kube.{Opaque, EnvVar, NamespacedName, QuantityLib}
use yatai_deployment.Api.Pods.{ConfigMap, Deployment, PodSpec}
use yatai_deployment.Api.Yatai.{Http, Request}
use yatai_deployment.Conversion.Names.{TextLib}
use yatai_deployment.YataiClient.{YataiClient, get_organization, get_cluster, get_version}
use yatai_deployment.Controllers.Pods.Component.{
  spec_envs, annotations_of, cluster_or_default, client_envs, yatai_envs,
}
use yatai_deployment.Controllers.Pods.Serve.{is_old_version}
use yatai_deployment.Controllers.Pods.Envs.{SpecEnvs, read_spec_envs}
use yatai_deployment.Controllers.Pods.Options.{PodOption, PodLib, PodClient}
use yatai_deployment.Controllers.Pods.Proxy.{
  configure, own_envoy_config, refer_envoy_config, write_envoy_config, write_envoy, proxy_resources,
  save_envoy_config,
}
use yatai_deployment.Controllers.Pods.Template.{
  component_config, template_of, pod_with, account_of, service_account, proxy_of, proxy_step,
  with_account, template_with, generate_pod_template_spec,
}

-- The calls for the pods show no Deployment another way.
pub record IsApart {S : Type 0} (view : S → NamespacedName → Option Deployment)
    (client : PodClient S) (http : Http S) : Type 0 where
  pub create_or_update :
      (m : ConfigMap) (f : ConfigMap → Result ConfigMap) (s : S) (j : NamespacedName)
      → view (client.create_or_update m f s).1 j ≡ view s j
  pub list_service_accounts :
      (namespace key value : String) (s : S) (j : NamespacedName)
      → view (client.list_service_accounts namespace key value s).1 j ≡ view s j
  pub send :
      (request : Request) (s : S) (j : NamespacedName) → view (http.send request s).1 j ≡ view s j

module _ {S : Type 0} (view : S → NamespacedName → Option Deployment) (client : PodClient S)
    (http : Http S) (apart : IsApart view client http) (c : Consts) (lib : TextLib)
    (quantities : QuantityLib) (pods : PodLib) (opt : PodOption)
    (shown : NamespacedName → Option Deployment) where
  -- The Deployments that the cluster shows.
  abbrev pub Shows : World S → Type 0
  Shows w = (j : NamespacedName) → view w.cluster j ≡ shown j

  sent-Keeps :
      {A : Type 0} (request : Request) (read : Opaque → Result A)
      → Keeps Shows (call (http.send request) >>= λ body. lift (read body))
  sent-Keeps request read =
      >>=-Keeps Shows (call (http.send request)) (λ body. lift (read body))
        (λ w h j. apart.send request w.cluster j ∙ h j) λ body w h. h

  client_envs-Keeps :
      (cluster_name : Option String) (yatai : Option YataiClient)
      → Keeps Shows (client_envs http c cluster_name yatai)
  unfolding client_envs get_organization get_cluster get_version
  client_envs-Keeps cluster_name none = λ w h. h
  client_envs-Keeps cluster_name (some yatai) =
      >>=-Keeps Shows (get_organization http c yatai) _ (sent-Keeps _ _) λ organization.
        >>=-Keeps Shows (get_cluster http c yatai (cluster_or_default cluster_name)) _
          (sent-Keeps _ _)
          λ cluster. >>=-Keeps Shows (get_version http c yatai) _ (sent-Keeps _ _) λ version w h. h

  save_envoy_config-Keeps : (port : ℤ) → Keeps Shows (save_envoy_config c lib opt client port)
  unfolding save_envoy_config
  save_envoy_config-Keeps port =
      >>=-Keeps Shows (configure c lib opt port) (own_envoy_config c lib opt client) (λ w h. h)
        λ content.
          >>=-Keeps Shows (refer_envoy_config c lib opt client content)
            (write_envoy_config c lib opt client content) (λ w h. h)
            λ owned w h j.
              apart.create_or_update owned (write_envoy c lib opt content) w.cluster j ∙ h j

  account_of-Keeps :
      (is_empty : Bool) (name : String)
      → Keeps Shows (account_of c lib quantities pods opt client http is_empty name)
  unfolding account_of
  account_of-Keeps false name = λ w h. h
  account_of-Keeps true name =
      >>=-Keeps Shows
        (wrap_exec _ (
          call (
            client.list_service_accounts opt.bento_deployment.meta.namespace
              c.kube_label_bento_deployment_pod c.kube_label_value_true)))
        _
        (λ w h j.
          apart.list_service_accounts opt.bento_deployment.meta.namespace
            c.kube_label_bento_deployment_pod c.kube_label_value_true w.cluster j
          ∙ h j)
        λ accounts w h. h

  proxy_of-Keeps :
      (runner_name : Option String) (port : ℤ)
      → Keeps Shows (proxy_of c lib quantities pods opt client http runner_name port)
  unfolding proxy_of
  proxy_of-Keeps (some runner_name) port = λ w h. h
  proxy_of-Keeps none port =
      >>=-Keeps Shows (lift (proxy_resources quantities (annotations_of opt))) _ (λ w h. h)
        λ resources.
          >>=-Keeps Shows (save_envoy_config c lib opt client port) _ (save_envoy_config-Keeps port)
            λ saved w h. h

  with_account-Keeps :
      (pod : PodSpec) → Keeps Shows (with_account c lib quantities pods opt client http pod)
  unfolding with_account service_account
  with_account-Keeps pod =
      >>=-Keeps Shows
        (service_account c lib quantities pods opt client http pod.service_account_name)
        (λ account. pure (template_of c lib quantities pods opt client http pod account))
        (account_of-Keeps (pod.service_account_name == "") pod.service_account_name)
        λ account w h. h

  template_with-Keeps :
      (spec : SpecEnvs) (yatai : List EnvVar)
      → Keeps Shows (template_with c lib quantities pods opt client http spec yatai)
  unfolding template_with proxy_step
  template_with-Keeps spec yatai =
      >>=-Keeps Shows (lift (is_old_version pods opt.bento)) _ (λ w h. h)
        λ is_old.
          >>=-Keeps Shows (component_config c lib quantities pods opt client http) _ (λ w h. h)
            λ resources.
              >>=-Keeps Shows (proxy_step c lib quantities pods opt client http spec.container_port)
                _ (proxy_of-Keeps opt.runner_name spec.container_port)
                λ proxy.
                  with_account-Keeps (
                    pod_with c lib quantities pods opt client http is_old spec yatai resources
                      proxy)

  pub generate_pod_template_spec-Keeps :
      Keeps Shows (generate_pod_template_spec c lib quantities pods opt client http)
  unfolding generate_pod_template_spec yatai_envs
  generate_pod_template_spec-Keeps =
      >>=-Keeps Shows (lift (read_spec_envs c (spec_envs opt) [] (pos c.bento_service_port))) _
        (λ w h. h)
        λ spec.
          >>=-Keeps Shows (yatai_envs http c opt)
            (template_with c lib quantities pods opt client http spec)
            (client_envs-Keeps opt.cluster_name opt.yatai_client) (template_with-Keeps spec)
