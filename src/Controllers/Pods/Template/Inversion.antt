-- ===== src/Controllers/Pods/Template/Inversion.antt =====
-- What a pod template that `generatePodTemplateSpec` returned is made of.
use yatai_deployment.Base.{
  String, Option, none, some, List, [], ◌∷◌, ◌++◌, Bool, not, is_some, ok, ◌≡◌, refl, sym, ap,
  ok-injective, ◌⊎◌, inl, inr, ◌<>◌, ◌∙◌,
}
use yatai_deployment.Base.Int.{ℤ, pos}
use yatai_deployment.Base.Effect.{World, lift, >>=-eq-ok}
use yatai_deployment.Api.Consts.{Consts}
use yatai_deployment.Api.Kube.{EnvVar, QuantityLib, ResourceRequirements}
use yatai_deployment.Api.Pods.{Container, PodSpec, PodTemplateSpec}
use yatai_deployment.Api.Yatai.{Http}
use yatai_deployment.Conversion.Names.{TextLib}
use yatai_deployment.Api.V2alpha1.{ExtraPodSpec}
use yatai_deployment.YataiClient.{YataiClient, get_organization, get_cluster, get_version}
use yatai_deployment.Controllers.Pods.Containers.{main_container, own_containers}
use yatai_deployment.Controllers.Pods.Envs.{env_var, SpecEnvs, read_spec_envs}
use yatai_deployment.Controllers.Pods.Options.{PodOption, PodLib, PodClient}
use yatai_deployment.Controllers.Pods.Serve.{is_old_version}
use yatai_deployment.Controllers.Pods.Proxy.{proxy_resources, save_envoy_config}
use yatai_deployment.Controllers.Pods.Component.{
  spec_envs, annotations_of, yatai_envs, client_envs, cluster_or_default, component_pod_spec,
}
use yatai_deployment.Controllers.Pods.Template.{
  add_pod_spec, all_envs, pod_spec, service_account, proxy_of, proxy_step, component_config,
  pod_with, template_of, with_account, template_with, generate_pod_template_spec,
}

append-[] : {A : Type 0} (xs : List A) → xs ++ [] ≡ xs
append-[] [] = refl
append-[] (x ∷ xs) = ap (λ ys. x ∷ ys) (append-[] xs)

module _ {S : Type 0} (client : PodClient S) (http : Http S) (c : Consts) (lib : TextLib)
    (quantities : QuantityLib) (pods : PodLib) (opt : PodOption) where
  -- No variables for Yatai, or the three.
  abbrev pub IsYatai : List EnvVar → Type 0
  IsYatai yatai =
      (yatai ≡ [])
      ⊎ ((version organization cluster : String) × (yatai
            ≡ env_var c.env_yatai_version version
              ∷ env_var c.env_yatai_org_uid organization
              ∷ env_var c.env_yatai_cluster_uid cluster
              ∷ []))

  client_envs-IsYatai :
      (cluster_name : Option String) (client : Option YataiClient) (w w' : World S)
      (yatai : List EnvVar)
      → client_envs http c cluster_name client w ≡ (ok yatai, w')
      → IsYatai yatai
  unfolding client_envs
  client_envs-IsYatai cluster_name none w w' yatai h = inl (sym (ok-injective (ap (λ p. p.0) h)))
  client_envs-IsYatai cluster_name (some client) w w' yatai h =
      let (organization, _, h1) = >>=-eq-ok (get_organization http c client) _ w h in
      let w1 = (get_organization http c client w).1 in
      let find = get_cluster http c client (cluster_or_default cluster_name) in
      let (cluster, _, h2) = >>=-eq-ok find _ w1 h1 in
      let (version, _, h3) = >>=-eq-ok (get_version http c client) _ (find w1).1 h2 in
      inr (
        version.version <> ("-" <> version.git_commit),
        organization.uid,
        cluster.uid,
        sym (ok-injective (ap (λ p. p.0) h3)),
      )

  -- The values that a pod template is made from.
  pub record Made (template : PodTemplateSpec) : Type 0 where
    pub is_old : Bool
    pub spec : SpecEnvs
    pub yatai : List EnvVar
    pub resources : ResourceRequirements
    pub proxy : Option ResourceRequirements
    pub account : String
    pub read_envs : read_spec_envs c (spec_envs opt) [] (pos c.bento_service_port) ≡ ok spec
    pub yatai_names : IsYatai yatai
    pub has_proxy : is_some proxy ≡ not (is_some opt.runner_name)
    pub template_is :
        template
        ≡ template_of c lib quantities pods opt client http
            (pod_with c lib quantities pods opt client http is_old spec yatai resources proxy)
            account

  proxy_of-eq-ok :
      (runner_name : Option String) (port : ℤ) (w w' : World S)
      (proxy : Option ResourceRequirements)
      → proxy_of c lib quantities pods opt client http runner_name port w ≡ (ok proxy, w')
      → is_some proxy ≡ not (is_some runner_name)
  unfolding proxy_of
  proxy_of-eq-ok (some runner_name) port w w' proxy h =
      ap is_some (sym (ok-injective (ap (λ p. p.0) h)))
  proxy_of-eq-ok none port w w' proxy h =
      let read = lift (proxy_resources quantities (annotations_of opt)) in
      let (resources, _, h1) = >>=-eq-ok read _ w h in
      let (_, _, h2) = >>=-eq-ok (save_envoy_config c lib opt client port) _ w h1 in
      ap is_some (sym (ok-injective (ap (λ p. p.0) h2)))

  -- They come from a run: the variables for Yatai are its first effect.
  pub generate_pod_template_spec-Made_of :
      (w w' : World S) (template : PodTemplateSpec)
      → generate_pod_template_spec c lib quantities pods opt client http w ≡ (ok template, w')
      → (made : Made template) × ((client_envs http c opt.cluster_name opt.yatai_client w).0
          ≡ ok made.yatai)
  unfolding generate_pod_template_spec template_with proxy_step with_account
  generate_pod_template_spec-Made_of w w' template h =
      let read = lift (read_spec_envs c (spec_envs opt) [] (pos c.bento_service_port)) in
      let (spec, e0, h0) = >>=-eq-ok read _ w h in
      let (yatai, e1, h1) =
        >>=-eq-ok (yatai_envs http c opt) (template_with c lib quantities pods opt client http spec)
          w h0 in
      let w1 = (yatai_envs http c opt w).1 in
      let (is_old, e2, h2) = >>=-eq-ok (lift (is_old_version pods opt.bento)) _ w1 h1 in
      let (resources, e3, h3) =
        >>=-eq-ok (component_config c lib quantities pods opt client http) _ w1 h2 in
      let w3 = (component_config c lib quantities pods opt client http w1).1 in
      let step =
        proxy_of c lib quantities pods opt client http opt.runner_name spec.container_port in
      let (proxy, e4, h4) =
        >>=-eq-ok step
          (λ proxy.
            with_account c lib quantities pods opt client http
              (pod_with c lib quantities pods opt client http is_old spec yatai resources proxy))
          w3 h3 in
      let pod = pod_with c lib quantities pods opt client http is_old spec yatai resources proxy in
      let (account, e5, h5) =
        >>=-eq-ok (service_account c lib quantities pods opt client http pod.service_account_name) _
          (step w3).1 h4 in
      (
        record {
          is_old = is_old;
          spec = spec;
          yatai = yatai;
          resources = resources;
          proxy = proxy;
          account = account;
          read_envs = e0;
          yatai_names =
              unfold yatai_envs in
              client_envs-IsYatai opt.cluster_name opt.yatai_client w w1 yatai (λ i. (e1 i, w1));
          has_proxy =
              proxy_of-eq-ok opt.runner_name spec.container_port w3 (step w3).1 proxy
                (λ i. (e4 i, (step w3).1));
          template_is = sym (ok-injective (ap (λ p. p.0) h5));
        },
        unfold yatai_envs in e1,
      )

  pub generate_pod_template_spec-Made :
      (w w' : World S) (template : PodTemplateSpec)
      → generate_pod_template_spec c lib quantities pods opt client http w ≡ (ok template, w')
      → Made template
  generate_pod_template_spec-Made w w' template h =
      (generate_pod_template_spec-Made_of w w' template h).0

  add_pod_spec-containers :
      (extra : Option ExtraPodSpec) (pod : PodSpec)
      → (more : List Container) × ((add_pod_spec c lib quantities pods opt extra pod).containers
          ≡ pod.containers ++ more)
  add_pod_spec-containers none pod = ([], sym (append-[] pod.containers))
  add_pod_spec-containers (some extra) pod = (extra.containers, refl)

  -- The containers of a pod template: the program's own, the main container first, and then more, those
  -- of the extra pod specification.
  pub template-containers :
      (template : PodTemplateSpec) (made : Made template)
      → (more : List Container) × (template.spec.containers
          ≡ own_containers c lib quantities pods opt
              (main_container c lib quantities pods opt made.is_old made.spec.container_port
                (all_envs c lib quantities pods opt client http made.spec made.yatai)
                made.resources)
              made.spec.container_port
              made.proxy
            ++ more)
  unfolding template_of pod_with pod_spec
  template-containers template made =
      let (more, e) = add_pod_spec-containers (component_pod_spec opt) _ in
      (more, ap (λ t. t.spec.containers) made.template_is ∙ e)
