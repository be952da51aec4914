-- ===== src/Controllers/Pods/Template/Environment.antt =====
-- The environment and the port of the main container in a generated pod template.
use yatai_deployment.Base.{
  ◌<◌, ℕ, String, Option, none, some, List, [], ◌∷◌, ◌++◌, true, false, ok, ◌==◌, is_some, or_else,
  ◌≡◌, inl, inr, ◌∙◌, refl, ap, subst, if◌then◌else◌,
}
use yatai_deployment.Base.Int.{ℤ, pos, int32}
use yatai_deployment.Decimal.Atoi.{atoi}
use yatai_deployment.Api.Consts.{Consts}
use yatai_deployment.Api.Kube.{EnvVar, QuantityLib}
use yatai_deployment.Api.Pods.{Container, ContainerPort, PodTemplateSpec}
use yatai_deployment.Api.Yatai.{Http}
use yatai_deployment.Conversion.Names.{TextLib}
use yatai_deployment.Controllers.Pods.Envs.{env_var, config_options, default_envs, merge_envs}
use yatai_deployment.Controllers.Pods.Envs.Loops.{
  env_value, distinct, distinct-names, distinct-prefix,
}
use yatai_deployment.Controllers.Pods.Envs.Merge.{
  merge_envs-value, merge_envs-distinct, merge_envs-port,
}
use yatai_deployment.Controllers.Pods.Options.{PodOption, PodLib, PodClient}
use yatai_deployment.Controllers.Pods.Sidecars.{monitor_exporter_port, tcp_port}
use yatai_deployment.Controllers.Pods.Component.{spec_envs, monitor_of, client_envs}
use yatai_deployment.Controllers.Pods.Containers.{main_container, own_containers}
use yatai_deployment.Controllers.Pods.Template.{all_envs, generate_pod_template_spec}
use yatai_deployment.Controllers.Pods.Template.Inversion.{
  Made, IsYatai, generate_pod_template_spec-Made, generate_pod_template_spec-Made_of,
  template-containers,
}
use yatai_deployment.Base.Effect.{World}
use yatai_deployment.Base.Dict.{Dict, lookup}
use yatai_deployment.Controllers.Pods.Template.Values.{
  stated_value, spec_envs-value, YataiTable, client_envs-YataiTable, PortOf, read_spec_envs-PortOf,
  own_table, default_envs-Tabled,
}

-- The variables and the ports of the first container.
abbrev pub first_env : List Container → List EnvVar
first_env [] = []
first_env (container ∷ _) = container.env

abbrev pub first_ports : List Container → List ContainerPort
first_ports [] = []
first_ports (container ∷ _) = container.ports

-- The names of the variables that the program sets.
abbrev pub first_four : Consts → List EnvVar
first_four c =
    env_var c.env_bento_service_port ""
    ∷ env_var c.env_yatai_deployment_uid ""
    ∷ env_var c.env_yatai_bento_deployment_name ""
    ∷ env_var c.env_yatai_bento_deployment_namespace ""
    ∷ []

abbrev pub last_three : Consts → List EnvVar
last_three c =
    env_var c.env_yatai_version ""
    ∷ env_var c.env_yatai_org_uid ""
    ∷ env_var c.env_yatai_cluster_uid ""
    ∷ []

-- They differ.
abbrev pub EnvNamesDiffer : Consts → Type 0
EnvNamesDiffer c = distinct (first_four c ++ last_three c) ≡ true

module _ {S : Type 0} (client : PodClient S) (http : Http S) (c : Consts) (lib : TextLib)
    (quantities : QuantityLib) (pods : PodLib) (opt : PodOption) where
  defaults-distinct :
      (yatai : List EnvVar) (port : ℤ)
      → EnvNamesDiffer c
      → IsYatai client http c lib quantities pods opt yatai
      → distinct (default_envs c opt.bento_deployment port ++ yatai) ≡ true
  unfolding default_envs
  defaults-distinct yatai port differ (inl e) =
      ap (λ ys. distinct (default_envs c opt.bento_deployment port ++ ys)) e
      ∙ (distinct-names (default_envs c opt.bento_deployment port ++ []) (first_four c) refl
          ∙ distinct-prefix (first_four c) (last_three c) differ)
  defaults-distinct yatai port differ (inr (version, organization, cluster, e)) =
      ap (λ ys. distinct (default_envs c opt.bento_deployment port ++ ys)) e
      ∙ (distinct-names _ (first_four c ++ last_three c) refl ∙ differ)

  abbrev monitor_port : Option ℕ
  monitor_port = if is_some (monitor_of opt) then some (monitor_exporter_port c) else none

  template-env :
      (template : PodTemplateSpec) (made : Made client http c lib quantities pods opt template)
      → first_env template.spec.containers
        ≡ merge_envs made.spec
            (default_envs c opt.bento_deployment made.spec.container_port ++ made.yatai)
            monitor_port
  unfolding own_containers main_container all_envs
  template-env template made =
      ap first_env (template-containers client http c lib quantities pods opt template made).1

  template-port :
      (template : PodTemplateSpec) (made : Made client http c lib quantities pods opt template)
      → first_ports template.spec.containers
        ≡ tcp_port c.bento_container_port_name (int32 made.spec.container_port) ∷ []
  unfolding own_containers main_container
  template-port template made =
      ap first_ports (template-containers client http c lib quantities pods opt template made).1

  -- In a generated pod template no environment variable of the main container is set twice, provided
  -- that the names that the program sets differ.
  pub template-distinct :
      (w w' : World S) (template : PodTemplateSpec)
      → EnvNamesDiffer c
      → generate_pod_template_spec c lib quantities pods opt client http w ≡ (ok template, w')
      → distinct (first_env template.spec.containers) ≡ true
  template-distinct w w' template differ h =
      let made =
        generate_pod_template_spec-Made client http c lib quantities pods opt w w' template h in
      ap distinct (template-env template made)
      ∙ merge_envs-distinct c (spec_envs opt)
          (default_envs c opt.bento_deployment made.spec.container_port ++ made.yatai)
          (pos c.bento_service_port) made.spec monitor_port made.read_envs
          (defaults-distinct made.yatai made.spec.container_port differ made.yatai_names)

  -- In the main container of a generated pod template a name of an environment variable has the first
  -- value that the resource's specification of the API server, or of the runner, gives to it, and else
  -- the one of the table: the port, the uid, the name and the namespace of the resource, and, with a
  -- client for Yatai, its version and the uids of the organization and of the cluster as the server has
  -- answered in this run. The port is the number of the text that the specification gives to the
  -- port's variable, and the default port if there is none. The options of BentoML are left out.
  pub template-value :
      (w w' : World S) (template : PodTemplateSpec) (j : String)
      → (config_options == j) ≡ false
      → generate_pod_template_spec c lib quantities pods opt client http w ≡ (ok template, w')
      → (port : ℤ) × PortOf c (stated_value opt c.env_bento_service_port) port
        × ((yatai : Dict String) × YataiTable http c opt.cluster_name opt.yatai_client w yatai
            × (env_value j (first_env template.spec.containers)
                ≡ or_else
                    (stated_value opt j)
                    (lookup j (own_table c opt.bento_deployment port ++ yatai))))
  template-value w w' template j other h =
      let (made, e) =
        generate_pod_template_spec-Made_of client http c lib quantities pods opt w w' template h in
      let ask = client_envs http c opt.cluster_name opt.yatai_client in
      let (table, answers, tabled) =
        client_envs-YataiTable http c opt.cluster_name opt.yatai_client w (ask w).1 made.yatai
          (λ i. (e i, (ask w).1)) in
      let port = made.spec.container_port in
      let defaults = default_envs c opt.bento_deployment port ++ made.yatai in
      (
        port,
        subst (λ o. PortOf c o port) (spec_envs-value opt c.env_bento_service_port)
            (read_spec_envs-PortOf c (spec_envs opt) made.spec made.read_envs),
        (
          table,
          answers,
          ap (λ envs. env_value j envs) (template-env template made)
              ∙ (merge_envs-value c (spec_envs opt) defaults (pos c.bento_service_port) made.spec
                    monitor_port j made.read_envs (inr other)
                  ∙ (ap (λ o. or_else o (env_value j defaults)) (spec_envs-value opt j)
                      ∙ ap (or_else (stated_value opt j)) (
                          default_envs-Tabled c opt.bento_deployment port made.yatai table j
                            (tabled j)))),
        ),
      )

  -- The main container of a generated pod template finds in its environment a port, as a text that Atoi
  -- reads, and the container's port is that number, cut to 32 bits, provided that the default port is
  -- below 2 ^ 63 and is not named like the options of BentoML.
  pub template-listens :
      (w w' : World S) (template : PodTemplateSpec)
      → c.bento_service_port < 9223372036854775808
      → (config_options == c.env_bento_service_port) ≡ false
      → generate_pod_template_spec c lib quantities pods opt client http w ≡ (ok template, w')
      → (text : String) × (port : ℤ) × (env_value c.env_bento_service_port
            (first_env template.spec.containers)
          ≡ some text)
        × (atoi text ≡ ok port)
        × (first_ports template.spec.containers
            ≡ tcp_port c.bento_container_port_name (int32 port) ∷ [])
  template-listens w w' template small other h =
      let made =
        generate_pod_template_spec-Made client http c lib quantities pods opt w w' template h in
      let (text, there, reads) =
        merge_envs-port c (spec_envs opt) opt.bento_deployment c.bento_service_port made.spec
          made.yatai monitor_port made.read_envs small (inr other) in
      (
        text,
        made.spec.container_port,
        ap (λ envs. env_value c.env_bento_service_port envs) (template-env template made) ∙ there,
        reads,
        template-port template made,
      )
