-- ===== src/Controllers/Pods/Template/Values.antt =====
-- What the environment of a main container is to hold, written apart from the code that makes it
-- (`generatePodTemplateSpec` of controllers/handleDeployment.go): tables from names to values.
use yatai_deployment.Base.{
  String, Option, none, some, List, [], ◌∷◌, ◌++◌, ok, ◌==◌, ◌<>◌, find_first, ◌≡◌, inl, inr, ◌∙◌,
  refl, ap, sym, subst, arith,
}
use yatai_deployment.Base.Int.{ℤ, pos}
use yatai_deployment.Base.Dict.{Dict, lookup}
use yatai_deployment.Base.Effect.{World, ok-injective, >>=-eq-ok}
use yatai_deployment.Decimal.{decimal_int}
use yatai_deployment.Decimal.Atoi.{atoi}
use yatai_deployment.Api.Consts.{Consts}
use yatai_deployment.Api.Kube.{EnvVar}
use yatai_deployment.Api.V2alpha1.{BentoDeployment, BentoDeploymentRunnerSpec}
use yatai_deployment.Api.Yatai.{Http, OrganizationFullSchema, ClusterFullSchema, VersionSchema}
use yatai_deployment.YataiClient.{YataiClient, get_organization, get_cluster, get_version}
use yatai_deployment.Controllers.Debug.{find_runner}
use yatai_deployment.Controllers.Pods.Envs.{SpecEnvs, seen_in, read_spec_envs, default_envs}
use yatai_deployment.Controllers.Pods.Envs.Loops.{env_value, read-value, read-port}
use yatai_deployment.Controllers.Pods.Options.{PodOption}
use yatai_deployment.Controllers.Pods.Component.{
  client_envs, cluster_or_default, env_list, spec_envs,
}

-- The first value that a list of variables, which may be nil, gives to a name.
abbrev pub value_in : String → Option (List EnvVar) → Option String
value_in j none = none
value_in j (some envs) = env_value j envs

-- The value that the resource gives to a name: for the API server in its own variables, for a runner in
-- those of the first runner of that name.
abbrev pub stated_value : PodOption → String → Option String
stated_value opt j = elim opt.runner_name [
  | none ↦ value_in j opt.bento_deployment.spec.envs
  | some runner_name ↦
      elim (find_first (λ runner. runner.name == runner_name) opt.bento_deployment.spec.runners) [
        | none ↦ none
        | some runner ↦ value_in j runner.envs
      ]
]

value_in-env_list :
    (j : String) (envs : Option (List EnvVar)) → env_value j (env_list envs) ≡ value_in j envs
unfolding env_value
value_in-env_list j none = refl
value_in-env_list j (some envs) = refl

pub spec_envs-value :
    (opt : PodOption) (j : String) → env_value j (spec_envs opt) ≡ stated_value opt j
unfolding spec_envs find_runner env_value
spec_envs-value opt j = ground (
  arith,
  value_in-env_list j opt.bento_deployment.spec.envs,
  λ (runner : BentoDeploymentRunnerSpec). value_in-env_list j runner.envs,
)

module _ {S : Type 0} (http : Http S) (c : Consts) where
  -- The variables for Yatai: none without a client, and else from the server's answers to three calls made
  -- one after the other from `w`, which ask for the organization, the cluster and the version.
  abbrev pub YataiTable : Option String → Option YataiClient → World S → Dict String → Type 0
  YataiTable cluster_name none w table = table ≡ []
  YataiTable cluster_name (some client) w table =
      let w1 = (get_organization http c client w).1 in
      let find = get_cluster http c client (cluster_or_default cluster_name) in
      (organization : OrganizationFullSchema) × (cluster : ClusterFullSchema)
      × (version : VersionSchema) × ((get_organization http c client w).0 ≡ ok organization)
      × ((find w1).0 ≡ ok cluster)
      × ((get_version http c client (find w1).1).0 ≡ ok version)
      × (table
          ≡ (c.env_yatai_version, version.version <> ("-" <> version.git_commit))
            ∷ (c.env_yatai_org_uid, organization.uid)
            ∷ (c.env_yatai_cluster_uid, cluster.uid)
            ∷ [])

  -- Variables hold what a table says.
  abbrev pub Tabled : List EnvVar → Dict String → Type 0
  Tabled envs table = (j : String) → env_value j envs ≡ lookup j table

  pub client_envs-YataiTable :
      (cluster_name : Option String) (client : Option YataiClient) (w w' : World S)
      (yatai : List EnvVar)
      → client_envs http c cluster_name client w ≡ (ok yatai, w')
      → (table : Dict String) × YataiTable cluster_name client w table × Tabled yatai table
  unfolding client_envs env_value lookup
  client_envs-YataiTable cluster_name none w w' yatai h =
      let same = ok-injective (ap (λ p. p.0) h) in
      ([], refl, subst (λ envs. Tabled envs []) same λ j. refl)
  client_envs-YataiTable cluster_name (some client) w w' yatai h =
      let (organization, e1, h1) = >>=-eq-ok (get_organization http c client) _ w h in
      let w1 = (get_organization http c client w).1 in
      let find = get_cluster http c client (cluster_or_default cluster_name) in
      let (cluster, e2, h2) = >>=-eq-ok find _ w1 h1 in
      let (version, e3, h3) = >>=-eq-ok (get_version http c client) _ (find w1).1 h2 in
      let table : Dict String =
        (c.env_yatai_version, version.version <> ("-" <> version.git_commit))
        ∷ (c.env_yatai_org_uid, organization.uid)
        ∷ (c.env_yatai_cluster_uid, cluster.uid)
        ∷ [] in
      (
        table,
        (organization, cluster, version, e1, e2, e3, refl),
        subst (λ envs. Tabled envs table) (ok-injective (ap (λ p. p.0) h3)) λ j. refl,
      )

module _ (c : Consts) where
  -- The port of the container: the number that the resource gives as a text, and else the default port.
  abbrev pub PortOf : Option String → ℤ → Type 0
  PortOf none port = port ≡ pos c.bento_service_port
  PortOf (some text) port = atoi text ≡ ok port

  pub read_spec_envs-PortOf :
      (given : List EnvVar) (spec : SpecEnvs)
      → read_spec_envs c given [] (pos c.bento_service_port) ≡ ok spec
      → PortOf (env_value c.env_bento_service_port given) spec.container_port
  unfolding seen_in
  read_spec_envs-PortOf given spec h =
      let start = pos c.bento_service_port in
      let (_, kept) = read-value c c.env_bento_service_port given [] start spec h in
      elim (read-port c given [] start spec h) [
        | inl (absent, same) ↦ subst (λ o. PortOf o spec.container_port) (sym absent ∙ kept) same
        | inr (text, there, reads) ↦
            subst (λ o. PortOf o spec.container_port) (sym there ∙ kept) reads
      ]

  -- The port, and what tells the program which resource it serves.
  abbrev pub own_table : BentoDeployment → ℤ → Dict String
  own_table bento_deployment port =
      (c.env_bento_service_port, decimal_int port)
      ∷ (c.env_yatai_deployment_uid, bento_deployment.meta.uid)
      ∷ (c.env_yatai_bento_deployment_name, bento_deployment.meta.name)
      ∷ (c.env_yatai_bento_deployment_namespace, bento_deployment.meta.namespace)
      ∷ []

  pub default_envs-Tabled :
      (bento_deployment : BentoDeployment) (port : ℤ) (yatai : List EnvVar) (table : Dict String)
      (j : String)
      → env_value j yatai ≡ lookup j table
      → env_value j (default_envs c bento_deployment port ++ yatai)
        ≡ lookup j (own_table bento_deployment port ++ table)
  unfolding default_envs env_value lookup
  default_envs-Tabled bento_deployment port yatai table j h = ground (arith, h)
