-- ===== src/Controllers/Pods/Envs.antt =====
-- The environment variables of a component's main container, from `generatePodTemplateSpec` of
-- controllers/handleDeployment.go.
pub mod Loops
pub mod Merge
use yatai_deployment.Base.{
  ℕ, String, Option, none, some, List, [], ◌∷◌, ◌++◌, Bool, true, false, ◌||◌, not, ◌==◌, ◌<>◌, any,
  Result, ok, bind, wrap_err, trim_space, contains, if◌then◌else◌,
}
use yatai_deployment.Base.Int.{ℤ}
use yatai_deployment.Decimal.{decimal, decimal_int}
use yatai_deployment.Decimal.Atoi.{atoi}
use yatai_deployment.Api.Consts.{Consts}
use yatai_deployment.Api.Kube.{EnvVar}
use yatai_deployment.Api.V2alpha1.{BentoDeployment}

abbrev pub env_var : String → String → EnvVar
env_var name value = record { name = name; value = value; value_from = none }

-- Whether a name has been seen.
unfoldable pub seen_in : String → List String → Bool
seen_in name [] = false
seen_in name (other ∷ seen) = other == name || seen_in name seen

-- The variables of the specification: those that are kept, their names, and the port of the container.
pub record SpecEnvs : Type 0 where
  pub envs : List EnvVar
  pub seen : List String
  pub container_port : ℤ

abbrev pub keep_env : EnvVar → SpecEnvs → SpecEnvs
keep_env env rest = record rest { envs = env_var env.name env.value ∷ rest.envs }

module _ (c : Consts) where
  -- The port that a variable of the specification sets.
  pub port_of : EnvVar → ℤ → Result ℤ
  unfolding atoi
  port_of env port =
      if env.name == c.env_bento_service_port
      then wrap_err ("invalid port value " <> env.value) (atoi env.value)
      else ok port

  -- The loop over the variables of the specification: the first of a name is kept, without its
  -- `ValueFrom`.
  unfoldable pub read_spec_envs : List EnvVar → List String → ℤ → Result SpecEnvs
  unfolding seen_in port_of
  read_spec_envs [] seen port = ok (record { envs = []; seen = seen; container_port = port })
  read_spec_envs (env ∷ envs) seen port =
      let skipped = read_spec_envs envs seen port in
      let kept = bind (port_of env port) λ port'.
        bind (read_spec_envs envs (env.name ∷ seen) port') λ rest. ok (keep_env env rest) in
      if seen_in env.name seen then skipped else kept

  -- The variables that each container gets.
  unfoldable pub default_envs : BentoDeployment → ℤ → List EnvVar
  unfolding decimal_int
  default_envs bento_deployment port =
      env_var c.env_bento_service_port (decimal_int port)
      ∷ env_var c.env_yatai_deployment_uid bento_deployment.meta.uid
      ∷ env_var c.env_yatai_bento_deployment_name bento_deployment.meta.name
      ∷ env_var c.env_yatai_bento_deployment_namespace bento_deployment.meta.namespace
      ∷ []

-- The loop over the default variables: those that have not been seen are appended.
unfoldable pub append_unseen : List EnvVar → List String → List EnvVar → List EnvVar
unfolding seen_in
append_unseen [] seen envs = envs
append_unseen (env ∷ defaults) seen envs =
    append_unseen defaults seen (if seen_in env.name seen then envs else envs ++ env ∷ [])

-- `BENTOML_CONFIG_OPTIONS`
abbrev pub config_options : String
config_options = "BENTOML_CONFIG_OPTIONS"

-- The monitoring options for the port of the monitor exporter.
unfoldable pub monitoring_config : ℕ → String
unfolding decimal
monitoring_config port =
    "monitoring.enabled=true\nmonitoring.type=otlp\nmonitoring.options.endpoint=http://127.0.0.1:"
    <> (decimal port <> "\nmonitoring.options.insecure=true")

-- The options of the user, with a line break if there are any.
abbrev pub option_lines : String → String
option_lines options = if options == "" then "" else options <> "\n"

abbrev behind : EnvVar → Option (String × List EnvVar) → Option (String × List EnvVar)
behind env none = none
behind env (some (value, others)) = some (value, env ∷ others)

-- The search for the user's options: the value, and the variables without it.
unfoldable pub take_env : String → List EnvVar → Option (String × List EnvVar)
take_env name [] = none
take_env name (env ∷ envs) =
    let rest = behind env (take_env name envs) in
    if env.name == name then some (env.value, envs) else rest

-- The variables with the monitoring options, given what the search for the user's options found: they
-- are appended unless the user has written some.
unfoldable pub add_monitoring : ℕ → List EnvVar → Option (String × List EnvVar) → List EnvVar
unfolding contains monitoring_config trim_space
add_monitoring port envs none = envs ++ env_var config_options (monitoring_config port) ∷ []
add_monitoring port envs (some (options, others)) =
    let value = option_lines (trim_space options) <> monitoring_config port in
    if contains options "monitoring" then envs else others ++ env_var config_options value ∷ []

unfoldable pub with_monitoring : ℕ → List EnvVar → List EnvVar
unfolding take_env add_monitoring
with_monitoring port envs = add_monitoring port envs (take_env config_options envs)

-- The whole: the variables of the specification, the defaults, and the monitoring options where the
-- pod has a monitor exporter at `monitor_port`.
unfoldable pub merge_envs : SpecEnvs → List EnvVar → Option ℕ → List EnvVar
unfolding append_unseen with_monitoring
merge_envs spec defaults none = append_unseen defaults spec.seen spec.envs
merge_envs spec defaults (some monitor_port) =
    with_monitoring monitor_port (append_unseen defaults spec.seen spec.envs)
