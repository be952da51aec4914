-- ===== src/Controllers/Pods/Envs/Merge.antt =====
-- Which environment variables a component's container gets.
use yatai_deployment.Base.{
  ℕ, ◌<◌, String, Option, none, some, List, [], ◌∷◌, ◌++◌, true, false, ◌&&◌, not, ◌==◌, ok, ◌≡◌,
  ◌⊎◌, inl, inr, Bool-cases, eq_refl, ap, ◌∙◌, refl, arith, eq_iff, is_some, or_else,
}
use yatai_deployment.Base.Int.{ℤ, pos}
use yatai_deployment.Decimal.{decimal, decimal_int, decimal_int-pos}
use yatai_deployment.Decimal.Atoi.{atoi, atoi-decimal}
use yatai_deployment.Api.Consts.{Consts}
use yatai_deployment.Api.Kube.{EnvVar}
use yatai_deployment.Api.V2alpha1.{BentoDeployment}
use yatai_deployment.Controllers.Pods.Envs.{
  SpecEnvs, seen_in, read_spec_envs, append_unseen, config_options, take_env, merge_envs,
  default_envs,
}
use yatai_deployment.Controllers.Pods.Envs.Loops.{
  env_value, distinct, read-value, read-distinct, read-port, value-append, value-append_unseen,
  value-untaken, distinct-untaken, distinct-append, value-add_monitoring, distinct-add_monitoring,
}

-- Names that are both among the defaults and the variables have been seen.
abbrev Seen : List EnvVar → List String → List EnvVar → Type 0
Seen defaults seen envs =
    (j : String)
    → (is_some (env_value j defaults) && (is_some (env_value j envs) && not (seen_in j seen)))
      ≡ false

distinct-append_unseen :
    (defaults : List EnvVar) (seen : List String) (envs : List EnvVar)
    → distinct defaults ≡ true
    → distinct envs ≡ true
    → Seen defaults seen envs
    → distinct (append_unseen defaults seen envs) ≡ true
unfolding append_unseen distinct
distinct-append_unseen [] seen envs hd he s = he
distinct-append_unseen (env ∷ defaults) seen envs hd he s =
    elim (Bool-cases (seen_in env.name seen)) [
      | inl old ↦ ground (
        arith,
        old,
        distinct-append_unseen defaults seen envs (ground (arith, hd)) he
            λ j. ground (arith, s j, old, eq_iff env.name j),
      )
      | inr fresh ↦ ground (
        arith,
        fresh,
        distinct-append_unseen defaults seen (envs ++ env ∷ []) (ground (arith, hd))
            (distinct-append envs env he (ground (arith, s env.name, fresh, eq_refl env.name)))
            λ j. ground (arith, s j, hd, fresh, eq_iff env.name j, value-append j envs (env ∷ [])),
      )
    ]

module _ (c : Consts) where
  -- The monitoring options are set by a variable of its own.
  abbrev pub OwnOptions : Option ℕ → String → Type 0
  OwnOptions monitor j = (monitor ≡ none) ⊎ ((config_options == j) ≡ false)

  -- The variables that a container gets, where `given` are those of the specification: a name has the
  -- value that the specification gives it first, and else the default. The options of BentoML, which
  -- are changed for a pod with a monitor exporter, are left out.
  pub merge_envs-value :
      (given defaults : List EnvVar) (port : ℤ) (spec : SpecEnvs) (monitor : Option ℕ) (j : String)
      → read_spec_envs c given [] port ≡ ok spec
      → OwnOptions monitor j
      → env_value j (merge_envs spec defaults monitor)
        ≡ or_else (env_value j given) (env_value j defaults)
  unfolding merge_envs
  merge_envs-value given defaults port spec none j h apart = ground (
    arith,
    read-value c j given [] port spec h,
    value-append_unseen j defaults spec.seen spec.envs,
  )
  merge_envs-value given defaults port spec (some monitor) j h apart =
      let envs = append_unseen defaults spec.seen spec.envs in
      ground (
        arith,
        apart,
        read-value c j given [] port spec h,
        value-append_unseen j defaults spec.seen spec.envs,
        value-untaken config_options j envs,
        value-add_monitoring monitor j envs (take_env config_options envs),
      )

  -- No variable is set twice, provided that the defaults have different names.
  pub merge_envs-distinct :
      (given defaults : List EnvVar) (port : ℤ) (spec : SpecEnvs) (monitor : Option ℕ)
      → read_spec_envs c given [] port ≡ ok spec
      → distinct defaults ≡ true
      → distinct (merge_envs spec defaults monitor) ≡ true
  unfolding merge_envs
  merge_envs-distinct given defaults port spec none h apart =
      distinct-append_unseen defaults spec.seen spec.envs apart
        (read-distinct c given [] port spec h)
        λ j. ground (arith, read-value c j given [] port spec h)
  merge_envs-distinct given defaults port spec (some monitor) h apart =
      let envs = append_unseen defaults spec.seen spec.envs in
      let before =
        distinct-append_unseen defaults spec.seen spec.envs apart
          (read-distinct c given [] port spec h)
          λ j. ground (arith, read-value c j given [] port spec h) in
      let (left, absent) = distinct-untaken config_options envs before in
      distinct-add_monitoring monitor envs (take_env config_options envs) before left absent

  port-text :
      (given : List EnvVar) (port : ℕ) (spec : SpecEnvs) (default : String)
      → read_spec_envs c given [] (pos port) ≡ ok spec
      → port < 9223372036854775808
      → default ≡ decimal_int spec.container_port
      → (t : String) × (or_else (env_value c.env_bento_service_port given) (some default) ≡ some t)
        × (atoi t ≡ ok spec.container_port)
  unfolding seen_in
  port-text given port spec default h small e =
      let kept = read-value c c.env_bento_service_port given [] (pos port) spec h in
      elim (read-port c given [] (pos port) spec h) [
        | inl (absent, same) ↦ (
          decimal port,
          ground (arith, absent, kept, e ∙ (ap decimal_int same ∙ decimal_int-pos port)),
          ground (arith, atoi-decimal port small, same),
        )
        | inr (t, there, reads) ↦ (t, ground (arith, there, kept), reads)
      ]

  -- The port that the program in the container reads from its environment is the one that the pod
  -- gives to the container: the port of the specification where that names one, and else the default.
  pub merge_envs-port :
      (given : List EnvVar) (bento_deployment : BentoDeployment) (port : ℕ) (spec : SpecEnvs)
      (extra : List EnvVar) (monitor : Option ℕ)
      → read_spec_envs c given [] (pos port) ≡ ok spec
      → port < 9223372036854775808
      → OwnOptions monitor c.env_bento_service_port
      → (t : String) × (env_value c.env_bento_service_port
            (merge_envs spec (default_envs c bento_deployment spec.container_port ++ extra) monitor)
          ≡ some t)
        × (atoi t ≡ ok spec.container_port)
  merge_envs-port given bento_deployment port spec extra monitor h small apart =
      let default = decimal_int spec.container_port in
      let defaults = default_envs c bento_deployment spec.container_port ++ extra in
      let (t, there, reads) = port-text given port spec default h small refl in
      let value =
        merge_envs-value given defaults (pos port) spec monitor c.env_bento_service_port h apart in
      (
        t,
        unfold env_value in
            unfold default_envs in ground (arith, value, there, eq_refl c.env_bento_service_port),
        reads,
      )
