-- ===== src/Controllers/Pods/Envs/Loops.antt =====
-- The loops over environment variables: what they keep, and that they keep names distinct.
use yatai_deployment.Base.{
  ℕ, String, Option, none, some, List, [], ◌∷◌, ◌++◌, Bool, true, false, ◌&&◌, ◌||◌, not, ◌==◌, ok,
  ◌≡◌, ◌⊎◌, wrap_err-eq-ok, ◌<>◌, inl, inr, Bool-cases, trim_space, bind, eq_refl, sym, refl, arith,
  eq_iff, is_some, or_else, if◌then◌else◌, bind-eq-ok, ok-injective,
}
use yatai_deployment.Base.Int.{ℤ}
use yatai_deployment.Decimal.Atoi.{atoi}
use yatai_deployment.Api.Consts.{Consts}
use yatai_deployment.Api.Kube.{EnvVar}
use yatai_deployment.Controllers.Pods.Envs.{
  SpecEnvs, seen_in, read_spec_envs, append_unseen, config_options, take_env, port_of,
  add_monitoring, env_var, monitoring_config, option_lines, keep_env,
}

-- The value of the first variable of a name.
unfoldable pub env_value : String → List EnvVar → Option String
env_value j [] = none
env_value j (env ∷ envs) = if env.name == j then some env.value else env_value j envs

-- No two variables have one name.
unfoldable pub distinct : List EnvVar → Bool
unfolding env_value
distinct [] = true
distinct (env ∷ envs) = not (is_some (env_value env.name envs)) && distinct envs

-- Whether variables are distinct depends on their names alone.
abbrev pub names_of : List EnvVar → List String
names_of [] = []
names_of (env ∷ envs) = env.name ∷ names_of envs

value-names :
    (j : String) (xs ys : List EnvVar)
    → names_of xs ≡ names_of ys
    → is_some (env_value j xs) ≡ is_some (env_value j ys)
unfolding env_value
value-names j [] [] e = refl
value-names j [] (y ∷ ys) e = cc
value-names j (x ∷ xs) [] e = cc
value-names j (x ∷ xs) (y ∷ ys) e = ground (arith, e, value-names j xs ys)

pub distinct-names : (xs ys : List EnvVar) → names_of xs ≡ names_of ys → distinct xs ≡ distinct ys
unfolding distinct
distinct-names [] [] e = refl
distinct-names [] (y ∷ ys) e = cc
distinct-names (x ∷ xs) [] e = cc
distinct-names (x ∷ xs) (y ∷ ys) e =
    ground (arith, e, distinct-names xs ys, value-names x.name xs ys)

module _ (c : Consts) where
  read-cons :
      (env : EnvVar) (envs : List EnvVar) (seen : List String) (port : ℤ) (spec : SpecEnvs)
      → read_spec_envs c (env ∷ envs) seen port ≡ ok spec
      → ((seen_in env.name seen ≡ true) × (read_spec_envs c envs seen port ≡ ok spec))
        ⊎ ((port' : ℤ) × (rest : SpecEnvs) × (seen_in env.name seen ≡ false)
            × (port_of c env port ≡ ok port')
            × (read_spec_envs c envs (env.name ∷ seen) port' ≡ ok rest)
            × (spec ≡ keep_env env rest))
  unfolding read_spec_envs
  read-cons env envs seen port spec h = elim (Bool-cases (seen_in env.name seen)) [
    | inl old ↦ inl (old, ground (arith, h))
    | inr fresh ↦
        let (port', ep, more) =
          bind-eq-ok (port_of c env port)
            (λ port'.
              bind (read_spec_envs c envs (env.name ∷ seen) port') λ rest. ok (keep_env env rest))
            (ground (arith, h)) in
        let (rest, er, kept) =
          bind-eq-ok (read_spec_envs c envs (env.name ∷ seen) port')
            (λ rest. ok (keep_env env rest)) more in
        inr (port', rest, fresh, ep, er, sym (ok-injective kept))
  ]

  -- What the loop has kept, and the names that it has seen.
  pub read-value :
      (j : String) (envs : List EnvVar) (seen : List String) (port : ℤ) (spec : SpecEnvs)
      → read_spec_envs c envs seen port ≡ ok spec
      → (seen_in j spec.seen ≡ (seen_in j seen || is_some (env_value j envs)))
        × (env_value j spec.envs ≡ (if seen_in j seen then none else env_value j envs))
  unfolding read_spec_envs env_value
  read-value j [] seen port spec h = ground (arith, ok-injective h)
  read-value j (env ∷ envs) seen port spec h = elim (read-cons env envs seen port spec h) [
    | inl (old, more) ↦
        ground (arith, old, eq_iff env.name j, read-value j envs seen port spec more)
    | inr (port', rest, fresh, _, more, kept) ↦
        ground (
          arith,
          fresh,
          kept,
          eq_iff env.name j,
          read-value j envs (env.name ∷ seen) port' rest more,
        )
  ]

  pub read-distinct :
      (envs : List EnvVar) (seen : List String) (port : ℤ) (spec : SpecEnvs)
      → read_spec_envs c envs seen port ≡ ok spec
      → distinct spec.envs ≡ true
  unfolding read_spec_envs distinct
  read-distinct [] seen port spec h = ground (arith, ok-injective h)
  read-distinct (env ∷ envs) seen port spec h = elim (read-cons env envs seen port spec h) [
    | inl (old, more) ↦ read-distinct envs seen port spec more
    | inr (port', rest, fresh, _, more, kept) ↦ ground (
      arith,
      kept,
      eq_refl env.name,
      read-value env.name envs (env.name ∷ seen) port' rest more,
      read-distinct envs (env.name ∷ seen) port' rest more,
    )
  ]

  port_of-eq-ok :
      (env : EnvVar) (port port' : ℤ)
      → port_of c env port ≡ ok port'
      → (((env.name == c.env_bento_service_port) ≡ true) × (atoi env.value ≡ ok port'))
        ⊎ (((env.name == c.env_bento_service_port) ≡ false) × (port ≡ port'))
  unfolding port_of
  port_of-eq-ok env port port' h = elim (Bool-cases (env.name == c.env_bento_service_port)) [
    | inl same ↦ inl (
      same,
      wrap_err-eq-ok ("invalid port value " <> env.value) (atoi env.value)
          (ground (arith, same, h)),
    )
    | inr other ↦ inr (other, ok-injective (ground (arith, other, h)))
  ]

  -- The port after the loop.
  pub read-port :
      (envs : List EnvVar) (seen : List String) (port : ℤ) (spec : SpecEnvs)
      → read_spec_envs c envs seen port ≡ ok spec
      → ((env_value c.env_bento_service_port spec.envs ≡ none) × (spec.container_port ≡ port))
        ⊎ ((t : String) × (env_value c.env_bento_service_port spec.envs ≡ some t)
            × (atoi t ≡ ok spec.container_port))
  unfolding read_spec_envs env_value
  read-port [] seen port spec h = inl (ground (arith, ok-injective h))
  read-port (env ∷ envs) seen port spec h = elim (read-cons env envs seen port spec h) [
    | inl (old, more) ↦ read-port envs seen port spec more
    | inr (port', rest, fresh, ep, more, kept) ↦ ground (
      arith,
      kept,
      ep,
      fresh,
      eq_iff env.name c.env_bento_service_port,
      eq_refl c.env_bento_service_port,
      port_of-eq-ok env port port' ep,
      read-value c.env_bento_service_port envs (env.name ∷ seen) port' rest more,
      read-port envs (env.name ∷ seen) port' rest more,
    )
  ]

pub or_else-none : (o : Option String) → or_else o none ≡ o
or_else-none none = refl
or_else-none (some v) = refl

pub value-append :
    (j : String) (xs ys : List EnvVar)
    → env_value j (xs ++ ys) ≡ or_else (env_value j xs) (env_value j ys)
unfolding env_value
value-append j [] ys = refl
value-append j (x ∷ xs) ys = ground (arith, value-append j xs ys)

pub value-append_unseen :
    (j : String) (defaults : List EnvVar) (seen : List String) (envs : List EnvVar)
    → env_value j (append_unseen defaults seen envs)
      ≡ or_else (env_value j envs) (if seen_in j seen then none else env_value j defaults)
unfolding env_value append_unseen
value-append_unseen j [] seen envs = ground (arith, or_else-none (env_value j envs))
value-append_unseen j (env ∷ defaults) seen envs = ground (
  arith,
  eq_iff env.name j,
  value-append j envs (env ∷ []),
  value-append_unseen j defaults seen envs,
  value-append_unseen j defaults seen (envs ++ env ∷ []),
)

-- The variables without the one that was taken.
abbrev pub untaken : Option (String × List EnvVar) → List EnvVar → List EnvVar
untaken none envs = envs
untaken (some (value, others)) envs = others

pub value-untaken :
    (name j : String) (envs : List EnvVar)
    → (name == j) ≡ false
    → env_value j (untaken (take_env name envs) envs) ≡ env_value j envs
unfolding take_env env_value
value-untaken name j [] ne = refl
value-untaken name j (env ∷ envs) ne =
    ground (arith, ne, eq_iff env.name name, eq_iff env.name j, value-untaken name j envs ne)

-- Among variables of different names, the one that was taken is not left.
pub distinct-untaken :
    (name : String) (envs : List EnvVar)
    → distinct envs ≡ true
    → (distinct (untaken (take_env name envs) envs) ≡ true)
      × (env_value name (untaken (take_env name envs) envs) ≡ none)
unfolding take_env distinct
distinct-untaken name [] h = (refl, refl)
distinct-untaken name (env ∷ envs) h = ground (
  arith,
  h,
  eq_iff env.name name,
  eq_iff name env.name,
  distinct-untaken name envs,
  value-untaken name env.name envs,
)

pub distinct-append :
    (envs : List EnvVar) (env : EnvVar)
    → distinct envs ≡ true
    → env_value env.name envs ≡ none
    → distinct (envs ++ env ∷ []) ≡ true
unfolding distinct
distinct-append [] env h fresh = refl
distinct-append (x ∷ envs) env h fresh = ground (
  arith,
  h,
  fresh,
  eq_iff x.name env.name,
  eq_iff env.name x.name,
  value-append x.name envs (env ∷ []),
  distinct-append envs env,
)

pub value-add_monitoring :
    (port : ℕ) (j : String) (envs : List EnvVar) (found : Option (String × List EnvVar))
    → (config_options == j) ≡ false
    → env_value j (untaken found envs) ≡ env_value j envs
    → env_value j (add_monitoring port envs found) ≡ env_value j envs
unfolding add_monitoring env_value
value-add_monitoring port j envs none ne same = ground (
  arith,
  ne,
  or_else-none (env_value j envs),
  value-append j envs (env_var config_options (monitoring_config port) ∷ []),
)
value-add_monitoring port j envs (some (options, others)) ne same =
    let value = option_lines (trim_space options) <> monitoring_config port in
    ground (
      arith,
      ne,
      same,
      or_else-none (env_value j others),
      value-append j others (env_var config_options value ∷ []),
    )

pub distinct-add_monitoring :
    (port : ℕ) (envs : List EnvVar) (found : Option (String × List EnvVar))
    → distinct envs ≡ true
    → distinct (untaken found envs) ≡ true
    → env_value config_options (untaken found envs) ≡ none
    → distinct (add_monitoring port envs found) ≡ true
unfolding add_monitoring
distinct-add_monitoring port envs none h left absent =
    distinct-append envs (env_var config_options (monitoring_config port)) h absent
distinct-add_monitoring port envs (some (options, others)) h left absent =
    let value = option_lines (trim_space options) <> monitoring_config port in
    ground (arith, h, distinct-append others (env_var config_options value) left absent)

-- Some variables of distinct ones are distinct.
pub distinct-prefix : (xs ys : List EnvVar) → distinct (xs ++ ys) ≡ true → distinct xs ≡ true
unfolding distinct
distinct-prefix [] ys h = refl
distinct-prefix (x ∷ xs) ys h = ground (arith, h, value-append x.name xs ys, distinct-prefix xs ys)
