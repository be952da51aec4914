-- ===== src/Controllers/Status.antt =====
-- `setStatusConditions` and `getYataiClient` of controllers/handleOthers.go.
pub mod Frame
pub mod Progress
pub mod Retry
pub mod Cache
use yatai_deployment.Base.{
  ℕ, zero, suc, String, Option, none, some, List, [], ◌∷◌, Result, ok, err, panic, wrap_err, ◌==◌,
  ◌<>◌, if◌then◌else◌,
}
use yatai_deployment.Base.Effect.{
  Error, wrap, Exec, World, YataiConfig, pure, raise, lift, call, attempt, wrap_exec, is_not_found,
  ◌>>=◌, ◌>>◌,
}
use yatai_deployment.Api.Consts.{Consts}
use yatai_deployment.Api.Kube.{NamespacedName, Condition}
use yatai_deployment.Api.V2alpha1.{BentoDeployment}

-- The API client for the resource and its status, and `meta.SetStatusCondition`.
pub record StatusClient (S : Type 0) : Type 0 where
  pub get : NamespacedName → S → Result BentoDeployment × S
  pub update_status : BentoDeployment → S → Result (Unit {0}) × S
  pub set_status_condition : List Condition → Condition → List Condition

module _ {S : Type 0} (client : StatusClient S) where
  -- The loop over the conditions.
  unfoldable pub set_all : List Condition → List Condition → List Condition
  set_all [] old = old
  set_all (condition ∷ conditions) old =
      set_all conditions (client.set_status_condition old condition)

  abbrev pub with_conditions : List Condition → BentoDeployment → BentoDeployment
  with_conditions conditions bento_deployment = record bento_deployment {
    status = record bento_deployment.status {
      conditions = set_all conditions bento_deployment.status.conditions;
    };
  }

  -- At most so many tries; the result of the last update. Between two tries the source sleeps.
  tries : ℕ → NamespacedName → List Condition → Result (Unit {0}) → Exec S (Result (Unit {0}))
  unfolding set_all
  tries zero key conditions last = pure last
  tries (suc n) key conditions last = do
    bento_deployment ← wrap_exec "Failed to re-fetch BentoDeployment" (call (client.get key))
    updated ← attempt (call (client.update_status (with_conditions conditions bento_deployment)))
    elim updated [
      | ok _ ↦ pure (ok tt)
      | err e ↦ tries n key conditions (err e)
      | panic ↦ lift panic
    ]

  unfoldable pub set_status_conditions : NamespacedName → List Condition → Exec S BentoDeployment
  unfolding tries
  set_status_conditions key conditions = do
    last ← tries 3 key conditions (ok tt)
    wrap_exec "Failed to update BentoDeployment status" (lift last)
    wrap_exec "Failed to re-fetch BentoDeployment" (call (client.get key))

-- The libraries' calls for the configuration of Yatai.
pub record YataiLib (S : Type 0) : Type 0 where
  pub new_for_config : S → Result (Unit {0}) × S
  pub get_yatai_config : S → Result YataiConfig × S

-- What `NewYataiClient` is called with, and the name of the cluster.
pub record YataiClient : Type 0 where
  pub endpoint : String
  pub api_token : String
  pub cluster_name : String

-- `DefaultClusterName`
abbrev pub default_cluster_name : String
default_cluster_name = "default"

module _ {S : Type 0} (lib : YataiLib S) (c : Consts) where
  named_cluster : String → String
  named_cluster name = if name == "" then default_cluster_name else name

  client_of : YataiConfig → Option YataiClient
  unfolding named_cluster
  client_of conf =
      if conf.endpoint == ""
      then none
      else (let cluster_name = named_cluster conf.cluster_name in
          some (record {
            endpoint = conf.endpoint;
            api_token =
                c.yatai_deployment_component_name
                <> (":" <> (cluster_name <> (":" <> conf.api_token)));
            cluster_name = cluster_name;
          }))

  -- An error that says that the configuration is missing is returned as it is.
  remember_conf : Result YataiConfig → Exec S YataiConfig
  remember_conf (ok conf) w =
      (ok conf, record w { caches = record w.caches { yatai_conf = some conf } })
  remember_conf (err e) w = (if is_not_found e then err e else err (wrap "get yatai config" e), w)
  remember_conf panic w = (panic, w)

  read_conf : Option YataiConfig → Exec S YataiConfig
  unfolding remember_conf
  read_conf (some conf) = pure conf
  read_conf none = do result ← attempt (call lib.get_yatai_config); remember_conf result

  get_conf : Exec S YataiConfig
  unfolding read_conf
  get_conf w = read_conf w.caches.yatai_conf w

  unfoldable pub get_yatai_client : Exec S (Option YataiClient)
  unfolding get_conf client_of
  get_yatai_client = do
    wrap_exec "create kubernetes clientset" (call lib.new_for_config)
    conf ← get_conf
    pure (client_of conf)
