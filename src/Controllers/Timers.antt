-- ===== src/Controllers/Timers.antt =====
-- The two goroutines that SetupWithManager starts: `registerYataiComponent` of
-- controllers/handleOthers.go and `cleanUpAbandonedRunnerServices` of controllers/handleService.go.
use yatai_deployment.Base.{
  ℕ, zero, suc, String, Option, none, some, [], ◌∷◌, Result, ok, err, panic,
}
use yatai_deployment.Base.Dict.{Dict}
use yatai_deployment.Base.Effect.{Exec, pure, lift, call, attempt, wrap_exec, ◌>>=◌, ◌>>◌}
use yatai_deployment.Api.Consts.{Consts}
use yatai_deployment.Api.Yatai.{Http, RegisterYataiComponentSchema}
use yatai_deployment.YataiClient as Client
use yatai_deployment.Controllers.CleanUp.{CleanUpLib, do_clean_up_abandoned_runner_services}
use yatai_deployment.Controllers.Status.{YataiClient, YataiLib, get_yatai_client}

-- An error is logged; the next tick tries again.
unfoldable pub logged : {S : Type 0} → Result (Unit {0}) → Exec S (Unit {0})
logged (ok done) = pure tt
logged (err e) = pure tt
logged panic = lift panic

-- A method that is called at once and at each of the ticks of a timer, of which there have been `n`.
unfoldable pub at_ticks : {S : Type 0} → Exec S (Unit {0}) → ℕ → Exec S (Unit {0})
unfolding logged
at_ticks m zero = do result ← attempt m; logged result
at_ticks m (suc n) = do result ← attempt m; logged result; at_ticks m n

unfoldable pub clean_up_abandoned_runner_services :
    {S : Type 0} → CleanUpLib S → Consts → ℕ → Exec S (Unit {0})
unfolding at_ticks do_clean_up_abandoned_runner_services
clean_up_abandoned_runner_services lib c = at_ticks (do_clean_up_abandoned_runner_services lib c)

-- The calls of the libraries, and the version of the program (version/version.go).
pub record RegisterLib (S : Type 0) : Type 0 where
  pub new_for_config : S → Result (Unit {0}) × S
  pub get_yatai_deployment_namespace : S → Result String × S
  pub version : String

module _ {S : Type 0} (lib : RegisterLib S) (yatai : YataiLib S) (http : Http S) (c : Consts) where
  abbrev selector_labels : Dict String
  selector_labels = ("app.kubernetes.io/name", "yatai-deployment") ∷ []

  unfoldable pub component_schema : String → RegisterYataiComponentSchema
  component_schema namespace = record {
    name = c.yatai_component_name_deployment;
    kube_namespace = namespace;
    version = lib.version;
    selector_labels = selector_labels;
    manifest_selector_labels = selector_labels;
    latest_crd_version = "v2alpha1";
  }

  -- The component is registered if there is a Yatai client.
  unfoldable pub register : Option YataiClient → Exec S (Unit {0})
  unfolding component_schema Client.register_yatai_component
  register none = pure tt
  register (some client) = do
    wrap_exec "create kubernetes clientset" (call lib.new_for_config)
    namespace ← wrap_exec "get yatai deployment namespace" (call lib.get_yatai_deployment_namespace)
    body ←
        Client.register_yatai_component http c
          (Client.new_yatai_client client.endpoint client.api_token) client.cluster_name
          (component_schema namespace)
    pure tt

  unfoldable pub do_register_yatai_component : Exec S (Unit {0})
  unfolding register get_yatai_client
  do_register_yatai_component = do
    client ← wrap_exec "get yatai client" (get_yatai_client yatai c)
    register client

  unfoldable pub register_yatai_component : ℕ → Exec S (Unit {0})
  unfolding at_ticks do_register_yatai_component
  register_yatai_component = at_ticks do_register_yatai_component
