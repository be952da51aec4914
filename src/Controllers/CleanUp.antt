-- ===== src/Controllers/CleanUp.antt =====
-- `doCleanUpAbandonedRunnerServices` of controllers/handleService.go: the Services of runners that no
-- pod is behind any more are deleted.
pub mod Contract
pub mod Safety
use yatai_deployment.Base.{
  ℕ, ◌*◌, String, Option, none, some, List, [], ◌∷◌, Result, ok, ◌<>◌, ltb, if◌then◌else◌,
}
use yatai_deployment.Base.Effect.{Exec, World, pure, call, wrap_exec, ◌>>=◌, ◌>>◌}
use yatai_deployment.Base.Dict.{Dict}
use yatai_deployment.Api.Consts.{Consts}
use yatai_deployment.Api.Kube.{Opaque, Service}

-- The calls of the libraries. `list_services` lists the Services of a namespace that have a label,
-- `list_pods` the pods of a namespace that match a selector; `since` is `time.Since` of a Service's
-- creation, in nanoseconds (0 for a time that is still to come).
pub record CleanUpLib (S : Type 0) : Type 0 where
  pub new_for_config : S → Result (Unit {0}) × S
  pub get_bento_deployment_namespaces : S → Result (List String) × S
  pub list_services : String → String → S → Result (List Service) × S
  pub list_pods : String → Dict String → S → Result (List Opaque) × S
  pub since : Service → S → ℕ
  pub delete : Service → S → Result (Unit {0}) × S

-- `time.Minute * 3`
abbrev pub three_minutes : ℕ
three_minutes = 3 * (60 * 1000000000)

module _ {S : Type 0} (lib : CleanUpLib S) where
  delete_service : Service → Exec S (Unit {0})
  delete_service service =
      wrap_exec ("delete service " <> service.meta.name) (call (lib.delete service))

  -- The Service is young or has pods: it stays.
  clean_if_old : Service → Exec S (Unit {0})
  unfolding delete_service
  clean_if_old service w =
      if ltb (lib.since service w.cluster) three_minutes
      then (ok tt, w)
      else delete_service service w

  clean_if_unused : Service → List Opaque → Exec S (Unit {0})
  unfolding clean_if_old
  clean_if_unused service [] = clean_if_old service
  clean_if_unused service (pod ∷ pods) = pure tt

  -- One round of the loop over the Services of a namespace.
  clean_service : Service → Exec S (Unit {0})
  unfolding clean_if_unused
  clean_service service = do
    pods ← wrap_exec "list pods" (call (lib.list_pods service.meta.namespace service.spec.selector))
    clean_if_unused service pods

  clean_services : List Service → Exec S (Unit {0})
  unfolding clean_service
  clean_services [] = pure tt
  clean_services (service ∷ services) = do clean_service service; clean_services services

  module _ (c : Consts) where
    clean_namespace : String → Exec S (Unit {0})
    unfolding clean_services
    clean_namespace namespace = do
      services ←
          wrap_exec "list services"
            (call (lib.list_services c.kube_label_yatai_bento_deployment_runner namespace))
      clean_services services

    clean_namespaces : List String → Exec S (Unit {0})
    unfolding clean_namespace
    clean_namespaces [] = pure tt
    clean_namespaces (namespace ∷ namespaces) = do
      clean_namespace namespace
      clean_namespaces namespaces

  remember_namespaces : List String → Exec S (List String)
  remember_namespaces namespaces w = (
    ok namespaces,
    record w { caches = record w.caches { bento_deployment_namespaces = some namespaces } },
  )

  read_namespaces : Exec S (List String)
  unfolding remember_namespaces
  read_namespaces = do
    wrap_exec "create kubernetes clientset" (call lib.new_for_config)
    namespaces ←
        wrap_exec "get bento deployment namespaces" (call lib.get_bento_deployment_namespaces)
    remember_namespaces namespaces

  cached_namespaces : Option (List String) → Exec S (List String)
  unfolding read_namespaces
  cached_namespaces none = read_namespaces
  cached_namespaces (some namespaces) = pure namespaces

  get_namespaces : Exec S (List String)
  unfolding cached_namespaces
  get_namespaces w = cached_namespaces w.caches.bento_deployment_namespaces w

  unfoldable pub do_clean_up_abandoned_runner_services : Consts → Exec S (Unit {0})
  unfolding get_namespaces clean_namespaces
  do_clean_up_abandoned_runner_services c = do
    namespaces ← get_namespaces
    clean_namespaces c namespaces
