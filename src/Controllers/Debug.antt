-- ===== src/Controllers/Debug.antt =====
-- controllers/helper.go: the annotations of a component (the API server or a runner) and the debug
-- modes that they switch on.
use yatai_deployment.Base.{
  String, Option, none, some, List, [], Bool, true, false, ◌==◌, find_first, any, if◌then◌else◌,
}
use yatai_deployment.Base.Dict.{Dict, read}
use yatai_deployment.Api.Consts.{Consts}
use yatai_deployment.Api.V2alpha1.{BentoDeployment, BentoDeploymentRunnerSpec}

-- `KubeAnnotationYataiEnableDebugMode` and the like.
abbrev pub enable_debug_mode : String
enable_debug_mode = "yatai.ai/enable-debug-mode"

abbrev pub enable_stealing_traffic_debug_mode : String
enable_stealing_traffic_debug_mode = "yatai.ai/enable-stealing-traffic-debug-mode"

abbrev pub enable_debug_pod_receive_production_traffic : String
enable_debug_pod_receive_production_traffic = "yatai.ai/enable-debug-pod-receive-production-traffic"

-- The runner of the resource that has a name: the first one.
unfoldable pub find_runner :
    String → List BentoDeploymentRunnerSpec → Option BentoDeploymentRunnerSpec
unfolding find_first
find_runner name = find_first (λ runner. runner.name == name)

abbrev non_nil : Option (Dict String) → Option (Dict String)
non_nil none = some []
non_nil (some d) = some d

unfoldable pub get_resource_annotations : BentoDeployment → Option String → Option (Dict String)
unfolding find_runner
get_resource_annotations bento_deployment none = non_nil bento_deployment.spec.annotations
get_resource_annotations bento_deployment (some runner_name) =
    elim (find_runner runner_name bento_deployment.spec.runners) [
      | none ↦ some []
      | some runner ↦ non_nil runner.annotations
    ]

module _ (c : Consts) where
  -- The shape that the three tests share.
  check_annotation : String → Option (Dict String) → Bool
  unfolding read
  check_annotation key none = false
  check_annotation key (some annotations) = read (some annotations) key == c.kube_label_value_true

  unfoldable pub check_if_is_debug_mode_enabled : Option (Dict String) → Bool
  unfolding check_annotation
  check_if_is_debug_mode_enabled = check_annotation enable_debug_mode

  unfoldable pub check_if_is_stealing_traffic_debug_mode_enabled : Option (Dict String) → Bool
  unfolding check_annotation
  check_if_is_stealing_traffic_debug_mode_enabled =
      check_annotation enable_stealing_traffic_debug_mode

  unfoldable pub check_if_is_debug_pod_receive_production_traffic_enabled :
      Option (Dict String) → Bool
  unfolding check_annotation
  check_if_is_debug_pod_receive_production_traffic_enabled =
      check_annotation enable_debug_pod_receive_production_traffic

  unfoldable pub check_if_contains_stealing_traffic_debug_mode_enabled : BentoDeployment → Bool
  unfolding check_if_is_stealing_traffic_debug_mode_enabled any
  check_if_contains_stealing_traffic_debug_mode_enabled bento_deployment =
      if check_if_is_stealing_traffic_debug_mode_enabled bento_deployment.spec.annotations
      then true
      else any (λ runner. check_if_is_stealing_traffic_debug_mode_enabled runner.annotations)
          bento_deployment.spec.runners
