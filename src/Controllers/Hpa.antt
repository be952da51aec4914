-- ===== src/Controllers/Hpa.antt =====
-- controllers/handleHPA.go: the horizontal pod autoscaler of a component.
pub mod Frame
pub mod Versions
pub mod Sync
use Prim.Native.String.{compare}
use text.Mathlib.Text.{is_lt, is_le}
use yatai_deployment.Base.{
  ℕ, String, Option, none, some, List, [], ◌∷◌, Bool, true, false, ◌&&◌, not, Result, ok, err, bind,
  wrap_err, if◌then◌else◌,
}
use yatai_deployment.Base.Int.{ℤ, pos}
use yatai_deployment.Base.Effect.{Exec, pure, lift, or_warn, ◌>>=◌}
use yatai_deployment.Api.Consts.{Consts}
use yatai_deployment.Api.Kube.{Opaque, ObjectMeta, NamespacedName, MetricSpec}
use yatai_deployment.Api.Resources.{Bento}
use yatai_deployment.Api.V2alpha1.{BentoDeployment, Autoscaling, BentoDeploymentRunnerSpec}
use yatai_deployment.Conversion.Names.{TextLib}
use yatai_deployment.Conversion.Hpa.{default_metrics}
use yatai_deployment.Controllers.Debug.{find_runner}
use yatai_deployment.Controllers.Names.{get_kube_name}
use yatai_deployment.Controllers.Labels.{get_kube_labels, get_kube_annotations}
use yatai_deployment.Controllers.Objects.{Kind, object_meta, subject_of, create_or_update_object}

-- `autoscalingv2beta2.HorizontalPodAutoscaler`
pub record CrossVersionObjectReference : Type 0 where
  pub api_version : String
  pub kind : String
  pub name : String

pub record HorizontalPodAutoscaler : Type 0 where
  pub meta : ObjectMeta
  pub min_replicas : ℤ
  pub max_replicas : ℤ
  pub scale_target_ref : CrossVersionObjectReference
  pub metrics : List MetricSpec
  pub status : Opaque

-- An autoscaler as it is sent to the cluster: of the old API version, or of the new one, whose type `V`
-- is a parameter.
pub data HpaObject (V : Type 0) : Type 0 where
  legacy : HorizontalPodAutoscaler → HpaObject V
  current : V → HpaObject V

-- `k8sversion.Info`
pub record ServerVersion : Type 0 where
  pub major : String
  pub minor : String

-- The library's operations on autoscalers; `copy` and `copy_status` are `copier.Copy`.
pub record HpaClient (S V : Type 0) : Type 0 where
  pub key : HpaObject V → NamespacedName
  pub get_legacy : NamespacedName → S → Result HorizontalPodAutoscaler × S
  pub get_current : NamespacedName → S → Result V × S
  pub create : HpaObject V → S → Result (Unit {0}) × S
  pub update : HpaObject V → S → Result (Unit {0}) × S
  pub delete : HpaObject V → S → Result (Unit {0}) × S
  pub set_controller_reference :
      BentoDeployment → HorizontalPodAutoscaler → Result HorizontalPodAutoscaler
  pub set_last_applied_annotation : HpaObject V → Result (HpaObject V)
  pub calculate : HpaObject V → HpaObject V → Result Bool
  pub copy : HorizontalPodAutoscaler → Result V
  pub copy_status : V → Result V

-- The comparison of Go's strings, `s >= "1" && t > "23"`: by bytes, not by numbers.
unfoldable pub require_legacy_hpa : ServerVersion → Bool
require_legacy_hpa version =
    if is_le (compare "1" version.major) && is_lt (compare "23" version.minor) then false else true

abbrev or_one : Option Autoscaling → Autoscaling
or_one none = record { min_replicas = pos 1; max_replicas = pos 1; metrics = []; behavior = none }
or_one (some hpa_conf) = hpa_conf

abbrev autoscaling_of : Option BentoDeploymentRunnerSpec → Option Autoscaling
autoscaling_of none = none
autoscaling_of (some runner) = runner.autoscaling

-- The configuration of the component.
unfoldable pub component_autoscaling : BentoDeployment → Option String → Autoscaling
unfolding find_runner
component_autoscaling bento_deployment none = or_one bento_deployment.spec.autoscaling
component_autoscaling bento_deployment (some runner_name) =
    or_one (autoscaling_of (find_runner runner_name bento_deployment.spec.runners))

module _ (c : Consts) (lib : TextLib) where
  -- The autoscaler before its controller reference is set.
  unfoldable pub hpa_of : BentoDeployment → Bento → Option String → HorizontalPodAutoscaler
  unfolding component_autoscaling get_kube_name get_kube_labels get_kube_annotations
  hpa_of bento_deployment bento runner_name =
      let kube_name = get_kube_name bento_deployment bento runner_name false in
      let hpa_conf = component_autoscaling bento_deployment runner_name in
      record {
        meta =
            object_meta kube_name bento_deployment.meta.namespace
              (get_kube_labels c lib bento_deployment bento runner_name)
              (get_kube_annotations c lib bento_deployment bento runner_name);
        min_replicas = hpa_conf.min_replicas;
        max_replicas = hpa_conf.max_replicas;
        scale_target_ref = record {
          api_version = "apps/v1";
          kind = "Deployment";
          name = kube_name;
        };
        metrics = default_metrics c hpa_conf.metrics;
        status = "";
      }

module _ {S V : Type 0} (client : HpaClient S V) where
  abbrev with_status :
      HorizontalPodAutoscaler → Result HorizontalPodAutoscaler → Result (HpaObject V)
  with_status hpa result = bind result λ old. ok (legacy (record old { status = hpa.status }))

  abbrev copied : Result V → Result (HpaObject V)
  copied result = bind result λ old. bind (client.copy_status old) λ new. ok (current new)

  unfoldable pub get_hpa :
      ServerVersion → HorizontalPodAutoscaler → NamespacedName → S → Result (HpaObject V) × S
  unfolding require_legacy_hpa
  get_hpa version hpa key s =
      if require_legacy_hpa version
      then (let (result, s') = client.get_legacy key s in (with_status hpa result, s'))
      else (let (result, s') = client.get_current key s in (copied result, s'))

  unfoldable pub handle_legacy_hpa : ServerVersion → HorizontalPodAutoscaler → Result (HpaObject V)
  unfolding require_legacy_hpa
  handle_legacy_hpa version hpa =
      if require_legacy_hpa version
      then ok (legacy hpa)
      else bind (client.copy hpa) λ v2hpa. ok (current v2hpa)

  -- The operations on the object that is made from `hpa`.
  unfoldable pub hpa_kind : ServerVersion → HorizontalPodAutoscaler → Kind S (HpaObject V)
  unfolding get_hpa
  hpa_kind version hpa = record {
    reason = "HPA";
    key = client.key;
    get = get_hpa version hpa;
    create = client.create;
    update = client.update;
    delete = client.delete;
    set_controller_reference = λ owner object. ok object;
    set_last_applied_annotation = client.set_last_applied_annotation;
    calculate = client.calculate;
  }

  module _ (c : Consts) (lib : TextLib) where
    unfoldable pub generate_hpa :
        BentoDeployment → Bento → Option String → Result HorizontalPodAutoscaler
    unfolding hpa_of
    generate_hpa bento_deployment bento runner_name = wrap_err "set hpa controller reference" (
        client.set_controller_reference bento_deployment
          (hpa_of c lib bento_deployment bento runner_name))

    unfoldable pub create_or_update_hpa :
        ServerVersion → BentoDeployment → Bento → Option String → Exec S Bool
    unfolding generate_hpa handle_legacy_hpa hpa_kind create_or_update_object or_warn
    create_or_update_hpa version bento_deployment bento runner_name = do
      hpa ← lift (generate_hpa bento_deployment bento runner_name)
      let subject = subject_of (record { namespace = hpa.meta.namespace; name = hpa.meta.name })
      legacy_hpa ← or_warn "HandleHPA" subject (lift (handle_legacy_hpa version hpa))
      create_or_update_object (hpa_kind version hpa) legacy_hpa (λ old new. new)
