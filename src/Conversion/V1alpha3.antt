-- ===== src/Conversion/V1alpha3.antt =====
-- `ConvertToV2alpha1`, `ConvertTo` and `ConvertFrom` of
-- apis/serving/v1alpha3/bentodeployment_conversion.go.
pub mod RoundTrip
pub mod Requests
use yatai_deployment.Base.{
  String, Option, none, some, List, [], ◌∷◌, Result, ok, err, panic, Error, bind, ◌==◌,
  if◌then◌else◌, or_else,
}
use yatai_deployment.Base.Effect.{
  Exec, pure, raise, lift, call, attempt, wrap_exec, is_already_exists, ◌>>=◌, ◌>>◌,
}
use yatai_deployment.Base.Effect
use yatai_deployment.Api.Consts.{Consts}
use yatai_deployment.Api.Kube.{QuantityLib, NamespacedName}
use yatai_deployment.Api.Resources.{Bento, BentoRequest}
use yatai_deployment.Api.V2alpha1
use yatai_deployment.Api.V1alpha3
use yatai_deployment.Conversion.Hpa.{transform_to_new_hpa, transform_to_old_hpa}
use yatai_deployment.Conversion.Names.{TextLib, convert_to_bento_request}
use yatai_deployment.Conversion.Parts.{
  transform_to_new_envs, transform_to_old_envs, transform_to_new_extra_pod_metadata,
  transform_to_old_extra_pod_metadata, transform_to_new_extra_pod_spec,
  transform_to_old_extra_pod_spec,
}

-- The clients of Bentos and BentoRequests.
pub record BentoClients (S : Type 0) : Type 0 where
  pub new_for_config : S → Result (Unit {0}) × S
  pub get_bento : NamespacedName → S → Result Bento × S
  pub create_bento_request : BentoRequest → S → Result (Unit {0}) × S
  pub get_bento_request : NamespacedName → S → Result BentoRequest × S
  pub update_bento_request : BentoRequest → S → Result (Unit {0}) × S

new_tls :
    Option V1alpha3.BentoDeploymentIngressTlsSpec → Option V2alpha1.BentoDeploymentIngressTlsSpec
new_tls none = none
new_tls (some tls) = some (record { secret_name = tls.secret_name })

old_tls :
    Option V2alpha1.BentoDeploymentIngressTlsSpec → Option V1alpha3.BentoDeploymentIngressTlsSpec
old_tls none = none
old_tls (some tls) = some (record { secret_name = tls.secret_name })

new_ingress : V1alpha3.BentoDeploymentIngressSpec → V2alpha1.BentoDeploymentIngressSpec
unfolding new_tls
new_ingress ingress = record {
  enabled = ingress.enabled;
  annotations = ingress.annotations;
  labels = ingress.labels;
  tls = new_tls ingress.tls;
}

old_ingress : V2alpha1.BentoDeploymentIngressSpec → V1alpha3.BentoDeploymentIngressSpec
unfolding old_tls
old_ingress ingress = record {
  enabled = ingress.enabled;
  annotations = ingress.annotations;
  labels = ingress.labels;
  tls = old_tls ingress.tls;
}

module _ (c : Consts) (lib : QuantityLib) where
  -- One round of the loop over the runners.
  new_runner : V1alpha3.BentoDeploymentRunnerSpec → Result V2alpha1.BentoDeploymentRunnerSpec
  unfolding transform_to_new_hpa transform_to_new_envs transform_to_new_extra_pod_metadata
      transform_to_new_extra_pod_spec
  new_runner runner = bind (transform_to_new_hpa c lib runner.autoscaling) λ hpa. ok (record {
    name = runner.name;
    annotations = none;
    labels = none;
    resources = runner.resources;
    autoscaling = hpa;
    envs = transform_to_new_envs runner.envs;
    extra_pod_metadata = transform_to_new_extra_pod_metadata runner.extra_pod_metadata;
    extra_pod_spec = transform_to_new_extra_pod_spec runner.extra_pod_spec;
  })

  new_runners :
      List V1alpha3.BentoDeploymentRunnerSpec → Result (List V2alpha1.BentoDeploymentRunnerSpec)
  unfolding new_runner
  new_runners [] = ok []
  new_runners (runner ∷ runners) =
      bind (new_runner runner) λ first. bind (new_runners runners) λ rest. ok (first ∷ rest)

  -- The fields of `dst` that are not named keep what the caller put there.
  unfoldable pub convert_to_v2alpha1 :
      V1alpha3.BentoDeployment → V2alpha1.BentoDeployment → String → Result V2alpha1.BentoDeployment
  unfolding new_runners new_ingress
  convert_to_v2alpha1 src dst bento_name =
      bind (transform_to_new_hpa c lib src.spec.autoscaling) λ hpa.
        bind (new_runners src.spec.runners) λ runners. ok (record dst {
          meta = src.meta;
          spec = record dst.spec {
            bento = bento_name;
            resources = src.spec.resources;
            autoscaling = hpa;
            envs = transform_to_new_envs src.spec.envs;
            runners = runners;
            ingress = new_ingress src.spec.ingress;
            extra_pod_metadata = transform_to_new_extra_pod_metadata src.spec.extra_pod_metadata;
            extra_pod_spec = transform_to_new_extra_pod_spec src.spec.extra_pod_spec;
          };
        })

  old_runner : V2alpha1.BentoDeploymentRunnerSpec → V1alpha3.BentoDeploymentRunnerSpec
  unfolding transform_to_old_hpa transform_to_old_envs transform_to_old_extra_pod_metadata
      transform_to_old_extra_pod_spec
  old_runner runner = record {
    name = runner.name;
    annotations = none;
    labels = none;
    resources = runner.resources;
    autoscaling = transform_to_old_hpa c lib runner.autoscaling;
    envs = transform_to_old_envs runner.envs;
    extra_pod_metadata = transform_to_old_extra_pod_metadata runner.extra_pod_metadata;
    extra_pod_spec = transform_to_old_extra_pod_spec runner.extra_pod_spec;
  }

  old_runners : List V2alpha1.BentoDeploymentRunnerSpec → List V1alpha3.BentoDeploymentRunnerSpec
  unfolding old_runner
  old_runners [] = []
  old_runners (runner ∷ runners) = old_runner runner ∷ old_runners runners

  -- `ConvertFrom` once the tag of the Bento is known. The extra pod metadata and spec of the
  -- destination are written only where the source has them.
  fill_from :
      String → V2alpha1.BentoDeployment → V1alpha3.BentoDeployment → V1alpha3.BentoDeployment
  unfolding old_runners old_ingress
  fill_from bento_tag src dst = record {
    meta = src.meta;
    spec = record dst.spec {
      bento_tag = bento_tag;
      resources = src.spec.resources;
      autoscaling = transform_to_old_hpa c lib src.spec.autoscaling;
      envs = transform_to_old_envs src.spec.envs;
      runners = old_runners src.spec.runners;
      ingress = old_ingress src.spec.ingress;
      extra_pod_metadata =
          or_else (transform_to_old_extra_pod_metadata src.spec.extra_pod_metadata)
            dst.spec.extra_pod_metadata;
      extra_pod_spec =
          or_else (transform_to_old_extra_pod_spec src.spec.extra_pod_spec) dst.spec.extra_pod_spec;
    };
  }

module _ {S : Type 0} (clients : BentoClients S) where
  get_bento_tag_from_bento_name : String → String → Exec S String
  get_bento_tag_from_bento_name namespace bento_name = do
    wrap_exec "create Bento client" (call clients.new_for_config)
    bento ←
        wrap_exec "get Bento CR"
          (call (clients.get_bento (record { namespace = namespace; name = bento_name })))
    if bento.spec.tag == "" then raise (Error.other "Bento Tag is empty") else pure bento.spec.tag

  -- What follows the creation of the BentoRequest, by the error that it returned.
  unfoldable pub after_create : BentoRequest → Result (Unit {0}) → Exec S (Unit {0})
  after_create request (ok _) = pure tt
  after_create request panic = lift panic
  after_create request (err e) =
      if is_already_exists e
      then (do
        old ← wrap_exec "get BentoRequest" (
            call (
              clients.get_bento_request
                (record { namespace = request.meta.namespace; name = request.meta.name })))
        wrap_exec "update BentoRequest" (
            call (
              clients.update_bento_request
                (record old { spec = record old.spec { bento_tag = request.spec.bento_tag } }))))
      else raise (Error.wrap "create BentoRequest" e)

  module _ (c : Consts) (lib : QuantityLib) (texts : TextLib) where
    unfoldable pub convert_to :
        V1alpha3.BentoDeployment → V2alpha1.BentoDeployment → Exec S V2alpha1.BentoDeployment
    unfolding after_create convert_to_bento_request convert_to_v2alpha1
    convert_to src dst = do
      wrap_exec "create BentoRequest client" (call clients.new_for_config)
      let request = convert_to_bento_request texts src
      created ← attempt (call (clients.create_bento_request request))
      after_create request created
      lift (convert_to_v2alpha1 c lib src dst request.meta.name)

  module _ (c : Consts) (lib : QuantityLib) where
    unfoldable pub convert_from :
        V2alpha1.BentoDeployment → V1alpha3.BentoDeployment → Exec S V1alpha3.BentoDeployment
    unfolding get_bento_tag_from_bento_name fill_from
    convert_from src dst = do
      bento_tag ← get_bento_tag_from_bento_name src.meta.namespace src.spec.bento
      pure (fill_from c lib bento_tag src dst)
