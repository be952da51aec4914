-- ===== src/Conversion/Older.antt =====
-- apis/serving/v1alpha2/bentodeployment_conversion.go and v1alpha1/bentodeployment_conversion.go: the
-- older versions are converted by way of v1alpha3.
use yatai_deployment.Base.{none, [], map, false, ok, bind, arith, ◌≡◌}
use yatai_deployment.Base.Effect.{World, Exec, pure, ◌>>=◌}
use yatai_deployment.Api.Consts.{Consts}
use yatai_deployment.Api.Kube.{QuantityLib, ObjectMeta}
use yatai_deployment.Api.V2alpha1
use yatai_deployment.Api.V1alpha3
use yatai_deployment.Api.V1alpha2
use yatai_deployment.Api.V1alpha1
use yatai_deployment.Conversion.Names.{TextLib}
use yatai_deployment.Conversion.V1alpha3.{BentoClients, convert_to, convert_from}

-- Go's zero values.
abbrev pub zero_meta : ObjectMeta
zero_meta = record {
  name = "";
  namespace = "";
  uid = "";
  resource_version = "";
  labels = none;
  annotations = none;
  owner_references = [];
}

abbrev zero_ingress : V1alpha3.BentoDeploymentIngressSpec
zero_ingress = record { enabled = false; annotations = none; labels = none; tls = none }

abbrev pub zero_deployment : V1alpha3.BentoDeployment
zero_deployment = record {
  meta = zero_meta;
  spec = record {
    annotations = none;
    labels = none;
    bento_tag = "";
    resources = none;
    autoscaling = none;
    envs = none;
    runners = [];
    ingress = zero_ingress;
    extra_pod_metadata = none;
    extra_pod_spec = none;
  };
}

new_runner : V1alpha2.BentoDeploymentRunnerSpec → V1alpha3.BentoDeploymentRunnerSpec
new_runner runner = record {
  name = runner.name;
  annotations = none;
  labels = none;
  resources = runner.resources;
  autoscaling = runner.autoscaling;
  envs = runner.envs;
  extra_pod_metadata = none;
  extra_pod_spec = none;
}

old_runner : V1alpha3.BentoDeploymentRunnerSpec → V1alpha2.BentoDeploymentRunnerSpec
old_runner runner = record {
  name = runner.name;
  resources = runner.resources;
  autoscaling = runner.autoscaling;
  envs = runner.envs;
}

unfoldable pub convert_to_v1alpha3 : V1alpha2.BentoDeployment → V1alpha3.BentoDeployment
unfolding new_runner
convert_to_v1alpha3 src = record zero_deployment {
  meta = src.meta;
  spec = record zero_deployment.spec {
    bento_tag = src.spec.bento_tag;
    resources = src.spec.resources;
    autoscaling = src.spec.autoscaling;
    envs = src.spec.envs;
    runners = map new_runner src.spec.runners;
    ingress = record zero_ingress { enabled = src.spec.ingress.enabled };
  };
}

abbrev pub empty_v1alpha2 : V1alpha2.BentoDeployment
empty_v1alpha2 = record {
  meta = zero_meta;
  spec = record {
    bento_tag = "";
    resources = none;
    autoscaling = none;
    envs = none;
    runners = [];
    ingress = record { enabled = false };
  };
}

-- The copy of a v1alpha3 resource into a v1alpha2 one, field by field.
copy_v1alpha2 : V1alpha3.BentoDeployment → V1alpha2.BentoDeployment
unfolding old_runner
copy_v1alpha2 src = record {
  meta = src.meta;
  spec = record {
    bento_tag = src.spec.bento_tag;
    resources = src.spec.resources;
    autoscaling = src.spec.autoscaling;
    envs = src.spec.envs;
    runners = map old_runner src.spec.runners;
    ingress = record { enabled = src.spec.ingress.enabled };
  };
}

-- The same into a v1alpha1 one, whose runners are left alone.
copy_v1alpha1 : V1alpha3.BentoDeployment → V1alpha1.BentoDeployment → V1alpha1.BentoDeployment
copy_v1alpha1 src dst = record {
  meta = src.meta;
  spec = record dst.spec {
    bento_tag = src.spec.bento_tag;
    resources = src.spec.resources;
    autoscaling = src.spec.autoscaling;
    envs = src.spec.envs;
  };
}

module _ {S : Type 0} (clients : BentoClients S) (c : Consts) (lib : QuantityLib)
    (texts : TextLib) where
  unfoldable pub convert_to_v1alpha2 :
      V1alpha2.BentoDeployment → V2alpha1.BentoDeployment → Exec S V2alpha1.BentoDeployment
  unfolding convert_to_v1alpha3
  convert_to_v1alpha2 src dst = convert_to clients c lib texts (convert_to_v1alpha3 src) dst

  unfoldable pub convert_to_v1alpha1 :
      V1alpha1.BentoDeployment → V2alpha1.BentoDeployment → Exec S V2alpha1.BentoDeployment
  convert_to_v1alpha1 src dst_raw =
      let dst : V1alpha3.BentoDeployment = record zero_deployment {
        meta = src.meta;
        spec = record zero_deployment.spec {
          bento_tag = src.spec.bento_tag;
          resources = src.spec.resources;
          autoscaling = src.spec.autoscaling;
          envs = src.spec.envs;
        };
      } in
      convert_to clients c lib texts dst dst_raw

module _ {S : Type 0} (clients : BentoClients S) (c : Consts) (lib : QuantityLib) where
  -- The destination is filled from an empty v1alpha3 resource before that one is read.
  unfoldable pub convert_from_v1alpha2 :
      V2alpha1.BentoDeployment → V1alpha2.BentoDeployment → Exec S V1alpha2.BentoDeployment
  unfolding copy_v1alpha2
  convert_from_v1alpha2 src_raw dst = do
    let filled = copy_v1alpha2 zero_deployment
    src ← convert_from clients c lib src_raw zero_deployment
    pure filled

  unfoldable pub convert_from_v1alpha1 :
      V2alpha1.BentoDeployment → V1alpha1.BentoDeployment → Exec S V1alpha1.BentoDeployment
  unfolding copy_v1alpha1
  convert_from_v1alpha1 src_raw dst = do
    let filled = copy_v1alpha1 zero_deployment dst
    src ← convert_from clients c lib src_raw zero_deployment
    pure filled

  -- A resource read back as v1alpha2 is empty, whatever was stored: where the resource can be read
  -- as v1alpha3, the result has no name, no tag and no runner; otherwise it is the same error.
  pub convert_from_v1alpha2-forgets :
      (src : V2alpha1.BentoDeployment) (dst : V1alpha2.BentoDeployment) (w : World S)
      → (convert_from_v1alpha2 src dst w).0
        ≡ bind (convert_from clients c lib src zero_deployment w).0 λ _. ok empty_v1alpha2
  unfolding convert_from_v1alpha2
  convert_from_v1alpha2-forgets src dst w = ground arith
