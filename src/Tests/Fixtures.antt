-- ===== src/Tests/Fixtures.antt =====
-- Concrete data and concrete libraries.
use Prim.Native.Nat.{◌/◌, ◌%◌}
use yatai_deployment.Base.{
  ℕ, zero, suc, ◌+◌, ◌*◌, String, len, len-append, none, some, List, [], ◌∷◌, true, ok, err, Error,
  ◌==◌, ltb, ◌<>◌, ◌≡◌, refl, arith, if◌then◌else◌, length,
}
use yatai_deployment.Base.Int.{ℤ, pos, negsuc}
use yatai_deployment.Base.Effect.{World}
use yatai_deployment.Api.Consts.{Consts}
use yatai_deployment.Api.Kube.{ObjectMeta, Quantity, QuantityLib}
use yatai_deployment.Api.Resources.{Bento}
use yatai_deployment.Api.V2alpha1.{BentoDeployment, BentoDeploymentRunnerSpec}
use yatai_deployment.Conversion.Names.{TextLib}

abbrev pub consts : Consts
consts = record {
  kube_hpa_qps_metric = "http_request";
  hpa_default_max_replicas = pos 10;
  hpa_cpu_default_average_utilization = pos 80;
  kube_label_value_true = "true";
  kube_label_yatai_bento_deployment = "yatai.ai/bento-deployment";
  kube_label_bento_repository = "yatai.ai/bento-repository";
  kube_label_bento_version = "yatai.ai/bento-version";
  kube_label_yatai_bento_deployment_target_type = "yatai.ai/bento-deployment-target-type";
  kube_label_creator = "yatai.ai/creator";
  kube_label_yatai_selector = "yatai.ai/selector";
  kube_label_yatai_bento_deployment_component_type = "yatai.ai/bento-deployment-component-type";
  kube_label_yatai_bento_deployment_component_name = "yatai.ai/bento-deployment-component-name";
  yatai_bento_deployment_component_runner = "runner";
  yatai_bento_deployment_component_api_server = "api-server";
  kube_label_yatai_bento_deployment_runner = "yatai.ai/bento-deployment-runner";
  kube_annotation_bento_repository = "yatai.ai/bento-repository";
  kube_annotation_bento_version = "yatai.ai/bento-version";
  kube_resource_gpu_nvidia = "nvidia.com/gpu";
  bento_container_port_name = "http";
  bento_service_port_name = "http";
  bento_service_port = 3000;
  yatai_deployment_component_name = "yatai-deployment";
  kube_config_map_key_network_config_ingress_class = "ingress-class";
  kube_config_map_key_network_config_ingress_annotations = "ingress-annotations";
  kube_label_bento_deployment_pod = "yatai.ai/bento-deployment-pod";
  env_bento_service_port = "PORT";
  env_yatai_deployment_uid = "YATAI_T_DEPLOYMENT_UID";
  env_yatai_bento_deployment_name = "YATAI_BENTO_DEPLOYMENT_NAME";
  env_yatai_bento_deployment_namespace = "YATAI_BENTO_DEPLOYMENT_NAMESPACE";
  env_yatai_version = "YATAI_T_VERSION";
  env_yatai_org_uid = "YATAI_T_ORG_UID";
  env_yatai_cluster_uid = "YATAI_T_CLUSTER_UID";
  yatai_api_token_header_name = "X-YATAI-API-TOKEN";
  deployment_strategy_rolling_update = "RollingUpdate";
  deployment_strategy_recreate = "Recreate";
  deployment_strategy_ramped_slow_rollout = "RampedSlowRollout";
  deployment_strategy_best_effort_controlled_rollout = "BestEffortControlledRollout";
  bento_request_condition_type_bento_available = "BentoAvailable";
  deployment_target_type_stable = "stable";
  yatai_component_name_deployment = "deployment";
}

-- Quantities: a text as it is, a number as a text whose length tells it.
ticks : ℕ → String
ticks zero = ""
ticks (suc n) = "x" <> ticks n

len-ticks : (n : ℕ) → len (ticks n) ≡ n
unfolding ticks
len-ticks zero = refl
len-ticks (suc n) = omega (arith, len-append "x" (ticks n), len-ticks n)

unfoldable pub new_quantity : ℤ → Quantity
unfolding ticks
new_quantity (pos n) = record { repr = ticks (2 * n) }
new_quantity (negsuc n) = record { repr = ticks (2 * n + 1) }

unfoldable pub int_of : ℕ → ℤ
int_of m = if ltb (m % 2) 1 then pos (m / 2) else negsuc (m / 2)

abbrev pub quantities : QuantityLib
quantities = record {
  parse_quantity =
      λ text. if text == "" then err (Error.other "empty") else ok (record { repr = text });
  must_parse = λ text. record { repr = text };
  new_quantity = new_quantity;
  value = λ quantity. int_of (len quantity.repr);
  to_string = λ quantity. elim quantity [ none ↦ "<nil>" | some q ↦ q.repr ];
  is_zero = λ quantity. quantity.repr == "";
  milli_value = λ quantity. int_of (len quantity.repr);
  set_milli = λ value quantity. new_quantity value;
}

pub value_new : (n : ℤ) → quantities.value (quantities.new_quantity n) ≡ n
unfolding new_quantity int_of
value_new (pos n) = ground (arith, len-ticks (2 * n))
value_new (negsuc n) = ground (arith, len-ticks (2 * n + 1))

abbrev sixteen_zeros : List ℕ
sixteen_zeros = 0 ∷ 1 ∷ 2 ∷ 3 ∷ 4 ∷ 5 ∷ 6 ∷ 7 ∷ 8 ∷ 9 ∷ 10 ∷ 11 ∷ 12 ∷ 13 ∷ 14 ∷ 255 ∷ []

abbrev pub texts : TextLib
texts = record {
  to_kebab = λ text. text;
  partition = λ text separator. if text == "iris:v1" then ("iris", ":", "v1") else (text, "", "");
  md5_sum = λ text. sixteen_zeros;
}

pub sixteen : (t : String) → length (texts.md5_sum t) ≡ 16
sixteen t = refl

abbrev pub meta_of : String → ObjectMeta
meta_of name = record {
  name = name;
  namespace = "yatai";
  uid = "";
  resource_version = "";
  labels = none;
  annotations = none;
  owner_references = [];
}

abbrev pub bento : Bento
bento = record {
  meta = meta_of "iris--v1";
  spec = record {
    tag = "iris:v1";
    image = "registry/iris:v1";
    bentoml_version = some "1.0.16";
    runners = (record { name = "iris_clf" }) ∷ [];
    image_pull_secrets = [];
  };
}

-- A runner in stealing-traffic debug mode.
abbrev pub runner : BentoDeploymentRunnerSpec
runner = record {
  name = "iris_clf";
  annotations = some (("yatai.ai/enable-stealing-traffic-debug-mode", "true") ∷ []);
  labels = none;
  resources = none;
  autoscaling = none;
  envs = none;
  extra_pod_metadata = none;
  extra_pod_spec = none;
}

abbrev pub deployment : BentoDeployment
deployment = record {
  meta = meta_of "iris";
  spec = record {
    annotations = none;
    labels = none;
    bento = "iris--v1";
    resources = none;
    autoscaling = none;
    envs = none;
    runners = runner ∷ [];
    ingress = record { enabled = true; annotations = none; labels = none; tls = none };
    monitor_exporter = none;
    extra_pod_metadata = none;
    extra_pod_spec = none;
  };
  status = record { conditions = []; pod_selector = none };
}

abbrev pub world : {S : Type 0} → S → World S
world s = record {
  cluster = s;
  events = [];
  caches = record {
    yatai_conf = none;
    domain_suffix = none;
    ingress_config = none;
    bento_deployment_namespaces = none;
  };
}
