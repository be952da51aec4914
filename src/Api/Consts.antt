-- ===== src/Api/Consts.antt =====
-- The constants of github.com/bentoml/yatai-common/consts, and those of yatai-schemas/modelschemas and
-- yatai-image-builder, which are not in this repository: their names without the prefix of the package.
use yatai_deployment.Base.{ℕ, String}
use yatai_deployment.Base.Int.{ℤ}

pub record Consts : Type 0 where
  pub kube_hpa_qps_metric : String
  pub hpa_default_max_replicas : ℤ
  pub hpa_cpu_default_average_utilization : ℤ
  pub kube_label_value_true : String
  pub kube_label_yatai_bento_deployment : String
  pub kube_label_bento_repository : String
  pub kube_label_bento_version : String
  pub kube_label_yatai_bento_deployment_target_type : String
  pub kube_label_creator : String
  pub kube_label_yatai_selector : String
  pub kube_label_yatai_bento_deployment_component_type : String
  pub kube_label_yatai_bento_deployment_component_name : String
  pub yatai_bento_deployment_component_runner : String
  pub yatai_bento_deployment_component_api_server : String
  pub kube_label_yatai_bento_deployment_runner : String
  pub kube_annotation_bento_repository : String
  pub kube_annotation_bento_version : String
  pub kube_resource_gpu_nvidia : String
  pub bento_container_port_name : String
  pub bento_service_port_name : String
  pub bento_service_port : ℕ
  pub yatai_deployment_component_name : String
  pub kube_config_map_key_network_config_ingress_class : String
  pub kube_config_map_key_network_config_ingress_annotations : String
  pub kube_label_bento_deployment_pod : String
  pub env_bento_service_port : String
  pub env_yatai_deployment_uid : String
  pub env_yatai_bento_deployment_name : String
  pub env_yatai_bento_deployment_namespace : String
  pub env_yatai_version : String
  pub env_yatai_org_uid : String
  pub env_yatai_cluster_uid : String
  pub yatai_api_token_header_name : String
  pub deployment_strategy_rolling_update : String
  pub deployment_strategy_recreate : String
  pub deployment_strategy_ramped_slow_rollout : String
  pub deployment_strategy_best_effort_controlled_rollout : String
  pub bento_request_condition_type_bento_available : String
  pub deployment_target_type_stable : String
  pub yatai_component_name_deployment : String
