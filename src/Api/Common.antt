-- ===== src/Api/Common.antt =====
-- apis/serving/common/common.go
use yatai_deployment.Base.{String, Option}
use yatai_deployment.Base.Int.{ℤ}
use yatai_deployment.Base.Dict.{Dict}

pub record ResourceItem : Type 0 where
  pub cpu : String
  pub memory : String
  pub gpu : String
  pub custom : Option (Dict String)

pub record Resources : Type 0 where
  pub requests : Option ResourceItem
  pub limits : Option ResourceItem

pub record DeploymentTargetHpaConf : Type 0 where
  pub cpu : Option ℤ
  pub gpu : Option ℤ
  pub memory : Option String
  pub qps : Option ℤ
  pub min_replicas : Option ℤ
  pub max_replicas : Option ℤ

pub record LabelItemSchema : Type 0 where
  pub key : String
  pub value : String
