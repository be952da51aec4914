-- ===== src/Api/Resources.antt =====
-- The resource types of github.com/bentoml/yatai-image-builder, with the fields that the program
-- reads.
use yatai_deployment.Base.{String, Option, List}
use yatai_deployment.Api.Kube.{Opaque, ObjectMeta, Condition}

pub record BentoRunner : Type 0 where
  pub name : String

pub record BentoSpec : Type 0 where
  pub tag : String
  pub image : String
  -- `Spec.Context.BentomlVersion`
  pub bentoml_version : Option String
  pub runners : List BentoRunner
  pub image_pull_secrets : List Opaque

pub record Bento : Type 0 where
  pub meta : ObjectMeta
  pub spec : BentoSpec

-- `overrides` are the settings of the image builder.
pub record BentoRequestSpec : Type 0 where
  pub bento_tag : String
  pub overrides : List Opaque

pub record BentoRequest : Type 0 where
  pub meta : ObjectMeta
  pub spec : BentoRequestSpec
  pub conditions : List Condition
