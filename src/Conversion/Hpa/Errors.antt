-- ===== src/Conversion/Hpa/Errors.antt =====
-- When `TransformToNewHPA` fails.
use yatai_deployment.Base.{String, Option, some, err, Error, ◌≡◌, ◌↔◌, arith}
use yatai_deployment.Base.Effect.{wrap}
use yatai_deployment.Api.Consts.{Consts}
use yatai_deployment.Api.Kube.{QuantityLib}
use yatai_deployment.Api.Common.{DeploymentTargetHpaConf}
use yatai_deployment.Conversion.Hpa.{non_empty, transform_to_new_hpa}

module _ (c : Consts) (lib : QuantityLib) where
  -- The memory target is a text, not empty, that is no quantity.
  abbrev pub BadMemory : Option String → Error → Type 0
  BadMemory memory e =
      (text : String) × (cause : Error) × (non_empty memory ≡ some text)
      × (lib.parse_quantity text ≡ err cause)
      × (e ≡ wrap "parse memory" cause)

  parse_fails :
      (old : DeploymentTargetHpaConf) (e : Error)
      → transform_to_new_hpa c lib (some old) ≡ err e
      → BadMemory old.memory e
  unfolding transform_to_new_hpa
  parse_fails old e h = ground arith

  fails :
      (old : DeploymentTargetHpaConf) (e : Error)
      → BadMemory old.memory e
      → transform_to_new_hpa c lib (some old) ≡ err e
  unfolding transform_to_new_hpa
  fails old e (text, cause, there, bad, is_wrapped) = ground arith

  -- The conversion of an old autoscaling configuration fails in one case alone: the memory target is a
  -- text that is not empty and that is not accepted as a quantity; its error is the parser's, wrapped.
  pub transform_to_new_hpa-BadMemory :
      (old : DeploymentTargetHpaConf) (e : Error)
      → (transform_to_new_hpa c lib (some old) ≡ err e) ↔ BadMemory old.memory e
  transform_to_new_hpa-BadMemory old e = (parse_fails old e, fails old e)
