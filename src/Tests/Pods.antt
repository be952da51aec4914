-- ===== src/Tests/Pods.antt =====
-- The pods of a runner, with its Services.
use yatai_deployment.Base.{inl, Bool, some, true, false, refl}
use yatai_deployment.Base.Dict.{lookup}
use yatai_deployment.Controllers.Labels.{extra_labels}
use yatai_deployment.Controllers.Service.{ServicesOption, service_of, service_option}
use yatai_deployment.Controllers.Service.Selector.{Selects}
use yatai_deployment.Controllers.Pods.{extra_pod_labels, pod_labels}
use yatai_deployment.Controllers.Pods.BentoLabels.{BentoKeysDiffer, KeepsBento}
use yatai_deployment.Controllers.Pods.Selected.{
  KeepsSelected, pod_labels-Selects, pod_labels-Selects_generic,
}
use yatai_deployment.Tests.Fixtures.{consts, texts, bento, deployment}

abbrev runner_option : ServicesOption
runner_option = record {
  bento_deployment = deployment;
  bento = bento;
  runner_name = some "iris_clf";
}

differ : BentoKeysDiffer consts
differ = record {
  repository_version = refl;
  repository_target = refl;
  repository_creator = refl;
  repository_type = refl;
  repository_name = refl;
  version_target = refl;
  version_creator = refl;
  version_type = refl;
  version_name = refl;
}

keeps : KeepsBento consts texts differ deployment (some "iris_clf")
unfolding extra_labels lookup
keeps = (refl, refl)

kept :
    (is_generic is_debug : Bool)
    → KeepsSelected consts texts differ runner_option
        (service_of consts texts
          (service_option consts runner_option is_generic is_debug)).spec.selector
unfolding extra_pod_labels service_of service_option lookup
kept true true = (λ j. inl refl, refl)
kept true false = (λ j. inl refl, refl)
kept false true = (λ j. inl refl, refl)
kept false false = (λ j. inl refl, refl)

pod_labels-Selects_example :
    Selects
      (service_of consts texts (service_option consts runner_option false true)).spec.selector
      (pod_labels consts texts deployment bento (some "iris_clf") true)
pod_labels-Selects_example =
    pod_labels-Selects consts texts differ runner_option true keeps (kept false true)

pod_labels-Selects_generic_example :
    Selects
      (service_of consts texts (service_option consts runner_option true false)).spec.selector
      (pod_labels consts texts deployment bento (some "iris_clf") false)
pod_labels-Selects_generic_example =
    pod_labels-Selects_generic consts texts differ runner_option false refl keeps (kept true false)
