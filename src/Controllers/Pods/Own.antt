-- ===== src/Controllers/Pods/Own.antt =====
-- The label of a component's pods by which their Deployment selects them.
use yatai_deployment.Base.{String, Option, none, some, Bool, ◌≡◌, ◌∙◌, ap, eq_refl, if◌then◌else◌}
use yatai_deployment.Base.Dict.{lookup, insert, entries, lookup-insert, lookup-merge_absent}
use yatai_deployment.Api.Consts.{Consts}
use yatai_deployment.Api.Resources.{Bento}
use yatai_deployment.Api.V2alpha1.{BentoDeployment}
use yatai_deployment.Conversion.Names.{TextLib}
use yatai_deployment.Controllers.Names.{get_kube_name}
use yatai_deployment.Controllers.Pods.{selected_labels, extra_pod_labels, pod_labels}

pub lookup-pod_labels_own :
    (c : Consts) (lib : TextLib) (bento_deployment : BentoDeployment) (bento : Bento)
    (runner_name : Option String) (is_stealing : Bool)
    → lookup c.kube_label_yatai_selector (entries (extra_pod_labels bento_deployment runner_name))
      ≡ none
    → lookup c.kube_label_yatai_selector
        (pod_labels c lib bento_deployment bento runner_name is_stealing)
      ≡ some (get_kube_name bento_deployment bento runner_name is_stealing)
unfolding pod_labels
lookup-pod_labels_own c lib bento_deployment bento runner_name is_stealing kept =
    let key = c.kube_label_yatai_selector in
    let name = get_kube_name bento_deployment bento runner_name is_stealing in
    let labels = selected_labels c lib bento_deployment bento runner_name is_stealing in
    lookup-merge_absent key (entries (extra_pod_labels bento_deployment runner_name))
      (insert key name labels) kept
    ∙ (lookup-insert key key name labels
        ∙ ap (λ b. if b then some name else lookup key labels) (eq_refl key))
