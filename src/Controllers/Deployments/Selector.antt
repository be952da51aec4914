-- ===== src/Controllers/Deployments/Selector.antt =====
-- A Deployment selects the pods that it makes.
use yatai_deployment.Base.{String, none, some, [], ◌∷◌, ok, ◌≡◌, ◌∙◌, refl, ap, arith, eq_iff}
use yatai_deployment.Base.Dict.{Dict, lookup, entries}
use yatai_deployment.Base.Effect.{World}
use yatai_deployment.Api.Consts.{Consts}
use yatai_deployment.Api.Kube.{QuantityLib}
use yatai_deployment.Api.Pods.{PodSpec, PodTemplateSpec}
use yatai_deployment.Api.Yatai.{Http}
use yatai_deployment.Conversion.Names.{TextLib}
use yatai_deployment.Controllers.Service.Selector.{Selects}
use yatai_deployment.Controllers.Pods.{extra_pod_labels, pod_labels}
use yatai_deployment.Controllers.Pods.Own.{lookup-pod_labels_own}
use yatai_deployment.Controllers.Pods.Options.{PodOption, PodLib, PodClient}
use yatai_deployment.Controllers.Pods.Template.{template_of, pod_with, generate_pod_template_spec}
use yatai_deployment.Controllers.Pods.Template.Inversion.{generate_pod_template_spec-Made}
use yatai_deployment.Controllers.Deployments.{deployment_name, deployment_of}

-- A selector of one label asks for no more than a dictionary with that label.
lookup-only :
    (key j v name : String) (labels : Dict String)
    → lookup key labels ≡ some name
    → lookup j ((key, name) ∷ []) ≡ some v
    → lookup j labels ≡ some v
unfolding lookup
lookup-only key j v name labels there asked = ground (arith, there, asked, eq_iff key j)

module _ {S : Type 0} (client : PodClient S) (http : Http S) (c : Consts) (lib : TextLib)
    (quantities : QuantityLib) (pods : PodLib) (opt : PodOption) where
  template_of-labels :
      (pod : PodSpec) (account : String)
      → (template_of c lib quantities pods opt client http pod account).labels
        ≡ pod_labels c lib opt.bento_deployment opt.bento opt.runner_name
            opt.is_stealing_traffic_debug_mode_enabled
  unfolding template_of
  template_of-labels pod account = refl

  -- A Deployment selects the pods that are made from its template, where that was generated for the
  -- same component, provided that the extra pod metadata does not replace the label by which it
  -- selects; each of the component's Deployments selects by its own name.
  pub deployment_of-Selects :
      (w w' : World S) (template : PodTemplateSpec)
      → lookup c.kube_label_yatai_selector
          (entries (extra_pod_labels opt.bento_deployment opt.runner_name))
        ≡ none
      → generate_pod_template_spec c lib quantities pods opt client http w ≡ (ok template, w')
      → Selects (deployment_of c lib opt template).spec.selector template.labels
        × ((deployment_of c lib opt template).spec.selector
            ≡ (c.kube_label_yatai_selector, (deployment_of c lib opt template).meta.name) ∷ [])
  unfolding deployment_of deployment_name
  deployment_of-Selects w w' template kept h =
      let made =
        generate_pod_template_spec-Made client http c lib quantities pods opt w w' template h in
      let own =
        lookup-pod_labels_own c lib opt.bento_deployment opt.bento opt.runner_name
          opt.is_stealing_traffic_debug_mode_enabled kept in
      let labels =
        template_of-labels
          (pod_with c lib quantities pods opt client http made.is_old made.spec made.yatai
            made.resources made.proxy)
          made.account in
      (
        λ j v asked.
            ap (λ t. lookup j t.labels) made.template_is
            ∙ (ap (λ d. lookup j d) labels
                ∙ lookup-only c.kube_label_yatai_selector j v _ _ own asked),
        refl,
      )
