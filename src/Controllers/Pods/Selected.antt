-- ===== src/Controllers/Pods/Selected.antt =====
-- The pods of a component's Deployments are selected by the component's Services.
use yatai_deployment.Base.{
  ◌⊎◌, inl, inr, String, Option, none, some, Bool, true, false, ◌&&◌, not, ◌≡◌, ◌∙◌, refl, arith,
  eq_iff, is_some, if◌then◌else◌,
}
use yatai_deployment.Base.Dict.{Dict, lookup, insert, entries, lookup-insert, lookup-merge_absent}
use yatai_deployment.Api.Consts.{Consts}
use yatai_deployment.Conversion.Names.{TextLib}
use yatai_deployment.Controllers.Names.{get_kube_name}
use yatai_deployment.Controllers.Labels.{debug, get_kube_labels}
use yatai_deployment.Controllers.Service.{ServicesOption, service_of, service_option}
use yatai_deployment.Controllers.Service.Selector.{
  wanted_target_type, lookup-selector, wanted-debug, wanted-production, Selects,
}
use yatai_deployment.Controllers.Pods.{bento_labels, selected_labels, extra_pod_labels, pod_labels}
use yatai_deployment.Controllers.Pods.BentoLabels.{BentoKeysDiffer, KeepsBento, lookup-bento_labels}

module _ (c : Consts) (lib : TextLib) (differ : BentoKeysDiffer c) where
  -- The pods of one Deployment, before the labels of the extra pod metadata.
  selected_labels-Selects :
      (opt : ServicesOption) (is_debug : Bool)
      → KeepsBento c lib differ opt.bento_deployment opt.runner_name
      → Selects
          (service_of c lib (service_option c opt false is_debug)).spec.selector
          (selected_labels c lib opt.bento_deployment opt.bento opt.runner_name is_debug)
  unfolding service_option selected_labels
  selected_labels-Selects opt true keeps j v h = ground (
    arith,
    h,
    lookup-selector c lib (service_option c opt false true) j,
    lookup-insert c.kube_label_yatai_bento_deployment_target_type j debug (
        bento_labels c lib opt.bento opt.runner_name
          (get_kube_labels c lib opt.bento_deployment opt.bento opt.runner_name)),
    lookup-bento_labels c lib differ opt.bento_deployment opt.bento opt.runner_name j keeps,
    wanted-debug opt.runner_name
        (service_option c opt false true).is_debug_pod_receive_production_traffic
        (lookup j (get_kube_labels c lib opt.bento_deployment opt.bento opt.runner_name)),
  )
  selected_labels-Selects opt false keeps j v h = ground (
    arith,
    h,
    lookup-selector c lib (service_option c opt false false) j,
    lookup-bento_labels c lib differ opt.bento_deployment opt.bento opt.runner_name j keeps,
    wanted-production opt.runner_name
        (service_option c opt false false).is_debug_pod_receive_production_traffic
        (lookup j (get_kube_labels c lib opt.bento_deployment opt.bento opt.runner_name)),
  )

  wanted-generic :
      (runner_name : Option String) (receives : Bool) (label : Option String)
      → wanted_target_type runner_name true receives false label
        ≡ (if is_some runner_name && not receives then label else none)
  wanted-generic none receives label = refl
  wanted-generic (some _) true label = refl
  wanted-generic (some _) false label = refl

  selected_labels-Selects_generic :
      (opt : ServicesOption) (is_debug : Bool)
      → (is_debug
          && (is_some opt.runner_name
              && not (service_option c opt true false).is_debug_pod_receive_production_traffic))
        ≡ false
      → KeepsBento c lib differ opt.bento_deployment opt.runner_name
      → Selects
          (service_of c lib (service_option c opt true false)).spec.selector
          (selected_labels c lib opt.bento_deployment opt.bento opt.runner_name is_debug)
  unfolding service_option selected_labels
  selected_labels-Selects_generic opt is_debug reached keeps j v h = ground (
    arith,
    h,
    reached,
    lookup-selector c lib (service_option c opt true false) j,
    lookup-insert c.kube_label_yatai_bento_deployment_target_type j debug (
        bento_labels c lib opt.bento opt.runner_name
          (get_kube_labels c lib opt.bento_deployment opt.bento opt.runner_name)),
    lookup-bento_labels c lib differ opt.bento_deployment opt.bento opt.runner_name j keeps,
    wanted-generic opt.runner_name
        (service_option c opt true false).is_debug_pod_receive_production_traffic
        (lookup j (get_kube_labels c lib opt.bento_deployment opt.bento opt.runner_name)),
  )

  -- The extra pod metadata replaces no label that a selector asks for, and the selector does not ask
  -- for the label by which a Deployment finds its pods.
  abbrev pub KeepsSelected : ServicesOption → Dict String → Type 0
  KeepsSelected opt selector =
      ((j : String)
        → (lookup j (entries (extra_pod_labels opt.bento_deployment opt.runner_name)) ≡ none)
          ⊎ (lookup j selector ≡ none))
      × (lookup c.kube_label_yatai_selector selector ≡ none)

  pod_labels-kept :
      (opt : ServicesOption) (is_debug : Bool) (selector : Dict String)
      → KeepsSelected opt selector
      → Selects selector
          (selected_labels c lib opt.bento_deployment opt.bento opt.runner_name is_debug)
      → Selects selector (pod_labels c lib opt.bento_deployment opt.bento opt.runner_name is_debug)
  unfolding pod_labels
  pod_labels-kept opt is_debug selector (apart, own) selects j v h =
      let labels = selected_labels c lib opt.bento_deployment opt.bento opt.runner_name is_debug in
      let kube_name = get_kube_name opt.bento_deployment opt.bento opt.runner_name is_debug in
      let extra = entries (extra_pod_labels opt.bento_deployment opt.runner_name) in
      elim (apart j) [
        | inl absent ↦
            lookup-merge_absent j extra (insert c.kube_label_yatai_selector kube_name labels) absent
            ∙ ground (
              arith,
              lookup-insert c.kube_label_yatai_selector j kube_name labels,
              selects j v h,
              eq_iff c.kube_label_yatai_selector j,
            )
        | inr unasked ↦ cc (unasked, h)
      ]

  -- The production Service of a component selects the pods of its production Deployment, and the debug
  -- Service those of its debug Deployment, provided that the user's labels do not name another Bento
  -- and that the extra pod metadata keeps the labels that the Service selects by.
  pub pod_labels-Selects :
      (opt : ServicesOption) (is_debug : Bool)
      → KeepsBento c lib differ opt.bento_deployment opt.runner_name
      → KeepsSelected opt (service_of c lib (service_option c opt false is_debug)).spec.selector
      → Selects
          (service_of c lib (service_option c opt false is_debug)).spec.selector
          (pod_labels c lib opt.bento_deployment opt.bento opt.runner_name is_debug)
  pod_labels-Selects opt is_debug keeps kept =
      pod_labels-kept opt is_debug _ kept (selected_labels-Selects opt is_debug keeps)

  -- The generic Service of a component selects the pods of its production Deployment, and those of its
  -- debug Deployment too unless the component is a runner whose debug pods receive no production
  -- traffic, provided that the user's labels do not name another Bento and that the extra pod metadata
  -- keeps the labels that the Service selects by.
  pub pod_labels-Selects_generic :
      (opt : ServicesOption) (is_debug : Bool)
      → (is_debug
          && (is_some opt.runner_name
              && not (service_option c opt true false).is_debug_pod_receive_production_traffic))
        ≡ false
      → KeepsBento c lib differ opt.bento_deployment opt.runner_name
      → KeepsSelected opt (service_of c lib (service_option c opt true false)).spec.selector
      → Selects
          (service_of c lib (service_option c opt true false)).spec.selector
          (pod_labels c lib opt.bento_deployment opt.bento opt.runner_name is_debug)
  pod_labels-Selects_generic opt is_debug reached keeps kept =
      pod_labels-kept opt is_debug _ kept
        (selected_labels-Selects_generic opt is_debug reached keeps)
