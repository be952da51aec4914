-- ===== src/Controllers/Service/Selector.antt =====
-- Which pods the Services of a component select.
use yatai_deployment.Base.{
  String, Option, none, some, Bool, true, false, ◌==◌, ◌≡◌, refl, arith, eq_iff, eq_refl,
  if◌then◌else◌,
}
use yatai_deployment.Base.Dict.{Dict, lookup, entries, insert, lookup-insert, lookup-erase}
use yatai_deployment.Api.Consts.{Consts}
use yatai_deployment.Conversion.Names.{TextLib}
use yatai_deployment.Controllers.Labels.{
  production, debug, get_kube_labels, extra_labels, TargetTypeDiffers, target_type-get_kube_labels,
}
use yatai_deployment.Controllers.Service.{
  ServiceOption, ServicesOption, service_of, service_option, selector_of,
}

-- The target type that a Service asks for, by the kind of Service: `none` is any. `label` is what the
-- labels of the component say.
abbrev pub wanted_target_type : Option String → Bool → Bool → Bool → Option String → Option String
wanted_target_type none true receives is_debug label = none
wanted_target_type none false receives true label = some debug
wanted_target_type none false receives false label = label
wanted_target_type (some _) true true is_debug label = none
wanted_target_type (some _) true false true label = some debug
wanted_target_type (some _) true false false label = label
wanted_target_type (some _) false receives true label = some debug
wanted_target_type (some _) false receives false label = label

module _ (c : Consts) where
  abbrev target_type : String
  target_type = c.kube_label_yatai_bento_deployment_target_type

  lookup-selector_of :
      (opt : ServiceOption) (labels : Dict String) (j : String)
      → lookup j (selector_of c opt labels) ≡ (
          if target_type == j
          then wanted_target_type opt.runner_name opt.is_generic_service
              opt.is_debug_pod_receive_production_traffic opt.is_stealing_traffic_debug_mode_enabled
              (lookup j labels)
          else lookup j labels)
  unfolding selector_of
  lookup-selector_of opt labels j = ground (
    arith,
    lookup-insert target_type j debug labels,
    lookup-erase target_type j labels,
    lookup-erase target_type j (insert target_type debug labels),
  )

module _ (c : Consts) (lib : TextLib) where
  -- A Service selects pods by the labels of its component. Only the target type is treated apart: the
  -- generic Service of the API server, and that of a runner whose debug pods receive production
  -- traffic, take pods of any target type; the Service of the debug pods takes the target type "debug".
  pub lookup-selector :
      (opt : ServiceOption) (j : String)
      → lookup j (service_of c lib opt).spec.selector ≡ (
          if c.kube_label_yatai_bento_deployment_target_type == j
          then wanted_target_type opt.runner_name opt.is_generic_service
              opt.is_debug_pod_receive_production_traffic opt.is_stealing_traffic_debug_mode_enabled
              (lookup j (get_kube_labels c lib opt.bento_deployment opt.bento opt.runner_name))
          else lookup j (get_kube_labels c lib opt.bento_deployment opt.bento opt.runner_name))
  unfolding service_of
  lookup-selector opt j =
      lookup-selector_of c opt
        (get_kube_labels c lib opt.bento_deployment opt.bento opt.runner_name) j

pub wanted-debug :
    (runner_name : Option String) (receives : Bool) (label : Option String)
    → wanted_target_type runner_name false receives true label ≡ some debug
wanted-debug none receives label = refl
wanted-debug (some _) receives label = refl

pub wanted-production :
    (runner_name : Option String) (receives : Bool) (label : Option String)
    → wanted_target_type runner_name false receives false label ≡ label
wanted-production none receives label = refl
wanted-production (some _) receives label = refl

-- A selector matches the labels of a pod.
abbrev pub Selects : Dict String → Dict String → Type 0
Selects selector labels = (j v : String) → lookup j selector ≡ some v → lookup j labels ≡ some v

module _ (c : Consts) (lib : TextLib) (differs : TargetTypeDiffers c) where
  abbrev service : ServicesOption → Bool → Dict String
  service opt is_debug = (service_of c lib (service_option c opt false is_debug)).spec.selector

  wants_debug :
      (opt : ServicesOption)
      → lookup c.kube_label_yatai_bento_deployment_target_type (service opt true) ≡ some debug
  unfolding service_option
  wants_debug opt = simp (
    lookup-selector c lib (service_option c opt false true) (target_type c),
    eq_refl,
    wanted-debug,
  )

  wants_production :
      (opt : ServicesOption)
      → lookup c.kube_label_yatai_bento_deployment_target_type
          (entries (extra_labels opt.bento_deployment opt.runner_name))
        ≡ none
      → lookup c.kube_label_yatai_bento_deployment_target_type (service opt false) ≡ some production
  unfolding service_option
  wants_production opt h = simp (
    lookup-selector c lib (service_option c opt false false) (target_type c),
    eq_refl,
    wanted-production,
    target_type-get_kube_labels c lib differs opt.bento_deployment opt.bento opt.runner_name h,
  )

  -- No pod is selected by both the production and the debug Service of a component, unless the user's
  -- labels replace the target type.
  pub split_services-disjoint :
      (opt : ServicesOption) (pod_labels : Dict String)
      → lookup c.kube_label_yatai_bento_deployment_target_type
          (entries (extra_labels opt.bento_deployment opt.runner_name))
        ≡ none
      → Selects (service_of c lib (service_option c opt false false)).spec.selector pod_labels
      → ¬ Selects (service_of c lib (service_option c opt false true)).spec.selector pod_labels
  split_services-disjoint opt pod_labels h p d =
      let key = c.kube_label_yatai_bento_deployment_target_type in
      ground (
        arith,
        p key production (wants_production opt h),
        d key debug (wants_debug opt),
        eq_iff production debug,
      )
