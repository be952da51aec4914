-- ===== src/Controllers/Deployments/Component.antt =====
-- `createOrUpdateOrDeleteDeployments`: the Deployments of a component after the method has returned.
use yatai_deployment.Base.{
  ◌+◌, String, len, len-append, Option, none, some, Bool, true, false, ok, ◌≡◌, ◌≢◌, ◌∙◌, refl, sym,
  ap, subst, arith, inl, inr, Bool-cases, if◌then◌else◌, wrap_err-eq-ok,
}
use yatai_deployment.Base.Effect.{World, wrap_exec, >>=-eq-ok}
use yatai_deployment.Api.Consts.{Consts}
use yatai_deployment.Api.Kube.{NamespacedName, QuantityLib}
use yatai_deployment.Api.Pods.{Deployment, PodTemplateSpec}
use yatai_deployment.Api.Resources.{Bento}
use yatai_deployment.Api.V2alpha1.{BentoDeployment}
use yatai_deployment.Api.Yatai.{Http}
use yatai_deployment.Conversion.Names.{TextLib}
use yatai_deployment.Controllers.Names.{get_kube_name}
use yatai_deployment.Controllers.Objects.{Kind, delete_if_found}
use yatai_deployment.Controllers.Objects.Laws.{IsLawful, same_key}
use yatai_deployment.Controllers.Objects.Upsert.{
  create_or_update_object-Upserted, delete_if_found-Removed,
}
use yatai_deployment.Controllers.Service.{has_split_services}
use yatai_deployment.Controllers.Service.Sync.{same_key_ne}
use yatai_deployment.Controllers.Pods.Options.{PodOption, PodLib, PodClient}
use yatai_deployment.Controllers.Pods.Template.{generate_pod_template_spec}
use yatai_deployment.Controllers.Deployments.{
  DeploymentsOption, deployment_name, deployment_of, deployment_option, own_deployment,
  generate_deployment, save_deployment, create_or_update_deployment, debug_key,
  remove_debug_deployment, debug_deployment, create_or_update_or_delete_deployments,
}
use yatai_deployment.Controllers.Deployments.Frame.{IsApart, generate_pod_template_spec-Keeps}

kube_name-longer :
    (bento_deployment : BentoDeployment) (bento : Bento) (runner_name : Option String)
    → len (get_kube_name bento_deployment bento runner_name true)
      ≡ len (get_kube_name bento_deployment bento runner_name false) + 2
unfolding get_kube_name
kube_name-longer bento_deployment bento none =
    omega (arith, len-append bento_deployment.meta.name "-d")
kube_name-longer bento_deployment bento (some runner_name) = grind (arith, len-append)

-- The debug Deployment has another name than the production Deployment.
kube_name-ne :
    (bento_deployment : BentoDeployment) (bento : Bento) (runner_name : Option String)
    → get_kube_name bento_deployment bento runner_name true
      ≢ get_kube_name bento_deployment bento runner_name false
kube_name-ne bento_deployment bento runner_name e =
    omega (arith, ap len e, kube_name-longer bento_deployment bento runner_name)

module _ {S : Type 0} (k : Kind S Deployment) (view : S → NamespacedName → Option Deployment)
    (Agrees : Deployment → Deployment → Type 0) (law : IsLawful k view Agrees)
    (key_of : (a : Deployment)
      → k.key a ≡ record { namespace = a.meta.namespace; name = a.meta.name })
    (client : PodClient S) (http : Http S) (apart : IsApart view client http) (c : Consts)
    (lib : TextLib) (quantities : QuantityLib) (pods : PodLib) where
  abbrev pub option_key : PodOption → NamespacedName
  option_key opt = record {
    namespace = opt.bento_deployment.meta.namespace;
    name = deployment_name c lib opt;
  }

  -- A Deployment of the component is in the cluster, with a pod template that has been generated for it.
  pub record InPlace (opt : PodOption) (after : World S) : Type 0 where
    pub template : PodTemplateSpec
    pub start : World S
    pub generated :
        (generate_pod_template_spec c lib quantities pods opt client http start).0 ≡ ok template
    pub stored : Deployment
    pub there : view after.cluster (option_key opt) ≡ some stored
    pub agrees : Agrees stored (deployment_of c lib opt template)

  -- One Deployment: it is in place, and nothing else has changed.
  abbrev pub Changed : PodOption → World S → World S → Type 0
  Changed opt before after =
      InPlace opt after
      × ((j : NamespacedName)
          → same_key (option_key opt) j ≡ false
          → view after.cluster j ≡ view before.cluster j)

  deployment_key :
      (opt : PodOption) (template : PodTemplateSpec)
      → k.key (deployment_of c lib opt template) ≡ option_key opt
  unfolding deployment_of
  deployment_key opt template = key_of (deployment_of c lib opt template)

  generate_deployment-eq-ok :
      (opt : PodOption) (w w' : World S) (deployment : Deployment)
      → generate_deployment k client http c lib quantities pods opt w ≡ (ok deployment, w')
      → (template : PodTemplateSpec) × ((generate_pod_template_spec c lib quantities pods opt client
            http w).0
          ≡ ok template)
        × (k.set_controller_reference opt.bento_deployment (deployment_of c lib opt template)
            ≡ ok deployment)
        × ((generate_pod_template_spec c lib quantities pods opt client http w).1 ≡ w')
  unfolding generate_deployment own_deployment
  generate_deployment-eq-ok opt w w' deployment h =
      let make = generate_pod_template_spec c lib quantities pods opt client http in
      let (template, e, more) =
        >>=-eq-ok make (own_deployment k client http c lib quantities pods opt) w h in
      (
        template,
        e,
        wrap_err-eq-ok "set deployment controller reference"
            (k.set_controller_reference opt.bento_deployment (deployment_of c lib opt template))
            (ap (λ p. p.0) more),
        ap (λ p. p.1) more,
      )

  create_or_update_deployment-Changed :
      (opt : PodOption) (w w' : World S) (b : Bool)
      → create_or_update_deployment k client http c lib quantities pods opt w ≡ (ok b, w')
      → Changed opt w w'
  unfolding create_or_update_deployment save_deployment
  create_or_update_deployment-Changed opt w w' b h =
      let generate = generate_deployment k client http c lib quantities pods opt in
      let (deployment, e, more) =
        >>=-eq-ok generate (save_deployment k client http c lib quantities pods) w h in
      let w1 = (generate w).1 in
      let (template, made, referred, same_world) =
        generate_deployment-eq-ok opt w w1 deployment (λ i. (e i, w1)) in
      let (same, described) =
        law.referenced opt.bento_deployment (deployment_of c lib opt template) deployment
          referred in
      let up =
        create_or_update_object-Upserted k view Agrees law deployment (λ old new. new) w1 w' b
          (λ old _ annotated key agrees. (key, agrees)) more in
      let at = same ∙ deployment_key opt template in
      (
        record {
          template = template;
          start = w;
          generated = made;
          stored = up.stored;
          there = ap (view w'.cluster) (sym at) ∙ up.at_key;
          agrees = described up.stored up.agrees;
        },
        λ j ne.
            up.elsewhere j (ap (λ key. same_key key j) at ∙ ne)
            ∙ (ap (λ x. view x.cluster j) (sym same_world)
                ∙ generate_pod_template_spec-Keeps view client http apart c lib quantities pods opt
                    (view w.cluster) w (λ i. refl) j),
      )

  -- The Deployment of the debug pods: in place, or not in the cluster.
  abbrev pub Debug : DeploymentsOption → World S → Bool → Type 0
  Debug opt after true = InPlace (deployment_option c opt true) after
  Debug opt after false = view after.cluster (option_key (deployment_option c opt true)) ≡ none

  abbrev pub is_split : DeploymentsOption → Bool
  is_split opt = has_split_services c (record {
    bento_deployment = opt.bento_deployment;
    bento = opt.bento;
    runner_name = opt.runner_name;
  })

  -- The Deployments of the component, in a cluster that is up to date, and the rest of the cluster.
  pub record IsUpToDate (opt : DeploymentsOption) (before after : World S) : Type 0 where
    pub production : InPlace (deployment_option c opt false) after
    pub debug : Debug opt after (is_split opt)
    pub elsewhere :
        (j : NamespacedName)
        → ((is_debug : Bool) → same_key (option_key (deployment_option c opt is_debug)) j ≡ false)
        → view after.cluster j ≡ view before.cluster j

  -- The debug Deployment is brought up to date.
  abbrev DebugDone : DeploymentsOption → Bool → World S → World S → Type 0
  DebugDone opt split before after =
      Debug opt after split
      × ((j : NamespacedName)
          → same_key (option_key (deployment_option c opt true)) j ≡ false
          → view after.cluster j ≡ view before.cluster j)

  debug_key-option :
      (opt : DeploymentsOption)
      → debug_key k client http c lib quantities pods opt
        ≡ option_key (deployment_option c opt true)
  unfolding debug_key deployment_option deployment_name
  debug_key-option opt = refl

  remove_debug_deployment-DebugDone :
      (opt : DeploymentsOption) (w w' : World S) (modified b : Bool)
      → remove_debug_deployment k client http c lib quantities pods opt modified w ≡ (ok b, w')
      → DebugDone opt false w w'
  unfolding remove_debug_deployment
  remove_debug_deployment-DebugDone opt w w' modified b h =
      let key = debug_key k client http c lib quantities pods opt in
      let remove = delete_if_found k "get deployment" "delete deployment" key in
      let (removed, e, more) = >>=-eq-ok remove _ w h in
      let w1 = (remove w).1 in
      let done : w1 ≡ w' = ap (λ p. p.1) more in
      let r =
        (delete_if_found-Removed k view Agrees law "get deployment" "delete deployment" key w w1
          removed (λ i. (e i, w1))).0 in
      subst (DebugDone opt false w) done (
        ap (view w1.cluster) (sym (debug_key-option opt)) ∙ r.gone,
        λ j ne. r.elsewhere j (ap (λ x. same_key x j) (debug_key-option opt) ∙ ne),
      )

  wrapped-Changed :
      (opt : PodOption) (w w' : World S) (b : Bool)
      → wrap_exec "create or update deployment"
          (create_or_update_deployment k client http c lib quantities pods opt)
          w
        ≡ (ok b, w')
      → Changed opt w w'
  wrapped-Changed opt w w' b h =
      let make = create_or_update_deployment k client http c lib quantities pods opt in
      create_or_update_deployment-Changed opt w w' b λ i. (
        wrap_err-eq-ok "create or update deployment" (make w).0 (ap (λ p. p.0) h) i,
        ap (λ p. p.1) h i,
      )

  debug_deployment-DebugDone :
      (opt : DeploymentsOption) (w w' : World S) (modified b : Bool)
      → debug_deployment k client http c lib quantities pods opt modified w ≡ (ok b, w')
      → DebugDone opt (is_split opt) w w'
  unfolding debug_deployment
  debug_deployment-DebugDone opt w w' modified b h =
      let branch = λ (split : Bool).
        (if split
            then wrap_exec "create or update deployment" (
                create_or_update_deployment k client http c lib quantities pods
                  (deployment_option c opt true))
            else remove_debug_deployment k client http c lib quantities pods opt modified)
          w
        ≡ (ok b, w') in
      elim (Bool-cases (is_split opt)) [
        | inl split ↦
            subst (λ x. DebugDone opt x w w') (sym split)
              (wrapped-Changed (deployment_option c opt true) w w' b (subst branch split h))
        | inr whole ↦
            subst (λ x. DebugDone opt x w w') (sym whole)
              (remove_debug_deployment-DebugDone opt w w' modified b (subst branch whole h))
      ]

  apart_keys :
      (opt : DeploymentsOption)
      → same_key
          (option_key (deployment_option c opt true))
          (option_key (deployment_option c opt false))
        ≡ false
  unfolding deployment_option deployment_name
  apart_keys opt =
      same_key_ne (option_key (deployment_option c opt true))
        (option_key (deployment_option c opt false))
        (kube_name-ne opt.bento_deployment opt.bento opt.runner_name)

  -- When the method has returned, the component's production Deployment is in the cluster, with a pod
  -- template that generatePodTemplateSpec returned; in stealing-traffic debug mode so is the debug
  -- Deployment, and otherwise that does not exist; every other Deployment is as before.
  pub create_or_update_or_delete_deployments-IsUpToDate :
      (opt : DeploymentsOption) (w w' : World S) (b : Bool)
      → create_or_update_or_delete_deployments k client http c lib quantities pods opt w
        ≡ (ok b, w')
      → IsUpToDate opt w w'
  unfolding create_or_update_or_delete_deployments
  create_or_update_or_delete_deployments-IsUpToDate opt w w' b h =
      let first = wrap_exec "create or update deployment" (
        create_or_update_deployment k client http c lib quantities pods
          (deployment_option c opt false)) in
      let (modified, e, more) =
        >>=-eq-ok first (debug_deployment k client http c lib quantities pods opt) w h in
      let w1 = (first w).1 in
      let (production, other) =
        wrapped-Changed (deployment_option c opt false) w w1 modified (λ i. (e i, w1)) in
      let (debug, rest) = debug_deployment-DebugDone opt w1 w' modified b more in
      record {
        production = record {
          template = production.template;
          start = production.start;
          generated = production.generated;
          stored = production.stored;
          agrees = production.agrees;
          there =
              rest (option_key (deployment_option c opt false)) (apart_keys opt) ∙ production.there;
        };
        debug = debug;
        elsewhere = λ j ne. rest j (ne true) ∙ other j (ne false);
      }
