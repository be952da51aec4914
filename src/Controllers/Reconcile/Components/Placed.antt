-- ===== src/Controllers/Reconcile/Components/Placed.antt =====
-- The Deployments of one component after they have been brought up to date.
use yatai_deployment.Base.{String, Option, Bool, true, false, ok, ◌≡◌, ◌≢◌, ◌∙◌}
use yatai_deployment.Base.Effect.{World}
use yatai_deployment.Api.Kube.{NamespacedName}
use yatai_deployment.Api.Pods.{Deployment}
use yatai_deployment.Api.Resources.{Bento}
use yatai_deployment.Api.V2alpha1.{BentoDeployment}
use yatai_deployment.Controllers.Names.Distinct.{IsComponent, kube_name-component}
use yatai_deployment.Controllers.Objects.Laws.{IsLawful, same_key}
use yatai_deployment.Controllers.Objects.Frame.{Preserves}
use yatai_deployment.Controllers.Deployments.{deployment_name, deployment_option}
use yatai_deployment.Controllers.Deployments.Component.{
  InPlace, Debug, is_split, option_key, create_or_update_or_delete_deployments-IsUpToDate,
}
use yatai_deployment.Controllers.Deployments.Frame.{IsApart}
use yatai_deployment.Controllers.Hpa.Frame.{HpasPreserve}
use yatai_deployment.Controllers.Ingress.Frame.{SettingsPreserve}
use yatai_deployment.Controllers.Service.Sync.{same_key_ne}
use yatai_deployment.Controllers.Status.{YataiClient}
use yatai_deployment.Controllers.Status.Frame.{StatusPreserve}
use yatai_deployment.Controllers.Reconcile.{Reconciler}
use yatai_deployment.Controllers.Reconcile.Components.{deployments_option, component_deployments}

-- The cluster shows these Deployments.
abbrev pub Shows :
    {S : Type 0}
    → (S → NamespacedName → Option Deployment)
    → (NamespacedName → Option Deployment)
    → S
    → Type 0
Shows view shown s = (j : NamespacedName) → view s j ≡ shown j

-- The calls for the other kinds of objects, and those for settings, show no Deployment another way.
pub record IsSeparate {S V : Type 0} (r : Reconciler S V)
    (view : S → NamespacedName → Option Deployment) : Type 0 where
  pub pods : IsApart view r.pod_client r.http
  pub services :
      (shown : NamespacedName → Option Deployment) → Preserves (Shows view shown) r.services
  pub hpas : (shown : NamespacedName → Option Deployment) → HpasPreserve (Shows view shown) r.hpas
  pub ingresses :
      (shown : NamespacedName → Option Deployment) → Preserves (Shows view shown) r.ingresses
  pub settings :
      (shown : NamespacedName → Option Deployment)
      → SettingsPreserve (Shows view shown) r.ingress_lib
  pub status :
      (shown : NamespacedName → Option Deployment) → StatusPreserve (Shows view shown) r.status

module _ {S V : Type 0} (r : Reconciler S V) (view : S → NamespacedName → Option Deployment)
    (Agrees : Deployment → Deployment → Type 0) (law : IsLawful r.deployments view Agrees)
    (key_of : (a : Deployment)
      → r.deployments.key a ≡ record { namespace = a.meta.namespace; name = a.meta.name })
    (separate : IsSeparate r view) (yatai : Option YataiClient) (bento_deployment : BentoDeployment)
    (bento : Bento) where
  -- The production Deployment of a component is in the cluster, with a pod template that was generated
  -- for it; so is the debug Deployment if the component has one, and otherwise that does not exist.
  pub record Placed (x : Option String) (after : World S) : Type 0 where
    pub production :
        InPlace r.deployments view Agrees law key_of r.pod_client r.http separate.pods r.consts
          r.texts r.quantities r.pod_lib
          (deployment_option r.consts (deployments_option r yatai bento_deployment bento x) false)
          after
    pub debug :
        Debug r.deployments view Agrees law key_of r.pod_client r.http separate.pods r.consts
          r.texts r.quantities r.pod_lib
          (deployments_option r yatai bento_deployment bento x)
          after
          (is_split r.deployments view Agrees law key_of r.pod_client r.http separate.pods r.consts
            r.texts r.quantities r.pod_lib
            (deployments_option r yatai bento_deployment bento x))

  -- The key of one of a component's Deployments.
  abbrev pub key : Option String → Bool → NamespacedName
  key x is_debug =
      option_key r.deployments view Agrees law key_of r.pod_client r.http separate.pods r.consts
        r.texts r.quantities r.pod_lib
        (deployment_option r.consts (deployments_option r yatai bento_deployment bento x) is_debug)

  abbrev DebugAt : Option String → World S → Bool → Type 0
  DebugAt x =
      Debug r.deployments view Agrees law key_of r.pod_client r.http separate.pods r.consts r.texts
        r.quantities r.pod_lib (deployments_option r yatai bento_deployment bento x)

  InPlace-after :
      (x : Option String) (is_debug : Bool) (w w' : World S)
      → view w'.cluster (key x is_debug) ≡ view w.cluster (key x is_debug)
      → InPlace r.deployments view Agrees law key_of r.pod_client r.http separate.pods r.consts
          r.texts r.quantities r.pod_lib
          (deployment_option r.consts
            (deployments_option r yatai bento_deployment bento x)
            is_debug)
          w
      → InPlace r.deployments view Agrees law key_of r.pod_client r.http separate.pods r.consts
          r.texts r.quantities r.pod_lib
          (deployment_option r.consts
            (deployments_option r yatai bento_deployment bento x)
            is_debug)
          w'
  InPlace-after x is_debug w w' same placed = record {
    template = placed.template;
    start = placed.start;
    generated = placed.generated;
    stored = placed.stored;
    there = same ∙ placed.there;
    agrees = placed.agrees;
  }

  DebugAt-after :
      (x : Option String) (split : Bool) (w w' : World S)
      → view w'.cluster (key x true) ≡ view w.cluster (key x true)
      → DebugAt x w split
      → DebugAt x w' split
  DebugAt-after x true w w' same placed = InPlace-after x true w w' same placed
  DebugAt-after x false w w' same gone = same ∙ gone

  -- A component's Deployments stay in place where the cluster shows the same at their keys.
  pub Placed-after :
      (x : Option String) (w w' : World S)
      → ((is_debug : Bool) → view w'.cluster (key x is_debug) ≡ view w.cluster (key x is_debug))
      → Placed x w
      → Placed x w'
  Placed-after x w w' same placed = record {
    production = InPlace-after x false w w' (same false) placed.production;
    debug = DebugAt-after x _ w w' (same true) placed.debug;
  }

  -- Two components have no key in common.
  key-ne :
      (x y : Option String) (is_debug is_debug' : Bool)
      → IsComponent bento x
      → IsComponent bento y
      → x ≢ y
      → same_key (key x is_debug) (key y is_debug') ≡ false
  unfolding deployment_option deployment_name
  key-ne x y is_debug is_debug' p q ne =
      same_key_ne (key x is_debug) (key y is_debug')
        λ h. ne (kube_name-component bento_deployment bento x y is_debug is_debug' p q h)

  pub component_deployments-Placed :
      (x : Option String) (w w' : World S) (b : Bool)
      → IsComponent bento x
      → component_deployments r yatai bento_deployment bento x w ≡ (ok b, w')
      → Placed x w' × ((y : Option String) → IsComponent bento y → x ≢ y → Placed y w → Placed y w')
  unfolding component_deployments
  component_deployments-Placed x w w' b p h =
      let up =
        create_or_update_or_delete_deployments-IsUpToDate r.deployments view Agrees law key_of
          r.pod_client r.http separate.pods r.consts r.texts r.quantities r.pod_lib
          (deployments_option r yatai bento_deployment bento x) w w' b h in
      (
        record { production = up.production; debug = up.debug },
        λ y q ne placed.
            Placed-after y w w'
              (λ is_debug'.
                up.elsewhere (key y is_debug') λ is_debug. key-ne x y is_debug is_debug' p q ne)
              placed,
      )
