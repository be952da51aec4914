-- ===== src/Controllers/Hpa/Frame.antt =====
-- What bringing an autoscaler up to date leaves as it is: everything that the calls for autoscalers leave.
use yatai_deployment.Base.{String, Option, Bool, true, false, if◌then◌else◌}
use yatai_deployment.Base.Effect.{lift, or_warn}
use yatai_deployment.Base.Effect.Keeps.{Keeps, >>=-Keeps}
use yatai_deployment.Api.Consts.{Consts}
use yatai_deployment.Api.Kube.{NamespacedName}
use yatai_deployment.Api.Resources.{Bento}
use yatai_deployment.Api.V2alpha1.{BentoDeployment}
use yatai_deployment.Conversion.Names.{TextLib}
use yatai_deployment.Controllers.Objects.Frame.{
  Of, Preserves, or_warn-Keeps, create_or_update_object-Keeps,
}
use yatai_deployment.Controllers.Hpa.{
  HorizontalPodAutoscaler, HpaClient, HpaObject, ServerVersion, require_legacy_hpa, get_hpa,
  hpa_kind, generate_hpa, handle_legacy_hpa, create_or_update_hpa,
}

-- The calls for autoscalers keep a property of the cluster.
pub record HpasPreserve {S V : Type 0} (P : S → Type 0) (client : HpaClient S V) : Type 0 where
  pub get_legacy : (key : NamespacedName) (s : S) → P s → P (client.get_legacy key s).1
  pub get_current : (key : NamespacedName) (s : S) → P s → P (client.get_current key s).1
  pub create : (a : HpaObject V) (s : S) → P s → P (client.create a s).1
  pub update : (a : HpaObject V) (s : S) → P s → P (client.update a s).1
  pub delete : (a : HpaObject V) (s : S) → P s → P (client.delete a s).1

module _ {S V : Type 0} (P : S → Type 0) (client : HpaClient S V)
    (hpas : HpasPreserve P client) where
  if-keeps : {R : Type 0} (b : Bool) (x y : R × S) → P x.1 → P y.1 → P (if b then x else y).1
  if-keeps true x y first second = first
  if-keeps false x y first second = second

  get_hpa-keeps :
      (version : ServerVersion) (hpa : HorizontalPodAutoscaler) (key : NamespacedName) (s : S)
      → P s
      → P (get_hpa client version hpa key s).1
  unfolding get_hpa
  get_hpa-keeps version hpa key s h =
      if-keeps (require_legacy_hpa version) _ _ (hpas.get_legacy key s h) (hpas.get_current key s h)

  kind-Preserves :
      (version : ServerVersion) (hpa : HorizontalPodAutoscaler)
      → Preserves P (hpa_kind client version hpa)
  unfolding hpa_kind
  kind-Preserves version hpa = record {
    get = get_hpa-keeps version hpa;
    create = hpas.create;
    update = hpas.update;
    delete = hpas.delete;
  }

  -- The method keeps what its calls keep.
  pub create_or_update_hpa-Keeps :
      (c : Consts) (lib : TextLib) (version : ServerVersion) (bento_deployment : BentoDeployment)
      (bento : Bento) (runner_name : Option String)
      → Keeps (Of P) (create_or_update_hpa client c lib version bento_deployment bento runner_name)
  unfolding create_or_update_hpa
  create_or_update_hpa-Keeps c lib version bento_deployment bento runner_name =
      >>=-Keeps (Of P) (lift (generate_hpa client c lib bento_deployment bento runner_name)) _
        (λ w h. h)
        λ hpa.
          >>=-Keeps (Of P) (or_warn "HandleHPA" _ (lift (handle_legacy_hpa client version hpa))) _
            (or_warn-Keeps P "HandleHPA" _ (lift (handle_legacy_hpa client version hpa)) λ w h. h)
            λ object.
              create_or_update_object-Keeps P (hpa_kind client version hpa)
                (kind-Preserves version hpa) object (λ old new. new)
