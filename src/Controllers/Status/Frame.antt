-- ===== src/Controllers/Status/Frame.antt =====
-- What setting conditions leaves as it is: everything that the calls for the resource leave.
use yatai_deployment.Base.{ℕ, zero, suc, List, Result, ok, err, panic}
use yatai_deployment.Base.Effect.{Exec, pure, lift, call, attempt, wrap_exec}
use yatai_deployment.Base.Effect.Keeps.{Keeps, >>=-Keeps}
use yatai_deployment.Api.Kube.{NamespacedName, Condition}
use yatai_deployment.Api.V2alpha1.{BentoDeployment}
use yatai_deployment.Controllers.Objects.Frame.{Of, attempt-Keeps}
use yatai_deployment.Controllers.Status.{
  StatusClient, with_conditions, tries, set_status_conditions,
}

-- The calls for the resource keep a property of the cluster.
pub record StatusPreserve {S : Type 0} (P : S → Type 0) (client : StatusClient S) : Type 0 where
  pub get : (key : NamespacedName) (s : S) → P s → P (client.get key s).1
  pub update_status : (d : BentoDeployment) (s : S) → P s → P (client.update_status d s).1

module _ {S : Type 0} (P : S → Type 0) (client : StatusClient S)
    (preserves : StatusPreserve P client) (key : NamespacedName) (conditions : List Condition) where
  abbrev again : ℕ → Result (Unit {0}) → Exec S (Result (Unit {0}))
  again n (ok _) = pure (ok tt)
  again n (err e) = tries client n key conditions (err e)
  again n panic = lift panic

  again-Keeps :
      (n : ℕ) (result : Result (Unit {0}))
      → ((last : Result (Unit {0})) → Keeps (Of P) (tries client n key conditions last))
      → Keeps (Of P) (again n result)
  again-Keeps n (ok _) keeps = λ w h. h
  again-Keeps n (err e) keeps = keeps (err e)
  again-Keeps n panic keeps = λ w h. h

  tries-Keeps :
      (n : ℕ) (last : Result (Unit {0})) → Keeps (Of P) (tries client n key conditions last)
  unfolding tries
  tries-Keeps zero last = λ w h. h
  tries-Keeps (suc n) last =
      >>=-Keeps (Of P) (wrap_exec "Failed to re-fetch BentoDeployment" (call (client.get key))) _
        (λ w h. preserves.get key w.cluster h)
        λ d.
          >>=-Keeps (Of P)
            (attempt (call (client.update_status (with_conditions client conditions d)))) _
            (attempt-Keeps P (call (client.update_status (with_conditions client conditions d)))
              λ w h. preserves.update_status (with_conditions client conditions d) w.cluster h)
            λ result. again-Keeps n result (tries-Keeps n)

  -- The method keeps what its calls keep.
  pub set_status_conditions-Keeps : Keeps (Of P) (set_status_conditions client key conditions)
  unfolding set_status_conditions
  set_status_conditions-Keeps =
      >>=-Keeps (Of P) (tries client 3 key conditions (ok tt)) _ (tries-Keeps 3 (ok tt)) λ last.
        >>=-Keeps (Of P) (wrap_exec "Failed to update BentoDeployment status" (lift last)) _
          (λ w h. h) λ _ w h. preserves.get key w.cluster h
