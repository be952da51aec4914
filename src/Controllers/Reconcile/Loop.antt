-- ===== src/Controllers/Reconcile/Loop.antt =====
-- `Reconcile` of controllers/bentodeployment_controller.go.
pub mod Outcome
pub mod Placed
use yatai_deployment.Base.{
  String, Option, none, some, List, [], ◌∷◌, Bool, true, false, not, is_some, Result, ok, err,
  panic, ◌==◌, ◌<>◌, ◌&&◌, ◌||◌, if◌then◌else◌,
}
use yatai_deployment.Base.Effect.{
  Error, other, wrap, Exec, pure, raise, lift, call, attempt, wrap_exec, emit, normal, warning,
  is_not_found, ◌>>=◌, ◌>>◌,
}
use yatai_deployment.Api.Kube.{NamespacedName, Condition}
use yatai_deployment.Api.Resources.{Bento, BentoRequest}
use yatai_deployment.Api.V2alpha1.{BentoDeployment}
use yatai_deployment.Controllers.Objects.{subject_of}
use yatai_deployment.Controllers.Status.{YataiClient, set_status_conditions, get_yatai_client}
use yatai_deployment.Controllers.Reconcile.{Reconciler}
use yatai_deployment.Controllers.Reconcile.Conditions.{
  available, bento_found, bento_request_found, condition, has_status,
}
use yatai_deployment.Controllers.Reconcile.Components.{all_components, client_of}
use yatai_deployment.Controllers.Reconcile.Sync.{sync_yatai}

-- `if test { ... }`
abbrev pub when : {S : Type 0} → Bool → Exec S (Unit {0}) → Exec S (Unit {0})
when true m = m
when false m = pure tt

module _ {S V : Type 0} (r : Reconciler S V) (key : NamespacedName) where
  -- `none` if a call's error says that the object is not there.
  unfoldable pub or_missing : {A : Type 0} → String → Result A → Exec S (Option A)
  or_missing context (ok object) = pure (some object)
  or_missing context panic = lift panic
  or_missing context (err e) = if is_not_found e then pure none else raise (wrap context e)

  -- The conditions are set; the resource after that.
  unfoldable pub set_conditions : List Condition → Exec S BentoDeployment
  unfolding set_status_conditions
  set_conditions = set_status_conditions r.status key

  -- The object of the resource's Bento.
  abbrev bento_key : BentoDeployment → NamespacedName
  bento_key bento_deployment = record {
    namespace = bento_deployment.meta.namespace;
    name = bento_deployment.spec.bento;
  }

  abbrev found_of : BentoDeployment → String → Option Condition
  found_of bento_deployment type = r.find_status_condition bento_deployment.status.conditions type

  -- The search for the BentoRequest. Its failure is only recorded in the conditions.
  unfoldable pub conditions_of_request : Result BentoRequest → Exec S (List Condition)
  unfolding set_conditions
  conditions_of_request (ok request) = pure request.conditions
  conditions_of_request panic = lift panic
  conditions_of_request (err e) = do
    let text = r.error_text (wrap "get BentoRequest" e)
    updated ←
        set_conditions
          (condition bento_found "False" text ∷ condition bento_request_found "False" text ∷ [])
    pure []

  -- The BentoRequest has failed to make a Bento.
  unfoldable pub fail_unavailable : BentoDeployment → Condition → Exec S (Unit {0})
  unfolding set_conditions emit
  fail_unavailable bento_deployment found = do
    let e = other (
        "BentoRequest "
        <> (subject_of (bento_key bento_deployment) <> (" is not available: " <> found.message)))
    let text = r.error_text e
    emit warning "GetBentoRequest" text
    updated ←
        set_conditions (condition bento_found "False" text ∷ condition available "False" text ∷ [])
    raise e

  unfoldable pub check_request : BentoDeployment → Option Condition → Exec S (Unit {0})
  unfolding fail_unavailable
  check_request bento_deployment none = pure tt
  check_request bento_deployment (some found) =
      if found.status == "False" then fail_unavailable bento_deployment found else pure tt

  -- The condition for the search is set unless it is there.
  unfoldable pub mark_search : BentoDeployment → Exec S BentoDeployment
  unfolding set_conditions
  mark_search bento_deployment =
      if has_status (found_of bento_deployment bento_request_found) "Unknown"
      then pure bento_deployment
      else set_conditions (condition bento_request_found "Unknown" "Bento not found" ∷ [])

  -- The Bento is not there: what becomes of its BentoRequest.
  unfoldable pub wait_for_bento : BentoDeployment → Exec S (Unit {0})
  unfolding mark_search conditions_of_request set_conditions check_request emit
  wait_for_bento bento_deployment = do
    let is_first = has_status (found_of bento_deployment bento_request_found) "Unknown"
    marked ← mark_search bento_deployment
    when is_first (emit normal "GetBentoRequest" marked.spec.bento)
    result ← attempt (call (r.bento_requests (bento_key marked)))
    conditions ← conditions_of_request result
    when is_first (emit normal "GetBentoRequest" marked.spec.bento)
    updated ← set_conditions (condition bento_request_found "True" "Bento not found" ∷ [])
    check_request updated
        (r.find_status_condition conditions r.consts.bento_request_condition_type_bento_available)

  unfoldable pub missing_bento : BentoDeployment → Exec S (Unit {0})
  unfolding set_conditions wait_for_bento emit
  missing_bento bento_deployment = do
    when (has_status (found_of bento_deployment bento_found) "Unknown")
        (emit normal "GetBento" bento_deployment.spec.bento)
    updated ← set_conditions (condition bento_found "False" "Bento not found" ∷ [])
    wait_for_bento updated

  -- The last step.
  unfoldable pub finish : BentoDeployment → Bool → Exec S (Unit {0})
  unfolding set_conditions emit
  finish bento_deployment modified = do
    when (not modified) (emit normal "UpdateYataiDeployment" bento_deployment.meta.name)
    emit normal "Update" ""
    updated ← set_conditions (condition available "True" "Reconciling" ∷ [])
    pure tt

  -- What the Yatai server is told, if there is one; whether the reconciliation goes on.
  unfoldable pub tell_yatai : Option YataiClient → BentoDeployment → Bento → Exec S Bool
  unfolding sync_yatai
  tell_yatai none bento_deployment bento = pure true
  tell_yatai (some yatai) bento_deployment bento =
      sync_yatai r (record { endpoint = yatai.endpoint; api_token = yatai.api_token })
        yatai.cluster_name bento_deployment bento key

  -- After the Yatai server has been told.
  unfoldable pub finish_unless : BentoDeployment → Bool → Bool → Exec S (Unit {0})
  unfolding finish
  finish_unless bento_deployment modified false = pure tt
  finish_unless bento_deployment modified true = finish bento_deployment modified

  -- The condition says that the Bento is there: its objects.
  unfoldable pub deploy : Option YataiClient → Bento → BentoDeployment → Exec S (Unit {0})
  unfolding all_components tell_yatai finish_unless
  deploy yatai bento bento_deployment = do
    modified ← all_components r yatai bento_deployment bento
    goes_on ← tell_yatai yatai bento_deployment bento
    finish_unless bento_deployment modified goes_on

  unfoldable pub with_bento : Option YataiClient → BentoDeployment → Bento → Exec S (Unit {0})
  unfolding set_conditions deploy emit
  with_bento yatai bento_deployment bento = do
    let found = found_of bento_deployment bento_found
    when (is_some found && not (has_status found "True"))
        (emit normal "GetBento" bento_deployment.spec.bento)
    updated ← set_conditions (condition bento_found "True" "Bento found" ∷ [])
    deploy yatai bento updated

  unfoldable pub by_bento : Option YataiClient → BentoDeployment → Option Bento → Exec S (Unit {0})
  unfolding missing_bento with_bento
  by_bento yatai bento_deployment none = missing_bento bento_deployment
  by_bento yatai bento_deployment (some bento) = with_bento yatai bento_deployment bento

  unfoldable pub find_bento : BentoDeployment → Exec S (Option Bento)
  unfolding or_missing
  find_bento bento_deployment = do
    result ← attempt (call (r.bentos (bento_key bento_deployment)))
    or_missing ("get Bento " <> subject_of (bento_key bento_deployment)) result

  -- The resource is there and has conditions: what the deferred function watches over.
  unfoldable pub reconcile_resource : BentoDeployment → Exec S (Unit {0})
  unfolding get_yatai_client find_bento by_bento emit
  reconcile_resource bento_deployment = do
    yatai ← wrap_exec "get yatai client" (get_yatai_client r.yatai r.consts)
    when (has_status (found_of bento_deployment bento_found) "Unknown")
        (emit normal "GetBento" bento_deployment.spec.bento)
    bento ← find_bento bento_deployment
    by_bento yatai bento_deployment bento

  -- The deferred function after an error: the error is recorded, and what is returned is whether that
  -- succeeded.
  unfoldable pub record_failure : Error → Exec S (Unit {0})
  unfolding set_conditions emit
  record_failure e = do
    emit warning "ReconcileError" (r.error_text e)
    updated ← set_conditions (
        condition available "False" ("Failed to reconcile BentoDeployment: " <> r.error_text e)
        ∷ [])
    pure tt

  unfoldable pub deferred : Result (Unit {0}) → Exec S (Unit {0})
  unfolding record_failure
  deferred (ok done) = pure done
  deferred (err e) = record_failure e
  deferred panic = lift panic

  -- The first conditions of a resource that has none.
  unfoldable pub initialise : BentoDeployment → Exec S BentoDeployment
  unfolding set_conditions emit
  initialise bento_deployment = elim bento_deployment.status.conditions [
    | [] ↦ do
      emit normal "Reconciling" ""
      set_conditions (
          condition available "Unknown" "Starting to reconcile BentoDeployment"
          ∷ condition bento_found "Unknown" "Starting to reconcile BentoDeployment"
          ∷ [])
    | _ ∷ _ ↦ pure bento_deployment
  ]

  unfoldable pub reconcile_watched : BentoDeployment → Exec S (Unit {0})
  unfolding reconcile_resource deferred
  reconcile_watched bento_deployment = do
    result ← attempt (reconcile_resource bento_deployment)
    deferred result

  unfoldable pub reconcile_found : Option BentoDeployment → Exec S (Unit {0})
  unfolding initialise reconcile_watched
  reconcile_found none = pure tt
  reconcile_found (some bento_deployment) = do
    initialised ← initialise bento_deployment
    reconcile_watched initialised

  -- The resource, or `none` if it has been deleted; another error is returned as it is.
  unfoldable pub found_resource : Result BentoDeployment → Exec S (Option BentoDeployment)
  found_resource (ok bento_deployment) = pure (some bento_deployment)
  found_resource panic = lift panic
  found_resource (err e) = if is_not_found e then pure none else raise e

  unfoldable pub get_resource : Exec S (Option BentoDeployment)
  unfolding found_resource
  get_resource = do result ← attempt (call (r.status.get key)); found_resource result

  unfoldable pub reconcile : Exec S (Unit {0})
  unfolding get_resource reconcile_found
  reconcile = do resource ← get_resource; reconcile_found resource
