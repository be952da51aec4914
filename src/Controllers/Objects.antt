-- ===== src/Controllers/Objects.antt =====
-- What the reconciler's methods share when they bring one object of the cluster up to date: the search
-- for it, its creation and its update, with their events (controllers/handleService.go,
-- handleHPA.go, handleIngress.go, handleDeployment.go, which repeat this code for each kind).
pub mod Laws
pub mod Upsert
pub mod Failure
pub mod Frame
use yatai_deployment.Base.{
  ℕ, String, Option, none, some, List, [], Bool, true, false, Result, ok, err, panic, wrap_err,
  ◌<>◌, if◌then◌else◌,
}
use yatai_deployment.Base.Effect.{
  Error, Exec, pure, raise, lift, wrap_exec, call, attempt, normal, warning, emit, or_warn,
  is_not_found, ◌>>=◌, ◌>>◌,
}
use yatai_deployment.Base.Dict.{Dict}
use yatai_deployment.Api.Kube.{ObjectMeta, NamespacedName}
use yatai_deployment.Api.V2alpha1.{BentoDeployment}

-- The libraries' operations on one kind of object `A`, in a cluster `S`: the API client of
-- controller-runtime, `ctrl.SetControllerReference` (which changes the metadata), and the annotator and
-- the patch maker of banzaicloud/k8s-objectmatcher. `calculate` tells whether the patch is empty.
pub record Kind (S A : Type 0) : Type 0 where
  pub reason : String
  pub key : A → NamespacedName
  pub get : NamespacedName → S → Result A × S
  pub create : A → S → Result (Unit {0}) × S
  pub update : A → S → Result (Unit {0}) × S
  pub delete : A → S → Result (Unit {0}) × S
  pub set_controller_reference : BentoDeployment → A → Result A
  pub set_last_applied_annotation : A → Result A
  pub calculate : A → A → Result Bool

-- The metadata that the methods write.
abbrev pub object_meta : String → String → Dict String → Dict String → ObjectMeta
object_meta name namespace labels annotations = record {
  name = name;
  namespace = namespace;
  uid = "";
  resource_version = "";
  labels = some labels;
  annotations = some annotations;
  owner_references = [];
}

abbrev pub subject_of : NamespacedName → String
subject_of key = key.namespace <> ("/" <> key.name)

module _ {S A : Type 0} (k : Kind S A) where
  -- `none` if the object is not there.
  found : Result A → Exec S (Option A)
  found (ok object) = pure (some object)
  found panic = lift panic
  found (err e) = if is_not_found e then pure none else raise e

  -- `err = r.Get(...); isNotFound := k8serrors.IsNotFound(err)`
  unfoldable pub get_object : NamespacedName → Exec S (Option A)
  unfolding found
  get_object key = do result ← attempt (call (k.get key)); found result

  annotate : A → Exec S A
  unfolding or_warn
  annotate object =
      or_warn "SetLastAppliedAnnotation" (subject_of (k.key object))
        (lift (wrap_err "set last applied annotation" (k.set_last_applied_annotation object)))

  -- The object is not there: create it.
  unfoldable pub create_object : A → Exec S Bool
  unfolding annotate emit or_warn
  create_object object = do
    annotated ← annotate object
    let subject = subject_of (k.key object)
    emit normal ("Create" <> k.reason) subject
    or_warn ("Create" <> k.reason) subject (call (k.create annotated))
    emit normal ("Create" <> k.reason) subject
    pure true

  -- The patch is not empty: write `write annotated`.
  write_object : A → (A → A) → Exec S Bool
  unfolding annotate emit or_warn
  write_object object write = do
    annotated ← annotate object
    let subject = subject_of (k.key object)
    emit normal ("Update" <> k.reason) subject
    or_warn ("Update" <> k.reason) subject (call (k.update (write annotated)))
    emit normal ("Update" <> k.reason) subject
    pure true

  -- The object is there as `old`: update it if the patch from it is not empty.
  unfoldable pub update_object : A → A → (A → A) → Exec S Bool
  unfolding write_object emit or_warn
  update_object old object write = do
    let subject = subject_of (k.key object)
    is_empty ← or_warn "CalculatePatch" subject (lift (k.calculate old object))
    if is_empty
        then (do emit normal ("Update" <> k.reason) subject; pure false)
        else write_object object write

  -- The search that comes first, with its events.
  unfoldable pub find_object : A → Exec S (Option A)
  unfolding get_object emit or_warn
  find_object object = do
    let subject = subject_of (k.key object)
    emit normal ("Get" <> k.reason) subject
    or_warn ("Get" <> k.reason) subject (get_object (k.key object))

  save_object : A → (A → A → A) → Option A → Exec S Bool
  unfolding create_object update_object
  save_object object write none = create_object object
  save_object object write (some old) = update_object old object (write old)

  -- The whole: `write old annotated` is what an update writes.
  unfoldable pub create_or_update_object : A → (A → A → A) → Exec S Bool
  unfolding find_object save_object
  create_or_update_object object write = do old ← find_object object; save_object object write old

  delete_found : String → Option A → Exec S Bool
  delete_found context none = pure false
  delete_found context (some old) = do wrap_exec context (call (k.delete old)); pure true

  -- `Get`, and `Delete` if the object is there; whether it was.
  unfoldable pub delete_if_found : String → String → NamespacedName → Exec S Bool
  unfolding get_object delete_found
  delete_if_found get_context delete_context key = do
    old ← wrap_exec get_context (get_object key)
    delete_found delete_context old
