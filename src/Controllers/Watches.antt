-- ===== src/Controllers/Watches.antt =====
-- `SetupWithManager` of controllers/bentodeployment_controller.go: which resources are reconciled when a
-- Bento or a BentoRequest has changed.
pub mod Wakes
use yatai_deployment.Base.{
  String, Option, none, some, List, [], ◌∷◌, Bool, true, false, ◌==◌, Result, ok, err, panic,
  if◌then◌else◌,
}
use yatai_deployment.Base.Effect.{Exec, pure, lift, call, attempt, is_not_found, ◌>>=◌}
use yatai_deployment.Api.Kube.{NamespacedName}
use yatai_deployment.Api.Resources.{Bento}
use yatai_deployment.Api.V2alpha1.{BentoDeployment}

-- The API client's `Get` of a Bento and its `List` of the BentoDeployments of a namespace.
pub record WatchClient (S : Type 0) : Type 0 where
  pub get_bento : NamespacedName → S → Result Bento × S
  pub list : String → S → Result (List BentoDeployment) × S

-- `client.ObjectKeyFromObject`
abbrev pub object_key : BentoDeployment → NamespacedName
object_key bento_deployment = record {
  namespace = bento_deployment.meta.namespace;
  name = bento_deployment.meta.name;
}

-- The loop over the resources: those whose Bento has a name.
unfoldable pub requests_for : String → List BentoDeployment → List NamespacedName
requests_for name [] = []
requests_for name (bento_deployment ∷ rest) =
    let later = requests_for name rest in
    if bento_deployment.spec.bento == name then object_key bento_deployment ∷ later else later

module _ {S : Type 0} (client : WatchClient S) where
  -- A list that has failed leaves the list empty.
  unfoldable pub listed : Result (List BentoDeployment) → Exec S (List BentoDeployment)
  listed (ok items) = pure items
  listed (err e) = pure []
  listed panic = lift panic

  unfoldable pub list_namespace : String → Exec S (List BentoDeployment)
  unfolding listed
  list_namespace namespace = do result ← attempt (call (client.list namespace)); listed result

  -- A Bento has changed.
  unfoldable pub bento_requests : NamespacedName → Exec S (List NamespacedName)
  unfolding list_namespace requests_for
  bento_requests bento = do
    items ← list_namespace bento.namespace
    pure (requests_for bento.name items)

  -- Whether the Bento of a BentoRequest is known to be missing.
  unfoldable pub is_missing : Result Bento → Exec S Bool
  is_missing (ok bento) = pure false
  is_missing (err e) = pure (is_not_found e)
  is_missing panic = lift panic

  unfoldable pub requests_if : NamespacedName → Bool → Exec S (List NamespacedName)
  unfolding bento_requests
  requests_if bento_request true = bento_requests bento_request
  requests_if bento_request false = pure []

  -- A BentoRequest has changed: nothing is done unless its Bento is missing.
  unfoldable pub bento_request_requests : NamespacedName → Exec S (List NamespacedName)
  unfolding is_missing requests_if
  bento_request_requests bento_request = do
    result ← attempt (call (client.get_bento bento_request))
    missing ← is_missing result
    requests_if bento_request missing
