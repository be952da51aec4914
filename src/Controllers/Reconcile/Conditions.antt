-- ===== src/Controllers/Reconcile/Conditions.antt =====
-- The conditions of a BentoDeployment that the reconciler sets.
use yatai_deployment.Base.{String, Option, none, some, Bool, false, ◌==◌}
use yatai_deployment.Api.Kube.{Condition}

-- `BentoDeploymentConditionTypeAvailable` and the like.
abbrev pub available : String
available = "Available"

abbrev pub bento_found : String
bento_found = "BentoFound"

abbrev pub bento_request_found : String
bento_request_found = "BentoRequestFound"

-- A condition, whose reason is always the same.
abbrev pub condition : String → String → String → Condition
condition type status message = record {
  type = type;
  status = status;
  reason = "Reconciling";
  message = message;
}

-- `condition != nil && condition.Status == status`
abbrev pub has_status : Option Condition → String → Bool
has_status none status = false
has_status (some found) status = found.status == status
