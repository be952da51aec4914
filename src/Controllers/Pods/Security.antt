-- ===== src/Controllers/Pods/Security.antt =====
-- The security contexts of the containers, and the host flags of the pod, from `generatePodTemplateSpec`
-- of controllers/handleDeployment.go.
use yatai_deployment.Base.{
  String, Option, none, some, [], ◌∷◌, Bool, true, false, ◌==◌, if◌then◌else◌,
}
use yatai_deployment.Base.Dict.{Dict, read}
use yatai_deployment.Api.Consts.{Consts}
use yatai_deployment.Api.Pods.{SecurityContext, Capabilities}
use yatai_deployment.Controllers.Pods.Options.{PodLib}

-- `&corev1.SecurityContext{}`
abbrev pub empty_context : SecurityContext
empty_context = record {
  allow_privilege_escalation = none;
  run_as_non_root = none;
  run_as_user = none;
  run_as_group = none;
  seccomp_profile = none;
  capabilities = none;
  privileged = none;
}

abbrev restricted : SecurityContext
restricted = record {
  allow_privilege_escalation = some false;
  run_as_non_root = some true;
  run_as_user = some 1000;
  run_as_group = some 1000;
  seccomp_profile = some "RuntimeDefault";
  capabilities = some (record { add = []; drop = "ALL" ∷ [] });
  privileged = none;
}

-- The context of the sidecars.
unfoldable pub security_context : PodLib → Option SecurityContext
security_context pods =
    if pods.getenv "ENABLE_RESTRICTED_SECURITY_CONTEXT" == "true" then some restricted else none

-- The context that the main container starts from: another user.
unfoldable pub main_base : PodLib → Option SecurityContext
main_base pods =
    if pods.getenv "ENABLE_RESTRICTED_SECURITY_CONTEXT" == "true"
    then some (record restricted { run_as_user = some 1034 })
    else none

-- The context of a container, made where it has none.
abbrev pub or_empty : Option SecurityContext → SecurityContext
or_empty none = empty_context
or_empty (some context) = context

-- `SYS_PTRACE`
abbrev pub ptrace : Capabilities
ptrace = record { add = "SYS_PTRACE" ∷ []; drop = [] }

module _ (c : Consts) (annotations : Option (Dict String)) where
  -- Whether an annotation of the component is "true".
  unfoldable pub is_on : String → Bool
  unfolding read
  is_on key = read annotations key == c.kube_label_value_true

  privileged : Option SecurityContext → Option SecurityContext
  unfolding is_on
  privileged context =
      if is_on "yatai.ai/enable-container-privileged"
      then some (record (or_empty context) { privileged = some true })
      else context

  traced : Option SecurityContext → Option SecurityContext
  unfolding is_on
  traced context =
      if is_on "yatai.ai/enable-container-ptrace"
      then some (record (or_empty context) { capabilities = some ptrace })
      else context

  as_root : Option SecurityContext → Option SecurityContext
  unfolding is_on
  as_root context =
      if is_on "yatai.ai/run-container-as-root"
      then some (record (or_empty context) { run_as_user = some 0 })
      else context

  -- The context of the main container.
  unfoldable pub main_context : PodLib → Option SecurityContext
  unfolding main_base privileged traced as_root
  main_context pods = as_root (traced (privileged (main_base pods)))
