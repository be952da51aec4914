-- ===== src/Controllers/Names.antt =====
-- The names of the objects that the reconciler makes: `getKubeName` of controllers/handleOthers.go,
-- the service names of controllers/handleService.go, and
-- `getBentoRepositoryNameAndBentoVersion` of controllers/helper.go.
pub mod Distinct
pub mod Bounds
use yatai_deployment.Base.{
  ℕ, ◌+◌, zero, suc, String, len, Option, none, some, List, [], ◌∷◌, Bool, true, false, ◌==◌, ltb,
  ◌<>◌, if◌then◌else◌,
}
use yatai_deployment.Hash.{hash}
use yatai_deployment.Decimal.{decimal}
use yatai_deployment.Api.Resources.{Bento, BentoRunner}
use yatai_deployment.Api.V2alpha1.{BentoDeployment}
use yatai_deployment.Conversion.Names.{TextLib}

-- The index of the first runner of the Bento with a name, counted from `idx`.
find_index : ℕ → String → List BentoRunner → Option ℕ
find_index idx name [] = none
find_index idx name (runner ∷ runners) =
    let rest = find_index (idx + 1) name runners in if runner.name == name then some idx else rest

-- The name of the API server's objects, and of a runner that the Bento does not have.
plain_name : BentoDeployment → Bool → String
plain_name bento_deployment debug =
    if debug then bento_deployment.meta.name <> "-d" else bento_deployment.meta.name

unfoldable pub get_kube_name : BentoDeployment → Bento → Option String → Bool → String
unfolding find_index plain_name decimal
get_kube_name bento_deployment bento none debug = plain_name bento_deployment debug
get_kube_name bento_deployment bento (some runner_name) debug =
    elim (find_index 0 runner_name bento.spec.runners) [
      | none ↦ plain_name bento_deployment debug
      | some idx ↦
          if debug
          then bento_deployment.meta.name <> ("-runner-d-" <> decimal idx)
          else bento_deployment.meta.name <> ("-runner-" <> decimal idx)
    ]

module _ (lib : TextLib) where
  unfoldable pub get_bento_repository_name_and_bento_version : Bento → String × String
  get_bento_repository_name_and_bento_version bento =
      let (repository_name, _, version) = lib.partition bento.spec.tag ":" in
      (repository_name, version)

  -- `fmt.Sprintf("%s:%s-%s", bentoRepositoryName, bentoVersion, runnerName)`
  runner_key : Bento → String → String
  unfolding get_bento_repository_name_and_bento_version
  runner_key bento runner_name =
      let (repository, version) = get_bento_repository_name_and_bento_version bento in
      repository <> (":" <> (version <> ("-" <> runner_name)))

  unfoldable pub get_runner_service_name : BentoDeployment → Bento → String → Bool → String
  unfolding runner_key hash
  get_runner_service_name bento_deployment bento runner_name debug =
      let hash_str = hash lib.md5_sum (runner_key bento runner_name) in
      let svc_name =
        if debug
        then bento_deployment.meta.name <> ("-runner-d-" <> hash_str)
        else bento_deployment.meta.name <> ("-runner-p-" <> hash_str) in
      let full = bento_deployment.meta.name <> ("-" <> runner_key bento runner_name) in
      if ltb 63 (len svc_name)
      then if debug
        then "runner-d-" <> hash lib.md5_sum full
        else "runner-p-" <> hash lib.md5_sum full
      else svc_name

  unfoldable pub get_runner_generic_service_name : BentoDeployment → Bento → String → String
  unfolding runner_key hash
  get_runner_generic_service_name bento_deployment bento runner_name =
      let hash_str = hash lib.md5_sum (runner_key bento runner_name) in
      let svc_name = bento_deployment.meta.name <> ("-runner-" <> hash_str) in
      let full = bento_deployment.meta.name <> ("-" <> runner_key bento runner_name) in
      if ltb 63 (len svc_name) then "runner-" <> hash lib.md5_sum full else svc_name

  unfoldable pub get_service_name : BentoDeployment → Bento → Option String → Bool → String
  unfolding get_runner_service_name
  get_service_name bento_deployment bento none debug =
      if debug then bento_deployment.meta.name <> "-d" else bento_deployment.meta.name <> "-p"
  get_service_name bento_deployment bento (some runner_name) debug =
      get_runner_service_name bento_deployment bento runner_name debug

  unfoldable pub get_generic_service_name : BentoDeployment → Bento → Option String → String
  unfolding get_runner_generic_service_name get_kube_name
  get_generic_service_name bento_deployment bento none =
      get_kube_name bento_deployment bento none false
  get_generic_service_name bento_deployment bento (some runner_name) =
      get_runner_generic_service_name bento_deployment bento runner_name
