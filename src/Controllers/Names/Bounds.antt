-- ===== src/Controllers/Names/Bounds.antt =====
-- The names of Services fit a DNS label, and the three Services of a component have three names.
use text.Mathlib.TextLemmas.{append_cancel_left, append_cancel_right}
use yatai_deployment.Base.{
  ◌+◌, ◌≤◌, String, len, Option, none, some, Bool, true, false, ◌≡◌, ◌≢◌, refl, ap, arith, length,
  len-append, ltb, eq_iff, ◌==◌, ◌<>◌, if◌then◌else◌,
}
use yatai_deployment.Hash.{hash, len-hash}
use yatai_deployment.Api.Resources.{Bento}
use yatai_deployment.Api.V2alpha1.{BentoDeployment}
use yatai_deployment.Conversion.Names.{TextLib}
use yatai_deployment.Controllers.Names.{
  runner_key, get_runner_service_name, get_runner_generic_service_name, get_service_name,
  get_generic_service_name, get_kube_name,
}

-- Texts that share both ends differ if their middles do.
middle-ne : (s t u v : String) → (t == u) ≡ false → s <> (t <> v) ≢ s <> (u <> v)
middle-ne s t u v h e =
    ground (arith, eq_iff t u, append_cancel_right t u v (append_cancel_left s (t <> v) (u <> v) e))

end-ne : (t u v : String) → (t == u) ≡ false → t <> v ≢ u <> v
end-ne t u v h e = ground (arith, eq_iff t u, append_cancel_right t u v e)

suffix-ne : (s : String) (debug : Bool) → s ≢ (if debug then s <> "-d" else s <> "-p")
suffix-ne s true e = omega (arith, ap len e, len-append s "-d")
suffix-ne s false e = omega (arith, ap len e, len-append s "-p")

suffixes-ne : (s : String) → s <> "-d" ≢ s <> "-p"
suffixes-ne s e = ground (arith, eq_iff "-d" "-p", append_cancel_left s "-d" "-p" e)

module _ (lib : TextLib) (sixteen : (t : String) → length (lib.md5_sum t) ≡ 16) where
  len-prefixed : (s t : String) → len (s <> hash lib.md5_sum t) ≡ len s + 32
  len-prefixed s t =
      omega (arith, len-append s (hash lib.md5_sum t), len-hash lib.md5_sum sixteen t)

  len-joined : (s t u : String) → len (s <> (t <> hash lib.md5_sum u)) ≡ len s + len t + 32
  len-joined s t u = omega (arith, len-append s (t <> hash lib.md5_sum u), len-prefixed t u)

  module _ (bento_deployment : BentoDeployment) (bento : Bento) (runner_name : String) where
    abbrev key : String
    key = runner_key lib bento runner_name

    abbrev full : String
    full = bento_deployment.meta.name <> ("-" <> key)

    pub get_runner_service_name-le :
        (debug : Bool)
        → len (get_runner_service_name lib bento_deployment bento runner_name debug) ≤ 63
    unfolding get_runner_service_name
    get_runner_service_name-le true = ground (arith, len-prefixed "runner-d-" full)
    get_runner_service_name-le false = ground (arith, len-prefixed "runner-p-" full)

    pub get_runner_generic_service_name-le :
        len (get_runner_generic_service_name lib bento_deployment bento runner_name) ≤ 63
    unfolding get_runner_generic_service_name
    get_runner_generic_service_name-le = ground (arith, len-prefixed "runner-" full)

    len-runner_service :
        (debug : Bool)
        → len (get_runner_service_name lib bento_deployment bento runner_name debug) ≡ (
            if ltb 63 (len bento_deployment.meta.name + 42)
            then 41
            else len bento_deployment.meta.name + 42)
    unfolding get_runner_service_name
    len-runner_service true = ground (
      arith,
      len-prefixed "runner-d-" full,
      len-joined bento_deployment.meta.name "-runner-d-" key,
    )
    len-runner_service false = ground (
      arith,
      len-prefixed "runner-p-" full,
      len-joined bento_deployment.meta.name "-runner-p-" key,
    )

    len-runner_generic_service :
        len (get_runner_generic_service_name lib bento_deployment bento runner_name) ≡ (
          if ltb 63 (len bento_deployment.meta.name + 40)
          then 39
          else len bento_deployment.meta.name + 40)
    unfolding get_runner_generic_service_name
    len-runner_generic_service =
        ground
          (arith, len-prefixed "runner-" full, len-joined bento_deployment.meta.name "-runner-" key)

    runner_debug-ne :
        get_runner_service_name lib bento_deployment bento runner_name true
        ≢ get_runner_service_name lib bento_deployment bento runner_name false
    unfolding get_runner_service_name
    runner_debug-ne e = ground (
      arith,
      len-joined bento_deployment.meta.name "-runner-d-" key,
      len-joined bento_deployment.meta.name "-runner-p-" key,
      middle-ne bento_deployment.meta.name "-runner-d-" "-runner-p-" (hash lib.md5_sum key) refl,
      end-ne "runner-d-" "runner-p-" (hash lib.md5_sum full) refl,
    )

    runner_generic-ne :
        (debug : Bool)
        → get_runner_generic_service_name lib bento_deployment bento runner_name
          ≢ get_runner_service_name lib bento_deployment bento runner_name debug
    runner_generic-ne debug e =
        ground (arith, ap len e, len-runner_service debug, len-runner_generic_service)

  -- The name of a runner's Service, generic or not, has at most 63 bytes, whatever the names of the
  -- resource, the Bento and the runner.
  pub runner_service_names-le :
      (bento_deployment : BentoDeployment) (bento : Bento) (runner_name : String) (debug : Bool)
      → (len (get_service_name lib bento_deployment bento (some runner_name) debug) ≤ 63)
        × (len (get_generic_service_name lib bento_deployment bento (some runner_name)) ≤ 63)
  unfolding get_service_name get_generic_service_name
  runner_service_names-le bento_deployment bento runner_name debug = (
    get_runner_service_name-le bento_deployment bento runner_name debug,
    get_runner_generic_service_name-le bento_deployment bento runner_name,
  )

  -- The generic, the production and the debug Service of one component have three different names.
  pub service_names-ne :
      (bento_deployment : BentoDeployment) (bento : Bento) (runner_name : Option String)
      → (get_service_name lib bento_deployment bento runner_name true
          ≢ get_service_name lib bento_deployment bento runner_name false)
        × ((debug : Bool)
            → get_generic_service_name lib bento_deployment bento runner_name
              ≢ get_service_name lib bento_deployment bento runner_name debug)
  unfolding get_service_name get_generic_service_name get_kube_name
  service_names-ne bento_deployment bento none =
      (suffixes-ne bento_deployment.meta.name, suffix-ne bento_deployment.meta.name)
  service_names-ne bento_deployment bento (some runner_name) = (
    runner_debug-ne bento_deployment bento runner_name,
    runner_generic-ne bento_deployment bento runner_name,
  )
