-- ===== src/Controllers/Resources.antt =====
-- `getResourcesConfig` of controllers/helper.go.
pub mod Effective
use yatai_deployment.Base.{
  String, Option, none, some, List, [], ◌∷◌, Result, ok, bind, wrap_err, ◌==◌, ◌<>◌, if◌then◌else◌,
}
use yatai_deployment.Base.Dict.{Dict, insert, entries}
use yatai_deployment.Api.Consts.{Consts}
use yatai_deployment.Api.Kube.{QuantityLib, ResourceList, ResourceRequirements}
use yatai_deployment.Api.Common.{Resources, ResourceItem}

module _ (lib : QuantityLib) where
  -- The defaults.
  abbrev pub default_resources : ResourceRequirements
  default_resources = record {
    requests = ("cpu", lib.must_parse "300m") ∷ ("memory", lib.must_parse "500Mi") ∷ [];
    limits = ("cpu", lib.must_parse "500m") ∷ ("memory", lib.must_parse "1Gi") ∷ [];
  }

  -- One quantity of the specification; an empty text leaves the default.
  put_quantity : String → String → String → ResourceList → Result ResourceList
  unfolding insert
  put_quantity context key text list =
      if text == ""
      then ok list
      else bind (wrap_err context (lib.parse_quantity text))
          λ quantity. ok (insert key quantity list)

  put_custom : String → Dict String → ResourceList → Result ResourceList
  unfolding insert
  put_custom context [] list = ok list
  put_custom context ((key, text) ∷ custom) list =
      bind (wrap_err (context <> (key <> " quantity")) (lib.parse_quantity text))
        λ quantity. put_custom context custom (insert key quantity list)

  module _ (c : Consts) where
    put_limits : Option ResourceItem → ResourceList → Result ResourceList
    unfolding put_quantity put_custom
    put_limits none list = ok list
    put_limits (some item) list =
        bind (put_quantity "parse limits cpu quantity" "cpu" item.cpu list) λ with_cpu.
          bind (put_quantity "parse limits memory quantity" "memory" item.memory with_cpu)
            λ with_memory.
              bind
                (put_quantity "parse limits gpu quantity" c.kube_resource_gpu_nvidia item.gpu
                  with_memory)
                λ with_gpu. put_custom "parse limits " (entries item.custom) with_gpu

  -- The GPUs of the requests are not read.
  put_requests : Option ResourceItem → ResourceList → Result ResourceList
  unfolding put_quantity put_custom
  put_requests none list = ok list
  put_requests (some item) list =
      bind (put_quantity "parse requests cpu quantity" "cpu" item.cpu list) λ with_cpu.
        bind (put_quantity "parse requests memory quantity" "memory" item.memory with_cpu)
          λ with_memory. put_custom "parse requests " (entries item.custom) with_memory

  unfoldable pub get_resources_config : Consts → Option Resources → Result ResourceRequirements
  unfolding put_limits put_requests
  get_resources_config c none = ok default_resources
  get_resources_config c (some resources) =
      bind (put_limits c resources.limits default_resources.limits) λ limits.
        bind (put_requests resources.requests default_resources.requests)
          λ requests. ok (record { requests = requests; limits = limits })
