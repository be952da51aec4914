-- ===== src/Controllers/Resources/Effective.antt =====
-- The CPU and memory that a container gets.
use yatai_deployment.Base.{
  String, none, some, [], ◌∷◌, ok, bind-eq-ok, ok-injective, wrap_err, ◌==◌, ◌≡◌, ◌∙◌, ◌<>◌, refl,
  sym, ap, subst, false, arith, eq_refl, if◌then◌else◌,
}
use yatai_deployment.Base.Dict.{Dict, lookup, insert, entries, lookup-insert}
use yatai_deployment.Api.Consts.{Consts}
use yatai_deployment.Api.Kube.{Quantity, QuantityLib, ResourceList, ResourceRequirements}
use yatai_deployment.Api.Common.{ResourceItem}
use yatai_deployment.Controllers.Resources.{
  put_quantity, put_custom, put_limits, put_requests, get_resources_config, default_resources,
}

module _ (lib : QuantityLib) where
  -- The quantity that a list gives to a key is the one that a text of the specification stands for,
  -- or `default` where the text is empty.
  abbrev pub Gives : ResourceList → String → String → Quantity → Type 0
  Gives list key text default =
      if text == ""
      then lookup key list ≡ some default
      else (quantity : Quantity) × (lib.parse_quantity text ≡ ok quantity)
        × (lookup key list ≡ some quantity)

  parsed :
      (context text : String) {quantity : Quantity}
      → wrap_err context (lib.parse_quantity text) ≡ ok quantity
      → lib.parse_quantity text ≡ ok quantity
  parsed context text h = ground arith

  lookup-put_quantity_ne :
      (context key text j : String) (list : ResourceList) {result : ResourceList}
      → put_quantity lib context key text list ≡ ok result
      → (key == j) ≡ false
      → lookup j result ≡ lookup j list
  unfolding put_quantity
  lookup-put_quantity_ne context key text j list h ne = grind (arith, lookup-insert)

  put_quantity-Gives :
      (context key text : String) (default : Quantity) (list : ResourceList) {result : ResourceList}
      → put_quantity lib context key text list ≡ ok result
      → lookup key list ≡ some default
      → Gives result key text default
  unfolding put_quantity
  put_quantity-Gives context key text default list h before = grind (arith, lookup-insert, eq_refl)

  lookup-put_custom :
      (context j : String) (custom : Dict String) (list : ResourceList) {result : ResourceList}
      → put_custom lib context custom list ≡ ok result
      → lookup j custom ≡ none
      → lookup j result ≡ lookup j list
  unfolding put_custom lookup
  lookup-put_custom context j [] list h absent = ap (lookup j) (sym (ok-injective h))
  lookup-put_custom context j ((key, text) ∷ custom) list h absent =
      let (quantity, e, more) =
        bind-eq-ok (wrap_err (context <> (key <> " quantity")) (lib.parse_quantity text)) _ h in
      ground (
        arith,
        lookup-insert key j quantity list,
        lookup-put_custom context j custom (insert key quantity list) more,
      )

  Gives-lookup :
      (key text : String) (default : Quantity) (list other : ResourceList)
      → lookup key other ≡ lookup key list
      → Gives list key text default
      → Gives other key text default
  Gives-lookup key text default list other e h = grind arith

  -- The CPU and the memory of an item, over a default for each.
  abbrev pub GivesItem : ResourceList → ResourceItem → Quantity → Quantity → Type 0
  GivesItem list item cpu memory =
      Gives list "cpu" item.cpu cpu × Gives list "memory" item.memory memory

  abbrev pub NotCustom : ResourceItem → Type 0
  NotCustom item =
      (lookup "cpu" (entries item.custom) ≡ none) × (lookup "memory" (entries item.custom) ≡ none)

  -- The steps for the CPU and the memory, followed by steps that leave both keys alone.
  two_steps :
      (item : ResourceItem) (cpu_context memory_context : String) (cpu memory : Quantity)
      (list with_cpu with_memory result : ResourceList)
      → put_quantity lib cpu_context "cpu" item.cpu list ≡ ok with_cpu
      → put_quantity lib memory_context "memory" item.memory with_cpu ≡ ok with_memory
      → lookup "cpu" list ≡ some cpu
      → lookup "memory" list ≡ some memory
      → lookup "cpu" result ≡ lookup "cpu" with_memory
      → lookup "memory" result ≡ lookup "memory" with_memory
      → GivesItem result item cpu memory
  two_steps item cpu_context memory_context cpu memory list with_cpu with_memory result h1 h2 p q rp
        rq =
      (
        Gives-lookup "cpu" item.cpu cpu with_cpu result
            (rp ∙ lookup-put_quantity_ne memory_context "memory" item.memory "cpu" with_cpu h2 refl)
            (put_quantity-Gives cpu_context "cpu" item.cpu cpu list h1 p),
        Gives-lookup "memory" item.memory memory with_memory result rq (
            put_quantity-Gives memory_context "memory" item.memory memory with_cpu h2
              (lookup-put_quantity_ne cpu_context "cpu" item.cpu "memory" list h1 refl ∙ q)),
      )

  requests-GivesItem :
      (item : ResourceItem) (cpu memory : Quantity) (list : ResourceList) {result : ResourceList}
      → put_requests lib (some item) list ≡ ok result
      → lookup "cpu" list ≡ some cpu
      → lookup "memory" list ≡ some memory
      → NotCustom item
      → GivesItem result item cpu memory
  unfolding put_requests
  requests-GivesItem item cpu memory list {result} h p q (nc, nm) =
      let (l1, h1, more1) =
        bind-eq-ok (put_quantity lib "parse requests cpu quantity" "cpu" item.cpu list) _ h in
      let (l2, h2, more2) =
        bind-eq-ok (put_quantity lib "parse requests memory quantity" "memory" item.memory l1) _
          more1 in
      two_steps item "parse requests cpu quantity" "parse requests memory quantity" cpu memory list
        l1 l2 result h1 h2 p q
        (lookup-put_custom "parse requests " "cpu" (entries item.custom) l2 more2 nc)
        (lookup-put_custom "parse requests " "memory" (entries item.custom) l2 more2 nm)

  module _ (c : Consts)
      (gpu_ne : ((c.kube_resource_gpu_nvidia == "cpu") ≡ false)
        × ((c.kube_resource_gpu_nvidia == "memory") ≡ false)) where
    limits-GivesItem :
        (item : ResourceItem) (cpu memory : Quantity) (list : ResourceList) {result : ResourceList}
        → put_limits lib c (some item) list ≡ ok result
        → lookup "cpu" list ≡ some cpu
        → lookup "memory" list ≡ some memory
        → NotCustom item
        → GivesItem result item cpu memory
    unfolding put_limits
    limits-GivesItem item cpu memory list {result} h p q (nc, nm) =
        let (l1, h1, more1) =
          bind-eq-ok (put_quantity lib "parse limits cpu quantity" "cpu" item.cpu list) _ h in
        let (l2, h2, more2) =
          bind-eq-ok (put_quantity lib "parse limits memory quantity" "memory" item.memory l1) _
            more1 in
        let (l3, h3, more3) =
          bind-eq-ok
            (put_quantity lib "parse limits gpu quantity" c.kube_resource_gpu_nvidia item.gpu l2) _
            more2 in
        let kept =
          λ (j : String) (ne : (c.kube_resource_gpu_nvidia == j) ≡ false)
              (absent : lookup j (entries item.custom) ≡ none).
            lookup-put_custom "parse limits " j (entries item.custom) l3 more3 absent
            ∙ lookup-put_quantity_ne "parse limits gpu quantity" c.kube_resource_gpu_nvidia item.gpu
                j l2 h3 ne in
        two_steps item "parse limits cpu quantity" "parse limits memory quantity" cpu memory list l1
          l2 result h1 h2 p q (kept "cpu" gpu_ne.0 nc) (kept "memory" gpu_ne.1 nm)

    -- A container with resources that are accepted gets, in its limits and its requests, the CPU and
    -- the memory that the specification states, and the default of the program (500m and 1Gi, 300m and
    -- 500Mi) for each that is empty, provided that no custom resource has the key of one of these.
    pub get_resources_config-GivesItem :
        (limits requests : ResourceItem) (config : ResourceRequirements)
        → get_resources_config lib c
            (some (record { limits = some limits; requests = some requests }))
          ≡ ok config
        → NotCustom limits
        → NotCustom requests
        → GivesItem config.limits limits (lib.must_parse "500m") (lib.must_parse "1Gi")
          × GivesItem config.requests requests (lib.must_parse "300m") (lib.must_parse "500Mi")
    unfolding get_resources_config lookup
    get_resources_config-GivesItem limits requests config h nl nr =
        let defaults = default_resources lib in
        let (ls, hl, more) = bind-eq-ok (put_limits lib c (some limits) defaults.limits) _ h in
        let (rs, hr, made) =
          bind-eq-ok (put_requests lib (some requests) defaults.requests) _ more in
        subst
          (λ x.
            GivesItem x.limits limits (lib.must_parse "500m") (lib.must_parse "1Gi")
            × GivesItem x.requests requests (lib.must_parse "300m") (lib.must_parse "500Mi"))
          (ok-injective made)
          (
            limits-GivesItem limits (lib.must_parse "500m") (lib.must_parse "1Gi") defaults.limits
                hl refl refl nl,
            requests-GivesItem requests (lib.must_parse "300m") (lib.must_parse "500Mi")
                defaults.requests hr refl refl nr,
          )
