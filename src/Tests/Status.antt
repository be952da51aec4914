-- ===== src/Tests/Status.antt =====
-- A resource whose status is written by the last of three tries, and the configuration of Yatai.
use yatai_deployment.Base.{
  ℕ, zero, suc, String, ◌<>◌, inl, ◌<◌, ◌≤◌, Bool, true, Option, none, some, List, [], ◌∷◌, ◌++◌,
  false, Result, ok, ◌≡◌, refl, arith, if◌then◌else◌,
}
use yatai_deployment.Base.Effect.{World, Error, err, not_found, conflict, wrap, YataiConfig}
use yatai_deployment.Api.Kube.{NamespacedName, Condition}
use yatai_deployment.Api.V2alpha1.{BentoDeployment}
use yatai_deployment.Controllers.Objects.Laws.{same_key, same_key_iff}
use yatai_deployment.Controllers.Status.{
  StatusClient, set_status_conditions, YataiLib, YataiClient, get_yatai_client,
}
use yatai_deployment.Controllers.Status.Retry.{key_of, written, Same, IsLawfulStatus}
use yatai_deployment.Controllers.Status.Progress.{IsContended, set_status_conditions-progress}
use yatai_deployment.Controllers.Status.Cache.{get_yatai_client-cached}
use yatai_deployment.Tests.Fixtures.{consts, deployment, world}

-- One resource, and how many updates of its status will still conflict.
abbrev pub Cluster : Type 0
Cluster = ℕ × Option BentoDeployment

abbrev pub view : Cluster → NamespacedName → Option BentoDeployment
view (n, none) j = none
view (n, some a) j = if same_key (key_of a) j then some a else none

abbrev or_missing : Option BentoDeployment → Result BentoDeployment
or_missing none = err not_found
or_missing (some a) = ok a

abbrev update_status : BentoDeployment → Cluster → Result (Unit {0}) × Cluster
update_status d (suc n, slot) = (err conflict, (n, slot))
update_status d (zero, none) = (err not_found, (zero, none))
update_status d (zero, some a) =
    if same_key (key_of a) (key_of d)
    then (ok tt, (zero, some (written (a.meta.resource_version <> "1") d a)))
    else (err not_found, (zero, some a))

abbrev pub client : StatusClient Cluster
client = record {
  get = λ key s. (or_missing (view s key), s);
  update_status = update_status;
  set_status_condition = λ old condition. old ++ condition ∷ [];
}

view_key :
    (s : Cluster) (key : NamespacedName) (d : BentoDeployment)
    → view s key ≡ some d
    → key_of d ≡ key
view_key (n, none) key d h = cc h
view_key (n, some a) key d h = ground (arith, same_key_iff (key_of a) key)

get_found :
    (key : NamespacedName) (s : Cluster) (d : BentoDeployment)
    → (client.get key s).0 ≡ ok d
    → view s key ≡ some d
get_found key s d h = ground arith

update_failed :
    (d : BentoDeployment) (s : Cluster) (e : Error)
    → (update_status d s).0 ≡ err e
    → Same view s (update_status d s).1
update_failed d (suc n, none) e h j = refl
update_failed d (suc n, some a) e h j = refl
update_failed d (zero, none) e h j = refl
update_failed d (zero, some a) e h j = ground arith

update_at_key :
    (d old : BentoDeployment) (s : Cluster)
    → (update_status d s).0 ≡ ok tt
    → view s (key_of d) ≡ some old
    → (resource_version : String) × (view (update_status d s).1 (key_of d)
        ≡ some (written resource_version d old))
update_at_key d old (suc n, slot) h there = cc h
update_at_key d old (zero, none) h there = cc
update_at_key d old (zero, some a) h there = (a.meta.resource_version <> "1", ground arith)

update_elsewhere :
    (d : BentoDeployment) (s : Cluster) (j : NamespacedName)
    → (update_status d s).0 ≡ ok tt
    → same_key (key_of d) j ≡ false
    → view (update_status d s).1 j ≡ view s j
update_elsewhere d (suc n, slot) j h ne = cc
update_elsewhere d (zero, none) j h ne = cc
update_elsewhere d (zero, some a) j h ne = ground (
  arith,
  same_key_iff (key_of a) (key_of d),
  same_key_iff (key_of a) j,
  same_key_iff (key_of d) j,
)

pub lawful : IsLawfulStatus view client
lawful = record {
  view_key = view_key;
  get_found = get_found;
  get_view = λ key s j. refl;
  update_failed = λ d s e h. inl (update_failed d s e h);
  update_done = λ d s h. record {
    at_key = λ old there. update_at_key d old s h there;
    elsewhere = λ j ne. update_elsewhere d s j h ne;
  };
}

abbrev available : List Condition
available =
    (record { type = "Available"; status = "True"; reason = "Reconciling"; message = "" }) ∷ []

abbrev pub key : NamespacedName
key = record { namespace = "yatai"; name = "iris" }

-- Two updates conflict, the third one is made.
abbrev before : World Cluster
before = world (2, some deployment)

abbrev conditioned : BentoDeployment
conditioned = record deployment {
  meta = record deployment.meta { resource_version = deployment.meta.resource_version <> "1" };
  status = record deployment.status { conditions = available };
}

abbrev after : World Cluster
after = world (0, some conditioned)

-- The resource stays.
abbrev Stable : Cluster → Type 0
Stable (n, none) = ⊥
Stable (n, some a) = key_of a ≡ key

abbrev conflicts : Cluster → ℕ
conflicts s = s.0

if-Stable :
    (b : Bool) (x y : Result (Unit {0}) × Cluster)
    → Stable x.1
    → Stable y.1
    → Stable (if b then x else y).1
if-Stable true x y first second = first
if-Stable false x y first second = second

get-Stable :
    (s : Cluster)
    → Stable s
    → (d : BentoDeployment) × ((client.get key s).0 ≡ ok d) × (key_of d ≡ key)
get-Stable (n, none) stable = absurd stable
get-Stable (n, some a) stable = (a, ground (arith, same_key_iff (key_of a) key, stable), stable)

update-Stable : (d : BentoDeployment) (s : Cluster) → Stable s → Stable (client.update_status d s).1
update-Stable d (n, none) stable = absurd stable
update-Stable d (suc n, some a) stable = stable
update-Stable d (zero, some a) stable = if-Stable (same_key (key_of a) (key_of d)) _ _ stable stable

update_free :
    (d : BentoDeployment) (s : Cluster)
    → Stable s
    → key_of d ≡ key
    → conflicts s ≡ 0
    → (client.update_status d s).0 ≡ ok tt
update_free d (n, none) stable keyed e = absurd stable
update_free d (suc n, some a) stable keyed e = cc e
update_free d (zero, some a) stable keyed e =
    ground (arith, same_key_iff (key_of a) (key_of d), stable, keyed)

update_contended :
    (d : BentoDeployment) (s : Cluster) (n : ℕ)
    → Stable s
    → key_of d ≡ key
    → conflicts s ≡ suc n
    → ((client.update_status d s).0 ≡ err conflict) × (conflicts (client.update_status d s).1 ≡ n)
update_contended d (m, none) n stable keyed e = absurd stable
update_contended d (zero, some a) n stable keyed e = cc e
update_contended d (suc m, some a) n stable keyed e = (refl, omega (arith, e))

contended : IsContended client key Stable conflicts
contended = record {
  get_found = get-Stable;
  get_stable = λ s stable. stable;
  get_conflicts = λ s stable. refl;
  update_stable = update-Stable;
  update_free = update_free;
  update_contended = update_contended;
}

set_status_conditions-progress_example :
    (conflicts before.cluster < 3
      → (d : BentoDeployment) × ((set_status_conditions client key available before).0 ≡ ok d))
    × (3 ≤ conflicts before.cluster
        → (set_status_conditions client key available before).0
          ≡ err (wrap "Failed to update BentoDeployment status" conflict))
unfolding set_status_conditions
set_status_conditions-progress_example =
    set_status_conditions-progress client key Stable conflicts contended available before refl

-- With a third conflict the method gives up.
gives_up :
    (set_status_conditions client key available (world (3, some deployment))).1
    ≡ world (0, some deployment)
unfolding set_status_conditions
gives_up = refl

abbrev yatai : YataiLib (Option YataiConfig)
yatai = record {
  new_for_config = λ s. (ok tt, s);
  get_yatai_config = λ s. (elim s [ none ↦ err not_found | some conf ↦ ok conf ], s);
}

abbrev conf : YataiConfig
conf = record { endpoint = "http://yatai"; cluster_name = ""; api_token = "token" }

abbrev yatai_client : YataiClient
yatai_client = record {
  endpoint = "http://yatai";
  api_token = "yatai-deployment:default:token";
  cluster_name = "default";
}

-- The configuration is found once, and then deleted.
get_yatai_client-cached_example :
    (get_yatai_client yatai consts
      (record (get_yatai_client yatai consts (world (some conf))).1 { cluster = none })).0
    ≡ ok (some yatai_client)
unfolding get_yatai_client
get_yatai_client-cached_example =
    get_yatai_client-cached yatai consts (world (some conf))
      (get_yatai_client yatai consts (world (some conf))).1 (some yatai_client) none refl refl
