-- ===== src/Tests/Autoscaling.antt =====
-- The autoscaler of a runner, against a server of the old API.
use yatai_deployment.Base.{
  Option, none, some, true, false, Result, ok, bind, ◌≡◌, refl, arith, subst, ok-injective,
}
use yatai_deployment.Base.Effect.{World, Error, err}
use yatai_deployment.Api.Kube.{NamespacedName}
use yatai_deployment.Controllers.Objects.Laws.{IsLawful}
use yatai_deployment.Controllers.Objects.Upsert.{Upserted}
use yatai_deployment.Controllers.Hpa.{
  HorizontalPodAutoscaler, HpaObject, legacy, current, HpaClient, ServerVersion, hpa_kind,
  generate_hpa, handle_legacy_hpa, create_or_update_hpa, require_legacy_hpa,
}
use yatai_deployment.Controllers.Hpa.Sync.{create_or_update_hpa-Upserted}
use yatai_deployment.Controllers.Hpa.Versions.{one_dot, require_legacy_hpa_lem}
use yatai_deployment.Decimal.{decimal}
use yatai_deployment.Tests.Fixtures.{consts, texts, bento, deployment, world}
use yatai_deployment.Tests.Store.{
  Store, view, or_missing, store_get, store_create, store_update, store_delete, store_kind,
  store_kind-IsLawful,
}

abbrev Autoscaler : Type 0
Autoscaler = HorizontalPodAutoscaler

abbrev autoscaler : HpaObject Autoscaler → Autoscaler
autoscaler (legacy hpa) = hpa
autoscaler (current hpa) = hpa

abbrev key_of : HpaObject Autoscaler → NamespacedName
key_of object = record {
  namespace = (autoscaler object).meta.namespace;
  name = (autoscaler object).meta.name;
}

abbrev Cluster : Type 0
Cluster = Store (HpaObject Autoscaler)

abbrev get_autoscaler : NamespacedName → Cluster → Result Autoscaler × Cluster
get_autoscaler j s = (bind (store_get key_of j s).0 λ object. ok (autoscaler object), s)

abbrev client : HpaClient Cluster Autoscaler
client = record {
  key = key_of;
  get_legacy = get_autoscaler;
  get_current = get_autoscaler;
  create = store_create key_of;
  update = store_update key_of;
  delete = store_delete key_of;
  set_controller_reference = λ owner hpa. ok hpa;
  set_last_applied_annotation = λ object. ok object;
  calculate = λ old new. ok false;
  copy = λ hpa. ok hpa;
  copy_status = λ hpa. ok hpa;
}

-- Autoscalers agree on their bounds, their target and their metrics.
abbrev Agrees : HpaObject Autoscaler → HpaObject Autoscaler → Type 0
Agrees a b =
    ((autoscaler a).min_replicas ≡ (autoscaler b).min_replicas)
    × ((autoscaler a).max_replicas ≡ (autoscaler b).max_replicas)
    × ((autoscaler a).scale_target_ref ≡ (autoscaler b).scale_target_ref)
    × ((autoscaler a).metrics ≡ (autoscaler b).metrics)

abbrev old_server : ServerVersion
old_server = one_dot 22

base : IsLawful (store_kind key_of "HPA" (λ a. a) (λ a. a)) (view key_of) Agrees
base =
    store_kind-IsLawful key_of "HPA" (λ a. a) (λ a. a) Agrees
      (λ a. (refl, (refl, refl, refl, refl))) (λ a. (refl, λ stored agrees. agrees))

-- What `get` makes of the object that the cluster shows.
abbrev read_as :
    HorizontalPodAutoscaler → Option (HpaObject Autoscaler) → Result (HpaObject Autoscaler)
read_as hpa seen =
    bind (bind (or_missing key_of seen) λ object. ok (autoscaler object))
      λ old. ok (legacy (record old { status = hpa.status }))

read_some :
    (hpa : HorizontalPodAutoscaler) (seen : Option (HpaObject Autoscaler))
    (a : HpaObject Autoscaler)
    → read_as hpa seen ≡ ok a
    → (there : HpaObject Autoscaler) × (seen ≡ some there)
      × (key_of a ≡ key_of there)
      × ((d : HpaObject Autoscaler) → Agrees a d → Agrees there d)
read_some hpa none a h = cc h
read_some hpa (some there) a h =
    let (keyed, agree) =
      subst
        (λ x.
          (key_of x ≡ key_of there) × ((d : HpaObject Autoscaler) → Agrees x d → Agrees there d))
        (ok-injective h) (refl, λ d agrees. agrees) in
    (there, refl, keyed, agree)

read_none :
    (hpa : HorizontalPodAutoscaler) (seen : Option (HpaObject Autoscaler)) (e : Error)
    → read_as hpa seen ≡ err e
    → seen ≡ none
read_none hpa none e h = refl
read_none hpa (some there) e h = cc h

lawful :
    (hpa : HorizontalPodAutoscaler) → IsLawful (hpa_kind client old_server hpa) (view key_of) Agrees
unfolding hpa_kind decimal
lawful hpa = record {
  view_key = base.view_key;
  get_found = λ key s a h. read_some hpa (view key_of s key) a h;
  get_missing = λ key s e h _. read_none hpa (view key_of s key) e h;
  get_view = λ key j s. refl;
  create_view = base.create_view;
  update_view = base.update_view;
  delete_view = base.delete_view;
  annotated = base.annotated;
  referenced = base.referenced;
  empty_patch = base.empty_patch;
}

abbrev before : World Cluster
before = world (λ _. none)

abbrev after : World Cluster
after =
    (create_or_update_hpa client consts texts old_server deployment bento (some "iris_clf")
      before).1

create_or_update_hpa-Upserted_example :
    (hpa : HorizontalPodAutoscaler) × (object : HpaObject Autoscaler) × (generate_hpa client consts
        texts deployment bento
        (some "iris_clf")
      ≡ ok hpa)
    × (handle_legacy_hpa client old_server hpa ≡ ok object)
    × Upserted
        (hpa_kind client old_server hpa)
        (view key_of)
        Agrees
        (lawful hpa)
        before
        after
        object
unfolding create_or_update_hpa decimal
create_or_update_hpa-Upserted_example =
    create_or_update_hpa-Upserted client consts texts old_server (view key_of) Agrees lawful
      deployment bento (some "iris_clf") before after true refl

-- A server of version 1.9 is asked for the new API.
require_legacy_hpa_lem_example : require_legacy_hpa (one_dot 9) ≡ false
require_legacy_hpa_lem_example = require_legacy_hpa_lem 9 (omega arith)
