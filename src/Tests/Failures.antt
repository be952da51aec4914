-- ===== src/Tests/Failures.antt =====
-- A cluster that creates an object and loses the answer.
use yatai_deployment.Base.{none, err, ◌≡◌}
use yatai_deployment.Base.Effect.{World, Error}
use yatai_deployment.Api.Kube.{NamespacedName, ObjectMeta}
use yatai_deployment.Controllers.Objects.{Kind, create_or_update_object}
use yatai_deployment.Tests.Fixtures.{meta_of, world}
use yatai_deployment.Tests.Store.{Store, store_kind, store_create}

abbrev key_of : ObjectMeta → NamespacedName
key_of meta = record { namespace = meta.namespace; name = meta.name }

abbrev SameName : ObjectMeta → ObjectMeta → Type 0
SameName a b = a.name ≡ b.name

abbrev kind : Kind (Store ObjectMeta) ObjectMeta
kind = store_kind key_of "Object" (λ a. a) (λ a. a)

abbrev slow : Kind (Store ObjectMeta) ObjectMeta
slow = record kind { create = λ a s. (err (Error.other "timeout"), (store_create key_of a s).1) }

abbrev before : World (Store ObjectMeta)
before = world (λ _. none)

abbrev after : World (Store ObjectMeta)
after = (create_or_update_object slow (meta_of "iris") (λ old new. new) before).1
