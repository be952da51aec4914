-- ===== src/Tests/Services.antt =====
-- A cluster with no Service, and what the reconciler's methods make of it.
use yatai_deployment.Base.{none, some, [], ◌∷◌, true, false, ◌≡◌, ◌∙◌, refl}
use yatai_deployment.Base.Effect.{World}
use yatai_deployment.Base.Dict.{insert, lookup, entries}
use yatai_deployment.Api.Kube.{NamespacedName, Service}
use yatai_deployment.Controllers.Objects.{Kind, create_or_update_object}
use yatai_deployment.Controllers.Objects.Laws.{IsLawful}
use yatai_deployment.Controllers.Objects.Upsert.{Upserted, create_or_update_object-Upserted}
use yatai_deployment.Controllers.Service.{
  ServicesOption, service_of, service_option, write_service, create_or_update_or_delete_services,
}
use yatai_deployment.Controllers.Service.Sync.{IsServiceKind}
use yatai_deployment.Controllers.Service.Component.{
  IsUpToDate, create_or_update_or_delete_services-IsUpToDate,
}
use yatai_deployment.Tests.Fixtures.{consts, texts, sixteen, bento, deployment, world}
use yatai_deployment.Tests.Store.{Store, view, store_kind, store_kind-IsLawful}

abbrev pub key_of : Service → NamespacedName
key_of a = record { namespace = a.meta.namespace; name = a.meta.name }

abbrev annotate : Service → Service
annotate a = record a {
  meta = record a.meta {
    annotations = some (insert "banzaicloud.com/last-applied" "{}" (entries a.meta.annotations));
  };
}

abbrev refer : Service → Service
refer a = record a { meta = record a.meta { owner_references = "iris" ∷ [] } }

-- A Service is as described in its labels and its spec.
abbrev pub Agrees : Service → Service → Type 0
Agrees a b = (a.spec ≡ b.spec) × (a.meta.labels ≡ b.meta.labels)

abbrev pub services : Kind (Store Service) Service
services = store_kind key_of "Service" annotate refer

pub lawful : IsLawful services (view key_of) Agrees
unfolding insert
lawful =
    store_kind-IsLawful key_of "Service" annotate refer Agrees (λ a. (refl, (refl, refl)))
      (λ a. (refl, λ stored agrees. agrees))

pub service_kind : IsServiceKind services Agrees
service_kind = record {
  key_of = λ a. refl;
  reads = λ a b d spec labels annotations (same_spec, same_labels).
      (spec ∙ same_spec, labels ∙ same_labels);
}

abbrev runner_option : ServicesOption
runner_option = record {
  bento_deployment = deployment;
  bento = bento;
  runner_name = some "iris_clf";
}

abbrev pub before : World (Store Service)
before = world (λ _. none)

abbrev after : World (Store Service)
after = (create_or_update_or_delete_services services consts texts runner_option before).1

create_or_update_or_delete_services-IsUpToDate_example :
    IsUpToDate services
      (view key_of)
      Agrees
      lawful
      service_kind
      consts
      texts
      sixteen
      runner_option
      before
      after
unfolding create_or_update_or_delete_services lookup
create_or_update_or_delete_services-IsUpToDate_example =
    create_or_update_or_delete_services-IsUpToDate services (view key_of) Agrees lawful service_kind
      consts texts sixteen runner_option before after true refl

abbrev generic : Service
generic = service_of consts texts (service_option consts runner_option true false)

abbrev with_generic : World (Store Service)
with_generic = (create_or_update_object services generic write_service before).1

create_or_update_object-Upserted_example :
    Upserted services (view key_of) Agrees lawful before with_generic generic
unfolding create_or_update_object lookup service_of service_option
create_or_update_object-Upserted_example =
    create_or_update_object-Upserted services (view key_of) Agrees lawful generic write_service
      before with_generic true (λ a same annotated key agrees. (same, agrees)) refl
