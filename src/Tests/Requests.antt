-- ===== src/Tests/Requests.antt =====
-- A BentoRequest that is there already gets the tag, and a memory target that is no quantity.
use yatai_deployment.Base.{
  Option, none, some, [], ◌∷◌, Result, ok, err, panic, Error, ◌≡◌, ◌↔◌, refl, arith, eq_refl,
  is_some, if◌then◌else◌,
}
use yatai_deployment.Base.Int.{pos}
use yatai_deployment.Base.Effect.{World, not_found, already_exists, wrap}
use yatai_deployment.Api.Common.{DeploymentTargetHpaConf}
use yatai_deployment.Api.Kube.{NamespacedName, QuantityLib}
use yatai_deployment.Api.Resources.{BentoRequest}
use yatai_deployment.Api.V2alpha1
use yatai_deployment.Api.V1alpha3
use yatai_deployment.Controllers.Objects.Laws.{same_key, same_key_iff}
use yatai_deployment.Conversion.Hpa.{transform_to_new_hpa}
use yatai_deployment.Conversion.Hpa.Errors.{BadMemory, transform_to_new_hpa-BadMemory}
use yatai_deployment.Conversion.Names.{convert_to_bento_request}
use yatai_deployment.Conversion.Older.{zero_deployment}
use yatai_deployment.Conversion.V1alpha3.{BentoClients, convert_to}
use yatai_deployment.Conversion.V1alpha3.Requests.{
  request_key, IsLawfulRequests, Requested, convert_to-Requested,
}
use yatai_deployment.Tests.Fixtures.{consts, texts, quantities, bento, deployment, meta_of, world}

abbrev Slot : Type 0
Slot = Option BentoRequest

abbrev view : Slot → NamespacedName → Option BentoRequest
view none j = none
view (some a) j = if same_key (request_key a) j then some a else none

abbrev or_missing : Option BentoRequest → Result BentoRequest
or_missing none = err not_found
or_missing (some a) = ok a

abbrev clients : BentoClients Slot
clients = record {
  new_for_config = λ s. (ok tt, s);
  get_bento = λ key s. (ok bento, s);
  create_bento_request =
      λ request s. if is_some s then (err already_exists, s) else (ok tt, some request);
  get_bento_request = λ key s. (or_missing (view s key), s);
  update_bento_request = λ request s. (ok tt, some request);
}

shown : (a : BentoRequest) → view (some a) (request_key a) ≡ some a
shown a = ground (arith, eq_refl a.meta.namespace, eq_refl a.meta.name)

created :
    (request : BentoRequest) (s : Slot)
    → (clients.create_bento_request request s).0 ≡ ok tt
    → view (clients.create_bento_request request s).1 (request_key request) ≡ some request
created request none h = shown request
created request (some a) h = cc h

got :
    (key : NamespacedName) (s : Slot) (request : BentoRequest)
    → (clients.get_bento_request key s).0 ≡ ok request
    → request_key request ≡ key
got key none request h = cc h
got key (some a) request h = ground (arith, same_key_iff (request_key a) key)

lawful : IsLawfulRequests clients view
lawful = record { created = created; got = got; updated = λ request s h. shown request }

abbrev src : V1alpha3.BentoDeployment
src = record zero_deployment {
  meta = meta_of "iris";
  spec = record zero_deployment.spec { bento_tag = "iris:v1" };
}

-- The request is there with another tag.
abbrev old : BentoRequest
old = record {
  meta = meta_of "iris--v1";
  spec = record { bento_tag = "iris:v0"; overrides = "image" ∷ [] };
  conditions = [];
}

abbrev before : World Slot
before = world (some old)

abbrev or_deployment : Result V2alpha1.BentoDeployment → V2alpha1.BentoDeployment
or_deployment (ok stored) = stored
or_deployment (err e) = deployment
or_deployment panic = deployment

abbrev stored : V2alpha1.BentoDeployment
stored = or_deployment (convert_to clients consts quantities texts src deployment before).0

abbrev after : World Slot
after = world (some (record old { spec = record old.spec { bento_tag = "iris:v1" } }))

convert_to-Requested_example :
    Requested clients view lawful (convert_to_bento_request texts src) after.cluster
unfolding convert_to
convert_to-Requested_example =
    convert_to-Requested clients view lawful consts quantities texts src deployment stored before
      after refl

-- A library that accepts no text.
abbrev strict : QuantityLib
strict = record quantities { parse_quantity = λ text. err (Error.other "bad") }

abbrev old_hpa : DeploymentTargetHpaConf
old_hpa = record {
  cpu = some (pos 70);
  gpu = none;
  memory = some "much";
  qps = none;
  min_replicas = none;
  max_replicas = none;
}

abbrev reason : Error
reason = wrap "parse memory" (Error.other "bad")

transform_to_new_hpa-BadMemory_example :
    (transform_to_new_hpa consts strict (some old_hpa) ≡ err reason)
    ↔ BadMemory consts strict old_hpa.memory reason
transform_to_new_hpa-BadMemory_example = transform_to_new_hpa-BadMemory consts strict old_hpa reason
