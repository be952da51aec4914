-- ===== src/Conversion/V1alpha3/RoundTrip.antt =====
-- A v1alpha3 resource that is stored and read back.
use mathlib.Core.Option
use yatai_deployment.Base.{
  String, none, List, [], ◌∷◌, map, ok, bind-eq-ok, ok-injective, ◌≡◌, refl, ap, subst, arith,
  or_else, ◌≢◌, eq_iff, ◌∙◌,
}
use yatai_deployment.Base.Effect.{World, call, attempt, wrap_exec, >>=-eq-ok}
use yatai_deployment.Base.Int.{ℤ}
use yatai_deployment.Api.Consts.{Consts}
use yatai_deployment.Api.Kube.{QuantityLib}
use yatai_deployment.Api.V2alpha1
use yatai_deployment.Api.V1alpha3
use yatai_deployment.Conversion.Hpa.{transform_to_new_hpa}
use yatai_deployment.Conversion.Hpa.RoundTrip.{after_round_trip, old-new_hpa_option}
use yatai_deployment.Conversion.Parts.{
  with_value, transform_to_old_envs-transform_to_new_envs, old-new_extra_pod_metadata,
  old-new_extra_pod_spec,
}
use yatai_deployment.Conversion.V1alpha3.{
  new_ingress, old_ingress, new_runner, new_runners, old_runner, old_runners, convert_to_v2alpha1,
  fill_from, BentoClients, convert_to, convert_from, after_create, get_bento_tag_from_bento_name,
}
use yatai_deployment.Conversion.Names.{
  TextLib, get_bento_name_from_bento_tag, convert_to_bento_request,
}
use yatai_deployment.Api.Resources.{Bento}

-- What is left of a runner: its annotations and labels are lost, and so are the empty environment
-- variables; the autoscaling is normalised.
abbrev pub restored_runner :
    Consts → V1alpha3.BentoDeploymentRunnerSpec → V1alpha3.BentoDeploymentRunnerSpec
restored_runner c runner = record runner {
  annotations = none;
  labels = none;
  autoscaling = Option.map (after_round_trip c) runner.autoscaling;
  envs = Option.map with_value runner.envs;
}

-- What is left of a resource, read into `dst`.
abbrev pub restored :
    Consts → V1alpha3.BentoDeployment → V1alpha3.BentoDeployment → V1alpha3.BentoDeployment
restored c src dst = record {
  meta = src.meta;
  spec = record src.spec {
    annotations = dst.spec.annotations;
    labels = dst.spec.labels;
    autoscaling = Option.map (after_round_trip c) src.spec.autoscaling;
    envs = Option.map with_value src.spec.envs;
    runners = map (restored_runner c) src.spec.runners;
    extra_pod_metadata = or_else src.spec.extra_pod_metadata dst.spec.extra_pod_metadata;
    extra_pod_spec = or_else src.spec.extra_pod_spec dst.spec.extra_pod_spec;
  };
}

old_ingress-new_ingress :
    (ingress : V1alpha3.BentoDeploymentIngressSpec) → old_ingress (new_ingress ingress) ≡ ingress
unfolding old_ingress new_ingress
old_ingress-new_ingress ingress = ground arith

module _ (c : Consts) (lib : QuantityLib)
    (value_new : (n : ℤ) → lib.value (lib.new_quantity n) ≡ n) where
  old_runner-new_runner :
      (runner : V1alpha3.BentoDeploymentRunnerSpec) (mid : V2alpha1.BentoDeploymentRunnerSpec)
      → new_runner c lib runner ≡ ok mid
      → old_runner c lib mid ≡ restored_runner c runner
  unfolding new_runner
  old_runner-new_runner runner mid h =
      let (hpa, e, made) = bind-eq-ok (transform_to_new_hpa c lib runner.autoscaling) _ h in
      subst (λ x. old_runner c lib x ≡ restored_runner c runner) (ok-injective made)
        (unfold old_runner in
          simp (
            old-new_hpa_option c lib value_new runner.autoscaling hpa e,
            transform_to_old_envs-transform_to_new_envs,
            old-new_extra_pod_metadata,
            old-new_extra_pod_spec,
          ))

  old_runners-new_runners :
      (runners : List V1alpha3.BentoDeploymentRunnerSpec)
      (mid : List V2alpha1.BentoDeploymentRunnerSpec)
      → new_runners c lib runners ≡ ok mid
      → old_runners c lib mid ≡ map (restored_runner c) runners
  unfolding new_runners old_runners
  old_runners-new_runners [] mid h = subst (λ x. old_runners c lib x ≡ []) (ok-injective h) refl
  old_runners-new_runners (runner ∷ runners) mid h =
      let (first, e, more) = bind-eq-ok (new_runner c lib runner) _ h in
      let (rest, es, made) = bind-eq-ok (new_runners c lib runners) _ more in
      subst (λ x. old_runners c lib x ≡ map (restored_runner c) (runner ∷ runners))
        (ok-injective made)
        (cc (old_runner-new_runner runner first e, old_runners-new_runners runners rest es))

  fill_from-convert_to_v2alpha1 :
      (src dst : V1alpha3.BentoDeployment) (hub mid : V2alpha1.BentoDeployment) (name : String)
      → convert_to_v2alpha1 c lib src hub name ≡ ok mid
      → fill_from c lib src.spec.bento_tag mid dst ≡ restored c src dst
  unfolding convert_to_v2alpha1
  fill_from-convert_to_v2alpha1 src dst hub mid name h =
      let (hpa, e, more) = bind-eq-ok (transform_to_new_hpa c lib src.spec.autoscaling) _ h in
      let (runners, es, made) = bind-eq-ok (new_runners c lib src.spec.runners) _ more in
      subst (λ x. fill_from c lib src.spec.bento_tag x dst ≡ restored c src dst) (ok-injective made)
        (unfold fill_from in
          simp (
            old-new_hpa_option c lib value_new src.spec.autoscaling hpa e,
            old_runners-new_runners src.spec.runners runners es,
            transform_to_old_envs-transform_to_new_envs,
            old_ingress-new_ingress,
            old-new_extra_pod_metadata,
            old-new_extra_pod_spec,
          ))

-- The resource and the name of its Bento pass into the new version.
hub_of :
    (c : Consts) (lib : QuantityLib) (src : V1alpha3.BentoDeployment)
    (hub mid : V2alpha1.BentoDeployment) (name : String)
    → convert_to_v2alpha1 c lib src hub name ≡ ok mid
    → (mid.meta ≡ src.meta) × (mid.spec.bento ≡ name)
unfolding convert_to_v2alpha1
hub_of c lib src hub mid name h =
    let (hpa, e, more) = bind-eq-ok (transform_to_new_hpa c lib src.spec.autoscaling) _ h in
    let (runners, es, made) = bind-eq-ok (new_runners c lib src.spec.runners) _ more in
    subst (λ x. (x.meta ≡ src.meta) × (x.spec.bento ≡ name)) (ok-injective made) (refl, refl)

module _ {S : Type 0} (clients : BentoClients S) (c : Consts) (lib : QuantityLib) (texts : TextLib)
    (value_new : (n : ℤ) → lib.value (lib.new_quantity n) ≡ n) where
  -- The call by which `ConvertFrom` finds the Bento of a resource that was converted.
  abbrev FindsTag : V1alpha3.BentoDeployment → S → Type 0
  FindsTag src s =
      (bento : Bento) × ((clients.new_for_config s).0 ≡ ok tt)
      × ((clients.get_bento
            (record {
              namespace = src.meta.namespace;
              name = get_bento_name_from_bento_tag texts src.spec.bento_tag;
            })
            (clients.new_for_config s).1).0
          ≡ ok bento)
      × (bento.spec.tag ≡ src.spec.bento_tag)

  converted :
      (src : V1alpha3.BentoDeployment) (hub mid : V2alpha1.BentoDeployment) (w w' : World S)
      → convert_to clients c lib texts src hub w ≡ (ok mid, w')
      → convert_to_v2alpha1 c lib src hub (get_bento_name_from_bento_tag texts src.spec.bento_tag)
        ≡ ok mid
  unfolding convert_to
  converted src hub mid w w' h =
      let request = convert_to_bento_request texts src in
      let make = wrap_exec "create BentoRequest client" (call clients.new_for_config) in
      let create = attempt (call (clients.create_bento_request request)) in
      let (u, e1, h1) = >>=-eq-ok make _ w h in
      let (r, e2, h2) = >>=-eq-ok create _ (make w).1 h1 in
      let (v, e3, h3) = >>=-eq-ok (after_create clients request r) _ (create (make w).1).1 h2 in
      unfold convert_to_bento_request in ap (λ p. p.0) h3

  finds_tag :
      (src : V1alpha3.BentoDeployment) (w : World S)
      → src.spec.bento_tag ≢ ""
      → FindsTag src w.cluster
      → (get_bento_tag_from_bento_name clients src.meta.namespace
          (get_bento_name_from_bento_tag texts src.spec.bento_tag)
          w).0
        ≡ ok src.spec.bento_tag
  unfolding get_bento_tag_from_bento_name
  finds_tag src w tagged (bento, made, found, same) = ground (arith, eq_iff bento.spec.tag "")

  reads_from :
      (mid : V2alpha1.BentoDeployment) (dst : V1alpha3.BentoDeployment) (w : World S) (tag : String)
      → (get_bento_tag_from_bento_name clients mid.meta.namespace mid.spec.bento w).0 ≡ ok tag
      → (convert_from clients c lib mid dst w).0 ≡ ok (fill_from c lib tag mid dst)
  unfolding convert_from
  reads_from mid dst w tag h = rw h

  -- A v1alpha3 resource that `ConvertTo` has stored and that `ConvertFrom` reads back, by way of a
  -- cluster where its Bento is found with its tag, is the resource itself but for what `restored`
  -- names.
  pub convert_from-convert_to :
      (src dst : V1alpha3.BentoDeployment) (hub mid : V2alpha1.BentoDeployment) (w w' : World S)
      → convert_to clients c lib texts src hub w ≡ (ok mid, w')
      → src.spec.bento_tag ≢ ""
      → FindsTag src w'.cluster
      → (convert_from clients c lib mid dst w').0 ≡ ok (restored c src dst)
  convert_from-convert_to src dst hub mid w w' h tagged found =
      let name = get_bento_name_from_bento_tag texts src.spec.bento_tag in
      let done = converted src hub mid w w' h in
      let (same_meta, same_name) = hub_of c lib src hub mid name done in
      let tag = finds_tag src w' tagged found in
      reads_from mid dst w' src.spec.bento_tag (cc (tag, same_meta, same_name))
      ∙ ap ok (fill_from-convert_to_v2alpha1 c lib value_new src dst hub mid name done)
