-- ===== src/Controllers/Reconcile/Sync/Frame.antt =====
-- What telling the Yatai server leaves as it is: everything that sending and the calls for the resource
-- leave.
use yatai_deployment.Base.{
  String, Option, none, some, ◌∷◌, [], Bool, true, false, Result, ok, err, panic, contains,
  if◌then◌else◌,
}
use yatai_deployment.Base.Effect.{
  lift, pure, raise, attempt, emit, or_warn, normal, Exec, ◌>>=◌, ◌>>◌,
}
use yatai_deployment.Base.Effect.Keeps.{Keeps, >>=-Keeps, if-Keeps}
use yatai_deployment.Api.Kube.{NamespacedName, Opaque}
use yatai_deployment.Api.Resources.{Bento}
use yatai_deployment.Api.V2alpha1.{BentoDeployment}
use yatai_deployment.Api.Yatai.{DeploymentSchema, CreateDeploymentSchema}
use yatai_deployment.YataiClient.{
  YataiClient, get_bento, get_deployment, create_deployment, update_deployment,
  sync_deployment_status,
}
use yatai_deployment.YataiClient.Frame.{
  SendPreserves, get_bento-Keeps, get_deployment-Keeps, sync_deployment_status-Keeps,
  create_deployment-Keeps, update_deployment-Keeps,
}
use yatai_deployment.Controllers.Names.{get_bento_repository_name_and_bento_version}
use yatai_deployment.Controllers.Objects.Frame.{
  Of, after_event-Keeps, emit-Keeps, or_warn-Keeps, attempt-Keeps,
}
use yatai_deployment.Controllers.Status.{set_status_conditions}
use yatai_deployment.Controllers.Status.Frame.{StatusPreserve, set_status_conditions-Keeps}
use yatai_deployment.Controllers.Reconcile.{Reconciler}
use yatai_deployment.Controllers.Reconcile.Conditions.{available, condition}
use yatai_deployment.Controllers.Reconcile.Sync.{
  target_config, update_schema, no_change, known, find_deployment, create_yatai_deployment,
  update_yatai_deployment, save_yatai_deployment, sync_status, sync_deployment, has_bento,
  find_bento, sync_known, sync_yatai,
}

module _ {S V : Type 0} (P : S → Type 0) (r : Reconciler S V) (sends : SendPreserves P r.http)
    (status : StatusPreserve P r.status) (client : YataiClient) (cluster_name : String)
    (bento_deployment : BentoDeployment) (bento : Bento) where
  abbrev name : String
  name = bento_deployment.meta.name

  abbrev namespace : String
  namespace = bento_deployment.meta.namespace

  known-Keeps :
      (result : Result DeploymentSchema)
      → Keeps (Of P) (known r client cluster_name bento_deployment bento result)
  unfolding known
  known-Keeps (ok old) = λ w h. h
  known-Keeps panic = λ w h. h
  known-Keeps (err e) =
      if-Keeps (Of P) (contains (r.pod_lib.to_lower (r.error_text e)) "not found") (pure none)
        (raise e) (λ w h. h) (λ w h. h)

  find_deployment-Keeps :
      Keeps (Of P) (find_deployment r client cluster_name bento_deployment bento)
  unfolding find_deployment
  find_deployment-Keeps =
      >>=-Keeps (Of P) (attempt (get_deployment r.http r.consts client cluster_name namespace name))
        _
        (attempt-Keeps P (get_deployment r.http r.consts client cluster_name namespace name)
          (get_deployment-Keeps P r.http sends r.consts client cluster_name namespace name))
        known-Keeps

  -- A request between two events.
  told-Keeps :
      {A : Type 0} (reason : String) (m : Exec S A)
      → Keeps (Of P) m
      → Keeps
          (Of P)
          (emit normal reason name >> (or_warn reason name m >>= λ _. emit normal reason name))
  told-Keeps reason m keeps =
      after_event-Keeps P normal reason name
        (or_warn reason name m >>= λ _. emit normal reason name)
        (>>=-Keeps (Of P) (or_warn reason name m) (λ _. emit normal reason name)
          (or_warn-Keeps P reason name m keeps) λ _. emit-Keeps P normal reason name)

  save_yatai_deployment-Keeps :
      (old : Option DeploymentSchema)
      → Keeps (Of P) (save_yatai_deployment r client cluster_name bento_deployment bento old)
  unfolding save_yatai_deployment create_yatai_deployment update_yatai_deployment
  save_yatai_deployment-Keeps none =
      let schema : CreateDeploymentSchema = record {
        name = name;
        kube_namespace = namespace;
        update = update_schema r bento_deployment bento;
      } in
      told-Keeps "CreateYataiDeployment"
        (create_deployment r.http r.consts client cluster_name schema)
        (create_deployment-Keeps P r.http sends r.consts client cluster_name schema)
  save_yatai_deployment-Keeps (some old) =
      let schema = update_schema r bento_deployment bento in
      let update = update_yatai_deployment r client cluster_name bento_deployment bento in
      let skip = emit normal "UpdateYataiDeployment" name in
      >>=-Keeps (Of P) (lift (no_change r old (target_config r bento_deployment)))
        (λ unchanged. if unchanged then skip else update) (λ w h. h)
        λ unchanged.
          if-Keeps (Of P) unchanged skip update (emit-Keeps P normal "UpdateYataiDeployment" name) (
            told-Keeps "UpdateYataiDeployment"
              (update_deployment r.http r.consts client cluster_name namespace name schema)
              (update_deployment-Keeps P r.http sends r.consts client cluster_name namespace name
                schema))

  sync_status-Keeps : Keeps (Of P) (sync_status r client cluster_name bento_deployment bento)
  unfolding sync_status
  sync_status-Keeps =
      told-Keeps "SyncYataiDeploymentStatus"
        (sync_deployment_status r.http r.consts client cluster_name namespace name)
        (sync_deployment_status-Keeps P r.http sends r.consts client cluster_name namespace name)

  sync_deployment-Keeps :
      Keeps (Of P) (sync_deployment r client cluster_name bento_deployment bento)
  unfolding sync_deployment
  sync_deployment-Keeps =
      let find = find_deployment r client cluster_name bento_deployment bento in
      let save = save_yatai_deployment r client cluster_name bento_deployment bento in
      let status = sync_status r client cluster_name bento_deployment bento in
      after_event-Keeps P normal "GetYataiDeployment" name
        (or_warn "GetYataiDeployment" name find >>= λ old. save old >> status)
        (>>=-Keeps (Of P) (or_warn "GetYataiDeployment" name find) (λ old. save old >> status)
          (or_warn-Keeps P "GetYataiDeployment" name find find_deployment-Keeps)
          λ old.
            >>=-Keeps (Of P) (save old) (λ _. status) (save_yatai_deployment-Keeps old)
              λ _. sync_status-Keeps)

  has_bento-Keeps :
      (result : Result Opaque)
      → Keeps (Of P) (has_bento r client cluster_name bento_deployment bento result)
  unfolding has_bento
  has_bento-Keeps (ok body) = λ w h. h
  has_bento-Keeps panic = λ w h. h
  has_bento-Keeps (err e) =
      if-Keeps (Of P) (contains (r.error_text e) "not found") (pure false) (raise e) (λ w h. h)
        (λ w h. h)

  find_bento-Keeps : Keeps (Of P) (find_bento r client cluster_name bento_deployment bento)
  unfolding find_bento
  find_bento-Keeps =
      let (repository, version) = get_bento_repository_name_and_bento_version r.texts bento in
      >>=-Keeps (Of P) (attempt (get_bento r.http r.consts client repository version)) _
        (attempt-Keeps P (get_bento r.http r.consts client repository version)
          (get_bento-Keeps P r.http sends r.consts client repository version))
        has_bento-Keeps

  sync_known-Keeps :
      (key : NamespacedName) (is_known : Bool)
      → Keeps (Of P) (sync_known r client cluster_name bento_deployment bento key is_known)
  unfolding sync_known
  sync_known-Keeps key true =
      >>=-Keeps (Of P) (sync_deployment r client cluster_name bento_deployment bento)
        (λ _. pure true) sync_deployment-Keeps λ _ w h. h
  sync_known-Keeps key false =
      let conditions = condition available "True" "Remote bento from Yatai is not found" ∷ [] in
      >>=-Keeps (Of P) (set_status_conditions r.status key conditions) (λ _. pure false)
        (set_status_conditions-Keeps P r.status status key conditions) λ _ w h. h

  -- The method keeps what its calls keep.
  pub sync_yatai-Keeps :
      (key : NamespacedName)
      → Keeps (Of P) (sync_yatai r client cluster_name bento_deployment bento key)
  unfolding sync_yatai
  sync_yatai-Keeps key =
      >>=-Keeps (Of P) (find_bento r client cluster_name bento_deployment bento) _ find_bento-Keeps
        (sync_known-Keeps key)
