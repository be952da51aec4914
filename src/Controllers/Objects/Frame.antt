-- ===== src/Controllers/Objects/Frame.antt =====
-- What the methods on one kind of object leave as it is: everything that the kind's calls leave.
use yatai_deployment.Base.{String, ◌<>◌, Option, none, some, true, false, Result, ok, err, panic}
use yatai_deployment.Base.Effect.{
  Exec, World, lift, call, attempt, reify, pure, emit, or_warn, or_warn-cluster, EventType,
  wrap_exec, raise, normal, is_not_found, ◌>>◌,
}
use yatai_deployment.Base.Effect.Keeps.{Keeps, >>=-Keeps, if-Keeps}
use yatai_deployment.Api.Kube.{NamespacedName}
use yatai_deployment.Controllers.Objects.{
  Kind, subject_of, found, annotate, write_object, get_object, create_object, update_object,
  find_object, save_object, create_or_update_object, delete_if_found, delete_found,
}

-- A property of the cluster alone.
abbrev pub Of : {S : Type 0} → (S → Type 0) → World S → Type 0
Of P w = P w.cluster

-- The calls for a kind of object keep a property of the cluster.
pub record Preserves {S A : Type 0} (P : S → Type 0) (k : Kind S A) : Type 0 where
  pub get : (key : NamespacedName) (s : S) → P s → P (k.get key s).1
  pub create : (a : A) (s : S) → P s → P (k.create a s).1
  pub update : (a : A) (s : S) → P s → P (k.update a s).1
  pub delete : (a : A) (s : S) → P s → P (k.delete a s).1

module _ {S : Type 0} (P : S → Type 0) where
  pub emit-Keeps :
      (kind : EventType) (reason subject : String) → Keeps (Of P) (emit kind reason subject)
  unfolding emit
  emit-Keeps kind reason subject w h = h

  -- A method after an event.
  pub after_event-Keeps :
      {A : Type 0} (kind : EventType) (reason subject : String) (m : Exec S A)
      → Keeps (Of P) m
      → Keeps (Of P) (emit kind reason subject >> m)
  after_event-Keeps kind reason subject m keeps =
      >>=-Keeps (Of P) (emit kind reason subject) (λ _. m) (emit-Keeps kind reason subject)
        λ _. keeps

  pub or_warn-Keeps :
      {A : Type 0} (reason subject : String) (m : Exec S A)
      → Keeps (Of P) m
      → Keeps (Of P) (or_warn reason subject m)
  or_warn-Keeps reason subject m keeps w h = or_warn-cluster reason subject m w P (keeps w h)

  reify-Keeps : {A : Type 0} (r : Result A) → Keeps (Of P) (reify r)
  reify-Keeps (ok a) w h = h
  reify-Keeps (err e) w h = h
  reify-Keeps panic w h = h

  pub attempt-Keeps : {A : Type 0} (m : Exec S A) → Keeps (Of P) m → Keeps (Of P) (attempt m)
  attempt-Keeps m keeps w h = reify-Keeps (m w).0 (m w).1 (keeps w h)

  -- What is written between two events.
  pub written-Keeps :
      (reason subject : String) (m : Exec S (Unit {0}))
      → Keeps (Of P) m
      → Keeps (Of P) (do
        emit normal reason subject
        or_warn reason subject m
        emit normal reason subject
        pure true)
  written-Keeps reason subject m keeps = after_event-Keeps normal reason subject _ (
      >>=-Keeps (Of P) (or_warn reason subject m) _ (or_warn-Keeps reason subject m keeps)
        λ _. after_event-Keeps normal reason subject (pure true) λ w h. h)

  module _ {A : Type 0} (k : Kind S A) (preserves : Preserves P k) where
    found-Keeps : (result : Result A) → Keeps (Of P) (found k result)
    unfolding found
    found-Keeps (ok object) = λ w h. h
    found-Keeps panic = λ w h. h
    found-Keeps (err e) =
        if-Keeps (Of P) (is_not_found e) (pure none) (raise e) (λ w h. h) (λ w h. h)

    get_object-Keeps : (key : NamespacedName) → Keeps (Of P) (get_object k key)
    unfolding get_object
    get_object-Keeps key =
        >>=-Keeps (Of P) (attempt (call (k.get key))) (found k)
          (attempt-Keeps (call (k.get key)) λ w h. preserves.get key w.cluster h) found-Keeps

    annotate-Keeps : (object : A) → Keeps (Of P) (annotate k object)
    unfolding annotate
    annotate-Keeps object = or_warn-Keeps _ _ (lift _) λ w h. h

    pub create_object-Keeps : (object : A) → Keeps (Of P) (create_object k object)
    unfolding create_object
    create_object-Keeps object =
        >>=-Keeps (Of P) (annotate k object) _ (annotate-Keeps object) λ annotated.
          written-Keeps _ _ (call (k.create annotated))
            λ w h. preserves.create annotated w.cluster h

    write_object-Keeps : (object : A) (write : A → A) → Keeps (Of P) (write_object k object write)
    unfolding write_object
    write_object-Keeps object write =
        >>=-Keeps (Of P) (annotate k object) _ (annotate-Keeps object) λ annotated.
          written-Keeps _ _ (call (k.update (write annotated)))
            λ w h. preserves.update (write annotated) w.cluster h

    pub update_object-Keeps :
        (old object : A) (write : A → A) → Keeps (Of P) (update_object k old object write)
    unfolding update_object
    update_object-Keeps old object write =
        >>=-Keeps (Of P) (or_warn "CalculatePatch" _ (lift (k.calculate old object))) _
          (or_warn-Keeps _ _ (lift _) λ w h. h)
          λ is_empty.
            let subject = subject_of (k.key object) in
            if-Keeps (Of P) is_empty (emit normal ("Update" <> k.reason) subject >> pure false)
              (write_object k object write)
              (after_event-Keeps normal ("Update" <> k.reason) subject (pure false) λ w h. h)
              (write_object-Keeps object write)

    pub find_object-Keeps : (object : A) → Keeps (Of P) (find_object k object)
    unfolding find_object
    find_object-Keeps object =
        let subject = subject_of (k.key object) in
        after_event-Keeps normal ("Get" <> k.reason) subject
          (or_warn ("Get" <> k.reason) subject (get_object k (k.key object)))
          (or_warn-Keeps ("Get" <> k.reason) subject (get_object k (k.key object))
            (get_object-Keeps (k.key object)))

    save_object-Keeps :
        (object : A) (write : A → A → A) (old : Option A)
        → Keeps (Of P) (save_object k object write old)
    unfolding save_object
    save_object-Keeps object write none = create_object-Keeps object
    save_object-Keeps object write (some old) = update_object-Keeps old object (write old)

    pub create_or_update_object-Keeps :
        (object : A) (write : A → A → A) → Keeps (Of P) (create_or_update_object k object write)
    unfolding create_or_update_object
    create_or_update_object-Keeps object write =
        >>=-Keeps (Of P) (find_object k object) _ (find_object-Keeps object)
          (save_object-Keeps object write)

    delete_found-Keeps :
        (context : String) (old : Option A) → Keeps (Of P) (delete_found k context old)
    unfolding delete_found
    delete_found-Keeps context none = λ w h. h
    delete_found-Keeps context (some old) =
        >>=-Keeps (Of P) (wrap_exec context (call (k.delete old))) _
          (λ w h. preserves.delete old w.cluster h) (λ _ w h. h)

    pub delete_if_found-Keeps :
        (get_context delete_context : String) (key : NamespacedName)
        → Keeps (Of P) (delete_if_found k get_context delete_context key)
    unfolding delete_if_found
    delete_if_found-Keeps get_context delete_context key =
        >>=-Keeps (Of P) (wrap_exec get_context (get_object k key)) _ (get_object-Keeps key)
          (delete_found-Keeps delete_context)
