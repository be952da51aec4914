-- ===== src/Controllers/Objects/Upsert.antt =====
-- The methods that create, update and delete one object, on a cluster that keeps its contracts: what
-- is there after they returned, and that nothing else changed.
use yatai_deployment.Base.{
  String, Option, none, some, Bool, true, false, ok, inl, inr, ◌≡◌, ◌∙◌, arith, ap, sym, subst,
  is_some,
}
use yatai_deployment.Base.Effect.{World, wrap_exec, >>=-eq-ok}
use yatai_deployment.Api.Kube.{NamespacedName}
use yatai_deployment.Controllers.Objects.{
  Kind, get_object, create_object, update_object, find_object, save_object, create_or_update_object,
  delete_if_found, delete_found,
}
use yatai_deployment.Controllers.Objects.Laws.{
  IsLawful, same_key, same_key_iff, Found, create_object-eq-ok, update_object-eq-ok,
  get_object-eq-ok, find_object-eq-ok,
}

module _ {S A : Type 0} (k : Kind S A) (view : S → NamespacedName → Option A)
    (Agrees : A → A → Type 0) (law : IsLawful k view Agrees) where
  -- After a method: the object at `key` is there as `object` describes it, and nothing else changed.
  pub record Upserted (before after : World S) (object : A) : Type 0 where
    pub stored : A
    pub at_key : view after.cluster (k.key object) ≡ some stored
    pub agrees : Agrees stored object
    pub elsewhere :
        (j : NamespacedName)
        → same_key (k.key object) j ≡ false
        → view after.cluster j ≡ view before.cluster j

  pub create_object-Upserted :
      (object : A) (w w' : World S) (b : Bool)
      → create_object k object w ≡ (ok b, w')
      → Upserted w w' object
  create_object-Upserted object w w' b h =
      let (annotated, ea, ec, es) = create_object-eq-ok k object w w' b h in
      let (same, agrees) = law.annotated object annotated ea in
      record {
        stored = annotated;
        at_key = ground (
          arith,
          law.create_view annotated w.cluster (k.key object) ec,
          same_key_iff (k.key annotated) (k.key object),
        );
        agrees = agrees;
        elsewhere = λ j ne. ground (arith, law.create_view annotated w.cluster j ec);
      }

  -- What was found, `old`, tells what the cluster shows, `seen`.
  abbrev pub Reads : Option A → Option A → Type 0
  Reads seen none = seen ≡ none
  Reads seen (some old) =
      (there : A) × (seen ≡ some there)
      × (k.key old ≡ k.key there)
      × ((d : A) → Agrees old d → Agrees there d)

  Reads-is_some : (seen old : Option A) → Reads seen old → is_some old ≡ is_some seen
  Reads-is_some seen none h = ap is_some (sym h)
  Reads-is_some seen (some old) (_, there, _, _) = ap is_some (sym there)

  -- What an update writes has the key and the description of the annotated object.
  abbrev pub WritesBack : A → A → (A → A) → Type 0
  WritesBack old object write =
      (annotated : A)
      → k.key annotated ≡ k.key object
      → Agrees annotated object
      → (k.key (write annotated) ≡ k.key object) × Agrees (write annotated) object

  pub update_object-Upserted :
      (old object : A) (write : A → A) (w w' : World S) (b : Bool)
      → Reads (view w.cluster (k.key object)) (some old)
      → WritesBack old object write
      → update_object k old object write w ≡ (ok b, w')
      → Upserted w w' object
  update_object-Upserted old object write w w' b (shown, there, _, agree) back h =
      elim (update_object-eq-ok k old object write w w' b h) [
        | inl (e, es, _) ↦ record {
          stored = shown;
          at_key = ap (λ s. view s (k.key object)) es ∙ there;
          agrees = agree object (law.empty_patch old object e);
          elsewhere = λ j ne. ap (λ s. view s j) es;
        }
        | inr (annotated, ea, eu, es, _) ↦
            let (same, agrees) = law.annotated object annotated ea in
            let (same', agrees') = back annotated same agrees in
            record {
              stored = write annotated;
              at_key = ground (
                arith,
                law.update_view (write annotated) w.cluster (k.key object) eu,
                same_key_iff (k.key (write annotated)) (k.key object),
              );
              agrees = agrees';
              elsewhere = λ j ne. ground (arith, law.update_view (write annotated) w.cluster j eu);
            }
      ]

  -- A method that returned has only looked, if the cluster shows the same.
  pub Upserted-after :
      (w w1 w' : World S) (object : A)
      → ((j : NamespacedName) → view w1.cluster j ≡ view w.cluster j)
      → Upserted w1 w' object
      → Upserted w w' object
  Upserted-after w w1 w' object same u = record {
    stored = u.stored;
    at_key = u.at_key;
    agrees = u.agrees;
    elsewhere = λ j ne. u.elsewhere j ne ∙ same j;
  }

  -- The search changes nothing that the cluster shows, and its answer is what is there.
  Found-view :
      (key : NamespacedName) (s : S) (old : Option A) → Found k key s old → Reads (view s key) old
  Found-view key s none (e, h, missing) = law.get_missing key s e h missing
  Found-view key s (some old) h = law.get_found key s old h

  pub find_object-view :
      (object : A) (w w1 : World S) (old : Option A)
      → find_object k object w ≡ (ok old, w1)
      → ((j : NamespacedName) → view w1.cluster j ≡ view w.cluster j)
        × Reads (view w1.cluster (k.key object)) old
  find_object-view object w w1 old h =
      let (es, found) = find_object-eq-ok k object w w1 old h in
      let same =
        λ (j : NamespacedName). ap (λ s. view s j) es ∙ law.get_view (k.key object) j w.cluster in
      (
        same,
        subst (λ seen. Reads seen old) (sym (same (k.key object)))
            (Found-view (k.key object) w.cluster old found),
      )

  save_object-Upserted :
      (object : A) (write : A → A → A) (old : Option A) (w w' : World S) (b : Bool)
      → Reads (view w.cluster (k.key object)) old
      → ((a : A) → k.key a ≡ k.key object → WritesBack a object (write a))
      → save_object k object write old w ≡ (ok b, w')
      → Upserted w w' object
  unfolding save_object
  save_object-Upserted object write none w w' b there back h =
      create_object-Upserted object w w' b h
  save_object-Upserted object write (some old) w w' b (shown, there, keyed, agree) back h =
      update_object-Upserted old object (write old) w w' b (shown, there, keyed, agree)
        (back old (
          keyed
          ∙ (same_key_iff (k.key shown) (k.key object)).0
              (law.view_key w.cluster (k.key object) shown there)))
        h

  -- When the method has returned, the object is in the cluster as it was described, created or
  -- updated, and every other object is as before.
  pub create_or_update_object-Upserted :
      (object : A) (write : A → A → A) (w w' : World S) (b : Bool)
      → ((a : A) → k.key a ≡ k.key object → WritesBack a object (write a))
      → create_or_update_object k object write w ≡ (ok b, w')
      → Upserted w w' object
  unfolding create_or_update_object
  create_or_update_object-Upserted object write w w' b back h =
      let find = find_object k object in
      let (old, e, more) = >>=-eq-ok find (save_object k object write) w h in
      let (same, there) = find_object-view object w (find w).1 old (λ i. (e i, (find w).1)) in
      Upserted-after w (find w).1 w' object same
        (save_object-Upserted object write old (find w).1 w' b there back more)

  -- After a deletion: nothing is at `key`, and nothing else changed.
  pub record Removed (before after : World S) (key : NamespacedName) : Type 0 where
    pub gone : view after.cluster key ≡ none
    pub elsewhere :
        (j : NamespacedName) → same_key key j ≡ false → view after.cluster j ≡ view before.cluster j

  delete_found-eq-ok :
      (context : String) (old : A) (w w' : World S) (b : Bool)
      → delete_found k context (some old) w ≡ (ok b, w')
      → ((k.delete old w.cluster).0 ≡ ok tt)
        × (w'.cluster ≡ (k.delete old w.cluster).1)
        × (b ≡ true)
  unfolding delete_found
  delete_found-eq-ok context old w w' b h = ground arith

  delete_found-Removed :
      (context : String) (key : NamespacedName) (old : Option A) (w w' : World S) (b : Bool)
      → Reads (view w.cluster key) old
      → delete_found k context old w ≡ (ok b, w')
      → Removed w w' key × (b ≡ is_some old)
  unfolding delete_found
  delete_found-Removed context key none w w' b there h =
      let same : w ≡ w' = ap (λ p. p.1) h in
      (
        record {
          gone = ap (λ x. view x.cluster key) (sym same) ∙ there;
          elsewhere = λ j ne. ap (λ x. view x.cluster j) (sym same);
        },
        cc,
      )
  delete_found-Removed context key (some old) w w' b (shown, there, as_shown, _) h =
      let (ed, es, eb) = delete_found-eq-ok context old w w' b h in
      let same =
        as_shown ∙ (same_key_iff (k.key shown) key).0 (law.view_key w.cluster key shown there) in
      let keyed = (same_key_iff (k.key old) key).1 same in
      (
        record {
          gone = ground (arith, law.delete_view old w.cluster key ed);
          elsewhere = λ j ne. ground (arith, law.delete_view old w.cluster j ed, same);
        },
        eb,
      )

  -- When the method has returned, nothing is at the key and nothing else has changed; it returned
  -- whether an object was there.
  pub delete_if_found-Removed :
      (get_context delete_context : String) (key : NamespacedName) (w w' : World S) (b : Bool)
      → delete_if_found k get_context delete_context key w ≡ (ok b, w')
      → Removed w w' key × (b ≡ is_some (view w.cluster key))
  unfolding delete_if_found
  delete_if_found-Removed get_context delete_context key w w' b h =
      let get = wrap_exec get_context (get_object k key) in
      let (old, e, more) = >>=-eq-ok get (delete_found k delete_context) w h in
      let (es, found) = get_object-eq-ok k key w (get w).1 old (ground arith) in
      let same = λ (j : NamespacedName). ap (λ s. view s j) es ∙ law.get_view key j w.cluster in
      let seen = Found-view key w.cluster old found in
      let (removed, eb) =
        delete_found-Removed delete_context key old (get w).1 w' b
          (subst (λ x. Reads x old) (sym (same key)) seen) more in
      (
        record { gone = removed.gone; elsewhere = λ j ne. removed.elsewhere j ne ∙ same j },
        eb ∙ Reads-is_some (view w.cluster key) old seen,
      )
