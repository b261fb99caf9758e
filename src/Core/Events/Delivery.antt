-- ===== src/Core/Events/Delivery.antt =====
-- What the hub delivers over any sequence of emissions, and that pruning cannot be observed.
use dogrs.Base.{
  ◌≡◌, inl, inr, refl, sym, ap, ◌∙◌, String, Bool, true, false, not, any, ◌&&◌, ◌||◌, Option, none,
  some, List, [], ◌∷◌, arith, if◌then◌else◌, keep, map, Bool-cases,
}
use dogrs.Core.Events.{
  ServiceEventKind, ServiceEventData, ListenerEntry, DogEventHub, PublishFn, is_spent, matches,
  fires, visited, visit, allowed, counted, prune_once_listeners, snapshot_emit,
}
use dogrs.Core.Hooks.{HookContext}
use dogrs.Core.Kit.{Kit}

pub record Emission (k : Kit) : Type 0 where
  pub path : String
  pub event : ServiceEventKind
  pub payload : ServiceEventData k
  pub ctx : HookContext k

module _ {k : Kit} where
  -- The entries whose listeners are called, for each emission, and the hub afterwards.
  unfoldable pub emit_all :
      DogEventHub k → List (Emission k) → List (List (ListenerEntry k)) × DogEventHub k
  emit_all hub [] = ([], hub)
  emit_all hub (m ∷ ms) =
      let (to_call, hub') = snapshot_emit hub m.path m.event m.payload m.ctx in
      let (rest, hub'') = emit_all hub' ms in (to_call ∷ rest, hub'')

  abbrev passes : Option (PublishFn k) → Emission k → Bool
  passes none m = true
  passes (some publish) m = publish m.path m.event m.payload m.ctx

  -- Whether an emission calls an entry that was among the entries at the start: they match, and the
  -- listener is for every event, or has neither been called before nor matched one of the earlier emissions.
  unfoldable pub due : List (Emission k) → Emission k → ListenerEntry k → Bool
  due earlier m e =
      matches e.pattern m.path m.event
      && not (
          e.once
          && (e.called || any (λ (n : Emission k). matches e.pattern n.path n.event) earlier))

  -- The specification: the entries stay as they are, and `earlier` are the emissions that the gate has
  -- let pass.
  unfoldable pub deliveries :
      Option (PublishFn k)
      → List (ListenerEntry k)
      → List (Emission k)
      → List (Emission k)
      → List (List (ListenerEntry k))
  unfolding due
  deliveries publish entries earlier [] = []
  deliveries publish entries earlier (m ∷ ms) =
      if passes publish m
      then keep (due earlier m) entries ∷ deliveries publish entries (m ∷ earlier) ms
      else [] ∷ deliveries publish entries earlier ms

  -- The deliveries of a hub that marks its entries and never removes one.
  unfoldable marked_deliveries :
      Option (PublishFn k)
      → List (ListenerEntry k)
      → List (Emission k)
      → List (List (ListenerEntry k))
  marked_deliveries publish entries [] = []
  marked_deliveries publish entries (m ∷ ms) =
      if passes publish m
      then keep (fires m.path m.event) entries
        ∷ marked_deliveries publish (map (visited m.path m.event) entries) ms
      else [] ∷ marked_deliveries publish entries ms

  visit_lem :
      (path : String) (event : ServiceEventKind) (es : List (ListenerEntry k))
      → visit path event es ≡ (keep (fires path event) es, map (visited path event) es)
  unfolding visit keep
  visit_lem path event [] = refl
  visit_lem path event (e ∷ es) = rw (visit_lem path event es) refl

  abbrev is_live : ListenerEntry k → Bool
  is_live e = not (is_spent e)

  abbrev live : List (ListenerEntry k) → List (ListenerEntry k)
  live = keep is_live

  fires-live :
      (path : String) (event : ServiceEventKind) (es : List (ListenerEntry k))
      → keep (fires path event) (live es) ≡ keep (fires path event) es
  unfolding keep fires
  fires-live path event [] = refl
  fires-live path event (e ∷ es) = ground (arith, fires-live path event es)

  live-live : (es : List (ListenerEntry k)) → live (live es) ≡ live es
  unfolding keep
  live-live [] = refl
  live-live (e ∷ es) = ground (arith, live-live es)

  live-visited :
      (path : String) (event : ServiceEventKind) (es : List (ListenerEntry k))
      → live (map (visited path event) (live es)) ≡ live (map (visited path event) es)
  unfolding keep visited
  live-visited path event [] = refl
  live-visited path event (e ∷ es) = ground (arith, live-visited path event es)

  emit-blocked :
      (hub : DogEventHub k) (m : Emission k)
      → passes hub.publish m ≡ false
      → snapshot_emit hub m.path m.event m.payload m.ctx ≡ ([], hub)
  unfolding snapshot_emit allowed
  emit-blocked hub m h = ground (arith, h)

  counted-publish :
      (hub : DogEventHub k) (es : List (ListenerEntry k)) → (counted hub es).publish ≡ hub.publish
  unfolding counted prune_once_listeners
  counted-publish hub es = ground arith

  counted-live :
      (hub : DogEventHub k) (es : List (ListenerEntry k))
      → live (counted hub es).listeners ≡ live es
  unfolding counted prune_once_listeners
  counted-live hub es = ground (arith, live-live es)

  emit-passed :
      (hub : DogEventHub k) (m : Emission k)
      → passes hub.publish m ≡ true
      → snapshot_emit hub m.path m.event m.payload m.ctx ≡ (
        keep (fires m.path m.event) hub.listeners,
        counted hub (map (visited m.path m.event) hub.listeners),
      )
  unfolding snapshot_emit allowed
  emit-passed hub m h = ground (arith, h, visit_lem m.path m.event hub.listeners)

  fires_same :
      (path : String) (event : ServiceEventKind) (es fs : List (ListenerEntry k))
      → live es ≡ live fs
      → keep (fires path event) es ≡ keep (fires path event) fs
  fires_same path event es fs h =
      sym (fires-live path event es) ∙ ap (keep (fires path event)) h ∙ fires-live path event fs

  visited_same :
      (path : String) (event : ServiceEventKind) (es fs : List (ListenerEntry k))
      → live es ≡ live fs
      → live (map (visited path event) es) ≡ live (map (visited path event) fs)
  visited_same path event es fs h =
      sym (live-visited path event es)
      ∙ ap (λ l. live (map (visited path event) l)) h
      ∙ live-visited path event fs

  emit_all-live :
      (hub : DogEventHub k) (es : List (ListenerEntry k)) (ms : List (Emission k))
      → live hub.listeners ≡ live es
      → (emit_all hub ms).0 ≡ marked_deliveries hub.publish es ms
  unfolding emit_all marked_deliveries
  emit_all-live hub es [] same = refl
  emit_all-live hub es (m ∷ ms) same = elim (Bool-cases (passes hub.publish m)) [
    | inl pass ↦
        let hub' = counted hub (map (visited m.path m.event) hub.listeners) in
        let rest =
          emit_all-live hub' (map (visited m.path m.event) es) ms
            (counted-live hub _ ∙ visited_same m.path m.event hub.listeners es same) in
        rw (emit-passed hub m pass, pass, fires_same m.path m.event hub.listeners es same)
          (ap (λ l. keep (fires m.path m.event) es ∷ l)
            (rest
              ∙ ap (λ p. marked_deliveries p (map (visited m.path m.event) es) ms)
                  (counted-publish hub _)))
    | inr block ↦
        rw (emit-blocked hub m block, block) (ap (λ l. [] ∷ l) (emit_all-live hub es ms same))
  ]

  -- An entry after the emissions.
  unfoldable seen : List (Emission k) → ListenerEntry k → ListenerEntry k
  seen earlier e =
      if e.once && any (λ (n : Emission k). matches e.pattern n.path n.event) earlier
      then record e { called = true }
      else e

  visited-seen_one :
      (m : Emission k) (earlier : List (Emission k)) (e : ListenerEntry k)
      → visited m.path m.event (seen earlier e) ≡ seen (m ∷ earlier) e
  unfolding seen visited any
  visited-seen_one m earlier e = ground arith

  seen-none : (es : List (ListenerEntry k)) → map (seen []) es ≡ es
  unfolding seen any
  seen-none [] = refl
  seen-none (e ∷ es) = ground (arith, seen-none es)

  visited-seen :
      (m : Emission k) (earlier : List (Emission k)) (es : List (ListenerEntry k))
      → map (visited m.path m.event) (map (seen earlier) es) ≡ map (seen (m ∷ earlier)) es
  visited-seen m earlier [] = refl
  visited-seen m earlier (e ∷ es) =
      ap (λ x. x ∷ map (visited m.path m.event) (map (seen earlier) es))
        (visited-seen_one m earlier e)
      ∙ ap (λ l. seen (m ∷ earlier) e ∷ l) (visited-seen m earlier es)

  fires-seen :
      (m : Emission k) (earlier : List (Emission k)) (es : List (ListenerEntry k))
      → keep (fires m.path m.event) (map (seen earlier) es) ≡ keep (due earlier m) es
  unfolding seen fires due keep
  fires-seen m earlier [] = refl
  fires-seen m earlier (e ∷ es) = ground (arith, fires-seen m earlier es)

  marked-seen :
      (publish : Option (PublishFn k)) (es : List (ListenerEntry k))
      (earlier ms : List (Emission k))
      → marked_deliveries publish (map (seen earlier) es) ms ≡ deliveries publish es earlier ms
  unfolding marked_deliveries deliveries
  marked-seen publish es earlier [] = refl
  marked-seen publish es earlier (m ∷ ms) = elim (Bool-cases (passes publish m)) [
    | inl pass ↦
        rw (pass, fires-seen m earlier es, visited-seen m earlier es)
          (ap (λ l. keep (due earlier m) es ∷ l) (marked-seen publish es (m ∷ earlier) ms))
    | inr block ↦ rw block (ap (λ l. [] ∷ l) (marked-seen publish es earlier ms))
  ]

  emit_all-marked :
      (hub : DogEventHub k) (ms : List (Emission k))
      → (emit_all hub ms).0 ≡ marked_deliveries hub.publish hub.listeners ms
  emit_all-marked hub ms = emit_all-live hub hub.listeners ms refl

  -- Over any sequence of emissions, and although the hub prunes its entries, each emission that the gate
  -- lets pass calls the entries of the start that match it, in the order of their registration, but
  -- for those registered for one event that have been called before or have matched an earlier
  -- emission that passed; an emission that does not pass calls none.
  pub emit_all-deliveries :
      (hub : DogEventHub k) (ms : List (Emission k))
      → (emit_all hub ms).0 ≡ deliveries hub.publish hub.listeners [] ms
  emit_all-deliveries hub ms =
      emit_all-marked hub ms
      ∙ ap (λ es. marked_deliveries hub.publish es ms) (sym (seen-none hub.listeners))
      ∙ marked-seen hub.publish hub.listeners [] ms
