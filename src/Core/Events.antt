-- ===== src/Core/Events.antt =====
-- dog-core/src/events.rs: the hub of events, with its patterns. A hub that is shared is a value that an
-- operation returns; `fresh` is the identifier that the counter of the process gives a listener.
pub mod Delivery
pub mod Pattern
use dogrs.Base.{
  ℕ, suc, ◌+◌, ◌-◌, ◌%◌, ◌^◌, ◌≡◌, ◌↔◌, String, Bool, true, false, not, ◌&&◌, Option, none, some,
  List, [], ◌∷◌, ◌++◌, if◌then◌else◌, eqb, keep, length, map, Eq, ◌==◌, string_eq, str_beq,
  str_beq_iff, arith,
}
use dogrs.Core.Hooks.{HookContext, HookResult}
use dogrs.Core.Kit.{Kit}
use dogrs.Core.Service.{ServiceMethodKind}

pub data ServiceEventKind : Type 0 where
  created updated patched removed : ServiceEventKind
  custom : String → ServiceEventKind

abbrev event_beq : ServiceEventKind → ServiceEventKind → Bool
event_beq ServiceEventKind.created ServiceEventKind.created = true
event_beq ServiceEventKind.updated ServiceEventKind.updated = true
event_beq ServiceEventKind.patched ServiceEventKind.patched = true
event_beq ServiceEventKind.removed ServiceEventKind.removed = true
event_beq (ServiceEventKind.custom a) (ServiceEventKind.custom b) = str_beq a b
event_beq _ _ = false

pub event_beq_iff : (a b : ServiceEventKind) → (event_beq a b ≡ true) ↔ (a ≡ b)
event_beq_iff (ServiceEventKind.custom a) (ServiceEventKind.custom b) =
    ground (arith, str_beq_iff a b)
event_beq_iff a b = ground arith

instance abbrev pub event_eq : Eq ServiceEventKind
event_eq = record { beq = event_beq; beq_iff = event_beq_iff }

pub data ServiceEventData (k : Kit) : Type 0 where
  standard : HookResult k.Item → ServiceEventData k
  custom : k.Payload → ServiceEventData k

pub data ServiceNamePat : Type 0 where
  any : ServiceNamePat
  exact : String → ServiceNamePat

pub data EventPat : Type 0 where
  any : EventPat
  exact : ServiceEventKind → EventPat

pub record ServiceEventPattern : Type 0 where
  pub service : ServiceNamePat
  pub event : EventPat

-- `ServiceEventPattern::exact`.
unfoldable pub exact_pattern : String → ServiceEventKind → ServiceEventPattern
exact_pattern service event = record {
  service = ServiceNamePat.exact service;
  event = EventPat.exact event;
}

abbrev service_beq : ServiceNamePat → ServiceNamePat → Bool
service_beq ServiceNamePat.any ServiceNamePat.any = true
service_beq (ServiceNamePat.exact s) (ServiceNamePat.exact t) = s == t
service_beq _ _ = false

abbrev pattern_beq : EventPat → EventPat → Bool
pattern_beq EventPat.any EventPat.any = true
pattern_beq (EventPat.exact e) (EventPat.exact f) = e == f
pattern_beq _ _ = false

-- `PartialEq` of patterns.
unfoldable pub same_pattern : ServiceEventPattern → ServiceEventPattern → Bool
same_pattern p q = service_beq p.service q.service && pattern_beq p.event q.event

abbrev service_ok : ServiceNamePat → String → Bool
service_ok ServiceNamePat.any path = true
service_ok (ServiceNamePat.exact s) path = s == path

abbrev event_ok : EventPat → ServiceEventKind → Bool
event_ok EventPat.any event = true
event_ok (EventPat.exact e) event = e == event

unfoldable pub matches : ServiceEventPattern → String → ServiceEventKind → Bool
matches p path event = service_ok p.service path && event_ok p.event event

pub record ListenerEntry (k : Kit) : Type 0 where
  pub id : ℕ
  pub pattern : ServiceEventPattern
  pub listener : k.Listener
  pub once : Bool
  pub called : Bool

abbrev pub PublishFn : Kit → Type 0
PublishFn k = String → ServiceEventKind → ServiceEventData k → HookContext k → Bool

pub record DogEventHub (k : Kit) : Type 0 where
  pub listeners : List (ListenerEntry k)
  pub emit_count : ℕ
  pub publish : Option (PublishFn k)

abbrev prune_interval : ℕ
prune_interval = 256

-- An entry that will be skipped for good.
abbrev pub is_spent : {k : Kit} → ListenerEntry k → Bool
is_spent e = e.once && e.called

-- Whether the entry is not that of the identifier.
abbrev pub is_other : {k : Kit} → ℕ → ListenerEntry k → Bool
is_other id e = not (eqb e.id id)

module _ {k : Kit} where
  unfoldable pub new_hub : DogEventHub k
  new_hub = record { listeners = []; emit_count = 0; publish = none }

  unfoldable pub set_publish : DogEventHub k → PublishFn k → DogEventHub k
  set_publish hub f = record hub { publish = some f }

  unfoldable pub clear_publish : DogEventHub k → DogEventHub k
  clear_publish hub = record hub { publish = none }

  unfoldable pub add_listener :
      DogEventHub k → ServiceEventPattern → k.Listener → Bool → ℕ → DogEventHub k
  add_listener hub pattern listener once fresh =
      let entry : ListenerEntry k = record {
        id = fresh;
        pattern = pattern;
        listener = listener;
        once = once;
        called = false;
      } in
      record hub { listeners = hub.listeners ++ entry ∷ [] }

  unfoldable pub on_pattern :
      DogEventHub k → ServiceEventPattern → k.Listener → ℕ → ℕ × DogEventHub k
  on_pattern hub pattern listener fresh = (fresh, add_listener hub pattern listener false fresh)

  unfoldable pub once_pattern :
      DogEventHub k → ServiceEventPattern → k.Listener → ℕ → ℕ × DogEventHub k
  once_pattern hub pattern listener fresh = (fresh, add_listener hub pattern listener true fresh)

  unfoldable pub on_exact :
      DogEventHub k → String → ServiceEventKind → k.Listener → ℕ → ℕ × DogEventHub k
  on_exact hub path event listener fresh = on_pattern hub (exact_pattern path event) listener fresh

  -- The source tells by the lengths whether an entry is gone.
  unfoldable pub off : DogEventHub k → ℕ → Bool × DogEventHub k
  off hub id =
      let rest = keep (is_other id) hub.listeners in
      (not (eqb (length hub.listeners) (length rest)), record hub { listeners = rest })

  -- With the number of entries that it has removed.
  unfoldable pub remove_all : DogEventHub k → Option ServiceEventPattern → ℕ × DogEventHub k
  remove_all hub pattern =
      let rest : List (ListenerEntry k) = elim pattern [
        | none ↦ []
        | some p ↦ keep (λ (e : ListenerEntry k). not (same_pattern e.pattern p)) hub.listeners
      ] in
      (length hub.listeners - length rest, record hub { listeners = rest })

  unfoldable pub prune_once_listeners : DogEventHub k → DogEventHub k
  prune_once_listeners hub = record hub {
    listeners = keep (λ (e : ListenerEntry k). not (is_spent e)) hub.listeners;
  }

  -- Whether the entry's listener is called; `called.swap(true)` is reached only for a once-listener.
  unfoldable pub fires : String → ServiceEventKind → ListenerEntry k → Bool
  fires path event e = matches e.pattern path event && not (is_spent e)

  unfoldable pub visited : String → ServiceEventKind → ListenerEntry k → ListenerEntry k
  visited path event e =
      if matches e.pattern path event && e.once then record e { called = true } else e

  -- The loop over the entries: those whose listeners are to be called, and all entries afterwards.
  unfoldable pub visit :
      String
      → ServiceEventKind
      → List (ListenerEntry k)
      → List (ListenerEntry k) × List (ListenerEntry k)
  visit path event [] = ([], [])
  visit path event (e ∷ es) =
      let (to_call, rest) = visit path event es in
      (if fires path event e then e ∷ to_call else to_call, visited path event e ∷ rest)

  -- The gate, which delivers where there is none.
  unfoldable pub allowed :
      DogEventHub k → String → ServiceEventKind → ServiceEventData k → HookContext k → Bool
  allowed hub path event payload ctx = elim hub.publish [
    | none ↦ true
    | some publish ↦ publish path event payload ctx
  ]

  -- After the loop: the counter, and a prune at every 256th emission.
  unfoldable pub counted : DogEventHub k → List (ListenerEntry k) → DogEventHub k
  counted hub entries =
      let count = hub.emit_count in
      let hub' = record hub { listeners = entries; emit_count = (count + 1) % 2 ^ 32 } in
      if eqb (count % prune_interval) (prune_interval - 1) then prune_once_listeners hub' else hub'

  unfoldable pub snapshot_emit :
      DogEventHub k
      → String
      → ServiceEventKind
      → ServiceEventData k
      → HookContext k
      → List (ListenerEntry k) × DogEventHub k
  snapshot_emit hub path event payload ctx =
      if allowed hub path event payload ctx
      then (let (to_call, entries) = visit path event hub.listeners in
          (to_call, counted hub entries))
      else ([], hub)

-- `method_to_standard_event`.
unfoldable pub method_to_standard_event : ServiceMethodKind → Option ServiceEventKind
method_to_standard_event ServiceMethodKind.create = some ServiceEventKind.created
method_to_standard_event ServiceMethodKind.update = some ServiceEventKind.updated
method_to_standard_event ServiceMethodKind.patch = some ServiceEventKind.patched
method_to_standard_event ServiceMethodKind.remove = some ServiceEventKind.removed
method_to_standard_event _ = none
