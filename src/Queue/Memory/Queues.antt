-- ===== src/Queue/Memory/Queues.antt =====
-- The queues of all tenants seen as one list of entries for each tenant and queue name.
use dogrs.Base.{
  ℕ, ◌≡◌, refl, ◌∙◌, inl, inr, String, true, false, Option, none, some, List, [], ◌∷◌, arith, ◌==◌,
  string_eq, if◌then◌else◌, is_empty, str_beq_iff, str_beq_refl, ◌&&◌, Option-cases,
}
use dogrs.Dict
use dogrs.Dict.{Dict, get-put, get-remove, get-empty, is_empty-get}
use dogrs.Queue.Memory.{TenantQueues, push_entry}
use dogrs.Queue.Memory.Dequeue.{pop_due, pop_queue, pop_entry}
use dogrs.Queue.Order.{QueueEntry, priority_insert, take_due}
use dogrs.Queue.Order.Laws.{Taken, NoneDue, take_due_lem, TakeResult}

abbrev Named : Type 0
Named = Dict String (List QueueEntry)

unfoldable pub entries_of : Named → String → List QueueEntry
entries_of tq name = Dict.get_or_default tq name []

unfoldable pub queue_of : TenantQueues → String → String → List QueueEntry
unfolding entries_of
queue_of queues tenant name = elim (Dict.get queues tenant) [
  | none ↦ []
  | some tq ↦ entries_of tq name
]

entries_of_lem : (tq : Named) (name : String) → entries_of tq name ≡ Dict.get_or_default tq name []
unfolding entries_of
entries_of_lem tq name = refl

entries_of-empty : (name : String) → entries_of Dict.empty name ≡ []
unfolding entries_of Dict.get_or_default
entries_of-empty name = ground (arith, get-empty {V = List QueueEntry} name)

entries_of-put :
    (tq : Named) (name name' : String) (q : List QueueEntry)
    → entries_of (Dict.put tq name q) name' ≡ (if name == name' then q else entries_of tq name')
unfolding entries_of Dict.get_or_default
entries_of-put tq name name' q = ground (arith, get-put tq name name' q)

entries_of-remove :
    (tq : Named) (name name' : String)
    → entries_of (Dict.remove tq name) name' ≡ (if name == name' then [] else entries_of tq name')
unfolding entries_of Dict.get_or_default
entries_of-remove tq name name' = ground (arith, get-remove tq name name')

queue_of-put :
    (qs : TenantQueues) (t t' name : String) (tq : Named)
    → queue_of (Dict.put qs t tq) t' name
      ≡ (if t == t' then entries_of tq name else queue_of qs t' name)
unfolding queue_of
queue_of-put qs t t' name tq = ground (arith, get-put qs t t' tq)

queue_of-remove :
    (qs : TenantQueues) (t t' name : String)
    → queue_of (Dict.remove qs t) t' name ≡ (if t == t' then [] else queue_of qs t' name)
unfolding queue_of
queue_of-remove qs t t' name = ground (arith, get-remove qs t t')

tenant_of-entries :
    (qs : TenantQueues) (t name : String)
    → entries_of (Dict.get_or_default qs t Dict.empty) name ≡ queue_of qs t name
unfolding queue_of Dict.get_or_default
tenant_of-entries qs t name = ground (arith, entries_of-empty name)

-- A pushed entry is inserted in its queue, and no other queue changes.
pub queue_of-push_entry :
    (qs : TenantQueues) (t n : String) (e : QueueEntry) (t' n' : String)
    → queue_of (push_entry qs t n e) t' n' ≡ (
        if t == t'
        then (if n == n' then priority_insert (queue_of qs t n) e else queue_of qs t' n')
        else queue_of qs t' n')
unfolding push_entry
queue_of-push_entry qs t n e t' n' =
    let tq = Dict.get_or_default qs t Dict.empty in
    let q = Dict.get_or_default tq n [] in
    ground (
      arith,
      queue_of-put qs t t' n' (Dict.put tq n (priority_insert q e)),
      entries_of-put tq n n' (priority_insert q e),
      tenant_of-entries qs t n,
      tenant_of-entries qs t n',
      str_beq_iff t t',
      entries_of_lem tq n,
    )

-- The queues of a tenant stored back as `dequeue` does it, with empty ones dropped.
store_queue :
    (tq : Named) (n n' : String) (q : List QueueEntry)
    → entries_of (if is_empty q then Dict.remove tq n else Dict.put tq n q) n'
      ≡ (if n == n' then q else entries_of tq n')
store_queue tq n n' [] = entries_of-remove tq n n'
store_queue tq n n' (e ∷ q) = entries_of-put tq n n' (e ∷ q)

entries_of-none : (tq : Named) (n : String) → Dict.is_empty tq ≡ true → entries_of tq n ≡ []
unfolding entries_of Dict.get_or_default
entries_of-none tq n h = ground (arith, is_empty-get tq n h)

store_tenant :
    (qs : TenantQueues) (t t' n : String) (tq : Named)
    → queue_of (if Dict.is_empty tq then Dict.remove qs t else Dict.put qs t tq) t' n
      ≡ (if t == t' then entries_of tq n else queue_of qs t' n)
store_tenant qs t t' n tq =
    ground (arith, queue_of-remove qs t t' n, queue_of-put qs t t' n tq, entries_of-none tq n)

-- What a pop finds, and leaves in the queue.
abbrev pub PopResult : ℕ → List QueueEntry → Option QueueEntry → List QueueEntry → Type 0
PopResult now q none q' = NoneDue now q × (q' ≡ q)
PopResult now q (some e) q' = Taken now q e q'

pop_due_lem : (q : List QueueEntry) (now : ℕ) → PopResult now q (pop_due q now).0 (pop_due q now).1
unfolding pop_due
pop_due_lem q now = go (take_due q now) (take_due_lem q now)
  where
    pack : Option (QueueEntry × List QueueEntry) → Option QueueEntry × List QueueEntry
    pack o = elim o [ none ↦ (none, q) | some (e, rest) ↦ (some e, rest) ]

    go :
        (o : Option (QueueEntry × List QueueEntry))
        → TakeResult now q o
        → PopResult now q (pack o).0 (pack o).1
    go none r = (r, refl)
    go (some (e, rest)) r = r

entries_of-some :
    (tq : Named) (n : String) (q : List QueueEntry) → Dict.get tq n ≡ some q → entries_of tq n ≡ q
unfolding entries_of Dict.get_or_default
entries_of-some tq n q h = ground arith

queue_of-some :
    (qs : TenantQueues) (t n : String) (tq : Named)
    → Dict.get qs t ≡ some tq
    → queue_of qs t n ≡ entries_of tq n
unfolding queue_of
queue_of-some qs t n tq h = ground arith

entries_of-get-none : (tq : Named) (n : String) → Dict.get tq n ≡ none → entries_of tq n ≡ []
unfolding entries_of Dict.get_or_default
entries_of-get-none tq n h = ground arith

-- A pop takes the first due entry of its queue, and touches no other queue of the tenant.
pop_queue_lem :
    (tq : Named) (n : String) (now : ℕ)
    → PopResult now (entries_of tq n) (pop_queue tq n now).0 (entries_of (pop_queue tq n now).1 n)
unfolding pop_queue
pop_queue_lem tq n now = elim (Option-cases (Dict.get tq n)) [
  | inl e ↦ rw (e, pop_queue) (rw (entries_of-get-none tq n e) (tt, refl))
  | inr (q, e) ↦
      let rest = (pop_due q now).1 in
      rw (e, pop_queue)
        (rw (store_queue tq n n rest, str_beq_refl, entries_of-some tq n q e) (pop_due_lem q now))
]

pop_queue_other :
    (tq : Named) (n : String) (now : ℕ) (n' : String)
    → (n == n') ≡ false
    → entries_of (pop_queue tq n now).1 n' ≡ entries_of tq n'
unfolding pop_queue
pop_queue_other tq n now n' h = elim (Option-cases (Dict.get tq n)) [
  | inl e ↦ rw (e, pop_queue) refl
  | inr (q, e) ↦ rw (e, pop_queue) (store_queue tq n n' (pop_due q now).1 ∙ rw h refl)
]

pub pop_entry_lem :
    (qs : TenantQueues) (t n : String) (now : ℕ)
    → PopResult now
        (queue_of qs t n)
        (pop_entry qs t n now).0
        (queue_of (pop_entry qs t n now).1 t n)
unfolding pop_entry
pop_entry_lem qs t n now = elim (Option-cases (Dict.get qs t)) [
  | inl e ↦ rw (e, pop_entry) (unfold queue_of in rw (e, queue_of) (tt, refl))
  | inr (tq, e) ↦
      let rest = (pop_queue tq n now).1 in
      rw (e, pop_entry)
        (rw (store_tenant qs t t n rest, str_beq_refl, queue_of-some qs t n tq e)
          (pop_queue_lem tq n now))
]

pub pop_entry_other :
    (qs : TenantQueues) (t n : String) (now : ℕ) (t' n' : String)
    → (t == t' && n == n') ≡ false
    → queue_of (pop_entry qs t n now).1 t' n' ≡ queue_of qs t' n'
unfolding pop_entry
pop_entry_other qs t n now t' n' h = elim (Option-cases (Dict.get qs t)) [
  | inl e ↦ rw (e, pop_entry) refl
  | inr (tq, e) ↦
      rw (e, pop_entry)
        (ground (
          arith,
          store_tenant qs t t' n' (pop_queue tq n now).1,
          str_beq_iff t t',
          queue_of-some qs t n' tq e,
          pop_queue_other tq n now n',
        ))
]
