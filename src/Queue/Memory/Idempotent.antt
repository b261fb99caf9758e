-- ===== src/Queue/Memory/Idempotent.antt =====
-- What an idempotency key promises.
use dogrs.Base.{ℕ, ◌≡◌, refl, inl, inr, false, none, some, Option-cases, string_eq}
use dogrs.Dict
use dogrs.Dict.{get-put_self}
use dogrs.Queue.Ctx.{QueueCtx}
use dogrs.Queue.Error.{ok}
use dogrs.Queue.Memory.{
  MemoryBackend, Scope, scope_eq, scope_of, existing, enqueue, enqueue_new, register_key, put_job,
  insert_entry, send,
}
use dogrs.Queue.Record.{JobId, JobMessage, JobRecord, is_terminal, new_record}

existing-live :
    (b : MemoryBackend) (s : Scope) (id : JobId) (r : JobRecord)
    → Dict.get b.idempotency s ≡ some id
    → Dict.get b.jobs id ≡ some r
    → is_terminal r.status ≡ false
    → existing b (some s) ≡ some id
unfolding existing
existing-live b s id r named found live = rw (existing, named) (rw (found) (rw live refl))

existing-new :
    (b : MemoryBackend) (ctx : QueueCtx) (m : JobMessage) (id : JobId) (now stamp : ℕ) (s : Scope)
    → scope_of ctx m ≡ some s
    → existing (enqueue_new b ctx m id now stamp) (some s) ≡ some id
unfolding enqueue_new send put_job insert_entry register_key new_record
existing-new b ctx m id now stamp s scoped =
    existing-live (enqueue_new b ctx m id now stamp) s id (new_record id ctx.tenant_id m stamp)
      (rw (scoped, register_key) (get-put_self b.idempotency s id))
      (rw (scoped, register_key) (get-put_self b.jobs id (new_record id ctx.tenant_id m stamp)))
      refl

enqueue-kept :
    (b : MemoryBackend) (ctx : QueueCtx) (m : JobMessage) (id old : JobId) (now stamp : ℕ)
    (s : Scope)
    → scope_of ctx m ≡ some s
    → existing b (some s) ≡ some old
    → enqueue b ctx m id now stamp ≡ (ok old, b)
unfolding enqueue
enqueue-kept b ctx m id old now stamp s scoped h = rw (scoped, enqueue, h) refl

enqueue-added :
    (b : MemoryBackend) (ctx : QueueCtx) (m : JobMessage) (id : JobId) (now stamp : ℕ) (s : Scope)
    → scope_of ctx m ≡ some s
    → existing b (some s) ≡ none
    → enqueue b ctx m id now stamp ≡ (ok id, enqueue_new b ctx m id now stamp)
unfolding enqueue
enqueue-added b ctx m id now stamp s scoped h = rw (scoped, enqueue, h) refl

-- An idempotency key takes effect at once: a second message with the key of the first, for the
-- same tenant, queue and type, gets the first one's job, and changes nothing.
pub enqueue-again :
    (b : MemoryBackend) (ctx : QueueCtx) (m m' : JobMessage) (id id' old : JobId)
    (now stamp now' stamp' : ℕ) (s : Scope)
    → scope_of ctx m ≡ some s
    → scope_of ctx m' ≡ some s
    → (enqueue b ctx m id now stamp).0 ≡ ok old
    → enqueue (enqueue b ctx m id now stamp).1 ctx m' id' now' stamp'
      ≡ (ok old, (enqueue b ctx m id now stamp).1)
enqueue-again b ctx m m' id id' old now stamp now' stamp' s scoped scoped' said =
    elim (Option-cases (existing b (some s))) [
      | inr (kept, h) ↦
          let first = enqueue-kept b ctx m id kept now stamp s scoped h in
          let same : kept ≡ old = ok_inv kept old (rw first at said) in
          rw (first, ← same) (enqueue-kept b ctx m' id' kept now' stamp' s scoped' h)
      | inl h ↦
          let first = enqueue-added b ctx m id now stamp s scoped h in
          let same : id ≡ old = ok_inv id old (rw first at said) in
          rw (first, ← same)
            (enqueue-kept (enqueue_new b ctx m id now stamp) ctx m' id' id now' stamp' s scoped'
              (existing-new b ctx m id now stamp s scoped))
    ]
  where
    ok_inv : (x y : JobId) → ok x ≡ ok y → x ≡ y
    ok_inv x y e = cc
