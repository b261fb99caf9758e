-- ===== src/Queue/Memory/Checks.antt =====
-- When the checks of an operation on one job let it through.
use dogrs.Base.{
  ℕ, ◌≡◌, ◌↔◌, ap, ◌∙◌, sym, true, false, Option, none, some, arith, string_eq, str_beq_iff,
  str_beq_refl,
}
use dogrs.Dict
use dogrs.Queue.Ctx.{QueueCtx}
use dogrs.Queue.Error.{ok, bind_inv}
use dogrs.Queue.Memory.{MemoryBackend}
use dogrs.Queue.Memory.Ack.{find_job, holds, in_time, require_lease, owned_lease}
use dogrs.Queue.Record.{JobId, LeaseToken, JobRecord, is_terminal, lease_until}

-- The caller's tenant owns the job.
pub record Visible (b : MemoryBackend) (ctx : QueueCtx) (id : JobId) (r : JobRecord) : Type 0 where
  pub found : Dict.get b.jobs id ≡ some r
  pub tenant : r.tenant_id ≡ ctx.tenant_id

-- The caller holds the job's lease, and the lease still runs.
pub record Held (b : MemoryBackend) (ctx : QueueCtx) (id : JobId) (token : LeaseToken) (now : ℕ)
    (r : JobRecord) : Type 0 where
  pub found : Dict.get b.jobs id ≡ some r
  pub tenant : r.tenant_id ≡ ctx.tenant_id
  pub live : is_terminal r.status ≡ false
  pub held : r.lease_token ≡ some token
  pub timely : in_time (lease_until r) now ≡ true

pub find_job_iff :
    (b : MemoryBackend) (ctx : QueueCtx) (id : JobId) (r : JobRecord)
    → (find_job b ctx id ≡ ok r) ↔ Visible b ctx id r
unfolding find_job
find_job_iff b ctx id r = (to, λ v. ground (arith, v.found, v.tenant, str_beq_refl ctx.tenant_id))
  where
    to : find_job b ctx id ≡ ok r → Visible b ctx id r
    to h = record {
      found = ground arith;
      tenant = ground (arith, str_beq_iff r.tenant_id ctx.tenant_id);
    }

require_lease_inv :
    (r s : JobRecord) (id : JobId) (token : LeaseToken) (now : ℕ)
    → require_lease r id token now ≡ ok s
    → (r ≡ s)
      × (is_terminal r.status ≡ false)
      × (holds r.lease_token token ≡ true)
      × (in_time (lease_until r) now ≡ true)
unfolding require_lease
require_lease_inv r s id token now h = ground arith

require_lease-ok :
    (r : JobRecord) (id : JobId) (token : LeaseToken) (now : ℕ)
    → is_terminal r.status ≡ false
    → holds r.lease_token token ≡ true
    → in_time (lease_until r) now ≡ true
    → require_lease r id token now ≡ ok r
unfolding require_lease
require_lease-ok r id token now live held timely = ground arith

pub holds→eq : (o : Option LeaseToken) (token : LeaseToken) → holds o token ≡ true → o ≡ some token
holds→eq none token h = cc
holds→eq (some t) token h = ap some ((str_beq_iff t token).0 h)

pub eq→holds : (o : Option LeaseToken) (token : LeaseToken) → o ≡ some token → holds o token ≡ true
eq→holds o token e = rw e (str_beq_refl token)

-- The checks of an acknowledgement let through exactly the holder of a running lease.
pub owned_lease_iff :
    (b : MemoryBackend) (ctx : QueueCtx) (id : JobId) (token : LeaseToken) (now : ℕ) (r : JobRecord)
    → (owned_lease b ctx id token now ≡ ok r) ↔ Held b ctx id token now r
unfolding owned_lease
owned_lease_iff b ctx id token now r = (to, from)
  where
    to : owned_lease b ctx id token now ≡ ok r → Held b ctx id token now r
    to h =
        let (s, found, checked) =
          bind_inv (find_job b ctx id) (λ s. require_lease s id token now) h in
        let seen = (find_job_iff b ctx id s).0 found in
        let (same, live, held, timely) = require_lease_inv s r id token now checked in
        record {
          found = seen.found ∙ ap some same;
          tenant = sym (ap (λ (x : JobRecord). x.tenant_id) same) ∙ seen.tenant;
          live = rw (← same) live;
          held = rw (← same) (holds→eq s.lease_token token held);
          timely = rw (← same) timely;
        }

    from : Held b ctx id token now r → owned_lease b ctx id token now ≡ ok r
    from v =
        let found = (find_job_iff b ctx id r).1 (record { found = v.found; tenant = v.tenant }) in
        rw (found, owned_lease)
          (require_lease-ok r id token now v.live (eq→holds r.lease_token token v.held) v.timely)
