-- ===== src/Queue/Memory/Invariant/Jobs.antt =====
-- The invariant when a record is stored.
use dogrs.Base.{
  ◌≡◌, ◌⊎◌, refl, inl, inr, ap, subst, ◌∙◌, sym, String, false, none, some, List, [], ◌∷◌, arith,
  ◌==◌, string_eq, All, str_beq_iff, Bool-cases,
}
use dogrs.Dict
use dogrs.Dict.{Dict, get-put, put-IsWf}
use dogrs.Queue.Memory.Dequeue.{is_waiting}
use dogrs.Queue.Memory.Reaper.{Requeue}
use dogrs.Queue.Memory.Invariant.{Fits, FitsJob, Owned, OwnedTicket, count_pending}
use dogrs.Queue.Order.{QueueEntry}
use dogrs.Queue.Order.Laws.{count}
use dogrs.Queue.Record.{JobId, JobRecord}

-- What no operation changes of a record.
pub record Same (r r' : JobRecord) : Type 0 where
  pub job_id : r'.job_id ≡ r.job_id
  pub tenant_id : r'.tenant_id ≡ r.tenant_id
  pub message : r'.message ≡ r.message

-- The record behind an owned entry.
pub Owned-Fits :
    (jobs : Dict JobId JobRecord) (tenant name : String) (e : QueueEntry) (r : JobRecord)
    → Dict.get jobs e.job_id ≡ some r
    → Owned jobs tenant name e
    → Fits r tenant name e
Owned-Fits jobs tenant name e r found o = subst (λ x. FitsJob x tenant name e) found o

Fits-Owned :
    (jobs : Dict JobId JobRecord) (tenant name : String) (e : QueueEntry) (r : JobRecord)
    → Dict.get jobs e.job_id ≡ some r
    → Fits r tenant name e
    → Owned jobs tenant name e
Fits-Owned jobs tenant name e r found f = subst (λ x. FitsJob x tenant name e) (sym found) f

Fits-Same :
    (r r' : JobRecord) (tenant name : String) (e : QueueEntry)
    → Same r r'
    → is_waiting r'.status ≡ false
    → Fits r tenant name e
    → Fits r' tenant name e
Fits-Same r r' tenant name e same quiet f = record {
  same_tenant = ground arith;
  same_queue = ground arith;
  same_priority = ground arith;
  same_time = λ w. cc;
}

module _ (jobs : Dict JobId JobRecord) (id : JobId) (r r' : JobRecord) where
  pub Owned-put :
      (tenant name : String) (e : QueueEntry)
      → Dict.get jobs id ≡ some r
      → Same r r'
      → (is_waiting r'.status ≡ false) ⊎ ((e.job_id == id) ≡ false)
      → Owned jobs tenant name e
      → Owned (Dict.put jobs id r') tenant name e
  Owned-put tenant name e found same quiet o = elim (Bool-cases (id == e.job_id)) [
    | inl hit ↦
        let at : Dict.get jobs e.job_id ≡ some r = ground (arith, str_beq_iff id e.job_id) in
        let at' : Dict.get (Dict.put jobs id r') e.job_id ≡ some r' =
          ground (arith, get-put jobs id e.job_id r') in
        let still : is_waiting r'.status ≡ false =
          ground (arith, str_beq_iff id e.job_id, str_beq_iff e.job_id id) in
        Fits-Owned (Dict.put jobs id r') tenant name e r' at'
          (Fits-Same r r' tenant name e same still (Owned-Fits jobs tenant name e r at o))
    | inr miss ↦ rw (get-put, miss) o
  ]

  pub All-Owned-put :
      (tenant name : String) (q : List QueueEntry)
      → Dict.get jobs id ≡ some r
      → Same r r'
      → (is_waiting r'.status ≡ false) ⊎ (count id q ≡ 0)
      → All (Owned jobs tenant name) q
      → All (Owned (Dict.put jobs id r') tenant name) q
  unfolding count
  All-Owned-put tenant name [] found same quiet a = tt
  All-Owned-put tenant name (e ∷ q) found same (inl h) a = (
    Owned-put tenant name e found same (inl h) a.0,
    All-Owned-put tenant name q found same (inl h) a.1,
  )
  All-Owned-put tenant name (e ∷ q) found same (inr h) a = (
    Owned-put tenant name e found same (inr (ground arith)) a.0,
    All-Owned-put tenant name q found same (inr (ground arith)) a.1,
  )

-- A job that is not there has no entry.
pub All-Owned-new :
    (jobs : Dict JobId JobRecord) (id : JobId) (r' : JobRecord) (tenant name : String)
    (q : List QueueEntry)
    → Dict.get jobs id ≡ none
    → All (Owned jobs tenant name) q
    → All (Owned (Dict.put jobs id r') tenant name) q × (count id q ≡ 0)
unfolding count
All-Owned-new jobs id r' tenant name [] fresh a = (tt, refl)
All-Owned-new jobs id r' tenant name (e ∷ q) fresh a =
    let rest = All-Owned-new jobs id r' tenant name q fresh a.1 in
    elim (Bool-cases (id == e.job_id)) [
      | inl hit ↦ absurd (
          subst (λ x. FitsJob x tenant name e)
            (ap (Dict.get jobs) (sym ((str_beq_iff id e.job_id).0 hit)) ∙ fresh) a.0)
      | inr miss ↦ (
        (rw (get-put, miss) a.0, rest.0),
        ground (arith, str_beq_iff id e.job_id, str_beq_iff e.job_id id, rest.1),
      )
    ]

-- All entries of a job are in the queue of its record.
pub count-elsewhere :
    (jobs : Dict JobId JobRecord) (id : JobId) (r : JobRecord) (tenant name : String)
    (q : List QueueEntry)
    → Dict.get jobs id ≡ some r
    → (r.tenant_id ≡ tenant → r.message.queue ≡ name → ⊥)
    → All (Owned jobs tenant name) q
    → count id q ≡ 0
unfolding count
count-elsewhere jobs id r tenant name [] found off a = refl
count-elsewhere jobs id r tenant name (e ∷ q) found off a = elim (Bool-cases (e.job_id == id)) [
  | inl hit ↦
      let at : Dict.get jobs e.job_id ≡ some r = ground (arith, str_beq_iff e.job_id id) in
      let f = Owned-Fits jobs tenant name e r at a.0 in absurd (off f.same_tenant f.same_queue)
  | inr miss ↦ ground (arith, count-elsewhere jobs id r tenant name q found off a.1)
]

-- The same for pending entries.
pub tickets-put :
    (jobs : Dict JobId JobRecord) (id : JobId) (r r' : JobRecord) (p : List Requeue)
    → Dict.get jobs id ≡ some r
    → Same r r'
    → (is_waiting r'.status ≡ false) ⊎ (count_pending id p ≡ 0)
    → All (OwnedTicket jobs) p
    → All (OwnedTicket (Dict.put jobs id r')) p
unfolding count_pending
tickets-put jobs id r r' [] found same quiet a = tt
tickets-put jobs id r r' (k ∷ p) found same (inl h) a = (
  Owned-put jobs id r r' k.tenant k.queue k.entry found same (inl h) a.0,
  tickets-put jobs id r r' p found same (inl h) a.1,
)
tickets-put jobs id r r' (k ∷ p) found same (inr h) a = (
  Owned-put jobs id r r' k.tenant k.queue k.entry found same (inr (ground arith)) a.0,
  tickets-put jobs id r r' p found same (inr (ground arith)) a.1,
)

pub tickets-new :
    (jobs : Dict JobId JobRecord) (id : JobId) (r' : JobRecord) (p : List Requeue)
    → Dict.get jobs id ≡ none
    → All (OwnedTicket jobs) p
    → All (OwnedTicket (Dict.put jobs id r')) p × (count_pending id p ≡ 0)
unfolding count_pending count
tickets-new jobs id r' [] fresh a = (tt, refl)
tickets-new jobs id r' (k ∷ p) fresh a =
    let rest = tickets-new jobs id r' p fresh a.1 in
    let head = All-Owned-new jobs id r' k.tenant k.queue (k.entry ∷ []) fresh (a.0, tt) in
    ((head.0.0, rest.0), omega (arith, head.1, rest.1))
