-- ===== src/Queue/Memory/Lifecycle.antt =====
-- The state machine of a job, and that every operation of the in-memory backend moves each record
-- along it.
pub mod Calls
use dogrs.Base.{
  ℕ, ◌+◌, ◌%◌, ◌^◌, ◌≡◌, refl, inl, inr, ap, ◌∙◌, sym, String, true, false, Option, none, some,
  arith, ◌==◌, string_eq, str_beq_iff, Bool-cases,
}
use dogrs.Dict
use dogrs.Dict.{Dict, get-put}
use dogrs.Queue.Memory.{MemoryBackend, put_job}
use dogrs.Queue.Memory.Dequeue.{is_waiting}
use dogrs.Queue.Memory.Invariant.Jobs.{Same}
use dogrs.Queue.Record.{JobId, JobRecord, JobStatus, LeaseToken, is_processing, is_terminal}

-- The moves of a record. What is not named in `Same` and not said here may be any value.
pub data Evolves (r r' : JobRecord) : Type 0 where
  stays : r' ≡ r → Evolves r r'
  leases :
      (token : LeaseToken) (until : ℕ)
      → Same r r'
      → is_waiting r.status ≡ true
      → r'.status ≡ JobStatus.processing until
      → r'.lease_token ≡ some token
      → r'.attempt ≡ (r.attempt + 1) % 2 ^ 32
      → Evolves r r'
  extends :
      (until extra : ℕ)
      → Same r r'
      → r.status ≡ JobStatus.processing until
      → r'.status ≡ JobStatus.processing (until + extra)
      → r'.lease_token ≡ r.lease_token
      → r'.attempt ≡ r.attempt
      → Evolves r r'
  completes :
      (at : ℕ)
      → Same r r'
      → is_processing r.status ≡ true
      → r'.status ≡ JobStatus.completed at
      → r'.lease_token ≡ none
      → r'.attempt ≡ r.attempt
      → Evolves r r'
  retries :
      (at : ℕ)
      → Same r r'
      → is_processing r.status ≡ true
      → r'.status ≡ JobStatus.retrying at
      → r'.lease_token ≡ none
      → r'.attempt ≡ r.attempt
      → Evolves r r'
  fails :
      (at : ℕ) (error : String)
      → Same r r'
      → is_processing r.status ≡ true
      → r'.status ≡ JobStatus.failed at error
      → r'.lease_token ≡ none
      → r'.attempt ≡ r.attempt
      → Evolves r r'
  cancels :
      (at : ℕ)
      → Same r r'
      → is_terminal r.status ≡ false
      → r'.status ≡ JobStatus.canceled at
      → r'.lease_token ≡ none
      → r'.attempt ≡ r.attempt
      → Evolves r r'

-- No job is deleted, and each moves along the state machine.
abbrev pub Evolved : Dict JobId JobRecord → Dict JobId JobRecord → Type 0
Evolved jobs jobs' =
    (id : JobId) (r : JobRecord)
    → Dict.get jobs id ≡ some r
    → (r' : JobRecord) × (Dict.get jobs' id ≡ some r') × Evolves r r'

pub Evolved-refl : (jobs : Dict JobId JobRecord) → Evolved jobs jobs
Evolved-refl jobs id r found = (r, found, stays refl)

pub put-Evolved :
    (jobs : Dict JobId JobRecord) (id : JobId) (r r' : JobRecord)
    → Dict.get jobs id ≡ some r
    → Evolves r r'
    → Evolved jobs (Dict.put jobs id r')
put-Evolved jobs id r r' found move j s e = elim (Bool-cases (id == j)) [
  | inl hit ↦
      let same : r ≡ s = ground (arith, str_beq_iff id j) in
      (r', ground (arith, get-put jobs id j r'), rw (← same) move)
  | inr miss ↦ (s, ground (arith, get-put jobs id j r'), stays refl)
]

pub put_new-Evolved :
    (jobs : Dict JobId JobRecord) (id : JobId) (r' : JobRecord)
    → Dict.get jobs id ≡ none
    → Evolved jobs (Dict.put jobs id r')
put_new-Evolved jobs id r' fresh j s e =
    (s, ground (arith, get-put jobs id j r', str_beq_iff id j), stays refl)

-- A record at its end never moves again.
pub Evolves-terminal : (r r' : JobRecord) → is_terminal r.status ≡ true → Evolves r r' → r' ≡ r
Evolves-terminal r r' end (stays e) = e
Evolves-terminal r r' end (leases token until same w s t a) = ground arith
Evolves-terminal r r' end (extends until extra same s s' t a) = ground arith
Evolves-terminal r r' end (completes at same p s t a) = ground arith
Evolves-terminal r r' end (retries at same p s t a) = ground arith
Evolves-terminal r r' end (fails at error same p s t a) = ground arith
Evolves-terminal r r' end (cancels at same p s t a) = ground arith
