-- ===== src/Queue/Worker/Loop.antt =====
-- `Worker::run` of dog-queue/src/adapter.rs: what the loop makes of one answer of `process_next_job`.
use dogrs.Base.{
  ℕ, ◌+◌, ◌-◌, ◌%◌, ◌^◌, ◌≤◌, ◌≡◌, ◌↔◌, refl, Bool, true, false, Option, none, some, List, [], ◌∷◌,
  leb, if◌then◌else◌, arith, All, length, ap, ◌∙◌,
}
use dogrs.Queue.Config.{QueueConfig}
use dogrs.Queue.Error.{QueueError, QueueResult, ok, err}
use dogrs.Queue.Retry.{backoff, poll_delay}

pub record WorkerState : Type 0 where
  pub idle_since : Option ℕ
  pub consecutive_errors : ℕ

-- `break`, the next iteration after a sleep, or at once.
pub data Next : Type 0 where
  stop again : Next
  sleep : ℕ → Next

-- `Option::get_or_insert_with`.
abbrev pub get_or_insert : Option ℕ → ℕ → ℕ
get_or_insert none now = now
get_or_insert (some t) now = t

-- `now` is the instant that starts a period without jobs, and `later` that of `elapsed`.
unfoldable pub on_result :
    (ℕ → ℕ) → QueueConfig → WorkerState → QueueResult Bool → ℕ → ℕ → Next × WorkerState
on_result sample c s (ok true) now later =
    (Next.again, record { idle_since = none; consecutive_errors = 0 })
on_result sample c s (ok false) now later =
    let idle_start = get_or_insert s.idle_since now in
    (
      if leb c.worker_idle_timeout (later - idle_start)
          then Next.stop
          else Next.sleep (poll_delay sample c),
      record { idle_since = some idle_start; consecutive_errors = 0 },
    )
on_result sample c s (err e) now later =
    let errors = (s.consecutive_errors + 1) % 2 ^ 32 in
    (Next.sleep (backoff c errors), record { idle_since = none; consecutive_errors = errors })

-- One iteration: the answer, and the readings of the clock.
pub record Poll : Type 0 where
  pub result : QueueResult Bool
  pub now : ℕ
  pub later : ℕ

-- The loop over the answers that it gets; `none` once it has stopped.
unfoldable pub run : (ℕ → ℕ) → QueueConfig → WorkerState → List Poll → Option WorkerState
run sample c s [] = some s
run sample c s (p ∷ ps) =
    let (next, s') = on_result sample c s p.result p.now p.later in
    let rest = run sample c s' ps in elim next [ Next.stop ↦ none | _ ↦ rest ]

abbrev pub Failed : Poll → Type 0
Failed p = (e : QueueError) × (p.result ≡ err e)

abbrev after_errors : ℕ → WorkerState
after_errors n = record { idle_since = none; consecutive_errors = n % 2 ^ 32 }

run-Failed :
    (sample : ℕ → ℕ) (c : QueueConfig) (s : WorkerState) (p : Poll) (ps : List Poll)
    → Failed p
    → run sample c s (p ∷ ps) ≡ run sample c (after_errors (s.consecutive_errors + 1)) ps
unfolding run on_result
run-Failed sample c s p ps (e, h) = rw (h, run) (rw h refl)

-- While the backend fails, a worker does not stop by itself, however long that lasts, and it counts
-- the errors modulo two to the 32.
pub run-outage :
    (sample : ℕ → ℕ) (c : QueueConfig) (s : WorkerState) (p : Poll) (ps : List Poll)
    → All Failed (p ∷ ps)
    → run sample c s (p ∷ ps)
      ≡ some (record {
        idle_since = none;
        consecutive_errors = (s.consecutive_errors + length (p ∷ ps)) % 2 ^ 32;
      })
run-outage sample c s p [] (h, _) = run-Failed sample c s p [] h ∙ unfold run in refl
run-outage sample c s p (q ∷ ps) (h, rest) =
    run-Failed sample c s p (q ∷ ps) h
    ∙ run-outage sample c (after_errors (s.consecutive_errors + 1)) q ps rest
    ∙ ap (λ n. some (record { idle_since = none; consecutive_errors = n })) (omega arith)

-- A worker stops exactly at an answer that there is no job, if it has by then been without one
-- for `worker_idle_timeout`.
pub stop_iff :
    (sample : ℕ → ℕ) (c : QueueConfig) (s : WorkerState) (result : QueueResult Bool) (now later : ℕ)
    → ((on_result sample c s result now later).0 ≡ Next.stop)
      ↔ ((result ≡ ok false) × (c.worker_idle_timeout ≤ later - get_or_insert s.idle_since now))
unfolding on_result
stop_iff sample c s result now later = ground arith
