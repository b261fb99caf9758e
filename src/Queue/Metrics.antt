-- ===== src/Queue/Metrics.antt =====
-- dog-queue/src/observability/metrics.rs: the counters for each type of job, and the last execution times. Durations
-- are nanoseconds. The rates, which are floating-point numbers, and the percentiles are left out.
pub mod Recent
use dogrs.Base.{
  ℕ, suc, ◌+◌, ◌-◌, ◌/◌, ◌%◌, ◌^◌, String, Bool, Option, none, some, List, [], ◌∷◌, ◌++◌, map, ltb,
  if◌then◌else◌, is_empty, length, string_eq,
}
use dogrs.Dict
use dogrs.Dict.{Dict}

-- `JobTypeMetrics`, and the counters of one type.
pub record JobTypeMetrics : Type 0 where
  pub enqueued : ℕ
  pub completed : ℕ
  pub failed : ℕ
  pub retried : ℕ
  pub canceled : ℕ

abbrev pub zeros : JobTypeMetrics
zeros = record { enqueued = 0; completed = 0; failed = 0; retried = 0; canceled = 0 }

pub record GlobalMetrics : Type 0 where
  pub jobs_enqueued : ℕ
  pub jobs_completed : ℕ
  pub jobs_failed : ℕ
  pub jobs_retried : ℕ
  pub jobs_canceled : ℕ

pub record PerformanceMetrics : Type 0 where
  pub execution_times : Dict String (List ℕ)
  pub last_updated : ℕ

pub record LiveMetrics : Type 0 where
  pub per_type : Dict String JobTypeMetrics
  pub performance : PerformanceMetrics

-- `u64` with the wrap-around of `fetch_add`, and of a release build.
abbrev pub add : ℕ → ℕ → ℕ
add a b = (a + b) % 2 ^ 64

unfoldable pub new_metrics : ℕ → LiveMetrics
new_metrics now = record {
  per_type = Dict.empty;
  performance = record { execution_times = Dict.empty; last_updated = now };
}

-- `entry(job_type).or_default()`, with a change.
unfoldable pub update_type : LiveMetrics → String → (JobTypeMetrics → JobTypeMetrics) → LiveMetrics
update_type m job_type f = record m {
  per_type = Dict.put m.per_type job_type (f (Dict.get_or_default m.per_type job_type zeros));
}

unfoldable pub increment_jobs_enqueued : LiveMetrics → String → LiveMetrics
increment_jobs_enqueued m t =
    update_type m t (λ (c : JobTypeMetrics). record c { enqueued = add c.enqueued 1 })

unfoldable pub increment_jobs_completed : LiveMetrics → String → LiveMetrics
increment_jobs_completed m t =
    update_type m t (λ (c : JobTypeMetrics). record c { completed = add c.completed 1 })

unfoldable pub increment_jobs_failed : LiveMetrics → String → LiveMetrics
increment_jobs_failed m t =
    update_type m t (λ (c : JobTypeMetrics). record c { failed = add c.failed 1 })

unfoldable pub increment_jobs_retried : LiveMetrics → String → LiveMetrics
increment_jobs_retried m t =
    update_type m t (λ (c : JobTypeMetrics). record c { retried = add c.retried 1 })

unfoldable pub increment_jobs_canceled : LiveMetrics → String → LiveMetrics
increment_jobs_canceled m t =
    update_type m t (λ (c : JobTypeMetrics). record c { canceled = add c.canceled 1 })

-- `.map(..).sum()`, from a first value.
unfoldable pub sum_from : (JobTypeMetrics → ℕ) → ℕ → List (String × JobTypeMetrics) → ℕ
sum_from f n [] = n
sum_from f n ((t, m) ∷ l) = sum_from f (add n (f m)) l

unfoldable pub jobs_enqueued : LiveMetrics → ℕ
jobs_enqueued m = sum_from (λ (c : JobTypeMetrics). c.enqueued) 0 (Dict.iter m.per_type)

unfoldable pub jobs_completed : LiveMetrics → ℕ
jobs_completed m = sum_from (λ (c : JobTypeMetrics). c.completed) 0 (Dict.iter m.per_type)

unfoldable pub jobs_failed : LiveMetrics → ℕ
jobs_failed m = sum_from (λ (c : JobTypeMetrics). c.failed) 0 (Dict.iter m.per_type)

unfoldable pub jobs_retried : LiveMetrics → ℕ
jobs_retried m = sum_from (λ (c : JobTypeMetrics). c.retried) 0 (Dict.iter m.per_type)

unfoldable pub jobs_canceled : LiveMetrics → ℕ
jobs_canceled m = sum_from (λ (c : JobTypeMetrics). c.canceled) 0 (Dict.iter m.per_type)

unfoldable pub job_type_metrics : LiveMetrics → String → Option JobTypeMetrics
job_type_metrics m job_type = Dict.get m.per_type job_type

unfoldable pub all_job_type_metrics : LiveMetrics → Dict String JobTypeMetrics
all_job_type_metrics m = m.per_type

abbrev pub count_type : GlobalMetrics → JobTypeMetrics → GlobalMetrics
count_type g m = record {
  jobs_enqueued = add g.jobs_enqueued m.enqueued;
  jobs_completed = add g.jobs_completed m.completed;
  jobs_failed = add g.jobs_failed m.failed;
  jobs_retried = add g.jobs_retried m.retried;
  jobs_canceled = add g.jobs_canceled m.canceled;
}

-- The one pass over the types, with both results.
unfoldable pub snapshot_pass :
    List (String × JobTypeMetrics)
    → GlobalMetrics
    → Dict String JobTypeMetrics
    → GlobalMetrics × Dict String JobTypeMetrics
snapshot_pass [] g per_type = (g, per_type)
snapshot_pass ((t, m) ∷ l) g per_type = snapshot_pass l (count_type g m) (Dict.put per_type t m)

unfoldable pub snapshot_all : LiveMetrics → GlobalMetrics × Dict String JobTypeMetrics
snapshot_all m =
    snapshot_pass (Dict.iter m.per_type)
      (record {
        jobs_enqueued = 0;
        jobs_completed = 0;
        jobs_failed = 0;
        jobs_retried = 0;
        jobs_canceled = 0;
      })
      Dict.empty

-- `saturating_sub` of a sum that wraps.
unfoldable pub jobs_not_yet_terminal : GlobalMetrics → ℕ
jobs_not_yet_terminal g = g.jobs_enqueued - add (add g.jobs_completed g.jobs_failed) g.jobs_canceled

abbrev pub capacity : ℕ
capacity = 1000

abbrev pub pop_front : List ℕ → List ℕ
pop_front [] = []
pop_front (d ∷ ds) = ds

unfoldable pub push_time : List ℕ → ℕ → List ℕ
push_time times duration =
    let pushed = times ++ duration ∷ [] in
    if ltb capacity (length pushed) then pop_front pushed else pushed

unfoldable pub record_execution_time : PerformanceMetrics → String → ℕ → ℕ → PerformanceMetrics
record_execution_time m job_type duration now = record {
  execution_times =
      Dict.put m.execution_times job_type
        (push_time (Dict.get_or_default m.execution_times job_type []) duration);
  last_updated = now;
}

unfoldable pub total_nanos : List ℕ → ℕ
total_nanos [] = 0
total_nanos (d ∷ ds) = d + total_nanos ds

-- `as u64` of the average.
unfoldable pub average : List ℕ → Option ℕ
average [] = none
average (d ∷ ds) = some (total_nanos (d ∷ ds) / length (d ∷ ds) % 2 ^ 64)

unfoldable pub average_execution_time : PerformanceMetrics → String → Option ℕ
average_execution_time m job_type = elim (Dict.get m.execution_times job_type) [
  | none ↦ none
  | some times ↦ average times
]
