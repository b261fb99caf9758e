-- ===== src/Queue/Metrics/Recent.antt =====
-- The ring buffer of execution times, and the pass of a snapshot.
use dogrs.Base.{
  ℕ, ◌≡◌, refl, sym, ap, subst, ◌∙◌, min, String, List, [], ◌∷◌, ◌++◌, arith, ltb, if◌then◌else◌,
  length, length-append, ◌==◌, string_eq, str_beq, str_beq_iff, Bool-cases, inl, inr,
}
use mathlib.Core.List.{append_assoc, append-nil}
use dogrs.Queue.Metrics.{
  JobTypeMetrics, GlobalMetrics, PerformanceMetrics, LiveMetrics, new_metrics, sum_from,
  jobs_enqueued, jobs_completed, jobs_failed, jobs_retried, jobs_canceled, count_type,
  snapshot_pass, snapshot_all, capacity, push_time, record_execution_time,
}
use dogrs.Dict
use dogrs.Dict.{Dict, get-put, get-empty}

-- The last ones of all, at most as many as the buffer holds.
abbrev pub IsRecent : List ℕ → List ℕ → Type 0
IsRecent times all =
    ((old : List ℕ) × (old ++ times ≡ all)) × (length times ≡ min capacity (length all))

extend :
    (old times all : List ℕ) (d : ℕ) → old ++ times ≡ all → old ++ (times ++ d ∷ []) ≡ all ++ d ∷ []
extend old times all d e = sym (append_assoc old times (d ∷ [])) ∙ ap (λ l. l ++ d ∷ []) e

push_time-IsRecent :
    (times all : List ℕ) (d : ℕ) → IsRecent times all → IsRecent (push_time times d) (all ++ d ∷ [])
unfolding push_time
push_time-IsRecent [] all d ((old, e), l) =
    ((old, extend old [] all d e), omega (arith, l, length-append all (d ∷ [])))
push_time-IsRecent (x ∷ times) all d ((old, e), l) =
    let more = length-append all (d ∷ []) in
    let longer = length-append times (d ∷ []) in
    elim (Bool-cases (ltb capacity (length ((x ∷ times) ++ d ∷ [])))) [
      | inl full ↦ rw full (
        (
          old ++ x ∷ [],
          append_assoc old (x ∷ []) (times ++ d ∷ []) ∙ extend old (x ∷ times) all d e,
        ),
        ground (arith, l, more, longer, full),
      )
      | inr room ↦
          rw room ((old, extend old (x ∷ times) all d e), ground (arith, l, more, longer, room))
    ]

-- The calls of a history, with the job's type, the duration and the time of each.
unfoldable pub record_all : PerformanceMetrics → List (String × ℕ × ℕ) → PerformanceMetrics
record_all m [] = m
record_all m ((t, d, now) ∷ h) = record_all (record_execution_time m t d now) h

-- The durations of one type.
unfoldable pub durations : String → List (String × ℕ × ℕ) → List ℕ
durations t [] = []
durations t ((u, d, now) ∷ h) = let rest = durations t h in if u == t then d ∷ rest else rest

abbrev pub times_of : PerformanceMetrics → String → List ℕ
times_of m t = Dict.get_or_default m.execution_times t []

times_of-record :
    (m : PerformanceMetrics) (t u : String) (d now : ℕ)
    → times_of (record_execution_time m u d now) t
      ≡ (if u == t then push_time (times_of m u) d else times_of m t)
unfolding record_execution_time Dict.get_or_default
times_of-record m t u d now =
    ground (arith, get-put m.execution_times u t (push_time (times_of m u) d))

record_all-IsRecent :
    (m : PerformanceMetrics) (t : String) (h : List (String × ℕ × ℕ)) (seen : List ℕ)
    → IsRecent (times_of m t) seen
    → IsRecent (times_of (record_all m h) t) (seen ++ durations t h)
unfolding record_all durations
record_all-IsRecent m t [] seen r = subst (IsRecent (times_of m t)) (sym (append-nil seen)) r
record_all-IsRecent m t ((u, d, now) ∷ h) seen r =
    let m' = record_execution_time m u d now in
    let step = times_of-record m t u d now in
    elim (Bool-cases (str_beq u t)) [
      | inl same ↦
          let e : u ≡ t = (str_beq_iff u t).0 same in
          let pushed : times_of m' t ≡ push_time (times_of m t) d =
            step ∙ rw same (ap (λ v. push_time (times_of m v) d) e) in
          rw same (
            subst (IsRecent (times_of (record_all m' h) t))
              (append_assoc seen (d ∷ []) (durations t h))
              (record_all-IsRecent m' t h (seen ++ d ∷ []) (
                subst (λ l. IsRecent l (seen ++ d ∷ [])) (sym pushed)
                  (push_time-IsRecent (times_of m t) seen d r))))
      | inr other ↦
          let kept : times_of m' t ≡ times_of m t = step ∙ rw other refl in
          rw other (record_all-IsRecent m' t h seen (subst (λ l. IsRecent l seen) (sym kept) r))
    ]

none_recorded : (t : String) → Dict.get_or_default (Dict.empty {V = List ℕ}) t [] ≡ []
unfolding Dict.get_or_default
none_recorded t = rw (get-empty t, Dict.get_or_default) refl

-- After any calls on fresh metrics, for jobs of any types, the buffer of a type holds the last of all durations
-- recorded for this type, in their order: a thousand of them, or all if there are fewer.
pub record_all-recent :
    (t : String) (h : List (String × ℕ × ℕ)) (now : ℕ)
    → ((old : List ℕ) × (old ++ times_of (record_all (new_metrics now).performance h) t
          ≡ durations t h))
      × (length (times_of (record_all (new_metrics now).performance h) t)
          ≡ min capacity (length (durations t h)))
unfolding new_metrics
record_all-recent t h now =
    record_all-IsRecent (new_metrics now).performance t h []
      (rw (none_recorded t) (([], refl), omega arith))

-- The pass, field by field.
pass-sum :
    (l : List (String × JobTypeMetrics)) (g : GlobalMetrics) (d : Dict String JobTypeMetrics)
    → (snapshot_pass l g d).0 ≡ record {
      jobs_enqueued = sum_from (λ (c : JobTypeMetrics). c.enqueued) g.jobs_enqueued l;
      jobs_completed = sum_from (λ (c : JobTypeMetrics). c.completed) g.jobs_completed l;
      jobs_failed = sum_from (λ (c : JobTypeMetrics). c.failed) g.jobs_failed l;
      jobs_retried = sum_from (λ (c : JobTypeMetrics). c.retried) g.jobs_retried l;
      jobs_canceled = sum_from (λ (c : JobTypeMetrics). c.canceled) g.jobs_canceled l;
    }
unfolding snapshot_pass sum_from
pass-sum [] g d = refl
pass-sum ((t, m) ∷ l) g d = pass-sum l (count_type g m) (Dict.put d t m)

-- The one pass of a snapshot gives the same totals as the five passes of the single getters.
pub snapshot_all-totals :
    (m : LiveMetrics)
    → (snapshot_all m).0 ≡ record {
      jobs_enqueued = jobs_enqueued m;
      jobs_completed = jobs_completed m;
      jobs_failed = jobs_failed m;
      jobs_retried = jobs_retried m;
      jobs_canceled = jobs_canceled m;
    }
unfolding snapshot_all jobs_enqueued jobs_completed jobs_failed jobs_retried jobs_canceled
snapshot_all-totals m = pass-sum (Dict.iter m.per_type) _ Dict.empty
