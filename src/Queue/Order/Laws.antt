-- ===== src/Queue/Order/Laws.antt =====
-- The order that `priority_insert` keeps, and which entry the first due one is.
use mathlib.Core.List.{append-nil}
use dogrs.Base.{
  ℕ, ◌+◌, ◌≤◌, ◌<◌, ◌≡◌, ◌≢◌, refl, inl, inr, ◌⊎◌, Option, none, some, List, [], ◌∷◌, ◌++◌, arith,
  leb, eqb, if◌then◌else◌, keep, All, Bool-cases, ◌==◌, string_eq,
}
use dogrs.Queue.Priority.{as_u8}
use dogrs.Queue.Record.{JobId}
use dogrs.Queue.Order.{QueueEntry, priority_insert, take_due}

abbrev pub rank : QueueEntry → ℕ
rank e = as_u8 e.priority

-- No entry stands behind one of lower priority.
abbrev pub IsSorted : List QueueEntry → Type 0
IsSorted [] = Unit
IsSorted (e ∷ q) = All (λ f. rank f ≤ rank e) q × IsSorted q

pub priority_insert-nil : (e : QueueEntry) → priority_insert [] e ≡ e ∷ []
unfolding priority_insert
priority_insert-nil e = refl

-- `priority_insert`, one entry at a time.
pub priority_insert-cons :
    (x : QueueEntry) (q : List QueueEntry) (e : QueueEntry)
    → priority_insert (x ∷ q) e
      ≡ (if leb (rank e) (rank x) then x ∷ priority_insert q e else e ∷ x ∷ q)
unfolding priority_insert
priority_insert-cons x q e = elim (Bool-cases (leb (rank e) (rank x))) [
  | inl h ↦ rw (h, priority_insert) refl
  | inr h ↦ rw (h, priority_insert) refl
]

pub All-priority_insert :
    (P : QueueEntry → Type 0) (q : List QueueEntry) (e : QueueEntry)
    → All P q
    → P e
    → All P (priority_insert q e)
All-priority_insert P [] e h p = rw priority_insert-nil (p, tt)
All-priority_insert P (x ∷ q) e h p =
    rw priority_insert-cons (elim (Bool-cases (leb (rank e) (rank x))) [
      | inl b ↦ rw b (h.0, All-priority_insert P q e h.1 p)
      | inr b ↦ rw b (p, h)
    ])

All-trans :
    (m n : ℕ) (q : List QueueEntry) → m ≤ n → All (λ f. rank f ≤ m) q → All (λ f. rank f ≤ n) q
All-trans m n [] h a = tt
All-trans m n (x ∷ q) h a = (omega arith, All-trans m n q h a.1)

-- An entry inserted in a queue in descending order of priority leaves it in that order.
pub priority_insert-IsSorted :
    (q : List QueueEntry) (e : QueueEntry) → IsSorted q → IsSorted (priority_insert q e)
priority_insert-IsSorted [] e s = rw priority_insert-nil (tt, tt)
priority_insert-IsSorted (x ∷ q) e s =
    rw priority_insert-cons (elim (Bool-cases (leb (rank e) (rank x))) [
      | inl b ↦ rw b (
        All-priority_insert (λ f. rank f ≤ rank x) q e s.0 (ground arith),
        priority_insert-IsSorted q e s.1,
      )
      | inr b ↦ rw b ((ground arith, All-trans (rank x) (rank e) q (ground arith) s.0), s)
    ])

-- The entries of one priority, in their order.
abbrev pub of_rank : ℕ → List QueueEntry → List QueueEntry
of_rank k = keep (λ (e : QueueEntry). eqb (rank e) k)

of_rank-above : (n k : ℕ) (q : List QueueEntry) → All (λ f. rank f ≤ n) q → n < k → of_rank k q ≡ []
unfolding keep
of_rank-above n k [] a h = refl
of_rank-above n k (x ∷ q) a h = ground (arith, of_rank-above n k q a.1 h)

-- In a queue in descending order of priority, a new entry comes last among its equals, and the
-- entries of any other priority are untouched.
pub of_rank-priority_insert :
    (k : ℕ) (q : List QueueEntry) (e : QueueEntry)
    → IsSorted q
    → of_rank k (priority_insert q e) ≡ of_rank k q ++ of_rank k (e ∷ [])
unfolding keep
of_rank-priority_insert k [] e s = rw priority_insert-nil
of_rank-priority_insert k (x ∷ q) e s = elim (Bool-cases (leb (rank e) (rank x))) [
  | inl b ↦ rw (priority_insert-cons, b) (ground (arith, of_rank-priority_insert k q e s.1))
  | inr b ↦
      rw (priority_insert-cons, b)
        (ground (arith, of_rank-above (rank x) k q s.0, append-nil (of_rank k (x ∷ q))))
]

-- How often a job stands in a queue.
unfoldable pub count : JobId → List QueueEntry → ℕ
count id [] = 0
count id (e ∷ q) = (if e.job_id == id then 1 else 0) + count id q

pub count-priority_insert :
    (id : JobId) (q : List QueueEntry) (e : QueueEntry)
    → count id (priority_insert q e) ≡ count id (e ∷ []) + count id q
unfolding count
count-priority_insert id [] e = rw priority_insert-nil (omega arith)
count-priority_insert id (x ∷ q) e = elim (Bool-cases (leb (rank e) (rank x))) [
  | inl b ↦ rw (priority_insert-cons, b) (omega (arith, count-priority_insert id q e))
  | inr b ↦ rw (priority_insert-cons, b) (omega arith)
]

pub priority_insert-ne-nil : (q : List QueueEntry) (e : QueueEntry) → priority_insert q e ≢ []
priority_insert-ne-nil [] e h = ground (arith, priority_insert-nil e)
priority_insert-ne-nil (x ∷ q) e h = ground (arith, priority_insert-cons x q e)

-- What `take_due` takes: the first entry that is due, with all before it not due.
pub data Taken (now : ℕ) : List QueueEntry → QueueEntry → List QueueEntry → Type 0 where
  first : {e : QueueEntry} {q : List QueueEntry} → e.run_at ≤ now → Taken now (e ∷ q) e q
  later :
      {x e : QueueEntry} {q q' : List QueueEntry}
      → now < x.run_at
      → Taken now q e q'
      → Taken now (x ∷ q) e (x ∷ q')

-- No entry of the queue is due.
abbrev pub NoneDue : ℕ → List QueueEntry → Type 0
NoneDue now = All (λ e. now < e.run_at)

abbrev pub TakeResult : ℕ → List QueueEntry → Option (QueueEntry × List QueueEntry) → Type 0
TakeResult now q none = NoneDue now q
TakeResult now q (some (e, q')) = Taken now q e q'

TakeResult-later :
    (x : QueueEntry) (q : List QueueEntry) (now : ℕ) (o : Option (QueueEntry × List QueueEntry))
    → now < x.run_at
    → TakeResult now q o
    → TakeResult now (x ∷ q) (elim o [ none ↦ none | some (found, q') ↦ some (found, x ∷ q') ])
TakeResult-later x q now none h r = (h, r)
TakeResult-later x q now (some (e, q')) h r = later h r

-- `take_due` finds the first due entry, and nothing only where nothing is due.
pub take_due_lem : (q : List QueueEntry) (now : ℕ) → TakeResult now q (take_due q now)
unfolding take_due
take_due_lem [] now = tt
take_due_lem (x ∷ q) now = elim (Bool-cases (leb x.run_at now)) [
  | inl b ↦ rw b (first (ground arith))
  | inr b ↦ rw b (TakeResult-later x q now (take_due q now) (ground arith) (take_due_lem q now))
]

module _ {now : ℕ} where
  pub Taken-due :
      {q : List QueueEntry} {e : QueueEntry} {q' : List QueueEntry}
      → Taken now q e q'
      → e.run_at ≤ now
  Taken-due (first h) = h
  Taken-due (later h t) = Taken-due t

  pub count-Taken :
      (id : JobId) {q : List QueueEntry} {e : QueueEntry} {q' : List QueueEntry}
      → Taken now q e q'
      → count id q ≡ count id (e ∷ []) + count id q'
  unfolding count
  count-Taken id (first h) = omega arith
  count-Taken id (later h t) = omega (arith, count-Taken id t)

  pub All-Taken :
      (P : QueueEntry → Type 0) {q : List QueueEntry} {e : QueueEntry} {q' : List QueueEntry}
      → Taken now q e q'
      → All P q
      → P e × All P q'
  All-Taken P (first h) a = a
  All-Taken P (later h t) a = let r = All-Taken P t a.1 in (r.0, (a.0, r.1))

  pub Taken-IsSorted :
      {q : List QueueEntry} {e : QueueEntry} {q' : List QueueEntry}
      → Taken now q e q'
      → IsSorted q
      → IsSorted q'
  Taken-IsSorted (first h) s = s.1
  Taken-IsSorted (later {x = x} h t) s =
      ((All-Taken (λ f. rank f ≤ rank x) t s.0).1, Taken-IsSorted t s.1)

-- No due entry that stays has a higher priority than the one taken.
pub Taken-highest :
    (now : ℕ) {q : List QueueEntry} {e : QueueEntry} {q' : List QueueEntry}
    → Taken now q e q'
    → IsSorted q
    → All (λ f. (now < f.run_at) ⊎ (rank f ≤ rank e)) q'
Taken-highest now (first {e = e} {q = q} h) s = weaken q s.0
  where
    weaken :
        (l : List QueueEntry)
        → All (λ f. rank f ≤ rank e) l
        → All (λ f. (now < f.run_at) ⊎ (rank f ≤ rank e)) l
    weaken [] a = tt
    weaken (x ∷ l) a = (inr a.0, weaken l a.1)
Taken-highest now (later h t) s = (inl h, Taken-highest now t s.1)
