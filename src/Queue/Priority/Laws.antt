-- ===== src/Queue/Priority/Laws.antt =====
-- Numbers and names of priorities read back.
use dogrs.Base.{ℕ, ◌≡◌, ◌↔◌, refl, ◌∙◌, true, List, some, arith, [], ◌∷◌}
use dogrs.Queue.Priority.{
  JobPriority, as_u8, from_u8, name, codes, to_ascii_lowercase, eq_ignore_ascii_case, from_str,
}

-- `from_u8` reads exactly the numbers that `as_u8` writes.
pub from_u8_iff : (n : ℕ) (p : JobPriority) → (from_u8 n ≡ some p) ↔ (as_u8 p ≡ n)
unfolding from_u8
from_u8_iff n JobPriority.low = ground arith
from_u8_iff n JobPriority.normal = ground arith
from_u8_iff n JobPriority.high = ground arith
from_u8_iff n JobPriority.critical = ground arith

-- A text equal to another up to case compares as that one does.
eq_ignore_ascii_case-same :
    (s t u : List ℕ)
    → eq_ignore_ascii_case s t ≡ true
    → eq_ignore_ascii_case s u ≡ eq_ignore_ascii_case t u
unfolding eq_ignore_ascii_case
eq_ignore_ascii_case-same [] [] u h = refl
eq_ignore_ascii_case-same [] (d ∷ t) u h = cc
eq_ignore_ascii_case-same (c ∷ s) [] u h = cc
eq_ignore_ascii_case-same (c ∷ s) (d ∷ t) [] h = refl
eq_ignore_ascii_case-same (c ∷ s) (d ∷ t) (e ∷ u) h =
    ground (arith, eq_ignore_ascii_case-same s t u)

from_str-names :
    (s : List ℕ) (p : JobPriority)
    → from_str s ≡ some p
    → eq_ignore_ascii_case s (codes (name p)) ≡ true
unfolding from_str
from_str-names s JobPriority.low h = ground arith
from_str-names s JobPriority.normal h = ground arith
from_str-names s JobPriority.high h = ground arith
from_str-names s JobPriority.critical h = ground arith

from_str-same : (s t : List ℕ) → eq_ignore_ascii_case s t ≡ true → from_str s ≡ from_str t
unfolding from_str
from_str-same s t h =
    rw
      (
        eq_ignore_ascii_case-same s t (codes "low") h,
        eq_ignore_ascii_case-same s t (codes "normal") h,
        eq_ignore_ascii_case-same s t (codes "high") h,
        eq_ignore_ascii_case-same s t (codes "critical") h,
      )
      refl

from_str-name : (p : JobPriority) → from_str (codes (name p)) ≡ some p
unfolding from_str eq_ignore_ascii_case to_ascii_lowercase
from_str-name JobPriority.low = refl
from_str-name JobPriority.normal = refl
from_str-name JobPriority.high = refl
from_str-name JobPriority.critical = refl

-- `from_str` reads exactly the names of the priorities, in any mixture of upper and lower case.
pub from_str_iff :
    (s : List ℕ) (p : JobPriority)
    → (from_str s ≡ some p) ↔ (eq_ignore_ascii_case s (codes (name p)) ≡ true)
from_str_iff s p = (from_str-names s p, λ h. from_str-same s (codes (name p)) h ∙ from_str-name p)
