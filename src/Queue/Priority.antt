-- ===== src/Queue/Priority.antt =====
-- dog-queue/src/types/priority.rs: the four priorities, their numbers and their names.
-- A text is the list of its code points where `from_str` folds the case of its letters.
pub mod Laws
use Prim.Native.Char.{code}
use dogrs.Base.{
  ℕ, ◌+◌, ◌≡◌, Bool, true, false, ◌&&◌, List, [], ◌∷◌, Option, none, some, leb, eqb, String,
  if◌then◌else◌,
}

pub data JobPriority : Type 0 where
  low normal high critical : JobPriority

abbrev pub default : JobPriority
default = JobPriority.normal

unfoldable pub all : List JobPriority
all = JobPriority.low ∷ JobPriority.normal ∷ JobPriority.high ∷ JobPriority.critical ∷ []

abbrev pub as_u8 : JobPriority → ℕ
as_u8 JobPriority.low = 1
as_u8 JobPriority.normal = 2
as_u8 JobPriority.high = 3
as_u8 JobPriority.critical = 4

-- The derived order is that of the numbers.
abbrev pub at_least : JobPriority → JobPriority → Bool
at_least p q = leb (as_u8 q) (as_u8 p)

unfoldable pub from_u8 : ℕ → Option JobPriority
from_u8 value =
    if eqb value 1
    then some JobPriority.low
    else if eqb value 2
    then some JobPriority.normal
    else if eqb value 3
    then some JobPriority.high
    else if eqb value 4
    then some JobPriority.critical
    else none

abbrev pub name : JobPriority → String
name JobPriority.low = "low"
name JobPriority.normal = "normal"
name JobPriority.high = "high"
name JobPriority.critical = "critical"

-- The code points of a text.
abbrev pub codes : String → List ℕ
codes String.[] = []
codes (String.◌∷◌ c s) = code c ∷ codes s

-- `u8::to_ascii_lowercase`.
unfoldable pub to_ascii_lowercase : ℕ → ℕ
to_ascii_lowercase c = if leb b'A' c && leb c b'Z' then c + 32 else c

unfoldable pub eq_ignore_ascii_case : List ℕ → List ℕ → Bool
unfolding to_ascii_lowercase
eq_ignore_ascii_case [] [] = true
eq_ignore_ascii_case (c ∷ s) (d ∷ t) =
    eqb (to_ascii_lowercase c) (to_ascii_lowercase d) && eq_ignore_ascii_case s t
eq_ignore_ascii_case _ _ = false

-- `FromStr`; the error's text is left out.
unfoldable pub from_str : List ℕ → Option JobPriority
unfolding eq_ignore_ascii_case
from_str s =
    if eq_ignore_ascii_case s (codes "low")
    then some JobPriority.low
    else if eq_ignore_ascii_case s (codes "normal")
    then some JobPriority.normal
    else if eq_ignore_ascii_case s (codes "high")
    then some JobPriority.high
    else if eq_ignore_ascii_case s (codes "critical")
    then some JobPriority.critical
    else none
