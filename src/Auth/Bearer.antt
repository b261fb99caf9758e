-- ===== src/Auth/Bearer.antt =====
-- `extract_bearer_token` of dog-auth/src/core.rs, with `str::trim` of the standard library.
use Prim.Native.Char.{code}
use dogrs.Base.{
  ℕ, String, Bool, true, false, ◌||◌, ◌&&◌, Option, none, some, eqb, leb, if◌then◌else◌, string_eq,
}
use dogrs.Dict
use dogrs.Dict.{Dict}

-- `char::is_whitespace`.
unfoldable pub is_whitespace : ℕ → Bool
is_whitespace c =
    (leb 9 c && leb c 13)
    || eqb c 32
    || eqb c 133
    || eqb c 160
    || eqb c 5760
    || (leb 8192 c && leb c 8202)
    || eqb c 8232
    || eqb c 8233
    || eqb c 8239
    || eqb c 8287
    || eqb c 12288

abbrev pub is_empty : String → Bool
is_empty String.[] = true
is_empty (String.◌∷◌ c s) = false

unfoldable pub trim_start : String → String
unfolding is_whitespace
trim_start String.[] = String.[]
trim_start (String.◌∷◌ c s) =
    let rest = trim_start s in if is_whitespace (code c) then rest else String.◌∷◌ c s

unfoldable pub trim_end : String → String
unfolding is_whitespace
trim_end String.[] = String.[]
trim_end (String.◌∷◌ c s) =
    let rest = trim_end s in
    if is_empty rest && is_whitespace (code c) then String.[] else String.◌∷◌ c rest

abbrev pub trim : String → String
trim s = trim_end (trim_start s)

-- The text after a prefix, where it begins with it.
unfoldable pub strip_prefix : String → String → Option String
strip_prefix String.[] s = some s
strip_prefix (String.◌∷◌ c p) String.[] = none
strip_prefix (String.◌∷◌ c p) (String.◌∷◌ d s) =
    let rest = strip_prefix p s in if eqb (code c) (code d) then rest else none

-- A value no longer than the prefix has no token.
unfoldable pub bearer_token : String → Option String
unfolding trim_start trim_end strip_prefix
bearer_token v = elim (strip_prefix "Bearer " (trim v)) [
  | none ↦ none
  | some rest ↦ if is_empty rest then none else some (trim rest)
]

unfoldable pub authorization : Dict String String → Option String
authorization headers = elim (Dict.get headers "authorization") [
  | some v ↦ some v
  | none ↦ Dict.get headers "Authorization"
]

unfoldable pub extract_bearer_token : Dict String String → Option String
unfolding bearer_token authorization
extract_bearer_token headers = elim (authorization headers) [
  | none ↦ none
  | some v ↦ bearer_token v
]
