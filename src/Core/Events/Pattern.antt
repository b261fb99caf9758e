-- ===== src/Core/Events/Pattern.antt =====
-- The texts that name events: `parse_event_pattern` and `parse_event_kind` of dog-core/src/events.rs, and `on_str`
-- of dog-core/src/app.rs. `trim` and `lower` are the `str` methods `trim` and `to_lowercase`.
use Prim.Native.Char.{Char, code}
use Prim.Native.String.{◌++◌ as text_append}
use dogrs.Base.{
  ℕ, ◌≡◌, ◌≢◌, inl, inr, refl, sym, ap, ◌∙◌, String, true, Option, none, some, arith, eqb,
  if◌then◌else◌, string_eq, str_beq, Bool-cases,
}
use dogrs.Base.Results.{Result, ok, err}
use dogrs.Core.App.{DogAppBuilder}
use dogrs.Core.Events.{
  ServiceEventKind, ServiceEventPattern, ServiceNamePat, EventPat, matches, on_pattern, event_eq,
}
use dogrs.Core.Kit.{Kit}

abbrev prepend : Char → Option (String × String) → Option (String × String)
prepend c none = none
prepend c (some (a, b)) = some (String.◌∷◌ c a, b)

-- `str::split_once` at the first character of the code.
unfoldable pub split_once : ℕ → String → Option (String × String)
split_once d String.[] = none
split_once d (String.◌∷◌ c s) =
    let rest = split_once d s in if eqb (code c) d then some (String.[], s) else prepend c rest

abbrev standard_kind : String → ServiceEventKind
standard_kind norm =
    if str_beq norm "created"
    then ServiceEventKind.created
    else if str_beq norm "updated"
    then ServiceEventKind.updated
    else if str_beq norm "patched"
    then ServiceEventKind.patched
    else if str_beq norm "removed"
    then ServiceEventKind.removed
    else ServiceEventKind.custom norm

module _ (trim lower : String → String) where
  unfoldable pub parse_event_kind : String → ServiceEventKind
  parse_event_kind s = standard_kind (lower (trim s))

  unfoldable pub pattern_of : String → String → ServiceEventPattern
  pattern_of svc ev = record {
    service = if str_beq svc "*" then ServiceNamePat.any else ServiceNamePat.exact svc;
    event = if str_beq ev "*" then EventPat.any else EventPat.exact (parse_event_kind ev);
  }

  abbrev invalid_pattern : String → String
  invalid_pattern s =
      text_append "Invalid event pattern '"
        (text_append s "'. Expected 'service event' or 'service.event'.")

  unfoldable pub parse_event_pattern : (k : Kit) → String → Result k.Error ServiceEventPattern
  parse_event_pattern k input =
      let s = trim input in
      elim (split_once b' ' s) [
        | some (a, b) ↦ ok (pattern_of (trim a) (trim b))
        | none ↦ elim (split_once b'.' s) [
          | some (a, b) ↦ ok (pattern_of (trim a) (trim b))
          | none ↦ err (k.anyhow (invalid_pattern s))
        ]
      ]

  unfoldable pub on_str :
      {k : Kit} → DogAppBuilder k → String → k.Listener → ℕ → Result k.Error (DogAppBuilder k)
  on_str {k} b input listener fresh = elim (parse_event_pattern k input) [
    | err e ↦ err e
    | ok p ↦ ok (record b { events = (on_pattern b.events p listener fresh).1 })
  ]

  custom-injective : (a b : String) → ServiceEventKind.custom a ≡ ServiceEventKind.custom b → a ≡ b
  custom-injective a b e = cc

  -- The name of a parsed kind, if it is a custom one, is in lower case.
  standard_kind-custom :
      (norm n : String) → standard_kind norm ≡ ServiceEventKind.custom n → norm ≡ n
  standard_kind-custom norm n e = ground arith

  pattern-lower :
      (svc ev path n : String)
      → ((s : String) → lower (lower s) ≡ lower s)
      → lower n ≢ n
      → matches (pattern_of svc ev) path (ServiceEventKind.custom n) ≡ true
      → (pattern_of svc ev).event ≡ EventPat.any
  unfolding pattern_of parse_event_kind matches
  pattern-lower svc ev path n idem upper m = elim (Bool-cases (str_beq ev "*")) [
    | inl star ↦ rw star refl
    | inr other ↦
        let e : lower (trim ev) ≡ n = standard_kind-custom (lower (trim ev)) n (
          (event_eq.beq_iff (standard_kind (lower (trim ev))) (ServiceEventKind.custom n)).0
            (ground (arith, m, other))) in
        absurd (upper (ap lower (sym e) ∙ idem (trim ev) ∙ e))
  ]

  -- A listener that is registered by a text never hears a custom event whose name is not in lower case, but for
  -- the texts with the wildcard as event: if lower-casing is idempotent and changes the name `n`, a
  -- pattern that was parsed matches the custom event `n` on no path, unless it matches all events. `emit_custom`
  -- keeps the case of the name.
  pub parse_event_pattern-custom :
      (k : Kit) (input path n : String) (p : ServiceEventPattern)
      → ((s : String) → lower (lower s) ≡ lower s)
      → lower n ≢ n
      → parse_event_pattern k input ≡ ok p
      → matches p path (ServiceEventKind.custom n) ≡ true
      → p.event ≡ EventPat.any
  unfolding parse_event_pattern
  parse_event_pattern-custom k input path n p idem upper parsed m =
      grind (arith, parsed, m, λ (a b : String). pattern-lower (trim a) (trim b) path n idem upper)
