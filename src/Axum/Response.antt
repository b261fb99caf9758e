-- ===== src/Axum/Response.antt =====
-- `IntoResponse for DogAxumError` of dog-axum/src/error.rs.
use dogrs.Base.{
  ℕ, ◌≤◌, ◌<◌, ◌≡◌, refl, sym, ap, ◌∙◌, String, Option, none, some, List, arith, inl, inr,
  Option-cases,
}
use dogrs.Base.Results.{ok, err, Result-cases}
use dogrs.Core.Errors.{
  ErrorKind, DogError, Anyhow, IsAnyhow, Field, code, new, sanitize_for_client, serialize,
  normalize, reconstructed, with_source,
}
use dogrs.Core.Errors.Laws.{
  status_code-bounds, serialize-sanitize, serialize-with_source, serialize-reconstructed,
  reconstructed-kind,
}

-- The statuses of the crate http: `from_u16` accepts the codes of three digits, and no other.
pub record Statuses : Type 1 where
  pub Status : Type 0
  pub from_u16 : ℕ → Option Status
  pub internal_server_error : Status

abbrev pub IsHttp : Statuses → Type 0
IsHttp http = (n : ℕ) → 100 ≤ n → n < 1000 → (s : http.Status) × (http.from_u16 n ≡ some s)

module _ {Value Any : Type 0} (http : Statuses) (a : Anyhow Value Any) where
  abbrev or_internal : Option http.Status → http.Status
  or_internal none = http.internal_server_error
  or_internal (some s) = s

  -- The status of an error, and what is serialized of it.
  unfoldable pub respond : DogError Value Any → http.Status × List (String × Field Value)
  unfolding code sanitize_for_client serialize
  respond dog =
      let safe = sanitize_for_client dog in
      (or_internal (http.from_u16 (code safe)), serialize safe)

  unfoldable pub into_response : Any → http.Status × List (String × Field Value)
  unfolding respond new
  into_response e = elim (a.chain_find e) [
    | some dog ↦ respond dog
    | none ↦ respond (new ErrorKind.general_error (a.to_string e))
  ]

  respond-sanitize :
      (dog : DogError Value Any)
      → IsHttp http
      → (s : http.Status) × (http.from_u16 (code dog) ≡ some s)
        × (respond dog ≡ (s, serialize (sanitize_for_client dog)))
  unfolding respond code sanitize_for_client
  respond-sanitize dog h =
      let bounds = status_code-bounds dog.kind in
      let (s, known) = h (code dog) (omega (arith, bounds)) (omega (arith, bounds)) in
      (s, known, rw known refl)

  responded :
      (e : Any) (dog : DogError Value Any)
      → a.chain_find e ≡ some dog
      → into_response e ≡ respond dog
  unfolding into_response
  responded e dog found = rw (found, into_response) refl

  responded_general :
      (e : Any)
      → a.chain_find e ≡ none
      → into_response e ≡ respond (new ErrorKind.general_error (a.to_string e))
  unfolding into_response
  responded_general e missing = rw (missing, into_response) refl

  normalized-root :
      (e : Any) (dog : DogError Value Any) → a.downcast e ≡ ok dog → normalize a e ≡ dog
  unfolding normalize
  normalized-root e dog root = rw (root, normalize) refl

  normalized-found :
      (e : Any) (dog : DogError Value Any)
      → a.downcast e ≡ err e
      → a.chain_find e ≡ some dog
      → normalize a e ≡ with_source (reconstructed dog) e
  unfolding normalize
  normalized-found e dog buried found = rw (buried, normalize, found) refl

  normalized_general :
      (e : Any)
      → a.downcast e ≡ err e
      → a.chain_find e ≡ none
      → normalize a e ≡ with_source (new ErrorKind.general_error (a.to_string e)) e
  unfolding normalize
  normalized_general e buried missing = rw (buried, normalize, missing) refl

  wrapped-kind :
      (dog : DogError Value Any) (e : Any) → (with_source (reconstructed dog) e).kind ≡ dog.kind
  unfolding with_source
  wrapped-kind dog e = reconstructed-kind dog

  general-kind :
      (e : Any)
      → (with_source {Value = Value} (new ErrorKind.general_error (a.to_string e)) e).kind
        ≡ (new {Value = Value} {Any = Any} ErrorKind.general_error (a.to_string e)).kind
  unfolding with_source
  general-kind e = refl

  -- From an error that is responded to, and the one that `normalize` makes.
  responds :
      (e : Any) (dog norm : DogError Value Any)
      → IsHttp http
      → into_response e ≡ respond dog
      → normalize a e ≡ norm
      → norm.kind ≡ dog.kind
      → serialize norm ≡ serialize dog
      → (s : http.Status) × (http.from_u16 (code (normalize a e)) ≡ some s)
        × (into_response e ≡ (s, serialize (sanitize_for_client (normalize a e))))
  unfolding code
  responds e dog norm h answer normal kind same =
      let (s, known, given) = respond-sanitize dog h in
      let fields = serialize-sanitize norm ∙ same ∙ sym (serialize-sanitize dog) in
      (s, rw (normal, kind) known, rw normal (answer ∙ given ∙ ap (λ x. (s, x)) (sym fields)))

  -- With the crates anyhow and http as they are documented, take an error of which `downcast`
  -- gives, if it gives a DogError, the first one of its chain, as is so where no DogError was put
  -- around it as a context. The response to it has a status, never the substitute for an unknown
  -- one, and the status and fields are those of the error that `DogError::normalize` makes of it,
  -- with its source dropped.
  pub into_response-normalize :
      (e : Any)
      → IsAnyhow a
      → IsHttp http
      → ((d : DogError Value Any) → a.downcast e ≡ ok d → a.chain_find e ≡ some d)
      → (s : http.Status) × (http.from_u16 (code (normalize a e)) ≡ some s)
        × (into_response e ≡ (s, serialize (sanitize_for_client (normalize a e))))
  into_response-normalize e lib h first = elim (Result-cases (a.downcast e)) [
    | inr (dog, root) ↦
        responds e dog dog h (responded e dog (first dog root)) (normalized-root e dog root) refl
          refl
    | inl (other, buried) ↦
        let buried_e : a.downcast e ≡ err e = buried ∙ ap err (lib.downcast_err e other buried) in
        elim (Option-cases (a.chain_find e)) [
          | inr (dog, found) ↦
              responds e dog _ h (responded e dog found) (normalized-found e dog buried_e found)
                (wrapped-kind dog e)
                (serialize-with_source (reconstructed dog) e ∙ serialize-reconstructed dog)
          | inl missing ↦
              responds e (new ErrorKind.general_error (a.to_string e)) _ h
                (responded_general e missing) (normalized_general e buried_e missing)
                (general-kind e)
                (serialize-with_source (new ErrorKind.general_error (a.to_string e)) e)
        ]
  ]

  pub wrapped-status :
      (dog : DogError Value Any)
      → IsAnyhow a
      → IsHttp http
      → (s : http.Status) × (http.from_u16 (code dog) ≡ some s)
        × ((into_response (a.wrap dog)).0 ≡ s)
  wrapped-status dog lib h =
      let (s, known, given) = respond-sanitize dog h in
      (s, known, ap (λ x. x.0) (responded (a.wrap dog) dog (lib.chain_wrap dog) ∙ given))
