-- ===== src/Core/Errors/Laws.antt =====
-- What is kept of an error on its way to a client.
use dogrs.Base.{ℕ, ◌≤◌, ◌<◌, ◌≡◌, refl, ◌&&◌, List, [], ◌∷◌, arith, length, leb, if◌then◌else◌}
use dogrs.Core.Errors.{
  ErrorKind, DogError, status_code, name, class_name, new, with_data, with_errors, with_source,
  sanitize_for_client, reconstructed, field_count, serialize,
}
use dogrs.Queue.Priority.{codes, to_ascii_lowercase}

-- A text of words that each begin with a capital, with a hyphen before every word but the first, and no capitals.
unfoldable pub hyphened : List ℕ → List ℕ
unfolding to_ascii_lowercase
hyphened [] = []
hyphened (c ∷ s) =
    if leb b'A' c && leb c b'Z' then b'-' ∷ to_ascii_lowercase c ∷ hyphened s else c ∷ hyphened s

abbrev kebab : List ℕ → List ℕ
kebab [] = []
kebab (c ∷ s) = to_ascii_lowercase c ∷ hyphened s

-- The class name of an error of any kind is its name in lower case, with a hyphen before each capital but the first.
pub class_name-name : (kind : ErrorKind) → codes (class_name kind) ≡ kebab (codes (name kind))
unfolding class_name name hyphened to_ascii_lowercase
class_name-name ErrorKind.bad_request = refl
class_name-name ErrorKind.not_authenticated = refl
class_name-name ErrorKind.forbidden = refl
class_name-name ErrorKind.not_found = refl
class_name-name ErrorKind.method_not_allowed = refl
class_name-name ErrorKind.not_acceptable = refl
class_name-name ErrorKind.timeout = refl
class_name-name ErrorKind.conflict = refl
class_name-name ErrorKind.gone = refl
class_name-name ErrorKind.length_required = refl
class_name-name ErrorKind.unprocessable = refl
class_name-name ErrorKind.too_many_requests = refl
class_name-name ErrorKind.general_error = refl
class_name-name ErrorKind.not_implemented = refl
class_name-name ErrorKind.bad_gateway = refl
class_name-name ErrorKind.unavailable = refl

-- A status that the library of HTTP accepts, and of an error.
pub status_code-bounds : (kind : ErrorKind) → (400 ≤ status_code kind) × (status_code kind < 504)
unfolding status_code
status_code-bounds kind = ground arith

module _ {Value Any : Type 0} where
  pub serialize-sanitize :
      (d : DogError Value Any) → serialize (sanitize_for_client d) ≡ serialize d
  unfolding serialize sanitize_for_client
  serialize-sanitize d = refl

  -- The fields that are announced are as many as are serialized.
  pub length-serialize : (d : DogError Value Any) → length (serialize d) ≡ field_count d
  unfolding serialize field_count
  length-serialize d = ground arith

  pub serialize-with_source :
      (d : DogError Value Any) (e : Any) → serialize (with_source d e) ≡ serialize d
  unfolding serialize with_source
  serialize-with_source d e = refl

  pub serialize-reconstructed : (d : DogError Value Any) → serialize (reconstructed d) ≡ serialize d
  unfolding serialize reconstructed new with_data with_errors
  serialize-reconstructed d = ground arith

  pub reconstructed-kind : (d : DogError Value Any) → (reconstructed d).kind ≡ d.kind
  unfolding reconstructed new with_data with_errors
  reconstructed-kind d = ground arith
