-- ===== src/Core/Errors.antt =====
-- dog-core/src/errors.rs: the errors of services, their codes and names, and what a client is given of them. The crate
-- anyhow, which carries any error, is a parameter.
pub mod Laws
use Prim.Native.String.{◌++◌ as text_append}
use dogrs.Base.{
  ◌≡◌, ℕ, String, Bool, true, false, Option, none, some, List, [], ◌∷◌, ◌++◌, ◌+◌, if◌then◌else◌,
}
use dogrs.Base.Results.{Result, ok, err}

pub data ErrorKind : Type 0 where
  bad_request not_authenticated forbidden not_found method_not_allowed not_acceptable timeout
        conflict gone :
      ErrorKind
  length_required unprocessable too_many_requests general_error not_implemented bad_gateway
        unavailable :
      ErrorKind

unfoldable pub status_code : ErrorKind → ℕ
status_code ErrorKind.bad_request = 400
status_code ErrorKind.not_authenticated = 401
status_code ErrorKind.forbidden = 403
status_code ErrorKind.not_found = 404
status_code ErrorKind.method_not_allowed = 405
status_code ErrorKind.not_acceptable = 406
status_code ErrorKind.timeout = 408
status_code ErrorKind.conflict = 409
status_code ErrorKind.gone = 410
status_code ErrorKind.length_required = 411
status_code ErrorKind.unprocessable = 422
status_code ErrorKind.too_many_requests = 429
status_code ErrorKind.general_error = 500
status_code ErrorKind.not_implemented = 501
status_code ErrorKind.bad_gateway = 502
status_code ErrorKind.unavailable = 503

unfoldable pub name : ErrorKind → String
name ErrorKind.bad_request = "BadRequest"
name ErrorKind.not_authenticated = "NotAuthenticated"
name ErrorKind.forbidden = "Forbidden"
name ErrorKind.not_found = "NotFound"
name ErrorKind.method_not_allowed = "MethodNotAllowed"
name ErrorKind.not_acceptable = "NotAcceptable"
name ErrorKind.timeout = "Timeout"
name ErrorKind.conflict = "Conflict"
name ErrorKind.gone = "Gone"
name ErrorKind.length_required = "LengthRequired"
name ErrorKind.unprocessable = "Unprocessable"
name ErrorKind.too_many_requests = "TooManyRequests"
name ErrorKind.general_error = "GeneralError"
name ErrorKind.not_implemented = "NotImplemented"
name ErrorKind.bad_gateway = "BadGateway"
name ErrorKind.unavailable = "Unavailable"

unfoldable pub class_name : ErrorKind → String
class_name ErrorKind.bad_request = "bad-request"
class_name ErrorKind.not_authenticated = "not-authenticated"
class_name ErrorKind.forbidden = "forbidden"
class_name ErrorKind.not_found = "not-found"
class_name ErrorKind.method_not_allowed = "method-not-allowed"
class_name ErrorKind.not_acceptable = "not-acceptable"
class_name ErrorKind.timeout = "timeout"
class_name ErrorKind.conflict = "conflict"
class_name ErrorKind.gone = "gone"
class_name ErrorKind.length_required = "length-required"
class_name ErrorKind.unprocessable = "unprocessable"
class_name ErrorKind.too_many_requests = "too-many-requests"
class_name ErrorKind.general_error = "general-error"
class_name ErrorKind.not_implemented = "not-implemented"
class_name ErrorKind.bad_gateway = "bad-gateway"
class_name ErrorKind.unavailable = "unavailable"

-- `Value` is `ErrorValue`, and `Any` is `anyhow::Error`.
pub record DogError (Value Any : Type 0) : Type 0 where
  pub kind : ErrorKind
  pub message : String
  pub data_value : Option Value
  pub errors : Option Value
  pub source : Option Any

-- What the crate anyhow gives: a wrapped error; the `DogError` that an error is or has for a context, else the error again; the first `DogError` among it and what caused it;
-- and its text.
pub record Anyhow (Value Any : Type 0) : Type 0 where
  pub wrap : DogError Value Any → Any
  pub downcast : Any → Result Any (DogError Value Any)
  pub chain_find : Any → Option (DogError Value Any)
  pub to_string : Any → String

-- As it is documented: a wrapped error is found again, by a downcast and in its chain, and a downcast that fails gives the error back.
pub record IsAnyhow {Value Any : Type 0} (a : Anyhow Value Any) : Type 0 where
  pub downcast_wrap : (d : DogError Value Any) → a.downcast (a.wrap d) ≡ ok d
  pub chain_wrap : (d : DogError Value Any) → a.chain_find (a.wrap d) ≡ some d
  pub downcast_err : (e other : Any) → a.downcast e ≡ err other → other ≡ e

-- A field of a serialized error.
pub data Field (Value : Type 0) : Type 0 where
  text : String → Field Value
  number : ℕ → Field Value
  value : Value → Field Value

module _ {Value : Type 0} where
  abbrev one_more : Option Value → ℕ → ℕ
  one_more none n = n
  one_more (some v) n = n + 1

  abbrev optional_field : String → Option Value → List (String × Field Value)
  optional_field key none = []
  optional_field key (some v) = (key, Field.value v) ∷ []

module _ {Value Any : Type 0} where
  unfoldable pub new : ErrorKind → String → DogError Value Any
  new kind message = record {
    kind = kind;
    message = message;
    data_value = none;
    errors = none;
    source = none;
  }

  unfoldable pub with_data : DogError Value Any → Value → DogError Value Any
  with_data d v = record d { data_value = some v }

  unfoldable pub with_errors : DogError Value Any → Value → DogError Value Any
  with_errors d v = record d { errors = some v }

  unfoldable pub with_source : DogError Value Any → Any → DogError Value Any
  with_source d e = record d { source = some e }

  unfoldable pub code : DogError Value Any → ℕ
  unfolding status_code
  code d = status_code d.kind

  unfoldable pub sanitize_for_client : DogError Value Any → DogError Value Any
  sanitize_for_client d = record {
    kind = d.kind;
    message = d.message;
    data_value = d.data_value;
    errors = d.errors;
    source = none;
  }

  -- The fields of another error, in a new one.
  unfoldable pub reconstructed : DogError Value Any → DogError Value Any
  unfolding new with_data with_errors
  reconstructed d =
      let d1 = elim d.data_value as (λ _. DogError Value Any) [
        | none ↦ new d.kind d.message
        | some v ↦ with_data (new d.kind d.message) v
      ] in
      elim d.errors [ none ↦ d1 | some v ↦ with_errors d1 v ]

  unfoldable pub normalize : Anyhow Value Any → Any → DogError Value Any
  unfolding reconstructed new with_source
  normalize a e = elim (a.downcast e) [
    | ok dog ↦ dog
    | err other ↦ elim (a.chain_find other) [
      | some dog ↦ with_source (reconstructed dog) other
      | none ↦ with_source (new ErrorKind.general_error (a.to_string other)) other
    ]
  ]

  -- `Serialize`: the number of fields that is announced, and the fields.
  unfoldable pub field_count : DogError Value Any → ℕ
  field_count d = one_more d.errors (one_more d.data_value 4)

  unfoldable pub serialize : DogError Value Any → List (String × Field Value)
  unfolding name class_name code
  serialize d =
      (("name", Field.text (name d.kind))
        ∷ ("message", Field.text d.message)
        ∷ ("code", Field.number (code d))
        ∷ ("className", Field.text (class_name d.kind))
        ∷ [])
      ++ optional_field "data" d.data_value
      ++ optional_field "errors" d.errors

  -- `Display`; `show` displays a number.
  unfoldable pub display : (ℕ → String) → DogError Value Any → String
  unfolding name code
  display show d =
      text_append (name d.kind)
        (text_append " (" (text_append (show (code d)) (text_append "): " d.message)))
