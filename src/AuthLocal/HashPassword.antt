-- ===== src/AuthLocal/HashPassword.antt =====
-- dog-auth-local/src/hooks/hash_password.rs: `HashPasswordHook`, which replaces a password in the data of a call by its hash. `hash_password`
-- of the strategy, and the display of its errors, are parameters.
pub mod Laws
use dogrs.Base.{
  String, Bool, true, false, Option, none, some, List, [], ◌∷◌, is_empty, if◌then◌else◌,
}
use dogrs.Base.Results.{Result, ok, err}
use dogrs.Auth.Bearer.{trim, is_empty as is_blank}
use dogrs.AuthLocal.Protect.{json_kit}
use dogrs.AuthLocal.Values.{Value, Values, Fields, get_field, insert_field, get, path_parts}
use dogrs.Core.App.{Hook, Flow}
use dogrs.Core.Kit.{Kit}

-- Down the names of a path.
unfoldable pub get_parts : List String → Value → Option Value
get_parts [] v = some v
get_parts (p ∷ ps) v = elim (get v p) [ none ↦ none | some next ↦ get_parts ps next ]

unfoldable pub get_by_path : Value → String → Option Value
get_by_path v path = get_parts (path_parts path) v

-- Down the names but the last, which is set; what is missing on the way is an empty object.
unfoldable pub set_parts : List String → Value → Value → Result String Value
set_parts [] x v = ok v
set_parts (last ∷ []) x (Value.object m) = ok (Value.object (insert_field m last x))
set_parts (p ∷ q ∷ ps) x (Value.object m) =
    let next = elim (get_field m p) as (λ _. Value) [
      | none ↦ Value.object Fields.end
      | some v ↦ v
    ] in
    elim (set_parts (q ∷ ps) x next) [
      | err e ↦ err e
      | ok next' ↦ ok (Value.object (insert_field m p next'))
    ]
set_parts ps x v = err "Password hash target must be an object"

unfoldable pub set_by_path : Value → String → Value → Result String Value
set_by_path v path x = set_parts (path_parts path) x v

module _ (hash : String → Result String String) where
  -- The text of the error is given.
  unfoldable pub hash_text : String → String → Value → Result String Value
  hash_text path pw v =
      if is_blank (trim pw)
      then ok v
      else elim (hash pw) [ err e ↦ err e | ok hashed ↦ set_by_path v path (Value.text hashed) ]

  unfoldable pub hash_one : String → Value → Result String Value
  unfolding hash_text
  hash_one path v = elim (get_by_path v path) [
    | none ↦ ok v
    | some found ↦ elim found [
      | Value.text pw ↦ hash_text path pw v
      | _ ↦ err "Password must be a string"
    ]
  ]

  unfoldable pub hash_all : String → Values → Result String Values
  hash_all path Values.nil = ok Values.nil
  hash_all path (Values.cons v vs) =
      let rest = hash_all path vs in
      elim (hash_one path v) [
        | err e ↦ err e
        | ok w ↦ elim rest [ err e ↦ err e | ok ws ↦ ok (Values.cons w ws) ]
      ]

  unfoldable pub hash_input : String → Value → Result String Value
  unfolding hash_all hash_one
  hash_input path (Value.array items) = elim (hash_all path items) [
    | err e ↦ err e
    | ok out ↦ ok (Value.array out)
  ]
  hash_input path v = hash_one path v

  -- `HashPasswordHook::run`: the data is taken, and put back where no error ends the call.
  unfoldable pub hash_password_hook : (k : Kit) → (String → k.Error) → String → Hook (json_kit k)
  unfolding hash_input
  hash_password_hook k fail path f =
      elim f.ctx.input as (λ _. Result k.Error (Unit {0}) × Flow (json_kit k)) [
        | none ↦ (ok tt, f)
        | some v ↦ elim (hash_input path v) [
          | err e ↦ (err (fail e), record f { ctx = record (f.ctx) { input = none } })
          | ok w ↦ (ok tt, record f { ctx = record (f.ctx) { input = some w } })
        ]
      ]
