-- ===== src/AuthLocal/Strategy.antt =====
-- dog-auth-local/src/strategy.rs: `LocalStrategy`, which authenticates by a name and a password. The hash of a password and the comparison with a hash
-- are parameters; so are the resolver and the builder of queries, which an application may supply.
pub mod Laws
use Prim.Native.Char.{code}
use Prim.Native.String.{◌++◌ as text_append}
use dogrs.Base.{
  ℕ, String, Bool, true, false, ◌||◌, Option, none, some, List, [], ◌∷◌, eqb, if◌then◌else◌, ◌==◌,
  string_eq,
}
use dogrs.Base.Results.{Result, ok, err}
use dogrs.Auth.Bearer.{trim, is_empty as is_blank}
use dogrs.Auth.Core.{
  AuthenticationBase, AuthenticationRequest, AuthenticationParams, not_authenticated, or_else,
}
use dogrs.AuthLocal.HashPassword.{get_by_path}
use dogrs.AuthLocal.Protect.{json_kit}
use dogrs.AuthLocal.Values.{Value, Fields, get, insert_field, remove_field}
use dogrs.Core.App
use dogrs.Core.App.{Flow, DogApp, DogService, Served}
use dogrs.Core.Kit.{Kit}
use dogrs.Dict

pub record LocalStrategyOptions : Type 0 where
  pub username_field : String
  pub password_field : String
  pub entity_username_field : String
  pub entity_password_field : String
  pub hash_size : ℕ
  pub error_message : String

abbrev pub default_options : LocalStrategyOptions
default_options = record {
  username_field = "email";
  password_field = "password";
  entity_username_field = "email";
  entity_password_field = "password";
  hash_size = 10;
  error_message = "Invalid login";
}

-- `app` is what the context's `services` call.
pub record LocalStrategy (k : Kit) : Type 0 where
  pub name : String
  pub options : LocalStrategyOptions
  pub entity_resolver :
      Option (String → Flow (json_kit k) → Result k.Error (Option Value) × Flow (json_kit k))
  pub entity_query_builder : Option (k.Params → String → String → k.Params)
  pub app : DogApp (json_kit k)
  pub hash : String → ℕ → Result String String
  pub verify : String → String → Result String Bool

abbrev pub text_of : Option Value → Option String
text_of none = none
text_of (some v) = elim v [ Value.text t ↦ some t | _ ↦ none ]

unfoldable pub has_dot : String → Bool
has_dot String.[] = false
has_dot (String.◌∷◌ c s) = eqb (code c) b'.' || has_dot s

unfoldable pub strip_password : Value → String → Value
unfolding has_dot
strip_password (Value.object m) path =
    if has_dot path then Value.object m else Value.object (remove_field m path)
strip_password v path = v

unfoldable pub is_named : String → String → Value → Bool
is_named field username entity = elim (text_of (get entity field)) [
  | none ↦ false
  | some s ↦ s == username
]

-- The first entity of the name.
unfoldable pub first_named : String → String → List Value → Option Value
unfolding is_named
first_named field username [] = none
first_named field username (e ∷ es) =
    let rest = first_named field username es in if is_named field username e then some e else rest

module _ {k : Kit} {V : Type 0} (b : AuthenticationBase (json_kit k) V) (l : LocalStrategy k) where
  abbrev pub denied : k.Error
  denied = not_authenticated b l.options.error_message

  unfoldable pub verify_configuration : Result k.Error (Unit {0})
  verify_configuration =
      if is_blank (trim l.options.username_field)
      then err (
          k.anyhow (
            text_append "'"
              (text_append l.name "' authentication strategy requires a 'username_field' setting")))
      else if is_blank (trim l.options.password_field)
      then err (
          k.anyhow (
            text_append "'"
              (text_append l.name "' authentication strategy requires a 'password_field' setting")))
      else ok tt

  unfoldable pub hash_password : String → Result k.Error String
  hash_password password = elim (l.hash password l.options.hash_size) [
    | err e ↦ err (k.anyhow e)
    | ok hashed ↦ ok hashed
  ]

  -- The text of a field that is more than white space.
  unfoldable pub get_required_str : AuthenticationRequest Value → String → Option String
  get_required_str req key = elim (text_of (Dict.get req.fields key)) [
    | none ↦ none
    | some s ↦ if is_blank (trim s) then none else some s
  ]

  abbrev find_params : k.Params → String → k.Params
  find_params params username = elim l.entity_query_builder [
    | none ↦ params
    | some build ↦ build params l.options.entity_username_field username
  ]

  abbrev pub with_found :
      String
      → Flow (json_kit k)
      → Served (json_kit k) (List Value)
      → Result k.Error (Option Value) × Flow (json_kit k)
  with_found username f (err e, w) = (err e, record f { shared = record (f.shared) { world = w } })
  with_found username f (ok all, w) = (
    ok (first_named l.options.entity_username_field username all),
    record f { shared = record (f.shared) { world = w } },
  )

  -- The service is called itself, without its hooks.
  unfoldable pub find_entity :
      String → String → Flow (json_kit k) → Result k.Error (Option Value) × Flow (json_kit k)
  unfolding first_named
  find_entity service_name username f =
      if is_blank (trim username)
      then (ok none, f)
      else elim (App.service l.app service_name)
          as (λ _. Result k.Error (Option Value) × Flow (json_kit k)) [
            | err e ↦ (err e, f)
            | ok svc ↦
                with_found username f
                  (svc.find f.ctx.tenant (find_params f.ctx.params username) f.shared.world)
          ]

  unfoldable pub resolve :
      String → Flow (json_kit k) → Result k.Error (Option Value) × Flow (json_kit k)
  resolve username f = elim l.entity_resolver [
    | some resolver ↦ resolver username f
    | none ↦ elim b.options.service as (λ _. Result k.Error (Option Value) × Flow (json_kit k)) [
      | none ↦ (err (not_authenticated b "Local strategy requires authentication.service"), f)
      | some service_name ↦ find_entity service_name username f
    ]
  ]

  unfoldable pub compare_password : Value → String → Result k.Error (Unit {0})
  compare_password entity password =
      elim (text_of (get_by_path entity l.options.entity_password_field)) [
        | none ↦ err denied
        | some hash_val ↦ elim (l.verify password hash_val) [
          | err e ↦ err (not_authenticated b e)
          | ok same ↦ if same then ok tt else err denied
        ]
      ]

  unfoldable pub result_of : Value → Value
  unfolding strip_password
  result_of entity = Value.object (
      insert_field
        (Fields.field "authentication"
          (Value.object (Fields.field "strategy" (Value.text l.name) Fields.end)) Fields.end)
        (or_else b.options.entity "user") (strip_password entity l.options.entity_password_field))

  -- With the name and the password.
  unfoldable pub log_in :
      String → String → Flow (json_kit k) → Result k.Error Value × Flow (json_kit k)
  unfolding result_of
  log_in username password f =
      let (r, f') = resolve username f in
      elim r [
        | err e ↦ (err e, f')
        | ok found ↦ elim found as (λ _. Result k.Error Value × Flow (json_kit k)) [
          | none ↦ (err denied, f')
          | some entity ↦ elim (compare_password entity password) [
            | err e ↦ (err e, f')
            | ok _ ↦ (ok (result_of entity), f')
          ]
        ]
      ]

  unfoldable pub authenticate :
      AuthenticationRequest Value
      → AuthenticationParams Value
      → Flow (json_kit k)
      → Result k.Error Value × Flow (json_kit k)
  unfolding log_in
  authenticate req params f =
      elim verify_configuration as (λ _. Result k.Error Value × Flow (json_kit k)) [
        | err e ↦ (err e, f)
        | ok _ ↦
            elim (get_required_str req l.options.username_field)
              as (λ _. Result k.Error Value × Flow (json_kit k)) [
                | none ↦ (err denied, f)
                | some username ↦
                    elim (get_required_str req l.options.password_field)
                      as (λ _. Result k.Error Value × Flow (json_kit k)) [
                        | none ↦ (err denied, f)
                        | some password ↦ log_in username password f
                      ]
              ]
      ]
