-- ===== src/Auth/Service.antt =====
-- dog-auth/src/service.rs: `AuthenticationService`, which makes access tokens and verifies them.
use dogrs.Base.{ℕ, String, Option, none, some, List, is_empty, if◌then◌else◌, string_eq}
use dogrs.Base.Results.{Result, ok, err}
use dogrs.Auth.Bearer.{trim, is_empty as is_blank, extract_bearer_token}
use dogrs.Auth.Core.{
  JsonKit, JwtOverrides, AuthenticationBase, AuthenticationRequest, AuthenticationParams,
  authenticate, create_access_token, not_authenticated, or_else,
}
use dogrs.Core.App.{Flow}
use dogrs.Core.Kit.{Kit}
use dogrs.Dict
use dogrs.Dict.{Dict}

-- A text with more than white space.
abbrev filled : Option String → Option String
filled none = none
filled (some s) = if is_blank (trim s) then none else some s

abbrev pub text_field : {Json : Type 0} → JsonKit Json → Json → String → Option String
text_field j v name = elim (j.field v name) [ none ↦ none | some w ↦ j.as_str w ]

module _ {k : Kit} {V : Type 0} (b : AuthenticationBase k V) where
  -- `auth_result.get(&entity_key).and_then(|e| e.get("id"))` as a text that is not blank.
  unfoldable pub entity_id : k.Item → Option String
  entity_id auth_result = elim b.options.entity [
    | none ↦ none
    | some entity_key ↦ elim (b.json.field auth_result entity_key) [
      | none ↦ none
      | some entity ↦ filled (text_field b.json entity "id")
    ]
  ]

  -- With the claim, where the payload is an object.
  unfoldable pub with_claim : k.Item → String → String → k.Item
  with_claim payload claim id = elim (b.json.as_object payload) [
    | none ↦ payload
    | some map ↦ b.json.object (Dict.put map claim (b.json.text id))
  ]

  unfoldable pub get_payload : k.Item → AuthenticationParams k.Item → k.Item
  unfolding entity_id with_claim
  get_payload auth_result params =
      let payload = or_else params.payload (b.json.object Dict.empty) in
      let claim = or_else b.options.entity_id_claim "sub" in
      elim (filled (text_field b.json payload claim)) [
        | some id ↦ payload
        | none ↦ elim (entity_id auth_result) [
          | none ↦ payload
          | some id ↦ with_claim payload claim id
        ]
      ]

  -- The result, or an object that holds it.
  abbrev result_object : k.Item → Dict String k.Item
  result_object auth_result = elim (b.json.as_object auth_result) [
    | some m ↦ m
    | none ↦ Dict.put Dict.empty "result" auth_result
  ]

  -- The result of a login, with an access token. `jti` is fresh.
  unfoldable pub with_access_token :
      k.Item
      → AuthenticationParams k.Item
      → Option JwtOverrides
      → ℕ
      → String
      → Result k.Error k.Item
  unfolding get_payload
  with_access_token auth_result params overrides now jti =
      elim (text_field b.json auth_result "accessToken") [
        | some token ↦ ok auth_result
        | none ↦ elim (create_access_token b (get_payload auth_result params) overrides now jti) [
          | err e ↦ err e
          | ok token ↦ ok (
              b.json.object
                (Dict.put (result_object auth_result) "accessToken" (b.json.text token)))
        ]
      ]

  unfoldable pub create :
      AuthenticationRequest k.Item
      → AuthenticationParams k.Item
      → List String
      → Option JwtOverrides
      → ℕ
      → String
      → Flow k
      → Result k.Error k.Item × Flow k
  unfolding with_access_token not_authenticated
  create req params strategies overrides now jti f =
      if is_empty strategies
      then (
        err (
            not_authenticated b
              "No authentication strategies allowed for creating a JWT (`authStrategies`)"),
        f,
      )
      else (let (r, f') = authenticate b req params strategies f in
          elim r [
            | err e ↦ (err e, f')
            | ok auth_result ↦ (with_access_token auth_result params overrides now jti, f')
          ])

  -- The token given, or that of the headers.
  abbrev token_of : Option String → AuthenticationParams k.Item → Option String
  token_of (some token) params = some token
  token_of none params = extract_bearer_token params.headers

  unfoldable pub remove :
      Option String
      → AuthenticationParams k.Item
      → List String
      → Flow k
      → Result k.Error k.Item × Flow k
  unfolding not_authenticated
  remove access_token params strategies f =
      elim (token_of access_token params) as (λ _. Result k.Error k.Item × Flow k) [
        | none ↦ (err (not_authenticated b "Invalid access token"), f)
        | some token ↦
            authenticate b
              (record {
                strategy = some "jwt";
                fields = Dict.put Dict.empty "accessToken" (b.json.text token);
              })
              params strategies f
      ]
