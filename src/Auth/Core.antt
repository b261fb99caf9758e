-- ===== src/Auth/Core.antt =====
-- dog-auth/src/core.rs: `AuthenticationBase`, which authenticates by one of its strategies and makes tokens. The values of JSON and the provider of JSON web
-- tokens are those of the libraries; a strategy is given by the application.
use Prim.Native.String.{◌++◌ as text_append}
use dogrs.Base.{
  ℕ, ◌+◌, ◌%◌, ◌^◌, String, not, ◌&&◌, Option, none, some, List, [], ◌∷◌, is_empty, any,
  if◌then◌else◌, ◌==◌, string_eq,
}
use dogrs.Base.Results.{Result, err}
use dogrs.Core.App.{Flow}
use dogrs.Core.Errors.{ErrorKind, Anyhow, new}
use dogrs.Core.Kit.{Kit}
use dogrs.Dict
use dogrs.Dict.{Dict}

pub data TokenType : Type 0 where
  access refresh identity : TokenType

-- `serde_json::Value`. `number` is the number of an `i64`, which is given by its 64 bits.
pub record JsonKit (Json : Type 0) : Type 0 where
  pub field : Json → String → Option Json
  pub as_str : Json → Option String
  pub as_object : Json → Option (Dict String Json)
  pub object : Dict String Json → Json
  pub text : String → Json
  pub texts : List String → Json
  pub number : ℕ → Json

pub record AuthenticationRequest (Json : Type 0) : Type 0 where
  pub strategy : Option String
  pub fields : Dict String Json

pub record JwtOverrides : Type 0 where
  pub issuer : Option String
  pub audience : Option (List String)
  pub expires_in_seconds : Option ℕ
  pub token_type : Option TokenType

pub record AuthenticationParams (Json : Type 0) : Type 0 where
  pub payload : Option Json
  pub jwt_options : Option JwtOverrides
  pub auth_strategies : Option (List String)
  pub secret : Option String
  pub headers : Dict String String

-- Of `JwtOptions`, what a token is made of; the durations are in seconds.
pub record JwtOptions (Json : Type 0) : Type 0 where
  pub issuer : String
  pub audience : List String
  pub access_token_expires_in : ℕ
  pub refresh_token_expires_in : ℕ
  pub custom_claims : Dict String Json
  pub secret : Option String

pub record AuthOptions (Json : Type 0) : Type 0 where
  pub entity : Option String
  pub service : Option String
  pub entity_id_claim : Option String
  pub jwt : JwtOptions Json

-- A strategy may act on the context of the call and on what the application supplies.
abbrev pub Strategy : Kit → Type 0
Strategy k =
    AuthenticationRequest k.Item
    → AuthenticationParams k.Item
    → Flow k
    → Result k.Error k.Item × Flow k

-- `V` is the type of the data of errors. `sign` is that of the provider of tokens.
pub record AuthenticationBase (k : Kit) (V : Type 0) : Type 0 where
  pub options : AuthOptions k.Item
  pub strategies : Dict String (Strategy k)
  pub sign : JwtOptions k.Item → Dict String k.Item → TokenType → Result k.Error String
  pub json : JsonKit k.Item
  pub anyhow : Anyhow V k.Error

abbrev pub or_else {ℓ} : {A : Type ℓ} → Option A → A → A
or_else none a = a
or_else (some b) a = b

abbrev expires : {Json : Type 0} → JwtOptions Json → TokenType → ℕ
expires jwt TokenType.refresh = jwt.refresh_token_expires_in
expires jwt _ = jwt.access_token_expires_in

-- `insert` for each pair.
unfoldable pub insert_all :
    {Json : Type 0} → List (String × Json) → Dict String Json → Dict String Json
insert_all [] d = d
insert_all ((name, v) ∷ l) d = insert_all l (Dict.put d name v)

module _ {k : Kit} {V : Type 0} (b : AuthenticationBase k V) where
  unfoldable pub not_authenticated : String → k.Error
  unfolding new
  not_authenticated msg = b.anyhow.wrap (new ErrorKind.not_authenticated msg)

  unfoldable pub authenticate :
      AuthenticationRequest k.Item
      → AuthenticationParams k.Item
      → List String
      → Flow k
      → Result k.Error k.Item × Flow k
  unfolding not_authenticated
  authenticate req params allowed f = elim req.strategy [
    | none ↦ (err (not_authenticated "Invalid authentication information (no `strategy` set)"), f)
    | some strategy_name ↦
        if not (is_empty allowed) && not (any (λ s. s == strategy_name) allowed)
        then (
          err (
              not_authenticated
                "Invalid authentication information (strategy not allowed in authStrategies)"),
          f,
        )
        else elim (Dict.get b.strategies strategy_name) as (λ _. Result k.Error k.Item × Flow k) [
          | none ↦ (
            err (not_authenticated (text_append "Unknown authentication strategy: " strategy_name)),
            f,
          )
          | some strategy ↦ strategy req params f
        ]
  ]

  -- The payload, or an object that holds it.
  unfoldable pub claims_of : k.Item → Dict String k.Item
  claims_of payload = elim (b.json.as_object payload) [
    | some m ↦ m
    | none ↦ Dict.put Dict.empty "payload" payload
  ]

  -- The times are in `i64`: the cast of the lifetime keeps its bits, and the sum wraps, as in a build without overflow
  -- checks.
  unfoldable pub standard_claims : Option JwtOverrides → ℕ → ℕ → String → List (String × k.Item)
  standard_claims overrides now expires_in_seconds jti =
      let jwt = b.options.jwt in
      let issuer : String = elim overrides [
        | none ↦ jwt.issuer
        | some o ↦ or_else o.issuer jwt.issuer
      ] in
      let audience : List String = elim overrides [
        | none ↦ jwt.audience
        | some o ↦ or_else o.audience jwt.audience
      ] in
      ("iss", b.json.text issuer)
      ∷ ("aud", b.json.texts audience)
      ∷ ("iat", b.json.number now)
      ∷ ("exp", b.json.number ((now + expires_in_seconds) % 2 ^ 64))
      ∷ ("jti", b.json.text jti)
      ∷ []

  abbrev pub token_type_of : Option JwtOverrides → TokenType → TokenType
  token_type_of none default_type = default_type
  token_type_of (some o) default_type = or_else o.token_type default_type

  abbrev pub lifetime : Option JwtOverrides → TokenType → ℕ
  lifetime none t = expires b.options.jwt t
  lifetime (some o) t = or_else o.expires_in_seconds (expires b.options.jwt t)

  -- The claims of a token: those of the payload, then the standard ones, then those of the configuration. `jti` is fresh.
  unfoldable pub token_claims :
      k.Item → Option JwtOverrides → TokenType → ℕ → String → Dict String k.Item
  unfolding insert_all claims_of standard_claims
  token_claims payload overrides default_type now jti =
      insert_all (Dict.iter b.options.jwt.custom_claims) (
        insert_all
          (standard_claims overrides now (lifetime overrides (token_type_of overrides default_type))
            jti)
          (claims_of payload))

  unfoldable pub create_token :
      k.Item → Option JwtOverrides → TokenType → ℕ → String → Result k.Error String
  unfolding token_claims
  create_token payload overrides default_type now jti =
      b.sign b.options.jwt (token_claims payload overrides default_type now jti)
        (token_type_of overrides default_type)

  abbrev pub create_access_token : k.Item → Option JwtOverrides → ℕ → String → Result k.Error String
  create_access_token payload overrides now jti =
      create_token payload overrides TokenType.access now jti
