-- ===== src/Auth/Claims.antt =====
-- Which value a claim of a token has.
use dogrs.Base.{
  ℕ, ◌+◌, ◌%◌, ◌^◌, ◌≡◌, refl, sym, ap, ◌∙◌, String, Option, none, some, List, [], ◌∷◌, arith,
  if◌then◌else◌, ◌==◌, string_eq, In, here, there, str_beq_iff, Option-cases, Bool-cases, inl, inr,
}
use dogrs.Auth.Core.{
  AuthenticationBase, JwtOptions, JwtOverrides, TokenType, or_else, insert_all, claims_of,
  standard_claims, token_type_of, lifetime, token_claims,
}
use dogrs.Core.Kit.{Kit}
use dogrs.Dict
use dogrs.Dict.{Dict, get-put, get-empty}

-- The value of the last pair of the name.
unfoldable pub last_of : {Json : Type 0} → String → List (String × Json) → Option Json
last_of name [] = none
last_of name ((n, v) ∷ l) = elim (last_of name l) [
  | some w ↦ some w
  | none ↦ if n == name then some v else none
]

-- The first of two options that there is.
abbrev pub or : {A : Type 0} → Option A → Option A → Option A
or (some a) o = some a
or none o = o

get-insert_all :
    {Json : Type 0} (l : List (String × Json)) (d : Dict String Json) (name : String)
    → Dict.get (insert_all l d) name ≡ or (last_of name l) (Dict.get d name)
unfolding insert_all last_of
get-insert_all [] d name = refl
get-insert_all ((n, v) ∷ l) d name =
    get-insert_all l (Dict.put d n v) name ∙ elim (Option-cases (last_of name l)) [
      | inr (w, later) ↦ rw (later, last_of) refl
      | inl last ↦
          rw (last, last_of)
            (get-put d n name v ∙ elim (Bool-cases (n == name)) [
              | inl same ↦ rw same refl
              | inr other ↦ rw other refl
            ])
    ]

last_of-In :
    {Json : Type 0} (l : List (String × Json)) (name : String) (v : Json)
    → last_of name l ≡ some v
    → In (name, v) l
unfolding last_of
last_of-In [] name v e = absurd (ground (arith, e))
last_of-In ((n, w) ∷ l) name v e = elim (Option-cases (last_of name l)) [
  | inr (x, later) ↦ there (last_of-In l name v (later ∙ rw (later, last_of) at e))
  | inl last ↦ elim (Bool-cases (n == name)) [
    | inl same ↦
        let held : w ≡ v = ground (arith, rw (last, last_of, same) at e) in
        here (ap (λ x. (x, v)) (sym ((str_beq_iff n name).0 same)) ∙ ap (λ y. (n, y)) (sym held))
    | inr other ↦ absurd (ground (arith, rw (last, last_of, other) at e))
  ]
]

In-last_of :
    {Json : Type 0} (l : List (String × Json)) (name : String) (v : Json)
    → In (name, v) l
    → ¬ (last_of name l ≡ none)
unfolding last_of
In-last_of [] name v i e = elim i [ ]
In-last_of ((n, w) ∷ l) name v (here same) e = elim (Option-cases (last_of name l)) [
  | inl last ↦
      let equal = (str_beq_iff n name).1 (sym (ap (λ x. x.0) same)) in
      ground (arith, rw (last, last_of, equal) at e)
  | inr (x, later) ↦ ground (arith, rw (later, last_of) at e)
]
In-last_of ((n, w) ∷ l) name v (there i) e = elim (Option-cases (last_of name l)) [
  | inl last ↦ In-last_of l name v i last
  | inr (x, later) ↦ ground (arith, rw (later, last_of) at e)
]

last_of-iter :
    {Json : Type 0} (d : Dict String Json) (name : String)
    → Dict.IsWf d
    → last_of name (Dict.iter d) ≡ Dict.get d name
last_of-iter d name h = elim (Option-cases (last_of name (Dict.iter d))) [
  | inr (v, last) ↦ last ∙ sym (Dict.iter-get d name v h (last_of-In (Dict.iter d) name v last))
  | inl missing ↦ elim (Option-cases (Dict.get d name)) [
    | inl unknown ↦ missing ∙ sym unknown
    | inr (v, known) ↦
        absurd (In-last_of (Dict.iter d) name v (Dict.get-iter d name v known) missing)
  ]
]

-- The override, where there is one, else the setting.
abbrev pub chosen : {A : Type 0} → Option JwtOverrides → (JwtOverrides → Option A) → A → A
chosen none field a = a
chosen (some o) field a = elim (field o) [ none ↦ a | some v ↦ v ]

-- How long a token of each type lives.
abbrev pub lives_for : {Json : Type 0} → JwtOptions Json → TokenType → ℕ
lives_for jwt TokenType.access = jwt.access_token_expires_in
lives_for jwt TokenType.identity = jwt.access_token_expires_in
lives_for jwt TokenType.refresh = jwt.refresh_token_expires_in

-- The value of a name in five pairs of different names.
last_of-five :
    {Json : Type 0} (iss aud iat exp jti : Json) (name : String) (o : Option Json)
    → or
        (last_of name
          (("iss", iss) ∷ ("aud", aud) ∷ ("iat", iat) ∷ ("exp", exp) ∷ ("jti", jti) ∷ []))
        o
      ≡ (if "jti" == name
          then some jti
          else if "exp" == name
          then some exp
          else if "iat" == name
          then some iat
          else if "aud" == name
          then some aud
          else if "iss" == name
          then some iss
          else o)
unfolding last_of
last_of-five iss aud iat exp jti name o = ground arith

or_else-chosen :
    {A : Type 0} (o : Option A) (a : A) → or_else o a ≡ elim o [ none ↦ a | some v ↦ v ]
or_else-chosen none a = refl
or_else-chosen (some v) a = refl

-- What a payload says of a name: the fields of an object, or the whole under `payload`.
abbrev pub claim_in : {Json : Type 0} → Option (Dict String Json) → Json → String → Option Json
claim_in (some m) payload name = Dict.get m name
claim_in none payload name = if "payload" == name then some payload else none

module _ {k : Kit} {V : Type 0} (b : AuthenticationBase k V) where
  token_claims-layers :
      (payload : k.Item) (overrides : Option JwtOverrides) (default_type : TokenType) (now : ℕ)
      (jti name : String)
      → Dict.IsWf b.options.jwt.custom_claims
      → Dict.get (token_claims b payload overrides default_type now jti) name
        ≡ or (Dict.get b.options.jwt.custom_claims name) (
            or
              (last_of name (
                standard_claims b overrides now
                  (lifetime b overrides (token_type_of b overrides default_type))
                  jti))
              (Dict.get (claims_of b payload) name))
  unfolding token_claims
  token_claims-layers payload overrides default_type now jti name h =
      let inner =
        insert_all
          (standard_claims b overrides now
            (lifetime b overrides (token_type_of b overrides default_type)) jti)
          (claims_of b payload) in
      get-insert_all (Dict.iter b.options.jwt.custom_claims) inner name
      ∙ ap (λ x. or x (Dict.get inner name)) (last_of-iter b.options.jwt.custom_claims name h)
      ∙ ap (or (Dict.get b.options.jwt.custom_claims name)) (
          get-insert_all
            (standard_claims b overrides now
              (lifetime b overrides (token_type_of b overrides default_type)) jti)
            (claims_of b payload) name)

  abbrev pub payload_claim : k.Item → String → Option k.Item
  payload_claim payload name = claim_in (b.json.as_object payload) payload name

  wrapped :
      (payload : k.Item) (name : String)
      → (if "payload" == name then some payload else Dict.get Dict.empty name)
        ≡ claim_in none payload name
  wrapped payload name = elim (Bool-cases ("payload" == name)) [
    | inl same ↦ rw same refl
    | inr other ↦ rw other (get-empty name)
  ]

  claims_of-get :
      (payload : k.Item) (name : String)
      → Dict.get (claims_of b payload) name ≡ payload_claim payload name
  unfolding claims_of
  claims_of-get payload name = elim (Option-cases (b.json.as_object payload)) [
    | inr (m, known) ↦
        let given : Dict.get (claims_of b payload) name ≡ Dict.get m name =
          rw (known, claims_of) refl in
        given ∙ sym (ap (λ o. claim_in o payload name) known)
    | inl no_object ↦
        let given : Dict.get (claims_of b payload) name ≡ claim_in none payload name =
          rw (no_object, claims_of)
            (get-put Dict.empty "payload" name payload ∙ wrapped payload name) in
        given ∙ sym (ap (λ o. claim_in o payload name) no_object)
  ]

  abbrev pub expiry : Option JwtOverrides → TokenType → ℕ → ℕ
  expiry overrides default_type now =
      let t = chosen overrides (λ o. o.token_type) default_type in
      (now + chosen overrides (λ o. o.expires_in_seconds) (lives_for b.options.jwt t)) % 2 ^ 64

  standard_claims-chosen :
      (overrides : Option JwtOverrides) (default_type : TokenType) (now : ℕ) (jti : String)
      → standard_claims b overrides now
          (lifetime b overrides (token_type_of b overrides default_type))
          jti
        ≡ ("iss", b.json.text (chosen overrides (λ o. o.issuer) b.options.jwt.issuer))
          ∷ ("aud", b.json.texts (chosen overrides (λ o. o.audience) b.options.jwt.audience))
          ∷ ("iat", b.json.number now)
          ∷ ("exp", b.json.number (expiry overrides default_type now))
          ∷ ("jti", b.json.text jti)
          ∷ []
  unfolding standard_claims
  standard_claims-chosen none TokenType.access now jti = refl
  standard_claims-chosen none TokenType.refresh now jti = refl
  standard_claims-chosen none TokenType.identity now jti = refl
  standard_claims-chosen (some o) default_type now jti = ground (
    arith,
    or_else-chosen o.issuer b.options.jwt.issuer,
    or_else-chosen o.audience b.options.jwt.audience,
  )

  -- Where the configuration has no custom claim twice, a claim of a token has the value that the
  -- configuration gives it, if it gives one; else the claims `iss`, `aud`, `iat`, `exp` and `jti` are
  -- the issuer, the audience, the time, the time plus the token's lifetime in 64 bits, and the fresh
  -- id, where the overrides may replace the issuer, the audience, the type of the token and its
  -- lifetime, and any other claim is that of the payload, which is the claim `payload` if it is no
  -- object.
  pub get-token_claims :
      (payload : k.Item) (overrides : Option JwtOverrides) (default_type : TokenType) (now : ℕ)
      (jti name : String)
      → Dict.IsWf b.options.jwt.custom_claims
      → Dict.get (token_claims b payload overrides default_type now jti) name
        ≡ or (Dict.get b.options.jwt.custom_claims name) (
            if "jti" == name
            then some (b.json.text jti)
            else if "exp" == name
            then some (b.json.number (expiry overrides default_type now))
            else if "iat" == name
            then some (b.json.number now)
            else if "aud" == name
            then some (b.json.texts (chosen overrides (λ o. o.audience) b.options.jwt.audience))
            else if "iss" == name
            then some (b.json.text (chosen overrides (λ o. o.issuer) b.options.jwt.issuer))
            else payload_claim payload name)
  get-token_claims payload overrides default_type now jti name h =
      token_claims-layers payload overrides default_type now jti name h
      ∙ ap (or (Dict.get b.options.jwt.custom_claims name)) (
          ap
            (or (
              last_of name (
                standard_claims b overrides now
                  (lifetime b overrides (token_type_of b overrides default_type)) jti)))
            (claims_of-get payload name)
          ∙ ap (λ l. or (last_of name l) (payload_claim payload name))
              (standard_claims-chosen overrides default_type now jti)
          ∙ last_of-five _ _ _ _ _ name (payload_claim payload name))
