-- ===== src/Auth/Hooks.antt =====
-- dog-auth/src/hooks/: the hook that requires authentication, `AuthenticateHook`, and those that tell of it after the call, `ConnectionHook` and `EventHook`.
use dogrs.Base.{String, Bool, true, Option, none, some, List, is_empty, if◌then◌else◌, string_eq}
use dogrs.Base.Results.{Result, ok, err}
use dogrs.Auth.Bearer.{trim, is_empty as is_blank, extract_bearer_token}
use dogrs.Auth.Core.{
  AuthenticationBase, AuthenticationRequest, AuthenticationParams, authenticate, not_authenticated,
  or_else,
}
use dogrs.Core.App.{Flow, Hook, Shared}
use dogrs.Core.Events.{ServiceEventData}
use dogrs.Core.Hooks.{HookContext, HookResult}
use dogrs.Core.Kit.{Kit}
use dogrs.Core.Pipeline.{emit_custom}
use dogrs.Dict
use dogrs.Dict.{Dict}

-- The trait of the same name, of the parameters of a call.
pub record AuthenticateHookParams (k : Kit) : Type 0 where
  pub provider : k.Params → Option String
  pub headers : k.Params → Dict String String
  pub authentication : k.Params → Option (AuthenticationRequest k.Item)
  pub authenticated : k.Params → Bool
  pub set_authenticated : Bool → k.Params → k.Params
  pub set_auth_result : k.Item → k.Params → k.Params

pub data ConnectionEvent : Type 0 where
  login logout disconnect : ConnectionEvent

unfoldable pub event_name : ConnectionEvent → String
event_name ConnectionEvent.login = "login"
event_name ConnectionEvent.logout = "logout"
event_name ConnectionEvent.disconnect = "disconnect"

module _ {k : Kit} {V : Type 0} (b : AuthenticationBase k V) (p : AuthenticateHookParams k) where
  -- `provider().unwrap_or("")` is blank for a call from within.
  unfoldable pub is_internal : k.Params → Bool
  is_internal params = is_blank (trim (or_else (p.provider params) ""))

  abbrev bearer_request : String → AuthenticationRequest k.Item
  bearer_request token = record {
    strategy = some "jwt";
    fields = Dict.put Dict.empty "accessToken" (b.json.text token);
  }

  -- What the call brings: its request, or the token of its headers.
  unfoldable pub auth_request : k.Params → Option (AuthenticationRequest k.Item)
  auth_request params = elim (p.authentication params) [
    | some req ↦ some req
    | none ↦ elim (extract_bearer_token (p.headers params)) [
      | none ↦ none
      | some token ↦ some (bearer_request token)
    ]
  ]

  abbrev pub auth_params : List String → k.Params → AuthenticationParams k.Item
  auth_params strategies params = record {
    payload = none;
    jwt_options = none;
    auth_strategies = some strategies;
    secret = none;
    headers = p.headers params;
  }

  abbrev pub set_params : Flow k → k.Params → Flow k
  set_params f params = record f { ctx = record (f.ctx) { params = params } }

  -- `AuthenticateHook::run`.
  unfoldable pub authenticate_hook : List String → Hook k
  unfolding is_internal auth_request
  authenticate_hook strategies f =
      if p.authenticated f.ctx.params
      then (ok tt, f)
      else if is_internal f.ctx.params
      then (ok tt, f)
      else elim (auth_request f.ctx.params) as (λ _. Result k.Error (Unit {0}) × Flow k) [
        | none ↦ (err (not_authenticated b "Not authenticated"), f)
        | some req ↦
            if is_empty strategies
            then (err (k.anyhow "The authenticate hook needs at least one allowed strategy"), f)
            else (let (r, f') =
                  authenticate b req (auth_params strategies f.ctx.params) strategies f in
                elim r [
                  | err e ↦ (err e, f')
                  | ok auth_result ↦ (
                    ok tt,
                    set_params f'
                        (p.set_authenticated true (p.set_auth_result auth_result f'.ctx.params)),
                  )
                ])
      ]

  -- The one result, or all as one value; `items_value` is `serde_json::to_value`.
  abbrev auth_result_of :
      (List k.Item → Result String k.Item) → HookResult k.Item → Result k.Error k.Item
  auth_result_of items_value (HookResult.one v) = ok v
  auth_result_of items_value (HookResult.many vs) = elim (items_value vs) [
    | err e ↦ err (k.anyhow e)
    | ok v ↦ ok v
  ]

  -- `EventHook::run`; `payload` erases the type of a value.
  unfoldable pub event_hook :
      (k.Listener → ServiceEventData k → HookContext k → Shared k → Shared k)
      → (List k.Item → Result String k.Item)
      → (k.Item → k.Payload)
      → ConnectionEvent
      → Hook k
  unfolding is_internal event_name
  event_hook deliver items_value payload event f =
      if is_internal f.ctx.params
      then (ok tt, f)
      else elim f.ctx.result as (λ _. Result k.Error (Unit {0}) × Flow k) [
        | none ↦ (ok tt, f)
        | some result ↦ elim (auth_result_of items_value result) [
          | err e ↦ (err e, f)
          | ok v ↦ (
            ok tt,
            record f {
              shared =
                  emit_custom deliver "authentication" (event_name event) (payload v) f.ctx
                    f.shared;
            },
          )
        ]
      ]

-- The parameters `P` with what the hook reads and writes; the connection is left out.
pub record AuthParams (P Json : Type 0) : Type 0 where
  pub inner : P
  pub provider : Option String
  pub headers : Dict String String
  pub authentication : Option (AuthenticationRequest Json)
  pub authenticated : Bool
  pub auth_result : Option Json

abbrev pub auth_kit : Kit → Kit
auth_kit k = record k { Params = AuthParams k.Params k.Item }

abbrev pub auth_params_hook_params : (k : Kit) → AuthenticateHookParams (auth_kit k)
auth_params_hook_params k = record {
  provider = λ params. params.provider;
  headers = λ params. params.headers;
  authentication = λ params. params.authentication;
  authenticated = λ params. params.authenticated;
  set_authenticated = λ v params. record params { authenticated = v };
  set_auth_result = λ v params. record params { auth_result = some v };
}
