-- ===== src/Axum/Examples/Auth.antt =====
-- The theorems on authentication, at the same application.
use dogrs.Base.{
  ℕ, ◌≡◌, refl, String, true, false, if◌then◌else◌, ◌==◌, none, some, [], ◌∷◌, string_eq, str_beq,
  any, is_empty,
}
use dogrs.Base.Results.{ok, err}
use dogrs.Auth.Bearer.{
  extract_bearer_token, bearer_token, strip_prefix, trim_start, trim_end, authorization,
  is_whitespace,
}
use dogrs.Auth.Core.{
  AuthenticationBase, AuthenticationRequest, authenticate, TokenType, token_claims,
}
use dogrs.Auth.Claims.{or, payload_claim, get-token_claims}
use dogrs.Auth.Hooks.{
  AuthenticateHookParams, is_internal, auth_request, auth_params, set_params,
  auth_params_hook_params, authenticate_hook,
}
use dogrs.Auth.Laws.{IsAuthentic, authenticate_hook-IsAuthentic}
use dogrs.Axum.Guarded.{IsGuarded, IsRestAuth, refusal, service_router-refused}
use dogrs.Axum.Params.{RestParams, auth_from_rest_params, header_text, insert_headers}
use dogrs.Axum.Response.{into_response}
use dogrs.Axum.Rest.{Route, read_item, service_router}
use dogrs.Core.App
use dogrs.Core.App.{Shared, Answer, Flow, DogService, DogApp, new_builder, register_service}
use dogrs.Core.Handle.{ServiceHandle, handle_of}
use dogrs.Core.Hooks
use dogrs.Core.Pipeline.{collect_hooks_for_method, hooks_of}
use dogrs.Core.Service.{ServiceMethodKind}
use dogrs.Dict
use dogrs.Axum.Examples.{
  Fault, anyhow, documented, http, http-IsHttp, kit, rest, service, app, shared, simple, tenant,
}

abbrev base : AuthenticationBase kit String
base = record {
  options = record {
    entity = none;
    service = none;
    entity_id_claim = none;
    jwt = record {
      issuer = "dogrs";
      audience = "api" ∷ [];
      access_token_expires_in = 900;
      refresh_token_expires_in = 86400;
      custom_claims = Dict.empty;
      secret = some "key";
    };
  };
  strategies = Dict.put Dict.empty "jwt" (λ req params f. (ok "user", f));
  sign = λ jwt claims t. ok "token";
  json = record {
    field = λ v name. none;
    as_str = some;
    as_object = λ v. none;
    object = λ d. "{}";
    text = λ t. t;
    texts = λ l. "[..]";
    number = λ n. "n";
  };
  anyhow = anyhow;
}

abbrev params : AuthenticateHookParams kit
params = auth_params_hook_params (record {
  World = ℕ;
  Item = String;
  Params = RestParams;
  Error = Fault;
  Listener = ℕ;
  Payload = ℕ;
  anyhow = Fault.plain;
})

abbrev guarded_app : DogApp kit
guarded_app = record app {
  service_hooks =
      Dict.put Dict.empty "notes"
        (Hooks.before_all Hooks.new_hooks (authenticate_hook base params ("jwt" ∷ [])));
}

abbrev guarded_handle : ServiceHandle kit
guarded_handle = record { app = guarded_app; name = "notes"; service = service }

guarded_known : handle_of guarded_app "notes" ≡ ok guarded_handle
unfolding handle_of App.service register_service
guarded_known =
    rw
      (
        Dict.get-put_self (new_builder {k = kit}).app.registry "notes" service,
        handle_of,
        App.service,
      )
      refl

guarded_app-IsGuarded : IsGuarded base params guarded_app "notes" ("jwt" ∷ [])
unfolding collect_hooks_for_method hooks_of Hooks.collect_method_hooks Hooks.new_hooks
    Hooks.before_all new_builder register_service Dict.get Dict.empty
guarded_app-IsGuarded = record {
  before = λ m. [];
  after = λ m. [];
  guarded = λ m.
      rw
        (
          Dict.get-put_self (new_builder {k = kit}).app.service_hooks "notes"
              (Hooks.before_all Hooks.new_hooks (authenticate_hook base params ("jwt" ∷ []))),
          collect_hooks_for_method,
        )
        refl;
}

abbrev rest_auth : IsRestAuth rest params
rest_auth = record {
  provider_rest = λ r. refl;
  headers_rest = λ r. refl;
  no_request = λ r. refl;
  not_yet = λ r. refl;
}

no_token : extract_bearer_token (insert_headers simple.headers Dict.empty) ≡ none
unfolding extract_bearer_token authorization insert_headers Dict.get Dict.put Dict.empty str_beq
no_token = refl

service_router-refused_example :
    (service_router rest "notes" guarded_app Route.get_root simple shared
      ≡ (err (refusal base params), shared))
    × (service_router rest "notes" guarded_app Route.post_root simple shared
        ≡ (err (refusal base params), shared))
    × (service_router rest "notes" guarded_app (Route.get_id "7") simple shared
        ≡ (err (refusal base params), shared))
    × (service_router rest "notes" guarded_app (Route.put_id "7") simple shared
        ≡ (err (refusal base params), shared))
    × (service_router rest "notes" guarded_app (Route.patch_id "7") simple shared
        ≡ (err (refusal base params), shared))
    × (service_router rest "notes" guarded_app (Route.delete_id "7") simple shared
        ≡ (err (refusal base params), shared))
    × ((status : ℕ) × (http.from_u16 401 ≡ some status)
        × ((into_response http anyhow (refusal base params)).0 ≡ status))
unfolding header_text read_item str_beq
service_router-refused_example =
    service_router-refused rest base params http guarded_app "notes" "7" ("jwt" ∷ []) guarded_handle
      "n" simple shared documented http-IsHttp rest_auth guarded_known guarded_app-IsGuarded refl
      refl no_token

abbrev logged_in : Flow kit
logged_in = record {
  shared = shared;
  ctx =
      Hooks.new_context tenant ServiceMethodKind.find
        (auth_from_rest_params (record {
          provider = "rest";
          headers = Dict.put Dict.empty "authorization" "Bearer abc";
          query = Dict.empty;
          method = "GET";
          path = "/notes";
          raw_query = none;
        }))
        Dict.empty;
}

passes :
    authenticate_hook base params ("jwt" ∷ []) logged_in
    ≡ (ok tt, (authenticate_hook base params ("jwt" ∷ []) logged_in).1)
unfolding authenticate_hook authenticate is_internal auth_request extract_bearer_token bearer_token
    authorization strip_prefix trim_start trim_end is_whitespace Hooks.new_context Dict.get Dict.put
    Dict.empty str_beq any
passes = refl

authenticate_hook-IsAuthentic_example :
    (req : AuthenticationRequest String) × (result : String) × (f' : Flow kit) × (auth_request base
        params logged_in.ctx.params
      ≡ some req)
    × (is_empty {A = String} ("jwt" ∷ []) ≡ false)
    × IsAuthentic base
        ("jwt" ∷ [])
        req
        (auth_params base params ("jwt" ∷ []) logged_in.ctx.params)
        logged_in
        result
        f'
    × ((authenticate_hook base params ("jwt" ∷ []) logged_in).1
        ≡ set_params base params f'
            (params.set_authenticated true (params.set_auth_result result f'.ctx.params)))
unfolding is_internal Hooks.new_context trim_start trim_end is_whitespace
authenticate_hook-IsAuthentic_example =
    authenticate_hook-IsAuthentic base params ("jwt" ∷ []) logged_in _ refl refl passes

abbrev claim : String
claim = "exp"

get-token_claims_example :
    Dict.get (token_claims base "me" none TokenType.access 100 "j1") claim
    ≡ or (Dict.get base.options.jwt.custom_claims claim) (
        if "jti" == claim
        then some "j1"
        else if claim == claim
        then some "n"
        else if "iat" == claim
        then some "n"
        else if "aud" == claim
        then some "[..]"
        else if "iss" == claim
        then some "dogrs"
        else payload_claim base "me" claim)
unfolding Dict.empty
get-token_claims_example = get-token_claims base "me" none TokenType.access 100 "j1" claim tt
