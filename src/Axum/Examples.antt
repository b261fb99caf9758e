-- ===== src/Axum/Examples.antt =====
-- The theorems on services over HTTP at a concrete application: its items are texts, and its state counts the calls.
mod Auth
use dogrs.Base.{
  ℕ, zero, suc, ◌+◌, ◌<◌, ◌≤◌, ◌≡◌, refl, ap, String, true, false, Option, none, some, List, [],
  ◌∷◌, arith, string_eq, str_beq, any, is_empty, here, eqb, leb, ltb, ◌&&◌, if◌then◌else◌, inl, inr,
}
use dogrs.Base.Results.{Result, ok, err}
use dogrs.Auth.Bearer.{
  extract_bearer_token, bearer_token, strip_prefix, trim_start, trim_end, authorization,
  is_whitespace,
}
use dogrs.Auth.Core.{
  AuthenticationBase, AuthenticationRequest, JwtOptions, not_authenticated, authenticate,
}
use dogrs.Auth.Hooks.{
  AuthParams, AuthenticateHookParams, is_internal, auth_request, auth_params, set_params, auth_kit,
  auth_params_hook_params, authenticate_hook,
}
use dogrs.Auth.Laws.{IsAuthentic, authenticate_hook-IsAuthentic}
use dogrs.Axum.Guarded.{IsGuarded, IsRestAuth, refusal, service_router-refused}
use dogrs.Axum.Params.{
  HeaderMap, RestParams, auth_from_rest_params, header_text, tenant_from_headers, insert_headers,
}
use dogrs.Axum.Response.{Statuses, IsHttp, into_response, into_response-normalize}
use dogrs.Axum.Rest.{
  RestKit, Request, Route, RestReply, read_item, params_of, service_router, as_value, as_item,
  value_reply, values_reply,
}
use dogrs.Axum.Rest.Answers.{service_router-SameAnswer}
use dogrs.Axum.Rest.Laws.{
  IsGated, IsBadRequest, service_router-IsGated, service_router-IsBadRequest,
}
use dogrs.Core.App
use dogrs.Core.App.{Shared, Answer, Flow, DogService, DogApp, new_builder, register_service}
use dogrs.Core.Errors.{
  ErrorKind, DogError, Anyhow, IsAnyhow, Field, code, normalize, sanitize_for_client, serialize,
  new, with_source,
}
use dogrs.Core.Events.{new_hub}
use dogrs.Core.Handle.{ServiceHandle, handle_of}
use dogrs.Core.Handle.Transparent.{IsPlain, put_back, SameAnswer}
use dogrs.Core.Hooks
use dogrs.Core.Kit.{Kit}
use dogrs.Core.Pipeline.{collect_hooks_for_method, hooks_of}
use dogrs.Core.Service.{TenantContext, ServiceMethodKind, from_methods}
use dogrs.Dict

-- An error of services, with what caused it or without, another error, and an error in its context.
pub data Fault : Type 0 where
  dog : ErrorKind → String → Option String → Option String → Fault
  caused : ErrorKind → String → Option String → Option String → Fault → Fault
  plain : String → Fault
  within : String → Fault → Fault

abbrev wrap : DogError String Fault → Fault
wrap d = elim d.source [
  | none ↦ Fault.dog d.kind d.message d.data_value d.errors
  | some e ↦ Fault.caused d.kind d.message d.data_value d.errors e
]

abbrev with_cause :
    ErrorKind → String → Option String → Option String → Option Fault → DogError String Fault
with_cause kind message data_value errors source = record {
  kind = kind;
  message = message;
  data_value = data_value;
  errors = errors;
  source = source;
}

abbrev downcast : Fault → Result Fault (DogError String Fault)
downcast (Fault.dog kind message v errors) = ok (with_cause kind message v errors none)
downcast (Fault.caused kind message v errors e) = ok (with_cause kind message v errors (some e))
downcast (Fault.within t e) = elim (downcast e) [ ok d ↦ ok d | err _ ↦ err (Fault.within t e) ]
downcast e = err e

abbrev chain_find : Fault → Option (DogError String Fault)
chain_find (Fault.dog kind message v errors) = some (with_cause kind message v errors none)
chain_find (Fault.caused kind message v errors e) = some (with_cause kind message v errors (some e))
chain_find (Fault.plain t) = none
chain_find (Fault.within t e) = chain_find e

abbrev to_string : Fault → String
to_string (Fault.plain t) = t
to_string (Fault.within t e) = t
to_string (Fault.dog kind message v errors) = message
to_string (Fault.caused kind message v errors e) = message

abbrev pub anyhow : Anyhow String Fault
anyhow = record { wrap = wrap; downcast = downcast; chain_find = chain_find; to_string = to_string }

wrapped :
    (d : DogError String Fault) (source : Option Fault)
    → d.source ≡ source
    → downcast (wrap d) ≡ ok d
wrapped d none e = rw e refl
wrapped d (some x) e = rw e refl

in_chain :
    (d : DogError String Fault) (source : Option Fault)
    → d.source ≡ source
    → chain_find (wrap d) ≡ some d
in_chain d none e = rw e refl
in_chain d (some x) e = rw e refl

kept : (e other : Fault) → downcast e ≡ err other → other ≡ e
kept e other same = grind arith

pub documented : IsAnyhow anyhow
documented = record {
  downcast_wrap = λ d. wrapped d d.source refl;
  chain_wrap = λ d. in_chain d d.source refl;
  downcast_err = kept;
}

abbrev pub http : Statuses
http = record {
  Status = ℕ;
  from_u16 = λ n. if leb 100 n && ltb n 1000 then some n else none;
  internal_server_error = 500;
}

pub http-IsHttp : IsHttp http
http-IsHttp n low high = (n, ground (arith, low, high))

abbrev lost : Fault
lost =
    Fault.within "loading"
      (Fault.caused ErrorKind.not_found "no user 42" none (some "errors") (Fault.plain "secret"))

lost_first : (d : DogError String Fault) → downcast lost ≡ ok d → chain_find lost ≡ some d
lost_first d same = ground (arith, same)

into_response-normalize_example :
    (s : ℕ) × (http.from_u16 (code (normalize anyhow lost)) ≡ some s)
    × (into_response http anyhow lost
        ≡ (s, serialize (sanitize_for_client (normalize anyhow lost))))
into_response-normalize_example =
    into_response-normalize http anyhow lost documented http-IsHttp lost_first

abbrev pub kit : Kit
kit = auth_kit (record {
  World = ℕ;
  Item = String;
  Params = RestParams;
  Error = Fault;
  Listener = ℕ;
  Payload = ℕ;
  anyhow = Fault.plain;
})

-- A body is a text, or it cannot be read.
abbrev read : Option String → Result String String
read none = err "length limit exceeded"
read (some t) = ok t

abbrev pub rest : RestKit kit
rest = record {
  Body = Option String;
  Bytes = String;
  Json = String;
  anyhow = anyhow;
  to_bytes = λ body limit. read body;
  from_slice = ok;
  item_value = ok;
  items_value = λ items. ok "[..]";
  schema_errors = λ e. e;
  field = λ v name. none;
  as_str = some;
  as_object = λ v. none;
  scalar_text = some;
  from_rest_params = auth_from_rest_params;
  deliver = λ l e c s. s;
}

abbrev served : String → ℕ → Result Fault String × ℕ
served item n = (ok item, n + 1)

abbrev pub service : DogService kit
service = record {
  capabilities = from_methods (ServiceMethodKind.find ∷ ServiceMethodKind.custom "Archive" ∷ []);
  find = λ t p s. (ok ("a" ∷ []), s);
  get = λ t id p s. served id s;
  create = λ t item p s. served item s;
  update = λ t id item p s. served item s;
  patch = λ t id item p s. served item s;
  remove = λ t id p s. served "gone" s;
  custom = λ t name item p s. served name s;
}

abbrev pub app : DogApp kit
app = register_service (new_builder {k = kit}).app "notes" service

abbrev handle : ServiceHandle kit
handle = record { app = app; name = "notes"; service = service }

known : handle_of app "notes" ≡ ok handle
unfolding handle_of App.service register_service
known =
    rw
      (
        Dict.get-put_self (new_builder {k = kit}).app.registry "notes" service,
        handle_of,
        App.service,
      )
      refl

abbrev pub shared : Shared kit
shared = record { world = 0; hub = new_hub }

abbrev pub request : HeaderMap → Option String → Request rest
request headers body = record {
  headers = headers;
  query = Dict.empty;
  uri = record { path = "/notes"; query = none };
  body = body;
}

abbrev archive : Request rest
archive =
    request (("x-service-method", some "ARCHIVE") ∷ ("x-tenant-id", some "acme") ∷ []) (some "n")

abbrev pub simple : Request rest
simple = request (("x-tenant-id", some "acme") ∷ []) (some "n")

service_router-IsGated_example :
    IsGated rest "notes" handle "ARCHIVE"
      (tenant_from_headers archive.headers)
      none
      (params_of rest "GET" archive)
      shared
      (service_router rest "notes" app Route.get_root archive shared)
    × IsGated rest "notes" handle "ARCHIVE"
        (tenant_from_headers archive.headers)
        (some "n")
        (params_of rest "POST" archive)
        shared
        (service_router rest "notes" app Route.post_root archive shared)
unfolding header_text read_item str_beq
service_router-IsGated_example =
    service_router-IsGated rest app "notes" "ARCHIVE" handle "n" archive shared known refl refl

service_router-IsBadRequest_example :
    IsBadRequest rest http shared
      (service_router rest "notes" app Route.post_root (request [] none) shared)
    × IsBadRequest rest http shared
        (service_router rest "notes" app (Route.put_id "7") (request [] none) shared)
    × IsBadRequest rest http shared
        (service_router rest "notes" app (Route.patch_id "7") (request [] none) shared)
unfolding read_item
service_router-IsBadRequest_example =
    service_router-IsBadRequest rest http app "notes" "7" (request [] none) shared _ documented
      http-IsHttp refl

handle-IsPlain : IsPlain handle.app handle.name
unfolding new_builder register_service
handle-IsPlain = record { no_global = refl; no_service = Dict.get-empty "notes" }

abbrev pub tenant : TenantContext
tenant = tenant_from_headers simple.headers

service_router-SameAnswer_example :
    (service_router rest "notes" app Route.get_root simple shared
      ≡ as_value rest (
          values_reply rest
            (put_back shared (service.find tenant (params_of rest "GET" simple) 0))))
    × SameAnswer (service_router rest "notes" app Route.post_root simple shared) (
        as_value rest (
          value_reply rest
            (put_back shared (service.create tenant "n" (params_of rest "POST" simple) 0))))
    × SameAnswer
        (service_router rest "notes" app (Route.get_id "7") simple shared)
        (as_item rest (put_back shared (service.get tenant "7" (params_of rest "GET" simple) 0)))
    × SameAnswer (service_router rest "notes" app (Route.put_id "7") simple shared) (
        as_item rest
          (put_back shared (service.update tenant "7" "n" (params_of rest "PUT" simple) 0)))
    × SameAnswer (service_router rest "notes" app (Route.patch_id "7") simple shared) (
        as_item rest
          (put_back shared (service.patch tenant (some "7") "n" (params_of rest "PATCH" simple) 0)))
    × SameAnswer (service_router rest "notes" app (Route.delete_id "7") simple shared) (
        as_item rest
          (put_back shared (service.remove tenant (some "7") (params_of rest "DELETE" simple) 0)))
unfolding new_hub header_text read_item str_beq
service_router-SameAnswer_example =
    service_router-SameAnswer rest app "notes" "7" handle "n" simple shared known refl refl
      handle-IsPlain refl
