-- ===== src/Axum/Rest.antt =====
-- dog-axum/src/rest.rs: `service_router`, the calls of services over HTTP, and those of custom methods. JSON, the body of a request and the type
-- of its parameters are those of the libraries and of the application.
pub mod Answers
pub mod Laws
use Prim.Native.String.{◌++◌ as text_append}
use dogrs.Base.{
  ℕ, ◌*◌, String, Bool, true, false, Option, none, some, List, [], ◌∷◌, if◌then◌else◌, string_eq,
}
use dogrs.Base.Results.{Result, ok, err}
use dogrs.Axum.Params.{HeaderMap, Uri, RestParams, header_text, tenant_from_headers, from_parts}
use dogrs.Core.App.{Shared, Answer, DogApp}
use dogrs.Core.Errors.{ErrorKind, DogError, Anyhow, new, with_errors}
use dogrs.Core.Events.{ServiceEventData}
use dogrs.Core.Handle
use dogrs.Core.Handle.{ServiceHandle, handle_of}
use dogrs.Core.Hooks.{HookContext}
use dogrs.Core.Kit.{Kit}
use dogrs.Core.Service.{TenantContext, ServiceMethodKind}
use dogrs.Dict
use dogrs.Dict.{Dict}
use dogrs.Queue.Priority.{codes, eq_ignore_ascii_case}

-- A library's error is given by its text.
pub record RestKit (k : Kit) : Type 1 where
  pub Body : Type 0
  pub Bytes : Type 0
  pub Json : Type 0
  pub anyhow : Anyhow Json k.Error
  pub to_bytes : Body → ℕ → Result String Bytes
  pub from_slice : Bytes → Result String k.Item
  pub item_value : k.Item → Result String Json
  pub items_value : List k.Item → Result String Json
  pub schema_errors : String → Json
  pub field : Json → String → Option Json
  pub as_str : Json → Option String
  pub as_object : Json → Option (List (String × Json))
  pub scalar_text : Json → Option String
  pub from_rest_params : RestParams → k.Params
  pub deliver : k.Listener → ServiceEventData k → HookContext k → Shared k → Shared k

pub record Request {k : Kit} (w : RestKit k) : Type 0 where
  pub headers : HeaderMap
  pub query : Dict String String
  pub uri : Uri
  pub body : w.Body

-- The routes of a service, those with an `id` in the path after those of the root.
pub data Route : Type 0 where
  get_root post_root : Route
  get_id put_id patch_id delete_id : String → Route

-- `Json(value)`, of a value or of an item as it is.
pub data RestReply {k : Kit} (w : RestKit k) : Type 0 where
  value_json : w.Json → RestReply w
  item_json : k.Item → RestReply w

-- The first custom method of the name, in the spelling of the service.
unfoldable pub find_custom : List ServiceMethodKind → String → Option String
unfolding eq_ignore_ascii_case
find_custom [] method = none
find_custom (ServiceMethodKind.custom name ∷ ms) method =
    let rest = find_custom ms method in
    if eq_ignore_ascii_case (codes name) (codes method) then some name else rest
find_custom (m ∷ ms) method = find_custom ms method

module _ {k : Kit} (w : RestKit k) where
  unfoldable pub unsupported : String → String → k.Error
  unfolding new
  unsupported service_name method = w.anyhow.wrap (
      new ErrorKind.bad_request (
        text_append "Service '" (
          text_append service_name
            (text_append "' does not support custom method '" (text_append method "'")))))

  -- `serde_json::to_value(res).map_err(..)?`.
  abbrev pub to_json : Result String w.Json → Result k.Error w.Json
  to_json (err e) = err (k.anyhow e)
  to_json (ok v) = ok v

  unfoldable pub value_reply : Answer k k.Item → Answer k w.Json
  value_reply (err e, s) = (err e, s)
  value_reply (ok item, s) = (to_json (w.item_value item), s)

  unfoldable pub values_reply : Answer k (List k.Item) → Answer k w.Json
  values_reply (err e, s) = (err e, s)
  values_reply (ok items, s) = (to_json (w.items_value items), s)

  abbrev pub as_value : Answer k w.Json → Answer k (RestReply w)
  as_value (err e, s) = (err e, s)
  as_value (ok v, s) = (ok (RestReply.value_json v), s)

  abbrev pub as_item : Answer k k.Item → Answer k (RestReply w)
  as_item (err e, s) = (err e, s)
  as_item (ok item, s) = (ok (RestReply.item_json item), s)

  unfoldable pub unread : String → DogError w.Json k.Error
  unfolding new
  unread e = new ErrorKind.bad_request (text_append "Failed to read request body: " e)

  unfoldable pub unparsed : String → DogError w.Json k.Error
  unfolding new with_errors
  unparsed e =
      with_errors (new ErrorKind.bad_request (text_append "Failed to parse JSON: " e))
        (w.schema_errors e)

  -- The limit is ten megabytes.
  unfoldable pub read_item : w.Body → Result k.Error k.Item
  unfolding unread unparsed
  read_item body = elim (w.to_bytes body (10 * 1024 * 1024)) [
    | err e ↦ err (w.anyhow.wrap (unread e))
    | ok bytes ↦ elim (w.from_slice bytes) [
      | err e ↦ err (w.anyhow.wrap (unparsed e))
      | ok item ↦ ok item
    ]
  ]

  unfoldable pub handle_custom_method :
      String
      → ServiceHandle k
      → String
      → TenantContext
      → Option k.Item
      → k.Params
      → Shared k
      → Answer k w.Json
  unfolding unsupported
  handle_custom_method service_name svc method tenant input params s =
      elim (find_custom svc.service.capabilities.allowed_methods method) [
        | none ↦ (err (unsupported service_name method), s)
        | some method_name ↦
            value_reply (Handle.custom w.deliver svc tenant method_name input params s)
      ]

  abbrev pub params_of : String → Request w → k.Params
  params_of method req = w.from_rest_params (from_parts "rest" req.headers req.query method req.uri)

  abbrev pub custom_header : Request w → Option String
  custom_header req = header_text req.headers "x-service-method"

  -- With the service, and the item of the body where the route has one.
  unfoldable pub on_root :
      String → Option k.Item → Request w → ServiceHandle k → Shared k → Answer k (RestReply w)
  on_root service_name none req svc s = elim (custom_header req) [
    | some method ↦ as_value (
        handle_custom_method service_name svc method (tenant_from_headers req.headers) none
          (params_of "GET" req) s)
    | none ↦ as_value (
        values_reply
          (Handle.find w.deliver svc (tenant_from_headers req.headers) (params_of "GET" req) s))
  ]
  on_root service_name (some item) req svc s = elim (custom_header req) [
    | some method ↦ as_value (
        handle_custom_method service_name svc method (tenant_from_headers req.headers) (some item)
          (params_of "POST" req) s)
    | none ↦ as_value (
        value_reply (
          Handle.create w.deliver svc (tenant_from_headers req.headers) item (params_of "POST" req)
            s))
  ]

  -- `state.app.service(&service_name)?`.
  unfoldable pub with_service :
      DogApp k
      → String
      → Shared k
      → (ServiceHandle k → Answer k (RestReply w))
      → Answer k (RestReply w)
  with_service app service_name s next = elim (handle_of app service_name) [
    | err e ↦ (err e, s)
    | ok svc ↦ next svc
  ]

  unfoldable pub with_body :
      Request w → Shared k → (k.Item → Answer k (RestReply w)) → Answer k (RestReply w)
  with_body req s next = elim (read_item req.body) [ err e ↦ (err e, s) | ok item ↦ next item ]

  unfoldable pub service_router :
      String → DogApp k → Route → Request w → Shared k → Answer k (RestReply w)
  unfolding with_service with_body
  service_router name app Route.get_root req s =
      with_service app name s (λ svc. on_root name none req svc s)
  service_router name app Route.post_root req s =
      with_body req s (λ item. with_service app name s (λ svc. on_root name (some item) req svc s))
  service_router name app (Route.get_id id) req s = with_service app name s (λ svc.
      as_item
        (Handle.get w.deliver svc (tenant_from_headers req.headers) id (params_of "GET" req) s))
  service_router name app (Route.put_id id) req s = with_body req s (λ item.
      with_service app name s (λ svc. as_item (
        Handle.update w.deliver svc (tenant_from_headers req.headers) id item (params_of "PUT" req)
          s)))
  service_router name app (Route.patch_id id) req s = with_body req s (λ item.
      with_service app name s (λ svc. as_item (
        Handle.patch w.deliver svc (tenant_from_headers req.headers) (some id) item
          (params_of "PATCH" req) s)))
  service_router name app (Route.delete_id id) req s = with_service app name s (λ svc. as_item (
      Handle.remove w.deliver svc (tenant_from_headers req.headers) (some id)
        (params_of "DELETE" req) s))
