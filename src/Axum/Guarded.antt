-- ===== src/Axum/Guarded.antt =====
-- A service that requires authentication, over HTTP: a request without a token reaches none of its methods.
use dogrs.Base.{◌≡◌, refl, ap, String, false, Option, none, some, List, string_eq}
use dogrs.Base.Results.{ok, err}
use dogrs.Auth.Bearer.{is_whitespace, trim_start, trim_end, extract_bearer_token}
use dogrs.Auth.Core.{AuthenticationBase, not_authenticated}
use dogrs.Auth.Hooks.{AuthenticateHookParams, is_internal, auth_request, authenticate_hook}
use dogrs.Auth.Laws.{guarded_by, authenticate_hook-refuses, run_pipeline-refused}
use dogrs.Axum.Params.{RestParams, insert_headers, from_parts, header_text, tenant_from_headers}
use dogrs.Axum.Response.{Statuses, IsHttp, into_response, wrapped-status}
use dogrs.Axum.Rest.{
  RestKit, Request, Route, RestReply, as_value, as_item, value_reply, values_reply, read_item,
  params_of, on_root, with_service, with_body, service_router,
}
use dogrs.Core.App.{Shared, Answer, DogApp, Hook}
use dogrs.Core.Errors.{ErrorKind, IsAnyhow, new, code, status_code}
use dogrs.Core.Events.{ServiceEventData}
use dogrs.Core.Handle
use dogrs.Core.Handle.{
  ServiceHandle, handle_of, begin, expect_one, expect_many, call_find, call_get, call_create,
  call_patch, call_update, call_remove,
}
use dogrs.Core.Hooks.{HookContext, new_context}
use dogrs.Core.Kit.{Kit}
use dogrs.Core.Pipeline.{run_pipeline, collect_hooks_for_method}
use dogrs.Core.Service.{TenantContext, ServiceMethodKind}
use dogrs.Dict

module _ {k : Kit} {V : Type 0} (b : AuthenticationBase k V) (p : AuthenticateHookParams k) where
  -- The first hook of every method of the service requires authentication, and no hook lies around it or takes its error.
  pub record IsGuarded (app : DogApp k) (name : String) (strategies : List String) : Type 0 where
    pub before : ServiceMethodKind → List (Hook k)
    pub after : ServiceMethodKind → List (Hook k)
    pub guarded :
        (m : ServiceMethodKind)
        → collect_hooks_for_method app name m
          ≡ guarded_by b (authenticate_hook b p strategies) (before m) (after m)

  -- A call from outside, not authenticated, that brings neither a request nor a token.
  pub record IsAnonymous (params : k.Params) : Type 0 where
    pub fresh : p.authenticated params ≡ false
    pub outside : is_internal b p params ≡ false
    pub bare : auth_request b p params ≡ none

  abbrev pub refusal : k.Error
  refusal = not_authenticated b "Not authenticated"

  module _ (deliver : k.Listener → ServiceEventData k → HookContext k → Shared k → Shared k) where
    pipeline-refused :
        (h : ServiceHandle k) (strategies : List String) (tenant : TenantContext)
        (method : ServiceMethodKind) (params : k.Params) (input : Option k.Item) (call : Hook k)
        (s : Shared k)
        → IsGuarded h.app h.name strategies
        → IsAnonymous params
        → run_pipeline deliver h.app h.name method call (begin h tenant method params input s)
          ≡ (err refusal, s)
    unfolding new_context
    pipeline-refused h strategies tenant method params input call s g a =
        run_pipeline-refused b deliver h.app h.name method (authenticate_hook b p strategies) call
          (g.before method) (g.after method) (begin h tenant method params input s) refusal
          (g.guarded method)
          (authenticate_hook-refuses b p strategies (begin h tenant method params input s) a.fresh
            a.outside a.bare)

    -- Each standard method of a handle refuses such a call, in an unchanged state.
    pub handle-refused :
        (h : ServiceHandle k) (strategies : List String) (tenant : TenantContext)
        (params : k.Params) (s : Shared k) (id : String) (key : Option String) (item : k.Item)
        → IsGuarded h.app h.name strategies
        → IsAnonymous params
        → (Handle.find deliver h tenant params s ≡ (err refusal, s))
          × (Handle.get deliver h tenant id params s ≡ (err refusal, s))
          × (Handle.create deliver h tenant item params s ≡ (err refusal, s))
          × (Handle.patch deliver h tenant key item params s ≡ (err refusal, s))
          × (Handle.update deliver h tenant id item params s ≡ (err refusal, s))
          × (Handle.remove deliver h tenant key params s ≡ (err refusal, s))
    unfolding Handle.find Handle.get Handle.create Handle.patch Handle.update Handle.remove
        expect_many expect_one
    handle-refused h strategies tenant params s id key item g a = (
      ap expect_many
          (pipeline-refused h strategies tenant ServiceMethodKind.find params none _ s g a),
      ap (expect_one "get")
          (pipeline-refused h strategies tenant ServiceMethodKind.get params none _ s g a),
      ap (expect_one "create") (
          pipeline-refused h strategies tenant ServiceMethodKind.create params (some item) _ s g a),
      ap (expect_one "patch")
          (pipeline-refused h strategies tenant ServiceMethodKind.patch params (some item) _ s g a),
      ap (expect_one "update") (
          pipeline-refused h strategies tenant ServiceMethodKind.update params (some item) _ s g a),
      ap (expect_one "remove")
          (pipeline-refused h strategies tenant ServiceMethodKind.remove params none _ s g a),
    )

-- The parameters of a request, as `FromRestParams for AuthParams<RestParams>` makes them.
pub record IsRestAuth {k : Kit} (w : RestKit k) (p : AuthenticateHookParams k) : Type 0 where
  pub provider_rest : (r : RestParams) → p.provider (w.from_rest_params r) ≡ some r.provider
  pub headers_rest : (r : RestParams) → p.headers (w.from_rest_params r) ≡ r.headers
  pub no_request : (r : RestParams) → p.authentication (w.from_rest_params r) ≡ none
  pub not_yet : (r : RestParams) → p.authenticated (w.from_rest_params r) ≡ false

module _ {k : Kit} (w : RestKit k) (b : AuthenticationBase k w.Json)
    (p : AuthenticateHookParams k) where
  params_of-IsAnonymous :
      (req : Request w) (method : String)
      → IsRestAuth w p
      → extract_bearer_token (insert_headers req.headers Dict.empty) ≡ none
      → IsAnonymous b p (params_of w method req)
  unfolding from_parts is_internal auth_request is_whitespace trim_start trim_end
  params_of-IsAnonymous req method r bare = record {
    fresh = r.not_yet _;
    outside =
        rw (r.provider_rest (from_parts "rest" req.headers req.query method req.uri), is_internal)
          refl;
    bare =
        rw
          (
            r.no_request (from_parts "rest" req.headers req.query method req.uri),
            auth_request,
            r.headers_rest (from_parts "rest" req.headers req.query method req.uri),
            bare,
          )
          refl;
  }

  -- Over libraries that are as documented, where the first hook of every method of a registered
  -- service requires authentication, and no hook lies around it or takes its error, a request
  -- without a bearer token that names no custom method is answered on every route with the hook's
  -- refusal, the body being an item where the route has one: no state changes, and the status is
  -- 401.
  pub service_router-refused :
      (http : Statuses) (app : DogApp k) (service_name id : String) (strategies : List String)
      (svc : ServiceHandle k) (item : k.Item) (req : Request w) (s : Shared k)
      → IsAnyhow b.anyhow
      → IsHttp http
      → IsRestAuth w p
      → handle_of app service_name ≡ ok svc
      → IsGuarded b p svc.app svc.name strategies
      → header_text req.headers "x-service-method" ≡ none
      → read_item w req.body ≡ ok item
      → extract_bearer_token (insert_headers req.headers Dict.empty) ≡ none
      → let routed = λ (r : Route). service_router w service_name app r req s in
        let reply : Answer k (RestReply w) = (err (refusal b p), s) in
        (routed Route.get_root ≡ reply)
        × (routed Route.post_root ≡ reply)
        × (routed (Route.get_id id) ≡ reply)
        × (routed (Route.put_id id) ≡ reply)
        × (routed (Route.patch_id id) ≡ reply)
        × (routed (Route.delete_id id) ≡ reply)
        × ((status : http.Status) × (http.from_u16 401 ≡ some status)
            × ((into_response http b.anyhow (refusal b p)).0 ≡ status))
  unfolding service_router with_service with_body on_root value_reply values_reply not_authenticated
      new code status_code
  service_router-refused http app service_name id strategies svc item req s lib h r known g unnamed
        readable bare =
      let refused = λ (m : String).
        handle-refused b p w.deliver svc strategies (tenant_from_headers req.headers)
          (params_of w m req) s id (some id) item g (params_of-IsAnonymous req m r bare) in
      rw (readable, service_router, with_body, known, with_service, unnamed, on_root)
        (
          ap (λ x. as_value w (values_reply w x)) (refused "GET").0,
          ap (λ x. as_value w (value_reply w x)) (refused "POST").2,
          ap (as_item w) (refused "GET").1,
          ap (as_item w) (refused "PUT").4,
          ap (as_item w) (refused "PATCH").3,
          ap (as_item w) (refused "DELETE").5,
          wrapped-status http b.anyhow (new ErrorKind.not_authenticated "Not authenticated") lib h,
        )
