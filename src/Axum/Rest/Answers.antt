-- ===== src/Axum/Rest/Answers.antt =====
-- A route of a service answers as the method of the service that it names.
use dogrs.Base.{◌≡◌, ap, String, none, some, [], arith, string_eq}
use dogrs.Base.Results.{ok, err}
use dogrs.Axum.Params.{header_text, tenant_from_headers}
use dogrs.Axum.Rest.{
  RestKit, Request, Route, value_reply, values_reply, to_json, as_value, as_item, read_item,
  params_of, on_root, with_service, with_body, service_router,
}
use dogrs.Core.App.{Shared, Answer, DogApp}
use dogrs.Core.Handle.{ServiceHandle, handle_of}
use dogrs.Core.Handle.Transparent.{IsPlain, put_back, SameAnswer, handle-transparent}
use dogrs.Core.Kit.{Kit}

module _ {k : Kit} (w : RestKit k) where
  as_item-SameAnswer :
      (x y : Answer k k.Item) → SameAnswer x y → SameAnswer (as_item w x) (as_item w y)
  as_item-SameAnswer (ok a, s) (ok b, t) (same, world) = (ground (arith, same), world)
  as_item-SameAnswer (err a, s) (err b, t) (same, world) = (ground (arith, same), world)
  as_item-SameAnswer (ok a, s) (err b, t) (same, world) = absurd (ground (arith, same))
  as_item-SameAnswer (err a, s) (ok b, t) (same, world) = absurd (ground (arith, same))

  as_value-SameAnswer :
      (x y : Answer k w.Json) → SameAnswer x y → SameAnswer (as_value w x) (as_value w y)
  as_value-SameAnswer (ok a, s) (ok b, t) (same, world) = (ground (arith, same), world)
  as_value-SameAnswer (err a, s) (err b, t) (same, world) = (ground (arith, same), world)
  as_value-SameAnswer (ok a, s) (err b, t) (same, world) = absurd (ground (arith, same))
  as_value-SameAnswer (err a, s) (ok b, t) (same, world) = absurd (ground (arith, same))

  value_reply-SameAnswer :
      (x y : Answer k k.Item) → SameAnswer x y → SameAnswer (value_reply w x) (value_reply w y)
  unfolding value_reply
  value_reply-SameAnswer (ok a, s) (ok b, t) (same, world) =
      let eq : a ≡ b = ground (arith, same) in (ap (λ z. to_json w (w.item_value z)) eq, world)
  value_reply-SameAnswer (err a, s) (err b, t) (same, world) = (ground (arith, same), world)
  value_reply-SameAnswer (ok a, s) (err b, t) (same, world) = absurd (ground (arith, same))
  value_reply-SameAnswer (err a, s) (ok b, t) (same, world) = absurd (ground (arith, same))

  -- In an application without hooks and listeners, a request that names no custom method, and has an item for its body where the route has one, is answered on
  -- each route as the method of the service that the route names answers, on the tenant of the
  -- headers, the id of the path, the item of the body and the parameters of the request; what the
  -- application supplies is left in the state in which the method leaves it.
  pub service_router-SameAnswer :
      (app : DogApp k) (service_name id : String) (svc : ServiceHandle k) (item : k.Item)
      (req : Request w) (s : Shared k)
      → handle_of app service_name ≡ ok svc
      → header_text req.headers "x-service-method" ≡ none
      → read_item w req.body ≡ ok item
      → IsPlain svc.app svc.name
      → s.hub.listeners ≡ []
      → let tenant = tenant_from_headers req.headers in
        let routed = λ (r : Route). service_router w service_name app r req s in
        (routed Route.get_root
          ≡ as_value w (
              values_reply w
                (put_back s (svc.service.find tenant (params_of w "GET" req) s.world))))
        × SameAnswer (routed Route.post_root) (
            as_value w (
              value_reply w
                (put_back s (svc.service.create tenant item (params_of w "POST" req) s.world))))
        × SameAnswer
            (routed (Route.get_id id))
            (as_item w (put_back s (svc.service.get tenant id (params_of w "GET" req) s.world)))
        × SameAnswer (routed (Route.put_id id)) (
            as_item w
              (put_back s (svc.service.update tenant id item (params_of w "PUT" req) s.world)))
        × SameAnswer (routed (Route.patch_id id)) (
            as_item w (
              put_back s
                (svc.service.patch tenant (some id) item (params_of w "PATCH" req) s.world)))
        × SameAnswer (routed (Route.delete_id id)) (
            as_item w
              (put_back s (svc.service.remove tenant (some id) (params_of w "DELETE" req) s.world)))
  unfolding service_router with_service with_body on_root
  service_router-SameAnswer app service_name id svc item req s known unnamed readable plain silent =
      let tenant = tenant_from_headers req.headers in
      let through = λ (m : String).
        handle-transparent w.deliver svc tenant (params_of w m req) s id "" (some id) item none
          plain silent in
      rw (readable, service_router, with_body, known, with_service, unnamed, on_root)
        (
          ap (λ x. as_value w (values_reply w x)) (through "GET").0,
          as_value-SameAnswer _ _ (value_reply-SameAnswer _ _ (through "POST").2),
          as_item-SameAnswer _ _ (through "GET").1,
          as_item-SameAnswer _ _ (through "PUT").4,
          as_item-SameAnswer _ _ (through "PATCH").3,
          as_item-SameAnswer _ _ (through "DELETE").5,
        )
