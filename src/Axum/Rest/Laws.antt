-- ===== src/Axum/Rest/Laws.antt =====
-- A request reaches the method of the service that its route names, a custom method only where the service declares it, and none
-- where its body is no item.
use dogrs.Base.{
  ◌≡◌, refl, sym, ap, ◌∙◌, ◌⊎◌, inl, inr, ◌*◌, String, true, false, Option, none, some, List, [],
  ◌∷◌, arith, In, here, there, string_eq, Bool-cases, Option-cases,
}
use dogrs.Base.Results.{Result, ok, err, Result-cases}
use dogrs.Axum.Params.{header_text, tenant_from_headers}
use dogrs.Axum.Response.{Statuses, IsHttp, into_response, wrapped-status}
use dogrs.Axum.Rest.{
  RestKit, Request, Route, RestReply, find_custom, unsupported, value_reply, as_value, unread,
  unparsed, read_item, handle_custom_method, params_of, on_root, with_service, with_body,
  service_router,
}
use dogrs.Core.App.{Shared, Answer, DogApp}
use dogrs.Core.Errors.{ErrorKind, DogError, IsAnyhow, new, with_errors, code, status_code}
use dogrs.Core.Handle
use dogrs.Core.Handle.{ServiceHandle, handle_of}
use dogrs.Core.Kit.{Kit}
use dogrs.Core.Service.{TenantContext, ServiceMethodKind}
use dogrs.Queue.Priority.{codes, eq_ignore_ascii_case}

-- No custom method of the list has the name.
abbrev pub Lacks : List ServiceMethodKind → String → Type 0
Lacks methods method =
    (name : String)
    → In (ServiceMethodKind.custom name) methods
    → eq_ignore_ascii_case (codes name) (codes method) ≡ false

find_custom-declared :
    (methods : List ServiceMethodKind) (method name : String)
    → find_custom methods method ≡ some name
    → In (ServiceMethodKind.custom name) methods
      × (eq_ignore_ascii_case (codes name) (codes method) ≡ true)
unfolding find_custom
find_custom-declared [] method name e = absurd (ground (arith, e))
find_custom-declared (ServiceMethodKind.custom n ∷ ms) method name e =
    elim (Bool-cases (eq_ignore_ascii_case (codes n) (codes method))) [
      | inl same ↦
          let eq : n ≡ name = ground (arith, e, same) in
          (
            here (ap ServiceMethodKind.custom (sym eq)),
            ap (λ x. eq_ignore_ascii_case (codes x) (codes method)) (sym eq) ∙ same,
          )
      | inr other ↦
          let (i, same) = find_custom-declared ms method name (ground (arith, e, other)) in
          (there i, same)
    ]
find_custom-declared (m ∷ ms) method name e =
    let (i, same) = find_custom-declared ms method name e in (there i, same)

missed_first :
    (name method : String) (ms : List ServiceMethodKind)
    → find_custom (ServiceMethodKind.custom name ∷ ms) method ≡ none
    → eq_ignore_ascii_case (codes name) (codes method) ≡ false
unfolding find_custom
missed_first name method ms e = ground (arith, e)

missed_rest :
    (m : ServiceMethodKind) (method : String) (ms : List ServiceMethodKind)
    → find_custom (m ∷ ms) method ≡ none
    → find_custom ms method ≡ none
unfolding find_custom
missed_rest (ServiceMethodKind.custom n) method ms e = ground (arith, e)
missed_rest m method ms e = e

find_custom-Lacks :
    (methods : List ServiceMethodKind) (method : String)
    → find_custom methods method ≡ none
    → Lacks methods method
find_custom-Lacks [] method e name i = elim i [ ]
find_custom-Lacks (m ∷ ms) method e name (here same) =
    missed_first name method ms (ap (λ x. find_custom (x ∷ ms) method) same ∙ e)
find_custom-Lacks (m ∷ ms) method e name (there i) =
    find_custom-Lacks ms method (missed_rest m method ms e) name i

module _ {k : Kit} (w : RestKit k) where
  -- A custom method of the name is declared, and is called in the declared spelling; or none is, and the request is refused.
  abbrev pub IsGated :
      String
      → ServiceHandle k
      → String
      → TenantContext
      → Option k.Item
      → k.Params
      → Shared k
      → Answer k (RestReply w)
      → Type 0
  IsGated service_name svc method tenant input params s reply =
      ((name : String) × In (ServiceMethodKind.custom name) svc.service.capabilities.allowed_methods
        × (eq_ignore_ascii_case (codes name) (codes method) ≡ true)
        × (reply
            ≡ as_value w (value_reply w (Handle.custom w.deliver svc tenant name input params s))))
      ⊎ (Lacks svc.service.capabilities.allowed_methods method
          × (reply ≡ (err (unsupported w service_name method), s)))

  handle_custom_method-IsGated :
      (service_name : String) (svc : ServiceHandle k) (method : String) (tenant : TenantContext)
      (input : Option k.Item) (params : k.Params) (s : Shared k)
      → IsGated service_name svc method tenant input params s
          (as_value w (handle_custom_method w service_name svc method tenant input params s))
  unfolding handle_custom_method
  handle_custom_method-IsGated service_name svc method tenant input params s =
      elim (Option-cases (find_custom svc.service.capabilities.allowed_methods method)) [
        | inl missing ↦
            rw (missing, handle_custom_method) (inr (find_custom-Lacks _ method missing, refl))
        | inr (name, found) ↦
            let (i, same) = find_custom-declared _ method name found in
            rw (found, handle_custom_method) (inl (name, i, same, refl))
      ]

  -- A request to the root that names a custom method in its header, with the service registered
  -- and, of a POST, an item for its body, is answered by a custom method of the service under a
  -- name that the service declares, equal up to the case of ASCII letters, on the tenant of its
  -- headers; or the service declares no such name, and the request is refused in an unchanged
  -- state.
  pub service_router-IsGated :
      (app : DogApp k) (service_name method : String) (svc : ServiceHandle k) (item : k.Item)
      (req : Request w) (s : Shared k)
      → handle_of app service_name ≡ ok svc
      → header_text req.headers "x-service-method" ≡ some method
      → read_item w req.body ≡ ok item
      → IsGated service_name svc method
          (tenant_from_headers req.headers)
          none
          (params_of w "GET" req)
          s
          (service_router w service_name app Route.get_root req s)
        × IsGated service_name svc method
            (tenant_from_headers req.headers)
            (some item)
            (params_of w "POST" req)
            s
            (service_router w service_name app Route.post_root req s)
  unfolding service_router with_service with_body on_root
  service_router-IsGated app service_name method svc item req s known named readable = (
    rw (known, service_router, with_service, named, on_root)
        (handle_custom_method-IsGated service_name svc method _ none _ s),
    rw (readable, service_router, with_body, known, with_service, named, on_root)
        (handle_custom_method-IsGated service_name svc method _ (some item) _ s),
  )

  refused_as :
      (r : Result k.Error k.Item) (e : k.Error) (d : DogError w.Json k.Error)
      → r ≡ err e
      → r ≡ err (w.anyhow.wrap d)
      → d.kind ≡ ErrorKind.bad_request
      → (d : DogError w.Json k.Error) × (d.kind ≡ ErrorKind.bad_request) × (e ≡ w.anyhow.wrap d)
  refused_as r e d bad shown kind = (d, kind, ground (arith, bad, shown))

  read_item-bad :
      (body : w.Body) (e : k.Error)
      → read_item w body ≡ err e
      → (d : DogError w.Json k.Error) × (d.kind ≡ ErrorKind.bad_request) × (e ≡ w.anyhow.wrap d)
  unfolding read_item unread unparsed new with_errors
  read_item-bad body e bad = elim (Result-cases (w.to_bytes body (10 * 1024 * 1024))) [
    | inl (t, failed) ↦
        refused_as (read_item w body) e (unread w t) bad (rw (failed, read_item) refl) refl
    | inr (bytes, got) ↦ elim (Result-cases (w.from_slice bytes)) [
      | inl (t, failed) ↦
          refused_as (read_item w body) e (unparsed w t) bad (rw (got, read_item, failed) refl) refl
      | inr (item, parsed) ↦
          let fine : read_item w body ≡ ok item = rw (got, read_item, parsed) refl in
          absurd (ground (arith, fine, bad))
    ]
  ]

  -- The reply is an error of status 400, in the state of the request.
  abbrev pub IsBadRequest : (http : Statuses) → Shared k → Answer k (RestReply w) → Type 0
  IsBadRequest http s reply =
      (e : k.Error) × (reply ≡ (err e, s))
      × (status : http.Status) × (http.from_u16 400 ≡ some status)
      × ((into_response http w.anyhow e).0 ≡ status)

  -- A request with a body that cannot be read within the limit, or that is no item, is answered with status 400 on each route that has a body,
  -- in an unchanged state and whether or not the service is registered.
  pub service_router-IsBadRequest :
      (http : Statuses) (app : DogApp k) (service_name id : String) (req : Request w) (s : Shared k)
      (e : k.Error)
      → IsAnyhow w.anyhow
      → IsHttp http
      → read_item w req.body ≡ err e
      → IsBadRequest http s (service_router w service_name app Route.post_root req s)
        × IsBadRequest http s (service_router w service_name app (Route.put_id id) req s)
        × IsBadRequest http s (service_router w service_name app (Route.patch_id id) req s)
  unfolding service_router with_body code status_code
  service_router-IsBadRequest http app service_name id req s e lib h bad =
      let (d, kind, wrapped) = read_item-bad req.body e bad in
      let (status, known, given) = wrapped-status http w.anyhow d lib h in
      let known' : http.from_u16 400 ≡ some status =
        ap (λ x. http.from_u16 (status_code x)) (sym kind) ∙ known in
      let given' : (into_response http w.anyhow e).0 ≡ status =
        ap (λ x. (into_response http w.anyhow x).0) wrapped ∙ given in
      rw (bad, service_router, with_body)
        (
          (e, refl, status, known', given'),
          (e, refl, status, known', given'),
          (e, refl, status, known', given'),
        )
