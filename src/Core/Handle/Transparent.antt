-- ===== src/Core/Handle/Transparent.antt =====
-- An application without hooks and listeners adds nothing to its services.
use dogrs.Base.{
  ◌≡◌, refl, ap, ◌∙◌, String, Option, none, List, [], arith, string_eq, Bool-cases, inl, inr,
}
use dogrs.Base.Results.{ok, err}
use dogrs.Core.App.{Shared, Flow, Reply, Hook, Answer, Served, DogApp}
use dogrs.Core.Events.{
  ServiceEventData, ServiceEventKind, snapshot_emit, allowed, visit, method_to_standard_event,
}
use dogrs.Core.Handle.{
  ServiceHandle, store_many, store_one, with_world, require_input, expect_many, expect_one,
  call_find, call_get, call_create, call_patch, call_update, call_remove, call_custom, find, get,
  create, patch, update, remove, custom,
}
use dogrs.Core.Hooks.{HookContext, HookResult, new_context, new_hooks, collect_method_hooks}
use dogrs.Core.Kit.{Kit}
use dogrs.Core.Pipeline.{
  MethodHooks, run_pipeline, conclude, emit_standard, emit, deliver_all, run_chain, run_error_hooks,
  collect_hooks_for_method, hooks_of,
}
use dogrs.Core.Pipeline.Order.{Clean, fast-call, conclude-taken}
use dogrs.Core.Service.{TenantContext, ServiceMethodKind, method_eq}
use dogrs.Dict
use dogrs.Dict.{get-empty}

module _ {k : Kit} where
  abbrev no_hooks : MethodHooks k
  no_hooks = record { around = []; before = []; after = []; error = [] }

  -- No hooks are registered, for all services or for the one of the name.
  pub record IsPlain (app : DogApp k) (name : String) : Type 0 where
    pub no_global : app.global_hooks ≡ new_hooks
    pub no_service : Dict.get app.service_hooks name ≡ none

  collect-plain :
      (app : DogApp k) (name : String) (method : ServiceMethodKind)
      → IsPlain app name
      → collect_hooks_for_method app name method ≡ no_hooks
  unfolding collect_hooks_for_method hooks_of collect_method_hooks new_hooks Dict.get Dict.empty
  collect-plain app name method p = rw (p.no_service, p.no_global, collect_hooks_for_method) refl

  -- What the service answers, where its state is put back.
  abbrev pub put_back : {A : Type 0} → Shared k → Served k A → Answer k A
  put_back s x = (x.0, with_world s x.1)

  -- The same answer, and the same state of what the application supplies.
  abbrev pub SameAnswer : {A : Type 0} → Answer k A → Answer k A → Type 0
  SameAnswer x y = (x.0 ≡ y.0) × (x.1.world ≡ y.1.world)

  module _ (deliver : k.Listener → ServiceEventData k → HookContext k → Shared k → Shared k) where
    emit-world :
        (path : String) (event : ServiceEventKind) (payload : ServiceEventData k)
        (ctx : HookContext k) (s : Shared k)
        → s.hub.listeners ≡ []
        → (emit deliver path event payload ctx s).world ≡ s.world
    unfolding emit snapshot_emit visit deliver_all
    emit-world path event payload ctx s h =
        elim (Bool-cases (allowed s.hub path event payload ctx)) [
          | inl pass ↦ rw (pass, h) refl
          | inr block ↦ rw block refl
        ]

    emit_standard-world :
        (name : String) (method : ServiceMethodKind) (f : Flow k)
        → f.shared.hub.listeners ≡ []
        → (emit_standard deliver name method f).world ≡ f.shared.world
    unfolding emit_standard
    emit_standard-world name method f h = grind (
      arith,
      λ (event : ServiceEventKind) (result : HookResult k.Item).
          emit-world name event (ServiceEventData.standard result) f.ctx f.shared h,
    )

    -- What the handle does with the service's answer `x`, where no hook is registered.
    plain-call :
        (app : DogApp k) (name : String) (method : ServiceMethodKind) (call : Hook k) (f : Flow k)
        (x : Reply k)
        → IsPlain app name
        → f.ctx.error ≡ none
        → call f ≡ x
        → Clean x
        → run_pipeline deliver app name method call f ≡ conclude deliver name method [] x
    unfolding run_pipeline run_chain
    plain-call app name method call f x p clean called tidy =
        ap (λ (m : MethodHooks k). conclude deliver name method m.error (run_chain m call f))
          (collect-plain app name method p)
        ∙ ap (conclude deliver name method []) (fast-call call f x clean called tidy)
        ∙ conclude-taken deliver name method [] x

    plain-find :
        (app : DogApp k) (name : String) (call : Hook k) (f : Flow k) (x : Served k (List k.Item))
        → IsPlain app name
        → f.ctx.error ≡ none
        → call f ≡ store_many f x
        → expect_many (run_pipeline deliver app name ServiceMethodKind.find call f)
          ≡ put_back f.shared x
    unfolding conclude run_error_hooks emit_standard expect_many store_many method_to_standard_event
    plain-find app name call f (ok items, s) p clean called =
        ap expect_many (plain-call app name ServiceMethodKind.find call f _ p clean called clean)
        ∙ rw clean refl
    plain-find app name call f (err e, s) p clean called =
        ap expect_many (plain-call app name ServiceMethodKind.find call f _ p clean called tt)

    plain-one :
        (label : String) (app : DogApp k) (name : String) (method : ServiceMethodKind)
        (call : Hook k) (f f' : Flow k) (x : Served k k.Item)
        → IsPlain app name
        → f.ctx.error ≡ none
        → f'.ctx.error ≡ none
        → call f ≡ store_one f' x
        → f'.shared.hub.listeners ≡ []
        → SameAnswer
            (expect_one label (run_pipeline deliver app name method call f))
            (put_back f'.shared x)
    unfolding conclude run_error_hooks expect_one store_one
    plain-one label app name method call f f' (ok item, s) p clean clean' called h =
        rw (plain-call app name method call f _ p clean called clean')
          (refl, emit_standard-world name method _ h)
    plain-one label app name method call f f' (err e, s) p clean clean' called h =
        rw (plain-call app name method call f _ p clean called tt) (refl, refl)

    -- An application with no hooks, neither for all services nor for the one of the handle, and with no
    -- listener adds nothing to its service: each method of the handle answers as the service does on
    -- the same arguments, and leaves the same state of what the application supplies; find leaves
    -- the hub as it is too.
    pub handle-transparent :
        (h : ServiceHandle k) (tenant : TenantContext) (params : k.Params) (s : Shared k)
        (id name : String) (key : Option String) (item : k.Item) (input : Option k.Item)
        → IsPlain h.app h.name
        → s.hub.listeners ≡ []
        → let w = s.world in
          (find deliver h tenant params s ≡ put_back s (h.service.find tenant params w))
          × SameAnswer
              (get deliver h tenant id params s)
              (put_back s (h.service.get tenant id params w))
          × SameAnswer
              (create deliver h tenant item params s)
              (put_back s (h.service.create tenant item params w))
          × SameAnswer
              (patch deliver h tenant key item params s)
              (put_back s (h.service.patch tenant key item params w))
          × SameAnswer
              (update deliver h tenant id item params s)
              (put_back s (h.service.update tenant id item params w))
          × SameAnswer
              (remove deliver h tenant key params s)
              (put_back s (h.service.remove tenant key params w))
          × SameAnswer
              (custom deliver h tenant name input params s)
              (put_back s (h.service.custom tenant name input params w))
    unfolding find get create patch update remove custom call_find call_get call_create call_patch
        call_update call_remove call_custom require_input new_context
    handle-transparent h tenant params s id name key item input p silent = (
      plain-find h.app h.name _ _ _ p refl refl,
      plain-one "get" h.app h.name _ _ _ _ _ p refl refl refl silent,
      plain-one "create" h.app h.name _ _ _ _ _ p refl refl refl silent,
      plain-one "patch" h.app h.name _ _ _ _ _ p refl refl refl silent,
      plain-one "update" h.app h.name _ _ _ _ _ p refl refl refl silent,
      plain-one "remove" h.app h.name _ _ _ _ _ p refl refl refl silent,
      plain-one "custom" h.app h.name _ _ _ _ _ p refl refl refl silent,
    )
