-- ===== src/Core/Handle.antt =====
-- The methods of `ServiceHandle` of dog-core/src/app.rs: each runs the pipeline about one call of the service.
pub mod Transparent
use Prim.Native.String.{◌++◌ as text_append}
use dogrs.Base.{String, Option, none, some, List, []}
use dogrs.Base.Results.{Result, ok, err}
use dogrs.Core.App.{Shared, Flow, Reply, Hook, Answer, Served, DogService, DogApp}
use dogrs.Core.App
use dogrs.Core.Events.{ServiceEventData}
use dogrs.Core.Hooks.{HookContext, HookResult, new_context}
use dogrs.Core.Kit.{Kit}
use dogrs.Core.Pipeline.{run_pipeline}
use dogrs.Core.Service.{TenantContext, ServiceMethodKind}

pub record ServiceHandle (k : Kit) : Type 0 where
  pub app : DogApp k
  pub name : String
  pub service : DogService k

module _ {k : Kit} where
  -- `DogApp::service`.
  unfoldable pub handle_of : DogApp k → String → Result k.Error (ServiceHandle k)
  handle_of app name = elim (App.service app name) [
    | err e ↦ err e
    | ok s ↦ ok (record { app = app; name = name; service = s })
  ]

  -- The call leaves the hub as it is.
  abbrev pub with_world : Shared k → k.World → Shared k
  with_world s w = record s { world = w }

  -- What the service answers becomes the result of the context.
  unfoldable pub store_many : Flow k → Served k (List k.Item) → Reply k
  store_many f (err e, w) = (err e, record f { shared = with_world f.shared w })
  store_many f (ok records, w) = (
    ok tt,
    record {
      shared = with_world f.shared w;
      ctx = record (f.ctx) { result = some (HookResult.many records) };
    },
  )

  unfoldable pub store_one : Flow k → Served k k.Item → Reply k
  store_one f (err e, w) = (err e, record f { shared = with_world f.shared w })
  store_one f (ok item, w) = (
    ok tt,
    record {
      shared = with_world f.shared w;
      ctx = record (f.ctx) { result = some (HookResult.one item) };
    },
  )

  -- `ctx.data.take()`.
  abbrev pub take_input : Flow k → Flow k
  take_input f = record f { ctx = record (f.ctx) { input = none } }

  unfoldable pub require_input : String → Flow k → (k.Item → Reply k) → Reply k
  require_input label f next = elim f.ctx.input [
    | none ↦ (err (k.anyhow (text_append label "() requires ctx.data")), f)
    | some item ↦ next item
  ]

  unfoldable pub expect_many : Result k.Error (HookContext k) × Shared k → Answer k (List k.Item)
  expect_many (err e, s) = (err e, s)
  expect_many (ok ctx, s) = elim ctx.result [
    | none ↦ (ok [], s)
    | some r ↦ elim r [
      | HookResult.many items ↦ (ok items, s)
      | HookResult.one item ↦ (err (k.anyhow "find() produced HookResult::One unexpectedly"), s)
    ]
  ]

  unfoldable pub expect_one : String → Result k.Error (HookContext k) × Shared k → Answer k k.Item
  expect_one label (err e, s) = (err e, s)
  expect_one label (ok ctx, s) = elim ctx.result [
    | none ↦ (err (k.anyhow (text_append label "() produced no result")), s)
    | some r ↦ elim r [
      | HookResult.one item ↦ (ok item, s)
      | HookResult.many items ↦
          (err (k.anyhow (text_append label "() produced HookResult::Many unexpectedly")), s)
    ]
  ]

  abbrev pub begin :
      ServiceHandle k
      → TenantContext
      → ServiceMethodKind
      → k.Params
      → Option k.Item
      → Shared k
      → Flow k
  begin h tenant method params input s = record {
    shared = s;
    ctx = record (new_context tenant method params h.app.config) { input = input };
  }

  -- The call of the service, within the pipeline.
  unfoldable pub call_find : DogService k → Hook k
  call_find svc f = store_many f (svc.find f.ctx.tenant f.ctx.params f.shared.world)

  unfoldable pub call_get : DogService k → String → Hook k
  call_get svc id f = store_one f (svc.get f.ctx.tenant id f.ctx.params f.shared.world)

  unfoldable pub call_create : DogService k → Hook k
  call_create svc f =
      require_input "create" f (λ item.
        store_one (take_input f) (svc.create f.ctx.tenant item f.ctx.params f.shared.world))

  unfoldable pub call_patch : DogService k → Option String → Hook k
  call_patch svc id f = require_input "patch" f (λ item.
      store_one (take_input f) (svc.patch f.ctx.tenant id item f.ctx.params f.shared.world))

  unfoldable pub call_update : DogService k → String → Hook k
  call_update svc id f = require_input "update" f (λ item.
      store_one (take_input f) (svc.update f.ctx.tenant id item f.ctx.params f.shared.world))

  unfoldable pub call_remove : DogService k → Option String → Hook k
  call_remove svc id f = store_one f (svc.remove f.ctx.tenant id f.ctx.params f.shared.world)

  unfoldable pub call_custom : DogService k → String → Hook k
  call_custom svc method f =
      store_one (take_input f)
        (svc.custom f.ctx.tenant method f.ctx.input f.ctx.params f.shared.world)

  module _ (deliver : k.Listener → ServiceEventData k → HookContext k → Shared k → Shared k) where
    abbrev run :
        ServiceHandle k
        → ServiceMethodKind
        → Hook k
        → Flow k
        → Result k.Error (HookContext k) × Shared k
    run h method call f = run_pipeline deliver h.app h.name method call f

    unfoldable pub find :
        ServiceHandle k → TenantContext → k.Params → Shared k → Answer k (List k.Item)
    find h tenant params s =
        let method = ServiceMethodKind.find in
        expect_many (run h method (call_find h.service) (begin h tenant method params none s))

    unfoldable pub get :
        ServiceHandle k → TenantContext → String → k.Params → Shared k → Answer k k.Item
    get h tenant id params s =
        let method = ServiceMethodKind.get in
        expect_one "get"
          (run h method (call_get h.service id) (begin h tenant method params none s))

    unfoldable pub create :
        ServiceHandle k → TenantContext → k.Item → k.Params → Shared k → Answer k k.Item
    create h tenant item params s =
        let method = ServiceMethodKind.create in
        expect_one "create"
          (run h method (call_create h.service) (begin h tenant method params (some item) s))

    unfoldable pub patch :
        ServiceHandle k
        → TenantContext
        → Option String
        → k.Item
        → k.Params
        → Shared k
        → Answer k k.Item
    patch h tenant id item params s =
        let method = ServiceMethodKind.patch in
        expect_one "patch"
          (run h method (call_patch h.service id) (begin h tenant method params (some item) s))

    unfoldable pub update :
        ServiceHandle k → TenantContext → String → k.Item → k.Params → Shared k → Answer k k.Item
    update h tenant id item params s =
        let method = ServiceMethodKind.update in
        expect_one "update"
          (run h method (call_update h.service id) (begin h tenant method params (some item) s))

    unfoldable pub remove :
        ServiceHandle k → TenantContext → Option String → k.Params → Shared k → Answer k k.Item
    remove h tenant id params s =
        let method = ServiceMethodKind.remove in
        expect_one "remove"
          (run h method (call_remove h.service id) (begin h tenant method params none s))

    unfoldable pub custom :
        ServiceHandle k
        → TenantContext
        → String
        → Option k.Item
        → k.Params
        → Shared k
        → Answer k k.Item
    custom h tenant method_name item params s =
        let method = ServiceMethodKind.custom method_name in
        expect_one "custom"
          (run h method (call_custom h.service method_name) (begin h tenant method params item s))
