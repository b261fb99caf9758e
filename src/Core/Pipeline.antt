-- ===== src/Core/Pipeline.antt =====
-- `ServiceHandle::run_pipeline` of dog-core/src/app.rs: a call of a service between its hooks. `deliver` is what a
-- listener does with an event; its result is ignored.
pub mod Order
use mathlib.Core.List.{reverse}
use dogrs.Base.{
  String, Bool, true, false, Option, none, some, List, [], ◌∷◌, ◌++◌, if◌then◌else◌, string_eq,
  is_empty, map,
}
use dogrs.Base.Results.{Result, ok, err}
use dogrs.Core.App.{Shared, Flow, Reply, Hook, AroundHook, Hooks, DogApp}
use dogrs.Core.Events.{
  ServiceEventKind, ServiceEventData, ListenerEntry, snapshot_emit, method_to_standard_event,
}
use dogrs.Core.Hooks.{HookContext, ServiceHooks, collect_method_hooks}
use dogrs.Core.Kit.{Kit}
use dogrs.Core.Service.{ServiceMethodKind}
use dogrs.Dict
use dogrs.Dict.{Dict}

-- The hooks of one call.
pub record MethodHooks (k : Kit) : Type 0 where
  pub around : List (AroundHook k)
  pub before : List (Hook k)
  pub after : List (Hook k)
  pub error : List (Hook k)

module _ {k : Kit} where
  unfoldable pub hooks_of : Hooks k → ServiceMethodKind → MethodHooks k
  hooks_of h method = record {
    around = collect_method_hooks h.around_all h.around_by_method method;
    before = collect_method_hooks h.before_all h.before_by_method method;
    after = collect_method_hooks h.after_all h.after_by_method method;
    error = collect_method_hooks h.error_all h.error_by_method method;
  }

  -- Those of the application, then those of the service.
  unfoldable pub collect_hooks_for_method : DogApp k → String → ServiceMethodKind → MethodHooks k
  collect_hooks_for_method app name method =
      let g = hooks_of app.global_hooks method in
      elim (Dict.get app.service_hooks name) [
        | none ↦ g
        | some hooks ↦
            let s = hooks_of hooks method in
            record {
              around = g.around ++ s.around;
              before = g.before ++ s.before;
              after = g.after ++ s.after;
              error = g.error ++ s.error;
            }
      ]

  abbrev pub set_error : Flow k → Option k.Error → Flow k
  set_error f e = record f { ctx = record (f.ctx) { error = e } }

  -- `h.run(ctx).await?` for each hook.
  unfoldable pub run_hooks : List (Hook k) → Hook k
  run_hooks [] f = (ok tt, f)
  run_hooks (h ∷ hs) f =
      let (r, f') = h f in elim r [ err e ↦ (err e, f') | ok _ ↦ run_hooks hs f' ]

  -- The innermost `next`: before, service, after in reverse.
  unfoldable pub inner : List (Hook k) → Hook k → List (Hook k) → Hook k
  inner before call after f =
      let (r, f') = run_hooks before f in
      elim r [
        | err e ↦ (err e, f')
        | ok _ ↦
            let (r', f'') = call f' in
            elim r' [ err e ↦ (err e, f'') | ok _ ↦ run_hooks (reverse after) f'' ]
      ]

  -- The fast path's loops, which note an error in the context and stop.
  unfoldable pub note_hooks : List (Hook k) → Flow k → Flow k
  note_hooks [] f = f
  note_hooks (h ∷ hs) f =
      let (r, f') = h f in elim r [ err e ↦ set_error f' (some e) | ok _ ↦ note_hooks hs f' ]

  -- `if ctx.error.is_none() { .. }`.
  abbrev pub unless_error : Option k.Error → Flow k → Flow k → Flow k
  unless_error none next f = next
  unless_error (some e) next f = f

  -- The fast path, where there is no around hook.
  unfoldable pub fast : List (Hook k) → Hook k → List (Hook k) → Hook k
  fast before call after f =
      let f1 = note_hooks before f in
      let f2 = unless_error f1.ctx.error (note_hooks (call ∷ []) f1) f1 in
      let f3 = unless_error f2.ctx.error (note_hooks (reverse after) f2) f2 in
      elim f3.ctx.error [ none ↦ (ok tt, f3) | some e ↦ (err e, set_error f3 none) ]

  -- The loop that wraps `next`, over the around hooks from the last to the first.
  unfoldable pub nest : List (AroundHook k) → Hook k → Hook k
  nest [] next = next
  nest (h ∷ hs) next = nest hs (λ f. h f next)

  unfoldable pub run_chain : MethodHooks k → Hook k → Hook k
  run_chain m call f =
      if is_empty m.around
      then fast m.before call m.after f
      else nest (reverse m.around) (inner m.before call m.after) f

  -- The error hooks, whose results are ignored.
  unfoldable pub run_error_hooks : List (Hook k) → Flow k → Flow k
  run_error_hooks [] f = f
  run_error_hooks (h ∷ hs) f = run_error_hooks hs (h f).1

  module _ (deliver : k.Listener → ServiceEventData k → HookContext k → Shared k → Shared k) where
    unfoldable pub deliver_all :
        List (ListenerEntry k) → ServiceEventData k → HookContext k → Shared k → Shared k
    deliver_all [] payload ctx s = s
    deliver_all (e ∷ es) payload ctx s =
        deliver_all es payload ctx (deliver e.listener payload ctx s)

    unfoldable pub emit :
        String → ServiceEventKind → ServiceEventData k → HookContext k → Shared k → Shared k
    emit path event payload ctx s =
        let (to_call, hub) = snapshot_emit s.hub path event payload ctx in
        deliver_all to_call payload ctx (record s { hub = hub })

    -- `emit_custom`.
    unfoldable pub emit_custom : String → String → k.Payload → HookContext k → Shared k → Shared k
    emit_custom path event_name payload ctx s =
        emit path (ServiceEventKind.custom event_name) (ServiceEventData.custom payload) ctx s

    -- The standard event of a call that ends without an error.
    unfoldable pub emit_standard : String → ServiceMethodKind → Flow k → Shared k
    emit_standard name method f = elim f.ctx.error [
      | some e ↦ f.shared
      | none ↦ elim (method_to_standard_event method) [
        | none ↦ f.shared
        | some event ↦ elim f.ctx.result [
          | none ↦ f.shared
          | some result ↦ emit name event (ServiceEventData.standard result) f.ctx f.shared
        ]
      ]
    ]

    unfoldable pub conclude :
        String
        → ServiceMethodKind
        → List (Hook k)
        → Reply k
        → Result k.Error (HookContext k) × Shared k
    conclude name method error (ok _, f) = (ok f.ctx, emit_standard name method f)
    conclude name method error (err e, f) =
        let f' = run_error_hooks error (set_error f (some e)) in
        elim f'.ctx.error [
          | some e' ↦ (err e', f'.shared)
          | none ↦ (ok f'.ctx, emit_standard name method f')
        ]

    unfoldable pub run_pipeline :
        DogApp k
        → String
        → ServiceMethodKind
        → Hook k
        → Flow k
        → Result k.Error (HookContext k) × Shared k
    run_pipeline app name method call f =
        let m = collect_hooks_for_method app name method in
        conclude name method m.error (run_chain m call f)
