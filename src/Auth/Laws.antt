-- ===== src/Auth/Laws.antt =====
-- What the authenticate hook lets through, and what it refuses.
use dogrs.Base.{
  ◌≡◌, refl, sym, ap, ◌∙◌, String, true, false, ◌&&◌, not, none, some, List, [], ◌∷◌, arith,
  is_empty, any, ◌==◌, string_eq, Option-cases, Bool-cases, inl, inr,
}
use dogrs.Base.Results.{Result, ok, err, Result-cases}
use dogrs.Auth.Core.{
  AuthenticationBase, AuthenticationRequest, AuthenticationParams, Strategy, authenticate,
  not_authenticated,
}
use dogrs.Auth.Hooks.{
  AuthenticateHookParams, is_internal, auth_request, auth_params, set_params, authenticate_hook,
}
use mathlib.Core.List.{reverse}
use dogrs.Core.App.{Flow, Hook, Reply}
use dogrs.Core.Kit.{Kit}
use dogrs.Core.Pipeline.{
  MethodHooks, run_chain, fast, note_hooks, set_error, unless_error, run_pipeline, conclude,
  run_error_hooks, collect_hooks_for_method,
}
use dogrs.Core.App.{DogApp, Shared}
use dogrs.Core.Events.{ServiceEventData}
use dogrs.Core.Hooks.{HookContext}
use dogrs.Core.Service.{ServiceMethodKind}
use dogrs.Dict

module _ {k : Kit} {V : Type 0} (b : AuthenticationBase k V) where
  -- A strategy of the request's name, allowed and registered, that accepts the request.
  pub record IsAuthentic (allowed : List String) (req : AuthenticationRequest k.Item)
      (params : AuthenticationParams k.Item) (f : Flow k) (result : k.Item) (f' : Flow k)
      : Type 0 where
    pub name : String
    pub strategy : Strategy k
    pub named : req.strategy ≡ some name
    pub is_allowed : not (is_empty allowed) && not (any (λ s. s == name) allowed) ≡ false
    pub registered : Dict.get b.strategies name ≡ some strategy
    pub accepts : strategy req params f ≡ (ok result, f')

  refused :
      (e : k.Error) (f f' : Flow k) (result : k.Item)
      → ¬ ◌≡◌ {A = Result k.Error k.Item × Flow k} (err e, f) (ok result, f')
  refused e f f' result same = ground (arith, ap (λ x. x.0) same)

  pub authenticate-IsAuthentic :
      (req : AuthenticationRequest k.Item) (params : AuthenticationParams k.Item)
      (allowed : List String) (f f' : Flow k) (result : k.Item)
      → authenticate b req params allowed f ≡ (ok result, f')
      → IsAuthentic allowed req params f result f'
  unfolding authenticate
  authenticate-IsAuthentic req params allowed f f' result accepted =
      elim (Option-cases req.strategy) [
        | inl unnamed ↦ absurd (refused _ f f' result (rw (authenticate, unnamed) at accepted))
        | inr (name, named) ↦
            elim (Bool-cases (not (is_empty allowed) && not (any (λ s. s == name) allowed))) [
              | inl barred ↦
                  absurd (refused _ f f' result (rw (authenticate, named, barred) at accepted))
              | inr allowed_it ↦ elim (Option-cases (Dict.get b.strategies name)) [
                | inl unknown ↦ absurd (
                    refused _ f f' result
                      (rw (authenticate, named, allowed_it, unknown) at accepted))
                | inr (strategy, registered) ↦ record {
                  name = name;
                  strategy = strategy;
                  named = named;
                  is_allowed = allowed_it;
                  registered = registered;
                  accepts = rw (authenticate, named, allowed_it, registered) at accepted;
                }
              ]
            ]
      ]

  module _ (p : AuthenticateHookParams k) where
    stopped :
        (e : k.Error) (f f' : Flow k)
        → ¬ ◌≡◌ {A = Result k.Error (Unit {0}) × Flow k} (err e, f) (ok tt, f')
    stopped e f f' same = ground (arith, ap (λ x. x.0) same)

    -- A call from outside that has not been authenticated passes the hook only if it brings a request, or a token in its headers, and a strategy that the
    -- hook allows and that is registered under the name of the request accepts it; then the parameters of the call are marked and hold
    -- the strategy's result.
    pub authenticate_hook-IsAuthentic :
        (strategies : List String) (f f'' : Flow k)
        → p.authenticated f.ctx.params ≡ false
        → is_internal b p f.ctx.params ≡ false
        → authenticate_hook b p strategies f ≡ (ok tt, f'')
        → (req : AuthenticationRequest k.Item) × (result : k.Item) × (f' : Flow k) × (auth_request b
              p f.ctx.params
            ≡ some req)
          × (is_empty strategies ≡ false)
          × IsAuthentic strategies req (auth_params b p strategies f.ctx.params) f result f'
          × (f''
              ≡ set_params b p f'
                  (p.set_authenticated true (p.set_auth_result result f'.ctx.params)))
    unfolding authenticate_hook
    authenticate_hook-IsAuthentic strategies f f'' fresh outside passed =
        elim (Option-cases (auth_request b p f.ctx.params)) [
          | inl bare ↦
              absurd (stopped _ f f'' (rw (authenticate_hook, fresh, outside, bare) at passed))
          | inr (req, brought) ↦ elim (Bool-cases (is_empty strategies)) [
            | inl no_strategy ↦ absurd (
                stopped _ f f''
                  (rw (authenticate_hook, fresh, outside, brought, no_strategy) at passed))
            | inr some_strategy ↦
                elim (Result-cases
                  (authenticate b req (auth_params b p strategies f.ctx.params) strategies f).0) [
                    | inl (e, failed) ↦ absurd (
                        stopped _ _ f'' (
                          rw (authenticate_hook, fresh, outside, brought, some_strategy, failed) at
                            passed))
                    | inr (result, accepted) ↦ (
                      req,
                      result,
                      (authenticate b req (auth_params b p strategies f.ctx.params) strategies f).1,
                      brought,
                      some_strategy,
                      authenticate-IsAuthentic req _ strategies f _ result (
                          ap
                            (λ r. (
                              r,
                              (authenticate b req (auth_params b p strategies f.ctx.params)
                                  strategies f).1,
                            ))
                            accepted),
                      sym (
                          ap (λ x. x.1)
                            (rw
                              (authenticate_hook, fresh, outside, brought, some_strategy, accepted)
                              at passed)),
                    )
                  ]
          ]
        ]

    pub authenticate_hook-refuses :
        (strategies : List String) (f : Flow k)
        → p.authenticated f.ctx.params ≡ false
        → is_internal b p f.ctx.params ≡ false
        → auth_request b p f.ctx.params ≡ none
        → authenticate_hook b p strategies f ≡ (err (not_authenticated b "Not authenticated"), f)
    unfolding authenticate_hook
    authenticate_hook-refuses strategies f fresh outside bare =
        rw (authenticate_hook, fresh, outside, bare) refl

  -- The hooks of a method, the first of which is the given one, with no other way in.
  abbrev pub guarded_by : Hook k → List (Hook k) → List (Hook k) → MethodHooks k
  guarded_by h before after = record { around = []; before = h ∷ before; after = after; error = [] }

  noted :
      (h : Hook k) (before : List (Hook k)) (f : Flow k) (e : k.Error)
      → h f ≡ (err e, f)
      → note_hooks (h ∷ before) f ≡ set_error f (some e)
  unfolding note_hooks
  noted h before f e refuses = rw (refuses, note_hooks) (ap (λ x. set_error x.1 (some e)) refuses)

  -- The fast path from what the before hooks leave.
  abbrev after_before : Hook k → List (Hook k) → Flow k → Reply k
  after_before call after f1 =
      let f2 = unless_error f1.ctx.error (note_hooks (call ∷ []) f1) f1 in
      let f3 = unless_error f2.ctx.error (note_hooks (reverse after) f2) f2 in
      elim f3.ctx.error [ none ↦ (ok tt, f3) | some e ↦ (err e, set_error f3 none) ]

  fast-refused :
      (h call : Hook k) (before after : List (Hook k)) (f : Flow k) (e : k.Error)
      → h f ≡ (err e, f)
      → fast (h ∷ before) call after f ≡ (err e, set_error f none)
  unfolding fast
  fast-refused h call before after f e refuses =
      ap (after_before call after) (noted h before f e refuses)

  -- Where the first hook refuses the call, nothing else of the pipeline runs, the call of the service included.
  pub run_pipeline-refused :
      (deliver : k.Listener → ServiceEventData k → HookContext k → Shared k → Shared k)
      (app : DogApp k) (name : String) (method : ServiceMethodKind) (h call : Hook k)
      (before after : List (Hook k)) (f : Flow k) (e : k.Error)
      → collect_hooks_for_method app name method ≡ guarded_by h before after
      → h f ≡ (err e, f)
      → run_pipeline deliver app name method call f ≡ (err e, f.shared)
  unfolding run_pipeline conclude run_chain run_error_hooks
  run_pipeline-refused deliver app name method h call before after f e hooks refuses =
      ap (λ (m : MethodHooks k). conclude deliver name method m.error (run_chain m call f)) hooks
      ∙ ap (conclude deliver name method []) (fast-refused h call before after f e refuses)
