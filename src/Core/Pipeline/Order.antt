-- ===== src/Core/Pipeline/Order.antt =====
-- In which order the parts of a call run, and that the two paths of the pipeline agree.
use mathlib.Core.List.{reverse, reverse-append}
use dogrs.Base.{
  String, ◌≡◌, refl, ap, ◌∙◌, false, none, some, List, [], ◌∷◌, ◌++◌, All, arith, is_empty,
}
use dogrs.Base.Results.{ok, err}
use dogrs.Core.Events.{ServiceEventData}
use dogrs.Core.Hooks.{HookContext}
use dogrs.Core.Service.{ServiceMethodKind}
use dogrs.Core.App.{Shared, Flow, Reply, Hook, AroundHook}
use dogrs.Core.Kit.{Kit}
use dogrs.Core.Pipeline.{
  MethodHooks, set_error, run_hooks, inner, note_hooks, unless_error, fast, nest, run_chain,
  conclude,
}

module _ {k : Kit} where
  run_hooks-append :
      (hs gs : List (Hook k)) (f : Flow k)
      → run_hooks (hs ++ gs) f ≡ (elim (run_hooks hs f).0 [
        | err e ↦ (err e, (run_hooks hs f).1)
        | ok _ ↦ run_hooks gs (run_hooks hs f).1
      ])
  unfolding run_hooks
  run_hooks-append [] gs f = refl
  run_hooks-append (h ∷ hs) gs f = ground (arith, run_hooks-append hs gs (h f).1)

  -- Before, service and after as one sequence that stops at the first error.
  inner-run_hooks :
      (before : List (Hook k)) (call : Hook k) (after : List (Hook k)) (f : Flow k)
      → inner before call after f ≡ run_hooks (before ++ (call ∷ reverse after)) f
  unfolding inner
  inner-run_hooks before call after f = rw run_hooks-append (unfold run_hooks in refl)

  -- The reference: the first around hook is outermost.
  abbrev pub wrap : List (AroundHook k) → Hook k → Hook k
  wrap [] next = next
  wrap (h ∷ hs) next = λ f. h f (wrap hs next)

  nest-append :
      (hs gs : List (AroundHook k)) (next : Hook k) → nest (hs ++ gs) next ≡ nest gs (nest hs next)
  unfolding nest
  nest-append [] gs next = refl
  nest-append (h ∷ hs) gs next = nest-append hs gs (λ f. h f next)

  nest-reverse : (hs : List (AroundHook k)) (next : Hook k) → nest (reverse hs) next ≡ wrap hs next
  unfolding nest
  nest-reverse [] next = refl
  nest-reverse (h ∷ hs) next =
      ap (λ l. nest l next) (reverse-append (h ∷ []) hs)
      ∙ nest-append (reverse hs) (h ∷ []) next
      ∙ ap (λ n. nest (h ∷ []) n) (nest-reverse hs next)

  -- Where there is an around hook, a call is the service between the before hooks and the after
  -- hooks, the latter from the last to the first, as one sequence that stops at the first error; the
  -- around hooks are wrapped about it, the first one outermost.
  pub run_chain-wrap :
      (m : MethodHooks k) (call : Hook k) (f : Flow k)
      → is_empty m.around ≡ false
      → run_chain m call f ≡ wrap m.around (run_hooks (m.before ++ (call ∷ reverse m.after))) f
  unfolding run_chain
  run_chain-wrap m call f h =
      rw (h, nest-reverse) (λ i. wrap m.around (λ g. inner-run_hooks m.before call m.after g i) f)

  -- No error stands in the context after a success.
  abbrev pub Clean : Reply k → Type 0
  Clean (ok _, f) = f.ctx.error ≡ none
  Clean (err e, f) = Unit

  -- A hook that reports its errors by its result: where it succeeds, it leaves none in the context.
  abbrev pub Tidy : Hook k → Type 0
  Tidy h = (f : Flow k) → f.ctx.error ≡ none → Clean (h f)

  -- What the fast path leaves, of what the sequence leaves.
  abbrev noted : Reply k → Flow k
  noted (ok _, f) = f
  noted (err e, f) = set_error f (some e)

  note_hooks-noted : (hs : List (Hook k)) (f : Flow k) → note_hooks hs f ≡ noted (run_hooks hs f)
  unfolding note_hooks run_hooks
  note_hooks-noted [] f = refl
  note_hooks-noted (h ∷ hs) f = ground (arith, note_hooks-noted hs (h f).1)

  abbrev and_then : Reply k → Hook k → Reply k
  and_then x next = elim x.0 [ err e ↦ (err e, x.1) | ok _ ↦ next x.1 ]

  and_then-Clean :
      (x : Reply k) (next : Hook k)
      → Clean x
      → ((f : Flow k) → f.ctx.error ≡ none → Clean (next f))
      → Clean (and_then x next)
  and_then-Clean (ok u, f) next c t = t f c
  and_then-Clean (err e, f) next c t = tt

  run_hooks-Clean :
      (hs : List (Hook k)) (f : Flow k) → All Tidy hs → f.ctx.error ≡ none → Clean (run_hooks hs f)
  unfolding run_hooks
  run_hooks-Clean [] f t e = e
  run_hooks-Clean (h ∷ hs) f t e =
      and_then-Clean (h f) (run_hooks hs) (t.0 f e) (λ g. run_hooks-Clean hs g t.1)

  -- An error that is returned is taken out of the context.
  abbrev pub taken : Reply k → Reply k
  taken (ok u, f) = (ok u, f)
  taken (err e, f) = (err e, set_error f none)

  abbrev take_error : Flow k → Reply k
  take_error f = elim f.ctx.error [ none ↦ (ok tt, f) | some e ↦ (err e, set_error f none) ]

  take-noted : (x : Reply k) → Clean x → take_error (noted x) ≡ taken x
  take-noted (ok u, f) c = rw c refl
  take-noted (err e, f) c = refl

  -- One more section of the fast path, skipped after an error.
  section_lem :
      (x : Reply k) (hs : List (Hook k))
      → Clean x
      → unless_error (noted x).ctx.error (note_hooks hs (noted x)) (noted x)
        ≡ noted (and_then x (run_hooks hs))
  section_lem (ok u, f) hs c =
      ap (λ o. unless_error o (note_hooks hs f) f) c ∙ note_hooks-noted hs f
  section_lem (err e, f) hs c = refl

  joined :
      (x : Reply k) (call next : Hook k)
      → and_then (and_then x (run_hooks (call ∷ []))) next
        ≡ and_then x (λ g. and_then (call g) next)
  unfolding run_hooks
  joined (ok u, f) call next = ground arith
  joined (err e, f) call next = refl

  pub fast-inner :
      (before : List (Hook k)) (call : Hook k) (after : List (Hook k)) (f : Flow k)
      → All Tidy before
      → Tidy call
      → All Tidy (reverse after)
      → f.ctx.error ≡ none
      → fast before call after f ≡ taken (inner before call after f)
  unfolding fast inner
  fast-inner before call after f tb tc ta e =
      let x : Reply k = run_hooks before f in
      let cx : Clean x = run_hooks-Clean before f tb e in
      let y : Reply k = and_then x (run_hooks (call ∷ [])) in
      let cy : Clean y =
        and_then-Clean x (run_hooks (call ∷ [])) cx (λ g. run_hooks-Clean (call ∷ []) g (tc, tt)) in
      let z : Reply k = and_then y (run_hooks (reverse after)) in
      let cz : Clean z =
        and_then-Clean y (run_hooks (reverse after)) cy
          (λ g. run_hooks-Clean (reverse after) g ta) in
      ap (λ g. take_error (third (second g))) (note_hooks-noted before f)
      ∙ ap (λ g. take_error (third g)) (section_lem x (call ∷ []) cx)
      ∙ ap take_error (section_lem y (reverse after) cy)
      ∙ take-noted z cz
      ∙ ap taken (joined x call (run_hooks (reverse after)))
    where
      second : Flow k → Flow k
      second g = unless_error g.ctx.error (note_hooks (call ∷ []) g) g

      third : Flow k → Flow k
      third g = unless_error g.ctx.error (note_hooks (reverse after) g) g

  abbrev close_call : Reply k → Reply k
  close_call r =
      let g : Flow k = elim r.0 [ err e ↦ set_error r.1 (some e) | ok _ ↦ r.1 ] in
      take_error (unless_error g.ctx.error g g)

  fast-close_call :
      (call : Hook k) (f : Flow k) → f.ctx.error ≡ none → fast [] call [] f ≡ close_call (call f)
  unfolding fast note_hooks
  fast-close_call call f clean = ap (λ o. last (unless_error o (note_hooks (call ∷ []) f) f)) clean
    where
      last : Flow k → Reply k
      last g = take_error (unless_error g.ctx.error g g)

  pub fast-call :
      (call : Hook k) (f : Flow k) (x : Reply k)
      → f.ctx.error ≡ none
      → call f ≡ x
      → Clean x
      → fast [] call [] f ≡ taken x
  fast-call call f (ok u, g) clean called c =
      fast-close_call call f clean
      ∙ ap close_call called
      ∙ ap (λ o. take_error (unless_error o g g)) c
      ∙ take-noted (ok u, g) c
  fast-call call f (err e, g) clean called c = fast-close_call call f clean ∙ ap close_call called

  -- The pipeline's conclusion overwrites the error of the context.
  pub conclude-taken :
      (deliver : k.Listener → ServiceEventData k → HookContext k → Shared k → Shared k)
      (name : String) (method : ServiceMethodKind) (error : List (Hook k)) (x : Reply k)
      → conclude deliver name method error (taken x) ≡ conclude deliver name method error x
  unfolding conclude
  conclude-taken deliver name method error (ok u, f) = refl
  conclude-taken deliver name method error (err e, f) = refl

  -- An around hook that only calls `next`.
  abbrev pub pass : AroundHook k
  pass f next = next f

  -- The fast path is no other pipeline: if no error stands in the context at the start and every hook reports
  -- its errors by its result, then an application without around hooks answers as it would with an
  -- around hook that does nothing.
  pub fast-pass :
      (deliver : k.Listener → ServiceEventData k → HookContext k → Shared k → Shared k)
      (name : String) (method : ServiceMethodKind) (before after error : List (Hook k))
      (call : Hook k) (f : Flow k)
      → All Tidy before
      → Tidy call
      → All Tidy (reverse after)
      → f.ctx.error ≡ none
      → conclude deliver name method error
          (run_chain (record { around = []; before = before; after = after; error = error }) call f)
        ≡ conclude deliver name method error (
            run_chain
              (record { around = pass ∷ []; before = before; after = after; error = error })
              call
              f)
  unfolding run_chain nest
  fast-pass deliver name method before after error call f tb tc ta e =
      ap (conclude deliver name method error) (fast-inner before call after f tb tc ta e)
      ∙ conclude-taken deliver name method error (inner before call after f)

  -- The two paths part where a before hook sets the error of the context and succeeds: the fast path does not
  -- call the service and fails with that error, the other path calls the service.
  pub error_set-diverges :
      (h call : Hook k) (f : Flow k) (e : k.Error)
      → (h f).0 ≡ ok tt
      → (h f).1.ctx.error ≡ some e
      → (run_chain (record { around = []; before = h ∷ []; after = []; error = [] }) call f
          ≡ (err e, set_error (h f).1 none))
        × (run_chain (record { around = pass ∷ []; before = h ∷ []; after = []; error = [] }) call f
            ≡ call (h f).1)
  unfolding run_chain nest fast inner note_hooks run_hooks
  error_set-diverges h call f e said set = (ground (arith, said, set), ground (arith, said, set))
