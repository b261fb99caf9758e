-- ===== src/Core/Examples.antt =====
-- The theorems of dog-core at a concrete application: its items are texts, its state is a number.
use dogrs.Base.{ℕ, ◌+◌, ◌≡◌, refl, String, none, some, List, [], ◌∷◌, ◌++◌, string_eq}
use mathlib.Core.List.{reverse}
use dogrs.Base.Results.{Result, ok, err}
use dogrs.Core.App.{Shared, Flow, Hook, AroundHook, DogService, new_builder, default_service}
use dogrs.Core.Events.{
  DogEventHub, ServiceEventKind, ServiceEventData, ServiceEventPattern, new_hub, on_exact,
  once_pattern, exact_pattern,
}
use dogrs.Core.Events.Delivery.{Emission, emit_all, deliveries, emit_all-deliveries}
use dogrs.Core.Handle.{ServiceHandle, find, get, create, patch, update, remove, custom}
use dogrs.Core.Handle.Transparent.{IsPlain, put_back, SameAnswer, handle-transparent}
use dogrs.Core.Hooks.{HookContext, new_context}
use dogrs.Core.Kit.{Kit}
use dogrs.Core.Pipeline.{MethodHooks, run_chain, run_hooks, conclude, set_error}
use dogrs.Core.Pipeline.Order.{wrap, pass, Tidy, run_chain-wrap, fast-pass, error_set-diverges}
use dogrs.Core.Service.{TenantContext, ServiceMethodKind}
use dogrs.Dict

abbrev kit : Kit
kit = record {
  World = ℕ;
  Item = String;
  Params = Unit {0};
  Error = String;
  Listener = ℕ;
  Payload = ℕ;
  anyhow = λ s. s;
}

abbrev tenant : TenantContext
tenant = record { tenant_id = "acme" }

abbrev ctx : HookContext kit
ctx = new_context tenant ServiceMethodKind.create tt Dict.empty

abbrev created : ServiceEventPattern
created = exact_pattern "messages" ServiceEventKind.created

-- A listener for all creations, and one for the next creation only.
abbrev hub : DogEventHub kit
hub = (once_pattern (on_exact new_hub "messages" ServiceEventKind.created 10 1).1 created 20 2).1

abbrev emission : ServiceEventKind → Emission kit
emission e = record { path = "messages"; event = e; payload = ServiceEventData.custom 5; ctx = ctx }

abbrev emissions : List (Emission kit)
emissions =
    emission ServiceEventKind.created
    ∷ emission ServiceEventKind.removed
    ∷ emission ServiceEventKind.created
    ∷ []

emit_all-deliveries_example :
    (emit_all hub emissions).0 ≡ deliveries hub.publish hub.listeners [] emissions
emit_all-deliveries_example = emit_all-deliveries hub emissions

abbrev shared : Shared kit
shared = record { world = 0; hub = hub }

abbrev flow : Flow kit
flow = record { shared = shared; ctx = ctx }

abbrev add : ℕ → Flow kit → Flow kit
add n f = record f { shared = record (f.shared) { world = f.shared.world + n } }

-- A hook that counts, the service, and a hook that fails.
abbrev count : Hook kit
count f = (ok tt, add 1 f)

abbrev serve : Hook kit
serve f = (ok tt, add 10 f)

abbrev refuse : Hook kit
refuse f = (err "refused", add 100 f)

abbrev timed : AroundHook kit
timed f next = let (r, f') = next (add 1000 f) in (r, add 1000 f')

abbrev hooks : MethodHooks kit
hooks = record {
  around = timed ∷ pass ∷ [];
  before = count ∷ [];
  after = refuse ∷ count ∷ [];
  error = count ∷ [];
}

run_chain-wrap_example :
    run_chain hooks serve flow
    ≡ wrap
        (timed ∷ pass ∷ [])
        (run_hooks ((count ∷ []) ++ (serve ∷ reverse (refuse ∷ count ∷ []))))
        flow
run_chain-wrap_example = run_chain-wrap hooks serve flow refl

abbrev deliver : ℕ → ServiceEventData kit → HookContext kit → Shared kit → Shared kit
deliver n payload c s = record s { world = s.world + n }

count-Tidy : Tidy count
count-Tidy f clean = clean

serve-Tidy : Tidy serve
serve-Tidy f clean = clean

refuse-Tidy : Tidy refuse
refuse-Tidy f clean = tt

fast-pass_example :
    conclude deliver "messages" ServiceMethodKind.create (count ∷ []) (
      run_chain
        (record {
          around = [];
          before = count ∷ [];
          after = refuse ∷ count ∷ [];
          error = count ∷ [];
        })
        serve
        flow)
    ≡ conclude deliver "messages" ServiceMethodKind.create (count ∷ []) (
        run_chain
          (record {
            around = pass ∷ [];
            before = count ∷ [];
            after = refuse ∷ count ∷ [];
            error = count ∷ [];
          })
          serve
          flow)
unfolding new_context
fast-pass_example =
    fast-pass deliver "messages" ServiceMethodKind.create (count ∷ []) (refuse ∷ count ∷ [])
      (count ∷ []) serve flow (count-Tidy, tt) serve-Tidy (count-Tidy, (refuse-Tidy, tt)) refl

-- A before hook that only notes an error.
abbrev note : Hook kit
note f = (ok tt, set_error f (some "noted"))

error_set-diverges_example :
    (run_chain (record { around = []; before = note ∷ []; after = []; error = [] }) serve flow
      ≡ (err "noted", set_error (note flow).1 none))
    × (run_chain
          (record { around = pass ∷ []; before = note ∷ []; after = []; error = [] })
          serve
          flow
        ≡ serve (note flow).1)
error_set-diverges_example = error_set-diverges note serve flow "noted" refl refl

-- A service that counts its calls.
abbrev served : String → ℕ → Result String String × ℕ
served item n = (ok item, n + 1)

abbrev service : DogService kit
service = record {
  capabilities = (default_service {k = kit}).capabilities;
  find = λ t p s. (ok ("a" ∷ []), s);
  get = λ t id p s. served id s;
  create = λ t item p s. served item s;
  update = λ t id item p s. served item s;
  patch = λ t id item p s. served item s;
  remove = λ t id p s. (err "no removal", s);
  custom = λ t name item p s. served name s;
}

abbrev handle : ServiceHandle kit
handle = record { app = (new_builder {k = kit}).app; name = "messages"; service = service }

handle-IsPlain : IsPlain handle.app handle.name
unfolding new_builder
handle-IsPlain = record { no_global = refl; no_service = Dict.get-empty "messages" }

abbrev silent : Shared kit
silent = record { world = 0; hub = new_hub }

handle-transparent_example :
    (find deliver handle tenant tt silent ≡ (ok ("a" ∷ []), silent))
    × SameAnswer
        (get deliver handle tenant "7" tt silent)
        (put_back silent (service.get tenant "7" tt 0))
    × SameAnswer
        (create deliver handle tenant "b" tt silent)
        (put_back silent (service.create tenant "b" tt 0))
    × SameAnswer
        (patch deliver handle tenant (some "k") "b" tt silent)
        (put_back silent (service.patch tenant (some "k") "b" tt 0))
    × SameAnswer
        (update deliver handle tenant "7" "b" tt silent)
        (put_back silent (service.update tenant "7" "b" tt 0))
    × SameAnswer
        (remove deliver handle tenant (some "k") tt silent)
        (put_back silent (service.remove tenant (some "k") tt 0))
    × SameAnswer
        (custom deliver handle tenant "ping" (some "c") tt silent)
        (put_back silent (service.custom tenant "ping" (some "c") tt 0))
unfolding new_hub
handle-transparent_example =
    handle-transparent deliver handle tenant tt silent "7" "ping" (some "k") "b" (some "c")
      handle-IsPlain refl
