-- ===== src/Core/App.antt =====
-- dog-core/src/app.rs, dog-core/src/registry.rs and dog-core/src/config.rs: services, what they run on, and the
-- application with its builder.
use dogrs.Base.{ℕ, String, Option, none, some, List, string_eq}
use dogrs.Base.Results.{Result, ok, err}
use dogrs.Core.Events.{DogEventHub, ServiceEventKind, PublishFn, new_hub, on_exact, set_publish}
use dogrs.Core.Hooks.{HookContext, ServiceHooks, new_hooks}
use dogrs.Core.Kit.{Kit}
use dogrs.Core.Service.{TenantContext, ServiceCapabilities, standard_crud}
use dogrs.Dict
use dogrs.Dict.{Dict}
use Prim.Native.String.{◌++◌ as text_append}

-- What the calls of an application share: the state of what the application supplies, and the hub of events.
pub record Shared (k : Kit) : Type 0 where
  pub world : k.World
  pub hub : DogEventHub k

-- A call under way.
pub record Flow (k : Kit) : Type 0 where
  pub shared : Shared k
  pub ctx : HookContext k

-- `Result<()>` with the new state.
abbrev pub Reply : Kit → Type 0
Reply k = Result k.Error (Unit {0}) × Flow k

-- The call of the service within the pipeline is of this type too.
abbrev pub Hook : Kit → Type 0
Hook k = Flow k → Reply k

-- An around hook is given the rest of the pipeline, which it may call.
abbrev pub AroundHook : Kit → Type 0
AroundHook k = Flow k → Hook k → Reply k

abbrev pub Hooks : Kit → Type 0
Hooks k = ServiceHooks (AroundHook k) (Hook k)

abbrev pub Answer : Kit → Type 0 → Type 0
Answer k A = Result k.Error A × Shared k

-- What a service answers. It changes the state of what the application supplies, and not the hub, which the
-- application builds before it serves and then only shares.
abbrev pub Served : Kit → Type 0 → Type 0
Served k A = Result k.Error A × k.World

pub record DogService (k : Kit) : Type 0 where
  pub capabilities : ServiceCapabilities
  pub find : TenantContext → k.Params → k.World → Served k (List k.Item)
  pub get : TenantContext → String → k.Params → k.World → Served k k.Item
  pub create : TenantContext → k.Item → k.Params → k.World → Served k k.Item
  pub update : TenantContext → String → k.Item → k.Params → k.World → Served k k.Item
  pub patch : TenantContext → Option String → k.Item → k.Params → k.World → Served k k.Item
  pub remove : TenantContext → Option String → k.Params → k.World → Served k k.Item
  pub custom : TenantContext → String → Option k.Item → k.Params → k.World → Served k k.Item

-- `AppValue`.
pub data AppValue (k : Kit) : Type 0 where
  str : String → AppValue k
  any : k.Payload → AppValue k

pub record DogApp (k : Kit) : Type 0 where
  pub registry : Dict String (DogService k)
  pub global_hooks : Hooks k
  pub service_hooks : Dict String (Hooks k)
  pub config : Dict String String
  pub any_state : Dict String k.Payload

-- The builder has the application's fields, and its hub.
pub record DogAppBuilder (k : Kit) : Type 0 where
  pub app : DogApp k
  pub events : DogEventHub k

unimplemented : {A : Type 0} (k : Kit) → String → k.World → Served k A
unimplemented k msg w = (err (k.anyhow msg), w)

module _ {k : Kit} where
  -- The default methods of the trait.
  unfoldable pub default_service : DogService k
  unfolding unimplemented
  default_service = record {
    capabilities = standard_crud;
    find = λ tenant params. unimplemented k "Method not implemented: find";
    get = λ tenant id params. unimplemented k "Method not implemented: get";
    create = λ tenant item params. unimplemented k "Method not implemented: create";
    update = λ tenant id item params. unimplemented k "Method not implemented: update";
    patch = λ tenant id item params. unimplemented k "Method not implemented: patch";
    remove = λ tenant id params. unimplemented k "Method not implemented: remove";
    custom = λ tenant method item params.
        unimplemented k "Custom methods not implemented by this service";
  }

  unfoldable pub new_builder : DogAppBuilder k
  new_builder = record {
    app = record {
      registry = Dict.empty;
      global_hooks = new_hooks;
      service_hooks = Dict.empty;
      config = Dict.empty;
      any_state = Dict.empty;
    };
    events = new_hub;
  }

  unfoldable pub register_service : DogApp k → String → DogService k → DogApp k
  register_service app name service = record app { registry = Dict.put app.registry name service }

  -- The lookup of a service by its name.
  unfoldable pub service : DogApp k → String → Result k.Error (DogService k)
  service app name = elim (Dict.get app.registry name) [
    | none ↦ err (k.anyhow (text_append "DogService not found: " name))
    | some s ↦ ok s
  ]

  unfoldable pub hooks : DogApp k → (Hooks k → Hooks k) → DogApp k
  hooks app f = record app { global_hooks = f app.global_hooks }

  unfoldable pub service_hooks : DogApp k → String → (Hooks k → Hooks k) → DogApp k
  service_hooks app name f = record app {
    service_hooks =
        Dict.put app.service_hooks name (f (Dict.get_or_default app.service_hooks name new_hooks));
  }

  unfoldable pub set : DogApp k → String → AppValue k → DogApp k
  set app key (AppValue.str s) = record app { config = Dict.put app.config key s }
  set app key (AppValue.any a) = record app { any_state = Dict.put app.any_state key a }

  -- A value of the type `T` that is asked for, from the configuration first (`T::from_config`) and from
  -- the typed values next (`T::from_any`).
  unfoldable pub get :
      {T : Type 0} → (String → Option T) → (k.Payload → Option T) → DogApp k → String → Option T
  get {T} from_config from_any app key =
      let from_state : Option T = elim (Dict.get app.any_state key) [
        | none ↦ none
        | some a ↦ from_any a
      ] in
      elim (Dict.get app.config key) [
        | none ↦ from_state
        | some s ↦ elim (from_config s) [ none ↦ from_state | some t ↦ some t ]
      ]

  unfoldable pub on : DogAppBuilder k → String → ServiceEventKind → k.Listener → ℕ → DogAppBuilder k
  on b path event listener fresh = record b {
    events = (on_exact b.events path event listener fresh).1;
  }

  unfoldable pub publish : DogAppBuilder k → PublishFn k → DogAppBuilder k
  publish b f = record b { events = set_publish b.events f }

  unfoldable pub build : DogAppBuilder k → DogApp k × DogEventHub k
  build b = (b.app, b.events)
