-- ===== src/Core/Hooks.antt =====
-- dog-core/src/hooks.rs: the context of a call, and the containers of hooks.
use dogrs.Base.{String, Option, none, some, List, [], ◌∷◌, ◌++◌, Bool, ◌&&◌, is_empty as no_hook}
use dogrs.Core.Kit.{Kit}
use dogrs.Core.Service.{TenantContext, ServiceMethodKind, method_eq}
use dogrs.Dict
use dogrs.Dict.{Dict}

pub data HookResult {ℓ} (A : Type ℓ) : Type ℓ where
  one : A → HookResult A
  many : List A → HookResult A

-- `services`, which gives a hook the application, is left out: a hook is a function that may hold it.
pub record HookContext (k : Kit) : Type 0 where
  pub tenant : TenantContext
  pub method : ServiceMethodKind
  pub params : k.Params
  pub input : Option k.Item
  pub result : Option (HookResult k.Item)
  pub error : Option k.Error
  pub config : Dict String String

unfoldable pub new_context :
    {k : Kit} → TenantContext → ServiceMethodKind → k.Params → Dict String String → HookContext k
new_context tenant method params config = record {
  tenant = tenant;
  method = method;
  params = params;
  input = none;
  result = none;
  error = none;
  config = config;
}

-- The hooks of one application or of one service, by kind: `A` is that of the around hooks, and `H` that of the others.
pub record ServiceHooks {ℓ} (A H : Type ℓ) : Type ℓ where
  pub around_all : List A
  pub before_all : List H
  pub after_all : List H
  pub error_all : List H
  pub around_by_method : Dict ServiceMethodKind (List A)
  pub before_by_method : Dict ServiceMethodKind (List H)
  pub after_by_method : Dict ServiceMethodKind (List H)
  pub error_by_method : Dict ServiceMethodKind (List H)

-- `collect_method_hooks`: those for all methods, then those for the method.
unfoldable pub collect_method_hooks {ℓ} :
    {T : Type ℓ} → List T → Dict ServiceMethodKind (List T) → ServiceMethodKind → List T
collect_method_hooks all by_method method = elim (Dict.get by_method method) [
  | none ↦ all
  | some method_hooks ↦ all ++ method_hooks
]

-- `entry(method).or_default().push(hook)`.
unfoldable pub push_hook {ℓ} :
    {T : Type ℓ}
    → Dict ServiceMethodKind (List T)
    → ServiceMethodKind
    → T
    → Dict ServiceMethodKind (List T)
push_hook by_method method hook =
    Dict.put by_method method (Dict.get_or_default by_method method [] ++ hook ∷ [])

module _ {ℓ} {A H : Type ℓ} where
  unfoldable pub new_hooks : ServiceHooks A H
  new_hooks = record {
    around_all = [];
    before_all = [];
    after_all = [];
    error_all = [];
    around_by_method = Dict.empty;
    before_by_method = Dict.empty;
    after_by_method = Dict.empty;
    error_by_method = Dict.empty;
  }

  unfoldable pub is_empty : ServiceHooks A H → Bool
  is_empty h =
      no_hook h.around_all
      && no_hook h.before_all
      && no_hook h.after_all
      && no_hook h.error_all
      && Dict.is_empty h.around_by_method
      && Dict.is_empty h.before_by_method
      && Dict.is_empty h.after_by_method
      && Dict.is_empty h.error_by_method

  unfoldable pub around_all : ServiceHooks A H → A → ServiceHooks A H
  around_all h hook = record h { around_all = h.around_all ++ hook ∷ [] }

  unfoldable pub around : ServiceHooks A H → ServiceMethodKind → A → ServiceHooks A H
  around h method hook = record h { around_by_method = push_hook h.around_by_method method hook }

  unfoldable pub before_all : ServiceHooks A H → H → ServiceHooks A H
  before_all h hook = record h { before_all = h.before_all ++ hook ∷ [] }

  unfoldable pub before : ServiceHooks A H → ServiceMethodKind → H → ServiceHooks A H
  before h method hook = record h { before_by_method = push_hook h.before_by_method method hook }

  unfoldable pub after_all : ServiceHooks A H → H → ServiceHooks A H
  after_all h hook = record h { after_all = h.after_all ++ hook ∷ [] }

  unfoldable pub after : ServiceHooks A H → ServiceMethodKind → H → ServiceHooks A H
  after h method hook = record h { after_by_method = push_hook h.after_by_method method hook }

  unfoldable pub error_all : ServiceHooks A H → H → ServiceHooks A H
  error_all h hook = record h { error_all = h.error_all ++ hook ∷ [] }

  unfoldable pub error : ServiceHooks A H → ServiceMethodKind → H → ServiceHooks A H
  error h method hook = record h { error_by_method = push_hook h.error_by_method method hook }
