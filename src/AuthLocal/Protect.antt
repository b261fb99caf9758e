-- ===== src/AuthLocal/Protect.antt =====
-- dog-auth-local/src/hooks/protect.rs: `ProtectHook`, which takes fields out of the result of a call.
pub mod Laws
use dogrs.Base.{
  String, Bool, true, false, Option, none, some, List, [], ◌∷◌, ◌++◌, any, is_empty, if◌then◌else◌,
  ◌==◌, string_eq, map,
}
use dogrs.Base.Results.{Result, ok, err}
use dogrs.AuthLocal.Values.{
  Value, Values, Fields, get_field, insert_field, remove_field, get, path_parts,
}
use dogrs.Core.App.{Hook, Flow}
use dogrs.Core.Hooks.{HookResult}
use dogrs.Core.Kit.{Kit}

pub record ProtectHook : Type 0 where
  pub paths : List String
  pub deep_fields : List String

unfoldable pub from_fields : List String → ProtectHook
from_fields fields = record { paths = fields; deep_fields = [] }

unfoldable pub from_deep_fields : List String → ProtectHook
from_deep_fields fields = record { paths = []; deep_fields = fields }

unfoldable pub with_paths : ProtectHook → List String → ProtectHook
with_paths h paths = record h { paths = h.paths ++ paths }

unfoldable pub with_deep_fields : ProtectHook → List String → ProtectHook
with_deep_fields h fields = record h { deep_fields = h.deep_fields ++ fields }

-- Down the names but the last, which is removed.
unfoldable pub remove_parts : List String → Value → Value
remove_parts [] v = v
remove_parts (last ∷ []) (Value.object m) = Value.object (remove_field m last)
remove_parts (p ∷ q ∷ ps) (Value.object m) = elim (get_field m p) [
  | none ↦ Value.object m
  | some next ↦ Value.object (insert_field m p (remove_parts (q ∷ ps) next))
]
remove_parts _ v = v

unfoldable pub remove_path : Value → String → Value
remove_path root path = remove_parts (path_parts path) root

abbrev pub is_member : String → List String → Bool
is_member n fields = any (λ f. f == n) fields

-- The fields of the names are removed, here and in the values of the others.
unfoldable mutual
  pub remove_deep_fields : List String → Value → Value
  remove_deep_fields fields (Value.object m) = Value.object (deep_object fields m)
  remove_deep_fields fields (Value.array vs) = Value.array (deep_array fields vs)
  remove_deep_fields fields v = v

  pub deep_array : List String → Values → Values
  deep_array fields Values.nil = Values.nil
  deep_array fields (Values.cons v vs) =
      Values.cons (remove_deep_fields fields v) (deep_array fields vs)

  pub deep_object : List String → Fields → Fields
  deep_object fields Fields.end = Fields.end
  deep_object fields (Fields.field n v m) =
      let v' = remove_deep_fields fields v in
      let rest = deep_object fields m in if is_member n fields then rest else Fields.field n v' rest

unfoldable pub remove_paths : List String → Value → Value
remove_paths [] v = v
remove_paths (p ∷ ps) v = remove_paths ps (remove_path v p)

unfoldable pub strip_one : ProtectHook → Value → Value
strip_one h v =
    let v' = remove_paths h.paths v in
    if is_empty h.deep_fields then v' else remove_deep_fields h.deep_fields v'

unfoldable pub strip_all : ProtectHook → Values → Values
strip_all h Values.nil = Values.nil
strip_all h (Values.cons v vs) = Values.cons (strip_one h v) (strip_all h vs)

-- `data`, where it is an array.
unfoldable pub page_of : Value → Option Values
page_of v = elim (get v "data") [
  | some d ↦ elim d [ Value.array vs ↦ some vs | _ ↦ none ]
  | none ↦ none
]

unfoldable pub with_page : Value → Values → Value
with_page (Value.object m) vs = Value.object (insert_field m "data" (Value.array vs))
with_page v vs = v

unfoldable pub protect : ProtectHook → HookResult Value → HookResult Value
protect h (HookResult.one v) = elim (page_of v) [
  | some page ↦ HookResult.one (with_page v (strip_all h page))
  | none ↦ HookResult.one (strip_one h v)
]
protect h (HookResult.many vs) = HookResult.many (map (strip_one h) vs)

-- A kit whose items are JSON values.
abbrev pub json_kit : Kit → Kit
json_kit k = record k { Item = Value }

-- `ProtectHook::run`.
unfoldable pub protect_hook : (k : Kit) → ProtectHook → Hook (json_kit k)
protect_hook k h f = elim f.ctx.result as (λ _. Result k.Error (Unit {0}) × Flow (json_kit k)) [
  | none ↦ (ok tt, f)
  | some res ↦ (ok tt, record f { ctx = record (f.ctx) { result = some (protect h res) } })
]
