-- ===== src/AuthLocal/Protect/Laws.antt =====
-- What the protect hook takes out of a result, and what it leaves.
use dogrs.Base.{
  ◌≡◌, ◌≢◌, refl, sym, ap, ◌∙◌, String, false, Option, none, some, List, [], ◌∷◌, All, is_empty,
  arith, map, ◌==◌, string_eq, str_beq_ne, str_beq_refl, subst, Bool-cases, Option-cases, inl, inr,
}
use dogrs.AuthLocal.Protect.{
  ProtectHook, is_member, remove_deep_fields, deep_array, deep_object, remove_paths, strip_one,
  strip_all, page_of, with_page, protect,
}
use dogrs.AuthLocal.Values.{Value, Values, Fields, get, get_field, get_field-insert_field}
use dogrs.Core.Hooks.{HookResult}

-- No object within has a field of the names.
mutual
  pub IsStripped : List String → Value → Type 0
  IsStripped fields (Value.object m) = IsStrippedObject fields m
  IsStripped fields (Value.array vs) = IsStrippedArray fields vs
  IsStripped fields v = Unit

  pub IsStrippedArray : List String → Values → Type 0
  IsStrippedArray fields Values.nil = Unit
  IsStrippedArray fields (Values.cons v vs) = IsStripped fields v × IsStrippedArray fields vs

  pub IsStrippedObject : List String → Fields → Type 0
  IsStrippedObject fields Fields.end = Unit
  IsStrippedObject fields (Fields.field n v m) =
      (is_member n fields ≡ false) × IsStripped fields v × IsStrippedObject fields m

mutual
  unfolding remove_deep_fields IsStripped

  remove_deep_fields-IsStripped :
      (fields : List String) (v : Value) → IsStripped fields (remove_deep_fields fields v)
  remove_deep_fields-IsStripped fields (Value.object m) = deep_object-IsStrippedObject fields m
  remove_deep_fields-IsStripped fields (Value.array vs) = deep_array-IsStrippedArray fields vs
  remove_deep_fields-IsStripped fields Value.null = tt
  remove_deep_fields-IsStripped fields (Value.bool b) = tt
  remove_deep_fields-IsStripped fields (Value.number t) = tt
  remove_deep_fields-IsStripped fields (Value.text t) = tt

  deep_array-IsStrippedArray :
      (fields : List String) (vs : Values) → IsStrippedArray fields (deep_array fields vs)
  deep_array-IsStrippedArray fields Values.nil = tt
  deep_array-IsStrippedArray fields (Values.cons v vs) =
      (remove_deep_fields-IsStripped fields v, deep_array-IsStrippedArray fields vs)

  deep_object-IsStrippedObject :
      (fields : List String) (m : Fields) → IsStrippedObject fields (deep_object fields m)
  deep_object-IsStrippedObject fields Fields.end = tt
  deep_object-IsStrippedObject fields (Fields.field n v m) =
      let first = remove_deep_fields-IsStripped fields v in
      let rest = deep_object-IsStrippedObject fields m in
      elim (Bool-cases (is_member n fields)) [
        | inl named ↦ rw named rest
        | inr other ↦ rw other (other, first, rest)
      ]

strip_one-IsStripped :
    (h : ProtectHook) (v : Value)
    → is_empty h.deep_fields ≡ false
    → IsStripped h.deep_fields (strip_one h v)
unfolding strip_one
strip_one-IsStripped h v deep =
    rw deep (remove_deep_fields-IsStripped h.deep_fields (remove_paths h.paths v))

strip_all-IsStrippedArray :
    (h : ProtectHook) (vs : Values)
    → is_empty h.deep_fields ≡ false
    → IsStrippedArray h.deep_fields (strip_all h vs)
unfolding strip_all IsStripped
strip_all-IsStrippedArray h Values.nil deep = tt
strip_all-IsStrippedArray h (Values.cons v vs) deep =
    (strip_one-IsStripped h v deep, strip_all-IsStrippedArray h vs deep)

-- Of a result: all of it is stripped, or it is a page whose `data` is.
unfoldable pub IsProtected : List String → HookResult Value → Type 0
unfolding IsStripped
IsProtected fields (HookResult.one v) = elim (page_of v) [
  | none ↦ IsStripped fields v
  | some page ↦ IsStrippedArray fields page
]
IsProtected fields (HookResult.many vs) = All (IsStripped fields) vs

strip_each-IsStripped :
    (h : ProtectHook) (vs : List Value)
    → is_empty h.deep_fields ≡ false
    → All (IsStripped h.deep_fields) (map (strip_one h) vs)
strip_each-IsStripped h [] deep = tt
strip_each-IsStripped h (v ∷ vs) deep =
    (strip_one-IsStripped h v deep, strip_each-IsStripped h vs deep)

get_field-IsStripped :
    (fields : List String) (m : Fields) (n : String) (v : Value)
    → IsStrippedObject fields m
    → get_field m n ≡ some v
    → IsStripped fields v
unfolding get_field IsStripped
get_field-IsStripped fields Fields.end n v h e = absurd (ground (arith, e))
get_field-IsStripped fields (Fields.field i x m) n v (other, first, rest) e =
    elim (Bool-cases (i == n)) [
      | inl same ↦ subst (IsStripped fields) (ground (arith, rw (same, get_field) at e)) first
      | inr apart ↦ get_field-IsStripped fields m n v rest (rw (apart, get_field) at e)
    ]

array_of :
    (d : Value) (page : Values)
    → (elim d as (λ _. Option Values) [ Value.array vs ↦ some vs | _ ↦ none ]) ≡ some page
    → d ≡ Value.array page
array_of (Value.array vs) page e = ground (arith, e)
array_of Value.null page e = absurd (ground (arith, e))
array_of (Value.bool b) page e = absurd (ground (arith, e))
array_of (Value.number t) page e = absurd (ground (arith, e))
array_of (Value.text t) page e = absurd (ground (arith, e))
array_of (Value.object m) page e = absurd (ground (arith, e))

page_of-object :
    (v : Value) (page : Values)
    → page_of v ≡ some page
    → (m : Fields) × (v ≡ Value.object m) × (get_field m "data" ≡ some (Value.array page))
unfolding page_of get
page_of-object (Value.object m) page e = elim (Option-cases (get_field m "data")) [
  | inl missing ↦ absurd (ground (arith, rw (page_of, missing) at e))
  | inr (d, there) ↦ (m, refl, there ∙ ap some (array_of d page (rw (page_of, there) at e)))
]
page_of-object (Value.array vs) page e = absurd (ground (arith, e))
page_of-object Value.null page e = absurd (ground (arith, e))
page_of-object (Value.bool b) page e = absurd (ground (arith, e))
page_of-object (Value.number t) page e = absurd (ground (arith, e))
page_of-object (Value.text t) page e = absurd (ground (arith, e))

one-IsProtected :
    (fields : List String) (v : Value) → IsStripped fields v → IsProtected fields (HookResult.one v)
unfolding IsProtected IsStripped
one-IsProtected fields v h = elim (Option-cases (page_of v)) [
  | inl whole ↦ rw (whole, IsProtected) h
  | inr (page, paged) ↦
      let (m, same, there) = page_of-object v page paged in
      rw (paged, IsProtected)
        (get_field-IsStripped fields m "data" (Value.array page) (subst (IsStripped fields) same h)
          there)
]

page_of-with_page :
    (m : Fields) (page : Values) → page_of (with_page (Value.object m) page) ≡ some page
unfolding page_of with_page get
page_of-with_page m page =
    rw
      (
        get_field-insert_field m "data" "data" (Value.array page),
        page_of,
        with_page,
        str_beq_refl "data",
      )
      refl

-- With names to remove at any depth, the hook leaves no object with a field of such a name in a result: in the whole of it, or, of a
-- result that is a page, in its `data`.
pub protect-IsProtected :
    (h : ProtectHook) (res : HookResult Value)
    → is_empty h.deep_fields ≡ false
    → IsProtected h.deep_fields (protect h res)
unfolding protect IsProtected
protect-IsProtected h (HookResult.many vs) deep = strip_each-IsStripped h vs deep
protect-IsProtected h (HookResult.one v) deep = elim (Option-cases (page_of v)) [
  | inl whole ↦
      rw (whole, protect)
        (one-IsProtected h.deep_fields (strip_one h v) (strip_one-IsStripped h v deep))
  | inr (page, paged) ↦
      let (m, same, there) = page_of-object v page paged in
      rw (paged, protect, same, IsProtected, page_of-with_page m (strip_all h page))
        (strip_all-IsStrippedArray h page deep)
]

-- An object whose field `data` is an array keeps the value of every other field, whatever the hook
-- is to remove.
pub protect-page_kept :
    (h : ProtectHook) (m : Fields) (page : Values) (name : String)
    → get_field m "data" ≡ some (Value.array page)
    → name ≢ "data"
    → (w : Value) × (protect h (HookResult.one (Value.object m)) ≡ HookResult.one w)
      × (get w name ≡ get_field m name)
unfolding protect page_of get with_page
protect-page_kept h m page name there other =
    rw (there, protect, page_of)
      (
        _,
        refl,
        get_field-insert_field m "data" name (Value.array (strip_all h page))
            ∙ rw (str_beq_ne "data" name (λ e. other (sym e))) refl,
      )
