-- ===== src/AuthLocal/HashPassword/Laws.antt =====
-- A password is replaced by its hash.
use dogrs.Base.{
  ◌≡◌, ◌≢◌, refl, sym, subst, ap, ◌∙◌, String, true, false, some, List, [], ◌∷◌, arith, string_eq,
  str_beq_refl, str_beq_ne, Option-cases, inl, inr,
}
use dogrs.Base.Results.{Result, ok}
use dogrs.Auth.Bearer.{trim, is_empty as is_blank}
use dogrs.AuthLocal.HashPassword.{
  get_parts, get_by_path, set_parts, set_by_path, hash_text, hash_one, hash_input,
}
use dogrs.AuthLocal.Values.{
  Value, Fields, get_field, insert_field, get, path_parts, get_field-insert_field,
}

-- The two agree but for what lies under the path: at each of its names the other fields are the same.
unfoldable pub SameBut : List String → Value → Value → Type 0
SameBut [] v w = Unit
SameBut (p ∷ ps) v w =
    ((name : String) → name ≢ p → get w name ≡ get v name)
    × ((x y : Value) → get v p ≡ some x → get w p ≡ some y → SameBut ps x y)

nothing_else : (v w : Value) → SameBut [] v w
unfolding SameBut
nothing_else v w = tt

set_field-SameBut :
    (m : Fields) (p : String) (ps : List String) (v w : Value)
    → get_field m p ≡ some v
    → SameBut ps v w
    → SameBut (p ∷ ps) (Value.object m) (Value.object (insert_field m p w))
unfolding SameBut get
set_field-SameBut m p ps v w found inner = (
  λ name other.
      get_field-insert_field m p name w ∙ rw (str_beq_ne p name (λ same. other (sym same))) refl,
  λ x y was is.
      let is_w : w ≡ y = ground (arith, is, get_field-insert_field m p p w, str_beq_refl p) in
      let was_v : v ≡ x = ground (arith, was, found) in
      subst (λ a. SameBut ps a y) was_v (subst (λ a. SameBut ps v a) is_w inner),
)

found_one :
    (m : Fields) (p : String) (old : Value)
    → get_parts (p ∷ []) (Value.object m) ≡ some old
    → get_field m p ≡ some old
unfolding get_parts get
found_one m p old there = elim (Option-cases (get_field m p)) [
  | inl missing ↦ absurd (ground (arith, rw (get_parts, missing) at there))
  | inr (v, found) ↦ found ∙ rw (get_parts, found) at there
]

-- A value that is found at a path can be replaced there, is then found, and all else is as before.
set_parts-get_parts :
    (p : String) (ps : List String) (x old v : Value)
    → get_parts (p ∷ ps) v ≡ some old
    → (w : Value) × (set_parts (p ∷ ps) x v ≡ ok w)
      × (get_parts (p ∷ ps) w ≡ some x)
      × SameBut (p ∷ ps) v w
unfolding set_parts get_parts get
set_parts-get_parts p [] x old (Value.object m) there = (
  _,
  refl,
  rw (get_field-insert_field m p p x, get_parts, str_beq_refl p) refl,
  set_field-SameBut m p [] old x (found_one m p old there) (nothing_else old x),
)
set_parts-get_parts p (q ∷ ps) x old (Value.object m) there = elim (Option-cases (get_field m p)) [
  | inl missing ↦ absurd (ground (arith, rw (get_parts, missing) at there))
  | inr (next, found) ↦
      let (w, set, got, same) =
        set_parts-get_parts q ps x old next (rw (get_parts, found) at there) in
      rw (found, set_parts, set)
        (
          Value.object (insert_field m p w),
          refl,
          rw (get_field-insert_field m p p w, get_parts, str_beq_refl p) got,
          set_field-SameBut m p (q ∷ ps) next w found same,
        )
]
set_parts-get_parts p ps x old Value.null there = absurd (ground (arith, there))
set_parts-get_parts p ps x old (Value.bool b) there = absurd (ground (arith, there))
set_parts-get_parts p ps x old (Value.number t) there = absurd (ground (arith, there))
set_parts-get_parts p ps x old (Value.text t) there = absurd (ground (arith, there))
set_parts-get_parts p ps x old (Value.array vs) there = absurd (ground (arith, there))

module _ (hash : String → Result String String) where
  one_of :
      (path p : String) (ps : List String) (v old : Value)
      → path_parts path ≡ p ∷ ps
      → get_by_path v path ≡ some old
      → hash_input hash path v ≡ hash_one hash path v
  unfolding hash_input get_by_path get_parts get
  one_of path p ps (Value.array vs) old named there =
      absurd (ground (arith, ap (λ l. get_parts l (Value.array vs)) (sym named) ∙ there))
  one_of path p ps Value.null old named there = refl
  one_of path p ps (Value.bool b) old named there = refl
  one_of path p ps (Value.number t) old named there = refl
  one_of path p ps (Value.text t) old named there = refl
  one_of path p ps (Value.object m) old named there = refl

  -- Data with a password at the path, which names a field, is taken by the hook if the password can be hashed: it then has the
  -- hash at the path in its place, and all fields beside the path, at each of its names, as they were. Where the password is white
  -- space only, the data is left as it is.
  pub hash_input-get_by_path :
      (path p pw hashed : String) (ps : List String) (v : Value)
      → path_parts path ≡ p ∷ ps
      → get_by_path v path ≡ some (Value.text pw)
      → hash pw ≡ ok hashed
      → ((is_blank (trim pw) ≡ false)
          → (w : Value) × (hash_input hash path v ≡ ok w)
            × (get_by_path w path ≡ some (Value.text hashed))
            × SameBut (p ∷ ps) v w)
        × ((is_blank (trim pw) ≡ true) → hash_input hash path v ≡ ok v)
  unfolding hash_one hash_text get_by_path set_by_path
  hash_input-get_by_path path p pw hashed ps v named there made = (
    λ filled.
        let (w, set, got, same) =
          set_parts-get_parts p ps (Value.text hashed) (Value.text pw) v
            (ap (λ l. get_parts l v) (sym named) ∙ there) in
        (
          w,
          one_of path p ps v (Value.text pw) named there
              ∙ rw (there, hash_one, filled, hash_text, made, named, set_by_path, get_by_path) set,
          ap (λ l. get_parts l w) named ∙ got,
          same,
        ),
    λ blank.
        one_of path p ps v (Value.text pw) named there
        ∙ rw (there, hash_one, blank, hash_text, get_by_path) refl,
  )
