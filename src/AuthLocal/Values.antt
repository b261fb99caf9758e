-- ===== src/AuthLocal/Values.antt =====
-- The constructors of `serde_json::Value` that the hooks of dog-auth-local match on, and the dotted paths of protect.rs and
-- hash_password.rs into such a value. A number is its text. An object is a list of its fields; the first of a name counts.
use Prim.Native.Char.{Char, code}
use dogrs.Base.{
  ◌≡◌, ◌≢◌, refl, String, Bool, Option, none, some, List, [], ◌∷◌, eqb, if◌then◌else◌, ◌==◌,
  string_eq, keep, not, map, str_beq_iff, arith,
}
use dogrs.Auth.Bearer.{trim, is_empty}

mutual
  pub data Value : Type 0 where
    null : Value
    bool : Bool → Value
    number : String → Value
    text : String → Value
    array : Values → Value
    object : Fields → Value

  pub data Values : Type 0 where
    nil : Values
    cons : Value → Values → Values

  pub data Fields : Type 0 where
    end : Fields
    field : String → Value → Fields → Fields

-- `Map::get`.
unfoldable pub get_field : Fields → String → Option Value
get_field Fields.end name = none
get_field (Fields.field n v m) name =
    let rest = get_field m name in if n == name then some v else rest

-- `Map::remove`.
unfoldable pub remove_field : Fields → String → Fields
remove_field Fields.end name = Fields.end
remove_field (Fields.field n v m) name =
    let rest = remove_field m name in if n == name then rest else Fields.field n v rest

-- `Map::insert`.
unfoldable pub insert_field : Fields → String → Value → Fields
insert_field Fields.end name x = Fields.field name x Fields.end
insert_field (Fields.field n v m) name x =
    let rest = insert_field m name x in
    if n == name then Fields.field n x m else Fields.field n v rest

-- `value.get(name)`, of an object.
unfoldable pub get : Value → String → Option Value
get (Value.object m) name = get_field m name
get _ name = none

-- `s.split('.')`.
abbrev onto_first : Char → List String → List String
onto_first c [] = String.◌∷◌ c "" ∷ []
onto_first c (t ∷ ts) = String.◌∷◌ c t ∷ ts

unfoldable pub split_dots : String → List String
split_dots String.[] = "" ∷ []
split_dots (String.◌∷◌ c s) =
    let rest = split_dots s in if eqb (code c) b'.' then "" ∷ rest else onto_first c rest

-- The names of a dotted path.
unfoldable pub path_parts : String → List String
unfolding split_dots
path_parts path = keep (λ s. not (is_empty s)) (map trim (split_dots path))

pub get_field-remove_other :
    (m : Fields) (n j : String) → j ≢ n → get_field (remove_field m n) j ≡ get_field m j
unfolding get_field remove_field
get_field-remove_other Fields.end n j other = refl
get_field-remove_other (Fields.field i v m) n j other =
    grind (arith, get_field-remove_other m n j other, str_beq_iff i n, str_beq_iff i j)

pub get_field-insert_field :
    (m : Fields) (n j : String) (x : Value)
    → get_field (insert_field m n x) j ≡ (if n == j then some x else get_field m j)
unfolding get_field insert_field
get_field-insert_field Fields.end n j x = refl
get_field-insert_field (Fields.field i v m) n j x =
    grind (arith, get_field-insert_field m n j x, str_beq_iff i n, str_beq_iff i j, str_beq_iff n j)
