-- ===== src/Dict.antt =====
-- `std::collections::HashMap` (and `DashMap`) as the source uses it: `get`, `insert`, `remove`,
-- `entry(..).or_default()`, `contains_key`, `is_empty` and iteration. The order of iteration is not specified
-- by the library; here it is that of `entries`, and no theorem depends on it.
mod Assoc
use Assoc.{lookup, without, lookup-without, IsUnique, without-IsUnique, without-Absent}
use Assoc.{In-lookup, lookup-In}
use dogrs.Base.{
  ◌≡◌, ◌∙◌, refl, Bool, true, false, Option, none, some, List, [], ◌∷◌, arith, Eq, ◌==◌,
  if◌then◌else◌, In,
}

pub record Dict {ℓ κ} (K : Type ℓ) (V : Type κ) : Type (ℓ ⊔ κ) where
  entries : List (K × V)

unfoldable pub empty {ℓ κ} : {K : Type ℓ} {V : Type κ} → Dict K V
empty = record { entries = [] }

-- `iter()`.
unfoldable pub iter {ℓ κ} : {K : Type ℓ} {V : Type κ} → Dict K V → List (K × V)
iter d = d.entries

unfoldable pub is_empty {ℓ κ} : {K : Type ℓ} {V : Type κ} → Dict K V → Bool
is_empty d = elim d.entries [ [] ↦ true | _ ↦ false ]

module _ {ℓ κ} {K : Type ℓ} {V : Type κ} ⦃e : Eq K⦄ where
  unfoldable pub get : Dict K V → K → Option V
  unfolding lookup
  get d k = lookup k d.entries

  unfoldable pub contains_key : Dict K V → K → Bool
  contains_key d k = elim (get d k) [ none ↦ false | some _ ↦ true ]

  unfoldable pub remove : Dict K V → K → Dict K V
  unfolding without
  remove d k = record { entries = without k d.entries }

  unfoldable pub put : Dict K V → K → V → Dict K V
  unfolding without
  put d k v = record { entries = (k, v) ∷ without k d.entries }

  -- `entry(k).or_default()`, read.
  unfoldable pub get_or_default : Dict K V → K → V → V
  get_or_default d k v = elim (get d k) [ none ↦ v | some w ↦ w ]

  pub get_or_default-get :
      (d : Dict K V) (k : K) (v w : V) → get d k ≡ some w → get_or_default d k v ≡ w
  unfolding get_or_default
  get_or_default-get d k v w found = rw (found, get_or_default) refl

  pub get-put :
      (d : Dict K V) (k j : K) (v : V) → get (put d k v) j ≡ (if k == j then some v else get d j)
  unfolding get put
  get-put d k j v = simp lookup-without (ground arith)

  pub get-put_self : (d : Dict K V) (k : K) (v : V) → get (put d k v) k ≡ some v
  get-put_self d k v = get-put d k k v ∙ rw ((e.beq_iff k k).1 refl) refl

  pub get-remove :
      (d : Dict K V) (k j : K) → get (remove d k) j ≡ (if k == j then none else get d j)
  unfolding get remove
  get-remove d k j = lookup-without k j d.entries

  pub get-empty : (k : K) → get (empty {V = V}) k ≡ none
  unfolding get empty
  get-empty k = refl

  pub is_empty-get : (d : Dict K V) (k : K) → is_empty d ≡ true → get d k ≡ none
  unfolding is_empty get
  is_empty-get d k h = go d.entries h
    where
      go :
          (l : List (K × V))
          → (elim l as (λ _. Bool) [ [] ↦ true | _ ↦ false ]) ≡ true
          → lookup k l ≡ none
      go [] h = refl
      go (x ∷ l) h = cc

  pub is_empty-put : (d : Dict K V) (k : K) (v : V) → is_empty (put d k v) ≡ false
  unfolding is_empty put
  is_empty-put d k v = refl

  -- No key twice, as in every hash map that the operations can build.
  abbrev pub IsWf : Dict K V → Type ℓ
  IsWf d = IsUnique d.entries

  pub put-IsWf : (d : Dict K V) (k : K) (v : V) → IsWf d → IsWf (put d k v)
  unfolding put
  put-IsWf d k v h = (without-Absent k d.entries, without-IsUnique k d.entries h)

  pub remove-IsWf : (d : Dict K V) (k : K) → IsWf d → IsWf (remove d k)
  unfolding remove
  remove-IsWf d k h = without-IsUnique k d.entries h

  -- Iteration visits exactly the pairs that `get` finds.
  pub iter-get : (d : Dict K V) (k : K) (v : V) → IsWf d → In (k, v) (iter d) → get d k ≡ some v
  unfolding get iter
  iter-get d k v h m = In-lookup k v d.entries h m

  pub get-iter : (d : Dict K V) (k : K) (v : V) → get d k ≡ some v → In (k, v) (iter d)
  unfolding get iter
  get-iter d k v h = lookup-In k v d.entries h

pub ruleset dict_laws = (get-put, get-remove, get-empty)
