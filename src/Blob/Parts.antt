-- ===== src/Blob/Parts.antt =====
-- `BTreeMap<u32, _>`, the map of the parts of an upload, as the list of its entries by ascending number.
use dogrs.Base.{
  ℕ, ◌+◌, ◌≡◌, refl, Option, none, some, List, [], ◌∷◌, arith, max, eqb, ltb, if◌then◌else◌,
}

abbrev pub PartMap {ℓ} : Type ℓ → Type ℓ
PartMap A = List (ℕ × A)

module _ {ℓ} {A : Type ℓ} where
  unfoldable pub get : PartMap A → ℕ → Option A
  get [] p = none
  get ((q, a) ∷ m) p = let rest = get m p in if eqb q p then some a else rest

  unfoldable pub insert : PartMap A → ℕ → A → PartMap A
  insert [] p a = (p, a) ∷ []
  insert ((q, b) ∷ m) p a =
      let rest = insert m p a in
      if ltb p q then (p, a) ∷ (q, b) ∷ m else if eqb p q then (p, a) ∷ m else (q, b) ∷ rest

  -- `keys().max()`.
  unfoldable pub max_key : PartMap A → Option ℕ
  max_key [] = none
  max_key ((p, a) ∷ m) = elim (max_key m) [ none ↦ some p | some q ↦ some (max p q) ]

  -- The sum over the values.
  unfoldable pub total : (A → ℕ) → PartMap A → ℕ
  total size [] = 0
  total size ((p, a) ∷ m) = size a + total size m

  pub get-insert :
      (m : PartMap A) (p q : ℕ) (a : A)
      → get (insert m p a) q ≡ (if eqb p q then some a else get m q)
  unfolding get insert
  get-insert [] p q a = refl
  get-insert ((r, b) ∷ m) p q a = ground (arith, get-insert m p q a)
