-- ===== src/Dict/Assoc.antt =====
-- Association lists, the representation of hash maps.
use dogrs.Base.{
  ◌≡◌, sym, ap, inl, inr, ◌∙◌, Option, none, some, List, [], ◌∷◌, arith, Eq, ◌==◌, if◌then◌else◌,
  In, here, there, Bool-cases,
}

module _ {ℓ κ} {K : Type ℓ} {V : Type κ} ⦃e : Eq K⦄ where
  unfoldable pub lookup : K → List (K × V) → Option V
  lookup key [] = none
  lookup key ((k, v) ∷ rest) = if k == key then some v else lookup key rest

  unfoldable pub without : K → List (K × V) → List (K × V)
  without key [] = []
  without key ((k, v) ∷ rest) = if k == key then without key rest else (k, v) ∷ without key rest

  pub lookup-without :
      (out key : K) (l : List (K × V))
      → lookup key (without out l) ≡ (if out == key then none else lookup key l)
  unfolding lookup without
  lookup-without out key [] = ground arith
  lookup-without out key ((k, v) ∷ rest) =
      ground
        (arith, e.beq_iff out key, e.beq_iff k out, e.beq_iff k key, lookup-without out key rest)

  -- `k` is no key of the list.
  abbrev pub Absent : K → List (K × V) → Type ℓ
  Absent k [] = Unit
  Absent k ((j, v) ∷ l) = (j ≡ k → ⊥) × Absent k l

  abbrev pub IsUnique : List (K × V) → Type ℓ
  IsUnique [] = Unit
  IsUnique ((k, v) ∷ l) = Absent k l × IsUnique l

  pub without-Absent : (k : K) (l : List (K × V)) → Absent k (without k l)
  unfolding without
  without-Absent k [] = tt
  without-Absent k ((j, v) ∷ l) = elim (Bool-cases (j == k)) [
    | inl same ↦ rw same (without-Absent k l)
    | inr other ↦ rw other ((λ p. ground (arith, e.beq_iff j k)), without-Absent k l)
  ]

  Absent-without : (k j : K) (l : List (K × V)) → Absent j l → Absent j (without k l)
  unfolding without
  Absent-without k j [] h = tt
  Absent-without k j ((i, v) ∷ l) h = elim (Bool-cases (i == k)) [
    | inl same ↦ rw same (Absent-without k j l h.1)
    | inr other ↦ rw other (h.0, Absent-without k j l h.1)
  ]

  pub without-IsUnique : (k : K) (l : List (K × V)) → IsUnique l → IsUnique (without k l)
  unfolding without
  without-IsUnique k [] h = tt
  without-IsUnique k ((j, v) ∷ l) h = elim (Bool-cases (j == k)) [
    | inl same ↦ rw same (without-IsUnique k l h.1)
    | inr other ↦ rw other (Absent-without k j l h.0, without-IsUnique k l h.1)
  ]

  In-Absent : (k j : K) (v : V) (l : List (K × V)) → Absent j l → In (k, v) l → j ≡ k → ⊥
  In-Absent k j v [] h m q = elim m [ ]
  In-Absent k j v ((i, w) ∷ l) h (here p) q = h.0 (sym (ap (λ (t : K × V). t.0) p) ∙ sym q)
  In-Absent k j v ((i, w) ∷ l) h (there m) q = In-Absent k j v l h.1 m q

  pub In-lookup :
      (k : K) (v : V) (l : List (K × V)) → IsUnique l → In (k, v) l → lookup k l ≡ some v
  unfolding lookup
  In-lookup k v [] h m = elim m [ ]
  In-lookup k v ((j, w) ∷ l) h (here p) = ground (arith, e.beq_iff j k)
  In-lookup k v ((j, w) ∷ l) h (there m) =
      ground (arith, e.beq_iff j k, In-lookup k v l h.1 m, In-Absent k j v l h.0 m)

  pub lookup-In : (k : K) (v : V) (l : List (K × V)) → lookup k l ≡ some v → In (k, v) l
  unfolding lookup
  lookup-In k v [] p = ground arith
  lookup-In k v ((j, w) ∷ l) p = elim (Bool-cases (j == k)) [
    | inl same ↦ here (ground (arith, e.beq_iff j k))
    | inr other ↦ there (lookup-In k v l (ground arith))
  ]
