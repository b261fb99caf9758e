-- ===== src/Base/Keys.antt =====
-- Equality of keys as an interface (`Eq + Hash` in the source), for numbers, texts and scopes.
use Prim.Native.String.{String}
use mathlib.Core.Path.{◌≡◌, refl}
use mathlib.Core.Logic.{◌↔◌, ◌≢◌}
use mathlib.Core.Bool.{Bool, true, false}
use native.Mathlib.Omega.{arith}
use text.Mathlib.Text.{◌==◌ as str_eq}
use text.Mathlib.TextEquality.{eq_iff}

pub record Eq {ℓ} (K : Type ℓ) : Type ℓ where
  pub beq : K → K → Bool
  pub beq_iff : (k j : K) → (beq k j ≡ true) ↔ (k ≡ j)

abbrev pub ◌==◌ {ℓ} : {K : Type ℓ} ⦃e : Eq K⦄ → K → K → Bool
◌==◌ ⦃e⦄ k j = e.beq k j

infix 50 ◌==◌
-- `str_beq` is shut, so that proofs see a comparison of texts only through `str_beq_iff`.
unfoldable pub str_beq : String → String → Bool
str_beq = str_eq

pub str_beq_iff : (s t : String) → (str_beq s t ≡ true) ↔ (s ≡ t)
unfolding str_beq
str_beq_iff = eq_iff

instance abbrev pub string_eq : Eq String
string_eq = record { beq = str_beq; beq_iff = str_beq_iff }

pub str_beq_refl : (s : String) → str_beq s s ≡ true
str_beq_refl s = (str_beq_iff s s).1 refl

pub str_beq_ne : (s t : String) → s ≢ t → str_beq s t ≡ false
str_beq_ne s t h = ground (arith, str_beq_iff s t)
