-- ===== src/Base/Equality.antt =====
-- Boolean equality as an interface, and the program's strings.
use Prim.Native.Char.{code}
use Prim.Native.String.{String}
use Prim.Native.Nat.{ℕ, compare, Ordering}
use mathlib.Core.Path.{◌≡◌, refl}
use mathlib.Core.Logic.{◌↔◌}
use mathlib.Core.Bool.{Bool, true, false, ◌&&◌}
use mathlib.Core.List.{List, [], ◌∷◌}
use native.Mathlib.Omega.{arith}

pub record Eq {ℓ} (T : Type ℓ) : Type ℓ where
  pub is_same : T → T → Bool
  pub is_same_iff : (x y : T) → (is_same x y ≡ true) ↔ (x ≡ y)

module _ {ℓ} {T : Type ℓ} ⦃eq : Eq T⦄ where
  infix 50 ◌==◌
  abbrev pub ◌==◌ : T → T → Bool
  x == y = eq.is_same x y

  pub ==_iff : (x y : T) → ((x == y) ≡ true) ↔ (x ≡ y)
  ==_iff x y = eq.is_same_iff x y

  pub ==_refl : (x : T) → (x == x) ≡ true
  ==_refl x = (eq.is_same_iff x x).1 refl

abbrev pub nat_beq : ℕ → ℕ → Bool
nat_beq a b = elim (compare a b) [ Ordering.eq ↦ true | _ ↦ false ]

pub nat_beq_iff : (a b : ℕ) → (nat_beq a b ≡ true) ↔ (a ≡ b)
nat_beq_iff a b = ground arith

instance abbrev pub nat_eq : Eq ℕ
nat_eq = record { is_same = nat_beq; is_same_iff = nat_beq_iff }

-- A Go string: its code units.
abbrev pub Str : Type 0
Str = List ℕ

unfoldable pub str_beq : Str → Str → Bool
str_beq [] [] = true
str_beq [] (b ∷ bs) = false
str_beq (a ∷ as') [] = false
str_beq (a ∷ as') (b ∷ bs) = nat_beq a b && str_beq as' bs

pub str_beq_iff : (a b : Str) → (str_beq a b ≡ true) ↔ (a ≡ b)
unfolding str_beq
str_beq_iff [] [] = ground arith
str_beq_iff [] (b ∷ bs) = ground arith
str_beq_iff (a ∷ as') [] = ground arith
str_beq_iff (a ∷ as') (b ∷ bs) = ground (arith, str_beq_iff as' bs)

instance abbrev pub str_eq : Eq Str
str_eq = record { is_same = str_beq; is_same_iff = str_beq_iff }

-- The code units of a literal.
abbrev pub codes : String → Str
codes String.[] = []
codes (String.◌∷◌ c s) = code c ∷ codes s
