-- ===== src/Common/Float.antt =====
-- All that the program does with a `float64`. Its arithmetic is not implemented by the program and
-- is a parameter; only the order has laws, and only away from NaN, the value that is not `==` itself.
use mathlib.Core.Bool.{Bool, true, false, not, ◌&&◌}
use mathlib.Core.Path.{◌≡◌}
use Prim.Native.Nat.{ℕ, ◌+◌, ◌*◌, ◌/◌}
use native.Mathlib.Omega.{arith}
use orchestrator_cli.Common.Tests.{ltb, leb, eqb, if◌then◌else◌}
use orchestrator_cli.Common.Int.{ℤ, pos_part}

pub record Float64 (F : Type 0) : Type 0 where
  pub of_int : ℤ → F
  pub half : F
  pub lt : F → F → Bool
  pub le : F → F → Bool
  pub eq : F → F → Bool
  pub add : F → F → F
  pub mul : F → F → F
  pub div : F → F → F
  pub max : F → F → F

abbrev pub IsNumber : {F : Type 0} ⦃f : Float64 F⦄ → F → Type 0
IsNumber ⦃f⦄ x = f.eq x x ≡ true

pub record IsOrdered (F : Type 0) ⦃f : Float64 F⦄ : Type 0 where
  pub lt_asym : (a b : F) → IsNumber a → IsNumber b → f.lt a b ≡ true → f.lt b a ≡ false
  pub le_trans :
      (a b c : F)
      → IsNumber a
      → IsNumber b
      → IsNumber c
      → f.lt b a ≡ false
      → f.lt c b ≡ false
      → f.lt c a ≡ false
  pub eq_of_order :
      (a b : F) → IsNumber a → IsNumber b → f.eq a b ≡ (not (f.lt a b) && not (f.lt b a))

-- The laws can be met: thousandths, with no negative values.
abbrev pub Milli : Type 0
Milli = ℕ

instance abbrev pub milli_float : Float64 Milli
milli_float = record {
  of_int = λ z. pos_part z * 1000;
  half = 500;
  lt = ltb;
  le = leb;
  eq = eqb;
  add = λ a b. a + b;
  mul = λ a b. a * b / 1000;
  div = λ a b. a * 1000 / b;
  max = λ a b. if ltb a b then b else a;
}

pub Milli-IsOrdered : IsOrdered Milli
Milli-IsOrdered = record {
  lt_asym = λ a b p q h. ground arith;
  le_trans = λ a b c p q r h k. ground arith;
  eq_of_order = λ a b p q. ground arith;
}
