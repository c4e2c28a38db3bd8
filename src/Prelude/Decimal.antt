-- ===== src/Prelude/Decimal.antt =====
-- Decimal numerals, as `printf` writes them.
use Prim.Native.Nat.{ℕ, zero, suc, ◌+◌, ◌*◌, ◌-◌, ◌/◌, ◌%◌, ◌<◌, ◌≤◌}
use mathlib.Core.Path.{◌≡◌, refl, ap, ◌∙◌, sym}
use mathlib.Core.Logic.{inl, inr}
use mathlib.Core.List.{List, [], ◌∷◌, ◌++◌}
use native.Mathlib.Omega.{arith}
use o2k.Prelude.Tests.{ltb, if◌then◌else◌, Bool-cases}
use o2k.Prelude.Lists.{length, length-append}
use o2k.Prelude.Int.{ℤ, pos, negsuc}

-- The digits of a number, on fuel for as many.
unfoldable pub decimal : ℕ → ℕ → List ℕ
decimal zero n = []
decimal (suc fuel) n =
    let front = decimal fuel (n / 10) in
    if ltb n 10 then (48 + n) ∷ [] else front ++ ((48 + n % 10) ∷ [])

-- `%d` of an `int`, which has ten digits at most.
unfoldable pub show_int : ℤ → List ℕ
unfolding decimal
show_int (pos n) = decimal 10 n
show_int (negsuc n) = 45 ∷ decimal 10 (n + 1)

-- How many numbers have that many digits.
abbrev pub pow10 : ℕ → ℕ
pow10 zero = 1
pow10 (suc k) = 10 * pow10 k

-- The number that digits stand for.
abbrev pub digits_of : ℕ → List ℕ → ℕ
digits_of n [] = n
digits_of n (c ∷ cs) = digits_of (n * 10 + (c - 48)) cs

pub digits_of-append :
    (n c : ℕ) (cs : List ℕ) → digits_of n (cs ++ (c ∷ [])) ≡ digits_of n cs * 10 + (c - 48)
digits_of-append n c [] = refl
digits_of-append n c (d ∷ cs) = digits_of-append (n * 10 + (d - 48)) c cs

pub digits_of-decimal : (fuel n : ℕ) → n < pow10 fuel → digits_of 0 (decimal fuel n) ≡ n
unfolding decimal
digits_of-decimal zero n h = omega arith
digits_of-decimal (suc fuel) n h = elim (Bool-cases (ltb n 10)) [
  | inl one ↦ rw one (omega arith)
  | inr more ↦
      let smaller : n / 10 < pow10 fuel = omega arith in
      rw more (
        digits_of-append 0 (48 + n % 10) (decimal fuel (n / 10))
        ∙ omega (arith, digits_of-decimal fuel (n / 10) smaller))
]

-- A number is determined by its digits.
pub decimal-eq :
    (fuel m n : ℕ) → m < pow10 fuel → n < pow10 fuel → decimal fuel m ≡ decimal fuel n → m ≡ n
decimal-eq fuel m n h k e =
    sym (digits_of-decimal fuel m h) ∙ ap (digits_of 0) e ∙ digits_of-decimal fuel n k

pub length-decimal : (fuel n : ℕ) → length (decimal fuel n) ≤ fuel
unfolding decimal
length-decimal zero n = omega arith
length-decimal (suc fuel) n = elim (Bool-cases (ltb n 10)) [
  | inl one ↦ rw one (omega arith)
  | inr more ↦ rw more (
      omega (
        arith,
        length-append (decimal fuel (n / 10)) ((48 + n % 10) ∷ []),
        length-decimal fuel (n / 10),
      ))
]
