-- ===== src/Prelude/Format.antt =====
-- Fields of a fixed width, as `printf` writes them.
use Prim.Native.Nat.{ℕ, zero, suc, ◌+◌, ◌-◌, ◌/◌, ◌%◌, ◌<◌}
use mathlib.Core.Path.{◌≡◌, refl, ap, ◌∙◌, sym}
use mathlib.Core.Logic.{inl, inr}
use mathlib.Core.List.{List, [], ◌∷◌, ◌++◌, append_assoc}
use native.Mathlib.Omega.{arith}
use o2k.Prelude.Tests.{ltb, ltb→lt, lt→ltb, Bool-cases}
use o2k.Prelude.Lists.{length, length-append, tabulate}
use o2k.Prelude.Int.{ℤ, pos, negsuc}
use o2k.Prelude.Decimal.{decimal, pow10, digits_of, digits_of-append}

-- `%Ns`: spaces in front of a text that is shorter than `N`.
abbrev pub pad_left : ℕ → List ℕ → List ℕ
pad_left width text = tabulate (λ _. 32) (width - length text) ++ text

-- `%0Nd`: zeros between the sign and the digits.
abbrev zeros : ℕ → List ℕ
zeros = tabulate (λ _. 48)

abbrev pad_digits : ℕ → List ℕ → List ℕ
pad_digits width text = zeros (width - length text) ++ text

unfoldable pub pad_number : ℕ → ℤ → List ℕ
pad_number width (pos n) = pad_digits width (decimal 10 n)
pad_number width (negsuc n) = 45 ∷ pad_digits (width - 1) (decimal 10 (n + 1))

-- The last `k` digits of a number.
abbrev digits : ℕ → ℕ → List ℕ
digits zero n = []
digits (suc k) n = digits k (n / 10) ++ ((48 + n % 10) ∷ [])

length-digits : (k n : ℕ) → length (digits k n) ≡ k
length-digits zero n = refl
length-digits (suc k) n =
    omega (arith, length-append (digits k (n / 10)) ((48 + n % 10) ∷ []), length-digits k (n / 10))

digits_of-digits : (k n : ℕ) → n < pow10 k → digits_of 0 (digits k n) ≡ n
digits_of-digits zero n h = omega arith
digits_of-digits (suc k) n h =
    let smaller : n / 10 < pow10 k = omega arith in
    digits_of-append 0 (48 + n % 10) (digits k (n / 10))
    ∙ omega (arith, digits_of-digits k (n / 10) smaller)

zeros-snoc : (k : ℕ) → zeros k ++ (48 ∷ []) ≡ 48 ∷ zeros k
zeros-snoc zero = refl
zeros-snoc (suc k) = ap (λ t. 48 ∷ t) (zeros-snoc k)

digits-zero : (k : ℕ) → digits k 0 ≡ zeros k
digits-zero zero = refl
digits-zero (suc k) = ap (λ t. t ++ (48 ∷ [])) (digits-zero k) ∙ zeros-snoc k

-- One more digit behind those of a number.
pad_digits-snoc :
    (k c : ℕ) (text : List ℕ)
    → pad_digits (suc k) (text ++ (c ∷ [])) ≡ pad_digits k text ++ (c ∷ [])
pad_digits-snoc k c text =
    let size : suc k - length (text ++ (c ∷ [])) ≡ k - length text =
      omega (arith, length-append text (c ∷ [])) in
    rw size (sym (append_assoc (zeros (k - length text)) text (c ∷ [])))

one_digit : (k n : ℕ) → n < 10 → pad_digits (suc k) ((48 + n) ∷ []) ≡ digits (suc k) n
one_digit k n h =
    let front : n / 10 ≡ 0 = omega arith in
    let last : n % 10 ≡ n = omega arith in
    let pad : suc k - 1 ≡ k = omega arith in rw (front, last, digits-zero k, pad) refl

pad_digits-digits :
    (fuel k n : ℕ)
    → n < pow10 (suc k)
    → n < pow10 (suc fuel)
    → pad_digits (suc k) (decimal (suc fuel) n) ≡ digits (suc k) n
unfolding decimal
pad_digits-digits zero k n h h' =
    let small : n < 10 = omega arith in rw (lt→ltb n 10 small) (one_digit k n small)
pad_digits-digits (suc fuel) zero n h h' =
    let small : n < 10 = omega arith in rw (lt→ltb n 10 small) (one_digit 0 n small)
pad_digits-digits (suc fuel) (suc k) n h h' = elim (Bool-cases (ltb n 10)) [
  | inl one ↦ rw one (one_digit (suc k) n (ltb→lt n 10 one))
  | inr more ↦ rw more (
      pad_digits-snoc (suc k) (48 + n % 10) (decimal (suc fuel) (n / 10))
      ∙ ap (λ t. t ++ ((48 + n % 10) ∷ []))
          (pad_digits-digits fuel k (n / 10) (omega arith) (omega arith)))
]

-- A number that has at most as many digits as its field is wide, and ten.
pub pad_number-digits_of :
    (k n : ℕ)
    → n < pow10 (suc k)
    → n < pow10 10
    → (length (pad_number (suc k) (pos n)) ≡ suc k) × (digits_of 0 (pad_number (suc k) (pos n)) ≡ n)
unfolding pad_number
pad_number-digits_of k n h h' =
    let e = pad_digits-digits 9 k n h h' in
    rw (e, pad_number) (length-digits (suc k) n, digits_of-digits (suc k) n h)
