-- ===== src/Prelude/Bits.antt =====
-- The bit operations on stream IDs, at variables: the libraries have no laws for them.
use Prim.Native.Nat.{
  ℕ, zero, suc, ◌+◌, ◌-◌, ◌*◌, ◌/◌, ◌%◌, ◌≤◌, min, max, bit_and, bit_or, digits, bit_and-bitwise,
  bit_or-bitwise,
}
use mathlib.Core.Path.{◌≡◌, refl, ◌∙◌, ap}
use native.Mathlib.Omega.{arith}

abbrev raise : ℕ → ℕ → ℕ
raise zero n = n
raise (suc d) n = suc (raise d n)

raise-add : (d n : ℕ) → raise d n ≡ d + n
raise-add zero n = omega arith
raise-add (suc d) n = omega (arith, raise-add d n)

-- A binary operation by its digits: rounds beyond the first number change nothing, so the lowest digit
-- can be taken off.
module _ (end : ℕ → ℕ) (digit : ℕ → ℕ → ℕ) where
  abbrev by_digits : ℕ → ℕ → ℕ
  by_digits x y = digits end digit x x y

  one_more : (n x y : ℕ) → x ≤ n → digits end digit (suc n) x y ≡ digits end digit n x y
  one_more zero zero y h = refl
  one_more zero (suc x) y h = absurd (omega arith)
  one_more (suc n) zero y h = refl
  one_more (suc n) (suc x) y h =
      ap (λ low. low * 2 + digit (suc x % 2) (y % 2)) (one_more n (suc x / 2) (y / 2) (omega arith))

  many_more : (d n x y : ℕ) → x ≤ n → digits end digit (raise d n) x y ≡ digits end digit n x y
  many_more zero n x y h = refl
  many_more (suc d) n x y h =
      one_more (raise d n) x y (omega (arith, raise-add d n)) ∙ many_more d n x y h

  enough : (n x y : ℕ) → x ≤ n → digits end digit n x y ≡ by_digits x y
  enough n x y h =
      let split : n ≡ raise (n - x) x = omega (arith, raise-add (n - x) x) in
      ap (λ k. digits end digit k x y) split ∙ many_more (n - x) x x y (omega arith)

  take_digit :
      (x y : ℕ)
      → by_digits (suc x) y ≡ by_digits (suc x / 2) (y / 2) * 2 + digit (suc x % 2) (y % 2)
  take_digit x y =
      ap (λ low. low * 2 + digit (suc x % 2) (y % 2)) (enough x (suc x / 2) (y / 2) (omega arith))

and_low : (x y : ℕ) → bit_and x y ≡ bit_and (x / 2) (y / 2) * 2 + min (x % 2) (y % 2)
and_low zero y =
    let none : bit_and 0 (y / 2) ≡ 0 = bit_and-bitwise 0 (y / 2) in
    omega (arith, none, bit_and-bitwise 0 y)
and_low (suc x) y = omega (
  arith,
  take_digit (λ c. zero) min x y,
  bit_and-bitwise (suc x) y,
  bit_and-bitwise (suc x / 2) (y / 2),
)

or_low : (x y : ℕ) → bit_or x y ≡ bit_or (x / 2) (y / 2) * 2 + max (x % 2) (y % 2)
or_low zero y =
    let whole : bit_or 0 y ≡ y = bit_or-bitwise 0 y in
    omega (arith, whole, bit_or-bitwise 0 (y / 2))
or_low (suc x) y = omega (
  arith,
  take_digit (λ c. c) max x y,
  bit_or-bitwise (suc x) y,
  bit_or-bitwise (suc x / 2) (y / 2),
)

-- With 0, by induction on a bound: halving is no structural recursion.
and_none : (bound x : ℕ) → x ≤ bound → bit_and x 0 ≡ 0
and_none zero zero h = refl
and_none zero (suc x) h = absurd (omega arith)
and_none (suc bound) x h =
    let half : x / 2 ≤ bound = omega arith in
    omega (arith, and_none bound (x / 2) half, and_low x 0)

or_none : (bound x : ℕ) → x ≤ bound → bit_or x 0 ≡ x
or_none zero zero h = refl
or_none zero (suc x) h = absurd (omega arith)
or_none (suc bound) x h =
    let half : x / 2 ≤ bound = omega arith in omega (arith, or_none bound (x / 2) half, or_low x 0)

-- `x & 0b01`
pub bit_and-one : (x : ℕ) → bit_and x 1 ≡ x % 2
bit_and-one x = omega (arith, and_none x (x / 2) (omega arith), and_low x 1)

-- `x & 0b10`
pub bit_and-two : (x : ℕ) → bit_and x 2 ≡ x / 2 % 2 * 2
bit_and-two x = omega (arith, bit_and-one (x / 2), and_low x 2)

-- `x | 0b01` and `x | 0b10` set a bit that is clear.
pub bit_or-one : (x : ℕ) → x % 2 ≡ 0 → bit_or x 1 ≡ x + 1
bit_or-one x h = omega (arith, or_none x (x / 2) (omega arith), or_low x 1)

pub bit_or-two : (x : ℕ) → x / 2 % 2 ≡ 0 → bit_or x 2 ≡ x + 2
bit_or-two x h = omega (arith, bit_or-one (x / 2) h, or_low x 2)
