-- ===== src/Prelude/Decimals.antt =====
-- Decimal texts: `strconv.Itoa` and `strconv.Atoi` of a 64-bit `int`.
use Prim.Native.Nat.{ℕ, zero, suc, ◌+◌, ◌-◌, ◌*◌, ◌/◌, ◌%◌, ◌^◌, ◌≤◌, ◌<◌}
use mathlib.Core.Path.{◌≡◌, refl, ◌∙◌, sym, ap}
use mathlib.Core.Bool.{Bool, true, false, ◌&&◌}
use mathlib.Core.Logic.{inl, inr}
use mathlib.Core.Option.{Option, none, some}
use mathlib.Core.List.{List, [], ◌∷◌}
use native.Mathlib.Omega.{arith}
use webtransport_h2_go.Prelude.Tests.{ltb, leb, ◌==◌, if◌then◌else◌, Bool-cases}
use webtransport_h2_go.Prelude.Numbers.{ℤ, pos, negsuc}

-- The digits of `n` before `rest`; `n` itself is fuel enough, since each round divides by 10.
unfoldable pub digits : ℕ → ℕ → List ℕ → List ℕ
digits zero n rest = (48 + n % 10) ∷ rest
digits (suc fuel) n rest = elim (ltb n 10) [
  | true ↦ (48 + n % 10) ∷ rest
  | false ↦ digits fuel (n / 10) ((48 + n % 10) ∷ rest)
]

unfoldable pub itoa : ℤ → List ℕ
itoa (pos n) = digits n n []
itoa (negsuc n) = 45 ∷ digits (n + 1) (n + 1) []

abbrev pub is_digit : ℕ → Bool
is_digit c = leb 48 c && leb c 57

unfoldable pub read_digits : ℕ → List ℕ → Option ℕ
read_digits acc [] = some acc
read_digits acc (c ∷ cs) = if is_digit c then read_digits (acc * 10 + (c - 48)) cs else none

-- `bound` is the first number out of range.
unfoldable pub unsigned : ℕ → List ℕ → Option ℕ
unsigned bound [] = none
unsigned bound (c ∷ cs) = elim (read_digits 0 (c ∷ cs)) [
  | none ↦ none
  | some n ↦ if ltb n bound then some n else none
]

abbrev pub negated : ℕ → ℤ
negated zero = pos 0
negated (suc n) = negsuc n

unfoldable pub signed : (ℕ → ℤ) → Option ℕ → Option ℤ
signed f none = none
signed f (some n) = some (f n)

-- `none` for either error of `Atoi`.
unfoldable pub atoi : List ℕ → Option ℤ
atoi [] = none
atoi (c ∷ cs) =
    if c == 45
    then signed negated (unsigned (2 ^ 63 + 1) cs)
    else if c == 43
    then signed pos (unsigned (2 ^ 63) cs)
    else signed pos (unsigned (2 ^ 63) (c ∷ cs))

digits-small :
    (fuel n : ℕ) (rest : List ℕ) → ltb n 10 ≡ true → digits (suc fuel) n rest ≡ (48 + n % 10) ∷ rest
unfolding digits
digits-small fuel n rest h = rw (h, digits) refl

digits-large :
    (fuel n : ℕ) (rest : List ℕ)
    → ltb n 10 ≡ false
    → digits (suc fuel) n rest ≡ digits fuel (n / 10) ((48 + n % 10) ∷ rest)
unfolding digits
digits-large fuel n rest h = rw (h, digits) refl

digits-head :
    (fuel n : ℕ) (rest : List ℕ)
    → (c : ℕ) × (cs : List ℕ) × (digits fuel n rest ≡ c ∷ cs) × (48 ≤ c) × (c ≤ 57)
unfolding digits
digits-head zero n rest = (48 + n % 10, rest, refl, omega arith, omega arith)
digits-head (suc fuel) n rest = elim (Bool-cases (ltb n 10)) [
  | inl y ↦ (48 + n % 10, rest, digits-small fuel n rest y, omega arith, omega arith)
  | inr z ↦
      let (c, cs, e, l, u) = digits-head fuel (n / 10) ((48 + n % 10) ∷ rest) in
      (c, cs, digits-large fuel n rest z ∙ e, l, u)
]

read_step :
    (acc d : ℕ) (rest : List ℕ)
    → d < 10
    → read_digits acc ((48 + d) ∷ rest) ≡ read_digits (acc * 10 + d) rest
unfolding read_digits
read_step acc d rest h = ground arith

read-digits :
    (fuel n : ℕ) (rest : List ℕ)
    → n ≤ fuel
    → read_digits 0 (digits fuel n rest) ≡ read_digits n rest
unfolding digits
read-digits zero n rest h =
    read_step 0 (n % 10) rest (omega arith) ∙ ap (λ k. read_digits k rest) (omega (arith, h))
read-digits (suc fuel) n rest h = elim (Bool-cases (ltb n 10)) [
  | inl y ↦
      ap (read_digits 0) (digits-small fuel n rest y)
      ∙ read_step 0 (n % 10) rest (omega arith)
      ∙ ap (λ k. read_digits k rest) (ground (arith, y))
  | inr z ↦
      ap (read_digits 0) (digits-large fuel n rest z)
      ∙ read-digits fuel (n / 10) _ (ground arith)
      ∙ read_step (n / 10) (n % 10) rest (omega arith)
      ∙ ap (λ k. read_digits k rest) (omega arith)
]

unsigned_read :
    (bound n c : ℕ) (cs : List ℕ)
    → read_digits 0 (c ∷ cs) ≡ some n
    → n < bound
    → unsigned bound (c ∷ cs) ≡ some n
unfolding unsigned
unsigned_read bound n c cs e h = rw (e, unsigned) (ground arith)

unsigned-digits :
    (bound fuel n : ℕ) → n ≤ fuel → n < bound → unsigned bound (digits fuel n []) ≡ some n
unfolding read_digits
unsigned-digits bound fuel n h k =
    let (c, cs, e, l, u) = digits-head fuel n [] in
    ap (unsigned bound) e
    ∙ unsigned_read bound n c cs (ap (read_digits 0) (sym e) ∙ read-digits fuel n [] h) k

atoi-unsigned :
    (c : ℕ) (cs : List ℕ) → 48 ≤ c → atoi (c ∷ cs) ≡ signed pos (unsigned (2 ^ 63) (c ∷ cs))
unfolding atoi
atoi-unsigned c cs h = ground arith

pub atoi-itoa : (n : ℕ) → n < 2 ^ 63 → atoi (itoa (pos n)) ≡ some (pos n)
unfolding itoa signed
atoi-itoa n h =
    let (c, cs, e, l, u) = digits-head n n [] in
    ap atoi e
    ∙ atoi-unsigned c cs l
    ∙ ap (signed pos)
        (ap (unsigned (2 ^ 63)) (sym e) ∙ unsigned-digits (2 ^ 63) n n (omega arith) h)

pub itoa-head : (n : ℕ) → (c : ℕ) × (cs : List ℕ) × (itoa (pos n) ≡ c ∷ cs)
unfolding itoa
itoa-head n = let (c, cs, e, l, u) = digits-head n n [] in (c, cs, e)
