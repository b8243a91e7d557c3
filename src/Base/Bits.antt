-- ===== src/Base/Bits.antt =====
-- Laws of the bit operations at variables, and the shifts of a w-bit word.
use Prim.Native.Nat.{
  ℕ, zero, suc, ◌+◌, ◌-◌, ◌*◌, ◌/◌, ◌%◌, ◌^◌, ◌≤◌, ◌<◌, min, max, bit_and, bit_or, digits,
  bit_and-bitwise, bit_or-bitwise,
}
use mathlib.Core.Path.{◌≡◌, refl, ap}
use native.Mathlib.Nat.{pow-suc, one-le-pow, mod-lt}
use native.Mathlib.Omega.{arith}

-- `x >> k`, in the form that `omega` reads.
abbrev pub shr : ℕ → ℕ → ℕ
shr x k = x / 2 ^ k

-- `x << k` in a word of w bits.
abbrev pub shl : ℕ → ℕ → ℕ → ℕ
shl w x k = x * 2 ^ k % 2 ^ w

-- `n` rounds of the digit recursion for which the native operations stand.
abbrev Rounds : Type 0
Rounds = ℕ → ℕ → ℕ → ℕ

abbrev or_rounds : Rounds
or_rounds n a b = digits (λ b. b) max n a b

abbrev and_rounds : Rounds
and_rounds n a b = digits (λ b. zero) min n a b

-- Rounds beyond the digits of `a` change nothing.
or_rounds_enough : (n m a b : ℕ) → a ≤ n → a ≤ m → or_rounds n a b ≡ or_rounds m a b
or_rounds_enough zero zero a b p q = refl
or_rounds_enough zero (suc m) (suc a) b p q = absurd (omega arith)
or_rounds_enough zero (suc m) zero b p q = refl
or_rounds_enough (suc n) zero (suc a) b p q = absurd (omega arith)
or_rounds_enough (suc n) zero zero b p q = refl
or_rounds_enough (suc n) (suc m) zero b p q = refl
or_rounds_enough (suc n) (suc m) (suc a) b p q =
    omega (arith, or_rounds_enough n m (suc a / 2) (b / 2) (omega arith) (omega arith))

and_rounds_enough : (n m a b : ℕ) → a ≤ n → a ≤ m → and_rounds n a b ≡ and_rounds m a b
and_rounds_enough zero zero a b p q = refl
and_rounds_enough zero (suc m) (suc a) b p q = absurd (omega arith)
and_rounds_enough zero (suc m) zero b p q = refl
and_rounds_enough (suc n) zero (suc a) b p q = absurd (omega arith)
and_rounds_enough (suc n) zero zero b p q = refl
and_rounds_enough (suc n) (suc m) zero b p q = refl
and_rounds_enough (suc n) (suc m) (suc a) b p q =
    omega (arith, and_rounds_enough n m (suc a / 2) (b / 2) (omega arith) (omega arith))

zero-bit_or : (b : ℕ) → bit_or 0 b ≡ b
zero-bit_or b = bit_or-bitwise 0 b

zero-bit_and : (b : ℕ) → bit_and 0 b ≡ 0
zero-bit_and b = bit_and-bitwise 0 b

bit_or_halves : (a b : ℕ) → bit_or a b ≡ 2 * bit_or (a / 2) (b / 2) + max (a % 2) (b % 2)
bit_or_halves zero b = omega (arith, zero-bit_or b, zero-bit_or (b / 2))
bit_or_halves (suc a) b = omega (
  arith,
  bit_or-bitwise (suc a) b,
  bit_or-bitwise (suc a / 2) (b / 2),
  or_rounds_enough a (suc a / 2) (suc a / 2) (b / 2) (omega arith) (omega arith),
)

bit_and_halves : (a b : ℕ) → bit_and a b ≡ 2 * bit_and (a / 2) (b / 2) + min (a % 2) (b % 2)
bit_and_halves zero b = omega (arith, zero-bit_and b, zero-bit_and (b / 2))
bit_and_halves (suc a) b = omega (
  arith,
  bit_and-bitwise (suc a) b,
  bit_and-bitwise (suc a / 2) (b / 2),
  and_rounds_enough a (suc a / 2) (suc a / 2) (b / 2) (omega arith) (omega arith),
)

double_field : (q k : ℕ) → q * 2 ^ suc k ≡ 2 * (q * 2 ^ k)
double_field q k = omega (arith, ap (λ (t : ℕ). q * t) (pow-suc 2 k))

bit_or-zero_below : (n a : ℕ) → a ≤ n → bit_or a 0 ≡ a
bit_or-zero_below n zero h = refl
bit_or-zero_below zero (suc a) h = absurd (omega arith)
bit_or-zero_below (suc n) (suc a) h =
    omega (arith, bit_or_halves (suc a) 0, bit_or-zero_below n (suc a / 2) (omega arith))

pub bit_or-zero : (a : ℕ) → bit_or a 0 ≡ a
bit_or-zero a = bit_or-zero_below a a (omega arith)

bit_and-zero_below : (n a : ℕ) → a ≤ n → bit_and a 0 ≡ 0
bit_and-zero_below n zero h = refl
bit_and-zero_below zero (suc a) h = absurd (omega arith)
bit_and-zero_below (suc n) (suc a) h =
    omega (arith, bit_and_halves (suc a) 0, bit_and-zero_below n (suc a / 2) (omega arith))

pub bit_and-zero : (a : ℕ) → bit_and a 0 ≡ 0
bit_and-zero a = bit_and-zero_below a a (omega arith)

-- Each operation works on the low k bits and on the rest apart.
pub bit_or_split :
    (k a b c d : ℕ)
    → b < 2 ^ k
    → d < 2 ^ k
    → bit_or (a * 2 ^ k + b) (c * 2 ^ k + d) ≡ bit_or a c * 2 ^ k + bit_or b d
bit_or_split zero a zero c zero p q = ground (arith, zero-bit_or 0)
bit_or_split zero a zero c (suc d) p q = absurd (omega arith)
bit_or_split zero a (suc b) c d p q = absurd (omega arith)
bit_or_split (suc k) a b c d p q = ground (
  arith,
  bit_or_halves (a * 2 ^ suc k + b) (c * 2 ^ suc k + d),
  double_field a k,
  double_field c k,
  double_field (bit_or a c) k,
  pow-suc 2 k,
  bit_or_halves b d,
  bit_or_split k a (b / 2) c (d / 2) (omega (arith, pow-suc 2 k)) (omega (arith, pow-suc 2 k)),
)

pub bit_and_split :
    (k a b c d : ℕ)
    → b < 2 ^ k
    → d < 2 ^ k
    → bit_and (a * 2 ^ k + b) (c * 2 ^ k + d) ≡ bit_and a c * 2 ^ k + bit_and b d
bit_and_split zero a zero c zero p q = ground (arith, zero-bit_and 0)
bit_and_split zero a zero c (suc d) p q = absurd (omega arith)
bit_and_split zero a (suc b) c d p q = absurd (omega arith)
bit_and_split (suc k) a b c d p q = ground (
  arith,
  bit_and_halves (a * 2 ^ suc k + b) (c * 2 ^ suc k + d),
  double_field a k,
  double_field c k,
  double_field (bit_and a c) k,
  pow-suc 2 k,
  bit_and_halves b d,
  bit_and_split k a (b / 2) c (d / 2) (omega (arith, pow-suc 2 k)) (omega (arith, pow-suc 2 k)),
)

positive : (k : ℕ) → 0 < 2 ^ k
positive k = one-le-pow k 2 (omega arith)

-- `|` of fields that share no bit is a sum.
pub bit_or_fields : (k q r : ℕ) → r < 2 ^ k → bit_or (q * 2 ^ k) r ≡ q * 2 ^ k + r
bit_or_fields k q r h =
    let high : q * 2 ^ k + 0 ≡ q * 2 ^ k = omega arith in
    let low : 0 * 2 ^ k + r ≡ r = omega arith in
    rw (high, low, bit_or-zero, zero-bit_or) at (bit_or_split k q 0 0 r (positive k) h)

-- A number below 2 ^ k passes through a mask of k low bits.
bit_and_ones : (k r : ℕ) → r < 2 ^ k → bit_and r (2 ^ k - 1) ≡ r
bit_and_ones zero zero h = zero-bit_and (2 ^ 0 - 1)
bit_and_ones zero (suc r) h = absurd (omega arith)
bit_and_ones (suc k) r h = ground (
  arith,
  bit_and_halves r (2 ^ suc k - 1),
  pow-suc 2 k,
  positive k,
  half,
  bit_and_ones k (r / 2) (omega (arith, pow-suc 2 k)),
)
  where
    half : (2 ^ suc k - 1) / 2 ≡ 2 ^ k - 1
    half = omega (arith, pow-suc 2 k, positive k)

-- A mask of k low bits is the remainder by 2 ^ k.
pub bit_and_mask : (k a : ℕ) → bit_and a (2 ^ k - 1) ≡ a % 2 ^ k
bit_and_mask k a =
    let whole : a / 2 ^ k * 2 ^ k + a % 2 ^ k ≡ a = omega arith in
    let mask : 0 * 2 ^ k + (2 ^ k - 1) ≡ 2 ^ k - 1 = omega arith in
    let low : 0 * 2 ^ k + a % 2 ^ k ≡ a % 2 ^ k = omega arith in
    rw (whole, mask, bit_and-zero, bit_and_ones k (a % 2 ^ k) (mod-lt _ (positive k)), low) at
      (bit_and_split k (a / 2 ^ k) (a % 2 ^ k) 0 (2 ^ k - 1) (mod-lt _ (positive k))
        (omega (arith, positive k)))
