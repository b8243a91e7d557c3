-- ===== src/HashTable/Limit.antt =====
-- hash_table.c: the size from which a table grows, as a product of floats.
use post_dns.Base.{
  ltb→lt, ℕ, zero, suc, ◌+◌, ◌*◌, ◌/◌, ◌%◌, ◌^◌, ◌≤◌, ◌<◌, ◌≡◌, refl, arith, ltb, lt→ltb,
  ltb-false→le, ◌==◌, ◌&&◌, ◌||◌, Bool-cases, inl, inr, ◌⊎◌,
}
use native.Mathlib.Nat.{div-mul-le_self, lt-div-mul-add}
use post_dns.HashTable.{ulp, round_to, as_float, load_limit}

-- Below 2 ^ 24 every number is a float.
ulp_small : (k n : ℕ) → n < 2 ^ 24 → ulp (suc k) 1 n ≡ 1
unfolding ulp
ulp_small k n h = rw (lt→ltb n (1 * 2 ^ 24) (omega (arith, h))) refl

-- The distance of two floats is small against the number.
ulp_le : (k u n : ℕ) → (u ≡ 1) ⊎ (2 ^ 23 * u ≤ n) → (ulp k u n ≡ 1) ⊎ (2 ^ 23 * ulp k u n ≤ n)
unfolding ulp
ulp_le zero u n h = h
ulp_le (suc k) u n h = elim (Bool-cases (ltb n (u * 2 ^ 24))) [
  | inl z ↦ rw z h
  | inr z ↦ rw z (ulp_le k (u * 2) n (inr (omega (arith, ltb-false→le n (u * 2 ^ 24) z))))
]

round_to-one : (n : ℕ) → round_to 1 n ≡ n
unfolding round_to
round_to-one n = ground arith

round_to-near : (u n : ℕ) → 0 < u → (round_to u n ≤ n + u) × (n ≤ round_to u n + u)
unfolding round_to
round_to-near u n pos =
    let low = div-mul-le_self n u in
    let high = lt-div-mul-add {a = n} {b = u} pos in
    elim (Bool-cases (ltb (n % u * 2) u || (n % u * 2 == u && n / u % 2 == 0))) [
      | inl z ↦ rw z (omega (arith, low), omega (arith, high))
      | inr z ↦ rw z (omega (arith, low), omega (arith, high))
    ]

ulp-pos : (k u n : ℕ) → 0 < u → 0 < ulp k u n
unfolding ulp
ulp-pos zero u n h = h
ulp-pos (suc k) u n h = elim (Bool-cases (ltb n (u * 2 ^ 24))) [
  | inl z ↦ rw z h
  | inr z ↦ rw z (ulp-pos k (u * 2) n (omega arith))
]

as_float_exact : (n : ℕ) → n < 2 ^ 24 → as_float n ≡ n
unfolding as_float
as_float_exact n h = rw (ulp_small 9 n h) (round_to-one n)

-- A float is off by one part in 2 ^ 23 at most.
as_float-near :
    (n : ℕ) → (2 ^ 23 * as_float n ≤ 2 ^ 23 * n + n) × (2 ^ 23 * n ≤ 2 ^ 23 * as_float n + n)
unfolding as_float
as_float-near n = elim (ulp_le 10 1 n (inl refl)) [
  | inl e ↦ rw (e, round_to-one n) (omega arith, omega arith)
  | inr h ↦
      let (high, low) = round_to-near (ulp 10 1 n) n (ulp-pos 10 1 n (omega arith)) in
      (omega (arith, h, high), omega (arith, h, low))
]

-- Three quarters, cut to a whole number: exact as long as three times the capacity is below 2 ^ 24, and
-- off by less than one part in 2 ^ 21 and by one else.
abbrev pub IsProduct : ℕ → ℕ → Type 0
IsProduct capacity limit =
    ((2 ^ 24 ≤ capacity * 3) ⊎ (limit ≡ capacity * 3 / 4))
    × (2 ^ 21 * (limit * 4) ≤ 2 ^ 21 * (capacity * 3) + capacity * 3)
    × (2 ^ 21 * (capacity * 3) ≤ 2 ^ 21 * (limit * 4 + 4) + capacity * 3)

load_limit_exact : (capacity : ℕ) → capacity * 3 < 2 ^ 24 → load_limit capacity ≡ capacity * 3 / 4
unfolding load_limit
load_limit_exact capacity h =
    rw (as_float_exact capacity (omega arith), as_float_exact (capacity * 3) h) refl

pub load_limit-IsProduct : (capacity : ℕ) → IsProduct capacity (load_limit capacity)
unfolding load_limit
load_limit-IsProduct capacity =
    let first = as_float-near capacity in
    let second = as_float-near (as_float capacity * 3) in
    (
      elim (Bool-cases (ltb (capacity * 3) (2 ^ 24))) [
        | inl z ↦ inr (load_limit_exact capacity (ltb→lt _ _ z))
        | inr z ↦ inl (ltb-false→le _ _ z)
      ],
      omega (arith, first, second),
      omega (arith, first, second),
    )

pub load_limit-le : (capacity : ℕ) → load_limit capacity ≤ 2 * capacity
load_limit-le capacity = let product = load_limit-IsProduct capacity in omega (arith, product)
