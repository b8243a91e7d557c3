-- ===== src/Words/Swap.antt =====
-- utils.c: the byte order helpers, against the bytes of a word.
use post_dns.Base.{ℕ, ◌+◌, ◌-◌, ◌*◌, ◌/◌, ◌%◌, ◌^◌, ◌<◌, bit_and, bit_or, ◌≡◌, arith}
use post_dns.Base.Bits.{bit_and_mask, bit_and_split, bit_or_split, bit_or_fields, shl, shr}
use post_dns.Words.{char2_short, swap16, swap32}

-- `char2_short` of two bytes is the half word that has them as its high and its low byte.
pub char2_short_lem :
    (high low : ℕ) → high < 256 → low < 256 → char2_short high low ≡ high * 256 + low
unfolding char2_short
char2_short_lem high low h l =
    let mask : bit_and low (2 ^ 8 - 1) ≡ low % 2 ^ 8 = bit_and_mask 8 low in
    let fits : high * 2 ^ 8 % 2 ^ 16 ≡ high * 2 ^ 8 = omega arith in
    let rest : low % 2 ^ 8 ≡ low = omega arith in rw (mask, fits, rest) (bit_or_fields 8 high low l)

-- `swap16` exchanges the two bytes of a half word.
pub swap16_lem : (a b : ℕ) → a < 256 → b < 256 → swap16 (a * 256 + b) ≡ b * 256 + a
unfolding swap16
swap16_lem a b ha hb =
    let up : (a * 256 + b) * 2 ^ 8 % 2 ^ 16 ≡ b * 2 ^ 8 = omega arith in
    let down : (a * 256 + b) / 2 ^ 8 ≡ a = omega arith in rw (up, down) (bit_or_fields 8 b a ha)

-- A mask of every other byte, on two half words.
every_other :
    (a b : ℕ) → b < 2 ^ 16 → bit_and (a * 2 ^ 16 + b) 0x00ff_00ff ≡ a % 2 ^ 8 * 2 ^ 16 + b % 2 ^ 8
every_other a b h =
    let low : bit_and b (2 ^ 8 - 1) ≡ b % 2 ^ 8 = bit_and_mask 8 b in
    let high : bit_and a (2 ^ 8 - 1) ≡ a % 2 ^ 8 = bit_and_mask 8 a in
    omega (arith, bit_and_split 16 a b (2 ^ 8 - 1) (2 ^ 8 - 1) h (omega arith), low, high)

module _ (a b c d : ℕ) (ha : a < 256) (hb : b < 256) (hc : c < 256) (hd : d < 256) where
  halves :
      bit_or
        (shl 32 (a * 2 ^ 24 + b * 2 ^ 16 + c * 2 ^ 8 + d) 16)
        (shr (a * 2 ^ 24 + b * 2 ^ 16 + c * 2 ^ 8 + d) 16)
      ≡ (c * 2 ^ 8 + d) * 2 ^ 16 + (a * 2 ^ 8 + b)
  halves =
      let x = a * 2 ^ 24 + b * 2 ^ 16 + c * 2 ^ 8 + d in
      let up : x * 2 ^ 16 % 2 ^ 32 ≡ (c * 2 ^ 8 + d) * 2 ^ 16 = omega arith in
      let down : x / 2 ^ 16 ≡ a * 2 ^ 8 + b = omega arith in
      rw (up, down) (bit_or_fields 16 (c * 2 ^ 8 + d) (a * 2 ^ 8 + b) (omega arith))

  -- `swap32` reverses the order of the four bytes of a word.
  pub swap32_lem :
      swap32 (a * 2 ^ 24 + b * 2 ^ 16 + c * 2 ^ 8 + d) ≡ d * 2 ^ 24 + c * 2 ^ 16 + b * 2 ^ 8 + a
  unfolding swap32
  swap32_lem =
      let y = (c * 2 ^ 8 + d) * 2 ^ 16 + (a * 2 ^ 8 + b) in
      let even : bit_and y 0x00ff_00ff ≡ d * 2 ^ 16 + b =
        omega (arith, every_other (c * 2 ^ 8 + d) (a * 2 ^ 8 + b) (omega arith)) in
      let shifted : y / 2 ^ 8 ≡ c * 2 ^ 16 + (d * 2 ^ 8 + a) = omega arith in
      let odd : bit_and (c * 2 ^ 16 + (d * 2 ^ 8 + a)) 0x00ff_00ff ≡ c * 2 ^ 16 + a =
        omega (arith, every_other c (d * 2 ^ 8 + a) (omega arith)) in
      let up : (d * 2 ^ 16 + b) * 2 ^ 8 % 2 ^ 32 ≡ d * 2 ^ 8 * 2 ^ 16 + b * 2 ^ 8 = omega arith in
      rw (halves, shifted, even, odd, up)
        (omega (
          arith,
          bit_or_split 16 (d * 2 ^ 8) (b * 2 ^ 8) c a (omega arith) (omega arith),
          bit_or_fields 8 d c hc,
          bit_or_fields 8 b a ha,
        ))
