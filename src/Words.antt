-- ===== src/Words.antt =====
-- The byte order helpers of utils.c, on words of 16, 32 and 64 bits.
pub mod Swap
use post_dns.Base.{ℕ, ◌+◌, ◌*◌, ◌/◌, ◌%◌, ◌^◌, bit_and, bit_or, List, [], ◌∷◌}
use post_dns.Base.Bits.{shl, shr}

-- Both arguments are the bytes' values, and the result an `unsigned short`.
unfoldable pub char2_short : ℕ → ℕ → ℕ
char2_short high low = bit_or (shl 16 high 8) (bit_and low 0xff)

unfoldable pub swap16 : ℕ → ℕ
swap16 x = bit_or (shl 16 x 8) (shr x 8)

unfoldable pub swap32 : ℕ → ℕ
swap32 x =
    let y = bit_or (shl 32 x 16) (shr x 16) in
    bit_or (shl 32 (bit_and y 0x00ff_00ff) 8) (bit_and (shr y 8) 0x00ff_00ff)

unfoldable pub swap64 : ℕ → ℕ
swap64 x =
    let y = bit_or (shl 64 x 32) (shr x 32) in
    let z =
      bit_or (shl 64 (bit_and y 0x0000_ffff_0000_ffff) 16)
        (bit_and (shr y 16) 0x0000_ffff_0000_ffff) in
    bit_or (shl 64 (bit_and z 0x00ff_00ff_00ff_00ff) 8) (bit_and (shr z 8) 0x00ff_00ff_00ff_00ff)

-- The bytes of a `short` and of an `int` as they stand in memory, on a little-endian machine.
abbrev pub bytes16 : ℕ → List ℕ
bytes16 x = x % 256 ∷ x / 256 % 256 ∷ []

abbrev pub bytes32 : ℕ → List ℕ
bytes32 x = x % 256 ∷ x / 2 ^ 8 % 256 ∷ x / 2 ^ 16 % 256 ∷ x / 2 ^ 24 % 256 ∷ []
