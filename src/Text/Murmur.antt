-- ===== src/Text/Murmur.antt =====
-- The hash of string_t.c: MurmurHash3 for 32-bit words, on a little-endian machine.
use post_dns.Base.{
  ℕ, ◌+◌, ◌-◌, ◌*◌, ◌%◌, ◌^◌, ◌<◌, bit_and, bit_or, bit_xor, List, [], ◌∷◌, ◌≡◌, refl, arith,
  length,
}
use post_dns.Base.Bits.{shl, shr}
use post_dns.Base.Bits.{bit_and_mask}

-- Multiplication in an `unsigned int`.
abbrev mul32 : ℕ → ℕ → ℕ
mul32 a b = a * b % 2 ^ 32

unfoldable pub murmur_32_scramble : ℕ → ℕ
murmur_32_scramble k =
    let k₁ = mul32 k 0xcc9e_2d51 in
    let k₂ = bit_or (shl 32 k₁ 15) (shr k₁ 17) in mul32 k₂ 0x1b87_3593

-- One group of four bytes.
unfoldable pub murmur_block : ℕ → ℕ → ℕ
unfolding murmur_32_scramble
murmur_block h k =
    let h₁ = bit_xor h (murmur_32_scramble k) in
    let h₂ = bit_or (shl 32 h₁ 13) (shr h₁ 19) in (h₂ * 5 + 0xe654_6b64) % 2 ^ 32

-- `for (i = len & 3; i; i--) { k <<= 8; k |= key[i - 1]; }` starts at the last byte.
unfoldable pub murmur_tail : List ℕ → ℕ
murmur_tail [] = 0
murmur_tail (b ∷ bs) = bit_or (shl 32 (murmur_tail bs) 8) b

-- The loop over the groups of four, and then the bytes that are left.
unfoldable pub murmur_body : List ℕ → ℕ → ℕ
unfolding murmur_block murmur_tail murmur_32_scramble
murmur_body (b₀ ∷ b₁ ∷ b₂ ∷ b₃ ∷ key) h =
    murmur_body key (murmur_block h (b₀ + b₁ * 2 ^ 8 + b₂ * 2 ^ 16 + b₃ * 2 ^ 24))
murmur_body key h = bit_xor h (murmur_32_scramble (murmur_tail key))

unfoldable pub murmur3_32 : List ℕ → ℕ → ℕ
unfolding murmur_body
murmur3_32 key seed =
    let h₁ = bit_xor (murmur_body key seed) (length key) in
    let h₂ = bit_xor h₁ (shr h₁ 16) in
    let h₃ = mul32 h₂ 0x85eb_ca6b in
    let h₄ = bit_xor h₃ (shr h₃ 13) in let h₅ = mul32 h₄ 0xc2b2_ae35 in bit_xor h₅ (shr h₅ 16)

unfoldable pub string_hash_code : List ℕ → ℕ
unfolding murmur3_32
string_hash_code str = bit_and (murmur3_32 str 0x5462_3413) 0x7fff_ffff

-- The hash of a string is below 2 ^ 31, so that it is an `int` that is not negative.
pub string_hash_code-lt : (str : List ℕ) → string_hash_code str < 2 ^ 31
string_hash_code-lt str =
    unfold string_hash_code in
    let e : bit_and (murmur3_32 str 0x5462_3413) (2 ^ 31 - 1) ≡ _ = bit_and_mask 31 _ in
    rw e (omega arith)

-- Published test vectors of MurmurHash3.
vector_test : murmur3_32 (b't' ∷ b'e' ∷ b's' ∷ b't' ∷ []) 0 ≡ 0xba6b_d213
unfolding murmur3_32
vector_test = refl

vector_empty : murmur3_32 [] 1 ≡ 0x514e_28b7
unfolding murmur3_32
vector_empty = refl

vector_tail : murmur3_32 (b'a' ∷ b'b' ∷ b'c' ∷ []) 0 ≡ 0xb3dd_93fa
unfolding murmur3_32
vector_tail = refl
