-- ===== src/Message/Header.antt =====
-- The header of a message: the flag bytes, and the twelve bytes written and read back.
use post_dns.Base.{
  ℕ, zero, suc, ◌+◌, ◌-◌, ◌*◌, ◌/◌, ◌%◌, ◌^◌, ◌≤◌, ◌<◌, ◌≡◌, refl, ap, ◌∙◌, arith, bit_and, List,
  [], ◌∷◌, ◌++◌, Bool, true, ◌&&◌, ◌==◌, ==_iff, length, ok, ◌>>=◌, Returns,
}
use mathlib.Core.List.{reverse}
use mathlib.Core.Path.{ap₂}
use post_dns.Base.Bits.{bit_and_mask}
use post_dns.Words.{char2_short}
use post_dns.Words.Swap.{char2_short_lem}
use post_dns.Message.{Flags, Message}
use post_dns.Message.Parse.{
  char2bit, char2bit_loop, flags_of_bits, read_flags, buf2message_header, read_short,
}
use post_dns.Message.Build.{dec2bin, dec2bin_digits, or_bits, flag_bytes, message2buf_header}
use post_dns.Message.Blocks.{Filled, network16, write_bytes-Filled, put_short-Filled}

-- Each field fits its bits.
pub record IsFlags (f : Flags) : Type 0 where
  pub qr : f.qr < 2
  pub opcode : f.opcode < 16
  pub aa : f.aa < 2
  pub tc : f.tc < 2
  pub rd : f.rd < 2
  pub ra : f.ra < 2
  pub z : f.z < 8
  pub rcode : f.rcode < 16

abbrev pub first_byte : Flags → ℕ
first_byte f = f.qr * 128 + f.opcode * 8 + f.aa * 4 + f.tc * 2 + f.rd

abbrev pub second_byte : Flags → ℕ
second_byte f = f.ra * 128 + f.z * 16 + f.rcode

-- The bits of a byte, the lowest first.
abbrev bits_of : ℕ → List ℕ
bits_of x =
    x % 2
    ∷ x / 2 % 2
    ∷ x / 4 % 2
    ∷ x / 8 % 2
    ∷ x / 16 % 2
    ∷ x / 32 % 2
    ∷ x / 64 % 2
    ∷ x / 128 % 2
    ∷ []

-- A test of the numbers below a bound, by running it on each.
passes : (ℕ → Bool) → ℕ → Bool
passes test zero = true
passes test (suc n) = passes test n && test n

passes-lt : (test : ℕ → Bool) (n x : ℕ) → x < n → passes test n ≡ true → test x ≡ true
unfolding passes
passes-lt test zero x inside h = absurd (omega arith)
passes-lt test (suc n) x inside h = ground (arith, passes-lt test n x)

or_bits_test : ℕ → Bool
or_bits_test x = or_bits 0 0 (bits_of x) == x

or_bits_table : passes or_bits_test 256 ≡ true
unfolding passes or_bits or_bits_test
or_bits_table = refl

or_bits_lem : (x : ℕ) → x < 256 → or_bits 0 0 (bits_of x) ≡ x
unfolding or_bits_test
or_bits_lem x h = (==_iff _ x).0 (passes-lt or_bits_test 256 x h or_bits_table)

one_bit : (k : ℕ) → bit_and k 1 ≡ k % 2
one_bit k = bit_and_mask 1 k

char2bit_lem : (x : ℕ) → char2bit x ≡ reverse (bits_of x)
unfolding char2bit char2bit_loop
char2bit_lem x = simp one_bit (ground arith)

dec2bin_lem : (n : ℕ) → n < 16 → dec2bin n 4 ≡ ok (n / 8 % 2 ∷ n / 4 % 2 ∷ n / 2 % 2 ∷ n % 2 ∷ [])
unfolding dec2bin dec2bin_digits
dec2bin_lem n h = ground arith

module _ (b₀ b₁ b₂ b₃ b₄ b₅ b₆ b₇ : ℕ) where
  abbrev sum_of_bits : ℕ
  sum_of_bits = b₇ * 128 + b₆ * 64 + b₅ * 32 + b₄ * 16 + b₃ * 8 + b₂ * 4 + b₁ * 2 + b₀

  or_bits_sum :
      b₀ < 2
      → b₁ < 2
      → b₂ < 2
      → b₃ < 2
      → b₄ < 2
      → b₅ < 2
      → b₆ < 2
      → b₇ < 2
      → or_bits 0 0 (b₀ ∷ b₁ ∷ b₂ ∷ b₃ ∷ b₄ ∷ b₅ ∷ b₆ ∷ b₇ ∷ []) ≡ sum_of_bits
  or_bits_sum h₀ h₁ h₂ h₃ h₄ h₅ h₆ h₇ =
      let x₀ : sum_of_bits % 2 ≡ b₀ = omega arith in
      let x₁ : sum_of_bits / 2 % 2 ≡ b₁ = omega arith in
      let x₂ : sum_of_bits / 4 % 2 ≡ b₂ = omega arith in
      let x₃ : sum_of_bits / 8 % 2 ≡ b₃ = omega arith in
      let x₄ : sum_of_bits / 16 % 2 ≡ b₄ = omega arith in
      let x₅ : sum_of_bits / 32 % 2 ≡ b₅ = omega arith in
      let x₆ : sum_of_bits / 64 % 2 ≡ b₆ = omega arith in
      let x₇ : sum_of_bits / 128 % 2 ≡ b₇ = omega arith in
      rw (x₀, x₁, x₂, x₃, x₄, x₅, x₆, x₇) at (or_bits_lem sum_of_bits (omega arith))

-- The writer puts Z into each of its three bits, so it has to be 0.
flag_bytes_lem :
    (f : Flags) → IsFlags f → f.z ≡ 0 → flag_bytes f ≡ ok (first_byte f ∷ second_byte f ∷ [])
unfolding flag_bytes
flag_bytes_lem f h cleared =
    let o = f.opcode in
    let r = f.rcode in
    rw (dec2bin_lem o h.opcode, dec2bin_lem r h.rcode, ◌>>=◌)
      (ap₂ (λ (a b : ℕ). ok (a ∷ b ∷ []))
        (or_bits_sum f.rd f.tc f.aa (o % 2) (o / 2 % 2) (o / 4 % 2) (o / 8 % 2) f.qr h.rd h.tc h.aa
            (omega arith) (omega arith) (omega arith) (omega arith) h.qr
          ∙ omega arith)
        (or_bits_sum (r % 2) (r / 2 % 2) (r / 4 % 2) (r / 8 % 2) f.z f.z f.z f.ra (omega arith)
            (omega arith) (omega arith) (omega arith) (omega arith) (omega arith) (omega arith) h.ra
          ∙ omega arith))

-- Reading the bits of the two bytes.
flags_of_bits_lem :
    (f : Flags)
    → IsFlags f
    → flags_of_bits (reverse (bits_of (first_byte f))) (reverse (bits_of (second_byte f))) ≡ ok f
unfolding flags_of_bits
flags_of_bits_lem f h = ap ok (ground arith)

read_flags_lem : (f : Flags) → IsFlags f → read_flags (first_byte f) (second_byte f) ≡ ok f
unfolding read_flags
read_flags_lem f h =
    ap₂ flags_of_bits (char2bit_lem (first_byte f)) (char2bit_lem (second_byte f))
    ∙ flags_of_bits_lem f h

-- The twelve bytes of a header.
unfoldable pub header_bytes : Message → List ℕ
header_bytes m =
    network16 m.id
    ++ first_byte m.flags ∷ second_byte m.flags ∷ network16 m.query_count
    ++ network16 m.answer_count
    ++ network16 m.authority_count
    ++ network16 m.additional_count

-- `message2buf_header` of a message with well-formed flags, in a block of twelve bytes or more,
-- returns 12 and has written the twelve bytes of the header at the front of the block.
pub message2buf_header-Filled :
    (m : Message) (block : List ℕ)
    → IsFlags m.flags
    → m.flags.z ≡ 0
    → 12 ≤ length block
    → Returns
        (message2buf_header block m)
        λ r. (r.0 ≡ 12) × Filled (header_bytes m) (length block - 12) r.1
unfolding message2buf_header header_bytes
message2buf_header-Filled m block h cleared room =
    let n = length block in
    let o₁ = network16 m.id in
    let o₂ = o₁ ++ first_byte m.flags ∷ second_byte m.flags ∷ [] in
    let o₃ = o₂ ++ network16 m.query_count in
    let o₄ = o₃ ++ network16 m.answer_count in
    let o₅ = o₄ ++ network16 m.authority_count in
    let start : Filled [] n block = (block, refl, refl) in
    let (b₁, r₁, f₁) = put_short-Filled m.id [] n block 0 start refl (omega arith) in
    let (b₂, r₂, f₂) =
      write_bytes-Filled (first_byte m.flags ∷ second_byte m.flags ∷ []) o₁ (n - 2) b₁ 2 f₁ refl
        (omega arith) in
    let (b₃, r₃, f₃) = put_short-Filled m.query_count o₂ (n - 2 - 2) b₂ 4 f₂ refl (omega arith) in
    let (b₄, r₄, f₄) =
      put_short-Filled m.answer_count o₃ (n - 2 - 2 - 2) b₃ 6 f₃ refl (omega arith) in
    let (b₅, r₅, f₅) =
      put_short-Filled m.authority_count o₄ (n - 2 - 2 - 2 - 2) b₄ 8 f₄ refl (omega arith) in
    let (b₆, r₆, (junk, e, size)) =
      put_short-Filled m.additional_count o₅ (n - 2 - 2 - 2 - 2 - 2) b₅ 10 f₅ refl (omega arith) in
    (
      (12, b₆),
      rw (r₁, flag_bytes_lem m.flags h cleared, r₂, r₃, r₄, r₅, r₆),
      (refl, (junk, e, omega arith)),
    )

-- The message that the parser of the header makes of those bytes.
abbrev pub header_of : Message → Message
header_of m = record m { queries = []; answers = []; authorities = []; additional = [] }

-- Counts and id fit sixteen bits.
pub record IsHeader (m : Message) : Type 0 where
  pub flags : IsFlags m.flags
  pub id : m.id < 2 ^ 16
  pub query_count : m.query_count < 2 ^ 16
  pub answer_count : m.answer_count < 2 ^ 16
  pub authority_count : m.authority_count < 2 ^ 16
  pub additional_count : m.additional_count < 2 ^ 16

pub network16_lem : (x : ℕ) → x < 2 ^ 16 → char2_short (x / 256 % 256) (x % 256) ≡ x
network16_lem x h =
    char2_short_lem (x / 256 % 256) (x % 256) (omega arith) (omega arith) ∙ omega arith

-- `buf2message_header` reads the identifier, the flags and the counts of a well-formed header back
-- from its twelve bytes.
pub buf2message_header_lem :
    (m : Message) (rest : List ℕ)
    → IsHeader m
    → buf2message_header (header_bytes m ++ rest) ≡ ok (header_of m)
unfolding buf2message_header read_short header_bytes
buf2message_header_lem m rest h = rw (
  network16_lem m.id h.id,
  read_flags_lem m.flags h.flags,
  network16_lem m.query_count h.query_count,
  network16_lem m.answer_count h.answer_count,
  network16_lem m.authority_count h.authority_count,
  network16_lem m.additional_count h.additional_count,
)
