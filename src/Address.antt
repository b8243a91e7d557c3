-- ===== src/Address.antt =====
-- The address conversions of utils.c, and `bytes2hex` of logging.c.
pub mod Dotted
pub mod Hex
pub mod Colon
use Prim.Native.Nat.{ℕ, zero, suc, ◌+◌, ◌/◌, ◌%◌, ◌^◌}
use post_dns.Base.{
  bit_and, bit_or, List, [], ◌∷◌, ◌++◌, ◌&&◌, ltb, ◌==◌, if◌then◌else◌, Run, ok, ◌>>=◌, at,
}
use post_dns.Base.Bits.{shl}
use post_dns.Words.{char2_short}
use post_dns.Text.{Str}

-- `%d` of a number below 1000 that is not negative.
unfoldable pub decimal : ℕ → Str
decimal n =
    if ltb n 10
    then (n + b'0') ∷ []
    else if ltb n 100
    then (n / 10 + b'0') ∷ (n % 10 + b'0') ∷ []
    else (n / 100 + b'0') ∷ (n / 10 % 10 + b'0') ∷ (n % 10 + b'0') ∷ []

-- `divide[3 - i]` is byte i of the word on a little-endian machine.
unfoldable pub inet4address2string : ℕ → Str
unfolding decimal
inet4address2string address =
    decimal (address / 2 ^ 24 % 256)
    ++ (b'.'
        ∷ (decimal (address / 2 ^ 16 % 256)
            ++ (b'.' ∷ (decimal (address / 2 ^ 8 % 256) ++ (b'.' ∷ decimal (address % 256))))))

-- The first four bytes of the value, which is read without a look at its length.
unfoldable pub string2inet4address : Str → Run ℕ
unfolding char2_short
string2inet4address address = do
  a ← at address 0
  b ← at address 1
  c ← at address 2
  d ← at address 3
  ok (bit_or (shl 32 (char2_short a b) 16) (bit_and (char2_short c d) 0xffff))

unfoldable pub hex_digit : ℕ → ℕ
hex_digit n = if ltb n 10 then n + b'0' else n + 87

-- `%.2x` of a byte.
unfoldable pub hex_byte : ℕ → Str
unfolding hex_digit
hex_byte n = hex_digit (n / 16) ∷ hex_digit (n % 16) ∷ []

-- The loop from byte `i` on; a colon follows every odd byte but the last.
unfoldable pub inet6_loop : ℕ → List ℕ → Str
unfolding hex_byte
inet6_loop i [] = []
inet6_loop i (num ∷ rest) =
    hex_byte num ++ ((if ltb i 15 && i % 2 == 1 then b':' ∷ [] else []) ++ inet6_loop (i + 1) rest)

unfoldable pub inet6address2string : List ℕ → Str
unfolding inet6_loop
inet6address2string address = inet6_loop 0 address

-- `n` bytes from byte `i` on.
unfoldable pub copy_bytes : ℕ → ℕ → Str → Run (List ℕ)
copy_bytes zero i address = ok []
copy_bytes (suc n) i address = do b ← at address i; bs ← copy_bytes n (i + 1) address; ok (b ∷ bs)

unfoldable pub string2inet6address : Str → Run (List ℕ)
unfolding copy_bytes
string2inet6address address = copy_bytes 16 0 address

unfoldable pub bytes2hex : List ℕ → Str
unfolding hex_byte
bytes2hex [] = []
bytes2hex (b ∷ bs) = hex_byte b ++ bytes2hex bs
