-- ===== src/Address/Hex.antt =====
-- utils.c and logging.c: the hexadecimal texts, read back.
use post_dns.Base.{
  ℕ, ◌+◌, ◌-◌, ◌*◌, ◌/◌, ◌%◌, ◌<◌, ◌≡◌, refl, ap, ◌∙◌, arith, true, false, ltb, ◌==◌, if◌then◌else◌,
  List, [], ◌∷◌, ◌++◌, ◌&&◌, length, length-append, All, Bool,
}
use post_dns.Text.{Str}
use post_dns.Address.{hex_digit, hex_byte, inet6_loop, inet6address2string, bytes2hex}

-- The value of a hexadecimal digit.
unfoldable pub nibble : ℕ → ℕ
nibble c = if ltb c 58 then c - b'0' else c - 87

unfoldable pub without_colons : Str → Str
without_colons [] = []
without_colons (c ∷ s) = let rest = without_colons s in if c == b':' then rest else c ∷ rest

-- The bytes of a hexadecimal text without colons.
unfoldable pub hex_value : Str → List ℕ
unfolding nibble
hex_value [] = []
hex_value (c ∷ []) = []
hex_value (c ∷ d ∷ s) = (nibble c * 16 + nibble d) ∷ hex_value s

nibble-hex_digit : (n : ℕ) → n < 16 → nibble (hex_digit n) ≡ n
unfolding nibble hex_digit
nibble-hex_digit n h = ground arith

hex_digit_is_no_colon : (n : ℕ) → n < 16 → hex_digit n == b':' ≡ false
unfolding hex_digit
hex_digit_is_no_colon n h = ground arith

hex_value-hex_byte : (n : ℕ) → n < 256 → (s : Str) → hex_value (hex_byte n ++ s) ≡ n ∷ hex_value s
unfolding hex_byte hex_value
hex_value-hex_byte n h s =
    let high = nibble-hex_digit (n / 16) (omega arith) in
    let low = nibble-hex_digit (n % 16) (omega arith) in
    let whole : n / 16 * 16 + n % 16 ≡ n = omega arith in rw (high, low, whole) refl

without_colons-hex_byte :
    (n : ℕ)
    → n < 256
    → (s : Str) → without_colons (hex_byte n ++ s) ≡ hex_byte n ++ without_colons s
unfolding hex_byte without_colons
without_colons-hex_byte n h s =
    rw (hex_digit_is_no_colon (n / 16) (omega arith), hex_digit_is_no_colon (n % 16) (omega arith))
      refl

-- What follows the byte at place `i`: a colon at each odd place but the last.
abbrev separator : ℕ → Str
separator i = if ltb i 15 && i % 2 == 1 then b':' ∷ [] else []

without_colons-separator :
    (b : Bool) (s : Str) → without_colons ((if b then b':' ∷ [] else []) ++ s) ≡ without_colons s
unfolding without_colons
without_colons-separator true s = refl
without_colons-separator false s = refl

hex_value-inet6_loop :
    (i : ℕ) (bs : List ℕ)
    → All (λ b. b < 256) bs
    → hex_value (without_colons (inet6_loop i bs)) ≡ bs
unfolding inet6_loop without_colons hex_value
hex_value-inet6_loop i [] h = refl
hex_value-inet6_loop i (b ∷ bs) (small, h) =
    rw
      (
        without_colons-hex_byte b small (separator i ++ inet6_loop (i + 1) bs),
        without_colons-separator (ltb i 15 && i % 2 == 1) (inet6_loop (i + 1) bs),
        hex_value-hex_byte b small (without_colons (inet6_loop (i + 1) bs)),
      )
      (ap (λ s. b ∷ s) (hex_value-inet6_loop (i + 1) bs h))

length-separator : (i : ℕ) → i < 16 → length (separator i) + (7 - (i + 1) / 2) ≡ 7 - i / 2
length-separator i h = ground arith

length-inet6_loop :
    (i : ℕ) (bs : List ℕ)
    → i + length bs ≡ 16
    → length (inet6_loop i bs) ≡ 2 * length bs + (7 - i / 2)
unfolding inet6_loop hex_byte
length-inet6_loop i [] h = omega (arith, h)
length-inet6_loop i (b ∷ bs) h = omega (
  arith,
  h,
  length-append (separator i) (inet6_loop (i + 1) bs),
  length-separator i (omega (arith, h)),
  length-inet6_loop (i + 1) bs (omega (arith, h)),
)

pub inet6address2string-hex_value :
    (address : List ℕ)
    → length address ≡ 16
    → All (λ b. b < 256) address
    → (hex_value (without_colons (inet6address2string address)) ≡ address)
      × (length (inet6address2string address) ≡ 39)
unfolding inet6address2string
inet6address2string-hex_value address size h = (
  hex_value-inet6_loop 0 address h,
  omega (arith, size, length-inet6_loop 0 address (omega (arith, size))),
)

pub bytes2hex-hex_value :
    (text : List ℕ)
    → All (λ b. b < 256) text
    → (hex_value (bytes2hex text) ≡ text) × (length (bytes2hex text) ≡ 2 * length text)
unfolding bytes2hex hex_value
bytes2hex-hex_value [] h = (refl, refl)
bytes2hex-hex_value (b ∷ bs) (small, h) =
    let (value, size) = bytes2hex-hex_value bs h in
    (hex_value-hex_byte b small (bytes2hex bs) ∙ ap (λ s. b ∷ s) value, omega (arith, size))
