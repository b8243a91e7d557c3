-- ===== src/Message/Rdata.antt =====
-- message.c: `createRData` and what `buf2messageRR` makes of the data of a record.
use post_dns.Base.{
  ℕ, zero, suc, ◌+◌, ◌-◌, ◌*◌, ◌/◌, ◌%◌, ◌^◌, ◌≤◌, ◌<◌, ◌≡◌, refl, sym, ap, ◌∙◌, arith, bit_and,
  bit_or, List, [], ◌∷◌, ◌++◌, append-nil, lt→ltb, length, drop, ok, length-append, take_prefix,
  get_elem?-drop, drop_next,
}
use post_dns.Base.Bits.{shl, bit_and_mask, bit_or_fields}
use post_dns.Text.{Str}
use post_dns.Words.{char2_short}
use post_dns.Words.Swap.{char2_short_lem}
use post_dns.Address.{string2inet4address, string2inet6address, copy_bytes}
use post_dns.Message.{ResponseData, address4, domain, address6, unset}
use post_dns.Message.Parse.{
  read_short, create_rdata, create_rdata_address, close_rdata, response_data_of, name_fuel,
}
use post_dns.Message.Blocks.{network16, network32}
use post_dns.Message.Header.{network16_lem}
use post_dns.Message.Labels.{length-wire_name, read_letters_lem}
use post_dns.Message.Name.{create_name_lem}
use post_dns.Message.Record.{IsData, data_bytes}

-- What stands behind a part of the buffer.
pub drop_part :
    (xs ys : List ℕ) (pos : ℕ) (base : List ℕ)
    → drop pos base ≡ xs ++ ys
    → drop (pos + length xs) base ≡ ys
drop_part [] ys pos base h = let stay : pos + 0 ≡ pos = omega arith in rw stay h
drop_part (x ∷ xs) ys pos base h =
    let move : pos + suc (length xs) ≡ suc pos + length xs = omega arith in
    rw move (drop_part xs ys (suc pos) base (drop_next pos base x (xs ++ ys) h))

pub read_short_lem :
    (x : ℕ) (rest : List ℕ) (pos : ℕ) (base : List ℕ)
    → x < 2 ^ 16
    → drop pos base ≡ network16 x ++ rest
    → (read_short base pos ≡ ok x) × (drop (pos + 2) base ≡ rest)
unfolding read_short
read_short_lem x rest pos base h d =
    let high = get_elem?-drop pos base _ _ d in
    let step : pos + 1 ≡ suc pos = omega arith in
    let low = get_elem?-drop (suc pos) base _ _ (drop_next pos base _ _ d) in
    (rw (high, step, low) (ap ok (network16_lem x h)), drop_part (network16 x) rest pos base d)

-- Two shorts make an int.
pub two_shorts :
    (x : ℕ) → x < 2 ^ 32 → bit_or (shl 32 (x / 2 ^ 16) 16) (bit_and (x % 2 ^ 16) 0xffff) ≡ x
two_shorts x h =
    let mask : bit_and (x % 2 ^ 16) (2 ^ 16 - 1) ≡ x % 2 ^ 16 % 2 ^ 16 =
      bit_and_mask 16 (x % 2 ^ 16) in
    let same : x % 2 ^ 16 % 2 ^ 16 ≡ x % 2 ^ 16 = omega arith in
    let fits : x / 2 ^ 16 * 2 ^ 16 % 2 ^ 32 ≡ x / 2 ^ 16 * 2 ^ 16 = omega arith in
    rw (mask, same, fits) (bit_or_fields 16 (x / 2 ^ 16) (x % 2 ^ 16) (omega arith) ∙ omega arith)

pub network32_halves : (x : ℕ) → network32 x ≡ network16 (x / 2 ^ 16) ++ network16 (x % 2 ^ 16)
network32_halves x = ground arith

pub string2inet4address_lem : (a : ℕ) → a < 2 ^ 32 → string2inet4address (network32 a) ≡ ok a
unfolding string2inet4address
string2inet4address_lem a h =
    let high : char2_short (a / 2 ^ 24 % 256) (a / 2 ^ 16 % 256) ≡ a / 2 ^ 16 =
      char2_short_lem _ _ (omega arith) (omega arith) ∙ omega arith in
    let low : char2_short (a / 2 ^ 8 % 256) (a % 256) ≡ a % 2 ^ 16 =
      char2_short_lem _ _ (omega arith) (omega arith) ∙ omega arith in
    rw (high, low) (ap ok (two_shorts a h))

copy_bytes_lem :
    (bs : List ℕ) (whole : List ℕ) (i : ℕ)
    → drop i whole ≡ bs
    → copy_bytes (length bs) i whole ≡ ok bs
unfolding copy_bytes
copy_bytes_lem [] whole i d = refl
copy_bytes_lem (b ∷ bs) whole i d =
    let step : i + 1 ≡ suc i = omega arith in
    rw (
      get_elem?-drop i whole b bs d,
      step,
      copy_bytes_lem bs whole (suc i) (drop_next i whole b bs d),
    )

pub string2inet6address_lem : (bs : List ℕ) → length bs ≡ 16 → string2inet6address bs ≡ ok bs
unfolding string2inet6address
string2inet6address_lem bs h =
    ap (λ (n : ℕ). copy_bytes n 0 bs) (sym h) ∙ copy_bytes_lem bs bs 0 refl

close_rdata_lem :
    (bs extra : List ℕ) (n : ℕ)
    → n ≡ suc (length bs)
    → length bs < 512
    → close_rdata (bs ++ extra) n ≡ ok bs
unfolding close_rdata
close_rdata_lem bs extra n e h =
    rw (e, lt→ltb (length bs) 512 h, take_prefix bs extra (length bs) refl)

-- The bytes of an address are copied, and the position returned is that of the last one.
create_rdata_address_lem :
    (bs rest : List ℕ) (n pos : ℕ) (base : List ℕ)
    → n ≡ length bs
    → 0 < n
    → n ≤ 512
    → drop pos base ≡ bs ++ rest
    → create_rdata_address base pos n ≡ ok (pos + n - 1, bs, n + 1)
unfolding create_rdata_address
create_rdata_address_lem bs rest zero pos base e p h d = absurd (omega arith)
create_rdata_address_lem bs rest (suc n) pos base e p h d =
    let (run, there) = read_letters_lem base bs pos [] rest d (omega arith) in rw (e, run)

-- The data of a handled type is read back; the position is that of its last byte.
pub rdata_lem :
    (value : ResponseData) (type fuel : ℕ) (rest : List ℕ) (pos : ℕ) (base : List ℕ)
    → IsData type value
    → name_fuel ≤ fuel
    → drop pos base ≡ data_bytes value ++ rest
    → (r : ℕ × Str × ℕ) × (create_rdata fuel base pos type (length (data_bytes value)) ≡ ok r)
      × (response_data_of type r.1 r.2 ≡ ok value)
      × (r.0 + 1 ≡ pos + length (data_bytes value))
unfolding create_rdata response_data_of
rdata_lem (address4 a) type fuel rest pos base (t, h) enough d =
    let run =
      create_rdata_address_lem (network32 a) rest 4 pos base refl (omega arith) (omega arith) d in
    let closed = close_rdata_lem (network32 a) [] 5 refl (omega arith) in
    (
      (pos + 4 - 1, network32 a, 5),
      rw (t, run),
      rw (t, closed, string2inet4address_lem a h),
      omega arith,
    )
rdata_lem (domain s) type fuel rest pos base (t, h) enough d =
    let run = create_name_lem base s rest pos h d fuel enough in
    let size = length-append s (b'.' ∷ []) in
    (
      (pos + length s + 1, s ++ b'.' ∷ [], length (s ++ b'.' ∷ [])),
      rw (t, run),
      rw (t, close_rdata_lem s (b'.' ∷ []) (length (s ++ b'.' ∷ [])) (omega arith) h.short),
      omega (arith, length-wire_name s),
    )
rdata_lem (address6 bs) type fuel rest pos base (t, h) enough d =
    let run =
      create_rdata_address_lem bs rest (length bs) pos base refl (omega arith) (omega arith) d in
    let closed = close_rdata_lem bs [] (length bs + 1) (omega arith) (omega arith) in
    (
      (pos + length bs - 1, bs, length bs + 1),
      rw (t, run),
      rw (t, rw append-nil at closed, string2inet6address_lem bs h),
      omega arith,
    )
rdata_lem unset type fuel rest pos base h enough d = absurd h
