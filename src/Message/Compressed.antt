-- ===== src/Message/Compressed.antt =====
-- message.c: `createName` as the reader of compressed names.
use post_dns.Base.{
  ℕ, zero, suc, ◌+◌, ◌-◌, ◌/◌, ◌%◌, ◌^◌, ◌≤◌, ◌<◌, ◌≡◌, refl, ap, ◌∙◌, arith, bit_and, List, [],
  ◌∷◌, ◌++◌, append_assoc, append-nil, true, false, ◌==◌, ==-eq-false, length, length-append, drop,
  ok, ◌>>=◌, at, from_option, Fault, get_elem?-drop, drop_next,
}
use post_dns.Base.Bits.{bit_and_split, bit_and_mask, bit_and-zero}
use post_dns.Text.{Str}
use post_dns.Words.{char2_short}
use post_dns.Words.Swap.{char2_short_lem}
use post_dns.Message.Parse.{create_name}
use post_dns.Message.Labels.{IsLabel, dotted}
use post_dns.Message.Name.{label_lem, no_pointer}

-- The labels of the name that stands at a place of the block, by the rules of RFC 1035: labels, one
-- after the other, up to a NUL or to a pointer to another place where the rest stands. Then how many
-- lengths and pointers are read, and the place of the last byte that belongs to the name.
pub data Stands (base : List ℕ) : ℕ → List Str → ℕ → ℕ → Type 0 where
  root : (pos : ℕ) (rest : List ℕ) → drop pos base ≡ 0 ∷ rest → Stands base pos [] 1 pos
  label :
      (pos : ℕ) (t : Str) (ts : List Str) (n stop : ℕ) (rest : List ℕ)
      → IsLabel t
      → drop pos base ≡ length t ∷ t ++ rest
      → Stands base (pos + 1 + length t) ts n stop
      → Stands base pos (t ∷ ts) (suc n) stop
  pointer :
      (pos place : ℕ) (ts : List Str) (n stop : ℕ) (rest : List ℕ)
      → place < 2 ^ 14
      → drop pos base ≡ (192 + place / 256) ∷ place % 256 ∷ rest
      → Stands base place ts n stop
      → Stands base pos ts (suc n) (pos + 1)

-- The two top bits of the first byte of a pointer are set, and the other six are read.
is_pointer : (k : ℕ) → k < 64 → bit_and (192 + k) 0xc0 == 0xc0 ≡ true
is_pointer k h =
    let split = bit_and_split 6 3 k 3 0 (omega arith) (omega arith) in
    let set : bit_and (192 + k) 0xc0 ≡ 0xc0 = omega (arith, split, bit_and-zero k) in rw set refl

low_bits : (k : ℕ) → k < 64 → bit_and (192 + k) 0x3f ≡ k
low_bits k h =
    let mask : bit_and (192 + k) (2 ^ 6 - 1) ≡ (192 + k) % 2 ^ 6 = bit_and_mask 6 (192 + k) in
    mask ∙ omega arith

Stands-pos :
    (base : List ℕ) (pos : ℕ) (ts : List Str) (n stop : ℕ) → Stands base pos ts n stop → 0 < n
Stands-pos base pos ts n stop (root _ _ _) = omega arith
Stands-pos base pos ts n stop (label _ _ _ _ _ _ _ _ _) = omega arith
Stands-pos base pos ts n stop (pointer _ _ _ _ _ _ _ _ _) = omega arith

-- The bytes of a pointer.
pointer_bytes :
    (base : List ℕ) (pos place : ℕ) (rest : List ℕ)
    → place < 2 ^ 14
    → drop pos base ≡ (192 + place / 256) ∷ place % 256 ∷ rest
    → (at base pos ≡ ok (192 + place / 256))
      × (at base (pos + 1) ≡ ok (place % 256))
      × (char2_short (bit_and (192 + place / 256) 0x3f) (place % 256) ≡ place)
pointer_bytes base pos place rest small d =
    let step : pos + 1 ≡ suc pos = omega arith in
    let next = drop_next pos base _ _ d in
    (
      ap (from_option Fault.out_of_bounds) (get_elem?-drop pos base _ _ d),
      rw step (ap (from_option Fault.out_of_bounds) (get_elem?-drop (suc pos) base _ _ next)),
      rw (low_bits (place / 256) (omega arith))
          (char2_short_lem (place / 256) (place % 256) (omega arith) (omega arith) ∙ omega arith),
    )

-- Against the format of RFC 1035: where a name stands at a place of the block, as labels up to a NUL
-- or to a pointer to a place where the rest of it stands, and its letters and dots fit the room of
-- 512 that what was written before leaves, `createName` with a round of fuel for each length and
-- each pointer returns the place of the last byte that belongs to the name there, and has written
-- its labels with a dot behind each.
pub create_name-Stands :
    (base : List ℕ) (fuel pos : ℕ) (ts : List Str) (n stop : ℕ) (written : Str)
    → Stands base pos ts n stop
    → length written + length (dotted ts) ≤ 512
    → n ≤ fuel
    → create_name fuel base pos written ≡ ok (stop, written ++ dotted ts)
unfolding create_name dotted
create_name-Stands base zero pos ts n stop written s room enough =
    absurd (omega (arith, Stands-pos base pos ts n stop s))
create_name-Stands base (suc fuel) _ _ _ _ written (root pos rest d) room enough =
    rw (get_elem?-drop pos base 0 rest d, append-nil) refl
create_name-Stands base (suc fuel) _ _ _ _ written (label pos t ts n stop rest h d s) room enough =
    let sizes = length-append t (b'.' ∷ dotted ts) in
    let (byte, letters, dot, _) = label_lem base t pos written rest d (omega (arith, sizes)) in
    let full : length t == 0 ≡ false = ==-eq-false _ _ (λ e. omega (arith, h.0)) in
    let room' : length (written ++ t ++ b'.' ∷ []) + length (dotted ts) ≤ 512 =
      omega (arith, sizes, length-append (written ++ t) (b'.' ∷ []), length-append written t) in
    let run =
      create_name-Stands base fuel (pos + 1 + length t) ts n stop (written ++ t ++ b'.' ∷ []) s
        room' (omega arith) in
    rw (byte, ◌>>=◌, full, no_pointer (length t) h.1, letters, dot, run)
      (ap (λ (w : Str). ok (stop, w))
        (append_assoc (written ++ t) (b'.' ∷ []) (dotted ts)
          ∙ append_assoc written t (b'.' ∷ dotted ts)))
create_name-Stands base (suc fuel) _ _ _ _ written (pointer pos place ts n stop rest small d s) room
      enough =
    let (high, low, target) = pointer_bytes base pos place rest small d in
    let set : (192 + place / 256) == 0 ≡ false = ==-eq-false _ _ (λ e. omega (arith, e)) in
    let run = create_name-Stands base fuel place ts n stop written s room (omega arith) in
    rw (high, ◌>>=◌, set, is_pointer (place / 256) (omega arith), low, target, run) refl
