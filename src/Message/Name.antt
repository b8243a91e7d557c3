-- ===== src/Message/Name.antt =====
-- message.c: `buf2messageQuestion` and `createName` as the readers of a name in wire form.
use post_dns.Base.{
  All-append, All_front, ℕ, zero, suc, ◌+◌, ◌-◌, ◌*◌, ◌/◌, ◌%◌, ◌^◌, ◌≤◌, ◌<◌, ◌≡◌, ◌≢◌, refl, ap,
  ◌∙◌, arith, bit_and, List, [], ◌∷◌, ◌++◌, append_assoc, append-nil, true, false, ◌==◌, ltb,
  lt→ltb, ==-eq-false, length, drop, All, Run, ok, ◌>>=◌, at, from_option, Fault, length-append,
  get_elem?-drop, drop_next, init-append,
}
use post_dns.Base.Bits.{bit_and_split, bit_and_mask, bit_and-zero}
use post_dns.Text.{Str, string_split}
use post_dns.Text.Equal.{string_equal_refl}
use post_dns.Message.Parse.{
  write_char, read_letters, question_name, finish_name, finish_copied_name, create_name, name_fuel,
}
use post_dns.Message.Labels.{
  IsLabel, IsName, wire, dotted, labels-le, dotted-split, wire_name, length-wire_name, c_string_lem,
  read_letters_lem,
}

-- The two top bits of a length byte below 192 are not both set.
pub no_pointer : (n : ℕ) → n < 192 → bit_and n 0xc0 == 0xc0 ≡ false
no_pointer n h =
    let mask : bit_and (n / 64) (2 ^ 2 - 1) ≡ n / 64 % 2 ^ 2 = bit_and_mask 2 (n / 64) in
    let split = bit_and_split 6 (n / 64) (n % 64) 3 0 (omega arith) (omega arith) in
    let whole : n / 64 * 2 ^ 6 + n % 64 ≡ n = omega arith in
    ==-eq-false _ _ (λ e.
      omega
        (arith, split, whole, mask, bit_and-zero (n % 64), ap (λ (k : ℕ). bit_and k 0xc0) whole))

pub regroup :
    (t : Str) (ts : List Str) (pos : ℕ) (written : Str)
    → ◌≡◌ {A = Run (ℕ × Str)}
        (ok (pos + 1 + length t + length (wire ts), (written ++ t ++ b'.' ∷ []) ++ dotted ts))
        (ok (pos + length (wire (t ∷ ts)), written ++ dotted (t ∷ ts)))
unfolding wire dotted
regroup t ts pos written =
    let sum : pos + 1 + length t + length (wire ts) ≡ pos + suc (length (t ++ wire ts)) =
      omega (arith, length-append t (wire ts)) in
    rw (sum, append_assoc, append_assoc)

module _ (base : List ℕ) where
  -- One label with its length byte and the dot that is written for it.
  pub label_lem :
      (t : Str) (pos : ℕ) (written rest : Str)
      → drop pos base ≡ length t ∷ t ++ rest
      → length written + length t < 512
      → (at base pos ≡ ok (length t))
        × (read_letters base (length t) (pos + 1) written ≡ ok (pos + 1 + length t, written ++ t))
        × (write_char (written ++ t) b'.' ≡ ok (written ++ t ++ b'.' ∷ []))
        × (drop (pos + 1 + length t) base ≡ rest)
  unfolding write_char
  label_lem t pos written rest h room =
      let step : pos + 1 ≡ suc pos = omega arith in
      let next : drop (pos + 1) base ≡ t ++ rest = rw step (drop_next pos base _ _ h) in
      let (run, there) = read_letters_lem base t (pos + 1) written rest next (omega arith) in
      let less : ltb (length (written ++ t)) 512 ≡ true =
        lt→ltb _ _ (omega (arith, length-append written t)) in
      (ap (from_option Fault.out_of_bounds) (get_elem?-drop pos base _ _ h), run, rw less, there)

  question_name-wire :
      (ts : List Str) (fuel pos : ℕ) (written rest : Str)
      → All IsLabel ts
      → drop pos base ≡ wire ts ++ 0 ∷ rest
      → length written + length (dotted ts) ≤ 512
      → length ts < fuel
      → question_name fuel base pos written ≡ ok (pos + length (wire ts), written ++ dotted ts)
  unfolding question_name wire dotted
  question_name-wire ts zero pos written rest h d room f = absurd (omega arith)
  question_name-wire [] (suc fuel) pos written rest h d room f =
      let stay : pos + 0 ≡ pos = omega arith in
      rw (get_elem?-drop pos base 0 rest d, append-nil, stay)
  question_name-wire (t ∷ ts) (suc fuel) pos written rest h d room f =
      let tail = wire ts ++ 0 ∷ rest in
      let d' : drop pos base ≡ length t ∷ t ++ tail =
        d ∙ ap (λ (s : Str). length t ∷ s) (append_assoc t (wire ts) (0 ∷ rest)) in
      let sizes = length-append t (b'.' ∷ dotted ts) in
      let (byte, letters, dot, there) = label_lem t pos written tail d' (omega (arith, sizes)) in
      let full : length t == 0 ≡ false = ==-eq-false _ _ (λ e. omega (arith, h.0.0)) in
      let room' : length (written ++ t ++ b'.' ∷ []) + length (dotted ts) ≤ 512 =
        omega (arith, sizes, length-append (written ++ t) (b'.' ∷ []), length-append written t) in
      let run =
        question_name-wire ts fuel (pos + 1 + length t) (written ++ t ++ b'.' ∷ []) rest h.1 there
          room' (omega arith) in
      rw (byte, ◌>>=◌, full, letters, dot, run) (regroup t ts pos written)

  create_name-wire :
      (ts : List Str) (fuel pos : ℕ) (written rest : Str)
      → All IsLabel ts
      → drop pos base ≡ wire ts ++ 0 ∷ rest
      → length written + length (dotted ts) ≤ 512
      → length ts < fuel
      → create_name fuel base pos written ≡ ok (pos + length (wire ts), written ++ dotted ts)
  unfolding create_name wire dotted
  create_name-wire ts zero pos written rest h d room f = absurd (omega arith)
  create_name-wire [] (suc fuel) pos written rest h d room f =
      let stay : pos + 0 ≡ pos = omega arith in
      rw (get_elem?-drop pos base 0 rest d, append-nil, stay)
  create_name-wire (t ∷ ts) (suc fuel) pos written rest h d room f =
      let tail = wire ts ++ 0 ∷ rest in
      let d' : drop pos base ≡ length t ∷ t ++ tail =
        d ∙ ap (λ (s : Str). length t ∷ s) (append_assoc t (wire ts) (0 ∷ rest)) in
      let sizes = length-append t (b'.' ∷ dotted ts) in
      let (byte, letters, dot, there) = label_lem t pos written tail d' (omega (arith, sizes)) in
      let full : length t == 0 ≡ false = ==-eq-false _ _ (λ e. omega (arith, h.0.0)) in
      let room' : length (written ++ t ++ b'.' ∷ []) + length (dotted ts) ≤ 512 =
        omega (arith, sizes, length-append (written ++ t) (b'.' ∷ []), length-append written t) in
      let run =
        create_name-wire ts fuel (pos + 1 + length t) (written ++ t ++ b'.' ∷ []) rest h.1 there
          room' (omega arith) in
      rw (byte, ◌>>=◌, full, no_pointer (length t) h.0.1, letters, dot, run)
        (regroup t ts pos written)

pub finish_name-dot : (name : Str) → finish_name (name ++ b'.' ∷ []) ≡ ok name
unfolding finish_name
finish_name-dot [] = refl
finish_name-dot (c ∷ name) = ap ok (init-append (c ∷ name) b'.')

module _ (base : List ℕ) (name : Str) (rest : List ℕ) (pos : ℕ) (is_name : IsName name)
    (there : drop pos base ≡ wire_name name ++ rest) where
  placed : drop pos base ≡ wire (string_split name b'.') ++ 0 ∷ rest
  placed = there ∙ append_assoc (wire (string_split name b'.')) (0 ∷ []) rest

  ends : pos + length (wire (string_split name b'.')) ≡ pos + length name + 1
  ends =
      omega (arith, length-wire_name name, length-append (wire (string_split name b'.')) (0 ∷ []))

  -- The array is large enough, and so are 257 rounds.
  fits : 0 + length (dotted (string_split name b'.')) ≤ 512
  fits = omega (arith, ap length (dotted-split name), length-append name (b'.' ∷ []), is_name.short)

  few : length (string_split name b'.') < 257
  few = omega (arith, fits, labels-le (string_split name b'.') is_name.labels)

  -- The parser of names in the question section reads a well-formed name in wire form at any place
  -- of the block, in 257 rounds and inside its array: it ends at the NUL behind the labels with the
  -- letters of the name and a dot.
  pub question_name_lem :
      question_name name_fuel base pos [] ≡ ok (pos + length name + 1, name ++ b'.' ∷ [])
  question_name_lem =
      question_name-wire base (string_split name b'.') 257 pos [] rest is_name.labels placed fits
        few
      ∙ rw (ends, dotted-split name)

  -- The parser of names in records reads a well-formed name in wire form at any place of the block,
  -- with 257 rounds or more and inside its array: it ends at the NUL behind the labels with the
  -- letters of the name and a dot.
  pub create_name_lem :
      (fuel : ℕ)
      → name_fuel ≤ fuel
      → create_name fuel base pos [] ≡ ok (pos + length name + 1, name ++ b'.' ∷ [])
  create_name_lem fuel enough =
      create_name-wire base (string_split name b'.') fuel pos [] rest is_name.labels placed fits
        (omega (arith, few))
      ∙ rw (ends, dotted-split name)

dotted-no_nul : (ts : List Str) → All IsLabel ts → All (λ c. c ≢ 0) (dotted ts)
unfolding dotted
dotted-no_nul [] h = tt
dotted-no_nul (t ∷ ts) h =
    All-append (λ c. c ≢ 0) t (b'.' ∷ dotted ts) h.0.2 (λ e. omega arith, dotted-no_nul ts h.1)

pub IsName-no_nul : (name : Str) → IsName name → All (λ c. c ≢ 0) name
IsName-no_nul name h =
    All_front (λ c. c ≢ 0) name (b'.' ∷ [])
      (rw (dotted-split name) at (dotted-no_nul (string_split name b'.') h.labels))

-- A name has no NUL, so `strcpy` copies all of it.
pub finish_copied_name_lem :
    (name : Str) → IsName name → finish_copied_name (name ++ b'.' ∷ []) ≡ ok name
unfolding finish_copied_name
finish_copied_name_lem name h =
    rw (
      finish_name-dot name,
      ◌>>=◌,
      c_string_lem name (IsName-no_nul name h),
      string_equal_refl name,
    )
