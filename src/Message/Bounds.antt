-- ===== src/Message/Bounds.antt =====
-- message.c: the arrays of 512 letters into which the parser copies names and data.
use post_dns.Base.{
  ℕ, zero, suc, ◌+◌, ◌<◌, ◌≤◌, ◌≡◌, refl, ap, arith, List, [], ◌∷◌, ◌==◌, ltb, ltb→lt, bit_and,
  length, take, init, Bool-cases, inl, inr, some, ok, at, >>=-eq-ok,
}
use post_dns.Text.{Str, c_string, string_equal}
use post_dns.HashTable.Values.{ok-eq}
use post_dns.Words.{char2_short}
use post_dns.Message.Parse.{
  write_char, read_letters, question_name, finish_name, create_name, finish_copied_name,
  close_rdata,
}
use post_dns.Message.Question.{write_char-length}

write_char-le : (s : Str) (c : ℕ) {s' : Str} → write_char s c ≡ ok s' → length s' ≤ 512
write_char-le s c h = let (size, room) = write_char-length s c h in omega arith

read_letters-le :
    (base : List ℕ) (n pos : ℕ) (s : Str) {r : ℕ × Str}
    → length s ≤ 512
    → read_letters base n pos s ≡ ok r
    → length r.1 ≤ 512
unfolding read_letters
read_letters-le base zero pos s fits h = rw (← ok-eq h) fits
read_letters-le base (suc n) pos s fits h =
    let (c, _, h₁) = >>=-eq-ok (at base pos) _ h in
    let (s', written, h₂) = >>=-eq-ok (write_char s c) _ h₁ in
    read_letters-le base n (pos + 1) s' (write_char-le s c written) h₂

pub question_name-le :
    (fuel : ℕ) (base : List ℕ) (pos : ℕ) (s : Str) {r : ℕ × Str}
    → length s ≤ 512
    → question_name fuel base pos s ≡ ok r
    → length r.1 ≤ 512
unfolding question_name
question_name-le zero base pos s fits h = absurd (cc)
question_name-le (suc fuel) base pos s fits h =
    let (n, _, h₁) = >>=-eq-ok (at base pos) _ h in
    elim (Bool-cases (n == 0)) [
      | inl z ↦ rw (← ok-eq (rw z at h₁)) fits
      | inr z ↦
          let ((pos', letters), _, h₂) =
            >>=-eq-ok (read_letters base n (pos + 1) s) _ (rw z at h₁) in
          let (dotted, written, h₃) = >>=-eq-ok (write_char letters b'.') _ h₂ in
          question_name-le fuel base pos' dotted (write_char-le letters b'.' written) h₃
    ]

pub create_name-le :
    (fuel : ℕ) (buf : List ℕ) (pos : ℕ) (s : Str) {r : ℕ × Str}
    → length s ≤ 512
    → create_name fuel buf pos s ≡ ok r
    → length r.1 ≤ 512
unfolding create_name
create_name-le zero buf pos s fits h = absurd (cc)
create_name-le (suc fuel) buf pos s fits h =
    let (n, _, h₁) = >>=-eq-ok (at buf pos) _ h in
    elim (Bool-cases (n == 0)) [
      | inl z ↦ rw (← ok-eq (rw z at h₁)) fits
      | inr z ↦ elim (Bool-cases (bit_and n 0xc0 == 0xc0)) [
        | inl p ↦
            let (low, _, h₂) = >>=-eq-ok (at buf (pos + 1)) _ (rw (z, p) at h₁) in
            let target = char2_short (bit_and n 0x3f) low in
            let ((stop, name), jumped, h₃) = >>=-eq-ok (create_name fuel buf target s) _ h₂ in
            rw (← ok-eq h₃) (create_name-le fuel buf target s fits jumped)
        | inr p ↦
            let ((pos', letters), _, h₂) =
              >>=-eq-ok (read_letters buf n (pos + 1) s) _ (rw (z, p) at h₁) in
            let (dotted, written, h₃) = >>=-eq-ok (write_char letters b'.') _ h₂ in
            create_name-le fuel buf pos' dotted (write_char-le letters b'.' written) h₃
      ]
    ]

length-init : (c : ℕ) (s : Str) → length (init (c ∷ s)) ≡ length s
length-init c [] = refl
length-init c (d ∷ s) = ap suc (length-init d s)

pub finish_name-lt :
    (s : Str) {name : Str} → length s ≤ 512 → finish_name s ≡ ok name → length name < 512
unfolding finish_name
finish_name-lt [] fits h = absurd (cc)
finish_name-lt (c ∷ s) fits h = rw (← ok-eq h) (omega (arith, length-init c s))

pub finish_copied_name-lt :
    (s : Str) {name : Str} → length s ≤ 512 → finish_copied_name s ≡ ok name → length name < 512
unfolding finish_copied_name
finish_copied_name-lt s fits h =
    let (name, cut, h₁) = >>=-eq-ok (finish_name s) _ h in
    elim (Bool-cases (string_equal (some (c_string name)) (some name))) [
      | inl z ↦ rw (← ok-eq (rw z at h₁)) (finish_name-lt s fits cut)
      | inr z ↦ absurd (let stuck = rw z at h₁ in cc)
    ]

length-take_le : (n : ℕ) (s : Str) → length (take n s) ≤ n
length-take_le zero s = omega arith
length-take_le (suc n) [] = omega arith
length-take_le (suc n) (c ∷ s) = omega (arith, length-take_le n s)

pub close_rdata-lt :
    (s : Str) (n : ℕ) {value : Str} → close_rdata s n ≡ ok value → length value < 512
unfolding close_rdata
close_rdata-lt s zero h = absurd (cc)
close_rdata-lt s (suc n) h = elim (Bool-cases (ltb n 512)) [
  | inl z ↦ rw (← ok-eq (rw z at h)) (omega (arith, length-take_le n s, ltb→lt n 512 z))
  | inr z ↦ absurd (let stuck = rw z at h in cc)
]
