-- ===== src/Message/Question.antt =====
-- message.c: `buf2messageQuestion` on bytes that no writer has made.
use post_dns.Base.{
  ℕ, zero, suc, ◌+◌, ◌*◌, ◌≤◌, ◌<◌, ◌≡◌, ◌≢◌, refl, sym, ap, ◌∙◌, arith, List, [], ◌∷◌, ◌++◌, false,
  ◌==◌, bit_and, ==-eq-false, ltb, lt→ltb, ltb→lt, length, length-append, drop, Bool-cases, Run, ok,
  fault, out_of_fuel, Fault, ◌>>=◌, at, bind_ok, >>=-eq-ok, inl, inr, Option-cases, get_elem?,
}
use post_dns.Text.{Str}
use post_dns.Words.{char2_short}
use post_dns.Message.{Message}
use post_dns.Message.Parse.{
  read_short, write_char, read_letters, question_name, create_name, name_fuel, finish_name,
  question_entries, buf2message_question, buf2message,
}
use post_dns.Message.Header.{IsHeader, header_bytes, buf2message_header_lem}
use post_dns.Message.Written.{length-header_bytes}
use post_dns.Message.Rdata.{drop_part}

-- The run ends: in a value or in a fault.
abbrev pub Ends {ℓ} : {A : Type ℓ} → Run A → Type ℓ
Ends r = r ≢ out_of_fuel

bind-Ends {ℓ κ} :
    {A : Type ℓ} {B : Type κ} (m : Run A) (f : A → Run B)
    → Ends m
    → ((a : A) → m ≡ ok a → Ends (f a))
    → Ends (m >>= f)
bind-Ends (ok a) f ends rest = rest a refl
bind-Ends (fault why) f ends rest = λ e. absurd (cc)
bind-Ends out_of_fuel f ends rest = absurd (ends refl)

at-Ends {ℓ} : {A : Type ℓ} (xs : List A) (i : ℕ) → Ends (at xs i)
at-Ends xs i = elim (Option-cases (get_elem? xs i)) [
  | inl z ↦ rw z (λ e. absurd (cc))
  | inr (a, z) ↦ rw z (λ e. absurd (cc))
]

-- A character is written inside the array, or not at all.
write_char-Ends : (s : Str) (c : ℕ) → Ends (write_char s c)
unfolding write_char
write_char-Ends s c = elim (Bool-cases (ltb (length s) 512)) [
  | inl z ↦ rw z (λ e. absurd (cc))
  | inr z ↦ rw z (λ e. absurd (cc))
]

pub write_char-length :
    (s : Str) (c : ℕ) {s' : Str}
    → write_char s c ≡ ok s'
    → (length s' ≡ suc (length s)) × (length s < 512)
unfolding write_char
write_char-length s c {s' = s'} h = elim (Bool-cases (ltb (length s) 512)) [
  | inl z ↦
      let run : write_char s c ≡ ok (s ++ c ∷ []) = rw z refl in
      let same : s ++ c ∷ [] ≡ s' = (let e = sym run ∙ h in cc) in
      (rw (← same) (omega (arith, length-append s (c ∷ []))), ltb→lt (length s) 512 z)
  | inr z ↦
      let run : write_char s c ≡ fault Fault.out_of_bounds = rw z refl in
      absurd (let e = sym run ∙ h in cc)
]

read_letters-Ends : (base : List ℕ) (n pos : ℕ) (s : Str) → Ends (read_letters base n pos s)
unfolding read_letters
read_letters-Ends base zero pos s = λ e. absurd (cc)
read_letters-Ends base (suc n) pos s = bind-Ends (at base pos) _ (at-Ends base pos) (λ c _.
    bind-Ends (write_char s c) _ (write_char-Ends s c)
      (λ s' _. read_letters-Ends base n (pos + 1) s'))

read_letters-length :
    (base : List ℕ) (n pos : ℕ) (s : Str) {r : ℕ × Str}
    → read_letters base n pos s ≡ ok r
    → length r.1 ≡ length s + n
unfolding read_letters
read_letters-length base zero pos s {r = r} h =
    let same : (pos, s) ≡ r = cc in rw (← same) (omega arith)
read_letters-length base (suc n) pos s h =
    let (c, at_pos, h₁) = >>=-eq-ok (at base pos) _ h in
    let (s', written, h₂) = >>=-eq-ok (write_char s c) _ h₁ in
    omega (arith, (write_char-length s c written).0, read_letters-length base n (pos + 1) s' h₂)

nonzero : (n : ℕ) → n == 0 ≡ false → 0 < n
nonzero n h = ground arith

-- With that many rounds left the array fills up before the rounds do.
question_name_rounds :
    (fuel : ℕ) (base : List ℕ) (pos : ℕ) (s : Str)
    → length s ≤ 512
    → 512 < length s + 2 * fuel
    → Ends (question_name fuel base pos s)
unfolding question_name
question_name_rounds zero base pos s fits many = absurd (omega arith)
question_name_rounds (suc fuel) base pos s fits many =
    bind-Ends (at base pos) _ (at-Ends base pos) (λ n _. elim (Bool-cases (n == 0)) [
      | inl z ↦ rw z (λ e. absurd (cc))
      | inr z ↦ rw z (
          bind-Ends (read_letters base n (pos + 1) s) _ (read_letters-Ends base n (pos + 1) s)
            (λ r run. bind-Ends (write_char r.1 b'.') _ (write_char-Ends r.1 b'.') (λ dotted run'.
              let n_pos : 0 < n = nonzero n z in
              let grown = read_letters-length base n (pos + 1) s run in
              let (size, room) = write_char-length r.1 b'.' run' in
              question_name_rounds fuel base r.0 dotted (omega arith) (omega arith))))
    ])

question_name-Ends : (base : List ℕ) (pos : ℕ) → Ends (question_name name_fuel base pos [])
question_name-Ends base pos = question_name_rounds 257 base pos [] (omega arith) (omega arith)

read_short-Ends : (buf : List ℕ) (pos : ℕ) → Ends (read_short buf pos)
unfolding read_short
read_short-Ends buf pos =
    bind-Ends (at buf pos) _ (at-Ends buf pos)
      (λ high _. bind-Ends (at buf (pos + 1)) _ (at-Ends buf (pos + 1)) (λ low _ e. absurd (cc)))

finish_name-Ends : (s : Str) → Ends (finish_name s)
unfolding finish_name
finish_name-Ends [] = λ e. absurd (cc)
finish_name-Ends (c ∷ s) = λ e. absurd (cc)

question_entries-Ends : (n : ℕ) (buf : List ℕ) (pos : ℕ) → Ends (question_entries n buf pos)
unfolding question_entries
question_entries-Ends zero buf pos = λ e. absurd (cc)
question_entries-Ends (suc n) buf pos =
    bind-Ends (question_name name_fuel buf pos []) _ (question_name-Ends buf pos) (λ r _.
      bind-Ends (finish_name r.1) _ (finish_name-Ends r.1) (λ name _.
        bind-Ends (read_short buf (r.0 + 1)) _ (read_short-Ends buf (r.0 + 1)) (λ type _.
          bind-Ends (read_short buf (r.0 + 3)) _ (read_short-Ends buf (r.0 + 3)) (λ class _.
            bind-Ends (question_entries n buf (r.0 + 5)) _ (question_entries-Ends n buf (r.0 + 5))
              (λ qs _ e. absurd (cc))))))

-- The parser of the question section ends on any bytes, in a value or in a fault: its array of 512
-- letters is full before 257 rounds are over.
pub buf2message_question-Ends :
    (buf : List ℕ) (message : Message) (end_pos : ℕ)
    → Ends (buf2message_question buf message end_pos)
unfolding buf2message_question
buf2message_question-Ends buf message end_pos =
    bind-Ends (question_entries message.query_count buf 0) _
      (question_entries-Ends message.query_count buf 0) (λ r _ e. absurd (cc))

root_entries :
    (n : ℕ) (rest : List ℕ) → 0 < n → question_entries n (0 ∷ rest) 0 ≡ fault Fault.out_of_bounds
unfolding question_entries question_name finish_name
root_entries zero rest h = absurd (omega arith)
root_entries (suc n) rest h = refl

-- A message that asks something, and whose question section begins with the root name, makes
-- `buf2message` write before the start of its array, whatever follows.
pub buf2message_root :
    (m : Message) (rest : List ℕ) (fuel len : ℕ)
    → IsHeader m
    → 0 < m.query_count
    → 12 < len
    → buf2message fuel (header_bytes m ++ 0 ∷ rest) len ≡ fault Fault.out_of_bounds
unfolding buf2message buf2message_question
buf2message_root m rest fuel len h asks long =
    let base = header_bytes m ++ 0 ∷ rest in
    let twelve : 0 + length (header_bytes m) ≡ 12 = omega (arith, length-header_bytes m) in
    let behind : drop 12 base ≡ 0 ∷ rest =
      rw twelve at (drop_part (header_bytes m) (0 ∷ rest) 0 base refl) in
    let question : question_entries m.query_count (drop 12 base) 0 ≡ fault Fault.out_of_bounds =
      ap (λ (b : List ℕ). question_entries m.query_count b 0) behind
      ∙ root_entries m.query_count rest asks in
    bind_ok _ _ (buf2message_header_lem m (0 ∷ rest) h) (rw (lt→ltb 12 len long, question) refl)

-- Where a compressed name is a pointer to its own place, no fuel is enough for the parser of names
-- in records: the C code calls itself without end.
pub create_name_circle :
    (buf : List ℕ) (pos high low : ℕ) (name : Str)
    → at buf pos ≡ ok high
    → at buf (pos + 1) ≡ ok low
    → bit_and high 0xc0 ≡ 0xc0
    → char2_short (bit_and high 0x3f) low ≡ pos
    → (fuel : ℕ) → create_name fuel buf pos name ≡ out_of_fuel
unfolding create_name
create_name_circle buf pos high low name first second pointer back zero = refl
create_name_circle buf pos high low name first second pointer back (suc fuel) =
    let some_letters : high == 0 ≡ false = ==-eq-false high 0 (λ e.
      let none_set : bit_and 0 0xc0 ≡ 0xc0 = rw e at pointer in absurd (omega (arith, none_set))) in
    bind_ok _ _ first (
      rw (some_letters, pointer)
        (bind_ok _ _ second (
          rw (back, create_name_circle buf pos high low name first second pointer back fuel) refl)))
