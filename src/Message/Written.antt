-- ===== src/Message/Written.antt =====
-- message.c: a message with one question as bytes, and `message2buf` as the writer of them.
use post_dns.Base.{
  ℕ, zero, suc, ◌+◌, ◌-◌, ◌^◌, ◌≤◌, ◌<◌, ◌≡◌, refl, sym, ap, ◌∙◌, arith, List, [], ◌∷◌, ◌++◌,
  append_assoc, append-nil, ltb, lt→ltb, if◌then◌else◌, length, take, All, ok, Returns, bind_ok,
  length-append, take_prefix,
}
use mathlib.Core.Path.{ap₂}
use post_dns.Message.{Query, ResourceRecord, Message}
use post_dns.Message.Build.{
  message2buf, message2buf_question, question_rounds, message2buf_answer, answer_rounds,
}
use post_dns.Message.Blocks.{Filled, network16, write_bytes-Filled, put_short-Filled}
use post_dns.Message.Header.{IsHeader, header_bytes, message2buf_header-Filled}
use post_dns.Message.Labels.{IsName, wire_name, length-wire_name, put_name-wire}
use post_dns.Message.Record.{IsRecord, record_bytes, put_answer-Filled}

pub record IsQuery (q : Query) : Type 0 where
  pub name : IsName q.name
  pub type : q.type < 2 ^ 16
  pub class : q.class < 2 ^ 16

-- A message with one question, and answers that the program can write.
pub record IsMessage (m : Message) (q : Query) : Type 0 where
  pub header : IsHeader m
  pub one : m.query_count ≡ 1
  pub asked : m.queries ≡ q ∷ []
  pub query : IsQuery q
  pub answers : All IsRecord m.answers
  pub counted : m.answer_count ≡ length m.answers

abbrev pub question_bytes : Query → List ℕ
question_bytes q = wire_name q.name ++ network16 q.type ++ network16 q.class

unfoldable pub answer_bytes : List ResourceRecord → List ℕ
answer_bytes [] = []
answer_bytes (r ∷ rs) = record_bytes r ++ answer_bytes rs

abbrev pub message_bytes : Message → Query → List ℕ
message_bytes m q = header_bytes m ++ question_bytes q ++ answer_bytes m.answers

pub length-question_bytes : (q : Query) → length (question_bytes q) ≡ length q.name + 6
length-question_bytes q = omega (
  arith,
  length-append (wire_name q.name ++ network16 q.type) (network16 q.class),
  length-append (wire_name q.name) (network16 q.type),
  length-wire_name q.name,
)

-- One round, at the place behind what is written: the question goes there, and the next round starts
-- at its class.
pub question_round-Filled :
    (q : Query)
    → IsQuery q
    → (out : List ℕ) (room : ℕ) (buf : List ℕ) (start pos end : ℕ) → Filled out room buf
    → start + pos ≡ length out
    → length (question_bytes q) ≤ room
    → (queries : List Query) (n : ℕ)
    → (buf' : List ℕ) × (question_rounds (q ∷ queries) buf start pos end (suc n)
        ≡ question_rounds queries buf' start
            (pos + length q.name + 2 + 2)
            (end + (pos + length q.name + 2 + 2) + 2)
            n)
      × Filled (out ++ question_bytes q) (room - length (question_bytes q)) buf'
unfolding question_rounds
question_round-Filled q h out room buf start pos end f p c queries n =
    let size = length-question_bytes q in
    let name_size = length-wire_name q.name in
    let o₁ = out ++ wire_name q.name in
    let e₁ = length-append out (wire_name q.name) in
    let o₂ = o₁ ++ network16 q.type in
    let e₂ = length-append o₁ (network16 q.type) in
    let n₁ = room - length (wire_name q.name) in
    let type_pos = pos + length q.name + 2 in
    let (b₁, r₁, f₁) =
      write_bytes-Filled (wire_name q.name) out room buf (start + pos) f p (omega arith) in
    let (b₂, r₂, f₂) =
      put_short-Filled q.type o₁ n₁ b₁ (start + type_pos) f₁ (omega arith) (omega arith) in
    let (b₃, r₃, (junk, e, left)) =
      put_short-Filled q.class o₂ (n₁ - 2) b₂ (start + (type_pos + 2)) f₂ (omega arith)
        (omega arith) in
    (
      b₃,
      bind_ok _ _ (put_name-wire buf (start + pos) q.name h.name ∙ r₁)
          (bind_ok _ _ r₂ (bind_ok _ _ r₃ refl)),
      (
        junk,
        e
            ∙ ap (λ (s : List ℕ). s ++ junk)
                (append_assoc o₁ (network16 q.type) (network16 q.class)
                  ∙ append_assoc out (wire_name q.name) (network16 q.type ++ network16 q.class)
                  ∙ ap (λ (s : List ℕ). out ++ s)
                      (sym
                        (append_assoc (wire_name q.name) (network16 q.type) (network16 q.class)))),
        omega arith,
      ),
    )

question_rounds-Filled :
    (q : Query)
    → IsQuery q
    → (out : List ℕ) (room : ℕ) (buf : List ℕ) (start : ℕ) → Filled out room buf
    → start ≡ length out
    → length (question_bytes q) ≤ room
    → Returns (question_rounds (q ∷ []) buf start 0 start 1) λ r.
      (r.0 ≡ start + length (question_bytes q))
      × Filled (out ++ question_bytes q) (room - length (question_bytes q)) r.1
unfolding question_rounds
question_rounds-Filled q h out room buf start f p c =
    let (buf', run, f') =
      question_round-Filled q h out room buf start 0 start f (omega arith) c [] 0 in
    (
      (start + (0 + length q.name + 2 + 2) + 2, buf'),
      run,
      (omega (arith, length-question_bytes q), f'),
    )

answer_rounds-Filled :
    (rs : List ResourceRecord)
    → All IsRecord rs
    → (out : List ℕ) (room : ℕ) (buf : List ℕ) (pos : ℕ) → Filled out room buf
    → pos ≡ length out
    → length (answer_bytes rs) ≤ room
    → Returns (answer_rounds rs buf pos (length rs)) λ r.
      (r.0 ≡ pos + length (answer_bytes rs))
      × Filled (out ++ answer_bytes rs) (room - length (answer_bytes rs)) r.1
unfolding answer_rounds answer_bytes
answer_rounds-Filled [] h out room buf pos (junk, e, size) p c = (
  (pos, buf),
  refl,
  (omega arith, (junk, e ∙ ap (λ (s : List ℕ). s ++ junk) (sym (append-nil out)), omega arith)),
)
answer_rounds-Filled (r ∷ rs) h out room buf pos f p c =
    let total = length-append (record_bytes r) (answer_bytes rs) in
    let out' = out ++ record_bytes r in
    let (q₁, r₁, (p₁, f₁)) = put_answer-Filled r h.0 out room buf pos f p (omega arith) in
    let (q₂, r₂, (p₂, (junk, e, size))) =
      answer_rounds-Filled rs h.1 out' (room - length (record_bytes r)) q₁.1 q₁.0 f₁
        (omega (arith, length-append out (record_bytes r))) (omega arith) in
    (
      q₂,
      bind_ok _ _ r₁ r₂,
      (
        omega arith,
        (
          junk,
          e ∙ ap (λ (s : List ℕ). s ++ junk) (append_assoc out (record_bytes r) (answer_bytes rs)),
          omega arith,
        ),
      ),
    )

pub length-header_bytes : (m : Message) → length (header_bytes m) ≡ 12
unfolding header_bytes
length-header_bytes m = refl

-- With no answers the loop is not entered, and would do nothing.
past_guard :
    (n : ℕ) (rs : List ResourceRecord) (buf : List ℕ) (pos : ℕ) (r : ℕ × List ℕ)
    → n ≡ length rs
    → answer_rounds rs buf pos (length rs) ≡ ok r
    → (if ltb 0 n then answer_rounds rs buf pos n else ok (pos, buf)) ≡ ok r
unfolding answer_rounds
past_guard zero [] buf pos r e run = run
past_guard zero (x ∷ rs) buf pos r e run = absurd (omega arith)
past_guard (suc n) rs buf pos r e run =
    rw (lt→ltb 0 (suc n) (omega arith)) (ap (λ (k : ℕ). answer_rounds rs buf pos k) e ∙ run)

-- The end of the writer, for any number of answers.
answers-Filled :
    (m : Message)
    → All IsRecord m.answers
    → m.answer_count ≡ length m.answers
    → (out : List ℕ) (room : ℕ) (buf : List ℕ) (pos : ℕ) → Filled out room buf
    → pos ≡ length out
    → length (answer_bytes m.answers) ≤ room
    → Returns (if ltb 0 m.answer_count then message2buf_answer buf m pos else ok (pos, buf)) λ r.
      (r.0 ≡ pos + length (answer_bytes m.answers))
      × Filled (out ++ answer_bytes m.answers) (room - length (answer_bytes m.answers)) r.1
unfolding message2buf_answer
answers-Filled m h n out room buf pos f p c =
    let (r, run, rest) = answer_rounds-Filled m.answers h out room buf pos f p c in
    (r, past_guard m.answer_count m.answers buf pos r n run, rest)

-- `message2buf` of a well-formed message with one question whose bytes fit the block returns their
-- number, has written exactly them at the front of the block, and leaves the length of the block as
-- it is.
pub message2buf_lem :
    (m : Message) (q : Query) (block : List ℕ)
    → IsMessage m q
    → m.flags.z ≡ 0
    → length (message_bytes m q) ≤ length block
    → Returns (message2buf block m) λ r.
      (r.0 ≡ length (message_bytes m q))
      × (take r.0 r.1 ≡ message_bytes m q)
      × (length r.1 ≡ length block)
unfolding message2buf message2buf_question
message2buf_lem m q block h cleared room =
    let total = length-append (header_bytes m ++ question_bytes q) (answer_bytes m.answers) in
    let front = length-append (header_bytes m) (question_bytes q) in
    let twelve = length-header_bytes m in
    let n = length block in
    let (q₁, r₁, (p₁, f₁)) =
      message2buf_header-Filled m block h.header.flags cleared (omega arith) in
    let (q₂, r₂, (p₂, f₂)) =
      question_rounds-Filled q h.query (header_bytes m) (n - 12) q₁.1 q₁.0 f₁ (omega arith)
        (omega arith) in
    let (q₃, r₃, (p₃, (junk, e, size))) =
      answers-Filled m h.answers h.counted (header_bytes m ++ question_bytes q)
        (n - 12 - length (question_bytes q)) q₂.1 q₂.0 f₂ (omega arith) (omega arith) in
    (
      q₃,
      bind_ok _ _ r₁ (
          bind_ok _ _
            (ap₂ (λ (qs : List Query) (k : ℕ). question_rounds qs q₁.1 q₁.0 0 q₁.0 k) h.asked h.one
              ∙ r₂)
            r₃),
      (
        omega arith,
        ap (take q₃.0) e ∙ take_prefix (message_bytes m q) junk q₃.0 (omega arith),
        omega (arith, ap length e, length-append (message_bytes m q) junk),
      ),
    )
