-- ===== src/Message/Questions.antt =====
-- message.c: the question section that `message2bufQuestion` writes for several questions.
use post_dns.Base.{
  ℕ, ◌+◌, ◌-◌, ◌≤◌, ◌≡◌, ap, ◌∙◌, arith, List, [], ◌∷◌, ◌++◌, append_assoc, length, length-append,
  All, Returns,
}
use post_dns.Message.{Query, Message}
use post_dns.Message.Build.{question_rounds, message2buf_question}
use post_dns.Message.Blocks.{Filled, network16}
use post_dns.Message.Labels.{wire_name, length-wire_name}
use post_dns.Message.Written.{IsQuery, question_bytes, length-question_bytes, question_round-Filled}

-- A question without its class.
abbrev pub classless_bytes : Query → List ℕ
classless_bytes q = wire_name q.name ++ network16 q.type

-- Each question begins at the class of the one before it.
unfoldable pub overlapped_bytes : List Query → List ℕ
overlapped_bytes [] = []
overlapped_bytes (q ∷ []) = question_bytes q
overlapped_bytes (q ∷ q' ∷ qs) = classless_bytes q ++ overlapped_bytes (q' ∷ qs)

-- How far the position moves: by the end of each question, counted from the start of the section.
unfoldable pub advance : ℕ → List Query → ℕ
advance pos [] = 0
advance pos (q ∷ qs) = pos + length q.name + 6 + advance (pos + length q.name + 4) qs

-- What was written last is free again.
give_back :
    (out tail : List ℕ) (room : ℕ) (buf : List ℕ)
    → Filled (out ++ tail) room buf
    → Filled out (room + length tail) buf
give_back out tail room buf (junk, e, size) =
    (tail ++ junk, e ∙ append_assoc out tail junk, omega (arith, size, length-append tail junk))

same_advance :
    (pos n end : ℕ) (qs : List Query)
    → end + (pos + n + 2 + 2) + 2 + advance (pos + n + 2 + 2) qs
      ≡ end + (pos + n + 6 + advance (pos + n + 4) qs)
same_advance pos n end qs =
    let same_place : pos + n + 2 + 2 ≡ pos + n + 4 = omega arith in
    omega (arith, ap (λ (k : ℕ). advance k qs) same_place)

length-overlapped_bytes : (q : Query) (qs : List Query) → 6 ≤ length (overlapped_bytes (q ∷ qs))
unfolding overlapped_bytes
length-overlapped_bytes q [] = omega (arith, length-question_bytes q)
length-overlapped_bytes q (q' ∷ qs) = omega (
  arith,
  length-append (classless_bytes q) (overlapped_bytes (q' ∷ qs)),
  length-overlapped_bytes q' qs,
)

length-classless_bytes : (q : Query) → length (classless_bytes q) ≡ length q.name + 4
length-classless_bytes q =
    omega (arith, length-append (wire_name q.name) (network16 q.type), length-wire_name q.name)

rounds-Filled :
    (q : Query) (qs : List Query)
    → All IsQuery (q ∷ qs)
    → (out : List ℕ) (room : ℕ) (buf : List ℕ) (start pos end : ℕ) → Filled out room buf
    → start + pos ≡ length out
    → length (overlapped_bytes (q ∷ qs)) ≤ room
    → Returns (question_rounds (q ∷ qs) buf start pos end (length (q ∷ qs))) λ r.
      (r.0 ≡ end + advance pos (q ∷ qs))
      × Filled (out ++ overlapped_bytes (q ∷ qs)) (room - length (overlapped_bytes (q ∷ qs))) r.1
unfolding question_rounds overlapped_bytes advance
rounds-Filled q [] (h, hs) out room buf start pos end f p c =
    let (buf', run, f') = question_round-Filled q h out room buf start pos end f p c [] 0 in
    ((end + (pos + length q.name + 2 + 2) + 2, buf'), run, (omega arith, f'))
rounds-Filled q (q' ∷ qs) (h, hs) out room buf start pos end f p c =
    let size = length-question_bytes q in
    let front = classless_bytes q in
    let front_size = length-classless_bytes q in
    let total = length-append front (overlapped_bytes (q' ∷ qs)) in
    let rest = length-overlapped_bytes q' qs in
    let (buf', run, f') =
      question_round-Filled q h out room buf start pos end f p (omega arith) (q' ∷ qs)
        (length (q' ∷ qs)) in
    let behind : Filled ((out ++ front) ++ network16 q.class) (room - length (question_bytes q))
        buf' =
      rw (append_assoc out front (network16 q.class)) f' in
    let next_pos = pos + length q.name + 2 + 2 in
    let (r, run', (moved, (junk, e, left))) =
      rounds-Filled q' qs hs (out ++ front) (room - length (question_bytes q) + 2) buf' start
        next_pos (end + next_pos + 2)
        (give_back (out ++ front) (network16 q.class) (room - length (question_bytes q)) buf'
          behind)
        (omega (arith, length-append out front)) (omega arith) in
    (
      r,
      run ∙ run',
      (
        moved ∙ same_advance pos (length q.name) end (q' ∷ qs),
        (
          junk,
          e ∙ ap (λ (x : List ℕ). x ++ junk) (append_assoc out front (overlapped_bytes (q' ∷ qs))),
          omega arith,
        ),
      ),
    )

-- `message2bufQuestion` on one or more well-formed questions that fit the room behind what is
-- written does not write them one behind the other: each begins at the class of the one before it,
-- which is lost, and the position that is returned counts the end of each question from the start of
-- the section. Nothing outside the room is written.
pub message2buf_question-overlapped_bytes :
    (m : Message) (q : Query) (qs : List Query) (out buf : List ℕ) (room : ℕ)
    → m.queries ≡ q ∷ qs
    → m.query_count ≡ length (q ∷ qs)
    → All IsQuery (q ∷ qs)
    → Filled out room buf
    → length (overlapped_bytes (q ∷ qs)) ≤ room
    → Returns (message2buf_question buf m (length out)) λ r.
      (r.0 ≡ length out + advance 0 (q ∷ qs))
      × Filled (out ++ overlapped_bytes (q ∷ qs)) (room - length (overlapped_bytes (q ∷ qs))) r.1
unfolding message2buf_question
message2buf_question-overlapped_bytes m q qs out buf room asked count h f c =
    let (r, run, rest) =
      rounds-Filled q qs h out room buf (length out) 0 (length out) f (omega arith) c in
    (r, rw (asked, count) run, rest)
