-- ===== src/Message/RoundTrip.antt =====
-- message.c: `buf2message` as the reader of the bytes of a message, and the round trip.
use post_dns.Base.{
  ℕ, zero, suc, ◌+◌, ◌≤◌, ◌<◌, ◌≡◌, refl, sym, ap, ◌∙◌, arith, List, [], ◌∷◌, ◌++◌, append_assoc,
  ltb, lt→ltb, if◌then◌else◌, length, take, drop, All, ok, ◌>>=◌, Returns, bind_ok, length-append,
}
use mathlib.Core.List.{map}
use mathlib.Core.Path.{ap₂}
use post_dns.Message.{Query, ResourceRecord, Message}
use post_dns.Message.Parse.{
  buf2message, buf2message_header, buf2message_question, buf2message_rr, question_entries,
  rr_entries, name_fuel,
}
use post_dns.Message.Build.{message2buf}
use post_dns.Message.Blocks.{network16}
use post_dns.Message.Header.{header_bytes, header_of, buf2message_header_lem}
use post_dns.Message.Labels.{wire_name, length-wire_name}
use post_dns.Message.Name.{question_name_lem, finish_name-dot}
use post_dns.Message.Record.{IsRecord, record_bytes}
use post_dns.Message.Rdata.{drop_part, read_short_lem}
use post_dns.Message.Reading.{as_read, rr_entry_lem}
use post_dns.Message.Written.{
  IsQuery, IsMessage, question_bytes, answer_bytes, message_bytes, length-question_bytes,
  length-header_bytes, message2buf_lem,
}

-- The parser of the question section.
question_entries_lem :
    (q : Query) (rest base : List ℕ)
    → IsQuery q
    → base ≡ question_bytes q ++ rest
    → question_entries 1 base 0 ≡ ok (length (question_bytes q), q ∷ [])
unfolding question_entries
question_entries_lem q rest base h e =
    let t₁ = network16 q.class ++ rest in
    let t₀ = network16 q.type ++ t₁ in
    let start : drop 0 base ≡ wire_name q.name ++ t₀ =
      e
      ∙ append_assoc (wire_name q.name ++ network16 q.type) (network16 q.class) rest
      ∙ append_assoc (wire_name q.name) (network16 q.type) (network16 q.class ++ rest) in
    let stop = 0 + length q.name + 1 in
    let name = question_name_lem base q.name t₀ 0 h.name start in
    let p₁ : 0 + length (wire_name q.name) ≡ stop + 1 = omega (arith, length-wire_name q.name) in
    let (type, d₂) =
      read_short_lem q.type t₁ (stop + 1) base h.type
        (rw p₁ at (drop_part (wire_name q.name) t₀ 0 base start)) in
    let p₂ : stop + 1 + 2 ≡ stop + 3 = omega arith in
    let (class, d₃) = read_short_lem q.class rest (stop + 3) base h.class (rw p₂ at d₂) in
    let end : stop + 5 ≡ length (question_bytes q) = omega (arith, length-question_bytes q) in
    bind_ok _ _ name (
      bind_ok _ _ (finish_name-dot q.name)
        (bind_ok _ _ type (bind_ok _ _ class (ap (λ (k : ℕ). ok (k, q ∷ [])) end))))

-- The parser of the answer section.
rr_entries_lem :
    (rs : List ResourceRecord) (fuel : ℕ) (rest : List ℕ) (pos : ℕ) (base : List ℕ)
    → All IsRecord rs
    → name_fuel ≤ fuel
    → drop pos base ≡ answer_bytes rs ++ rest
    → rr_entries fuel (length rs) base pos ≡ ok (map as_read rs)
unfolding rr_entries answer_bytes
rr_entries_lem [] fuel rest pos base h enough d = refl
rr_entries_lem (r ∷ rs) fuel rest pos base h enough d =
    let split = d ∙ append_assoc (record_bytes r) (answer_bytes rs) rest in
    let (stop, run, at_stop, d') =
      rr_entry_lem r fuel (answer_bytes rs ++ rest) pos base h.0 enough split in
    bind_ok _ _ run (bind_ok _ _ (rr_entries_lem rs fuel rest stop base h.1 enough d') refl)

-- The message as the receiver has it.
abbrev pub as_received : Message → Message
as_received m = record m { answers = map as_read m.answers; authorities = []; additional = [] }

-- The message after the question section has been parsed.
abbrev asked_of : Message → Query → Message
asked_of m q = record (header_of m) { queries = q ∷ [] }

read_answers :
    (m : Message) (q : Query) (fuel : ℕ) (pos : ℕ) (base : List ℕ)
    → (n : ℕ) (rs : List ResourceRecord) → n ≡ length rs
    → rr_entries fuel (length rs) base pos ≡ ok (map as_read rs)
    → (if ltb 0 n
        then (rr_entries fuel n base pos >>= λ records.
            ok (record (asked_of m q) { answers = records }))
        else ok (asked_of m q))
      ≡ ok (record (asked_of m q) { answers = map as_read rs })
read_answers m q fuel pos base zero [] e run = refl
read_answers m q fuel pos base zero (r ∷ rs) e run = absurd (omega arith)
read_answers m q fuel pos base (suc n) rs e run =
    rw (lt→ltb 0 (suc n) (omega arith))
      (bind_ok _ _ (ap (λ (k : ℕ). rr_entries fuel k base pos) e ∙ run) refl)

-- The parser, on the header and the question and whatever the section of answers is read from.
pub buf2message_sections :
    (m : Message) (q : Query) (fuel : ℕ) (base behind : List ℕ) (len : ℕ)
    → IsMessage m q
    → base ≡ header_bytes m ++ (question_bytes q ++ behind)
    → 12 < len
    → rr_entries fuel (length m.answers) base (12 + length (question_bytes q))
      ≡ ok (map as_read m.answers)
    → buf2message fuel base len ≡ ok (as_received m)
unfolding buf2message buf2message_question buf2message_rr
buf2message_sections m q fuel base behind len h whole long answered =
    let twelve : 0 + length (header_bytes m) ≡ 12 = omega (arith, length-header_bytes m) in
    let d₁ : drop 12 base ≡ question_bytes q ++ behind =
      rw twelve at (drop_part (header_bytes m) (question_bytes q ++ behind) 0 base whole) in
    let pos = 12 + length (question_bytes q) in
    let question : question_entries m.query_count (drop 12 base) 0
        ≡ ok (length (question_bytes q), q ∷ []) =
      ap (λ (k : ℕ). question_entries k (drop 12 base) 0) h.one
      ∙ question_entries_lem q behind (drop 12 base) h.query d₁ in
    let parsed : (if ltb 12 len
          then buf2message_question (drop 12 base) (header_of m) 12
          else ok (12, header_of m))
        ≡ ok (pos, asked_of m q) =
      rw (lt→ltb 12 len long) (bind_ok _ _ question refl) in
    bind_ok _ _
      (ap buf2message_header whole ∙ buf2message_header_lem m (question_bytes q ++ behind) h.header)
      (bind_ok _ _ parsed (
        read_answers m q fuel pos base m.answer_count m.answers h.counted answered
        ∙ ap (λ (qs : List Query). ok (record (as_received m) { queries = qs })) (sym h.asked)))

-- With 257 rounds of fuel or more, `buf2message` reads a well-formed message with one question back
-- from its bytes on the wire, whatever follows them in the block, without a fault.
pub buf2message_lem :
    (m : Message) (q : Query) (fuel : ℕ) (rest : List ℕ)
    → IsMessage m q
    → name_fuel ≤ fuel
    → buf2message fuel (message_bytes m q ++ rest) (length (message_bytes m q)) ≡ ok (as_received m)
buf2message_lem m q fuel rest h enough =
    let base = message_bytes m q ++ rest in
    let behind = answer_bytes m.answers ++ rest in
    let whole : base ≡ header_bytes m ++ (question_bytes q ++ behind) =
      append_assoc (header_bytes m ++ question_bytes q) (answer_bytes m.answers) rest
      ∙ append_assoc (header_bytes m) (question_bytes q) behind in
    let twelve : 0 + length (header_bytes m) ≡ 12 = omega (arith, length-header_bytes m) in
    let d₁ : drop 12 base ≡ question_bytes q ++ behind =
      rw twelve at (drop_part (header_bytes m) (question_bytes q ++ behind) 0 base whole) in
    let d₂ = drop_part (question_bytes q) behind 12 base d₁ in
    buf2message_sections m q fuel base behind (length (message_bytes m q)) h whole
      (omega (
        arith,
        length-header_bytes m,
        length-append (header_bytes m ++ question_bytes q) (answer_bytes m.answers),
        length-append (header_bytes m) (question_bytes q),
        length-question_bytes q,
      ))
      (rr_entries_lem m.answers fuel rest (12 + length (question_bytes q)) base h.answers enough d₂)

-- A message with one question, well-formed names and fields, Z cleared, and answers of the types A,
-- CNAME and AAAA survives the wire: when its bytes fit the block, `message2buf` returns and stays
-- inside its block, and with 257 rounds of fuel or more `buf2message` on a block that begins with
-- the bytes written returns the same message, but for the length field of a CNAME, which the writer
-- computes, and without the two sections that are not read.
pub message2buf-buf2message :
    (m : Message) (q : Query) (block : List ℕ) (fuel : ℕ)
    → IsMessage m q
    → m.flags.z ≡ 0
    → length (message_bytes m q) ≤ length block
    → name_fuel ≤ fuel
    → Returns (message2buf block m) λ r.
      (length r.1 ≡ length block)
      × ((junk : List ℕ) → buf2message fuel (take r.0 r.1 ++ junk) r.0 ≡ ok (as_received m))
message2buf-buf2message m q block fuel h cleared room enough =
    let (r, run, (n, sent, size)) = message2buf_lem m q block h cleared room in
    (
      r,
      run,
      (
        size,
        λ junk.
            ap₂ (λ (b : List ℕ) (k : ℕ). buf2message fuel (b ++ junk) k) sent n
            ∙ buf2message_lem m q fuel junk h enough,
      ),
    )
