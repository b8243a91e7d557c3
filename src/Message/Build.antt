-- ===== src/Message/Build.antt =====
-- message.c, the writer: `message2buf` and what it calls, and `message2feature_string`.
-- `buf` is the block of 1500 bytes with what `malloc` left in it; positions count from its start.
use post_dns.Base.{
  ℕ, zero, suc, ◌+◌, ◌*◌, ◌/◌, ◌%◌, ◌^◌, bit_or, List, [], ◌∷◌, ◌++◌, true, false, ◌||◌, ◌==◌, ltb,
  if◌then◌else◌, length, take, set, Run, ok, fault, Fault, ◌>>=◌, at,
}
use mathlib.Core.List.{reverse}
use mathlib.Core.Option.{some}
use post_dns.Text.{Str, c_string, string_equal, string_split}
use post_dns.Words.{swap16, swap32, bytes16, bytes32}
use post_dns.Message.{
  Flags, Query, ResponseData, address4, domain, address6, ResourceRecord, Message, type_a,
  type_cname, type_aaaa,
}

-- `memcpy(&buf[pos], bytes, …)`
unfoldable pub write_bytes : List ℕ → ℕ → List ℕ → Run (List ℕ)
write_bytes buf pos [] = ok buf
write_bytes buf pos (b ∷ bs) = elim (ltb pos (length buf)) [
  | true ↦ write_bytes (set buf pos b) (pos + 1) bs
  | false ↦ fault Fault.out_of_bounds
]

-- `swap16(&buf[pos])`
unfoldable pub swap16_at : List ℕ → ℕ → Run (List ℕ)
swap16_at buf pos = do
  a ← at buf pos
  b ← at buf (pos + 1)
  write_bytes buf pos (bytes16 (swap16 (a + b * 2 ^ 8)))

unfoldable pub swap32_at : List ℕ → ℕ → Run (List ℕ)
swap32_at buf pos = do
  a ← at buf pos
  b ← at buf (pos + 1)
  c ← at buf (pos + 2)
  d ← at buf (pos + 3)
  write_bytes buf pos (bytes32 (swap32 (a + b * 2 ^ 8 + c * 2 ^ 16 + d * 2 ^ 24)))

-- The two statements by which every number is written: a copy of the word, and a swap in place.
unfoldable pub put_short : List ℕ → ℕ → ℕ → Run (List ℕ)
put_short buf pos x = do buf' ← write_bytes buf pos (bytes16 x); swap16_at buf' pos

unfoldable pub put_int : List ℕ → ℕ → ℕ → Run (List ℕ)
put_int buf pos x = do buf' ← write_bytes buf pos (bytes32 x); swap32_at buf' pos

-- The digits from the lowest, into an array of `room` zeros.
unfoldable pub dec2bin_digits : ℕ → ℕ → Run (List ℕ)
dec2bin_digits zero dec = if dec == 0 then ok [] else fault Fault.out_of_bounds
dec2bin_digits (suc room) dec = do rest ← dec2bin_digits room (dec / 2); ok (dec % 2 ∷ rest)

unfoldable pub dec2bin : ℕ → ℕ → Run (List ℕ)
dec2bin dec len = do bin ← dec2bin_digits len dec; ok (reverse bin)

-- `flags |= bits[7 - i] << i` for i from `i` on; the list begins with the last bit.
unfoldable pub or_bits : ℕ → ℕ → List ℕ → ℕ
or_bits i flags [] = flags
or_bits i flags (b ∷ bits) = or_bits (i + 1) (bit_or flags (b * 2 ^ i) % 256) bits

unfoldable pub flag_bytes : Flags → Run (List ℕ)
flag_bytes f = do
  opcode ← dec2bin f.opcode 4
  rcode ← dec2bin f.rcode 4
  let bits_a = f.qr ∷ opcode ++ f.aa ∷ f.tc ∷ f.rd ∷ []
  let bits_b = f.ra ∷ f.z ∷ f.z ∷ f.z ∷ rcode
  ok (or_bits 0 0 (reverse bits_a) ∷ or_bits 0 0 (reverse bits_b) ∷ [])

-- Returns the new `*endPos` with the block.
unfoldable pub message2buf_header : List ℕ → Message → Run (ℕ × List ℕ)
message2buf_header buf₀ message = do
  buf₁ ← put_short buf₀ 0 message.id
  flags ← flag_bytes message.flags
  buf₂ ← write_bytes buf₁ 2 flags
  buf₃ ← put_short buf₂ 4 message.query_count
  buf₄ ← put_short buf₃ 6 message.answer_count
  buf₅ ← put_short buf₄ 8 message.authority_count
  buf₆ ← put_short buf₅ 10 message.additional_count
  ok (12, buf₆)

-- `sprintf(current, "%c%s", …)` for every token: a byte for the length, and the token up to a NUL.
-- A token with a NUL inside leaves bytes of the block as they were.
unfoldable pub label_bytes : List Str → Run (List ℕ)
label_bytes [] = ok []
label_bytes (token ∷ tokens) = do
  rest ← label_bytes tokens
  if string_equal (some (c_string token)) (some token)
      then ok (length token % 256 ∷ token ++ rest)
      else fault Fault.indeterminate

-- For the empty name the block has two bytes, and the last NUL is written behind it.
unfoldable pub name2message : Str → Run (List ℕ)
name2message domain_name = do
  labels ← label_bytes (string_split domain_name b'.')
  if length domain_name == 0 then fault Fault.out_of_bounds else ok (labels ++ 0 ∷ 0 ∷ [])

-- The name in wire form, of which `length + 2` bytes are copied.
unfoldable pub put_name : List ℕ → ℕ → Str → Run (List ℕ)
put_name buf pos name = do
  transfer ← name2message name
  write_bytes buf pos (take (length name + 2) transfer)

-- The loop of `message2bufQuestion`: `start` is where the section begins, `buf_pos` counts from
-- there. After a round `buf_pos` stands at the class, and `*endPos` has grown by `buf_pos + 2`.
unfoldable pub question_rounds : List Query → List ℕ → ℕ → ℕ → ℕ → ℕ → Run (ℕ × List ℕ)
question_rounds queries buf start buf_pos end_pos zero = ok (end_pos, buf)
question_rounds [] buf start buf_pos end_pos (suc n) = fault Fault.out_of_bounds
question_rounds (q ∷ queries) buf₀ start buf_pos end_pos (suc n) = do
  buf₁ ← put_name buf₀ (start + buf_pos) q.name
  let type_pos = buf_pos + length q.name + 2
  buf₂ ← put_short buf₁ (start + type_pos) q.type
  let class_pos = type_pos + 2
  buf₃ ← put_short buf₂ (start + class_pos) q.class
  question_rounds queries buf₃ start class_pos (end_pos + class_pos + 2) n

unfoldable pub message2buf_question : List ℕ → Message → ℕ → Run (ℕ × List ℕ)
message2buf_question buf message end_pos =
    question_rounds message.queries buf end_pos 0 end_pos message.query_count

-- RDLENGTH, with `pos` at the TTL; returns the position after the first switch on the type.
unfoldable pub put_rdlength : List ℕ → ℕ → ℕ → ℕ → ResponseData → Run (ℕ × List ℕ)
put_rdlength buf pos type data_length value =
    if type == type_a || type == type_aaaa
    then (do buf' ← put_short buf (pos + 4) data_length; ok (pos + 4, buf'))
    else if type == type_cname
    then elim value [
      | domain s ↦ do buf' ← put_short buf (pos + 4) ((length s + 2) % 2 ^ 16); ok (pos + 4, buf')
      | _ ↦ fault Fault.indeterminate
    ]
    else ok (pos, buf)

-- RDATA; returns the position behind it.
unfoldable pub put_rdata : List ℕ → ℕ → ℕ → ℕ → ResponseData → Run (ℕ × List ℕ)
put_rdata buf pos type data_length value =
    if type == type_a
    then elim value [
      | address4 a ↦ do buf' ← put_int buf pos a; ok (pos + data_length, buf')
      | _ ↦ fault Fault.indeterminate
    ]
    else if type == type_cname
    then elim value [
      | domain s ↦ do buf' ← put_name buf pos s; ok (pos + length s + 2, buf')
      | _ ↦ fault Fault.indeterminate
    ]
    else if type == type_aaaa
    then elim value [
      | address6 a ↦ do buf' ← write_bytes buf pos (take 16 a); ok (pos + data_length, buf')
      | _ ↦ fault Fault.indeterminate
    ]
    else ok (pos, buf)

-- One round of the loop of `message2bufAnswer`.
unfoldable pub put_answer : List ℕ → ℕ → ResourceRecord → Run (ℕ × List ℕ)
put_answer buf₀ pos r = do
  buf₁ ← put_name buf₀ pos r.name
  let type_pos = pos + length r.name + 2
  buf₂ ← put_short buf₁ type_pos r.type
  buf₃ ← put_short buf₂ (type_pos + 2) r.class
  buf₄ ← put_int buf₃ (type_pos + 4) r.ttl
  (length_pos, buf₅) ←
      put_rdlength buf₄ (type_pos + 4) r.type r.response_data_length r.response_data
  put_rdata buf₅ (length_pos + 2) r.type r.response_data_length r.response_data

unfoldable pub answer_rounds : List ResourceRecord → List ℕ → ℕ → ℕ → Run (ℕ × List ℕ)
answer_rounds answers buf pos zero = ok (pos, buf)
answer_rounds [] buf pos (suc n) = fault Fault.out_of_bounds
answer_rounds (r ∷ answers) buf pos (suc n) = do
  (pos', buf') ← put_answer buf pos r
  answer_rounds answers buf' pos' n

unfoldable pub message2buf_answer : List ℕ → Message → ℕ → Run (ℕ × List ℕ)
message2buf_answer buf message end_pos =
    answer_rounds message.answers buf end_pos message.answer_count

-- `buf->len` and the block.
unfoldable pub message2buf : List ℕ → Message → Run (ℕ × List ℕ)
message2buf block message = do
  (end₁, buf₁) ← message2buf_header block message
  (end₂, buf₂) ← message2buf_question buf₁ message end₁
  if ltb 0 message.answer_count then message2buf_answer buf₂ message end₂ else ok (end₂, buf₂)

-- The queries of `message2feature_string`, `n` of them: name, class and type, as they stand in memory.
unfoldable pub feature_queries : ℕ → List Query → Run Str
feature_queries zero queries = ok []
feature_queries (suc n) [] = fault Fault.out_of_bounds
feature_queries (suc n) (q ∷ queries) = do
  rest ← feature_queries n queries
  ok (q.name ++ bytes16 q.class ++ bytes16 q.type ++ rest)

unfoldable pub message2feature_string : Message → Run Str
message2feature_string message = do
  queries ← feature_queries message.query_count message.queries
  ok (queries ++ bytes16 message.id)
