-- ===== src/Message/Parse.antt =====
-- message.c, the parser: `buf2message` and what it calls.
-- `base` holds the bytes of the received block, each below 256; a read behind it is a fault. The
-- arrays of 512 characters into which a name or the data is copied are written in order, so such an
-- array and its fill are the list of what was written; a write behind its end is a fault.
use post_dns.Base.{
  ℕ, zero, suc, ◌+◌, ◌-◌, ◌*◌, bit_and, bit_or, List, [], ◌∷◌, ◌++◌, true, false, ◌==◌, ltb,
  if◌then◌else◌, length, take, drop, init, Run, ok, fault, Fault, out_of_fuel, ◌>>=◌, at,
}
use post_dns.Base.Bits.{shl, shr}
use post_dns.Text.{Str, c_string, string_equal}
use post_dns.Words.{char2_short}
use post_dns.Address.{string2inet4address, string2inet6address}
use post_dns.Message.{
  Flags, Query, ResponseData, address4, domain, address6, unset, ResourceRecord, Message, RrType,
  type_a, type_cname, type_aaaa,
}
use mathlib.Core.Option.{some}

-- `bit[7 - j] = (ch >> j) & 1` for j from `j` on, `n` times.
unfoldable pub char2bit_loop : ℕ → ℕ → ℕ → List ℕ → List ℕ
char2bit_loop zero j ch bits = bits
char2bit_loop (suc n) j ch bits = char2bit_loop n (j + 1) ch (bit_and (shr ch j) 1 ∷ bits)

unfoldable pub char2bit : ℕ → List ℕ
char2bit ch = char2bit_loop 8 0 ch []

unfoldable pub read_short : List ℕ → ℕ → Run ℕ
read_short base pos = do high ← at base pos; low ← at base (pos + 1); ok (char2_short high low)

-- The flags from the sixteen bits.
unfoldable pub flags_of_bits : List ℕ → List ℕ → Run Flags
flags_of_bits a b = do
  qr ← at a 0
  o₁ ← at a 1
  o₂ ← at a 2
  o₃ ← at a 3
  o₄ ← at a 4
  aa ← at a 5
  tc ← at a 6
  rd ← at a 7
  ra ← at b 0
  z₁ ← at b 1
  z₂ ← at b 2
  z₃ ← at b 3
  r₁ ← at b 4
  r₂ ← at b 5
  r₃ ← at b 6
  r₄ ← at b 7
  ok (record {
    qr = qr;
    opcode = o₁ * 8 + o₂ * 4 + o₃ * 2 + o₄;
    aa = aa;
    tc = tc;
    rd = rd;
    ra = ra;
    z = z₁ * 4 + z₂ * 2 + z₃;
    rcode = r₁ * 8 + r₂ * 4 + r₃ * 2 + r₄;
  })

-- The two flag bytes.
unfoldable pub read_flags : ℕ → ℕ → Run Flags
read_flags first second = flags_of_bits (char2bit first) (char2bit second)

unfoldable pub buf2message_header : List ℕ → Run Message
buf2message_header base = do
  id ← read_short base 0
  first ← at base 2
  second ← at base 3
  flags ← read_flags first second
  query_count ← read_short base 4
  answer_count ← read_short base 6
  authority_count ← read_short base 8
  additional_count ← read_short base 10
  ok (record {
    id = id;
    flags = flags;
    query_count = query_count;
    answer_count = answer_count;
    authority_count = authority_count;
    additional_count = additional_count;
    queries = [];
    answers = [];
    authorities = [];
    additional = [];
  })

-- One write into an array of 512 characters.
unfoldable pub write_char : Str → ℕ → Run Str
write_char written c =
    if ltb (length written) 512 then ok (written ++ c ∷ []) else fault Fault.out_of_bounds

-- The loop that copies the letters of one label.
unfoldable pub read_letters : List ℕ → ℕ → ℕ → Str → Run (ℕ × Str)
read_letters base zero pos written = ok (pos, written)
read_letters base (suc n) pos written = do
  c ← at base pos
  written' ← write_char written c
  read_letters base n (pos + 1) written'

-- The `while` loop over the labels of a QNAME. Every round writes two characters at least, so the
-- array is full after 256.
unfoldable pub question_name : ℕ → List ℕ → ℕ → Str → Run (ℕ × Str)
question_name zero base pos written = out_of_fuel
question_name (suc fuel) base pos written = do
  letter_length ← at base pos
  elim (letter_length == 0) [
    | true ↦ ok (pos, written)
    | false ↦ do
      (pos', letters) ← read_letters base letter_length (pos + 1) written
      dotted ← write_char letters b'.'
      question_name fuel base pos' dotted
  ]

-- `QValue[QValuePos - 1] = '\0'` and the copy of all before it. With no label it is QValue[-1].
unfoldable pub finish_name : Str → Run Str
finish_name [] = fault Fault.out_of_bounds
finish_name (c ∷ written) = ok (init (c ∷ written))

abbrev pub name_fuel : ℕ
name_fuel = 257

unfoldable pub question_entries : ℕ → List ℕ → ℕ → Run (ℕ × List Query)
question_entries zero buf pos = ok (pos, [])
question_entries (suc n) buf pos = do
  (stop, written) ← question_name name_fuel buf pos []
  name ← finish_name written
  type ← read_short buf (stop + 1)
  class ← read_short buf (stop + 3)
  (pos', queries) ← question_entries n buf (stop + 5)
  ok (pos', record { name = name; type = type; class = class } ∷ queries)

-- `buf` begins at the question section. The result has the new `*endPos`.
unfoldable pub buf2message_question : List ℕ → Message → ℕ → Run (ℕ × Message)
buf2message_question buf message end_pos = do
  (pos, queries) ← question_entries message.query_count buf 0
  ok (end_pos + pos, record message { queries = queries })

-- `createName`, with its loop and its call of itself in one recursion. It returns the position of
-- the last byte of the name. Pointers may lead in a circle, hence the fuel.
unfoldable pub create_name : ℕ → List ℕ → ℕ → Str → Run (ℕ × Str)
create_name zero buf pos name = out_of_fuel
create_name (suc fuel) buf pos name = do
  letter_length ← at buf pos
  elim (letter_length == 0) [
    | true ↦ ok (pos, name)
    | false ↦ elim (bit_and letter_length 0xc0 == 0xc0) [
      | true ↦ do
        low ← at buf (pos + 1)
        (_, name') ← create_name fuel buf (char2_short (bit_and letter_length 0x3f) low) name
        ok (pos + 1, name')
      | false ↦ do
        (pos', letters) ← read_letters buf letter_length (pos + 1) name
        dotted ← write_char letters b'.'
        create_name fuel buf pos' dotted
    ]
  ]

-- `strcpy` stops at a NUL inside the name, and the bytes behind it are copied all the same.
unfoldable pub finish_copied_name : Str → Run Str
finish_copied_name written = do
  name ← finish_name written
  if string_equal (some (c_string name)) (some name) then ok name else fault Fault.indeterminate

-- The last position that was read, the characters that were written, and `*RDataPos`.
unfoldable pub create_rdata_address : List ℕ → ℕ → ℕ → Run (ℕ × Str × ℕ)
create_rdata_address buf pos zero = ok (pos - 1, [], 0)
create_rdata_address buf pos (suc n) = do
  (pos', rdata) ← read_letters buf (suc n) pos []
  ok (pos' - 1, rdata, suc n + 1)

unfoldable pub create_rdata : ℕ → List ℕ → ℕ → ℕ → ℕ → Run (ℕ × Str × ℕ)
create_rdata fuel buf pos type len =
    if type == type_a
    then create_rdata_address buf pos len
    else if type == type_cname
    then (do (stop, rdata) ← create_name fuel buf pos []; ok (stop, rdata, length rdata))
    else if type == type_aaaa
    then create_rdata_address buf pos len
    else ok (pos + len - 1, [], 0)

-- `RData[RDataPos - 1] = '\0'`, and the characters before it.
unfoldable pub close_rdata : Str → ℕ → Run Str
close_rdata rdata zero = fault Fault.out_of_bounds
close_rdata rdata (suc n) = if ltb n 512 then ok (take n rdata) else fault Fault.out_of_bounds

-- The switch at the end of a record.
unfoldable pub response_data_of : ℕ → Str → ℕ → Run ResponseData
response_data_of type rdata rdata_pos =
    if type == type_a
    then (do
      value ← close_rdata rdata rdata_pos
      address ← string2inet4address value
      ok (address4 address))
    else if type == type_cname
    then (do value ← close_rdata rdata rdata_pos; ok (domain value))
    else if type == type_aaaa
    then (do
      value ← close_rdata rdata rdata_pos
      address ← string2inet6address value
      ok (address6 address))
    else ok unset

-- One round of the loop of `buf2messageRR`.
unfoldable pub rr_entry : ℕ → List ℕ → ℕ → Run (ℕ × ResourceRecord)
rr_entry fuel buf pos = do
  (stop, written) ← create_name fuel buf pos []
  name ← finish_copied_name written
  type ← read_short buf (stop + 1)
  class ← read_short buf (stop + 3)
  high ← read_short buf (stop + 5)
  low ← read_short buf (stop + 7)
  len ← read_short buf (stop + 9)
  (last, rdata, rdata_pos) ← create_rdata fuel buf (stop + 11) type len
  value ← response_data_of type rdata rdata_pos
  ok (
    last + 1,
    record {
      name = name;
      type = type;
      class = class;
      ttl = bit_or (shl 32 high 16) (bit_and low 0xffff);
      response_data_length = len;
      response_data = value;
    },
  )

unfoldable pub rr_entries : ℕ → ℕ → List ℕ → ℕ → Run (List ResourceRecord)
rr_entries fuel zero buf pos = ok []
rr_entries fuel (suc n) buf pos = do
  (pos', rr) ← rr_entry fuel buf pos
  rest ← rr_entries fuel n buf pos'
  ok (rr ∷ rest)

unfoldable pub buf2message_rr : ℕ → List ℕ → Message → ℕ → RrType → Run Message
buf2message_rr fuel buf message end_pos RrType.answer = do
  records ← rr_entries fuel message.answer_count buf end_pos
  ok (record message { answers = records })
buf2message_rr fuel buf message end_pos RrType.authority = do
  records ← rr_entries fuel message.authority_count buf end_pos
  ok (record message { authorities = records })
buf2message_rr fuel buf message end_pos RrType.additional_rr = do
  records ← rr_entries fuel message.additional_count buf end_pos
  ok (record message { additional = records })
buf2message_rr fuel buf message end_pos RrType.header = ok message
buf2message_rr fuel buf message end_pos RrType.question = ok message

-- `base` is the block, of which `len` bytes were received.
unfoldable pub buf2message : ℕ → List ℕ → ℕ → Run Message
buf2message fuel base len = do
  message ← buf2message_header base
  (end_pos, asked) ←
      if ltb 12 len then buf2message_question (drop 12 base) message 12 else ok (12, message)
  if ltb 0 asked.answer_count
      then buf2message_rr fuel base asked end_pos RrType.answer
      else ok asked
