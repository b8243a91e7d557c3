-- ===== src/Message/Parsed.antt =====
-- message.c: what the parser returns, for any bytes.
use post_dns.Base.{
  ℕ, zero, suc, ◌+◌, ◌<◌, ◌≡◌, ◌≢◌, refl, sym, ap, ◌∙◌, arith, List, [], ◌∷◌, false, ◌==◌, ==_iff,
  ltb, lt→ltb, length, drop, All, Bool-cases, inl, inr, ok, at, >>=-eq-ok, if◌then◌else◌,
}
use post_dns.Text.{Str}
use post_dns.HashTable.Values.{ok-eq}
use post_dns.Address.{string2inet4address, string2inet6address, copy_bytes}
use post_dns.Message.{
  Query, ResponseData, domain, unset, ResourceRecord, Message, RrType, type_a, type_cname,
  type_aaaa,
}
use post_dns.Message.Parse.{
  read_short, question_name, finish_name, name_fuel, question_entries, buf2message_question,
  create_name, finish_copied_name, create_rdata, close_rdata, response_data_of, rr_entry,
  rr_entries, buf2message_rr, buf2message_header, read_flags, buf2message,
}
use post_dns.Message.Bounds.{
  question_name-le, create_name-le, finish_name-lt, finish_copied_name-lt, close_rdata-lt,
}
use post_dns.Message.Release.{message_free}
use post_dns.Message.Readable.{Fits, IsReadable, message_free-IsReadable}

-- A name that is copied has fewer than 512 letters.
abbrev IsShort : ResponseData → Type 0
IsShort (domain s) = length s < 512
IsShort _ = Unit

-- What the parser makes of a record: data of the type, and short names.
abbrev pub IsEntry : ResourceRecord → Type 0
IsEntry r = Fits r.type r.response_data × (length r.name < 512) × IsShort r.response_data

pub record IsParsed (m : Message) : Type 0 where
  pub asked : m.query_count ≡ length m.queries
  pub counted : m.answer_count ≡ length m.answers
  pub names : All (λ q. length q.name < 512) m.queries
  pub entries : All IsEntry m.answers

entries-Fits :
    (rs : List ResourceRecord) → All IsEntry rs → All (λ r. Fits r.type r.response_data) rs
entries-Fits [] h = tt
entries-Fits (r ∷ rs) (h, hs) = (h.0, entries-Fits rs hs)

IsParsed-IsReadable : (m : Message) → IsParsed m → IsReadable m
IsParsed-IsReadable m h = record {
  asked = h.asked;
  counted = h.counted;
  fit = entries-Fits m.answers h.entries;
}

copy_bytes-length : (n i : ℕ) (s : Str) {bs : List ℕ} → copy_bytes n i s ≡ ok bs → length bs ≡ n
unfolding copy_bytes
copy_bytes-length zero i s h = rw (← ok-eq h) refl
copy_bytes-length (suc n) i s h =
    let (b, _, h₁) = >>=-eq-ok (at s i) _ h in
    let (rest, copied, h₂) = >>=-eq-ok (copy_bytes n (i + 1) s) _ h₁ in
    rw (← ok-eq h₂) (ap suc (copy_bytes-length n (i + 1) s copied))

not_equal : (a b : ℕ) → a == b ≡ false → a ≢ b
not_equal a b h e = ground arith

response_data_of-IsShort :
    (type : ℕ) (rdata : Str) (n : ℕ) {v : ResponseData}
    → response_data_of type rdata n ≡ ok v
    → Fits type v × IsShort v
unfolding response_data_of string2inet6address
response_data_of-IsShort type rdata n {v = v} h = elim (Bool-cases (type == type_a)) [
  | inl a ↦
      let (value, _, h₁) = >>=-eq-ok (close_rdata rdata n) _ (rw a at h) in
      let (address, _, h₂) = >>=-eq-ok (string2inet4address value) _ h₁ in
      rw (← ok-eq h₂) ((==_iff type type_a).0 a, tt)
  | inr a ↦ elim (Bool-cases (type == type_cname)) [
    | inl c ↦
        let (value, closed, h₁) = >>=-eq-ok (close_rdata rdata n) _ (rw (a, c) at h) in
        rw (← ok-eq h₁) ((==_iff type type_cname).0 c, close_rdata-lt rdata n closed)
    | inr c ↦ elim (Bool-cases (type == type_aaaa)) [
      | inl b ↦
          let (value, _, h₁) = >>=-eq-ok (close_rdata rdata n) _ (rw (a, c, b) at h) in
          let (address, copied, h₂) = >>=-eq-ok (string2inet6address value) _ h₁ in
          rw (← ok-eq h₂) (((==_iff type type_aaaa).0 b, copy_bytes-length 16 0 value copied), tt)
      | inr b ↦
          let same : unset ≡ v = ok-eq (rw (a, c, b) at h) in
          rw (← same)
            ((not_equal type type_a a, not_equal type type_cname c, not_equal type type_aaaa b), tt)
    ]
  ]
]

rr_entry-IsEntry :
    (fuel : ℕ) (buf : List ℕ) (pos : ℕ) {r : ℕ × ResourceRecord}
    → rr_entry fuel buf pos ≡ ok r
    → IsEntry r.1
unfolding rr_entry
rr_entry-IsEntry fuel buf pos h =
    let ((stop, written), named, h₁) = >>=-eq-ok (create_name fuel buf pos []) _ h in
    let (name, cut, h₂) = >>=-eq-ok (finish_copied_name written) _ h₁ in
    let (type, _, h₃) = >>=-eq-ok (read_short buf (stop + 1)) _ h₂ in
    let (class, _, h₄) = >>=-eq-ok (read_short buf (stop + 3)) _ h₃ in
    let (high, _, h₅) = >>=-eq-ok (read_short buf (stop + 5)) _ h₄ in
    let (low, _, h₆) = >>=-eq-ok (read_short buf (stop + 7)) _ h₅ in
    let (len, _, h₇) = >>=-eq-ok (read_short buf (stop + 9)) _ h₆ in
    let ((last, rdata, n), _, h₈) = >>=-eq-ok (create_rdata fuel buf (stop + 11) type len) _ h₇ in
    let (value, typed, h₉) = >>=-eq-ok (response_data_of type rdata n) _ h₈ in
    let room = create_name-le fuel buf pos [] (omega arith) named in
    let (fit, short) = response_data_of-IsShort type rdata n typed in
    rw (← ok-eq h₉) (fit, finish_copied_name-lt written room cut, short)

rr_entries-IsEntry :
    (fuel n : ℕ) (buf : List ℕ) (pos : ℕ) {rs : List ResourceRecord}
    → rr_entries fuel n buf pos ≡ ok rs
    → (n ≡ length rs) × All IsEntry rs
unfolding rr_entries
rr_entries-IsEntry fuel zero buf pos h = rw (← ok-eq h) (refl, tt)
rr_entries-IsEntry fuel (suc n) buf pos h =
    let ((pos', r), one, h₁) = >>=-eq-ok (rr_entry fuel buf pos) _ h in
    let (rest, more, h₂) = >>=-eq-ok (rr_entries fuel n buf pos') _ h₁ in
    let (size, entries) = rr_entries-IsEntry fuel n buf pos' more in
    rw (← ok-eq h₂) (ap suc size, (rr_entry-IsEntry fuel buf pos one, entries))

question_entries-short :
    (n : ℕ) (buf : List ℕ) (pos : ℕ) {r : ℕ × List Query}
    → question_entries n buf pos ≡ ok r
    → (n ≡ length r.1) × All (λ q. length q.name < 512) r.1
unfolding question_entries
question_entries-short zero buf pos h = rw (← ok-eq h) (refl, tt)
question_entries-short (suc n) buf pos h =
    let ((stop, written), named, h₁) = >>=-eq-ok (question_name name_fuel buf pos []) _ h in
    let (name, cut, h₂) = >>=-eq-ok (finish_name written) _ h₁ in
    let (type, _, h₃) = >>=-eq-ok (read_short buf (stop + 1)) _ h₂ in
    let (class, _, h₄) = >>=-eq-ok (read_short buf (stop + 3)) _ h₃ in
    let ((pos', queries), more, h₅) = >>=-eq-ok (question_entries n buf (stop + 5)) _ h₄ in
    let room = question_name-le name_fuel buf pos [] (omega arith) named in
    let (size, names) = question_entries-short n buf (stop + 5) more in
    rw (← ok-eq h₅) (ap suc size, (finish_name-lt written room cut, names))

buf2message_header-answers :
    (base : List ℕ) {m : Message} → buf2message_header base ≡ ok m → m.answers ≡ []
unfolding buf2message_header
buf2message_header-answers base h =
    let (id, _, h₁) = >>=-eq-ok (read_short base 0) _ h in
    let (first, _, h₂) = >>=-eq-ok (at base 2) _ h₁ in
    let (second, _, h₃) = >>=-eq-ok (at base 3) _ h₂ in
    let (flags, _, h₄) = >>=-eq-ok (read_flags first second) _ h₃ in
    let (query_count, _, h₅) = >>=-eq-ok (read_short base 4) _ h₄ in
    let (answer_count, _, h₆) = >>=-eq-ok (read_short base 6) _ h₅ in
    let (authority_count, _, h₇) = >>=-eq-ok (read_short base 8) _ h₆ in
    let (additional_count, _, h₈) = >>=-eq-ok (read_short base 10) _ h₇ in rw (← ok-eq h₈) refl

buf2message_question-short :
    (buf : List ℕ) (m : Message) (end_pos : ℕ) {r : ℕ × Message}
    → buf2message_question buf m end_pos ≡ ok r
    → (r.1.query_count ≡ length r.1.queries)
      × All (λ q. length q.name < 512) r.1.queries
      × (r.1.answers ≡ m.answers)
unfolding buf2message_question
buf2message_question-short buf m end_pos h =
    let ((pos, queries), entries, h₁) = >>=-eq-ok (question_entries m.query_count buf 0) _ h in
    let (size, names) = question_entries-short m.query_count buf 0 entries in
    rw (← ok-eq h₁) (size, names, refl)

no_more : (n : ℕ) → ltb 0 n ≡ false → n ≡ 0
no_more n h = ground arith

-- The section of answers, on a message without any.
answers_read :
    (fuel : ℕ) (base : List ℕ) (end_pos : ℕ) (asked : Message) {m : Message}
    → asked.query_count ≡ length asked.queries
    → All (λ q. length q.name < 512) asked.queries
    → asked.answers ≡ []
    → (if ltb 0 asked.answer_count
        then buf2message_rr fuel base asked end_pos RrType.answer
        else ok asked)
      ≡ ok m
    → IsParsed m
unfolding buf2message_rr
answers_read fuel base end_pos asked q names none_yet h =
    elim (Bool-cases (ltb 0 asked.answer_count)) [
      | inl z ↦
          let (records, run, h₁) =
            >>=-eq-ok (rr_entries fuel asked.answer_count base end_pos) _ (rw z at h) in
          let (size, entries) = rr_entries-IsEntry fuel asked.answer_count base end_pos run in
          rw (← ok-eq h₁) (record { asked = q; counted = size; names = names; entries = entries })
      | inr z ↦ rw (← ok-eq (rw z at h)) (record {
        asked = q;
        counted = no_more asked.answer_count z ∙ ap length (sym none_yet);
        names = names;
        entries = rw none_yet tt;
      })
    ]

-- Whatever the bytes: where more than 12 were received and `buf2message` returns a message, that
-- message has as many queries and answers as its counts say, every name in it, those of CNAME data
-- included, has fewer than 512 letters, the data of every record is what its type says (16 bytes for
-- an IPv6 address), and so `message_free`, with the log that it writes first, ends without a fault.
pub buf2message-message_free :
    (fuel : ℕ) (base : List ℕ) (n : ℕ) (m : Message)
    → 12 < n
    → buf2message fuel base n ≡ ok m
    → IsParsed m × (message_free m ≡ ok tt)
unfolding buf2message
buf2message-message_free fuel base n m long h =
    let (header, read, h₁) = >>=-eq-ok (buf2message_header base) _ h in
    let ((end_pos, asked), questions, h₂) =
      >>=-eq-ok (buf2message_question (drop 12 base) header 12) _ (rw (lt→ltb 12 n long) at h₁) in
    let (q, names, kept) = buf2message_question-short (drop 12 base) header 12 questions in
    let parsed =
      answers_read fuel base end_pos asked q names (kept ∙ buf2message_header-answers base read)
        h₂ in
    (parsed, message_free-IsReadable m (IsParsed-IsReadable m parsed))
