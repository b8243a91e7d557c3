-- ===== src/Examples/Messages.antt =====
-- Tests of the messages: writing, reading, and both.
use post_dns.Base.{
  All, ◌+◌, ◌-◌, ℕ, ◌≤◌, ◌<◌, ◌≡◌, refl, arith, List, [], ◌∷◌, ◌++◌, length, take, drop, replicate,
  ok, Returns,
}
use post_dns.Text.{string_split}
use post_dns.Message.Questions.{overlapped_bytes, advance, message2buf_question-overlapped_bytes}
use post_dns.Message.Parse.{buf2message, create_name}
use post_dns.Message.Build.{message2buf_question, message2buf, put_answer}
use mathlib.Core.List.{map}
use post_dns.Address.{inet4address2string}
use post_dns.Address.Dotted.{dotted_value, inet4address2string-dotted_value}
use post_dns.Message.Release.{message_log, message_free}
use post_dns.Message.Compressed.{Stands, root, label, pointer, create_name-Stands}
use post_dns.Message.Reading.{behind_name}
use post_dns.Message.Answers.{RecordsStand, no_record, record_at, buf2message-RecordsStand}
use post_dns.Message.Parsed.{IsParsed, buf2message-message_free}
use post_dns.Message.Log.{shown, message_log-shown}
use post_dns.Message.Other.{front_bytes, put_answer_other}
use post_dns.Message.Header.{header_bytes}
use post_dns.Message.Labels.{dotted, wire, wire_name}
use post_dns.Message.Record.{record_bytes}
use post_dns.Message.Written.{IsMessage, question_bytes, IsQuery, message_bytes, answer_bytes}
use post_dns.Message.RoundTrip.{as_received, buf2message_lem, message2buf-buf2message}
use post_dns.Message.Question.{
  Ends, buf2message_question-Ends, buf2message_root, create_name_circle,
}
use post_dns.Words.{char2_short}
use post_dns.Base.{fault, Fault, out_of_fuel}
use post_dns.Message.Parse.{buf2message_question}
use post_dns.Message.Blocks.{Filled}
use post_dns.Message.{Query, Message, ResourceRecord, unset}
use post_dns.Examples.{name_b, name_b-IsName, question-IsQuery}
use post_dns.Examples.{request, request-IsHeader}
use post_dns.Examples.{
  name_a, name_a-IsName, response, question_a, address_record, response-IsMessage,
}

abbrev pub block : List ℕ
block = replicate 64 0xcc

pub response_room : length (message_bytes response question_a) ≤ length block
unfolding header_bytes wire string_split answer_bytes record_bytes
response_room = omega arith

message2buf-buf2message_example : Returns (message2buf block response) λ r.
    (length r.1 ≡ length block)
    × ((junk : List ℕ) → buf2message 300 (take r.0 r.1 ++ junk) r.0 ≡ ok (as_received response))
message2buf-buf2message_example =
    message2buf-buf2message response question_a block 300 response-IsMessage refl response_room
      (omega arith)

-- A name in wire form behind one other byte.
abbrev base : List ℕ
base = 9 ∷ 1 ∷ b'a' ∷ 0 ∷ 7 ∷ []

base_name : drop 1 base ≡ wire_name name_a ++ 7 ∷ []
unfolding wire string_split
base_name = refl

record_room : length (record_bytes address_record) ≤ 63
unfolding wire string_split record_bytes
record_room = omega arith

buf2message_question-Ends_example : Ends (buf2message_question (3 ∷ b'a' ∷ []) request 12)
buf2message_question-Ends_example = buf2message_question-Ends (3 ∷ b'a' ∷ []) request 12

buf2message_root_example :
    buf2message 300 (header_bytes request ++ 0 ∷ 0 ∷ 1 ∷ 0 ∷ 1 ∷ []) 17 ≡ fault Fault.out_of_bounds
buf2message_root_example =
    buf2message_root request (0 ∷ 1 ∷ 0 ∷ 1 ∷ []) 300 17 request-IsHeader (omega arith)
      (omega arith)

-- A pointer to itself.
create_name_circle_example : create_name 1000 (0xc0 ∷ 0 ∷ []) 0 [] ≡ out_of_fuel
unfolding char2_short
create_name_circle_example = create_name_circle (0xc0 ∷ 0 ∷ []) 0 0xc0 0 [] refl refl refl refl 1000

-- Two questions.
abbrev question_b : Query
question_b = record { name = name_b; type = 28; class = 1 }

abbrev two_questions : Message
two_questions = record request { query_count = 2; queries = question_a ∷ question_b ∷ [] }

two-IsQuery : All IsQuery (question_a ∷ question_b ∷ [])
two-IsQuery = (
  question-IsQuery,
  (record { name = name_b-IsName; type = omega arith; class = omega arith }, tt),
)

questions_room : length (overlapped_bytes (question_a ∷ question_b ∷ [])) ≤ 64
unfolding overlapped_bytes wire string_split
questions_room = omega arith

message2buf_question-overlapped_bytes_example :
    Returns (message2buf_question block two_questions 0) λ r.
      (r.0 ≡ 0 + advance 0 (question_a ∷ question_b ∷ []))
      × Filled
          (overlapped_bytes (question_a ∷ question_b ∷ []))
          (64 - length (overlapped_bytes (question_a ∷ question_b ∷ [])))
          r.1
message2buf_question-overlapped_bytes_example =
    message2buf_question-overlapped_bytes two_questions question_a (question_b ∷ []) [] block 64
      refl refl two-IsQuery (block, refl, refl) questions_room

-- A record of type MX.
abbrev mail_record : ResourceRecord
mail_record = record {
  name = name_a;
  type = 15;
  class = 1;
  ttl = 60;
  response_data_length = 0;
  response_data = unset;
}

mail_room : length (front_bytes mail_record) ≤ 64
unfolding wire string_split
mail_room = omega arith

put_answer_other_example : Returns (put_answer block 0 mail_record) λ p.
    (p.0 + 2 ≡ 0 + length (front_bytes mail_record))
    × Filled ([] ++ front_bytes mail_record) (64 - length (front_bytes mail_record)) p.1
put_answer_other_example =
    put_answer_other mail_record name_a-IsName (λ e. omega (arith, e)) (λ e. omega (arith, e))
      (λ e. omega (arith, e)) [] 64 block 0 (block, refl, refl) refl mail_room

message_log-shown_example : Returns (message_log response) λ lines.
    map shown lines ≡ (name_a, unset) ∷ map (λ r. (r.name, r.response_data)) response.answers
message_log-shown_example = message_log-shown response question_a response-IsMessage (tt, (tt, tt))

inet4address2string-dotted_value_example :
    (dotted_value (0, 0) (inet4address2string 0xc0a8_0001) ≡ 0xc0a8_0001)
    × (length (inet4address2string 0xc0a8_0001) ≤ 15)
inet4address2string-dotted_value_example =
    inet4address2string-dotted_value 0xc0a8_0001 (omega arith)

response_is_long : 12 < length (message_bytes response question_a)
unfolding header_bytes wire string_split answer_bytes record_bytes
response_is_long = omega arith

buf2message-message_free_example :
    IsParsed (as_received response) × (message_free (as_received response) ≡ ok tt)
buf2message-message_free_example =
    buf2message-message_free 257 (message_bytes response question_a ++ 1 ∷ 2 ∷ [])
      (length (message_bytes response question_a)) (as_received response) response_is_long
      (buf2message_lem response question_a 257 (1 ∷ 2 ∷ []) response-IsMessage (omega arith))

-- `a`, and behind it `b.a`, as a label and a pointer.
abbrev compressed : List ℕ
compressed = 1 ∷ b'a' ∷ 0 ∷ 1 ∷ b'b' ∷ 0xc0 ∷ 0 ∷ []

compressed-Stands : Stands compressed 3 ((b'b' ∷ []) ∷ (b'a' ∷ []) ∷ []) 4 6
compressed-Stands =
    label 3 (b'b' ∷ []) ((b'a' ∷ []) ∷ []) 3 6 (0xc0 ∷ 0 ∷ [])
      (omega arith, omega arith, ((λ e. omega (arith, e)), tt)) refl
      (pointer 5 0 ((b'a' ∷ []) ∷ []) 2 2 [] (omega arith) refl (
        label 0 (b'a' ∷ []) [] 1 2 (0 ∷ 1 ∷ b'b' ∷ 0xc0 ∷ 0 ∷ [])
          (omega arith, omega arith, ((λ e. omega (arith, e)), tt)) refl
          (root 2 (1 ∷ b'b' ∷ 0xc0 ∷ 0 ∷ []) refl)))

few_letters : length {A = ℕ} [] + length (dotted ((b'b' ∷ []) ∷ (b'a' ∷ []) ∷ [])) ≤ 512
unfolding dotted
few_letters = omega arith

create_name-Stands_example :
    create_name 257 compressed 3 [] ≡ ok (6, [] ++ dotted ((b'b' ∷ []) ∷ (b'a' ∷ []) ∷ []))
create_name-Stands_example =
    create_name-Stands compressed 257 3 ((b'b' ∷ []) ∷ (b'a' ∷ []) ∷ []) 4 6 [] compressed-Stands
      few_letters (omega arith)

-- A reply to `request`, on the wire with a pointer to the name of the question.
abbrev reply_record : ResourceRecord
reply_record = record address_record { name = name_a }

abbrev reply : Message
reply = record request { answer_count = 1; answers = reply_record ∷ [] }

abbrev behind_question : List ℕ
behind_question = 0xc0 ∷ 12 ∷ behind_name reply_record []

abbrev pointed : List ℕ
pointed = header_bytes reply ++ (question_bytes question_a ++ behind_question)

reply-IsMessage : IsMessage reply question_a
reply-IsMessage = record {
  header = record {
    flags = request-IsHeader.flags;
    id = request-IsHeader.id;
    query_count = request-IsHeader.query_count;
    answer_count = omega arith;
    authority_count = request-IsHeader.authority_count;
    additional_count = request-IsHeader.additional_count;
  };
  one = refl;
  asked = refl;
  query = question-IsQuery;
  answers = (
    record {
      name = name_a-IsName;
      class = omega arith;
      ttl = omega arith;
      value = (refl, omega arith);
      len = refl;
    },
    tt,
  );
  counted = refl;
}

pointed-RecordsStand :
    RecordsStand 257 pointed (12 + length (question_bytes question_a)) reply.answers
unfolding header_bytes wire string_split
pointed-RecordsStand =
    record_at 19 3 20 reply_record [] [] (reply-IsMessage.answers.0)
      (pointer 19 12 (name_a ∷ []) 2 14 (behind_name reply_record []) (omega arith) refl (
        label 12 name_a [] 1 14 (drop 14 pointed)
          (omega arith, omega arith, ((λ e. omega (arith, e)), tt)) refl
          (root 14 (drop 15 pointed) refl)))
      (omega arith) refl (no_record 35)

buf2message-RecordsStand_example : buf2message 257 pointed 35 ≡ ok (as_received reply)
buf2message-RecordsStand_example =
    buf2message-RecordsStand reply question_a 257 pointed behind_question 35 reply-IsMessage
      (omega arith) refl (omega arith) pointed-RecordsStand
