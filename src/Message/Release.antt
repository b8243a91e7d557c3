-- ===== src/Message/Release.antt =====
-- message.c: `message_log`, which gives what it hands to `log_debug`, and `message_free`, as far as it
-- can fail. Neither changes a message that is used afterwards; each reads the arrays up to the counts,
-- and the data by the type.
use post_dns.Text.{Str, c_string, string_print}
use post_dns.Address.{inet4address2string, inet6address2string, copy_bytes}
use post_dns.Base.{
  [], ◌∷◌, ◌++◌, ℕ, zero, suc, ◌+◌, List, ◌==◌, if◌then◌else◌, Run, ok, fault, Fault, ◌>>=◌, ◌>>◌,
  at,
}
use post_dns.Message.{
  Query, ResponseData, address4, domain, address6, ResourceRecord, Message, type_a, type_cname,
  type_aaaa,
}

-- What the data has to be for the type by which it is read.
abbrev as_address4 : ResponseData → Run (Unit {0})
as_address4 (address4 a) = ok tt
as_address4 _ = fault Fault.indeterminate

abbrev as_domain : ResponseData → Run (Unit {0})
as_domain (domain s) = ok tt
as_domain _ = fault Fault.indeterminate

abbrev as_address6 : ResponseData → Run (Unit {0})
as_address6 (address6 a) = ok tt
as_address6 _ = fault Fault.indeterminate

unfoldable pub use_data : ResourceRecord → Run (Unit {0})
use_data r =
    if r.type == type_a
    then as_address4 r.response_data
    else if r.type == type_cname
    then as_domain r.response_data
    else if r.type == type_aaaa
    then as_address6 r.response_data
    else ok tt

-- `n` rounds from entry `i` on.
unfoldable pub use_queries : ℕ → ℕ → List Query → Run (Unit {0})
use_queries zero i queries = ok tt
use_queries (suc n) i queries = do q ← at queries i; use_queries n (i + 1) queries

unfoldable pub use_answers : ℕ → ℕ → List ResourceRecord → Run (Unit {0})
use_answers zero i answers = ok tt
use_answers (suc n) i answers = do r ← at answers i; use_data r; use_answers n (i + 1) answers

-- A call of `log_debug`: which of the texts it is, and its arguments as `%s` reads them. A and AAAA
-- records have the same text.
pub data LogLine : Type 0 where
  query_line : Str → LogLine
  address_line : Str → Str → LogLine
  domain_line : Str → Str → LogLine

-- `%s` of `string_print`.
abbrev pub printed : Str → Str
printed str = c_string (string_print str)

log_address4 : Str → ResponseData → Run (List LogLine)
log_address4 name (address4 a) =
    ok (address_line (printed name) (printed (inet4address2string a)) ∷ [])
log_address4 name _ = fault Fault.indeterminate

log_domain : Str → ResponseData → Run (List LogLine)
log_domain name (domain s) = ok (domain_line (printed name) (printed s) ∷ [])
log_domain name _ = fault Fault.indeterminate

-- Sixteen bytes are read.
log_address6 : Str → ResponseData → Run (List LogLine)
unfolding copy_bytes
log_address6 name (address6 bytes) = do
  a ← copy_bytes 16 0 bytes
  ok (address_line (printed name) (printed (inet6address2string a)) ∷ [])
log_address6 name _ = fault Fault.indeterminate

unfoldable pub log_answer : ResourceRecord → Run (List LogLine)
unfolding log_address4 log_domain log_address6
log_answer r =
    if r.type == type_a
    then log_address4 r.name r.response_data
    else if r.type == type_cname
    then log_domain r.name r.response_data
    else if r.type == type_aaaa
    then log_address6 r.name r.response_data
    else ok []

-- `n` rounds from entry `i` on.
unfoldable pub log_queries : ℕ → ℕ → List Query → Run (List LogLine)
log_queries zero i queries = ok []
log_queries (suc n) i queries = do
  q ← at queries i
  lines ← log_queries n (i + 1) queries
  ok (query_line (printed q.name) ∷ lines)

unfoldable pub log_answers : ℕ → ℕ → List ResourceRecord → Run (List LogLine)
unfolding log_answer
log_answers zero i answers = ok []
log_answers (suc n) i answers = do
  r ← at answers i
  line ← log_answer r
  lines ← log_answers n (i + 1) answers
  ok (line ++ lines)

unfoldable pub message_log : Message → Run (List LogLine)
unfolding log_queries log_answers
message_log message = do
  asked ← log_queries message.query_count 0 message.queries
  answered ← log_answers message.answer_count 0 message.answers
  ok (asked ++ answered)

-- The names and the data are freed once each; a record of a type that is not handled is skipped.
unfoldable pub message_free : Message → Run (Unit {0})
message_free message = do
  _ ← message_log message
  use_queries message.query_count 0 message.queries
  use_answers message.answer_count 0 message.answers
