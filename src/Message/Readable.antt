-- ===== src/Message/Readable.antt =====
-- message.c: the messages that `message_log` and `message_free` read without a fault, and what the
-- first prints of them.
use post_dns.Base.{
  ℕ, suc, ◌≡◌, ◌≢◌, refl, ap, ◌∙◌, arith, List, [], ◌∷◌, ◌++◌, length, drop, All, ok, from_option,
  Fault, bind_ok, get_elem?-drop, drop_next, ==-eq-false,
}
use mathlib.Core.List.{map}
use post_dns.Text.{Str}
use post_dns.Address.{inet4address2string, inet6address2string, string2inet6address}
use post_dns.Message.{
  Query, ResponseData, address4, domain, address6, unset, ResourceRecord, Message, type_a,
  type_cname, type_aaaa,
}
use post_dns.Message.Release.{
  LogLine, query_line, address_line, domain_line, printed, log_answer, log_queries, log_answers,
  message_log, use_data, use_queries, use_answers, message_free,
}
use post_dns.Message.Rdata.{string2inet6address_lem}

-- The data is what its type says.
abbrev pub Fits : ℕ → ResponseData → Type 0
Fits type (address4 a) = type ≡ type_a
Fits type (domain s) = type ≡ type_cname
Fits type (address6 bs) = (type ≡ type_aaaa) × (length bs ≡ 16)
Fits type unset = (type ≢ type_a) × (type ≢ type_cname) × (type ≢ type_aaaa)

-- The arrays are as long as the counts say, and the data is what the types say.
pub record IsReadable (m : Message) : Type 0 where
  pub asked : m.query_count ≡ length m.queries
  pub counted : m.answer_count ≡ length m.answers
  pub fit : All (λ r. Fits r.type r.response_data) m.answers

abbrev pub value_line : Str → ResponseData → List LogLine
value_line name (address4 a) = address_line (printed name) (printed (inet4address2string a)) ∷ []
value_line name (domain s) = domain_line (printed name) (printed s) ∷ []
value_line name (address6 bs) = address_line (printed name) (printed (inet6address2string bs)) ∷ []
value_line name unset = []

unfoldable pub answer_lines : List ResourceRecord → List LogLine
answer_lines [] = []
answer_lines (r ∷ rs) = value_line r.name r.response_data ++ answer_lines rs

log_answer-Fits :
    (value : ResponseData) (r : ResourceRecord)
    → r.response_data ≡ value
    → Fits r.type value
    → log_answer r ≡ ok (value_line r.name value)
unfolding log_answer string2inet6address
log_answer-Fits (address4 a) r e h = rw (h, e) refl
log_answer-Fits (domain s) r e h = rw (h, e) refl
log_answer-Fits (address6 bs) r e h =
    rw (h.0, e) (bind_ok _ _ (string2inet6address_lem bs h.1) refl)
log_answer-Fits unset r e (no4, no_alias, no6) =
    rw
      (
        ==-eq-false r.type type_a no4,
        ==-eq-false r.type type_cname no_alias,
        ==-eq-false r.type type_aaaa no6,
      )
      refl

use_data-Fits :
    (value : ResponseData) (r : ResourceRecord)
    → r.response_data ≡ value
    → Fits r.type value
    → use_data r ≡ ok tt
unfolding use_data
use_data-Fits (address4 a) r e h = rw (h, e) refl
use_data-Fits (domain s) r e h = rw (h, e) refl
use_data-Fits (address6 bs) r e h = rw (h.0, e) refl
use_data-Fits unset r e (no4, no_alias, no6) =
    rw
      (
        ==-eq-false r.type type_a no4,
        ==-eq-false r.type type_cname no_alias,
        ==-eq-false r.type type_aaaa no6,
      )
      refl

log_answers_lem :
    (rs : List ResourceRecord) (i : ℕ) (base : List ResourceRecord)
    → All (λ r. Fits r.type r.response_data) rs
    → drop i base ≡ rs
    → log_answers (length rs) i base ≡ ok (answer_lines rs)
unfolding log_answers answer_lines
log_answers_lem [] i base h d = refl
log_answers_lem (r ∷ rs) i base (h, hs) d =
    bind_ok _ _ (ap (from_option Fault.out_of_bounds) (get_elem?-drop i base r rs d)) (
      bind_ok _ _ (log_answer-Fits r.response_data r refl h) (
        bind_ok _ _
          (ap (λ (j : ℕ). log_answers (length rs) j base) (omega arith)
            ∙ log_answers_lem rs (suc i) base hs (drop_next i base r rs d))
          refl))

use_answers_lem :
    (rs : List ResourceRecord) (i : ℕ) (base : List ResourceRecord)
    → All (λ r. Fits r.type r.response_data) rs
    → drop i base ≡ rs
    → use_answers (length rs) i base ≡ ok tt
unfolding use_answers
use_answers_lem [] i base h d = refl
use_answers_lem (r ∷ rs) i base (h, hs) d =
    bind_ok _ _ (ap (from_option Fault.out_of_bounds) (get_elem?-drop i base r rs d)) (
      bind_ok _ _ (use_data-Fits r.response_data r refl h) (
        ap (λ (j : ℕ). use_answers (length rs) j base) (omega arith)
        ∙ use_answers_lem rs (suc i) base hs (drop_next i base r rs d)))

log_queries_lem :
    (qs : List Query) (i : ℕ) (base : List Query)
    → drop i base ≡ qs
    → log_queries (length qs) i base ≡ ok (map (λ q. query_line (printed q.name)) qs)
unfolding log_queries
log_queries_lem [] i base d = refl
log_queries_lem (q ∷ qs) i base d =
    bind_ok _ _ (ap (from_option Fault.out_of_bounds) (get_elem?-drop i base q qs d)) (
      bind_ok _ _
        (ap (λ (j : ℕ). log_queries (length qs) j base) (omega arith)
          ∙ log_queries_lem qs (suc i) base (drop_next i base q qs d))
        refl)

use_queries_lem :
    (qs : List Query) (i : ℕ) (base : List Query)
    → drop i base ≡ qs
    → use_queries (length qs) i base ≡ ok tt
unfolding use_queries
use_queries_lem [] i base d = refl
use_queries_lem (q ∷ qs) i base d =
    bind_ok _ _ (ap (from_option Fault.out_of_bounds) (get_elem?-drop i base q qs d)) (
      ap (λ (j : ℕ). use_queries (length qs) j base) (omega arith)
      ∙ use_queries_lem qs (suc i) base (drop_next i base q qs d))

pub message_log-IsReadable :
    (m : Message)
    → IsReadable m
    → message_log m
      ≡ ok (map (λ q. query_line (printed q.name)) m.queries ++ answer_lines m.answers)
unfolding message_log
message_log-IsReadable m h =
    rw (h.asked, h.counted)
      (bind_ok _ _ (log_queries_lem m.queries 0 m.queries refl)
        (bind_ok _ _ (log_answers_lem m.answers 0 m.answers h.fit refl) refl))

pub message_free-IsReadable : (m : Message) → IsReadable m → message_free m ≡ ok tt
unfolding message_free
message_free-IsReadable m h = bind_ok _ _ (message_log-IsReadable m h) (
    rw (h.asked, h.counted)
      (bind_ok _ _ (use_queries_lem m.queries 0 m.queries refl)
        (use_answers_lem m.answers 0 m.answers h.fit refl)))
