-- ===== src/Message/Logged.antt =====
-- message.c: well-formed messages can be logged and released.
use post_dns.Base.{ℕ, ◌≡◌, sym, ap, ◌∙◌, List, [], ◌∷◌, ◌++◌, length, All, ok}
use mathlib.Core.List.{map}
use post_dns.Message.{
  Query, ResponseData, address4, domain, address6, unset, ResourceRecord, Message,
}
use post_dns.Message.Release.{query_line, printed, message_log}
use post_dns.Message.Record.{IsRecord, IsData}
use post_dns.Message.Written.{IsMessage}
use post_dns.Message.Readable.{Fits, IsReadable, answer_lines, message_log-IsReadable}

IsData-Fits : (type : ℕ) (value : ResponseData) → IsData type value → Fits type value
IsData-Fits type (address4 a) h = h.0
IsData-Fits type (domain s) h = h.0
IsData-Fits type (address6 bs) h = h
IsData-Fits type unset h = absurd h

All-Fits : (rs : List ResourceRecord) → All IsRecord rs → All (λ r. Fits r.type r.response_data) rs
All-Fits [] h = tt
All-Fits (r ∷ rs) (h, hs) = (IsData-Fits r.type r.response_data h.value, All-Fits rs hs)

pub IsMessage-IsReadable : (m : Message) (q : Query) → IsMessage m q → IsReadable m
IsMessage-IsReadable m q h = record {
  asked = h.one ∙ ap length (sym h.asked);
  counted = h.counted;
  fit = All-Fits m.answers h.answers;
}

pub message_log_lem :
    (m : Message) (q : Query)
    → IsMessage m q
    → message_log m ≡ ok (query_line (printed q.name) ∷ answer_lines m.answers)
message_log_lem m q h =
    message_log-IsReadable m (IsMessage-IsReadable m q h)
    ∙ ap
        (λ (qs : List Query).
          ok (map (λ q. query_line (printed q.name)) qs ++ answer_lines m.answers))
        h.asked
