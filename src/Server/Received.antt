-- ===== src/Server/Received.antt =====
-- socket.c and message.c: a message that was read from the wire, when it is logged, released and sent
-- on.
use post_dns.Base.{ℕ, suc, ◌≡◌, refl, sym, ap, ◌∙◌, List, [], ◌∷◌, length, All, ok}
use mathlib.Core.List.{map}
use post_dns.Message.{
  Query, ResponseData, address4, domain, address6, unset, ResourceRecord, Message,
}
use post_dns.Message.Release.{message_free}
use post_dns.Message.Record.{IsRecord, IsData, IsLength}
use post_dns.Message.Reading.{as_read}
use post_dns.Message.Written.{IsMessage}
use post_dns.Message.Logged.{IsMessage-IsReadable}
use post_dns.Message.Readable.{message_free-IsReadable}
use post_dns.Message.RoundTrip.{as_received}

as_read-IsLength :
    (value : ResponseData) (type : ℕ) (r : ResourceRecord)
    → r.response_data ≡ value
    → IsData type value
    → IsLength (as_read r).response_data_length value
as_read-IsLength (address4 a) type r e h = rw e refl
as_read-IsLength (domain s) type r e h = tt
as_read-IsLength (address6 bs) type r e h = rw e h.1
as_read-IsLength unset type r e h = absurd h

as_read-IsRecord : (r : ResourceRecord) → IsRecord r → IsRecord (as_read r)
as_read-IsRecord r h = record {
  name = h.name;
  class = h.class;
  ttl = h.ttl;
  value = h.value;
  len = as_read-IsLength r.response_data r.type r refl h.value;
}

All-as_read : (rs : List ResourceRecord) → All IsRecord rs → All IsRecord (map as_read rs)
All-as_read [] h = tt
All-as_read (r ∷ rs) (h, hs) = (as_read-IsRecord r h, All-as_read rs hs)

length-as_read : (rs : List ResourceRecord) → length (map as_read rs) ≡ length rs
length-as_read [] = refl
length-as_read (r ∷ rs) = ap suc (length-as_read rs)

pub as_received-IsMessage : (m : Message) (q : Query) → IsMessage m q → IsMessage (as_received m) q
as_received-IsMessage m q h = record {
  header = record {
    flags = h.header.flags;
    id = h.header.id;
    query_count = h.header.query_count;
    answer_count = h.header.answer_count;
    authority_count = h.header.authority_count;
    additional_count = h.header.additional_count;
  };
  one = h.one;
  asked = h.asked;
  query = h.query;
  answers = All-as_read m.answers h.answers;
  counted = h.counted ∙ sym (length-as_read m.answers);
}

pub message_free_lem : (m : Message) (q : Query) → IsMessage m q → message_free m ≡ ok tt
message_free_lem m q h = message_free-IsReadable m (IsMessage-IsReadable m q h)
