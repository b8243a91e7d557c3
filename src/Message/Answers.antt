-- ===== src/Message/Answers.antt =====
-- message.c: `buf2messageRR` on records whose names may be compressed.
use post_dns.Base.{
  ℕ, ◌+◌, ◌≤◌, ◌<◌, ◌≡◌, refl, ap, ◌∙◌, arith, List, [], ◌∷◌, ◌++◌, length, length-append, drop, ok,
  bind_ok,
}
use mathlib.Core.List.{map}
use post_dns.Text.{Str, string_split}
use post_dns.Message.{Query, ResourceRecord, Message}
use post_dns.Message.Header.{header_bytes}
use post_dns.Message.Written.{IsMessage, question_bytes}
use post_dns.Message.RoundTrip.{as_received, buf2message_sections}
use post_dns.Message.Parse.{create_name, rr_entries, buf2message, name_fuel}
use post_dns.Message.Labels.{IsName, dotted-split}
use post_dns.Message.Record.{IsRecord, data_bytes}
use post_dns.Message.Reading.{as_read, behind_name, rr_entry_named}
use post_dns.Message.Compressed.{Stands, create_name-Stands}

-- The records that stand one behind the other from a place of the block on, each with a name that
-- may be compressed, of at most `fuel` lengths and pointers.
pub data RecordsStand (fuel : ℕ) (base : List ℕ) : ℕ → List ResourceRecord → Type 0 where
  no_record : (pos : ℕ) → RecordsStand fuel base pos []
  record_at :
      (pos n stop : ℕ) (r : ResourceRecord) (rs : List ResourceRecord) (rest : List ℕ)
      → IsRecord r
      → Stands base pos (string_split r.name b'.') n stop
      → n ≤ fuel
      → drop (stop + 1) base ≡ behind_name r rest
      → RecordsStand fuel base (stop + 11 + length (data_bytes r.response_data)) rs
      → RecordsStand fuel base pos (r ∷ rs)

create_name-name :
    (base : List ℕ) (fuel pos n stop : ℕ) (name : Str)
    → IsName name
    → Stands base pos (string_split name b'.') n stop
    → n ≤ fuel
    → create_name fuel base pos [] ≡ ok (stop, name ++ b'.' ∷ [])
create_name-name base fuel pos n stop name h s enough =
    create_name-Stands base fuel pos (string_split name b'.') n stop [] s
      (omega (arith, ap length (dotted-split name), length-append name (b'.' ∷ []), h.short)) enough
    ∙ ap (λ (w : Str). ok (stop, w)) (dotted-split name)

-- The loop of `buf2messageRR` on records that stand one behind the other, well-formed but for their
-- names, which may be compressed and point to any place of the block, with 257 rounds of fuel or
-- more, and one for each length and each pointer of a name, returns these records, the length field
-- of each being that of its data.
pub rr_entries-RecordsStand :
    (fuel : ℕ) (base : List ℕ) (pos : ℕ) (rs : List ResourceRecord)
    → name_fuel ≤ fuel
    → RecordsStand fuel base pos rs
    → rr_entries fuel (length rs) base pos ≡ ok (map as_read rs)
unfolding rr_entries
rr_entries-RecordsStand fuel base _ _ enough (no_record pos) = refl
rr_entries-RecordsStand fuel base _ _ enough (record_at pos n stop r rs rest h s few d more) =
    let named = create_name-name base fuel pos n stop r.name h.name s few in
    let (last, run, size, _) = rr_entry_named r fuel rest pos stop base h enough named d in
    bind_ok _ _ run (
      bind_ok _ _
        (ap (λ (p : ℕ). rr_entries fuel (length rs) base p) size
          ∙ rr_entries-RecordsStand fuel base _ rs enough more)
        refl)

-- `buf2message` on more than 12 bytes that begin with the header and the question of a well-formed
-- message with one question, behind which its answers stand one behind the other, the names of the
-- records, not those in CNAME data, being compressed or not, with pointers to any place of the
-- block, with 257 rounds of fuel or more, and one for each length and each pointer of a name,
-- returns the message, the length field of each record being that of its data, and without the two
-- sections that are not read.
pub buf2message-RecordsStand :
    (m : Message) (q : Query) (fuel : ℕ) (base behind : List ℕ) (len : ℕ)
    → IsMessage m q
    → name_fuel ≤ fuel
    → base ≡ header_bytes m ++ (question_bytes q ++ behind)
    → 12 < len
    → RecordsStand fuel base (12 + length (question_bytes q)) m.answers
    → buf2message fuel base len ≡ ok (as_received m)
buf2message-RecordsStand m q fuel base behind len h enough whole long s =
    buf2message_sections m q fuel base behind len h whole long
      (rr_entries-RecordsStand fuel base (12 + length (question_bytes q)) m.answers enough s)
