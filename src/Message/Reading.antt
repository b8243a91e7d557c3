-- ===== src/Message/Reading.antt =====
-- message.c: `buf2messageRR` as the reader of one record.
use post_dns.Base.{
  ℕ, ◌+◌, ◌/◌, ◌%◌, ◌^◌, ◌≤◌, ◌<◌, ◌≡◌, ap, ◌∙◌, arith, List, [], ◌∷◌, ◌++◌, append_assoc, length,
  drop, ok, bind_ok,
}
use post_dns.Message.{ResponseData, address4, domain, address6, unset, ResourceRecord}
use post_dns.Message.Parse.{rr_entry, create_name, name_fuel}
use post_dns.Message.Blocks.{network16}
use post_dns.Message.Labels.{wire_name, length-wire_name}
use post_dns.Message.Name.{create_name_lem, finish_copied_name_lem}
use post_dns.Message.Record.{
  IsData, IsRecord, data_bytes, fixed_bytes, record_bytes, length-record_bytes,
}
use post_dns.Message.Rdata.{drop_part, read_short_lem, two_shorts, network32_halves, rdata_lem}

ttl_high : {r : ResourceRecord} → IsRecord r → r.ttl / 2 ^ 16 < 2 ^ 16
ttl_high h = omega (arith, h.ttl)

-- The record as the parser returns it: the length field says what was sent.
abbrev pub as_read : ResourceRecord → ResourceRecord
as_read r = record r { response_data_length = length (data_bytes r.response_data) }

IsData-type : (value : ResponseData) (type : ℕ) → IsData type value → type < 2 ^ 16
IsData-type (address4 a) type h = omega arith
IsData-type (domain s) type h = omega (arith, h.0)
IsData-type (address6 bs) type h = omega arith
IsData-type unset type h = absurd h

IsData-length :
    (value : ResponseData) (type : ℕ) → IsData type value → length (data_bytes value) < 2 ^ 16
IsData-length (address4 a) type h = omega arith
IsData-length (domain s) type h = omega (arith, length-wire_name s, h.1.short)
IsData-length (address6 bs) type h = omega arith
IsData-length unset type h = absurd h

record_split :
    (r : ResourceRecord) (rest : List ℕ)
    → record_bytes r ++ rest
      ≡ wire_name r.name
        ++ (network16 r.type
            ++ (network16 r.class
                ++ (network16 (r.ttl / 2 ^ 16)
                    ++ (network16 (r.ttl % 2 ^ 16)
                        ++ (network16 (length (data_bytes r.response_data))
                            ++ (data_bytes r.response_data ++ rest))))))
unfolding record_bytes
record_split r rest =
    let value = data_bytes r.response_data in
    let fixed = fixed_bytes r.type r.class r.ttl (length value) in
    append_assoc (wire_name r.name ++ fixed) value rest
    ∙ append_assoc (wire_name r.name) fixed (value ++ rest)
    ∙ ap
        (λ (q : List ℕ).
          wire_name r.name
          ++ (network16 r.type
              ++ (network16 r.class ++ (q ++ (network16 (length value) ++ (value ++ rest))))))
        (network32_halves r.ttl)

-- What stands behind the name of a record.
abbrev pub behind_name : ResourceRecord → List ℕ → List ℕ
behind_name r rest =
    network16 r.type
    ++ (network16 r.class
        ++ (network16 (r.ttl / 2 ^ 16)
            ++ (network16 (r.ttl % 2 ^ 16)
                ++ (network16 (length (data_bytes r.response_data))
                    ++ (data_bytes r.response_data ++ rest)))))

-- The parser of a record, where the name has been read up to `stop`.
pub rr_entry_named :
    (r : ResourceRecord) (fuel : ℕ) (rest : List ℕ) (pos stop : ℕ) (base : List ℕ)
    → IsRecord r
    → name_fuel ≤ fuel
    → create_name fuel base pos [] ≡ ok (stop, r.name ++ b'.' ∷ [])
    → drop (stop + 1) base ≡ behind_name r rest
    → (last : ℕ) × (rr_entry fuel base pos ≡ ok (last, as_read r))
      × (last ≡ stop + 11 + length (data_bytes r.response_data))
      × (drop last base ≡ rest)
unfolding rr_entry
rr_entry_named r fuel rest pos stop base h enough name d₁ =
    let value = r.response_data in
    let n = length (data_bytes value) in
    let t₆ = data_bytes value ++ rest in
    let t₅ = network16 n ++ t₆ in
    let t₄ = network16 (r.ttl % 2 ^ 16) ++ t₅ in
    let t₃ = network16 (r.ttl / 2 ^ 16) ++ t₄ in
    let t₂ = network16 r.class ++ t₃ in
    let t₁ = network16 r.type ++ t₂ in
    let (type, d₂) =
      read_short_lem r.type t₂ (stop + 1) base (IsData-type value r.type h.value) d₁ in
    let p₂ : stop + 1 + 2 ≡ stop + 3 = omega arith in
    let (class, d₃) = read_short_lem r.class t₃ (stop + 3) base h.class (rw p₂ at d₂) in
    let p₃ : stop + 3 + 2 ≡ stop + 5 = omega arith in
    let (high, d₄) =
      read_short_lem (r.ttl / 2 ^ 16) t₄ (stop + 5) base (ttl_high h) (rw p₃ at d₃) in
    let p₄ : stop + 5 + 2 ≡ stop + 7 = omega arith in
    let (low, d₅) =
      read_short_lem (r.ttl % 2 ^ 16) t₅ (stop + 7) base (omega arith) (rw p₄ at d₄) in
    let p₅ : stop + 7 + 2 ≡ stop + 9 = omega arith in
    let (len, d₆) =
      read_short_lem n t₆ (stop + 9) base (IsData-length value r.type h.value) (rw p₅ at d₅) in
    let p₆ : stop + 9 + 2 ≡ stop + 11 = omega arith in
    let d₇ : drop (stop + 11) base ≡ t₆ = rw p₆ at d₆ in
    let (q, made, kept, last) =
      rdata_lem value r.type fuel rest (stop + 11) base h.value enough d₇ in
    (
      q.0 + 1,
      bind_ok _ _ name (
          bind_ok _ _ (finish_copied_name_lem r.name h.name) (
            bind_ok _ _ type (
              bind_ok _ _ class (
                bind_ok _ _ high (
                  bind_ok _ _ low (
                    bind_ok _ _ len (
                      bind_ok _ _ made (
                        bind_ok _ _ kept (
                          ap (λ (t : ℕ). ok (q.0 + 1, record (as_read r) { ttl = t }))
                            (two_shorts r.ttl h.ttl)))))))))),
      omega (arith, last),
      rw (← last) at (drop_part (data_bytes value) rest (stop + 11) base d₇),
    )

-- With 257 rounds of fuel or more, the parser of a record reads a well-formed record back from its
-- bytes at any place of the block, without a fault, and stops behind them.
pub rr_entry_lem :
    (r : ResourceRecord) (fuel : ℕ) (rest : List ℕ) (pos : ℕ) (base : List ℕ)
    → IsRecord r
    → name_fuel ≤ fuel
    → drop pos base ≡ record_bytes r ++ rest
    → (stop : ℕ) × (rr_entry fuel base pos ≡ ok (stop, as_read r))
      × (stop ≡ pos + length (record_bytes r))
      × (drop stop base ≡ rest)
rr_entry_lem r fuel rest pos base h enough d =
    let tail = behind_name r rest in
    let stop = pos + length r.name + 1 in
    let start : drop pos base ≡ wire_name r.name ++ tail = d ∙ record_split r rest in
    let p₁ : pos + length (wire_name r.name) ≡ stop + 1 = omega (arith, length-wire_name r.name) in
    let (last, run, size, there) =
      rr_entry_named r fuel rest pos stop base h enough
        (create_name_lem base r.name tail pos h.name start fuel enough)
        (rw p₁ at (drop_part (wire_name r.name) tail pos base start)) in
    (last, run, omega (arith, size, length-record_bytes r), there)
