-- ===== src/Message/Record.antt =====
-- One resource record: the bytes that `put_answer` writes, and what `rr_entry` reads from them.
use post_dns.Base.{
  ℕ, ◌+◌, ◌-◌, ◌%◌, ◌^◌, ◌≤◌, ◌<◌, ◌≡◌, refl, sym, ap, ◌∙◌, arith, List, [], ◌++◌, append_assoc,
  append-nil, length, take, Returns, length-append, take_prefix, bind_ok,
}
use post_dns.Message.{
  ResponseData, address4, domain, address6, unset, ResourceRecord, type_a, type_cname, type_aaaa,
}
use post_dns.Message.Build.{put_answer, put_rdlength, put_rdata}
use post_dns.Message.Blocks.{
  Filled, network16, network32, write_bytes-Filled, put_short-Filled, put_int-Filled,
}
use post_dns.Message.Labels.{IsName, wire_name, length-wire_name, put_name-wire}

-- The data is of a type that the program handles, and fits it.
abbrev pub IsData : ℕ → ResponseData → Type 0
IsData type (address4 a) = (type ≡ type_a) × (a < 2 ^ 32)
IsData type (domain s) = (type ≡ type_cname) × IsName s
IsData type (address6 bs) = (type ≡ type_aaaa) × (length bs ≡ 16)
IsData type unset = ⊥

-- For an address the length field counts its bytes. For a name it is not used.
abbrev pub IsLength : ℕ → ResponseData → Type 0
IsLength n (address4 a) = n ≡ 4
IsLength n (domain s) = Unit {0}
IsLength n (address6 bs) = n ≡ 16
IsLength n unset = ⊥

pub record IsRecord (r : ResourceRecord) : Type 0 where
  pub name : IsName r.name
  pub class : r.class < 2 ^ 16
  pub ttl : r.ttl < 2 ^ 32
  pub value : IsData r.type r.response_data
  pub len : IsLength r.response_data_length r.response_data

abbrev pub data_bytes : ResponseData → List ℕ
data_bytes (address4 a) = network32 a
data_bytes (domain s) = wire_name s
data_bytes (address6 bs) = bs
data_bytes unset = []

-- The fields before RDATA.
abbrev pub fixed_bytes : ℕ → ℕ → ℕ → ℕ → List ℕ
fixed_bytes type class ttl n = network16 type ++ network16 class ++ network32 ttl ++ network16 n

unfoldable pub record_bytes : ResourceRecord → List ℕ
record_bytes r =
    wire_name r.name
    ++ fixed_bytes r.type r.class r.ttl (length (data_bytes r.response_data))
    ++ data_bytes r.response_data

take_all : (n : ℕ) (xs : List ℕ) → n ≡ length xs → take n xs ≡ xs
take_all n xs e = ap (take n) (sym (append-nil xs)) ∙ take_prefix xs [] n e

put_rdlength-Filled :
    (value : ResponseData) (type n : ℕ)
    → IsData type value
    → IsLength n value
    → (out : List ℕ) (room : ℕ) (buf : List ℕ) (pos : ℕ) → Filled out room buf
    → pos + 4 ≡ length out
    → 2 ≤ room
    → Returns
        (put_rdlength buf pos type n value)
        λ r. (r.0 ≡ pos + 4) × Filled (out ++ network16 (length (data_bytes value))) (room - 2) r.1
unfolding put_rdlength
put_rdlength-Filled (address4 a) type n (t, h) l out room buf pos f p c =
    let (buf', run, f') = put_short-Filled 4 out room buf (pos + 4) f p c in
    ((pos + 4, buf'), rw (t, l, run), (refl, f'))
put_rdlength-Filled (address6 bs) type n (t, h) l out room buf pos f p c =
    let size : n ≡ length bs = omega arith in
    let (buf', run, f') = put_short-Filled (length bs) out room buf (pos + 4) f p c in
    ((pos + 4, buf'), rw (t, size, run), (refl, f'))
put_rdlength-Filled (domain s) type n (t, h) l out room buf pos f p c =
    let small : (length s + 2) % 2 ^ 16 ≡ length (wire_name s) =
      omega (arith, h.short, length-wire_name s) in
    let (buf', run, f') = put_short-Filled (length (wire_name s)) out room buf (pos + 4) f p c in
    ((pos + 4, buf'), rw (t, small, run), (refl, f'))
put_rdlength-Filled unset type n h l out room buf pos f p c = absurd h

put_rdata-Filled :
    (value : ResponseData) (type n : ℕ)
    → IsData type value
    → IsLength n value
    → (out : List ℕ) (room : ℕ) (buf : List ℕ) (pos : ℕ) → Filled out room buf
    → pos ≡ length out
    → length (data_bytes value) ≤ room
    → Returns (put_rdata buf pos type n value) λ r.
      (r.0 ≡ pos + length (data_bytes value))
      × Filled (out ++ data_bytes value) (room - length (data_bytes value)) r.1
unfolding put_rdata
put_rdata-Filled (address4 a) type n (t, h) l out room buf pos f p c =
    let (buf', run, f') = put_int-Filled a out room buf pos f p c in
    ((pos + n, buf'), rw (t, run), (omega arith, f'))
put_rdata-Filled (address6 bs) type n (t, h) l out room buf pos f p c =
    let whole : take 16 bs ≡ bs = take_all 16 bs (sym h) in
    let (buf', run, f') = write_bytes-Filled bs out room buf pos f p c in
    ((pos + n, buf'), rw (t, whole, run), (omega arith, f'))
put_rdata-Filled (domain s) type n (t, h) l out room buf pos f p c =
    let (buf', run, f') = write_bytes-Filled (wire_name s) out room buf pos f p c in
    (
      (pos + length s + 2, buf'),
      rw (t, put_name-wire buf pos s h, run),
      (omega (arith, length-wire_name s), f'),
    )
put_rdata-Filled unset type n h l out room buf pos f p c = absurd h

pub length-record_bytes :
    (r : ResourceRecord)
    → length (record_bytes r) ≡ length r.name + 12 + length (data_bytes r.response_data)
unfolding record_bytes
length-record_bytes r = omega (
  arith,
  length-append
      (wire_name r.name ++ fixed_bytes r.type r.class r.ttl (length (data_bytes r.response_data)))
      (data_bytes r.response_data),
  length-append (wire_name r.name)
      (fixed_bytes r.type r.class r.ttl (length (data_bytes r.response_data))),
  length-wire_name r.name,
)

regroup :
    (r : ResourceRecord) (out : List ℕ)
    → out
        ++ wire_name r.name
        ++ network16 r.type
        ++ network16 r.class
        ++ network32 r.ttl
        ++ network16 (length (data_bytes r.response_data))
        ++ data_bytes r.response_data
      ≡ out ++ record_bytes r
unfolding record_bytes
regroup r out = simp append_assoc

-- The writer of one answer, on a well-formed record that fits the room left behind what is written,
-- writes exactly its bytes there, and moves the position behind them.
pub put_answer-Filled :
    (r : ResourceRecord)
    → IsRecord r
    → (out : List ℕ) (room : ℕ) (buf : List ℕ) (pos : ℕ) → Filled out room buf
    → pos ≡ length out
    → length (record_bytes r) ≤ room
    → Returns (put_answer buf pos r) λ p.
      (p.0 ≡ pos + length (record_bytes r))
      × Filled (out ++ record_bytes r) (room - length (record_bytes r)) p.1
unfolding put_answer
put_answer-Filled r h out room buf pos f p c =
    let size = length-record_bytes r in
    let name_size = length-wire_name r.name in
    let value = r.response_data in
    let at_type = pos + length r.name + 2 in
    let o₁ = out ++ wire_name r.name in
    let e₁ = length-append out (wire_name r.name) in
    let o₂ = o₁ ++ network16 r.type in
    let e₂ = length-append o₁ (network16 r.type) in
    let o₃ = o₂ ++ network16 r.class in
    let e₃ = length-append o₂ (network16 r.class) in
    let o₄ = o₃ ++ network32 r.ttl in
    let e₄ = length-append o₃ (network32 r.ttl) in
    let o₅ = o₄ ++ network16 (length (data_bytes value)) in
    let e₅ = length-append o₄ (network16 (length (data_bytes value))) in
    let n₁ = room - length (wire_name r.name) in
    let (b₁, r₁, f₁) = write_bytes-Filled (wire_name r.name) out room buf pos f p (omega arith) in
    let (b₂, r₂, f₂) = put_short-Filled r.type o₁ n₁ b₁ at_type f₁ (omega arith) (omega arith) in
    let (b₃, r₃, f₃) =
      put_short-Filled r.class o₂ (n₁ - 2) b₂ (at_type + 2) f₂ (omega arith) (omega arith) in
    let (b₄, r₄, f₄) =
      put_int-Filled r.ttl o₃ (n₁ - 2 - 2) b₃ (at_type + 4) f₃ (omega arith) (omega arith) in
    let (q₅, r₅, (p₅, f₅)) =
      put_rdlength-Filled value r.type r.response_data_length h.value h.len o₄ (n₁ - 2 - 2 - 4) b₄
        (at_type + 4) f₄ (omega arith) (omega arith) in
    let (q₆, r₆, (p₆, (junk, e, left))) =
      put_rdata-Filled value r.type r.response_data_length h.value h.len o₅ (n₁ - 2 - 2 - 4 - 2)
        q₅.1 (q₅.0 + 2) f₅ (omega arith) (omega arith) in
    (
      q₆,
      bind_ok _ _ (put_name-wire buf pos r.name h.name ∙ r₁)
          (bind_ok _ _ r₂ (bind_ok _ _ r₃ (bind_ok _ _ r₄ (bind_ok _ _ r₅ r₆)))),
      (omega arith, (junk, e ∙ ap (λ (s : List ℕ). s ++ junk) (regroup r out), omega arith)),
    )
