-- ===== src/Message/Other.antt =====
-- message.c: the writer of one answer, on a record of a type that the program does not handle.
use post_dns.Base.{
  ℕ, ◌+◌, ◌-◌, ◌≤◌, ◌≡◌, ◌≢◌, refl, ap, ◌∙◌, arith, List, ◌++◌, append_assoc, ==-eq-false, length,
  length-append, ok, Returns, bind_ok,
}
use post_dns.Message.{ResponseData, ResourceRecord, type_a, type_cname, type_aaaa}
use post_dns.Message.Build.{put_answer, put_rdlength, put_rdata}
use post_dns.Message.Blocks.{
  Filled, network16, network32, write_bytes-Filled, put_short-Filled, put_int-Filled,
}
use post_dns.Message.Labels.{IsName, wire_name, length-wire_name, put_name-wire}

-- The fields before RDLENGTH.
abbrev pub front_bytes : ResourceRecord → List ℕ
front_bytes r = wire_name r.name ++ (network16 r.type ++ (network16 r.class ++ network32 r.ttl))

length-front_bytes : (r : ResourceRecord) → length (front_bytes r) ≡ length r.name + 10
length-front_bytes r = omega (
  arith,
  length-append (wire_name r.name) (network16 r.type ++ (network16 r.class ++ network32 r.ttl)),
  length-wire_name r.name,
)

regroup : (out a b c d : List ℕ) → ((((out ++ a) ++ b) ++ c) ++ d) ≡ out ++ (a ++ (b ++ (c ++ d)))
regroup out a b c d =
    append_assoc ((out ++ a) ++ b) c d
    ∙ append_assoc (out ++ a) b (c ++ d)
    ∙ append_assoc out a (b ++ (c ++ d))

module _ (type n : ℕ) (value : ResponseData) (no4 : type ≢ type_a) (no_alias : type ≢ type_cname)
    (no6 : type ≢ type_aaaa) where
  put_rdlength_other : (buf : List ℕ) (pos : ℕ) → put_rdlength buf pos type n value ≡ ok (pos, buf)
  unfolding put_rdlength
  put_rdlength_other buf pos =
      rw
        (
          ==-eq-false type type_a no4,
          ==-eq-false type type_cname no_alias,
          ==-eq-false type type_aaaa no6,
        )
        refl

  put_rdata_other : (buf : List ℕ) (pos : ℕ) → put_rdata buf pos type n value ≡ ok (pos, buf)
  unfolding put_rdata
  put_rdata_other buf pos =
      rw
        (
          ==-eq-false type type_a no4,
          ==-eq-false type type_cname no_alias,
          ==-eq-false type type_aaaa no6,
        )
        refl

-- The writer of one answer, on a record with a well-formed name and a type that is not A, CNAME or
-- AAAA, that fits the room behind what is written: it writes the name, the type, the class and the
-- TTL and nothing else, and returns a position two bytes before the end of what it wrote, so inside
-- the TTL.
pub put_answer_other :
    (r : ResourceRecord)
    → IsName r.name
    → r.type ≢ type_a
    → r.type ≢ type_cname
    → r.type ≢ type_aaaa
    → (out : List ℕ) (room : ℕ) (buf : List ℕ) (pos : ℕ) → Filled out room buf
    → pos ≡ length out
    → length (front_bytes r) ≤ room
    → Returns (put_answer buf pos r) λ p.
      (p.0 + 2 ≡ pos + length (front_bytes r))
      × Filled (out ++ front_bytes r) (room - length (front_bytes r)) p.1
unfolding put_answer
put_answer_other r h no4 no_alias no6 out room buf pos f p c =
    let size = length-front_bytes r in
    let name_size = length-wire_name r.name in
    let at_type = pos + length r.name + 2 in
    let o₁ = out ++ wire_name r.name in
    let e₁ = length-append out (wire_name r.name) in
    let o₂ = o₁ ++ network16 r.type in
    let e₂ = length-append o₁ (network16 r.type) in
    let o₃ = o₂ ++ network16 r.class in
    let e₃ = length-append o₂ (network16 r.class) in
    let n₁ = room - length (wire_name r.name) in
    let value = r.response_data in
    let n = r.response_data_length in
    let (b₁, r₁, f₁) = write_bytes-Filled (wire_name r.name) out room buf pos f p (omega arith) in
    let (b₂, r₂, f₂) = put_short-Filled r.type o₁ n₁ b₁ at_type f₁ (omega arith) (omega arith) in
    let (b₃, r₃, f₃) =
      put_short-Filled r.class o₂ (n₁ - 2) b₂ (at_type + 2) f₂ (omega arith) (omega arith) in
    let (b₄, r₄, (junk, e, left)) =
      put_int-Filled r.ttl o₃ (n₁ - 2 - 2) b₃ (at_type + 4) f₃ (omega arith) (omega arith) in
    (
      (at_type + 4 + 2, b₄),
      bind_ok _ _ (put_name-wire buf pos r.name h ∙ r₁) (
          bind_ok _ _ r₂ (
            bind_ok _ _ r₃ (
              bind_ok _ _ r₄ (
                bind_ok _ _ (put_rdlength_other r.type n value no4 no_alias no6 b₄ (at_type + 4))
                  (put_rdata_other r.type n value no4 no_alias no6 b₄ (at_type + 4 + 2)))))),
      (
        omega arith,
        (
          junk,
          e
              ∙ ap (λ (s : List ℕ). s ++ junk)
                  (regroup out (wire_name r.name) (network16 r.type) (network16 r.class)
                    (network32 r.ttl)),
          omega arith,
        ),
      ),
    )
