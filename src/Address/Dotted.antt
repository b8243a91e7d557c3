-- ===== src/Address/Dotted.antt =====
-- utils.c: the texts of the addresses, read back.
use post_dns.Base.{
  ℕ, ◌+◌, ◌-◌, ◌*◌, ◌/◌, ◌%◌, ◌^◌, ◌≤◌, ◌<◌, ◌≡◌, refl, sym, ap, ◌∙◌, arith, false, ltb, ◌==◌,
  if◌then◌else◌, [], ◌∷◌, ◌++◌, append-nil, length, length-append, Bool-cases, inl, inr, ltb→lt,
  ◌⊎◌,
}
use post_dns.Text.{Str}
use post_dns.Address.{decimal, inet4address2string}

-- The value of the groups that are complete and of the group that is being read, after one more byte.
unfoldable pub dotted_next : ℕ × ℕ → ℕ → ℕ × ℕ
dotted_next (total, group) c =
    if c == b'.' then (total * 256 + group, 0) else (total, group * 10 + (c - b'0'))

-- The value of a dotted text that is read from the left, from the groups `p` on.
unfoldable pub dotted_value : ℕ × ℕ → Str → ℕ
unfolding dotted_next
dotted_value p [] = p.0 * 256 + p.1
dotted_value p (c ∷ s) = dotted_value (dotted_next p c) s

dotted_value-digit :
    (total group d : ℕ)
    → d < 10
    → (s : Str)
    → dotted_value (total, group) ((d + b'0') ∷ s) ≡ dotted_value (total, group * 10 + d) s
unfolding dotted_value
dotted_value-digit total group d h s =
    let off : (d + b'0') == b'.' ≡ false = ground arith in
    let same : d + b'0' - b'0' ≡ d = omega arith in rw (off, same) refl

-- `n` is the value of its digits, of which there are one to three.
pub decimal-cases :
    (n : ℕ)
    → n < 256
    → ((n < 10) × (decimal n ≡ (n + b'0') ∷ []))
      ⊎ ((decimal n ≡ (n / 10 + b'0') ∷ (n % 10 + b'0') ∷ []) × (n / 10 < 10))
      ⊎ ((decimal n ≡ (n / 100 + b'0') ∷ (n / 10 % 10 + b'0') ∷ (n % 10 + b'0') ∷ [])
          × (n / 100 < 10))
unfolding decimal
decimal-cases n h = elim (Bool-cases (ltb n 10)) [
  | inl e ↦ inl (ltb→lt n 10 e, rw e refl)
  | inr e ↦ elim (Bool-cases (ltb n 100)) [
    | inl f ↦ let small = ltb→lt n 100 f in inr (inl (rw (e, f) refl, omega arith))
    | inr f ↦ inr (inr (rw (e, f) refl, omega arith))
  ]
]

dotted_value-decimal :
    (total n : ℕ)
    → n < 256
    → (s : Str) → dotted_value (total, 0) (decimal n ++ s) ≡ dotted_value (total, n) s
dotted_value-decimal total n h s = elim (decimal-cases n h) [
  | inl (small, e) ↦
      let whole : 0 * 10 + n ≡ n = omega arith in
      rw e (dotted_value-digit total 0 n small s ∙ ap (λ (k : ℕ). dotted_value (total, k) s) whole)
  | inr (inl (e, small)) ↦
      let whole : (0 * 10 + n / 10) * 10 + n % 10 ≡ n = omega arith in
      rw e (
        dotted_value-digit total 0 (n / 10) small _
        ∙ dotted_value-digit total (0 * 10 + n / 10) (n % 10) (omega arith) s
        ∙ ap (λ (k : ℕ). dotted_value (total, k) s) whole)
  | inr (inr (e, small)) ↦
      let whole : ((0 * 10 + n / 100) * 10 + n / 10 % 10) * 10 + n % 10 ≡ n = omega arith in
      rw e (
        dotted_value-digit total 0 (n / 100) small _
        ∙ dotted_value-digit total (0 * 10 + n / 100) (n / 10 % 10) (omega arith) _
        ∙ dotted_value-digit total ((0 * 10 + n / 100) * 10 + n / 10 % 10) (n % 10) (omega arith) s
        ∙ ap (λ (k : ℕ). dotted_value (total, k) s) whole)
]

length-decimal : (n : ℕ) → n < 256 → length (decimal n) ≤ 3
length-decimal n h = elim (decimal-cases n h) [
  | inl (_, e) ↦ rw e (omega arith)
  | inr (inl (e, _)) ↦ rw e (omega arith)
  | inr (inr (e, _)) ↦ rw e (omega arith)
]

dotted_value-dot :
    (total group : ℕ) (s : Str)
    → dotted_value (total, group) (b'.' ∷ s) ≡ dotted_value (total * 256 + group, 0) s
unfolding dotted_value
dotted_value-dot total group s = refl

dotted_value-group :
    (total n : ℕ)
    → n < 256
    → (s : Str)
    → dotted_value (total, 0) (decimal n ++ (b'.' ∷ s)) ≡ dotted_value (total * 256 + n, 0) s
dotted_value-group total n h s =
    dotted_value-decimal total n h (b'.' ∷ s) ∙ dotted_value-dot total n s

dotted_value-last : (total n : ℕ) → n < 256 → dotted_value (total, 0) (decimal n) ≡ total * 256 + n
unfolding dotted_value
dotted_value-last total n h =
    ap (dotted_value (total, 0)) (sym (append-nil (decimal n))) ∙ dotted_value-decimal total n h []

dotted_groups :
    (a b c d : ℕ)
    → a < 256
    → b < 256
    → c < 256
    → d < 256
    → dotted_value
        (0, 0)
        (decimal a ++ (b'.' ∷ (decimal b ++ (b'.' ∷ (decimal c ++ (b'.' ∷ decimal d))))))
      ≡ (((0 * 256 + a) * 256 + b) * 256 + c) * 256 + d
dotted_groups a b c d ha hb hc hd =
    dotted_value-group 0 a ha _
    ∙ dotted_value-group (0 * 256 + a) b hb _
    ∙ dotted_value-group ((0 * 256 + a) * 256 + b) c hc _
    ∙ dotted_value-last (((0 * 256 + a) * 256 + b) * 256 + c) d hd

length-groups :
    (a b c d : ℕ)
    → a < 256
    → b < 256
    → c < 256
    → d < 256
    → length (decimal a ++ (b'.' ∷ (decimal b ++ (b'.' ∷ (decimal c ++ (b'.' ∷ decimal d)))))) ≤ 15
length-groups a b c d ha hb hc hd = omega (
  arith,
  length-append (decimal a) (b'.' ∷ (decimal b ++ (b'.' ∷ (decimal c ++ (b'.' ∷ decimal d))))),
  length-append (decimal b) (b'.' ∷ (decimal c ++ (b'.' ∷ decimal d))),
  length-append (decimal c) (b'.' ∷ decimal d),
  length-decimal a ha,
  length-decimal b hb,
  length-decimal c hc,
  length-decimal d hd,
)

-- The text that `inet4address2string` makes of an address of 32 bits, read from the left as a dotted
-- decimal, gives the address, and has at most 15 bytes, so that it fits the block that is allocated.
pub inet4address2string-dotted_value :
    (address : ℕ)
    → address < 2 ^ 32
    → (dotted_value (0, 0) (inet4address2string address) ≡ address)
      × (length (inet4address2string address) ≤ 15)
unfolding inet4address2string
inet4address2string-dotted_value address h =
    let a = address / 2 ^ 24 % 256 in
    let b = address / 2 ^ 16 % 256 in
    let c = address / 2 ^ 8 % 256 in
    let d = address % 256 in
    (
      dotted_groups a b c d (omega arith) (omega arith) (omega arith) (omega arith) ∙ omega arith,
      length-groups a b c d (omega arith) (omega arith) (omega arith) (omega arith),
    )
