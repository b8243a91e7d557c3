-- ===== src/Address/Colon.antt =====
-- utils.c: the texts of the two kinds of addresses are told apart by a colon.
use post_dns.Base.{
  ℕ, ◌+◌, ◌/◌, ◌%◌, ◌^◌, ◌<◌, ◌≡◌, refl, arith, true, false, ◌==◌, ◌||◌, List, [], ◌∷◌, ◌++◌,
  length, Bool, inl, inr,
}
use post_dns.Text.{Str}
use post_dns.Address.{decimal, inet4address2string, hex_byte, inet6_loop, inet6address2string}
use post_dns.Address.Dotted.{decimal-cases}

unfoldable pub has_colon : Str → Bool
has_colon [] = false
has_colon (c ∷ s) = c == b':' || has_colon s

or_true : (b : Bool) → (b || true) ≡ true
or_true true = refl
or_true false = refl

has_colon-append_true : (s s' : Str) → has_colon s' ≡ true → has_colon (s ++ s') ≡ true
unfolding has_colon
has_colon-append_true [] s' h = h
has_colon-append_true (c ∷ s) s' h = rw (has_colon-append_true s s' h) (or_true (c == b':'))

has_colon-append_false :
    (s s' : Str) → has_colon s ≡ false → has_colon s' ≡ false → has_colon (s ++ s') ≡ false
unfolding has_colon
has_colon-append_false [] s' h h' = h'
has_colon-append_false (c ∷ s) s' h h' = ground (arith, has_colon-append_false s s')

digit_is_no_colon : (n : ℕ) → n < 10 → (n + b'0') == b':' ≡ false
digit_is_no_colon n h = ground arith

decimal_has_no_colon : (n : ℕ) → n < 256 → has_colon (decimal n) ≡ false
unfolding has_colon
decimal_has_no_colon n h = elim (decimal-cases n h) [
  | inl (small, e) ↦ rw (e, digit_is_no_colon n small) refl
  | inr (inl (e, small)) ↦
      rw (e, digit_is_no_colon (n / 10) small, digit_is_no_colon (n % 10) (omega arith)) refl
  | inr (inr (e, small)) ↦
      rw
        (
          e,
          digit_is_no_colon (n / 100) small,
          digit_is_no_colon (n / 10 % 10) (omega arith),
          digit_is_no_colon (n % 10) (omega arith),
        )
        refl
]

group_has_no_colon :
    (n : ℕ) (s : Str) → n < 256 → has_colon s ≡ false → has_colon (decimal n ++ (b'.' ∷ s)) ≡ false
group_has_no_colon n s small h =
    has_colon-append_false (decimal n) (b'.' ∷ s) (decimal_has_no_colon n small)
      (unfold has_colon in h)

pub inet4address2string_has_no_colon : (a : ℕ) → has_colon (inet4address2string a) ≡ false
unfolding inet4address2string
inet4address2string_has_no_colon a = group_has_no_colon (a / 2 ^ 24 % 256) _ (omega arith) (
    group_has_no_colon (a / 2 ^ 16 % 256) _ (omega arith) (
      group_has_no_colon (a / 2 ^ 8 % 256) _ (omega arith)
        (decimal_has_no_colon (a % 256) (omega arith))))

-- A colon stands behind the second byte.
pub inet6address2string-has_colon :
    (bs : List ℕ) → length bs ≡ 16 → has_colon (inet6address2string bs) ≡ true
unfolding inet6address2string inet6_loop
inet6address2string-has_colon [] h = absurd (omega (arith, h))
inet6address2string-has_colon (a ∷ []) h = absurd (omega (arith, h))
inet6address2string-has_colon (a ∷ b ∷ bs) h =
    has_colon-append_true (hex_byte a) (hex_byte b ++ (b':' ∷ inet6_loop 2 bs))
      (has_colon-append_true (hex_byte b) (b':' ∷ inet6_loop 2 bs) (unfold has_colon in refl))
