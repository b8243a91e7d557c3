-- ===== src/Text/Equal.antt =====
-- string_t.c: `string_equal` against equality of lists.
use post_dns.Base.{◌≡◌, refl, [], ◌∷◌, true, some, arith, ◌↔◌, length, ==_refl}
use post_dns.Text.{Str, equal_loop, string_equal}

equal_loop-eq : (a b : Str) → length a ≡ length b → equal_loop a b ≡ true → a ≡ b
unfolding equal_loop
equal_loop-eq [] [] h e = refl
equal_loop-eq [] (y ∷ b) h e = absurd (omega arith)
equal_loop-eq (x ∷ a) [] h e = absurd (omega arith)
equal_loop-eq (x ∷ a) (y ∷ b) h e = ground (arith, equal_loop-eq a b)

equal_loop_refl : (a : Str) → equal_loop a a ≡ true
unfolding equal_loop
equal_loop_refl [] = refl
equal_loop_refl (x ∷ a) = rw ==_refl (equal_loop_refl a)

-- `string_equal` of two strings holds exactly when their lengths and bytes are the same.
pub string_equal_iff : (a b : Str) → (string_equal (some a) (some b) ≡ true) ↔ (a ≡ b)
unfolding string_equal
string_equal_iff a b =
    (λ e. ground (arith, equal_loop-eq a b), λ e. rw (e, ==_refl) (equal_loop_refl b))

pub string_equal_refl : (a : Str) → string_equal (some a) (some a) ≡ true
string_equal_refl a = (string_equal_iff a a).1 refl
