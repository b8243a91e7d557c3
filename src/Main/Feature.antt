-- ===== src/Main/Feature.antt =====
-- message.c: what two messages with the same key have in common.
use post_dns.Base.{
  ℕ, ◌≡◌, refl, sym, ap, ◌∙◌, arith, [], ◌∷◌, ◌++◌, append_assoc, init, init-append, ok, Returns,
  >>=-eq-ok,
}
use post_dns.Text.{Str}
use post_dns.HashTable.Values.{ok-eq}
use post_dns.Words.{bytes16}
use post_dns.Message.{Message}
use post_dns.Message.Build.{feature_queries, message2feature_string}
use post_dns.Main.Steps.{SameFeature}

last_or : ℕ → Str → ℕ
last_or d [] = d
last_or d (x ∷ xs) = last_or x xs

last_or-append : (d : ℕ) (xs : Str) (y : ℕ) → last_or d (xs ++ y ∷ []) ≡ y
unfolding last_or
last_or-append d [] y = refl
last_or-append d (x ∷ xs) y = last_or-append x xs y

snoc_injective : (xs ys : Str) (x y : ℕ) → xs ++ x ∷ [] ≡ ys ++ y ∷ [] → (xs ≡ ys) × (x ≡ y)
snoc_injective xs ys x y e = (
  sym (init-append xs x) ∙ ap init e ∙ init-append ys y,
  sym (last_or-append 0 xs x) ∙ ap (last_or 0) e ∙ last_or-append 0 ys y,
)

two_injective :
    (xs ys : Str) (a b c d : ℕ)
    → xs ++ a ∷ b ∷ [] ≡ ys ++ c ∷ d ∷ []
    → (xs ≡ ys) × (a ≡ c) × (b ≡ d)
two_injective xs ys a b c d e =
    let whole : (xs ++ a ∷ []) ++ b ∷ [] ≡ (ys ++ c ∷ []) ++ d ∷ [] =
      append_assoc xs (a ∷ []) (b ∷ []) ∙ e ∙ sym (append_assoc ys (c ∷ []) (d ∷ [])) in
    let (front, same_b) = snoc_injective (xs ++ a ∷ []) (ys ++ c ∷ []) b d whole in
    let (same_xs, same_a) = snoc_injective xs ys a c front in (same_xs, same_a, same_b)

-- The key ends in the two bytes of the identifier.
key_parts :
    (m : Message) {k : Str}
    → message2feature_string m ≡ ok k
    → Returns (feature_queries m.query_count m.queries) λ qs. qs ++ bytes16 m.id ≡ k
unfolding message2feature_string
key_parts m h =
    let (qs, run, h₁) = >>=-eq-ok (feature_queries m.query_count m.queries) _ h in
    (qs, run, ok-eq h₁)

pub key-SameFeature :
    (m m' : Message) (k : Str)
    → message2feature_string m ≡ ok k
    → message2feature_string m' ≡ ok k
    → SameFeature m m'
key-SameFeature m m' k h h' =
    let (qs, run, e) = key_parts m h in
    let (qs', run', e') = key_parts m' h' in
    let (same_qs, low, high) = two_injective qs qs' _ _ _ _ (e ∙ sym e') in
    (omega (arith, low, high), qs, run, run' ∙ ap ok (sym same_qs))
