-- ===== src/Text/Split.antt =====
-- string_t.c: `string_split`, its two loops and its pieces.
use post_dns.Base.{
  ℕ, ◌≡◌, ◌≢◌, refl, ◌∙◌, List, [], ◌∷◌, ◌++◌, append_assoc, append-nil, arith, inl, inr, length,
  All, true, false, ◌==◌, Bool-cases, ==_iff,
}
use post_dns.Text.{Str, split_length, split_loop, string_split}

-- The pieces with the separator between them.
abbrev pub join : ℕ → List Str → Str
join separator [] = []
join separator (p ∷ []) = p
join separator (p ∷ q ∷ ps) = p ++ separator ∷ join separator (q ∷ ps)

-- No byte of the piece is the separator.
abbrev pub Lacks : ℕ → Str → Type 0
Lacks separator = All (λ c. c ≢ separator)

module _ (separator : ℕ) where
  -- One round of the second loop, at the separator and at any other byte.
  at_separator :
      (piece : Str) (c : ℕ) (s : Str)
      → c == separator ≡ true
      → split_loop separator piece (c ∷ s) ≡ piece ∷ split_loop separator [] s
  unfolding split_loop
  at_separator piece c s e = ground arith

  at_other :
      (piece : Str) (c : ℕ) (s : Str)
      → c == separator ≡ false
      → split_loop separator piece (c ∷ s) ≡ split_loop separator (piece ++ c ∷ []) s
  unfolding split_loop
  at_other piece c s e = ground arith

  length-split_loop :
      (piece s : Str) → length (split_loop separator piece s) ≡ split_length separator s
  unfolding split_length
  length-split_loop piece [] = unfold split_loop in refl
  length-split_loop piece (c ∷ s) = elim (Bool-cases (c == separator)) [
    | inl e ↦ rw (at_separator piece c s e, e) (omega (arith, length-split_loop [] s))
    | inr e ↦ rw (at_other piece c s e, e) (length-split_loop (piece ++ c ∷ []) s)
  ]

  split_loop-cons :
      (piece s : Str) → (p : Str) × (ps : List Str) × (split_loop separator piece s ≡ p ∷ ps)
  split_loop-cons piece [] = (piece, [], unfold split_loop in refl)
  split_loop-cons piece (c ∷ s) = elim (Bool-cases (c == separator)) [
    | inl e ↦ (piece, split_loop separator [] s, at_separator piece c s e)
    | inr e ↦ rw (at_other piece c s e) (split_loop-cons (piece ++ c ∷ []) s)
  ]

  join-cons :
      (piece : Str) (ps : List Str)
      → ((p : Str) × (qs : List Str) × (ps ≡ p ∷ qs))
      → join separator (piece ∷ ps) ≡ piece ++ separator ∷ join separator ps
  join-cons piece ps (p, qs, e) = rw e

  join-split_loop : (piece s : Str) → join separator (split_loop separator piece s) ≡ piece ++ s
  join-split_loop piece [] = unfold split_loop in rw append-nil
  join-split_loop piece (c ∷ s) = elim (Bool-cases (c == separator)) [
    | inl e ↦ rw (at_separator piece c s e) (
        join-cons piece _ (split_loop-cons [] s)
        ∙ rw (join-split_loop [] s, (==_iff c separator).0 e))
    | inr e ↦
        rw (at_other piece c s e)
          (join-split_loop (piece ++ c ∷ []) s ∙ append_assoc piece (c ∷ []) s)
  ]

  Lacks-snoc :
      (xs : Str) (y : ℕ) → Lacks separator xs → y ≢ separator → Lacks separator (xs ++ y ∷ [])
  Lacks-snoc [] y h k = (k, tt)
  Lacks-snoc (x ∷ xs) y h k = (h.0, Lacks-snoc xs y h.1 k)

  split_loop-Lacks :
      (piece s : Str) → Lacks separator piece → All (Lacks separator) (split_loop separator piece s)
  split_loop-Lacks piece [] h = unfold split_loop in (h, tt)
  split_loop-Lacks piece (c ∷ s) h = elim (Bool-cases (c == separator)) [
    | inl e ↦ rw (at_separator piece c s e) (h, split_loop-Lacks [] s tt)
    | inr e ↦
        rw (at_other piece c s e)
          (split_loop-Lacks (piece ++ c ∷ []) s (Lacks-snoc piece c h (ground arith)))
  ]

-- The second loop of `string_split` writes exactly as many entries as the first one counted, no
-- piece holds the separator, and the pieces joined by the separator are the string.
pub string_split_lem :
    (str : Str) (separator : ℕ)
    → (length (string_split str separator) ≡ split_length separator str)
      × All (Lacks separator) (string_split str separator)
      × (join separator (string_split str separator) ≡ str)
unfolding string_split
string_split_lem str separator = (
  length-split_loop separator [] str,
  split_loop-Lacks separator [] str tt,
  join-split_loop separator [] str,
)

pub string_split-cons :
    (str : Str) (separator : ℕ)
    → (p : Str) × (ps : List Str) × (string_split str separator ≡ p ∷ ps)
unfolding string_split
string_split-cons str separator = split_loop-cons separator [] str
