-- ===== src/Cache/Lines.antt =====
-- ipv4_cache.c: `ipv4_read_file` on files without a NUL.
use post_dns.Base.{
  ℕ, arith, ◌≢◌, refl, length-append, suc, ◌+◌, ◌-◌, ◌≡◌, List, [], ◌∷◌, ◌++◌, Bool, true, false,
  ◌||◌, ◌==◌, Option, none, some, if◌then◌else◌, ap, length, take, All, length-replicate,
  ==-eq-false, ltb-eq-false, le→leb, Bool-cases, inl, inr, ◌<◌, replicate, ok, fault, Fault,
}
use post_dns.Text.{Str, string_malloc, string_split, c_string}
use post_dns.HashTable.{HashTable}
use post_dns.Cache.{Ipv4Cache}
use post_dns.Cache.ReadFile.{
  fgets_lines, without_last, write_at, address_array, ipv4_read_pieces, ipv4_read_line,
  ipv4_read_lines, ipv4_read_file,
}

-- The pieces of a line, without its last byte.
abbrev pub pieces : List ℕ → List Str
pieces line = string_split (take (length line - 1) line) 0x20

-- The text has a byte, and none that is NUL.
abbrev pub IsText : List ℕ → Type 0
IsText line = (0 < length line) × (c_string line ≡ line)

-- The line has two pieces.
unfoldable pub is_pair : List Str → Bool
is_pair (name ∷ piece ∷ []) = true
is_pair _ = false

-- Some line has two pieces.
unfoldable pub has_pair : List (List ℕ) → Bool
unfolding is_pair
has_pair [] = false
has_pair (line ∷ lines) = if is_pair (pieces line) then true else has_pair lines

without_last-text :
    (line : List ℕ) → IsText line → without_last line ≡ ok (take (length line - 1) line)
unfolding without_last string_malloc
without_last-text line (long, text) =
    rw
      (
        text,
        ==-eq-false (length line) 0 (omega arith),
        le→leb (length line - 1) (length line) (omega arith),
      )
      refl

c_string-text : (s : List ℕ) → All (λ c. c ≢ 0) s → c_string s ≡ s
unfolding c_string
c_string-text [] h = refl
c_string-text (c ∷ s) (h, hs) =
    rw (==-eq-false c 0 h) (ap (λ (t : List ℕ). c ∷ t) (c_string-text s hs))

snoc-text : (s : List ℕ) (c : ℕ) → All (λ x. x ≢ 0) s → c ≢ 0 → All (λ x. x ≢ 0) (s ++ c ∷ [])
snoc-text [] c h n = (n, tt)
snoc-text (x ∷ s) c (h, hs) n = (h, snoc-text s c hs n)

-- The lines of a file without a NUL are text.
fgets_lines-IsText :
    (room : ℕ) (line s : List ℕ)
    → All (λ c. c ≢ 0) line
    → All (λ c. c ≢ 0) s
    → All IsText (fgets_lines room line s)
unfolding fgets_lines
fgets_lines-IsText room [] [] h hs = tt
fgets_lines-IsText room (c ∷ line) [] h hs =
    rw (==-eq-false (suc (length line)) 0 (λ e. omega arith))
      ((omega arith, c_string-text (c ∷ line) h), tt)
fgets_lines-IsText room line (c ∷ s) h (n, hs) =
    let grown = snoc-text line c h n in
    elim (Bool-cases ((c == 0x0a) || (room == 1))) [
      | inl z ↦ rw z (
        (omega (arith, length-append line (c ∷ [])), c_string-text (line ++ c ∷ []) grown),
        fgets_lines-IsText 1023 [] s tt hs,
      )
      | inr z ↦ rw z (fgets_lines-IsText (room - 1) (line ++ c ∷ []) s grown hs)
    ]

module _ (uv_ip4_addr : List ℕ → ℕ) (junk now : ℕ) where
  pieces_lem :
      (ps : List Str) (table : HashTable Ipv4Cache)
      → ipv4_read_pieces uv_ip4_addr junk now ps table
        ≡ (if is_pair ps then fault Fault.out_of_bounds else ok table)
  unfolding ipv4_read_pieces is_pair address_array write_at
  pieces_lem [] table = refl
  pieces_lem (name ∷ []) table = refl
  pieces_lem (name ∷ piece ∷ []) table =
      rw
        (ltb-eq-false (length piece + 1) (length (replicate (length piece + 1) junk))
          (omega (arith, length-replicate (length piece + 1) junk)))
        refl
  pieces_lem (name ∷ piece ∷ other ∷ ps) table = refl

  read_lines_lem :
      (lines : List (List ℕ)) (table : HashTable Ipv4Cache)
      → All IsText lines
      → ipv4_read_lines uv_ip4_addr junk now lines table
        ≡ (if has_pair lines then fault Fault.out_of_bounds else ok table)
  unfolding ipv4_read_lines ipv4_read_line has_pair
  read_lines_lem [] table h = refl
  read_lines_lem (line ∷ lines) table (h, hs) =
      let first = without_last-text line h in
      elim (Bool-cases (is_pair (pieces line))) [
        | inl z ↦ rw (first, pieces_lem (pieces line) table, z) refl
        | inr z ↦ rw (first, pieces_lem (pieces line) table, z) (read_lines_lem lines table hs)
      ]

  -- Whatever `uv_ip4_addr` gives: without a file name, without a file, or with a file without a NUL
  -- in which no line, less its last byte, has two pieces, the cache stays as it is. A file without a
  -- NUL in which some line has two pieces ends in a write outside of an array.
  pub ipv4_read_file_lem :
      (contents : Str → Option (List ℕ)) (table : HashTable Ipv4Cache)
      → (ipv4_read_file uv_ip4_addr junk now contents none table ≡ ok table)
        × ((name : Str)
            → contents name ≡ none
            → ipv4_read_file uv_ip4_addr junk now contents (some name) table ≡ ok table)
        × ((name : Str) (bytes : List ℕ)
            → contents name ≡ some bytes
            → All (λ c. c ≢ 0) bytes
            → ipv4_read_file uv_ip4_addr junk now contents (some name) table ≡ (
                if has_pair (fgets_lines 1023 [] bytes)
                then fault Fault.out_of_bounds
                else ok table))
  unfolding ipv4_read_file
  ipv4_read_file_lem contents table = (
    refl,
    λ name e. rw (ipv4_read_file, e) refl,
    λ name bytes e text.
        rw (ipv4_read_file, e)
          (read_lines_lem (fgets_lines 1023 [] bytes) table
            (fgets_lines-IsText 1023 [] bytes tt text)),
  )
