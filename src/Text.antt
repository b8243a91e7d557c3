-- ===== src/Text.antt =====
-- string_t.c: byte strings with their length. A `string_t` is the list of its bytes, each below 256;
-- a `string_t *` that can be NULL is an `Option`.
pub mod Murmur
pub mod Equal
pub mod Split
use post_dns.Base.{
  ℕ, zero, suc, ◌+◌, ◌-◌, ◌≤◌, List, [], ◌∷◌, ◌++◌, Bool, true, false, Option, none, some, ◌==◌,
  leb, if◌then◌else◌, length, take, replicate, Run, ok, fault, Fault,
}

abbrev pub Str : Type 0
Str = List ℕ

-- A copy of `n` bytes; `memcpy` may read no byte behind the block.
unfoldable pub string_malloc : List ℕ → ℕ → Run Str
string_malloc value n =
    if leb n (length value) then ok (take n value) else fault Fault.out_of_bounds

unfoldable pub string_dup : Str → Str
string_dup target = target

-- The loop over the two values, which have the same length.
equal_loop : Str → Str → Bool
equal_loop [] b = true
equal_loop (x ∷ a) [] = true
equal_loop (x ∷ a) (y ∷ b) = if x == y then equal_loop a b else false

unfoldable pub string_equal : Option Str → Option Str → Bool
unfolding equal_loop
string_equal none b = false
string_equal (some a) none = false
string_equal (some a) (some b) = if length a == length b then equal_loop a b else false

-- The first loop of `string_split`: the length of the array that it allocates.
unfoldable pub split_length : ℕ → Str → ℕ
split_length separator [] = 1
split_length separator (c ∷ s) =
    if c == separator then split_length separator s + 1 else split_length separator s

-- The second loop. `piece` holds the bytes from `last_pos` up to `i`.
unfoldable pub split_loop : ℕ → Str → Str → List Str
split_loop separator piece [] = piece ∷ []
split_loop separator piece (c ∷ s) = elim (c == separator) [
  | true ↦ piece ∷ split_loop separator [] s
  | false ↦ split_loop separator (piece ++ c ∷ []) s
]

unfoldable pub string_split : Str → ℕ → List Str
unfolding split_loop
string_split str separator = split_loop separator [] str

-- The bytes before the first NUL: what `strncpy`, `strcpy` and `%s` take from a block.
unfoldable pub c_string : List ℕ → Str
c_string [] = []
c_string (c ∷ s) = if c == 0 then [] else c ∷ c_string s

-- `strncpy` fills up with NULs, and a NUL stands behind.
unfoldable pub string_print : Str → List ℕ
unfolding c_string
string_print str = let text = c_string str in text ++ replicate (length str + 1 - length text) 0
