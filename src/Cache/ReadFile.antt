-- ===== src/Cache/ReadFile.antt =====
-- ipv4_cache.c: `ipv4_read_file`, which puts the lines of a configuration file into the cache.
-- The file system and `uv_ip4_addr` are parameters: `contents` gives the bytes of a file that opens, and
-- `uv_ip4_addr` the word that it leaves in `sin_addr.s_addr`.
use post_dns.Base.{
  ℕ, ◌+◌, ◌-◌, ◌^◌, List, [], ◌∷◌, ◌++◌, true, ◌||◌, ◌==◌, Option, none, some, ltb, if◌then◌else◌,
  length, set, replicate, drop, Run, ok, fault, Fault, ◌>>=◌,
}
use post_dns.Text.{Str, string_malloc, string_dup, string_split, c_string}
use post_dns.Words.{swap32}
use post_dns.HashTable.{HashTable}
use post_dns.Cache.{Ipv4Cache, ipv4_cache_put}

-- The lines as `fgets(buf, 1024, file)` reads them: up to a newline, which belongs to the line, and 1023
-- bytes at most. `room` is what the buffer still takes, `line` what it holds.
unfoldable pub fgets_lines : ℕ → List ℕ → List ℕ → List (List ℕ)
fgets_lines room line [] = if length line == 0 then [] else line ∷ []
fgets_lines room line (c ∷ s) =
    let rest = fgets_lines (room - 1) (line ++ c ∷ []) s in
    let fresh = fgets_lines 1023 [] s in
    if (c == 0x0a) || (room == 1) then (line ++ c ∷ []) ∷ fresh else rest

-- `string_malloc(buf, strlen(buf) - 1)`; for an empty text the length is -1, and `memcpy` reads outside.
unfoldable pub without_last : List ℕ → Run Str
unfolding string_malloc
without_last line =
    let text = c_string line in
    if length text == 0 then fault Fault.out_of_bounds else string_malloc line (length text - 1)

-- A write to an array, checked.
unfoldable pub write_at : List ℕ → ℕ → ℕ → Run (List ℕ)
write_at xs i v = if ltb i (length xs) then ok (set xs i v) else fault Fault.out_of_bounds

-- `char address[length + 1]` with what the stack holds, the write of the NUL, and the copy.
unfoldable pub address_array : ℕ → Str → Run (List ℕ)
unfolding write_at
address_array junk piece = do
  address ← write_at (replicate (length piece + 1) junk) (length piece + 1) 0
  ok (piece ++ drop (length piece) address)

module _ (uv_ip4_addr : List ℕ → ℕ) (junk now : ℕ) where
  -- A line of two pieces is a name and an address; any other one is logged.
  unfoldable pub ipv4_read_pieces : List Str → HashTable Ipv4Cache → Run (HashTable Ipv4Cache)
  unfolding address_array
  ipv4_read_pieces (name ∷ piece ∷ []) table = do
    address ← address_array junk piece
    ipv4_cache_put table now (string_dup name) (record {
      node = swap32 (uv_ip4_addr address) ∷ [];
      ttl = 1;
      timestamp = 2 ^ 64 - 1;
      manual = true;
    })
  ipv4_read_pieces _ table = ok table

  unfoldable pub ipv4_read_line : List ℕ → HashTable Ipv4Cache → Run (HashTable Ipv4Cache)
  unfolding without_last ipv4_read_pieces
  ipv4_read_line line table = do
    result ← without_last line
    ipv4_read_pieces (string_split result 0x20) table

  unfoldable pub ipv4_read_lines : List (List ℕ) → HashTable Ipv4Cache → Run (HashTable Ipv4Cache)
  unfolding ipv4_read_line
  ipv4_read_lines [] table = ok table
  ipv4_read_lines (line ∷ lines) table = do
    table' ← ipv4_read_line line table
    ipv4_read_lines lines table'

  unfoldable pub ipv4_read_file :
      (Str → Option (List ℕ)) → Option Str → HashTable Ipv4Cache → Run (HashTable Ipv4Cache)
  unfolding ipv4_read_lines
  ipv4_read_file contents none table = ok table
  ipv4_read_file contents (some file_name) table = elim (contents file_name) [
    | none ↦ ok table
    | some bytes ↦ ipv4_read_lines (fgets_lines 1023 [] bytes) table
  ]
