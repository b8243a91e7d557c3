-- ===== src/Cache.antt =====
-- The three caches: ipv4_cache.c, ipv6_cache.c and cname_cache.c, over hash_table.c.
-- `now` is what `time(NULL)` returns. A linked list of addresses is a list.
pub mod Expiry
pub mod Put
pub mod Clear
pub mod ReadFile
pub mod Lines
pub mod Values
use post_dns.Base.{
  ℕ, ◌+◌, List, [], ◌∷◌, ◌++◌, Bool, true, false, ◌&&◌, Option, none, some, ltb, if◌then◌else◌,
  length, Run, ok, fault, Fault, ◌>>=◌,
}
use mathlib.Core.Bool.{not}
use post_dns.Text.{Str}
use post_dns.HashTable.{
  HashNode, null, dangling, cell, HashTable, hash_table_new, hash_table_put, hash_table_get,
  hash_table_remove, hash_table_free, write_through,
}

pub record Ipv4Cache : Type 0 where
  pub node : List ℕ
  pub ttl : ℕ
  pub timestamp : ℕ
  pub manual : Bool

pub record Ipv6Cache : Type 0 where
  pub node : List (List ℕ)
  pub ttl : ℕ
  pub timestamp : ℕ
  pub manual : Bool

pub record CnameCache : Type 0 where
  pub name : Str
  pub ttl : ℕ
  pub timestamp : ℕ
  pub manual : Bool

unfoldable pub ipv4_cache_get : HashTable Ipv4Cache → Str → Run (Option Ipv4Cache)
ipv4_cache_get table name = hash_table_get table name

-- What is stored in either branch: the time is taken anew, and `manual` is cleared.
abbrev pub ipv4_entry : ℕ → Ipv4Cache → Ipv4Cache
ipv4_entry now cache = record {
  node = cache.node;
  ttl = cache.ttl;
  timestamp = now;
  manual = false;
}

unfoldable pub ipv4_cache_put :
    HashTable Ipv4Cache → ℕ → Str → Ipv4Cache → Run (HashTable Ipv4Cache)
ipv4_cache_put table now name cache = do
  found ← ipv4_cache_get table name
  elim found [
    | none ↦ hash_table_put table (some name) (some (ipv4_entry now cache))
    | some old_cache ↦
        if old_cache.manual then ok table else write_through table name (ipv4_entry now cache)
  ]

unfoldable pub ipv6_cache_get : HashTable Ipv6Cache → Str → Run (Option Ipv6Cache)
ipv6_cache_get table name = hash_table_get table name

abbrev pub ipv6_entry : ℕ → Ipv6Cache → Ipv6Cache
ipv6_entry now cache = record {
  node = cache.node;
  ttl = cache.ttl;
  timestamp = now;
  manual = false;
}

unfoldable pub ipv6_cache_put :
    HashTable Ipv6Cache → ℕ → Str → Ipv6Cache → Run (HashTable Ipv6Cache)
ipv6_cache_put table now name cache = do
  found ← ipv6_cache_get table name
  elim found [
    | none ↦ hash_table_put table (some name) (some (ipv6_entry now cache))
    | some old_cache ↦ write_through table name (ipv6_entry now cache)
  ]

abbrev pub cname_entry : ℕ → CnameCache → CnameCache
cname_entry now cache = record {
  name = cache.name;
  ttl = cache.ttl;
  timestamp = now;
  manual = false;
}

unfoldable pub cname_cache_put :
    HashTable CnameCache → ℕ → Str → CnameCache → Run (HashTable CnameCache)
cname_cache_put table now name cache =
    hash_table_put table (some name) (some (cname_entry now cache))

unfoldable pub cname_cache_get : HashTable CnameCache → Str → Run (Option CnameCache)
cname_cache_get table name = hash_table_get table name

-- `cname_cache_clear` has an empty body.
unfoldable pub cname_cache_clear : HashTable CnameCache → HashTable CnameCache
cname_cache_clear table = table

-- The tests of the two loops over all entries. The C numbers are signed; a timestamp is a time that was
-- taken, and a TTL is 120, or 1 from the file, so none is negative.
unfoldable pub ipv4_expired : ℕ → Ipv4Cache → Bool
ipv4_expired now cache = not cache.manual && ltb (cache.timestamp + cache.ttl) now

unfoldable pub ipv6_expired : ℕ → Ipv6Cache → Bool
ipv6_expired now cache = ltb (cache.timestamp + cache.ttl) now

module _ {ℓ} {V : Type ℓ} (expired : V → Bool) where
  -- The names that one chain adds to `result`.
  unfoldable pub collect_chain : HashNode V → Run (List Str)
  collect_chain null = ok []
  collect_chain dangling = fault Fault.use_after_free
  collect_chain (cell none next) = ok []
  collect_chain (cell (some e) next) = do
    names ← collect_chain next
    ok (if expired e.1 then e.0 ∷ names else names)

  unfoldable pub collect_table : List (HashNode V) → Run (List Str)
  collect_table [] = ok []
  collect_table (node ∷ nodes) = do
    here ← collect_chain node
    names ← collect_table nodes
    ok (here ++ names)

module _ {ℓ} {V : Type ℓ} where
  -- The second loop, with a call of `hash_table_remove` for each name.
  unfoldable pub remove_all : List Str → HashTable V → Run (HashTable V)
  remove_all [] table = ok table
  remove_all (name ∷ names) table = do
    table' ← hash_table_remove table name
    remove_all names table'

  -- `result` has room for `table->count` names.
  unfoldable pub clear : (V → Bool) → HashTable V → Run (HashTable V)
  clear expired table = do
    names ← collect_table expired table.table
    if ltb table.count (length names) then fault Fault.out_of_bounds else remove_all names table

unfoldable pub ipv4_cache_clear : HashTable Ipv4Cache → ℕ → Run (HashTable Ipv4Cache)
ipv4_cache_clear table now = clear (ipv4_expired now) table

unfoldable pub ipv6_cache_clear : HashTable Ipv6Cache → ℕ → Run (HashTable Ipv6Cache)
ipv6_cache_clear table now = clear (ipv6_expired now) table

unfoldable pub ipv4_cache_free : HashTable Ipv4Cache → Run (List (Str × Ipv4Cache))
ipv4_cache_free table = hash_table_free table

unfoldable pub ipv6_cache_free : HashTable Ipv6Cache → Run (List (Str × Ipv6Cache))
ipv6_cache_free table = hash_table_free table

unfoldable pub cname_cache_free : HashTable CnameCache → Run (List (Str × CnameCache))
cname_cache_free table = hash_table_free table
