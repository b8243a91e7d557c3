-- ===== src/Examples/Tables.antt =====
-- Tests of the strings, the words, the table and the caches.
use post_dns.Base.{
  ◌^◌, ◌+◌, ℕ, ◌≤◌, ◌<◌, ◌≡◌, ◌≢◌, refl, arith, [], ◌∷◌, true, false, some, none, if◌then◌else◌,
  length, ok, fault, Fault, Returns,
}
use post_dns.Text.{Str, string_equal}
use post_dns.Text.Murmur.{string_hash_code}
use post_dns.HashTable.{
  load_limit, null, cell, index, resize, hash_table_put, hash_table_get, hash_table_remove,
}
use post_dns.HashTable.Chain.{same, lookup, entries}
use post_dns.HashTable.Rows.{all_entries}
use post_dns.HashTable.Invariant.{view, IsValid, node_of}
use post_dns.HashTable.Put.{hash_table_get-view, hash_table_put_fits, Stores}
use post_dns.HashTable.Limit.{IsProduct}
use post_dns.HashTable.Resize.{Resized, resize_fits}
use post_dns.HashTable.Remove.{IsRemovable, hash_table_remove_lem}
use post_dns.HashTable.Misremove.{hash_table_remove_absent, hash_table_remove_dangling}
use post_dns.Cache.{
  Ipv4Cache, Ipv6Cache, CnameCache, ipv4_cache_put, cname_cache_put, cname_cache_get, ipv4_expired,
  clear, remove_all,
}
use post_dns.Cache.Put.{
  stamped_name, ipv4_kept, ipv4_cache_put_lem, cname_cache_get-cname_cache_put,
}
use post_dns.Cache.Expiry.{expired_names, clear-remove_all}
use post_dns.Examples.{
  name_a, name_d, name_g, one, two, three, one-IsValid, two-IsValid, three-IsValid,
}

abbrev seven : ℕ
seven = 7

holds_one : view (one seven) name_a ≡ some 7
unfolding view index string_hash_code lookup entries string_equal
holds_one = refl

holds_two : view (two seven) name_a ≡ some 7
unfolding view index string_hash_code lookup entries string_equal
holds_two = refl

lacks_one : view (one seven) name_d ≡ none
unfolding view index string_hash_code lookup entries string_equal
lacks_one = refl

filled_one : 0 < length (entries (node_of (one seven) name_d))
unfolding index string_hash_code entries
filled_one = omega arith

two-IsRemovable : IsRemovable name_a (entries (node_of (two seven) name_a))
unfolding index string_hash_code entries
two-IsRemovable = λ e. omega arith

three_a :
    node_of (three seven) name_a
    ≡ cell (some (name_a, 7)) (cell (some (name_d, 7)) (cell (some (name_g, 7)) null))
unfolding index string_hash_code
three_a = refl

hash_table_get-view_example : hash_table_get (three seven) name_d ≡ ok (view (three seven) name_d)
hash_table_get-view_example = hash_table_get-view (three-IsValid seven).placed name_d

hash_table_put_fits_example : Returns (hash_table_put (three seven) (some name_a) (some 8)) λ t'.
    IsValid t' × Stores (three seven) name_a 8 t' × (t'.capacity < 2 ^ 31) × (t'.count < 2 ^ 31)
hash_table_put_fits_example =
    hash_table_put_fits (three seven) name_a 8 (three-IsValid seven) (omega arith)

three_entries : (three seven).count + length (all_entries (three seven).table) < 2 ^ 31
unfolding all_entries entries
three_entries = omega arith

resize_fits_example : Returns (resize (three seven)) λ t'.
    Resized (three seven) t'
    × IsProduct 17 t'.threshold
    × (t'.capacity < 2 ^ 31)
    × (t'.count < 2 ^ 31)
resize_fits_example =
    resize_fits (three seven) (three-IsValid seven).placed (omega arith) three_entries

hash_table_remove_lem_example : Returns (hash_table_remove (two seven) name_a) λ t'.
    IsValid t'
    × ((q : Str) → view t' q ≡ (if same name_a q then none else view (two seven) q))
    × (t'.count ≡ 2)
    × (t'.capacity ≡ 8)
hash_table_remove_lem_example =
    hash_table_remove_lem (two seven) name_a 7 (two-IsValid seven) holds_two two-IsRemovable

hash_table_remove_absent_example : hash_table_remove (one seven) name_d ≡ fault Fault.null_pointer
hash_table_remove_absent_example =
    hash_table_remove_absent (one seven) name_d (one-IsValid seven).placed lacks_one filled_one

hash_table_remove_dangling_example : Returns (hash_table_remove (three seven) name_a) λ t'.
    (q : Str)
    → index 8 q ≡ index 8 name_a
    → q ≢ name_d
    → hash_table_get t' q ≡ fault Fault.use_after_free
hash_table_remove_dangling_example =
    hash_table_remove_dangling (three seven) name_a 7 (name_d, 7) (name_g, 7) null
      (three-IsValid seven).placed three_a

abbrev banned_entry : Ipv4Cache
banned_entry = record { node = 0 ∷ []; ttl = 120; timestamp = 0; manual = true }

abbrev entry4 : Ipv4Cache
entry4 = record { node = 7 ∷ 8 ∷ []; ttl = 120; timestamp = 0; manual = false }

abbrev entry6 : Ipv6Cache
entry6 = record { node = (1 ∷ 2 ∷ []) ∷ []; ttl = 120; timestamp = 0; manual = false }

abbrev entry_alias : CnameCache
entry_alias = record { name = name_d; ttl = 120; timestamp = 0; manual = false }

ipv4_cache_put_lem_example : Returns (ipv4_cache_put (one banned_entry) 5 name_a entry4) λ t'.
    IsValid t'
    × Stores (one banned_entry) name_a (ipv4_kept 5 entry4 (view (one banned_entry) name_a)) t'
ipv4_cache_put_lem_example =
    ipv4_cache_put_lem (one banned_entry) 5 name_a entry4 (one-IsValid banned_entry)

cname_cache_get-cname_cache_put_example :
    Returns (cname_cache_put (one entry_alias) 5 name_g entry_alias) λ t'.
      (q : Str)
      → cname_cache_get t' q ≡ (
          if same name_g q
          then ok (some (stamped_name 5 entry_alias))
          else cname_cache_get (one entry_alias) q)
cname_cache_get-cname_cache_put_example =
    cname_cache_get-cname_cache_put (one entry_alias) 5 name_g entry_alias (one-IsValid entry_alias)

clear-remove_all_example :
    (length (expired_names (ipv4_expired 500) (all_entries (two entry4).table)) ≤ 2)
    × (clear (ipv4_expired 500) (two entry4)
        ≡ remove_all
            (expired_names (ipv4_expired 500) (all_entries (two entry4).table))
            (two entry4))
clear-remove_all_example = clear-remove_all (ipv4_expired 500) (two entry4) (two-IsValid entry4)

-- From this capacity on the product with the load factor is rounded up.
load_limit_rounded : load_limit 18874367 ≡ 14155776
unfolding load_limit
load_limit_rounded = refl
