-- ===== src/HashTable/Misremove.antt =====
-- hash_table.c: `hash_table_remove` on a name that is not there, and on the first of three names in a
-- bucket.
use post_dns.Base.{
  ◌<◌, ◌≡◌, ◌≢◌, refl, arith, none, some, length, Returns, fault, Fault, Bool-cases, inl, inr,
}
use post_dns.Text.{Str}
use post_dns.Text.Equal.{string_equal_iff, string_equal_refl}
use post_dns.HashTable.{
  HashNode, null, dangling, cell, HashTable, index, remove_behind, remove_entry, unlink_head,
  free_node, hash_table_remove, hash_table_get, search_chain,
}
use post_dns.HashTable.Chain.{same, entries, lookup, IsBucket, IsChain}
use post_dns.HashTable.Rows.{IsBucket-get_or}
use post_dns.HashTable.Invariant.{view, IsPlaced, node_of, at-home, at-written, written}

module _ {ℓ} {V : Type ℓ} where
  -- A name that is not there, in a bucket that is not empty: the loop reads through NULL.
  remove_behind_absent :
      (k : Str) (node : HashNode V)
      → IsChain node
      → lookup k (entries node) ≡ none
      → remove_behind k node ≡ fault Fault.null_pointer
  unfolding remove_behind entries lookup
  remove_behind_absent k null h absent = refl
  remove_behind_absent k dangling h absent = absurd h
  remove_behind_absent k (cell none next) h absent = absurd h
  remove_behind_absent k (cell (some e) next) h absent = elim (Bool-cases (same e.0 k)) [
    | inl found ↦ absurd (ground arith)
    | inr other ↦ rw (other, remove_behind_absent k next h (rw other at absent))
  ]

  remove_entry_absent :
      (k : Str) (node : HashNode V)
      → IsBucket node
      → lookup k (entries node) ≡ none
      → 0 < length (entries node)
      → remove_entry k node ≡ fault Fault.null_pointer
  unfolding remove_entry entries lookup
  remove_entry_absent k null h absent some_there = absurd h
  remove_entry_absent k dangling h absent some_there = absurd h
  remove_entry_absent k (cell none next) h absent some_there = absurd (omega arith)
  remove_entry_absent k (cell (some e) next) h absent some_there = elim (Bool-cases (same e.0 k)) [
    | inl found ↦ absurd (ground arith)
    | inr other ↦ rw (other, remove_behind_absent k next h (rw other at absent))
  ]

  -- `hash_table_remove` of a name that a table with its names placed does not hold, in a bucket with
  -- an entry, reads through NULL.
  pub hash_table_remove_absent :
      (t : HashTable V) (k : Str)
      → IsPlaced t
      → view t k ≡ none
      → 0 < length (entries (node_of t k))
      → hash_table_remove t k ≡ fault Fault.null_pointer
  unfolding hash_table_remove view
  hash_table_remove_absent t k p absent filled = rw (
    at-home p k,
    remove_entry_absent k (node_of t k) (IsBucket-get_or t.table _ p.buckets) absent filled,
  )

  search_past_second :
      (q : Str) (e : Str × V)
      → q ≢ e.0
      → search_chain q (cell (some e) dangling) ≡ fault Fault.use_after_free
  unfolding search_chain
  search_past_second q e other = ground (arith, string_equal_iff e.0 q)

  -- Removing the first of three or more names in a bucket, from a table whose names are placed,
  -- frees a node that the chain still leads to: afterwards the search for any name of this bucket
  -- but the second one reads freed memory.
  pub hash_table_remove_dangling :
      (t : HashTable V) (k : Str) (v : V) (e f : Str × V) (rest : HashNode V)
      → IsPlaced t
      → node_of t k ≡ cell (some (k, v)) (cell (some e) (cell (some f) rest))
      → Returns (hash_table_remove t k) λ t'.
        (q : Str)
        → index t.capacity q ≡ index t.capacity k
        → q ≢ e.0
        → hash_table_get t' q ≡ fault Fault.use_after_free
  unfolding hash_table_remove remove_entry unlink_head free_node hash_table_get
  hash_table_remove_dangling t k v e f rest p shape = (
    written t k (cell (some e) dangling) t.count,
    rw (at-home p k, shape, string_equal_refl k),
    λ q here other.
        rw (at-written p k q (cell (some e) dangling) here) (search_past_second q e other),
  )
