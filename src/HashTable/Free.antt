-- ===== src/HashTable/Free.antt =====
-- hash_table.c: `hash_table_free`, which walks over all nodes once more.
use post_dns.Base.{List, [], ◌∷◌, none, some, ◌≡◌, refl, All, ok, bind_ok}
use post_dns.HashTable.{
  HashNode, null, dangling, cell, HashTable, free_nodes, free_row, free_rows, hash_table_free,
}
use post_dns.HashTable.Chain.{IsBucket, IsChain, entries}
use post_dns.HashTable.Rows.{all_entries}
use post_dns.HashTable.Invariant.{IsPlaced}

module _ {ℓ} {V : Type ℓ} where
  chain_released : (node : HashNode V) → IsChain node → free_nodes node ≡ ok (entries node)
  unfolding free_nodes entries
  chain_released null h = refl
  chain_released dangling h = absurd h
  chain_released (cell none next) h = absurd h
  chain_released (cell (some e) next) h = bind_ok _ _ (chain_released next h) refl

  row_released : (node : HashNode V) → IsBucket node → free_row node ≡ ok (entries node)
  unfolding free_row entries
  row_released null h = absurd h
  row_released dangling h = absurd h
  row_released (cell none next) h = refl
  row_released (cell (some e) next) h = bind_ok _ _ (chain_released next h) refl

  rows_released :
      (nodes : List (HashNode V)) → All IsBucket nodes → free_rows nodes ≡ ok (all_entries nodes)
  unfolding free_rows all_entries
  rows_released [] h = refl
  rows_released (node ∷ nodes) (h, hs) =
      bind_ok _ _ (row_released node h) (bind_ok _ _ (rows_released nodes hs) refl)

  -- `hash_table_free` of a table whose names are placed reads no node that is freed, and releases
  -- every entry once.
  pub hash_table_free_lem :
      (t : HashTable V) → IsPlaced t → hash_table_free t ≡ ok (all_entries t.table)
  unfolding hash_table_free
  hash_table_free_lem t p = rows_released t.table p.buckets
