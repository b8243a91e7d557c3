-- ===== src/HashTable/Removed.antt =====
-- hash_table.c: what removal does to a predicate of all names and values in a table.
use post_dns.Base.{◌≡◌, none, some, ok, >>=-eq-ok, at, Bool-cases, inl, inr}
use post_dns.Text.{Str}
use post_dns.HashTable.{
  HashNode, null, dangling, cell, HashTable, index, free_node, unlink_head, remove_behind,
  remove_entry, hash_table_remove,
}
use post_dns.HashTable.Chain.{same}
use post_dns.HashTable.Values.{AllChain, AllEntries, All-at, All-set, ok-eq}

module _ {ℓ κ} {V : Type ℓ} (P : Str → V → Type κ) where
  remove_behind-AllChain :
      (k : Str) (node : HashNode V) {node' : HashNode V}
      → AllChain P node
      → remove_behind k node ≡ ok node'
      → AllChain P node'
  unfolding remove_behind
  remove_behind-AllChain k null h e = absurd (cc)
  remove_behind-AllChain k dangling h e = absurd (cc)
  remove_behind-AllChain k (cell none next) h e = rw (← ok-eq e) h
  remove_behind-AllChain k (cell (some x) next) h e = elim (Bool-cases (same x.0 k)) [
    | inl z ↦ rw (← ok-eq (rw z at e)) h.1
    | inr z ↦
        let (next', run, e₁) = >>=-eq-ok (remove_behind k next) _ (rw z at e) in
        rw (← ok-eq e₁) (h.0, remove_behind-AllChain k next h.1 run)
  ]

  free_node-AllChain :
      (node : HashNode V) {node' : HashNode V} → free_node node ≡ ok node' → AllChain P node'
  unfolding free_node
  free_node-AllChain null e = rw (← ok-eq e) tt
  free_node-AllChain dangling e = absurd (cc)
  free_node-AllChain (cell x next) e = rw (← ok-eq e) tt

  unlink_head-AllChain :
      (node : HashNode V) {node' : HashNode V}
      → AllChain P node
      → unlink_head node ≡ ok node'
      → AllChain P node'
  unfolding unlink_head
  unlink_head-AllChain null h e = rw (← ok-eq e) tt
  unlink_head-AllChain dangling h e = absurd (cc)
  unlink_head-AllChain (cell none next) h e =
      let (next', run, e₁) = >>=-eq-ok (free_node next) _ e in
      rw (← ok-eq e₁) (free_node-AllChain next run)
  unlink_head-AllChain (cell (some x) next) h e =
      let (next', run, e₁) = >>=-eq-ok (free_node next) _ e in
      rw (← ok-eq e₁) (h.0, free_node-AllChain next run)

  remove_entry-AllChain :
      (k : Str) (node : HashNode V) {node' : HashNode V}
      → AllChain P node
      → remove_entry k node ≡ ok node'
      → AllChain P node'
  unfolding remove_entry
  remove_entry-AllChain k null h e = absurd (cc)
  remove_entry-AllChain k dangling h e = absurd (cc)
  remove_entry-AllChain k (cell none next) h e = rw (← ok-eq e) h
  remove_entry-AllChain k (cell (some x) next) h e = elim (Bool-cases (same x.0 k)) [
    | inl z ↦ unlink_head-AllChain next h.1 (rw z at e)
    | inr z ↦
        let (next', run, e₁) = >>=-eq-ok (remove_behind k next) _ (rw z at e) in
        rw (← ok-eq e₁) (h.0, remove_behind-AllChain k next h.1 run)
  ]

  pub hash_table_remove-AllEntries :
      (t : HashTable V) (k : Str) {t' : HashTable V}
      → AllEntries P t
      → hash_table_remove t k ≡ ok t'
      → AllEntries P t'
  unfolding hash_table_remove
  hash_table_remove-AllEntries t k h e =
      let i = index t.capacity k in
      let (node, at_home, e₁) = >>=-eq-ok (at t.table i) _ e in
      let (node', run, e₂) = >>=-eq-ok (remove_entry k node) _ e₁ in
      rw (← ok-eq e₂) (
        All-set P t.table i node' h
          (remove_entry-AllChain k node (All-at P t.table i h at_home) run))
