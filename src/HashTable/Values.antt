-- ===== src/HashTable/Values.antt =====
-- hash_table.c: what each operation does to a predicate of all names and values in a table, on any table
-- and any result.
use post_dns.Base.{
  ℕ, ◌+◌, ◌*◌, ◌≡◌, ap, ◌∙◌, zero, suc, List, [], ◌∷◌, none, some, ltb, set, replicate, All, ok,
  >>=-eq-ok, at, Bool-cases, Option-cases, inl, inr,
}
use post_dns.Text.{Str}
use post_dns.Text.Equal.{string_equal_iff}
use post_dns.HashTable.{
  HashNode, null, dangling, cell, HashTable, empty_node, index, hash_table_new, append_entry,
  add_node, move_chain, move_table, free_next, resize, replace, grow, hash_table_put, search_chain,
  hash_table_get, write_chain, write_through,
}
use post_dns.HashTable.Chain.{same}

pub ok-eq {ℓ} : {A : Type ℓ} {a b : A} → ok a ≡ ok b → a ≡ b
ok-eq h = cc

module _ {ℓ κ} {V : Type ℓ} (P : Str → V → Type κ) where
  abbrev pub AllChain : HashNode V → Type κ
  AllChain null = Unit {κ}
  AllChain dangling = Unit {κ}
  AllChain (cell none next) = AllChain next
  AllChain (cell (some e) next) = P e.0 e.1 × AllChain next

  abbrev pub AllEntries : HashTable V → Type κ
  AllEntries t = All AllChain t.table

  pub All-at :
      (nodes : List (HashNode V)) (i : ℕ) {node : HashNode V}
      → All AllChain nodes
      → at nodes i ≡ ok node
      → AllChain node
  All-at [] i h e = absurd (cc)
  All-at (x ∷ nodes) zero {node = node} h e =
      (let same_node : x ≡ node = ok-eq e in rw (← same_node) h.0)
  All-at (x ∷ nodes) (suc i) h e = All-at nodes i h.1 e

  pub All-set :
      (nodes : List (HashNode V)) (i : ℕ) (node : HashNode V)
      → All AllChain nodes
      → AllChain node
      → All AllChain (set nodes i node)
  All-set [] i node h n = tt
  All-set (x ∷ nodes) zero node h n = (n, h.1)
  All-set (x ∷ nodes) (suc i) node h n = (h.0, All-set nodes i node h.1 n)

  All-fresh : (n : ℕ) → All AllChain (replicate n empty_node)
  All-fresh zero = tt
  All-fresh (suc n) = (tt, All-fresh n)

  append_entry-AllChain :
      (k : Str) (v : V) (node : HashNode V) {node' : HashNode V}
      → P k v
      → AllChain node
      → append_entry k v node ≡ ok node'
      → AllChain node'
  unfolding append_entry
  append_entry-AllChain k v null p h e = absurd (cc)
  append_entry-AllChain k v dangling p h e = absurd (cc)
  append_entry-AllChain k v (cell none next) p h e = rw (← ok-eq e) (p, tt)
  append_entry-AllChain k v (cell (some x) null) p h e = rw (← ok-eq e) (h.0, (p, tt))
  append_entry-AllChain k v (cell (some x) dangling) p h e = absurd (cc)
  append_entry-AllChain k v (cell (some x) (cell y next)) p h e =
      let (next', run, e') = >>=-eq-ok (append_entry k v (cell y next)) _ e in
      rw (← ok-eq e') (h.0, append_entry-AllChain k v (cell y next) p h.1 run)

  add_node-AllEntries :
      (t : HashTable V) (k : Str) (v : V) {t' : HashTable V}
      → P k v
      → AllEntries t
      → add_node t k v ≡ ok t'
      → AllEntries t'
  unfolding add_node
  add_node-AllEntries t k v p h e =
      let (node, found, e₁) = >>=-eq-ok (at t.table (index t.capacity k)) _ e in
      let (node', run, e₂) = >>=-eq-ok (append_entry k v node) _ e₁ in
      rw (← ok-eq e₂) (
        All-set t.table (index t.capacity k) node' h
          (append_entry-AllChain k v node p (All-at t.table (index t.capacity k) h found) run))

  move_chain-AllEntries :
      (node : HashNode V) (t : HashTable V) {t' : HashTable V}
      → AllChain node
      → AllEntries t
      → move_chain node t ≡ ok t'
      → AllEntries t'
  unfolding move_chain
  move_chain-AllEntries null t n h e = rw (← ok-eq e) h
  move_chain-AllEntries dangling t n h e = absurd (cc)
  move_chain-AllEntries (cell none next) t n h e = rw (← ok-eq e) h
  move_chain-AllEntries (cell (some x) next) t n h e =
      let (t₁, run, e₁) = >>=-eq-ok (add_node t x.0 x.1) _ e in
      move_chain-AllEntries next t₁ n.1 (add_node-AllEntries t x.0 x.1 n.0 h run) e₁

  move_table-AllEntries :
      (nodes : List (HashNode V)) (t : HashTable V) {t' : HashTable V}
      → All AllChain nodes
      → AllEntries t
      → move_table nodes t ≡ ok t'
      → AllEntries t'
  unfolding move_table
  move_table-AllEntries [] t n h e = rw (← ok-eq e) h
  move_table-AllEntries (node ∷ nodes) t n h e =
      let (t₁, run, e₁) = >>=-eq-ok (move_chain node t) _ e in
      let (u, freed, e₂) = >>=-eq-ok (free_next node) _ e₁ in
      move_table-AllEntries nodes t₁ n.1 (move_chain-AllEntries node t n.0 h run) e₂

  grow-AllEntries :
      (t : HashTable V) {t' : HashTable V} → AllEntries t → grow t ≡ ok t' → AllEntries t'
  unfolding grow resize
  grow-AllEntries t h e = elim (Bool-cases (ltb t.threshold t.count)) [
    | inl z ↦ move_table-AllEntries t.table _ h (All-fresh (t.capacity * 2 + 1)) (rw z at e)
    | inr z ↦ rw (← ok-eq (rw z at e)) h
  ]

  replace-AllChain :
      (k : Str) (v : V) (node : HashNode V) {node' : HashNode V}
      → P k v
      → AllChain node
      → replace k v node ≡ ok (some node')
      → AllChain node'
  unfolding replace
  replace-AllChain k v null p h e = absurd (cc)
  replace-AllChain k v dangling p h e = absurd (cc)
  replace-AllChain k v (cell none next) p h e = absurd (cc)
  replace-AllChain k v (cell (some x) next) {node' = node'} p h e = elim (Bool-cases (same x.0 k)) [
    | inl z ↦
        let e₁ : cell (some (x.0, v)) next ≡ node' = (let e₂ = rw z at e in cc) in
        let same_name : x.0 ≡ k = (string_equal_iff x.0 k).0 z in rw (← e₁) (rw same_name p, h.1)
    | inr z ↦
        let (found, run, e₁) = >>=-eq-ok (replace k v next) _ (rw z at e) in
        elim (Option-cases found) [
          | inl absent ↦ absurd (let e₂ = rw absent at e₁ in cc)
          | inr (next', there) ↦
              let e₂ : cell (some x) next' ≡ node' = (let e₃ = rw there at e₁ in cc) in
              rw (← e₂) (h.0, replace-AllChain k v next p h.1 (run ∙ ap ok there))
        ]
  ]

  -- A put keeps a predicate of all entries that holds of the new one.
  pub hash_table_put-AllEntries :
      (t : HashTable V) (k : Str) (v : V) {t' : HashTable V}
      → P k v
      → AllEntries t
      → hash_table_put t (some k) (some v) ≡ ok t'
      → AllEntries t'
  unfolding hash_table_put
  hash_table_put-AllEntries t k v p h e =
      let i = index t.capacity k in
      let (node, at_home, e₁) = >>=-eq-ok (at t.table i) _ e in
      let n = All-at t.table i h at_home in
      let (found, run, e₂) = >>=-eq-ok (replace k v node) _ e₁ in
      elim (Option-cases found) [
        | inl absent ↦
            let (t₁, added, e₃) = >>=-eq-ok (add_node t k v) _ (rw absent at e₂) in
            grow-AllEntries t₁ (add_node-AllEntries t k v p h added) e₃
        | inr (node', there) ↦
            rw (← ok-eq (rw there at e₂))
              (All-set t.table i node' h (replace-AllChain k v node p n (run ∙ ap ok there)))
      ]

  pub write_through-AllEntries :
      (t : HashTable V) (k : Str) (v : V) {t' : HashTable V}
      → P k v
      → AllEntries t
      → write_through t k v ≡ ok t'
      → AllEntries t'
  unfolding write_through write_chain
  write_through-AllEntries t k v p h e =
      let i = index t.capacity k in
      let (node, at_home, e₁) = >>=-eq-ok (at t.table i) _ e in
      let n = All-at t.table i h at_home in
      let (node', run, e₂) = >>=-eq-ok (write_chain k v node) _ e₁ in
      let (found, run', e₃) = >>=-eq-ok (replace k v node) _ run in
      elim (Option-cases found) [
        | inl absent ↦
            let same_node = ok-eq (rw absent at e₃) in
            rw (← ok-eq e₂) (All-set t.table i node' h (rw (← same_node) n))
        | inr (node₁, there) ↦
            let same_node = ok-eq (rw there at e₃) in
            rw (← ok-eq e₂) (
              All-set t.table i node' h
                (rw (← same_node) (replace-AllChain k v node p n (run' ∙ ap ok there))))
      ]

  search_chain-AllChain :
      (k : Str) (node : HashNode V) {v : V}
      → AllChain node
      → search_chain k node ≡ ok (some v)
      → P k v
  unfolding search_chain
  search_chain-AllChain k null h e = absurd (cc)
  search_chain-AllChain k dangling h e = absurd (cc)
  search_chain-AllChain k (cell none next) h e = absurd (cc)
  search_chain-AllChain k (cell (some x) next) {v = v} h e = elim (Bool-cases (same x.0 k)) [
    | inl z ↦
        let same_value : x.1 ≡ v = (let e₁ = rw z at e in cc) in
        let same_name : x.0 ≡ k = (string_equal_iff x.0 k).0 z in rw (← same_name, ← same_value) h.0
    | inr z ↦ search_chain-AllChain k next h.1 (rw z at e)
  ]

  pub hash_table_get-AllEntries :
      (t : HashTable V) (k : Str) {v : V} → AllEntries t → hash_table_get t k ≡ ok (some v) → P k v
  unfolding hash_table_get
  hash_table_get-AllEntries t k h e =
      let i = index t.capacity k in
      let (node, at_home, e₁) = >>=-eq-ok (at t.table i) _ e in
      search_chain-AllChain k node (All-at t.table i h at_home) e₁

  pub hash_table_new-AllEntries : AllEntries hash_table_new
  unfolding hash_table_new
  hash_table_new-AllEntries = All-fresh 8
