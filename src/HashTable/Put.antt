-- ===== src/HashTable/Put.antt =====
-- `hash_table_new`, `hash_table_put`, `hash_table_get` and writes through a pointer, against the map
-- that the table stands for.
use post_dns.HashTable.Limit.{load_limit-le}
use post_dns.Base.{
  ℕ, ◌+◌, ◌*◌, ◌^◌, ◌<◌, ◌≤◌, ◌≡◌, refl, sym, ap, ◌∙◌, arith, none, some, if◌then◌else◌, length,
  Returns, ok, ◌⊎◌, ltb, ltb-false→le, Bool-cases, inl, inr,
}
use post_dns.Text.{Str}
use post_dns.Text.Equal.{string_equal_iff}
use post_dns.HashTable.{
  HashNode, null, dangling, cell, HashTable, load_limit, hash_table_new, replace, grow,
  hash_table_put, hash_table_get, write_through,
}
use post_dns.HashTable.Chain.{same, entries, lookup, occurs, IsBucket, IsChain, search_chain-bucket}
use post_dns.HashTable.Rows.{
  all_entries, IsBucket-get_or, length-all_entries-set, all_entries-replicate,
}
use post_dns.HashTable.Invariant.{
  view, IsPlaced, IsValid, node_of, at-home, home-lt, written, written-IsPlaced, view-written,
  placed-Fits, Adds, add_node-Adds,
}
use post_dns.HashTable.Resize.{cleared-IsPlaced, view-cleared, resize-Resized}

the_same_capacity : (n : ℕ) → n ≤ n * 2 + 1
the_same_capacity n = omega arith

module _ {ℓ} {V : Type ℓ} where
  -- A fresh table is valid and holds nothing.
  pub hash_table_new_lem :
      IsValid (hash_table_new {V = V}) × ((q : Str) → view (hash_table_new {V = V}) q ≡ none)
  unfolding hash_table_new
  hash_table_new_lem = (
    record {
      placed = cleared-IsPlaced 8 0 (omega arith);
      limit = refl;
      counted = rw (all_entries-replicate 8) (omega arith);
      bounded = omega arith;
    },
    view-cleared 8 0,
  )

  -- `hash_table_get` never faults on a table whose names are placed, and returns what the table
  -- holds for the name.
  pub hash_table_get-view :
      {t : HashTable V} → IsPlaced t → (q : Str) → hash_table_get t q ≡ ok (view t q)
  unfolding hash_table_get view
  hash_table_get-view {t} p q =
      rw (at-home p q) (search_chain-bucket q (node_of t q) (IsBucket-get_or t.table _ p.buckets))

  -- The chain after an assignment to a name that it holds.
  pub record Assigns (k : Str) (v : V) (node : HashNode V) (node' : HashNode V) : Type ℓ where
    pub chain : IsChain node'
    pub bucket : IsBucket node'
    pub size : length (entries node') ≡ length (entries node)
    pub occurs_same : (q : Str) → occurs q (entries node') ≡ occurs q (entries node)
    pub reads :
        (q : Str)
        → lookup q (entries node') ≡ (if same k q then some v else lookup q (entries node))

  replace-chain :
      (k : Str) (v : V) (node : HashNode V)
      → IsChain node
      → ((lookup k (entries node) ≡ none) × (replace k v node ≡ ok none))
        ⊎ ((node' : HashNode V) × (replace k v node ≡ ok (some node')) × Assigns k v node node')
  unfolding replace entries lookup occurs
  replace-chain k v null h = inl (refl, refl)
  replace-chain k v dangling h = absurd h
  replace-chain k v (cell none next) h = absurd h
  replace-chain k v (cell (some e) next) h = elim (Bool-cases (same e.0 k)) [
    | inl s ↦ inr (
      cell (some (e.0, v)) next,
      rw s,
      record {
        chain = h;
        bucket = h;
        size = refl;
        occurs_same = λ q. refl;
        reads = λ q.
            ground (arith, string_equal_iff e.0 q, string_equal_iff e.0 k, string_equal_iff k q);
      },
    )
    | inr s ↦ elim (replace-chain k v next h) [
      | inl (l, r) ↦ inl (rw (s, l), rw (s, r))
      | inr (next', r, a) ↦ inr (
        cell (some e) next',
        rw (s, r),
        record {
          chain = a.chain;
          bucket = a.chain;
          size = omega (arith, a.size);
          occurs_same = λ q. omega (arith, a.occurs_same q);
          reads = λ q. ground (
            arith,
            a.reads q,
            string_equal_iff e.0 q,
            string_equal_iff e.0 k,
            string_equal_iff k q,
          );
        },
      )
    ]
  ]

  pub replace-bucket :
      (k : Str) (v : V) (node : HashNode V)
      → IsBucket node
      → ((lookup k (entries node) ≡ none) × (replace k v node ≡ ok none))
        ⊎ ((node' : HashNode V) × (replace k v node ≡ ok (some node')) × Assigns k v node node')
  unfolding replace entries lookup
  replace-bucket k v null h = absurd h
  replace-bucket k v dangling h = absurd h
  replace-bucket k v (cell none next) h = inl (refl, refl)
  replace-bucket k v (cell (some e) next) h = replace-chain k v (cell (some e) next) h

  -- The map after a value is stored under a name.
  abbrev pub Stores : HashTable V → Str → V → HashTable V → Type ℓ
  Stores t k v t' = (q : Str) → view t' q ≡ (if same k q then some v else view t q)

  -- A write to the bucket of `k` that assigns to its entry.
  assigned-IsValid :
      {t : HashTable V} {k : Str} {v : V} {node : HashNode V}
      → IsValid t
      → Assigns k v (node_of t k) node
      → IsValid (written t k node t.count) × Stores t k v (written t k node t.count)
  assigned-IsValid {t} {k} {v} {node} valid a =
      let p = valid.placed in
      (
        record {
          placed =
              written-IsPlaced p k node t.count a.bucket
                (λ q. rw (a.occurs_same q) (placed-Fits p k q));
          limit = valid.limit;
          counted =
              omega
                (arith, length-all_entries-set t.table _ node (home-lt p k), a.size, valid.counted);
          bounded = valid.bounded;
        },
        view-written p k node t.count (some v) a.reads,
      )

  grow-IsValid :
      {t : HashTable V} {k : Str} {v : V} {t' : HashTable V}
      → IsValid t
      → Adds t k v t'
      → Returns (grow t') λ r. IsValid r × Stores t k v r × (r.capacity ≤ t.capacity * 2 + 1)
  unfolding grow
  grow-IsValid {t} {k} {v} {t'} valid adds =
      let filled : length (all_entries t'.table) ≤ t'.count =
        omega (arith, adds.entries, adds.count, valid.counted) in
      elim (Bool-cases (ltb t'.threshold t'.count)) [
        | inr e ↦ (
          t',
          rw e,
          (
            record {
              placed = adds.placed;
              limit = adds.threshold ∙ valid.limit ∙ ap load_limit (sym adds.capacity);
              counted = filled;
              bounded = omega (
                arith,
                ltb-false→le t'.threshold t'.count e,
                adds.threshold,
                adds.capacity,
                valid.limit,
                load_limit-le t.capacity,
              );
            },
            adds.reads,
            omega (arith, adds.capacity),
          ),
        )
        | inl e ↦
            let (r, run, z) = resize-Resized adds.placed in
            (
              r,
              rw e run,
              (
                record {
                  placed = z.placed;
                  limit = z.threshold ∙ ap load_limit (sym z.capacity);
                  counted = omega (arith, z.entries, z.count);
                  bounded = omega (
                    arith, z.count, z.capacity, adds.count, adds.capacity, valid.bounded, filled,
                  );
                },
                λ q. z.reads q ∙ adds.reads q,
                omega (arith, z.capacity, adds.capacity),
              ),
            )
      ]

  -- `hash_table_put` with counters that have no bound.
  hash_table_put_grows :
      (t : HashTable V) (k : Str) (v : V)
      → IsValid t
      → Returns
          (hash_table_put t (some k) (some v))
          λ t'. IsValid t' × Stores t k v t' × (t'.capacity ≤ t.capacity * 2 + 1)
  unfolding hash_table_put
  hash_table_put_grows t k v valid =
      let p = valid.placed in
      elim (replace-bucket k v (node_of t k) (IsBucket-get_or t.table _ p.buckets)) [
        | inr (node, r, a) ↦
            let (valid', stores) = assigned-IsValid valid a in
            (
              written t k node t.count,
              rw (at-home p k, r),
              (valid', stores, the_same_capacity t.capacity),
            )
        | inl (absent, r) ↦
            let (t₁, run₁, adds) = add_node-Adds p k v (unfold view in absent) in
            let (t₂, run₂, done) = grow-IsValid valid adds in
            (t₂, rw (at-home p k, r, run₁) run₂, done)
      ]

  pub hash_table_put_lem :
      (t : HashTable V) (k : Str) (v : V)
      → IsValid t
      → Returns (hash_table_put t (some k) (some v)) λ t'. IsValid t' × Stores t k v t'
  hash_table_put_lem t k v valid =
      let (t', run, (valid', stores, _)) = hash_table_put_grows t k v valid in
      (t', run, (valid', stores))

  -- `hash_table_put` on a valid table of fewer than 2 ^ 29 buckets ends, in a valid table that holds
  -- the new value under the name and every other name as before, whether the name is new or not and
  -- whether the table grows or not, and neither the capacity nor the count leaves the range of an
  -- `int`.
  pub hash_table_put_fits :
      (t : HashTable V) (k : Str) (v : V)
      → IsValid t
      → t.capacity < 2 ^ 29
      → Returns
          (hash_table_put t (some k) (some v))
          λ t'. IsValid t' × Stores t k v t' × (t'.capacity < 2 ^ 31) × (t'.count < 2 ^ 31)
  hash_table_put_fits t k v valid small =
      let (t', run, (valid', stores, size)) = hash_table_put_grows t k v valid in
      (t', run, (valid', stores, omega (arith, size), omega (arith, size, valid'.bounded)))

  -- A write through the pointer that `hash_table_get` returned for a name that a valid table holds
  -- ends in a valid table that holds the new value under the name and every other name as before.
  pub write_through_lem :
      (t : HashTable V) (k : Str) (v old : V)
      → IsValid t
      → view t k ≡ some old
      → Returns (write_through t k v) λ t'. IsValid t' × Stores t k v t'
  unfolding write_through view
  write_through_lem t k v old valid e =
      let p = valid.placed in
      elim (replace-bucket k v (node_of t k) (IsBucket-get_or t.table _ p.buckets)) [
        | inr (node, r, a) ↦
            (written t k node t.count, rw (at-home p k, r), assigned-IsValid valid a)
        | inl (absent, r) ↦ absurd (cc)
      ]
