-- ===== src/HashTable/Fresh.antt =====
-- hash_table.c: `hash_table_put` of a new name, while the table does not grow.
use post_dns.Base.{
  ◌+◌, ◌<◌, ◌≡◌, refl, sym, ◌∙◌, arith, List, [], ◌∷◌, ◌++◌, none, some, get_or-set_self, Returns,
  ok, bind_ok, ltb-eq-false, inl, inr,
}
use post_dns.Text.{Str}
use post_dns.Text.Equal.{string_equal_refl}
use post_dns.HashTable.{HashNode, HashTable, empty_node, index, grow, add_node, hash_table_put}
use post_dns.HashTable.Chain.{entries, lookup, lookup-eq-none, occurs-eq-zero, append_entry-bucket}
use post_dns.HashTable.Rows.{IsBucket-get_or}
use post_dns.HashTable.Invariant.{view, IsValid, node_of, at-home, home-lt, written}
use post_dns.HashTable.Put.{hash_table_put_lem, Stores, Assigns, replace-bucket}
use post_dns.HashTable.Remove.{IsRemovable}

module _ {ℓ} {V : Type ℓ} where
  -- The last entry of a chain is no head of a longer one.
  last-IsRemovable :
      (k : Str) (v : V) (es : List (Str × V))
      → lookup k es ≡ none
      → IsRemovable k (es ++ (k, v) ∷ [])
  unfolding lookup
  last-IsRemovable k v [] absent = λ e. omega arith
  last-IsRemovable k v (e ∷ es) absent =
      λ found. absurd (let hit : some e.1 ≡ none = rw found at absent in cc)

  not_assigned :
      (k : Str) (v : V) (node held : HashNode V)
      → lookup k (entries node) ≡ none
      → Assigns k v node held
      → ⊥
  not_assigned k v node held absent a =
      let gone : lookup k (entries held) ≡ none =
        lookup-eq-none k (entries held)
          (a.occurs_same k ∙ occurs-eq-zero k (entries node) absent) in
      let found : lookup k (entries held) ≡ some v = a.reads k ∙ rw (string_equal_refl k) refl in
      let both = sym gone ∙ found in cc

  -- The table that the put ends in.
  put_runs :
      (t : HashTable V) (k : Str) (v : V)
      → IsValid t
      → view t k ≡ none
      → t.count < t.threshold
      → (node : HashNode V) × (hash_table_put t (some k) (some v)
          ≡ ok (written t k node (t.count + 1)))
        × (entries node ≡ entries (node_of t k) ++ (k, v) ∷ [])
  unfolding hash_table_put view add_node grow
  put_runs t k v valid absent few =
      let p = valid.placed in
      let old = node_of t k in
      let bucket = IsBucket-get_or t.table (index t.capacity k) p.buckets in
      let (node, run, (b, es)) = append_entry-bucket k v old bucket in
      let added : add_node t k v ≡ ok (written t k node (t.count + 1)) =
        bind_ok _ _ (at-home p k) (bind_ok _ _ run refl) in
      let kept : grow (written t k node (t.count + 1)) ≡ ok (written t k node (t.count + 1)) =
        rw (ltb-eq-false t.threshold (t.count + 1) (omega arith)) refl in
      elim (replace-bucket k v old bucket) [
        | inr (held, r, a) ↦ absurd (not_assigned k v old held absent a)
        | inl (missing, r) ↦
            (node, bind_ok _ _ (at-home p k) (bind_ok _ _ r (bind_ok _ _ added kept)), es)
      ]

  -- A new name, while the counter is below the threshold: the put ends as always, and the name does
  -- not stand first of several in its bucket.
  pub hash_table_put-IsRemovable :
      (t : HashTable V) (k : Str) (v : V)
      → IsValid t
      → view t k ≡ none
      → t.count < t.threshold
      → Returns
          (hash_table_put t (some k) (some v))
          λ t'. IsValid t' × Stores t k v t' × IsRemovable k (entries (node_of t' k))
  hash_table_put-IsRemovable t k v valid absent few =
      let (t', run, (valid', stores)) = hash_table_put_lem t k v valid in
      let (node, run', es) = put_runs t k v valid absent few in
      let same_table : written t k node (t.count + 1) ≡ t' = (let e = sym run' ∙ run in cc) in
      let here : node_of (written t k node (t.count + 1)) k ≡ node =
        get_or-set_self t.table (index t.capacity k) node empty_node (home-lt valid.placed k) in
      (
        t',
        run,
        (
          valid',
          stores,
          rw (← same_table, here, es)
              (last-IsRemovable k v (entries (node_of t k)) (unfold view in absent)),
        ),
      )
