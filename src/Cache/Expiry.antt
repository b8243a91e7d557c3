-- ===== src/Cache/Expiry.antt =====
-- ipv4_cache.c and ipv6_cache.c: the expiry of entries.
use post_dns.Base.{
  ◌≤◌, ◌≡◌, refl, sym, ap, arith, List, [], ◌∷◌, ◌++◌, Bool, none, some, Bool-cases, if◌then◌else◌,
  ltb-eq-false, length, All, ok, bind_ok, inl, inr,
}
use post_dns.Text.{Str}
use post_dns.HashTable.{HashNode, null, dangling, cell, HashTable}
use post_dns.HashTable.Chain.{entries, IsBucket, IsChain}
use post_dns.HashTable.Rows.{all_entries}
use post_dns.HashTable.Invariant.{IsValid}
use post_dns.Cache.{collect_chain, collect_table, remove_all, clear}

module _ {ℓ} {V : Type ℓ} (expired : V → Bool) where
  -- The names of the entries that have expired, in order.
  unfoldable pub expired_names : List (Str × V) → List Str
  expired_names [] = []
  expired_names (e ∷ es) = if expired e.1 then e.0 ∷ expired_names es else expired_names es

  expired_names-append :
      (es fs : List (Str × V)) → expired_names (es ++ fs) ≡ expired_names es ++ expired_names fs
  unfolding expired_names
  expired_names-append [] fs = refl
  expired_names-append (e ∷ es) fs = elim (Bool-cases (expired e.1)) [
    | inl z ↦ rw z (ap (λ (x : List Str). e.0 ∷ x) (expired_names-append es fs))
    | inr z ↦ rw z (expired_names-append es fs)
  ]

  length-expired_names : (es : List (Str × V)) → length (expired_names es) ≤ length es
  unfolding expired_names
  length-expired_names [] = omega arith
  length-expired_names (e ∷ es) = elim (Bool-cases (expired e.1)) [
    | inl z ↦ rw z (omega (arith, length-expired_names es))
    | inr z ↦ rw z (omega (arith, length-expired_names es))
  ]

  collect_chain-chain :
      (node : HashNode V)
      → IsChain node
      → collect_chain expired node ≡ ok (expired_names (entries node))
  unfolding collect_chain expired_names entries
  collect_chain-chain null h = refl
  collect_chain-chain dangling h = absurd h
  collect_chain-chain (cell none next) h = absurd h
  collect_chain-chain (cell (some e) next) h = bind_ok _ _ (collect_chain-chain next h) refl

  collect_chain-bucket :
      (node : HashNode V)
      → IsBucket node
      → collect_chain expired node ≡ ok (expired_names (entries node))
  unfolding collect_chain expired_names entries
  collect_chain-bucket null h = absurd h
  collect_chain-bucket dangling h = absurd h
  collect_chain-bucket (cell none next) h = refl
  collect_chain-bucket (cell (some e) next) h = bind_ok _ _ (collect_chain-chain next h) refl

  -- The walk over all buckets collects the expired names of a sound table, in order.
  collect_table-all_entries :
      (nodes : List (HashNode V))
      → All IsBucket nodes
      → collect_table expired nodes ≡ ok (expired_names (all_entries nodes))
  unfolding collect_table all_entries expired_names
  collect_table-all_entries [] h = refl
  collect_table-all_entries (node ∷ nodes) (h, hs) = bind_ok _ _ (collect_chain-bucket node h) (
      bind_ok _ _ (collect_table-all_entries nodes hs)
        (ap ok (sym (expired_names-append (entries node) (all_entries nodes)))))

  -- On a valid table the array of `count` names is large enough for the names that the clearing of a
  -- cache collects, and the clearing is the removal of the expired names, one by one, in the order
  -- of the buckets.
  pub clear-remove_all :
      (t : HashTable V)
      → IsValid t
      → (length (expired_names (all_entries t.table)) ≤ t.count)
        × (clear expired t ≡ remove_all (expired_names (all_entries t.table)) t)
  unfolding clear
  clear-remove_all t valid =
      let names = expired_names (all_entries t.table) in
      let fits : length names ≤ t.count =
        omega (arith, length-expired_names (all_entries t.table), valid.counted) in
      (
        fits,
        bind_ok _ _ (collect_table-all_entries t.table valid.placed.buckets)
            (rw (ltb-eq-false t.count (length names) fits) refl),
      )
