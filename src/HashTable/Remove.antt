-- ===== src/HashTable/Remove.antt =====
-- hash_table.c: `hash_table_remove` of a name that the table holds, against the map that the table
-- stands for.
use post_dns.Base.{
  ℕ, ok, sym, ap, ◌∙◌, ◌≤◌, ◌<◌, ◌≡◌, refl, arith, List, [], ◌∷◌, none, some, true, false,
  if◌then◌else◌, length, Returns, Bool-cases, inl, inr,
}
use post_dns.Text.{Str}
use native.Mathlib.Decide.{ℕ_discrete}
use post_dns.Text.Equal.{string_equal_iff}
use post_dns.HashTable.{
  HashNode, null, dangling, cell, HashTable, remove_behind, remove_entry, unlink_head, free_node,
  hash_table_remove, index,
}
use post_dns.HashTable.Chain.{same, entries, lookup, occurs, lookup-eq-none, IsBucket, IsChain}
use post_dns.HashTable.Rows.{bucket, IsBucket-get_or, length-all_entries-set}
use post_dns.HashTable.Invariant.{
  view, IsValid, node_of, at-home, home-lt, written, written-IsPlaced, view-written, placed-Fits,
  bucket_written_here, bucket_written_apart,
}

module _ {ℓ} {V : Type ℓ} where
  -- The entry to be removed is not the first of a chain of three or more.
  abbrev pub IsRemovable : Str → List (Str × V) → Type 0
  IsRemovable k [] = Unit
  IsRemovable k (e ∷ es) = same e.0 k ≡ true → length es ≤ 1

  -- The chain after the entry of `k` is taken out.
  record Drops (k : Str) (node : HashNode V) (node' : HashNode V) : Type ℓ where
    bucket : IsBucket node'
    size : length (entries node') ≤ length (entries node)
    occurs_le : (q : Str) → occurs q (entries node') ≤ occurs q (entries node)
    reads :
        (q : Str) → lookup q (entries node') ≡ (if same k q then none else lookup q (entries node))

  occurs_other :
      (k : Str) (e : Str × V) (es : List (Str × V))
      → same e.0 k ≡ false
      → occurs k (e ∷ es) ≡ occurs k es
  unfolding occurs
  occurs_other k e es h = rw h (omega arith)

  occurs_held : (k : Str) (es : List (Str × V)) (v : V) → lookup k es ≡ some v → 0 < occurs k es
  unfolding occurs lookup
  occurs_held k [] v h = cc
  occurs_held k (e ∷ es) v h = ground (arith, occurs_held k es v)

  -- What is left of the list behind the entry of `k`, when the name stands once.
  tail_reads :
      (k q : Str) (e : Str × V) (es : List (Str × V))
      → same e.0 k ≡ true
      → occurs k (e ∷ es) ≤ 1
      → lookup q es ≡ (if same k q then none else lookup q (e ∷ es))
  unfolding lookup occurs
  tail_reads k q e es s once = ground (
    arith,
    string_equal_iff e.0 k,
    string_equal_iff e.0 q,
    string_equal_iff k q,
    lookup-eq-none k es,
    lookup-eq-none q es,
  )

  cons_reads :
      (k q : Str) (e : Str × V) (es fs : List (Str × V))
      → same e.0 k ≡ false
      → lookup q fs ≡ (if same k q then none else lookup q es)
      → lookup q (e ∷ fs) ≡ (if same k q then none else lookup q (e ∷ es))
  unfolding lookup
  cons_reads k q e es fs s h =
      ground (arith, string_equal_iff e.0 k, string_equal_iff e.0 q, string_equal_iff k q)

  remove_behind-Drops :
      (k : Str) (e : Str × V) (node : HashNode V)
      → IsChain node
      → same e.0 k ≡ false
      → occurs k (entries node) ≤ 1
      → 0 < occurs k (entries node)
      → Returns
          (remove_behind k node)
          λ r. IsChain r × Drops k (cell (some e) node) (cell (some e) r)
  unfolding remove_behind entries occurs
  remove_behind-Drops k e null h s once there = absurd (omega arith)
  remove_behind-Drops k e dangling h s once there = absurd h
  remove_behind-Drops k e (cell none next) h s once there = absurd h
  remove_behind-Drops k e (cell (some f) next) h s once there = elim (Bool-cases (same f.0 k)) [
    | inl found ↦ (
      next,
      rw found,
      (
        h,
        record {
          bucket = h;
          size = omega arith;
          occurs_le = λ q. omega arith;
          reads = λ q.
              cons_reads k q e (f ∷ entries next) (entries next) s
                (tail_reads k q f (entries next) found once);
        },
      ),
    )
    | inr other ↦
        let rest = occurs_other k f (entries next) other in
        let (next', run, (chain, d)) =
          remove_behind-Drops k f next h other (omega (arith, rest)) (omega (arith, rest)) in
        (
          cell (some f) next',
          rw (other, run),
          (
            chain,
            record {
              bucket = chain;
              size = omega (arith, d.size);
              occurs_le = λ q. omega (arith, d.occurs_le q);
              reads = λ q. cons_reads k q e (f ∷ entries next) (f ∷ entries next') s (d.reads q);
            },
          ),
        )
  ]

  unlink_head-Drops :
      (k : Str) (e : Str × V) (next : HashNode V)
      → IsChain next
      → same e.0 k ≡ true
      → occurs k (e ∷ entries next) ≤ 1
      → length (entries next) ≤ 1
      → Returns (unlink_head next) (Drops k (cell (some e) next))
  unfolding unlink_head free_node entries occurs
  unlink_head-Drops k e null h found once short = (
    _,
    refl,
    record {
      bucket = tt;
      size = omega arith;
      occurs_le = λ q. omega arith;
      reads = λ q. tail_reads k q e [] found once;
    },
  )
  unlink_head-Drops k e dangling h found once short = absurd h
  unlink_head-Drops k e (cell none next) h found once short = absurd h
  unlink_head-Drops k e (cell (some f) null) h found once short = (
    _,
    refl,
    record {
      bucket = tt;
      size = omega arith;
      occurs_le = λ q. omega arith;
      reads = λ q. tail_reads k q e (f ∷ []) found once;
    },
  )
  unlink_head-Drops k e (cell (some f) dangling) h found once short = absurd h
  unlink_head-Drops k e (cell (some f) (cell none next)) h found once short = absurd h
  unlink_head-Drops k e (cell (some f) (cell (some g) next)) h found once short =
      absurd (omega arith)

  remove_entry-Drops :
      (k : Str) (node : HashNode V)
      → IsBucket node
      → occurs k (entries node) ≤ 1
      → 0 < occurs k (entries node)
      → IsRemovable k (entries node)
      → Returns (remove_entry k node) (Drops k node)
  unfolding remove_entry entries
  remove_entry-Drops k null h once there safe = absurd h
  remove_entry-Drops k dangling h once there safe = absurd h
  remove_entry-Drops k (cell none next) h once there safe = unfold occurs in absurd (omega arith)
  remove_entry-Drops k (cell (some e) next) h once there safe = elim (Bool-cases (same e.0 k)) [
    | inr other ↦
        let rest = occurs_other k e (entries next) other in
        let (next', run, (chain, d)) =
          remove_behind-Drops k e next h other (omega (arith, rest)) (omega (arith, rest)) in
        (cell (some e) next', rw (other, run), d)
    | inl found ↦ rw found (unlink_head-Drops k e next h found once (safe found))
  ]

  -- The table that the removal ends in.
  remove_runs :
      (t : HashTable V) (k : Str) (old : V)
      → IsValid t
      → view t k ≡ some old
      → IsRemovable k (entries (node_of t k))
      → (node : HashNode V) × (hash_table_remove t k ≡ ok (written t k node t.count))
        × Drops k (node_of t k) node
  unfolding hash_table_remove
  remove_runs t k old valid held safe =
      let p = valid.placed in
      let (node, run, d) =
        remove_entry-Drops k (node_of t k) (IsBucket-get_or t.table _ p.buckets)
          (placed-Fits p k k).0 (occurs_held k (entries (node_of t k)) old (unfold view in held))
          safe in
      (node, rw (at-home p k, run), d)

  -- `hash_table_remove` of a name that a valid table holds, and that does not stand first of three
  -- or more in its bucket, ends in a valid table that lacks the name and holds every other one as
  -- before; the counter and the capacity stay.
  pub hash_table_remove_lem :
      (t : HashTable V) (k : Str) (old : V)
      → IsValid t
      → view t k ≡ some old
      → IsRemovable k (entries (node_of t k))
      → Returns (hash_table_remove t k) λ t'.
        IsValid t'
        × ((q : Str) → view t' q ≡ (if same k q then none else view t q))
        × (t'.count ≡ t.count)
        × (t'.capacity ≡ t.capacity)
  hash_table_remove_lem t k old valid held safe =
      let p = valid.placed in
      let (node, run, d) = remove_runs t k old valid held safe in
      (
        written t k node t.count,
        run,
        (
          record {
            placed = written-IsPlaced p k node t.count d.bucket (λ q.
                let f = placed-Fits p k q in
                let le = d.occurs_le q in (omega arith, λ h. let z = f.1 h in omega arith));
            limit = valid.limit;
            counted =
                omega (
                  arith,
                  length-all_entries-set t.table _ node (home-lt p k),
                  d.size,
                  valid.counted,
                );
            bounded = valid.bounded;
          },
          view-written p k node t.count none d.reads,
          refl,
          refl,
        ),
      )

  -- No bucket has grown.
  pub hash_table_remove-bucket :
      (t : HashTable V) (k : Str) (old : V) {t' : HashTable V}
      → IsValid t
      → view t k ≡ some old
      → IsRemovable k (entries (node_of t k))
      → hash_table_remove t k ≡ ok t'
      → (i : ℕ) → length (bucket t'.table i) ≤ length (bucket t.table i)
  hash_table_remove-bucket t k old {t' = t'} valid held safe run i =
      let (node, run', d) = remove_runs t k old valid held safe in
      let same_table : written t k node t.count ≡ t' = (let e = sym run' ∙ run in cc) in
      rw (← same_table) (elim (ℕ_discrete i (index t.capacity k)) [
        | yes e ↦ omega (
          arith,
          d.size,
          ap length (bucket_written_here valid.placed k node t.count e),
          ap (λ (j : ℕ). length (bucket t.table j)) e,
        )
        | no h ↦ omega (arith, ap length (bucket_written_apart valid.placed k node t.count h))
      ])
