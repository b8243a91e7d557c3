-- ===== src/HashTable/Resize.antt =====
-- hash_table.c: `resize`, against the map that the table stands for.
use post_dns.Base.{
  ◌^◌, ℕ, ◌+◌, ◌*◌, ◌≤◌, ◌<◌, ◌≡◌, refl, sym, ap, ◌∙◌, arith, List, [], ◌∷◌, ◌++◌, Option, none,
  some, length, replicate, All, Returns, Run, ok, ◌>>=◌, bind_assoc, length-replicate,
  get_or-replicate,
}
use mathlib.Core.Option.{or_else}
use post_dns.Text.{Str}
use post_dns.Text.Equal.{string_equal_refl}
use post_dns.HashTable.{
  HashNode, null, dangling, cell, HashTable, empty_node, index, load_limit, add_node, move_chain,
  move_table, resize,
}
use post_dns.HashTable.Limit.{IsProduct, load_limit-IsProduct}
use post_dns.HashTable.Chain.{
  entries, lookup, occurs, lookup-eq-none, IsBucket, IsChain, free_next_lem,
}
use post_dns.HashTable.Rows.{
  bucket, all_entries, IsBucket-replicate, all_entries-replicate, all_entries_lem,
}
use post_dns.HashTable.Invariant.{view, IsPlaced, add_node-Adds}

module _ {ℓ} {V : Type ℓ} where
  -- All the calls of `add_node` that `resize` makes.
  add_all : List (Str × V) → HashTable V → Run (HashTable V)
  add_all [] t = ok t
  add_all (e ∷ es) t = do t' ← add_node t e.0 e.1; add_all es t'

  add_all-append :
      (es fs : List (Str × V)) (t : HashTable V)
      → add_all (es ++ fs) t ≡ (add_all es t >>= add_all fs)
  unfolding add_all
  add_all-append [] fs t = refl
  add_all-append (e ∷ es) fs t = simp (bind_assoc, add_all-append es fs)

  move_chain-add_all :
      (node : HashNode V) (t : HashTable V)
      → IsChain node
      → move_chain node t ≡ add_all (entries node) t
  unfolding add_all move_chain entries
  move_chain-add_all null t h = refl
  move_chain-add_all dangling t h = absurd h
  move_chain-add_all (cell none next) t h = absurd h
  move_chain-add_all (cell (some e) next) t h =
      ap (λ (f : HashTable V → Run (HashTable V)). add_node t e.0 e.1 >>= f)
        (λ i t'. move_chain-add_all next t' h i)

  move_bucket-add_all :
      (node : HashNode V) (t : HashTable V)
      → IsBucket node
      → move_chain node t ≡ add_all (entries node) t
  unfolding add_all move_chain entries
  move_bucket-add_all null t h = absurd h
  move_bucket-add_all dangling t h = absurd h
  move_bucket-add_all (cell none next) t h = refl
  move_bucket-add_all (cell (some e) next) t h = move_chain-add_all (cell (some e) next) t h

  move_table-add_all :
      (nodes : List (HashNode V)) (t : HashTable V)
      → All IsBucket nodes
      → move_table nodes t ≡ add_all (all_entries nodes) t
  unfolding move_table all_entries
  move_table-add_all [] t h = unfold add_all in refl
  move_table-add_all (node ∷ nodes) t h =
      rw (add_all-append, move_bucket-add_all node t h.0, free_next_lem node h.0)
        (ap (λ (f : HashTable V → Run (HashTable V)). add_all (entries node) t >>= f)
          (λ i t'. move_table-add_all nodes t' h.1 i))

  -- What a sequence of `add_node` calls with new names leaves.
  pub record AddsAll (t : HashTable V) (es : List (Str × V)) (t' : HashTable V) : Type ℓ where
    pub placed : IsPlaced t'
    pub capacity : t'.capacity ≡ t.capacity
    pub threshold : t'.threshold ≡ t.threshold
    pub count : t'.count ≡ t.count + length es
    pub entries : length (all_entries t'.table) ≡ length (all_entries t.table) + length es
    pub reads : (q : Str) → view t' q ≡ or_else (lookup q es) (view t q)

  add_all-AddsAll :
      (es : List (Str × V)) {t : HashTable V}
      → IsPlaced t
      → ((q : Str) → occurs q es ≤ 1)
      → ((q : Str) → 0 < occurs q es → view t q ≡ none)
      → Returns (add_all es t) (AddsAll t es)
  unfolding add_all occurs lookup or_else
  add_all-AddsAll [] {t} p once fresh = (
    t,
    refl,
    record {
      placed = p;
      capacity = refl;
      threshold = refl;
      count = omega arith;
      entries = omega arith;
      reads = λ q. refl;
    },
  )
  add_all-AddsAll ((k, v) ∷ es) {t} p once fresh =
      let (t₁, run₁, step) = add_node-Adds p k v (fresh k (rw string_equal_refl (omega arith))) in
      let (t₂, run₂, rest) =
        add_all-AddsAll es step.placed (λ q. omega (arith, once q))
          (λ q h. ground (arith, step.reads q, once q, fresh q)) in
      (
        t₂,
        rw run₁ run₂,
        record {
          placed = rest.placed;
          capacity = rest.capacity ∙ step.capacity;
          threshold = rest.threshold ∙ step.threshold;
          count = omega (arith, rest.count, step.count);
          entries = omega (arith, rest.entries, step.entries);
          reads = λ q. ground (arith, step.reads q, rest.reads q, once q, lookup-eq-none q es);
        },
      )

  -- The table that `resize` starts from.
  abbrev pub cleared : ℕ → ℕ → HashTable V
  cleared capacity count = record {
    table = replicate capacity empty_node;
    count = count;
    capacity = capacity;
    threshold = load_limit capacity;
  }

  bucket-cleared : (n i : ℕ) → bucket (replicate n (empty_node {V = V})) i ≡ []
  unfolding entries
  bucket-cleared n i = ap entries (get_or-replicate n i empty_node)

  pub cleared-IsPlaced : (capacity count : ℕ) → 0 < capacity → IsPlaced (cleared capacity count)
  unfolding occurs
  cleared-IsPlaced capacity count h = record {
    shape = sym (length-replicate capacity empty_node);
    roomy = h;
    buckets = IsBucket-replicate V capacity;
    once = λ q. rw bucket-cleared (omega arith);
    apart = λ q i n. rw bucket-cleared;
  }

  pub view-cleared : (capacity count : ℕ) (q : Str) → view (cleared capacity count) q ≡ none
  unfolding view lookup
  view-cleared capacity count q = rw bucket-cleared

  or_else-none : (o : Option V) → or_else o none ≡ o
  unfolding or_else
  or_else-none none = refl
  or_else-none (some v) = refl

  view-bucket :
      (t : HashTable V) (q : Str) → view t q ≡ lookup q (bucket t.table (index t.capacity q))
  unfolding view
  view-bucket t q = refl

  -- `resize` never faults on a sound table. It makes room for one more than twice the buckets, adds
  -- the number of entries to `count`, and every name reads as before.
  pub record Resized (t : HashTable V) (t' : HashTable V) : Type ℓ where
    pub placed : IsPlaced t'
    pub capacity : t'.capacity ≡ t.capacity * 2 + 1
    pub threshold : t'.threshold ≡ load_limit (t.capacity * 2 + 1)
    pub count : t'.count ≡ t.count + length (all_entries t.table)
    pub entries : length (all_entries t'.table) ≡ length (all_entries t.table)
    pub reads : (q : Str) → view t' q ≡ view t q

  -- `resize` of a table whose names are placed ends in such a table of twice the capacity and one,
  -- which holds the same value for every name and as many entries; the counter has counted each
  -- entry once more.
  pub resize-Resized : {t : HashTable V} → IsPlaced t → Returns (resize t) (Resized t)
  unfolding resize
  resize-Resized {t} p =
      let start = cleared (t.capacity * 2 + 1) t.count in
      let placed = cleared-IsPlaced (t.capacity * 2 + 1) t.count (omega arith) in
      let all =
        λ (q : Str). all_entries_lem q t.table (index t.capacity q) (p.once q) (p.apart q) in
      let (t', run, adds) =
        add_all-AddsAll (all_entries t.table) placed (λ q. (all q).0)
          (λ q h. view-cleared (t.capacity * 2 + 1) t.count q) in
      (
        t',
        move_table-add_all t.table start p.buckets ∙ run,
        record {
          placed = adds.placed;
          capacity = adds.capacity;
          threshold = adds.threshold;
          count = adds.count;
          entries = adds.entries ∙ rw (all_entries-replicate (t.capacity * 2 + 1)) (omega arith);
          reads = λ q.
              adds.reads q
              ∙ rw (view-cleared (t.capacity * 2 + 1) t.count q)
                  (or_else-none _ ∙ (all q).1 ∙ sym (view-bucket t q));
        },
      )

  -- `resize` of a table whose names are placed, with fewer than 2 ^ 30 buckets and a count that
  -- stays below 2 ^ 31 when all entries are added, ends in such a table of twice the capacity and
  -- one, which holds the same value for every name and as many entries; the counter has counted each
  -- entry once more; both numbers are in the range of an `int`; and the threshold is three quarters
  -- of the capacity, cut to a whole number, while three times the capacity is below 2 ^ 24, and off
  -- by less than one part in 2 ^ 21 and one else.
  pub resize_fits :
      (t : HashTable V)
      → IsPlaced t
      → t.capacity < 2 ^ 30
      → t.count + length (all_entries t.table) < 2 ^ 31
      → Returns (resize t) λ t'.
        Resized t t'
        × IsProduct (t.capacity * 2 + 1) t'.threshold
        × (t'.capacity < 2 ^ 31)
        × (t'.count < 2 ^ 31)
  resize_fits t p small few =
      let (t', run, z) = resize-Resized p in
      (
        t',
        run,
        (
          z,
          rw z.threshold (load_limit-IsProduct (t.capacity * 2 + 1)),
          omega (arith, z.capacity),
          omega (arith, z.count),
        ),
      )
