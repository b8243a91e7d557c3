-- ===== src/HashTable/Invariant.antt =====
-- The table's invariant, the map from names to values that it stands for, and a write to one bucket.
use post_dns.Base.{
  ℕ, ◌+◌, ◌*◌, ◌≤◌, ◌<◌, ◌≡◌, ◌≢◌, refl, sym, ap, ◌∙◌, arith, List, [], ◌∷◌, ◌++◌, Option, none,
  some, if◌then◌else◌, inl, inr, length, get_or, set, All, Returns, ok, at, Bool-cases,
  get_elem?-get_or, length-set, get_or-set_self, get_or-set_ne, length-append, from_option, Fault,
}
use post_dns.Text.{Str}
use post_dns.Text.Equal.{string_equal_iff}
use native.Mathlib.Decide.{ℕ_discrete}
use post_dns.HashTable.{HashNode, HashTable, empty_node, index, add_node, load_limit}
use post_dns.HashTable.Chain.{
  same, entries, lookup, occurs, occurs-append, occurs-eq-zero, lookup-snoc, IsBucket,
  append_entry-bucket,
}
use post_dns.HashTable.Rows.{
  bucket, all_entries, length-all_entries-set, IsBucket-set, IsBucket-get_or,
}

pub index-lt : (capacity : ℕ) (name : Str) → 0 < capacity → index capacity name < capacity
unfolding index
index-lt capacity name h = omega arith

module _ {ℓ} {V : Type ℓ} where
  -- The value that the table holds for a name.
  unfoldable pub view : HashTable V → Str → Option V
  view t q = lookup q (bucket t.table (index t.capacity q))

  -- Every bucket is sound, and a name stands once at most, in the bucket of its hash.
  pub record IsPlaced (t : HashTable V) : Type ℓ where
    pub shape : t.capacity ≡ length t.table
    pub roomy : 0 < t.capacity
    pub buckets : All IsBucket t.table
    pub once : (q : Str) → occurs q (bucket t.table (index t.capacity q)) ≤ 1
    pub apart : (q : Str) (i : ℕ) → i ≢ index t.capacity q → occurs q (bucket t.table i) ≡ 0

  -- `count` is no count of entries: it never falls, and `resize` counts each entry again.
  pub record IsValid (t : HashTable V) : Type ℓ where
    pub placed : IsPlaced t
    pub limit : t.threshold ≡ load_limit t.capacity
    pub counted : length (all_entries t.table) ≤ t.count
    pub bounded : t.count ≤ 2 * t.capacity

  pub home-lt : {t : HashTable V} → IsPlaced t → (k : Str) → index t.capacity k < length t.table
  home-lt {t} p k = omega (arith, index-lt t.capacity k p.roomy, p.shape)

  -- The first node of the bucket of a name.
  abbrev pub node_of : HashTable V → Str → HashNode V
  node_of t k = get_or t.table (index t.capacity k) empty_node

  pub at-home :
      {t : HashTable V}
      → IsPlaced t
      → (k : Str) → at t.table (index t.capacity k) ≡ ok (node_of t k)
  at-home {t} p k =
      ap (from_option Fault.out_of_bounds) (get_elem?-get_or t.table _ empty_node (home-lt p k))

  -- The table after a write of a bucket and of the counter.
  abbrev pub written : HashTable V → Str → HashNode V → ℕ → HashTable V
  written t k node n = record t { table = set t.table (index t.capacity k) node; count = n }

  pub at-written :
      {t : HashTable V}
      → IsPlaced t
      → (k q : Str) (node : HashNode V) → index t.capacity q ≡ index t.capacity k
      → at (set t.table (index t.capacity k) node) (index t.capacity q) ≡ ok node
  at-written {t} p k q node e =
      let i = index t.capacity k in
      let inside : i < length (set t.table i node) =
        omega (arith, length-set t.table i node, home-lt p k) in
      rw e (
        ap (from_option Fault.out_of_bounds) (
          get_elem?-get_or (set t.table i node) i empty_node inside
          ∙ ap some (get_or-set_self t.table i node empty_node (home-lt p k))))

  -- The entries may stand in the bucket of `k`.
  abbrev pub Fits : ℕ → Str → List (Str × V) → Type 0
  Fits capacity k es =
      (q : Str) → (occurs q es ≤ 1) × (index capacity q ≢ index capacity k → occurs q es ≡ 0)

  pub placed-Fits :
      {t : HashTable V} → IsPlaced t → (k : Str) → Fits t.capacity k (entries (node_of t k))
  placed-Fits {t} p k q = elim (ℕ_discrete (index t.capacity q) (index t.capacity k)) [
    | yes e ↦ (rw (← e) (p.once q), λ h. absurd (h e))
    | no n ↦ let z = p.apart q (index t.capacity k) (λ e. n (sym e)) in (omega arith, λ h. z)
  ]

  module _ {t : HashTable V} (p : IsPlaced t) (k : Str) (node : HashNode V) (n : ℕ) where
    pub bucket_written_here :
        {i : ℕ} → i ≡ index t.capacity k → bucket (written t k node n).table i ≡ entries node
    bucket_written_here e =
        rw e (ap entries (get_or-set_self t.table _ node empty_node (home-lt p k)))

    pub bucket_written_apart :
        {i : ℕ} → i ≢ index t.capacity k → bucket (written t k node n).table i ≡ bucket t.table i
    bucket_written_apart {i} h =
        ap entries (get_or-set_ne t.table (index t.capacity k) i node empty_node (λ e. h (sym e)))

    pub written-IsPlaced :
        IsBucket node → Fits t.capacity k (entries node) → IsPlaced (written t k node n)
    written-IsPlaced b fits = record {
      shape = p.shape ∙ sym (length-set t.table _ node);
      roomy = p.roomy;
      buckets = IsBucket-set t.table _ node p.buckets b;
      once = λ q. elim (ℕ_discrete (index t.capacity q) (index t.capacity k)) [
        | yes e ↦ rw (bucket_written_here e) (fits q).0
        | no h ↦ rw (bucket_written_apart h) (p.once q)
      ];
      apart = λ q i h. elim (ℕ_discrete i (index t.capacity k)) [
        | yes e ↦ rw (bucket_written_here e) ((fits q).1 (λ e'. h (e ∙ sym e')))
        | no h' ↦ rw (bucket_written_apart h') (p.apart q i h)
      ];
    }

    -- If the new entries read as the old ones but at `k`, so does the table.
    pub view-written :
        (x : Option V)
        → ((q : Str)
            → lookup q (entries node) ≡ (if same k q then x else lookup q (entries (node_of t k))))
        → (q : Str) → view (written t k node n) q ≡ (if same k q then x else view t q)
    unfolding view
    view-written x reads q = elim (ℕ_discrete (index t.capacity q) (index t.capacity k)) [
      | yes e ↦
          rw (bucket_written_here e)
            (reads q ∙ ap (λ i. if same k q then x else lookup q (bucket t.table i)) (sym e))
      | no h ↦ rw (bucket_written_apart h) (elim (Bool-cases (same k q)) [
        | inl s ↦ absurd (h (ap (index t.capacity) (sym ((string_equal_iff k q).0 s))))
        | inr s ↦ rw s
      ])
    ]

  -- `add_node` stores a new name.
  pub record Adds (t : HashTable V) (k : Str) (v : V) (t' : HashTable V) : Type ℓ where
    pub placed : IsPlaced t'
    pub capacity : t'.capacity ≡ t.capacity
    pub threshold : t'.threshold ≡ t.threshold
    pub count : t'.count ≡ t.count + 1
    pub entries : length (all_entries t'.table) ≡ length (all_entries t.table) + 1
    pub reads : (q : Str) → view t' q ≡ (if same k q then some v else view t q)

  snoc-Fits :
      {t : HashTable V} (p : IsPlaced t) (k : Str) (v : V)
      → view t k ≡ none
      → Fits t.capacity k (entries (node_of t k) ++ (k, v) ∷ [])
  unfolding view occurs
  snoc-Fits {t} p k v absent q =
      let old = entries (node_of t k) in
      let free = occurs-eq-zero k old absent in
      let bounds = placed-Fits p k q in
      let sum = occurs-append q old ((k, v) ∷ []) in
      elim (Bool-cases (same k q)) [
        | inl s ↦
            let e = (string_equal_iff k q).0 s in
            (rw (sum, s, ← e, free) (omega arith), λ h. absurd (h (ap (index t.capacity) (sym e))))
        | inr s ↦ (rw (sum, s) (omega arith), λ h. rw (sum, s) (omega (arith, bounds.1 h)))
      ]

  pub add_node-Adds :
      {t : HashTable V}
      → IsPlaced t
      → (k : Str) (v : V) → view t k ≡ none
      → Returns (add_node t k v) (Adds t k v)
  unfolding add_node
  add_node-Adds {t} p k v absent =
      let old = node_of t k in
      let (node, run, (b, es)) =
        append_entry-bucket k v old (IsBucket-get_or t.table _ p.buckets) in
      (
        written t k node (t.count + 1),
        rw (at-home p k, run),
        record {
          placed = written-IsPlaced p k node _ b (rw es (snoc-Fits p k v absent));
          capacity = refl;
          threshold = refl;
          count = refl;
          entries = omega (
            arith,
            length-all_entries-set t.table _ node (home-lt p k),
            ap length es,
            length-append (entries old) ((k, v) ∷ []),
          );
          reads =
              view-written p k node _ (some v)
                (λ q. rw es (lookup-snoc k q v (entries old) (unfold view in absent)));
        },
      )
