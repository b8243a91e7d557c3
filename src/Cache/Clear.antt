-- ===== src/Cache/Clear.antt =====
-- ipv4_cache.c and ipv6_cache.c: the clearing of a cache, against the map that the table stands for.
use post_dns.Base.{
  ℕ, ◌≤◌, ◌≡◌, refl, sym, ◌∙◌, arith, List, [], ◌∷◌, Bool, true, false, Option, none, some,
  Bool-cases, Option-cases, if◌then◌else◌, length, Returns, bind_ok, inl, inr,
}
use post_dns.Text.{Str}
use post_dns.Text.Equal.{string_equal_refl}
use post_dns.HashTable.{HashTable, index}
use post_dns.HashTable.Chain.{same, entries, lookup, occurs, lookup-eq-none}
use post_dns.HashTable.Rows.{bucket, all_entries, all_entries_lem}
use post_dns.HashTable.Invariant.{view, IsValid, node_of}
use post_dns.HashTable.Remove.{IsRemovable, hash_table_remove_lem, hash_table_remove-bucket}
use post_dns.Cache.{remove_all, clear}
use post_dns.Cache.Expiry.{expired_names, clear-remove_all}

module _ {ℓ} {V : Type ℓ} where
  -- No bucket has three entries or more.
  abbrev pub IsShort : HashTable V → Type 0
  IsShort t = (i : ℕ) → length (bucket t.table i) ≤ 2

  short_chain : (k : Str) (es : List (Str × V)) → length es ≤ 2 → IsRemovable k es
  short_chain k [] h = tt
  short_chain k (e ∷ es) h = λ found. omega arith

  short-IsRemovable :
      (t : HashTable V) (k : Str) → IsShort t → IsRemovable k (entries (node_of t k))
  short-IsRemovable t k h = short_chain k (entries (node_of t k)) (h (index t.capacity k))

module _ {ℓ} {V : Type ℓ} (expired : V → Bool) where
  -- What is left of what is stored, if this entry was looked at.
  abbrev left : Option V → Option V → Option V
  left none now = now
  left (some v) now = if expired v then none else now

  -- What has not expired.
  abbrev pub fresh : Option V → Option V
  fresh none = none
  fresh (some v) = if expired v then none else some v

  left-fresh : (o : Option V) → left o o ≡ fresh o
  left-fresh none = refl
  left-fresh (some v) = refl

  -- A name that stands in the rest of a list is not the first one.
  other_name :
      (q : Str) (e : Str × V) (es : List (Str × V)) (v : V)
      → occurs q (e ∷ es) ≤ 1
      → lookup q es ≡ some v
      → same e.0 q ≡ false
  unfolding occurs
  other_name q e es v once held = elim (Bool-cases (same e.0 q)) [
    | inl s ↦
        let gone : lookup q es ≡ none =
          lookup-eq-none q es (let bound = rw s at (once) in omega arith) in
        absurd (let both = sym gone ∙ held in cc)
    | inr s ↦ s
  ]

  occurs_rest : (q : Str) (e : Str × V) (es : List (Str × V)) → occurs q es ≤ occurs q (e ∷ es)
  unfolding occurs
  occurs_rest q e es = omega arith

  lookup_first : (e : Str × V) (es : List (Str × V)) → lookup e.0 (e ∷ es) ≡ some e.1
  unfolding lookup
  lookup_first e es = rw (string_equal_refl e.0) refl

  lookup_other :
      (q : Str) (e : Str × V) (es : List (Str × V))
      → same e.0 q ≡ false
      → lookup q (e ∷ es) ≡ lookup q es
  unfolding lookup
  lookup_other q e es h = rw h refl

  lookup_here :
      (q : Str) (e : Str × V) (es : List (Str × V))
      → same e.0 q ≡ true
      → lookup q (e ∷ es) ≡ some e.1
  unfolding lookup
  lookup_here q e es h = rw h refl

  -- A name that stands first does not stand in the rest.
  rest_lacks :
      (q : Str) (e : Str × V) (es : List (Str × V))
      → occurs q (e ∷ es) ≤ 1
      → same e.0 q ≡ true
      → lookup q es ≡ none
  rest_lacks q e es once s = elim (Option-cases (lookup q es)) [
    | inl z ↦ z
    | inr (v, z) ↦ absurd (let other = other_name q e es v once z in cc)
  ]

  remove_all_lem :
      (es : List (Str × V)) (t : HashTable V)
      → IsValid t
      → IsShort t
      → ((q : Str) → occurs q es ≤ 1)
      → ((q : Str) (v : V) → lookup q es ≡ some v → view t q ≡ some v)
      → Returns
          (remove_all (expired_names expired es) t)
          λ t'. IsValid t' × ((q : Str) → view t' q ≡ left (lookup q es) (view t q))
  unfolding remove_all expired_names
  remove_all_lem [] t valid short once held = unfold lookup in (t, refl, (valid, λ q. refl))
  remove_all_lem (e ∷ es) t valid short once held =
      let once' : (q : Str) → occurs q es ≤ 1 = λ q. omega (arith, once q, occurs_rest q e es) in
      let apart : (q : Str) (v : V) → lookup q es ≡ some v → same e.0 q ≡ false =
        λ q v z. other_name q e es v (once q) z in
      let held' : (q : Str) (v : V) → lookup q es ≡ some v → view t q ≡ some v =
        λ q v z. held q v (lookup_other q e es (apart q v z) ∙ z) in
      elim (Bool-cases (expired e.1)) [
        | inr keeps ↦
            let (t', run, (valid', reads)) = remove_all_lem es t valid short once' held' in
            (
              t',
              rw keeps run,
              (
                valid',
                λ q. elim (Bool-cases (same e.0 q)) [
                  | inl s ↦
                      reads q ∙ rw (lookup_here q e es s, rest_lacks q e es (once q) s, keeps) refl
                  | inr s ↦ reads q ∙ rw (lookup_other q e es s) refl
                ],
              ),
            )
        | inl goes ↦
            let here = held e.0 e.1 (lookup_first e es) in
            let safe = short-IsRemovable t e.0 short in
            let (t₁, removed, (valid₁, reads₁, c, cap)) =
              hash_table_remove_lem t e.0 e.1 valid here safe in
            let short₁ : IsShort t₁ = λ i.
              omega
                (arith, short i, hash_table_remove-bucket t e.0 e.1 valid here safe removed i) in
            let (t', run, (valid', reads)) =
              remove_all_lem es t₁ valid₁ short₁ once'
                (λ q v z. reads₁ q ∙ rw (apart q v z) (held' q v z)) in
            (
              t',
              rw goes (bind_ok _ _ removed run),
              (
                valid',
                λ q. elim (Bool-cases (same e.0 q)) [
                  | inl s ↦
                      reads q
                      ∙ rw (lookup_here q e es s, rest_lacks q e es (once q) s, goes, reads₁ q, s)
                          refl
                  | inr s ↦ reads q ∙ rw (lookup_other q e es s, reads₁ q, s) refl
                ],
              ),
            )
      ]

  -- On a valid table whose buckets hold two entries at most, the clearing of a cache ends, in a valid
  -- table: a name whose value has expired is gone, and every other one reads as before.
  pub clear_lem :
      (t : HashTable V)
      → IsValid t
      → IsShort t
      → Returns (clear expired t) λ t'. IsValid t' × ((q : Str) → view t' q ≡ fresh (view t q))
  clear_lem t valid short =
      let all : (q : Str)
          → (occurs q (all_entries t.table) ≤ 1) × (lookup q (all_entries t.table) ≡ view t q) =
        λ q.
          unfold view in
          (all_entries_lem q t.table (index t.capacity q) (valid.placed.once q)
            (valid.placed.apart q)) in
      let (t', run, (valid', reads)) =
        remove_all_lem (all_entries t.table) t valid short (λ q. (all q).0)
          (λ q v z. sym (all q).1 ∙ z) in
      (
        t',
        (clear-remove_all expired t valid).1 ∙ run,
        (valid', λ q. reads q ∙ rw (all q).1 (left-fresh (view t q))),
      )
