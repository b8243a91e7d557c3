-- ===== src/HashTable/Chain.antt =====
-- One chain against the list of its entries.
use post_dns.Base.{
  ℕ, ◌+◌, ◌≡◌, refl, ap, arith, List, [], ◌∷◌, ◌++◌, Bool, true, false, Option, none, some,
  if◌then◌else◌, ok, Returns,
}
use post_dns.Text.{Str, string_equal}
use post_dns.Text.Equal.{string_equal_iff}
use post_dns.HashTable.{
  HashNode, null, dangling, cell, append_entry, search_chain, free_chain, free_next,
}

-- Comparison of two names that are not NULL.
abbrev pub same : Str → Str → Bool
same a b = string_equal (some a) (some b)

abbrev pub to_nat : Bool → ℕ
to_nat true = 1
to_nat false = 0

module _ {ℓ} {V : Type ℓ} where
  unfoldable pub lookup : Str → List (Str × V) → Option V
  lookup q [] = none
  lookup q (e ∷ es) = if same e.0 q then some e.1 else lookup q es

  -- How often the name stands in the list.
  unfoldable pub occurs : Str → List (Str × V) → ℕ
  occurs q [] = 0
  occurs q (e ∷ es) = to_nat (same e.0 q) + occurs q es

  unfoldable pub entries : HashNode V → List (Str × V)
  entries null = []
  entries dangling = []
  entries (cell none next) = []
  entries (cell (some e) next) = e ∷ entries next

  -- What stands behind a node with a name: nodes with names, and then NULL.
  abbrev pub IsChain : HashNode V → Type 0
  IsChain null = Unit
  IsChain dangling = ⊥
  IsChain (cell none next) = ⊥
  IsChain (cell (some e) next) = IsChain next

  abbrev pub IsNull : HashNode V → Type 0
  IsNull null = Unit
  IsNull dangling = ⊥
  IsNull (cell e next) = ⊥

  -- The first node of a bucket: empty, or the head of a chain.
  abbrev pub IsBucket : HashNode V → Type 0
  IsBucket null = ⊥
  IsBucket dangling = ⊥
  IsBucket (cell none next) = IsNull next
  IsBucket (cell (some e) next) = IsChain next

  pub lookup-eq-none : (q : Str) (es : List (Str × V)) → occurs q es ≡ 0 → lookup q es ≡ none
  unfolding lookup occurs
  lookup-eq-none q [] h = refl
  lookup-eq-none q (e ∷ es) h = ground (arith, lookup-eq-none q es)

  pub occurs-eq-zero : (q : Str) (es : List (Str × V)) → lookup q es ≡ none → occurs q es ≡ 0
  unfolding lookup occurs
  occurs-eq-zero q [] h = refl
  occurs-eq-zero q (e ∷ es) h = ground (arith, occurs-eq-zero q es)

  pub occurs-append :
      (q : Str) (es fs : List (Str × V)) → occurs q (es ++ fs) ≡ occurs q es + occurs q fs
  unfolding occurs
  occurs-append q [] fs = omega arith
  occurs-append q (e ∷ es) fs = omega (arith, occurs-append q es fs)

  pub lookup-append :
      (q : Str) (es fs : List (Str × V)) → lookup q es ≡ none → lookup q (es ++ fs) ≡ lookup q fs
  unfolding lookup
  lookup-append q [] fs h = refl
  lookup-append q (e ∷ es) fs h = ground (arith, lookup-append q es fs)

  pub lookup-append_some :
      (q : Str) (es fs : List (Str × V)) (v : V)
      → lookup q es ≡ some v
      → lookup q (es ++ fs) ≡ some v
  unfolding lookup
  lookup-append_some q [] fs v h = cc
  lookup-append_some q (e ∷ es) fs v h = ground (arith, lookup-append_some q es fs v)

  -- An entry for a new name, at the end.
  pub lookup-snoc :
      (k q : Str) (v : V) (es : List (Str × V))
      → lookup k es ≡ none
      → lookup q (es ++ (k, v) ∷ []) ≡ (if same k q then some v else lookup q es)
  unfolding lookup
  lookup-snoc k q v [] h = refl
  lookup-snoc k q v (e ∷ es) h = ground (
    arith,
    lookup-snoc k q v es,
    string_equal_iff k q,
    string_equal_iff e.0 q,
    string_equal_iff e.0 k,
  )

  append_entry-IsChain :
      (k : Str) (v : V) (node : HashNode V) (e : Str × V)
      → IsChain node
      → Returns
          (append_entry k v (cell (some e) node))
          λ r. IsChain r × IsBucket r × (entries r ≡ e ∷ entries node ++ (k, v) ∷ [])
  unfolding append_entry entries
  append_entry-IsChain k v null e h = (_, refl, (tt, tt, refl))
  append_entry-IsChain k v dangling e h = absurd h
  append_entry-IsChain k v (cell none next) e h = absurd h
  append_entry-IsChain k v (cell (some f) next) e h =
      let (r, run, parts) = append_entry-IsChain k v next f h in
      (cell (some e) r, rw run, (parts.0, parts.0, ap (λ (t : List (Str × V)). e ∷ t) parts.2))

  -- `add_node` puts the entry behind those of its bucket.
  pub append_entry-bucket :
      (k : Str) (v : V) (node : HashNode V)
      → IsBucket node
      → Returns (append_entry k v node) λ r. IsBucket r × (entries r ≡ entries node ++ (k, v) ∷ [])
  unfolding append_entry entries
  append_entry-bucket k v null h = absurd h
  append_entry-bucket k v dangling h = absurd h
  append_entry-bucket k v (cell none next) h = (_, refl, (tt, refl))
  append_entry-bucket k v (cell (some e) next) h =
      let (r, run, parts) = append_entry-IsChain k v next e h in (r, run, (parts.1, parts.2))

  pub search_chain-lookup :
      (q : Str) (node : HashNode V)
      → IsChain node
      → search_chain q node ≡ ok (lookup q (entries node))
  unfolding search_chain lookup entries
  search_chain-lookup q null h = refl
  search_chain-lookup q dangling h = absurd h
  search_chain-lookup q (cell none next) h = refl
  search_chain-lookup q (cell (some e) next) h = ground (arith, search_chain-lookup q next h)

  pub search_chain-bucket :
      (q : Str) (node : HashNode V)
      → IsBucket node
      → search_chain q node ≡ ok (lookup q (entries node))
  unfolding search_chain lookup entries
  search_chain-bucket q null h = refl
  search_chain-bucket q dangling h = absurd h
  search_chain-bucket q (cell none next) h = refl
  search_chain-bucket q (cell (some e) next) h = search_chain-lookup q (cell (some e) next) h

  pub free_chain_lem : (node : HashNode V) → IsChain node → free_chain node ≡ ok tt
  unfolding free_chain
  free_chain_lem null h = refl
  free_chain_lem dangling h = absurd h
  free_chain_lem (cell none next) h = absurd h
  free_chain_lem (cell (some e) next) h = free_chain_lem next h

  pub free_next_lem : (node : HashNode V) → IsBucket node → free_next node ≡ ok tt
  unfolding free_next
  free_next_lem null h = absurd h
  free_next_lem dangling h = absurd h
  free_next_lem (cell none null) h = refl
  free_next_lem (cell none dangling) h = absurd h
  free_next_lem (cell none (cell e next)) h = absurd h
  free_next_lem (cell (some e) next) h = free_chain_lem next h
