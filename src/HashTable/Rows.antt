-- ===== src/HashTable/Rows.antt =====
-- The array of buckets: what stands at an index, and all the entries in the order in which `resize`
-- visits them.
use post_dns.Base.{
  ℕ, zero, suc, ◌+◌, ◌≤◌, ◌<◌, ◌≡◌, ◌≢◌, refl, ◌∙◌, arith, List, [], ◌∷◌, ◌++◌, inl, inr, length,
  get_or, set, replicate, length-append, All, Option-cases,
}
use post_dns.Text.{Str}
use post_dns.HashTable.{HashNode, empty_node}
use post_dns.HashTable.Chain.{
  entries, lookup, occurs, lookup-eq-none, occurs-append, lookup-append, lookup-append_some,
  IsBucket,
}

pub IsBucket-replicate {ℓ} : (V : Type ℓ) (n : ℕ) → All IsBucket (replicate n (empty_node {V = V}))
IsBucket-replicate V zero = tt
IsBucket-replicate V (suc n) = (tt, IsBucket-replicate V n)

module _ {ℓ} {V : Type ℓ} where
  abbrev pub bucket : List (HashNode V) → ℕ → List (Str × V)
  bucket nodes i = entries (get_or nodes i empty_node)

  unfoldable pub all_entries : List (HashNode V) → List (Str × V)
  all_entries [] = []
  all_entries (node ∷ nodes) = entries node ++ all_entries nodes

  pub length-all_entries-set :
      (nodes : List (HashNode V)) (i : ℕ) (node : HashNode V)
      → i < length nodes
      → length (all_entries (set nodes i node)) + length (bucket nodes i)
        ≡ length (all_entries nodes) + length (entries node)
  unfolding all_entries
  length-all_entries-set [] i node h = absurd (omega arith)
  length-all_entries-set (b ∷ nodes) zero node h = omega (
    arith,
    length-append (entries b) (all_entries nodes),
    length-append (entries node) (all_entries nodes),
  )
  length-all_entries-set (b ∷ nodes) (suc i) node h = omega (
    arith,
    length-append (entries b) (all_entries nodes),
    length-append (entries b) (all_entries (set nodes i node)),
    length-all_entries-set nodes i node (omega arith),
  )

  pub IsBucket-set :
      (nodes : List (HashNode V)) (i : ℕ) (node : HashNode V)
      → All IsBucket nodes
      → IsBucket node
      → All IsBucket (set nodes i node)
  IsBucket-set [] i node h b = tt
  IsBucket-set (n ∷ nodes) zero node h b = (b, h.1)
  IsBucket-set (n ∷ nodes) (suc i) node h b = (h.0, IsBucket-set nodes i node h.1 b)

  pub IsBucket-get_or :
      (nodes : List (HashNode V)) (i : ℕ)
      → All IsBucket nodes
      → IsBucket (get_or nodes i empty_node)
  IsBucket-get_or [] i h = tt
  IsBucket-get_or (n ∷ nodes) zero h = h.0
  IsBucket-get_or (n ∷ nodes) (suc i) h = IsBucket-get_or nodes i h.1

  pub all_entries-replicate : (n : ℕ) → all_entries (replicate n (empty_node {V = V})) ≡ []
  unfolding all_entries entries
  all_entries-replicate zero = refl
  all_entries-replicate (suc n) = all_entries-replicate n

  occurs_nowhere :
      (q : Str) (nodes : List (HashNode V))
      → ((i : ℕ) → occurs q (bucket nodes i) ≡ 0)
      → occurs q (all_entries nodes) ≡ 0
  unfolding all_entries occurs
  occurs_nowhere q [] h = refl
  occurs_nowhere q (b ∷ nodes) h = omega (
    arith,
    occurs-append q (entries b) (all_entries nodes),
    h 0,
    occurs_nowhere q nodes (λ i. h (suc i)),
  )

  -- A name that stands at most once, and only at the index `h`, is found there and nowhere else.
  pub all_entries_lem :
      (q : Str) (nodes : List (HashNode V)) (h : ℕ)
      → occurs q (bucket nodes h) ≤ 1
      → ((i : ℕ) → i ≢ h → occurs q (bucket nodes i) ≡ 0)
      → (occurs q (all_entries nodes) ≤ 1)
        × (lookup q (all_entries nodes) ≡ lookup q (bucket nodes h))
  unfolding all_entries
  all_entries_lem q [] h once apart = unfold occurs lookup entries in (omega arith, refl)
  all_entries_lem q (b ∷ nodes) zero once apart =
      let rest = occurs_nowhere q nodes (λ i. apart (suc i) (omega arith)) in
      (
        omega (arith, occurs-append q (entries b) (all_entries nodes)),
        elim (Option-cases (lookup q (entries b))) [
          | inl e ↦
              lookup-append q (entries b) (all_entries nodes) e
              ∙ lookup-eq-none q (all_entries nodes) rest
              ∙ cc
          | inr (v, e) ↦ cc (lookup-append_some q (entries b) (all_entries nodes) v e)
        ],
      )
  all_entries_lem q (b ∷ nodes) (suc h) once apart =
      let none_here = apart zero (omega arith) in
      let rest = all_entries_lem q nodes h once (λ i p. apart (suc i) (omega arith)) in
      (
        omega (arith, occurs-append q (entries b) (all_entries nodes)),
        lookup-append q (entries b) (all_entries nodes) (lookup-eq-none q (entries b) none_here)
            ∙ rest.1,
      )
