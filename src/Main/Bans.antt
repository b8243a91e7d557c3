-- ===== src/Main/Bans.antt =====
-- socket.c: the mark `manual` in the first loop of `bind_socket_read`.
use post_dns.Base.{
  ℕ, zero, suc, ◌+◌, ◌≡◌, ap, ◌∙◌, List, [], ◌∷◌, Bool, true, false, some, Bool-cases, Option-cases,
  inl, inr, ◌==◌, ==_iff, Run, ok, Fault, ◌>>=◌, >>=-eq-ok, from_option, at,
}
use mathlib.Core.List.{head?}
use post_dns.Text.{Str}
use post_dns.HashTable.{HashTable, write_through}
use post_dns.HashTable.Values.{AllEntries, ok-eq, write_through-AllEntries}
use post_dns.Cache.{
  Ipv4Cache, Ipv6Cache, CnameCache, ipv4_cache_get, ipv6_cache_get, cname_cache_get,
}
use post_dns.Message.{Query, type_a, type_cname, type_aaaa}
use post_dns.Server.Lookup.{
  Progress, count_ipv4, count_ipv6, count_aliases, count_query, count_queries,
}

-- An IPv4 entry has an address, and if it is marked the first one is 0.
abbrev pub IsServable : Str → Ipv4Cache → Type 0
IsServable k c = ((a : ℕ) × (head? c.node ≡ some a)) × (c.manual ≡ true → head? c.node ≡ some 0)

count_ipv4-IsServable :
    (ipv4 : HashTable Ipv4Cache) (d : Str) (n : ℕ) (p : Progress) {p' : Progress}
    → AllEntries IsServable ipv4
    → AllEntries IsServable p.ipv4
    → count_ipv4 ipv4 d n p ≡ ok p'
    → AllEntries IsServable p'.ipv4
unfolding count_ipv4
count_ipv4-IsServable ipv4 d n p h hp e =
    let (found, run, e₁) = >>=-eq-ok (ipv4_cache_get ipv4 d) _ e in
    elim (Option-cases found) [
      | inl absent ↦ rw (← ok-eq (rw absent at e₁)) hp
      | inr (c, there) ↦
          let (a, first, e₂) =
            >>=-eq-ok (from_option Fault.null_pointer (head? c.node)) _ (rw there at e₁) in
          let (ipv4', stored, e₃) =
            >>=-eq-ok (write_through ipv4 d (record c { manual = a == 0 })) _ e₂ in
          let has = first_address c.node a first in
          let bans : IsServable d (record c { manual = a == 0 }) =
            ((a, has), λ marked. has ∙ ap some ((==_iff a 0).0 marked)) in
          let kept =
            write_through-AllEntries IsServable ipv4 d (record c { manual = a == 0 }) bans h
              stored in
          elim (Bool-cases (a == 0)) [
            | inl z ↦ rw (← ok-eq (rw z at e₃)) kept
            | inr z ↦ rw (← ok-eq (rw z at e₃)) kept
          ]
    ]
  where
    first_address :
        (node : List ℕ) (a : ℕ)
        → from_option Fault.null_pointer (head? node) ≡ ok a
        → head? node ≡ some a
    first_address [] a h = absurd (cc)
    first_address (x ∷ node) a h = ap some (ok-eq h)

count_query-IsServable :
    (fuel : ℕ) (cname : HashTable CnameCache) (ipv6 : HashTable Ipv6Cache) (q : Query)
    (p : Progress) {p' : Progress}
    → AllEntries IsServable p.ipv4
    → count_query fuel cname ipv6 q p ≡ ok p'
    → AllEntries IsServable p'.ipv4
unfolding count_query count_ipv6
count_query-IsServable fuel cname ipv6 q p h e = elim (Bool-cases (q.type == type_a)) [
  | inl z ↦
      let ((n, d), run, e₁) =
        >>=-eq-ok (count_aliases fuel cname q.name p.answer_count) _ (rw z at e) in
      count_ipv4-IsServable p.ipv4 d n p h h e₁
  | inr z ↦ elim (Bool-cases (q.type == type_cname)) [
    | inl z₁ ↦
        let (found, run, e₁) = >>=-eq-ok (cname_cache_get cname q.name) _ (rw (z, z₁) at e) in
        elim (Option-cases found) [
          | inl absent ↦ rw (← ok-eq (rw absent at e₁)) h
          | inr (c, there) ↦
              let ((n, d), run', e₂) =
                >>=-eq-ok (count_aliases fuel cname q.name p.answer_count) _ (rw there at e₁) in
              rw (← ok-eq e₂) h
        ]
    | inr z₁ ↦ elim (Bool-cases (q.type == type_aaaa)) [
      | inl z₂ ↦
          let ((n, d), run, e₁) =
            >>=-eq-ok (count_aliases fuel cname q.name p.answer_count) _ (rw (z, z₁, z₂) at e) in
          let (found, run', e₂) = >>=-eq-ok (ipv6_cache_get ipv6 d) _ e₁ in
          elim (Option-cases found) [
            | inl absent ↦ rw (← ok-eq (rw absent at e₂)) h
            | inr (c, there) ↦ rw (← ok-eq (rw there at e₂)) h
          ]
      | inr z₂ ↦ rw (← ok-eq (rw (z, z₁, z₂) at e)) h
    ]
  ]
]

abbrev round :
    ℕ
    → HashTable CnameCache
    → HashTable Ipv6Cache
    → List Query
    → ℕ
    → ℕ
    → Progress
    → Bool
    → Run Progress
round fuel cname ipv6 queries i n p false = ok p
round fuel cname ipv6 queries i n p true = do
  q ← at queries i
  p' ← count_query fuel cname ipv6 q p
  count_queries fuel cname ipv6 queries (i + 1) n p'

pub count_queries-IsServable :
    (fuel : ℕ) (cname : HashTable CnameCache) (ipv6 : HashTable Ipv6Cache) (queries : List Query)
    (i n : ℕ) (p : Progress) {p' : Progress}
    → AllEntries IsServable p.ipv4
    → count_queries fuel cname ipv6 queries i n p ≡ ok p'
    → AllEntries IsServable p'.ipv4
unfolding count_queries
count_queries-IsServable fuel cname ipv6 queries i zero p h e = rw (← ok-eq e) h
count_queries-IsServable fuel cname ipv6 queries i (suc n) p {p' = p'} h e =
    go (p.cached) (λ p₁ h₁ e₁. count_queries-IsServable fuel cname ipv6 queries (i + 1) n p₁ h₁ e₁)
      e
  where
    go :
        (c : Bool)
        → ((p₁ : Progress)
            → AllEntries IsServable p₁.ipv4
            → count_queries fuel cname ipv6 queries (i + 1) n p₁ ≡ ok p'
            → AllEntries IsServable p'.ipv4)
        → round fuel cname ipv6 queries i n p c ≡ ok p'
        → AllEntries IsServable p'.ipv4
    go false rest e₀ = rw (← ok-eq e₀) h
    go true rest e₀ =
        let (q, asked, e₁) = >>=-eq-ok (at queries i) _ e₀ in
        let (p₁, run, e₂) = >>=-eq-ok (count_query fuel cname ipv6 q p) _ e₁ in
        rest p₁ (count_query-IsServable fuel cname ipv6 q p h run) e₂
