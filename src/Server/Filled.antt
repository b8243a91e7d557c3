-- ===== src/Server/Filled.antt =====
-- socket.c: the two loops of `bind_socket_read` over the queries of one message.
use post_dns.Base.{
  ℕ, zero, suc, ◌+◌, ◌≡◌, refl, sym, ap, ◌∙◌, arith, List, [], true, false, Bool-cases, length, ok,
  Returns, at, >>=-eq-ok, bind_ok, inl, inr,
}
use post_dns.HashTable.{HashTable}
use post_dns.HashTable.Invariant.{IsValid}
use post_dns.Cache.{Ipv4Cache, Ipv6Cache, CnameCache}
use post_dns.Message.{Query}
use post_dns.Server.Lookup.{Progress, count_query, count_queries}
use post_dns.Server.Reply.{answer_query, answer_queries}
use post_dns.Server.Answers.{Agrees, ok-injective}
use post_dns.Server.Loops.{unchanged-Agrees, sequence-Agrees}
use post_dns.Server.Exact.{count_query-Agrees}
use post_dns.Server.Banned.{count_queries-guarded, count_queries-Keeps, count_queries_cached}

module _ (fuel : ℕ) (cname : HashTable CnameCache) (ipv6 : HashTable Ipv6Cache) where
  allowed_before :
      (queries : List Query) (i n : ℕ) (p p' : Progress)
      → count_queries fuel cname ipv6 queries i n p ≡ ok p'
      → p'.banned ≡ false
      → p.banned ≡ false
  allowed_before queries i n p p' h allowed = elim (Bool-cases p.banned) [
    | inr z ↦ z
    | inl z ↦ absurd (let kept = count_queries-Keeps fuel cname ipv6 queries i n p z p' h in cc)
  ]

  count_queries-Agrees :
      (queries : List Query) (i n : ℕ) (p p' : Progress)
      → IsValid p.ipv4
      → count_queries fuel cname ipv6 queries i n p ≡ ok p'
      → p'.cached ≡ true
      → p'.banned ≡ false
      → Agrees p.ipv4 p.banned p.answer_count
          (λ t l a. answer_queries fuel cname t ipv6 l queries i n a)
          p'
  unfolding count_queries answer_queries
  count_queries-Agrees queries i zero p p' valid h hit allowed =
      let same = ok-injective h in
      rw (← same) (unchanged-Agrees p valid (ap (λ (x : Progress). x.banned) same ∙ allowed))
  count_queries-Agrees queries i (suc n) p p' valid h hit allowed =
      let z = count_queries_cached fuel cname ipv6 queries i (suc n) p p' h hit in
      let h₀ = sym (count_queries-guarded fuel cname ipv6 queries i n p true z) ∙ h in
      let (q, at_i, h₁) = >>=-eq-ok (at queries i) _ h₀ in
      let (p₁, run, h₂) = >>=-eq-ok (count_query fuel cname ipv6 q p) _ h₁ in
      let hit₁ = count_queries_cached fuel cname ipv6 queries (i + 1) n p₁ p' h₂ hit in
      let allowed₁ = allowed_before queries (i + 1) n p₁ p' h₂ allowed in
      let now = count_query-Agrees fuel cname ipv6 q p p₁ valid hit₁ allowed₁ run in
      let later = count_queries-Agrees queries (i + 1) n p₁ p' now.valid h₂ hit allowed in
      let both =
        sequence-Agrees (λ t l a. answer_query fuel cname t ipv6 l q a)
          (λ t l a. answer_queries fuel cname t ipv6 l queries (i + 1) n a) now later in
      record {
        valid = both.valid;
        same_nodes = both.same_nodes;
        allowed = both.allowed;
        grows = both.grows;
        writes = λ t placed same_nodes limit answers size room.
            let (a, run', sum) = both.writes t placed same_nodes limit answers size room in
            (a, bind_ok (at queries i) _ at_i run', sum);
      }

  -- When the first loop of `bind_socket_read`, on a valid IPv4 table, ends with every query cached
  -- and none banned, the second loop fills the block of `answer_count` records exactly, from the
  -- caches that the first loop left, without a fault.
  pub answer_queries-count_queries :
      (queries : List Query) (n : ℕ) (ipv4 : HashTable Ipv4Cache) (p : Progress)
      → IsValid ipv4
      → count_queries fuel cname ipv6 queries 0 n
          (record { ipv4 = ipv4; answer_count = 0; cached = true; banned = false })
        ≡ ok p
      → p.cached ≡ true
      → p.banned ≡ false
      → Returns
          (answer_queries fuel cname p.ipv4 ipv6 p.answer_count queries 0 n [])
          λ answers. length answers ≡ p.answer_count
  answer_queries-count_queries queries n ipv4 p valid h hit allowed =
      let start : Progress = record {
        ipv4 = ipv4;
        answer_count = 0;
        cached = true;
        banned = false;
      } in
      let a = count_queries-Agrees queries 0 n start p valid h hit allowed in
      a.writes p.ipv4 a.valid.placed a.same_nodes p.answer_count [] refl (omega arith)
