-- ===== src/Server/Cached.antt =====
-- socket.c: both loops of `bind_socket_read` on one question that the caches answer.
use post_dns.Base.{
  ℕ, ◌+◌, ◌<◌, ◌≡◌, ◌≢◌, refl, sym, ap, ◌∙◌, arith, List, [], ◌++◌, true, false, none, some, length,
  length-append, ok, bind_ok, ==-eq-false, Option-cases, inl, inr,
}
use mathlib.Core.List.{head?}
use post_dns.Text.{Str}
use post_dns.HashTable.{HashTable}
use post_dns.HashTable.Invariant.{view, IsPlaced, IsValid}
use post_dns.HashTable.Put.{hash_table_get-view, write_through_lem}
use post_dns.Cache.{
  Ipv4Cache, Ipv6Cache, CnameCache, ipv4_cache_get, ipv6_cache_get, cname_cache_get,
}
use post_dns.Message.{Query, ResourceRecord, type_a, type_cname, type_aaaa}
use post_dns.Server.{Server}
use post_dns.Server.Lookup.{Progress, count_ipv4, count_ipv6, count_query}
use post_dns.Server.Reply.{answer_ipv4, answer_ipv6, answer_query}
use post_dns.Server.Agreement.{push_answers-append}
use post_dns.Server.Aliases.{
  Leads, alias_records, length-alias_records, count_aliases-Leads, answer_aliases-alias_records,
}
use post_dns.Server.Answers.{
  a_records, aaaa_records, ipv4_responses-a_records, ipv6_responses-aaaa_records, SameNodes,
  stored-SameNodes, length-a_records, length-aaaa_records,
}
use post_dns.Server.Ask.{start}

-- What the first loop ends with.
abbrev pub found_banned : HashTable Ipv4Cache → ℕ → Progress
found_banned ipv4 n = record { ipv4 = ipv4; answer_count = n; cached = true; banned = true }

abbrev pub found : HashTable Ipv4Cache → ℕ → Progress
found ipv4 n = record { ipv4 = ipv4; answer_count = n; cached = true; banned = false }

module _ {Addr : Type 0} where
  -- The caches answer the question with these records, behind `n` aliases.
  pub data IsCached (s : Server Addr) (q : Query) (n : ℕ) (answers : List ResourceRecord)
      : Type 0 where
    cached4 :
        (d : Str) (l : Leads s.cname n q.name d) (c : Ipv4Cache) (a : ℕ)
        → q.type ≡ type_a
        → view s.cname d ≡ none
        → view s.ipv4 d ≡ some c
        → head? c.node ≡ some a
        → a ≢ 0
        → answers ≡ alias_records l ++ a_records d c.node
        → IsCached s q n answers
    cached_alias :
        (d : Str) (l : Leads s.cname n q.name d) (c : CnameCache)
        → q.type ≡ type_cname
        → view s.cname d ≡ none
        → view s.cname q.name ≡ some c
        → answers ≡ alias_records l
        → IsCached s q n answers
    cached6 :
        (d : Str) (l : Leads s.cname n q.name d) (c : Ipv6Cache)
        → q.type ≡ type_aaaa
        → view s.cname d ≡ none
        → view s.ipv6 d ≡ some c
        → answers ≡ alias_records l ++ aaaa_records d c.node
        → IsCached s q n answers

  -- The question is for an IPv4 address, and the first one that is stored is 0.
  pub data IsBanned (s : Server Addr) (q : Query) (n : ℕ) : Type 0 where
    banned4 :
        (d : Str) (l : Leads s.cname n q.name d) (c : Ipv4Cache)
        → q.type ≡ type_a
        → view s.cname d ≡ none
        → view s.ipv4 d ≡ some c
        → head? c.node ≡ some 0
        → IsBanned s q n

  module _ (s : Server Addr) (p4 : IsValid s.ipv4) (p6 : IsPlaced s.ipv6) (pc : IsPlaced s.cname)
      (fuel : ℕ) where
    pub count_banned :
        (q : Query) (n : ℕ)
        → IsBanned s q n
        → n < fuel
        → (ipv4 : HashTable Ipv4Cache) × (count_query fuel s.cname s.ipv6 q (start s)
            ≡ ok (found_banned ipv4 n))
          × IsValid ipv4
          × SameNodes s.ipv4 ipv4
    unfolding count_query count_ipv4 ipv4_cache_get
    count_banned q n (banned4 d l c t end held first) enough =
        let (ipv4, run, (valid, stores)) =
          write_through_lem s.ipv4 d (record c { manual = true }) c p4 held in
        (
          ipv4,
          rw t (
              bind_ok _ _ (count_aliases-Leads s.cname pc n q.name d l end fuel 0 enough) (
                bind_ok _ _ (hash_table_get-view p4.placed d) (
                  rw (held, first)
                    (bind_ok _ _ run (ap (λ (k : ℕ). ok (found_banned ipv4 k)) (omega arith)))))),
          valid,
          stored-SameNodes s.ipv4 ipv4 d c true held stores,
        )

    -- The first loop finds the answers, and counts them.
    pub count_cached :
        (q : Query) (n : ℕ) (answers : List ResourceRecord)
        → IsCached s q n answers
        → n < fuel
        → (ipv4 : HashTable Ipv4Cache) × (count_query fuel s.cname s.ipv6 q (start s)
            ≡ ok (found ipv4 (length answers)))
          × IsValid ipv4
          × SameNodes s.ipv4 ipv4
    unfolding count_query count_ipv4 count_ipv6 ipv4_cache_get ipv6_cache_get cname_cache_get
    count_cached q n answers (cached4 d l c a t end held first some_address all) enough =
        let (ipv4, run, (valid, stores)) =
          write_through_lem s.ipv4 d (record c { manual = false }) c p4 held in
        let no = ==-eq-false a 0 some_address in
        let total : 0 + n + length c.node ≡ length answers = omega (
          arith,
          ap length all,
          length-append (alias_records l) (a_records d c.node),
          length-alias_records l,
          length-a_records d c.node,
        ) in
        (
          ipv4,
          rw t (
              bind_ok _ _ (count_aliases-Leads s.cname pc n q.name d l end fuel 0 enough) (
                bind_ok _ _ (hash_table_get-view p4.placed d) (
                  rw (held, first, no)
                    (bind_ok _ _ run (ap (λ (k : ℕ). ok (found ipv4 k)) total))))),
          valid,
          stored-SameNodes s.ipv4 ipv4 d c false held stores,
        )
    count_cached q n answers (cached_alias d l c t end held all) enough =
        let total : 0 + n ≡ length answers = omega (arith, ap length all, length-alias_records l) in
        (
          s.ipv4,
          rw t (
              bind_ok _ _ (hash_table_get-view pc q.name) (
                rw held (
                  bind_ok _ _ (count_aliases-Leads s.cname pc n q.name d l end fuel 0 enough)
                    (ap (λ (k : ℕ). ok (found s.ipv4 k)) total)))),
          p4,
          λ _. refl,
        )
    count_cached q n answers (cached6 d l c t end held all) enough =
        let total : 0 + n + length c.node ≡ length answers = omega (
          arith,
          ap length all,
          length-append (alias_records l) (aaaa_records d c.node),
          length-alias_records l,
          length-aaaa_records d c.node,
        ) in
        (
          s.ipv4,
          rw t (
              bind_ok _ _ (count_aliases-Leads s.cname pc n q.name d l end fuel 0 enough) (
                bind_ok _ _ (hash_table_get-view p6 d)
                  (rw held (ap (λ (k : ℕ). ok (found s.ipv4 k)) total)))),
          p4,
          λ _. refl,
        )

    -- The second loop writes them into a block that is just large enough, and reads the same
    -- addresses from the table that the first loop has left.
    pub answer_cached :
        (q : Query) (n : ℕ) (answers : List ResourceRecord)
        → IsCached s q n answers
        → n < fuel
        → (ipv4 : HashTable Ipv4Cache) → IsPlaced ipv4
        → SameNodes s.ipv4 ipv4
        → answer_query fuel s.cname ipv4 s.ipv6 (length answers) q [] ≡ ok answers
    unfolding answer_query answer_ipv4 answer_ipv6 ipv4_cache_get ipv6_cache_get
    answer_cached q n answers (cached4 d l c a t end held first some_address all) enough ipv4 placed
          kept =
        let limit = length answers in
        let total = length-append (alias_records l) (a_records d c.node) in
        let size = ap length all in
        elim (Option-cases (view ipv4 d)) [
          | inl none_held ↦ absurd (let lost = kept d in cc)
          | inr (c', held') ↦
              let same_node : c'.node ≡ c.node = (let same_nodes = kept d in cc) in
              rw t (
                bind_ok _ _
                  (answer_aliases-alias_records s.cname pc n q.name d l end fuel limit [] enough
                    (omega (arith, total, size)))
                  (bind_ok _ _ (hash_table_get-view placed d) (
                    rw (held', same_node, ipv4_responses-a_records d c.node)
                      (push_answers-append limit (a_records d c.node) (alias_records l)
                          (omega (arith, total, size))
                        ∙ ap ok (sym all)))))
        ]
    answer_cached q n answers (cached_alias d l c t end held all) enough ipv4 placed kept = rw t (
        bind_ok _ _
          (answer_aliases-alias_records s.cname pc n q.name d l end fuel (length answers) [] enough
            (omega (arith, ap length all)))
          (ap ok (sym all)))
    answer_cached q n answers (cached6 d l c t end held all) enough ipv4 placed kept =
        let limit = length answers in
        let total = length-append (alias_records l) (aaaa_records d c.node) in
        let size = ap length all in
        rw t (
          bind_ok _ _
            (answer_aliases-alias_records s.cname pc n q.name d l end fuel limit [] enough
              (omega (arith, total, size)))
            (bind_ok _ _ (hash_table_get-view p6 d) (
              rw (held, ipv6_responses-aaaa_records d c.node)
                (push_answers-append limit (aaaa_records d c.node) (alias_records l)
                    (omega (arith, total, size))
                  ∙ ap ok (sym all)))))
