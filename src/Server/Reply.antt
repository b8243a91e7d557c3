-- ===== src/Server/Reply.antt =====
-- socket.c: the second loop of `bind_socket_read`, which writes the answers that the caches hold into a
-- block of `limit` entries. `fuel` bounds the loops that follow aliases.
use post_dns.Base.{
  ℕ, zero, suc, ◌+◌, List, [], ◌∷◌, ◌++◌, ◌==◌, none, some, ltb, if◌then◌else◌, length, Run, ok,
  fault, Fault, out_of_fuel, ◌>>=◌, at,
}
use post_dns.Text.{Str}
use post_dns.HashTable.{HashTable}
use post_dns.Cache.{
  Ipv4Cache, Ipv6Cache, CnameCache, ipv4_cache_get, ipv6_cache_get, cname_cache_get,
}
use post_dns.Message.{Query, ResourceRecord, type_a, type_cname, type_aaaa}
use post_dns.Server.{generate_cname_response, generate_ipv4_response, generate_ipv6_response}

-- A write to the next entry of `answers`, which has `limit` entries.
unfoldable pub push_answer : ℕ → List ResourceRecord → ResourceRecord → Run (List ResourceRecord)
push_answer limit answers r =
    if ltb (length answers) limit then ok (answers ++ r ∷ []) else fault Fault.out_of_bounds

unfoldable pub push_answers :
    ℕ → List ResourceRecord → List ResourceRecord → Run (List ResourceRecord)
push_answers limit answers [] = ok answers
push_answers limit answers (r ∷ rs) = do
  answers' ← push_answer limit answers r
  push_answers limit answers' rs

-- `while (cname_cache != NULL)` of the second loop.
unfoldable pub answer_aliases :
    ℕ → HashTable CnameCache → ℕ → Str → List ResourceRecord → Run (Str × List ResourceRecord)
answer_aliases zero cname limit domain_name answers = out_of_fuel
answer_aliases (suc fuel) cname limit domain_name answers = do
  cname_cache ← cname_cache_get cname domain_name
  elim cname_cache [
    | none ↦ ok (domain_name, answers)
    | some c ↦ do
      answers' ← push_answer limit answers (generate_cname_response domain_name c.name)
      answer_aliases fuel cname limit c.name answers'
  ]

-- The answers for the addresses of one name, in order.
unfoldable pub ipv4_responses : Str → List ℕ → List ResourceRecord
ipv4_responses name [] = []
ipv4_responses name (a ∷ node) = generate_ipv4_response name a ∷ ipv4_responses name node

unfoldable pub ipv6_responses : Str → List (List ℕ) → List ResourceRecord
ipv6_responses name [] = []
ipv6_responses name (a ∷ node) = generate_ipv6_response name a ∷ ipv6_responses name node

unfoldable pub answer_ipv4 :
    HashTable Ipv4Cache → ℕ → Str → List ResourceRecord → Run (List ResourceRecord)
answer_ipv4 ipv4 limit domain_name answers = do
  found ← ipv4_cache_get ipv4 domain_name
  elim found [
    | none ↦ ok answers
    | some cache ↦ push_answers limit answers (ipv4_responses domain_name cache.node)
  ]

unfoldable pub answer_ipv6 :
    HashTable Ipv6Cache → ℕ → Str → List ResourceRecord → Run (List ResourceRecord)
answer_ipv6 ipv6 limit domain_name answers = do
  found ← ipv6_cache_get ipv6 domain_name
  elim found [
    | none ↦ ok answers
    | some cache ↦ push_answers limit answers (ipv6_responses domain_name cache.node)
  ]

-- One round of the second loop.
unfoldable pub answer_query :
    ℕ
    → HashTable CnameCache
    → HashTable Ipv4Cache
    → HashTable Ipv6Cache
    → ℕ
    → Query
    → List ResourceRecord
    → Run (List ResourceRecord)
answer_query fuel cname ipv4 ipv6 limit q answers =
    if q.type == type_a
    then (do
      (domain_name, answers') ← answer_aliases fuel cname limit q.name answers
      answer_ipv4 ipv4 limit domain_name answers')
    else if q.type == type_cname
    then (do (domain_name, answers') ← answer_aliases fuel cname limit q.name answers; ok answers')
    else if q.type == type_aaaa
    then (do
      (domain_name, answers') ← answer_aliases fuel cname limit q.name answers
      answer_ipv6 ipv6 limit domain_name answers')
    else ok answers

unfoldable pub answer_queries :
    ℕ
    → HashTable CnameCache
    → HashTable Ipv4Cache
    → HashTable Ipv6Cache
    → ℕ
    → List Query
    → ℕ
    → ℕ
    → List ResourceRecord
    → Run (List ResourceRecord)
answer_queries fuel cname ipv4 ipv6 limit queries i zero answers = ok answers
answer_queries fuel cname ipv4 ipv6 limit queries i (suc n) answers = do
  q ← at queries i
  answers' ← answer_query fuel cname ipv4 ipv6 limit q answers
  answer_queries fuel cname ipv4 ipv6 limit queries (i + 1) n answers'
