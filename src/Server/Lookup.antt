-- ===== src/Server/Lookup.antt =====
-- socket.c: the first loop of `bind_socket_read`, which looks whether the caches answer every query and
-- counts the answers. `fuel` bounds the loops that follow aliases.
use post_dns.Base.{
  ℕ, zero, suc, ◌+◌, List, Bool, true, false, ◌==◌, none, some, if◌then◌else◌, length, Run, ok,
  Fault, out_of_fuel, ◌>>=◌, at, from_option,
}
use mathlib.Core.List.{head?}
use post_dns.Text.{Str}
use post_dns.HashTable.{HashTable, write_through}
use post_dns.Cache.{
  Ipv4Cache, Ipv6Cache, CnameCache, ipv4_cache_get, ipv6_cache_get, cname_cache_get,
}
use post_dns.Message.{Query, type_a, type_cname, type_aaaa}

-- `while (cname_cache != NULL)` of the first loop: the number of aliases passed and the last domain.
-- Aliases may lead in a circle.
unfoldable pub count_aliases : ℕ → HashTable CnameCache → Str → ℕ → Run (ℕ × Str)
count_aliases zero cname domain_name answer_count = out_of_fuel
count_aliases (suc fuel) cname domain_name answer_count = do
  cname_cache ← cname_cache_get cname domain_name
  elim cname_cache [
    | none ↦ ok (answer_count, domain_name)
    | some c ↦ count_aliases fuel cname c.name (answer_count + 1)
  ]

-- What the first loop changes.
pub record Progress : Type 0 where
  pub ipv4 : HashTable Ipv4Cache
  pub answer_count : ℕ
  pub cached : Bool
  pub banned : Bool

-- `cache->manual = true and cache->node->address == 0` assigns to `manual` whether the first address
-- is 0.
unfoldable pub count_ipv4 : HashTable Ipv4Cache → Str → ℕ → Progress → Run Progress
count_ipv4 ipv4 domain_name answer_count p = do
  found ← ipv4_cache_get ipv4 domain_name
  elim found [
    | none ↦ ok (record p { answer_count = answer_count; cached = false })
    | some cache ↦ do
      address ← from_option Fault.null_pointer (head? cache.node)
      ipv4' ← write_through ipv4 domain_name (record cache { manual = address == 0 })
      ok (
          if address == 0
          then record p { ipv4 = ipv4'; answer_count = answer_count; banned = true }
          else record p { ipv4 = ipv4'; answer_count = answer_count + length cache.node })
  ]

unfoldable pub count_ipv6 : HashTable Ipv6Cache → Str → ℕ → Progress → Run Progress
count_ipv6 ipv6 domain_name answer_count p = do
  found ← ipv6_cache_get ipv6 domain_name
  elim found [
    | none ↦ ok (record p { answer_count = answer_count; cached = false })
    | some cache ↦ ok (record p { answer_count = answer_count + length cache.node })
  ]

-- One round of the first loop, a switch on the type. Other types change nothing.
unfoldable pub count_query :
    ℕ → HashTable CnameCache → HashTable Ipv6Cache → Query → Progress → Run Progress
count_query fuel cname ipv6 q p =
    if q.type == type_a
    then (do
      (answer_count, domain_name) ← count_aliases fuel cname q.name p.answer_count
      count_ipv4 p.ipv4 domain_name answer_count p)
    else if q.type == type_cname
    then (do
      found ← cname_cache_get cname q.name
      elim found [
        | none ↦ ok (record p { cached = false })
        | some c ↦ do
          (answer_count, domain_name) ← count_aliases fuel cname q.name p.answer_count
          ok (record p { answer_count = answer_count })
      ])
    else if q.type == type_aaaa
    then (do
      (answer_count, domain_name) ← count_aliases fuel cname q.name p.answer_count
      count_ipv6 ipv6 domain_name answer_count p)
    else ok p

-- `for (int i = 0; cached and i < message->query_count; i++)`
unfoldable pub count_queries :
    ℕ → HashTable CnameCache → HashTable Ipv6Cache → List Query → ℕ → ℕ → Progress → Run Progress
count_queries fuel cname ipv6 queries i zero p = ok p
count_queries fuel cname ipv6 queries i (suc n) p = elim (p.cached) [
  | false ↦ ok p
  | true ↦ do
    q ← at queries i
    p' ← count_query fuel cname ipv6 q p
    count_queries fuel cname ipv6 queries (i + 1) n p'
]
