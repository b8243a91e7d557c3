-- ===== src/Server/Receive.antt =====
-- socket.c: `bind_socket_read` and `query_socket_read`, the callbacks of the socket that clients send to
-- and of the socket that the upstream server answers on.
-- `number` is 0 for every count that is not positive; `base` is the block that was received; `block` is
-- what `malloc` leaves in a new message; `now` is what `time(NULL)` returns; `fuel` bounds the loops that
-- follow compressed names and aliases.
use post_dns.Base.{
  ◌%◌, ◌^◌, ℕ, zero, suc, ◌+◌, List, [], ◌∷◌, ◌++◌, true, false, ◌==◌, Option, none, some,
  if◌then◌else◌, Run, ok, fault, Fault, ◌>>=◌, ◌>>◌, at,
}
use post_dns.Text.{Str, string_dup}
use post_dns.HashTable.{HashTable, hash_table_put}
use post_dns.Cache.{
  Ipv4Cache, Ipv6Cache, CnameCache, ipv4_cache_put, ipv6_cache_put, cname_cache_put,
}
use post_dns.Message.{
  ResponseData, address4, domain, address6, ResourceRecord, Message, type_a, type_cname, type_aaaa,
}
use post_dns.Message.Parse.{buf2message}
use post_dns.Message.Build.{message2feature_string}
use post_dns.Message.Release.{message_log, message_free}
use post_dns.Server.{Server, send_response, send_query, message_copy_header_queries}
use post_dns.Server.Lookup.{Progress, count_queries}
use post_dns.Server.Reply.{answer_queries}

-- `back_message->flags.RCODE = 0; back_message->flags.QR = 1; back_message->flags.RD = 0;`
abbrev pub as_reply : Message → Message
as_reply m = record m { flags = record (m.flags) { rcode = 0; qr = 1; rd = 0 } }

-- `back_message->flags.RCODE = 3;`
abbrev pub as_refusal : Message → Message
as_refusal m = record m { flags = record (m.flags) { rcode = 3 } }

-- The caches and the clients that wait are unchanged by the first loop, but for `manual`. The count is an
-- `int`, and the field an `unsigned short`.
unfoldable pub back_message_of :
    ℕ → HashTable CnameCache → HashTable Ipv6Cache → Message → Progress → Message → Run Message
back_message_of fuel cname ipv6 message p back = elim (p.banned) [
  | true ↦ ok (as_refusal back)
  | false ↦ do
    answers ←
        answer_queries fuel cname p.ipv4 ipv6 p.answer_count message.queries 0 message.query_count
          []
    ok (record back { answer_count = p.answer_count % 2 ^ 16; answers = answers })
]

module _ {Addr : Type 0} where
  -- From the test of `cached` on, up to the calls of `free`.
  unfoldable pub reply_or_ask :
      ℕ → List ℕ → Message → Message → Progress → Server Addr → Run (Server Addr)
  reply_or_ask fuel block message back p s = elim (p.cached) [
    | false ↦ send_query block s message
    | true ↦ do
      back' ← back_message_of fuel s.cname s.ipv6 message p back
      send_response block s back'
  ]

  unfoldable pub bind_socket_read : ℕ → List ℕ → ℕ → List ℕ → Addr → Server Addr → Run (Server Addr)
  bind_socket_read fuel block zero base address s = ok s
  bind_socket_read fuel block (suc n) base address s = do
    message ← buf2message fuel base (suc n)
    _ ← message_log message
    feature ← message2feature_string message
    clients ← hash_table_put s.clients (some feature) (some address)
    back ← message_copy_header_queries message
    p ←
        count_queries fuel s.cname s.ipv6 message.queries 0 message.query_count
          (record { ipv4 = s.ipv4; answer_count = 0; cached = true; banned = false })
    s' ←
        reply_or_ask fuel block message (as_reply back) p
          (record s { clients = clients; ipv4 = p.ipv4 })
    message_free message
    ok s'

-- What `query_socket_read` has collected: the addresses, and the name of the last record of each kind.
pub record Collected : Type 0 where
  pub ipv4_domain : Option Str
  pub ipv4_node : List ℕ
  pub ipv6_domain : Option Str
  pub ipv6_node : List (List ℕ)
  pub cname : HashTable CnameCache

-- The cases of the switch. A record whose data was not read into the type's form is not defined.
unfoldable pub collect_a : ResourceRecord → ResponseData → Collected → Run Collected
collect_a r (address4 a) c =
    ok (record c { ipv4_domain = some (string_dup r.name); ipv4_node = c.ipv4_node ++ a ∷ [] })
collect_a r _ c = fault Fault.indeterminate

unfoldable pub collect_cname : ℕ → ResourceRecord → ResponseData → Collected → Run Collected
collect_cname now r (domain d) c = do
  cname ←
      cname_cache_put c.cname now (string_dup r.name)
        (record { name = string_dup d; ttl = 120; timestamp = now; manual = false })
  ok (record c { cname = cname })
collect_cname now r _ c = fault Fault.indeterminate

unfoldable pub collect_aaaa : ResourceRecord → ResponseData → Collected → Run Collected
collect_aaaa r (address6 a) c =
    ok (record c { ipv6_domain = some (string_dup r.name); ipv6_node = c.ipv6_node ++ a ∷ [] })
collect_aaaa r _ c = fault Fault.indeterminate

unfoldable pub collect_answer : ℕ → ResourceRecord → Collected → Run Collected
collect_answer now r c =
    if r.type == type_a
    then collect_a r r.response_data c
    else if r.type == type_cname
    then collect_cname now r r.response_data c
    else if r.type == type_aaaa
    then collect_aaaa r r.response_data c
    else ok c

-- `n` rounds from entry `i` on.
unfoldable pub collect_answers : ℕ → List ResourceRecord → ℕ → ℕ → Collected → Run Collected
collect_answers now answers i zero c = ok c
collect_answers now answers i (suc n) c = do
  r ← at answers i
  c' ← collect_answer now r c
  collect_answers now answers (i + 1) n c'

unfoldable pub store_ipv4 :
    ℕ → Option Str → List ℕ → HashTable Ipv4Cache → Run (HashTable Ipv4Cache)
store_ipv4 now none node table = ok table
store_ipv4 now (some name) node table =
    ipv4_cache_put table now name
      (record { node = node; ttl = 120; timestamp = now; manual = false })

unfoldable pub store_ipv6 :
    ℕ → Option Str → List (List ℕ) → HashTable Ipv6Cache → Run (HashTable Ipv6Cache)
store_ipv6 now none node table = ok table
store_ipv6 now (some name) node table =
    ipv6_cache_put table now name
      (record { node = node; ttl = 120; timestamp = now; manual = false })

module _ {Addr : Type 0} where
  unfoldable pub query_socket_read : ℕ → List ℕ → ℕ → ℕ → List ℕ → Server Addr → Run (Server Addr)
  query_socket_read fuel block now zero base s = ok s
  query_socket_read fuel block now (suc n) base s = do
    message ← buf2message fuel base (suc n)
    _ ← message_log message
    c ← collect_answers now message.answers 0 message.answer_count (record {
      ipv4_domain = none;
      ipv4_node = [];
      ipv6_domain = none;
      ipv6_node = [];
      cname = s.cname;
    })
    ipv4 ← store_ipv4 now c.ipv4_domain c.ipv4_node s.ipv4
    ipv6 ← store_ipv6 now c.ipv6_domain c.ipv6_node s.ipv6
    s' ← send_response block (record s { ipv4 = ipv4; ipv6 = ipv6; cname = c.cname }) message
    message_free message
    ok s'
