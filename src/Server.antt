-- ===== src/Server.antt =====
-- socket.c: the state, and the functions that send.
-- The state is the three caches, the table of clients that wait, and the datagrams sent so far. An
-- address is of any type `Addr`; `block` is what `malloc` left in the block of a message that is
-- built.
pub mod Lookup
pub mod Reply
pub mod Receive
pub mod Agreement
pub mod Answers
pub mod Loops
pub mod Exact
pub mod Banned
pub mod Filled
pub mod Send
pub mod Received
pub mod Ask
pub mod Cached
pub mod Answered
pub mod Answer
pub mod Circle
pub mod Verdict
pub mod Decide
pub mod Collect
pub mod Forward
pub mod Aliases
use post_dns.Base.{
  leb, if◌then◌else◌, length, take, fault, Fault, ok, ℕ, zero, suc, ◌+◌, List, [], ◌∷◌, ◌++◌, Bool,
  true, false, ◌==◌, Option, none, some, ltb, if◌then◌else◌, length, take, Run, ok, fault, Fault,
  out_of_fuel, ◌>>=◌, ◌>>◌, at, from_option,
}
use mathlib.Core.List.{head?}
use post_dns.Text.{Str, string_dup}
use post_dns.HashTable.{HashTable, hash_table_put, hash_table_get, hash_table_remove, write_through}
use post_dns.Cache.{
  Ipv4Cache, Ipv6Cache, CnameCache, ipv4_cache_get, ipv4_cache_put, ipv6_cache_get, ipv6_cache_put,
  cname_cache_get, cname_cache_put,
}
use post_dns.Message.{
  Flags, Query, ResponseData, address4, domain, address6, unset, ResourceRecord, Message, type_a,
  type_cname, type_aaaa,
}
use post_dns.Message.Parse.{buf2message}
use post_dns.Message.Build.{message2buf, message2feature_string}
use post_dns.Message.Release.{message_log, message_free}

pub data Datagram (Addr : Type 0) : Type 0 where
  to_client : Addr → List ℕ → Datagram Addr
  to_upstream : List ℕ → Datagram Addr

pub record Server (Addr : Type 0) : Type 0 where
  pub clients : HashTable Addr
  pub ipv4 : HashTable Ipv4Cache
  pub ipv6 : HashTable Ipv6Cache
  pub cname : HashTable CnameCache
  pub sent : List (Datagram Addr)

-- `flags.Z = 0; additional_count = 0; authority_count = 0;`
abbrev pub trimmed : Message → Message
trimmed m = record m {
  flags = record (m.flags) { z = 0 };
  additional_count = 0;
  authority_count = 0;
}

-- `uv_udp_send` reads `len` bytes of the block.
unfoldable pub read_block : ℕ → List ℕ → Run (List ℕ)
read_block len buf = if leb len (length buf) then ok (take len buf) else fault Fault.out_of_bounds

module _ {Addr : Type 0} where
  unfoldable pub send_response : List ℕ → Server Addr → Message → Run (Server Addr)
  unfolding read_block
  send_response block s message = do
    feature_vector ← message2feature_string message
    client_address ← hash_table_get s.clients feature_vector
    elim client_address [
      | none ↦ ok s
      | some address ↦ do
        (len, buf) ← message2buf block (trimmed message)
        bytes ← read_block len buf
        clients ← hash_table_remove s.clients feature_vector
        ok (record s { clients = clients; sent = s.sent ++ to_client address bytes ∷ [] })
    ]

  unfoldable pub send_query : List ℕ → Server Addr → Message → Run (Server Addr)
  unfolding read_block
  send_query block s message = do
    (len, buf) ← message2buf block (trimmed message)
    bytes ← read_block len buf
    ok (record s { sent = s.sent ++ to_upstream bytes ∷ [] })

-- The copies of the queries, `n` of them from entry `i` on.
unfoldable pub copy_queries : ℕ → ℕ → List Query → Run (List Query)
copy_queries zero i queries = ok []
copy_queries (suc n) i queries = do
  q ← at queries i
  rest ← copy_queries n (i + 1) queries
  ok (record { name = string_dup q.name; type = q.type; class = q.class } ∷ rest)

-- The fields of `dest` that are not assigned here are assigned before they are read: RCODE and QR by
-- the caller, Z by `send_response`.
unfoldable pub message_copy_header_queries : Message → Run Message
message_copy_header_queries src = do
  queries ← copy_queries src.query_count 0 src.queries
  ok (record {
    id = src.id;
    flags = record {
      qr = 0;
      opcode = src.flags.opcode;
      aa = src.flags.aa;
      tc = src.flags.tc;
      rd = src.flags.rd;
      ra = src.flags.ra;
      z = 0;
      rcode = 0;
    };
    query_count = src.query_count;
    answer_count = 0;
    authority_count = 0;
    additional_count = 0;
    queries = queries;
    answers = [];
    authorities = [];
    additional = [];
  })

unfoldable pub generate_cname_response : Str → Str → ResourceRecord
generate_cname_response domain_name name = record {
  name = string_dup domain_name;
  type = type_cname;
  class = 1;
  ttl = 120;
  response_data_length = length domain_name;
  response_data = domain (string_dup name);
}

unfoldable pub generate_ipv4_response : Str → ℕ → ResourceRecord
generate_ipv4_response name address = record {
  name = string_dup name;
  type = type_a;
  class = 1;
  ttl = 120;
  response_data_length = 4;
  response_data = address4 address;
}

unfoldable pub generate_ipv6_response : Str → List ℕ → ResourceRecord
generate_ipv6_response name address = record {
  name = string_dup name;
  type = type_aaaa;
  class = 1;
  ttl = 120;
  response_data_length = 16;
  response_data = address6 address;
}
