-- ===== src/Examples/Serving.antt =====
-- Tests of the callbacks.
use post_dns.Base.{
  ℕ, ◌+◌, ◌≤◌, ◌≡◌, refl, arith, [], ◌∷◌, ◌++◌, true, false, some, none, if◌then◌else◌, length, ok,
  Returns,
}
use post_dns.Text.{Str, string_equal, string_split}
use post_dns.Text.Murmur.{string_hash_code}
use post_dns.HashTable.{
  null, cell, HashTable, empty_node, index, hash_table_new, hash_table_put, hash_table_get,
  search_chain, write_through, replace, add_node, grow,
}
use post_dns.HashTable.Chain.{same, lookup, entries}
use post_dns.HashTable.Invariant.{view, IsValid, node_of}
use post_dns.HashTable.Remove.{IsRemovable}
use post_dns.Cache.{Ipv4Cache, Ipv6Cache, CnameCache, ipv4_cache_get, cname_cache_get}
use post_dns.Message.Labels.{wire}
use post_dns.Message.Header.{header_bytes}
use post_dns.Message.Record.{record_bytes}
use post_dns.Message.Written.{message_bytes, answer_bytes}
use post_dns.Message.RoundTrip.{as_received}
use post_dns.Server.{Server, to_client, trimmed, send_response}
use post_dns.Server.Lookup.{Progress, count_aliases, count_ipv4, count_query, count_queries}
use post_dns.Server.Reply.{answer_queries}
use post_dns.Server.Receive.{Collected, bind_socket_read}
use post_dns.Server.Aliases.{here, alias, count_aliases-Leads}
use post_dns.Server.Filled.{answer_queries-count_queries}
use post_dns.Server.Send.{feature_bytes, send_response_lem}
use post_dns.Server.Ask.{IsMissing, no_address4, Asks, bind_socket_read-Asks}
use post_dns.Examples.{
  name_a, name_d, one, one-IsValid, empty-IsValid, request, response, question_a, request-IsMessage,
  response-IsMessage, put-IsValid,
}
use post_dns.Examples.Messages.{block}

abbrev fresh : Server ℕ
fresh = record {
  clients = hash_table_new;
  ipv4 = hash_table_new;
  ipv6 = hash_table_new;
  cname = hash_table_new;
  sent = [];
}

request_room : length (message_bytes (trimmed (as_received request)) question_a) ≤ length block
unfolding header_bytes wire string_split answer_bytes record_bytes
request_room = omega arith

trimmed_room : length (message_bytes (trimmed response) question_a) ≤ length block
unfolding header_bytes wire string_split answer_bytes record_bytes
trimmed_room = omega arith

missing : IsMissing fresh question_a 0
unfolding hash_table_new view index string_hash_code lookup entries
missing = no_address4 name_a (here name_a) refl refl refl

bind_socket_read-Asks_example :
    Returns
      (bind_socket_read 300 block
        (length (message_bytes request question_a))
        (message_bytes request question_a ++ 7 ∷ [])
        42
        fresh)
      (Asks fresh request question_a 42)
bind_socket_read-Asks_example =
    bind_socket_read-Asks fresh request question_a 42 request-IsMessage empty-IsValid
      (empty-IsValid {V = Ipv4Cache}).placed (empty-IsValid {V = Ipv6Cache}).placed
      (empty-IsValid {V = CnameCache}).placed 0 missing 300 block (7 ∷ []) (omega arith)
      (omega arith) request_room

-- An alias that leads from the first name to the second one, and one that leads back to itself.
abbrev leads_on : CnameCache
leads_on = record { name = name_d; ttl = 120; timestamp = 0; manual = false }

abbrev leads_back : CnameCache
leads_back = record { name = name_a; ttl = 120; timestamp = 0; manual = false }

alias_on : view (one leads_on) name_a ≡ some leads_on
unfolding view index string_hash_code lookup entries string_equal
alias_on = refl

alias_end : view (one leads_on) name_d ≡ none
unfolding view index string_hash_code lookup entries string_equal
alias_end = refl

alias_back : view (one leads_back) name_a ≡ some leads_back
unfolding view index string_hash_code lookup entries string_equal
alias_back = refl

count_aliases-Leads_example : count_aliases 5 (one leads_on) name_a 0 ≡ ok (0 + 1, name_d)
count_aliases-Leads_example =
    count_aliases-Leads (one leads_on) (one-IsValid leads_on).placed 1 name_a name_d
      (alias name_a leads_on 0 name_d alias_on (here name_d)) alias_end 5 0 (omega arith)

-- A server where a client waits for the answer.
abbrev waiting_clients : HashTable ℕ
waiting_clients = record {
  table =
      empty_node
      ∷ cell (some (feature_bytes response question_a, 42)) null
      ∷ empty_node
      ∷ empty_node
      ∷ empty_node
      ∷ empty_node
      ∷ empty_node
      ∷ empty_node
      ∷ [];
  count = 1;
  capacity = 8;
  threshold = 6;
}

abbrev waiting : Server ℕ
waiting = record fresh { clients = waiting_clients }

waiting-IsValid : IsValid waiting_clients
unfolding hash_table_put hash_table_new index string_hash_code add_node replace grow
waiting-IsValid =
    put-IsValid hash_table_new waiting_clients (feature_bytes response question_a) 42 empty-IsValid
      refl

removable :
    IsRemovable
      (feature_bytes response question_a)
      (entries (node_of waiting_clients (feature_bytes response question_a)))
unfolding index string_hash_code entries
removable = λ e. omega arith

send_response_lem_example :
    (view waiting_clients (feature_bytes response question_a) ≡ none
      → send_response block waiting response ≡ ok waiting)
    × ((address : ℕ)
        → view waiting_clients (feature_bytes response question_a) ≡ some address
        → Returns (send_response block waiting response) λ s'.
          (s'.sent ≡ to_client address (message_bytes (trimmed response) question_a) ∷ [])
          × IsValid s'.clients
          × ((f : Str)
              → view s'.clients f ≡ (
                  if same (feature_bytes response question_a) f
                  then none
                  else view waiting_clients f))
          × (s'.ipv4 ≡ hash_table_new)
          × (s'.ipv6 ≡ hash_table_new)
          × (s'.cname ≡ hash_table_new))
send_response_lem_example =
    send_response_lem block waiting response question_a response-IsMessage trimmed_room
      waiting-IsValid removable

-- Two addresses for the name that the alias leads to.
abbrev entry4 : Ipv4Cache
entry4 = record { node = 7 ∷ 8 ∷ []; ttl = 120; timestamp = 0; manual = false }

abbrev cached4 : HashTable Ipv4Cache
cached4 = one entry4

abbrev counted : Progress
counted = record { ipv4 = cached4; answer_count = 2; cached = true; banned = false }

runs :
    count_queries 5 hash_table_new hash_table_new
      (question_a ∷ [])
      0
      1
      (record { ipv4 = cached4; answer_count = 0; cached = true; banned = false })
    ≡ ok counted
unfolding count_queries count_query count_aliases count_ipv4 cname_cache_get ipv4_cache_get
    hash_table_get hash_table_new write_through replace index string_hash_code search_chain
    string_equal
runs = refl

answer_queries-count_queries_example :
    Returns
      (answer_queries 5 hash_table_new cached4 hash_table_new 2 (question_a ∷ []) 0 1 [])
      λ answers. length answers ≡ 2
answer_queries-count_queries_example =
    answer_queries-count_queries 5 hash_table_new hash_table_new (question_a ∷ []) 1 cached4 counted
      (one-IsValid entry4) runs refl refl

abbrev before : Collected
before = record {
  ipv4_domain = none;
  ipv4_node = [];
  ipv6_domain = none;
  ipv6_node = [];
  cname = hash_table_new;
}
