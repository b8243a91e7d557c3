-- ===== src/Server/Answer.antt =====
-- socket.c: `bind_socket_read` on a question that the caches answer or that is banned.
use post_dns.Base.{
  ◌%◌, ◌≢◌, ==-eq-false, ℕ, ◌≤◌, ◌<◌, ◌^◌, ◌≡◌, refl, arith, List, [], ◌++◌, All, none, true, false,
  length, Returns, bind_ok,
}
use post_dns.HashTable.Invariant.{view, IsPlaced, IsValid}
use post_dns.Message.{Query, ResourceRecord, Message, type_a, type_cname, type_aaaa}
use post_dns.Message.Parse.{name_fuel}
use post_dns.Message.Record.{IsRecord}
use post_dns.Message.Written.{IsMessage, message_bytes}
use post_dns.Server.{Server}
use post_dns.Server.Lookup.{count_query, count_queries}
use post_dns.Server.Reply.{answer_query, answer_queries}
use post_dns.Server.Receive.{back_message_of, bind_socket_read}
use post_dns.Server.Cached.{IsCached, IsBanned, count_cached, answer_cached, count_banned}
use post_dns.Server.Send.{feature_bytes}
use post_dns.Server.Answered.{reply_of, Answered, reply_sent}

module _ {Addr : Type 0} where
  -- A client's well-formed message with one question, which the caches answer in full behind aliases
  -- that end, with a nonzero first IPv4 address, where the tables of clients and of IPv4 addresses
  -- are valid, the names of the other two caches are placed, the answers are well-formed and fewer
  -- than 2 ^ 16, nobody waits under the same question and identifier and the table of clients is
  -- below its limit, with fuel for the names and the aliases and room in the block: the callback
  -- returns, sends exactly the stored records as one reply with RCODE 0 to that client alone, leaves
  -- the table of clients reading as before, and changes no cache but for the mark `manual` of IPv4
  -- entries.
  pub bind_socket_read-Answered :
      (s : Server Addr) (m : Message) (q : Query) (address : Addr) (n : ℕ)
      (answers : List ResourceRecord)
      → IsMessage m q
      → IsCached s q n answers
      → All IsRecord answers
      → length answers < 2 ^ 16
      → IsValid s.clients
      → IsValid s.ipv4
      → IsPlaced s.ipv6
      → IsPlaced s.cname
      → view s.clients (feature_bytes m q) ≡ none
      → s.clients.count < s.clients.threshold
      → (fuel : ℕ) (block rest : List ℕ) → name_fuel ≤ fuel
      → n < fuel
      → length (message_bytes (reply_of m q 0 answers) q) ≤ length block
      → Returns
          (bind_socket_read fuel block
            (length (message_bytes m q))
            (message_bytes m q ++ rest)
            address
            s)
          (Answered s (message_bytes (reply_of m q 0 answers) q) address)
  unfolding count_queries back_message_of answer_queries
  bind_socket_read-Answered s m q address n answers h hit good few valid p4 p6 pc absent roomy fuel
        block rest enough far room =
      let reduced : length answers % 2 ^ 16 ≡ length answers = omega (arith, few) in
      let (ipv4, counted, valid4, kept) = count_cached s p4 p6 pc fuel q n answers hit far in
      let written = answer_cached s p4 p6 pc fuel q n answers hit far ipv4 valid4.placed kept in
      reply_sent s m q address 0 answers h (omega arith) good few valid absent roomy ipv4
        (length answers) false valid4 kept fuel block rest enough (bind_ok _ _ counted refl)
        (rw (h.one, h.asked, reduced) (bind_ok _ _ (bind_ok _ _ written refl) refl)) room

  -- A client's well-formed message whose one question is for the IPv4 address of a name that the
  -- aliases lead to one stored with the first address 0, where the tables of clients and of IPv4
  -- addresses are valid, the names of the other two caches are placed, nobody waits under the same
  -- question and identifier and the table of clients is below its limit, with fuel for the names and
  -- the aliases and room in the block: the callback returns, sends a reply with RCODE 3 and no
  -- answer to that client alone, leaves the table of clients reading as before, and changes no cache
  -- but for the mark `manual` of IPv4 entries.
  pub bind_socket_read_refuses :
      (s : Server Addr) (m : Message) (q : Query) (address : Addr) (n : ℕ)
      → IsMessage m q
      → IsBanned s q n
      → IsValid s.clients
      → IsValid s.ipv4
      → IsPlaced s.ipv6
      → IsPlaced s.cname
      → view s.clients (feature_bytes m q) ≡ none
      → s.clients.count < s.clients.threshold
      → (fuel : ℕ) (block rest : List ℕ) → name_fuel ≤ fuel
      → n < fuel
      → length (message_bytes (reply_of m q 3 []) q) ≤ length block
      → Returns
          (bind_socket_read fuel block
            (length (message_bytes m q))
            (message_bytes m q ++ rest)
            address
            s)
          (Answered s (message_bytes (reply_of m q 3 []) q) address)
  unfolding count_queries back_message_of
  bind_socket_read_refuses s m q address n h ban valid p4 p6 pc absent roomy fuel block rest enough
        far room =
      let (ipv4, counted, valid4, kept) = count_banned s p4 p6 pc fuel q n ban far in
      reply_sent s m q address 3 [] h (omega arith) tt (omega arith) valid absent roomy ipv4 n true
        valid4 kept fuel block rest enough (bind_ok _ _ counted refl) refl room

  -- A client's well-formed message with one question whose type is not A, CNAME or AAAA, on a valid
  -- table of clients and of IPv4 addresses, where nobody waits under the same question and
  -- identifier and the table of clients is below its limit, with 257 rounds of fuel or more and room
  -- in the block: the callback returns, asks nobody, sends a reply with RCODE 0 and no answer to
  -- that client alone, leaves the table of clients reading as before, and changes no cache.
  pub bind_socket_read_empty :
      (s : Server Addr) (m : Message) (q : Query) (address : Addr)
      → IsMessage m q
      → q.type ≢ type_a
      → q.type ≢ type_cname
      → q.type ≢ type_aaaa
      → IsValid s.clients
      → IsValid s.ipv4
      → view s.clients (feature_bytes m q) ≡ none
      → s.clients.count < s.clients.threshold
      → (fuel : ℕ) (block rest : List ℕ) → name_fuel ≤ fuel
      → length (message_bytes (reply_of m q 0 []) q) ≤ length block
      → Returns
          (bind_socket_read fuel block
            (length (message_bytes m q))
            (message_bytes m q ++ rest)
            address
            s)
          (Answered s (message_bytes (reply_of m q 0 []) q) address)
  unfolding count_queries count_query back_message_of answer_queries answer_query
  bind_socket_read_empty s m q address h no4 no_alias no6 valid p4 absent roomy fuel block rest
        enough room =
      let n4 = ==-eq-false q.type type_a no4 in
      let na = ==-eq-false q.type type_cname no_alias in
      let n6 = ==-eq-false q.type type_aaaa no6 in
      reply_sent s m q address 0 [] h (omega arith) tt (omega arith) valid absent roomy s.ipv4 0
        false p4 (λ f. refl) fuel block rest enough (rw (n4, na, n6) refl)
        (rw (h.one, h.asked, n4, na, n6) refl) room
