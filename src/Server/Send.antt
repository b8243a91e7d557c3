-- ===== src/Server/Send.antt =====
-- socket.c: `send_response` and `send_query` on messages with one question.
use post_dns.Base.{
  le→leb, take, ◌≤◌, arith, ℕ, ◌≤◌, ◌≡◌, refl, ap, arith, List, [], ◌∷◌, ◌++◌, none, some,
  if◌then◌else◌, length, take, ok, Returns, bind_ok,
}
use post_dns.Text.{Str}
use post_dns.Words.{bytes16}
use post_dns.HashTable.Chain.{same, entries}
use post_dns.HashTable.Invariant.{view, IsValid, node_of}
use post_dns.HashTable.Put.{hash_table_get-view}
use post_dns.HashTable.Remove.{IsRemovable, hash_table_remove_lem}
use post_dns.Message.{Query, Message}
use post_dns.Message.Build.{message2feature_string, feature_queries}
use post_dns.Message.Written.{IsMessage, message_bytes, message2buf_lem}
use post_dns.Server.{read_block, Server, to_client, to_upstream, trimmed, send_response, send_query}

-- What a message with one question is told apart by: the question and the identifier.
abbrev pub feature_bytes : Message → Query → Str
feature_bytes m q = (q.name ++ bytes16 q.class ++ bytes16 q.type ++ []) ++ bytes16 m.id

pub message2feature_string_lem :
    (m : Message) (q : Query)
    → m.query_count ≡ 1
    → m.queries ≡ q ∷ []
    → message2feature_string m ≡ ok (feature_bytes m q)
unfolding message2feature_string feature_queries
message2feature_string_lem m q one asked = rw (one, asked) refl

-- What is cleared before a message is sent leaves it well formed.
pub trimmed-IsMessage : (m : Message) (q : Query) → IsMessage m q → IsMessage (trimmed m) q
trimmed-IsMessage m q h = record {
  header = record {
    flags = record {
      qr = h.header.flags.qr;
      opcode = h.header.flags.opcode;
      aa = h.header.flags.aa;
      tc = h.header.flags.tc;
      rd = h.header.flags.rd;
      ra = h.header.flags.ra;
      z = omega arith;
      rcode = h.header.flags.rcode;
    };
    id = h.header.id;
    query_count = h.header.query_count;
    answer_count = h.header.answer_count;
    authority_count = omega arith;
    additional_count = omega arith;
  };
  one = h.one;
  asked = h.asked;
  query = h.query;
  answers = h.answers;
  counted = h.counted;
}

read_block_lem :
    (len : ℕ) (buf bytes : List ℕ)
    → len ≤ length buf
    → take len buf ≡ bytes
    → read_block len buf ≡ ok bytes
unfolding read_block
read_block_lem len buf bytes fits e = rw (le→leb len (length buf) fits) (ap ok e)

module _ {Addr : Type 0} where
  -- `send_query` of a well-formed message with one question that fits the block sends exactly the
  -- bytes of the message, with Z and the last two counts cleared, to the upstream server, and
  -- changes nothing else.
  pub send_query_lem :
      (block : List ℕ) (s : Server Addr) (m : Message) (q : Query)
      → IsMessage m q
      → length (message_bytes (trimmed m) q) ≤ length block
      → send_query block s m
        ≡ ok (record s { sent = s.sent ++ to_upstream (message_bytes (trimmed m) q) ∷ [] })
  unfolding send_query
  send_query_lem block s m q h room =
      let (r, run, (n, sent, size)) =
        message2buf_lem (trimmed m) q block (trimmed-IsMessage m q h) refl room in
      let block_read =
        read_block_lem r.0 r.1 (message_bytes (trimmed m) q) (omega (arith, n, size, room)) sent in
      bind_ok _ _ run (bind_ok _ _ block_read refl)

  -- `send_response` looks the client up by identifier and question. For a well-formed message with
  -- one question that fits the block, on a valid table of clients where the key does not stand first
  -- of three or more in its bucket, a client that waits gets exactly the bytes of the message, with
  -- Z and the last two counts cleared, and is forgotten, and the caches stay as they are; a message
  -- that nobody waits for is dropped.
  pub send_response_lem :
      (block : List ℕ) (s : Server Addr) (m : Message) (q : Query)
      → IsMessage m q
      → length (message_bytes (trimmed m) q) ≤ length block
      → IsValid s.clients
      → IsRemovable (feature_bytes m q) (entries (node_of s.clients (feature_bytes m q)))
      → (view s.clients (feature_bytes m q) ≡ none → send_response block s m ≡ ok s)
        × ((address : Addr)
            → view s.clients (feature_bytes m q) ≡ some address
            → Returns (send_response block s m) λ s'.
              (s'.sent ≡ s.sent ++ to_client address (message_bytes (trimmed m) q) ∷ [])
              × IsValid s'.clients
              × ((f : Str)
                  → view s'.clients f
                    ≡ (if same (feature_bytes m q) f then none else view s.clients f))
              × (s'.ipv4 ≡ s.ipv4)
              × (s'.ipv6 ≡ s.ipv6)
              × (s'.cname ≡ s.cname))
  unfolding send_response
  send_response_lem block s m q h room valid safe = (
    λ absent.
        bind_ok _ _ (message2feature_string_lem m q h.one h.asked)
          (bind_ok _ _ (hash_table_get-view valid.placed (feature_bytes m q)) (rw absent refl)),
    λ address waits.
        let (r, run, (n, sent, size)) =
          message2buf_lem (trimmed m) q block (trimmed-IsMessage m q h) refl room in
        let bytes = message_bytes (trimmed m) q in
        let block_read = read_block_lem r.0 r.1 bytes (omega (arith, n, size, room)) sent in
        let (clients, removed, (valid', reads, c, cap)) =
          hash_table_remove_lem s.clients (feature_bytes m q) address valid waits safe in
        (
          record s { clients = clients; sent = s.sent ++ to_client address bytes ∷ [] },
          bind_ok _ _ (message2feature_string_lem m q h.one h.asked) (
              bind_ok _ _ (hash_table_get-view valid.placed (feature_bytes m q))
                (rw waits (bind_ok _ _ run (bind_ok _ _ block_read (bind_ok _ _ removed refl))))),
          (refl, valid', reads, refl, refl, refl),
        ),
  )
