-- ===== src/Server/Answered.antt =====
-- socket.c: the reply of `bind_socket_read` to a client, from what its first loop has found.
use post_dns.Base.{
  ℕ, ◌≤◌, ◌<◌, ◌^◌, ◌≡◌, refl, ◌∙◌, arith, List, [], ◌∷◌, ◌++◌, All, none, some, Bool, true, length,
  length-append, ok, Returns, bind_ok, Bool-cases, inl, inr, if◌then◌else◌,
}
use mathlib.Core.Path.{ap₂}
use post_dns.Text.{Str, string_dup}
use post_dns.Text.Equal.{string_equal_iff, string_equal_refl}
use post_dns.HashTable.{HashTable}
use post_dns.HashTable.Chain.{same}
use post_dns.HashTable.Invariant.{view, IsValid}
use post_dns.HashTable.Fresh.{hash_table_put-IsRemovable}
use post_dns.Cache.{Ipv4Cache}
use post_dns.Message.{Query, ResourceRecord, Message}
use post_dns.Message.Parse.{name_fuel}
use post_dns.Message.Header.{header_bytes}
use post_dns.Message.Record.{IsRecord}
use post_dns.Message.Written.{
  IsMessage, message_bytes, length-header_bytes, question_bytes, answer_bytes,
}
use post_dns.Message.RoundTrip.{as_received, buf2message_lem}
use post_dns.Server.{Server, to_client, message_copy_header_queries, copy_queries}
use post_dns.Server.Lookup.{Progress, count_queries}
use post_dns.Server.Receive.{as_reply, back_message_of, reply_or_ask, bind_socket_read}
use post_dns.Server.Answers.{SameNodes}
use post_dns.Server.Send.{feature_bytes, message2feature_string_lem, send_response_lem}
use post_dns.Message.Logged.{message_log_lem}
use post_dns.Server.Received.{as_received-IsMessage, message_free_lem}
use post_dns.Server.Ask.{start, bind_socket_read-heard}

-- The reply to a message with one question: its identifier, its question and four of its flags.
abbrev pub reply_of : Message → Query → ℕ → List ResourceRecord → Message
reply_of m q rcode answers = record {
  id = m.id;
  flags = record {
    qr = 1;
    opcode = m.flags.opcode;
    aa = m.flags.aa;
    tc = m.flags.tc;
    rd = 0;
    ra = m.flags.ra;
    z = 0;
    rcode = rcode;
  };
  query_count = m.query_count;
  answer_count = length answers;
  authority_count = 0;
  additional_count = 0;
  queries = q ∷ [];
  answers = answers;
  authorities = [];
  additional = [];
}

reply_of-IsMessage :
    (m : Message) (q : Query) (rcode : ℕ) (answers : List ResourceRecord)
    → IsMessage m q
    → rcode < 16
    → All IsRecord answers
    → length answers < 2 ^ 16
    → IsMessage (reply_of m q rcode answers) q
reply_of-IsMessage m q rcode answers h small good few = record {
  header = record {
    flags = record {
      qr = omega arith;
      opcode = h.header.flags.opcode;
      aa = h.header.flags.aa;
      tc = h.header.flags.tc;
      rd = omega arith;
      ra = h.header.flags.ra;
      z = omega arith;
      rcode = small;
    };
    id = h.header.id;
    query_count = h.header.query_count;
    answer_count = few;
    authority_count = omega arith;
    additional_count = omega arith;
  };
  one = h.one;
  asked = refl;
  query = h.query;
  answers = good;
  counted = refl;
}

pub copied :
    (m : Message) (q : Query)
    → m.query_count ≡ 1
    → m.queries ≡ q ∷ []
    → Returns (message_copy_header_queries m) λ back. as_reply back ≡ reply_of m q 0 []
unfolding message_copy_header_queries copy_queries string_dup
copied m q one asked = (
  record {
    id = m.id;
    flags = record (m.flags) { qr = 0; z = 0; rcode = 0 };
    query_count = m.query_count;
    answer_count = 0;
    authority_count = 0;
    additional_count = 0;
    queries = q ∷ [];
    answers = [];
    authorities = [];
    additional = [];
  },
  bind_ok (copy_queries m.query_count 0 m.queries) _
      (ap₂ (λ (k : ℕ) (qs : List Query). copy_queries k 0 qs) one asked) refl,
  refl,
)

abbrev ended : HashTable Ipv4Cache → ℕ → Bool → Progress
ended ipv4 count banned = record {
  ipv4 = ipv4;
  answer_count = count;
  cached = true;
  banned = banned;
}

module _ {Addr : Type 0} where
  -- What the callback leaves when it has sent a reply.
  pub record Answered (s : Server Addr) (reply : List ℕ) (address : Addr) (s' : Server Addr)
      : Type 0 where
    pub clients_valid : IsValid s'.clients
    pub same_clients : (f : Str) → view s'.clients f ≡ view s.clients f
    pub ipv4_valid : IsValid s'.ipv4
    pub same_ipv4 : SameNodes s.ipv4 s'.ipv4
    pub same_ipv6 : s'.ipv6 ≡ s.ipv6
    pub same_cname : s'.cname ≡ s.cname
    pub replied : s'.sent ≡ s.sent ++ to_client address reply ∷ []

  -- The name that was put and removed is not there, as before.
  put_back :
      (k f : Str) (before after : HashTable Addr) (address : Addr) (now : HashTable Addr)
      → view before k ≡ none
      → view now f ≡ (if same k f then some address else view before f)
      → view after f ≡ (if same k f then none else view now f)
      → view after f ≡ view before f
  put_back k f before after address now absent put removed = elim (Bool-cases (same k f)) [
    | inl s ↦
        let k_is_f : k ≡ f = (string_equal_iff k f).0 s in removed ∙ rw (s, ← k_is_f, absent) refl
    | inr s ↦ removed ∙ rw (s, put, s) refl
  ]

  -- The callback from a first loop that has found answers or a ban.
  pub reply_sent :
      (s : Server Addr) (m : Message) (q : Query) (address : Addr) (rcode : ℕ)
      (answers : List ResourceRecord)
      → IsMessage m q
      → rcode < 16
      → All IsRecord answers
      → length answers < 2 ^ 16
      → IsValid s.clients
      → view s.clients (feature_bytes m q) ≡ none
      → s.clients.count < s.clients.threshold
      → (ipv4 : HashTable Ipv4Cache) (count : ℕ) (banned : Bool) → IsValid ipv4
      → SameNodes s.ipv4 ipv4
      → (fuel : ℕ) (block rest : List ℕ) → name_fuel ≤ fuel
      → count_queries fuel s.cname s.ipv6 (q ∷ []) 0 1 (start s) ≡ ok (ended ipv4 count banned)
      → back_message_of fuel s.cname s.ipv6
          (as_received m)
          (ended ipv4 count banned)
          (reply_of m q 0 [])
        ≡ ok (reply_of m q rcode answers)
      → length (message_bytes (reply_of m q rcode answers) q) ≤ length block
      → Returns
          (bind_socket_read fuel block
            (length (message_bytes m q))
            (message_bytes m q ++ rest)
            address
            s)
          (Answered s (message_bytes (reply_of m q rcode answers) q) address)
  unfolding reply_or_ask
  reply_sent s m q address rcode answers h small good few valid absent roomy ipv4 count banned p4
        kept fuel block rest enough counted back room =
      let n = length (message_bytes m q) in
      let m' = as_received m in
      let h' = as_received-IsMessage m q h in
      let k = feature_bytes m q in
      let long : 0 < n = omega (
        arith,
        length-header_bytes m,
        length-append (header_bytes m ++ question_bytes q) (answer_bytes m.answers),
        length-append (header_bytes m) (question_bytes q),
      ) in
      let (clients, stored, (valid', stores, safe)) =
        hash_table_put-IsRemovable s.clients k address valid absent roomy in
      let reply = reply_of m q rcode answers in
      let s₁ : Server Addr = record s { clients = clients; ipv4 = ipv4 } in
      let waits : view clients k ≡ some address = stores k ∙ rw (string_equal_refl k) refl in
      let (s', sent, (wire, valid'', reads, e4, e6, ec)) =
        (send_response_lem block s₁ reply q (reply_of-IsMessage m q rcode answers h small good few)
            room valid' safe).1
          address waits in
      let looked : count_queries fuel s.cname s.ipv6 m'.queries 0 m'.query_count (start s)
          ≡ ok (ended ipv4 count banned) =
        rw (h.one, h.asked) counted in
      let (copy, copies, same_reply) = copied m' q h'.one h'.asked in
      (
        s',
        bind_socket_read-heard fuel block n (message_bytes m q ++ rest) address s long
            ∙ bind_ok _ _ (buf2message_lem m q fuel rest h enough) (
                bind_ok _ _ (message_log_lem m' q h') (
                  bind_ok _ _ (message2feature_string_lem m' q h'.one h'.asked) (
                    bind_ok _ _ stored (
                      bind_ok _ _ copies (
                        bind_ok _ _ looked (
                          rw same_reply (
                            bind_ok _ _ (bind_ok _ _ back sent)
                              (bind_ok _ _ (message_free_lem m' q h') refl)))))))),
        record {
          clients_valid = valid'';
          same_clients =
              λ f. put_back k f s.clients s'.clients address clients absent (stores f) (reads f);
          ipv4_valid = rw e4 p4;
          same_ipv4 = rw e4 kept;
          same_ipv6 = e6;
          same_cname = ec;
          replied = wire;
        },
      )
