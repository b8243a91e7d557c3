-- ===== src/Server/Ask.antt =====
-- socket.c: `bind_socket_read` on a question that the caches do not answer.
use post_dns.Base.{
  ℕ, zero, suc, ◌+◌, ◌≤◌, ◌<◌, ◌≡◌, refl, sym, ◌∙◌, arith, List, [], ◌∷◌, ◌++◌, true, false, none,
  some, length, length-append, Run, ok, Returns, ◌>>=◌, ◌>>◌, bind_ok,
}
use mathlib.Core.Path.{ap₂}
use post_dns.Text.{Str, string_dup}
use post_dns.HashTable.{HashTable, hash_table_put}
use post_dns.HashTable.Fresh.{hash_table_put-IsRemovable}
use post_dns.HashTable.Remove.{IsRemovable}
use post_dns.HashTable.Chain.{same, entries}
use post_dns.HashTable.Invariant.{view, IsPlaced, IsValid, node_of}
use post_dns.HashTable.Put.{hash_table_get-view, hash_table_put_lem, Stores}
use post_dns.Cache.{ipv4_cache_get, ipv6_cache_get, cname_cache_get}
use post_dns.Message.{Query, Message, type_a, type_cname, type_aaaa}
use post_dns.Message.Parse.{buf2message, name_fuel}
use post_dns.Message.Build.{message2feature_string}
use post_dns.Message.Release.{message_log, message_free}
use post_dns.Message.Header.{header_bytes}
use post_dns.Message.Written.{
  IsMessage, message_bytes, length-header_bytes, question_bytes, answer_bytes,
}
use post_dns.Message.RoundTrip.{as_received, buf2message_lem}
use post_dns.Server.{Server, to_upstream, trimmed, message_copy_header_queries, copy_queries}
use post_dns.Server.Lookup.{Progress, count_ipv4, count_ipv6, count_query, count_queries}
use post_dns.Server.Receive.{as_reply, reply_or_ask, bind_socket_read}
use post_dns.Server.Aliases.{Leads, count_aliases-Leads}
use post_dns.Server.Send.{feature_bytes, message2feature_string_lem, send_query_lem}
use post_dns.Message.Logged.{message_log_lem}
use post_dns.Server.Received.{as_received-IsMessage, message_free_lem}

-- A name that is put anew can be removed.
fresh-IsRemovable :
    {A : Type 0} (t : HashTable A) (k : Str) (v : A) {t' : HashTable A}
    → IsValid t
    → view t k ≡ none
    → t.count < t.threshold
    → hash_table_put t (some k) (some v) ≡ ok t'
    → IsRemovable k (entries (node_of t' k))
fresh-IsRemovable t k v {t' = t'} valid absent roomy run =
    let (t₁, run₁, (valid₁, stores, safe)) = hash_table_put-IsRemovable t k v valid absent roomy in
    let same_table : t₁ ≡ t' = (let e = sym run₁ ∙ run in cc) in rw (← same_table) safe

-- The question is of a type that is handled, and after `n` aliases the caches have nothing for it.
pub data IsMissing {Addr : Type 0} (s : Server Addr) (q : Query) (n : ℕ) : Type 0 where
  no_address4 :
      (d : Str)
      → Leads s.cname n q.name d
      → q.type ≡ type_a
      → view s.cname d ≡ none
      → view s.ipv4 d ≡ none
      → IsMissing s q n
  no_alias : q.type ≡ type_cname → view s.cname q.name ≡ none → IsMissing s q n
  no_address6 :
      (d : Str)
      → Leads s.cname n q.name d
      → q.type ≡ type_aaaa
      → view s.cname d ≡ none
      → view s.ipv6 d ≡ none
      → IsMissing s q n

copied_once :
    (m : Message) (q : Query)
    → m.query_count ≡ 1
    → m.queries ≡ q ∷ []
    → Returns (message_copy_header_queries m) λ back. back.id ≡ m.id
unfolding message_copy_header_queries copy_queries
copied_once m q one asked = (
  record {
    id = m.id;
    flags = record (m.flags) { qr = 0; z = 0; rcode = 0 };
    query_count = m.query_count;
    answer_count = 0;
    authority_count = 0;
    additional_count = 0;
    queries = record { name = string_dup q.name; type = q.type; class = q.class } ∷ [];
    answers = [];
    authorities = [];
    additional = [];
  },
  bind_ok (copy_queries m.query_count 0 m.queries) _
      (ap₂ (λ (k : ℕ) (qs : List Query). copy_queries k 0 qs) one asked) refl,
  refl,
)

module _ {Addr : Type 0} where
  abbrev pub start : Server Addr → Progress
  start s = record { ipv4 = s.ipv4; answer_count = 0; cached = true; banned = false }

  abbrev missed : Server Addr → ℕ → Progress
  missed s count = record (start s) { answer_count = count; cached = false }

  count_missing :
      (fuel : ℕ) (s : Server Addr) (q : Query) (n : ℕ)
      → IsPlaced s.ipv4
      → IsPlaced s.ipv6
      → IsPlaced s.cname
      → IsMissing s q n
      → n < fuel
      → (count : ℕ) × (count_query fuel s.cname s.ipv6 q (start s) ≡ ok (missed s count))
  unfolding count_query count_ipv4 count_ipv6 ipv4_cache_get ipv6_cache_get cname_cache_get
  count_missing fuel s q n p4 p6 pc (no_address4 d l t end e) enough = (
    0 + n,
    rw t (
        bind_ok _ _ (count_aliases-Leads s.cname pc n q.name d l end fuel 0 enough)
          (bind_ok _ _ (hash_table_get-view p4 d) (rw e refl))),
  )
  count_missing fuel s q n p4 p6 pc (no_alias t alone) enough =
      (0, rw t (bind_ok _ _ (hash_table_get-view pc q.name) (rw alone refl)))
  count_missing fuel s q n p4 p6 pc (no_address6 d l t end e) enough = (
    0 + n,
    rw t (
        bind_ok _ _ (count_aliases-Leads s.cname pc n q.name d l end fuel 0 enough)
          (bind_ok _ _ (hash_table_get-view p6 d) (rw e refl))),
  )

  -- The callback after its first test.
  abbrev pub heard : ℕ → List ℕ → ℕ → List ℕ → Addr → Server Addr → Run (Server Addr)
  heard fuel block n base address s = do
    message ← buf2message fuel base n
    _ ← message_log message
    feature ← message2feature_string message
    clients ← hash_table_put s.clients (some feature) (some address)
    back ← message_copy_header_queries message
    p ← count_queries fuel s.cname s.ipv6 message.queries 0 message.query_count (start s)
    s' ←
        reply_or_ask fuel block message (as_reply back) p
          (record s { clients = clients; ipv4 = p.ipv4 })
    message_free message
    ok s'

  pub bind_socket_read-heard :
      (fuel : ℕ) (block : List ℕ) (n : ℕ) (base : List ℕ) (address : Addr) (s : Server Addr)
      → 0 < n
      → bind_socket_read fuel block n base address s ≡ heard fuel block n base address s
  unfolding bind_socket_read
  bind_socket_read-heard fuel block zero base address s h = absurd (omega arith)
  bind_socket_read-heard fuel block (suc n) base address s h = refl

  -- What the clients' table holds after the callback, and what is sent.
  pub record Asks (s : Server Addr) (m : Message) (q : Query) (address : Addr) (s' : Server Addr)
      : Type 0 where
    pub clients_valid : IsValid s'.clients
    pub waits : Stores s.clients (feature_bytes m q) address s'.clients
    pub removable :
        view s.clients (feature_bytes m q) ≡ none
        → s.clients.count < s.clients.threshold
        → IsRemovable (feature_bytes m q) (entries (node_of s'.clients (feature_bytes m q)))
    pub same_ipv4 : s'.ipv4 ≡ s.ipv4
    pub same_ipv6 : s'.ipv6 ≡ s.ipv6
    pub same_cname : s'.cname ≡ s.cname
    pub asked : s'.sent ≡ s.sent ++ to_upstream (message_bytes (trimmed (as_received m)) q) ∷ []

  -- A client's well-formed message with one question, of a type that is handled and for which,
  -- behind `n` aliases, the caches have nothing, on a valid table of clients and caches whose names
  -- are placed, with 257 rounds of fuel or more, more than `n`, and room in the block: the callback
  -- returns, records the client under the question and the identifier, sends the same message to the
  -- upstream server, with Z and the last two counts cleared, and changes no cache. If nobody waited
  -- under this key and the table was below its limit, the client does not stand first of three or
  -- more in its bucket.
  pub bind_socket_read-Asks :
      (s : Server Addr) (m : Message) (q : Query) (address : Addr)
      → IsMessage m q
      → IsValid s.clients
      → IsPlaced s.ipv4
      → IsPlaced s.ipv6
      → IsPlaced s.cname
      → (n : ℕ) → IsMissing s q n
      → (fuel : ℕ) (block rest : List ℕ) → name_fuel ≤ fuel
      → n < fuel
      → length (message_bytes (trimmed (as_received m)) q) ≤ length block
      → Returns
          (bind_socket_read fuel block
            (length (message_bytes m q))
            (message_bytes m q ++ rest)
            address
            s)
          (Asks s m q address)
  unfolding count_queries reply_or_ask
  bind_socket_read-Asks s m q address h valid p4 p6 pc n' missing fuel block rest enough far room =
      let n = length (message_bytes m q) in
      let m' = as_received m in
      let h' = as_received-IsMessage m q h in
      let long : 0 < n = omega (
        arith,
        length-header_bytes m,
        length-append (header_bytes m ++ question_bytes q) (answer_bytes m.answers),
        length-append (header_bytes m) (question_bytes q),
      ) in
      let (clients, stored, (valid', stores)) =
        hash_table_put_lem s.clients (feature_bytes m' q) address valid in
      let (count, missed_one) = count_missing fuel s q n' p4 p6 pc missing far in
      let counted : count_queries fuel s.cname s.ipv6 m'.queries 0 m'.query_count (start s)
          ≡ ok (missed s count) =
        rw (h.one, h.asked) (bind_ok _ _ missed_one refl) in
      let (back, copied, same) = copied_once m' q h.one h.asked in
      let s₁ : Server Addr = record s { clients = clients } in
      (
        record s {
          clients = clients;
          sent = s.sent ++ to_upstream (message_bytes (trimmed m') q) ∷ [];
        },
        bind_socket_read-heard fuel block n (message_bytes m q ++ rest) address s long
            ∙ bind_ok _ _ (buf2message_lem m q fuel rest h enough) (
                bind_ok _ _ (message_log_lem m' q h') (
                  bind_ok _ _ (message2feature_string_lem m' q h'.one h'.asked) (
                    bind_ok _ _ stored (
                      bind_ok _ _ copied (
                        bind_ok _ _ counted (
                          bind_ok _ _ (send_query_lem block s₁ m' q h' room)
                            (bind_ok _ _ (message_free_lem m' q h') refl))))))),
        record {
          clients_valid = valid';
          waits = stores;
          removable = λ absent roomy.
              fresh-IsRemovable s.clients (feature_bytes m' q) address valid absent roomy stored;
          same_ipv4 = refl;
          same_ipv6 = refl;
          same_cname = refl;
          asked = refl;
        },
      )
