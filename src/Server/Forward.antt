-- ===== src/Server/Forward.antt =====
-- socket.c: `query_socket_read` on an answer that a client waits for.
use post_dns.Base.{
  ℕ, zero, suc, ◌≤◌, ◌<◌, ◌≡◌, refl, ap, ◌∙◌, arith, List, [], ◌∷◌, ◌++◌, false, Option, none, some,
  if◌then◌else◌, length, length-append, Run, ok, Returns, ◌>>=◌, ◌>>◌, bind_ok,
}
use post_dns.Text.{Str}
use post_dns.HashTable.{HashTable}
use post_dns.HashTable.Chain.{same, entries}
use post_dns.HashTable.Invariant.{view, IsValid, node_of}
use post_dns.HashTable.Put.{Stores}
use post_dns.HashTable.Remove.{IsRemovable}
use post_dns.Cache.{Ipv4Cache, Ipv6Cache}
use post_dns.Cache.Put.{ipv4_kept, ipv4_cache_put_lem, ipv6_cache_put_lem}
use post_dns.Message.{Query, Message}
use post_dns.Message.Parse.{buf2message, name_fuel}
use post_dns.Message.Release.{message_log, message_free}
use post_dns.Message.Header.{header_bytes}
use post_dns.Message.Written.{
  IsMessage, message_bytes, length-header_bytes, question_bytes, answer_bytes,
}
use post_dns.Message.RoundTrip.{as_received, buf2message_lem}
use post_dns.Server.{Server, to_client, trimmed, send_response}
use post_dns.Server.Receive.{Collected, collect_answers, store_ipv4, store_ipv6, query_socket_read}
use post_dns.Server.Send.{feature_bytes, send_response_lem}
use post_dns.Message.Logged.{message_log_lem}
use post_dns.Server.Received.{as_received-IsMessage, message_free_lem}
use post_dns.Server.Collect.{addresses4, addresses6, name4, name6, aliases, collect_answers-Gathers}

abbrev pub learned4 : ℕ → List ℕ → Ipv4Cache
learned4 now node = record { node = node; ttl = 120; timestamp = now; manual = false }

abbrev pub learned6 : ℕ → List (List ℕ) → Ipv6Cache
learned6 now node = record { node = node; ttl = 120; timestamp = now; manual = false }

-- What a cache holds after all the addresses of an answer went to one name, or to none.
abbrev pub Learns4 : ℕ → Option Str → List ℕ → HashTable Ipv4Cache → HashTable Ipv4Cache → Type 0
Learns4 now none node t t' = t' ≡ t
Learns4 now (some name) node t t' =
    Stores t name (ipv4_kept now (learned4 now node) (view t name)) t'

abbrev pub Learns6 :
    ℕ → Option Str → List (List ℕ) → HashTable Ipv6Cache → HashTable Ipv6Cache → Type 0
Learns6 now none node t t' = t' ≡ t
Learns6 now (some name) node t t' = Stores t name (learned6 now node) t'

store_ipv4-Learns4 :
    (now : ℕ) (o : Option Str) (node : List ℕ) (t : HashTable Ipv4Cache)
    → IsValid t
    → Returns (store_ipv4 now o node t) λ t'. IsValid t' × Learns4 now o node t t'
unfolding store_ipv4
store_ipv4-Learns4 now none node t valid = (t, refl, (valid, refl))
store_ipv4-Learns4 now (some name) node t valid =
    ipv4_cache_put_lem t now name (learned4 now node) valid

store_ipv6-Learns6 :
    (now : ℕ) (o : Option Str) (node : List (List ℕ)) (t : HashTable Ipv6Cache)
    → IsValid t
    → Returns (store_ipv6 now o node t) λ t'. IsValid t' × Learns6 now o node t t'
unfolding store_ipv6
store_ipv6-Learns6 now none node t valid = (t, refl, (valid, refl))
store_ipv6-Learns6 now (some name) node t valid =
    ipv6_cache_put_lem t now name (learned6 now node) valid

same-Learns4 :
    (now : ℕ) {o o' : Option Str} {node node' : List ℕ} (t t₁ t₂ : HashTable Ipv4Cache)
    → o ≡ o'
    → node ≡ node'
    → t₂ ≡ t₁
    → Learns4 now o node t t₁
    → Learns4 now o' node' t t₂
same-Learns4 now t t₁ t₂ e e' e'' l = rw (← e, ← e', e'') l

same-Learns6 :
    (now : ℕ) {o o' : Option Str} {node node' : List (List ℕ)} (t t₁ t₂ : HashTable Ipv6Cache)
    → o ≡ o'
    → node ≡ node'
    → t₂ ≡ t₁
    → Learns6 now o node t t₁
    → Learns6 now o' node' t t₂
same-Learns6 now t t₁ t₂ e e' e'' l = rw (← e, ← e', e'') l

module _ {Addr : Type 0} where
  abbrev nothing : Server Addr → Collected
  nothing s = record {
    ipv4_domain = none;
    ipv4_node = [];
    ipv6_domain = none;
    ipv6_node = [];
    cname = s.cname;
  }

  -- The callback after its first test.
  abbrev answered : ℕ → List ℕ → ℕ → ℕ → List ℕ → Server Addr → Run (Server Addr)
  answered fuel block now n base s = do
    message ← buf2message fuel base n
    _ ← message_log message
    c ← collect_answers now message.answers 0 message.answer_count (nothing s)
    ipv4 ← store_ipv4 now c.ipv4_domain c.ipv4_node s.ipv4
    ipv6 ← store_ipv6 now c.ipv6_domain c.ipv6_node s.ipv6
    s' ← send_response block (record s { ipv4 = ipv4; ipv6 = ipv6; cname = c.cname }) message
    message_free message
    ok s'

  query_socket_read-answered :
      (fuel : ℕ) (block : List ℕ) (now n : ℕ) (base : List ℕ) (s : Server Addr)
      → 0 < n
      → query_socket_read fuel block now n base s ≡ answered fuel block now n base s
  unfolding query_socket_read
  query_socket_read-answered fuel block now zero base s h = absurd (omega arith)
  query_socket_read-answered fuel block now (suc n) base s h = refl

  pub record AreValid (s : Server Addr) : Type 0 where
    pub clients : IsValid s.clients
    pub ipv4 : IsValid s.ipv4
    pub ipv6 : IsValid s.ipv6
    pub cname : IsValid s.cname

  pub record Forwards (now : ℕ) (m : Message) (q : Query) (address : Addr) (s s' : Server Addr)
      : Type 0 where
    pub valid : AreValid s'
    pub forgotten :
        (f : Str)
        → view s'.clients f ≡ (if same (feature_bytes m q) f then none else view s.clients f)
    pub ipv4 :
        Learns4 now
          (name4 none (as_received m).answers)
          (addresses4 (as_received m).answers)
          s.ipv4
          s'.ipv4
    pub ipv6 :
        Learns6 now
          (name6 none (as_received m).answers)
          (addresses6 (as_received m).answers)
          s.ipv6
          s'.ipv6
    pub cname : (d : Str) → view s'.cname d ≡ aliases now d (as_received m).answers (view s.cname d)
    pub sent :
        s'.sent ≡ s.sent ++ to_client address (message_bytes (trimmed (as_received m)) q) ∷ []

  pub query_socket_read-Forwards :
      (s : Server Addr) (m : Message) (q : Query) (address : Addr)
      → IsMessage m q
      → AreValid s
      → view s.clients (feature_bytes m q) ≡ some address
      → IsRemovable (feature_bytes m q) (entries (node_of s.clients (feature_bytes m q)))
      → (fuel now : ℕ) (block rest : List ℕ) → name_fuel ≤ fuel
      → length (message_bytes (trimmed (as_received m)) q) ≤ length block
      → Returns
          (query_socket_read fuel block now
            (length (message_bytes m q))
            (message_bytes m q ++ rest)
            s)
          (Forwards now m q address s)
  query_socket_read-Forwards s m q address h valid waits safe fuel now block rest enough room =
      let n = length (message_bytes m q) in
      let m' = as_received m in
      let h' = as_received-IsMessage m q h in
      let long : 0 < n = omega (
        arith,
        length-header_bytes m,
        length-append (header_bytes m ++ question_bytes q) (answer_bytes m.answers),
        length-append (header_bytes m) (question_bytes q),
      ) in
      let (c, gathered, g) =
        collect_answers-Gathers now m'.answers 0 m'.answers (nothing s) h'.answers refl
          valid.cname in
      let collected : collect_answers now m'.answers 0 m'.answer_count (nothing s) ≡ ok c =
        ap (λ (k : ℕ). collect_answers now m'.answers 0 k (nothing s)) h'.counted ∙ gathered in
      let (ipv4, run4, (valid4, learns4)) =
        store_ipv4-Learns4 now c.ipv4_domain c.ipv4_node s.ipv4 valid.ipv4 in
      let (ipv6, run6, (valid6, learns6)) =
        store_ipv6-Learns6 now c.ipv6_domain c.ipv6_node s.ipv6 valid.ipv6 in
      let s₁ : Server Addr = record s { ipv4 = ipv4; ipv6 = ipv6; cname = c.cname } in
      let (s', sends, (sent, valid', reads, kept4, kept6, kept)) =
        (send_response_lem block s₁ m' q h' room valid.clients safe).1 address waits in
      (
        s',
        query_socket_read-answered fuel block now n (message_bytes m q ++ rest) s long
            ∙ bind_ok _ _ (buf2message_lem m q fuel rest h enough) (
                bind_ok _ _ (message_log_lem m' q h') (
                  bind_ok _ _ collected (
                    bind_ok _ _ run4 (
                      bind_ok _ _ run6
                        (bind_ok _ _ sends (bind_ok _ _ (message_free_lem m' q h') refl)))))),
        record {
          valid = record {
            clients = valid';
            ipv4 = rw kept4 valid4;
            ipv6 = rw kept6 valid6;
            cname = rw kept g.valid;
          };
          forgotten = reads;
          ipv4 = same-Learns4 now s.ipv4 ipv4 s'.ipv4 g.domain4 g.nodes4 kept4 learns4;
          ipv6 = same-Learns6 now s.ipv6 ipv6 s'.ipv6 g.domain6 g.nodes6 kept6 learns6;
          cname = λ d. rw kept (g.aliased d);
          sent = sent;
        },
      )
